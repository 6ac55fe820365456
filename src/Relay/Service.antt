-- ===== src/Relay/Service.antt =====
-- A logic server (src/Source/LogicServer.cpp) over its life, and a gate (src/Source/GateServer.cpp)
-- that reads all that it sends.
use ancestral_property_serve.Prelude.{ℕ, ◌≡◌, IntSet, List, [], ◌∷◌, ◌++◌, ◌==◌, if_keeps, some}
use ancestral_property_serve.Room.State.{Sent, Body}
use ancestral_property_serve.Room.Messages.{AllFromLogic}
use ancestral_property_serve.Logic.{Logic}
use ancestral_property_serve.Logic.Handlers.{new_logic}
use ancestral_property_serve.Logic.History.{Event, run, FitAll, run-new_logic-IsSound}
use ancestral_property_serve.Logic.Messages.{AllOut}
use ancestral_property_serve.Logic.Sending.{run-new_logic-AllOut}
use ancestral_property_serve.Gate.{Gate}
use ancestral_property_serve.Relay.{to_gate, relay, deliveries}
use ancestral_property_serve.Relay.Delivery.{FromServer, relay-outbox}

to_gate-AllFromLogic : (fd : ℕ) (l : List (ℕ × Sent)) → AllOut l → AllFromLogic (to_gate fd l)
to_gate-AllFromLogic fd [] h = tt
to_gate-AllFromLogic fd ((to, m) ∷ l) (h, hs) =
    if_keeps AllFromLogic (to == fd) (λ _. (h, to_gate-AllFromLogic fd l hs))
      (λ _. to_gate-AllFromLogic fd l hs)

-- A logic server that has just started handles any messages and frames that fit, in any order. All that
-- it has sent to a gate by then the gate hands on, in order and unchanged, each message on the socket
-- that it has for the user, if that is open; all but the messages that a game has ended, which the gate
-- drops. The socket of the logic server at the gate is that of no user.
pub run-relay :
    (encode : Body → List ℕ) (now gate_fd logic_fd : ℕ) (pool : IntSet) (es : List Event) (g : Gate)
    → FitAll es (new_logic pool)
    → FromServer logic_fd g
    → (t : Logic) × (run es (new_logic pool) ≡ some t)
      × ((relay encode now logic_fd (to_gate gate_fd t.outbox) g).outbox
          ≡ g.outbox ++ deliveries encode g (to_gate gate_fd t.outbox))
run-relay encode now gate_fd logic_fd pool es g fits v =
    let (t, o, _, _) = run-new_logic-IsSound pool es fits in
    (
      t,
      o,
      relay-outbox encode now logic_fd (to_gate gate_fd t.outbox) g v
          (to_gate-AllFromLogic gate_fd t.outbox (run-new_logic-AllOut pool es t o)),
    )
