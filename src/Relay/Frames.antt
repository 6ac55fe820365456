-- ===== src/Relay/Frames.antt =====
-- Users' operations come back to all players of a room as a frame: Room::Tick (src/Logic/Room.cpp),
-- SendToClient (src/Source/LogicServer.cpp) and the gate (src/Source/GateServer.cpp) in a row.
use ancestral_property_serve.Prelude.{
  ℕ, Bool, true, false, ◌&&◌, Option, none, some, List, [], ◌∷◌, ◌++◌, map, Map, lookup, contains,
  keys, at, ◌==◌, if◌then◌else◌, if_keeps, ◌≡◌, ◌∙◌, ap, refl, arith,
}
use ancestral_property_serve.Enums.{BodyType}
use ancestral_property_serve.Room.State.{Room, Sent, Body, Frame, UserOperate}
use ancestral_property_serve.Room.Messages.{IsFromLogic, AllFromLogic}
use ancestral_property_serve.Room.Game.{tick}
use ancestral_property_serve.Room.Operations.{
  operate_each, stamped, next_frame, operations_broadcast,
}
use ancestral_property_serve.Logic.{Logic, put_room}
use ancestral_property_serve.Logic.Messages.{routed, forward-outbox}
use ancestral_property_serve.Gate.{Content, Gate}
use ancestral_property_serve.Relay.{to_gate, relay, packaged, deliveries}
use ancestral_property_serve.Relay.Delivery.{FromServer, relay-outbox}

abbrev is_at : ℕ → Option ℕ → Bool
is_at fd none = false
is_at fd (some gate) = gate == fd

-- The users whose gate is on socket fd, and who have an open socket there.
abbrev pub players_on : ℕ → Map ℕ → Gate → List ℕ → List ℕ
players_on fd gates g [] = []
players_on fd gates g (u ∷ us) =
    let rest = players_on fd gates g us in
    if is_at fd (lookup u gates) && contains (at u 0 g.user_fd_record) g.connections
    then u ∷ rest
    else rest

abbrev frame_to : Frame → ℕ → Sent
frame_to f u = record { type = BodyType.frame; body = Body.frame f; userid = u }

added-AllFromLogic :
    (fd : ℕ) (m : Sent) (rest : List (ℕ × Sent)) (gate : Option ℕ)
    → IsFromLogic m
    → AllFromLogic (to_gate fd rest)
    → AllFromLogic (to_gate fd (elim gate [ none ↦ rest | some to ↦ (to, m) ∷ rest ]))
added-AllFromLogic fd m rest none h hs = hs
added-AllFromLogic fd m rest (some to) h hs =
    if_keeps AllFromLogic (to == fd) (λ _. (h, hs)) (λ _. hs)

frames-AllFromLogic :
    (fd : ℕ) (gates : Map ℕ) (f : Frame) (us : List ℕ)
    → AllFromLogic (to_gate fd (routed gates (map (frame_to f) us)))
frames-AllFromLogic fd gates f [] = tt
frames-AllFromLogic fd gates f (u ∷ us) =
    added-AllFromLogic fd (frame_to f u) _ (lookup u gates) (refl, tt)
      (frames-AllFromLogic fd gates f us)

frames-deliveries :
    (encode : Body → List ℕ) (fd : ℕ) (gates : Map ℕ) (g : Gate) (f : Frame) (us : List ℕ)
    → deliveries encode g (to_gate fd (routed gates (map (frame_to f) us)))
      ≡ map
          (λ u. (at u 0 g.user_fd_record, packaged encode (frame_to f u)))
          (players_on fd gates g us)
frames-deliveries encode fd gates g f [] = refl
frames-deliveries encode fd gates g f (u ∷ us) =
    ground (arith, frames-deliveries encode fd gates g f us)

-- In a running game, operations that the logic server hands to the room between two ticks come out of
-- a gate with the second: the gate sends one frame to each player of the game who is at this gate with
-- an open socket, on that socket, in the order of the user ids. All get the same body, the frame with
-- the next number, in which the operations of the room's users stand in order of arrival, each under
-- its user's pid. The socket of the logic server at the gate is that of no user.
pub operations_reach_players :
    (encode : Body → List ℕ) (now to_gate_fd logic_fd k : ℕ) (r : Room)
    (ops : List (ℕ × UserOperate)) (s : Logic) (g : Gate)
    → r.m_game_started ≡ true
    → r.outbox ≡ []
    → FromServer logic_fd g
    → let r' = (tick true (operate_each r ops)).0 in
      let f = next_frame r (stamped r.userid2userpid ops) in
      let new = routed s.user_gate r'.outbox in
      ((put_room k r' s).outbox ≡ s.outbox ++ new)
      × ((relay encode now logic_fd (to_gate to_gate_fd new) g).outbox
          ≡ g.outbox
            ++ map
                (λ u. (
                  at u 0 g.user_fd_record,
                  record {
                    package_type = BodyType.frame;
                    userid = u;
                    content = Content.opaque (encode (Body.frame f));
                  },
                ))
                (players_on to_gate_fd s.user_gate g (keys r.in_game_id2pid)))
unfolding put_room
operations_reach_players encode now fd lfd k r ops s g started empty v =
    let r' = (tick true (operate_each r ops)).0 in
    let f = next_frame r (stamped r.userid2userpid ops) in
    let us = keys r.in_game_id2pid in
    let sent : r'.outbox ≡ map (frame_to f) us =
      (operations_broadcast r ops started).0 ∙ ap (λ l. l ++ map (frame_to f) us) empty in
    (
      forward-outbox r'.outbox _,
      ap (λ l. (relay encode now lfd (to_gate fd (routed s.user_gate l)) g).outbox) sent
          ∙ relay-outbox encode now lfd _ g v (frames-AllFromLogic fd s.user_gate f us)
          ∙ ap (λ l. g.outbox ++ l) (frames-deliveries encode fd s.user_gate g f us),
    )
