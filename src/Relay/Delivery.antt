-- ===== src/Relay/Delivery.antt =====
-- What of the logic server's messages the gate hands on (OnMsgBodyAnalysised of
-- src/Source/GateServer.cpp).
use ancestral_property_serve.Prelude.{
  ℕ, none, some, List, [], ◌∷◌, ◌++◌, append_assoc, append-nil, Map, lookup, lookup-insert,
  contains, touch, at, if◌then◌else◌, if_keeps, ◌≡◌, ◌∙◌, ap, sym, refl, Bool-cases, Option-cases,
  inl, inr, arith,
}
use ancestral_property_serve.Enums.{body_type_code}
use ancestral_property_serve.Room.State.{Sent, Body}
use ancestral_property_serve.Gate.{Package, Gate, is_client, send_msg, send_to_user}
use ancestral_property_serve.Gate.Routing.{
  on_msg_body_analysised, check_message_valid, route, route_content,
}
use ancestral_property_serve.Room.Messages.{body_type, IsFromLogic, AllFromLogic, is_end}
use ancestral_property_serve.Relay.{content_of, packaged, relay, deliveries}

-- The socket fd is that of the logic server, and of no user.
pub record FromServer (fd : ℕ) (g : Gate) : Type 0 where
  pub is_logic : g.logic_server_client ≡ some fd
  pub no_user : lookup fd g.fd_user_record ≡ none

-- What the gate does with a message of the logic server.
abbrev handed_on : Body → Package → Gate → Gate
handed_on b p g = if is_end b then g else send_to_user p g

on_msg_body_analysised-eq :
    (encode : Body → List ℕ) (now fd userid : ℕ) (b : Body) (g : Gate)
    → FromServer fd g
    → IsFromLogic (record { type = body_type b; body = b; userid = userid })
    → let p : Package = record {
      package_type = body_type b;
      userid = userid;
      content = content_of encode b;
    } in
      on_msg_body_analysised now p fd g ≡ handed_on b p g
unfolding on_msg_body_analysised check_message_valid route route_content is_client body_type_code
on_msg_body_analysised-eq encode now fd userid (Body.join_room roomid result type ret) g v h =
    ground (arith, v.is_logic, v.no_user, h.1)
on_msg_body_analysised-eq encode now fd userid (Body.leave_room roomid result type ret) g v h =
    ground (arith, v.is_logic, v.no_user, h.1)
on_msg_body_analysised-eq encode now fd userid
      (Body.create_room roomid ret result roomname type is_roomhost) g v h =
    ground (arith, v.is_logic, v.no_user, h.1)
on_msg_body_analysised-eq encode now fd userid (Body.get_room_list room_list size ret type) g v h =
    ground (arith, v.is_logic, v.no_user, h.1)
on_msg_body_analysised-eq encode now fd userid (Body.notify_room_info users roomid game_start) g v
      h =
    ground (arith, v.is_logic, v.no_user)
on_msg_body_analysised-eq encode now fd userid (Body.start_game roomid seed userpid) g v h =
    ground (arith, v.is_logic, v.no_user)
on_msg_body_analysised-eq encode now fd userid (Body.end_game roomid) g v h =
    ground (arith, v.is_logic, v.no_user)
on_msg_body_analysised-eq encode now fd userid (Body.frame f) g v h =
    ground (arith, v.is_logic, v.no_user)
on_msg_body_analysised-eq encode now fd userid (Body.game_replay frames) g v h =
    ground (arith, v.is_logic, v.no_user)
on_msg_body_analysised-eq encode now fd userid
      (Body.reconnect roomid userpid is_roomhost seed ret msg) g v h =
    ground (arith, v.is_logic, v.no_user)

-- What the gate knows of its clients is the same.
record Alike (g h : Gate) : Type 0 where
  logic : h.logic_server_client ≡ g.logic_server_client
  users : h.fd_user_record ≡ g.fd_user_record
  open_sockets : h.connections ≡ g.connections
  sockets : (u : ℕ) → at u 0 h.user_fd_record ≡ at u 0 g.user_fd_record

at-touch : (u v : ℕ) (m : Map ℕ) → at u 0 (touch v 0 m) ≡ at u 0 m
at-touch u v m = elim (Option-cases (lookup v m)) [
  | inl e ↦ ground (arith, e, lookup-insert v u 0 m)
  | inr (w, e) ↦ ground (arith, e)
]

handed_on-Alike : (b : Body) (p : Package) (g : Gate) → Alike g (handed_on b p g)
unfolding send_to_user send_msg
handed_on-Alike b p g = elim (Bool-cases (is_end b)) [
  | inl e ↦ rw e (record { logic = refl; users = refl; open_sockets = refl; sockets = λ u. refl })
  | inr e ↦ rw e (
      if_keeps (Alike g) (contains (at p.userid 0 g.user_fd_record) g.connections)
        (λ _. record {
          logic = refl;
          users = refl;
          open_sockets = refl;
          sockets = λ u. at-touch u p.userid g.user_fd_record;
        })
        (λ _. record {
          logic = refl;
          users = refl;
          open_sockets = refl;
          sockets = λ u. at-touch u p.userid g.user_fd_record;
        }))
]

deliveries-Alike :
    (encode : Body → List ℕ) (ms : List Sent) (g h : Gate)
    → Alike g h
    → deliveries encode h ms ≡ deliveries encode g ms
deliveries-Alike encode [] g h v = refl
deliveries-Alike encode (m ∷ ms) g h v =
    ground (arith, deliveries-Alike encode ms g h v, v.open_sockets, v.sockets m.userid)

handed_on-outbox :
    (encode : Body → List ℕ) (m : Sent) (g : Gate)
    → (handed_on m.body (packaged encode m) g).outbox ≡ g.outbox ++ deliveries encode g (m ∷ [])
unfolding send_to_user send_msg
handed_on-outbox encode m g = ground (arith, append-nil g.outbox)

deliveries-cons :
    (encode : Body → List ℕ) (m : Sent) (ms : List Sent) (g : Gate)
    → deliveries encode g (m ∷ []) ++ deliveries encode g ms ≡ deliveries encode g (m ∷ ms)
deliveries-cons encode m ms g = ground arith

handles-eq :
    (encode : Body → List ℕ) (now fd : ℕ) (m : Sent) (g : Gate)
    → FromServer fd g
    → IsFromLogic m
    → on_msg_body_analysised now (packaged encode m) fd g ≡ handed_on m.body (packaged encode m) g
handles-eq encode now fd m g v h =
    let e = h.0 in rw e (on_msg_body_analysised-eq encode now fd m.userid m.body g v (refl, h.1))

-- Each message that the logic server sends to a user through a gate is handed on, in order and
-- unchanged, on the socket that the gate has for the user, if it is open; all but the message that a
-- game has ended, which the gate drops.
pub relay-outbox :
    (encode : Body → List ℕ) (now fd : ℕ) (ms : List Sent) (g : Gate)
    → FromServer fd g
    → AllFromLogic ms
    → (relay encode now fd ms g).outbox ≡ g.outbox ++ deliveries encode g ms
unfolding relay
relay-outbox encode now fd [] g v h = sym (append-nil g.outbox)
relay-outbox encode now fd (m ∷ ms) g v (h, hs) =
    let h1 = handed_on m.body (packaged encode m) g in
    let a = handed_on-Alike m.body (packaged encode m) g in
    let v1 : FromServer fd h1 = record {
      is_logic = a.logic ∙ v.is_logic;
      no_user = ap (lookup fd) a.users ∙ v.no_user;
    } in
    ap (λ x. (relay encode now fd ms x).outbox) (handles-eq encode now fd m g v h)
    ∙ relay-outbox encode now fd ms h1 v1 hs
    ∙ ap (λ l. h1.outbox ++ l) (deliveries-Alike encode ms g h1 a)
    ∙ ap (λ l. l ++ deliveries encode g ms) (handed_on-outbox encode m g)
    ∙ append_assoc g.outbox (deliveries encode g (m ∷ [])) (deliveries encode g ms)
    ∙ ap (λ l. g.outbox ++ l) (deliveries-cons encode m ms g)
