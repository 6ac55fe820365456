-- ===== src/Relay.antt =====
-- The way of a message from a room to its players: SendToClient of src/Source/LogicServer.cpp hands it
-- to the user's gate, and OnMsgBodyAnalysised of src/Source/GateServer.cpp to the user's socket. What
-- one server sends on a socket arrives at the other in the same order.
pub mod Delivery
pub mod Frames
pub mod Service
mod Examples
use ancestral_property_serve.Prelude.{
  ℕ, Bool, true, false, ◌&&◌, Option, none, some, List, [], ◌∷◌, ◌++◌, lookup, contains, at, ◌==◌,
  if◌then◌else◌, ◌≡◌,
}
use ancestral_property_serve.Enums.{BodyType}
use ancestral_property_serve.Room.State.{Sent, Body, RequestType}
use ancestral_property_serve.Room.Messages.{is_end}
use ancestral_property_serve.Gate.{Content, Package, Gate}
use ancestral_property_serve.Gate.Routing.{on_msg_body_analysised}

-- What the logic server sends on the socket of a gate.
abbrev pub to_gate : ℕ → List (ℕ × Sent) → List Sent
to_gate fd [] = []
to_gate fd ((to, m) ∷ l) = let rest = to_gate fd l in if to == fd then m ∷ rest else rest

-- `encode` is what protobuf makes of a body, without the field that the gate reads.
module _ (encode : Body → List ℕ) where
  abbrev pub content_of : Body → Content
  content_of (Body.join_room roomid result type ret) =
      Content.room_message type (encode (Body.join_room roomid result type ret))
  content_of (Body.leave_room roomid result type ret) =
      Content.room_message type (encode (Body.leave_room roomid result type ret))
  content_of (Body.create_room roomid ret result roomname type is_roomhost) =
      Content.room_message type
        (encode (Body.create_room roomid ret result roomname type is_roomhost))
  content_of (Body.get_room_list room_list size ret type) =
      Content.room_message type (encode (Body.get_room_list room_list size ret type))
  content_of b = Content.opaque (encode b)

  abbrev pub packaged : Sent → Package
  packaged m = record { package_type = m.type; userid = m.userid; content = content_of m.body }

  -- The gate reads the messages from the socket of the logic server.
  unfoldable pub relay : ℕ → ℕ → List Sent → Gate → Gate
  relay now fd [] g = g
  relay now fd (m ∷ ms) g = relay now fd ms (on_msg_body_analysised now (packaged m) fd g)

  -- The packages that reach a client: each message but the end of a game, if the user has a
  -- connection.
  abbrev pub deliveries : Gate → List Sent → List (ℕ × Package)
  deliveries g [] = []
  deliveries g (m ∷ ms) =
      let rest = deliveries g ms in
      let fd = at m.userid 0 g.user_fd_record in
      if is_end m.body
      then rest
      else if contains fd g.connections
      then (fd, packaged m) ∷ rest
      else rest
