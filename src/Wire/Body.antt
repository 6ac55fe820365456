-- ===== src/Wire/Body.antt =====
-- The class of the protobuf message that a package type has (CreateMessageBody of
-- src/Header/Message/MessageUtils.h), and messages as bytes (src/Tool/Message.cpp).
-- Protobuf itself is a parameter.
use ancestral_property_serve.Prelude.{
  ℕ, ◌+◌, ◌-◌, ◌≡◌, Bool, true, Option, none, some, List, [], ◌∷◌, ◌++◌, ltb, if◌then◌else◌, length,
  Map, lookup, drop,
}
use ancestral_property_serve.Config.{head_size}
use ancestral_property_serve.Enums.{BodyType, body_type_code}
use ancestral_property_serve.Wire.{MessageHead, serialize_head, parse_head}

-- The message classes of src/Protobuf.
pub data BodyKind : Type 0 where
  login_request login_response regist_request regist_response : BodyKind
  join_room leave_room create_room get_room_list change_role join_game quit_game : BodyKind
  notify_room_info : BodyKind
  start_game end_game frame user_operate game_replay reconnect user_heart : BodyKind
  server_info user_info get_region_info_request get_region_info_response : BodyKind
  join_region_request join_region_response server_conn_change : BodyKind

-- The cases of the switch, in its order.
abbrev body_kinds : Map BodyKind
body_kinds =
    (body_type_code BodyType.login_request, login_request)
    ∷ (body_type_code BodyType.login_response, login_response)
    ∷ (body_type_code BodyType.regist_request, regist_request)
    ∷ (body_type_code BodyType.regist_response, regist_response)
    ∷ (body_type_code BodyType.join_room, join_room)
    ∷ (body_type_code BodyType.leave_room, leave_room)
    ∷ (body_type_code BodyType.create_room, create_room)
    ∷ (body_type_code BodyType.get_room_list, get_room_list)
    ∷ (body_type_code BodyType.change_role, change_role)
    ∷ (body_type_code BodyType.join_game, join_game)
    ∷ (body_type_code BodyType.quit_game, quit_game)
    ∷ (body_type_code BodyType.notify_room_info, notify_room_info)
    ∷ (body_type_code BodyType.start_game, start_game)
    ∷ (body_type_code BodyType.end_game, end_game)
    ∷ (body_type_code BodyType.frame, frame)
    ∷ (body_type_code BodyType.user_operate, user_operate)
    ∷ (body_type_code BodyType.chase_frame, game_replay)
    ∷ (body_type_code BodyType.game_replay, game_replay)
    ∷ (body_type_code BodyType.reconnect, reconnect)
    ∷ (body_type_code BodyType.user_heart, user_heart)
    ∷ (body_type_code BodyType.server_info, server_info)
    ∷ (body_type_code BodyType.user_info, user_info)
    ∷ (body_type_code BodyType.get_region_info_request, get_region_info_request)
    ∷ (body_type_code BodyType.get_region_info_response, get_region_info_response)
    ∷ (body_type_code BodyType.join_region_request, join_region_request)
    ∷ (body_type_code BodyType.join_region_response, join_region_response)
    ∷ (body_type_code BodyType.server_conn_change, server_conn_change)
    ∷ []

-- `none` is a body whose message is the null pointer.
unfoldable pub create_message_body : ℕ → Option BodyKind
unfolding body_type_code lookup
create_message_body type = lookup type body_kinds

-- What the messages rely on of protobuf: what is serialized is parsed back by its own class, and
-- ByteSizeLong is the number of bytes. `parse` also returns what a failed parse leaves behind.
pub record Protobuf : Type 1 where
  pub Payload : Type 0
  pub kind : Payload → BodyKind
  pub serialize : Payload → List ℕ
  pub parse : BodyKind → List ℕ → Bool × Payload
  pub parse-serialize : (p : Payload) → parse (kind p) (serialize p) ≡ (true, p)

module _ (pb : Protobuf) where
  open pb use {Payload, kind, serialize, parse}

  pub record Message : Type 0 where
    pub head : MessageHead
    -- The outer `none` is a message without a body, the inner one a body without a message.
    pub body : Option (Option Payload)

  -- MessageBody::length and Message::length.
  unfoldable pub body_length : Option Payload → ℕ
  body_length none = 0
  body_length (some p) = length (serialize p)

  unfoldable pub message_length : Option (Option Payload) → ℕ
  unfolding body_length
  message_length none = head_size
  message_length (some body) = head_size + body_length body

  -- MessageBody::SerializeToArray: protobuf refuses an array that is too small.
  unfoldable pub serialize_body : Option Payload → ℕ → Option (List ℕ)
  serialize_body none len = some []
  serialize_body (some p) len = if ltb len (length (serialize p)) then none else some (serialize p)

  -- Message::SerializeToArray.
  unfoldable pub serialize_message : Message → ℕ → Option (List ℕ)
  unfolding serialize_head serialize_body message_length
  serialize_message m len =
      if ltb len (message_length m.body) then none else elim (serialize_head m.head len) [
        | none ↦ none
        | some head ↦ elim m.body [
          | none ↦ some head
          | some body ↦ elim (serialize_body body (len - head_size)) [
            | none ↦ none
            | some bytes ↦ some (head ++ bytes)
          ]
        ]
      ]

  -- CreateMessageBody and ParseFromArray: the payload, and whether it was parsed.
  unfoldable pub parse_body : ℕ → List ℕ → Bool × Option Payload
  parse_body type bytes = elim (create_message_body type) [
    | none ↦ (true, none)
    | some k ↦ (let (ok, p) = parse k bytes in (ok, some p))
  ]

  -- DecodeMessage of exactly the bytes of one package.
  unfoldable pub decode_message : List ℕ → Option Message
  decode_message bytes = elim (parse_head bytes head_size) [
    | none ↦ none
    | some h ↦
        some (record {
          head = h;
          body = some ((parse_body h.m_package_type (drop head_size bytes)).1);
        })
  ]

  -- The New…Message functions build the head after the body: its size is message->length().
  unfoldable pub new_message : ℕ → ℕ → Payload → Message
  unfolding message_length
  new_message type userid p = record {
    head = record {
      m_package_size = message_length (some (some p));
      m_package_type = type;
      m_userid = userid;
    };
    body = some (some p);
  }
