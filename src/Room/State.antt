-- ===== src/Room/State.antt =====
-- The state of a room (the fields of src/Logic/Room.h) and the protobuf messages that it sends
-- (src/Protobuf/Room.proto and Frame.proto).
-- Ids, roles and counts are the nonnegative values of the source's ints; the host -1 is `none`.
use Prim.Native.String.{String}
use ancestral_property_serve.Prelude.{
  ℕ, ◌+◌, ◌%◌, ◌^◌, ◌-◌, zero, suc, Bool, false, ◌==◌, Option, none, some, List, [], Map, IntSet,
  add, length,
}
use ancestral_property_serve.Enums.{BodyType}

-- proto3 enums are open: an unknown number is kept.
pub data OperateType : Type 0 where
  frame_info join_game leave_game shop_get_random shop_buy : OperateType
  unknown : ℕ → OperateType

pub record UserOperate : Type 0 where
  pub values : List ℕ
  pub opt : OperateType
  pub userpid : ℕ

pub record Frame : Type 0 where
  pub frame_id : ℕ
  pub operates : List UserOperate

pub data RequestType : Type 0 where
  request response : RequestType

pub record UserInfo : Type 0 where
  pub username : String
  pub userid : ℕ
  pub is_roomhost : Bool
  pub role_id : ℕ
  pub userpid : ℕ
  pub in_game : Bool

pub record RoomInfo : Type 0 where
  pub roomid : ℕ
  pub people_count : ℕ
  pub roomname : String

-- The messages that the logic server sends to a client. A room id of -1 is `none`; no
-- `users` are those of a vector that was written to beyond its end.
pub data Body : Type 0 where
  join_room : (roomid : Option ℕ) (result : String) (type : RequestType) (ret : Bool) → Body
  leave_room : (roomid : ℕ) (result : String) (type : RequestType) (ret : Bool) → Body
  create_room :
      (roomid : Option ℕ) (ret : Bool) (result roomname : String) (type : RequestType)
      (is_roomhost : Bool)
      → Body
  get_room_list : (room_list : List RoomInfo) (size : ℕ) (ret : Bool) (type : RequestType) → Body
  notify_room_info : (users : Option (List UserInfo)) (roomid : ℕ) (game_start : Bool) → Body
  start_game : (roomid seed userpid : ℕ) → Body
  end_game : (roomid : ℕ) → Body
  frame : Frame → Body
  game_replay : List Frame → Body
  reconnect :
      (roomid userpid : ℕ) (is_roomhost : Bool) (seed : ℕ) (ret : Bool) (msg : String) → Body

-- One call `LOGICSERVER.SendToClient(type, &body, userid)`.
pub record Sent : Type 0 where
  pub type : BodyType
  pub body : Body
  pub userid : ℕ

-- `outbox` records the calls of SendToClient, oldest first.
pub record Room : Type 0 where
  pub m_id : ℕ
  pub m_name : String
  pub frame : Frame
  pub frame_id : ℕ
  pub m_size : ℕ
  pub m_seed : ℕ
  pub m_game_started : Bool
  pub host_userid : Option ℕ
  pub userpid_pool : IntSet
  pub userid2roleid : Map ℕ
  pub all_frames : List Frame
  pub userid2userpid : Map ℕ
  pub in_game_id2pid : Map ℕ
  pub id2name : Map String
  pub offline_userid : IntSet
  pub outbox : List Sent

-- `for (int i = first; i < first + count; i++) pool.insert(i);`
unfoldable pub add_range : ℕ → ℕ → IntSet → IntSet
add_range first zero pool = pool
add_range first (suc count) pool = add_range (first + 1) count (add first pool)

abbrev pub empty_frame : Frame
empty_frame = record { frame_id = 0; operates = [] }

-- The constructor. `draw` is the first number of the generator; `unset` is what the member
-- `frame_id`, which the constructor does not set, happens to hold.
unfoldable pub new_room : ℕ → String → ℕ → ℕ → ℕ → Room
new_room id name size draw unset = record {
  m_id = id;
  m_name = name;
  frame = empty_frame;
  frame_id = unset;
  m_size = size;
  m_seed = draw % (2 ^ 32 - 1);
  m_game_started = false;
  host_userid = none;
  userpid_pool = add_range 1 size [];
  userid2roleid = [];
  all_frames = [];
  userid2userpid = [];
  in_game_id2pid = [];
  id2name = [];
  offline_userid = [];
  outbox = [];
}

abbrev pub player_count : Room → ℕ
player_count r = length r.userid2userpid

-- `host_userid == userid`.
abbrev pub is_host : Room → ℕ → Bool
is_host r userid = elim r.host_userid [ none ↦ false | some h ↦ h == userid ]
