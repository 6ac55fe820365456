-- ===== src/Enums.antt =====
-- The enumerations of src/Header/EnumHome.h. An `int` that carries a package type is a 32-bit
-- pattern, so -1 is 2 ^ 32 - 1.
use ancestral_property_serve.Prelude.{ℕ, ◌+◌, ◌-◌, ◌^◌}

pub data ServerType : Type 0 where
  none center gate logic database match : ServerType

-- `unlisted n` is a number of the wire that is none of the four, as n - 2 ^ 31.
pub data ServerFreeLevel : Type 0 where
  free common busy down : ServerFreeLevel
  unlisted : ℕ → ServerFreeLevel

pub data BodyType : Type 0 where
  error_package : BodyType
  login_request login_response regist_request regist_response login_out : BodyType
  join_room leave_room create_room get_room_list change_role join_game : BodyType
  quit_game notify_room_info : BodyType
  start_game end_game : BodyType
  frame user_operate chase_frame game_replay reconnect user_heart : BodyType
  server_info user_info server_conn_change : BodyType
  region_info get_region_info_request get_region_info_response : BodyType
  join_region_request join_region_response : BodyType
  error_token : BodyType

pub data CallbackType : Type 0 where
  logic_server_update : CallbackType
  func_server_try_to_connect_available_server func_server_send_self_info_to_center : CallbackType
  gate_server_check_all_client_conn : CallbackType
  server_base_fixed_time_fire : CallbackType

unfoldable pub server_type_code : ServerType → ℕ
server_type_code none = 0
server_type_code center = 1
server_type_code gate = 2
server_type_code logic = 3
server_type_code database = 4
server_type_code match = 5

-- The number of a level, with 2 ^ 31 added so that the negative ones come first.
unfoldable pub free_level_code : ServerFreeLevel → ℕ
free_level_code free = 2 ^ 31
free_level_code common = 2 ^ 31 + 1
free_level_code busy = 2 ^ 31 + 2
free_level_code down = 2 ^ 31 + 3
free_level_code (unlisted n) = n

unfoldable pub body_type_code : BodyType → ℕ
body_type_code error_package = 2 ^ 32 - 1
body_type_code login_request = 0
body_type_code login_response = 1
body_type_code regist_request = 2
body_type_code regist_response = 3
body_type_code login_out = 4
body_type_code join_room = 5
body_type_code leave_room = 6
body_type_code create_room = 7
body_type_code get_room_list = 8
body_type_code change_role = 9
body_type_code join_game = 10
body_type_code quit_game = 11
body_type_code notify_room_info = 12
body_type_code start_game = 50
body_type_code end_game = 51
body_type_code frame = 70
body_type_code user_operate = 71
body_type_code chase_frame = 72
body_type_code game_replay = 73
body_type_code reconnect = 74
body_type_code user_heart = 75
body_type_code server_info = 100
body_type_code user_info = 101
body_type_code server_conn_change = 102
body_type_code region_info = 200
body_type_code get_region_info_request = 201
body_type_code get_region_info_response = 202
body_type_code join_region_request = 203
body_type_code join_region_response = 204
body_type_code error_token = 400
