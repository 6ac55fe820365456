-- ===== src/Config.antt =====
-- The settings that the servers read (src/Header/Tool/ConstPool.h), at the values of the files
-- src/ini/Net.json, src/ini/Room.json and src/ini/ini.json.
use ancestral_property_serve.Prelude.{ℕ}

-- src/ini/Net.json
abbrev pub head_size : ℕ
head_size = 12

abbrev pub head_size_s : ℕ
head_size_s = 4

abbrev pub max_buffer_size : ℕ
max_buffer_size = 1048576

-- src/ini/Room.json
abbrev pub room_size : ℕ
room_size = 10

unfoldable pub default_room_count : ℕ
default_room_count = 5000

unfoldable pub room_pool_size : ℕ
room_pool_size = 5000

-- src/ini/ini.json
abbrev pub server_free_count : ℕ
server_free_count = 10

abbrev pub server_common_count : ℕ
server_common_count = 250

abbrev pub max_heartbeat_diff : ℕ
max_heartbeat_diff = 4000
