-- ===== src/Center.antt =====
-- CenterServer (src/Source/CenterServer.cpp, src/Header/Server/CenterServer.h): the register of the
-- servers of the cluster, by their type. A `Server_Info *` is the socket under which the machine is
-- registered: MachineRecord owns one machine for each socket and the groups share it.
-- An `int` is its 32-bit pattern.
pub mod Handlers
pub mod Groups
pub mod Steps
pub mod Least
pub mod Regions
mod Examples
use Prim.Native.String.{String}
use text.Mathlib.Text.{◌==◌ as ◌=ₛ◌}
use ancestral_property_serve.Prelude.{
  ℕ, ◌+◌, ◌-◌, ◌^◌, ◌≡◌, Bool, true, false, Option, none, some, List, [], ◌∷◌, ◌++◌, Map, lookup,
  insert, erase, contains, at, ltb, ◌==◌, if◌then◌else◌, length, get_elem?, ◌&&◌,
}
use ancestral_property_serve.Enums.{ServerType, ServerFreeLevel, free_level_code, server_type_code}
use ancestral_property_serve.Config.{server_free_count, server_common_count}
use ancestral_property_serve.Wire.{lt_int}

pub record ServerInfo : Type 0 where
  pub ip : String
  pub port : ℕ
  pub name : String
  pub level : ServerFreeLevel
  pub type : ServerType
  pub people_count : ℕ
  pub id : ℕ

-- `new Server_Info()`
abbrev pub new_server_info : ServerInfo
new_server_info = record {
  ip = "";
  port = 0;
  name = "";
  level = ServerFreeLevel.free;
  type = ServerType.none;
  people_count = 0;
  id = 0;
}

pub record RegionInfo : Type 0 where
  pub id : ℕ
  pub level : ServerFreeLevel
  pub people_count : ℕ
  pub server_name : String

pub data Reply : Type 0 where
  connect : ServerInfo → Reply
  get_region_info_response : List RegionInfo → Reply
  join_region_response : Bool → String → ℕ → Reply

pub record Center : Type 0 where
  pub gate_server_group : List ℕ
  pub logic_server_group : List ℕ
  pub db_server_group : List ℕ
  pub machine_record : Map ServerInfo
  pub outbox : List (ℕ × Reply)

-- `*p` for the pointer of socket fd.
abbrev pub machine : Center → ℕ → ServerInfo
machine c fd = at fd new_server_info c.machine_record

abbrev pub set_machine : ℕ → ServerInfo → Center → Center
set_machine fd m c = record c { machine_record = insert fd m c.machine_record }

abbrev pub send_msg : Reply → ℕ → Center → Center
send_msg reply fd c = record c { outbox = c.outbox ++ (fd, reply) ∷ [] }

unfoldable pub register_server : ℕ → Center → Center
register_server fd c = elim (machine c fd).type [
  | ServerType.logic ↦
      record (set_machine fd (record (machine c fd) { id = length c.logic_server_group }) c) {
        logic_server_group = c.logic_server_group ++ fd ∷ [];
      }
  | ServerType.gate ↦
      record (set_machine fd (record (machine c fd) { id = length c.gate_server_group }) c) {
        gate_server_group = c.gate_server_group ++ fd ∷ [];
      }
  | ServerType.database ↦
      record (set_machine fd (record (machine c fd) { id = length c.db_server_group }) c) {
        db_server_group = c.db_server_group ++ fd ∷ [];
      }
  | _ ↦ c
]

-- The loop of FindAvailableServerInGroup, at the machine found so far and its level.
unfoldable pub find_from : Center → Option ℕ → ℕ → List ℕ → Option ℕ
find_from c index minlevel [] = index
find_from c index minlevel (fd ∷ group) =
    let l = free_level_code (machine c fd).level in
    let better = find_from c (some fd) l group in
    let same = find_from c index minlevel group in if ltb l minlevel then better else same

-- The fields of a local Server_Info that are not written have the values of `info`.
unfoldable pub find_available_server_in_group : Center → ServerInfo → List ℕ → ServerInfo
find_available_server_in_group c info group =
    elim (find_from c none (free_level_code ServerFreeLevel.down) group) [
      | none ↦ record info { ip = ""; name = ""; level = ServerFreeLevel.down }
      | some fd ↦ machine c fd
    ]

unfoldable pub assign_server : Center → ServerInfo → ServerType → ServerInfo
assign_server c info ServerType.logic = find_available_server_in_group c info c.logic_server_group
assign_server c info ServerType.gate = find_available_server_in_group c info c.gate_server_group
assign_server c info ServerType.database = find_available_server_in_group c info c.db_server_group
assign_server c info _ = record info { ip = ""; name = ""; level = ServerFreeLevel.down }

unfoldable pub remove_server_from_group : List ℕ → ℕ → List ℕ
remove_server_from_group [] fd = []
remove_server_from_group (p ∷ group) fd =
    let rest = remove_server_from_group group fd in if p == fd then group else p ∷ rest

unfoldable pub remove_server : ℕ → Center → Center
remove_server fd c = elim (machine c fd).type [
  | ServerType.logic ↦ record c {
    logic_server_group = remove_server_from_group c.logic_server_group fd;
  }
  | ServerType.gate ↦ record c {
    gate_server_group = remove_server_from_group c.gate_server_group fd;
  }
  | ServerType.database ↦ record c {
    db_server_group = remove_server_from_group c.db_server_group fd;
  }
  | _ ↦ c
]

unfoldable pub close_client_socket : ℕ → Center → Center
close_client_socket fd c =
    if contains fd c.machine_record
    then (let r = remove_server fd c in record r { machine_record = erase fd r.machine_record })
    else c
