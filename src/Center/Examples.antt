-- ===== src/Center/Examples.antt =====
-- A concrete center server on which the theorems about src/Source/CenterServer.cpp apply.
use Prim.Native.String.{String}
use ancestral_property_serve.Prelude.{
  ℕ, suc, ◌≤◌, ◌<◌, ◌≡◌, ◌⊎◌, refl, true, false, some, List, [], ◌∷◌, lookup, insert, contains,
  length, arith, get_elem?,
}
use ancestral_property_serve.Enums.{ServerType, ServerFreeLevel, free_level_code}
use ancestral_property_serve.Center.{
  Center, ServerInfo, RegionInfo, Reply, new_server_info, machine, close_client_socket,
  find_available_server_in_group, register_server,
}
use ancestral_property_serve.Center.Handlers.{
  InfoBody, Operation, Event, new_center, run, step, join_region, region_infos, handle_operation,
}
use ancestral_property_serve.Center.Groups.{count, IsValid}
use ancestral_property_serve.Center.Steps.{run-new_center-IsValid}
use ancestral_property_serve.Center.Least.{find_available-least}
use ancestral_property_serve.Center.Regions.{join_region-region_infos, close-stale_id}

abbrev gate_info : String → ServerFreeLevel → InfoBody
gate_info name level = record {
  opt = Operation.register;
  ip = "10.0.0.1";
  port = 8000;
  server_name = name;
  server_type = ServerType.gate;
  server_free_level = level;
}

-- Two gates, on the sockets 6 and 8.
abbrev gates : List Event
gates =
    Event.server_info new_server_info (gate_info "east" ServerFreeLevel.busy) 6
    ∷ Event.server_info new_server_info (gate_info "west" ServerFreeLevel.free) 8
    ∷ []

run-new_center-IsValid_example : IsValid (run gates new_center)
run-new_center-IsValid_example = run-new_center-IsValid gates

abbrev east : ServerInfo
east = record {
  ip = "10.0.0.1";
  port = 8000;
  name = "east";
  level = ServerFreeLevel.busy;
  type = ServerType.gate;
  people_count = 0;
  id = 0;
}

abbrev west : ServerInfo
west = record east { name = "west"; level = ServerFreeLevel.free; id = 1 }

abbrev center : Center
center = record {
  gate_server_group = 6 ∷ 8 ∷ [];
  logic_server_group = [];
  db_server_group = [];
  machine_record = (6, east) ∷ (8, west) ∷ [];
  outbox = [];
}

registered : run gates new_center ≡ center
unfolding run step handle_operation register_server lookup insert
registered = refl

find_available-least_example :
    let m = find_available_server_in_group center new_server_info (6 ∷ 8 ∷ []) in
    ((fd : ℕ)
      → 0 < count fd (6 ∷ 8 ∷ [])
      → free_level_code m.level ≤ free_level_code (machine center fd).level)
    × ((m.level ≡ ServerFreeLevel.down)
        ⊎ ((fd : ℕ) × (m ≡ machine center fd) × (0 < count fd (6 ∷ 8 ∷ []))))
find_available-least_example = find_available-least center new_server_info (6 ∷ 8 ∷ [])

join_region-region_infos_example :
    (info : RegionInfo) × (get_elem? (region_infos center center.gate_server_group) 1 ≡ some info)
    × (info.id ≡ (machine center 8).id)
    × (info.server_name ≡ (machine center 8).name)
    × (join_region center 1
        ≡ Reply.join_region_response true (machine center 8).ip (machine center 8).port)
join_region-region_infos_example = join_region-region_infos center 1 8 (omega arith) refl

has_east : contains 6 center.machine_record ≡ true
unfolding lookup
has_east = refl

is_gate : (machine center 6).type ≡ ServerType.gate
unfolding lookup
is_gate = refl

in_group : 0 < count 6 center.gate_server_group
unfolding count
in_group = omega arith

last : suc (machine center 8).id ≡ length center.gate_server_group
unfolding lookup
last = refl

close-stale_id_example :
    let d = close_client_socket 6 center in
    ((machine d 8).id ≡ (machine center 8).id)
    × (join_region d (machine d 8).id ≡ Reply.join_region_response false "" 0)
close-stale_id_example = close-stale_id center 6 8 has_east is_gate in_group (omega arith) last
