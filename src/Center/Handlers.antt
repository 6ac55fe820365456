-- ===== src/Center/Handlers.antt =====
-- The messages of src/Source/CenterServer.cpp: HandleServerInfo, the regions, the counts of
-- connections, and OnMsgBodyAnalysised.
use Prim.Native.String.{String}
use text.Mathlib.Text.{◌==◌ as ◌=ₛ◌}
use ancestral_property_serve.Prelude.{
  ℕ, ◌^◌, true, false, none, some, List, [], ◌∷◌, contains, ltb, ◌==◌, if◌then◌else◌, get_elem?,
  ◌&&◌,
}
use ancestral_property_serve.Enums.{ServerType, ServerFreeLevel}
use ancestral_property_serve.Config.{server_free_count, server_common_count}
use ancestral_property_serve.Wire.{lt_int}
use ancestral_property_serve.Center.{
  ServerInfo, new_server_info, RegionInfo, Reply, Center, machine, set_machine, send_msg,
  register_server, assign_server, close_client_socket,
}

-- A negative count is a pattern from 2 ^ 31 on.
unfoldable pub check_free_level : ServerInfo → ServerFreeLevel
check_free_level info =
    if lt_int info.people_count server_free_count
    then ServerFreeLevel.free
    else if lt_int info.people_count server_common_count
    then ServerFreeLevel.common
    else ServerFreeLevel.busy

-- The body of a ServerInfo message.
pub data Operation : Type 0 where
  register requst_assgin connect : Operation

pub record InfoBody : Type 0 where
  pub opt : Operation
  pub ip : String
  pub port : ℕ
  pub server_name : String
  pub server_type : ServerType
  pub server_free_level : ServerFreeLevel

abbrev pub info_of : InfoBody → ServerInfo
info_of body = record new_server_info {
  ip = body.ip;
  port = body.port;
  name = body.server_name;
  type = body.server_type;
}

-- The cases of HandleServerInfo, at the message's operation.
unfoldable pub handle_operation : Operation → ServerInfo → InfoBody → ℕ → Center → Center
handle_operation Operation.register info body fd c =
    let known =
      if contains fd c.machine_record
      then c
      else register_server fd (set_machine fd (info_of body) c) in
    set_machine fd (record (machine known fd) { level = body.server_free_level }) known
handle_operation Operation.requst_assgin info body fd c =
    send_msg (Reply.connect (assign_server c info body.server_type)) fd c
handle_operation Operation.connect info body fd c = c

abbrev pub handle_server_info : ServerInfo → InfoBody → ℕ → Center → Center
handle_server_info info body = handle_operation body.opt info body

abbrev pub region_info : ServerInfo → RegionInfo
region_info m = record {
  id = m.id;
  level = check_free_level m;
  people_count = if lt_int 0 m.people_count then m.people_count else 0;
  server_name = m.name;
}

unfoldable pub region_infos : Center → List ℕ → List RegionInfo
region_infos c [] = []
region_infos c (fd ∷ group) = region_info (machine c fd) ∷ region_infos c group

unfoldable pub handle_get_region_info_request : ℕ → Center → Center
handle_get_region_info_request fd c =
    send_msg (Reply.get_region_info_response (region_infos c c.gate_server_group)) fd c

-- A negative id is a pattern from 2 ^ 31 on; the other test compares it as a size_t.
unfoldable pub join_region : Center → ℕ → Reply
join_region c id =
    if ltb id (2 ^ 31)
    then elim (get_elem? c.gate_server_group id) [
      | none ↦ Reply.join_region_response false "" 0
      | some fd ↦ Reply.join_region_response true (machine c fd).ip (machine c fd).port
    ]
    else Reply.join_region_response false "" 0

unfoldable pub handle_join_region_request : ℕ → ℕ → Center → Center
handle_join_region_request id fd c = send_msg (join_region c id) fd c

-- The body of a ServerConnChange message.
pub record ConnChange : Type 0 where
  pub type : ServerType
  pub ip : String
  pub port : ℕ
  pub change : ℕ

-- The loop over one group.
unfoldable pub count_in_group : ConnChange → List ℕ → Center → Center
count_in_group r [] c = c
count_in_group r (fd ∷ group) c =
    let m = machine c fd in
    count_in_group r group (
      if r.ip =ₛ m.ip && r.port == m.port
      then set_machine fd (record m { people_count = r.change }) c
      else c)

-- The three tests of HandleServerConnChange, at the message's type.
unfoldable pub count_by_type : ServerType → ConnChange → Center → Center
count_by_type ServerType.gate r c = count_in_group r c.gate_server_group c
count_by_type ServerType.logic r c = count_in_group r c.logic_server_group c
count_by_type ServerType.database r c = count_in_group r c.db_server_group c
count_by_type _ r c = c

abbrev pub handle_server_conn_change : ConnChange → Center → Center
handle_server_conn_change r = count_by_type r.type r

-- What the sockets bring to a center server: the messages by their type, and a lost connection.
pub data Event : Type 0 where
  server_info : ServerInfo → InfoBody → ℕ → Event
  user_info : ℕ → Event
  get_region_info_request : ℕ → Event
  join_region_request : ℕ → ℕ → Event
  server_conn_change : ConnChange → Event
  closed : ℕ → Event

-- OnMsgBodyAnalysised and CloseClientSocket.
unfoldable pub step : Event → Center → Center
step (Event.server_info info body fd) c = handle_server_info info body fd c
step (Event.user_info fd) c = c
step (Event.get_region_info_request fd) c = handle_get_region_info_request fd c
step (Event.join_region_request id fd) c = handle_join_region_request id fd c
step (Event.server_conn_change r) c = handle_server_conn_change r c
step (Event.closed fd) c = close_client_socket fd c

unfoldable pub run : List Event → Center → Center
run [] c = c
run (e ∷ es) c = run es (step e c)

abbrev pub new_center : Center
new_center = record {
  gate_server_group = [];
  logic_server_group = [];
  db_server_group = [];
  machine_record = [];
  outbox = [];
}
