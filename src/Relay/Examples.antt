-- ===== src/Relay/Examples.antt =====
-- A concrete room, logic server and gate on which the theorems about the way of a message apply.
use ancestral_property_serve.Prelude.{
  ℕ, ℤ, ◌≡◌, ◌≢◌, ◌++◌, Option, none, arith, refl, true, false, some, List, [], ◌∷◌, map, keys, at,
  lookup,
}
use ancestral_property_serve.Enums.{BodyType}
use ancestral_property_serve.Room.State.{Room, Body, UserOperate, OperateType, empty_frame}
use ancestral_property_serve.Room.Game.{tick}
use ancestral_property_serve.Room.Operations.{operate_each, next_frame, stamped}
use ancestral_property_serve.Logic.{Logic, put_room}
use ancestral_property_serve.Gate.{Gate, Content}
use ancestral_property_serve.Logic.Handlers.{Request, new_logic, on_msg_body_analysised, handle}
use ancestral_property_serve.Logic.Rooms.{Gives}
use ancestral_property_serve.Logic.History.{Event, step, run, FitAll}
use ancestral_property_serve.Relay.Service.{run-relay}
use ancestral_property_serve.Relay.{relay, to_gate, deliveries}
use ancestral_property_serve.Relay.Delivery.{FromServer}
use ancestral_property_serve.Logic.Messages.{routed}
use ancestral_property_serve.Relay.Frames.{players_on, operations_reach_players}

-- Users 5 and 9 play; only user 5 is at the gate.
abbrev playing : Room
playing = record {
  m_id = 1;
  m_name = "den";
  frame = empty_frame;
  frame_id = 7;
  m_size = 3;
  m_seed = 77;
  m_game_started = true;
  host_userid = some 5;
  userpid_pool = (3, tt) ∷ [];
  userid2roleid = (5, 0) ∷ (9, 0) ∷ [];
  all_frames = [];
  userid2userpid = (5, 1) ∷ (9, 2) ∷ [];
  in_game_id2pid = (5, 1) ∷ (9, 2) ∷ [];
  id2name = (5, "ann") ∷ (9, "bob") ∷ [];
  offline_userid = [];
  outbox = [];
}

abbrev server : Logic
server = record {
  rooms = (1, playing) ∷ [];
  roomid_pool = (2, tt) ∷ [];
  roomid_using = (1, tt) ∷ [];
  userid2roomid = (5, 1) ∷ (9, 1) ∷ [];
  user_gate = (5, 4) ∷ (9, 6) ∷ [];
  in_games = [];
  userid2username = (5, "ann") ∷ (9, "bob") ∷ [];
  outbox = [];
}

abbrev gate : Gate
gate = record {
  center_server_client = some 3;
  logic_server_client = some 4;
  db_server_client = some 5;
  connections = (3, tt) ∷ (4, tt) ∷ (5, tt) ∷ (11, tt) ∷ [];
  conns_count = ℤ.pos 4;
  user_fd_record = (5, 11) ∷ [];
  fd_user_record = (11, 5) ∷ [];
  user_connections = [];
  undefined = false;
  outbox = [];
}

abbrev encoded : Body → List ℕ
encoded b = 8 ∷ 1 ∷ []

abbrev moves : List (ℕ × UserOperate)
moves = (9, record { values = 4 ∷ []; opt = OperateType.frame_info; userpid = 0 }) ∷ []

gate-FromServer : FromServer 4 gate
unfolding lookup
gate-FromServer = record { is_logic = refl; no_user = refl }

operations_reach_players_example :
    let r' = (tick true (operate_each playing moves)).0 in
    let f = next_frame playing (stamped playing.userid2userpid moves) in
    let new = routed server.user_gate r'.outbox in
    ((put_room 1 r' server).outbox ≡ server.outbox ++ new)
    × ((relay encoded 1000 4 (to_gate 4 new) gate).outbox
        ≡ gate.outbox
          ++ map
              (λ u. (
                at u 0 gate.user_fd_record,
                record {
                  package_type = BodyType.frame;
                  userid = u;
                  content = Content.opaque (encoded (Body.frame f));
                },
              ))
              (players_on 4 server.user_gate gate (keys playing.in_game_id2pid)))
operations_reach_players_example =
    operations_reach_players encoded 1000 4 4 1 playing moves server gate refl refl gate-FromServer

-- Ann makes a room, a frame passes, and she starts a game.
abbrev evening : List Event
evening =
    Event.message 4 5 (Request.create_room_request "den" 5 0)
    ∷ Event.frame true
    ∷ Event.message 4 5 Request.start_game_request
    ∷ Event.frame true
    ∷ []

Gives-all : (P : Logic → Type 0) → ((s : Logic) → P s) → (o : Option Logic) → Gives P o
Gives-all P h none = tt
Gives-all P h (some s) = h s

later :
    (s : Logic)
    → FitAll
        (Event.frame true ∷ Event.message 4 5 Request.start_game_request ∷ Event.frame true ∷ [])
        s
unfolding step on_msg_body_analysised handle
later s = (tt, (tt, (tt, tt)))

pooled : (new_logic ((1, tt) ∷ (2, tt) ∷ [])).roomid_pool ≢ []
unfolding new_logic
pooled = λ e. ground (arith, e)

run-relay_example :
    (t : Logic) × (run evening (new_logic ((1, tt) ∷ (2, tt) ∷ [])) ≡ some t)
    × ((relay encoded 1000 4 (to_gate 4 t.outbox) gate).outbox
        ≡ gate.outbox ++ deliveries encoded gate (to_gate 4 t.outbox))
run-relay_example =
    run-relay encoded 1000 4 4 ((1, tt) ∷ (2, tt) ∷ []) evening gate
      (pooled, Gives-all _ later (step _ _)) gate-FromServer
