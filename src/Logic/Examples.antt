-- ===== src/Logic/Examples.antt =====
-- A concrete logic server on which the theorems about src/Source/LogicServer.cpp apply.
use ancestral_property_serve.Prelude.{
  ◌≡◌, ◌≢◌, refl, true, some, none, Option, List, [], ◌∷◌, lookup, insert, erase, add, contains, ℕ,
  arith,
}
use ancestral_property_serve.Room.State.{Room, new_room, player_count, add_range}
use ancestral_property_serve.Room.Members.{
  join_room, leave_from_room, remove_member, take_place, change_room_host, resize,
}
use ancestral_property_serve.Room.Game.{
  leave_from_game, leave_from_game_by, notify_user_quit_game, end_game, end_game_fuel, kick_each,
  send_room_all_info_to_all,
}
use ancestral_property_serve.Logic.{Logic}
use ancestral_property_serve.Logic.Handlers.{
  Request, handle_join_room, on_msg_body_analysised, handle, new_logic,
}
use ancestral_property_serve.Logic.Joining.{IsValid}
use ancestral_property_serve.Logic.Rooms.{AllRooms, Gives}
use ancestral_property_serve.Logic.History.{Event, step, run, FitAll, run-new_logic-IsSound}
use ancestral_property_serve.Logic.Agreement.{has, at_room}
use ancestral_property_serve.Logic.Whereabouts.{run-new_logic-Agreed}
use ancestral_property_serve.Logic.Updates.{handle_join_room-own_room}

-- Room 1 with user 77 in it.
abbrev den : Room
den = (join_room 77 "ann" (new_room 1 "den" 3 5 0)).0

abbrev server : Logic
server = record {
  rooms = (1, den) ∷ [];
  roomid_pool = (2, tt) ∷ (3, tt) ∷ [];
  roomid_using = (1, tt) ∷ [];
  userid2roomid = (77, 1) ∷ [];
  user_gate = (77, 4) ∷ [];
  in_games = [];
  userid2username = (77, "ann") ∷ [];
  outbox = [];
}

lives_there : lookup 77 server.userid2roomid ≡ some 1
unfolding lookup
lives_there = refl

room_there : lookup 1 server.rooms ≡ some den
unfolding lookup
room_there = refl

used : contains 1 server.roomid_using ≡ true
unfolding lookup
used = refl

alone : player_count (leave_from_room 77 den) ≡ 0
unfolding leave_from_room leave_from_game leave_from_game_by notify_user_quit_game end_game
    end_game_fuel kick_each remove_member join_room take_place change_room_host resize new_room
    add_range add insert erase lookup send_room_all_info_to_all
alone = refl

handle_join_room-own_room_example : handle_join_room 77 1 server ≡ none
handle_join_room-own_room_example =
    handle_join_room-own_room 77 1 den server lives_there room_there used alone

-- Ann makes a room, a frame passes, and she starts a game.
abbrev evening : List Event
evening =
    Event.message 4 77 (Request.create_room_request "den" 5 0)
    ∷ Event.frame true
    ∷ Event.message 4 77 Request.start_game_request
    ∷ Event.frame true
    ∷ []

Gives-all : (P : Logic → Type 0) → ((s : Logic) → P s) → (o : Option Logic) → Gives P o
Gives-all P h none = tt
Gives-all P h (some s) = h s

later :
    (s : Logic)
    → FitAll
        (Event.frame true ∷ Event.message 4 77 Request.start_game_request ∷ Event.frame true ∷ [])
        s
unfolding step on_msg_body_analysised handle
later s = (tt, (tt, (tt, tt)))

pooled : (new_logic ((1, tt) ∷ (2, tt) ∷ [])).roomid_pool ≢ []
unfolding new_logic
pooled = λ e. ground (arith, e)

run-new_logic-IsSound_example :
    (t : Logic) × (run evening (new_logic ((1, tt) ∷ (2, tt) ∷ [])) ≡ some t)
    × IsValid t
    × AllRooms t.rooms
run-new_logic-IsSound_example =
    run-new_logic-IsSound ((1, tt) ∷ (2, tt) ∷ []) evening (pooled, Gives-all _ later (step _ _))

run-new_logic-Agreed_example :
    (t : Logic) × (run evening (new_logic ((1, tt) ∷ (2, tt) ∷ [])) ≡ some t)
    × ((u q : ℕ) → has u q t.rooms ≡ at_room u q t.userid2roomid)
run-new_logic-Agreed_example =
    run-new_logic-Agreed ((1, tt) ∷ (2, tt) ∷ []) evening (pooled, Gives-all _ later (step _ _))
