-- ===== src/Room/Examples.antt =====
-- Concrete rooms on which the theorems about src/Logic/Room.cpp apply.
use ancestral_property_serve.Prelude.{
  ℕ, ◌≤◌, ◌≡◌, refl, true, false, none, some, List, [], ◌∷◌, ◌⊎◌, contains, lookup, erase, insert,
  add, length, map, keys,
}
use ancestral_property_serve.Room.State.{Room, player_count, new_room, is_host, add_range}
use ancestral_property_serve.Room.Invariant.{IsValid}
use ancestral_property_serve.Room.Game.{
  end_game, end_game_fuel, leave_from_game, leave_from_game_by, start_game, tick, notify_game_start,
  notify_game_start_to_user, join_game, notify_user_join_game, for_each, broad_cast_to_game,
  broad_cast_to_room, send_room_all_info_to_all, room_all_info, get_room_user_infos, user_info,
}
use ancestral_property_serve.Room.Members.{
  change_room_host, resize, drop_range, join_room, take_place, is_full, leave_from_room, close_room,
}
use ancestral_property_serve.Room.History.{Call, step, run, run-new_room-IsValid}
use ancestral_property_serve.Room.Termination.{end_game-leave_from_game_total}
use ancestral_property_serve.Room.Calm.{player_count-le-size}
use ancestral_property_serve.Room.Taking.{with_user, join_room-with_user}
use ancestral_property_serve.Room.Infos.{run-get_room_user_infos}
use ancestral_property_serve.Room.Roundtrip.{leave-join}
use ancestral_property_serve.Room.Start.{Started, start_game-Started}
use ancestral_property_serve.Room.Frames.{frame_ids, count_up, replay_complete}
use ancestral_property_serve.Room.Closing.{close_room_empties}

abbrev two_join : List Call
two_join = Call.joins 5 "ann" ∷ Call.joins 9 "bob" ∷ []

abbrev played : List Call
played = Call.joins 5 "ann" ∷ Call.starts_game 5 ∷ Call.ticks true ∷ Call.ticks true ∷ []

abbrev lobby : Room
lobby = run (new_room 1 "den" 3 77 0) two_join

abbrev game : Room
game = run (new_room 1 "den" 3 77 0) played

run-new_room-IsValid_example : IsValid (run (new_room 1 "den" 3 77 0) played)
run-new_room-IsValid_example = run-new_room-IsValid 1 "den" 3 77 0 played

player_count-le-size_example : player_count (run (new_room 1 "den" 3 77 0) two_join) ≤ 3
player_count-le-size_example = player_count-le-size 1 "den" 3 77 0 two_join

end_game-leave_from_game_total_example :
    (end_game_fuel 3 game ≡ some (end_game game))
    × (leave_from_game_by (end_game_fuel 3) 5 game ≡ some (leave_from_game 5 game))
end_game-leave_from_game_total_example = end_game-leave_from_game_total 1 5 game

lobby-IsValid : IsValid lobby
lobby-IsValid = run-new_room-IsValid 1 "den" 3 77 0 two_join

join_room-with_user_example :
    let r' = (join_room 12 "eve" lobby).0 in
    (((join_room 12 "eve" lobby).1 ≡ false)
      × ((lobby.m_game_started ≡ true)
          ⊎ (is_full lobby ≡ true)
          ⊎ (contains 12 lobby.userid2userpid ≡ true))
      × (r' ≡ record lobby { outbox = r'.outbox }))
    ⊎ (((join_room 12 "eve" lobby).1 ≡ true)
        × (lobby.m_game_started ≡ false)
        × (is_full lobby ≡ false)
        × (contains 12 lobby.userid2userpid ≡ false)
        × (p : ℕ) × (contains p lobby.userpid_pool ≡ true)
        × ((k : ℕ) → contains k lobby.userpid_pool ≡ true → p ≤ k)
        × (r' ≡ record (with_user 12 p "eve" lobby) { outbox = r'.outbox }))
join_room-with_user_example = join_room-with_user 12 "eve" lobby lobby-IsValid

lobby_idle : lobby.m_game_started ≡ false
unfolding run step new_room join_room take_place change_room_host resize drop_range add_range add
    insert erase lookup send_room_all_info_to_all room_all_info get_room_user_infos user_info
lobby_idle = refl

lobby_host : is_host lobby 5 ≡ true
unfolding run step new_room join_room take_place change_room_host resize drop_range add_range add
    insert erase lookup send_room_all_info_to_all room_all_info get_room_user_infos user_info
lobby_host = refl

lobby_open : (join_room 12 "eve" lobby).1 ≡ true
unfolding run step new_room join_room take_place change_room_host resize drop_range add_range add
    insert erase lookup send_room_all_info_to_all room_all_info get_room_user_infos user_info
lobby_open = refl

game_runs : game.m_game_started ≡ true
unfolding run step new_room join_room take_place change_room_host resize drop_range add_range add
    insert erase lookup send_room_all_info_to_all room_all_info get_room_user_infos user_info
    start_game notify_game_start notify_game_start_to_user join_game notify_user_join_game for_each
    broad_cast_to_game broad_cast_to_room tick
game_runs = refl

start_game-Started_example : Started lobby (start_game 5 lobby)
start_game-Started_example = start_game-Started 5 lobby lobby-IsValid lobby_idle lobby_host

leave-join_example :
    leave_from_room 12 (join_room 12 "eve" lobby).0
    ≡ record lobby { outbox = (leave_from_room 12 (join_room 12 "eve" lobby).0).outbox }
leave-join_example = leave-join 12 "eve" lobby lobby-IsValid lobby_open

replay_complete_example : frame_ids game.all_frames ≡ count_up game.frame_id
replay_complete_example =
    replay_complete 1 "den" 3 77 0 played (tt, (tt, (refl, (refl, tt)))) game_runs

close_room_empties_example :
    let r' = close_room game in
    (r'.userid2userpid ≡ [])
    × (r'.in_game_id2pid ≡ [])
    × (r'.m_game_started ≡ false)
    × (r'.host_userid ≡ none)
    × (length r'.userpid_pool ≡ r'.m_size)
    × IsValid r'
close_room_empties_example = close_room_empties game (run-new_room-IsValid 1 "den" 3 77 0 played)

run-get_room_user_infos_example :
    (get_room_user_infos game ≡ some (map (user_info game) game.id2name))
    × (keys game.id2name ≡ keys game.userid2userpid)
    × (keys game.userid2roleid ≡ keys game.userid2userpid)
run-get_room_user_infos_example = run-get_room_user_infos 1 "den" 3 77 0 played
