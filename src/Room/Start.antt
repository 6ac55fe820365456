-- ===== src/Room/Start.antt =====
-- StartGame of src/Logic/Room.cpp: it keeps a room valid, and puts every user into the game.
use ancestral_property_serve.Prelude.{
  ℕ, ◌≡◌, true, false, [], lookup, keys, arith, ap, Bool-cases, inl, inr, ◌∙◌, subst, ◌⊎◌,
}
use ancestral_property_serve.Room.State.{Room, is_host}
use ancestral_property_serve.Room.Invariant.{IsValid}
use ancestral_property_serve.Room.Steps.{Playing-none}
use ancestral_property_serve.Room.Validity.{IsValid-irrelevant}
use ancestral_property_serve.Room.Game.{
  join_game, notify_game_start, for_each, start_game, send_room_all_info_to_all,
}
use ancestral_property_serve.Room.Joining.{
  AllIn-mem, keys-AllIn, notify_each-eq, join_each, Joined, same_lookup,
}

-- A room whose game has just been started, seen from the room before.
pub record Started (r r' : Room) : Type 0 where
  pub valid : IsValid r'
  pub running : r'.m_game_started ≡ true
  pub same_users : r'.userid2userpid ≡ r.userid2userpid
  pub same_size : r'.m_size ≡ r.m_size
  pub all_play : (u : ℕ) → lookup u r'.in_game_id2pid ≡ lookup u r.userid2userpid
  pub frame_id_reset : r'.frame_id ≡ 0
  pub frames_reset : r'.all_frames ≡ []

-- The room after the resets of StartGame.
abbrev reset : Room → Room
reset r = record r {
  m_game_started = true;
  frame_id = 0;
  frame = record { frame_id = r.frame.frame_id; operates = [] };
  all_frames = [];
}

notified-eq : (r : Room) → notify_game_start r ≡ record r { outbox = (notify_game_start r).outbox }
unfolding notify_game_start
notified-eq r = notify_each-eq (keys r.userid2userpid) r (keys-AllIn r.userid2userpid)

notified-IsValid :
    (r : Room) → IsValid r → r.m_game_started ≡ false → IsValid (notify_game_start (reset r))
notified-IsValid r v idle = rw (notified-eq (reset r)) (record {
  places = v.places;
  profiles = v.profiles;
  hosting = v.hosting;
  playing = rw (v.playing.stopped idle) (Playing-none true r.userid2userpid);
})

joined : (r : Room) → Room
joined r = let r1 = notify_game_start (reset r) in for_each join_game (keys r1.userid2userpid) r1

joined-Joined :
    (r : Room)
    → IsValid r
    → r.m_game_started ≡ false
    → Joined (keys r.userid2userpid) (notify_game_start (reset r)) (joined r)
unfolding joined
joined-Joined r v idle =
    let r1 = notify_game_start (reset r) in
    let e = notified-eq (reset r) in
    let users = ap (λ x. x.userid2userpid) e in
    subst (λ us. Joined (keys us) r1 (for_each join_game (keys r1.userid2userpid) r1)) users
      (join_each (keys r1.userid2userpid) r1 (notified-IsValid r v idle)
        (ap (λ x. x.m_game_started) e) (keys-AllIn r1.userid2userpid))

start_game-eq :
    (userid : ℕ) (r : Room)
    → r.m_game_started ≡ false
    → is_host r userid ≡ true
    → start_game userid r ≡ send_room_all_info_to_all (joined r)
unfolding start_game joined
start_game-eq userid r idle host = ground arith

joined-Started : (r : Room) → IsValid r → r.m_game_started ≡ false → Started r (joined r)
joined-Started r v idle =
    let j = joined-Joined r v idle in
    let e = notified-eq (reset r) in
    let users = j.same_users ∙ ap (λ x. x.userid2userpid) e in
    record {
      valid = j.valid;
      running = j.running;
      same_users = users;
      same_size = j.same_size ∙ ap (λ x. x.m_size) e;
      all_play = λ u.
          same_lookup u (joined r).in_game_id2pid r.userid2userpid
            (λ p e'. rw users at (j.valid.playing.player u p e'))
            (AllIn-mem u r.userid2userpid (joined r).in_game_id2pid j.all_in);
      frame_id_reset = j.same_frame_id ∙ ap (λ x. x.frame_id) e;
      frames_reset = j.same_frames ∙ ap (λ x. x.all_frames) e;
    }

-- StartGame by the host of a valid idle room starts it.
pub start_game-Started :
    (userid : ℕ) (r : Room)
    → IsValid r
    → r.m_game_started ≡ false
    → is_host r userid ≡ true
    → Started r (start_game userid r)
unfolding send_room_all_info_to_all
start_game-Started userid r v idle host =
    let s = joined-Started r v idle in
    rw (start_game-eq userid r idle host) (record {
      valid = IsValid-irrelevant (joined r) _ _ _ _ _ s.valid;
      running = s.running;
      same_users = s.same_users;
      same_size = s.same_size;
      all_play = s.all_play;
      frame_id_reset = s.frame_id_reset;
      frames_reset = s.frames_reset;
    })

-- Anybody else's StartGame, or one in a running game, changes nothing.
pub start_game_refused :
    (userid : ℕ) (r : Room)
    → (r.m_game_started ≡ true) ⊎ (is_host r userid ≡ false)
    → start_game userid r ≡ r
unfolding start_game
start_game_refused userid r (inl e) = ground arith
start_game_refused userid r (inr e) = ground arith

pub start_game-IsValid : (userid : ℕ) (r : Room) → IsValid r → IsValid (start_game userid r)
start_game-IsValid userid r v = elim (Bool-cases r.m_game_started) [
  | inl e ↦ rw (start_game_refused userid r (inl e)) v
  | inr idle ↦ elim (Bool-cases (is_host r userid)) [
    | inl host ↦ (start_game-Started userid r v idle host).valid
    | inr other ↦ rw (start_game_refused userid r (inr other)) v
  ]
]
