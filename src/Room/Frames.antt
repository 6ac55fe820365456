-- ===== src/Room/Frames.antt =====
-- The frames of src/Logic/Room.cpp over a room's life: Tick numbers them and sends them, and the
-- replay that a user who reconnects is sent (all_frames) has them all.
use Prim.Native.String.{String}
use ancestral_property_serve.Prelude.{
  ℕ, zero, suc, ◌+◌, ◌≡◌, refl, Bool, true, not, List, [], ◌∷◌, ◌++◌, map, map-append, ap, ◌∙◌, sym,
  arith, if_keeps, Bool-cases, inl, inr,
}
use mathlib.Core.Bool.{false≢true}
use ancestral_property_serve.Room.State.{Room, Frame, new_room, is_host}
use ancestral_property_serve.Room.Invariant.{IsValid}
use ancestral_property_serve.Room.Game.{tick, start_game, broad_cast_to_game}
use ancestral_property_serve.Room.Start.{start_game-Started, start_game_refused}
use ancestral_property_serve.Room.History.{
  Call, joins, leaves, quits_game, starts_game, joins_game, goes_offline, reconnects, ends_game,
  ticks, operates, changes_role, step, run, step-IsValid,
}
use ancestral_property_serve.Room.Fresh.{new_room-IsValid}
use ancestral_property_serve.Room.Calm.{Calm, step-Calm}

-- 1 to n.
unfoldable pub count_up : ℕ → List ℕ
count_up zero = []
count_up (suc n) = count_up n ++ suc n ∷ []

abbrev pub frame_ids : List Frame → List ℕ
frame_ids = map λ f. f.frame_id

-- While a game runs, the replay is the frames 1 to the counter.
abbrev pub IsNumbered : Room → Type 0
IsNumbered r = r.m_game_started ≡ true → frame_ids r.all_frames ≡ count_up r.frame_id

-- The ticks of a server whose setting Support_Chase_Frame is on.
abbrev pub Chases : Call → Type 0
Chases (ticks is_chase_frame) = is_chase_frame ≡ true
Chases _ = Unit {0}

abbrev pub AllChase : List Call → Type 0
AllChase [] = Unit {0}
AllChase (c ∷ cs) = Chases c × AllChase cs

Calm-IsNumbered : {r r' : Room} → Calm r r' → IsNumbered r → IsNumbered r'
Calm-IsNumbered c n e =
    ap frame_ids c.same_frames ∙ n (c.no_start e) ∙ ap count_up (sym c.same_frame_id)

count_up-add : (n : ℕ) → count_up (n + 1) ≡ count_up n ++ (n + 1) ∷ []
unfolding count_up
count_up-add n = let e : n + 1 ≡ suc n = omega arith in rw e refl

tick-IsNumbered : (r : Room) → IsNumbered r → IsNumbered (tick true r).0
unfolding tick broad_cast_to_game
tick-IsNumbered r n =
    if_keeps (λ (q : Room × Bool). IsNumbered q.0) (not r.m_game_started) (λ _. n)
      λ _ e.
        map-append (λ f. f.frame_id) r.all_frames _
        ∙ ap (λ l. l ++ (r.frame_id + 1) ∷ []) (n e)
        ∙ sym (count_up-add r.frame_id)

start_game-IsNumbered :
    (userid : ℕ) (r : Room) → IsValid r → IsNumbered r → IsNumbered (start_game userid r)
unfolding count_up
start_game-IsNumbered userid r v n = elim (Bool-cases r.m_game_started) [
  | inl e ↦ rw (start_game_refused userid r (inl e)) n
  | inr idle ↦ elim (Bool-cases (is_host r userid)) [
    | inl host ↦
        (let s = start_game-Started userid r v idle host in
          λ e. rw (s.frames_reset, s.frame_id_reset))
    | inr other ↦ rw (start_game_refused userid r (inr other)) n
  ]
]

step-IsNumbered :
    (r : Room) (c : Call) → Chases c → IsValid r → IsNumbered r → IsNumbered (step r c)
step-IsNumbered r (starts_game userid) h v n = unfold step in start_game-IsNumbered userid r v n
step-IsNumbered r (ticks is_chase_frame) h v n = unfold step in rw h (tick-IsNumbered r n)
step-IsNumbered r (joins userid username) h v n =
    Calm-IsNumbered (step-Calm r (joins userid username) tt v) n
step-IsNumbered r (leaves userid) h v n = Calm-IsNumbered (step-Calm r (leaves userid) tt v) n
step-IsNumbered r (quits_game userid) h v n =
    Calm-IsNumbered (step-Calm r (quits_game userid) tt v) n
step-IsNumbered r (joins_game userid) h v n =
    Calm-IsNumbered (step-Calm r (joins_game userid) tt v) n
step-IsNumbered r (goes_offline userid) h v n =
    Calm-IsNumbered (step-Calm r (goes_offline userid) tt v) n
step-IsNumbered r (reconnects userid) h v n =
    Calm-IsNumbered (step-Calm r (reconnects userid) tt v) n
step-IsNumbered r ends_game h v n = Calm-IsNumbered (step-Calm r ends_game tt v) n
step-IsNumbered r (operates userid body) h v n =
    Calm-IsNumbered (step-Calm r (operates userid body) tt v) n
step-IsNumbered r (changes_role userid role_id) h v n =
    Calm-IsNumbered (step-Calm r (changes_role userid role_id) tt v) n

run-IsNumbered :
    (r : Room) (cs : List Call) → AllChase cs → IsValid r → IsNumbered r → IsNumbered (run r cs)
unfolding run
run-IsNumbered r [] h v n = n
run-IsNumbered r (c ∷ cs) h v n =
    run-IsNumbered (step r c) cs h.1 (step-IsValid r c v) (step-IsNumbered r c h.0 v n)

-- After any history with chase frames on, while a game runs, the replay holds the frames 1 to the
-- frame counter, each once and in order.
pub replay_complete :
    (id : ℕ) (name : String) (size draw unset : ℕ) (cs : List Call)
    → AllChase cs
    → let r = run (new_room id name size draw unset) cs in
      r.m_game_started ≡ true → frame_ids r.all_frames ≡ count_up r.frame_id
replay_complete id name size draw unset cs h =
    run-IsNumbered (new_room id name size draw unset) cs h
      (new_room-IsValid id name size draw unset) (unfold new_room in λ e. absurd (false≢true e))
