-- ===== src/Room/Joining.antt =====
-- JoinGame and the loops of StartGame of src/Logic/Room.cpp.
use ancestral_property_serve.Prelude.{
  ℕ, ◌≡◌, refl, true, false, none, some, List, [], ◌∷◌, Map, lookup, contains, touch_present, keys,
  insert, lookup-insert, arith, ap, Bool-cases, Option-cases, inl, inr, ◌∙◌, ==_refl, subst, sym,
  ◌⊎◌,
}
use mathlib.Core.Bool.{false≢true}
use ancestral_property_serve.Room.State.{Room}
use ancestral_property_serve.Room.Invariant.{IsValid}
use ancestral_property_serve.Room.Steps.{Playing-join}
use ancestral_property_serve.Room.Game.{
  join_game, notify_user_join_game, notify_game_start_to_user, for_each,
}

abbrev pub AllIn : List ℕ → Map ℕ → Type 0
AllIn [] m = Unit {0}
AllIn (k ∷ ks) m = (contains k m ≡ true) × AllIn ks m

AllIn-cons : (ks : List ℕ) (k v : ℕ) (m : Map ℕ) → AllIn ks m → AllIn ks ((k, v) ∷ m)
unfolding lookup
AllIn-cons [] k v m h = tt
AllIn-cons (j ∷ ks) k v m h = (ground arith, AllIn-cons ks k v m h.1)

pub keys-AllIn : (m : Map ℕ) → AllIn (keys m) m
unfolding lookup
keys-AllIn [] = tt
keys-AllIn ((k, v) ∷ m) = (ground (arith, ==_refl k), AllIn-cons (keys m) k v m (keys-AllIn m))

pub join_game-eq :
    (userid p : ℕ) (r : Room)
    → IsValid r
    → r.m_game_started ≡ true
    → lookup userid r.userid2userpid ≡ some p
    → join_game userid r ≡ record r {
      in_game_id2pid = insert userid p r.in_game_id2pid;
      frame = (join_game userid r).frame;
    }
unfolding join_game notify_user_join_game
join_game-eq userid p r v s e = ground (arith, v.profiles.with_role userid)

join_game-idle :
    (userid : ℕ) (r : Room)
    → (r.m_game_started ≡ false) ⊎ (lookup userid r.userid2userpid ≡ none)
    → join_game userid r ≡ r
unfolding join_game
join_game-idle userid r (inl e) = ground arith
join_game-idle userid r (inr e) = ground arith

pub join_game-IsValid : (userid : ℕ) (r : Room) → IsValid r → IsValid (join_game userid r)
join_game-IsValid userid r v = elim (Bool-cases r.m_game_started) [
  | inr idle ↦ rw (join_game-idle userid r (inl idle)) v
  | inl s ↦ elim (Option-cases (lookup userid r.userid2userpid)) [
    | inl away ↦ rw (join_game-idle userid r (inr away)) v
    | inr (p, e) ↦ rw (join_game-eq userid p r v s e) (record {
      places = v.places;
      profiles = v.profiles;
      hosting = v.hosting;
      playing = Playing-join v.playing userid p s e;
    })
  ]
]

pub notify_game_start_to_user-eq :
    (userid : ℕ) (r : Room)
    → contains userid r.userid2userpid ≡ true
    → notify_game_start_to_user userid r
      ≡ record r { outbox = (notify_game_start_to_user userid r).outbox }
unfolding notify_game_start_to_user
notify_game_start_to_user-eq userid r c = ground (arith, touch_present userid 0 r.userid2userpid c)

-- The loop of NotifyGameStart only sends.
pub notify_each-eq :
    (us : List ℕ) (r : Room)
    → AllIn us r.userid2userpid
    → for_each notify_game_start_to_user us r
      ≡ record r { outbox = (for_each notify_game_start_to_user us r).outbox }
unfolding for_each
notify_each-eq [] r h = refl
notify_each-eq (u ∷ us) r h =
    let e = notify_game_start_to_user-eq u r h.0 in
    let same = ap (λ x. x.userid2userpid) e in
    ground (
      arith,
      e,
      notify_each-eq us (notify_game_start_to_user u r) (subst (AllIn us) (sym same) h.1),
    )

-- The loop of JoinGame: a valid running room stays one, and the users of the list are in the game
-- under their own pids.
pub record Joined (us : List ℕ) (r r' : Room) : Type 0 where
  pub valid : IsValid r'
  pub running : r'.m_game_started ≡ true
  pub same_users : r'.userid2userpid ≡ r.userid2userpid
  pub same_size : r'.m_size ≡ r.m_size
  pub same_frame_id : r'.frame_id ≡ r.frame_id
  pub same_frames : r'.all_frames ≡ r.all_frames
  pub grown : (u : ℕ) → contains u r.in_game_id2pid ≡ true → contains u r'.in_game_id2pid ≡ true
  pub all_in : AllIn us r'.in_game_id2pid

pub join_each :
    (us : List ℕ) (r : Room)
    → IsValid r
    → r.m_game_started ≡ true
    → AllIn us r.userid2userpid
    → Joined us r (for_each join_game us r)
unfolding for_each
join_each [] r v s h = record {
  valid = v;
  running = s;
  same_users = refl;
  same_size = refl;
  same_frame_id = refl;
  same_frames = refl;
  grown = λ u c. c;
  all_in = tt;
}
join_each (u ∷ us) r v s h = elim (Option-cases (lookup u r.userid2userpid)) [
  | inl e ↦ absurd (false≢true (rw e at h.0))
  | inr (p, e) ↦
      (let step = join_game-eq u p r v s e in
        let users = ap (λ x. x.userid2userpid) step in
        let j =
          join_each us (join_game u r) (join_game-IsValid u r v)
            (ap (λ x. x.m_game_started) step ∙ s) (subst (AllIn us) (sym users) h.1) in
        let more = ap (λ x. x.in_game_id2pid) step in
        record {
          valid = j.valid;
          running = j.running;
          same_users = j.same_users ∙ users;
          same_size = j.same_size ∙ ap (λ x. x.m_size) step;
          same_frame_id = j.same_frame_id ∙ ap (λ x. x.frame_id) step;
          same_frames = j.same_frames ∙ ap (λ x. x.all_frames) step;
          grown = λ w c. j.grown w (ground (arith, more, lookup-insert u w p r.in_game_id2pid));
          all_in =
              (j.grown u (ground (arith, more, lookup-insert u u p r.in_game_id2pid)), j.all_in);
        })
]

pub AllIn-mem : (u : ℕ) (m g : Map ℕ) → AllIn (keys m) g → contains u m ≡ true → contains u g ≡ true
unfolding lookup
AllIn-mem u [] g a c = ground arith
AllIn-mem u ((k, v) ∷ m) g a c = ground (arith, AllIn-mem u m g a.1)

pub same_lookup :
    (u : ℕ) (g m : Map ℕ)
    → ((p : ℕ) → lookup u g ≡ some p → lookup u m ≡ some p)
    → (contains u m ≡ true → contains u g ≡ true)
    → lookup u g ≡ lookup u m
same_lookup u g m sound complete = elim (Option-cases (lookup u g)) [
  | inl e ↦ ground (arith, complete)
  | inr (p, e) ↦ e ∙ sym (sound p e)
]
