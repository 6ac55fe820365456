-- ===== src/Room/Infos.antt =====
-- GetRoomUserInfos of src/Logic/Room.cpp: it writes an entry for each name into a vector with a place
-- for each user.
use Prim.Native.String.{String}
use ancestral_property_serve.Prelude.{
  ℕ, zero, suc, ◌≡◌, ◌∙◌, ap, sym, subst, refl, ◌==◌, if◌then◌else◌, false, some, List, [], ◌∷◌,
  Map, length, map, keys, lookup, contains, SortedFrom, arith,
}
use ancestral_property_serve.Prelude.Sizes.{lookup_below}
use ancestral_property_serve.Room.State.{Room, UserInfo, new_room}
use ancestral_property_serve.Room.Invariant.{IsValid}
use ancestral_property_serve.Room.Game.{user_info, fill_infos, get_room_user_infos}
use ancestral_property_serve.Room.History.{Call, run, run-new_room-IsValid}

fill_infos-all : (n : ℕ) (xs : List UserInfo) → length xs ≡ n → fill_infos n xs ≡ some xs
unfolding fill_infos
fill_infos-all zero [] e = refl
fill_infos-all zero (x ∷ xs) e = ground (arith, e)
fill_infos-all (suc n) [] e = ground (arith, e)
fill_infos-all (suc n) (x ∷ xs) e = ground (arith, e, fill_infos-all n xs)

length-map : {A B : Type 0} (f : A → B) (xs : List A) → length (map f xs) ≡ length xs
length-map f [] = refl
length-map f (x ∷ xs) = ap suc (length-map f xs)

length-keys : {V : Type 0} (m : Map V) → length (keys m) ≡ length m
length-keys [] = refl
length-keys ((k, v) ∷ m) = ap suc (length-keys m)

-- The rest of a sorted map has the keys that are not the first.
contains_rest :
    {V : Type 0} (u k : ℕ) (v : V) (m : Map V)
    → SortedFrom (suc k) m
    → contains u m ≡ (if u == k then false else contains u ((k, v) ∷ m))
unfolding lookup
contains_rest u k v m s = ground (arith, lookup_below u (suc k) m s)

-- Two sorted maps with the same keys have them in the same order.
same_keys :
    {V W : Type 0} (lo : ℕ) (a : Map V) (b : Map W)
    → SortedFrom lo a
    → SortedFrom lo b
    → ((u : ℕ) → contains u a ≡ contains u b)
    → keys a ≡ keys b
unfolding lookup
same_keys lo [] [] s t h = refl
same_keys lo [] ((k, w) ∷ b) s t h = ground (arith, h k)
same_keys lo ((j, v) ∷ a) [] s t h = ground (arith, h j)
same_keys lo ((j, v) ∷ a) ((k, w) ∷ b) s t h =
    let first : j ≡ k =
      ground (arith, h j, h k, lookup_below j (suc k) b t.1, lookup_below k (suc j) a s.1) in
    let rest = same_keys (suc j) a b s.1 (subst (λ i. SortedFrom (suc i) b) (sym first) t.1) (λ u.
      contains_rest u j v a s.1
      ∙ ap (λ c. if u == j then false else c) (h u)
      ∙ ap (λ i. if u == i then false else contains u ((k, w) ∷ b)) first
      ∙ sym (contains_rest u k w b t.1)) in
    ap (λ i. i ∷ keys a) first ∙ ap (λ l. k ∷ l) rest

get_room_user_infos-IsValid :
    (r : Room)
    → IsValid r
    → (get_room_user_infos r ≡ some (map (user_info r) r.id2name))
      × (keys r.id2name ≡ keys r.userid2userpid)
      × (keys r.userid2roleid ≡ keys r.userid2userpid)
unfolding get_room_user_infos
get_room_user_infos-IsValid r v =
    let named =
      same_keys 0 r.id2name r.userid2userpid v.profiles.names_sorted v.places.users_sorted
        v.profiles.with_name in
    (
      fill_infos-all (length r.userid2userpid) (map (user_info r) r.id2name) (
          length-map (user_info r) r.id2name
          ∙ sym (length-keys r.id2name)
          ∙ ap length named
          ∙ length-keys r.userid2userpid),
      named,
      same_keys 0 r.userid2roleid r.userid2userpid v.profiles.roles_sorted v.places.users_sorted
          v.profiles.with_role,
    )

-- After any history GetRoomUserInfos stays within its vector and fills it: it gives one entry for each
-- name. The users that have a name, those that have a role and those that have a pid are the same, so
-- each entry is a user's and has the role and the pid of that user.
pub run-get_room_user_infos :
    (id : ℕ) (name : String) (size draw unset : ℕ) (cs : List Call)
    → let r = run (new_room id name size draw unset) cs in
      (get_room_user_infos r ≡ some (map (user_info r) r.id2name))
      × (keys r.id2name ≡ keys r.userid2userpid)
      × (keys r.userid2roleid ≡ keys r.userid2userpid)
run-get_room_user_infos id name size draw unset cs =
    get_room_user_infos-IsValid (run (new_room id name size draw unset) cs)
      (run-new_room-IsValid id name size draw unset cs)
