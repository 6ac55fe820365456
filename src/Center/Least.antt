-- ===== src/Center/Least.antt =====
-- FindAvailableServerInGroup (src/Source/CenterServer.cpp).
use ancestral_property_serve.Prelude.{
  ℕ, ◌≤◌, ◌<◌, ◌≡◌, refl, ◌⊎◌, inl, inr, ltb, if_keeps, subst, Option, none, some, List, [], ◌∷◌,
  arith,
}
use ancestral_property_serve.Enums.{ServerFreeLevel, free_level_code}
use ancestral_property_serve.Center.{
  Center, ServerInfo, machine, find_from, find_available_server_in_group,
}
use ancestral_property_serve.Center.Groups.{count}

abbrev level_of : Center → ℕ → ℕ
level_of c fd = free_level_code (machine c fd).level

-- The level of the machine found, or `l` where none is.
abbrev found : Center → Option ℕ → ℕ
found c none = free_level_code ServerFreeLevel.down
found c (some fd) = level_of c fd

-- r is the best of what was found before and of the group.
BestOf : Center → Option ℕ → List ℕ → Option ℕ → Type 0
BestOf c index group r =
    (found c r ≤ found c index)
    × ((fd : ℕ) → 0 < count fd group → found c r ≤ level_of c fd)
    × ((r ≡ index) ⊎ ((fd : ℕ) × (r ≡ some fd) × (0 < count fd group)))

pub count-cons :
    (p fd : ℕ) (group : List ℕ) → 0 < count fd (p ∷ group) → (p ≡ fd) ⊎ (0 < count fd group)
unfolding count
count-cons p fd group h = ground (arith, h)

pub count-head : (p : ℕ) (group : List ℕ) → 0 < count p (p ∷ group)
unfolding count
count-head p group = ground arith

pub count-tail : (p fd : ℕ) (group : List ℕ) → 0 < count fd group → 0 < count fd (p ∷ group)
unfolding count
count-tail p fd group h = ground (arith, h)

BestOf-take :
    (c : Center) (index : Option ℕ) (p : ℕ) (group : List ℕ) (r : Option ℕ)
    → level_of c p < found c index
    → BestOf c (some p) group r
    → BestOf c index (p ∷ group) r
unfolding BestOf
BestOf-take c index p group r less (a, b, o) = (
  omega (arith, a, less),
  λ fd h. elim (count-cons p fd group h) [
    | inl e ↦ subst (λ x. found c r ≤ level_of c x) e a
    | inr k ↦ b fd k
  ],
  elim o [
    | inl e ↦ inr (p, e, count-head p group)
    | inr (fd, e, k) ↦ inr (fd, e, count-tail p fd group k)
  ],
)

BestOf-skip :
    (c : Center) (index : Option ℕ) (p : ℕ) (group : List ℕ) (r : Option ℕ)
    → found c index ≤ level_of c p
    → BestOf c index group r
    → BestOf c index (p ∷ group) r
unfolding BestOf
BestOf-skip c index p group r less (a, b, o) = (
  a,
  λ fd h. elim (count-cons p fd group h) [
    | inl e ↦ subst (λ x. found c r ≤ level_of c x) e (omega (arith, a, less))
    | inr k ↦ b fd k
  ],
  elim o [ inl e ↦ inl e | inr (fd, e, k) ↦ inr (fd, e, count-tail p fd group k) ],
)

find_from-BestOf :
    (c : Center) (index : Option ℕ) (group : List ℕ)
    → BestOf c index group (find_from c index (found c index) group)
unfolding find_from BestOf count
find_from-BestOf c index [] = (ground arith, λ fd h. ground (arith, h), inl refl)
find_from-BestOf c index (p ∷ group) =
    if_keeps (BestOf c index (p ∷ group)) (ltb (level_of c p) (found c index))
      (λ h.
        BestOf-take c index p group (find_from c (some p) (level_of c p) group) (ground (arith, h))
          (find_from-BestOf c (some p) group))
      (λ h.
        BestOf-skip c index p group (find_from c index (found c index) group) (ground (arith, h))
          (find_from-BestOf c index group))

-- The machine that is found in a group is no busier than any machine of the group. It is a machine
-- of the group, or it is down, and then every machine of the group has the level down or one with a
-- greater number.
pub find_available-least :
    (c : Center) (info : ServerInfo) (group : List ℕ)
    → let m = find_available_server_in_group c info group in
      ((fd : ℕ)
        → 0 < count fd group
        → free_level_code m.level ≤ free_level_code (machine c fd).level)
      × ((m.level ≡ ServerFreeLevel.down) ⊎ ((fd : ℕ) × (m ≡ machine c fd) × (0 < count fd group)))
unfolding find_available_server_in_group BestOf
find_available-least c info group =
    let (a, b, o) = find_from-BestOf c none group in
    elim o [
      | inl e ↦ (λ fd h. ground (arith, e, b fd h), inl (ground (arith, e)))
      | inr (fd, e, k) ↦ (
        λ f h. ground (arith, e, b f h),
        inr (fd, rw (e, find_available_server_in_group) refl, k),
      )
    ]
