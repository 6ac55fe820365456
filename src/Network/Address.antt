-- ===== src/Network/Address.antt =====
-- IpInfos (src/Tool/WIP.cpp): the two addresses of the machine, read from the output of a command and
-- kept. A text is the list of its characters' codes.
use ancestral_property_serve.Prelude.{
  ℕ, Bool, true, false, not, ◌&&◌, ◌||◌, Option, none, some, List, [], ◌∷◌, ◌++◌, ◌≡◌, ◌∙◌, ap, sym,
  refl, is_empty, leb, ◌==◌, if◌then◌else◌, arith,
}
use mathlib.Core.List.{reverse, reverse-append, reverse-cons, reverse-reverse}

abbrev pub Text : Type 0
Text = List ℕ

unfoldable pub same_text : Text → Text → Bool
same_text [] [] = true
same_text [] (y ∷ ys) = false
same_text (x ∷ xs) [] = false
same_text (x ∷ xs) (y ∷ ys) = let rest = same_text xs ys in (x == y) && rest

abbrev pub is_digit : ℕ → Bool
is_digit c = leb 48 c && leb c 57

-- The loop that drops characters from the back while they are no digits, on the reversed text.
unfoldable pub drop_back : Text → Text
drop_back [] = []
drop_back (c ∷ cs) = let rest = drop_back cs in if is_digit c then c ∷ cs else rest

abbrev pub trim : Text → Text
trim t = reverse (drop_back (reverse t))

pub record IpInfos : Type 0 where
  pub wip : Text
  pub nip : Text

-- "ERROR"
abbrev pub error_text : Text
error_text = 69 ∷ 82 ∷ 82 ∷ 79 ∷ 82 ∷ []

-- `output` is what _System reads, `none` where it fails.
unfoldable pub get_wip : Option Text → IpInfos → Text × IpInfos
get_wip output i =
    if not (is_empty i.wip)
    then (i.wip, i)
    else elim output [ none ↦ (error_text, i) | some t ↦ (trim t, record i { wip = trim t }) ]

unfoldable pub get_nip : Option Text → IpInfos → Text × IpInfos
get_nip output i =
    if not (is_empty i.nip)
    then (i.nip, i)
    else elim output [ none ↦ (error_text, i) | some t ↦ (trim t, record i { nip = trim t }) ]

-- The test that BootServer starts with.
unfoldable pub own_address : Option Text → Option Text → Text → IpInfos → Bool
own_address nip wip ip i = same_text (get_nip nip i).0 ip || same_text (get_wip wip i).0 ip

-- A text without a character.
abbrev pub Without : (ℕ → Bool) → Text → Type 0
Without p [] = Unit {0}
Without p (c ∷ cs) = (p c ≡ false) × Without p cs

Without-append : (p : ℕ → Bool) (xs ys : Text) → Without p xs → Without p ys → Without p (xs ++ ys)
Without-append p [] ys h k = k
Without-append p (x ∷ xs) ys (h, hs) k = (h, Without-append p xs ys hs k)

Without-reverse : (p : ℕ → Bool) (xs : Text) → Without p xs → Without p (reverse xs)
Without-reverse p [] h = tt
Without-reverse p (x ∷ xs) (h, hs) =
    rw (reverse-cons x xs)
      (Without-append p (reverse xs) (x ∷ []) (Without-reverse p xs hs) (h, tt))

drop_back-Without : (t u : Text) → Without is_digit t → drop_back (t ++ u) ≡ drop_back u
unfolding drop_back
drop_back-Without [] u h = refl
drop_back-Without (c ∷ cs) u (h, hs) = rw h (drop_back-Without cs u hs)

-- What the loop leaves of a text: all up to its last digit.
pub trim-eq :
    (body tail : Text) (d : ℕ)
    → is_digit d ≡ true
    → Without is_digit tail
    → trim ((body ++ d ∷ []) ++ tail) ≡ body ++ d ∷ []
unfolding drop_back
trim-eq body tail d h none_left =
    ap (λ t. reverse (drop_back t)) (reverse-append (body ++ d ∷ []) tail)
    ∙ ap reverse (drop_back-Without (reverse tail) _ (Without-reverse is_digit tail none_left))
    ∙ ap (λ t. reverse (drop_back t)) (reverse-append body (d ∷ []))
    ∙ rw h (ap reverse (sym (reverse-append body (d ∷ []))))
    ∙ reverse-reverse (body ++ d ∷ [])

pub same_text_refl : (t : Text) → same_text t t ≡ true
unfolding same_text
same_text_refl [] = refl
same_text_refl (x ∷ xs) = ground (arith, same_text_refl xs)

abbrev pub is_space : ℕ → Bool
is_space c = c == 32
