-- ===== src/Encryption/Collisions.antt =====
-- What a token of src/Header/Tool/Encryption.hpp depends on. 114514 is even, so after 32 characters
-- the radix is 0 mod 2 ^ 32 and what follows adds nothing.
use ancestral_property_serve.Prelude.{
  ℕ, zero, suc, ◌+◌, ◌-◌, ◌*◌, ◌%◌, ◌^◌, ◌≤◌, ◌<◌, subst, ◌≡◌, refl, ◌∙◌, ap, sym, List, [], ◌∷◌,
  ◌++◌, length, arith,
}
use ancestral_property_serve.Encryption.{
  Hash, widen, hash_text, generation_suffix, generate_token, to_string,
}

-- The radix after n characters.
radix_after : ℕ → ℕ → ℕ
radix_after zero r = r
radix_after (suc n) r = radix_after n ((r * 114514) % 2 ^ 32)

radix-hash_text :
    (cs : List ℕ) (h : Hash) → (hash_text cs h).radix ≡ radix_after (length cs) h.radix
unfolding hash_text radix_after
radix-hash_text [] h = refl
radix-hash_text (c ∷ cs) h = radix-hash_text cs _

radix_gone : radix_after 32 1 ≡ 0
unfolding radix_after
radix_gone = refl

radix_stays : (n : ℕ) → radix_after n 0 ≡ 0
unfolding radix_after
radix_stays zero = refl
radix_stays (suc n) = radix_stays n

radix_after-add : (m n r : ℕ) → radix_after (m + n) r ≡ radix_after n (radix_after m r)
unfolding radix_after
radix_after-add zero n r = let e : 0 + n ≡ n = omega arith in rw e refl
radix_after-add (suc m) n r =
    let e : suc m + n ≡ suc (m + n) = omega arith in
    rw e (radix_after-add m n ((r * 114514) % 2 ^ 32))

-- After 32 characters the radix is gone.
radix_after_long : (n : ℕ) → 32 ≤ n → radix_after n 1 ≡ 0
radix_after_long n h =
    let e : n ≡ 32 + (n - 32) = omega arith in
    rw (e, radix_after-add 32 (n - 32) 1, radix_gone) (radix_stays (n - 32))

hash_text-append :
    (xs ys : List ℕ) (h : Hash) → hash_text (xs ++ ys) h ≡ hash_text ys (hash_text xs h)
unfolding hash_text
hash_text-append [] ys h = refl
hash_text-append (x ∷ xs) ys h = hash_text-append xs ys _

-- A hash whose radix is gone, in range.
record IsDone (h : Hash) : Type 0 where
  gone : h.radix ≡ 0
  small : h.ret < 2 ^ 32

next : ℕ → Hash → Hash
next c h = record {
  radix = (h.radix * 114514) % 2 ^ 32;
  ret = (h.ret + h.radix * widen c) % 2 ^ 32;
}

next-IsDone : (c : ℕ) (h : Hash) → IsDone h → next c h ≡ h
unfolding next
next-IsDone c h d =
    let r : (h.radix * 114514) % 2 ^ 32 ≡ h.radix = rw d.gone refl in
    let s : (h.ret + h.radix * widen c) % 2 ^ 32 ≡ h.ret = simp d.gone (grind (arith, d.small)) in
    λ i. record { radix = r i; ret = s i }

-- What follows a hash whose radix is gone adds nothing.
hash_text-IsDone : (cs : List ℕ) (h : Hash) → IsDone h → hash_text cs h ≡ h
unfolding hash_text next
hash_text-IsDone [] h d = refl
hash_text-IsDone (c ∷ cs) h d = ap (hash_text cs) (next-IsDone c h d) ∙ hash_text-IsDone cs h d

hash_text-small : (cs : List ℕ) (h : Hash) → h.ret < 2 ^ 32 → (hash_text cs h).ret < 2 ^ 32
unfolding hash_text
hash_text-small [] h small = small
hash_text-small (c ∷ cs) h small = hash_text-small cs _ (omega arith)

mod_small : (k : ℕ) → k % 2 ^ 32 < 2 ^ 32
mod_small k = omega arith

fresh : Hash
fresh = record { radix = 1; ret = 0 }

long-IsDone : (cs : List ℕ) → 32 ≤ length cs → IsDone (hash_text cs fresh)
unfolding fresh
long-IsDone cs long = record {
  gone = radix-hash_text cs fresh ∙ radix_after_long (length cs) long;
  small = hash_text-small cs fresh (omega arith);
}

-- Only the first 32 characters of user name and password together count for the suffix: what is
-- appended to a password beyond them changes nothing.
pub generation_suffix-ignores_tail :
    (username passwd tail : List ℕ)
    → 32 ≤ length (username ++ passwd)
    → generation_suffix username (passwd ++ tail) ≡ generation_suffix username passwd
unfolding generation_suffix fresh
generation_suffix-ignores_tail username passwd tail long =
    let named = hash_text username fresh in
    ap (λ (h : Hash). to_string h.ret)
      (hash_text-append passwd tail named
        ∙ hash_text-IsDone tail (hash_text passwd named) (
            subst IsDone (hash_text-append username passwd fresh)
              (long-IsDone (username ++ passwd) long)))

-- A user name of 32 characters or more has the same token with every password, at the same draw.
pub generate_token-ignores_passwd :
    (username passwd other : List ℕ) (draw : ℕ)
    → 32 ≤ length username
    → generate_token username passwd draw ≡ generate_token username other draw
unfolding generate_token fresh
generate_token-ignores_passwd username passwd other draw long =
    let d = long-IsDone username long in
    let scaled : Hash = record (hash_text username fresh) {
      ret = ((hash_text username fresh).ret * length username) % 2 ^ 32;
    } in
    let done : IsDone scaled = record {
      gone = d.gone;
      small = mod_small ((hash_text username fresh).ret * length username);
    } in
    let same : (p : List ℕ)
        → hash_text (generation_suffix username p) (hash_text p scaled) ≡ scaled =
      λ p.
        ap (hash_text (generation_suffix username p)) (hash_text-IsDone p scaled done)
        ∙ hash_text-IsDone (generation_suffix username p) scaled done in
    ap (λ (h : Hash). (h.ret * draw) % 2 ^ 32) (same passwd ∙ sym (same other))
