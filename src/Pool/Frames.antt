-- ===== src/Pool/Frames.antt =====
-- The messages of FrameMgr (src/Tool/FrameMgr.cpp): what is kept under each frame.
use ancestral_property_serve.Prelude.{
  ℕ, List, [], ◌∷◌, ◌++◌, lookup, at, lookup-insert, lookup-erase, ◌==◌, if◌then◌else◌, ◌≡◌, ◌∙◌,
  ap, refl, arith,
}
use ancestral_property_serve.Pool.{FrameMgr, new_frame_mgr, add_frame, del_frame, get_frame}

-- AddFrame and DelFrame in any order.
pub data Operation : Type 0 where
  adds : (frame_count msg : ℕ) → Operation
  deletes : (frame_count : ℕ) → Operation

unfoldable pub apply : Operation → FrameMgr → FrameMgr
apply (Operation.adds n msg) f = add_frame n msg f
apply (Operation.deletes n) f = del_frame n f

unfoldable pub apply_all : List Operation → FrameMgr → FrameMgr
apply_all [] f = f
apply_all (o ∷ os) f = apply_all os (apply o f)

-- What is kept under frame q, that had `kept`.
abbrev pub kept_after : ℕ → List Operation → List ℕ → List ℕ
kept_after q [] kept = kept
kept_after q (Operation.adds n msg ∷ os) kept =
    kept_after q os (if n == q then kept ++ msg ∷ [] else kept)
kept_after q (Operation.deletes n ∷ os) kept = kept_after q os (if n == q then [] else kept)

get_frame-add_frame :
    (q n msg : ℕ) (f : FrameMgr)
    → get_frame q (add_frame n msg f)
      ≡ (if n == q then get_frame q f ++ msg ∷ [] else get_frame q f)
unfolding get_frame add_frame
get_frame-add_frame q n msg f =
    ground (arith, lookup-insert n q (at n [] f.frame ++ msg ∷ []) f.frame)

get_frame-del_frame :
    (q n : ℕ) (f : FrameMgr) → get_frame q (del_frame n f) ≡ (if n == q then [] else get_frame q f)
unfolding get_frame del_frame
get_frame-del_frame q n f = ground (arith, lookup-erase n q f.frame)

get_frame-apply_all :
    (q : ℕ) (os : List Operation) (f : FrameMgr)
    → get_frame q (apply_all os f) ≡ kept_after q os (get_frame q f)
unfolding apply_all apply
get_frame-apply_all q [] f = refl
get_frame-apply_all q (Operation.adds n msg ∷ os) f =
    get_frame-apply_all q os (add_frame n msg f)
    ∙ ap (kept_after q os) (get_frame-add_frame q n msg f)
get_frame-apply_all q (Operation.deletes n ∷ os) f =
    get_frame-apply_all q os (del_frame n f) ∙ ap (kept_after q os) (get_frame-del_frame q n f)

-- After any calls of AddFrame and DelFrame, GetFrame of a frame gives the messages that were added
-- under it since it was last deleted, in order, and nothing of the other frames.
pub get_frame-new :
    (q : ℕ) (os : List Operation) → get_frame q (apply_all os new_frame_mgr) ≡ kept_after q os []
unfolding get_frame lookup
get_frame-new q os = get_frame-apply_all q os new_frame_mgr
