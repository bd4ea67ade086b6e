-- ===== src/Common/Text/Trim.antt =====
-- Laws of strings.TrimSpace: what it returns has no space at either end, and trimming it again
-- changes nothing.
use Prim.Native.Nat.{ℕ, zero, suc}
use mathlib.Core.Path.{◌≡◌, refl, ap, sym, ◌∙◌}
use mathlib.Core.List.{[], ◌∷◌, ◌++◌, reverse, reverse-reverse, reverse-append}
use native.Mathlib.Omega.{arith}
use goster_io_t.Common.Text.{Text, space_front, space_back, strip, trim_space}

module _ (w : Text → ℕ) where
  -- A text on which `strip` has nothing to do.
  strip_fixed : (s : Text) → w s ≡ 0 → strip w 0 s ≡ s
  unfolding strip
  strip_fixed [] h = refl
  strip_fixed (c ∷ s) h = rw (h, strip)

  strip_clean : (n : ℕ) (s : Text) → w [] ≡ 0 → w (strip w n s) ≡ 0
  unfolding strip
  strip_clean n [] h = h
  strip_clean (suc n) (c ∷ s) h = strip_clean n s h
  strip_clean zero (c ∷ s) h = go (w (c ∷ s)) refl (λ k. strip_clean k s h)
    where
      go :
          (k : ℕ)
          → w (c ∷ s) ≡ k
          → ((n : ℕ) → w (strip w n s) ≡ 0)
          → w (elim k [ zero ↦ c ∷ s | suc j ↦ strip w j s ]) ≡ 0
      go zero e ih = e
      go (suc k) e ih = ih k

  -- `strip` drops bytes from the front.
  strip_suffix : (n : ℕ) (s : Text) → (p : Text) × (s ≡ p ++ strip w n s)
  unfolding strip
  strip_suffix n [] = ([], refl)
  strip_suffix (suc n) (c ∷ s) = let (p, e) = strip_suffix n s in (c ∷ p, ap (λ l. c ∷ l) e)
  strip_suffix zero (c ∷ s) = go (w (c ∷ s)) (λ k. strip_suffix k s)
    where
      go :
          (k : ℕ)
          → ((n : ℕ) → (p : Text) × (s ≡ p ++ strip w n s))
          → (p : Text) × (c ∷ s ≡ p ++ elim k [ zero ↦ c ∷ s | suc j ↦ strip w j s ])
      go zero ih = ([], refl)
      go (suc k) ih = let (p, e) = ih k in (c ∷ p, ap (λ l. c ∷ l) e)

-- Bytes behind a text do not turn a space at its front into something else.
space_front-append : (x y : Text) → space_front (x ++ y) ≡ 0 → space_front x ≡ 0
unfolding space_front
space_front-append [] y h = refl
space_front-append (a ∷ []) [] h = h
space_front-append (a ∷ []) (b ∷ []) h = ground arith
space_front-append (a ∷ []) (b ∷ c ∷ y) h = ground arith
space_front-append (a ∷ b ∷ []) [] h = h
space_front-append (a ∷ b ∷ []) (c ∷ y) h = ground arith
space_front-append (a ∷ b ∷ c ∷ x) y h = h

abbrev back_stripped : Text → Text
back_stripped t = strip space_back 0 (reverse t)

trim_prefix : (t : Text) → space_front t ≡ 0 → space_front (reverse (back_stripped t)) ≡ 0
trim_prefix t h =
    let (p, e) = strip_suffix space_back 0 (reverse t) in
    let whole : t ≡ reverse (back_stripped t) ++ reverse p =
      sym (reverse-reverse t) ∙ ap reverse e ∙ reverse-append p (back_stripped t) in
    space_front-append (reverse (back_stripped t)) (reverse p) (rw whole at h)

front_of_trim : (s : Text) → space_front (trim_space s) ≡ 0
unfolding trim_space
front_of_trim s =
    trim_prefix (strip space_front 0 s) (strip_clean space_front 0 s (unfold space_front in refl))

back_of_trim : (s : Text) → space_back (reverse (trim_space s)) ≡ 0
unfolding trim_space
back_of_trim s =
    rw reverse-reverse
      (strip_clean space_back 0 (reverse (strip space_front 0 s)) (unfold space_back in refl))

trim_fixed : (s : Text) → space_front s ≡ 0 → space_back (reverse s) ≡ 0 → trim_space s ≡ s
unfolding trim_space
trim_fixed s f b =
    rw (strip_fixed space_front s f, strip_fixed space_back (reverse s) b) (reverse-reverse s)

-- strings.TrimSpace is idempotent.
pub trim_space_idem : (s : Text) → trim_space (trim_space s) ≡ trim_space s
trim_space_idem s = trim_fixed (trim_space s) (front_of_trim s) (back_of_trim s)
