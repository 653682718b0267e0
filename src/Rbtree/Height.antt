-- ===== src/Rbtree/Height.antt =====
-- How high a red-black tree of my_rbtree.c can be, against the 64 places of `parents`.
use mathlib.Core.Path.{subst}
use my_libs.Base.{
  ℕ, zero, suc, ◌+◌, ◌*◌, ◌^◌, ◌≤◌, ◌<◌, ◌≡◌, ◌⊎◌, inl, inr, refl, sym, ◌∷◌, ◌++◌, arith, length,
  length-append,
}
use my_libs.Rbtree.{red, black, Tree, null_element, node, colour_of}
use my_libs.Rbtree.Check.{Even}
use my_libs.Rbtree.Walk.{inorder}
use my_libs.Rbtree.Insert.{height}

-- 2^h, by doubling.
pub double : ℕ → ℕ
double zero = 1
double (suc h) = double h + double h

pub double_pos : (h : ℕ) → 1 ≤ double h
unfolding double
double_pos zero = omega arith
double_pos (suc h) = omega (arith, double_pos h)

double_mono : (h k : ℕ) → h ≤ k → double h ≤ double k
unfolding double
double_mono zero k e = double_pos k
double_mono (suc h) zero e = absurd (omega arith)
double_mono (suc h) (suc k) e = omega (arith, double_mono h k (omega arith))

-- A black top halves what is red on the way down.
height_le :
    (t : Tree) (h : ℕ)
    → Even t h
    → (height t ≤ 2 * h + 1) × (colour_of t ≡ black → height t ≤ 2 * h)
unfolding colour_of
height_le null_element h e = (omega arith, λ b. omega arith)
height_le (node l r n red k) h (bl, br, el, er) =
    let hl = (height_le l h el).1 bl in
    let hr = (height_le r h er).1 br in (omega arith, λ b. absurd (ground arith))
height_le (node l r n black k) h (m, e, el, er) =
    let hl = (height_le l m el).0 in
    let hr = (height_le r m er).0 in (omega arith, λ b. omega arith)

-- And its elements fill the black levels.
double_le : (t : Tree) (h : ℕ) → Even t h → double h ≤ length (inorder t) + 1
unfolding double
double_le null_element h e = subst (λ h. double h ≤ 1) (sym e) (omega arith)
double_le (node l r n red k) h (bl, br, el, er) =
    omega (arith, double_le l h el, length-append (inorder l) ((k, n) ∷ inorder r))
double_le (node l r n black k) h (m, e, el, er) =
    subst (λ h. double h ≤ length (inorder l ++ (k, n) ∷ inorder r) + 1) (sym e)
      (omega
        (arith, double_le l m el, double_le r m er, length-append (inorder l) ((k, n) ∷ inorder r)))

-- A red-black tree with a black root and fewer than 2^32 - 1 elements has fewer levels than
-- `parents` has places, less one.
pub height_lem :
    (t : Tree) (h : ℕ)
    → colour_of t ≡ black
    → Even t h
    → length (inorder t) + 1 < 2 ^ 32
    → height t < 63
height_lem t h b e w = elim (le_cases h 31) [
  | inl low ↦ omega (arith, (height_le t h e).1 b)
  | inr high ↦ absurd (omega (arith, double_le t h e, double_mono 32 h high, double_32))
]
  where
    double_32 : double 32 ≡ 2 ^ 32
    double_32 = unfold double in refl

    le_cases : (a b : ℕ) → (a ≤ b) ⊎ (b + 1 ≤ a)
    le_cases a b = ground arith
