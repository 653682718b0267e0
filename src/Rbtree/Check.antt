-- ===== src/Rbtree/Check.antt =====
-- test_rb_tree of my_rbtree.c.
use mathlib.Core.Path.{subst}
use my_libs.Base.{
  ℕ, suc, ◌+◌, ◌≡◌, ◌↔◌, ◌⊎◌, inl, inr, refl, ◌&&◌, ◌||◌, if◌then◌else◌, ◌==◌, arith,
}
use my_libs.Base.Int.{ℤ, pos, negsuc}
use my_libs.Rbtree.{Colour, red, black, Tree, null_element, node, is_red, colour_of}

-- The black count, or -1.
unfoldable pub test_rb_tree : Tree → ℤ
unfolding colour_of
test_rb_tree null_element = pos 0
test_rb_tree (node l r n c k) =
    let count_l = test_rb_tree l in
    let count_r = test_rb_tree r in
    let two_reds = is_red c && (is_red (colour_of l) || is_red (colour_of r)) in
    if two_reds then negsuc 0 else elim count_l [
      | negsuc _ ↦ negsuc 0
      | pos a ↦ elim count_r [
        | negsuc _ ↦ negsuc 0
        | pos b ↦ if a == b then pos (if is_red c then a else a + 1) else negsuc 0
      ]
    ]

-- The properties of a red-black tree, with `h` black elements on each way down: the null element
-- ends each, and a red element has no red child.
abbrev pub Even : Tree → ℕ → Type 0
Even null_element h = h ≡ 0
Even (node l r n red k) h = (colour_of l ≡ black) × (colour_of r ≡ black) × Even l h × Even r h
Even (node l r n black k) h = (m : ℕ) × (h ≡ suc m) × Even l m × Even r m

test-of_Even : (t : Tree) (h : ℕ) → Even t h → test_rb_tree t ≡ pos h
unfolding test_rb_tree colour_of
test-of_Even null_element h e = ground arith
test-of_Even (node l r n red k) h (bl, br, el, er) =
    let tl = test-of_Even l h el in let tr = test-of_Even r h er in ground arith
test-of_Even (node l r n black k) h (m, e, el, er) =
    let tl = test-of_Even l m el in let tr = test-of_Even r m er in ground arith

ℤ-cases : (z : ℤ) → ((n : ℕ) × (z ≡ pos n)) ⊎ ((n : ℕ) × (z ≡ negsuc n))
ℤ-cases (pos n) = inl (n, refl)
ℤ-cases (negsuc n) = inr (n, refl)

Even-of_test : (t : Tree) (h : ℕ) → test_rb_tree t ≡ pos h → Even t h
unfolding test_rb_tree
Even-of_test null_element h e = ground arith
Even-of_test (node l r n c k) h e = elim (ℤ-cases (test_rb_tree l)) [
  | inr (a, el) ↦ absurd (ground arith)
  | inl (a, el) ↦ elim (ℤ-cases (test_rb_tree r)) [
    | inr (b, er) ↦ absurd (ground arith)
    | inl (b, er) ↦ by_colour c (Even-of_test l a el) (Even-of_test r b er) el er e
  ]
]
  where
    by_colour :
        (c : Colour) {a b : ℕ}
        → Even l a
        → Even r b
        → test_rb_tree l ≡ pos a
        → test_rb_tree r ≡ pos b
        → test_rb_tree (node l r n c k) ≡ pos h
        → Even (node l r n c k) h
    by_colour red {a} {b} ea eb el er e =
        let x : a ≡ h = ground arith in
        let y : b ≡ h = ground arith in
        (ground arith, ground arith, subst (Even l) x ea, subst (Even r) y eb)
    by_colour black {a} {b} ea eb el er e =
        let x : b ≡ a = ground arith in (a, ground arith, ea, subst (Even r) x eb)

-- test_rb_tree returns the number of black elements on each way down exactly for a tree in which
-- these numbers are equal and no red element has a red child.
pub test_rb_tree_lem : (t : Tree) (h : ℕ) → Even t h ↔ (test_rb_tree t ≡ pos h)
test_rb_tree_lem t h = (test-of_Even t h, Even-of_test t h)
