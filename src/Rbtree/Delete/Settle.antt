-- ===== src/Rbtree/Delete/Settle.antt =====
-- One round of rb_delete_fixup of my_rbtree.c with a black sibling.
use mathlib.Core.Path.{subst}
use my_libs.Base.{ℕ, suc, ◌≡◌, inl, inr, refl, ◌∙◌, sym, ap, some, ◌∷◌, ◌++◌, arith, Bool-cases}
use my_libs.Rbtree.{
  Colour, red, black, Tree, null_element, node, Side, to_left, to_right, Frame, join, is_red,
  colour_of, paint, rotate_from, rbtree_left_rotate, rbtree_right_rotate,
}
use my_libs.Rbtree.Walk.{inorder, append_assoc}
use my_libs.Rbtree.Order.{inorder-paint, colour-paint}
use my_libs.Rbtree.Check.{Even}
use my_libs.Rbtree.Balance.{paint_red-Even}
use my_libs.Rbtree.Rebalance.{red_node, red_of, black_of}
use my_libs.Rbtree.Delete.{far, paint_child, Round, moved_up, turned, settle_sibling}

-- The parent as the new `x`, with one black element less on each way down than before the removal:
-- a red one makes up for it when it is painted black.
abbrev pub Lowered : Colour → Tree → ℕ → Type 0
Lowered red t h = (colour_of t ≡ red) × Even (paint black t) (suc h)
Lowered black t h = (colour_of t ≡ black) × Even t (suc h)

-- The tree below the parent's place, with as many black elements as before the removal.
abbrev pub Raised : Colour → Tree → ℕ → Type 0
Raised red t h = Even t (suc h)
Raised black t h = Even t (suc (suc h))

abbrev pub Good : Frame → Tree → ℕ → Round → Type 0
Good f x h (moved_up par) = (inorder par ≡ inorder (join f x)) × Lowered f.colour par h
Good f x h (turned t) =
    (inorder t ≡ inorder (join f x)) × (colour_of t ≡ f.colour) × Raised f.colour t h

abbrev pub Settles : Frame → Tree → ℕ → Type 0
Settles f x h = (r : Round) × (settle_sibling f x ≡ some r) × Good f x h r

-- A frame whose sibling is a black element.
abbrev with_sibling : Side → Colour → Tree → Tree → ℕ → ℕ → Frame → Frame
with_sibling s c l r n k f = record f { side = s; colour = c; other = node l r n black k }

module _ (f : Frame) (x l r : Tree) (n k h : ℕ) (bx : colour_of x ≡ black) (ex : Even x h)
    (el : Even l h) (er : Even r h) where
  -- Neither child is red.
  calm :
      (s : Side) (c : Colour)
      → colour_of l ≡ black
      → colour_of r ≡ black
      → Settles (with_sibling s c l r n k f) x h
  unfolding settle_sibling paint colour_of
  calm to_left red bl br = (
    moved_up (node x (node l r n red k) f.count red f.key),
    ground arith,
    (refl, (refl, (h, refl, ex, (bl, br, el, er)))),
  )
  calm to_left black bl br = (
    moved_up (node x (node l r n red k) f.count black f.key),
    ground arith,
    (refl, (refl, (h, refl, ex, (bl, br, el, er)))),
  )
  calm to_right red bl br = (
    moved_up (node (node l r n red k) x f.count red f.key),
    ground arith,
    (refl, (refl, (h, refl, (bl, br, el, er), ex))),
  )
  calm to_right black bl br = (
    moved_up (node (node l r n red k) x f.count black f.key),
    ground arith,
    (refl, (refl, (h, refl, (bl, br, el, er), ex))),
  )

  -- The other child of the sibling is red: one rotation.
  once :
      (s : Side) (c : Colour)
      → colour_of (far s l r) ≡ red
      → Settles (with_sibling s c l r n k f) x h
  unfolding settle_sibling paint paint_child colour_of rotate_from rbtree_left_rotate
      rbtree_right_rotate
  once to_left c rf = (
    turned (node (node x l f.count black f.key) (paint black r) n c k),
    ground arith,
    (order, refl, raised c),
  )
    where
      order :
          inorder (node (node x l f.count black f.key) (paint black r) n c k)
          ≡ inorder (join (with_sibling to_left c l r n k f) x)
      order =
          append_assoc (inorder x) ((f.key, f.count) ∷ inorder l) ((k, n) ∷ inorder (paint black r))
          ∙ ap (λ e. inorder x ++ (f.key, f.count) ∷ (inorder l ++ (k, n) ∷ e))
              (inorder-paint black r)

      raised : (c : Colour) → Raised c (node (node x l f.count black f.key) (paint black r) n c k) h
      raised red = (refl, colour-paint r, (h, refl, ex, el), paint_red-Even r h rf er)
      raised black = (suc h, refl, (h, refl, ex, el), paint_red-Even r h rf er)
  once to_right c rf = (
    turned (node (paint black l) (node r x f.count black f.key) n c k),
    ground arith,
    (order, refl, raised c),
  )
    where
      order :
          inorder (node (paint black l) (node r x f.count black f.key) n c k)
          ≡ inorder (join (with_sibling to_right c l r n k f) x)
      order =
          ap (λ e. e ++ (k, n) ∷ (inorder r ++ (f.key, f.count) ∷ inorder x))
            (inorder-paint black l)
          ∙ sym (append_assoc (inorder l) ((k, n) ∷ inorder r) ((f.key, f.count) ∷ inorder x))

      raised : (c : Colour) → Raised c (node (paint black l) (node r x f.count black f.key) n c k) h
      raised red = (colour-paint l, refl, paint_red-Even l h rf el, (h, refl, er, ex))
      raised black = (suc h, refl, paint_red-Even l h rf el, (h, refl, er, ex))

-- The child of the sibling on the side of `x` is red, and the other is not: two rotations.
module _ (f : Frame) (x a b o : Tree) (m j n k h : ℕ) (ex : Even x h) (ea : Even a h)
    (eb : Even b h) (eo : Even o h) (bo : colour_of o ≡ black) where
  twice_left : (c : Colour) → Settles (with_sibling to_left c (node a b m red j) o n k f) x h
  unfolding settle_sibling paint paint_child colour_of rotate_from rbtree_left_rotate
      rbtree_right_rotate
  twice_left c = (
    turned (node (node x a f.count black f.key) (node b o n black k) m c j),
    ground arith,
    (order, refl, raised c),
  )
    where
      order :
          (inorder x ++ (f.key, f.count) ∷ inorder a) ++ (j, m) ∷ (inorder b ++ (k, n) ∷ inorder o)
          ≡ inorder x
            ++ (f.key, f.count) ∷ ((inorder a ++ (j, m) ∷ inorder b) ++ (k, n) ∷ inorder o)
      order = simp (append_assoc)

      raised :
          (c : Colour) → Raised c (node (node x a f.count black f.key) (node b o n black k) m c j) h
      raised red = (refl, refl, (h, refl, ex, ea), (h, refl, eb, eo))
      raised black = (suc h, refl, (h, refl, ex, ea), (h, refl, eb, eo))

  twice_right : (c : Colour) → Settles (with_sibling to_right c o (node a b m red j) n k f) x h
  unfolding settle_sibling paint paint_child colour_of rotate_from rbtree_left_rotate
      rbtree_right_rotate
  twice_right c = (
    turned (node (node o a n black k) (node b x f.count black f.key) m c j),
    ground arith,
    (order, refl, raised c),
  )
    where
      order :
          (inorder o ++ (k, n) ∷ inorder a) ++ (j, m) ∷ (inorder b ++ (f.key, f.count) ∷ inorder x)
          ≡ (inorder o ++ (k, n) ∷ (inorder a ++ (j, m) ∷ inorder b))
            ++ (f.key, f.count) ∷ inorder x
      order = simp (append_assoc)

      raised :
          (c : Colour) → Raised c (node (node o a n black k) (node b x f.count black f.key) m c j) h
      raised red = (refl, refl, (h, refl, eo, ea), (h, refl, eb, ex))
      raised black = (suc h, refl, (h, refl, eo, ea), (h, refl, eb, ex))

module _ (f : Frame) (x : Tree) (h : ℕ) (bx : colour_of x ≡ black) (ex : Even x h) where
  by_children :
      (s : Side) (c : Colour) (l r : Tree) (n k : ℕ)
      → Even l h
      → Even r h
      → Settles (with_sibling s c l r n k f) x h
  by_children to_left c l r n k el er = elim (Bool-cases (is_red (colour_of r))) [
    | inl red_r ↦ once f x l r n k h bx ex el er to_left c (red_of (colour_of r) red_r)
    | inr black_r ↦ elim (Bool-cases (is_red (colour_of l))) [
      | inr black_l ↦
          calm f x l r n k h bx ex el er to_left c (black_of (colour_of l) black_l)
            (black_of (colour_of r) black_r)
      | inl red_l ↦
          let (a, b, m, j, same, ba, bb, ea, eb) = red_node l h (red_of (colour_of l) red_l) el in
          subst (λ l. Settles (with_sibling to_left c l r n k f) x h) (sym same)
            (twice_left f x a b r m j n k h ex ea eb er (black_of (colour_of r) black_r) c)
    ]
  ]
  by_children to_right c l r n k el er = elim (Bool-cases (is_red (colour_of l))) [
    | inl red_l ↦ once f x l r n k h bx ex el er to_right c (red_of (colour_of l) red_l)
    | inr black_l ↦ elim (Bool-cases (is_red (colour_of r))) [
      | inr black_r ↦
          calm f x l r n k h bx ex el er to_right c (black_of (colour_of l) black_l)
            (black_of (colour_of r) black_r)
      | inl red_r ↦
          let (a, b, m, j, same, ba, bb, ea, eb) = red_node r h (red_of (colour_of r) red_r) er in
          subst (λ r. Settles (with_sibling to_right c l r n k f) x h) (sym same)
            (twice_right f x a b l m j n k h ex ea eb el (black_of (colour_of l) black_l) c)
    ]
  ]

  -- A round with a black sibling that has a black element more on each way down than `x`.
  pub settle_sibling_lem : colour_of f.other ≡ black → Even f.other (suc h) → Settles f x h
  unfolding colour_of
  settle_sibling_lem = by_other f.other
    where
      by_other :
          (o : Tree) → colour_of o ≡ black → Even o (suc h) → Settles (record f { other = o }) x h
      by_other null_element b e = absurd (omega arith)
      by_other (node l r n red k) b e = absurd (ground arith)
      by_other (node l r n black k) b (g, e, el, er) =
          let same : g ≡ h = omega arith in
          by_children f.side f.colour l r n k (subst (Even l) same el) (subst (Even r) same er)
