-- ===== src/Rbtree/Rebalance.antt =====
-- rb_insert of my_rbtree.c keeps the properties of a red-black tree.
use mathlib.Core.Path.{subst}
use my_libs.Base.{
  ℕ, suc, ◌≡◌, inl, inr, refl, sym, true, false, some, List, [], ◌∷◌, arith, Bool-cases,
}
use my_libs.Rbtree.{
  Colour, red, black, Tree, null_element, node, Side, to_left, to_right, Frame, join, plug, is_red,
  colour_of, paint, rotate_from, same_side, settle, fix_insert, rbtree_left_rotate,
  rbtree_right_rotate,
}
use my_libs.Rbtree.Check.{Even}
use my_libs.Rbtree.Order.{RootBlack, rest_black, colour-join, colour-paint}
use my_libs.Rbtree.Balance.{
  Misses, Even-red, join_red, join_black, plug-Even, Calm-black, paint-Even, paint_red-Even,
}

pub red_of : (c : Colour) → is_red c ≡ true → c ≡ red
red_of red h = refl
red_of black h = absurd (ground arith)

pub black_of : (c : Colour) → is_red c ≡ false → c ≡ black
black_of red h = absurd (ground arith)
black_of black h = refl

-- What a tree is, if its top is red.
pub red_node :
    (t : Tree) (h : ℕ)
    → colour_of t ≡ red
    → Even t h
    → (a : Tree) × (b : Tree) × (n : ℕ) × (k : ℕ) × (t ≡ node a b n red k)
      × (colour_of a ≡ black)
      × (colour_of b ≡ black)
      × Even a h
      × Even b h
unfolding colour_of
red_node null_element h c e = absurd (ground arith)
red_node (node a b n red k) h c (ba, bb, ea, eb) = (a, b, n, k, refl, ba, bb, ea, eb)
red_node (node a b n black k) h c e = absurd (ground arith)

-- What settle makes of a red parent with a black uncle: a tree that fits where `par2` was.
abbrev Settled : Frame → Frame → Tree → ℕ → Type 0
Settled par par2 leaf h =
    (t : Tree) × (settle par par2 leaf ≡ some t) × (colour_of t ≡ black) × Even t (suc h)

module _ (par par2 : Frame) (a b : Tree) (n k h : ℕ) (rp : par.colour ≡ red)
    (bo : colour_of par.other ≡ black) (eo : Even par.other h) (b2 : colour_of par2.other ≡ black)
    (e2 : Even par2.other h) (ba : colour_of a ≡ black) (bb : colour_of b ≡ black) (ea : Even a h)
    (eb : Even b h) where
  abbrev risen : Tree
  risen = node a b n red k

  Settled-by : (s s2 : Side) → Settled (record par { side = s }) (record par2 { side = s2 }) risen h
  unfolding settle rotate_from same_side rbtree_left_rotate rbtree_right_rotate paint colour_of
  Settled-by to_left to_left = (_, refl, refl, (h, refl, (ba, bb, ea, eb), (bo, b2, eo, e2)))
  Settled-by to_right to_right = (_, refl, refl, (h, refl, (b2, bo, e2, eo), (ba, bb, ea, eb)))
  Settled-by to_right to_left = (
    _,
    refl,
    refl,
    (
      h,
      refl,
      Even-red par.other a par.count par.colour par.key h rp (bo, ba, eo, ea),
      (bb, b2, eb, e2),
    ),
  )
  Settled-by to_left to_right = (
    _,
    refl,
    refl,
    (
      h,
      refl,
      (b2, ba, e2, ea),
      Even-red b par.other par.count par.colour par.key h rp (bb, bo, eb, eo),
    ),
  )

  pub settle-Even : Settled par par2 risen h
  settle-Even = Settled-by par.side par2.side

-- The loop of rb_insert below a black root, from a red element whose subtree is right in itself,
-- leaves a red-black tree.
pub fix_insert-Even :
    (path : List Frame) (leaf : Tree) (h : ℕ)
    → RootBlack path
    → Misses path h
    → colour_of leaf ≡ red
    → Even leaf h
    → (t : Tree) × (fix_insert path leaf ≡ some t) × ((top : ℕ) × Even t top)
unfolding fix_insert
fix_insert-Even [] leaf h b m c e = (paint black leaf, refl, paint-Even leaf h e)
fix_insert-Even (par ∷ []) leaf h b (inl (r, bo, eo, cm, m)) c e = absurd (ground arith)
fix_insert-Even (par ∷ []) leaf h b (inr (bp, eo, m)) c e = (
  paint black (join par leaf),
  ground arith,
  paint-Even (join par leaf) (suc h) (join_black par leaf h bp eo e),
)
fix_insert-Even (par ∷ par2 ∷ path) leaf h b (inr (bp, eo, m)) c e =
    let (top, whole) = plug-Even (par ∷ par2 ∷ path) leaf h (inr (bp, eo, m)) (inl bp) e in
    (
      paint black (plug (par ∷ par2 ∷ path) leaf),
      ground arith,
      paint-Even (plug (par ∷ par2 ∷ path) leaf) top whole,
    )
fix_insert-Even (par ∷ par2 ∷ path) leaf h b (inl (rp, bo, eo, inr imp, m)) c e =
    absurd (ground arith)
fix_insert-Even (par ∷ par2 ∷ path) leaf h b (inl (rp, bo, eo, inl bp2, inl (rp2, b2, e2, cm, m))) c
      e =
    absurd (ground arith)
fix_insert-Even (par ∷ par2 ∷ path) leaf h b (inl (rp, bo, eo, inl bp2, inr (bp, e2, m))) c e =
    elim (Bool-cases (is_red (colour_of par2.other))) [
      | inl uncle ↦
          let lower : Tree = join (record par { colour = black }) leaf in
          let upper_frame : Frame = record par2 { colour = red; other = paint black par2.other } in
          let upper : Tree = join upper_frame lower in
          let lower-Even : Even lower (suc h) =
            join_black (record par { colour = black }) leaf h refl eo e in
          let upper-Even : Even upper (suc h) =
            join_red upper_frame lower (suc h) refl (colour-paint par2.other)
              (paint_red-Even par2.other h (red_of (colour_of par2.other) uncle) e2)
              (colour-join (record par { colour = black }) leaf) lower-Even in
          let (t, ran, whole) =
            fix_insert-Even path upper (suc h) (rest_black par2 path b) m
              (colour-join upper_frame lower) upper-Even in
          (t, ground arith, whole)
      | inr no_uncle ↦
          let (x, y, n, k, same, bx, by, ex, ey) = red_node leaf h c e in
          let (t, ran, bt, et) =
            subst (λ l. Settled par par2 l h) (sym same)
              (settle-Even par par2 x y n k h rp bo eo (black_of (colour_of par2.other) no_uncle) e2
                bx by ex ey) in
          let (top, whole) = plug-Even path t (suc h) m (Calm-black path t bt) et in
          (paint black (plug path t), ground arith, paint-Even (plug path t) top whole)
    ]
