-- ===== src/Rbtree/Delete/Fixup.antt =====
-- rb_delete_fixup of my_rbtree.c restores the properties of a red-black tree.
use mathlib.Core.Path.{subst}
use my_libs.Base.{
  ℕ, suc, ◌+◌, ◌<◌, ◌≡◌, ◌⊎◌, inl, inr, refl, ◌∙◌, sym, ap, true, false, some, List, [], ◌∷◌, arith,
  Bool-cases, length,
}
use my_libs.Rbtree.{
  red, black, Tree, node, Side, to_left, to_right, Frame, join, plug, is_red, colour_of, paint,
}
use my_libs.Rbtree.Walk.{inorder, append_assoc}
use my_libs.Rbtree.Order.{
  RootBlack, rest_black, inorder-paint, colour-paint, colour-join, join_cong, plug_cong,
}
use my_libs.Rbtree.Check.{Even}
use my_libs.Rbtree.Balance.{Calm, Misses, plug-Even, Calm-black, paint-Even}
use my_libs.Rbtree.Rebalance.{red_node, red_of, black_of}
use my_libs.Rbtree.Delete.{near, far, moved_up, turned, settle_sibling, lift_sibling, fix_delete}
use my_libs.Rbtree.Delete.Settle.{Lowered, Raised, Good, Settles, settle_sibling_lem}

-- `x` with one black element less on each way down than its place wants: black, or red, and then it
-- makes up for it when it is painted black.
abbrev pub Short : Tree → ℕ → Type 0
Short x h =
    ((colour_of x ≡ black) × Even x h) ⊎ ((colour_of x ≡ red) × Even (paint black x) (suc h))

-- What the loop comes to: a red-black tree with a black root and the elements as they were.
abbrev pub Fixed : List Frame → Tree → Type 0
Fixed path x =
    (t : Tree) × (fix_delete path x ≡ some t)
    × (inorder t ≡ inorder (plug path x))
    × ((top : ℕ) × Even t top)
    × (colour_of t ≡ black)

pub plug-RootBlack :
    (f : Frame) (path : List Frame) (t : Tree)
    → RootBlack (f ∷ path)
    → colour_of (plug (f ∷ path) t) ≡ black
plug-RootBlack f [] t b = colour-join f t ∙ b
plug-RootBlack f (g ∷ path) t b = plug-RootBlack g path (join f t) b

settle_cases :
    (f : Frame) (x : Tree) (h : ℕ)
    → Settles f x h
    → ((par : Tree) × (settle_sibling f x ≡ some (moved_up par)) × Good f x h (moved_up par))
      ⊎ ((t : Tree) × (settle_sibling f x ≡ some (turned t)) × Good f x h (turned t))
settle_cases f x h (moved_up par, run, g) = inl (par, run, g)
settle_cases f x h (turned t, run, g) = inr (t, run, g)

-- The frames after the rotation that lifts a red sibling.
abbrev below_lifted : Frame → Tree → Tree → Frame
below_lifted f a b = record f { colour = red; other = near f.side a b }

abbrev lifted : Frame → Tree → Tree → ℕ → ℕ → Frame
lifted f a b n k = record {
  side = f.side;
  other = far f.side a b;
  count = n;
  colour = black;
  key = k;
}

lift_order :
    (f : Frame) (a b x : Tree) (n k : ℕ)
    → inorder (join (lifted f a b n k) (join (below_lifted f a b) x))
      ≡ inorder (join (record f { other = node a b n red k }) x)
lift_order f a b x n k = by_side f.side
  where
    by_side :
        (s : Side)
        → inorder (
            join
              (lifted (record f { side = s }) a b n k)
              (join (below_lifted (record f { side = s }) a b) x))
          ≡ inorder (join (record f { side = s; other = node a b n red k }) x)
    by_side to_left = append_assoc (inorder x) ((f.key, f.count) ∷ inorder a) ((k, n) ∷ inorder b)
    by_side to_right =
        sym (append_assoc (inorder a) ((k, n) ∷ inorder b) ((f.key, f.count) ∷ inorder x))

-- A red sibling, below a black parent.
module _ (f : Frame) (path : List Frame) (x a b : Tree) (n k h : ℕ)
    (other : f.other ≡ node a b n red k) (bx : colour_of x ≡ black) (ex : Even x h)
    (ba : colour_of a ≡ black) (bb : colour_of b ≡ black) (ea : Even a (suc h))
    (eb : Even b (suc h)) (m : Misses path (suc (suc h))) (root : RootBlack (f ∷ path))
    (fits : length path + 2 < 64) where
  f' : Frame
  f' = below_lifted f a b

  g' : Frame
  g' = lifted f a b n k

  near_lem : (s : Side) → (colour_of (near s a b) ≡ black) × Even (near s a b) (suc h)
  near_lem to_left = (ba, ea)
  near_lem to_right = (bb, eb)

  far_lem : (s : Side) → Even (far s a b) (suc h)
  far_lem to_left = eb
  far_lem to_right = ea

  lifted_order :
      (t : Tree)
      → inorder t ≡ inorder (join f' x)
      → inorder (plug (g' ∷ path) t) ≡ inorder (plug (f ∷ path) x)
  unfolding f' g'
  lifted_order t e = plug_cong path (join g' t) (join f x) (
      join_cong g' t (join f' x) e
      ∙ lift_order f a b x n k
      ∙ ap (λ o. inorder (join (record f { other = o }) x)) (sym other))

  lifted-Misses : Misses (g' ∷ path) (suc h)
  unfolding g'
  lifted-Misses = inr (refl, far_lem f.side, m)

  lifted_root : (p : List Frame) → RootBlack (f ∷ p) → RootBlack (g' ∷ p)
  unfolding g'
  lifted_root [] r = refl
  lifted_root (q ∷ p) r = r

  red_sibling : Fixed (f ∷ path) x
  unfolding fix_delete lift_sibling f' g'
  red_sibling =
      elim (settle_cases f' x h
        (settle_sibling_lem f' x h bx ex (near_lem f.side).0 (near_lem f.side).1)) [
          | inl (par, run, good) ↦
              let whole = plug (g' ∷ path) (paint black par) in
              (
                whole,
                ground arith,
                lifted_order (paint black par) (inorder-paint black par ∙ good.0),
                plug-Even (g' ∷ path) (paint black par) (suc h) lifted-Misses (inl refl) good.1.1,
                plug-RootBlack g' path (paint black par) (lifted_root path root),
              )
          | inr (t, run, good) ↦
              let whole = plug (g' ∷ path) t in
              let (top, even) = plug-Even (g' ∷ path) t (suc h) lifted-Misses (inl refl) good.2 in
              (
                paint black whole,
                ground arith,
                inorder-paint black whole ∙ lifted_order t good.0,
                paint-Even whole top even,
                colour-paint whole,
              )
        ]

-- A black sibling, and what the loop does with the frames above.
module _ (f : Frame) (path : List Frame) (x : Tree) (h : ℕ) (bx : colour_of x ≡ black)
    (ex : Even x h) (red_x : is_red (colour_of x) ≡ false)
    (red_other : is_red (colour_of f.other) ≡ false) (other : Even f.other (suc h))
    (m : Misses (f ∷ path) (suc h))
    (above : (par : Tree) (h : ℕ) → Misses path (suc h) → Short par h → Fixed path par) where
  raise :
      (par : Tree)
      → settle_sibling f x ≡ some (moved_up par)
      → Good f x h (moved_up par)
      → Fixed path par
  raise par run (order, low) = elim m [
    | inl (r, bo, eo, calm, m) ↦ above par h m (inr (subst (λ c. Lowered c par h) r low))
    | inr (b, eo, m) ↦ above par (suc h) m (inl (subst (λ c. Lowered c par h) b low))
  ]

  turned-Even :
      (t : Tree) → colour_of t ≡ f.colour → Raised f.colour t h → (top : ℕ) × Even (plug path t) top
  turned-Even t c e = elim m [
    | inl (r, bo, eo, calm, m) ↦
        plug-Even path t (suc h) m (subst (Calm path) (sym (c ∙ r)) calm)
          (subst (λ c. Raised c t h) r e)
    | inr (b, eo, m) ↦
        plug-Even path t (suc (suc h)) m (Calm-black path t (c ∙ b)) (subst (λ c. Raised c t h) b e)
  ]

  black_sibling : Fixed (f ∷ path) x
  unfolding fix_delete
  black_sibling =
      elim (settle_cases f x h
        (settle_sibling_lem f x h bx ex (black_of (colour_of f.other) red_other) other)) [
          | inl (par, run, good) ↦
              let (t, ran, order, even, top) = raise par run good in
              (t, ground arith, order ∙ plug_cong path par (join f x) good.0, even, top)
          | inr (t, run, good) ↦
              let (top, even) = turned-Even t good.1 good.2 in
              let whole = plug path t in
              (
                paint black whole,
                ground arith,
                inorder-paint black whole ∙ plug_cong path t (join f x) good.0,
                paint-Even whole top even,
                colour-paint whole,
              )
        ]

red_parts :
    (f : Frame) (path : List Frame) (h : ℕ)
    → Misses (f ∷ path) (suc h)
    → is_red (colour_of f.other) ≡ true
    → Misses path (suc (suc h)) × Even f.other (suc h)
red_parts f path h (inl (r, bo, eo, calm, m)) e =
    absurd (ground (arith, red_of (colour_of f.other) e))
red_parts f path h (inr (b, eo, m)) e = (m, eo)

sibling-Even : (f : Frame) (path : List Frame) (h : ℕ) → Misses (f ∷ path) h → Even f.other h
sibling-Even f path h (inl (r, bo, eo, calm, m)) = eo
sibling-Even f path h (inr (b, eo, m)) = eo

-- The loop from a place with one black element too few, on a path with a black root.
pub fix_delete_lem :
    (path : List Frame) (x : Tree) (h : ℕ)
    → Misses path (suc h)
    → RootBlack path
    → Short x h
    → length path < 63
    → Fixed path x
unfolding fix_delete
fix_delete_lem [] x h m b (inl (bx, e)) fits =
    (paint black x, refl, inorder-paint black x, paint-Even x h e, colour-paint x)
fix_delete_lem [] x h m b (inr (rx, e)) fits =
    (paint black x, refl, inorder-paint black x, (suc h, e), colour-paint x)
fix_delete_lem (f ∷ path) x h m b (inr (rx, e)) fits = (
  plug (f ∷ path) (paint black x),
  ground arith,
  plug_cong (f ∷ path) (paint black x) x (inorder-paint black x),
  plug-Even (f ∷ path) (paint black x) (suc h) m
      (Calm-black (f ∷ path) (paint black x) (colour-paint x)) e,
  plug-RootBlack f path (paint black x) b,
)
fix_delete_lem (f ∷ path) x h m b (inl (bx, e)) fits =
    elim (Bool-cases (is_red (colour_of f.other))) [
      | inl red_other ↦
          let (m, eo) = red_parts f path h m red_other in
          let (a, c, n, k, same, ba, bc, ea, ec) =
            red_node f.other (suc h) (red_of (colour_of f.other) red_other) eo in
          red_sibling f path x a c n k h same bx e ba bc ea ec m b (omega (arith, fits))
      | inr black_other ↦
          black_sibling f path x h bx e (ground arith) black_other (sibling-Even f path (suc h) m) m
            (λ par g m s. fix_delete_lem path par g m (rest_black f path b) s (omega (arith, fits)))
    ]
