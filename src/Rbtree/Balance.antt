-- ===== src/Rbtree/Balance.antt =====
-- rb_insert of my_rbtree.c keeps the properties of a red-black tree.
use mathlib.Core.Path.{subst}
use my_libs.Base.{ℕ, suc, ◌≡◌, ◌⊎◌, inl, inr, refl, ◌∙◌, sym, List, [], ◌∷◌, arith}
use my_libs.Rbtree.{
  Colour, red, black, Tree, null_element, node, Side, to_left, to_right, Frame, join, plug,
  colour_of, paint,
}
use my_libs.Rbtree.Check.{Even}
use my_libs.Rbtree.Order.{colour-join}

pub Even-red :
    (l r : Tree) (n : ℕ) (c : Colour) (k h : ℕ)
    → c ≡ red
    → (colour_of l ≡ black) × (colour_of r ≡ black) × Even l h × Even r h
    → Even (node l r n c k) h
Even-red l r n c k h e parts = subst (λ c. Even (node l r n c k) h) (sym e) parts

pub Even-black :
    (l r : Tree) (n : ℕ) (c : Colour) (k h : ℕ)
    → c ≡ black
    → Even l h
    → Even r h
    → Even (node l r n c k) (suc h)
Even-black l r n c k h e el er =
    subst (λ c. Even (node l r n c k) (suc h)) (sym e) (h, refl, el, er)

pub join_red :
    (f : Frame) (t : Tree) (h : ℕ)
    → f.colour ≡ red
    → colour_of f.other ≡ black
    → Even f.other h
    → colour_of t ≡ black
    → Even t h
    → Even (join f t) h
join_red f t h e bo eo bt et = by_side f.side
  where
    by_side : (s : Side) → Even (join (record f { side = s }) t) h
    by_side to_left = Even-red t f.other f.count f.colour f.key h e (bt, bo, et, eo)
    by_side to_right = Even-red f.other t f.count f.colour f.key h e (bo, bt, eo, et)

pub join_black :
    (f : Frame) (t : Tree) (h : ℕ)
    → f.colour ≡ black
    → Even f.other h
    → Even t h
    → Even (join f t) (suc h)
join_black f t h e eo et = by_side f.side
  where
    by_side : (s : Side) → Even (join (record f { side = s }) t) (suc h)
    by_side to_left = Even-black t f.other f.count f.colour f.key h e et eo
    by_side to_right = Even-black f.other t f.count f.colour f.key h e eo et

-- Below the path an element of that colour is no red one below a red one.
abbrev pub Calm : List Frame → Colour → Type 0
Calm [] c = Unit {0}
Calm (f ∷ path) c = (f.colour ≡ black) ⊎ (c ≡ black)

pub Calm-black : (path : List Frame) (t : Tree) → colour_of t ≡ black → Calm path (colour_of t)
Calm-black [] t b = tt
Calm-black (f ∷ path) t b = inr b

-- A path at whose end a tree with `h` black elements on each way down is missing: with it, the tree
-- would have the properties of a red-black tree, but for the colour of its top.
abbrev pub Misses : List Frame → ℕ → Type 0
Misses [] h = Unit {0}
Misses (f ∷ path) h =
    ((f.colour ≡ red)
      × (colour_of f.other ≡ black)
      × Even f.other h
      × Calm path red
      × Misses path h)
    ⊎ ((f.colour ≡ black) × Even f.other h × Misses path (suc h))

pub plug-Even :
    (path : List Frame) (t : Tree) (h : ℕ)
    → Misses path h
    → Calm path (colour_of t)
    → Even t h
    → (top : ℕ) × Even (plug path t) top
plug-Even [] t h m c e = (h, e)
plug-Even (f ∷ path) t h (inr (b, eo, m)) c e =
    plug-Even path (join f t) (suc h) m (Calm-black path (join f t) (colour-join f t ∙ b))
      (join_black f t h b eo e)
plug-Even (f ∷ path) t h (inl (r, bo, eo, calm, m)) (inl b) e = absurd (ground arith)
plug-Even (f ∷ path) t h (inl (r, bo, eo, calm, m)) (inr bt) e =
    plug-Even path (join f t) h m (subst (Calm path) (sym (colour-join f t ∙ r)) calm)
      (join_red f t h r bo eo bt e)

-- The tree with its root painted black.
pub paint-Even : (t : Tree) (h : ℕ) → Even t h → (top : ℕ) × Even (paint black t) top
unfolding paint
paint-Even null_element h e = (h, e)
paint-Even (node l r n red k) h (bl, br, el, er) = (suc h, (h, refl, el, er))
paint-Even (node l r n black k) h e = (h, e)

pub paint_red-Even :
    (t : Tree) (h : ℕ) → colour_of t ≡ red → Even t h → Even (paint black t) (suc h)
unfolding paint colour_of
paint_red-Even null_element h c e = absurd (ground arith)
paint_red-Even (node l r n red k) h c (bl, br, el, er) = (h, refl, el, er)
paint_red-Even (node l r n black k) h c e = absurd (ground arith)

-- What is left of a red-black tree when a subtree is taken out.
abbrev Parts : Frame → Tree → ℕ → Type 0
Parts f t h =
    ((f.colour ≡ red)
      × (colour_of f.other ≡ black)
      × Even f.other h
      × (colour_of t ≡ black)
      × Even t h)
    ⊎ ((f.colour ≡ black) × (m : ℕ) × (h ≡ suc m) × Even f.other m × Even t m)

split_join : (f : Frame) (t : Tree) (h : ℕ) → Even (join f t) h → Parts f t h
split_join f t h e = by_frame f.side f.colour e
  where
    by_frame :
        (s : Side) (c : Colour)
        → Even (join (record f { side = s; colour = c }) t) h
        → Parts (record f { side = s; colour = c }) t h
    by_frame to_left red (bt, bo, et, eo) = inl (refl, bo, eo, bt, et)
    by_frame to_right red (bo, bt, eo, et) = inl (refl, bo, eo, bt, et)
    by_frame to_left black (m, e, et, eo) = inr (refl, m, e, eo, et)
    by_frame to_right black (m, e, eo, et) = inr (refl, m, e, eo, et)

pub unplug-Even :
    (path : List Frame) (t : Tree) (top : ℕ)
    → Even (plug path t) top
    → (h : ℕ) × Misses path h × Calm path (colour_of t) × Even t h
unplug-Even [] t top e = (top, tt, tt, e)
unplug-Even (f ∷ path) t top e =
    let (h, m, calm, whole) = unplug-Even path (join f t) top e in
    elim (split_join f t h whole) [
      | inl (r, bo, eo, bt, et) ↦
          (h, inl (r, bo, eo, subst (Calm path) (colour-join f t ∙ r) calm, m), inr bt, et)
      | inr (b, n, e, eo, et) ↦ (n, inr (b, eo, subst (Misses path) e m), inl b, et)
    ]
