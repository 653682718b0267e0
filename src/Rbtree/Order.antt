-- ===== src/Rbtree/Order.antt =====
-- What rb_insert and rbtree_insert of my_rbtree.c make of the elements in their order.
use my_libs.Base.{
  ℕ, ◌≡◌, inl, inr, refl, ◌∙◌, sym, ap, Option, some, List, [], ◌∷◌, ◌++◌, arith, Bool-cases,
}
use my_libs.Rbtree.{
  Colour, red, black, Tree, null_element, node, Side, to_left, to_right, Frame, join, plug, is_red,
  colour_of, paint, rbtree_left_rotate, rbtree_right_rotate, rotate_from, same_side, settle,
  fix_insert,
}
use my_libs.Rbtree.Walk.{inorder, append_assoc, append_nil}

-- The colour of an element is that of its frame.
pub colour-join : (f : Frame) (t : Tree) → colour_of (join f t) ≡ f.colour
unfolding colour_of
colour-join f t = by_side f.side
  where
    by_side : (s : Side) → colour_of (join (record f { side = s }) t) ≡ f.colour
    by_side to_left = refl
    by_side to_right = refl

-- It has an element on top.
pub data IsNode : Tree → Type 0 where
  is_node : (l r : Tree) (n : ℕ) (c : Colour) (k : ℕ) → IsNode (node l r n c k)

join-IsNode : (f : Frame) (t : Tree) → IsNode (join f t)
join-IsNode f t = by_side f.side
  where
    by_side : (s : Side) → IsNode (join (record f { side = s }) t)
    by_side to_left = is_node _ _ _ _ _
    by_side to_right = is_node _ _ _ _ _

pub inorder-paint : (c : Colour) (t : Tree) → inorder (paint c t) ≡ inorder t
unfolding paint
inorder-paint c null_element = refl
inorder-paint c (node l r n d k) = refl

paint-IsNode : (c : Colour) (t : Tree) → IsNode t → IsNode (paint c t)
unfolding paint
paint-IsNode c _ (is_node l r n d k) = is_node l r n c k

-- What lies before and behind the place of a frame.
unfoldable pub before : Frame → List (ℕ × ℕ)
before f = elim f.side [ to_left ↦ [] | to_right ↦ inorder f.other ++ (f.key, f.count) ∷ [] ]

unfoldable pub behind : Frame → List (ℕ × ℕ)
behind f = elim f.side [ to_left ↦ (f.key, f.count) ∷ inorder f.other | to_right ↦ [] ]

pub inorder-join : (f : Frame) (t : Tree) → inorder (join f t) ≡ before f ++ (inorder t ++ behind f)
unfolding before behind
inorder-join f t = by_side f.side
  where
    by_side :
        (s : Side)
        → inorder (join (record f { side = s }) t)
          ≡ before (record f { side = s }) ++ (inorder t ++ behind (record f { side = s }))
    by_side to_left = refl
    by_side to_right = sym (
        append_assoc (inorder f.other) ((f.key, f.count) ∷ []) (inorder t ++ [])
        ∙ ap (λ l. inorder f.other ++ (f.key, f.count) ∷ l) (append_nil (inorder t)))

pub join_cong :
    (f : Frame) (t u : Tree) → inorder t ≡ inorder u → inorder (join f t) ≡ inorder (join f u)
join_cong f t u e =
    inorder-join f t ∙ ap (λ l. before f ++ (l ++ behind f)) e ∙ sym (inorder-join f u)

-- The colours do not matter.
join_painted :
    (f : Frame) (c d : Colour) (t : Tree)
    → inorder (join (record f { colour = c; other = paint d f.other }) t) ≡ inorder (join f t)
join_painted f c d t = by_side f.side
  where
    by_side :
        (s : Side)
        → inorder (join (record f { side = s; colour = c; other = paint d f.other }) t)
          ≡ inorder (join (record f { side = s }) t)
    by_side to_left = ap (λ l. inorder t ++ (f.key, f.count) ∷ l) (inorder-paint d f.other)
    by_side to_right = ap (λ l. l ++ (f.key, f.count) ∷ inorder t) (inorder-paint d f.other)

join_coloured :
    (f : Frame) (c : Colour) (t : Tree)
    → inorder (join (record f { colour = c }) t) ≡ inorder (join f t)
join_coloured f c t =
    inorder-join (record f { colour = c }) t ∙ unfold before behind in sym (inorder-join f t)

pub plug_cong :
    (path : List Frame) (t u : Tree)
    → inorder t ≡ inorder u
    → inorder (plug path t) ≡ inorder (plug path u)
plug_cong [] t u e = e
plug_cong (f ∷ path) t u e = plug_cong path (join f t) (join f u) (join_cong f t u e)

-- A rotation lifts an element on the side taken, and keeps the order.
record Rotated (t : Tree) (r : Option Tree) : Type 0 where
  tree : Tree
  ran : r ≡ some tree
  top : IsNode tree
  order : inorder tree ≡ inorder t

rotated : (f : Frame) (t : Tree) → IsNode t → Rotated (join f t) (rotate_from f.side (join f t))
unfolding rotate_from rbtree_left_rotate rbtree_right_rotate
rotated f _ (is_node l r n c k) = by_side f.side
  where
    by_side :
        (s : Side)
        → Rotated
            (join (record f { side = s }) (node l r n c k))
            (rotate_from s (join (record f { side = s }) (node l r n c k)))
    by_side to_left = record {
      tree = _;
      ran = refl;
      top = is_node _ _ _ _ _;
      order =
          sym (append_assoc (inorder l) ((k, n) ∷ inorder r) ((f.key, f.count) ∷ inorder f.other));
    }
    by_side to_right = record {
      tree = _;
      ran = refl;
      top = is_node _ _ _ _ _;
      order = append_assoc (inorder f.other) ((f.key, f.count) ∷ inorder l) ((k, n) ∷ inorder r);
    }

settle_from :
    (par2 : Frame) (child whole : Tree)
    → IsNode child
    → inorder child ≡ inorder whole
    → (t : Tree) × (rotate_from par2.side (join (record par2 { colour = red }) (paint black child))
        ≡ some t)
      × (inorder t ≡ inorder (join par2 whole))
settle_from par2 child whole h e =
    let r =
      rotated (record par2 { colour = red }) (paint black child) (paint-IsNode black child h) in
    (
      r.tree,
      r.ran,
      r.order
          ∙ join_coloured par2 red (paint black child)
          ∙ join_cong par2 (paint black child) whole (inorder-paint black child ∙ e),
    )

settle_lem :
    (par par2 : Frame) (leaf : Tree)
    → IsNode leaf
    → (t : Tree) × (settle par par2 leaf ≡ some t)
      × (inorder t ≡ inorder (join par2 (join par leaf)))
unfolding settle
settle_lem par par2 leaf h = elim (Bool-cases (same_side par.side par2.side)) [
  | inl same ↦
      let (t, ran, order) =
        settle_from par2 (join par leaf) (join par leaf) (join-IsNode par leaf) refl in
      (t, ground arith, order)
  | inr other ↦
      let r = rotated par leaf h in
      let ran1 = r.ran in
      let (t, ran, order) = settle_from par2 r.tree (join par leaf) r.top r.order in
      (t, ground arith, order)
]

-- The root is black, or the path has not left it.
abbrev pub RootBlack : List Frame → Type 0
RootBlack [] = Unit {0}
RootBlack (f ∷ []) = f.colour ≡ black
RootBlack (f ∷ g ∷ path) = RootBlack (g ∷ path)

pub rest_black : (f : Frame) (path : List Frame) → RootBlack (f ∷ path) → RootBlack path
rest_black f [] h = tt
rest_black f (g ∷ path) h = h

pub colour-paint : (t : Tree) → colour_of (paint black t) ≡ black
unfolding paint colour_of
colour-paint null_element = refl
colour-paint (node l r n c k) = refl

-- The loop of rb_insert below a black root comes to an end, keeps the order, and leaves a black root.
pub fix_insert_lem :
    (path : List Frame) (leaf : Tree)
    → IsNode leaf
    → RootBlack path
    → (t : Tree) × (fix_insert path leaf ≡ some t)
      × (inorder t ≡ inorder (plug path leaf))
      × (colour_of t ≡ black)
unfolding fix_insert
fix_insert_lem [] leaf h b = (paint black leaf, refl, inorder-paint black leaf, colour-paint leaf)
fix_insert_lem (par ∷ []) leaf h b = (
  paint black (join par leaf),
  ground arith,
  inorder-paint black (join par leaf),
  colour-paint (join par leaf),
)
fix_insert_lem (par ∷ par2 ∷ path) leaf h b = elim (Bool-cases (is_red par.colour)) [
  | inr calm ↦ (
    paint black (plug (par ∷ par2 ∷ path) leaf),
    ground arith,
    inorder-paint black (plug (par ∷ par2 ∷ path) leaf),
    colour-paint (plug (par ∷ par2 ∷ path) leaf),
  )
  | inl clash ↦ elim (Bool-cases (is_red (colour_of par2.other))) [
    | inl uncle ↦
        let lower : Tree = join (record par { colour = black }) leaf in
        let upper : Tree =
          join (record par2 { colour = red; other = paint black par2.other }) lower in
        let (t, ran, order, top) =
          fix_insert_lem path upper (join-IsNode _ lower) (rest_black par2 path b) in
        (
          t,
          ground arith,
          order
              ∙ plug_cong path upper (join par2 (join par leaf)) (
                  join_painted par2 red black lower
                  ∙ join_cong par2 lower (join par leaf) (join_coloured par black leaf)),
          top,
        )
    | inr no_uncle ↦
        let (t, ran, order) = settle_lem par par2 leaf h in
        (
          paint black (plug path t),
          ground arith,
          inorder-paint black (plug path t) ∙ plug_cong path t (join par2 (join par leaf)) order,
          colour-paint (plug path t),
        )
  ]
]
