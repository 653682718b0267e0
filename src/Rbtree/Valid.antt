-- ===== src/Rbtree/Valid.antt =====
-- The invariant of a tree of my_rbtree.c, and rbtree_insert on it.
use mathlib.Core.Path.{subst}
use my_libs.Base.{
  ℕ, ◌+◌, ◌<◌, ◌^◌, ◌≡◌, inl, inr, refl, ◌∙◌, sym, ap, Bool, true, false, some, List, [], ◌∷◌, ◌++◌,
  if◌then◌else◌, arith, Bool-cases, length, length-append, u32, u32_lem,
}
use my_libs.Base.Int.{ℤ, is_neg, is_pos}
use my_libs.Rbtree.{
  Colour, red, black, Tree, null_element, node, to_left, to_right, Frame, plug, colour_of, paint,
  rb_insert, Rbtree, Found, at_element, at_null, descend, link,
}
use my_libs.Rbtree.Walk.{inorder}
use my_libs.Rbtree.Order.{is_node, RootBlack, fix_insert_lem}
use my_libs.Rbtree.Insert.{height, befores, behinds, inorder-plug}
use my_libs.Rbtree.Check.{Even}
use my_libs.Rbtree.Balance.{plug-Even, unplug-Even}
use my_libs.Rbtree.Rebalance.{fix_insert-Even}
use my_libs.Rbtree.Height.{height_lem}
use my_libs.Rbtree.Search.{IsKeyOrder, Keys, Differs}
use my_libs.Rbtree.Sorted.{
  Sorted, Sorted-append, Sorted-left, Sorted-right, Guided, guided_lem, All, All-append, All-map,
  Keys-of_All,
}

module _ (compare : ℕ → ℕ → ℤ) where
  pub record IsValid (tree : Rbtree) : Type 0 where
    pub top : colour_of tree.root ≡ black
    pub black_count : ℕ
    pub even : Even tree.root black_count
    pub ordered : Sorted compare (inorder tree.root)
    pub numbered : tree.elements ≡ length (inorder tree.root)
    pub word : tree.elements + 1 < 2 ^ 32

  pub valid-height : (tree : Rbtree) → IsValid tree → height tree.root < 63
  valid-height tree v =
      height_lem tree.root v.black_count v.top v.even (omega (arith, v.word, v.numbered))

  -- The path to where a search ends.
  abbrev pub path_of : Found → List Frame
  path_of (at_element p l r n c k) = p
  path_of (at_null p) = p

  pub descend-Guided :
      (o : IsKeyOrder compare) (path : List Frame) (t : Tree) (key : ℕ)
      → Guided compare key path
      → Guided compare key (path_of (descend compare path t key))
  unfolding descend
  descend-Guided o path null_element key g = g
  descend-Guided o path (node l r n c k) key g =
      let fr : Frame = record { side = to_right; other = l; count = n; colour = c; key = k } in
      let fl : Frame = record { side = to_left; other = r; count = n; colour = c; key = k } in
      elim (Bool-cases (is_neg (compare k key))) [
        | inl neg ↦ rw neg (descend-Guided o (fr ∷ path) r key (inl (refl, neg), g))
        | inr not_neg ↦ elim (Bool-cases (is_pos (compare k key))) [
          | inl above ↦
              rw (not_neg, above)
                (descend-Guided o (fl ∷ path) l key (inr (refl, sym (o.swapped k key) ∙ above), g))
          | inr equal ↦ rw (not_neg, equal) g
        ]
      ]

recount-Even :
    (l r : Tree) (n m : ℕ) (c : Colour) (k h : ℕ)
    → Even (node l r n c k) h
    → Even (node l r m c k) h
recount-Even l r n m red k h e = e
recount-Even l r n m black k h e = e

-- The tree with an element counted otherwise.
pub recount_plug :
    (p : List Frame) (l r : Tree) (n m : ℕ) (c : Colour) (k top : ℕ)
    → Even (plug p (node l r n c k)) top
    → (top' : ℕ) × Even (plug p (node l r m c k)) top'
unfolding colour_of
recount_plug p l r n m c k top e =
    let (h, misses, calm, here) = unplug-Even p (node l r n c k) top e in
    plug-Even p (node l r m c k) h misses calm (recount-Even l r n m c k h here)

abbrev pub empty_tree : Rbtree → Rbtree
empty_tree tree = record tree { root = null_element; elements = 0 }

module _ (compare : ℕ → ℕ → ℤ) (o : IsKeyOrder compare) where
  -- Where the search ends at the null element, no element compares equal.
  pub absent :
      (t : Tree) (key : ℕ) (path : List Frame)
      → Sorted compare (inorder t)
      → plug path null_element ≡ t
      → Guided compare key path
      → Keys (Differs compare key) t
  absent t key path s e g =
      let list : inorder t ≡ befores path ++ behinds path =
        ap inorder (sym e) ∙ inorder-plug path null_element in
      let (lower, upper) = guided_lem compare o key path [] (subst (Sorted compare) list s) g in
      Keys-of_All compare (Differs compare key) t (
        subst (All (Differs compare key)) (sym list) (
          All-append (Differs compare key) (befores path) (behinds path)
            (All-map (befores path) (λ a h. inl h) lower)
            (All-map (behinds path) (λ a h. inr (o.swapped a key ∙ h)) upper)))

  -- The insertion of a new element at the end of a search.
  pub link-IsValid :
      (memory : Bool) (tree : Rbtree) (path : List Frame) (key : ℕ)
      → IsValid compare tree
      → tree.elements + 2 < 2 ^ 32
      → RootBlack path
      → length path < 64
      → plug path null_element ≡ tree.root
      → Guided compare key path
      → (r : Bool × Rbtree) × (link memory tree path key ≡ some r)
        × IsValid compare r.1
        × (r.0 ≡ memory)
        × (inorder r.1.root ≡ (
            if memory
            then befores path ++ (key, 1) ∷ behinds path
            else befores path ++ behinds path))
  unfolding link rb_insert paint colour_of
  link-IsValid false tree path key v w b h e g =
      ((false, tree), refl, v, refl, ap inorder (sym e) ∙ inorder-plug path null_element)
  link-IsValid true tree path key v w b h e g =
      let leaf : Tree = node null_element null_element 1 red key in
      let old : inorder tree.root ≡ befores path ++ behinds path =
        ap inorder (sym e) ∙ inorder-plug path null_element in
      let sorted : Sorted compare (befores path ++ behinds path) =
        subst (Sorted compare) old v.ordered in
      let (h0, misses, calm, none_left) =
        unplug-Even path null_element v.black_count
          (subst (λ t. Even t v.black_count) (sym e) v.even) in
      let (t, ran, order, now_black) = fix_insert_lem path leaf (is_node _ _ _ _ _) b in
      let (t2, ran2, whole) =
        fix_insert-Even path leaf h0 b misses refl (refl, refl, none_left, none_left) in
      let same : t2 ≡ t = ground arith in
      let (lower, upper) = guided_lem compare o key path [] sorted g in
      let count : tree.elements ≡ length (befores path) + length (behinds path) =
        v.numbered ∙ ap length old ∙ length-append (befores path) (behinds path) in
      let list = order ∙ inorder-plug path leaf in
      let more : u32 (tree.elements + 1) ≡ tree.elements + 1 =
        u32_lem (tree.elements + 1) (omega (arith, v.word)) in
      (
        (true, record tree { root = t; elements = u32 (tree.elements + 1) }),
        ground arith,
        record {
          top = now_black;
          black_count = whole.0;
          even = subst (λ t. Even t whole.0) same whole.1;
          ordered = subst (Sorted compare) (sym list) (
              Sorted-append compare (befores path) (behinds path) key 1 o
                (Sorted-left compare (befores path) (behinds path) sorted)
                (Sorted-right compare (befores path) (behinds path) sorted) lower upper);
          numbered = omega (
            arith,
            more,
            count,
            ap length list,
            length-append (befores path) ((key, 1) ∷ behinds path),
          );
          word = omega (arith, more, w);
        },
        refl,
        list,
      )
