-- ===== src/Rbtree/Keeps.antt =====
-- rbtree_insert of my_rbtree.c on a valid tree, and a search after it.
use mathlib.Core.Path.{subst}
use my_libs.Base.{
  ℕ, ◌+◌, ◌<◌, ◌^◌, ◌≡◌, ◌⊎◌, inl, inr, refl, ◌∙◌, sym, ap, Bool, true, false, ◌&&◌, some, List, [],
  ◌∷◌, ◌++◌, arith, Bool-cases, length, length-append, u32, ltb, ◌%◌,
}
use my_libs.Base.Int.{ℤ, is_neg, is_pos}
use my_libs.Rbtree.{
  Colour, Tree, null_element, node, Frame, plug, colour_of, Rbtree, Found, at_element, at_null,
  descend, counted, rbtree_insert, rbtree_reset, rbtree_free, rbtree_search,
}
use my_libs.Rbtree.Walk.{inorder}
use my_libs.Rbtree.Check.{Even}
use my_libs.Rbtree.Insert.{befores, behinds, inorder-plug, Ended, descend_lem}
use my_libs.Rbtree.Search.{IsKeyOrder, Differs, Keys, rbtree_search_lem}
use my_libs.Rbtree.Sorted.{
  All, All-of_Keys, All-append_right, Sorted, Sorted-recounted, Guided, Ordered-of_Sorted,
}
use my_libs.Rbtree.Add.{colour-plug, inorder-split, Recounted, Added}
use my_libs.Rbtree.Valid.{
  IsValid, valid-height, path_of, absent, descend-Guided, recount_plug, link-IsValid,
}

module _ (compare : ℕ → ℕ → ℤ) (o : IsKeyOrder compare) where
  -- The counting of an element again keeps a valid tree valid.
  recounted-IsValid :
      (tree : Rbtree) (p : List Frame) (l r : Tree) (n m : ℕ) (c : Colour) (k : ℕ)
      → IsValid compare tree
      → plug p (node l r n c k) ≡ tree.root
      → IsValid compare (record tree { root = plug p (node l r m c k) })
  unfolding colour_of
  recounted-IsValid tree p l r n m c k v e =
      let (top, even) =
        recount_plug p l r n m c k v.black_count
          (subst (λ t. Even t v.black_count) (sym e) v.even) in
      let old = ap inorder (sym e) ∙ inorder-split p l r n c k in
      let new = inorder-split p l r m c k in
      let xs = befores p ++ inorder l in
      let ys = inorder r ++ behinds p in
      record {
        top = colour-plug p (node l r m c k) (node l r n c k) refl ∙ ap colour_of e ∙ v.top;
        black_count = top;
        even = even;
        ordered =
            subst (Sorted compare) (sym new)
              (Sorted-recounted compare xs ys k n m (subst (Sorted compare) old v.ordered));
        numbered = omega (
          arith,
          v.numbered,
          ap length old,
          ap length new,
          length-append xs ((k, n) ∷ ys),
          length-append xs ((k, m) ∷ ys),
        );
        word = v.word;
      }

  -- Only the root and the number of elements matter.
  same-IsValid :
      (tree other : Rbtree)
      → other.root ≡ tree.root
      → other.elements ≡ tree.elements
      → IsValid compare tree
      → IsValid compare other
  same-IsValid tree other er ee v = record {
    top = ap colour_of er ∙ v.top;
    black_count = v.black_count;
    even = subst (λ t. Even t v.black_count) (sym er) v.even;
    ordered = subst (λ t. Sorted compare (inorder t)) (sym er) v.ordered;
    numbered = ee ∙ v.numbered ∙ sym (ap (λ t. length (inorder t)) er);
    word = omega (arith, v.word, ee);
  }

  pub empty-IsValid :
      (tree : Rbtree) → tree.root ≡ null_element → tree.elements ≡ 0 → IsValid compare tree
  unfolding colour_of
  empty-IsValid tree er ee = record {
    top = ap colour_of er;
    black_count = 0;
    even = subst (λ t. Even t 0) (sym er) refl;
    ordered = subst (λ t. Sorted compare (inorder t)) (sym er) tt;
    numbered = ee ∙ sym (ap (λ t. length (inorder t)) er);
    word = omega (arith, ee);
  }

  pub rbtree_insert-IsValid :
      (element_size : ℕ) (memory : Bool) (tree : Rbtree) (key key_size : ℕ)
      → IsValid compare tree
      → tree.elements + 2 < 2 ^ 32
      → (r : Bool × Rbtree) × (rbtree_insert compare element_size memory tree key key_size ≡ some r)
        × IsValid compare r.1
        × (Recounted compare tree key r
            ⊎ Added compare (u32 (element_size + key_size + tree.size)) tree key memory r)
  unfolding rbtree_insert rbtree_reset rbtree_free befores behinds
  rbtree_insert-IsValid element_size memory tree key key_size v w =
      by_end (descend compare [] tree.root key) refl (descend_lem compare [] tree.root key v.top)
        (descend-Guided compare o [] tree.root key tt)
    where
      alloc_size : ℕ
      alloc_size = u32 (element_size + key_size + tree.size)

      more : Rbtree → Rbtree
      more t = record t { allocated = (t.allocated + alloc_size) % 2 ^ 64 }

      Goal : Type 0
      Goal =
          (r : Bool × Rbtree) × (rbtree_insert compare element_size memory tree key key_size
            ≡ some r)
          × IsValid compare r.1
          × (Recounted compare tree key r ⊎ Added compare alloc_size tree key memory r)

      by_end :
          (end : Found)
          → descend compare [] tree.root key ≡ end
          → Ended compare [] tree.root key end
          → Guided compare key (path_of compare end)
          → Goal
      by_end (at_element p l r n c k) e (same, ne, po, short) g =
          let xs = befores p ++ inorder l in
          let ys = inorder r ++ behinds p in
          let old = ap inorder (sym same) ∙ inorder-split p l r n c k in
          let counts : Rbtree = record tree { root = plug p (node l r (counted n) c k) } in
          let fits = valid-height compare tree v in
          elim (Bool-cases tree.no_duplicates) [
            | inl once ↦
                ((false, tree), ground arith, v, inl (xs, ys, k, n, old, ne, po, inl (once, refl)))
            | inr again ↦ (
              (true, counts),
              ground arith,
              recounted-IsValid tree p l r n (counted n) c k v same,
              inl (
                xs,
                ys,
                k,
                n,
                old,
                ne,
                po,
                inr (again, refl, inorder-split p l r (counted n) c k),
              ),
            )
          ]
      by_end (at_null p) e (same, b, short) g =
          let none_equal = absent compare o tree.root key p v.ordered same g in
          let larger : Rbtree = more tree in
          let fresh : Rbtree = more (rbtree_reset larger).1 in
          let resets : Bool =
            ltb 0 tree.memory_limit
            && (ltb 0 tree.elements && ltb tree.memory_limit larger.allocated) in
          elim (Bool-cases resets) [
            | inl reset ↦
                let (r, ran, valid, answer, order) =
                  link-IsValid compare o memory fresh [] key (empty-IsValid fresh refl refl)
                    (omega arith) tt (omega arith) refl tt in
                (
                  r,
                  ground arith,
                  valid,
                  inr (none_equal, [], [], inr (ground arith, refl), answer, order),
                )
            | inr fits ↦
                let larger_valid : IsValid compare larger = same-IsValid tree larger refl refl v in
                let (r, ran, valid, answer, order) =
                  link-IsValid compare o memory larger p key larger_valid w b
                    (omega (arith, short, valid-height compare tree v)) same g in
                (
                  r,
                  ground arith,
                  valid,
                  inr (
                    none_equal,
                    befores p,
                    behinds p,
                    inl (
                      λ o. absurd (ground arith),
                      ap inorder (sym same) ∙ inorder-plug p null_element,
                    ),
                    answer,
                    order,
                  ),
                )
          ]

  -- Not every element differs from the key if one compares equal.
  contained :
      (t : Tree) (key : ℕ) (xs ys : List (ℕ × ℕ)) (k n : ℕ)
      → inorder t ≡ xs ++ (k, n) ∷ ys
      → is_neg (compare k key) ≡ false
      → is_pos (compare k key) ≡ false
      → Keys (Differs compare key) t
      → (a : ℕ) → a ≡ a + 1
  contained t key xs ys k n e ne po h a =
      let listed = subst (All (Differs compare key)) e (All-of_Keys (Differs compare key) t h) in
      elim (All-append_right (Differs compare key) xs ((k, n) ∷ ys) listed).0 [
        | inl neg ↦ absurd (ground arith)
        | inr pos ↦ absurd (ground arith)
      ]

  -- A key compares equal to itself.
  compare_self : (k : ℕ) → (is_neg (compare k k) ≡ false) × (is_pos (compare k k) ≡ false)
  compare_self k = ground (arith, o.swapped k k)

  -- After an insertion into a valid tree of fewer than 2^32 - 2 elements, with storage for one, the
  -- search for the key finds an element that compares equal.
  pub rbtree_search-rbtree_insert :
      (element_size : ℕ) (tree : Rbtree) (key key_size : ℕ)
      → IsValid compare tree
      → tree.elements + 2 < 2 ^ 32
      → (r : Bool × Rbtree) × (rbtree_insert compare element_size true tree key key_size ≡ some r)
        × (k : ℕ) × (rbtree_search compare r.1 key ≡ some k)
        × (is_neg (compare k key) ≡ false)
        × (is_pos (compare k key) ≡ false)
  rbtree_search-rbtree_insert element_size tree key key_size v w =
      let (r, ran, valid, outcome) =
        rbtree_insert-IsValid element_size true tree key key_size v w in
      elim (rbtree_search_lem compare o r.1 key
        (Ordered-of_Sorted compare r.1.root valid.ordered)) [
          | inl (k, found, has, ne, po) ↦ (r, ran, k, found, ne, po)
          | inr (missing, others) ↦ elim outcome [
            | inl (xs, ys, k, n, old, ne, po, inl (once, same)) ↦
                let kept = ap (λ x. inorder x.1.root) same ∙ old in
                absurd (omega (arith, contained r.1.root key xs ys k n kept ne po others 0))
            | inl (xs, ys, k, n, old, ne, po, inr (again, answer, new)) ↦
                absurd (omega (arith, contained r.1.root key xs ys k _ new ne po others 0))
            | inr (none_equal, xs, ys, base, answer, new) ↦
                let own = compare_self key in
                absurd (omega (arith, contained r.1.root key xs ys key 1 new own.0 own.1 others 0))
          ]
        ]
