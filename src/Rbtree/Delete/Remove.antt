-- ===== src/Rbtree/Delete/Remove.antt =====
-- rbtree_delete of my_rbtree.c on a valid tree.
use mathlib.Core.Path.{subst}
use my_libs.Base.{
  ℕ, ◌+◌, ◌-◌, ◌≤◌, ◌<◌, ◌^◌, ◌%◌, ◌≡◌, ◌⊎◌, inl, inr, refl, ◌∙◌, sym, ap, true, false, some, List,
  [], ◌∷◌, ◌++◌, if◌then◌else◌, arith, Bool-cases, length, length-append, u32, u32-pred,
}
use my_libs.Base.Int.{ℤ, is_neg, is_pos}
use my_libs.Rbtree.{
  Colour, red, black, Tree, node, Frame, plug, is_red, colour_of, Rbtree, FreeCall, free_key, Found,
  at_element, at_null, descend,
}
use my_libs.Rbtree.Walk.{inorder}
use my_libs.Rbtree.Order.{RootBlack}
use my_libs.Rbtree.Insert.{height, befores, behinds, Ended, descend_lem}
use my_libs.Rbtree.Check.{Even}
use my_libs.Rbtree.Balance.{Misses, plug-Even, Calm-black, paint_red-Even}
use my_libs.Rbtree.Rebalance.{red_of, black_of}
use my_libs.Rbtree.Search.{IsKeyOrder, Differs, Keys}
use my_libs.Rbtree.Sorted.{Sorted, Sorted-without, Guided}
use my_libs.Rbtree.Add.{inorder-split}
use my_libs.Rbtree.Valid.{IsValid, valid-height, path_of, absent, descend-Guided}
use my_libs.Rbtree.Delete.{Unlinked, unlink, rebalance, rbtree_delete}
use my_libs.Rbtree.Delete.Fixup.{Short, fix_delete_lem, plug-RootBlack}
use my_libs.Rbtree.Delete.Unlink.{Topped, Half, unlink_lem, height-plug}

Topped-RootBlack : (path : List Frame) (c : Colour) → Topped path c → RootBlack path
Topped-RootBlack [] c b = tt
Topped-RootBlack (f ∷ path) c b = b

Short-of_Even : (t : Tree) (h : ℕ) → Even t h → Short t h
Short-of_Even t h e = elim (Bool-cases (is_red (colour_of t))) [
  | inl r ↦ let same = red_of (colour_of t) r in inr (same, paint_red-Even t h same e)
  | inr b ↦ inl (black_of (colour_of t) b, e)
]

-- The tree after the removal is a red-black tree with a black root.
abbrev Rebalanced : Unlinked → Type 0
Rebalanced u =
    (t : Tree) × (rebalance u ≡ some t)
    × (inorder t ≡ inorder (plug u.path u.rest))
    × ((top : ℕ) × Even t top)
    × (colour_of t ≡ black)

rebalance_lem :
    (path : List Frame) (rest : Tree) (c : Colour) (h : ℕ)
    → Misses path h
    → Half c rest h
    → Topped path c
    → length path < 63
    → Rebalanced (record { path = path; rest = rest; remove_colour = c })
unfolding rebalance
rebalance_lem path rest black h m (inl (imp, bt, e)) b fits = absurd (ground arith)
rebalance_lem path rest black h m (inr (_, g, same, e)) b fits =
    fix_delete_lem path rest g (subst (Misses path) same m) (Topped-RootBlack path black b)
      (Short-of_Even rest g e) fits
rebalance_lem path rest red h m (inr (imp, g, same, e)) b fits = absurd (ground arith)
rebalance_lem [] rest red h m (inl (_, bt, e)) b fits = absurd (ground arith)
rebalance_lem (f ∷ path) rest red h m (inl (_, bt, e)) b fits = (
  plug (f ∷ path) rest,
  refl,
  refl,
  plug-Even (f ∷ path) rest h m (Calm-black (f ∷ path) rest bt) e,
  plug-RootBlack f path rest b,
)

module _ (compare : ℕ → ℕ → ℤ) where
  -- What rbtree_delete does when an element compares equal: its key is given to the callback, if
  -- there is one, and the element is the only one to go.
  abbrev pub Deleted : Rbtree → ℕ → ℕ × (List FreeCall × Rbtree) → Type 0
  Deleted tree key r =
      (xs : List (ℕ × ℕ)) × (ys : List (ℕ × ℕ)) × (k : ℕ) × (n : ℕ) × (inorder tree.root
        ≡ xs ++ (k, n) ∷ ys)
      × (is_neg (compare k key) ≡ false)
      × (is_pos (compare k key) ≡ false)
      × (inorder r.1.1.root ≡ xs ++ ys)
      × (tree.is_delete ≡ true)
      × (r.0 ≡ 0)
      × (r.1.0 ≡ (if tree.has_free then free_key k ∷ [] else []))

  -- When it does nothing and returns 1: removal is not allowed, or no element compares equal.
  abbrev pub Untouched : Rbtree → ℕ → ℕ × (List FreeCall × Rbtree) → Type 0
  Untouched tree key r =
      (r ≡ (1, ([], tree))) × ((tree.is_delete ≡ false) ⊎ Keys (Differs compare key) tree.root)

  module _ (o : IsKeyOrder compare) where
    -- rbtree_delete on a valid tree (red-black with a black root, in the order of a transitive
    -- callback, its elements counted) comes to an end without a fault and leaves a valid tree. Either
    -- removal is allowed, an element compares equal to the key, it returns 0, has called the
    -- callback for the key of that element, if there is one, and of the elements just that one is
    -- gone. Or removal is not allowed or no element compares equal to the key, it returns 1, no
    -- call was made and nothing has changed.
    pub rbtree_delete-IsValid :
        (element_size : ℕ) (tree : Rbtree) (key key_size : ℕ)
        → IsValid compare tree
        → (r : ℕ × (List FreeCall × Rbtree)) × (rbtree_delete compare element_size tree key key_size
            ≡ some r)
          × IsValid compare r.1.1
          × (Deleted tree key r ⊎ Untouched tree key r)
    unfolding rbtree_delete
    rbtree_delete-IsValid element_size tree key key_size v = elim (Bool-cases tree.is_delete) [
      | inr refused ↦ ((1, ([], tree)), ground arith, v, inr (refl, inl refused))
      | inl allowed ↦
          by_end allowed (descend compare [] tree.root key) refl
            (descend_lem compare [] tree.root key v.top)
            (descend-Guided compare o [] tree.root key tt)
    ]
      where
        by_end :
            tree.is_delete ≡ true
            → (end : Found) → descend compare [] tree.root key ≡ end
            → Ended compare [] tree.root key end
            → Guided compare key (path_of compare end)
            → (r : ℕ × (List FreeCall × Rbtree)) × (rbtree_delete compare element_size tree key
                  key_size
                ≡ some r)
              × IsValid compare r.1.1
              × (Deleted tree key r ⊎ Untouched tree key r)
        by_end allowed (at_null p) e (same, b, short) g =
            let fits = valid-height compare tree v in
            (
              (1, ([], tree)),
              ground arith,
              v,
              inr (refl, inr (absent compare o tree.root key p v.ordered same g)),
            )
        by_end allowed (at_element p l r n c k) e (same, ne, po, short) g =
            let xs = befores p ++ inorder l in
            let ys = inorder r ++ behinds p in
            let old = ap inorder (sym same) ∙ inorder-split p l r n c k in
            let fits = valid-height compare tree v in
            let tall : length p + height (node l r n c k) ≤ height tree.root =
              subst (λ t. length p + height (node l r n c k) ≤ height t) same
                (height-plug p (node l r n c k)) in
            let u = unlink p l r c in
            let left =
              unlink_lem p n c k v.black_count l r (ap colour_of same ∙ v.top)
                (subst (λ t. Even t v.black_count) (sym same) v.even) in
            let (t, ran, order, even, black_top) =
              rebalance_lem u.path u.rest u.remove_colour left.black_count left.misses left.half
                left.topped (omega (arith, left.short)) in
            let list = order ∙ left.order in
            let smaller : Rbtree = record tree {
              root = t;
              allocated =
                  (tree.allocated + (2 ^ 64 - (element_size + tree.size + key_size) % 2 ^ 64))
                  % 2 ^ 64;
              elements = u32 (tree.elements + (2 ^ 32 - 1));
            } in
            let count : tree.elements ≡ length xs + (length ys + 1) =
              omega (arith, v.numbered, ap length old, length-append xs ((k, n) ∷ ys)) in
            let less = u32-pred tree.elements (omega (arith, count)) (omega (arith, v.word)) in
            (
              (0, ((if tree.has_free then free_key k ∷ [] else []), smaller)),
              ground (arith, left.short),
              record {
                top = black_top;
                black_count = even.0;
                even = even.1;
                ordered =
                    subst (Sorted compare) (sym list)
                      (Sorted-without compare xs ys k n (subst (Sorted compare) old v.ordered));
                numbered = omega (arith, less, count, ap length list, length-append xs ys);
                word = omega (arith, less, v.word);
              },
              inl (xs, ys, k, n, old, ne, po, list, allowed, refl, refl),
            )
