-- ===== src/Rbtree/Add.antt =====
-- What rbtree_insert of my_rbtree.c does to the elements, on every branch.
use my_libs.Base.{
  ℕ, ◌+◌, ◌<◌, ◌^◌, ◌≡◌, ◌⊎◌, ◌∙◌, sym, ap, Bool, true, false, List, [], ◌∷◌, ◌++◌, if◌then◌else◌,
  ◌%◌,
}
use my_libs.Base.Int.{ℤ, is_neg, is_pos}
use my_libs.Rbtree.{Colour, Tree, node, Frame, join, plug, colour_of, Rbtree, counted}
use my_libs.Rbtree.Search.{Differs, Keys}
use my_libs.Rbtree.Walk.{inorder, append_assoc}
use my_libs.Rbtree.Order.{colour-join}
use my_libs.Rbtree.Insert.{befores, behinds, inorder-plug}

pub colour-plug :
    (path : List Frame) (t u : Tree)
    → colour_of t ≡ colour_of u
    → colour_of (plug path t) ≡ colour_of (plug path u)
colour-plug [] t u e = e
colour-plug (f ∷ path) t u e =
    colour-plug path (join f t) (join f u) (colour-join f t ∙ sym (colour-join f u))

-- The new element would take the tree over its limit of memory, and there are elements to give up.
abbrev pub Overruns : ℕ → Rbtree → Type 0
Overruns alloc_size tree =
    (0 < tree.memory_limit)
    × (0 < tree.elements)
    × (tree.memory_limit < (tree.allocated + alloc_size) % 2 ^ 64)

-- The answer of rbtree_insert, and the elements afterwards, when no element compares equal: the key
-- is put between `xs` and `ys`, which are the elements, or none after a reset. NULL is returned when
-- there is no storage.
abbrev pub Added : (ℕ → ℕ → ℤ) → ℕ → Rbtree → ℕ → Bool → Bool × Rbtree → Type 0
Added compare alloc_size tree key memory r =
    Keys (Differs compare key) tree.root
    × (xs : List (ℕ × ℕ)) × (ys : List (ℕ × ℕ)) × ((¬ Overruns alloc_size tree)
          × (inorder tree.root ≡ xs ++ ys)
        ⊎ Overruns alloc_size tree × (xs ++ ys ≡ []))
    × (r.0 ≡ memory)
    × (inorder r.1.root ≡ (if memory then xs ++ (key, 1) ∷ ys else xs ++ ys))

-- When one does: without duplicates NULL is returned and nothing changes, else the element is
-- returned, counted once more.
abbrev pub Recounted : (ℕ → ℕ → ℤ) → Rbtree → ℕ → Bool × Rbtree → Type 0
Recounted compare tree key r =
    (xs : List (ℕ × ℕ)) × (ys : List (ℕ × ℕ)) × (k : ℕ) × (n : ℕ) × (inorder tree.root
      ≡ xs ++ (k, n) ∷ ys)
    × (is_neg (compare k key) ≡ false)
    × (is_pos (compare k key) ≡ false)
    × ((tree.no_duplicates ≡ true) × (r ≡ (false, tree))
        ⊎ (tree.no_duplicates ≡ false)
          × (r.0 ≡ true)
          × (inorder r.1.root ≡ xs ++ (k, counted n) ∷ ys))

pub inorder-split :
    (p : List Frame) (l r : Tree) (n : ℕ) (c : Colour) (k : ℕ)
    → inorder (plug p (node l r n c k))
      ≡ (befores p ++ inorder l) ++ (k, n) ∷ (inorder r ++ behinds p)
inorder-split p l r n c k =
    inorder-plug p (node l r n c k)
    ∙ ap (λ xs. befores p ++ xs) (append_assoc (inorder l) ((k, n) ∷ inorder r) (behinds p))
    ∙ sym (append_assoc (befores p) (inorder l) ((k, n) ∷ (inorder r ++ behinds p)))
