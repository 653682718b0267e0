-- ===== src/Rbtree/Search.antt =====
-- rbtree_search of my_rbtree.c.
use my_libs.Base.{ℕ, ◌≡◌, ◌⊎◌, inl, inr, refl, true, false, Option, some, none, arith, Bool-cases}
use my_libs.Base.Int.{ℤ, is_neg, is_pos}
use my_libs.Rbtree.{Tree, null_element, node, Rbtree, rbtree_search_from, rbtree_search}

-- A property of each key of a tree.
abbrev pub Keys : (ℕ → Type 0) → Tree → Type 0
Keys P null_element = Unit {0}
Keys P (node l r n c k) = Keys P l × P k × Keys P r

-- A key is in a tree.
abbrev pub HasKey : ℕ → Tree → Type 0
HasKey key null_element = false ≡ true
HasKey key (node l r n c k) = HasKey key l ⊎ (key ≡ k) ⊎ HasKey key r

Keys-map : {P Q : ℕ → Type 0} (t : Tree) → ((a : ℕ) → P a → Q a) → Keys P t → Keys Q t
Keys-map null_element f h = tt
Keys-map (node l r n c k) f (hl, hk, hr) = (Keys-map l f hl, f k hk, Keys-map r f hr)

module _ (compare : ℕ → ℕ → ℤ) where
  -- The contract of the callback.
  pub record IsKeyOrder : Type 0 where
    pub swapped : (a b : ℕ) → is_pos (compare a b) ≡ is_neg (compare b a)
    pub neg_trans :
        (a b c : ℕ)
        → is_neg (compare a b) ≡ true
        → is_neg (compare b c) ≡ true
        → is_neg (compare a c) ≡ true

  -- Each key comes behind those on its left and before those on its right.
  abbrev pub Ordered : Tree → Type 0
  Ordered null_element = Unit {0}
  Ordered (node l r n c k) =
      Ordered l
      × Ordered r
      × Keys (λ a. is_neg (compare a k) ≡ true) l
      × Keys (λ a. is_neg (compare k a) ≡ true) r

  -- A key that does not compare equal.
  abbrev pub Differs : ℕ → ℕ → Type 0
  Differs key a = (is_neg (compare a key) ≡ true) ⊎ (is_pos (compare a key) ≡ true)

  -- How a search ends: with a key that compares equal, or NULL, and then none does.
  abbrev pub Searched : Tree → ℕ → Option ℕ → Type 0
  Searched t key r =
      ((k : ℕ) × (r ≡ some k)
        × HasKey k t
        × (is_neg (compare k key) ≡ false)
        × (is_pos (compare k key) ≡ false))
      ⊎ (r ≡ none) × Keys (Differs key) t

  search_from_lem :
      (o : IsKeyOrder) (t : Tree) (key : ℕ)
      → Ordered t
      → Searched t key (rbtree_search_from compare t key)
  unfolding rbtree_search_from
  search_from_lem o null_element key h = inr (refl, tt)
  search_from_lem o (node l r n c k) key (hl, hr, below, above) =
      elim (Bool-cases (is_neg (compare k key))) [
        | inl before ↦ elim (search_from_lem o r key hr) [
          | inl (j, found, has, ne, po) ↦ inl (j, ground arith, inr (inr has), ne, po)
          | inr (missing, others) ↦ inr (
            ground arith,
            (Keys-map l (λ a x. inl (o.neg_trans a k key x before)) below, inl before, others),
          )
        ]
        | inr not_before ↦ elim (Bool-cases (is_pos (compare k key))) [
          | inl behind ↦ elim (search_from_lem o l key hl) [
            | inl (j, found, has, ne, po) ↦ inl (j, ground arith, inl has, ne, po)
            | inr (missing, others) ↦ inr (
              ground arith,
              (others, inr behind, Keys-map r (λ a x. inr (past a x behind)) above),
            )
          ]
          | inr equal ↦ inl (k, ground arith, inr (inl refl), not_before, equal)
        ]
      ]
    where
      past :
          (a : ℕ)
          → is_neg (compare k a) ≡ true
          → is_pos (compare k key) ≡ true
          → is_pos (compare a key) ≡ true
      past a x behind = ground (arith, o.swapped a key, o.swapped k key, o.neg_trans key k a)

  -- rbtree_search in a tree whose keys are in the order of the callback, which is transitive and
  -- antisymmetric in its signs, returns a key of the tree that compares equal, or NULL, and then no
  -- key of the tree compares equal.
  pub rbtree_search_lem :
      (o : IsKeyOrder) (tree : Rbtree) (key : ℕ)
      → Ordered tree.root
      → Searched tree.root key (rbtree_search compare tree key)
  unfolding rbtree_search
  rbtree_search_lem o tree key h = search_from_lem o tree.root key h
