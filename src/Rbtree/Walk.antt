-- ===== src/Rbtree/Walk.antt =====
-- The walks of my_rbtree.c.
use my_libs.Base.{
  ℕ, ◌≡◌, refl, ◌∙◌, sym, ap, Bool, true, false, List, [], ◌∷◌, ◌++◌, if◌then◌else◌, arith,
  Bool-cases, inl, inr,
}
use my_libs.Base.Int.{ℤ, pos, is_neg, is_pos}
use my_libs.Rbtree.{Tree, null_element, node, Rbtree}

-- The action of a walk gets the key, the count and the argument, whose object is `S`.
module _ {S : Type 0} (action : ℕ → ℕ → S → ℤ × S) where
  abbrev is_zero : ℤ → Bool
  is_zero e = if is_neg e then false else if is_pos e then false else true

  pub rbtree_walk_left_root_right : Tree → S → ℤ × S
  rbtree_walk_left_root_right null_element s = (pos 0, s)
  rbtree_walk_left_root_right (node l r n c k) s =
      let (e, s1) = rbtree_walk_left_root_right l s in
      let (e2, s2) = action k n s1 in
      let rest = rbtree_walk_left_root_right r s2 in
      if is_zero e then (if is_zero e2 then rest else (e2, s2)) else (e, s1)

  unfoldable pub rbtree_walk_right_root_left : Tree → S → ℤ × S
  rbtree_walk_right_root_left null_element s = (pos 0, s)
  rbtree_walk_right_root_left (node l r n c k) s =
      let (e, s1) = rbtree_walk_right_root_left r s in
      let (e2, s2) = action k n s1 in
      let rest = rbtree_walk_right_root_left l s2 in
      if is_zero e then (if is_zero e2 then rest else (e2, s2)) else (e, s1)

  -- `true` is RIGHT_ROOT_LEFT.
  unfoldable pub tree_walk : Bool → Rbtree → S → ℤ × S
  unfolding rbtree_walk_left_root_right rbtree_walk_right_root_left
  tree_walk reversed tree s =
      if reversed
      then rbtree_walk_right_root_left tree.root s
      else rbtree_walk_left_root_right tree.root s

-- The keys, each with its count, from left to right.
abbrev pub inorder : Tree → List (ℕ × ℕ)
inorder null_element = []
inorder (node l r n c k) = inorder l ++ (k, n) ∷ inorder r

-- And from right to left.
abbrev pub backward : List (ℕ × ℕ) → List (ℕ × ℕ)
backward [] = []
backward (x ∷ xs) = backward xs ++ x ∷ []

pub append_assoc : (xs ys zs : List (ℕ × ℕ)) → (xs ++ ys) ++ zs ≡ xs ++ (ys ++ zs)
append_assoc [] ys zs = refl
append_assoc (x ∷ xs) ys zs = ap (λ l. x ∷ l) (append_assoc xs ys zs)

pub append_nil : (xs : List (ℕ × ℕ)) → xs ++ [] ≡ xs
append_nil [] = refl
append_nil (x ∷ xs) = ap (λ l. x ∷ l) (append_nil xs)

backward-append : (xs ys : List (ℕ × ℕ)) → backward (xs ++ ys) ≡ backward ys ++ backward xs
backward-append [] ys = sym (append_nil (backward ys))
backward-append (x ∷ xs) ys =
    ap (λ l. l ++ x ∷ []) (backward-append xs ys)
    ∙ append_assoc (backward ys) (backward xs) (x ∷ [])

module _ {S : Type 0} (action : ℕ → ℕ → S → ℤ × S) where
  -- The action on one after the other, up to the first error.
  pub for_each : List (ℕ × ℕ) → S → ℤ × S
  for_each [] s = (pos 0, s)
  for_each ((k, n) ∷ xs) s =
      let (e, s1) = action k n s in
      let rest = for_each xs s1 in if is_zero action e then rest else (e, s1)

  for_each-append :
      (xs ys : List (ℕ × ℕ)) (s : S)
      → for_each (xs ++ ys) s ≡ (
          if is_zero action (for_each xs s).0 then for_each ys (for_each xs s).1 else for_each xs s)
  unfolding for_each
  for_each-append [] ys s = refl
  for_each-append ((k, n) ∷ xs) ys s = elim (Bool-cases (is_zero action (action k n s).0)) [
    | inl go_on ↦ ground (arith, for_each-append xs ys (action k n s).1)
    | inr stop ↦ ground arith
  ]

  left_root_right_lem :
      (t : Tree) (s : S) → rbtree_walk_left_root_right action t s ≡ for_each (inorder t) s
  unfolding rbtree_walk_left_root_right for_each
  left_root_right_lem null_element s = refl
  left_root_right_lem (node l r n c k) s =
      rw
        (
          for_each-append (inorder l) ((k, n) ∷ inorder r) s,
          left_root_right_lem l s,
          left_root_right_lem r (action k n (for_each (inorder l) s).1).1,
        )
        refl

  right_root_left_lem :
      (t : Tree) (s : S)
      → rbtree_walk_right_root_left action t s ≡ for_each (backward (inorder t)) s
  unfolding rbtree_walk_right_root_left for_each
  right_root_left_lem null_element s = refl
  right_root_left_lem (node l r n c k) s =
      let rights = backward (inorder r) in
      rw
        (
          backward-append (inorder l) ((k, n) ∷ inorder r),
          append_assoc rights ((k, n) ∷ []) (backward (inorder l)),
          for_each-append rights ((k, n) ∷ backward (inorder l)) s,
          right_root_left_lem r s,
          right_root_left_lem l (action k n (for_each rights s).1).1,
        )
        refl

  -- tree_walk calls the action on each element of the tree once, in the order of the tree from left
  -- to right or from right to left, and stops at the first that answers other than 0, with that
  -- answer.
  pub tree_walk_lem :
      (reversed : Bool) (tree : Rbtree) (s : S)
      → tree_walk action reversed tree s
        ≡ for_each (if reversed then backward (inorder tree.root) else inorder tree.root) s
  unfolding tree_walk
  tree_walk_lem true tree s = right_root_left_lem tree.root s
  tree_walk_lem false tree s = left_root_right_lem tree.root s
