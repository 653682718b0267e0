-- ===== src/Rbtree/Sorted.antt =====
-- The order of the elements of a tree of my_rbtree.c, as a list.
use mathlib.Core.Path.{subst}
use my_libs.Base.{ℕ, ◌≡◌, ◌⊎◌, inl, inr, true, List, [], ◌∷◌, ◌++◌, arith}
use my_libs.Base.Int.{ℤ, is_neg}
use my_libs.Rbtree.{Tree, null_element, node, Side, to_left, to_right, Frame}
use my_libs.Rbtree.Walk.{inorder, append_assoc}
use my_libs.Rbtree.Order.{before, behind}
use my_libs.Rbtree.Insert.{befores, behinds}
use my_libs.Rbtree.Search.{IsKeyOrder, Keys, Ordered}

-- A property of each key of a list of elements.
abbrev pub All : (ℕ → Type 0) → List (ℕ × ℕ) → Type 0
All P [] = Unit {0}
All P (x ∷ xs) = P x.0 × All P xs

pub All-append : (P : ℕ → Type 0) (xs ys : List (ℕ × ℕ)) → All P xs → All P ys → All P (xs ++ ys)
All-append P [] ys h k = k
All-append P (x ∷ xs) ys (hx, h) k = (hx, All-append P xs ys h k)

pub All-append_left : (P : ℕ → Type 0) (xs ys : List (ℕ × ℕ)) → All P (xs ++ ys) → All P xs
All-append_left P [] ys h = tt
All-append_left P (x ∷ xs) ys (hx, h) = (hx, All-append_left P xs ys h)

pub All-append_right : (P : ℕ → Type 0) (xs ys : List (ℕ × ℕ)) → All P (xs ++ ys) → All P ys
All-append_right P [] ys h = h
All-append_right P (x ∷ xs) ys (hx, h) = All-append_right P xs ys h

pub All-map : {P Q : ℕ → Type 0} (xs : List (ℕ × ℕ)) → ((a : ℕ) → P a → Q a) → All P xs → All Q xs
All-map [] f h = tt
All-map (x ∷ xs) f (hx, h) = (f x.0 hx, All-map xs f h)

module _ (compare : ℕ → ℕ → ℤ) where
  -- `a` comes before `b`.
  abbrev pub Before : ℕ → ℕ → Type 0
  Before a b = is_neg (compare a b) ≡ true

  -- Each element comes before those behind it.
  abbrev pub Sorted : List (ℕ × ℕ) → Type 0
  Sorted [] = Unit {0}
  Sorted (x ∷ xs) = All (Before x.0) xs × Sorted xs

  pub Sorted-append :
      (xs ys : List (ℕ × ℕ)) (k n : ℕ)
      → (IsKeyOrder compare)
      → Sorted xs
      → Sorted ys
      → All (λ a. Before a k) xs
      → All (Before k) ys
      → Sorted (xs ++ (k, n) ∷ ys)
  Sorted-append [] ys k n o sx sy bx by = (by, sy)
  Sorted-append (x ∷ xs) ys k n o (ax, sx) sy (b, bx) by = (
    All-append (Before x.0) xs ((k, n) ∷ ys) ax (b, All-map ys (λ a h. o.neg_trans x.0 k a b h) by),
    Sorted-append xs ys k n o sx sy bx by,
  )

  pub Sorted-left : (xs ys : List (ℕ × ℕ)) → Sorted (xs ++ ys) → Sorted xs
  Sorted-left [] ys s = tt
  Sorted-left (x ∷ xs) ys (a, s) = (All-append_left (Before x.0) xs ys a, Sorted-left xs ys s)

  pub Sorted-right : (xs ys : List (ℕ × ℕ)) → Sorted (xs ++ ys) → Sorted ys
  Sorted-right [] ys s = s
  Sorted-right (x ∷ xs) ys (a, s) = Sorted-right xs ys s

  -- What stands before an element comes before it.
  pub Sorted-Before :
      (xs ys : List (ℕ × ℕ)) (k n : ℕ)
      → Sorted (xs ++ (k, n) ∷ ys)
      → All (λ a. Before a k) xs × All (Before k) ys
  Sorted-Before [] ys k n (a, s) = (tt, a)
  Sorted-Before (x ∷ xs) ys k n (a, s) =
      let (bx, by) = Sorted-Before xs ys k n s in
      (((All-append_right (Before x.0) xs ((k, n) ∷ ys) a).0, bx), by)

  -- An element can be left out.
  pub Sorted-without :
      (xs ys : List (ℕ × ℕ)) (k n : ℕ) → Sorted (xs ++ (k, n) ∷ ys) → Sorted (xs ++ ys)
  Sorted-without [] ys k n (a, s) = s
  Sorted-without (x ∷ xs) ys k n (a, s) = (
    All-append (Before x.0) xs ys (All-append_left (Before x.0) xs ((k, n) ∷ ys) a)
        (All-append_right (Before x.0) xs ((k, n) ∷ ys) a).1,
    Sorted-without xs ys k n s,
  )

  -- Or counted otherwise.
  pub Sorted-recounted :
      (xs ys : List (ℕ × ℕ)) (k n m : ℕ) → Sorted (xs ++ (k, n) ∷ ys) → Sorted (xs ++ (k, m) ∷ ys)
  Sorted-recounted [] ys k n m s = s
  Sorted-recounted (x ∷ xs) ys k n m (a, s) = (
    All-append (Before x.0) xs ((k, m) ∷ ys) (All-append_left (Before x.0) xs ((k, n) ∷ ys) a)
        (All-append_right (Before x.0) xs ((k, n) ∷ ys) a),
    Sorted-recounted xs ys k n m s,
  )

  pub Keys-of_All : (P : ℕ → Type 0) (t : Tree) → All P (inorder t) → Keys P t
  Keys-of_All P null_element h = tt
  Keys-of_All P (node l r n c k) h =
      let right = All-append_right P (inorder l) ((k, n) ∷ inorder r) h in
      (
        Keys-of_All P l (All-append_left P (inorder l) ((k, n) ∷ inorder r) h),
        right.0,
        Keys-of_All P r right.1,
      )

  -- A tree whose elements are in order is in order at each of them.
  pub Ordered-of_Sorted : (t : Tree) → Sorted (inorder t) → Ordered compare t
  Ordered-of_Sorted null_element s = tt
  Ordered-of_Sorted (node l r n c k) s =
      let (bl, br) = Sorted-Before (inorder l) (inorder r) k n s in
      (
        Ordered-of_Sorted l (Sorted-left (inorder l) ((k, n) ∷ inorder r) s),
        Ordered-of_Sorted r (Sorted-right (inorder l) ((k, n) ∷ inorder r) s).1,
        Keys-of_All (λ a. Before a k) l bl,
        Keys-of_All (Before k) r br,
      )

  -- The search has turned the right way at each frame.
  abbrev pub Guided : ℕ → List Frame → Type 0
  Guided key [] = Unit {0}
  Guided key (f ∷ path) =
      (((f.side ≡ to_right) × Before f.key key) ⊎ ((f.side ≡ to_left) × Before key f.key))
      × Guided key path

  module _ (o : IsKeyOrder compare) (key : ℕ) where
    -- What a frame holds is on the right side of the key.
    frame_lem :
        (f : Frame)
        → (((f.side ≡ to_right) × Before f.key key) ⊎ ((f.side ≡ to_left) × Before key f.key))
        → Sorted (before f)
        → Sorted (behind f)
        → All (λ a. Before a key) (before f) × All (Before key) (behind f)
    unfolding before behind
    frame_lem f g sb sh = by_side f.side g sb sh
      where
        by_side :
            (s : Side)
            → (((s ≡ to_right) × Before f.key key) ⊎ ((s ≡ to_left) × Before key f.key))
            → Sorted (before (record f { side = s }))
            → Sorted (behind (record f { side = s }))
            → All (λ a. Before a key) (before (record f { side = s }))
              × All (Before key) (behind (record f { side = s }))
        by_side to_right (inl (e, g)) sb sh =
            let lower = (Sorted-Before (inorder f.other) [] f.key f.count sb).0 in
            (
              All-append (λ a. Before a key) (inorder f.other) ((f.key, f.count) ∷ [])
                  (All-map (inorder f.other) (λ a h. o.neg_trans a f.key key h g) lower) (g, tt),
              tt,
            )
        by_side to_right (inr (e, g)) sb sh = absurd (ground arith)
        by_side to_left (inl (e, g)) sb sh = absurd (ground arith)
        by_side to_left (inr (e, g)) sb sh =
            (tt, (g, All-map (inorder f.other) (λ a h. o.neg_trans key f.key a g h) sh.0))

    regroup :
        (bp bf mid bh hp : List (ℕ × ℕ))
        → (bp ++ bf) ++ (mid ++ (bh ++ hp)) ≡ bp ++ ((bf ++ (mid ++ bh)) ++ hp)
    regroup bp bf mid bh hp = simp (append_assoc)

    -- So the search ends between the elements before the key and those behind it.
    pub guided_lem :
        (path : List Frame) (mid : List (ℕ × ℕ))
        → Sorted (befores path ++ (mid ++ behinds path))
        → Guided key path
        → All (λ a. Before a key) (befores path) × All (Before key) (behinds path)
    unfolding befores behinds
    guided_lem [] mid s g = (tt, tt)
    guided_lem (f ∷ path) mid s (g, guided) =
        let inner = before f ++ (mid ++ behind f) in
        let all : Sorted (befores path ++ (inner ++ behinds path)) =
          subst Sorted (regroup (befores path) (before f) mid (behind f) (behinds path)) s in
        let (bp, hp) = guided_lem path inner all guided in
        let here : Sorted inner =
          Sorted-left inner (behinds path)
            (Sorted-right (befores path) (inner ++ behinds path) all) in
        let (bf, hf) =
          frame_lem f g (Sorted-left (before f) (mid ++ behind f) here)
            (Sorted-right mid (behind f) (Sorted-right (before f) (mid ++ behind f) here)) in
        (
          All-append (λ a. Before a key) (befores path) (before f) bp bf,
          All-append (Before key) (behind f) (behinds path) hf hp,
        )

pub All-of_Keys : (P : ℕ → Type 0) (t : Tree) → Keys P t → All P (inorder t)
All-of_Keys P null_element h = tt
All-of_Keys P (node l r n c k) (hl, hk, hr) =
    All-append P (inorder l) ((k, n) ∷ inorder r) (All-of_Keys P l hl) (hk, All-of_Keys P r hr)
