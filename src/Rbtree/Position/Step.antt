-- ===== src/Rbtree/Position/Step.antt =====
-- rbtree_search_edge and rbtree_search_next of my_rbtree.c go through the elements in order.
use mathlib.Core.Path.{subst}
use my_libs.Base.{
  ℕ, zero, suc, ◌≤◌, ◌≡◌, refl, ◌∙◌, sym, ap, Option, none, some, List, [], ◌∷◌, ◌++◌, arith,
  length,
}
use my_libs.Rbtree.{
  Colour, Tree, null_element, node, Side, to_left, to_right, Frame, join, plug, same_side, Rbtree,
}
use my_libs.Rbtree.Walk.{inorder, append_assoc, append_nil}
use my_libs.Rbtree.Order.{before, behind}
use my_libs.Rbtree.Insert.{befores, behinds, inorder-plug}
use my_libs.Rbtree.Position.{
  LastPos, edge_from, rbtree_search_edge, climb_from, frame_of, rbtree_search_next,
}

abbrev pub element : LastPos → ℕ × ℕ
element p = (p.key, p.count)

abbrev pub tree_at : LastPos → Tree
tree_at p = node p.left p.right p.count p.colour p.key

-- The elements before the position, and those behind it.
unfoldable pub prior : LastPos → List (ℕ × ℕ)
prior p = befores p.path ++ inorder p.left

unfoldable pub after : LastPos → List (ℕ × ℕ)
after p = inorder p.right ++ behinds p.path

pub inorder-prior :
    (p : LastPos) → inorder (plug p.path (tree_at p)) ≡ prior p ++ element p ∷ after p
unfolding prior after
inorder-prior p =
    inorder-plug p.path (tree_at p)
    ∙ regroup (befores p.path) (inorder p.left) (element p ∷ inorder p.right) (behinds p.path)
  where
    regroup : (a b c d : List (ℕ × ℕ)) → a ++ ((b ++ c) ++ d) ≡ (a ++ b) ++ (c ++ d)
    regroup a b c d = simp (append_assoc)

-- The position is the first one of the elements `xs`, or there are none.
abbrev pub First : Tree → List (ℕ × ℕ) → List (ℕ × ℕ) → Option LastPos → Type 0
First t ps xs none = xs ≡ []
First t ps xs (some p) = (prior p ≡ ps) × (element p ∷ after p ≡ xs) × (plug p.path (tree_at p) ≡ t)

First-cong :
    (t : Tree) (o : Option LastPos) {ps qs xs ys : List (ℕ × ℕ)}
    → ps ≡ qs
    → xs ≡ ys
    → First t ps xs o
    → First t qs ys o
First-cong t o {ps} {qs} {xs} {ys} e d h =
    subst (λ ps. First t ps ys o) e (subst (λ xs. First t ps xs o) d h)

edge_left :
    (path : List Frame) (l r : Tree) (n : ℕ) (c : Colour) (k : ℕ) (last : Option LastPos)
    → First
        (plug path (node l r n c k))
        (befores path)
        ((inorder l ++ (k, n) ∷ inorder r) ++ behinds path)
        (edge_from to_left path (node l r n c k) last)
unfolding edge_from prior after befores behinds before behind
edge_left path null_element r n c k last = (append_nil (befores path), refl, refl)
edge_left path (node l' r' n' c' k') r n c k last =
    let f : Frame = record { side = to_left; other = r; count = n; colour = c; key = k } in
    let here : LastPos = record {
      path = path;
      left = node l' r' n' c' k';
      right = r;
      count = n;
      colour = c;
      key = k;
    } in
    First-cong (plug path (node (node l' r' n' c' k') r n c k))
      (edge_from to_left (f ∷ path) (node l' r' n' c' k') (some here)) (append_nil (befores path))
      (sym (append_assoc (inorder (node l' r' n' c' k')) ((k, n) ∷ inorder r) (behinds path)))
      (edge_left (f ∷ path) l' r' n' c' k' (some here))

climb_right :
    (path : List Frame) (x : Tree)
    → First (plug path x) (befores path ++ inorder x) (behinds path) (climb_from to_right path x)
unfolding climb_from same_side prior after befores behinds before behind
climb_right [] x = refl
climb_right (f ∷ path) x = by_side f.side (λ g. climb_right path (join g x))
  where
    regroup :
        (a b c : List (ℕ × ℕ))
        → a ++ (b ++ (f.key, f.count) ∷ c) ≡ (a ++ (b ++ (f.key, f.count) ∷ [])) ++ c
    regroup a b c = simp (append_assoc)

    by_side :
        (s : Side)
        → ((g : Frame)
            → First
                (plug path (join g x))
                (befores path ++ inorder (join g x))
                (behinds path)
                (climb_from to_right path (join g x)))
        → First
            (plug path (join (record f { side = s }) x))
            (befores (record f { side = s } ∷ path) ++ inorder x)
            (behinds (record f { side = s } ∷ path))
            (climb_from to_right (record f { side = s } ∷ path) x)
    by_side to_left above = (ap (λ b. b ++ inorder x) (sym (append_nil (befores path))), refl, refl)
    by_side to_right above =
        First-cong (plug path (join (record f { side = to_right }) x))
          (climb_from to_right path (join (record f { side = to_right }) x))
          (regroup (befores path) (inorder f.other) (inorder x)) refl
          (above (record f { side = to_right }))

-- rbtree_search_edge to the left finds the first element of the tree, or NULL in an empty tree.
pub search_edge-First :
    (tree : Rbtree) → First tree.root [] (inorder tree.root) (rbtree_search_edge tree to_left)
unfolding rbtree_search_edge edge_from befores behinds
search_edge-First tree = by_root tree.root
  where
    by_root : (t : Tree) → First t [] (inorder t) (edge_from to_left [] t none)
    by_root null_element = refl
    by_root (node l r n c k) =
        First-cong (node l r n c k) (edge_from to_left [] (node l r n c k) none) refl
          (append_nil (inorder (node l r n c k))) (edge_left [] l r n c k none)

-- rbtree_search_next with `left` and `right` goes from a position to the element that follows it in
-- the order of the tree, with all other elements where they were, and returns NULL exactly where
-- none follows.
pub rbtree_search_next_lem :
    (p : LastPos)
    → First
        (plug p.path (tree_at p))
        (prior p ++ element p ∷ [])
        (after p)
        (rbtree_search_next p to_left to_right)
unfolding rbtree_search_next prior after befores behinds before behind
rbtree_search_next_lem p = by_right p.right
  where
    regroup : (a b : List (ℕ × ℕ)) (e : ℕ × ℕ) → a ++ (b ++ e ∷ []) ≡ (a ++ b) ++ e ∷ []
    regroup a b e = sym (append_assoc a b (e ∷ []))

    by_right :
        (r : Tree)
        → First
            (plug p.path (node p.left r p.count p.colour p.key))
            ((befores p.path ++ inorder p.left) ++ element p ∷ [])
            (inorder r ++ behinds p.path)
            (rbtree_search_next (record p { right = r }) to_left to_right)
    by_right null_element =
        First-cong _ (climb_from to_right p.path (node p.left null_element p.count p.colour p.key))
          (regroup (befores p.path) (inorder p.left) (element p)) refl
          (climb_right p.path (node p.left null_element p.count p.colour p.key))
    by_right (node l r n c k) =
        First-cong _
          (edge_from to_left (frame_of to_right (record p { right = node l r n c k }) ∷ p.path)
            (node l r n c k) none)
          (regroup (befores p.path) (inorder p.left) (element p)) refl
          (edge_left (frame_of to_right (record p { right = node l r n c k }) ∷ p.path) l r n c k
            none)

-- The elements of a loop over the positions, of at most so many rounds.
unfoldable pub elements_from : ℕ → Option LastPos → List (ℕ × ℕ)
elements_from fuel none = []
elements_from zero (some p) = []
elements_from (suc fuel) (some p) =
    element p ∷ elements_from fuel (rbtree_search_next p to_left to_right)

elements_from_lem :
    (fuel : ℕ) (t : Tree) (ps xs : List (ℕ × ℕ)) (o : Option LastPos)
    → length xs ≤ fuel
    → First t ps xs o
    → elements_from fuel o ≡ xs
unfolding elements_from
elements_from_lem fuel t ps xs none h e = sym e
elements_from_lem zero t ps [] (some p) h (a, b, w) = refl
elements_from_lem zero t ps (x ∷ xs) (some p) h e = absurd (omega arith)
elements_from_lem (suc fuel) t ps xs (some p) h (a, b, w) =
    ap (λ rest. element p ∷ rest)
      (elements_from_lem fuel (plug p.path (tree_at p)) (prior p ++ element p ∷ []) (after p)
        (rbtree_search_next p to_left to_right) (omega (arith, ap length b))
        (rbtree_search_next_lem p))
    ∙ b

-- The loop that begins with rbtree_search_edge to the left and goes on with rbtree_search_next
-- comes to NULL after as many rounds as the tree has elements, and has met them in order, each
-- once.
pub rbtree_search_edge_lem :
    (tree : Rbtree) (fuel : ℕ)
    → length (inorder tree.root) ≤ fuel
    → elements_from fuel (rbtree_search_edge tree to_left) ≡ inorder tree.root
rbtree_search_edge_lem tree fuel h =
    elements_from_lem fuel tree.root [] (inorder tree.root) (rbtree_search_edge tree to_left) h
      (search_edge-First tree)
