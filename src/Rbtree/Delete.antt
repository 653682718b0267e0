-- ===== src/Rbtree/Delete.antt =====
-- rbtree_delete and rb_delete_fixup of my_rbtree.c.
pub mod Settle
pub mod Fixup
pub mod Unlink
pub mod Remove
use my_libs.Base.{
  ℕ, zero, suc, ◌+◌, ◌-◌, ◌%◌, ◌^◌, ◌<◌, ◌≡◌, Bool, true, false, ◌&&◌, Option, none, some, List, [],
  ◌∷◌, ◌++◌, ltb, ◌==◌, if◌then◌else◌, ◌>>=◌, length, u32,
}
use my_libs.Base.Int.{ℤ}
use my_libs.Rbtree.{
  Colour, red, black, Tree, null_element, node, Side, to_left, to_right, Frame, join, plug, is_red,
  colour_of, paint, rotate_from, Rbtree, FreeCall, free_key, at_element, at_null, descend,
}

abbrev pub opposite : Side → Side
opposite to_left = to_right
opposite to_right = to_left

-- The child of a sibling on the side of `x`, and the other.
abbrev pub near : Side → Tree → Tree → Tree
near to_left l r = l
near to_right l r = r

abbrev pub far : Side → Tree → Tree → Tree
far to_left l r = r
far to_right l r = l

-- `w->left->colour = black` or `w->right->colour = black`, for the child on a side.
unfoldable pub paint_child : Side → Tree → Tree
unfolding paint
paint_child s null_element = null_element
paint_child to_left (node l r n c k) = node (paint black l) r n c k
paint_child to_right (node l r n c k) = node l (paint black r) n c k

-- How one round of the loop ends: `x` has become the parent, or the rotations were the last ones.
pub data Round : Type 0 where
  moved_up : Tree → Round
  turned : Tree → Round

-- The part of the loop with a black sibling `w`, below the parent of the frame. The null element
-- has no children, and looking at their colour is a fault.
unfoldable pub settle_sibling : Frame → Tree → Option Round
unfolding colour_of paint paint_child rotate_from
settle_sibling f x = elim f.other [
  | null_element ↦ none
  | node l r n c k ↦
      let clear_near = if is_red (colour_of (near f.side l r)) then false else true in
      let clear_far = if is_red (colour_of (far f.side l r)) then false else true in
      let lifted : Option Tree =
        if clear_far
        then rotate_from f.side (paint red (paint_child f.side (node l r n c k)))
        else some (node l r n c k) in
      if clear_near && clear_far
      then some (moved_up (join (record f { other = node l r n red k }) x))
      else (lifted >>= λ w.
          let w' = paint_child (opposite f.side) (paint f.colour w) in
          rotate_from (opposite f.side) (join (record f { colour = black; other = w' }) x) >>= λ t.
          some (turned t))
]

-- The part with a red sibling `w`: the parent's frame and, above it, that of `w`.
unfoldable pub lift_sibling : Frame → Option (Frame × Frame)
lift_sibling f = elim f.other [
  | null_element ↦ none
  | node l r n c k ↦ some (
    record f { colour = red; other = near f.side l r },
    record { side = f.side; other = far f.side l r; count = n; colour = black; key = k },
  )
]

-- The loop of rb_delete_fixup from `x` at the end of the path, and what follows it; the result is
-- the whole tree. After the rotation for a red sibling the parent is red, and the loop ends when
-- `x` becomes it. `parents` has 64 places, of which a path uses one more than its length.
unfoldable pub fix_delete : List Frame → Tree → Option Tree
unfolding settle_sibling lift_sibling colour_of paint
fix_delete [] x = some (paint black x)
fix_delete (f ∷ path) x = elim (is_red (colour_of x)) [
  | true ↦ some (plug (f ∷ path) (paint black x))
  | false ↦ elim (is_red (colour_of f.other)) [
    | true ↦ lift_sibling f >>= λ frames.
        let ended = settle_sibling frames.0 x >>= λ r. elim r [
          | moved_up par ↦ some (plug (frames.1 ∷ path) (paint black par))
          | turned t ↦ some (paint black (plug (frames.1 ∷ path) t))
        ] in
        if ltb (length path + 2) 64 then ended else none
    | false ↦ settle_sibling f x >>= λ r. elim r [
      | moved_up par ↦ fix_delete path par
      | turned t ↦ some (paint black (plug path t))
    ]
  ]
]

-- `nod`, the leftmost element of a tree, and the path from the top of the tree to it.
pub record Leftmost : Type 0 where
  pub below : List Frame
  pub right : Tree
  pub count : ℕ
  pub colour : Colour
  pub key : ℕ

unfoldable pub leftmost : List Frame → Tree → Tree → ℕ → Colour → ℕ → Leftmost
leftmost below null_element r n c k = record {
  below = below;
  right = r;
  count = n;
  colour = c;
  key = k;
}
leftmost below (node l' r' n' c' k') r n c k =
    leftmost (record { side = to_left; other = r; count = n; colour = c; key = k } ∷ below) l' r' n'
      c' k'

-- What is left when an element is unlinked: the path, the tree at its end, and `remove_colour`.
pub record Unlinked : Type 0 where
  pub path : List Frame
  pub rest : Tree
  pub remove_colour : Colour

-- rbtree_delete from where the element is found: `nod` takes its place if it has two children.
unfoldable pub unlink : List Frame → Tree → Tree → Colour → Unlinked
unfolding leftmost
unlink path null_element r c = record { path = path; rest = r; remove_colour = c }
unlink path (node a b m d j) null_element c = record {
  path = path;
  rest = node a b m d j;
  remove_colour = c;
}
unlink path (node a b m d j) (node l' r' n' c' k') c =
    let nod = leftmost [] l' r' n' c' k' in
    let place : Frame = record {
      side = to_right;
      other = node a b m d j;
      count = nod.count;
      colour = c;
      key = nod.key;
    } in
    record { path = nod.below ++ place ∷ path; rest = nod.right; remove_colour = nod.colour }

-- The whole tree without the element.
unfoldable pub rebalance : Unlinked → Option Tree
unfolding fix_delete
rebalance u = if is_red u.remove_colour then some (plug u.path u.rest) else fix_delete u.path u.rest

-- The return value, the calls of the callback, and the tree.
unfoldable pub rbtree_delete :
    (ℕ → ℕ → ℤ) → ℕ → Rbtree → ℕ → ℕ → Option (ℕ × (List FreeCall × Rbtree))
unfolding descend unlink rebalance
rbtree_delete compare element_size tree key key_size =
    let gone = (element_size + tree.size + key_size) % 2 ^ 64 in
    let smaller : Tree → Rbtree = λ root. record tree {
      root = root;
      allocated = (tree.allocated + (2 ^ 64 - gone)) % 2 ^ 64;
      elements = u32 (tree.elements + (2 ^ 32 - 1));
    } in
    let removed : Option (ℕ × (List FreeCall × Rbtree)) = elim (descend compare [] tree.root key) [
      | at_null path ↦ if ltb (length path) 64 then some (1, ([], tree)) else none
      | at_element path l r n c k ↦
          let u = unlink path l r c in
          let freed : List FreeCall = if tree.has_free then free_key k ∷ [] else [] in
          let done = rebalance u >>= λ root. some (0, (freed, smaller root)) in
          if ltb (length u.path) 64 then done else none
    ] in
    if tree.is_delete then removed else some (1, ([], tree))
