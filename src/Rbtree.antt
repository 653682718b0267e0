-- ===== src/Rbtree.antt =====
-- src/my_rbtree.c: the red-black tree. A key is a number, whose meaning is left to the callback. The
-- stack `parents`, of addresses of links, is the list of the elements passed on the way down, the
-- last first, each with the side taken. `none` is a fault: an access through NULL or outside
-- `parents`.
pub mod Walk
pub mod Order
pub mod Insert
pub mod Add
pub mod Search
pub mod Sorted
pub mod Valid
pub mod Keeps
pub mod Check
pub mod Balance
pub mod Height
pub mod Rebalance
pub mod Delete
pub mod Position
pub mod Tests
use my_libs.Base.{
  ℕ, zero, suc, ◌+◌, ◌-◌, ◌%◌, ◌^◌, ◌<◌, ◌≤◌, ◌≡◌, Bool, true, false, ◌&&◌, ◌||◌, Option, none,
  some, List, [], ◌∷◌, ◌++◌, leb, ltb, ◌==◌, if◌then◌else◌, ◌>>=◌, length, u32,
}
use my_libs.Base.Int.{ℤ, pos, negsuc, is_neg, is_pos}

pub data Colour : Type 0 where
  red : Colour
  black : Colour

-- `rbtree_element`, with the elements below it. The null element is the only one with NULL links.
pub data Tree : Type 0 where
  null_element : Tree
  node : (left right : Tree) (count : ℕ) (colour : Colour) (key : ℕ) → Tree

pub data Side : Type 0 where
  to_left : Side
  to_right : Side

-- An element passed on the way down: the side taken, and the rest of the element.
pub record Frame : Type 0 where
  pub side : Side
  pub other : Tree
  pub count : ℕ
  pub colour : Colour
  pub key : ℕ

-- The element of a frame with a child on the side taken.
abbrev pub join : Frame → Tree → Tree
join f t = elim f.side [
  | to_left ↦ node t f.other f.count f.colour f.key
  | to_right ↦ node f.other t f.count f.colour f.key
]

-- The whole tree.
abbrev pub plug : List Frame → Tree → Tree
plug [] t = t
plug (f ∷ path) t = plug path (join f t)

abbrev pub is_red : Colour → Bool
is_red red = true
is_red black = false

-- The null element is black.
pub colour_of : Tree → Colour
colour_of null_element = black
colour_of (node l r n c k) = c

-- `t->colour = c`. On the null element the source never sets another colour than its own.
pub paint : Colour → Tree → Tree
paint c null_element = null_element
paint c (node l r n d k) = node l r n c k

pub rbtree_left_rotate : Tree → Option Tree
rbtree_left_rotate (node l (node a b n c k) m d j) = some (node (node l a m d j) b n c k)
rbtree_left_rotate _ = none

pub rbtree_right_rotate : Tree → Option Tree
rbtree_right_rotate (node (node a b n c k) r m d j) = some (node a (node b r m d j) n c k)
rbtree_right_rotate _ = none

-- The rotation that lifts the child of a side.
rotate_from : Side → Tree → Option Tree
unfolding rbtree_left_rotate rbtree_right_rotate
rotate_from to_left t = rbtree_right_rotate t
rotate_from to_right t = rbtree_left_rotate t

same_side : Side → Side → Bool
same_side to_left to_left = true
same_side to_right to_right = true
same_side _ _ = false

-- The last part of the loop of rb_insert, with a black uncle: one rotation or two below `par2`.
pub settle : Frame → Frame → Tree → Option Tree
unfolding rotate_from same_side paint
settle par par2 leaf =
    let turned : Option Tree =
      if same_side par.side par2.side
      then some (join par leaf)
      else rotate_from par.side (join par leaf) in
    turned >>= λ child.
    rotate_from par2.side (join (record par2 { colour = red }) (paint black child))

-- The loop of rb_insert from `leaf`, and the root painted black.
pub fix_insert : List Frame → Tree → Option Tree
unfolding settle paint colour_of
fix_insert [] leaf = some (paint black leaf)
fix_insert (par ∷ []) leaf = if is_red par.colour then none else some (paint black (join par leaf))
fix_insert (par ∷ par2 ∷ path) leaf = elim (is_red par.colour) [
  | false ↦ some (paint black (plug (par ∷ par2 ∷ path) leaf))
  | true ↦ elim (is_red (colour_of par2.other)) [
    | true ↦ fix_insert path (
        join (record par2 { colour = red; other = paint black par2.other })
          (join (record par { colour = black }) leaf))
    | false ↦ settle par par2 leaf >>= λ t. some (paint black (plug path t))
  ]
]

-- rb_insert of the new element at the end of the path.
pub rb_insert : List Frame → Tree → Option Tree
unfolding fix_insert paint
rb_insert path leaf = fix_insert path (paint red leaf)

-- `rbtree`, without the pool of storage, the callbacks and the context. `offset` is where the key
-- stands behind an element, or 0; `has_free` says whether there is a callback for freed elements.
pub record Rbtree : Type 0 where
  pub root : Tree
  pub offset : ℕ
  pub elements : ℕ
  pub size : ℕ
  pub memory_limit : ℕ
  pub allocated : ℕ
  pub is_delete : Bool
  pub has_free : Bool
  pub no_duplicates : Bool

-- How the search of rbtree_insert and rbtree_delete ends: at an element, or at the null element.
pub data Found : Type 0 where
  at_element :
      (path : List Frame) (left right : Tree) (count : ℕ) (colour : Colour) (key : ℕ) → Found
  at_null : (path : List Frame) → Found

module _ (compare : ℕ → ℕ → ℤ) where
  -- The search from an element on; `compare` has the context of the call.
  pub descend : List Frame → Tree → ℕ → Found
  descend path null_element key = at_null path
  descend path (node l r n c k) key =
      let cmp = compare k key in
      let right =
        descend (record { side = to_right; other = l; count = n; colour = c; key = k } ∷ path) r
          key in
      let left =
        descend (record { side = to_left; other = r; count = n; colour = c; key = k } ∷ path) l
          key in
      if is_neg cmp then right else if is_pos cmp then left else at_element path l r n c k

  pub rbtree_search_from : Tree → ℕ → Option ℕ
  rbtree_search_from null_element key = none
  rbtree_search_from (node l r n c k) key =
      let cmp = compare k key in
      let right = rbtree_search_from r key in
      let left = rbtree_search_from l key in
      if is_neg cmp then right else if is_pos cmp then left else some k

  -- The key of the element found, or NULL.
  pub rbtree_search : Rbtree → ℕ → Option ℕ
  unfolding rbtree_search_from
  rbtree_search tree key = rbtree_search_from tree.root key

-- `count++`, which has 31 bits and is not to wrap around.
pub counted : ℕ → ℕ
counted n = if (n + 1) % 2 ^ 31 == 0 then 2 ^ 31 - 1 else (n + 1) % 2 ^ 31

-- The first branch of rbtree_insert from the allocation on: whether an element is returned, and the
-- tree. `memory` says whether there is storage; `parents` has 64 places.
pub link : Bool → Rbtree → List Frame → ℕ → Option (Bool × Rbtree)
unfolding rb_insert
link memory tree path key =
    let grown = rb_insert path (node null_element null_element 1 red key) >>= λ root.
    some (true, record tree { root = root; elements = u32 (tree.elements + 1) }) in
    if memory then (if ltb (length path) 64 then grown else none) else some (false, tree)

-- The calls of the callback for freed elements.
pub data FreeCall : Type 0 where
  free_init : FreeCall
  free_key : ℕ → FreeCall
  free_uninit : FreeCall

-- rbtree_uninit_element: the calls, in order.
pub rbtree_uninit_element : Bool → Tree → List FreeCall
rbtree_uninit_element has_free null_element = []
rbtree_uninit_element has_free (node l r n c k) =
    rbtree_uninit_element has_free l
    ++ ((if has_free then free_key k ∷ [] else []) ++ rbtree_uninit_element has_free r)

-- rbtree_free, of a tree that has been initialised: its root is not NULL.
pub rbtree_free : Rbtree → List FreeCall × Rbtree
unfolding rbtree_uninit_element
rbtree_free tree =
    let each = rbtree_uninit_element tree.has_free tree.root in
    let limited : FreeCall → List FreeCall = λ c. if ltb 0 tree.memory_limit then c ∷ [] else [] in
    let calls : List FreeCall =
      if tree.is_delete
      then each
      else (if tree.has_free then limited free_init ++ (each ++ limited free_uninit) else []) in
    (calls, record tree { root = null_element; elements = 0; allocated = 0 })

pub rbtree_uninit : Rbtree → List FreeCall × Rbtree
unfolding rbtree_free
rbtree_uninit tree = rbtree_free tree

pub rbtree_reset : Rbtree → List FreeCall × Rbtree
unfolding rbtree_free
rbtree_reset tree = rbtree_free tree

-- rbtree_insert; `element_size` is sizeof(rbtree_element). After rbtree_reset, the recursive call
-- is at the null element at once, and goes on to the allocation since there are no elements.
pub rbtree_insert : (ℕ → ℕ → ℤ) → ℕ → Bool → Rbtree → ℕ → ℕ → Option (Bool × Rbtree)
unfolding descend counted link rbtree_reset
rbtree_insert compare element_size memory tree key key_size =
    let alloc_size = u32 (element_size + key_size + tree.size) in
    let more : Rbtree → Rbtree =
      λ t. record t { allocated = (t.allocated + alloc_size) % 2 ^ 64 } in
    let larger = more tree in
    elim (descend compare [] tree.root key) [
      | at_element path l r n c k ↦
          let done = some (
            if tree.no_duplicates
            then (false, tree)
            else (true, record tree { root = plug path (node l r (counted n) c k) })) in
          if ltb (length path) 64 then done else none
      | at_null path ↦
          if ltb 0 tree.memory_limit
            && (ltb 0 tree.elements && ltb tree.memory_limit larger.allocated)
          then link memory (more (rbtree_reset larger).1) [] key
          else link memory larger path key
    ]
