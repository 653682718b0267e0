-- ===== src/Queue.antt =====
-- src/my_queue.c: the priority queue, a heap of pointers at `root[1]` to `root[elements]`. A pointer
-- is its address. `none` is a fault: an access outside `root`, a failed assertion, or a loop that
-- has run through the fuel of the model.
pub mod Order
pub mod Lifecycle
pub mod Valid
pub mod Insert
pub mod Remove
pub mod Fix
pub mod Resize
pub mod Misorder
pub mod Tests
pub mod Hole
pub mod Up
pub mod Down
pub mod Descend
use my_libs.Base.{
  ℕ, zero, suc, ◌+◌, ◌-◌, ◌*◌, ◌/◌, ◌<◌, ◌≤◌, ◌≡◌, Bool, true, false, ◌&&◌, Option, none, some,
  List, leb, ltb, ◌==◌, if◌then◌else◌, ◌>>=◌, length, get_elem?, get_or, set, u32, ◌^◌, [],
}
use my_libs.Base.Int.{ℤ, pos, negsuc, ◌*ℤ◌, is_neg, is_pos, wrapped}

-- `my_queue`; `max_at_top` is 1 or -1.
pub record Queue : Type 0 where
  pub root : List ℕ
  pub first_cmp_arg : ℕ
  pub elements : ℕ
  pub max_elements : ℕ
  pub offset_to_key : ℕ
  pub max_at_top : ℤ
  pub compare : ℕ → ℕ → ℕ → ℤ
  pub auto_extent : ℕ

-- The macro queue_set_max_at_top.
pub sign_of : Bool → ℤ
sign_of max_at_top = if max_at_top then negsuc 0 else pos 1

-- compare(first_cmp_arg, x + offset_to_key, y + offset_to_key) * max_at_top, a product of two ints. It
-- overflows where the callback returns INT_MIN and `max_at_top` is -1: C leaves that undefined, and
-- here the product wraps around.
pub compared : Queue → ℕ → ℕ → ℤ
unfolding ◌*ℤ◌ wrapped
compared q x y =
    wrapped (q.compare q.first_cmp_arg (x + q.offset_to_key) (y + q.offset_to_key) *ℤ q.max_at_top)

-- An assignment `root[i] = v`.
pub put : List ℕ → ℕ → ℕ → Option (List ℕ)
put root i v = if ltb i (length root) then some (set root i v) else none

-- The arguments of the comparisons, without the queue's own fields.
abbrev pub Order : Type 0
Order = ℕ → ℕ → ℤ

-- The loop of queue_insert and the write behind it.
pub sift_up : Order → ℕ → List ℕ → ℕ → ℕ → Option (List ℕ)
unfolding put
sift_up cmp zero root idx element = none
sift_up cmp (suc fuel) root idx element = get_elem? root (idx / 2) >>= λ parent.
    elim (is_neg (cmp element parent)) [
      | true ↦ put root idx parent >>= λ root'. sift_up cmp fuel root' (idx / 2) element
      | false ↦ put root idx element
    ]

-- The index of the child to go on with: `next_index` in _downheap.
pub child_of : Order → List ℕ → ℕ → ℕ → Option ℕ
child_of cmp root elements idx =
    let next = idx + idx in
    if ltb next elements
    then (get_elem? root next >>= λ l.
        get_elem? root (next + 1) >>= λ r. some (if is_pos (cmp l r) then next + 1 else next))
    else some next

-- The second loop of _downheap, which goes back up, and the write behind it.
pub climb : Order → ℕ → ℕ → List ℕ → ℕ → ℕ → Option (List ℕ)
unfolding put
climb cmp start zero root idx element = none
climb cmp start (suc fuel) root idx element = elim (ltb start (idx / 2)) [
  | true ↦ get_elem? root (idx / 2) >>= λ parent. elim (is_neg (cmp parent element)) [
    | true ↦ put root idx element
    | false ↦ put root idx parent >>= λ root'. climb cmp start fuel root' (idx / 2) element
  ]
  | false ↦ put root idx element
]

-- The first loop of _downheap, and all that follows it.
pub descend : Order → ℕ → ℕ → ℕ → Bool → List ℕ → ℕ → ℕ → Option (List ℕ)
unfolding put child_of climb
descend cmp start elements zero first root idx element = none
descend cmp start elements (suc fuel) first root idx element = elim (leb idx (elements / 2)) [
  | true ↦ child_of cmp root elements idx >>= λ next. get_elem? root next >>= λ child.
      elim (if first then is_neg (cmp child element) else true) [
        | true ↦
            put root idx child >>= λ root'. descend cmp start elements fuel false root' next element
        | false ↦ put root idx element
      ]
  | false ↦ climb cmp start (idx + 1) root idx element
]

-- _downheap at `idx`.
pub downheap : Queue → ℕ → Option Queue
downheap q idx = get_elem? q.root idx >>= λ element.
    descend (compared q) idx q.elements (q.elements + 1) true q.root idx element >>= λ root.
    some (record q { root = root })

pub queue_insert : Queue → ℕ → Option Queue
queue_insert q element =
    let idx = q.elements + 1 in
    if ltb q.elements q.max_elements
    then (put q.root 0 element >>= λ root.
        sift_up (compared q) (idx + 1) root idx element >>= λ root'.
        some (record q { root = root'; elements = idx }))
    else none

-- The pointer removed. The count wraps around below 0.
pub queue_remove : Queue → ℕ → Option (ℕ × Queue)
queue_remove q idx =
    if ltb idx q.max_elements
    then (get_elem? q.root (idx + 1) >>= λ element. get_elem? q.root q.elements >>= λ last.
        put q.root (idx + 1) last >>= λ root.
        downheap (record q { root = root; elements = u32 (q.elements + (2 ^ 32 - 1)) }) (idx + 1)
        >>= λ q'. some (element, q'))
    else none

-- The loop of queue_fix, from index `i` down to 1.
pub fix_from : ℕ → Queue → Option Queue
fix_from zero q = some q
fix_from (suc i) q = downheap q (suc i) >>= fix_from i

pub queue_fix : Queue → Option Queue
queue_fix q = fix_from (q.elements / 2) q
