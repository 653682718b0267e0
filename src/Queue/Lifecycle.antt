-- ===== src/Queue/Lifecycle.antt =====
-- The operations of my_queue.c that make, resize and free a queue, and the macros of my_queue.h.
use my_libs.Base.{
  ℕ, ◌+◌, ◌<◌, ◌≤◌, ◌≡◌, Bool, Option, none, some, List, [], ◌==◌, if◌then◌else◌, ◌>>=◌, length,
  get_elem?, get_or, u32,
}
use my_libs.Base.Int.{ℤ}
use my_libs.Queue.{Queue, sign_of, queue_insert, downheap}

-- What the queue asks of the allocator, in pointers, and the macro set_if_smaller, which no header
-- here defines. NULL is a block of no pointers.
pub record Extern : Type 0 where
  pub malloc : ℕ → Option (List ℕ)
  pub realloc : List ℕ → ℕ → Option (List ℕ)
  pub set_if_smaller : ℕ → ℕ → ℕ
  pub length-malloc : (n : ℕ) (b : List ℕ) → malloc n ≡ some b → length b ≡ n
  pub length-realloc : (b : List ℕ) (n : ℕ) (c : List ℕ) → realloc b n ≡ some c → length c ≡ n
  pub realloc_kept :
      (b : List ℕ) (n : ℕ) (c : List ℕ) (k : ℕ)
      → realloc b n ≡ some c
      → k < length b
      → k < n
      → get_or c k 0 ≡ get_or b k 0
  pub set_if_smaller_le : (a b : ℕ) → set_if_smaller a b ≤ b
  pub set_if_smaller_kept : (a b : ℕ) → a ≤ b → set_if_smaller a b ≡ a
  pub set_if_smaller_cut : (a b : ℕ) → b ≤ a → set_if_smaller a b ≡ b

module _ (ext : Extern) where
  -- The queue before the call is the caller's memory, of which `auto_extent` stays.
  pub queue_init : Queue → ℕ → ℕ → Bool → (ℕ → ℕ → ℕ → ℤ) → ℕ → ℕ × Queue
  unfolding sign_of
  queue_init q max_elements offset_to_key max_at_top compare first_cmp_arg =
      elim (ext.malloc (u32 (max_elements + 1))) [
        | none ↦ (1, record q { root = [] })
        | some root ↦ (
          0,
          record q {
            root = root;
            first_cmp_arg = first_cmp_arg;
            elements = 0;
            max_elements = max_elements;
            offset_to_key = offset_to_key;
            max_at_top = sign_of max_at_top;
            compare = compare;
          },
        )
      ]

  pub queue_init_ex : Queue → ℕ → ℕ → Bool → (ℕ → ℕ → ℕ → ℤ) → ℕ → ℕ → ℕ × Queue
  unfolding queue_init
  queue_init_ex q max_elements offset_to_key max_at_top compare first_cmp_arg auto_extent =
      let (ret, q') = queue_init q max_elements offset_to_key max_at_top compare first_cmp_arg in
      if ret == 0 then (0, record q' { auto_extent = auto_extent }) else (ret, q')

  -- Whether it answers 0, and the queue.
  unfoldable pub queue_resize : Queue → ℕ → ℕ × Queue
  queue_resize q max_elements =
      let resized : ℕ × Queue = elim (ext.realloc q.root (u32 (max_elements + 1))) [
        | none ↦ (1, q)
        | some root ↦ (
          0,
          record q {
            root = root;
            elements = ext.set_if_smaller q.elements max_elements;
            max_elements = max_elements;
          },
        )
      ] in
      if q.max_elements == max_elements then (0, q) else resized

  -- The answer of queue_resize is not looked at.
  pub queue_reinit : Queue → ℕ → ℕ → Bool → (ℕ → ℕ → ℕ → ℤ) → ℕ → ℕ × Queue
  unfolding queue_resize sign_of
  queue_reinit q max_elements offset_to_key max_at_top compare first_cmp_arg =
      let q' = record q {
        first_cmp_arg = first_cmp_arg;
        elements = 0;
        offset_to_key = offset_to_key;
        max_at_top = sign_of max_at_top;
        compare = compare;
      } in
      (0, (queue_resize q' max_elements).1)

  pub queue_insert_safe : Queue → ℕ → Option (ℕ × Queue)
  unfolding queue_resize queue_insert
  queue_insert_safe q element =
      let insert : Queue → Option (ℕ × Queue) =
        λ r. queue_insert r element >>= λ r'. some (0, r') in
      let (failed, larger) = queue_resize q (u32 (q.max_elements + q.auto_extent)) in
      if q.elements == q.max_elements
      then (if q.auto_extent == 0
          then some (2, q)
          else if failed == 0
          then insert larger
          else some (1, q))
      else insert q

pub queue_delete : Queue → Queue
queue_delete q = record q { root = [] }

-- The macros queue_top, queue_end, queue_element, queue_replaced, queue_is_full, queue_remove_all.
unfoldable pub queue_top : Queue → Option ℕ
queue_top q = get_elem? q.root 1

pub queue_end : Queue → Option ℕ
queue_end q = get_elem? q.root q.elements

pub queue_element : Queue → ℕ → Option ℕ
queue_element q index = get_elem? q.root (index + 1)

unfoldable pub queue_replaced : Queue → Option Queue
unfolding downheap
queue_replaced q = downheap q 1

pub queue_is_full : Queue → Bool
queue_is_full q = q.elements == q.max_elements

pub queue_remove_all : Queue → Queue
queue_remove_all q = record q { elements = 0 }
