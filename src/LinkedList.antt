-- ===== src/LinkedList.antt =====
-- src/my_list.c, include/my_list.h: the doubly linked list. Addresses are numbers and NULL is 0; a
-- store has one list object and the iterators. `none` is a fault: an access to an iterator that is
-- not there, or a loop that does not end within its fuel. The fields `__next` and `__prev` of the
-- source are `next` and `prev` of the struct.
pub mod Loops
pub mod Segment
pub mod Link
pub mod Grow
pub mod Shrink
pub mod Insert
pub mod Search
pub mod Release
pub mod Tests
use my_libs.Base.{
  ℕ, zero, suc, ◌+◌, ◌-◌, ◌%◌, ◌^◌, ◌≡◌, Bool, true, false, Option, none, some, List, [], ◌∷◌, ltb,
  ◌==◌, if◌then◌else◌, ◌>>=◌, length,
}
use my_libs.Base.Int.{ℤ, pos, negsuc}

pub record MyList : Type 0 where
  pub head : ℕ
  pub tail : ℕ
  pub length : ℕ

pub record MyListIter : Type 0 where
  pub item_data : ℕ
  pub list : ℕ
  pub next : ℕ
  pub prev : ℕ
  pub foreach : ℕ

pub record Store : Type 0 where
  pub my_list : MyList
  pub iter : ℕ → Option MyListIter

unfoldable pub put : (ℕ → Option MyListIter) → ℕ → Option MyListIter → ℕ → Option MyListIter
put iter a v = λ b. if b == a then v else iter b

unfoldable pub write_next : Store → ℕ → ℕ → Option Store
unfolding put
write_next s a v =
    s.iter a >>= λ i. some (record s { iter = put s.iter a (some (record i { next = v })) })

unfoldable pub write_prev : Store → ℕ → ℕ → Option Store
unfolding put
write_prev s a v =
    s.iter a >>= λ i. some (record s { iter = put s.iter a (some (record i { prev = v })) })

unfoldable pub write_foreach : Store → ℕ → ℕ → Option Store
unfolding put
write_foreach s a v =
    s.iter a >>= λ i. some (record s { iter = put s.iter a (some (record i { foreach = v })) })

abbrev pub set_head : Store → ℕ → Store
set_head s v = record s { my_list = record s.my_list { head = v } }

abbrev pub set_tail : Store → ℕ → Store
set_tail s v = record s { my_list = record s.my_list { tail = v } }

-- `if (item->__next) item->__next->__prev = v; else __list->tail = v`
unfoldable pub link_back : Store → ℕ → ℕ → Option Store
unfolding write_prev
link_back s next v = if next == 0 then some (set_tail s v) else write_prev s next v

-- `if (item->__prev) item->__prev->__next = v; else __list->head = v`
unfoldable pub link_on : Store → ℕ → ℕ → Option Store
unfolding write_next
link_on s prev v = if prev == 0 then some (set_head s v) else write_next s prev v

unfoldable pub lengthen : ℕ → Store → Option (ℕ × Store)
lengthen item s =
    some
      (item, record s { my_list = record s.my_list { length = (s.my_list.length + 1) % 2 ^ 64 } })

-- The new iterator: its address, and what is left in its `__foreach`, which no function sets old
-- first; or no storage.
pub my_list_init : Option ℕ → Option (ℕ × MyList)
my_list_init none = none
my_list_init (some list) = some (list, record { head = 0; tail = 0; length = 0 })

unfoldable pub my_list_prepend : ℕ → Store → ℕ → Option (ℕ × ℕ) → Option (ℕ × Store)
unfolding put link_back lengthen
my_list_prepend list s item_data memory =
    let grown : Option (ℕ × Store) = elim memory [
      | none ↦ some (0, s)
      | some (item, left) ↦
          let next = s.my_list.head in
          let i : MyListIter = record {
            item_data = item_data;
            list = list;
            next = next;
            prev = 0;
            foreach = left;
          } in
          link_back (set_head (record s { iter = put s.iter item (some i) }) item) next item
          >>= lengthen item
    ] in
    if list == 0 then some (0, s) else grown

unfoldable pub my_list_append : ℕ → Store → ℕ → Option (ℕ × ℕ) → Option (ℕ × Store)
unfolding put link_on lengthen
my_list_append list s item_data memory =
    let grown : Option (ℕ × Store) = elim memory [
      | none ↦ some (0, s)
      | some (item, left) ↦
          let prev = s.my_list.tail in
          let i : MyListIter = record {
            item_data = item_data;
            list = list;
            next = 0;
            prev = prev;
            foreach = left;
          } in
          link_on (set_tail (record s { iter = put s.iter item (some i) }) item) prev item
          >>= lengthen item
    ] in
    if list == 0 then some (0, s) else grown

unfoldable pub my_list_add : ℕ → Store → ℕ → Option (ℕ × ℕ) → Option (ℕ × Store)
unfolding put write_prev lengthen
my_list_add list s item_data memory =
    let grown : Option (ℕ × Store) = elim memory [
      | none ↦ some (0, s)
      | some (item, left) ↦
          let next = s.my_list.head in
          let i : MyListIter = record {
            item_data = item_data;
            list = list;
            next = next;
            prev = 0;
            foreach = left;
          } in
          let s' = set_head (record s { iter = put s.iter item (some i) }) item in
          let back = if next == 0 then some s' else write_prev s' next item in
          back >>= λ s''. lengthen item (if s''.my_list.tail == 0 then set_tail s'' item else s'')
    ] in
    if list == 0 then some (0, s) else grown

-- my_list_iter_insert, before the iterator `old`.
unfoldable pub my_list_iter_insert : ℕ → Store → ℕ → Option (ℕ × ℕ) → Option (ℕ × Store)
unfolding put write_next write_prev lengthen my_list_prepend
my_list_iter_insert old s item_data memory =
    let inserted : MyListIter → Option (ℕ × Store) = λ here. elim memory [
      | none ↦ some (0, s)
      | some (item, left) ↦
          let i : MyListIter = record {
            item_data = item_data;
            list = here.list;
            next = old;
            prev = here.prev;
            foreach = left;
          } in
          write_next (record s { iter = put s.iter item (some i) }) here.prev item >>= λ s'.
          write_prev s' old item >>= lengthen item
    ] in
    let found = s.iter old >>= λ here.
    if s.my_list.head == old then my_list_prepend here.list s item_data memory else inserted here in
    if old == 0 then some (0, s) else found

-- my_list_iter_delete; `my_free` takes the iterator out of the store.
unfoldable pub my_list_iter_delete : ℕ → Store → Option Store
unfolding put link_on link_back write_foreach
my_list_iter_delete old s =
    let unlinked : MyListIter → Option Store = λ i. link_back s i.next i.prev >>= λ s'.
    link_on s' i.prev i.next >>= λ s''. some (record s'' {
      my_list = record s''.my_list { length = (s''.my_list.length + (2 ^ 64 - 1)) % 2 ^ 64 };
      iter = put s''.iter old none;
    }) in
    let found = s.iter old >>= λ i. if i.foreach == 1 then write_foreach s old 0 else unlinked i in
    if old == 0 then some s else found
