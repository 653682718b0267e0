-- ===== src/LinkedList/Loops.antt =====
-- The functions of my_list.c that go through the list or read an end of it. A loop runs on fuel, one
-- step for each iterator and one for its end.
use my_libs.Base.{
  ℕ, zero, suc, Bool, true, false, Option, none, some, List, [], ◌∷◌, ◌++◌, ltb, ◌==◌,
  if◌then◌else◌, ◌>>=◌,
}
use my_libs.Base.Int.{ℤ, pos, negsuc}
use my_libs.LinkedList.{
  Store, put, write_foreach, my_list_append, my_list_add, my_list_iter_insert, my_list_iter_delete,
}

pub my_list_clear : Store → Store
my_list_clear s = record s { my_list = record { head = 0; tail = 0; length = 0 } }

unfoldable pub my_list_get_length : ℕ → Store → ℕ
my_list_get_length list s = if list == 0 then 0 else s.my_list.length

unfoldable pub my_list_begin : ℕ → Store → ℕ
my_list_begin list s = if list == 0 then 0 else s.my_list.head

unfoldable pub my_list_end : ℕ → ℕ
my_list_end list = 0

unfoldable pub my_list_rbegin : ℕ → Store → ℕ
my_list_rbegin list s = if list == 0 then 0 else s.my_list.tail

unfoldable pub my_list_rend : ℕ → ℕ
my_list_rend list = 0

unfoldable pub my_list_iter_next : ℕ → Store → Option ℕ
my_list_iter_next item s = if item == 0 then some 0 else (s.iter item >>= λ i. some i.next)

unfoldable pub my_list_iter_prev : ℕ → Store → Option ℕ
my_list_iter_prev item s = if item == 0 then some 0 else (s.iter item >>= λ i. some i.prev)

-- `for (item = head; item; item = item->__next) if (stop) break;`
unfoldable pub find_from : (ℕ → Bool) → Store → ℕ → ℕ → Option ℕ
find_from stop s zero item = none
find_from stop s (suc fuel) item =
    let there = s.iter item >>= λ i.
    let rest = find_from stop s fuel i.next in if stop i.item_data then some item else rest in
    if item == 0 then some 0 else there

unfoldable pub my_list_lookup : ℕ → ℕ → Store → ℕ → Option ℕ
unfolding find_from
my_list_lookup fuel list s item_data =
    let found = find_from (λ d. item_data == d) s fuel s.my_list.head in
    if list == 0 then some 0 else found

unfoldable pub my_list_lookadd : ℕ → ℕ → Store → ℕ → Option (ℕ × ℕ) → Option (ℕ × Store)
unfolding my_list_lookup my_list_add
my_list_lookadd fuel list s item_data memory =
    let looked = my_list_lookup fuel list s item_data >>= λ item.
    if item == 0 then my_list_add list s item_data memory else some (item, s) in
    if list == 0 then some (0, s) else looked

-- my_list_sortadd; `func` is the callback, whose results are unsigned, or NULL.
unfoldable pub my_list_sortadd :
    ℕ → ℕ → Store → Option (ℕ → ℕ → ℕ) → ℕ → Option (ℕ × ℕ) → Option (ℕ × Store)
unfolding find_from my_list_iter_insert my_list_append
my_list_sortadd fuel list s func item_data memory =
    let added = func >>= λ func.
    find_from (λ d. ltb 0 (func d item_data)) s fuel s.my_list.head >>= λ item.
    if item == 0
    then my_list_append list s item_data memory
    else my_list_iter_insert item s item_data memory in
    if list == 0 then some (0, s) else elim func [ none ↦ some (0, s) | some _ ↦ added ]

unfoldable pub my_list_delete : ℕ → ℕ → Store → ℕ → Option (ℤ × Store)
unfolding find_from my_list_iter_delete
my_list_delete fuel list s item_data =
    let deleted = find_from (λ d. item_data == d) s fuel s.my_list.head >>= λ item.
    if item == 0
    then some (negsuc 0, s)
    else (my_list_iter_delete item s >>= λ s'. some (pos 0, s')) in
    if list == 0 then some (negsuc 0, s) else deleted

-- The loop of my_list_foreach, or backwards that of my_list_rforeach. The callback, with its user
-- data, may change the store.
unfoldable pub each_from : Bool → (ℕ → Store → Option (ℕ × Store)) → ℕ → ℕ → Store → Option Store
unfolding write_foreach my_list_iter_delete
each_from forward func zero item s = none
each_from forward func (suc fuel) item s =
    let turn = write_foreach s item 1 >>= λ s1. s1.iter item >>= λ i.
    func i.item_data s1 >>= λ (ret, s2). s2.iter item >>= λ j.
    let next = if forward then j.next else j.prev in
    (if j.foreach == 0 then my_list_iter_delete item s2 else write_foreach s2 item 0) >>= λ s3.
    let rest = each_from forward func fuel next s3 in if ret == 0 then rest else some s3 in
    if item == 0 then some s else turn

unfoldable pub my_list_foreach :
    ℕ → ℕ → Option (ℕ → Store → Option (ℕ × Store)) → Store → Option Store
unfolding each_from
my_list_foreach fuel list none s = some s
my_list_foreach fuel list (some func) s =
    let done = each_from true func fuel s.my_list.head s in if list == 0 then some s else done

unfoldable pub my_list_rforeach :
    ℕ → ℕ → Option (ℕ → Store → Option (ℕ × Store)) → Store → Option Store
unfolding each_from
my_list_rforeach fuel list none s = some s
my_list_rforeach fuel list (some func) s =
    let done = each_from false func fuel s.my_list.tail s in if list == 0 then some s else done

-- The loop of my_list_uninit from `current`, which is not NULL: what it frees, and the store.
unfoldable pub release_from : ℕ → ℕ → Store → Option (List ℕ × Store)
unfolding put
release_from zero current s = none
release_from (suc fuel) current s = s.iter current >>= λ i.
    let s' = record s { iter = put s.iter current none } in
    let rest = release_from fuel i.next s' >>= λ (freed, s''). some (current ∷ freed, s'') in
    if i.next == 0 then some (current ∷ [], s') else rest

-- my_list_uninit: the addresses freed, in order, the list object last.
unfoldable pub my_list_uninit : ℕ → ℕ → Store → Option (List ℕ × Store)
unfolding release_from
my_list_uninit fuel list s =
    let released = release_from fuel s.my_list.head s in
    let iters = if ltb 0 s.my_list.length then released else some ([], s) in
    let done = iters >>= λ (freed, s'). some (freed ++ list ∷ [], s') in
    if list == 0 then some ([], s) else done
