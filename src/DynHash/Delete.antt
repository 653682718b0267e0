-- ===== src/DynHash/Delete.antt =====
-- my_hash_delete and my_hash_update of my_dyn_hash.c.
use my_libs.Base.{
  ℕ, zero, suc, ◌+◌, ◌-◌, ◌/◌, Bool, true, false, ◌&&◌, Option, none, some, List, [], ◌∷◌, ltb,
  ◌==◌, if◌then◌else◌, ◌>>=◌, length, u32,
}
use my_libs.DynHash.{
  MyHashLink, no_record, MyHash, Charset, link_at, put_link, put_next, my_hash_key, my_hash_mask,
  my_hash_calc, rec_hashnr, my_hash_rec_mask, my_hash_first, my_hash_next, movelink, size_of,
}

-- The link with a record on a chain, with the one before it, or NULL.
pub data Found : Type 0 where
  missing : Found
  found : (before : Option ℕ) (pos : ℕ) (link : MyHashLink) → Found

unfoldable pub find_record : ℕ → List MyHashLink → ℕ → Option ℕ → ℕ → Option Found
unfolding link_at
find_record zero links item before pos = none
find_record (suc fuel) links item before pos = link_at links pos >>= λ l.
    let rest = find_record fuel links item (some pos) l.next in
    if l.item_data == item
    then some (found before pos l)
    else if l.next == no_record
    then some missing
    else rest

-- The free place after a record is taken off its chain, and the links.
unfoldable pub unlink_record :
    List MyHashLink → Option ℕ → ℕ → MyHashLink → Option (ℕ × List MyHashLink)
unfolding link_at put_link put_next
unlink_record links before pos l = elim before [
  | some gpos ↦ put_next links gpos l.next >>= λ links'. some (pos, links')
  | none ↦
      let copied = link_at links l.next >>= λ second.
      put_link links pos second >>= λ links'. some (l.next, links') in
      if l.next == no_record then some (pos, links) else copied
]

-- The last link, at index `records`, moves to the free place or makes room for the one there.
-- `blength` is that of before the removal.
unfoldable pub move_last : MyHash → ℕ → List MyHashLink → ℕ → Option (List MyHashLink)
unfolding link_at put_link put_next my_hash_mask rec_hashnr movelink
move_last hash blength links empty = link_at links hash.records >>= λ lastpos.
    let lastpos_hashnr = rec_hashnr hash lastpos.item_data in
    let pos = my_hash_mask lastpos_hashnr hash.blength hash.records in
    let elsewhere = link_at links pos >>= λ there.
    let pos_hashnr = rec_hashnr hash there.item_data in
    let pos3 = my_hash_mask pos_hashnr hash.blength hash.records in
    let replaced = put_link links empty there >>= λ links'.
    put_link links' pos lastpos >>= λ links''. movelink links'' pos pos3 empty in
    let pos2 = my_hash_mask lastpos_hashnr blength (hash.records + 1) in
    let same = pos2 == my_hash_mask pos_hashnr blength (hash.records + 1) in
    let linked =
      put_link links empty lastpos >>= λ links'. movelink links' hash.records pos empty in
    let idx = if same then pos else no_record in
    let merged = put_link links empty lastpos >>= λ links'. link_at links' pos >>= λ now.
    movelink links' idx empty now.next >>= λ links''. put_next links'' pos empty in
    if pos == pos3
    then (if same && (if pos2 == hash.records then false else true) then linked else merged)
    else replaced in
    if pos == empty then put_link links empty lastpos else elsewhere

-- The array without its last place.
unfoldable pub pop_link : List MyHashLink → List MyHashLink
pop_link [] = []
pop_link (l ∷ []) = []
pop_link (l ∷ m ∷ links) = l ∷ pop_link (m ∷ links)

-- my_hash_delete from the assignment to its own `blength` on, which has 32 bits.
unfoldable pub delete_record : MyHash → ℕ → ℕ → Option (ℕ × (List ℕ × MyHash))
unfolding my_hash_mask rec_hashnr find_record unlink_record move_last pop_link
delete_record hash item blength =
    let start = my_hash_mask (rec_hashnr hash item) blength hash.records in
    find_record (size_of hash) hash.array item none start >>= λ where_found. elim where_found [
      | missing ↦ some (1, ([], hash))
      | found before pos l ↦
          let records = hash.records - 1 in
          let half = hash.blength / 2 in
          let smaller : MyHash = record hash {
            records = records;
            blength = if ltb records half then half else hash.blength;
          } in
          unlink_record hash.array before pos l >>= λ (empty, links).
          (if empty == records then some links else move_last smaller blength links empty)
          >>= λ links'.
              let freed : List ℕ = if hash.has_free then item ∷ [] else [] in
              some (0, (freed, record smaller { array = pop_link links' }))
    ]

-- The result, the record that the callback gets, and the table.
unfoldable pub my_hash_delete : MyHash → ℕ → Option (ℕ × (List ℕ × MyHash))
unfolding delete_record u32
my_hash_delete hash item =
    if hash.records == 0 then some (1, ([], hash)) else delete_record hash item (u32 hash.blength)

-- Whether another record has the key; the loop over the records that have it.
unfoldable pub other_with_key : ℕ → Charset → MyHash → ℕ → ℕ → ℕ → ℕ → ℕ → Option Bool
unfolding my_hash_next
other_with_key zero charset hash item key length state found_item = none
other_with_key (suc fuel) charset hash item key length state found_item =
    let next = my_hash_next charset hash key length state >>= λ (state', found').
    other_with_key fuel charset hash item key length state' found' in
    if found_item == 0 then some false else if found_item == item then next else some true

-- The part of my_hash_update from the relinking on.
unfoldable pub relink : MyHash → ℕ → Option ℕ → ℕ → MyHashLink → Option (List MyHashLink)
unfolding link_at put_link put_next my_hash_rec_mask movelink unlink_record
relink hash new_index before idx org_link =
    unlink_record hash.array before idx org_link >>= λ (empty, links).
    let alone = (if empty == idx then some links else put_link links empty org_link) >>= λ links'.
    put_next links' empty no_record in
    let joined = link_at links new_index >>= λ pos.
    let new_pos_index = my_hash_rec_mask hash pos (u32 hash.blength) (u32 hash.records) in
    let replaced = put_link links empty pos >>= λ links'.
    movelink links' new_index new_pos_index empty >>= λ links''.
    put_link links'' new_index (record org_link { next = no_record }) in
    let chained = put_link links empty (record org_link { next = pos.next }) >>= λ links'.
    put_next links' new_index empty in
    if new_index == new_pos_index then chained else replaced in
    if new_index == empty then alone else joined

unfoldable pub my_hash_update : Charset → MyHash → ℕ → ℕ → ℕ → Option (ℕ × MyHash)
unfolding my_hash_key my_hash_mask my_hash_calc rec_hashnr my_hash_first other_with_key find_record
    relink
my_hash_update charset hash item old_key old_key_length =
    let blength = u32 hash.blength in
    let records = u32 hash.records in
    let idx = my_hash_mask (my_hash_calc hash old_key old_key_length) blength records in
    let new_index = my_hash_mask (rec_hashnr hash item) blength records in
    let relinked = find_record (size_of hash) hash.array item none idx >>= λ where_found.
    elim where_found [
      | missing ↦ some (1, hash)
      | found before pos l ↦
          relink hash new_index before pos l >>= λ links. some (0, record hash { array = links })
    ] in
    let updated = if idx == new_index then some (0, hash) else relinked in
    let (new_key, length) = my_hash_key hash item true in
    let checked = my_hash_first charset hash new_key length 0 >>= λ (state, found_item).
    other_with_key (suc (size_of hash)) charset hash item new_key length state found_item
    >>= λ other. if other then some (1, hash) else updated in
    if hash.is_unique then checked else updated
