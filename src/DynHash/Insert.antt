-- ===== src/DynHash/Insert.antt =====
-- my_hash_insert of my_dyn_hash.c.
use my_libs.Base.{
  ℕ, zero, suc, ◌+◌, ◌-◌, ◌/◌, ◌%◌, ◌^◌, Bool, true, false, ◌&&◌, ◌||◌, Option, none, some, List,
  [], ◌∷◌, ◌++◌, ◌==◌, if◌then◌else◌, ◌>>=◌, length,
}
use Prim.Native.Nat.{bit_and}
use my_libs.DynHash.{
  MyHashLink, no_record, MyHash, Charset, link_at, put_link, my_hash_key, my_hash_mask, rec_hashnr,
  my_hash_rec_mask, my_hash_search, movelink, size_of,
}

-- The variables of the loop. The bits of `flag` are the four Booleans; a pointer that is not set is
-- `none`.
pub record Splitting : Type 0 where
  pub links : List MyHashLink
  pub low_find : Bool
  pub low_used : Bool
  pub high_find : Bool
  pub high_used : Bool
  pub gpos : Option ℕ
  pub gpos2 : Option ℕ
  pub ptr_to_rec : ℕ
  pub ptr_to_rec2 : ℕ
  pub empty : ℕ

-- `gpos->data = ptr; gpos->next = next`
unfoldable pub put_at : List MyHashLink → Option ℕ → ℕ → ℕ → Option (List MyHashLink)
unfolding put_link
put_at links gpos ptr next =
    gpos >>= λ i. put_link links i (record { next = next; item_data = ptr })

-- A key that will not move.
unfoldable pub low_key : Splitting → ℕ → ℕ → Option Splitting
unfolding put_at
low_key s pos item =
    let first : Splitting = elim s.high_find [
      | true ↦ record s {
        low_find = true;
        low_used = false;
        high_find = true;
        high_used = false;
        gpos = some s.empty;
        ptr_to_rec = item;
        empty = pos;
      }
      | false ↦ record s {
        low_find = true;
        low_used = true;
        high_find = false;
        high_used = false;
        gpos = some pos;
        ptr_to_rec = item;
      }
    ] in
    let link : Option Splitting = put_at s.links s.gpos s.ptr_to_rec pos >>= λ links.
    some (record s {
      links = links;
      low_find = true;
      low_used = true;
      high_used = false;
      gpos = some pos;
      ptr_to_rec = item;
    }) in
    let stays : Option Splitting = some (record s { gpos = some pos; ptr_to_rec = item }) in
    if s.low_find then (if s.low_used then stays else link) else some first

-- A key that will be moved.
unfoldable pub high_key : Splitting → ℕ → ℕ → Option Splitting
unfolding put_at
high_key s pos item =
    let first : Splitting = record s {
      low_used = false;
      high_find = true;
      high_used = false;
      gpos2 = some s.empty;
      empty = pos;
      ptr_to_rec2 = item;
    } in
    let link : Option Splitting = put_at s.links s.gpos2 s.ptr_to_rec2 pos >>= λ links.
    some (record s {
      links = links;
      low_used = false;
      high_find = true;
      high_used = true;
      gpos2 = some pos;
      ptr_to_rec2 = item;
    }) in
    let stays : Option Splitting = some (record s { gpos2 = some pos; ptr_to_rec2 = item }) in
    if s.high_find then (if s.high_used then stays else link) else some first

-- The loop from the link at `idx` on.
unfoldable pub split_from : ℕ → MyHash → ℕ → ℕ → ℕ → Splitting → Option Splitting
unfolding link_at rec_hashnr my_hash_mask low_key high_key
split_from zero info halfbuff first_index idx s = none
split_from (suc fuel) info halfbuff first_index idx s = link_at s.links idx >>= λ pos.
    let hash_nr = rec_hashnr info pos.item_data in
    let first_loop = if s.low_find || s.high_find then false else true in
    let wrong =
      if my_hash_mask hash_nr info.blength info.records == first_index then false else true in
    let turn =
      (if bit_and hash_nr halfbuff == 0
        then low_key s idx pos.item_data
        else high_key s idx pos.item_data)
      >>= λ s'. link_at s'.links idx >>= λ now.
          let rest = split_from fuel info halfbuff first_index now.next s' in
          if now.next == no_record then some s' else rest in
    if first_loop && wrong then some s else turn

-- What follows the loop: the ends of the two chains.
unfoldable pub split_ends : Splitting → Option Splitting
unfolding put_at
split_ends s =
    (if s.low_find && (if s.low_used then false else true)
      then put_at s.links s.gpos s.ptr_to_rec no_record
      else some s.links)
    >>= λ links.
        (if s.high_find && (if s.high_used then false else true)
          then put_at links s.gpos2 s.ptr_to_rec2 no_record
          else some links)
        >>= λ links'. some (record s { links = links' })

-- The first half of my_hash_insert: the chain that the new place splits; `empty` is the free place.
unfoldable pub split_chain : MyHash → List MyHashLink → ℕ → Option (ℕ × List MyHashLink)
unfolding split_from split_ends
split_chain info links empty =
    let halfbuff = info.blength / 2 in
    let first_index = (info.records + (2 ^ 64 - halfbuff)) % 2 ^ 64 in
    let s : Splitting = record {
      links = links;
      low_find = false;
      low_used = false;
      high_find = false;
      high_used = false;
      gpos = none;
      gpos2 = none;
      ptr_to_rec = 0;
      ptr_to_rec2 = 0;
      empty = empty;
    } in
    let done = split_from (suc (length links)) info halfbuff first_index first_index s >>= λ s'.
    split_ends s' >>= λ s''. some (s''.empty, s''.links) in
    if first_index == info.records then some (empty, links) else done

-- The second half: the new record is put into its chain.
unfoldable pub place_record : MyHash → List MyHashLink → ℕ → ℕ → Option (List MyHashLink)
unfolding link_at put_link rec_hashnr my_hash_mask my_hash_rec_mask movelink
place_record info links empty item =
    let idx = my_hash_mask (rec_hashnr info item) info.blength (info.records + 1) in
    let alone : MyHashLink = record { next = no_record; item_data = item } in
    let moved = link_at links idx >>= λ pos. put_link links empty pos >>= λ links'.
    let gpos = my_hash_rec_mask info pos info.blength (info.records + 1) in
    let other = put_link links' idx alone >>= λ links''. movelink links'' idx gpos empty in
    if idx == gpos
    then put_link links' idx (record { next = empty; item_data = item })
    else other in
    if idx == empty then put_link links idx alone else moved

-- `memory` is what is left in the new place of the array, or no storage. The result is 1 for a
-- duplicate of a unique key, or without storage.
unfoldable pub my_hash_insert : Charset → MyHash → Option MyHashLink → ℕ → Option (ℕ × MyHash)
unfolding my_hash_key my_hash_search split_chain place_record
my_hash_insert charset info memory item =
    let added : Option (ℕ × MyHash) = elim memory [
      | none ↦ some (1, info)
      | some left ↦
          let empty = size_of info in
          split_chain info (info.array ++ left ∷ []) empty >>= λ (empty', links).
          place_record info links empty' item >>= λ links'.
          let records = (info.records + 1) % 2 ^ 64 in
          let blength =
            if records == info.blength
            then (info.blength + info.blength) % 2 ^ 64
            else info.blength in
          some (0, record info { array = links'; records = records; blength = blength })
    ] in
    let (key, length) = my_hash_key info item true in
    let checked : Option (ℕ × MyHash) = my_hash_search charset info key length >>= λ found.
    if found == 0 then added else some (1, info) in
    if info.is_unique then checked else added
