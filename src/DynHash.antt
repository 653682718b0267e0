-- ===== src/DynHash.antt =====
-- src/my_dyn_hash.c, include/my_dyn_hash.h: the hash table that grows by one place with each record.
-- The array of links is the list of its elements, as the array module reads it, and a pointer into
-- it is an index; a record and a key are addresses. `none` is a fault: an access outside the array
-- or through NULL, or a chain that comes back to a link, so that its loop does not end.
pub mod Insert
pub mod Delete
pub mod Mask
pub mod Chains
pub mod Update
pub mod Rejoin
pub mod Relink
pub mod Check
pub mod Remove
pub mod Find
pub mod DropLast
pub mod MergeLast
pub mod MoveLast
pub mod Tally
pub mod Linked
pub mod Place
pub mod Movelink
pub mod Lookup
pub mod Search
pub mod Valid
pub mod Walk
pub mod Shrink
pub mod Tests
use Prim.Native.Nat.{bit_and}
use my_libs.Base.{
  ℕ, zero, suc, ◌+◌, ◌-◌, ◌/◌, ◌%◌, ◌^◌, ◌≡◌, Bool, true, false, ◌&&◌, ◌||◌, Option, none, some,
  List, [], ◌∷◌, ltb, ◌==◌, if◌then◌else◌, ◌>>=◌, length, get_elem?, set,
}
use my_libs.Base.Int.{ℤ, is_neg, is_pos}

-- `my_hash_link`: `next` is an index or NO_RECORD, and `item_data` the record.
pub record MyHashLink : Type 0 where
  pub next : ℕ
  pub item_data : ℕ

abbrev pub no_record : ℕ
no_record = 2 ^ 32 - 1

-- `my_hash_get_key` takes a record and `first`, and yields the key and its length; `my_hash_function`
-- takes a key and a length. `is_unique` is the only flag, and `has_free` says whether there is a
-- callback for freed records.
pub record MyHash : Type 0 where
  pub key_offset : ℕ
  pub key_length : ℕ
  pub blength : ℕ
  pub records : ℕ
  pub is_unique : Bool
  pub array : List MyHashLink
  pub get_key : Option (ℕ → Bool → ℕ × ℕ)
  pub has_free : Bool
  pub hash_function : ℕ → ℕ → ℕ

-- What the character set provides: the hash of a key, and the comparison of two keys.
pub record Charset : Type 0 where
  pub hash_sort : ℕ → ℕ → ℕ
  pub strnncoll : ℕ → ℕ → ℕ → ℕ → ℤ

unfoldable pub link_at : List MyHashLink → ℕ → Option MyHashLink
link_at links i = get_elem? links i

-- `data[i] = l`
unfoldable pub put_link : List MyHashLink → ℕ → MyHashLink → Option (List MyHashLink)
put_link links i l = if ltb i (length links) then some (set links i l) else none

unfoldable pub put_next : List MyHashLink → ℕ → ℕ → Option (List MyHashLink)
unfolding link_at put_link
put_next links i next = link_at links i >>= λ l. put_link links i (record l { next = next })

unfoldable pub hash_calc : MyHash → ℕ → ℕ → ℕ
hash_calc hash key length = hash.hash_function key length % 2 ^ 32

pub cset_hash_sort_adapter : Charset → ℕ → ℕ → ℕ
cset_hash_sort_adapter charset key length = charset.hash_sort key length % 2 ^ 32

-- `failed` is the result of my_array_init.
pub my_hash_init :
    Charset
    → Bool
    → Option (ℕ → ℕ → ℕ)
    → ℕ
    → ℕ
    → Option (ℕ → Bool → ℕ × ℕ)
    → Bool
    → Bool
    → Bool × MyHash
unfolding cset_hash_sort_adapter
my_hash_init charset failed hash_function key_offset key_length get_key has_free is_unique = (
  failed,
  record {
    key_offset = key_offset;
    key_length = key_length;
    blength = 1;
    records = 0;
    is_unique = is_unique;
    array = [];
    get_key = get_key;
    has_free = has_free;
    hash_function = elim hash_function [ none ↦ cset_hash_sort_adapter charset | some f ↦ f ];
  },
)

-- The records that the callback gets, and the table.
pub freed_from : List MyHashLink → ℕ → ℕ → Option (List ℕ)
unfolding link_at
freed_from links i zero = some []
freed_from links i (suc n) =
    link_at links i >>= λ l. freed_from links (suc i) n >>= λ rest. some (l.item_data ∷ rest)

pub my_hash_free_elements : MyHash → Option (List ℕ × MyHash)
unfolding freed_from
my_hash_free_elements hash =
    let freed = if hash.has_free then freed_from hash.array 0 hash.records else some [] in
    freed >>= λ rs. some (rs, record hash { records = 0 })

pub my_hash_free : MyHash → Option (List ℕ × MyHash)
unfolding my_hash_free_elements
my_hash_free hash = my_hash_free_elements hash >>= λ r.
    some (r.0, record r.1 { has_free = false; array = []; blength = 0 })

pub my_hash_reset : MyHash → Option (List ℕ × MyHash)
unfolding my_hash_free_elements
my_hash_reset hash =
    my_hash_free_elements hash >>= λ r. some (r.0, record r.1 { array = []; blength = 1 })

-- The key of a record, and its length.
unfoldable pub my_hash_key : MyHash → ℕ → Bool → ℕ × ℕ
my_hash_key hash item first = elim hash.get_key [
  | some get ↦ get item first
  | none ↦ (item + hash.key_offset, hash.key_length)
]

-- `hashnr` has 32 bits, so the result has.
unfoldable pub my_hash_mask : ℕ → ℕ → ℕ → ℕ
my_hash_mask hashnr buffmax maxlength =
    let low = bit_and hashnr ((buffmax + (2 ^ 64 - 1)) % 2 ^ 64) in
    if ltb low maxlength then low else bit_and hashnr ((buffmax / 2 + (2 ^ 64 - 1)) % 2 ^ 64)

unfoldable pub rec_hashnr : MyHash → ℕ → ℕ
unfolding my_hash_key hash_calc
rec_hashnr hash item = let (key, length) = my_hash_key hash item false in hash_calc hash key length

unfoldable pub my_hash_rec_mask : MyHash → MyHashLink → ℕ → ℕ → ℕ
unfolding my_hash_mask rec_hashnr
my_hash_rec_mask hash pos buffmax maxlength =
    my_hash_mask (rec_hashnr hash pos.item_data) buffmax maxlength

-- `length ? length : hash->key_length`
unfoldable pub length_or : MyHash → ℕ → ℕ
length_or hash length = if length == 0 then hash.key_length else length

unfoldable pub my_hash_calc : MyHash → ℕ → ℕ → ℕ
unfolding hash_calc length_or
my_hash_calc hash key length = hash_calc hash key (length_or hash length)

-- The fuel of a loop through a chain.
abbrev pub size_of : MyHash → ℕ
size_of hash = length hash.array

module _ (charset : Charset) where
  -- Whether the key of a record differs from a key.
  unfoldable pub hashcmp : MyHash → MyHashLink → ℕ → ℕ → Bool
  unfolding my_hash_key
  hashcmp hash pos key length =
      let (rec_key, key_length) = my_hash_key hash pos.item_data true in
      let cmp = charset.strnncoll rec_key key_length key key_length in
      (if length == 0 then false else if length == key_length then false else true)
      || (is_neg cmp || is_pos cmp)

  -- The loop of my_hash_next; the index found, or NO_RECORD, and the record, or NULL.
  unfoldable pub next_from : ℕ → MyHash → ℕ → ℕ → ℕ → Option (ℕ × ℕ)
  unfolding hashcmp link_at
  next_from zero hash key length idx = none
  next_from (suc fuel) hash key length idx =
      let here = link_at hash.array idx >>= λ pos.
      let rest = next_from fuel hash key length pos.next in
      if hashcmp hash pos key length then rest else some (idx, pos.item_data) in
      if idx == no_record then some (no_record, 0) else here

  -- The loop of my_hash_first_from_hash_value: after its first round it is that of my_hash_next.
  unfoldable pub first_from : MyHash → ℕ → ℕ → ℕ → Option (ℕ × ℕ)
  unfolding hashcmp link_at my_hash_rec_mask next_from
  first_from hash key length idx = link_at hash.array idx >>= λ pos.
      let rest = next_from (suc (size_of hash)) hash key length pos.next in
      let right = my_hash_rec_mask hash pos hash.blength hash.records == idx in
      if hashcmp hash pos key length
      then (if right then rest else some (no_record, 0))
      else some (idx, pos.item_data)

  -- The index of the record found, or NO_RECORD, and the record, or NULL.
  unfoldable pub my_hash_first_from_hash_value : MyHash → ℕ → ℕ → ℕ → Option (ℕ × ℕ)
  unfolding first_from my_hash_mask
  my_hash_first_from_hash_value hash hash_value key length =
      let found = first_from hash key length (my_hash_mask hash_value hash.blength hash.records) in
      if hash.records == 0 then some (no_record, 0) else found

  -- Without places, `*current_record` is as it was.
  unfoldable pub my_hash_first : MyHash → ℕ → ℕ → ℕ → Option (ℕ × ℕ)
  unfolding my_hash_first_from_hash_value my_hash_calc
  my_hash_first hash key length current_record =
      if hash.blength == 0
      then some (current_record, 0)
      else my_hash_first_from_hash_value hash (my_hash_calc hash key length) key length

  unfoldable pub my_hash_search : MyHash → ℕ → ℕ → Option ℕ
  unfolding my_hash_first
  my_hash_search hash key length = my_hash_first hash key length 0 >>= λ r. some r.1

  unfoldable pub my_hash_search_using_hash_value : MyHash → ℕ → ℕ → ℕ → Option ℕ
  unfolding my_hash_first_from_hash_value
  my_hash_search_using_hash_value hash hash_value key length =
      my_hash_first_from_hash_value hash hash_value key length >>= λ r. some r.1

  unfoldable pub my_hash_next : MyHash → ℕ → ℕ → ℕ → Option (ℕ × ℕ)
  unfolding next_from link_at
  my_hash_next hash key length current_record =
      let found = link_at hash.array current_record >>= λ l.
      next_from (suc (size_of hash)) hash key length l.next in
      if current_record == no_record then some (no_record, 0) else found

-- `if ((next_link = old_link->next) == find)` ends the loop.
unfoldable pub movelink_from : ℕ → List MyHashLink → ℕ → ℕ → ℕ → Option (List MyHashLink)
unfolding link_at put_next
movelink_from zero links find next_link newlink = none
movelink_from (suc fuel) links find next_link newlink = link_at links next_link >>= λ old_link.
    let rest = movelink_from fuel links find old_link.next newlink in
    if old_link.next == find then put_next links next_link newlink else rest

unfoldable pub movelink : List MyHashLink → ℕ → ℕ → ℕ → Option (List MyHashLink)
unfolding movelink_from
movelink links find next_link newlink = movelink_from (length links) links find next_link newlink

-- The record at an index, or NULL.
pub my_hash_element : MyHash → ℕ → Option ℕ
unfolding link_at
my_hash_element hash idx =
    if ltb idx hash.records then (link_at hash.array idx >>= λ l. some l.item_data) else some 0

pub my_hash_replace : MyHash → ℕ → ℕ → Option MyHash
unfolding link_at put_link
my_hash_replace hash current_record new_row =
    let replaced = link_at hash.array current_record >>= λ l.
    put_link hash.array current_record (record l { item_data = new_row }) >>= λ links.
    some (record hash { array = links }) in
    if current_record == no_record then some hash else replaced
