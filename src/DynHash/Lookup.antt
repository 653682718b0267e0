-- ===== src/DynHash/Lookup.antt =====
-- my_hash_search of my_dyn_hash.c, as the lookup of a key among all records.
use my_libs.Base.{ℕ, ◌<◌, ◌≡◌, ◌⊎◌, inl, inr, ap, true, false, arith, get_or, some, Bool-cases}
use my_libs.DynHash.{
  MyHashLink, MyHash, Charset, my_hash_mask, my_hash_calc, rec_hashnr, hashcmp, my_hash_first,
  my_hash_search,
}
use my_libs.DynHash.Valid.{no_link, item_of, home, IsValid}
use my_libs.DynHash.Search.{Sought, hit, miss, my_hash_first_from_hash_value_lem}

-- A record with the key, or NULL, when no record has it.
pub data LookedUp (charset : Charset) (hash : MyHash) (key length : ℕ) : ℕ → Type 0 where
  present :
      (i : ℕ)
      → i < hash.records
      → hashcmp charset hash (get_or hash.array i no_link) key length ≡ false
      → LookedUp charset hash key length (item_of hash.array i)
  absent :
      ((i : ℕ)
        → i < hash.records
        → hashcmp charset hash (get_or hash.array i no_link) key length ≡ true)
      → LookedUp charset hash key length 0

module _ (charset : Charset) (hash : MyHash) (v : IsValid hash) (key length : ℕ)
    (agrees : (l : MyHashLink)
      → hashcmp charset hash l key length ≡ false
      → rec_hashnr hash l.item_data ≡ my_hash_calc hash key length) where
  looked_up :
      {r : ℕ × ℕ}
      → let start = my_hash_mask (my_hash_calc hash key length) hash.blength hash.records in
        Sought charset hash key length
          (λ i. (home hash i ≡ start) ⊎ (i ≡ start))
          (λ i. home hash i ≡ start)
          r
        → LookedUp charset hash key length r.1
  looked_up (hit i i_in m e) = present i i_in e
  looked_up (miss all) = absent (λ i i_in.
      elim (Bool-cases (hashcmp charset hash (get_or hash.array i no_link) key length)) [
        | inl differs ↦ differs
        | inr equal ↦ all i i_in (
            ap (λ h. my_hash_mask h hash.blength hash.records)
              (agrees (get_or hash.array i no_link) equal))
      ])

  -- my_hash_search on a valid table returns, if each record with the key has its hash value: a record of
  -- the table that has the key, or NULL, when none has it.
  pub my_hash_search_lem :
      (x : ℕ) × (my_hash_search charset hash key length ≡ some x)
      × LookedUp charset hash key length x
  unfolding my_hash_search my_hash_first
  my_hash_search_lem =
      let (r, e, sought) =
        my_hash_first_from_hash_value_lem charset hash v key length
          (my_hash_calc hash key length) in
      (r.1, ground (arith, e, v.room), looked_up sought)
