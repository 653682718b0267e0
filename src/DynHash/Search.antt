-- ===== src/DynHash/Search.antt =====
-- The searches of my_dyn_hash.c: they end, and miss no record.
use my_libs.Base.{
  ℕ, zero, suc, ◌<◌, ◌≡◌, ◌⊎◌, inl, inr, refl, sym, ap, ◌∙◌, true, false, arith, ◌==◌,
  if◌then◌else◌, get_or, Option, some, Bool-cases, dec_lt, ℕ_discrete,
}
use mathlib.Core.Path.{transport}
use my_libs.DynHash.{
  MyHash, Charset, no_record, my_hash_mask, my_hash_rec_mask, hashcmp, next_from, first_from,
  my_hash_first_from_hash_value, my_hash_next, size_of,
}
use my_libs.DynHash.Walk.{
  rest, rest-lt, rest-next, Follows, here, later, Follows-home, follows-cases,
}
use my_libs.DynHash.Valid.{
  no_link, next_of, item_of, home, IsValid, records-lt, mask-lt, link_at_lem, follows-no_record,
}

-- The result of a search: a place that it may yield, whose record has the key, or none, when no place
-- that it must look at has such a record.
pub data Sought (charset : Charset) (hash : MyHash) (key length : ℕ) (may must : ℕ → Type 0)
    : ℕ × ℕ → Type 0 where
  hit :
      (i : ℕ)
      → i < hash.records
      → may i
      → hashcmp charset hash (get_or hash.array i no_link) key length ≡ false
      → Sought charset hash key length may must (i, item_of hash.array i)
  miss :
      ((i : ℕ)
        → i < hash.records
        → must i
        → hashcmp charset hash (get_or hash.array i no_link) key length ≡ true)
      → Sought charset hash key length may must (no_record, 0)

module _ {charset : Charset} {hash : MyHash} {key length : ℕ} where
  abbrev weaken :
      {may must may' must' : ℕ → Type 0} {r : ℕ × ℕ}
      → ((i : ℕ) → i < hash.records → may i → may' i)
      → ((i : ℕ) → i < hash.records → must' i → must i)
      → Sought charset hash key length may must r
      → Sought charset hash key length may' must' r
  weaken f g (hit i i_in m e) = hit i i_in (f i i_in m) e
  weaken f g (miss all) = miss (λ i i_in m. all i i_in (g i i_in m))

module _ (charset : Charset) (hash : MyHash) (v : IsValid hash) (key length : ℕ) where
  abbrev pub Along : ℕ → Option (ℕ × ℕ) → Type 0
  Along idx result =
      (r : ℕ × ℕ) × (result ≡ some r)
      × Sought charset hash key length (Follows (next_of hash.array) idx)
          (Follows (next_of hash.array) idx) r

  -- From NO_RECORD on.
  next_from_end :
      (fuel : ℕ) → next_from charset (suc fuel) hash key length no_record ≡ some (no_record, 0)
  unfolding next_from
  next_from_end fuel = refl

  next_from_turn :
      (fuel idx : ℕ)
      → idx < hash.records
      → next_from charset (suc fuel) hash key length idx ≡ (
          if hashcmp charset hash (get_or hash.array idx no_link) key length
          then next_from charset fuel hash key length (next_of hash.array idx)
          else some (idx, item_of hash.array idx))
  unfolding next_from
  next_from_turn fuel idx idx_in =
      ground (arith, link_at_lem hash.array idx (omega (arith, v.places)), records-lt v)

  nothing_follows : (i : ℕ) → Follows (next_of hash.array) no_record i → i < hash.records → ⊥
  nothing_follows i f i_in = omega (
    arith,
    follows-no_record hash.array i f (omega (arith, v.places, records-lt v)),
    records-lt v,
  )

  -- One more link, whose record differs.
  one_more :
      (idx : ℕ) {r : ℕ × ℕ}
      → hashcmp charset hash (get_or hash.array idx no_link) key length ≡ true
      → Sought charset hash key length
          (Follows (next_of hash.array) (next_of hash.array idx))
          (Follows (next_of hash.array) (next_of hash.array idx))
          r
      → Sought charset hash key length
          (Follows (next_of hash.array) idx)
          (Follows (next_of hash.array) idx)
          r
  one_more idx differs (hit i i_in f e) = hit i i_in (later idx i f) e
  one_more idx differs (miss all) = miss (λ i i_in f. elim (follows-cases idx i f) [
    | inl same ↦
        ap (λ k. hashcmp charset hash (get_or hash.array k no_link) key length) same ∙ differs
    | inr f' ↦ all i i_in f'
  ])

  nothing_from :
      (idx : ℕ)
      → idx ≡ no_record
      → Sought charset hash key length
          (Follows (next_of hash.array) idx)
          (Follows (next_of hash.array) idx)
          (no_record, 0)
  nothing_from idx last = miss (λ i i_in f.
      absurd
        (nothing_follows i (transport (ap (λ k. Follows (next_of hash.array) k i) last) f) i_in))

  next_from_fuel :
      (fuel idx : ℕ)
      → idx < hash.records
      → rest v.chains idx < fuel
      → Along idx (next_from charset (suc fuel) hash key length idx)
  next_from_fuel zero idx idx_in enough = absurd (omega arith)
  next_from_fuel (suc fuel) idx idx_in enough =
      elim (Bool-cases (hashcmp charset hash (get_or hash.array idx no_link) key length)) [
        | inr equal ↦ (
          (idx, item_of hash.array idx),
          ground (arith, next_from_turn (suc fuel) idx idx_in),
          hit idx idx_in (here idx) equal,
        )
        | inl differs ↦ elim (v.ends idx idx_in) [
          | inl more ↦
              let (r, e, sought) =
                next_from_fuel fuel (next_of hash.array idx) more
                  (omega (arith, rest-next v.chains idx idx_in (omega arith) more)) in
              (
                r,
                ground (arith, next_from_turn (suc fuel) idx idx_in, e),
                one_more idx differs sought,
              )
          | inr last ↦ (
            (no_record, 0),
            ground (arith, next_from_turn (suc fuel) idx idx_in, next_from_end fuel, last),
            one_more idx differs (nothing_from (next_of hash.array idx) last),
          )
        ]
      ]

  -- The loop of my_hash_next, from a place or from NO_RECORD on.
  next_from_lem :
      (idx : ℕ)
      → (idx < hash.records) ⊎ (idx ≡ no_record)
      → Along idx (next_from charset (suc (size_of hash)) hash key length idx)
  next_from_lem idx (inl idx_in) =
      next_from_fuel (size_of hash) idx idx_in
        (omega (arith, rest-lt v.chains idx idx_in, v.places))
  next_from_lem idx (inr last) =
      ((no_record, 0), ground (arith, next_from_end (size_of hash)), nothing_from idx last)

  abbrev pub FromHome : ℕ → Option (ℕ × ℕ) → Type 0
  FromHome start result =
      (r : ℕ × ℕ) × (result ≡ some r)
      × Sought charset hash key length (λ i. (home hash i ≡ start) ⊎ (i ≡ start))
          (λ i. home hash i ≡ start) r

  first_from_turn :
      (idx : ℕ)
      → idx < hash.records
      → first_from charset hash key length idx ≡ (
          if hashcmp charset hash (get_or hash.array idx no_link) key length
          then (if home hash idx == idx
              then next_from charset (suc (size_of hash)) hash key length (next_of hash.array idx)
              else some (no_record, 0))
          else some (idx, item_of hash.array idx))
  unfolding first_from my_hash_rec_mask
  first_from_turn idx idx_in = ground (arith, link_at_lem hash.array idx (omega (arith, v.places)))

  -- On a chain, the home does not change.
  follows-home :
      (i j : ℕ)
      → Follows (next_of hash.array) i j
      → i < hash.records
      → j < hash.records
      → home hash j ≡ home hash i
  follows-home _ _ (here i) i_in j_in = refl
  follows-home _ _ (later i j f) i_in j_in = elim (v.ends i i_in) [
    | inl more ↦
        follows-home (next_of hash.array i) j f more j_in
        ∙ (v.chains.step i i_in (omega arith) more).1
    | inr last ↦
        absurd
          (nothing_follows j (transport (ap (λ k. Follows (next_of hash.array) k j) last) f) j_in)
  ]

  -- The chain of a home, without its start.
  from_next :
      (start : ℕ) {r : ℕ × ℕ}
      → start < hash.records
      → home hash start ≡ start
      → Sought charset hash key length
          (Follows (next_of hash.array) start)
          (Follows (next_of hash.array) start)
          r
      → Sought charset hash key length
          (λ i. (home hash i ≡ start) ⊎ (i ≡ start))
          (λ i. home hash i ≡ start)
          r
  from_next start start_in own =
      weaken (λ i i_in f. inl (follows-home start i f start_in i_in ∙ own))
        (λ i i_in same.
          transport (ap (λ k. Follows (next_of hash.array) k i) same)
            (Follows-home v.chains i i_in (omega arith)))

  first_from_lem :
      (start : ℕ) → start < hash.records → FromHome start (first_from charset hash key length start)
  first_from_lem start start_in =
      elim (Bool-cases (hashcmp charset hash (get_or hash.array start no_link) key length)) [
        | inr equal ↦ (
          (start, item_of hash.array start),
          ground (arith, first_from_turn start start_in),
          hit start start_in (inr refl) equal,
        )
        | inl differs ↦ elim (ℕ_discrete (home hash start) start) [
          | yes own ↦
              let (r, e, sought) =
                next_from_lem (next_of hash.array start) (v.ends start start_in) in
              (
                r,
                ground (arith, first_from_turn start start_in, e),
                from_next start start_in own (one_more start differs sought),
              )
          | no other ↦ (
            (no_record, 0),
            ground (arith, first_from_turn start start_in),
            miss (λ i i_in same. absurd (
                other
                  (sym (ap (home hash) same) ∙ (v.chains.place i i_in (omega arith)).2 ∙ same))),
          )
        ]
      ]

  -- my_hash_first_from_hash_value ends. A place that it yields has the key and lies on the chain of the
  -- hash value, or at its home; if it yields none, no record of the chain has the key.
  pub my_hash_first_from_hash_value_lem :
      (hash_value : ℕ)
      → FromHome
          (my_hash_mask hash_value hash.blength hash.records)
          (my_hash_first_from_hash_value charset hash hash_value key length)
  unfolding my_hash_first_from_hash_value
  my_hash_first_from_hash_value_lem hash_value = elim (dec_lt 0 hash.records) [
    | no empty ↦ ((no_record, 0), ground arith, miss (λ i i_in m. absurd (omega arith)))
    | yes some_records ↦
        let start = my_hash_mask hash_value hash.blength hash.records in
        let (r, e, sought) = first_from_lem start (mask-lt v hash_value some_records) in
        (r, ground (arith, e), sought)
  ]

  -- my_hash_next ends. From a place of the table, it yields one further on its chain that has the key;
  -- if it yields none, no record further on the chain has it.
  pub my_hash_next_lem :
      (current_record : ℕ)
      → current_record < hash.records
      → Along
          (next_of hash.array current_record)
          (my_hash_next charset hash key length current_record)
  unfolding my_hash_next
  my_hash_next_lem current_record h =
      let (r, e, sought) =
        next_from_lem (next_of hash.array current_record) (v.ends current_record h) in
      (
        r,
        ground (
          arith,
          link_at_lem hash.array current_record (omega (arith, v.places)),
          e,
          records-lt v,
        ),
        sought,
      )
