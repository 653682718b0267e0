-- ===== src/DynHash/Valid.antt =====
-- When a table is well-formed: between half of `blength` and `blength` records, each on the chain of
-- its home, which starts at its home.
use my_libs.Base.{
  ℕ, zero, suc, ◌/◌, ◌^◌, ◌≤◌, ◌<◌, ◌≡◌, ◌⊎◌, refl, ap, arith, length, get_or, some, List, ◌∷◌, [],
  set, get_elem?-eq-get_or,
}
use my_libs.DynHash.{
  MyHashLink, MyHash, no_record, link_at, put_link, put_next, my_hash_mask, rec_hashnr,
}
use my_libs.DynHash.Chains.{Chains}
use native.Mathlib.Nat.{pow-le-pow_right}
use my_libs.DynHash.Walk.{Follows, follows_end}
use my_libs.DynHash.Mask.{my_hash_mask-lt}

abbrev pub no_link : MyHashLink
no_link = record { next = no_record; item_data = 0 }

abbrev pub next_of : List MyHashLink → ℕ → ℕ
next_of links i = (get_or links i no_link).next

abbrev pub item_of : List MyHashLink → ℕ → ℕ
item_of links i = (get_or links i no_link).item_data

-- The home of the record at a place, by the mask of a table.
abbrev pub home_of : MyHash → ℕ → ℕ → List MyHashLink → ℕ → ℕ
home_of hash blength records links i =
    my_hash_mask (rec_hashnr hash (item_of links i)) blength records

abbrev pub home : MyHash → ℕ → ℕ
home hash i = home_of hash hash.blength hash.records hash.array i

pub record IsValid (hash : MyHash) : Type 0 where
  pub bits : ℕ
  pub power : hash.blength ≡ 2 ^ bits
  pub narrow : bits ≤ 32
  pub half : hash.blength / 2 ≤ hash.records
  pub room : hash.records < hash.blength
  pub places : length hash.array ≡ hash.records
  pub ends :
      (i : ℕ)
      → i < hash.records
      → (next_of hash.array i < hash.records) ⊎ (next_of hash.array i ≡ no_record)
  pub chains : Chains hash.records hash.records (home hash) (next_of hash.array)

module _ {hash : MyHash} (v : IsValid hash) where
  pub blength-le : hash.blength ≤ 2 ^ 32
  blength-le = omega (arith, v.power, pow-le-pow_right {n = 2} (omega arith) {j = 32} v.narrow)

  pub records-lt : hash.records < 2 ^ 32
  records-lt = omega (arith, blength-le, v.room)

  pub mask-lt :
      (hashnr : ℕ) → 0 < hash.records → my_hash_mask hashnr hash.blength hash.records < hash.records
  mask-lt hashnr some_records =
      my_hash_mask-lt hashnr hash.blength hash.records some_records (omega (arith, v.room))
        (omega (arith, blength-le)) v.half

-- Access inside the array.
pub link_at_lem :
    (links : List MyHashLink) (i : ℕ)
    → i < length links
    → link_at links i ≡ some (get_or links i no_link)
unfolding link_at
link_at_lem links i h = get_elem?-eq-get_or links i no_link h

pub put_link_lem :
    (links : List MyHashLink) (i : ℕ) (l : MyHashLink)
    → i < length links
    → put_link links i l ≡ some (set links i l)
unfolding put_link
put_link_lem links i l h = ground (arith, h)

pub put_next_lem :
    (links : List MyHashLink) (i next : ℕ)
    → i < length links
    → put_next links i next
      ≡ some (set links i (record { next = next; item_data = item_of links i }))
unfolding put_next
put_next_lem links i next h = ground (
  arith,
  link_at_lem links i h,
  put_link_lem links i (record { next = next; item_data = item_of links i }) h,
)

get_or-out {ℓ} : {A : Type ℓ} (xs : List A) (i : ℕ) (d : A) → length xs ≤ i → get_or xs i d ≡ d
get_or-out [] i d h = refl
get_or-out (x ∷ xs) zero d h = absurd (omega arith)
get_or-out (x ∷ xs) (suc i) d h = get_or-out xs i d (omega arith)

-- After NO_RECORD nothing follows.
pub follows-no_record :
    (links : List MyHashLink) (i : ℕ)
    → Follows (next_of links) no_record i
    → length links ≤ no_record
    → i ≡ no_record
follows-no_record links i f fits =
    follows_end no_record i f (ap (λ l. l.next) (get_or-out links no_record no_link fits))
