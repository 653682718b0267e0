-- ===== src/DynHash/Remove.antt =====
-- my_hash_delete keeps the table well-formed, and takes the record out once.
use my_libs.Base.{
  ℕ, suc, ◌+◌, ◌-◌, ◌/◌, ◌^◌, ◌≤◌, ◌<◌, ◌≡◌, ◌≢◌, refl, sym, ap, ◌∙◌, arith, ltb, ◌==◌,
  if◌then◌else◌, ℕ_discrete, dec_lt, length, List, [], ◌∷◌, some, none, Option, ◌>>=◌, u32_lem,
  get_or,
}
use mathlib.Core.Path.{transport}
use my_libs.DynHash.{
  MyHashLink, MyHash, no_record, my_hash_mask, rec_hashnr, my_hash_key, hash_calc,
}
use my_libs.DynHash.Walk.{Follows, Follows-home}
use my_libs.DynHash.Mask.{less, mask_less, halved}
use my_libs.DynHash.Linked.{Linked}
use my_libs.DynHash.Tally.{tally, unit}
use my_libs.DynHash.MoveLast.{Moved}
use my_libs.DynHash.DropLast.{move_last_lem, Linked-pop_link}
use my_libs.DynHash.Find.{
  IsFound, is_missing, is_found, IsBefore, find_record_lem, unlink_record_lem, unlinked_records,
}
use my_libs.DynHash.Valid.{no_link, next_of, item_of, IsValid, mask-lt, records-lt}
use my_libs.DynHash.Delete.{
  Found, missing, found, find_record, unlink_record, move_last, pop_link, delete_record,
  my_hash_delete,
}

-- How many places hold a record.
unfoldable pub occurrences : MyHash → ℕ → ℕ
occurrences hash x = tally hash.records hash.records (item_of hash.array) x

pub linked :
    {hash : MyHash}
    → IsValid hash
    → Linked
        (λ x. my_hash_mask (rec_hashnr hash x) hash.blength hash.records)
        hash.records
        hash.records
        hash.array
linked v = record { places = v.places; ends = λ i i_in u. v.ends i i_in; chains = v.chains }

-- What my_hash_delete comes to: 0 and the table without the record, or 1 and the table as it was.
pub data Deleted (hash : MyHash) (item : ℕ) : Option (ℕ × (List ℕ × MyHash)) → Type 0 where
  deleted :
      (hash' : MyHash)
      → IsValid hash'
      → hash'.records + 1 ≡ hash.records
      → ((x : ℕ) → occurrences hash' x + unit item x ≡ occurrences hash x)
      → Deleted hash item (some (0, ((if hash.has_free then item ∷ [] else []), hash')))
  not_there :
      ((i : ℕ) → i < hash.records → item_of hash.array i ≢ item)
      → Deleted hash item (some (1, ([], hash)))

module _ (hash : MyHash) (item : ℕ) (v : IsValid hash) (some_records : 0 < hash.records) where
  abbrev n : ℕ
  n = hash.records - 1

  abbrev smaller : MyHash
  smaller = record hash { records = n; blength = less hash.blength n }

  abbrev old : ℕ → ℕ
  old x = my_hash_mask (rec_hashnr hash x) hash.blength (n + 1)

  abbrev home : ℕ → ℕ
  home x = my_hash_mask (rec_hashnr hash x) smaller.blength n

  abbrev now : ℕ → ℕ
  now x = my_hash_mask (rec_hashnr hash x) hash.blength hash.records

  count : hash.records ≡ suc n
  count = omega arith

  nr_out : suc n ≤ no_record
  nr_out = omega (arith, records-lt v)

  -- The homes after the removal.
  homes : 0 < n → (h : ℕ) × (h < n) × ((x : ℕ) → home x ≡ (if old x == n then h else old x))
  homes some_left =
      let (h, h_in, same) =
        mask_less v.bits hash.blength n v.power (omega (arith, v.narrow)) some_left
          (omega (arith, v.half)) (omega (arith, v.room)) in
      (h, h_in, λ x. same (rec_hashnr hash x))

  -- The links without the last one.
  abbrev dropped : ℕ → List MyHashLink → Option (List MyHashLink)
  dropped empty links =
      if empty == n then some links else move_last smaller hash.blength links empty

  record Dropped (empty : ℕ) (links : List MyHashLink) : Type 0 where
    rest : List MyHashLink
    dropped_is : dropped empty links ≡ some rest
    popped : Linked home n n (pop_link rest)
    popped_records :
        (x : ℕ) → tally n n (item_of (pop_link rest)) x ≡ tally (suc n) empty (item_of links) x

  old-now : (x : ℕ) → old x ≡ now x
  old-now x = ap (my_hash_mask (rec_hashnr hash x) hash.blength) (omega arith)

  homes_kept : (x : ℕ) → old x ≢ n → home x ≡ old x
  homes_kept x other = elim (dec_lt 0 n) [
    | yes some_left ↦ let (h, h_in, home_is) = homes some_left in ground (arith, home_is x)
    | no single ↦ absurd (omega (arith, old-now x, mask-lt v (rec_hashnr hash x) some_records))
  ]

  dropped_lem :
      (empty : ℕ) (links : List MyHashLink)
      → empty < suc n
      → Linked old (suc n) empty links
      → Dropped empty links
  unfolding rec_hashnr my_hash_key hash_calc
  dropped_lem empty links empty_in t = elim (ℕ_discrete empty n) [
    | yes same ↦
        let (popped, records) =
          Linked-pop_link {home = home} (transport (ap (λ k. Linked old (suc n) k links) same) t)
            homes_kept in
        record {
          rest = links;
          dropped_is = ground arith;
          popped = popped;
          popped_records = λ x. records x ∙ ap (λ k. tally (suc n) k (item_of links) x) (sym same);
        }
    | no other ↦
        let (h, h_in, home_is) = homes (omega arith) in
        let m : Moved home n empty (item_of links) (move_last smaller hash.blength links empty) =
          move_last_lem smaller hash.blength links empty t (omega arith) h_in home_is nr_out in
        let (popped, records) = Linked-pop_link m.linked (λ x u. refl) in
        record {
          rest = m.links;
          dropped_is = ground (arith, m.result_is);
          popped = popped;
          popped_records = λ x. records x ∙ m.same_records x;
        }
  ]

  -- What my_hash_delete does once the record is found.
  abbrev after_found : Option ℕ → ℕ → MyHashLink → Option (ℕ × (List ℕ × MyHash))
  after_found before pos l = unlink_record hash.array before pos l >>= λ (empty, links).
      dropped empty links >>= λ links'.
      some
        (0, ((if hash.has_free then item ∷ [] else []), record smaller { array = pop_link links' }))

  deleting :
      (r : Found)
      → find_record (length hash.array) hash.array item none (now item) ≡ some r
      → delete_record hash item hash.blength
        ≡ elim r [ missing ↦ some (1, ([], hash)) | found before pos l ↦ after_found before pos l ]
  unfolding delete_record
  deleting r e = ground (arith, e)

  delete_turn :
      (r : Found)
      → hash.blength < 2 ^ 32
      → find_record (length hash.array) hash.array item none (now item) ≡ some r
      → my_hash_delete hash item
        ≡ elim r [ missing ↦ some (1, ([], hash)) | found before pos l ↦ after_found before pos l ]
  unfolding my_hash_delete
  delete_turn r small e =
      ground (arith, ap (delete_record hash item) (u32_lem hash.blength small), deleting r e)

  removed_valid :
      (links : List MyHashLink) → Linked home n n links → IsValid (record smaller { array = links })
  unfolding rec_hashnr my_hash_key hash_calc
  removed_valid links t = record {
    bits = if ltb n (hash.blength / 2) then v.bits - 1 else v.bits;
    power = elim (dec_lt n (hash.blength / 2)) [
      | yes below ↦
          ground
            (arith, halved v.bits hash.blength v.power (omega (arith, v.room)), ap (λ k. 2 ^ k))
      | no above ↦ ground (arith, v.power)
    ];
    narrow = ground (arith, v.narrow);
    half = ground (arith, v.half);
    room = ground (arith, v.room);
    places = t.places;
    ends = λ i i_in. t.ends i i_in (omega arith);
    chains = t.chains;
  }

  as_old :
      {e : ℕ} {links : List MyHashLink}
      → Linked now hash.records e links
      → Linked old (suc n) e links
  as_old {e} {links} t =
      let masked : ℕ → ℕ → ℕ = λ k x. my_hash_mask (rec_hashnr hash x) hash.blength k in
      let more : suc n ≡ n + 1 = omega arith in
      transport (ap (λ k. Linked (masked k) (suc n) e links) more)
        (transport (ap (λ k. Linked (masked k) k e links) count) t)

  -- The record at `pos` is taken out.
  delete_found :
      (before : Option ℕ) (pos : ℕ)
      → pos < hash.records
      → item_of hash.array pos ≡ item
      → IsBefore hash.array hash.records (now item) before pos
      → Deleted hash item (after_found before pos (get_or hash.array pos no_link))
  unfolding occurrences
  delete_found before pos pos_in this b =
      let m =
        unlink_record_lem (linked v) (omega (arith, records-lt v)) (now item) before pos pos_in
          (ap now this) b in
      let t : Linked old (suc n) m.free m.links = as_old m.linked in
      let d = dropped_lem m.free m.links (omega (arith, m.free_in)) t in
      let hash' : MyHash = record smaller { array = pop_link d.rest } in
      let e : after_found before pos (get_or hash.array pos no_link)
          ≡ some (0, ((if hash.has_free then item ∷ [] else []), hash')) =
        ground (arith, m.result_is, d.dropped_is) in
      transport (ap (Deleted hash item) (sym e)) (
        deleted hash' (removed_valid (pop_link d.rest) d.popped) (omega arith) (λ x. omega (
          arith,
          d.popped_records x,
          ap (λ k. tally k m.free (item_of m.links) x) count,
          unlinked_records m pos_in x,
          ap (λ i. unit i x) this,
        )))

  delete_at :
      (r : Found)
      → IsFound hash.array hash.records item (now item) r
      → Deleted hash item (elim r [
        | missing ↦ some (1, ([], hash))
        | found before pos l ↦ after_found before pos l
      ])
  delete_at _ (is_missing none_there) = not_there (λ i i_in same.
      let f = Follows-home v.chains i i_in (omega arith) in
      none_there i i_in (transport (ap (λ x. Follows (next_of hash.array) (now x) i) same) f) same)
  delete_at _ (is_found before pos pos_in this b) = delete_found before pos pos_in this b

delete_none :
    (hash : MyHash) (item : ℕ) → hash.records ≡ 0 → my_hash_delete hash item ≡ some (1, ([], hash))
unfolding my_hash_delete
delete_none hash item empty = ground arith

-- my_hash_delete on a valid table whose blength is below 2^32 returns. It takes a record of the table
-- out once and leaves the others, it keeps the table well-formed, and it frees the record if there is
-- a callback. A record that the table does not hold is refused.
pub my_hash_delete-IsValid :
    (hash : MyHash) (item : ℕ)
    → IsValid hash
    → hash.blength < 2 ^ 32
    → Deleted hash item (my_hash_delete hash item)
my_hash_delete-IsValid hash item v small = elim (dec_lt 0 hash.records) [
  | no empty ↦
      transport (ap (Deleted hash item) (sym (delete_none hash item (omega arith))))
        (not_there (λ i i_in. absurd (omega arith)))
  | yes some_records ↦
      let start = my_hash_mask (rec_hashnr hash item) hash.blength hash.records in
      let (r, e, f) =
        find_record_lem (linked v) (omega (arith, records-lt v)) item start
          (mask-lt v (rec_hashnr hash item) some_records) in
      transport (ap (Deleted hash item) (sym (delete_turn hash item v some_records r small e)))
        (delete_at hash item v some_records r f)
]
