-- ===== src/DynHash/Update.antt =====
-- my_hash_update moves a record whose key has changed to its new chain.
use my_libs.Base.{
  u32_lem, ℕ, ◌/◌, ◌^◌, ◌≤◌, ◌<◌, ◌≡◌, ◌≢◌, refl, sym, ap, ◌∙◌, false, arith, ℕ_discrete, length,
  List, some, none, Option, get_or,
}
use my_libs.DynHash.{
  MyHashLink, MyHash, Charset, no_record, my_hash_mask, my_hash_calc, rec_hashnr, my_hash_key,
  hash_calc,
}
use native.Mathlib.Nat.{pow-le-pow_right}
use mathlib.Core.Path.{transport}
use my_libs.DynHash.Shrink.{chains_ext}
use my_libs.DynHash.Mask.{my_hash_mask-lt}
use my_libs.DynHash.Walk.{Follows, Follows-home}
use my_libs.DynHash.Linked.{Linked}
use my_libs.DynHash.Find.{
  IsFound, is_missing, is_found, IsBefore, find_record_lem, unlink_record_lem, unlinked_records,
}
use my_libs.DynHash.Valid.{no_link, next_of, item_of, IsValid}
use my_libs.DynHash.Remove.{occurrences}
use my_libs.DynHash.Rejoin.{relink_lem}
use my_libs.DynHash.Delete.{Found, found, find_record, relink, my_hash_update}

-- A table in which the key of one record has changed: it holds the record once, on the chain of the old
-- key, and the others on their own.
pub record Changed (hash : MyHash) (item old : ℕ) : Type 0 where
  pub home_before : ℕ → ℕ
  pub old_home : home_before item ≡ old
  pub other_homes :
      (x : ℕ)
      → x ≢ item
      → home_before x ≡ my_hash_mask (rec_hashnr hash x) hash.blength hash.records
  pub at : ℕ
  pub at_in : at < hash.records
  pub at_is : item_of hash.array at ≡ item
  pub once : (i : ℕ) → i < hash.records → item_of hash.array i ≡ item → i ≡ at
  pub linked : Linked home_before hash.records hash.records hash.array
  pub bits : ℕ
  pub power : hash.blength ≡ 2 ^ bits
  pub narrow : bits < 32
  pub half : hash.blength / 2 ≤ hash.records
  pub room : hash.records < hash.blength

-- The record is on the right chain, and the table holds what it held.
pub record Updated (hash : MyHash) (result : Option (ℕ × MyHash)) : Type 0 where
  pub hash' : MyHash
  pub result_is : result ≡ some (0, hash')
  pub valid : IsValid hash'
  pub records : (x : ℕ) → occurrences hash' x ≡ occurrences hash x

module _ (charset : Charset) (hash : MyHash) (item old_key old_key_length : ℕ) where
  abbrev old_home : ℕ
  old_home = my_hash_mask (my_hash_calc hash old_key old_key_length) hash.blength hash.records

  abbrev new_home : ℕ
  new_home = my_hash_mask (rec_hashnr hash item) hash.blength hash.records

  update_same :
      hash.blength < 2 ^ 32
      → hash.records < 2 ^ 32
      → hash.is_unique ≡ false
      → old_home ≡ new_home
      → my_hash_update charset hash item old_key old_key_length ≡ some (0, hash)
  unfolding my_hash_update
  update_same small few shared same =
      rw (u32_lem hash.blength small, u32_lem hash.records few) (ground (arith, shared))

  update_found :
      (before : Option ℕ) (pos : ℕ) (l : MyHashLink) (links : List MyHashLink)
      → hash.blength < 2 ^ 32
      → hash.records < 2 ^ 32
      → hash.is_unique ≡ false
      → old_home ≢ new_home
      → find_record (length hash.array) hash.array item none old_home ≡ some (found before pos l)
      → relink hash new_home before pos l ≡ some links
      → my_hash_update charset hash item old_key old_key_length
        ≡ some (0, record hash { array = links })
  unfolding my_hash_update
  update_found before pos l links small few shared other finds relinks =
      ground (arith, u32_lem hash.blength small, u32_lem hash.records few, shared, finds, relinks)

  module _ (shared : hash.is_unique ≡ false) (c : Changed hash item old_home) where
    abbrev n : ℕ
    n = hash.records

    abbrev new : ℕ → ℕ
    new x = my_hash_mask (rec_hashnr hash x) hash.blength n

    blength-lt : hash.blength < 2 ^ 32
    blength-lt = omega (
      arith,
      c.power,
      pow-le-pow_right {n = 2} (omega arith) {i = c.bits} {j = 31} (omega (arith, c.narrow)),
    )

    records-lt : n < 2 ^ 32
    records-lt = omega (arith, c.room, blength-lt)

    nr_out : n ≤ no_record
    nr_out = omega (arith, c.room, blength-lt)

    updated_valid :
        (links : List MyHashLink) → Linked new n n links → IsValid (record hash { array = links })
    unfolding rec_hashnr my_hash_key hash_calc
    updated_valid links t = record {
      bits = c.bits;
      power = c.power;
      narrow = omega (arith, c.narrow);
      half = c.half;
      room = c.room;
      places = t.places;
      ends = λ i i_in. t.ends i i_in (omega arith);
      chains = t.chains;
    }

    at_home : c.home_before (item_of hash.array c.at) ≡ old_home
    at_home = ap c.home_before c.at_is ∙ c.old_home

    start_in : old_home < n
    start_in = ground (arith, at_home, c.linked.chains.place c.at c.at_in)

    new_in : new_home < n
    new_in =
        my_hash_mask-lt (rec_hashnr hash item) hash.blength n (omega (arith, c.at_in))
          (omega (arith, c.room)) (omega (arith, blength-lt)) c.half

    -- The record leaves its old chain and joins the new one.
    update_moves :
        (before : Option ℕ) (pos : ℕ)
        → old_home ≢ new_home
        → pos < n
        → item_of hash.array pos ≡ item
        → IsBefore hash.array n old_home before pos
        → find_record (length hash.array) hash.array item none old_home
          ≡ some (found before pos (get_or hash.array pos no_link))
        → Updated hash (my_hash_update charset hash item old_key old_key_length)
    unfolding occurrences
    update_moves before pos other pos_in this b finds =
        let org = get_or hash.array pos no_link in
        let m =
          unlink_record_lem c.linked nr_out old_home before pos pos_in
            (ap c.home_before this ∙ c.old_home) b in
        let gone : (i : ℕ) → i < n → i ≢ m.free → item_of m.links i ≢ item = λ i i_in u same.
          absurd (
            ground (
              arith,
              m.items_are i i_in u,
              same,
              c.once i i_in,
              c.once m.free m.free_in,
              c.once pos pos_in this,
            )) in
        let t : Linked new n m.free m.links = record {
          places = m.linked.places;
          ends = m.linked.ends;
          chains =
              chains_ext m.linked.chains
                (λ i i_in u. sym (c.other_homes (item_of m.links i) (gone i i_in u)))
                (λ i i_in u. refl);
        } in
        let j =
          relink_lem hash new_home before pos org m.free m.links blength-lt records-lt m.result_is t
            m.free_in nr_out (ap new this) new_in m.left in
        record {
          hash' = record hash { array = j.links };
          result_is =
              update_found before pos org j.links blength-lt records-lt shared other finds
                j.result_is;
          valid = updated_valid j.links j.linked;
          records = λ x. j.records x ∙ unlinked_records m pos_in x;
        }

    update_at :
        (r : Found)
        → old_home ≢ new_home
        → IsFound hash.array n item old_home r
        → find_record (length hash.array) hash.array item none old_home ≡ some r
        → Updated hash (my_hash_update charset hash item old_key old_key_length)
    update_at _ other (is_missing none_there) finds =
        let f = Follows-home c.linked.chains c.at c.at_in (omega (arith, c.at_in)) in
        absurd (
          none_there c.at c.at_in
            (transport (ap (λ k. Follows (next_of hash.array) k c.at) at_home) f) c.at_is)
    update_at _ other (is_found before pos pos_in this b) finds =
        update_moves before pos other pos_in this b finds

    -- The key has kept its home.
    unmoved : old_home ≡ new_home → IsValid hash
    unmoved same = record {
      bits = c.bits;
      power = c.power;
      narrow = omega (arith, c.narrow);
      half = c.half;
      room = c.room;
      places = c.linked.places;
      ends = λ i i_in. c.linked.ends i i_in (omega arith);
      chains =
          chains_ext c.linked.chains
            (λ i i_in u. elim (ℕ_discrete (item_of hash.array i) item) [
              | yes this ↦ ap new this ∙ sym same ∙ sym c.old_home ∙ ap c.home_before (sym this)
              | no other ↦ sym (c.other_homes (item_of hash.array i) other)
            ])
            (λ i i_in u. refl);
    }

    -- my_hash_update on a table without the flag for unique keys, with a blength below 2^32, in which
    -- only the key of the record has changed, returns 0 and a valid table with the same records.
    pub my_hash_update_lem : Updated hash (my_hash_update charset hash item old_key old_key_length)
    my_hash_update_lem = elim (ℕ_discrete old_home new_home) [
      | yes same ↦ record {
        hash' = hash;
        result_is = update_same blength-lt records-lt shared same;
        valid = unmoved same;
        records = λ x. refl;
      }
      | no other ↦
          let (r, e, f) = find_record_lem c.linked nr_out item old_home start_in in
          update_at r other f e
    ]
