-- ===== src/DynHash/Find.antt =====
-- my_hash_delete and my_hash_update: a record is found on a chain, and taken off it.
use my_libs.Base.{
  ℕ, zero, suc, ◌+◌, ◌≤◌, ◌<◌, ◌≡◌, ◌≢◌, ◌⊎◌, inl, inr, refl, ap, ◌∙◌, arith, ◌==◌, if◌then◌else◌,
  ℕ_discrete, length, List, some, none, Option, ◌>>=◌, set, get_or, length-set,
}
use mathlib.Core.Path.{transport}
use my_libs.DynHash.{MyHashLink, no_record}
use my_libs.DynHash.Chains.{upd, unlinked, emptied}
use my_libs.DynHash.Walk.{rest, rest-lt, rest-next, Follows, follows-cases}
use my_libs.DynHash.Linked.{Linked, item_of-set, next_of-set, gathered}
use my_libs.DynHash.Tally.{tally, unit, tally_ext, tally_move, tally_hole}
use my_libs.DynHash.Valid.{
  no_link, next_of, item_of, link_at_lem, put_link_lem, put_next_lem, follows-no_record,
}
use my_libs.DynHash.Delete.{Found, missing, found, find_record, unlink_record}

-- The place before, if the record is not at the start.
pub data IsBefore (links : List MyHashLink) (n start : ℕ) : Option ℕ → ℕ → Type 0 where
  first : IsBefore links n start none start
  behind : (g : ℕ) → g < n → next_of links g < n → IsBefore links n start (some g) (next_of links g)

pub data IsFound (links : List MyHashLink) (n item start : ℕ) : Found → Type 0 where
  is_missing :
      ((i : ℕ) → i < n → Follows (next_of links) start i → item_of links i ≢ item)
      → IsFound links n item start missing
  is_found :
      (before : Option ℕ) (pos : ℕ)
      → pos < n
      → item_of links pos ≡ item
      → IsBefore links n start before pos
      → IsFound links n item start (found before pos (get_or links pos no_link))

module _ {home : ℕ → ℕ} {n : ℕ} {links : List MyHashLink} (t : Linked home n n links)
    (nr_out : n ≤ no_record) (item start : ℕ) where
  find_turn :
      (fuel : ℕ) (before : Option ℕ) (pos : ℕ)
      → pos < n
      → find_record (suc fuel) links item before pos ≡ (
          if item_of links pos == item
          then some (found before pos (get_or links pos no_link))
          else if next_of links pos == no_record
          then some missing
          else find_record fuel links item (some pos) (next_of links pos))
  unfolding find_record
  find_turn fuel before pos pos_in = ground (arith, link_at_lem links pos (omega (arith, t.places)))

  abbrev Looks : Option Found → Type 0
  Looks result = (r : Found) × (result ≡ some r) × IsFound links n item start r

  -- `seen`: the record is at no place from the start to `pos`, exclusive.
  find_from_lem :
      (fuel : ℕ) (before : Option ℕ) (pos : ℕ)
      → rest t.chains pos < fuel
      → pos < n
      → IsBefore links n start before pos
      → ((i : ℕ)
          → i < n
          → Follows (next_of links) start i
          → (item_of links i ≢ item) ⊎ Follows (next_of links) pos i)
      → Looks (find_record fuel links item before pos)
  find_from_lem zero before pos enough pos_in b seen = absurd (omega arith)
  find_from_lem (suc fuel) before pos enough pos_in b seen =
      let turn = find_turn fuel before pos pos_in in
      elim (ℕ_discrete (item_of links pos) item) [
        | yes this ↦ (
          found before pos (get_or links pos no_link),
          ground (arith, turn),
          is_found before pos pos_in this b,
        )
        | no other ↦ elim (t.ends pos pos_in (omega arith)) [
          | inr last ↦ (
            missing,
            ground (arith, turn),
            is_missing (λ i i_in f. elim (seen i i_in f) [
              | inl differs ↦ differs
              | inr f' ↦ elim (follows-cases pos i f') [
                | inl same ↦ omega (arith, ap (item_of links) same)
                | inr f'' ↦ absurd (
                    omega (
                      arith,
                      follows-no_record links i
                          (transport (ap (λ k. Follows (next_of links) k i) last) f'')
                          (omega (arith, t.places)),
                    ))
              ]
            ]),
          )
          | inl more ↦
              let (r, e, ok) : Looks (find_record fuel links item (some pos) (next_of links pos)) =
                find_from_lem fuel (some pos) (next_of links pos)
                  (omega (arith, rest-next t.chains pos pos_in (omega arith) more)) more
                  (behind pos pos_in more)
                  (λ i i_in f. elim (seen i i_in f) [
                    | inl differs ↦ inl differs
                    | inr f' ↦ elim (follows-cases pos i f') [
                      | inl same ↦ inl (omega (arith, ap (item_of links) same))
                      | inr f'' ↦ inr f''
                    ]
                  ]) in
              (r, ground (arith, turn, e), ok)
        ]
      ]

  -- From the start of a chain, a record of it is found.
  pub find_record_lem : start < n → Looks (find_record (length links) links item none start)
  find_record_lem start_in =
      find_from_lem (length links) none start
        (omega (arith, rest-lt t.chains start start_in, t.places)) start_in first
        (λ i i_in f. inr f)

-- The links after the record at `pos` has left its chain.
pub record Unlinked (home : ℕ → ℕ) (n : ℕ) (items : ℕ → ℕ) (pos : ℕ)
    (result : Option (ℕ × List MyHashLink)) : Type 0 where
  pub free : ℕ
  pub links : List MyHashLink
  pub result_is : result ≡ some (free, links)
  pub free_in : free < n
  pub linked : Linked home n free links
  pub items_are : (i : ℕ) → i < n → i ≢ free → item_of links i ≡ upd items pos (items free) i
  pub left : free ≡ pos → item_of links pos ≡ items pos

module _ {home : ℕ → ℕ} {n : ℕ} {links : List MyHashLink} (t : Linked home n n links)
    (nr_out : n ≤ no_record) where
  unlink_behind :
      (g : ℕ)
      → g < n
      → next_of links g < n
      → Unlinked home n
          (item_of links)
          (next_of links g)
          (unlink_record links (some g) (next_of links g) (get_or links (next_of links g) no_link))
  unfolding unlink_record
  unlink_behind g g_in more =
      let pos = next_of links g in
      let lg : MyHashLink = record { next = next_of links pos; item_data = item_of links g } in
      let fits : g < length links = omega (arith, t.places) in
      let nexts = next_of-set links g lg fits in
      let items = item_of-set links g lg fits in
      record {
        free = pos;
        links = set links g lg;
        result_is =
            ap (λ r. r >>= λ links'. some (pos, links'))
              (put_next_lem links g (next_of links pos) fits);
        free_in = more;
        linked =
            gathered (length-set links g lg ∙ t.places)
              (unlinked n (λ i. home (item_of links i)) (next_of links) g t.chains g_in more)
              (λ i i_in u. ap home (items i ∙ ground (arith, ap (item_of links))))
              (λ i i_in u. nexts i) (λ i i_in u. ground (arith, t.ends i, t.ends pos));
        items_are = λ i i_in u. ground (arith, items i, ap (item_of links));
        left = λ same. ground (arith, items pos, ap (item_of links));
      }

  unlink_first :
      (pos : ℕ)
      → pos < n
      → home (item_of links pos) ≡ pos
      → Unlinked home n
          (item_of links)
          pos
          (unlink_record links none pos (get_or links pos no_link))
  unfolding unlink_record
  unlink_first pos pos_in own =
      let fits : pos < length links = omega (arith, t.places) in
      elim (t.ends pos pos_in (omega arith)) [
        | inr last ↦ record {
          free = pos;
          links = links;
          result_is = ground arith;
          free_in = pos_in;
          linked = record {
            places = t.places;
            ends = λ i i_in u. t.ends i i_in (omega arith);
            chains =
                emptied n (λ i. home (item_of links i)) (next_of links) pos t.chains pos_in own
                  (omega arith);
          };
          items_are = λ i i_in u. ground arith;
          left = λ same. refl;
        }
        | inl more ↦
            let second = get_or links (next_of links pos) no_link in
            let nexts = next_of-set links pos second fits in
            let items = item_of-set links pos second fits in
            let s = t.chains.step pos pos_in (omega arith) more in
            record {
              free = next_of links pos;
              links = set links pos second;
              result_is = ground (
                arith,
                link_at_lem links (next_of links pos) (omega (arith, t.places)),
                put_link_lem links pos second fits,
              );
              free_in = more;
              linked =
                  gathered (length-set links pos second ∙ t.places)
                    (unlinked n (λ i. home (item_of links i)) (next_of links) pos t.chains pos_in
                      more)
                    (λ i i_in u. ground (arith, ap home (items i), s)) (λ i i_in u. nexts i)
                    (λ i i_in u. ground (arith, t.ends i, t.ends (next_of links pos)));
              items_are = λ i i_in u. items i;
              left = λ same. absurd (ground (arith, s, ap t.chains.depth same));
            }
      ]

  -- A record of the chain of a home leaves it.
  pub unlink_record_lem :
      (start : ℕ) (before : Option ℕ) (pos : ℕ)
      → pos < n
      → home (item_of links pos) ≡ start
      → IsBefore links n start before pos
      → Unlinked home n
          (item_of links)
          pos
          (unlink_record links before pos (get_or links pos no_link))
  unlink_record_lem start _ _ pos_in own first = unlink_first start pos_in own
  unlink_record_lem _ _ _ pos_in own (behind g g_in more) = unlink_behind g g_in more

-- The record has been taken out once.
pub unlinked_records :
    {home : ℕ → ℕ} {n : ℕ} {items : ℕ → ℕ} {pos : ℕ} {result : Option (ℕ × List MyHashLink)}
    → (m : Unlinked home n items pos result) → pos < n
    → (x : ℕ) → tally n m.free (item_of m.links) x + unit (items pos) x ≡ tally n n items x
unlinked_records {home} {n} {items} {pos} m pos_in x =
    let moved : tally n m.free (upd items pos (items m.free)) x ≡ tally n pos items x =
      elim (ℕ_discrete m.free pos) [
        | yes same ↦
            tally_ext n m.free (upd items pos (items m.free)) items x (λ i i_in u. ground arith)
            ∙ ap (λ k. tally n k items x) same
        | no other ↦ tally_move n m.free pos items x m.free_in pos_in other
      ] in
    omega (
      arith,
      tally_hole n n pos items x pos_in (omega arith),
      tally_ext n m.free (item_of m.links) (upd items pos (items m.free)) x m.items_are,
      moved,
    )
