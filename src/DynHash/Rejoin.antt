-- ===== src/DynHash/Rejoin.antt =====
-- relink of my_hash_update in its cases, after the record has left its old chain.
use my_libs.Base.{
  u32_lem, ◌^◌, ℕ, ◌≤◌, ◌<◌, ◌≡◌, ◌≢◌, refl, ap, ◌∙◌, arith, ◌==◌, if◌then◌else◌, ℕ_discrete,
  length, List, some, Option, ◌>>=◌, set, get_or, length-set, get_or-set,
}
use my_libs.DynHash.{
  MyHashLink, MyHash, no_record, put_link, put_next, movelink, my_hash_mask, my_hash_rec_mask,
  rec_hashnr,
}
use my_libs.DynHash.Linked.{Linked, item_of-set}
use my_libs.DynHash.Relink.{Joined, join_alone, join_chained, join_replaced}
use my_libs.DynHash.Valid.{no_link, item_of, link_at_lem, put_link_lem}
use my_libs.DynHash.Delete.{unlink_record, relink}

module _ (hash : MyHash) (new_index : ℕ) (before : Option ℕ) (pos : ℕ) (org : MyHashLink) (free : ℕ)
    (links : List MyHashLink) (small : hash.blength < 2 ^ 32) (few : hash.records < 2 ^ 32)
    (unlinks : unlink_record hash.array before pos org ≡ some (free, links)) where
  abbrev home : ℕ → ℕ
  home x = my_hash_mask (rec_hashnr hash x) hash.blength hash.records

  abbrev there : MyHashLink
  there = get_or links new_index no_link

  relink_alone :
      new_index ≡ free
      → relink hash new_index before pos org ≡ (
          (if free == pos then some links else put_link links free org) >>= λ links'.
          put_next links' free no_record)
  unfolding relink
  relink_alone same = ground (arith, unlinks)

  relink_joined :
      new_index ≢ free
      → new_index < length links
      → relink hash new_index before pos org ≡ (
          if new_index == home there.item_data
          then (put_link links free (record org { next = there.next }) >>= λ links'.
              put_next links' new_index free)
          else (put_link links free there >>= λ links'.
              movelink links' new_index (home there.item_data) free >>= λ links''.
              put_link links'' new_index (record org { next = no_record })))
  unfolding relink my_hash_rec_mask
  relink_joined other fits =
      rw (u32_lem hash.blength small, u32_lem hash.records few)
        (ground (arith, unlinks, link_at_lem links new_index fits))

  abbrev turned :
      {n : ℕ} {r : Option (List MyHashLink)}
      → Joined home n free (item_of links) org.item_data r
      → relink hash new_index before pos org ≡ r
      → Joined home n free (item_of links) org.item_data (relink hash new_index before pos org)
  turned j same = record {
    links = j.links;
    result_is = same ∙ j.result_is;
    linked = j.linked;
    records = j.records;
  }

  -- relink after the record has left its old chain.
  pub relink_lem :
      {n : ℕ}
      → Linked home n free links
      → free < n
      → n ≤ no_record
      → home org.item_data ≡ new_index
      → new_index < n
      → (free ≡ pos → item_of links pos ≡ org.item_data)
      → Joined home n free (item_of links) org.item_data (relink hash new_index before pos org)
  relink_lem {n} t free_in nr_out own new_in left =
      let f_fits : free < length links = omega (arith, t.places) in
      elim (ℕ_discrete new_index free) [
        | yes same ↦ elim (ℕ_discrete free pos) [
          | yes at ↦
              let j =
                join_alone t free_in nr_out org.item_data links (own ∙ same) t.places
                  (λ i i_in u. refl) (ap (item_of links) at ∙ left at) in
              turned j (ground (arith, relink_alone same))
          | no apart ↦
              let others = set links free org in
              let j =
                join_alone t free_in nr_out org.item_data others (own ∙ same)
                  (length-set links free org ∙ t.places)
                  (λ i i_in u. get_or-set links free i org no_link f_fits ∙ ground arith)
                  (item_of-set links free org f_fits free ∙ ground arith) in
              turned j (ground (arith, relink_alone same, put_link_lem links free org f_fits))
        ]
        | no other ↦ elim (ℕ_discrete (home there.item_data) new_index) [
          | yes chained ↦
              let j =
                join_chained t free_in nr_out org.item_data new_index new_in other chained own in
              turned j (
                ground (
                  arith,
                  relink_joined other (omega (arith, t.places)),
                  put_link_lem links free (record org { next = there.next }) f_fits,
                ))
          | no away ↦
              let j =
                join_replaced t free_in nr_out org.item_data new_index new_in other away own in
              turned j (
                ground (
                  arith,
                  relink_joined other (omega (arith, t.places)),
                  put_link_lem links free there f_fits,
                ))
        ]
      ]
