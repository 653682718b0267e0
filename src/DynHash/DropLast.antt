-- ===== src/DynHash/DropLast.antt =====
-- move_last of my_hash_delete, in all its cases, and the array without its last place.
use my_libs.Base.{
  ℕ, zero, suc, ◌+◌, ◌-◌, ◌≤◌, ◌<◌, ◌≡◌, ◌≢◌, refl, sym, ap, ◌∙◌, Bool, true, false, arith, ◌==◌,
  if◌then◌else◌, ◌&&◌, ℕ_discrete, length, List, [], ◌∷◌, Option, ◌>>=◌, set, get_or, length-set,
}
use my_libs.DynHash.{
  MyHashLink, MyHash, no_record, put_link, put_next, movelink, my_hash_mask, rec_hashnr,
}
use my_libs.DynHash.Shrink.{shrunk, chains_ext}
use my_libs.DynHash.Linked.{Linked}
use my_libs.DynHash.Tally.{tally, tally_ext, tally_last}
use my_libs.DynHash.MoveLast.{Moved, move_home, move_linked}
use my_libs.DynHash.MergeLast.{merge_rotated, merge_appended, move_replaced}
use my_libs.DynHash.Valid.{no_link, next_of, item_of, link_at_lem, put_link_lem}
use my_libs.DynHash.Delete.{move_last, pop_link}

module _ (hash : MyHash) (blength : ℕ) (links : List MyHashLink) (e : ℕ) where
  abbrev n : ℕ
  n = hash.records

  abbrev old : ℕ → ℕ
  old x = my_hash_mask (rec_hashnr hash x) blength (hash.records + 1)

  abbrev home : ℕ → ℕ
  home x = my_hash_mask (rec_hashnr hash x) hash.blength hash.records

  abbrev last_item : ℕ
  last_item = item_of links n

  abbrev place : ℕ
  place = home last_item

  abbrev one : List MyHashLink
  one = set links e (get_or links n no_link)

  abbrev there : MyHashLink
  there = get_or links place no_link

  abbrev together : Bool
  together = old last_item == old there.item_data

  -- move_last inside the array.
  move_last_home :
      n < length links
      → e < length links
      → place ≡ e
      → move_last hash blength links e ≡ put_link links e (get_or links n no_link)
  unfolding move_last
  move_last_home n_in e_in own = ground (arith, link_at_lem links n n_in)

  move_last_other :
      n < length links
      → e < length links
      → place < length links
      → place ≢ e
      → move_last hash blength links e ≡ (
          if place == home there.item_data
          then (if together && (if old last_item == n then false else true)
              then movelink one n place e
              else (movelink one (if together then place else no_record) e (next_of one place)
                  >>= λ two. put_next two place e))
          else movelink
              (set (set links e there) place (get_or links n no_link))
              place
              (home there.item_data)
              e)
  unfolding move_last
  move_last_other n_in e_in place_in apart = ground (
    arith,
    link_at_lem links n n_in,
    link_at_lem links place place_in,
    put_link_lem links e (get_or links n no_link) e_in,
    put_link_lem links e there e_in,
    put_link_lem (set links e there) place (get_or links n no_link)
        (omega (arith, length-set links e there)),
    link_at_lem one place (omega (arith, length-set links e (get_or links n no_link))),
  )

  module _ {h : ℕ} (t : Linked old (suc n) e links) (e_in : e < n) (h_in : h < n)
      (home_is : (x : ℕ) → home x ≡ (if old x == n then h else old x))
      (nr_out : suc n ≤ no_record) where
    n_fits : n < length links
    n_fits = omega (arith, t.places)

    e_fits : e < length links
    e_fits = omega (arith, t.places)

    place_in : place < n
    place_in = ground (arith, home_is last_item, t.chains.place n)

    place_fits : place < length links
    place_fits = omega (arith, t.places, place_in)

    abbrev turned :
        {r : Option (List MyHashLink)}
        → Moved home n e (item_of links) r
        → move_last hash blength links e ≡ r
        → Moved home n e (item_of links) (move_last hash blength links e)
    turned m same = record {
      links = m.links;
      result_is = same ∙ m.result_is;
      linked = m.linked;
      same_records = m.same_records;
    }

    -- The record at the home of the last one is at its home too.
    move_last_own :
        place ≢ e
        → place ≡ home there.item_data
        → Moved home n e (item_of links) (move_last hash blength links e)
    move_last_own apart own =
        let turn = move_last_other n_fits e_fits place_fits apart in
        let place_used = t.chains.place place (omega (arith, place_in)) apart in
        let last_used = t.chains.place n (omega arith) (omega arith) in
        let here = home_is last_item in
        let here' = home_is there.item_data in
        elim (ℕ_discrete (old last_item) n) [
          | no linked ↦
              let at : old last_item ≡ place = ground (arith, here) in
              let near : old there.item_data ≡ old last_item =
                ground (arith, last_used, ap (λ k. old (item_of links k)) at) in
              turned (move_linked t e_in h_in home_is nr_out linked) (ground (arith, turn, near))
          | yes at_last ↦ elim (ℕ_discrete (old there.item_data) n) [
            | yes same ↦
                turned
                  (merge_rotated t e_in h_in home_is nr_out place place_in apart at_last same
                    (ground (arith, here)))
                  (ground (arith, turn))
            | no other ↦
                turned
                  (merge_appended t e_in h_in home_is nr_out place place_in apart at_last
                    (ground (arith, here')) (ground (arith, here)))
                  (ground (arith, turn))
          ]
        ]

    pub move_last_lem : Moved home n e (item_of links) (move_last hash blength links e)
    move_last_lem = elim (ℕ_discrete place e) [
      | yes own ↦
          turned (move_home t e_in h_in home_is nr_out own) (move_last_home n_fits e_fits own)
      | no apart ↦ elim (ℕ_discrete place (home there.item_data)) [
        | yes own ↦ move_last_own apart own
        | no away ↦
            turned
              (move_replaced t e_in h_in home_is nr_out place place_in apart refl (omega arith))
              (ground (arith, move_last_other n_fits e_fits place_fits apart))
      ]
    ]

-- The array without its last place.
length-pop_link : (links : List MyHashLink) → length (pop_link links) ≡ length links - 1
unfolding pop_link
length-pop_link [] = refl
length-pop_link (l ∷ []) = refl
length-pop_link (l ∷ m ∷ links) = omega (arith, length-pop_link (m ∷ links))

get_or-pop_link :
    (links : List MyHashLink) (i : ℕ) (d : MyHashLink)
    → i + 1 < length links
    → get_or (pop_link links) i d ≡ get_or links i d
unfolding pop_link
get_or-pop_link [] i d h = refl
get_or-pop_link (l ∷ []) i d h = absurd (omega arith)
get_or-pop_link (l ∷ m ∷ links) zero d h = refl
get_or-pop_link (l ∷ m ∷ links) (suc i) d h = get_or-pop_link (m ∷ links) i d (omega arith)

-- The last place, which is free, goes.
pub Linked-pop_link :
    {old home : ℕ → ℕ} {n : ℕ} {links : List MyHashLink}
    → Linked old (suc n) n links
    → ((x : ℕ) → old x ≢ n → home x ≡ old x)
    → Linked home n n (pop_link links)
      × ((x : ℕ) → tally n n (item_of (pop_link links)) x ≡ tally (suc n) n (item_of links) x)
Linked-pop_link {old} {home} {n} {links} t kept =
    let same : (i : ℕ) → i < n → get_or (pop_link links) i no_link ≡ get_or links i no_link =
      λ i h. get_or-pop_link links i no_link (omega (arith, t.places)) in
    (
      record {
        places = omega (arith, length-pop_link links, t.places);
        ends =
            λ i i_in u. ground (arith, ap (λ l. l.next) (same i i_in), t.ends i, t.chains.step i);
        chains =
            chains_ext
              (shrunk n (λ i. old (item_of links i)) (λ i. home (item_of links i)) (next_of links)
                t.chains (λ i i_in u. kept (item_of links i) u))
              (λ i i_in u. ap (λ l. home l.item_data) (same i i_in))
              (λ i i_in u. ap (λ l. l.next) (same i i_in));
      },
      λ x.
          tally_ext n n _ _ x (λ i i_in u. ap (λ l. l.item_data) (same i i_in))
          ∙ sym (tally_last n (item_of links) x),
    )
