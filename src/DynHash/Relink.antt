-- ===== src/DynHash/Relink.antt =====
-- The second half of relink of my_hash_update: a record goes onto the chain of its home, through the
-- free place.
use my_libs.Base.{
  ℕ, ◌+◌, ◌≤◌, ◌<◌, ◌≡◌, ◌≢◌, refl, ap, ◌∙◌, arith, ℕ_discrete, length, List, some, Option, ◌>>=◌,
  set, get_or, length-set,
}
use my_libs.DynHash.{MyHashLink, no_record, put_link, put_next, movelink}
use my_libs.DynHash.Chains.{upd, settled}
use my_libs.DynHash.Linked.{Linked, next_of-set, item_of-set, gathered}
use my_libs.DynHash.Place.{movelink-Before, place_behind, chains_instead}
use my_libs.DynHash.Tally.{tally, unit, tally_ext, tally_move, tally_hole}
use my_libs.DynHash.Valid.{no_link, next_of, item_of, put_link_lem, put_next_lem}

-- A record has been put into the free place, or onto a chain with it.
pub record Joined (home : ℕ → ℕ) (n e : ℕ) (before : ℕ → ℕ) (item : ℕ)
    (result : Option (List MyHashLink)) : Type 0 where
  pub links : List MyHashLink
  pub result_is : result ≡ some links
  pub linked : Linked home n n links
  pub records : (x : ℕ) → tally n n (item_of links) x ≡ tally n e before x + unit item x

module _ {home : ℕ → ℕ} {n e : ℕ} {links : List MyHashLink} (t : Linked home n e links)
    (e_in : e < n) (nr_out : n ≤ no_record) (item : ℕ) where
  e_fits : e < length links
  e_fits = omega (arith, t.places)

  filled_records :
      (items : ℕ → ℕ) (x : ℕ)
      → ((i : ℕ) → i < n → items i ≡ upd (item_of links) e item i)
      → tally n n items x ≡ tally n e (item_of links) x + unit item x
  filled_records items x are =
      let at : items e ≡ item = ground (arith, are e e_in) in
      omega (
        arith,
        tally_hole n n e items x e_in (omega arith),
        ap (λ y. unit y x) at,
        tally_ext n e items (item_of links) x (λ i i_in u. ground (arith, are i i_in)),
      )

  -- The free place is the new home.
  pub join_alone :
      (others : List MyHashLink)
      → home item ≡ e
      → length others ≡ n
      → ((i : ℕ) → i < n → i ≢ e → get_or others i no_link ≡ get_or links i no_link)
      → item_of others e ≡ item
      → Joined home n e (item_of links) item (put_next others e no_record)
  join_alone others own places same here =
      let le : MyHashLink = record { next = no_record; item_data = item_of others e } in
      let fits : e < length others = omega (arith, places) in
      let nexts = next_of-set others e le fits in
      let items = item_of-set others e le fits in
      let all_items : (i : ℕ) → i < n → item_of (set others e le) i ≡ upd (item_of links) e item i =
        λ i i_in. elim (ℕ_discrete i e) [
          | yes at ↦ ground (arith, items i, here)
          | no other ↦ ground (arith, items i, ap (λ l. l.item_data) (same i i_in other))
        ] in
      record {
        links = set others e le;
        result_is = put_next_lem others e no_record fits;
        linked =
            gathered (length-set others e le ∙ places) (settled t.chains e_in no_record nr_out)
              (λ i i_in u. ground (arith, ap home (all_items i i_in)))
              (λ i i_in u. elim (ℕ_discrete i e) [
                | yes at ↦ ground (arith, nexts i)
                | no other ↦ ground (arith, nexts i, ap (λ l. l.next) (same i i_in other))
              ])
              (λ i i_in u. ground (arith, t.ends i));
        records = λ x. filled_records (item_of (set others e le)) x all_items;
      }

  -- The new home is the start of a chain.
  pub join_chained :
      (h : ℕ)
      → h < n
      → h ≢ e
      → home (item_of links h) ≡ h
      → home item ≡ h
      → let le : MyHashLink = record { next = next_of links h; item_data = item } in
        Joined home n e (item_of links) item (put_next (set links e le) h e)
  join_chained h h_in apart own item_home =
      let le : MyHashLink = record { next = next_of links h; item_data = item } in
      let items = item_of-set links e le e_fits in
      let kept : item_of (set links e le) h ≡ item_of links h = ground (arith, items h) in
      let lh : MyHashLink = record { next = e; item_data = item_of (set links e le) h } in
      let (linked, all_items) =
        place_behind t e_in nr_out h le lh h_in apart own refl refl item_home
          (ap home kept ∙ own) in
      record {
        links = set (set links e le) h lh;
        result_is =
            put_next_lem (set links e le) h e (omega (arith, length-set links e le, t.places));
        linked = linked;
        records = λ x.
            filled_records (item_of (set (set links e le) h lh)) x
              (λ i i_in. ground (arith, all_items i i_in, kept, ap (item_of links)));
      }

  -- The record at the new home belongs elsewhere.
  pub join_replaced :
      (a : ℕ)
      → a < n
      → a ≢ e
      → home (item_of links a) ≢ a
      → home item ≡ a
      → let there = get_or links a no_link in
        Joined home n e (item_of links) item (
          movelink (set links e there) a (home (item_of links a)) e >>= λ two.
          put_link two a (record { next = no_record; item_data = item }))
  join_replaced a a_in apart away item_home =
      let there = get_or links a no_link in
      let one = set links e there in
      let one_places : length one ≡ n = length-set links e there ∙ t.places in
      let nexts = next_of-set links e there e_fits in
      let items = item_of-set links e there e_fits in
      let (q, b, e') =
        movelink-Before t e_in nr_out one a e a_in apart away (omega (arith, one_places))
          (λ i i_in u apart'. ground (arith, nexts i)) in
      let lq : MyHashLink = record { next = e; item_data = item_of one q } in
      let la : MyHashLink = record { next = no_record; item_data = item } in
      let two = set one q lq in
      let q_fits : q < length one = omega (arith, one_places, b.0) in
      let two_places : length two ≡ n = length-set one q lq ∙ one_places in
      let a_fits : a < length two = omega (arith, two_places) in
      let nexts' = next_of-set one q lq q_fits in
      let items' = item_of-set one q lq q_fits in
      let nexts'' = next_of-set two a la a_fits in
      let items'' = item_of-set two a la a_fits in
      let moved_items = upd (item_of links) e (item_of links a) in
      let all_items : (i : ℕ) → item_of (set two a la) i ≡ upd moved_items a item i =
        λ i. ground (arith, items'' i, items' i, items i, ap (item_of one)) in
      let filled : item_of (set two a la) a ≡ item = ground (arith, all_items a) in
      record {
        links = set two a la;
        result_is = ground (arith, e', put_next_lem one q e q_fits, put_link_lem two a la a_fits);
        linked =
            gathered (length-set two a la ∙ two_places)
              (chains_instead t e_in nr_out a q a_in apart away b)
              (λ i i_in u. ground (arith, ap home (all_items i)))
              (λ i i_in u. ground (arith, nexts'' i, nexts' i, nexts i, b))
              (λ i i_in u. ground (arith, t.ends i, t.ends a));
        records = λ x.
            tally_hole n n a (item_of (set two a la)) x a_in (omega arith)
            ∙ ap (λ y. tally n a (item_of (set two a la)) x + unit y x) filled
            ∙ ap (λ k. k + unit item x)
                (tally_ext n a (item_of (set two a la)) moved_items x
                    (λ i i_in u. ground (arith, all_items i))
                  ∙ tally_move n a e (item_of links) x a_in e_in apart);
      }
