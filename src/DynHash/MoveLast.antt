-- ===== src/DynHash/MoveLast.antt =====
-- my_hash_delete: the last link moves to the free place, or makes room for the one whose place it is.
use my_libs.Base.{
  ℕ, suc, ◌≤◌, ◌<◌, ◌≡◌, ◌≢◌, ap, ◌∙◌, arith, ◌==◌, if◌then◌else◌, length, List, some, Option,
  ◌>>=◌, set, get_or, length-set,
}
use my_libs.DynHash.{MyHashLink, no_record, put_link, put_next, movelink}
use my_libs.DynHash.Chains.{Chains, upd, moved}
use my_libs.DynHash.Shrink.{renamed}
use my_libs.DynHash.Linked.{Linked, next_of-set, item_of-set, gathered}
use my_libs.DynHash.Place.{movelink-Before}
use my_libs.DynHash.Tally.{tally, tally_ext, tally_move}
use my_libs.DynHash.Valid.{no_link, next_of, item_of, put_link_lem, put_next_lem}

-- The links with the last place free, and the records as many times as before.
pub record Moved (home : ℕ → ℕ) (n e : ℕ) (before : ℕ → ℕ) (result : Option (List MyHashLink))
    : Type 0 where
  pub links : List MyHashLink
  pub result_is : result ≡ some links
  pub linked : Linked home (suc n) n links
  pub same_records : (x : ℕ) → tally (suc n) n (item_of links) x ≡ tally (suc n) e before x

-- The homes before are those of a table with one more place, whose last chain starts at `h` now.
module _ {old home : ℕ → ℕ} {n e h : ℕ} {links : List MyHashLink} (t : Linked old (suc n) e links)
    (e_in : e < n) (h_in : h < n) (home_is : (x : ℕ) → home x ≡ (if old x == n then h else old x))
    (nr_out : suc n ≤ no_record) where
  abbrev last : MyHashLink
  last = get_or links n no_link

  abbrev one : List MyHashLink
  one = set links e last

  fits : e < length links
  fits = omega (arith, t.places)

  one_places : length one ≡ suc n
  one_places = length-set links e last ∙ t.places

  pub home-Linked : home (item_of links n) ≡ e → Linked home (suc n) n one
  home-Linked own =
      let c = t.chains in
      let p = c.place n (omega arith) (omega arith) in
      let at_last : old (item_of links n) ≡ n = ground (arith, home_is (item_of links n), p) in
      let target : h ≡ e = ground (arith, home_is (item_of links n)) in
      let nexts = next_of-set links e last fits in
      let items = item_of-set links e last fits in
      gathered one_places (renamed c n (omega arith) (omega arith) at_last (omega arith))
        (λ i i_in u.
          ground (arith, ap home (items i), home_is (item_of links i), home_is (item_of links n)))
        (λ i i_in u. nexts i) (λ i i_in u. ground (arith, t.ends i, t.ends n))

  pub copied_records : (x : ℕ) → tally (suc n) n (item_of one) x ≡ tally (suc n) e (item_of links) x
  copied_records x =
      tally_ext (suc n) n _ _ x (λ i i_in u. item_of-set links e last fits i)
      ∙ tally_move (suc n) n e (item_of links) x (omega arith) (omega arith) (omega arith)

  -- The last link moves to the free place, which is its home.
  pub move_home :
      home (item_of links n) ≡ e → Moved home n e (item_of links) (put_link links e last)
  move_home own = record {
    links = one;
    result_is = put_link_lem links e last fits;
    linked = home-Linked own;
    same_records = copied_records;
  }

  -- It moves to the free place, and stays on its chain.
  pub move_linked :
      old (item_of links n) ≢ n
      → Moved home n e (item_of links) (movelink one n (home (item_of links n)) e)
  move_linked elsewhere =
      let c = t.chains in
      let p = c.place n (omega arith) (omega arith) in
      let nexts = next_of-set links e last fits in
      let items = item_of-set links e last fits in
      let same : home (item_of links n) ≡ old (item_of links n) =
        ground (arith, home_is (item_of links n)) in
      let (q, b, e') =
        movelink-Before t (omega arith) nr_out one n e (omega arith) (omega arith) elsewhere
          (omega (arith, one_places)) (λ i i_in u apart. ground (arith, nexts i)) in
      let lq : MyHashLink = record { next = e; item_data = item_of one q } in
      let q_fits : q < length one = omega (arith, one_places, b.0) in
      let nexts' = next_of-set one q lq q_fits in
      let items' = item_of-set one q lq q_fits in
      let all_items : (i : ℕ)
          → item_of (set one q lq) i ≡ upd (item_of links) e (item_of links n) i =
        λ i. ground (arith, items' i, items i, ap (item_of one)) in
      record {
        links = set one q lq;
        result_is = ap (λ s. movelink one n s e) same ∙ e' ∙ put_next_lem one q e q_fits;
        linked =
            gathered (length-set one q lq ∙ one_places)
              (moved c (omega arith) n q (omega arith) (omega arith) elsewhere b.0 b.1 b.2)
              (λ i i_in u. ground (
                arith,
                ap home (all_items i),
                home_is (item_of links i),
                home_is (item_of links n),
                c.place i,
                ap (λ k. old (item_of links k)),
              ))
              (λ i i_in u. ground (arith, nexts' i, nexts i, b))
              (λ i i_in u. ground (arith, t.ends i, t.ends n));
        same_records = λ x.
            tally_ext (suc n) n _ _ x (λ i i_in u. all_items i)
            ∙ tally_move (suc n) n e (item_of links) x (omega arith) (omega arith) (omega arith);
      }

-- The two links that end the merge of two chains.
module _ {mid home : ℕ → ℕ} {n e : ℕ} {one : List MyHashLink} (t : Linked mid (suc n) n one)
    (e_in : e < n) where
  pub merge_ends :
      (p q : ℕ) {homes : ℕ → ℕ}
      → p < n
      → q < suc n
      → Chains (suc n) n homes (upd (upd (next_of one) q (next_of one p)) p e)
      → ((i : ℕ) → i < suc n → i ≢ n → home (item_of one i) ≡ homes i)
      → Moved home n n (item_of one) (put_next one q (next_of one p) >>= λ two. put_next two p e)
  merge_ends p q p_in q_in c homes_are =
      let lq : MyHashLink = record { next = next_of one p; item_data = item_of one q } in
      let two = set one q lq in
      let lp : MyHashLink = record { next = e; item_data = item_of two p } in
      let q_fits : q < length one = omega (arith, t.places) in
      let same : length two ≡ suc n = length-set one q lq ∙ t.places in
      let p_fits : p < length two = omega (arith, same) in
      let nexts = next_of-set one q lq q_fits in
      let items = item_of-set one q lq q_fits in
      let nexts' = next_of-set two p lp p_fits in
      let items' = item_of-set two p lp p_fits in
      let all_items : (i : ℕ) → item_of (set two p lp) i ≡ item_of one i =
        λ i. ground (arith, items' i, items i, items p, ap (item_of one), ap (item_of two)) in
      record {
        links = set two p lp;
        result_is =
            ground (arith, put_next_lem one q (next_of one p) q_fits, put_next_lem two p e p_fits);
        linked =
            gathered (length-set two p lp ∙ same) c
              (λ i i_in u. ap home (all_items i) ∙ homes_are i i_in u)
              (λ i i_in u. ground (arith, nexts' i, nexts i))
              (λ i i_in u. ground (arith, t.ends i, t.ends p));
        same_records = λ x. tally_ext (suc n) n _ _ x (λ i i_in u. all_items i);
      }
