-- ===== src/DynHash/MergeLast.antt =====
-- my_hash_delete: the chain of the last place joins another one, or the record in its way gives way.
use my_libs.Base.{
  ℕ, suc, ◌≤◌, ◌<◌, ◌≡◌, ◌≢◌, refl, sym, ap, ◌∙◌, arith, ◌==◌, if◌then◌else◌, length, List, Option,
  ◌>>=◌, set, get_or, length-set,
}
use my_libs.DynHash.{MyHashLink, no_record, put_next, movelink}
use my_libs.DynHash.Chains.{upd, moved}
use my_libs.DynHash.Shrink.{renamed, rotated, merged}
use my_libs.DynHash.Movelink.{movelink_lem, has_end}
use my_libs.DynHash.Linked.{Linked, next_of-set, item_of-set, gathered}
use my_libs.DynHash.Place.{movelink-Before}
use my_libs.DynHash.Tally.{tally_ext, tally_move}
use my_libs.DynHash.MoveLast.{Moved, home-Linked, copied_records, merge_ends}
use my_libs.DynHash.Valid.{no_link, next_of, item_of, put_next_lem}

upd-swap : (f : ℕ → ℕ) (a b u w i : ℕ) → a ≢ b → upd (upd f a u) b w i ≡ upd (upd f b w) a u i
upd-swap f a b u w i apart = ground arith

module _ {old home : ℕ → ℕ} {n e h : ℕ} {links : List MyHashLink} (t : Linked old (suc n) e links)
    (e_in : e < n) (h_in : h < n) (home_is : (x : ℕ) → home x ≡ (if old x == n then h else old x))
    (nr_out : suc n ≤ no_record) where
  abbrev last : MyHashLink
  last = get_or links n no_link

  abbrev one : List MyHashLink
  one = set links e last

  fits : e < length links
  fits = omega (arith, t.places)

  one_places : length one ≡ suc n
  one_places = length-set links e last ∙ t.places

  -- The homes while the last chain starts at the free place.
  abbrev mid : ℕ → ℕ
  mid x = if old x == n then e else old x

  mid-Linked : old (item_of links n) ≡ n → Linked mid (suc n) n one
  mid-Linked at_last =
      home-Linked {home = mid} {h = e} t e_in e_in (λ x. refl) nr_out (ground arith)

  -- The links, after the last link has been copied to the free place.
  finished :
      {result result' : Option (List MyHashLink)}
      → result' ≡ result
      → Moved home n n (item_of one) result
      → Moved home n e (item_of links) result'
  finished same m = record {
    links = m.links;
    result_is = same ∙ m.result_is;
    linked = m.linked;
    same_records = λ x. m.same_records x ∙ copied_records t e_in h_in home_is nr_out x;
  }

  -- The record at `p` is on the last chain already: it becomes the start of it.
  pub merge_rotated :
      (p : ℕ)
      → p < n
      → p ≢ e
      → old (item_of links n) ≡ n
      → old (item_of links p) ≡ n
      → h ≡ p
      → Moved home n e
          (item_of links)
          (movelink one p e (next_of one p) >>= λ two. put_next two p e)
  merge_rotated p p_in apart at_last on_last target =
      let t' = mid-Linked at_last in
      let items = item_of-set links e last fits in
      let p_mid : mid (item_of one p) ≡ e = ground (arith, ap mid (items p)) in
      let e_mid : mid (item_of one e) ≡ e = ground (arith, ap mid (items e)) in
      let (q, b, e') =
        movelink-Before t' (omega arith) nr_out one p (next_of one p) (omega arith) (omega arith)
          (omega (arith, p_mid)) (omega (arith, t'.places)) (λ i i_in u apart. refl) in
      let c =
        rotated t'.chains e (omega arith) (omega arith) e_mid p q (omega arith) (omega arith) p_mid
          apart b.0 b.1 b.2 in
      let m = merge_ends {home = home} t' e_in p q p_in b.0 c (λ i i_in u. ground (
        arith,
        ap home (items i),
        ap mid (items i),
        home_is (item_of links i),
        home_is (item_of links n),
        t.chains.place i,
      )) in
      finished
        (ap (λ s. movelink one p s (next_of one p) >>= λ two. put_next two p e) (sym p_mid)
          ∙ ap (λ r. r >>= λ two. put_next two p e) e')
        m

  -- The chain of the record at `p` goes behind the last chain.
  pub merge_appended :
      (p : ℕ)
      → p < n
      → p ≢ e
      → old (item_of links n) ≡ n
      → old (item_of links p) ≡ p
      → h ≡ p
      → Moved home n e
          (item_of links)
          (movelink one no_record e (next_of one p) >>= λ two. put_next two p e)
  merge_appended p p_in apart at_last own target =
      let t' = mid-Linked at_last in
      let items = item_of-set links e last fits in
      let p_mid : mid (item_of one p) ≡ p = ground (arith, ap mid (items p)) in
      let e_mid : mid (item_of one e) ≡ e = ground (arith, ap mid (items e)) in
      let (r, r_in, r_used, r_home, r_next) = has_end t'.chains e (omega arith) (omega arith) in
      let r_nr : next_of one r ≡ no_record = ground (arith, t'.ends r) in
      let (q, q_in, q_used, q_home, q_next, q_apart, e') =
        movelink_lem t'.chains one no_record (next_of one p) (omega (arith, t'.places))
          (λ i i_in u apart'. refl) e r r_in r_used (r_home ∙ e_mid) (omega arith) r_nr in
      let q_mid : mid (item_of one q) ≡ e = q_home ∙ e_mid in
      let c =
        merged t'.chains e (omega arith) (omega arith) e_mid p q (omega arith) (omega arith) p_mid
          apart q_in q_used q_mid (omega arith) in
      let m = merge_ends {home = home} t' e_in p q p_in q_in c (λ i i_in u. ground (
        arith,
        ap home (items i),
        ap mid (items i),
        home_is (item_of links i),
        home_is (item_of links n),
        t.chains.place i,
      )) in
      finished (ap (λ r. r >>= λ two. put_next two p e) e') m

  -- The record at the home of the last one belongs elsewhere: it moves to the free place.
  abbrev swapped : ℕ → List MyHashLink
  swapped p = set (set links e (get_or links p no_link)) p last

  swapped_places : (p : ℕ) → length (swapped p) ≡ suc n
  swapped_places p =
      length-set (set links e (get_or links p no_link)) p last
      ∙ length-set links e (get_or links p no_link)
      ∙ t.places

  module _ (p : ℕ) (p_in : p < n) where
    p_fits : p < length (set links e (get_or links p no_link))
    p_fits = omega (arith, length-set links e (get_or links p no_link), t.places)

    swapped_nexts :
        (i : ℕ)
        → next_of (swapped p) i
          ≡ upd (upd (next_of links) e (next_of links p)) p (next_of links n) i
    swapped_nexts i = ground (
      arith,
      next_of-set links e (get_or links p no_link) fits i,
      next_of-set (set links e (get_or links p no_link)) p last p_fits i,
    )

    swapped_items :
        (i : ℕ)
        → item_of (swapped p) i
          ≡ upd (upd (item_of links) e (item_of links p)) p (item_of links n) i
    swapped_items i = ground (
      arith,
      item_of-set links e (get_or links p no_link) fits i,
      item_of-set (set links e (get_or links p no_link)) p last p_fits i,
    )

  pub move_replaced :
      (p : ℕ)
      → p < n
      → p ≢ e
      → home (item_of links n) ≡ p
      → home (item_of links p) ≢ p
      → Moved home n e (item_of links) (movelink (swapped p) p (home (item_of links p)) e)
  move_replaced p p_in apart last_home away =
      let c = t.chains in
      let two = swapped p in
      let last_place = c.place n (omega arith) (omega arith) in
      let p_place = c.place p (omega arith) apart in
      let at_last : old (item_of links n) ≡ n = ground (
        arith,
        last_place,
        home_is (item_of links n),
        home_is (item_of links p),
        ap (λ k. old (item_of links k)),
      ) in
      let target : h ≡ p = ground (arith, home_is (item_of links n)) in
      let p_home : home (item_of links p) ≡ old (item_of links p) =
        ground (arith, home_is (item_of links p)) in
      let away' : old (item_of links p) ≢ p = omega arith in
      let (q, b, e') =
        movelink-Before t (omega arith) nr_out two p e (omega arith) apart away'
          (omega (arith, swapped_places p))
          (λ i i_in u apart'. ground (arith, swapped_nexts p p_in i)) in
      let s = c.step q b.0 b.1 (ground (arith, b)) in
      let q_old : old (item_of links q) ≡ old (item_of links p) =
        sym s.1 ∙ ap (λ k. old (item_of links k)) b.2 in
      let q_before : q ≢ n = λ same.
        absurd (
          ground (arith, q_old, ap (λ k. old (item_of links k)) same, home_is (item_of links p))) in
      let lq : MyHashLink = record { next = e; item_data = item_of two q } in
      let q_fits : q < length two = omega (arith, swapped_places p, b.0) in
      let nexts'' = next_of-set two q lq q_fits in
      let items'' = item_of-set two q lq q_fits in
      let new_items = upd (item_of links) e (item_of links p) in
      let all_items : (i : ℕ) → item_of (set two q lq) i ≡ upd new_items p (new_items n) i =
        λ i. ground (arith, items'' i, swapped_items p p_in i, ap (item_of two)) in
      let moved_nexts = upd (upd (next_of links) e (next_of links p)) q e in
      let n_next : moved_nexts n ≡ next_of links n = ground arith in
      record {
        links = set two q lq;
        result_is = ap (λ k. movelink two p k e) p_home ∙ e' ∙ put_next_lem two q e q_fits;
        linked =
            gathered (length-set two q lq ∙ swapped_places p)
              (renamed (moved c (omega arith) p q (omega arith) apart away' b.0 b.1 b.2) n
                (omega arith) (omega arith) (ground arith) (omega arith))
              (λ i i_in u. ground (
                arith,
                ap home (all_items i),
                home_is (item_of links i),
                home_is (item_of links n),
                home_is (item_of links p),
              ))
              (λ i i_in u.
                nexts'' i
                ∙ ap (λ k. if i == q then e else k) (swapped_nexts p p_in i)
                ∙ upd-swap (upd (next_of links) e (next_of links p)) p q (next_of links n) e i
                    (omega (arith, b))
                ∙ ap (λ k. if i == p then k else moved_nexts i) (sym n_next))
              (λ i i_in u. ground (arith, n_next, t.ends i, t.ends p, t.ends n, b));
        same_records = λ x.
            tally_ext (suc n) n _ _ x (λ i i_in u. all_items i)
            ∙ tally_move (suc n) n p new_items x (omega arith) (omega arith) (omega arith)
            ∙ tally_move (suc n) p e (item_of links) x (omega arith) (omega arith) apart;
      }
