-- ===== src/LinkedList/Shrink.antt =====
-- my_list_iter_delete of my_list.c.
use my_libs.Base.{
  ℕ, ◌+◌, ◌-◌, ◌^◌, ◌%◌, ◌≡◌, ◌⊎◌, inl, inr, refl, ◌∙◌, sym, ap, true, false, none, some, List, ◌∷◌,
  ◌++◌, ◌==◌, arith, length-append, Bool-cases,
}
use my_libs.LinkedList.{MyListIter, Store, put, write_foreach, my_list_iter_delete}
use my_libs.LinkedList.Segment.{
  first_or, last_or, Holds, Segment-agree, Apart-swap, put_same, first-append, last-append,
  Segment-join, Distinct-join, Away-join, split_lem,
}
use my_libs.LinkedList.Link.{link_on_lem, link_back_lem}
use my_libs.LinkedList.Grow.{put_fresh}

module _ (list : ℕ) (s : Store) (ys : List (ℕ × ℕ)) (b d : ℕ) (zs : List (ℕ × ℕ))
    (h : Holds list s (ys ++ (b, d) ∷ zs)) where
  -- The mark of my_list_foreach changes nothing else.
  pub write_foreach_lem :
      (v : ℕ)
      → (s' : Store) × (write_foreach s b v ≡ some s')
        × Holds list s' (ys ++ (b, d) ∷ zs)
        × ((i : MyListIter) × (s'.iter b ≡ some i) × (i.foreach ≡ v))
  unfolding write_foreach
  write_foreach_lem v =
      let p = split_lem list s ys b d zs h in
      let found = p.cell.1 in
      let i : MyListIter = record {
        item_data = d;
        list = list;
        next = first_or zs 0;
        prev = last_or 0 ys;
        foreach = v;
      } in
      (
        record s { iter = put s.iter b (some i) },
        rw found refl,
        record {
          there = h.there;
          head = h.head;
          tail = h.tail;
          counted = h.counted;
          word = h.word;
          linked =
              Segment-join list (put s.iter b (some i)) 0 ys ((b, d) ∷ zs) 0
                (put_fresh list s.iter b (some i) 0 ys b p.away_front p.front)
                (
                  (v, put_same s.iter b (some i)),
                  put_fresh list s.iter b (some i) b zs 0 p.away_back p.back,
                );
          distinct = h.distinct;
        },
        (i, put_same s.iter b (some i), refl),
      )

  -- my_list_iter_delete of an iterator of the list. If a my_list_foreach is at it, the list is as
  -- before and the mark is 0; otherwise the iterator is freed, and the others remain, in their order.
  pub my_list_iter_delete_lem :
      (i : MyListIter) × (s.iter b ≡ some i)
      × (s' : Store) × (my_list_iter_delete b s ≡ some s')
      × (((i.foreach == 1) ≡ true)
            × Holds list s' (ys ++ (b, d) ∷ zs)
            × ((j : MyListIter) × (s'.iter b ≡ some j) × (j.foreach ≡ 0))
          ⊎ ((i.foreach == 1) ≡ false) × Holds list s' (ys ++ zs) × (s'.iter b ≡ none))
  unfolding my_list_iter_delete
  my_list_iter_delete_lem =
      let p = split_lem list s ys b d zs h in
      let nonzero = p.nonzero in
      let found = p.cell.1 in
      let i : MyListIter = record {
        item_data = d;
        list = list;
        next = first_or zs 0;
        prev = last_or 0 ys;
        foreach = p.cell.0;
      } in
      elim (Bool-cases (p.cell.0 == 1)) [
        | inl marked ↦
            let (s', ran, holds, cleared) = write_foreach_lem 0 in
            (
              i,
              found,
              s',
              rw (nonzero, found, marked) (rw found at ran),
              inl (marked, holds, cleared),
            )
        | inr unmarked ↦
            let (s1, ran1, w1) =
              link_back_lem list s b (last_or 0 ys) zs p.distinct_back p.tail p.back in
            let front1 = Segment-agree list s1.iter s.iter 0 ys zs b w1.same p.apart p.front in
            let (s2, ran2, w2) =
              link_on_lem list s1 ys b (first_or zs 0) p.distinct_front
                (ap (λ l. l.head) w1.kept ∙ p.head) front1 in
            let back2 =
              Segment-agree list s2.iter s1.iter (last_or 0 ys) zs ys 0 w2.same
                (Apart-swap ys zs p.apart) w1.linked in
            (
              i,
              found,
              record s2 {
                my_list = record s2.my_list {
                  length = (s2.my_list.length + (2 ^ 64 - 1)) % 2 ^ 64;
                };
                iter = put s2.iter b none;
              },
              rw (nonzero, found, unmarked, ran1, ran2) refl,
              inr (
                unmarked,
                record {
                  there = h.there;
                  head = ap (λ l. l.head) w2.kept ∙ sym (first-append ys zs 0);
                  tail =
                      ap (λ l. l.tail) w2.kept
                      ∙ ap (λ l. l.tail) w1.kept
                      ∙ sym (last-append 0 ys zs);
                  counted = omega (
                    arith,
                    h.counted,
                    h.word,
                    ap (λ l. l.length) w2.kept,
                    ap (λ l. l.length) w1.kept,
                    length-append ys ((b, d) ∷ zs),
                    length-append ys zs,
                  );
                  word = omega (arith, h.word, length-append ys ((b, d) ∷ zs), length-append ys zs);
                  linked =
                      put_fresh list s2.iter b none 0 (ys ++ zs) 0
                        (Away-join b ys zs p.away_front p.away_back)
                        (Segment-join list s2.iter 0 ys zs 0 w2.linked back2);
                  distinct = Distinct-join ys zs p.distinct_front p.distinct_back p.apart;
                },
                put_same s2.iter b none,
              ),
            )
      ]
