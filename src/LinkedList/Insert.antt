-- ===== src/LinkedList/Insert.antt =====
-- my_list_iter_insert and my_list_sortadd of my_list.c.
use mathlib.Core.Path.{subst}
use my_libs.Base.{
  ℕ, ◌+◌, ◌<◌, ◌^◌, ◌%◌, ◌≡◌, ◌⊎◌, inl, inr, refl, ◌∙◌, sym, ap, true, false, Option, some, List,
  [], ◌∷◌, ◌++◌, ◌==◌, arith, length, length-append, ltb,
}
use my_libs.LinkedList.{MyListIter, Store, put, lengthen, link_back, my_list_iter_insert}
use my_libs.LinkedList.Loops.{my_list_sortadd}
use my_libs.LinkedList.Segment.{
  last_or, Away, Away-append, Distinct, Holds, Segment-agree, Apart, Apart-swap, put_same,
  last-append, Segment-join, Distinct-join, Distinct-append, split_lem,
}
use my_libs.LinkedList.Link.{write_last, link_back_lem}
use my_libs.LinkedList.Grow.{Fresh, put_fresh, my_list_prepend_lem, my_list_append_lem}
use my_libs.LinkedList.Search.{Passed, find_head}

-- What an insertion returns and leaves.
abbrev pub Inserted : ℕ → ℕ → List (ℕ × ℕ) → Option (ℕ × Store) → Type 0
Inserted list a xs r = (s' : Store) × (r ≡ some (a, s')) × Holds list s' xs

Distinct-insert :
    (ys zs : List (ℕ × ℕ)) (a d : ℕ)
    → (a == 0) ≡ false
    → Away a (ys ++ zs)
    → Distinct (ys ++ zs)
    → Distinct (ys ++ (a, d) ∷ zs)
Distinct-insert ys zs a d nonzero away h =
    let (dy, dz, apart) = Distinct-append ys zs h in
    let (ay, az) = Away-append a ys zs away in
    Distinct-join ys ((a, d) ∷ zs) dy (nonzero, az, dz)
      (Apart-swap ((a, d) ∷ zs) ys (ay, Apart-swap ys zs apart))

-- my_list_iter_insert before an iterator of the list, with storage at a new address and with fewer
-- than 2^64 - 1 iterators, returns the new iterator, which holds the data and stands right before
-- that one.
pub my_list_iter_insert_lem :
    (list : ℕ) (s : Store) (ys : List (ℕ × ℕ)) (b e : ℕ) (zs : List (ℕ × ℕ)) (d a left : ℕ)
    → Holds list s (ys ++ (b, e) ∷ zs)
    → length (ys ++ (b, e) ∷ zs) + 1 < 2 ^ 64
    → Fresh a (ys ++ (b, e) ∷ zs)
    → Inserted list a (ys ++ (a, d) ∷ (b, e) ∷ zs) (my_list_iter_insert b s d (some (a, left)))
unfolding my_list_iter_insert lengthen link_back
my_list_iter_insert_lem list s [] b e zs d a left h w fresh =
    let p = split_lem list s [] b e zs h in
    let nonzero = p.nonzero in
    let found = p.cell.1 in
    let at_head : (s.my_list.head == b) ≡ true = rw p.head (ground arith) in
    let (s', ran, holds) = my_list_prepend_lem list s ((b, e) ∷ zs) d a left h w fresh in
    (s', rw (nonzero, found, at_head) ran, holds)
my_list_iter_insert_lem list s (y ∷ ys) b e zs d a left h w (a0, away) =
    let p = split_lem list s (y ∷ ys) b e zs h in
    let nonzero = p.nonzero in
    let found = p.cell.1 in
    let not_head : (s.my_list.head == b) ≡ false = ap (λ n. n == b) p.head ∙ p.away_front.1 in
    let rest : List (ℕ × ℕ) = (b, e) ∷ zs in
    let (away_front, away_rest) = Away-append a (y ∷ ys) rest away in
    let before_b = last_or y.0 ys in
    let i : MyListIter = record {
      item_data = d;
      list = list;
      next = b;
      prev = before_b;
      foreach = left;
    } in
    let s1 : Store = record s { iter = put s.iter a (some i) } in
    let apart : Apart (y ∷ ys) rest = (Distinct-append (y ∷ ys) rest h.distinct).2 in
    let (s2, ran2, w2) =
      write_last list s1 0 y ys b a p.distinct_front
        (put_fresh list s.iter a (some i) 0 (y ∷ ys) b away_front p.front) in
    let rest2 =
      Segment-agree list s2.iter s1.iter before_b rest (y ∷ ys) 0 w2.same
        (Apart-swap (y ∷ ys) rest apart)
        (put_fresh list s.iter a (some i) before_b rest 0 away_rest (p.cell, p.back)) in
    let (s3, ran3, w3) =
      link_back_lem list s2 before_b a rest (p.nonzero, p.away_back, p.distinct_back)
        (ap (λ l. l.tail) w2.kept ∙ p.tail) rest2 in
    let front3 = Segment-agree list s3.iter s2.iter 0 (y ∷ ys) rest a w3.same apart w2.linked in
    (
      record s3 { my_list = record s3.my_list { length = (s3.my_list.length + 1) % 2 ^ 64 } },
      rw (nonzero, found, not_head, ran2, rw nonzero at ran3) refl,
      record {
        there = h.there;
        head = ap (λ l. l.head) w3.kept ∙ ap (λ l. l.head) w2.kept ∙ p.head;
        tail = ap (λ l. l.tail) w3.kept ∙ sym (last-append y.0 ys ((a, d) ∷ rest));
        counted = omega (
          arith,
          h.counted,
          ap (λ l. l.length) w3.kept,
          ap (λ l. l.length) w2.kept,
          w,
          length-append ys rest,
          length-append ys ((a, d) ∷ rest),
        );
        word = omega (arith, w, length-append ys rest, length-append ys ((a, d) ∷ rest));
        linked = Segment-join list s3.iter 0 (y ∷ ys) ((a, d) ∷ rest) 0 front3 (
          (left, w3.same a away_rest ∙ w2.same a away_front ∙ put_same s.iter a (some i)),
          w3.linked,
        );
        distinct = Distinct-insert (y ∷ ys) rest a d a0 away h.distinct;
      },
    )

-- my_list_sortadd, with storage at a new address and with fewer than 2^64 - 1 iterators, ends
-- without a fault and returns the new iterator, which holds the data. It stands behind the
-- iterators for which the callback gives 0, up to the first for which it gives more.
pub my_list_sortadd_lem :
    (fuel list : ℕ) (s : Store) (xs : List (ℕ × ℕ)) (func : ℕ → ℕ → ℕ) (d a left : ℕ)
    → Holds list s xs
    → length xs < fuel
    → length xs + 1 < 2 ^ 64
    → Fresh a xs
    → (ys : List (ℕ × ℕ)) × (zs : List (ℕ × ℕ)) × (xs ≡ ys ++ zs)
      × Passed (λ e. ltb 0 (func e d)) ys
      × ((zs ≡ [])
          ⊎ ((b : ℕ) × (e : ℕ) × (rest : List (ℕ × ℕ)) × (zs ≡ (b, e) ∷ rest)
              × (ltb 0 (func e d) ≡ true)))
      × Inserted list a
          (ys ++ (a, d) ∷ zs)
          (my_list_sortadd fuel list s (some func) d (some (a, left)))
unfolding my_list_sortadd
my_list_sortadd_lem fuel list s xs func d a left h short w fresh =
    let there = h.there in
    elim (find_head (λ e. ltb 0 (func e d)) list s xs fuel h short) [
      | inl (ran, passed) ↦
          let (s', added, holds) = my_list_append_lem list s xs d a left h w fresh in
          (
            xs,
            [],
            sym (append_nil xs),
            passed,
            inl refl,
            (s', rw (there, ran) (rw there at added), holds),
          )
      | inr (ys, b, e, zs, same, ran, here, passed) ↦
          let rest : List (ℕ × ℕ) = ys ++ (b, e) ∷ zs in
          let holds = subst (Holds list s) same h in
          let nonzero = (split_lem list s ys b e zs holds).nonzero in
          let (s', added, inserted) =
            my_list_iter_insert_lem list s ys b e zs d a left holds
              (subst (λ l. length l + 1 < 2 ^ 64) same w) (subst (Fresh a) same fresh) in
          (
            ys,
            (b, e) ∷ zs,
            same,
            passed,
            inr (b, e, zs, refl, here),
            (s', rw (there, ran, added, nonzero) refl, inserted),
          )
    ]
  where
    append_nil : (xs : List (ℕ × ℕ)) → xs ++ [] ≡ xs
    append_nil [] = refl
    append_nil (x ∷ xs) = ap (λ l. x ∷ l) (append_nil xs)
