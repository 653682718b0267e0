-- ===== src/LinkedList/Grow.antt =====
-- The functions of my_list.c that put a new iterator at an end of the list.
use mathlib.Core.Path.{subst}
use my_libs.Base.{
  ℕ, ◌+◌, ◌<◌, ◌^◌, ◌%◌, ◌≡◌, inl, inr, refl, ◌∙◌, sym, ap, false, Option, none, some, List, [],
  ◌∷◌, ◌++◌, ◌==◌, if◌then◌else◌, arith, length, length-append, Option-cases,
}
use my_libs.LinkedList.{
  MyListIter, Store, put, lengthen, set_head, set_tail, link_on, link_back, write_prev,
  my_list_prepend, my_list_append, my_list_add,
}
use my_libs.LinkedList.Segment.{
  Away, Segment, Holds, Segment-agree, Away-swap, put_away, put_same, first-append, last-append,
  Segment-join, Distinct-join, last_nonzero,
}
use my_libs.LinkedList.Link.{link_on_lem, link_back_lem}

-- The new address is none of the iterators.
abbrev pub Fresh : ℕ → List (ℕ × ℕ) → Type 0
Fresh a xs = ((a == 0) ≡ false) × Away a xs

-- The new iterator leaves the others as they were.
pub put_fresh :
    (list : ℕ) (iter : ℕ → Option MyListIter) (a : ℕ) (v : Option MyListIter) (p : ℕ)
    (xs : List (ℕ × ℕ)) (q : ℕ)
    → Away a xs
    → Segment list iter p xs q
    → Segment list (put iter a v) p xs q
put_fresh list iter a v p xs q away h =
    Segment-agree list (put iter a v) iter p xs ((a, 0) ∷ []) q (put_away iter a 0 v)
      (Away-swap a 0 xs away) h

-- my_list_prepend, with storage at a new address and with fewer than 2^64 - 1 iterators in the
-- list, returns the new iterator, which holds the data and stands before the others.
pub my_list_prepend_lem :
    (list : ℕ) (s : Store) (xs : List (ℕ × ℕ)) (d a left : ℕ)
    → Holds list s xs
    → length xs + 1 < 2 ^ 64
    → Fresh a xs
    → (s' : Store) × (my_list_prepend list s d (some (a, left)) ≡ some (a, s'))
      × Holds list s' ((a, d) ∷ xs)
unfolding my_list_prepend lengthen
my_list_prepend_lem list s xs d a left h w (nonzero, away) =
    let i : MyListIter = record {
      item_data = d;
      list = list;
      next = s.my_list.head;
      prev = 0;
      foreach = left;
    } in
    let s1 : Store = set_head (record s { iter = put s.iter a (some i) }) a in
    let (s2, ran, written) =
      link_back_lem list s1 0 a xs h.distinct h.tail
        (put_fresh list s.iter a (some i) 0 xs 0 away h.linked) in
    let ran' = subst (λ n. link_back s1 n a ≡ some s2) (sym h.head) ran in
    let there = h.there in
    (
      record s2 { my_list = record s2.my_list { length = (s2.my_list.length + 1) % 2 ^ 64 } },
      rw (there, ran') refl,
      record {
        there = h.there;
        head = ap (λ l. l.head) written.kept;
        tail = ap (λ l. l.tail) written.kept;
        counted = omega (arith, h.counted, ap (λ l. l.length) written.kept);
        word = omega (arith, w);
        linked = (
          (
            left,
            written.same a away
                ∙ put_same s.iter a (some i)
                ∙ ap
                    (λ n.
                      some
                        (record { item_data = d; list = list; next = n; prev = 0; foreach = left }))
                    h.head,
          ),
          written.linked,
        );
        distinct = (nonzero, away, h.distinct);
      },
    )

-- my_list_append, with storage at a new address and with fewer than 2^64 - 1 iterators in the list,
-- returns the new iterator, which holds the data and stands behind the others.
pub my_list_append_lem :
    (list : ℕ) (s : Store) (xs : List (ℕ × ℕ)) (d a left : ℕ)
    → Holds list s xs
    → length xs + 1 < 2 ^ 64
    → Fresh a xs
    → (s' : Store) × (my_list_append list s d (some (a, left)) ≡ some (a, s'))
      × Holds list s' (xs ++ (a, d) ∷ [])
unfolding my_list_append lengthen
my_list_append_lem list s xs d a left h w (nonzero, away) =
    let i : MyListIter = record {
      item_data = d;
      list = list;
      next = 0;
      prev = s.my_list.tail;
      foreach = left;
    } in
    let s1 : Store = set_tail (record s { iter = put s.iter a (some i) }) a in
    let (s2, ran, written) =
      link_on_lem list s1 xs 0 a h.distinct h.head
        (put_fresh list s.iter a (some i) 0 xs 0 away h.linked) in
    let ran' = subst (λ n. link_on s1 n a ≡ some s2) (sym h.tail) ran in
    let there = h.there in
    (
      record s2 { my_list = record s2.my_list { length = (s2.my_list.length + 1) % 2 ^ 64 } },
      rw (there, ran') refl,
      record {
        there = h.there;
        head = ap (λ l. l.head) written.kept ∙ sym (first-append xs ((a, d) ∷ []) 0);
        tail = ap (λ l. l.tail) written.kept ∙ sym (last-append 0 xs ((a, d) ∷ []));
        counted =
            omega
              (arith, h.counted, ap (λ l. l.length) written.kept, length-append xs ((a, d) ∷ []));
        word = omega (arith, w, length-append xs ((a, d) ∷ []));
        linked = Segment-join list s2.iter 0 xs ((a, d) ∷ []) 0 written.linked (
          (
            left,
            written.same a away
                ∙ put_same s.iter a (some i)
                ∙ ap
                    (λ n.
                      some
                        (record { item_data = d; list = list; next = 0; prev = n; foreach = left }))
                    h.tail,
          ),
          tt,
        );
        distinct =
            Distinct-join xs ((a, d) ∷ []) h.distinct (nonzero, tt, tt) (Away-swap a d xs away);
      },
    )

-- my_list_add does what my_list_prepend does.
pub add-prepend :
    (list : ℕ) (s : Store) (xs : List (ℕ × ℕ)) (d : ℕ) (memory : Option (ℕ × ℕ))
    → Holds list s xs
    → my_list_add list s d memory ≡ my_list_prepend list s d memory
unfolding my_list_add my_list_prepend link_back write_prev put lengthen
add-prepend list s xs d none h = refl
add-prepend list s [] d (some (a, left)) h =
    let there = h.there in let head = h.head in let tail = h.tail in rw (there, head, tail) refl
add-prepend list s (x ∷ xs) d (some (a, left)) h =
    let there = h.there in
    let head0 : (s.my_list.head == 0) ≡ false = ap (λ n. n == 0) h.head ∙ h.distinct.0 in
    let tail0 : (s.my_list.tail == 0) ≡ false =
      ap (λ n. n == 0) h.tail ∙ last_nonzero x xs h.distinct in
    let i : MyListIter = record {
      item_data = d;
      list = list;
      next = s.my_list.head;
      prev = 0;
      foreach = left;
    } in
    elim (Option-cases (if s.my_list.head == a then some i else s.iter s.my_list.head)) [
      | inl fault ↦ rw (there, head0, fault) refl
      | inr (j, found) ↦ rw (there, head0, found, tail0) refl
    ]
