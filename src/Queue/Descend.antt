-- ===== src/Queue/Descend.antt =====
-- The first loop of _downheap of my_queue.c, and the whole of it.
use mathlib.Core.Path.{subst}
use native.Mathlib.Numerals.{add-one}
use my_libs.Base.{
  ℕ, zero, suc, ◌+◌, ◌/◌, ◌<◌, ◌≤◌, ◌≡◌, inl, inr, sym, ◌∙◌, true, false, some, List, arith, length,
  set, get_or-set, length-set, dec_lt, ℕ_discrete, Bool-cases,
}
use my_libs.Base.Int.{is_neg, is_pos}
use my_libs.Queue.{Order, climb, descend, child_of}
use my_libs.Queue.Order.{IsOrder, Le, at, IsHeapFrom, le_refl, le_trans, le_of_neg}
use my_libs.Queue.Hole.{
  put-set, get-at, IsHeapBut, BeforeChildren, AfterParent, Sifted, Sifted-set, Sifted-moved,
  IsHeapFrom-set, IsHeapBut-of_heap,
}
use my_libs.Queue.Down.{Below, here, child, Climbing, edge_below, climb_lem}

module _ (cmp : Order) (n start : ℕ) where
  climb_start :
      (r : List ℕ) (e : ℕ)
      → start < length r
      → climb cmp start (start + 1) r start e ≡ some (set r start e)
  unfolding climb
  climb_start r e hs = rw add-one (ground (arith, put-set r start e hs))

  -- At an index without children the element stays.
  pub descend_leaf :
      (r : List ℕ) (e : ℕ)
      → start < length r
      → n / 2 < start
      → descend cmp start n (n + 1) true r start e ≡ some (set r start e)
  unfolding descend
  descend_leaf r e hs leaf = rw add-one (ground (arith, climb_start r e hs))

-- The child to go on with: one that exists, and comes after no child.
record Least (cmp : Order) (n : ℕ) (r : List ℕ) (i j : ℕ) : Type 0 where
  own : j / 2 ≡ i
  inside : j ≤ n
  later : i < j
  least : BeforeChildren cmp n i r (at r j)

-- What holds at both children holds at every index below `i`.
by_child : (P : ℕ → Type 0) (i d : ℕ) → d / 2 ≡ i → P (i + i) → P (i + i + 1) → P d
by_child P i d eq left right = elim (ℕ_discrete d (i + i)) [
  | yes e ↦ subst P (sym e) left
  | no ne ↦ let e : i + i + 1 ≡ d = omega arith in subst P e right
]

module _ (cmp : Order) (ord : IsOrder cmp) (lo n start : ℕ) (one : 1 ≤ start)
    (low : lo ≤ start) where
  child_of_lem :
      (r : List ℕ) (i : ℕ)
      → 1 ≤ i
      → i ≤ n / 2
      → n < length r
      → (j : ℕ) × (child_of cmp r n i ≡ some j) × Least cmp n r i j
  unfolding child_of
  child_of_lem r i h1 hi hr = elim (dec_lt (i + i) n) [
    | yes two ↦ elim (Bool-cases (is_pos (cmp (at r (i + i)) (at r (i + i + 1))))) [
      | inl after ↦ (
        i + i + 1,
        ground (arith, get-at r (i + i) (omega arith), get-at r (i + i + 1) (omega arith)),
        record {
          own = omega arith;
          inside = omega arith;
          later = omega arith;
          least = λ d d1 dn eq.
              let less : is_neg (cmp (at r (i + i + 1)) (at r (i + i))) ≡ true =
                sym (ord.swapped (at r (i + i)) (at r (i + i + 1))) ∙ after in
              by_child (λ k. Le cmp (at r (i + i + 1)) (at r k)) i d eq (le_of_neg cmp ord _ _ less)
                (le_refl cmp ord (at r (i + i + 1)));
        },
      )
      | inr before ↦ (
        i + i,
        ground (arith, get-at r (i + i) (omega arith), get-at r (i + i + 1) (omega arith)),
        record {
          own = omega arith;
          inside = omega arith;
          later = omega arith;
          least = λ d d1 dn eq.
              by_child (λ k. Le cmp (at r (i + i)) (at r k)) i d eq (le_refl cmp ord (at r (i + i)))
                (sym (ord.swapped (at r (i + i)) (at r (i + i + 1))) ∙ before);
        },
      )
    ]
    | no only ↦ (
      i + i,
      ground arith,
      record {
        own = omega arith;
        inside = omega arith;
        later = omega arith;
        least = λ d d1 dn eq.
            let e : i + i ≡ d = omega arith in
            subst (λ k. Le cmp (at r (i + i)) (at r k)) e (le_refl cmp ord (at r (i + i)));
      },
    )
  ]

  -- What the way down keeps, from its second round on.
  record Sinking (r : List ℕ) (i e : ℕ) : Type 0 where
    below : Below start i
    deep : start < i
    inside : i ≤ n
    room : n < length r
    heap : IsHeapFrom cmp lo n r
    top : Le cmp (at r start) e

  Sinking-step :
      (r : List ℕ) (i j e : ℕ) → Sinking r i e → Least cmp n r i j → Sinking (set r i (at r j)) j e
  Sinking-step r i j e s m = record {
    below = child (subst (λ k. Below start k) (sym m.own) s.below);
    deep = omega (arith, s.deep, m.later);
    inside = m.inside;
    room = omega (arith, length-set r i (at r j), s.room);
    heap =
        IsHeapFrom-set cmp ord lo n r i (at r j) hole (IsHeapBut-of_heap cmp ord lo n r i s.heap)
          (λ h hl. le_trans cmp ord (at r (i / 2)) (at r i) (at r j) (s.heap i h s.inside hl) (
            edge_below cmp ord lo n start one low r i j s.heap (omega (arith, s.deep))
              (omega (arith, s.deep, m.later)) m.inside m.own))
          m.least;
    top = ground (arith, s.top, s.deep, get_or-set r i start (at r j) 0 hole);
  }
    where
      hole : i < length r
      hole = omega (arith, s.room, s.inside)

  sink_lem :
      (fuel : ℕ) (r : List ℕ) (i e : ℕ)
      → n < i + fuel
      → Sinking r i e
      → (r' : List ℕ) × (descend cmp start n fuel false r i e ≡ some r') × Sifted cmp lo n r i e r'
  unfolding descend
  sink_lem zero r i e f s = absurd (omega (arith, s.inside))
  sink_lem (suc fuel) r i e f s = elim (dec_lt (n / 2) i) [
    | yes leaf ↦
        let c : Climbing cmp ord lo n start one low r i e = record {
          below = s.below;
          deep = s.deep;
          inside = s.inside;
          room = s.room;
          heap = s.heap;
          top = s.top;
          before = λ d h1 hn eq. absurd (omega arith);
        } in
        let (r', run, done) = climb_lem cmp ord lo n start one low (i + 1) r i e (omega arith) c in
        (r', ground arith, done)
    | no inner ↦
        let (j, chosen, m) = child_of_lem r i (omega (arith, s.deep)) (omega arith) s.room in
        let (r', run, done) =
          sink_lem fuel (set r i (at r j)) j e (omega (arith, m.later))
            (Sinking-step r i j e s m) in
        (
          r',
          ground (
            arith,
            get-at r j (omega (arith, m.inside, s.room)),
            put-set r i (at r j) (omega (arith, s.inside, s.room)),
          ),
          Sifted-moved cmp ord lo n r i j e r' (omega (arith, m.later)) (omega (arith, s.deep))
              s.inside (omega (arith, m.later)) m.inside s.room done,
        )
  ]

  -- _downheap at `start`, where `e` stands: with the heap order elsewhere, the parent not after `e`
  -- nor after the children, it puts the whole in order.
  pub descend_lem :
      (fuel : ℕ) (r : List ℕ) (e : ℕ)
      → n < fuel
      → start < length r
      → n < length r
      → IsHeapBut cmp lo n start r
      → AfterParent cmp lo start r e
      → ((c : ℕ) → 1 < c → c ≤ n → c / 2 ≡ start → AfterParent cmp lo start r (at r c))
      → (r' : List ℕ) × (descend cmp start n fuel true r start e ≡ some r')
        × Sifted cmp lo n r start e r'
  unfolding descend
  descend_lem zero r e f hs hn but after bridged = absurd (omega arith)
  descend_lem (suc fuel) r e f hs hn but after bridged = elim (dec_lt (n / 2) start) [
    | yes leaf ↦ (
      set r start e,
      ground (arith, climb_start cmp n start r e hs),
      Sifted-set cmp ord lo n r start e hs but after (λ d h1 dn eq. absurd (omega arith)),
    )
    | no inner ↦
        let (j, chosen, m) = child_of_lem r start one (omega arith) hn in
        let hj : j < length r = omega (arith, m.inside) in
        elim (Bool-cases (is_neg (cmp (at r j) e))) [
          | inl less ↦
              let s : Sinking (set r start (at r j)) j e = record {
                below = child (subst (λ k. Below start k) (sym m.own) here);
                deep = m.later;
                inside = m.inside;
                room = omega (arith, length-set r start (at r j));
                heap =
                    IsHeapFrom-set cmp ord lo n r start (at r j) hs but
                      (bridged j (omega (arith, m.later)) m.inside m.own) m.least;
                top = ground (
                  arith,
                  le_of_neg cmp ord (at r j) e less,
                  get_or-set r start start (at r j) 0 hs,
                );
              } in
              let (r', run, done) =
                sink_lem fuel (set r start (at r j)) j e (omega (arith, m.later)) s in
              (
                r',
                ground (arith, get-at r j hj, put-set r start (at r j) hs),
                Sifted-moved cmp ord lo n r start j e r' (omega (arith, m.later)) one (omega arith)
                    (omega (arith, m.later)) m.inside hn done,
              )
          | inr le ↦ (
            set r start e,
            ground (arith, get-at r j hj, put-set r start e hs),
            Sifted-set cmp ord lo n r start e hs but after
                (λ d h1 dn eq. le_trans cmp ord e (at r j) (at r d) le (m.least d h1 dn eq)),
          )
        ]
  ]
