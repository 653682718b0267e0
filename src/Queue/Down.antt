-- ===== src/Queue/Down.antt =====
-- _downheap of my_queue.c: from an index down to the leaves, and back up to the element's place.
use mathlib.Core.Path.{subst}
use my_libs.Base.{
  ℕ, zero, suc, ◌/◌, ◌<◌, ◌≤◌, ◌≡◌, inl, inr, refl, some, List, arith, length, set, get_or-set,
  length-set, dec_lt, ℕ_discrete, Bool-cases,
}
use my_libs.Base.Int.{is_neg}
use my_libs.Queue.{Order, climb}
use my_libs.Queue.Order.{IsOrder, Le, at, IsHeapFrom, le_refl, le_trans, le_of_neg}
use my_libs.Queue.Hole.{
  put-set, get-at, IsHeapBut, BeforeChildren, Sifted, Sifted-set, Sifted-moved, IsHeapFrom-set,
  IsHeapBut-of_heap,
}

-- `i` is `s`, or below it in the tree of indices.
pub data Below (s : ℕ) : ℕ → Type 0 where
  here : Below s s
  child : {c : ℕ} → Below s (c / 2) → Below s c

Below-le : {s c : ℕ} → Below s c → s ≤ c
Below-le here = omega arith
Below-le (child b) = omega (arith, Below-le b)

Below-parent : {s c : ℕ} → Below s c → s < c → Below s (c / 2)
Below-parent here h = absurd (omega arith)
Below-parent (child b) h = b

module _ (cmp : Order) (ord : IsOrder cmp) (lo n start : ℕ) (one : 1 ≤ start)
    (low : lo ≤ start) where
  -- What the way back up keeps: the heap order, with a copy of its parent's element at the hole.
  pub record Climbing (r : List ℕ) (i e : ℕ) : Type 0 where
    pub below : Below start i
    pub deep : start < i
    pub inside : i ≤ n
    pub room : n < length r
    pub heap : IsHeapFrom cmp lo n r
    pub before : BeforeChildren cmp n i r e
    pub top : Le cmp (at r start) e

  -- The edge from the hole to one of its children.
  pub edge_below :
      (r : List ℕ) (i d : ℕ)
      → IsHeapFrom cmp lo n r
      → start ≤ i
      → 1 < d
      → d ≤ n
      → d / 2 ≡ i
      → Le cmp (at r i) (at r d)
  edge_below r i d h hi h1 hn eq =
      subst (λ k. Le cmp (at r k) (at r d)) eq (h d h1 hn (omega arith))

  Climbing-step :
      (r : List ℕ) (i e : ℕ)
      → Climbing r i e
      → start < i / 2
      → Le cmp e (at r (i / 2))
      → Climbing (set r i (at r (i / 2))) (i / 2) e
  Climbing-step r i e c up le = record {
    below = Below-parent c.below c.deep;
    deep = up;
    inside = omega (arith, c.inside);
    room = omega (arith, length-set r i (at r (i / 2)), c.room);
    heap =
        IsHeapFrom-set cmp ord lo n r i (at r (i / 2)) hole
          (IsHeapBut-of_heap cmp ord lo n r i c.heap) (λ _ _. le_refl cmp ord (at r (i / 2)))
          (λ d h1 hn eq.
            le_trans cmp ord (at r (i / 2)) (at r i) (at r d)
              (edge_below r (i / 2) i c.heap (omega arith) (omega arith) c.inside refl)
              (edge_below r i d c.heap (omega (arith, c.deep)) h1 hn eq));
    before = below_parent;
    top = ground (arith, c.top, c.deep, get_or-set r i start (at r (i / 2)) 0 hole);
  }
    where
      hole : i < length r
      hole = omega (arith, c.room, c.inside)

      below_parent : BeforeChildren cmp n (i / 2) (set r i (at r (i / 2))) e
      below_parent d h1 hn eq = elim (ℕ_discrete i d) [
        | yes own ↦ ground (arith, get_or-set r i d (at r (i / 2)) 0 hole)
        | no other ↦
            let le' : Le cmp e (at r d) =
              le_trans cmp ord e (at r (i / 2)) (at r d) le
                (edge_below r (i / 2) d c.heap (omega arith) h1 hn eq) in
            ground (arith, get_or-set r i d (at r (i / 2)) 0 hole)
      ]

  pub climb_lem :
      (fuel : ℕ) (r : List ℕ) (i e : ℕ)
      → i < fuel
      → Climbing r i e
      → (r' : List ℕ) × (climb cmp start fuel r i e ≡ some r') × Sifted cmp lo n r i e r'
  unfolding climb
  climb_lem zero r i e f c = elim f [ ]
  climb_lem (suc fuel) r i e f c = elim (dec_lt start (i / 2)) [
    | yes up ↦ elim (Bool-cases (is_neg (cmp (at r (i / 2)) e))) [
      | inl less ↦ (
        set r i e,
        ground (arith, get-at r (i / 2) (omega arith), put-set r i e hole),
        Sifted-set cmp ord lo n r i e hole but (λ _ _. le_of_neg cmp ord (at r (i / 2)) e less)
            c.before,
      )
      | inr le ↦
          let (r', run, s) =
            climb_lem fuel (set r i (at r (i / 2))) (i / 2) e (omega arith)
              (Climbing-step r i e c up le) in
          (
            r',
            ground (arith, get-at r (i / 2) (omega arith), put-set r i (at r (i / 2)) hole, run),
            Sifted-moved cmp ord lo n r i (i / 2) e r' (omega arith) (omega arith) c.inside
                (omega arith) (omega arith) c.room s,
          )
    ]
    | no bottom ↦
        let at_start : start ≡ i / 2 = omega (arith, Below-le (Below-parent c.below c.deep)) in
        (
          set r i e,
          ground (arith, put-set r i e hole),
          Sifted-set cmp ord lo n r i e hole but
              (λ _ _. subst (λ k. Le cmp (at r k) e) at_start c.top) c.before,
        )
  ]
    where
      hole : i < length r
      hole = omega (arith, c.room, c.inside)

      but : IsHeapBut cmp lo n i r
      but = IsHeapBut-of_heap cmp ord lo n r i c.heap
