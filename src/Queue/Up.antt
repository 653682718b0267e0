-- ===== src/Queue/Up.antt =====
-- The loop of queue_insert of my_queue.c, which stops at `root[0]`, where the new element stands.
use mathlib.Core.Path.{subst}
use my_libs.Base.{
  ℕ, zero, suc, ◌/◌, ◌<◌, ◌≤◌, ◌≡◌, ◌≢◌, refl, inl, inr, sym, ap, ◌∙◌, ◌==◌, if◌then◌else◌, true,
  false, some, List, arith, length, set, get_or-set, length-set, ℕ_discrete, Bool-cases,
}
use my_libs.Base.Int.{is_neg}
use my_libs.Queue.{Order, sift_up}
use my_libs.Queue.Order.{IsOrder, Le, at, le_trans, le_of_neg}
use my_libs.Queue.Hole.{
  put-set, get-at, IsHeapBut, BeforeChildren, AfterParent, Sifted, Sifted-set, Sifted-moved,
}

module _ (cmp : Order) (ord : IsOrder cmp) (n : ℕ) where
  -- The edge from a place that is not the hole to one that is not either.
  edge :
      (r : List ℕ) (i d j : ℕ)
      → IsHeapBut cmp 1 n i r
      → 1 < d
      → d ≤ n
      → d ≢ i
      → j ≢ i
      → d / 2 ≡ j
      → Le cmp (at r j) (at r d)
  edge r i d j but h1 hn ni nj eq =
      subst (λ k. Le cmp (at r k) (at r d)) eq (but d h1 hn (omega arith) ni (λ e. nj (sym eq ∙ e)))

  -- What the way up keeps: the order away from the hole, and across it.
  pub record Rising (r : List ℕ) (i e : ℕ) : Type 0 where
    pub one : 1 ≤ i
    pub inside : i ≤ n
    pub room : n < length r
    pub sentinel : at r 0 ≡ e
    pub but : IsHeapBut cmp 1 n i r
    pub bridged : (c : ℕ) → 1 < c → c ≤ n → c / 2 ≡ i → AfterParent cmp 1 i r (at r c)
    pub before : BeforeChildren cmp n i r e

  -- The element stops below the sentinel, which is the element itself.
  not_at_top :
      (r : List ℕ) (i e : ℕ) → Rising r i e → is_neg (cmp e (at r (i / 2))) ≡ true → 1 ≤ i / 2
  not_at_top r i e s less = elim (ℕ_discrete (i / 2) 0) [
    | no ne ↦ omega arith
    | yes z ↦
        let own : is_neg (cmp e e) ≡ true =
          subst (λ k. is_neg (cmp e k) ≡ true) (ap (at r) z ∙ s.sentinel) less in
        let never : is_neg (cmp e e) ≡ false = ord.asym e e own in ground arith
  ]

  Rising-step :
      (r : List ℕ) (i e : ℕ)
      → Rising r i e
      → is_neg (cmp e (at r (i / 2))) ≡ true
      → Rising (set r i (at r (i / 2))) (i / 2) e
  Rising-step r i e s less = record {
    one = up;
    inside = omega (arith, s.inside);
    room = omega (arith, length-set r i parent, s.room);
    sentinel = ground (arith, at-new 0, s.sentinel, s.one);
    but = λ c h1 hn hlo ni nj.
        ground (arith, at-new c, at-new (c / 2), s.but c h1 hn hlo, s.bridged c h1 hn, up);
    bridged = across;
    before = below;
  }
    where
      parent : ℕ
      parent = at r (i / 2)

      up : 1 ≤ i / 2
      up = not_at_top r i e s less

      hole : i < length r
      hole = omega (arith, s.room, s.inside)

      at-new : (c : ℕ) → at (set r i parent) c ≡ (if i == c then parent else at r c)
      at-new c = get_or-set r i c parent 0 hole

      beside : (c : ℕ) → 1 < c → c ≤ n → c / 2 ≡ i / 2 → i ≢ c → Le cmp parent (at r c)
      beside c h1 hn eq ne = edge r i c (i / 2) s.but h1 hn (λ p. ne (sym p)) (omega arith) eq

      above : 1 < i / 2 → Le cmp (at r (i / 2 / 2)) parent
      above g =
          edge r i (i / 2) (i / 2 / 2) s.but g (omega (arith, s.inside)) (omega arith) (omega arith)
            refl

      across :
          (c : ℕ)
          → 1 < c
          → c ≤ n
          → c / 2 ≡ i / 2
          → AfterParent cmp 1 (i / 2) (set r i parent) (at (set r i parent) c)
      across c h1 hn eq g1 g2 = elim (ℕ_discrete i c) [
        | yes own ↦ ground (arith, at-new c, at-new (i / 2 / 2), above g1)
        | no other ↦
            let le : Le cmp (at r (i / 2 / 2)) (at r c) =
              le_trans cmp ord _ parent _ (above g1) (beside c h1 hn eq other) in
            ground (arith, at-new c, at-new (i / 2 / 2))
      ]

      below : BeforeChildren cmp n (i / 2) (set r i parent) e
      below c h1 hn eq = elim (ℕ_discrete i c) [
        | yes own ↦ ground (arith, at-new c, le_of_neg cmp ord e parent less)
        | no other ↦
            let le : Le cmp e (at r c) =
              le_trans cmp ord e parent (at r c) (le_of_neg cmp ord e parent less)
                (beside c h1 hn eq other) in
            ground (arith, at-new c)
      ]

  pub sift_up_lem :
      (fuel : ℕ) (r : List ℕ) (i e : ℕ)
      → i < fuel
      → Rising r i e
      → (r' : List ℕ) × (sift_up cmp fuel r i e ≡ some r') × Sifted cmp 1 n r i e r'
  unfolding sift_up
  sift_up_lem zero r i e f s = elim f [ ]
  sift_up_lem (suc fuel) r i e f s =
      let hole : i < length r = omega (arith, s.room, s.inside) in
      elim (Bool-cases (is_neg (cmp e (at r (i / 2))))) [
        | inl less ↦
            let up = not_at_top r i e s less in
            let (r', run, done) =
              sift_up_lem fuel (set r i (at r (i / 2))) (i / 2) e (omega arith)
                (Rising-step r i e s less) in
            (
              r',
              ground (arith, get-at r (i / 2) (omega arith), put-set r i (at r (i / 2)) hole),
              Sifted-moved cmp ord 1 n r i (i / 2) e r' (omega (arith, s.one)) s.one s.inside up
                  (omega (arith, s.inside)) s.room done,
            )
        | inr le ↦ (
          set r i e,
          ground (arith, get-at r (i / 2) (omega arith), put-set r i e hole),
          Sifted-set cmp ord 1 n r i e hole s.but (λ _ _. le) s.before,
        )
      ]
