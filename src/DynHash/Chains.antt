-- ===== src/DynHash/Chains.antt =====
-- Chains of links through the places of a table, one of which may be free.
use my_libs.Base.{
  ℕ, zero, suc, ◌+◌, ◌≤◌, ◌<◌, ◌≡◌, ◌≢◌, ◌⊎◌, inl, inr, refl, sym, ap, ◌∙◌, arith, ◌==◌,
  if◌then◌else◌, ℕ_discrete,
}
use mathlib.Core.Path.{transport}

-- Each place below `n` but `e` holds a record, whose chain starts at the place `home i`.
pub record Chains (n e : ℕ) (home next : ℕ → ℕ) : Type 0 where
  pub depth : ℕ → ℕ
  pub place : (i : ℕ) → i < n → i ≢ e → (home i < n) × (home i ≢ e) × (home (home i) ≡ home i)
  pub step :
      (i : ℕ)
      → i < n
      → i ≢ e
      → next i < n
      → (next i ≢ e) × (home (next i) ≡ home i) × (home i ≢ next i) × (depth i < depth (next i))
  pub unique : (i j : ℕ) → i < n → i ≢ e → j < n → j ≢ e → next i < n → next i ≡ next j → i ≡ j
  pub reached :
      (i : ℕ) → i < n → i ≢ e → (home i ≡ i) ⊎ ((p : ℕ) × (p < n) × (p ≢ e) × (next p ≡ i))

abbrev pub upd : (ℕ → ℕ) → ℕ → ℕ → ℕ → ℕ
upd f a v i = if i == a then v else f i

-- A link leaves its chain, and its place is free.
pub unlinked :
    (n : ℕ) (home next : ℕ → ℕ) (g : ℕ)
    → Chains n n home next
    → g < n
    → next g < n
    → Chains n (next g) home (upd next g (next (next g)))
unlinked n home next g c g_in some_next = record {
  depth = c.depth;
  place = λ i h u. ground (arith, c.place i, c.place g, c.step g);
  step = λ i h u k. ground (arith, c.place i, c.step i, c.step g, c.step (next g), c.unique i g);
  unique = λ i j h u h' u' k same.
      ground (arith, c.unique i j, c.unique (next g) j, c.unique i (next g), c.step g);
  reached = λ i h u. elim (c.reached i h (omega arith)) [
    | inl own ↦ inl own
    | inr (p, p_in, p_used, into) ↦ elim (ℕ_discrete p (next g)) [
      | yes same ↦ inr (g, g_in, ground (arith, c.step g), ground (arith, ap next same))
      | no other ↦ inr (p, p_in, other, ground arith)
    ]
  ];
}

module _ {n e : ℕ} {home next : ℕ → ℕ} (c : Chains n e home next) where
  -- What holds at the start of a chain, and goes from a link to the next, holds on the chain.
  chain_ind_fuel :
      (P : ℕ → Type 0) (h : ℕ)
      → P h
      → ((i : ℕ) → i < n → i ≢ e → home i ≡ h → next i < n → P i → P (next i))
      → (d j : ℕ) → c.depth j < d
      → j < n
      → j ≢ e
      → home j ≡ h
      → P j
  chain_ind_fuel P h start onward zero j shallow j_in j_used j_home = absurd (omega arith)
  chain_ind_fuel P h start onward (suc d) j shallow j_in j_used j_home =
      elim (c.reached j j_in j_used) [
        | inl own ↦ transport (ap P (sym j_home ∙ own)) start
        | inr (p, p_in, p_used, into) ↦
            let some_next : next p < n = ground arith in
            let s = c.step p p_in p_used some_next in
            let same : home p ≡ h = sym s.1 ∙ ap home into ∙ j_home in
            let before =
              chain_ind_fuel P h start onward d p (ground (arith, s, ap c.depth into)) p_in p_used
                same in
            transport (ap P into) (onward p p_in p_used same some_next before)
      ]

  pub chain_ind :
      (P : ℕ → Type 0) (h : ℕ)
      → P h
      → ((i : ℕ) → i < n → i ≢ e → home i ≡ h → next i < n → P i → P (next i))
      → (j : ℕ) → j < n
      → j ≢ e
      → home j ≡ h
      → P j
  chain_ind P h start onward j j_in j_used j_home =
      chain_ind_fuel P h start onward (suc (c.depth j)) j (omega arith) j_in j_used j_home

  -- A start without a next link is alone on its chain.
  pub alone : (h j : ℕ) → n ≤ next h → j < n → j ≢ e → home j ≡ h → j ≡ h
  alone h j last j_in j_used j_home =
      chain_ind (λ i. i ≡ h) h refl
        (λ i i_in u i_home more same. absurd (ground (arith, ap next same))) j j_in j_used j_home

-- The only link of a chain leaves it.
pub emptied :
    (n : ℕ) (home next : ℕ → ℕ) (h : ℕ)
    → Chains n n home next
    → h < n
    → home h ≡ h
    → n ≤ next h
    → Chains n h home next
emptied n home next h c h_in own last = record {
  depth = c.depth;
  place = λ i i_in u. ground (arith, c.place i, alone c h i last);
  step = λ i i_in u k. ground (arith, c.step i, ap home);
  unique = λ i j i_in u j_in u' k same. c.unique i j i_in (omega arith) j_in (omega arith) k same;
  reached = λ i i_in u. elim (c.reached i i_in (omega arith)) [
    | inl own ↦ inl own
    | inr (p, p_in, p_used, into) ↦
        inr (p, p_in, (λ same. absurd (ground (arith, ap next same))), into)
  ];
}

module _ {n e : ℕ} {home next : ℕ → ℕ} (c : Chains n e home next) (e_in : e < n) where
  -- A record in the free place, on a chain of its own.
  pub settled : (nr : ℕ) → n ≤ nr → Chains n n (upd home e e) (upd next e nr)
  settled nr none_in = record {
    depth = c.depth;
    place = λ i i_in u. ground (arith, c.place i);
    step = λ i i_in u k. ground (arith, c.step i);
    unique = λ i j i_in u j_in u' k same. ground (arith, c.unique i j, c.step i);
    reached = λ i i_in u. elim (ℕ_discrete i e) [
      | yes same ↦ inl (ground arith)
      | no other ↦ elim (c.reached i i_in other) [
        | inl own ↦ inl (ground arith)
        | inr (p, p_in, p_used, into) ↦ inr (p, p_in, omega arith, ground arith)
      ]
    ];
  }

  -- A record in the free place, behind the start of a chain.
  pub joined :
      (h : ℕ)
      → h < n
      → h ≢ e
      → home h ≡ h
      → Chains n n (upd home e h) (upd (upd next e (next h)) h e)
  joined h h_in h_used own = record {
    depth = λ i. if i == e then c.depth h + 1 else if i == h then c.depth h else c.depth i + 1;
    place = λ i i_in u. ground (arith, c.place i);
    step = λ i i_in u k. ground (arith, c.step i, c.step h);
    unique = λ i j i_in u j_in u' k same.
        ground (arith, c.unique i j, c.unique i h, c.unique h j, c.step i, c.step j, c.step h);
    reached = λ i i_in u. elim (ℕ_discrete i e) [
      | yes same ↦ inr (h, h_in, omega arith, ground arith)
      | no other ↦ elim (c.reached i i_in other) [
        | inl own ↦ inl (ground arith)
        | inr (p, p_in, p_used, into) ↦ elim (ℕ_discrete p h) [
          | yes same ↦ inr (e, e_in, omega arith, ground (arith, ap next same))
          | no apart ↦ inr (p, p_in, omega arith, ground arith)
        ]
      ]
    ];
  }

  -- A link that does not start its chain moves to the free place, and leaves its own free.
  pub moved :
      (a q : ℕ)
      → a < n
      → a ≢ e
      → home a ≢ a
      → q < n
      → q ≢ e
      → next q ≡ a
      → Chains n a (upd home e (home a)) (upd (upd next e (next a)) q e)
  moved a q a_in a_used away q_in q_used into = record {
    depth = λ i. if i == e then c.depth a else c.depth i;
    place = λ i i_in u. ground (arith, c.place i, c.place a);
    step = λ i i_in u k. ground (arith, c.step i, c.step a, c.step q, c.unique i q, c.place a);
    unique = λ i j i_in u j_in u' k same. ground (
      arith,
      c.unique i j,
      c.unique i a,
      c.unique a j,
      c.unique i q,
      c.step i,
      c.step j,
      c.step a,
    );
    reached = λ i i_in u. elim (ℕ_discrete i e) [
      | yes same ↦ inr (q, q_in, ground (arith, c.step q), ground arith)
      | no other ↦ elim (c.reached i i_in other) [
        | inl own ↦ inl (ground arith)
        | inr (p, p_in, p_used, into') ↦ elim (ℕ_discrete p a) [
          | yes same ↦ inr (e, e_in, omega arith, ground (arith, ap next same))
          | no apart ↦ inr (p, p_in, apart, ground (arith, ap next))
        ]
      ]
    ];
  }
