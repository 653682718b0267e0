-- ===== src/DynHash/Shrink.antt =====
-- A table that loses its last place: the chain that starts there joins another one.
use my_libs.Base.{
  ℕ, zero, suc, ◌+◌, ◌≤◌, ◌<◌, ◌≡◌, ◌≢◌, inl, inr, ap, ◌∙◌, arith, ◌==◌, if◌then◌else◌, ℕ_discrete,
  max,
}
use my_libs.DynHash.Chains.{Chains, upd}

-- More than each depth.
above : (n : ℕ) (f : ℕ → ℕ) → (m : ℕ) × ((i : ℕ) → i < n → f i < m)
above zero f = (0, λ i h. absurd (omega arith))
above (suc n) f =
    let (m, below) = above n f in (max m (suc (f n)), λ i h. ground (arith, below i, ap f))

-- The last place is free.
pub shrunk :
    (n : ℕ) (home home' next : ℕ → ℕ)
    → Chains (suc n) n home next
    → ((i : ℕ) → i < n → home i ≢ n → home' i ≡ home i)
    → Chains n n home' next
shrunk n home home' next c kept = record {
  depth = c.depth;
  place = λ i h u. ground (arith, c.place i, kept i, kept (home i), ap home);
  step = λ i h u k. ground (arith, c.step i, c.place i, c.place (next i), kept i, kept (next i));
  unique = λ i j h u h' u' k same. c.unique i j (omega arith) u (omega arith) u' (omega arith) same;
  reached = λ i h u. elim (c.reached i (omega arith) u) [
    | inl own ↦ inl (ground (arith, kept i))
    | inr (p, p_in, p_used, into) ↦ inr (p, omega arith, p_used, into)
  ];
}

-- The homes after a chain at `b` has become one at `h`.
abbrev pub rehomed : (ℕ → ℕ) → ℕ → ℕ → ℕ → ℕ
rehomed home b h i = if home i == b then h else home i

module _ {n e : ℕ} {home next : ℕ → ℕ} (c : Chains n e home next) (b : ℕ) (b_in : b < n)
    (b_used : b ≢ e) (b_home : home b ≡ b) where
  -- The start of a chain moves to the free place, and leaves its own free.
  pub renamed :
      e < n → Chains n b (λ i. if i == e then e else rehomed home b e i) (upd next e (next b))
  renamed e_in = record {
    depth = λ i. if i == e then c.depth b else c.depth i;
    place = λ i i_in u. ground (arith, c.place i);
    step = λ i i_in u k. ground (arith, c.step i, c.step b);
    unique = λ i j i_in u j_in u' k same.
        ground (arith, c.unique i j, c.unique b j, c.unique i b, c.step i, c.step b);
    reached = λ i i_in u. elim (ℕ_discrete i e) [
      | yes same ↦ inl (ground arith)
      | no other ↦ elim (c.reached i i_in other) [
        | inl own' ↦ inl (ground arith)
        | inr (p, p_in, p_used, into) ↦ elim (ℕ_discrete p b) [
          | yes same ↦ inr (e, e_in, omega arith, ground (arith, ap next same))
          | no apart ↦ inr (p, p_in, apart, ground arith)
        ]
      ]
    ];
  }

  -- A chain, whose last link is at `t`, goes behind the start of another one.
  pub merged :
      (h t : ℕ)
      → h < n
      → h ≢ e
      → home h ≡ h
      → h ≢ b
      → t < n
      → t ≢ e
      → home t ≡ b
      → n ≤ next t
      → Chains n e (rehomed home b h) (upd (upd next t (next h)) h b)
  merged h t h_in h_used own apart t_in t_used t_home ends =
      let (m, below) = above n c.depth in
      record {
        depth = λ i.
            if home i == b
            then c.depth h + c.depth i + 1
            else if i == h
            then c.depth h
            else c.depth i + m + c.depth h + 1;
        place = λ i i_in u. ground (arith, c.place i);
        step = λ i i_in u k.
            ground (arith, c.step i, c.step h, c.unique i h, below t, below b, below i);
        unique = λ i j i_in u j_in u' k same.
            ground (arith, c.unique i j, c.unique i h, c.unique h j, c.step i, c.step h, c.step j);
        reached = λ i i_in u. elim (ℕ_discrete i b) [
          | yes same ↦ inr (h, h_in, h_used, ground arith)
          | no other ↦ elim (c.reached i i_in u) [
            | inl own' ↦ inl (ground arith)
            | inr (p, p_in, p_used, into) ↦ elim (ℕ_discrete p h) [
              | yes same ↦ inr (t, t_in, t_used, ground (arith, ap next same))
              | no apart' ↦ inr (p, p_in, p_used, ground (arith, ap next))
            ]
          ]
        ];
      }

  -- A link further on its chain becomes the start of it.
  pub rotated :
      (a q : ℕ)
      → a < n
      → a ≢ e
      → home a ≡ b
      → a ≢ b
      → q < n
      → q ≢ e
      → next q ≡ a
      → Chains n e (rehomed home b a) (upd (upd next q (next a)) a b)
  rotated a q a_in a_used a_home apart q_in q_used into = record {
    depth = λ i. if i == a then 0 else c.depth i + 1;
    place = λ i i_in u. ground (arith, c.place i);
    step = λ i i_in u k. ground (arith, c.step i, c.step a, c.step q, c.unique i q, c.place i);
    unique = λ i j i_in u j_in u' k same. ground (
      arith,
      c.unique i j,
      c.unique i a,
      c.unique a j,
      c.step i,
      c.step a,
      c.step j,
      c.unique i q,
    );
    reached = λ i i_in u. elim (ℕ_discrete i b) [
      | yes same ↦ inr (a, a_in, a_used, ground arith)
      | no other ↦ elim (c.reached i i_in u) [
        | inl own' ↦ inl (ground arith)
        | inr (p, p_in, p_used, into') ↦ elim (ℕ_discrete p a) [
          | yes same ↦ inr (q, q_in, q_used, ground (arith, ap next same, c.step q, c.step a))
          | no apart' ↦ elim (ℕ_discrete i a) [
            | yes same ↦ inl (ground arith)
            | no other' ↦ inr (p, p_in, p_used, ground (arith, ap next))
          ]
        ]
      ]
    ];
  }

-- Only the homes and the links of the used places count.
pub chains_ext :
    {n e : ℕ} {home next home' next' : ℕ → ℕ}
    → Chains n e home next
    → ((i : ℕ) → i < n → i ≢ e → home' i ≡ home i)
    → ((i : ℕ) → i < n → i ≢ e → next' i ≡ next i)
    → Chains n e home' next'
chains_ext {n} {e} {home} {next} {home'} {next'} c homes nexts = record {
  depth = c.depth;
  place = λ i i_in u. ground (arith, c.place i, homes i, homes (home i), ap home');
  step = λ i i_in u k.
      ground
        (arith, c.step i, homes i, nexts i, homes (next i), ap home', ap c.depth (nexts i i_in u));
  unique = λ i j i_in u j_in u' k same. ground (arith, c.unique i j, nexts i, nexts j);
  reached = λ i i_in u. elim (c.reached i i_in u) [
    | inl own ↦ inl (homes i i_in u ∙ own)
    | inr (p, p_in, p_used, into) ↦ inr (p, p_in, p_used, nexts p p_in p_used ∙ into)
  ];
}
