-- ===== src/DynHash/Movelink.antt =====
-- movelink of my_dyn_hash.c: the link of a chain before a place points elsewhere.
use my_libs.Base.{
  ℕ, zero, suc, ◌≤◌, ◌<◌, ◌≡◌, ◌≢◌, ◌⊎◌, inl, inr, refl, ap, ◌∙◌, arith, ◌==◌, if◌then◌else◌,
  ℕ_discrete, dec_lt, length, List, Option,
}
use mathlib.Core.Path.{transport}
use my_libs.DynHash.{MyHashLink, put_next, movelink_from, movelink}
use my_libs.DynHash.Chains.{Chains, chain_ind}
use my_libs.DynHash.Walk.{rest, rest-lt, rest-next}
use my_libs.DynHash.Valid.{next_of, link_at_lem}

-- A way along a chain, inside the table.
pub data Leads (next : ℕ → ℕ) (n : ℕ) : ℕ → ℕ → Type 0 where
  stay : (i : ℕ) → Leads next n i i
  go : (i j : ℕ) → next i < n → Leads next n (next i) j → Leads next n i j

leads-next : (next : ℕ → ℕ) (n i j : ℕ) → Leads next n i j → next j < n → Leads next n i (next j)
leads-next next n _ _ (stay i) more = go i (next i) more (stay (next i))
leads-next next n _ _ (go i j k l) more = go i (next j) k (leads-next next n (next i) j l more)

leads-cases :
    {next : ℕ → ℕ} {n : ℕ} (i j : ℕ)
    → Leads next n i j
    → (j ≡ i) ⊎ ((next i < n) × Leads next n (next i) j)
leads-cases _ _ (stay i) = inl refl
leads-cases _ _ (go i j k l) = inr (k, l)

movelink_from_turn :
    (links : List MyHashLink) (find newlink fuel i : ℕ)
    → i < length links
    → movelink_from (suc fuel) links find i newlink ≡ (
        if next_of links i == find
        then put_next links i newlink
        else movelink_from fuel links find (next_of links i) newlink)
unfolding movelink_from
movelink_from_turn links find newlink fuel i h = ground (arith, link_at_lem links i h)

module _ {n e : ℕ} {home next : ℕ → ℕ} (c : Chains n e home next) where
  pub Leads-home : (j : ℕ) → j < n → j ≢ e → Leads next n (home j) j
  Leads-home j j_in u =
      chain_ind c (Leads next n (home j)) (home j) (stay (home j))
        (λ i i_in used same more l. leads-next next n (home j) i l more) j j_in u refl

  -- The links of a list are those of the chains, but perhaps that at `find`.
  module _ (links : List MyHashLink) (find newlink : ℕ) (fits : n ≤ length links)
      (links_are : (i : ℕ) → i < n → i ≢ e → i ≢ find → next_of links i ≡ next i) where
    abbrev Moves : ℕ → Option (List MyHashLink) → Type 0
    Moves start result =
        (q : ℕ) × (q < n)
        × (q ≢ e)
        × (home q ≡ home start)
        × (next q ≡ find)
        × (q ≢ find)
        × (result ≡ put_next links q newlink)

    movelink_from_lem :
        (fuel start q : ℕ)
        → rest c start < fuel
        → start < n
        → start ≢ e
        → start ≢ find
        → Leads next n start q
        → next q ≡ find
        → Moves start (movelink_from fuel links find start newlink)
    movelink_from_lem zero start q enough start_in u apart l before = absurd (omega arith)
    movelink_from_lem (suc fuel) start q enough start_in u apart l before =
        let turn = movelink_from_turn links find newlink fuel start (omega arith) in
        let here = links_are start start_in u apart in
        elim (ℕ_discrete (next start) find) [
          | yes same ↦ (start, start_in, u, refl, same, apart, ground (arith, turn, here))
          | no other ↦ elim (leads-cases start q l) [
            | inl last ↦ absurd (ground (arith, ap next last))
            | inr (more, l') ↦
                let s = c.step start start_in u more in
                let (r, r_in, r_used, r_home, r_next, r_apart, e') =
                  movelink_from_lem fuel (next start) q
                    (omega (arith, rest-next c start start_in u more)) more s.0 other l' before in
                (
                  r,
                  r_in,
                  r_used,
                  r_home ∙ s.1,
                  r_next,
                  r_apart,
                  ground (
                    arith,
                    turn,
                    here,
                    e',
                    ap (λ i. movelink_from fuel links find i newlink) here,
                  ),
                )
          ]
        ]

    -- From the start of the chain of a link that points to `find`.
    pub movelink_lem :
        (start q : ℕ)
        → q < n
        → q ≢ e
        → home q ≡ start
        → start ≢ find
        → next q ≡ find
        → Moves start (movelink links find start newlink)
    unfolding movelink
    movelink_lem start q q_in u q_home apart before =
        let p = c.place q q_in u in
        let start_in : start < n = ground (arith, p) in
        movelink_from_lem (length links) start q (omega (arith, rest-lt c start start_in)) start_in
          (ground (arith, p)) apart
          (transport (ap (λ s. Leads next n s q) q_home) (Leads-home q q_in u)) before

module _ {n e : ℕ} {home next : ℕ → ℕ} (c : Chains n e home next) where
  has_end_fuel :
      (fuel i : ℕ)
      → rest c i < fuel
      → i < n
      → i ≢ e
      → (t : ℕ) × (t < n) × (t ≢ e) × (home t ≡ home i) × (n ≤ next t)
  has_end_fuel zero i enough i_in u = absurd (omega arith)
  has_end_fuel (suc fuel) i enough i_in u = elim (dec_lt (next i) n) [
    | no over ↦ (i, i_in, u, refl, omega arith)
    | yes more ↦
        let s = c.step i i_in u more in
        let (t, t_in, t_used, t_home, t_next) =
          has_end_fuel fuel (next i) (omega (arith, rest-next c i i_in u more)) more s.0 in
        (t, t_in, t_used, t_home ∙ s.1, t_next)
  ]

  -- Each chain ends.
  pub has_end :
      (i : ℕ) → i < n → i ≢ e → (t : ℕ) × (t < n) × (t ≢ e) × (home t ≡ home i) × (n ≤ next t)
  has_end i = has_end_fuel (suc (rest c i)) i (omega arith)
