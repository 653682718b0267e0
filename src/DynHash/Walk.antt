-- ===== src/DynHash/Walk.antt =====
-- A loop along a chain: how many rounds are left, and which links it comes to.
use my_libs.Base.{
  ℕ, zero, suc, ◌≤◌, ◌<◌, ◌≡◌, ◌≢◌, ◌⊎◌, inl, inr, refl, ap, ◌∙◌, Bool, true, false, arith, ltb,
  if◌then◌else◌,
}
use my_libs.DynHash.Chains.{Chains, chain_ind}

-- How many numbers below `n` pass a test.
unfoldable pub count_below : ℕ → (ℕ → Bool) → ℕ
count_below zero p = 0
count_below (suc n) p = if p n then suc (count_below n p) else count_below n p

count_below-le : (n : ℕ) (p : ℕ → Bool) → count_below n p ≤ n
unfolding count_below
count_below-le zero p = omega arith
count_below-le (suc n) p = ground (arith, count_below-le n p)

count_below_mono :
    (n : ℕ) (p q : ℕ → Bool)
    → ((i : ℕ) → i < n → p i ≡ true → q i ≡ true)
    → count_below n p ≤ count_below n q
unfolding count_below
count_below_mono zero p q sub = omega arith
count_below_mono (suc n) p q sub =
    ground (arith, count_below_mono n p q (λ i h. sub i (omega arith)), sub n (omega arith))

count_below-lt :
    (n : ℕ) (p q : ℕ → Bool) (j : ℕ)
    → ((i : ℕ) → i < n → p i ≡ true → q i ≡ true)
    → j < n
    → p j ≡ false
    → q j ≡ true
    → count_below n p < count_below n q
unfolding count_below
count_below-lt zero p q j sub j_in out in' = absurd (omega arith)
count_below-lt (suc n) p q j sub j_in out in' = ground (
  arith,
  count_below-lt n p q j (λ i h. sub i (omega arith)),
  count_below_mono n p q (λ i h. sub i (omega arith)),
  sub n (omega arith),
  ap p,
  ap q,
)

module _ {n e : ℕ} {home next : ℕ → ℕ} (c : Chains n e home next) where
  -- How many links are deeper than that at `i`.
  unfoldable pub rest : ℕ → ℕ
  rest i = count_below n (λ j. ltb (c.depth i) (c.depth j))

  pub rest-lt : (i : ℕ) → i < n → rest i < n
  unfolding rest count_below
  rest-lt i i_in = omega (
    arith,
    count_below-lt n (λ j. ltb (c.depth i) (c.depth j)) (λ j. true) i (λ j h k. refl) i_in
        (ground arith) refl,
    count_below-le n (λ j. true),
  )

  pub rest-next : (i : ℕ) → i < n → i ≢ e → next i < n → rest (next i) < rest i
  unfolding rest
  rest-next i i_in u k =
      let s = c.step i i_in u k in
      count_below-lt n (λ j. ltb (c.depth (next i)) (c.depth j)) (λ j. ltb (c.depth i) (c.depth j))
        (next i) (λ j h more. ground arith) k (ground arith) (ground arith)

-- `j` comes at or after `i` on a chain.
pub data Follows (next : ℕ → ℕ) : ℕ → ℕ → Type 0 where
  here : (i : ℕ) → Follows next i i
  later : (i j : ℕ) → Follows next (next i) j → Follows next i j

pub follows-next : (next : ℕ → ℕ) (i j : ℕ) → Follows next i j → Follows next i (next j)
follows-next next _ _ (here i) = later i (next i) (here (next i))
follows-next next _ _ (later i j f) = later i (next j) (follows-next next (next i) j f)

-- The chain of a home has each place with that home.
pub Follows-home :
    {n e : ℕ} {home next : ℕ → ℕ}
    → Chains n e home next
    → (j : ℕ) → j < n
    → j ≢ e
    → Follows next (home j) j
Follows-home {n} {e} {home} {next} c j j_in u =
    chain_ind c (Follows next (home j)) (home j) (here (home j))
      (λ i i_in used same more f. follows-next next (home j) i f) j j_in u refl

pub follows_end : {next : ℕ → ℕ} (e i : ℕ) → Follows next e i → next e ≡ e → i ≡ e
follows_end _ _ (here i) fix = refl
follows_end {next} _ _ (later i j f) fix = follows_end (next i) j f (ap next fix) ∙ fix

pub follows-cases : {next : ℕ → ℕ} (i j : ℕ) → Follows next i j → (j ≡ i) ⊎ Follows next (next i) j
follows-cases _ _ (here i) = inl refl
follows-cases _ _ (later i j f) = inr f
