-- ===== src/DynHash/Check.antt =====
-- A test for chains without a free place, by evaluation.
use my_libs.Base.{
  ℕ, zero, suc, ◌<◌, ◌≡◌, ◌⊎◌, inl, inr, ap, Bool, true, false, arith, ltb, ◌==◌, if◌then◌else◌,
  ◌&&◌, ◌||◌, ◌∙◌, Bool-cases, ℕ_discrete,
}
use my_libs.DynHash.Chains.{Chains}

unfoldable pub each_below : ℕ → (ℕ → Bool) → Bool
each_below zero test = true
each_below (suc last) test = each_below last test && test last

pub each_below-lt :
    (n : ℕ) (test : ℕ → Bool) → each_below n test ≡ true → (i : ℕ) → i < n → test i ≡ true
unfolding each_below
each_below-lt zero test passed i i_in = absurd (omega arith)
each_below-lt (suc last) test passed i i_in = elim (ℕ_discrete i last) [
  | yes same ↦ ap test same ∙ ground arith
  | no other ↦ each_below-lt last test (ground arith) i (omega arith)
]

-- `before` gives the place before one that is not at its home.
module _ (n : ℕ) (home next depth before : ℕ → ℕ) where
  abbrev sound_at : ℕ → Bool
  sound_at i =
      (ltb (home i) n && home (home i) == home i)
      && (if ltb (next i) n
          then home (next i) == home i
            && (if home i == next i then false else true)
            && ltb (depth i) (depth (next i))
          else true)
      && (home i == i || (ltb (before i) n && next (before i) == i))

  abbrev apart_at : ℕ → ℕ → Bool
  apart_at i j = if ltb (next i) n && next i == next j then i == j else true

  unfoldable pub are_chains : Bool
  unfolding each_below
  are_chains = each_below n sound_at && each_below n (λ i. each_below n (apart_at i))

  pub are_chains-Chains : are_chains ≡ true → Chains n n home next
  unfolding are_chains
  are_chains-Chains h =
      let each : (i : ℕ) → i < n → sound_at i ≡ true =
        λ i i_in. each_below-lt n sound_at (ground arith) i i_in in
      let pairs : (i j : ℕ) → i < n → j < n → apart_at i j ≡ true = λ i j i_in j_in.
        each_below-lt n (apart_at i)
          (each_below-lt n (λ i. each_below n (apart_at i)) (ground arith) i i_in) j j_in in
      record {
        depth = depth;
        place = λ i i_in u. ground (arith, each i);
        step = λ i i_in u k. ground (arith, each i);
        unique = λ i j i_in u j_in u' k same. ground (arith, pairs i j);
        reached = λ i i_in u. elim (Bool-cases (home i == i)) [
          | inl own ↦ inl (ground arith)
          | inr away ↦
              inr (before i, ground (arith, each i), ground (arith, each i), ground (arith, each i))
        ];
      }

-- Each link of `n` leads to a place, or is `end`.
unfoldable pub are_ends : ℕ → ℕ → (ℕ → ℕ) → Bool
unfolding each_below
are_ends n end next = each_below n (λ i. ltb (next i) n || next i == end)

pub are_ends_lem :
    (n end : ℕ) (next : ℕ → ℕ)
    → are_ends n end next ≡ true
    → (i : ℕ) → i < n
    → (next i < n) ⊎ (next i ≡ end)
unfolding are_ends
are_ends_lem n end next h i i_in =
    let each = each_below-lt n (λ i. ltb (next i) n || next i == end) h i i_in in
    ground (arith, each)
