-- ===== src/Array/Fill.antt =====
-- Elements of a block of my_array.c overwritten or cleared.
use my_libs.Base.{
  ℕ, ◌+◌, ◌-◌, ◌*◌, ◌≤◌, ◌<◌, ◌≡◌, ◌≢◌, ◌⊎◌, inl, inr, ap, sym, ◌∙◌, List, [], ◌++◌, arith, length,
  get_or, set, get_or-set, length-set, read, splice, read-splice_self, read-splice_apart, list_ext,
  length-append, get_or-append, dec_lt, ℕ_discrete, replicate, length-replicate, get_or-replicate,
  read-splice_in, read-replicate,
}
use native.Mathlib.Nat.{add-mul}
use my_libs.Array.Contents.{chunks, length-chunks, get_or-chunks, index_step}

-- Two elements at different indices lie apart.
pub chunk_apart :
    (s i k : ℕ) (e : List ℕ)
    → length e ≡ s
    → i ≢ k
    → ((0 + k) * s + s ≤ i * s) ⊎ (i * s + length e ≤ (0 + k) * s)
chunk_apart s i k e he p = elim (dec_lt k i) [
  | yes q ↦ inl (index_step (0 + k) s i (omega arith))
  | no q ↦ inr (omega (arith, index_step i s (0 + k) (omega arith)))
]

-- Writing one element over another replaces it.
pub chunks-splice-set :
    (b : List ℕ) (s n i : ℕ) (e : List ℕ)
    → length e ≡ s
    → i < n
    → n * s ≤ length b
    → chunks (splice b (i * s) e) s 0 n ≡ set (chunks b s 0 n) i e
chunks-splice-set b s n i e he hi fits =
    list_ext (chunks c s 0 n) (set (chunks b s 0 n) i e) []
      (omega (arith, length-chunks c s 0 n, length-chunks b s 0 n, length-set (chunks b s 0 n) i e))
      (λ k h. agree k (omega (arith, length-chunks c s 0 n)))
  where
    c : List ℕ
    c = splice b (i * s) e

    fits_e : i * s + length e ≤ length b
    fits_e = omega (arith, index_step i s n hi)

    agree : (k : ℕ) → k < n → get_or (chunks c s 0 n) k [] ≡ get_or (set (chunks b s 0 n) i e) k []
    agree k h = elim (ℕ_discrete i k) [
      | yes p ↦
          let at_i : 0 + k ≡ i = omega arith in
          get_or-chunks c s 0 n k h
          ∙ ap (λ j. read c (j * s) s) at_i
          ∙ ap (λ l. read c (i * s) l) (sym he)
          ∙ read-splice_self b (i * s) e fits_e
          ∙ ground (arith, get_or-set (chunks b s 0 n) i k e [], length-chunks b s 0 n)
      | no p ↦
          get_or-chunks c s 0 n k h
          ∙ read-splice_apart b (i * s) e ((0 + k) * s) s fits_e (chunk_apart s i k e he p)
          ∙ ground (
            arith,
            get_or-set (chunks b s 0 n) i k e [],
            length-chunks b s 0 n,
            get_or-chunks b s 0 n k h,
          )
    ]

pub scaled_sub : (n i s : ℕ) → n ≤ i → n * s + (i - n) * s ≡ i * s
scaled_sub n i s h =
    let joined : n + (i - n) ≡ i = omega arith in sym (add-mul n (i - n) s) ∙ ap (λ k. k * s) joined

-- Clearing the elements from `n` up to `i`.
pub chunks-splice_zeroes :
    (b : List ℕ) (s n i : ℕ)
    → n ≤ i
    → i * s ≤ length b
    → chunks (splice b (n * s) (replicate ((i - n) * s) 0)) s 0 i
      ≡ chunks b s 0 n ++ replicate (i - n) (replicate s 0)
chunks-splice_zeroes b s n i h fits =
    list_ext (chunks c s 0 i) (chunks b s 0 n ++ replicate (i - n) (replicate s 0)) [] counts
      (λ k hk. agree k (omega (arith, length-chunks c s 0 i)))
  where
    zeroes : List ℕ
    zeroes = replicate ((i - n) * s) 0

    c : List ℕ
    c = splice b (n * s) zeroes

    inside : n * s + length zeroes ≤ length b
    inside = omega (arith, length-replicate {A = ℕ} ((i - n) * s) 0, scaled_sub n i s h, fits)

    counts : length (chunks c s 0 i) ≡ length (chunks b s 0 n ++ replicate (i - n) (replicate s 0))
    counts = omega (
      arith,
      length-chunks c s 0 i,
      length-chunks b s 0 n,
      length-append (chunks b s 0 n) (replicate (i - n) (replicate s 0)),
      length-replicate (i - n) (replicate {A = ℕ} s 0),
    )

    agree :
        (k : ℕ)
        → k < i
        → get_or (chunks c s 0 i) k []
          ≡ get_or (chunks b s 0 n ++ replicate (i - n) (replicate s 0)) k []
    agree k hk = elim (dec_lt k n) [
      | yes p ↦
          get_or-chunks c s 0 i k hk
          ∙ read-splice_apart b (n * s) zeroes ((0 + k) * s) s inside
              (inl (index_step (0 + k) s n (omega arith)))
          ∙ ground (
            arith,
            get_or-append (chunks b s 0 n) (replicate (i - n) (replicate s 0)) k [],
            length-chunks b s 0 n,
            get_or-chunks b s 0 n k p,
          )
      | no p ↦
          let z : 0 + k ≡ k = omega arith in
          let behind : k - length (chunks b s 0 n) ≡ k - n = omega (arith, length-chunks b s 0 n) in
          let enough : (k - n) * s + s ≤ (i - n) * s = index_step (k - n) s (i - n) (omega arith) in
          get_or-chunks c s 0 i k hk
          ∙ ap (λ j. read c (j * s) s) z
          ∙ ap (λ o. read c o s) (sym (scaled_sub n k s (omega arith)))
          ∙ read-splice_in b (n * s) zeroes ((k - n) * s) s inside
              (omega (arith, length-replicate {A = ℕ} ((i - n) * s) 0))
          ∙ read-replicate ((i - n) * s) ((k - n) * s) s enough
          ∙ ground (
            arith,
            get_or-append (chunks b s 0 n) (replicate (i - n) (replicate s 0)) k [],
            length-chunks b s 0 n,
            ap (λ j. get_or (replicate (i - n) (replicate {A = ℕ} s 0)) j []) behind,
            get_or-replicate (i - n) (replicate {A = ℕ} s 0) (k - n) [],
          )
    ]
