-- ===== src/DynHash/Tally.antt =====
-- How many used places of a table hold a record.
use my_libs.Base.{
  ℕ, zero, suc, ◌+◌, ◌≤◌, ◌<◌, ◌≡◌, ◌≢◌, refl, ap, Bool, false, arith, ◌==◌, if◌then◌else◌,
  ℕ_discrete,
}
use my_libs.DynHash.Chains.{upd}
use my_libs.DynHash.Walk.{count_below}

-- Among the places below `n` but `e`.
unfoldable pub tally : ℕ → ℕ → (ℕ → ℕ) → ℕ → ℕ
unfolding count_below
tally n e items x = count_below n (λ i. if i == e then false else items i == x)

abbrev pub unit : ℕ → ℕ → ℕ
unit a x = if a == x then 1 else 0

count_below_ext :
    (n : ℕ) (p q : ℕ → Bool) → ((i : ℕ) → i < n → p i ≡ q i) → count_below n p ≡ count_below n q
unfolding count_below
count_below_ext zero p q same = refl
count_below_ext (suc n) p q same =
    ground (arith, same n (omega arith), count_below_ext n p q (λ i h. same i (omega arith)))

pub tally_ext :
    (n e : ℕ) (f g : ℕ → ℕ) (x : ℕ)
    → ((i : ℕ) → i < n → i ≢ e → f i ≡ g i)
    → tally n e f x ≡ tally n e g x
unfolding tally
tally_ext n e f g x same = count_below_ext n _ _ (λ i h. elim (ℕ_discrete i e) [
  | yes here ↦ ground arith
  | no other ↦ ground (arith, same i h other)
])

-- The place left out, counted.
pub tally_hole :
    (n m e : ℕ) (items : ℕ → ℕ) (x : ℕ)
    → e < n
    → n ≤ m
    → tally n m items x ≡ tally n e items x + unit (items e) x
unfolding tally count_below
tally_hole zero m e items x e_in out = absurd (omega arith)
tally_hole (suc n) m e items x e_in out = elim (ℕ_discrete n e) [
  | yes same ↦ ground (
    arith,
    ap items same,
    count_below_ext n (λ i. if i == m then false else items i == x)
        (λ i. if i == e then false else items i == x) (λ i h. ground arith),
  )
  | no other ↦ ground (arith, tally_hole n m e items x (omega arith) (omega arith))
]

-- A record moves to the place that was left out.
pub tally_move :
    (n a e : ℕ) (items : ℕ → ℕ) (x : ℕ)
    → a < n
    → e < n
    → a ≢ e
    → tally n a (upd items e (items a)) x ≡ tally n e items x
tally_move n a e items x a_in e_in apart =
    let moved = upd items e (items a) in
    let kept : moved a ≡ items a = ground arith in
    let came : moved e ≡ items a = ground arith in
    omega (
      arith,
      tally_hole n n a moved x a_in (omega arith),
      tally_hole n n e moved x e_in (omega arith),
      ap (λ y. unit y x) kept,
      ap (λ y. unit y x) came,
      tally_ext n e moved items x (λ i i_in u. ground arith),
    )

-- The last place is left out.
pub tally_last : (n : ℕ) (items : ℕ → ℕ) (x : ℕ) → tally (suc n) n items x ≡ tally n n items x
unfolding tally count_below
tally_last n items x = ground arith
