-- ===== src/DynHash/Mask.antt =====
-- The home of a hash value, of my_hash_mask, by arithmetic: it lies in the table, and a table that
-- grows by one place moves only the values of one home.
use Prim.Native.Nat.{
  ℕ, zero, suc, ◌+◌, ◌-◌, ◌*◌, ◌/◌, ◌%◌, ◌^◌, ◌≤◌, ◌<◌, min, bit_and, digits, bit_and-bitwise,
}
use my_libs.Base.{
  ◌≡◌, ◌≢◌, ◌⊎◌, inl, inr, sym, ap, ◌∙◌, arith, ltb, ◌==◌, if◌then◌else◌, mod-eq_of_lt, dec_lt,
}
use native.Mathlib.Nat.{
  zero-mod, div-add-mod, mul_comm, mod-eq-sub-mod, pow-le-pow_right, mod-lt, mul-add-mod_self_left,
  mul_assoc,
}
use my_libs.DynHash.{my_hash_mask}

-- The digits that two numbers share, at most `fuel` of them.
abbrev shared : ℕ → ℕ → ℕ → ℕ
shared fuel hashnr mask = digits (λ _. 0) min fuel hashnr mask

shared-le : (fuel hashnr mask : ℕ) → shared fuel hashnr mask ≤ mask
shared-le zero hashnr mask = omega arith
shared-le (suc fuel) zero mask = omega arith
shared-le (suc fuel) (suc hashnr) mask = omega (arith, shared-le fuel (suc hashnr / 2) (mask / 2))

bit_and-le : (hashnr mask : ℕ) → bit_and hashnr mask ≤ mask
bit_and-le hashnr mask = omega (arith, bit_and-bitwise hashnr mask, shared-le hashnr hashnr mask)

pub pow-suc : (k : ℕ) → 2 ^ suc k ≡ 2 * 2 ^ k
pow-suc k = omega arith

pub pow-pos : (k : ℕ) → 0 < 2 ^ k
pow-pos zero = omega arith
pow-pos (suc k) = omega (arith, pow-suc k, pow-pos k)

double-mod : (a p : ℕ) → 0 < p → a % (2 * p) ≡ a / 2 % p * 2 + a % 2
double-mod a p h =
    let r : ℕ = a / 2 % p * 2 + a % 2 in
    let small : r < 2 * p = omega (arith, mod-lt (a / 2) h) in
    let whole : 2 * p * (a / 2 / p) + r ≡ a =
      omega (arith, div-add-mod (a / 2) p, mul_assoc 2 p (a / 2 / p)) in
    ap (λ m. m % (2 * p)) (sym whole)
    ∙ mul-add-mod_self_left (2 * p) (a / 2 / p) r
    ∙ mod-eq_of_lt small

-- A mask of ones keeps the lowest digits, which are the remainder by a power of two.
low_digits : (fuel k hashnr : ℕ) → hashnr ≤ fuel → shared fuel hashnr (2 ^ k - 1) ≡ hashnr % 2 ^ k
low_digits zero k zero few = omega (arith, zero-mod (2 ^ k))
low_digits zero k (suc hashnr) few = absurd (omega arith)
low_digits (suc fuel) k zero few = omega (arith, zero-mod (2 ^ k))
low_digits (suc fuel) zero (suc hashnr) few = omega (arith, shared-le (suc fuel) (suc hashnr) 0)
low_digits (suc fuel) (suc k) (suc hashnr) few =
    let shifted : (2 ^ suc k - 1) / 2 ≡ 2 ^ k - 1 = omega (arith, pow-suc k, pow-pos k) in
    let upper : shared fuel (suc hashnr / 2) ((2 ^ suc k - 1) / 2) ≡ suc hashnr / 2 % 2 ^ k =
      ap (shared fuel (suc hashnr / 2)) shifted
      ∙ low_digits fuel k (suc hashnr / 2) (omega arith) in
    let whole : suc hashnr % 2 ^ suc k ≡ suc hashnr / 2 % 2 ^ k * 2 + suc hashnr % 2 =
      ap (◌%◌ (suc hashnr)) (pow-suc k) ∙ double-mod (suc hashnr) (2 ^ k) (pow-pos k) in
    omega (arith, upper, whole, pow-suc k, pow-pos k)

bit_and-pow : (k hashnr : ℕ) → bit_and hashnr (2 ^ k - 1) ≡ hashnr % 2 ^ k
bit_and-pow k hashnr =
    omega (arith, bit_and-bitwise hashnr (2 ^ k - 1), low_digits hashnr k hashnr (omega arith))

-- Each hash value has a home in the table.
pub my_hash_mask-lt :
    (hashnr blength records : ℕ)
    → 0 < records
    → 0 < blength
    → blength < 2 ^ 64
    → blength / 2 ≤ records
    → my_hash_mask hashnr blength records < records
unfolding my_hash_mask
my_hash_mask-lt hashnr blength records some_records positive fits half = ground (
  arith,
  bit_and-le hashnr ((blength + (2 ^ 64 - 1)) % 2 ^ 64),
  bit_and-le hashnr ((blength / 2 + (2 ^ 64 - 1)) % 2 ^ 64),
)

halves : (k : ℕ) → (2 ^ suc k) / 2 ≡ 2 ^ k
halves k = omega (arith, pow-suc k)

pow_64 : (k : ℕ) → k < 64 → 2 ^ k < 2 ^ 64
pow_64 k h =
    omega
      (arith, pow-suc k, pow-pos k, pow-le-pow_right {n = 2} (omega arith) {i = suc k} {j = 64} h)

ones : (k : ℕ) → k < 64 → (2 ^ k + (2 ^ 64 - 1)) % 2 ^ 64 ≡ 2 ^ k - 1
ones k h = omega (arith, pow_64 k h, pow-pos k)

abbrev home_of : ℕ → ℕ → ℕ → ℕ
home_of hashnr p records = if ltb (hashnr % (2 * p)) records then hashnr % (2 * p) else hashnr % p

-- Where the masks are powers of two, they are remainders.
pub my_hash_mask-mod :
    (k hashnr records : ℕ)
    → suc k < 64
    → my_hash_mask hashnr (2 ^ suc k) records ≡ home_of hashnr (2 ^ k) records
unfolding my_hash_mask
my_hash_mask-mod k hashnr records fits =
    let low : bit_and hashnr ((2 ^ suc k + (2 ^ 64 - 1)) % 2 ^ 64) ≡ hashnr % (2 * 2 ^ k) =
      ap (bit_and hashnr) (ones (suc k) fits)
      ∙ bit_and-pow (suc k) hashnr
      ∙ ap (◌%◌ hashnr) (pow-suc k) in
    let lower : bit_and hashnr (((2 ^ suc k) / 2 + (2 ^ 64 - 1)) % 2 ^ 64) ≡ hashnr % 2 ^ k =
      ap (λ m. bit_and hashnr ((m + (2 ^ 64 - 1)) % 2 ^ 64)) (halves k)
      ∙ ap (bit_and hashnr) (ones k (omega arith))
      ∙ bit_and-pow k hashnr in
    ground (arith, low, lower)

low_cases : (a p : ℕ) → 0 < p → (a % (2 * p) ≡ a % p) ⊎ (a % (2 * p) ≡ a % p + p)
low_cases a p h =
    let s : ℕ = a % (2 * p) in
    let t : ℕ = a / (2 * p) in
    let whole : p * (2 * t) + s ≡ a =
      omega (arith, div-add-mod a (2 * p), mul_assoc 2 p t, mul_assoc p 2 t, mul_comm p 2) in
    let e : a % p ≡ s % p = ap (λ m. m % p) (sym whole) ∙ mul-add-mod_self_left p (2 * t) s in
    let bound : s < 2 * p = mod-lt a (omega arith) in
    elim (dec_lt s p) [
      | yes below ↦ inl (sym (e ∙ mod-eq_of_lt below))
      | no above ↦
          let d : s % p ≡ s - p =
            mod-eq-sub-mod {n = s} {m = p} (omega arith) ∙ mod-eq_of_lt (omega arith) in
          inr (omega (arith, e, d))
    ]

-- For a blength of 2^(k+1), below 2^64, and at least half as many places but fewer than it, the home of
-- a hash value lies in the table. When the table grows by one place, that home becomes the new place
-- if the lowest k + 1 bits of the hash value are the number of that place, and was half of blength
-- before it; else it stays.
pub my_hash_mask-suc :
    (k hashnr records : ℕ)
    → suc k < 64
    → 2 ^ k ≤ records
    → records < 2 ^ suc k
    → (my_hash_mask hashnr (2 ^ suc k) records < records)
      × ((hashnr % 2 ^ suc k ≢ records)
            × (my_hash_mask hashnr (2 ^ suc k) (records + 1)
                ≡ my_hash_mask hashnr (2 ^ suc k) records)
          ⊎ (hashnr % 2 ^ suc k ≡ records)
            × (my_hash_mask hashnr (2 ^ suc k) (records + 1) ≡ records)
            × (my_hash_mask hashnr (2 ^ suc k) records ≡ records - 2 ^ k))
my_hash_mask-suc k hashnr records fits least most = ground (
  arith,
  ap (◌%◌ hashnr) (pow-suc k),
  my_hash_mask-mod k hashnr (records + 1) fits,
  my_hash_mask-mod k hashnr records fits,
  low_cases hashnr (2 ^ k) (pow-pos k),
  pow-suc k,
  mod-lt hashnr (pow-pos k),
)

-- A mask that grows when it is full moves nothing.
my_hash_mask_double :
    (k hashnr : ℕ)
    → k + 2 < 64
    → my_hash_mask hashnr (2 ^ suc (suc k)) (2 ^ suc k)
      ≡ my_hash_mask hashnr (2 ^ suc k) (2 ^ suc k)
my_hash_mask_double k hashnr fits = ground (
  arith,
  my_hash_mask-mod k hashnr (2 ^ suc k) (omega arith),
  my_hash_mask-mod (suc k) hashnr (2 ^ suc k) (omega arith),
  low_cases hashnr (2 ^ suc k) (pow-pos (suc k)),
  pow-suc k,
  ap (◌%◌ hashnr) (pow-suc k),
  mod-lt hashnr (pow-pos (suc k)),
)

-- A table that loses its last place: one home takes the hash values of the last one.
abbrev pub less : ℕ → ℕ → ℕ
less blength n = if ltb n (blength / 2) then blength / 2 else blength

pub mask_shrinks :
    (k n : ℕ)
    → suc k < 64
    → 0 < n
    → 2 ^ k ≤ n + 1
    → n + 1 < 2 ^ suc k
    → (h : ℕ) × (h < n)
      × ((hashnr : ℕ)
          → my_hash_mask hashnr (less (2 ^ suc k) n) n ≡ (
              if my_hash_mask hashnr (2 ^ suc k) (n + 1) == n
              then h
              else my_hash_mask hashnr (2 ^ suc k) (n + 1)))
mask_shrinks zero n fits some_left least most = absurd (omega arith)
mask_shrinks (suc k) n fits some_left least most = elim (dec_lt n (2 ^ suc k)) [
  | no wide ↦
      let same : less (2 ^ suc (suc k)) n ≡ 2 ^ suc (suc k) = ground (arith, halves (suc k)) in
      (
        n - 2 ^ suc k,
        omega (arith, pow-pos (suc k)),
        λ hashnr.
            ap (λ b. my_hash_mask hashnr b n) same
            ∙ ground (
              arith,
              my_hash_mask-suc (suc k) hashnr n fits,
              my_hash_mask-lt hashnr (2 ^ suc (suc k)) n some_left,
              halves (suc k),
              pow-pos (suc k),
              pow_64 (suc (suc k)) fits,
            ),
      )
  | yes narrow ↦
      let same : less (2 ^ suc (suc k)) n ≡ 2 ^ suc k = ground (arith, halves (suc k)) in
      let full : n + 1 ≡ 2 ^ suc k = omega arith in
      (
        n - 2 ^ k,
        omega (arith, pow-pos k),
        λ hashnr.
            let e : my_hash_mask hashnr (2 ^ suc (suc k)) (n + 1)
                ≡ my_hash_mask hashnr (2 ^ suc k) (n + 1) =
              ap (my_hash_mask hashnr (2 ^ suc (suc k))) full
              ∙ my_hash_mask_double k hashnr (omega arith)
              ∙ ap (my_hash_mask hashnr (2 ^ suc k)) (sym full) in
            ap (λ b. my_hash_mask hashnr b n) same
            ∙ ground (
              arith,
              e,
              my_hash_mask-suc k hashnr n (omega arith),
              my_hash_mask-lt hashnr (2 ^ suc k) n some_left,
              halves k,
              pow-pos k,
              pow-suc k,
              pow_64 (suc k) (omega arith),
            ),
      )
]

pub mask_less :
    (bits blength n : ℕ)
    → blength ≡ 2 ^ bits
    → bits < 64
    → 0 < n
    → blength / 2 ≤ n + 1
    → n + 1 < blength
    → (h : ℕ) × (h < n)
      × ((hashnr : ℕ)
          → my_hash_mask hashnr (less blength n) n ≡ (
              if my_hash_mask hashnr blength (n + 1) == n
              then h
              else my_hash_mask hashnr blength (n + 1)))
mask_less zero blength n power fits some_left half room = absurd (omega arith)
mask_less (suc k) blength n power fits some_left half room =
    let (h, h_in, same) =
      mask_shrinks k n fits some_left (omega (arith, halves k)) (omega (arith, power)) in
    (
      h,
      h_in,
      λ hashnr.
          ap (λ b. my_hash_mask hashnr (less b n) n) power
          ∙ same hashnr
          ∙ ap (λ m. if m == n then h else m) (ap (λ b. my_hash_mask hashnr b (n + 1)) (sym power)),
    )

pub halved : (bits blength : ℕ) → blength ≡ 2 ^ bits → 1 < blength → blength / 2 ≡ 2 ^ (bits - 1)
halved zero blength power some_bits = absurd (omega arith)
halved (suc k) blength power some_bits =
    let same : 2 ^ (suc k - 1) ≡ 2 ^ k = ap (λ m. 2 ^ m) (omega arith) in
    omega (arith, power, halves k, same)
