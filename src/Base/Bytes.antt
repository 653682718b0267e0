-- ===== src/Base/Bytes.antt =====
-- Blocks of memory as lists of bytes: what memcpy, memmove and memset do to them, byte by byte.
use Prim.Native.Nat.{ℕ, zero, suc, ◌+◌, ◌-◌, ◌≤◌, ◌<◌, ◌%◌, ◌^◌}
use mathlib.Core.Path.{◌≡◌, refl, sym, ap, ap₂, ◌∙◌}
use mathlib.Core.Logic.{◌⊎◌}
use mathlib.Core.Bool.{Bool, ◌&&◌}
use mathlib.Core.List.{List, [], ◌∷◌}
use native.Mathlib.Omega.{arith}
use native.Mathlib.Decide.{dec_lt}
use native.Mathlib.Nat.{mod-eq_of_lt}
use my_libs.Base.Tests.{leb, ltb, if◌then◌else◌}
use my_libs.Base.Lists.{
  length, get_or, set, list_ext, replicate, length-replicate, get_or-replicate, length-set,
  get_or-set,
}

-- The value of an `unsigned int` expression: 32 bits, wrapping around.
unfoldable pub u32 : ℕ → ℕ
u32 n = n % 2 ^ 32

pub u32_lem : (n : ℕ) → n < 2 ^ 32 → u32 n ≡ n
unfolding u32
u32_lem n h = mod-eq_of_lt h

-- `n--` and `n - i`.
pub u32-pred : (n : ℕ) → 0 < n → n < 2 ^ 32 → u32 (n + (2 ^ 32 - 1)) ≡ n - 1
unfolding u32
u32-pred n h w = omega arith

pub u32-sub : (n i : ℕ) → i ≤ n → n < 2 ^ 32 → u32 (n + (2 ^ 32 - u32 i)) ≡ n - i
unfolding u32
u32-sub n i h w = omega arith

-- The `n` bytes of a block from offset `off` on.
unfoldable pub read : List ℕ → ℕ → ℕ → List ℕ
read b off zero = []
read b off (suc n) = get_or b off 0 ∷ read b (off + 1) n

-- The block with the bytes `bs` written from offset `off` on.
unfoldable pub splice : List ℕ → ℕ → List ℕ → List ℕ
splice b off [] = b
splice b off (x ∷ bs) = splice (set b off x) (off + 1) bs

pub length-read : (b : List ℕ) (off n : ℕ) → length (read b off n) ≡ n
unfolding read
length-read b off zero = refl
length-read b off (suc n) = ap suc (length-read b (off + 1) n)

pub length-splice : (b : List ℕ) (off : ℕ) (bs : List ℕ) → length (splice b off bs) ≡ length b
unfolding splice
length-splice b off [] = refl
length-splice b off (x ∷ bs) =
    omega (arith, length-splice (set b off x) (off + 1) bs, length-set b off x)

-- Whether offset `k` lies in the `n` bytes from `off` on.
abbrev pub within : ℕ → ℕ → ℕ → Bool
within off n k = leb off k && ltb k (off + n)

get_or-cons-sub :
    (x : ℕ) (bs : List ℕ) (k off : ℕ)
    → off ≤ k
    → get_or (x ∷ bs) (k - off) 0 ≡ (if leb k off then x else get_or bs (k - (off + 1)) 0)
get_or-cons-sub x bs k off h = elim (dec_lt off k) [
  | yes p ↦
      let e : k - off ≡ suc (k - (off + 1)) = omega arith in
      ap (λ i. get_or (x ∷ bs) i 0) e ∙ ground arith
  | no p ↦ let e : k - off ≡ 0 = omega arith in ap (λ i. get_or (x ∷ bs) i 0) e ∙ ground arith
]

pub get_or-splice :
    (b : List ℕ) (off : ℕ) (bs : List ℕ) (k : ℕ)
    → off + length bs ≤ length b
    → get_or (splice b off bs) k 0
      ≡ (if within off (length bs) k then get_or bs (k - off) 0 else get_or b k 0)
unfolding splice
get_or-splice b off [] k h = ground arith
get_or-splice b off (x ∷ bs) k h = ground (
  arith,
  length-set b off x,
  get_or-set b off k x 0,
  get_or-splice (set b off x) (off + 1) bs k,
  get_or-cons-sub x bs k off,
)

pub get_or-read :
    (b : List ℕ) (off n k : ℕ) → k < n → get_or (read b off n) k 0 ≡ get_or b (off + k) 0
unfolding read
get_or-read b off zero k h = elim h [ ]
get_or-read b off (suc n) zero h = ap (λ i. get_or b i 0) (omega arith)
get_or-read b off (suc n) (suc k) h =
    get_or-read b (off + 1) n k (omega arith) ∙ ap (λ i. get_or b i 0) (omega arith)

-- Two ranges that agree byte by byte read the same.
pub read_ext :
    (b c : List ℕ) (off off' n : ℕ)
    → ((k : ℕ) → k < n → get_or b (off + k) 0 ≡ get_or c (off' + k) 0)
    → read b off n ≡ read c off' n
unfolding read
read_ext b c off off' zero same = refl
read_ext b c off off' (suc n) same =
    ap₂ ◌∷◌
      (ap (λ i. get_or b i 0) (omega arith)
        ∙ same 0 (omega arith)
        ∙ ap (λ i. get_or c i 0) (omega arith))
      (read_ext b c (off + 1) (off' + 1) n (λ k h.
        ap (λ i. get_or b i 0) (omega arith)
        ∙ same (suc k) (omega arith)
        ∙ ap (λ i. get_or c i 0) (omega arith)))

pub read-all : (b : List ℕ) → read b 0 (length b) ≡ b
read-all b = list_ext (read b 0 (length b)) b 0 (length-read b 0 (length b)) (λ k h.
    get_or-read b 0 (length b) k (omega (arith, length-read b 0 (length b)))
    ∙ ap (λ i. get_or b i 0) (omega arith))

-- A range inside what was written reads the bytes written.
pub read-splice_in :
    (b : List ℕ) (off : ℕ) (bs : List ℕ) (d n : ℕ)
    → off + length bs ≤ length b
    → d + n ≤ length bs
    → read (splice b off bs) (off + d) n ≡ read bs d n
read-splice_in b off bs d n fits inside =
    read_ext (splice b off bs) bs (off + d) d n
      (λ k h. get_or-splice b off bs (off + d + k) fits ∙ chosen k h)
  where
    chosen :
        (k : ℕ)
        → k < n
        → (if within off (length bs) (off + d + k)
            then get_or bs (off + d + k - off) 0
            else get_or b (off + d + k) 0)
          ≡ get_or bs (d + k) 0
    chosen k h =
        let e : off + d + k - off ≡ d + k = omega arith in ground (arith, ap (λ i. get_or bs i 0) e)

pub read-splice_self :
    (b : List ℕ) (off : ℕ) (bs : List ℕ)
    → off + length bs ≤ length b
    → read (splice b off bs) off (length bs) ≡ bs
read-splice_self b off bs fits =
    ap (λ i. read (splice b off bs) i (length bs)) (omega arith)
    ∙ read-splice_in b off bs 0 (length bs) fits (omega arith)
    ∙ read-all bs

-- A range apart from what was written is unchanged.
pub read-splice_apart :
    (b : List ℕ) (off : ℕ) (bs : List ℕ) (o n : ℕ)
    → off + length bs ≤ length b
    → (o + n ≤ off) ⊎ (off + length bs ≤ o)
    → read (splice b off bs) o n ≡ read b o n
read-splice_apart b off bs o n fits apart =
    read_ext (splice b off bs) b o o n (λ k h. get_or-splice b off bs (o + k) fits ∙ ground arith)

pub read-read :
    (b : List ℕ) (off m d n : ℕ) → d + n ≤ m → read (read b off m) d n ≡ read b (off + d) n
read-read b off m d n inside =
    read_ext (read b off m) b d (off + d) n
      (λ k h. get_or-read b off m (d + k) (omega arith) ∙ ap (λ i. get_or b i 0) (omega arith))

-- A range of a block of zeroes.
pub read-replicate : (m off n : ℕ) → off + n ≤ m → read (replicate m 0) off n ≡ replicate n 0
read-replicate m off n h =
    list_ext (read (replicate m 0) off n) (replicate n 0) 0
      (omega (arith, length-read (replicate m 0) off n, length-replicate {A = ℕ} n 0))
      (λ k hk.
        let hn : k < n = omega (arith, length-read (replicate m 0) off n) in
        get_or-read (replicate m 0) off n k hn
        ∙ get_or-replicate {A = ℕ} m 0 (off + k) 0 (omega arith)
        ∙ sym (get_or-replicate {A = ℕ} n 0 k 0 hn))
