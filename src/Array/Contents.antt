-- ===== src/Array/Contents.antt =====
-- What an array of my_array.c holds: the list of its elements, each the list of its bytes.
use my_libs.Base.{
  ℕ, zero, suc, ◌+◌, ◌*◌, ◌≤◌, ◌<◌, ◌≡◌, refl, ap, sym, ◌∙◌, some, List, [], ◌∷◌, arith, length,
  get_or, read, splice, read_ext, list_ext,
}
use my_libs.Array.{Array, Buffer, null, inline, heap, store, load}

-- The bytes of a block.
abbrev pub bytes : Buffer → List ℕ
bytes null = []
bytes (inline b) = b
bytes (heap b) = b

-- The `n` runs of `s` bytes from run `i` on.
abbrev pub chunks : List ℕ → ℕ → ℕ → ℕ → List (List ℕ)
chunks b s i zero = []
chunks b s i (suc n) = read b (i * s) s ∷ chunks b s (i + 1) n

abbrev pub contents : Array → List (List ℕ)
contents a = chunks (bytes a.buffer) a.size 0 a.elements

pub length-chunks : (b : List ℕ) (s i n : ℕ) → length (chunks b s i n) ≡ n
length-chunks b s i zero = refl
length-chunks b s i (suc n) = ap suc (length-chunks b s (i + 1) n)

pub get_or-chunks :
    (b : List ℕ) (s i n k : ℕ) → k < n → get_or (chunks b s i n) k [] ≡ read b ((i + k) * s) s
get_or-chunks b s i zero k h = elim h [ ]
get_or-chunks b s i (suc n) zero h = ap (λ j. read b (j * s) s) (omega arith)
get_or-chunks b s i (suc n) (suc k) h =
    let e : i + 1 + k ≡ i + suc k = omega arith in
    get_or-chunks b s (i + 1) n k (omega arith) ∙ ap (λ j. read b (j * s) s) e

-- An offset inside the element of index `i` lies before the end of the elements.
pub index_in_range : (i s n k : ℕ) → i < n → k < s → i * s + k < n * s
index_in_range i s n k h hk = grind arith

pub index_step : (i s n : ℕ) → i < n → i * s + s ≤ n * s
index_step i s n h = grind arith

pub index_mono : (i s n : ℕ) → i ≤ n → i * s ≤ n * s
index_mono i s n h = grind arith

-- Blocks that agree up to the end of the elements hold the same elements.
pub chunks_ext :
    (b c : List ℕ) (s n : ℕ)
    → ((k : ℕ) → k < n * s → get_or b k 0 ≡ get_or c k 0)
    → chunks b s 0 n ≡ chunks c s 0 n
chunks_ext b c s n same =
    list_ext (chunks b s 0 n) (chunks c s 0 n) []
      (omega (arith, length-chunks b s 0 n, length-chunks c s 0 n))
      (λ k h.
        let hk : k < n = omega (arith, length-chunks b s 0 n) in
        get_or-chunks b s 0 n k hk
        ∙ read_ext b c ((0 + k) * s) ((0 + k) * s) s
            (λ j hj. same ((0 + k) * s + j) (index_in_range (0 + k) s n j (omega arith) hj))
        ∙ sym (get_or-chunks c s 0 n k hk))

-- What store leaves in the block.
abbrev pub written : Buffer → ℕ → List ℕ → Buffer
written null off bs = null
written (inline b) off bs = inline (splice b off bs)
written (heap b) off bs = heap (splice b off bs)

pub store-written :
    (b : Buffer) (off : ℕ) (bs : List ℕ)
    → 0 < length (bytes b)
    → off + length bs ≤ length (bytes b)
    → store b off bs ≡ some (written b off bs)
unfolding store
store-written null off bs h fits = elim h [ ]
store-written (inline b) off bs h fits = ground arith
store-written (heap b) off bs h fits = ground arith

pub bytes-written :
    (b : Buffer) (off : ℕ) (bs : List ℕ)
    → 0 < length (bytes b)
    → bytes (written b off bs) ≡ splice (bytes b) off bs
bytes-written null off bs h = elim h [ ]
bytes-written (inline b) off bs h = refl
bytes-written (heap b) off bs h = refl

pub load-read :
    (b : Buffer) (off n : ℕ)
    → 0 < length (bytes b)
    → off + n ≤ length (bytes b)
    → load b off n ≡ some (read (bytes b) off n)
unfolding load
load-read null off n h fits = elim h [ ]
load-read (inline b) off n h fits = ground arith
load-read (heap b) off n h fits = ground arith
