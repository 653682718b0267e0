-- ===== src/Malloc/Tests.antt =====
-- A C library whose memory never ends, one that has no memory left, and a run of each.
use my_libs.Base.{
  ℕ, zero, suc, ◌<◌, ◌≡◌, refl, none, some, List, [], ◌∷◌, arith, length, get_or, replicate,
  length-replicate, ◌*◌, true, false,
}
use my_libs.Malloc.{
  Libc, ok, aborted, my_malloc, my_realloc, my_calloc, Allocator, fixup_null_alloc, call_handler,
}
use my_libs.Malloc.Laws.{allocator}

-- The first `n` bytes of a block, with zeroes behind its end.
abbrev pub fit : List ℕ → ℕ → List ℕ
fit b zero = []
fit [] (suc n) = 0 ∷ fit [] n
fit (x ∷ b) (suc n) = x ∷ fit b n

pub length-fit : (b : List ℕ) (n : ℕ) → length (fit b n) ≡ n
length-fit b zero = refl
length-fit [] (suc n) = ground (arith, length-fit [] n)
length-fit (x ∷ b) (suc n) = ground (arith, length-fit b n)

pub get_or-fit : (b : List ℕ) (n k : ℕ) → k < n → get_or (fit b n) k 0 ≡ get_or b k 0
get_or-fit b zero k h = elim h [ ]
get_or-fit [] (suc n) zero h = refl
get_or-fit [] (suc n) (suc k) h = get_or-fit [] n k (omega arith)
get_or-fit (x ∷ b) (suc n) zero h = refl
get_or-fit (x ∷ b) (suc n) (suc k) h = get_or-fit b n k (omega arith)

pub length-of_replicate : (n : ℕ) (b : List ℕ) → some (replicate n 0) ≡ some b → length b ≡ n
length-of_replicate n b h = ground (arith, length-replicate {A = ℕ} n 0)

pub same_block : (b c : List ℕ) → some b ≡ some c → c ≡ b
same_block b c h = ground arith

pub length-of_fit : (b : List ℕ) (n : ℕ) (c : List ℕ) → some (fit b n) ≡ some c → length c ≡ n
length-of_fit b n c h = ground (arith, length-fit b n)

pub get_or-of_fit :
    (b : List ℕ) (n : ℕ) (c : List ℕ) (k : ℕ)
    → some (fit b n) ≡ some c
    → k < length b
    → k < n
    → get_or c k 0 ≡ get_or b k 0
get_or-of_fit b n c k h hb hn = ground (arith, get_or-fit b n k)

no_block {ℓ} : {A : Type ℓ} (b : List ℕ) → none ≡ some b → A
no_block b h = absurd (ground arith)

abbrev pub endless : Libc
endless = record {
  malloc = λ n. some (replicate n 0);
  calloc = λ n m. some (replicate (n * m) 0);
  realloc = λ b n. some (fit b n);
  through_int = λ b. some b;
  length-malloc = length-of_replicate;
  calloc_zeroed = λ n m b h. same_block (replicate (n * m) 0) b h;
  length-realloc = length-of_fit;
  realloc_kept = get_or-of_fit;
}

abbrev exhausted : Libc
exhausted = record {
  malloc = λ n. none;
  calloc = λ n m. none;
  realloc = λ b n. none;
  through_int = λ b. some b;
  length-malloc = λ n b h. no_block b h;
  calloc_zeroed = λ n m b h. no_block b h;
  length-realloc = λ b n c h. no_block c h;
  realloc_kept = λ b n c k h hb hn. no_block c h;
}

abbrev pub endless_allocator : Allocator
endless_allocator = allocator endless

runs :
    (my_malloc endless true none 2 ≡ ok (some (0 ∷ 0 ∷ [])) none)
    × (my_calloc exhausted true none 2 2 ≡ aborted)
    × (my_realloc endless false none (some (7 ∷ 8 ∷ [])) 3 ≡ ok (some (7 ∷ 8 ∷ 0 ∷ [])) none)
    × (my_realloc exhausted false none (some (7 ∷ [])) 3 ≡ ok none none)
unfolding my_malloc my_calloc my_realloc fixup_null_alloc call_handler
runs = (refl, refl, refl, refl)
