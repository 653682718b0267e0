-- ===== src/Malloc.antt =====
-- src/my_malloc.c: the wrappers round the C library's allocator.
pub mod Laws
pub mod Tests
use my_libs.Base.{
  ℕ, ◌+◌, ◌-◌, ◌*◌, ◌<◌, ◌≡◌, Bool, true, false, Option, none, some, List, ◌==◌, length, get_or,
  replicate, if◌then◌else◌,
}

-- The C library: a block that it returns has the size asked for, calloc's is zeroed, and realloc's
-- begins with the bytes of the old block, as far as they fit. A block is the list of its bytes.
pub record Libc : Type 0 where
  pub malloc : ℕ → Option (List ℕ)
  pub calloc : ℕ → ℕ → Option (List ℕ)
  pub realloc : List ℕ → ℕ → Option (List ℕ)
  -- what the pointer to a block is when it is turned into an `int` and back
  pub through_int : List ℕ → Option (List ℕ)
  pub length-malloc : (n : ℕ) (b : List ℕ) → malloc n ≡ some b → length b ≡ n
  pub calloc_zeroed : (n m : ℕ) (b : List ℕ) → calloc n m ≡ some b → b ≡ replicate (n * m) 0
  pub length-realloc : (b : List ℕ) (n : ℕ) (c : List ℕ) → realloc b n ≡ some c → length c ≡ n
  pub realloc_kept :
      (b : List ℕ) (n : ℕ) (c : List ℕ) (k : ℕ)
      → realloc b n ≡ some c
      → k < length b
      → k < n
      → get_or c k 0 ≡ get_or b k 0

-- How a call ends: `ok` with the pointer returned and the handler called on the way, if one was,
-- or `aborted` by abort().
pub data Outcome : Type 0 where
  ok : (result : Option (List ℕ)) (called : Option ℕ) → Outcome
  aborted : Outcome

-- The static `handler`: a function, named by a number, or NULL.
abbrev pub Handler : Type 0
Handler = Option ℕ

-- `handler(); ... else abort();`
call_handler : Handler → Outcome
call_handler (some h) = ok none (some h)
call_handler none = aborted

module _ (libc : Libc) (have_sbrk : Bool) (handler : Handler) where
  -- Without a return type it returns an `int`, so that its pointer goes through one; NULL stays NULL.
  -- The byte counts that `allocated` takes from sbrk are used by nothing.
  pub fixup_null_alloc : ℕ → Outcome
  unfolding call_handler
  fixup_null_alloc len =
      let one = if len == 0 then libc.malloc 1 else none in
      if have_sbrk
      then elim one [ some b ↦ ok (libc.through_int b) none | none ↦ call_handler handler ]
      else ok none none

  unfoldable pub my_malloc : ℕ → Outcome
  unfolding fixup_null_alloc
  my_malloc len = elim (libc.malloc len) [ some b ↦ ok (some b) none | none ↦ fixup_null_alloc len ]

  pub my_calloc : ℕ → ℕ → Outcome
  unfolding fixup_null_alloc
  my_calloc len value = elim (libc.calloc len value) [
    | some b ↦ ok (some b) none
    | none ↦ fixup_null_alloc (len * value)
  ]

  -- A NULL pointer is reallocated by malloc, without the fix-up.
  pub my_realloc : Option (List ℕ) → ℕ → Outcome
  unfolding fixup_null_alloc
  my_realloc none len = ok (libc.malloc len) none
  my_realloc (some b) len = elim (libc.realloc b len) [
    | some c ↦ ok (some c) none
    | none ↦ fixup_null_alloc len
  ]

-- The new handler, and the previous one, which is returned.
pub malloc_set_handler : Handler → Handler → Handler × Handler
malloc_set_handler handler new = (new, handler)

-- What the containers rely on: a block has the size asked for, and a reallocated one keeps its
-- bytes. An allocator answers one operation of a container, which asks it once at most.
pub record Allocator : Type 0 where
  pub malloc : ℕ → Option (List ℕ)
  pub realloc : Option (List ℕ) → ℕ → Option (List ℕ)
  pub length-malloc : (n : ℕ) (b : List ℕ) → malloc n ≡ some b → length b ≡ n
  pub length-realloc :
      (b : Option (List ℕ)) (n : ℕ) (c : List ℕ) → realloc b n ≡ some c → length c ≡ n
  pub realloc_kept :
      (b : List ℕ) (n : ℕ) (c : List ℕ) (k : ℕ)
      → realloc (some b) n ≡ some c
      → k < length b
      → k < n
      → get_or c k 0 ≡ get_or b k 0

-- The pointer that a call returns.
abbrev pub returned : Outcome → Option (List ℕ)
returned (ok p _) = p
returned aborted = none
