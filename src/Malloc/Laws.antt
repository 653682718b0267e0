-- ===== src/Malloc/Laws.antt =====
-- The wrappers of my_malloc.c are the allocator that the containers are given.
use my_libs.Base.{ℕ, ◌<◌, ◌≡◌, false, Option, none, some, List, arith, length, get_or}
use my_libs.Malloc.{Libc, Allocator, returned, my_malloc, my_realloc}

module _ (libc : Libc) where
  -- HAVE_SBRK is defined by no header that my_malloc.c includes.
  pub length-my_malloc :
      (n : ℕ) (b : List ℕ) → returned (my_malloc libc false none n) ≡ some b → length b ≡ n
  unfolding my_malloc
  length-my_malloc n b h = ground (arith, libc.length-malloc n b)

  pub length-my_realloc :
      (b : Option (List ℕ)) (n : ℕ) (c : List ℕ)
      → returned (my_realloc libc false none b n) ≡ some c
      → length c ≡ n
  unfolding my_realloc
  length-my_realloc none n c h = libc.length-malloc n c h
  length-my_realloc (some b) n c h = ground (arith, libc.length-realloc b n c)

  pub my_realloc_kept :
      (b : List ℕ) (n : ℕ) (c : List ℕ) (k : ℕ)
      → returned (my_realloc libc false none (some b) n) ≡ some c
      → k < length b
      → k < n
      → get_or c k 0 ≡ get_or b k 0
  unfolding my_realloc
  my_realloc_kept b n c k h hb hn = ground (arith, libc.realloc_kept b n c k)

  abbrev pub allocator : Allocator
  allocator = record {
    malloc = λ n. returned (my_malloc libc false none n);
    realloc = λ b n. returned (my_realloc libc false none b n);
    length-malloc = length-my_malloc;
    length-realloc = length-my_realloc;
    realloc_kept = my_realloc_kept;
  }
