-- ===== src/Queue/Hole.antt =====
-- Moving a hole through the heap of my_queue.c: the step that _downheap and queue_insert repeat.
use my_libs.Base.{
  ℕ, ◌/◌, ◌<◌, ◌≤◌, ◌≡◌, ◌≢◌, refl, some, List, arith, length, set, get_or-set, length-set,
  get_elem?, get_elem?-eq-get_or,
}
use my_libs.Queue.{Order, put}
use my_libs.Queue.Order.{IsOrder, Le, at, IsHeapFrom, occ, same, occ-set}

pub put-set : (r : List ℕ) (i v : ℕ) → i < length r → put r i v ≡ some (set r i v)
unfolding put
put-set r i v h = ground arith

pub get-at : (r : List ℕ) (i : ℕ) → i < length r → get_elem? r i ≡ some (at r i)
get-at r i h = get_elem?-eq-get_or r i 0 h

-- The heap order, but for the edges at index `i`.
abbrev pub IsHeapBut : Order → ℕ → ℕ → ℕ → List ℕ → Type 0
IsHeapBut cmp lo n i r =
    (c : ℕ) → 1 < c → c ≤ n → lo ≤ c / 2 → c ≢ i → c / 2 ≢ i → Le cmp (at r (c / 2)) (at r c)

-- `e` comes after no child of index `i`.
abbrev pub BeforeChildren : Order → ℕ → ℕ → List ℕ → ℕ → Type 0
BeforeChildren cmp n i r e = (c : ℕ) → 1 < c → c ≤ n → c / 2 ≡ i → Le cmp e (at r c)

-- The parent of index `i` does not come after `e`.
abbrev pub AfterParent : Order → ℕ → ℕ → List ℕ → ℕ → Type 0
AfterParent cmp lo i r e = 1 < i → lo ≤ i / 2 → Le cmp (at r (i / 2)) e

-- What `r'` is to `r` with the hole `i` filled by `e`: in order, with the same elements.
pub record Sifted (cmp : Order) (lo n : ℕ) (r : List ℕ) (i e : ℕ) (r' : List ℕ) : Type 0 where
  pub heap : IsHeapFrom cmp lo n r'
  pub kept : (p : ℕ) → occ p n r' ≡ occ p n (set r i e)
  pub size : length r' ≡ length r

-- A hole is moved to another place, whose element is put into the hole.
pub occ_moved :
    (p n : ℕ) (r : List ℕ) (i j e : ℕ)
    → i ≢ j
    → 1 ≤ i
    → i ≤ n
    → 1 ≤ j
    → j ≤ n
    → n < length r
    → occ p n (set (set r i (at r j)) j e) ≡ occ p n (set r i e)
occ_moved p n r i j e ne i1 i2 j1 j2 h =
    let other : at (set r i (at r j)) j ≡ at r j = ground (arith, get_or-set r i j (at r j) 0) in
    let traded : same (at (set r i (at r j)) j) p ≡ same (at r j) p = λ k. same (other k) p in
    omega (
      arith,
      traded,
      occ-set p n (set r i (at r j)) j e j1 j2 (omega (arith, length-set r i (at r j))),
      occ-set p n r i (at r j) i1 i2 (omega arith),
      occ-set p n r i e i1 i2 (omega arith),
    )

module _ (cmp : Order) (ord : IsOrder cmp) (lo n : ℕ) where
  pub IsHeapFrom-set :
      (r : List ℕ) (i e : ℕ)
      → i < length r
      → IsHeapBut cmp lo n i r
      → AfterParent cmp lo i r e
      → BeforeChildren cmp n i r e
      → IsHeapFrom cmp lo n (set r i e)
  IsHeapFrom-set r i e hi but after before = λ c h1 hn hlo. ground (
    arith,
    get_or-set r i c e 0 hi,
    get_or-set r i (c / 2) e 0 hi,
    but c h1 hn hlo,
    after,
    before c h1 hn,
  )

  pub IsHeapBut-of_heap : (r : List ℕ) (i : ℕ) → IsHeapFrom cmp lo n r → IsHeapBut cmp lo n i r
  IsHeapBut-of_heap r i h = λ c h1 hn hlo _ _. h c h1 hn hlo

  -- The hole filled at its place.
  pub Sifted-set :
      (r : List ℕ) (i e : ℕ)
      → i < length r
      → IsHeapBut cmp lo n i r
      → AfterParent cmp lo i r e
      → BeforeChildren cmp n i r e
      → Sifted cmp lo n r i e (set r i e)
  Sifted-set r i e hi but after before = record {
    heap = IsHeapFrom-set r i e hi but after before;
    kept = λ p. refl;
    size = length-set r i e;
  }

  -- The hole filled after it was moved from `i` to `j`.
  pub Sifted-moved :
      (r : List ℕ) (i j e : ℕ) (r' : List ℕ)
      → i ≢ j
      → 1 ≤ i
      → i ≤ n
      → 1 ≤ j
      → j ≤ n
      → n < length r
      → Sifted cmp lo n (set r i (at r j)) j e r'
      → Sifted cmp lo n r i e r'
  Sifted-moved r i j e r' ne i1 i2 j1 j2 h s = record {
    heap = s.heap;
    kept = λ p. omega (arith, s.kept p, occ_moved p n r i j e ne i1 i2 j1 j2 h);
    size = omega (arith, s.size, length-set r i (at r j));
  }
