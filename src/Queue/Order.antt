-- ===== src/Queue/Order.antt =====
-- The order in which the queue of my_queue.c keeps its elements, and counting them.
use native.Mathlib.Numerals.{add-one}
use my_libs.Base.{
  ℕ, zero, suc, ◌+◌, ◌/◌, ◌<◌, ◌≤◌, ◌≡◌, refl, true, false, List, arith, ◌==◌, if◌then◌else◌,
  length, get_or, set, get_or-set,
}
use my_libs.Base.Int.{is_neg, is_pos}
use my_libs.Queue.{Order}

-- The contract of a comparison callback: a total order, up to elements that compare equal.
pub record IsOrder (cmp : Order) : Type 0 where
  pub swapped : (x y : ℕ) → is_pos (cmp x y) ≡ is_neg (cmp y x)
  pub asym : (x y : ℕ) → is_neg (cmp x y) ≡ true → is_neg (cmp y x) ≡ false
  pub chain :
      (x y z : ℕ) → is_neg (cmp y x) ≡ false → is_neg (cmp z y) ≡ false → is_neg (cmp z x) ≡ false

-- `y` does not come before `x`.
abbrev pub Le : Order → ℕ → ℕ → Type 0
Le cmp x y = is_neg (cmp y x) ≡ false

-- `root[i]`.
abbrev pub at : List ℕ → ℕ → ℕ
at r i = get_or r i 0

-- Each of `root[2]` to `root[n]` whose parent is at `lo` or later does not come before its parent.
abbrev pub IsHeapFrom : Order → ℕ → ℕ → List ℕ → Type 0
IsHeapFrom cmp lo n r = (c : ℕ) → 1 < c → c ≤ n → lo ≤ c / 2 → Le cmp (at r (c / 2)) (at r c)

module _ (cmp : Order) (ord : IsOrder cmp) where
  pub le_refl : (x : ℕ) → Le cmp x x
  le_refl x = ground (arith, ord.asym x x)

  pub le_trans : (x y z : ℕ) → Le cmp x y → Le cmp y z → Le cmp x z
  le_trans x y z h k = ord.chain x y z h k

  pub le_of_neg : (x y : ℕ) → is_neg (cmp x y) ≡ true → Le cmp x y
  le_of_neg x y h = ord.asym x y h

  root_least_below :
      (k n : ℕ) (r : List ℕ) (i : ℕ)
      → IsHeapFrom cmp 1 n r
      → i < k
      → 1 ≤ i
      → i ≤ n
      → Le cmp (at r 1) (at r i)
  root_least_below zero n r i h hk h1 hn = elim hk [ ]
  root_least_below (suc k) n r zero h hk h1 hn = elim h1 [ ]
  root_least_below (suc k) n r (suc zero) h hk h1 hn = le_refl (at r 1)
  root_least_below (suc k) n r (suc (suc i)) h hk h1 hn =
      le_trans (at r 1) (at r (suc (suc i) / 2)) (at r (suc (suc i)))
        (root_least_below k n r (suc (suc i) / 2) h (omega arith) (omega arith) (omega arith))
        (h (suc (suc i)) (omega arith) hn (omega arith))

  -- No element of a heap comes before the one on top.
  pub root_least :
      (n : ℕ) (r : List ℕ) (i : ℕ) → IsHeapFrom cmp 1 n r → 1 ≤ i → i ≤ n → Le cmp (at r 1) (at r i)
  root_least n r i h h1 hn = root_least_below (suc i) n r i h (omega arith) h1 hn

-- 1 for the element itself and 0 for another.
pub same : ℕ → ℕ → ℕ
same v p = if v == p then 1 else 0

-- How often `p` stands in `root[1]` to `root[n]`.
unfoldable pub occ : ℕ → ℕ → List ℕ → ℕ
occ p zero r = 0
occ p (suc n) r = same (at r (suc n)) p + occ p n r

pub occ-set_above :
    (p n : ℕ) (r : List ℕ) (i v : ℕ) → n < i → i < length r → occ p n (set r i v) ≡ occ p n r
unfolding occ
occ-set_above p zero r i v h hl = omega arith
occ-set_above p (suc n) r i v h hl =
    ground (arith, get_or-set r i (suc n) v 0 hl, occ-set_above p n r i v)

-- A write trades the old element for the new one.
pub occ-set :
    (p n : ℕ) (r : List ℕ) (i v : ℕ)
    → 1 ≤ i
    → i ≤ n
    → i < length r
    → occ p n (set r i v) + same (at r i) p ≡ occ p n r + same v p
unfolding occ
occ-set p zero r i v h1 hn hl = absurd (omega arith)
occ-set p (suc n) r i v h1 hn hl =
    ground (arith, get_or-set r i (suc n) v 0 hl, occ-set p n r i v h1, occ-set_above p n r i v)

-- The count with one element more.
pub occ-last : (p n : ℕ) (r : List ℕ) → occ p (n + 1) r ≡ same (at r (n + 1)) p + occ p n r
unfolding occ
occ-last p n r = rw add-one

-- A write to `root[0]` is not seen by the elements.
pub occ-set_zero : (p n : ℕ) (r : List ℕ) (v : ℕ) → 0 < length r → occ p n (set r 0 v) ≡ occ p n r
unfolding occ
occ-set_zero p zero r v h = refl
occ-set_zero p (suc n) r v h = ground (arith, get_or-set r 0 (suc n) v 0 h, occ-set_zero p n r v h)
