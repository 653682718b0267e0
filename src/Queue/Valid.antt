-- ===== src/Queue/Valid.antt =====
-- The invariant of a queue of my_queue.c, its multiset of elements, and _downheap on it.
use mathlib.Core.Path.{subst}
use my_libs.Base.{
  ℕ, ◌+◌, ◌/◌, ◌^◌, ◌<◌, ◌≤◌, ◌≡◌, ◌⊎◌, inl, inr, refl, ◌∙◌, sym, ap, some, List, arith, length,
  set-get_or,
}
use my_libs.Base.Int.{ℤ, pos, negsuc, pos_part, neg_part, ◌*ℤ◌, is_neg, is_pos, wrapped}
use my_libs.Queue.{Order, Queue, compared, downheap}
use my_libs.Queue.Order.{IsOrder, at, IsHeapFrom, occ}
use my_libs.Queue.Hole.{get-at, IsHeapBut, AfterParent}
use my_libs.Queue.Descend.{descend_lem}

-- An `int` other than INT_MIN, whose product with 1 or -1 is an `int`.
pub record IsSafeInt (c : ℤ) : Type 0 where
  pub upper : pos_part c < 2 ^ 31
  pub lower : neg_part c < 2 ^ 31

-- The callback is a total order on the keys that never returns INT_MIN, and the multiplier one that
-- the macro sets.
pub record IsOrdering (q : Queue) : Type 0 where
  pub contract : IsOrder (q.compare q.first_cmp_arg)
  pub safe : (x y : ℕ) → IsSafeInt (q.compare q.first_cmp_arg x y)
  pub sign : (q.max_at_top ≡ pos 1) ⊎ (q.max_at_top ≡ negsuc 0)

-- There is room for `max_elements` pointers behind the first.
pub record HasRoom (q : Queue) : Type 0 where
  pub within : q.elements ≤ q.max_elements
  pub room : q.max_elements < length q.root
  pub word : q.max_elements + 1 < 2 ^ 32

abbrev pub IsHeap : Queue → Type 0
IsHeap q = IsHeapFrom (compared q) 1 q.elements q.root

pub record IsValid (q : Queue) : Type 0 where
  pub ordering : IsOrdering q
  pub fits : HasRoom q
  pub heap : IsHeap q

-- How often the pointer `p` is in the queue.
abbrev pub count : ℕ → Queue → ℕ
count p q = occ p q.elements q.root

neg-times :
    (c : ℤ)
    → IsSafeInt c
    → (is_neg (wrapped (c *ℤ pos 1)) ≡ is_neg c) × (is_pos (wrapped (c *ℤ pos 1)) ≡ is_pos c)
unfolding ◌*ℤ◌ wrapped
neg-times (pos n) s = ground (arith, s.upper)
neg-times (negsuc n) s = ground (arith, s.lower)

neg-times_minus :
    (c : ℤ)
    → IsSafeInt c
    → (is_neg (wrapped (c *ℤ negsuc 0)) ≡ is_pos c) × (is_pos (wrapped (c *ℤ negsuc 0)) ≡ is_neg c)
unfolding ◌*ℤ◌ wrapped
neg-times_minus (pos n) s = ground (arith, s.upper)
neg-times_minus (negsuc n) s = ground (arith, s.lower)

module _ (c : Order) (o : IsOrder c) (s : (x y : ℕ) → IsSafeInt (c x y)) where
  times-IsOrder : IsOrder (λ x y. wrapped (c x y *ℤ pos 1))
  times-IsOrder = record {
    swapped =
        λ x y. ground (arith, neg-times (c x y) (s x y), neg-times (c y x) (s y x), o.swapped x y);
    asym =
        λ x y h. ground (arith, neg-times (c x y) (s x y), neg-times (c y x) (s y x), o.asym x y);
    chain = λ x y z h k. ground (
      arith,
      neg-times (c y x) (s y x),
      neg-times (c z y) (s z y),
      neg-times (c z x) (s z x),
      o.chain x y z,
    );
  }

  times_minus-IsOrder : IsOrder (λ x y. wrapped (c x y *ℤ negsuc 0))
  times_minus-IsOrder = record {
    swapped = λ x y.
        ground
          (arith, neg-times_minus (c x y) (s x y), neg-times_minus (c y x) (s y x), o.swapped y x);
    asym = λ x y h. ground (
      arith,
      neg-times_minus (c x y) (s x y),
      neg-times_minus (c y x) (s y x),
      o.swapped x y,
      o.swapped y x,
      o.asym y x,
    );
    chain = λ x y z h k. ground (
      arith,
      neg-times_minus (c y x) (s y x),
      neg-times_minus (c z y) (s z y),
      neg-times_minus (c z x) (s z x),
      o.swapped y x,
      o.swapped z y,
      o.swapped z x,
      o.chain z y x,
    );
  }

-- Either way up, the queue compares by a total order.
pub compared-IsOrder : (q : Queue) → IsOrdering q → IsOrder (compared q)
unfolding compared
compared-IsOrder q o = elim o.sign [
  | inl e ↦
      subst (λ s. IsOrder (λ x y. wrapped (keys x y *ℤ s))) (sym e) (times-IsOrder keys keyed ints)
  | inr e ↦
      subst (λ s. IsOrder (λ x y. wrapped (keys x y *ℤ s))) (sym e)
        (times_minus-IsOrder keys keyed ints)
]
  where
    keys : Order
    keys x y = q.compare q.first_cmp_arg (x + q.offset_to_key) (y + q.offset_to_key)

    keyed : IsOrder keys
    keyed = record {
      swapped = λ x y. o.contract.swapped (x + q.offset_to_key) (y + q.offset_to_key);
      asym = λ x y. o.contract.asym (x + q.offset_to_key) (y + q.offset_to_key);
      chain = λ x y z.
          o.contract.chain (x + q.offset_to_key) (y + q.offset_to_key) (z + q.offset_to_key);
    }

    ints : (x y : ℕ) → IsSafeInt (keys x y)
    ints x y = o.safe (x + q.offset_to_key) (y + q.offset_to_key)

-- The queue with other contents.
abbrev pub holding : Queue → List ℕ → ℕ → Queue
holding q root elements = record q { root = root; elements = elements }

-- The comparisons are those of the queue, whatever it holds.
pub order-holding :
    (q : Queue) (root r : List ℕ) (elements lo n : ℕ)
    → IsHeapFrom (compared q) lo n r
    → IsHeapFrom (compared (holding q root elements)) lo n r
unfolding compared
order-holding q root r elements lo n h = h

pub order-held :
    (q : Queue) (root r : List ℕ) (elements lo n : ℕ)
    → IsHeapFrom (compared (holding q root elements)) lo n r
    → IsHeapFrom (compared q) lo n r
unfolding compared
order-held q root r elements lo n h = h

pub holding-IsOrdering :
    (q : Queue) (root : List ℕ) (elements : ℕ) → IsOrdering q → IsOrdering (holding q root elements)
holding-IsOrdering q root elements o = record {
  contract = o.contract;
  safe = o.safe;
  sign = o.sign;
}

pub holding-IsValid :
    (q : Queue) (root : List ℕ) (elements : ℕ)
    → IsOrdering q
    → HasRoom q
    → elements ≤ q.max_elements
    → length root ≡ length q.root
    → IsHeapFrom (compared q) 1 elements root
    → IsValid (holding q root elements)
holding-IsValid q root elements o f h e heap = record {
  ordering = holding-IsOrdering q root elements o;
  fits = record { within = h; room = omega (arith, f.room); word = f.word };
  heap = order-holding q root root elements 1 elements heap;
}

-- What _downheap at `i` makes of a queue: only `root` differs, and it is in order from `lo` on, with
-- the same elements.
pub record Downheaped (lo : ℕ) (q q' : Queue) : Type 0 where
  pub frame : q' ≡ record q { root = q'.root }
  pub order : IsHeapFrom (compared q) lo q.elements q'.root
  pub kept : (p : ℕ) → occ p q.elements q'.root ≡ occ p q.elements q.root
  pub size : length q'.root ≡ length q.root

pub downheap_lem :
    (q : Queue) (lo i : ℕ)
    → IsOrdering q
    → 1 ≤ i
    → lo ≤ i
    → i < length q.root
    → q.elements < length q.root
    → IsHeapBut (compared q) lo q.elements i q.root
    → AfterParent (compared q) lo i q.root (at q.root i)
    → ((c : ℕ)
        → 1 < c
        → c ≤ q.elements
        → c / 2 ≡ i
        → AfterParent (compared q) lo i q.root (at q.root c))
    → (q' : Queue) × (downheap q i ≡ some q') × Downheaped lo q q'
unfolding downheap
downheap_lem q lo i o h1 hl hi hn but after bridged =
    let (r, run, s) =
      descend_lem (compared q) (compared-IsOrder q o) lo q.elements i h1 hl (q.elements + 1) q.root
        (at q.root i) (omega arith) hi hn but after bridged in
    (
      record q { root = r },
      ground (arith, get-at q.root i hi, run),
      record {
        frame = refl;
        order = s.heap;
        kept = λ p. s.kept p ∙ ap (occ p q.elements) (set-get_or q.root i 0);
        size = s.size;
      },
    )
