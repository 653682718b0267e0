-- ===== src/Queue/Resize.antt =====
-- queue_resize of my_queue.c.
use mathlib.Core.Path.{subst}
use my_libs.Base.{
  ℕ, sym, ◌+◌, ◌/◌, ◌^◌, ◌<◌, ◌≤◌, ◌≡◌, ◌≢◌, ◌⊎◌, inl, inr, refl, none, some, List, arith, ltb,
  if◌then◌else◌, u32_lem, Option-cases, ℕ_discrete, dec_lt,
}
use my_libs.Queue.{Queue, compared}
use my_libs.Queue.Lifecycle.{Extern, queue_resize}
use my_libs.Queue.Order.{at}
use my_libs.Queue.Valid.{IsValid}

-- How queue_resize ends: if another number is asked and realloc refuses, the queue as it was; else
-- a valid queue with room for
-- `max_elements`, that has the first of the elements, as many as find room.
abbrev pub Resized : Extern → Queue → ℕ → ℕ × Queue → Type 0
Resized ext q m r =
    (r ≡ (1, q)) × (q.max_elements ≢ m) × (ext.realloc q.root (m + 1) ≡ none)
    ⊎ (r.0 ≡ 0)
      × IsValid r.1
      × (r.1.max_elements ≡ m)
      × (r.1.elements ≡ (if ltb m q.elements then m else q.elements))
      × ((i : ℕ) → 1 ≤ i → i ≤ r.1.elements → at r.1.root i ≡ at q.root i)

module _ (ext : Extern) (q : Queue) (m : ℕ) (v : IsValid q) (word : m + 1 < 2 ^ 32) where
  open v.fits use {within, room}

  left : ext.set_if_smaller q.elements m ≡ (if ltb m q.elements then m else q.elements)
  left = elim (dec_lt m q.elements) [
    | yes less ↦ ground (arith, ext.set_if_smaller_cut q.elements m)
    | no enough ↦ ground (arith, ext.set_if_smaller_kept q.elements m)
  ]

  in_block : List ℕ → Queue
  in_block c = record q { root = c; elements = ext.set_if_smaller q.elements m; max_elements = m }

  kept :
      (c : List ℕ)
      → ext.realloc q.root (m + 1) ≡ some c
      → (i : ℕ) → i ≤ ext.set_if_smaller q.elements m
      → at c i ≡ at q.root i
  kept c got i h =
      ext.realloc_kept q.root (m + 1) c i got (ground (arith, left))
        (omega (arith, ext.set_if_smaller_le q.elements m))

  in_block-IsValid : (c : List ℕ) → ext.realloc q.root (m + 1) ≡ some c → IsValid (in_block c)
  unfolding in_block compared
  in_block-IsValid c got = record {
    ordering = record {
      contract = v.ordering.contract;
      safe = v.ordering.safe;
      sign = v.ordering.sign;
    };
    fits = record {
      within = ext.set_if_smaller_le q.elements m;
      room = omega (arith, ext.length-realloc q.root (m + 1) c got);
      word = word;
    };
    heap = λ c' h1 hn hl.
        ground (arith, kept c got c', kept c got (c' / 2), v.heap c' h1 (ground (arith, left)) hl);
  }

  -- queue_resize of a valid queue, to a number whose successor is a word: either the number is not
  -- the present one and realloc refuses the block for it, the return value is 1 and the queue is as
  -- it was; or the return value is 0, and the queue is valid, has room for
  -- that number, and has its first elements, as many as find room, in their places.
  pub queue_resize_lem : Resized ext q m (queue_resize ext q m)
  unfolding queue_resize in_block
  queue_resize_lem = elim (ℕ_discrete q.max_elements m) [
    | yes same ↦
        let run : queue_resize ext q m ≡ (0, q) = ground arith in
        subst (Resized ext q m) (sym run)
          (inr (refl, v, same, ground (arith, within), λ i h1 hn. refl))
    | no other ↦ elim (Option-cases (ext.realloc q.root (m + 1))) [
      | inl refused ↦
          let run : queue_resize ext q m ≡ (1, q) = ground (arith, u32_lem (m + 1) word) in
          subst (Resized ext q m) (sym run) (inl (refl, other, refused))
      | inr (c, got) ↦
          let run : queue_resize ext q m ≡ (0, in_block c) = ground (arith, u32_lem (m + 1) word) in
          subst (Resized ext q m) (sym run)
            (inr (refl, in_block-IsValid c got, refl, left, λ i h1 hn. kept c got i hn))
    ]
  ]
