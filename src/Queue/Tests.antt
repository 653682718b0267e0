-- ===== src/Queue/Tests.antt =====
-- Runs of the functions of my_queue.c on a queue of numbers, the smallest on top.
use my_libs.Base.{
  replicate, ltb, if◌then◌else◌, ℕ, zero, suc, ◌+◌, ◌≡◌, inl, refl, some, List, [], ◌∷◌, arith, u32,
}
use my_libs.Base.Int.{ℤ, pos, negsuc, ◌*ℤ◌, wrapped}
use my_libs.Queue.{
  Queue, compared, put, child_of, climb, descend, downheap, sift_up, queue_insert, queue_remove,
  fix_from, queue_fix,
}
use my_libs.Queue.Lifecycle.{Extern, queue_resize}
use my_libs.Queue.Order.{IsOrder, same}
use my_libs.Queue.Valid.{IsSafeInt, IsOrdering, HasRoom, IsHeap, IsValid, count}
use my_libs.Queue.Insert.{queue_insert_lem}
use my_libs.Queue.Remove.{queue_remove_lem}
use my_libs.Queue.Fix.{queue_fix_lem}
use my_libs.Queue.Resize.{Resized, queue_resize_lem}
use my_libs.Malloc.Tests.{fit, length-of_fit, get_or-of_fit, length-of_replicate}
use my_libs.Queue.Misorder.{queue_remove_misorders}

-- -1, 1 or 0.
abbrev by_address : ℕ → ℕ → ℕ → ℤ
by_address arg x y = if ltb x y then negsuc 0 else if ltb y x then pos 1 else pos 0

abbrev ascending : List ℕ → ℕ → Queue
ascending root elements = record {
  root = root;
  first_cmp_arg = 0;
  elements = elements;
  max_elements = 7;
  offset_to_key = 0;
  max_at_top = pos 1;
  compare = by_address;
  auto_extent = 0;
}

-- In order, with the 10 on one side and the 2 on the other.
abbrev sides : Queue
sides = ascending (0 ∷ 1 ∷ 10 ∷ 2 ∷ 11 ∷ 12 ∷ 3 ∷ 0 ∷ []) 6

-- Out of order.
abbrev jumble : Queue
jumble = ascending (0 ∷ 9 ∷ 4 ∷ 7 ∷ 1 ∷ 2 ∷ 0 ∷ 0 ∷ []) 5

address-IsOrder : IsOrder (by_address 0)
address-IsOrder = record {
  swapped = λ x y. ground arith;
  asym = λ x y h. ground arith;
  chain = λ x y z h k. ground arith;
}

address-IsSafeInt : (x y : ℕ) → IsSafeInt (by_address 0 x y)
address-IsSafeInt x y = record { upper = ground arith; lower = ground arith }

ascending-IsOrdering : (root : List ℕ) (n : ℕ) → IsOrdering (ascending root n)
ascending-IsOrdering root n = record {
  contract = address-IsOrder;
  safe = address-IsSafeInt;
  sign = inl refl;
}

sides-HasRoom : HasRoom sides
sides-HasRoom = record { within = omega arith; room = omega arith; word = omega arith }

jumble-HasRoom : HasRoom jumble
jumble-HasRoom = record { within = omega arith; room = omega arith; word = omega arith }

sides-IsHeap : IsHeap sides
unfolding compared ◌*ℤ◌ wrapped
sides-IsHeap zero h1 hn hl = elim h1 [ ]
sides-IsHeap (suc zero) h1 hn hl = absurd (omega arith)
sides-IsHeap (suc (suc zero)) h1 hn hl = refl
sides-IsHeap (suc (suc (suc zero))) h1 hn hl = refl
sides-IsHeap (suc (suc (suc (suc zero)))) h1 hn hl = refl
sides-IsHeap (suc (suc (suc (suc (suc zero))))) h1 hn hl = refl
sides-IsHeap (suc (suc (suc (suc (suc (suc zero)))))) h1 hn hl = refl
sides-IsHeap (suc (suc (suc (suc (suc (suc (suc n))))))) h1 hn hl = absurd (omega arith)

sides-IsValid : IsValid sides
sides-IsValid = record {
  ordering = ascending-IsOrdering _ _;
  fits = sides-HasRoom;
  heap = sides-IsHeap;
}

runs :
    (queue_insert sides 0 ≡ some (ascending (0 ∷ 0 ∷ 10 ∷ 1 ∷ 11 ∷ 12 ∷ 3 ∷ 2 ∷ []) 7))
    × (queue_remove sides 0 ≡ some (1, ascending (0 ∷ 2 ∷ 10 ∷ 3 ∷ 11 ∷ 12 ∷ 3 ∷ 0 ∷ []) 5))
    × (queue_fix jumble ≡ some (ascending (0 ∷ 1 ∷ 2 ∷ 7 ∷ 4 ∷ 9 ∷ 0 ∷ 0 ∷ []) 5))
unfolding queue_insert queue_remove queue_fix fix_from downheap descend climb child_of sift_up put
    compared ◌*ℤ◌ wrapped u32
runs = (refl, refl, refl)

queue_insert_lem_example :
    (q' : Queue) × (queue_insert sides 5 ≡ some q')
    × IsValid q'
    × (q'.elements ≡ 6 + 1)
    × ((p : ℕ) → count p q' ≡ count p sides + same 5 p)
queue_insert_lem_example = queue_insert_lem sides 5 sides-IsValid (omega arith)

queue_remove_lem_example :
    (q' : Queue) × (queue_remove sides 0 ≡ some (1, q'))
    × IsValid q'
    × (q'.elements + 1 ≡ 6)
    × ((p : ℕ) → count p q' + same 1 p ≡ count p sides)
queue_remove_lem_example =
    queue_remove_lem sides 0 sides-IsValid (omega arith) (λ h hl. absurd (omega arith))

queue_fix_lem_example :
    (q' : Queue) × (queue_fix jumble ≡ some q')
    × IsValid q'
    × (q'.elements ≡ 5)
    × ((p : ℕ) → count p q' ≡ count p jumble)
queue_fix_lem_example = queue_fix_lem jumble (ascending-IsOrdering _ _) jumble-HasRoom

queue_remove_misorders_example : (q' : Queue) × (queue_remove sides 3 ≡ some (11, q')) × ¬ IsHeap q'
unfolding compared ◌*ℤ◌ wrapped
queue_remove_misorders_example =
    queue_remove_misorders sides 3 sides-HasRoom sides-IsHeap (omega arith) (omega arith)
      (omega arith) refl

-- Memory never ends.
abbrev endless_blocks : Extern
endless_blocks = record {
  malloc = λ n. some (replicate n 0);
  realloc = λ b n. some (fit b n);
  set_if_smaller = λ a b. if ltb b a then b else a;
  length-malloc = length-of_replicate;
  length-realloc = length-of_fit;
  realloc_kept = get_or-of_fit;
  set_if_smaller_le = λ a b. ground arith;
  set_if_smaller_kept = λ a b h. ground arith;
  set_if_smaller_cut = λ a b h. ground arith;
}

queue_resize_lem_example : Resized endless_blocks sides 4 (queue_resize endless_blocks sides 4)
queue_resize_lem_example = queue_resize_lem endless_blocks sides 4 sides-IsValid (omega arith)
