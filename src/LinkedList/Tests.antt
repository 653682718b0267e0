-- ===== src/LinkedList/Tests.antt =====
-- Runs of the functions of my_list.c on a list of two.
use my_libs.Base.{
  ℕ, ◌≡◌, ◌⊎◌, refl, true, false, Option, none, some, List, [], ◌∷◌, ◌++◌, arith, if◌then◌else◌,
  ◌==◌, ltb,
}
use my_libs.Base.Int.{ℤ, pos}
use my_libs.LinkedList.{
  MyListIter, Store, put, my_list_prepend, my_list_append, my_list_add, my_list_iter_insert,
  my_list_iter_delete, write_foreach, write_next, link_on, lengthen,
}
use my_libs.LinkedList.Loops.{
  my_list_lookup, my_list_delete, my_list_sortadd, find_from, my_list_uninit,
}
use my_libs.LinkedList.Segment.{Holds}
use my_libs.LinkedList.Grow.{my_list_append_lem, add-prepend}
use my_libs.LinkedList.Shrink.{my_list_iter_delete_lem}
use my_libs.LinkedList.Search.{Stops, Passed, Removed, my_list_lookup_lem, my_list_delete_lem}
use my_libs.LinkedList.Insert.{Inserted, my_list_iter_insert_lem, my_list_sortadd_lem}
use my_libs.LinkedList.Release.{Freed, my_list_uninit_lem}

-- The list object is at 1, and the iterators at 10 and 20.
abbrev two : Store
two = record {
  my_list = record { head = 10; tail = 20; length = 2 };
  iter = λ a.
      if a == 10
      then some (record { item_data = 5; list = 1; next = 20; prev = 0; foreach = 0 })
      else if a == 20
      then some (record { item_data = 7; list = 1; next = 0; prev = 10; foreach = 0 })
      else none;
}

abbrev pair : List (ℕ × ℕ)
pair = (10, 5) ∷ (20, 7) ∷ []

two-Holds : Holds 1 two pair
two-Holds = record {
  there = refl;
  head = refl;
  tail = refl;
  counted = refl;
  word = omega arith;
  linked = ((0, refl), ((0, refl), tt));
  distinct = (refl, (refl, refl, tt), (refl, tt, tt));
}

my_list_append_lem_example :
    (s' : Store) × (my_list_append 1 two 3 (some (30, 1)) ≡ some (30, s'))
    × Holds 1 s' (pair ++ (30, 3) ∷ [])
my_list_append_lem_example =
    my_list_append_lem 1 two pair 3 30 1 two-Holds (omega arith)
      (refl, (refl, refl, (refl, refl, tt)))

add-prepend_example : my_list_add 1 two 3 (some (30, 1)) ≡ my_list_prepend 1 two 3 (some (30, 1))
add-prepend_example = add-prepend 1 two pair 3 (some (30, 1)) two-Holds

my_list_iter_insert_lem_example :
    Inserted 1 30 ((10, 5) ∷ (30, 6) ∷ (20, 7) ∷ []) (my_list_iter_insert 20 two 6 (some (30, 1)))
my_list_iter_insert_lem_example =
    my_list_iter_insert_lem 1 two ((10, 5) ∷ []) 20 7 [] 6 30 1 two-Holds (omega arith)
      (refl, (refl, refl, (refl, refl, tt)))

my_list_iter_delete_lem_example :
    (i : MyListIter) × (two.iter 20 ≡ some i)
    × (s' : Store) × (my_list_iter_delete 20 two ≡ some s')
    × (((i.foreach == 1) ≡ true)
          × Holds 1 s' pair
          × ((j : MyListIter) × (s'.iter 20 ≡ some j) × (j.foreach ≡ 0))
        ⊎ ((i.foreach == 1) ≡ false) × Holds 1 s' ((10, 5) ∷ []) × (s'.iter 20 ≡ none))
my_list_iter_delete_lem_example = my_list_iter_delete_lem 1 two ((10, 5) ∷ []) 20 7 [] two-Holds

my_list_lookup_lem_example : Stops (λ e. 7 == e) pair (my_list_lookup 3 1 two 7)
my_list_lookup_lem_example = my_list_lookup_lem 3 1 two pair 7 two-Holds (omega arith)

my_list_delete_lem_example :
    (r : ℤ × Store) × (my_list_delete 3 1 two 5 ≡ some r) × Removed 1 two pair 5 r
my_list_delete_lem_example = my_list_delete_lem 3 1 two pair 5 two-Holds (omega arith)

-- A callback that tells whether the first is greater.
abbrev greater : ℕ → ℕ → ℕ
greater a b = if ltb b a then 1 else 0

my_list_sortadd_lem_example :
    (ys : List (ℕ × ℕ)) × (zs : List (ℕ × ℕ)) × (pair ≡ ys ++ zs)
    × Passed (λ e. ltb 0 (greater e 6)) ys
    × ((zs ≡ [])
        ⊎ ((b : ℕ) × (e : ℕ) × (rest : List (ℕ × ℕ)) × (zs ≡ (b, e) ∷ rest)
            × (ltb 0 (greater e 6) ≡ true)))
    × Inserted 1 30 (ys ++ (30, 6) ∷ zs) (my_list_sortadd 3 1 two (some greater) 6 (some (30, 1)))
my_list_sortadd_lem_example =
    my_list_sortadd_lem 3 1 two pair greater 6 30 1 two-Holds (omega arith) (omega arith)
      (refl, (refl, refl, (refl, refl, tt)))

my_list_uninit_lem_example :
    (s' : Store) × (my_list_uninit 2 1 two ≡ some (10 ∷ 20 ∷ 1 ∷ [], s')) × Freed s'.iter pair
my_list_uninit_lem_example = my_list_uninit_lem 2 1 two pair two-Holds (omega arith)

abbrev answer : Option (ℤ × Store) → Option ℤ
answer none = none
answer (some r) = some r.0

abbrev length_of : Option (ℤ × Store) → ℕ
length_of none = 0
length_of (some r) = r.1.my_list.length

-- An iterator that was allocated where a 1 was left is not deleted, and my_list_delete says it is.
mark_left :
    (s : Store) × (my_list_append 1 two 3 (some (30, 1)) ≡ some (30, s))
    × (answer (my_list_delete 4 1 s 3) ≡ some (pos 0))
    × (length_of (my_list_delete 4 1 s 3) ≡ 3)
unfolding my_list_append my_list_delete find_from my_list_iter_delete write_foreach write_next
    link_on lengthen put
mark_left = (_, refl, refl, refl)
