-- ===== src/Array/Tests.antt =====
-- Runs of the functions of my_array.c on elements of two bytes.
use my_libs.Base.{
  ℕ, ◌^◌, ◌≡◌, refl, some, [], ◌∷◌, arith, replicate, remove_at, ltb, get_or, read, if◌then◌else◌,
  u32, splice,
}
use my_libs.Malloc.{my_malloc}
use my_libs.Malloc.Tests.{endless_allocator}
use my_libs.Array.{
  Array, inline, heap, my_array_insert, my_array_alloc, my_array_set, my_array_get, my_array_delete,
  my_array_free, init_increment, default_increment, move_buffer, take_place, grown, copy_to,
  extend_to, put_at, store_in, load, store,
}
use my_libs.Array.Contents.{contents}
use my_libs.Array.Valid.{IsValid}
use my_libs.Array.Insert.{Inserted, my_array_insert_lem}
use my_libs.Array.Access.{my_array_get_lem}
use my_libs.Array.Assign.{Assigned, my_array_set_lem}
use my_libs.Array.Delete.{my_array_delete_lem}
use my_libs.Array.Lifecycle.{Released, my_array_free_lem}

-- Two elements in a block behind the struct, which is full.
abbrev full : Array
full = record {
  buffer = inline (1 ∷ 2 ∷ 3 ∷ 4 ∷ []);
  elements = 2;
  number = 2;
  increment = 3;
  size = 2;
}

-- Two elements in a block of its own that has room for four.
abbrev roomy : Array
roomy = record {
  buffer = heap (1 ∷ 2 ∷ 3 ∷ 4 ∷ 5 ∷ 6 ∷ 7 ∷ 8 ∷ []);
  elements = 2;
  number = 4;
  increment = 3;
  size = 2;
}

full-IsValid : IsValid full
full-IsValid = record {
  sized = omega arith;
  stepped = omega arith;
  within = omega arith;
  held = omega arith;
  word = omega arith;
}

roomy-IsValid : IsValid roomy
roomy-IsValid = record {
  sized = omega arith;
  stepped = omega arith;
  within = omega arith;
  held = omega arith;
  word = omega arith;
}

insert_grows :
    my_array_insert endless_allocator full (8 ∷ 9 ∷ [])
    ≡ some (
      0,
      record full {
        buffer = heap (1 ∷ 2 ∷ 3 ∷ 4 ∷ 8 ∷ 9 ∷ 0 ∷ 0 ∷ 0 ∷ 0 ∷ []);
        elements = 3;
        number = 5;
      },
    )
unfolding my_malloc my_array_insert my_array_alloc move_buffer take_place grown copy_to store_in
    load store u32 read splice
insert_grows = refl

set_fills_the_gap :
    my_array_set endless_allocator roomy (8 ∷ 9 ∷ []) 3
    ≡ some (0, record roomy { buffer = heap (1 ∷ 2 ∷ 3 ∷ 4 ∷ 0 ∷ 0 ∷ 8 ∷ 9 ∷ []); elements = 4 })
unfolding my_array_set extend_to put_at store_in load store u32 read splice
set_fills_the_gap = refl

delete_moves_down :
    my_array_delete roomy 0
    ≡ some (record roomy { buffer = heap (3 ∷ 4 ∷ 3 ∷ 4 ∷ 5 ∷ 6 ∷ 7 ∷ 8 ∷ []); elements = 1 })
unfolding my_array_delete store_in load store u32 read splice
delete_moves_down = refl

-- Half of the words as a number of elements make the step 0.
default_increment_wraps : init_increment (2 ^ 31) 0 1 ≡ 0
unfolding init_increment default_increment u32
default_increment_wraps = refl

my_array_insert_lem_example :
    (r : ℕ × Array) × (my_array_insert endless_allocator full (8 ∷ 9 ∷ []) ≡ some r)
    × Inserted endless_allocator full (8 ∷ 9 ∷ []) r
my_array_insert_lem_example =
    my_array_insert_lem endless_allocator full (8 ∷ 9 ∷ []) full-IsValid refl (omega arith)

my_array_set_lem_example :
    (r : ℕ × Array) × (my_array_set endless_allocator full (8 ∷ 9 ∷ []) 6 ≡ some r)
    × Assigned endless_allocator full (8 ∷ 9 ∷ []) 6 r
my_array_set_lem_example =
    my_array_set_lem endless_allocator full (8 ∷ 9 ∷ []) 6 full-IsValid refl (omega arith)

my_array_get_lem_example :
    my_array_get roomy 1
    ≡ some (if ltb 1 2 then (0, get_or (contents roomy) 1 []) else (1, replicate 2 0))
my_array_get_lem_example = my_array_get_lem roomy 1 roomy-IsValid

my_array_delete_lem_example :
    (a' : Array) × (my_array_delete roomy 0 ≡ some a')
    × (contents a' ≡ remove_at (contents roomy) 0)
    × IsValid a'
my_array_delete_lem_example = my_array_delete_lem roomy 0 roomy-IsValid (omega arith)

my_array_free_lem_example :
    (a' : Array) × (my_array_free endless_allocator roomy ≡ some a')
    × Released endless_allocator roomy a'
my_array_free_lem_example = my_array_free_lem endless_allocator roomy roomy-IsValid (omega arith)
