-- ===== src/Array/Lifecycle.antt =====
-- my_array_init and my_array_free of my_array.c.
use my_libs.Base.{
  ℕ, ◌*◌, ◌^◌, ◌≤◌, ◌<◌, ◌≡◌, ◌≢◌, ◌⊎◌, inl, inr, refl, ap, sym, ◌∙◌, Option, none, some, List, [],
  arith, length, get_or, u32, u32_lem, Bool, true, false, u32_lem, Option-cases, max, ◌==◌,
  if◌then◌else◌, ℕ_discrete,
}
use my_libs.Array.{
  Array, Buffer, my_array_init, default_increment, init_increment, init_buffer, inline,
  my_array_free, heap, null,
}
use my_libs.Array.Contents.{bytes, contents, index_mono}
use my_libs.Array.Valid.{IsValid}
use my_libs.Array.Valid.{IsMoved}
use my_libs.Array.Insert.{in_block, in_block-IsValid, contents-in_block}
use my_libs.Malloc.{Allocator}

default_increment_pos : (number size : ℕ) → number < 2 ^ 31 → 0 < default_increment number size
unfolding default_increment
default_increment_pos number size h = ground (arith, u32_lem (number * 2) (omega arith))

init_increment_pos :
    (number increment size : ℕ) → number < 2 ^ 31 → 0 < init_increment number increment size
unfolding init_increment
init_increment_pos number increment size h = ground (arith, default_increment_pos number size h)

-- A block given by the caller has `n` bytes at least.
abbrev pub HasRoom : Buffer → ℕ → Type 0
HasRoom null n = Unit {0}
HasRoom (inline b) n = n ≤ length b
HasRoom (heap b) n = n ≤ length b

given_HasRoom :
    (fresh : Bool) (b : Buffer) (step number size : ℕ)
    → HasRoom b (number * size)
    → HasRoom (if fresh then null else b) ((if fresh then step else number) * size)
given_HasRoom true b step number size room = tt
given_HasRoom false b step number size room = room

module _ (al : Allocator) where
  -- What my_array_free makes of an array with a block: one of its own is cut down to the elements,
  -- one at least. If the reallocation is refused, the block is forgotten while the counts stay.
  abbrev pub Trimmed : List ℕ → Array → Array → Type 0
  Trimmed b a a' =
      (a.number ≡ max a.elements 1) × (a' ≡ a)
      ⊎ (a.number ≢ max a.elements 1)
        × (a'.number ≡ max a.elements 1)
        × (a'.elements ≡ a.elements)
        × (((c : List ℕ) × (al.realloc (some b) (max a.elements 1 * a.size) ≡ some c)
              × (a'.buffer ≡ heap c)
              × (contents a' ≡ contents a)
              × IsValid a')
            ⊎ (al.realloc (some b) (max a.elements 1 * a.size) ≡ none) × (a'.buffer ≡ null))

  abbrev Cut : Buffer → Array → Array → Type 0
  Cut null a a' = a' ≡ a
  Cut (inline b) a a' = a' ≡ a
  Cut (heap b) a a' = Trimmed b a a'

  -- An array without a block of its own stays as it is.
  abbrev pub Released : Array → Array → Type 0
  Released a a' = Cut a.buffer a a'

  -- my_array_free of a valid array with room for an element accesses nothing outside its block. An
  -- array without a block of its own, or whose block has no room to spare behind the elements (one
  -- at least), is as it was. Otherwise the number of elements with room is that of the elements (one
  -- at least), and realloc is asked for so much: its block becomes the array's, which is valid with
  -- the same contents; but if it refuses, the array has no block while the counts stay.
  pub my_array_free_lem :
      (a : Array)
      → IsValid a
      → 0 < a.number
      → (a' : Array) × (my_array_free al a ≡ some a') × Released a a'
  unfolding my_array_free
  my_array_free_lem a v h = by_buffer a.buffer refl
    where
      kept : ℕ
      kept = max a.elements 1

      small : kept * a.size ≤ a.number * a.size
      small = index_mono kept a.size a.number (omega (arith, v.within))

      asked : u32 (kept * a.size) ≡ kept * a.size
      asked = u32_lem _ (omega (arith, small, v.word))

      shrink :
          (b : List ℕ)
          → a.buffer ≡ heap b
          → a.number ≢ kept
          → (a' : Array) × (my_array_free al a ≡ some a') × Trimmed b a a'
      shrink b e ne = elim (Option-cases (al.realloc (some b) (kept * a.size))) [
        | inl refused ↦ (
          record a { buffer = null; number = kept },
          ground (arith, asked),
          inr (ne, refl, refl, inr (refused, refl)),
        )
        | inr (c, got) ↦
            let moved : IsMoved a.buffer (a.elements * a.size) (kept * a.size) (heap c) = record {
              room = al.length-realloc (some b) (kept * a.size) c got;
              kept = λ k hk.
                  al.realloc_kept b (kept * a.size) c k got
                    (omega (
                      arith,
                      ap (λ x. length (bytes x)) e,
                      index_mono a.elements a.size a.number v.within,
                      v.held,
                    ))
                    (omega (arith, index_mono a.elements a.size kept (omega arith)))
                  ∙ ap (λ x. get_or (bytes x) k 0) (sym e);
            } in
            (
              in_block a (heap c) kept,
              ground (arith, asked),
              inr (
                ne,
                refl,
                refl,
                inl (
                  c,
                  got,
                  refl,
                  contents-in_block a kept (heap c) v (omega arith) (omega (arith, small, v.word))
                      moved,
                  in_block-IsValid a kept (heap c) v (omega arith) (omega (arith, small, v.word))
                      moved,
                ),
              ),
            )
      ]

      by_buffer :
          (b : Buffer) → a.buffer ≡ b → (a' : Array) × (my_array_free al a ≡ some a') × Cut b a a'
      by_buffer null e = (a, ground arith, refl)
      by_buffer (inline b) e = (a, ground arith, refl)
      by_buffer (heap b) e = elim (ℕ_discrete a.number kept) [
        | yes same ↦ (a, ground arith, inl (same, refl))
        | no ne ↦ shrink b e ne
      ]

  init_buffer_lem :
      (b : Buffer) (n : ℕ)
      → HasRoom b n
      → (init_buffer al b n ≡ none)
        ⊎ ((c : Buffer) × (init_buffer al b n ≡ some c) × (n ≤ length (bytes c)))
  unfolding init_buffer
  init_buffer_lem null n room = elim (Option-cases (al.malloc n)) [
    | inl e ↦ inl (rw (e, init_buffer))
    | inr (c, e) ↦ inr (heap c, rw (e, init_buffer), omega (arith, al.length-malloc n c e))
  ]
  init_buffer_lem (inline b) n room = inr (inline b, refl, room)
  init_buffer_lem (heap b) n room = inr (heap b, refl, room)

  -- my_array_init, with a size above 0, a number of elements whose double does not wrap around, a
  -- block that has room for them if one is given, and less than 2^32 bytes, divides by no 0. It
  -- returns NULL, or an array that is valid and empty and has room for an element.
  pub my_array_init_lem :
      (struct_allocated : Bool) (buffer : Buffer) (number increment size : ℕ)
      → 0 < size
      → number < 2 ^ 31
      → number * size < 2 ^ 32
      → init_increment number increment size * size < 2 ^ 32
      → HasRoom buffer (number * size)
      → (r : Option Array) × (my_array_init al struct_allocated buffer number increment size
          ≡ some r)
        × ((r ≡ none)
            ⊎ ((a : Array) × (r ≡ some a) × IsValid a × (contents a ≡ []) × (0 < a.number)))
  my_array_init_lem false buffer number increment size hs hn hw hd room =
      (none, unfold my_array_init in refl, inl refl)
  my_array_init_lem true buffer number increment size hs hn hw hd room =
      elim (init_buffer_lem given (count * size) has) [
        | inl e ↦ (none, unfold my_array_init in ground (arith, asked), inl refl)
        | inr (b, e, enough) ↦
            let a : Array = record {
              buffer = b;
              elements = 0;
              number = count;
              increment = step;
              size = size;
            } in
            (
              some a,
              unfold my_array_init in ground (arith, asked),
              inr (
                a,
                refl,
                record {
                  sized = hs;
                  stepped = step_pos;
                  within = omega arith;
                  held = enough;
                  word = word;
                },
                refl,
                omega (arith, count_pos),
              ),
            )
      ]
    where
      step : ℕ
      step = init_increment number increment size

      count : ℕ
      count = if number == 0 then step else number

      given : Buffer
      given = if number == 0 then null else buffer

      step_pos : 0 < step
      step_pos = init_increment_pos number increment size hn

      count_pos : 0 < count
      count_pos = ground (arith, step_pos)

      word : count * size < 2 ^ 32
      word = ground arith

      asked : u32 (size * count) ≡ count * size
      asked = let e : size * count ≡ count * size = omega arith in ap u32 e ∙ u32_lem _ word

      has : HasRoom given (count * size)
      has = given_HasRoom (number == 0) buffer step number size room
