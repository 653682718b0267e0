-- ===== src/Array/Assign.antt =====
-- my_array_set and my_array_allocate of my_array.c.
use my_libs.Base.{
  ℕ, ◌+◌, ◌*◌, ◌/◌, ◌^◌, ◌≤◌, ◌<◌, ◌≡◌, ◌⊎◌, inl, inr, refl, ap, ◌∙◌, none, some, List, arith,
  length, u32, u32_lem, length-splice, dec_lt,
}
use native.Mathlib.Nat.{div-mul-le_self, lt-div-mul-add}
use my_libs.Array.{Array, Buffer, store_in, put_at, my_array_set, my_array_allocate, move_buffer}
use my_libs.Array.Contents.{
  bytes, contents, written, store-written, bytes-written, length-chunks, index_step, index_mono,
}
use my_libs.Malloc.{Allocator}
use my_libs.Array.Fill.{chunks-splice-set}
use my_libs.Array.Insert.{in_block, in_block-IsValid, contents-in_block}
use my_libs.Array.Valid.{Refused, move_buffer_lem, IsMoved, number_le, IsValid}
use my_libs.Array.Extend.{
  put, size-extended, extended, extend-put, extended-IsValid, contents-extended-put,
}

-- The number of elements that my_array_allocate makes room for.
abbrev room_for : Array → ℕ → ℕ
room_for a i = (i + a.increment) / a.increment * a.increment

-- How my_array_set ends: if there is no room for the index and the allocator refuses the larger
-- block, the array as it was; else with the element put at the
-- index, in a valid array of the same element size.
abbrev pub Assigned : Allocator → Array → List ℕ → ℕ → ℕ × Array → Type 0
Assigned al a e i r =
    (r ≡ (1, a)) × (a.number ≤ i) × Refused al a.buffer (room_for a i * a.size)
    ⊎ (r.0 ≡ 0) × (contents r.1 ≡ put (contents a) i e) × IsValid r.1 × (r.1.size ≡ a.size)

module _ (a : Array) (e : List ℕ) (i : ℕ) (v : IsValid a) (he : length e ≡ a.size) where
  -- The array with the element written over the one at the index.
  replaced : Array
  replaced = record a { buffer = written a.buffer (i * a.size) e }

  set_in_use :
      (al : Allocator)
      → i < a.elements
      → (r : ℕ × Array) × (put_at i e (0, a) ≡ some r) × Assigned al a e i r
  unfolding put_at store_in put replaced
  set_in_use al h = (
    (0, replaced),
    ground (arith, off, store-written a.buffer (i * a.size) e some_bytes fits),
    inr (refl, same, valid, refl),
  )
    where
      next : i * a.size + a.size ≤ a.number * a.size
      next = index_step i a.size a.number (omega (arith, v.within))

      fits : i * a.size + length e ≤ length (bytes a.buffer)
      fits = omega (arith, next, v.held)

      some_bytes : 0 < length (bytes a.buffer)
      some_bytes = omega (arith, fits, v.sized)

      off : u32 (i * a.size) ≡ i * a.size
      off = u32_lem _ (omega (arith, next, v.word, v.sized))

      same : contents replaced ≡ put (contents a) i e
      same = rw (bytes-written a.buffer (i * a.size) e some_bytes) (
          chunks-splice-set (bytes a.buffer) a.size a.elements i e he h
            (omega (arith, index_mono a.elements a.size a.number v.within, v.held))
          ∙ ground (arith, length-chunks (bytes a.buffer) a.size 0 a.elements))

      valid : IsValid replaced
      valid = record {
        sized = v.sized;
        stepped = v.stepped;
        within = v.within;
        word = v.word;
        held = omega (
          arith,
          ap length (bytes-written a.buffer (i * a.size) e some_bytes),
          length-splice (bytes a.buffer) (i * a.size) e,
          v.held,
        );
      }

module _ (al : Allocator) (a : Array) (e : List ℕ) (i : ℕ) (v : IsValid a) (he : length e ≡ a.size)
    (word : (i + a.increment) * a.size < 2 ^ 32) where
  count : ℕ
  count = room_for a i

  count_bounds :
      (i < count)
      × (count * a.size < 2 ^ 32)
      × (u32 (u32 (i + a.increment) / a.increment * a.increment) ≡ count)
  unfolding count
  count_bounds =
      let upper : count ≤ i + a.increment = div-mul-le_self (i + a.increment) a.increment in
      let lower : i + a.increment < count + a.increment = lt-div-mul-add v.stepped in
      let word_i : i + a.increment < 2 ^ 32 =
        omega (arith, word, number_le (i + a.increment) a.size v.sized) in
      let inner : u32 (i + a.increment) ≡ i + a.increment = u32_lem _ word_i in
      (
        omega arith,
        omega (arith, index_mono count a.size (i + a.increment) upper),
        ap (λ n. u32 (n / a.increment * a.increment)) inner ∙ u32_lem count (omega arith),
      )

  set_past :
      a.elements ≤ i
      → i < a.number
      → (r : ℕ × Array) × (my_array_set al a e i ≡ some r) × Assigned al a e i r
  unfolding my_array_set
  set_past past room = (
    (0, extended a e i v he past room),
    ground (arith, extend-put a e i v he past room),
    inr (
      refl,
      contents-extended-put a e i v he past room,
      extended-IsValid a e i v he past room,
      size-extended a e i v he past room,
    ),
  )

  block_offsets :
      (u32 (a.elements * a.size) ≡ a.elements * a.size)
      × (u32 (u32 (u32 (i + a.increment) / a.increment * a.increment) * a.size) ≡ count * a.size)
  block_offsets =
      let (large, small, eq) = count_bounds in
      (
        u32_lem _ (omega (arith, index_mono a.elements a.size a.number v.within, v.word)),
        ap (λ n. u32 (n * a.size)) eq ∙ u32_lem _ small,
      )

  allocate-refused :
      a.number ≤ i
      → move_buffer al a.buffer (a.elements * a.size) (count * a.size) ≡ some none
      → my_array_allocate al a i ≡ some (1, a)
  unfolding my_array_allocate
  allocate-refused beyond refused = ground (arith, block_offsets, v.stepped)

  allocate-moved :
      (c : Buffer)
      → a.number ≤ i
      → move_buffer al a.buffer (a.elements * a.size) (count * a.size) ≡ some (some c)
      → my_array_allocate al a i ≡ some (0, in_block a c count)
  unfolding my_array_allocate
  allocate-moved c beyond moved = ground (arith, block_offsets, v.stepped, count_bounds)

  set_moved :
      (c : Buffer)
      → a.number ≤ i
      → move_buffer al a.buffer (a.elements * a.size) (count * a.size) ≡ some (some c)
      → IsMoved a.buffer (a.elements * a.size) (count * a.size) c
      → (r : ℕ × Array) × (my_array_set al a e i ≡ some r) × Assigned al a e i r
  unfolding my_array_set
  set_moved c beyond moved m =
      let g = in_block a c count in
      let gv : IsValid g =
        in_block-IsValid a count c v (omega (arith, count_bounds)) (count_bounds.1) m in
      let past : g.elements ≤ i = omega (arith, v.within) in
      let room : i < g.number = count_bounds.0 in
      let same : put (contents g) i e ≡ put (contents a) i e =
        ap (λ xs. put xs i e)
          (contents-in_block a count c v (omega (arith, count_bounds)) (count_bounds.1) m) in
      (
        (0, extended g e i gv he past room),
        ground (arith, allocate-moved c beyond moved, extend-put g e i gv he past room, v.within),
        inr (
          refl,
          contents-extended-put g e i gv he past room ∙ same,
          extended-IsValid g e i gv he past room,
          size-extended g e i gv he past room,
        ),
      )

  set_grown :
      a.number ≤ i → (r : ℕ × Array) × (my_array_set al a e i ≡ some r) × Assigned al a e i r
  unfolding my_array_set count
  set_grown beyond =
      elim (move_buffer_lem al a.buffer (a.elements * a.size) (count * a.size)
        (omega (arith, v.held, index_mono a.elements a.size a.number v.within))
        (index_mono a.elements a.size count (omega (arith, count_bounds, v.within)))) [
          | inl (refused, why) ↦ (
            (1, a),
            ground (arith, allocate-refused beyond refused, v.within),
            inl (refl, beyond, why),
          )
          | inr (c, moved, m) ↦ set_moved c beyond moved m
        ]

  -- my_array_set of a valid array, when room for the index would stay below 2^32 bytes, accesses
  -- nothing outside its block. Either the index is past the room, the allocator refuses the larger
  -- block, the return value is 1 and the array is unchanged; or the return value is 0, the element is put at the
  -- index (the gap before an index past the last is zeroed), and the array is valid with the same
  -- element size.
  pub my_array_set_lem : (r : ℕ × Array) × (my_array_set al a e i ≡ some r) × Assigned al a e i r
  unfolding my_array_set
  my_array_set_lem = elim (dec_lt i a.elements) [
    | yes h ↦ let (r, eq, done) = set_in_use a e i v he al h in (r, ground arith, done)
    | no h ↦ elim (dec_lt i a.number) [
      | yes room ↦ set_past (omega arith) room
      | no full ↦ set_grown (omega arith)
    ]
  ]
