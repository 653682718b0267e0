-- ===== src/Array/Insert.antt =====
-- my_array_insert and my_array_alloc of my_array.c.
use my_libs.Base.{
  ℕ, ◌+◌, ◌-◌, ◌*◌, ◌^◌, ◌≤◌, ◌<◌, ◌≡◌, ◌⊎◌, inl, inr, refl, ap, sym, ◌∙◌, some, List, [], ◌∷◌,
  ◌++◌, arith, length, get_or, read, splice, u32, u32_lem, length-splice, read-splice_self,
  read-splice_apart, list_ext, length-append, get_or-append, dec_lt,
}
use my_libs.Malloc.{Allocator}
use my_libs.Array.{
  Array, Buffer, store_in, my_array_alloc, my_array_insert, take_place, grown, copy_to,
}
use my_libs.Array.Contents.{
  bytes, chunks, contents, written, store-written, bytes-written, length-chunks, get_or-chunks,
  chunks_ext, index_step, index_mono,
}
use my_libs.Array.Valid.{IsValid, number_le, number_word, IsMoved, Refused, move_buffer_lem}

-- Writing one element behind `n` elements extends them by it.
pub chunks-splice :
    (b : List ℕ) (s n : ℕ) (e : List ℕ)
    → length e ≡ s
    → n * s + s ≤ length b
    → chunks (splice b (n * s) e) s 0 (n + 1) ≡ chunks b s 0 n ++ e ∷ []
chunks-splice b s n e he fits =
    list_ext (chunks c s 0 (n + 1)) (chunks b s 0 n ++ e ∷ []) []
      (omega (
        arith,
        length-chunks c s 0 (n + 1),
        length-append (chunks b s 0 n) (e ∷ []),
        length-chunks b s 0 n,
      ))
      (λ k h. agree k (omega (arith, length-chunks c s 0 (n + 1))))
  where
    c : List ℕ
    c = splice b (n * s) e

    agree :
        (k : ℕ)
        → k < n + 1
        → get_or (chunks c s 0 (n + 1)) k [] ≡ get_or (chunks b s 0 n ++ e ∷ []) k []
    agree k h = elim (dec_lt k n) [
      | yes p ↦
          get_or-chunks c s 0 (n + 1) k h
          ∙ read-splice_apart b (n * s) e ((0 + k) * s) s (omega arith)
              (inl (index_step (0 + k) s n (omega arith)))
          ∙ ground (
            arith,
            get_or-append (chunks b s 0 n) (e ∷ []) k [],
            get_or-chunks b s 0 n k p,
            length-chunks b s 0 n,
          )
      | no p ↦
          let at_n : 0 + k ≡ n = omega arith in
          let behind : k - length (chunks b s 0 n) ≡ 0 = omega (arith, length-chunks b s 0 n) in
          get_or-chunks c s 0 (n + 1) k h
          ∙ ap (λ i. read c (i * s) s) at_n
          ∙ ap (λ l. read c (n * s) l) (sym he)
          ∙ read-splice_self b (n * s) e (omega arith)
          ∙ ground (
            arith,
            get_or-append (chunks b s 0 n) (e ∷ []) k [],
            length-chunks b s 0 n,
            ap (λ i. get_or (e ∷ []) i []) behind,
          )
    ]

module _ (a : Array) (e : List ℕ) (v : IsValid a) (he : length e ≡ a.size)
    (free : a.elements < a.number) where
  -- The array with the element written behind the others.
  abbrev pub appended : Array
  appended = record a {
    buffer = written a.buffer (a.elements * a.size) e;
    elements = a.elements + 1;
  }

  last_fits : a.elements * a.size + a.size ≤ length (bytes a.buffer)
  last_fits = omega (arith, index_step a.elements a.size a.number free, v.held)

  last_off : u32 (a.elements * a.size) ≡ a.elements * a.size
  last_off = u32_lem _ (
      omega (
        arith,
        index_mono a.elements a.size a.number (omega arith),
        v.word,
        index_step a.elements a.size a.number free,
        v.sized,
      ))

  last_count : u32 (a.elements + 1) ≡ a.elements + 1
  last_count = u32_lem _ (omega (arith, number_word v))

  pub store_in-appended :
      store_in (record a { elements = u32 (a.elements + 1) }) (u32 (a.elements * a.size)) e
      ≡ some appended
  unfolding store_in
  store_in-appended = rw (
    last_off,
    last_count,
    store-written a.buffer (a.elements * a.size) e (omega (arith, last_fits, v.sized))
        (omega (arith, last_fits)),
  )

  pub contents-appended : contents appended ≡ contents a ++ e ∷ []
  contents-appended =
      rw (bytes-written a.buffer (a.elements * a.size) e (omega (arith, last_fits, v.sized)))
        (chunks-splice (bytes a.buffer) a.size a.elements e he last_fits)

  pub appended-IsValid : IsValid appended
  appended-IsValid = record {
    sized = v.sized;
    stepped = v.stepped;
    within = omega arith;
    held = omega (
      arith,
      ap length
          (bytes-written a.buffer (a.elements * a.size) e (omega (arith, last_fits, v.sized))),
      length-splice (bytes a.buffer) (a.elements * a.size) e,
      v.held,
    );
    word = v.word;
  }

-- The array with its elements moved to a larger block.
abbrev pub in_block : Array → Buffer → ℕ → Array
in_block a c number = record a { buffer = c; number = number }

module _ (a : Array) (number : ℕ) (c : Buffer) (v : IsValid a) (more : a.elements ≤ number)
    (word : number * a.size < 2 ^ 32)
    (m : IsMoved a.buffer (a.elements * a.size) (number * a.size) c) where
  pub in_block-IsValid : IsValid (in_block a c number)
  in_block-IsValid = record {
    sized = v.sized;
    stepped = v.stepped;
    within = more;
    held = omega (arith, m.room);
    word = word;
  }

  pub contents-in_block : contents (in_block a c number) ≡ contents a
  contents-in_block = chunks_ext (bytes c) (bytes a.buffer) a.size a.elements m.kept

-- How an insertion ends: if the array is full and the allocator refuses the larger block, the array as
-- it was; else with the element behind the
-- others, in a valid array of the same element size.
abbrev pub Inserted : Allocator → Array → List ℕ → ℕ × Array → Type 0
Inserted al a e r =
    (r ≡ (1, a)) × (a.elements ≡ a.number) × Refused al a.buffer ((a.number + a.increment) * a.size)
    ⊎ (r.0 ≡ 0) × (contents r.1 ≡ contents a ++ e ∷ []) × IsValid r.1 × (r.1.size ≡ a.size)

module _ (al : Allocator) (a : Array) (e : List ℕ) (v : IsValid a) (he : length e ≡ a.size)
    (word : (a.number + a.increment) * a.size < 2 ^ 32) where
  insert_free :
      a.elements < a.number
      → (r : ℕ × Array) × (my_array_insert al a e ≡ some r) × Inserted al a e r
  unfolding my_array_insert
  insert_free free = (
    (0, appended a e v he free),
    ground (arith, store_in-appended a e v he free),
    inr (refl, contents-appended a e v he free, appended-IsValid a e v he free, refl),
  )

  full_offsets :
      a.elements ≡ a.number
      → (u32 (a.elements * a.size) ≡ a.elements * a.size)
        × (u32 (u32 (a.number + a.increment) * a.size) ≡ (a.number + a.increment) * a.size)
        × (u32 (a.number + a.increment) ≡ a.number + a.increment)
  full_offsets full =
      let less : a.elements * a.size ≤ (a.number + a.increment) * a.size =
        index_mono a.elements a.size (a.number + a.increment) (omega arith) in
      let count : u32 (a.number + a.increment) ≡ a.number + a.increment =
        u32_lem _ (omega (arith, word, number_le (a.number + a.increment) a.size v.sized)) in
      (u32_lem _ (omega arith), ap (λ n. u32 (n * a.size)) count ∙ u32_lem _ word, count)

  insert_full :
      a.elements ≡ a.number
      → (r : ℕ × Array) × (my_array_insert al a e ≡ some r) × Inserted al a e r
  unfolding my_array_insert my_array_alloc grown take_place copy_to
  insert_full full =
      elim (move_buffer_lem al a.buffer (a.elements * a.size) ((a.number + a.increment) * a.size)
        (omega (arith, v.held, index_mono a.elements a.size a.number v.within))
        (index_mono a.elements a.size (a.number + a.increment) (omega arith))) [
          | inl (refused, why) ↦
              ((1, a), ground (arith, full_offsets full, refused), inl (refl, full, why))
          | inr (c, moved, m) ↦
              let g = in_block a c (a.number + a.increment) in
              let gv : IsValid g =
                in_block-IsValid a (a.number + a.increment) c v (omega arith) word m in
              let free : g.elements < g.number = omega (arith, v.stepped) in
              (
                (0, appended g e gv he free),
                ground (arith, full_offsets full, store_in-appended g e gv he free),
                inr (
                  refl,
                  contents-appended g e gv he free
                      ∙ ap (λ xs. xs ++ e ∷ [])
                          (contents-in_block a (a.number + a.increment) c v (omega arith) word m),
                  appended-IsValid g e gv he free,
                  refl,
                ),
              )
        ]

  -- my_array_insert of a valid array, whose larger block would stay below 2^32 bytes, accesses
  -- nothing outside its block. Either the array is full and the allocator refuses the larger block, the
  -- return value is 1 and the array is unchanged; or the return value is 0, the contents have the element behind
  -- the others, and the array is valid with the same element size.
  pub my_array_insert_lem : (r : ℕ × Array) × (my_array_insert al a e ≡ some r) × Inserted al a e r
  my_array_insert_lem = elim (dec_lt a.elements a.number) [
    | yes free ↦ insert_free free
    | no full ↦ insert_full (omega (arith, v.within))
  ]
