-- ===== src/Array/Access.antt =====
-- my_array_get and my_array_pop of my_array.c.
use my_libs.Base.{
  ℕ, ◌+◌, ◌-◌, ◌*◌, ◌≤◌, ◌<◌, ◌≡◌, ap, sym, ◌∙◌, some, List, [], ◌∷◌, ◌++◌, arith, ltb, length,
  get_or, read, u32, u32_lem, list_ext, length-append, get_or-append, if◌then◌else◌, dec_lt,
  replicate,
}
use my_libs.Array.{Array, my_array_get, my_array_pop}
use my_libs.Array.Contents.{
  bytes, chunks, contents, length-chunks, get_or-chunks, load-read, index_step, index_mono,
}
use my_libs.Array.Valid.{IsValid}

-- my_array_get of a valid array returns the element of an index in use, and otherwise 1 and an
-- element of zeroes.
pub my_array_get_lem :
    (a : Array) (i : ℕ)
    → IsValid a
    → my_array_get a i
      ≡ some (if ltb i a.elements then (0, get_or (contents a) i []) else (1, replicate a.size 0))
unfolding my_array_get
my_array_get_lem a i v = elim (dec_lt i a.elements) [
  | yes h ↦
      let fits : i * a.size + a.size ≤ length (bytes a.buffer) =
        omega (arith, index_step i a.size a.number (omega (arith, v.within)), v.held) in
      let off : u32 (i * a.size) ≡ i * a.size =
        u32_lem _ (
          omega (arith, index_step i a.size a.number (omega (arith, v.within)), v.word, v.sized)) in
      let at_i : 0 + i ≡ i = omega arith in
      ground (
        arith,
        load-read a.buffer (i * a.size) a.size (omega (arith, v.sized)) fits,
        get_or-chunks (bytes a.buffer) a.size 0 a.elements i h,
        ap (λ j. read (bytes a.buffer) (j * a.size) a.size) at_i,
      )
  | no h ↦ ground arith
]

-- my_array_pop of a valid array takes off its last element: the pointer returned is to the bytes of
-- that element, and the contents are those before it.
pub my_array_pop_lem :
    (a : Array) (xs : List (List ℕ)) (x : List ℕ)
    → IsValid a
    → contents a ≡ xs ++ x ∷ []
    → (off : ℕ) × (a' : Array) × (my_array_pop a ≡ (some off, a'))
      × (read (bytes a.buffer) off a.size ≡ x)
      × (contents a' ≡ xs)
      × IsValid a'
unfolding my_array_pop
my_array_pop_lem a xs x v e = (
  n * a.size,
  record a { elements = n },
  ground (arith, count, last_off),
  last,
  before,
  record {
    sized = v.sized;
    stepped = v.stepped;
    within = omega (arith, count, v.within);
    held = v.held;
    word = v.word;
  },
)
  where
    n : ℕ
    n = length xs

    count : a.elements ≡ n + 1
    count = omega (
      arith,
      length-chunks (bytes a.buffer) a.size 0 a.elements,
      ap length e,
      length-append xs (x ∷ []),
    )

    last_off : u32 ((a.elements - 1) * a.size) ≡ n * a.size
    last_off =
        let e : a.elements - 1 ≡ n = omega (arith, count) in
        ap (λ k. u32 (k * a.size)) e
        ∙ u32_lem _
            (omega (arith, index_mono n a.size a.number (omega (arith, count, v.within)), v.word))

    nth :
        (k : ℕ) → k < n + 1 → read (bytes a.buffer) (k * a.size) a.size ≡ get_or (xs ++ x ∷ []) k []
    nth k h =
        let z : 0 + k ≡ k = omega arith in
        ap (λ j. read (bytes a.buffer) (j * a.size) a.size) (sym z)
        ∙ sym (get_or-chunks (bytes a.buffer) a.size 0 a.elements k (omega (arith, count)))
        ∙ ap (λ ys. get_or ys k []) e

    last : read (bytes a.buffer) (n * a.size) a.size ≡ x
    last =
        let z : n - length xs ≡ 0 = omega arith in
        nth n (omega arith)
        ∙ ground (arith, get_or-append xs (x ∷ []) n [], ap (λ i. get_or (x ∷ []) i []) z)

    before : chunks (bytes a.buffer) a.size 0 n ≡ xs
    before =
        list_ext (chunks (bytes a.buffer) a.size 0 n) xs []
          (length-chunks (bytes a.buffer) a.size 0 n)
          (λ k h.
            let h' : k < n = omega (arith, length-chunks (bytes a.buffer) a.size 0 n) in
            let z : 0 + k ≡ k = omega arith in
            get_or-chunks (bytes a.buffer) a.size 0 n k h'
            ∙ ap (λ j. read (bytes a.buffer) (j * a.size) a.size) z
            ∙ nth k (omega arith)
            ∙ ground (arith, get_or-append xs (x ∷ []) k []))
