-- ===== src/Array/Delete.antt =====
-- my_array_delete and my_array_free of my_array.c.
use my_libs.Base.{
  ℕ, suc, ◌+◌, ◌-◌, ◌*◌, ◌^◌, ◌≤◌, ◌<◌, ◌≡◌, inl, ap, sym, ◌∙◌, some, List, [], arith, length,
  get_or, read, splice, u32, u32_lem, length-splice, remove_at, length-remove_at, get_or-remove_at,
  u32-pred, u32-sub, length-read, read-splice_apart, list_ext, dec_lt, read-splice_in, read-read,
}
use my_libs.Array.{Array, store_in, my_array_delete}
use my_libs.Array.Contents.{
  bytes, chunks, contents, written, store-written, bytes-written, length-chunks, get_or-chunks,
  load-read, index_step, index_mono,
}
use my_libs.Array.Valid.{IsValid, number_word}
use my_libs.Array.Fill.{scaled_sub}

-- Moving the elements behind index `i` down by one takes out the one at `i`.
chunks-splice_remove :
    (b : List ℕ) (s n i : ℕ)
    → i < n
    → n * s ≤ length b
    → chunks (splice b (i * s) (read b (i * s + s) ((n - 1 - i) * s))) s 0 (n - 1)
      ≡ remove_at (chunks b s 0 n) i
chunks-splice_remove b s n i hi fits =
    list_ext (chunks c s 0 (n - 1)) (remove_at (chunks b s 0 n) i) []
      (omega (
        arith,
        length-chunks c s 0 (n - 1),
        length-chunks b s 0 n,
        length-remove_at (chunks b s 0 n) i,
      ))
      (λ k h. agree k (omega (arith, length-chunks c s 0 (n - 1))))
  where
    moved : List ℕ
    moved = read b (i * s + s) ((n - 1 - i) * s)

    c : List ℕ
    c = splice b (i * s) moved

    count : length moved ≡ (n - 1 - i) * s
    count = length-read b (i * s + s) ((n - 1 - i) * s)

    inside : i * s + length moved ≤ length b
    inside =
        omega
          (arith, count, scaled_sub i (n - 1) s (omega arith), index_mono (n - 1) s n (omega arith))

    old : (k : ℕ) → k < n → get_or (chunks b s 0 n) k [] ≡ read b (k * s) s
    old k h =
        let z : 0 + k ≡ k = omega arith in get_or-chunks b s 0 n k h ∙ ap (λ j. read b (j * s) s) z

    new : (k : ℕ) → k < n - 1 → get_or (chunks c s 0 (n - 1)) k [] ≡ read c (k * s) s
    new k h =
        let z : 0 + k ≡ k = omega arith in
        get_or-chunks c s 0 (n - 1) k h ∙ ap (λ j. read c (j * s) s) z

    shifted : (k : ℕ) → k < n - 1 → i ≤ k → read c (k * s) s ≡ read b (suc k * s) s
    shifted k h hk =
        let enough : (k - i) * s + s ≤ (n - 1 - i) * s =
          index_step (k - i) s (n - 1 - i) (omega arith) in
        let place : i * s + s + (k - i) * s ≡ suc k * s = omega (arith, scaled_sub i k s hk) in
        ap (λ o. read c o s) (sym (scaled_sub i k s hk))
        ∙ read-splice_in b (i * s) moved ((k - i) * s) s inside (omega (arith, count))
        ∙ read-read b (i * s + s) ((n - 1 - i) * s) ((k - i) * s) s enough
        ∙ ap (λ o. read b o s) place

    agree :
        (k : ℕ)
        → k < n - 1
        → get_or (chunks c s 0 (n - 1)) k [] ≡ get_or (remove_at (chunks b s 0 n) i) k []
    agree k h = elim (dec_lt k i) [
      | yes p ↦
          new k h
          ∙ read-splice_apart b (i * s) moved (k * s) s inside (inl (index_step k s i p))
          ∙ ground (
            arith,
            get_or-remove_at (chunks b s 0 n) i k [],
            length-chunks b s 0 n,
            old k (omega arith),
          )
      | no p ↦
          new k h
          ∙ shifted k h (omega arith)
          ∙ ground (
            arith,
            get_or-remove_at (chunks b s 0 n) i k [],
            length-chunks b s 0 n,
            old (suc k) (omega arith),
          )
    ]

-- my_array_delete of a valid array, at the index of an element in use, accesses nothing outside its
-- block, takes that element out, moves those behind it down, and leaves the array valid.
pub my_array_delete_lem :
    (a : Array) (i : ℕ)
    → IsValid a
    → i < a.elements
    → (a' : Array) × (my_array_delete a i ≡ some a')
      × (contents a' ≡ remove_at (contents a) i)
      × IsValid a'
unfolding my_array_delete store_in
my_array_delete_lem a i v h = (after, runs, removed, valid)
  where
    moved : List ℕ
    moved = read (bytes a.buffer) (i * a.size + a.size) ((a.elements - 1 - i) * a.size)

    after : Array
    after = record a { buffer = written a.buffer (i * a.size) moved; elements = a.elements - 1 }

    next : i * a.size + a.size ≤ a.elements * a.size
    next = index_step i a.size a.elements h

    used : a.elements * a.size ≤ a.number * a.size
    used = index_mono a.elements a.size a.number v.within

    split : (a.elements - 1 - i) * a.size ≡ (a.elements - (i + 1)) * a.size
    split =
        let e : a.elements - 1 - i ≡ a.elements - (i + 1) = omega arith in ap (λ k. k * a.size) e

    tail : i * a.size + a.size + (a.elements - 1 - i) * a.size ≡ a.elements * a.size
    tail = omega (arith, scaled_sub (i + 1) a.elements a.size (omega arith), split)

    some_bytes : 0 < length (bytes a.buffer)
    some_bytes = omega (arith, next, used, v.held, v.sized)

    fits : i * a.size + length moved ≤ length (bytes a.buffer)
    fits = omega (
      arith,
      length-read (bytes a.buffer) (i * a.size + a.size) ((a.elements - 1 - i) * a.size),
      tail,
      used,
      v.held,
    )

    off : u32 (a.size * i) ≡ i * a.size
    off =
        let e : a.size * i ≡ i * a.size = omega arith in
        ap u32 e ∙ u32_lem _ (omega (arith, next, used, v.word, v.sized))

    left : u32 (a.elements + (2 ^ 32 - 1)) ≡ a.elements - 1
    left = u32-pred a.elements (omega arith) (omega (arith, number_word v, v.within))

    count :
        u32 (u32 (u32 (a.elements + (2 ^ 32 - 1)) + (2 ^ 32 - u32 i)) * a.size)
        ≡ (a.elements - 1 - i) * a.size
    count =
        ap (λ l. u32 (u32 (l + (2 ^ 32 - u32 i)) * a.size)) left
        ∙ ap (λ l. u32 (l * a.size))
            (u32-sub (a.elements - 1) i (omega arith) (omega (arith, number_word v, v.within)))
        ∙ u32_lem _ (omega (arith, tail, used, v.word, v.sized))

    runs : my_array_delete a i ≡ some after
    runs = ground (
      arith,
      off,
      left,
      count,
      load-read a.buffer (i * a.size + a.size) ((a.elements - 1 - i) * a.size) some_bytes
          (omega (arith, tail, used, v.held)),
      store-written a.buffer (i * a.size) moved some_bytes fits,
    )

    removed : contents after ≡ remove_at (contents a) i
    removed =
        ap (λ b. chunks b a.size 0 (a.elements - 1))
          (bytes-written a.buffer (i * a.size) moved some_bytes)
        ∙ chunks-splice_remove (bytes a.buffer) a.size a.elements i h (omega (arith, used, v.held))

    valid : IsValid after
    valid = record {
      sized = v.sized;
      stepped = v.stepped;
      within = omega (arith, v.within);
      word = v.word;
      held = omega (
        arith,
        ap length (bytes-written a.buffer (i * a.size) moved some_bytes),
        length-splice (bytes a.buffer) (i * a.size) moved,
        v.held,
      );
    }
