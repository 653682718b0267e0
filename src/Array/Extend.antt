-- ===== src/Array/Extend.antt =====
-- my_array_set of my_array.c at an index past the last element.
use my_libs.Base.{
  ℕ, ◌+◌, ◌-◌, ◌*◌, ◌≤◌, ◌<◌, ◌≡◌, refl, ap, ◌∙◌, some, List, [], ◌∷◌, ◌++◌, ◌>>=◌, arith, ltb,
  length, set, splice, u32, u32_lem, length-splice, if◌then◌else◌, replicate, length-replicate,
}
use my_libs.Array.{Array, Buffer, store_in, put_at, extend_to}
use my_libs.Array.Contents.{
  bytes, chunks, contents, written, store-written, bytes-written, length-chunks, index_step,
}
use my_libs.Array.Fill.{chunks-splice_zeroes, scaled_sub}
use my_libs.Array.Insert.{chunks-splice}
use my_libs.Array.Valid.{IsValid, number_word}

-- What my_array_set makes of the elements: the one at the index is replaced; behind the last, the
-- gap is filled with zeroed elements.
unfoldable pub put : List (List ℕ) → ℕ → List ℕ → List (List ℕ)
put xs i e =
    if ltb i (length xs)
    then set xs i e
    else (xs ++ replicate (i - length xs) (replicate (length e) 0)) ++ e ∷ []

module _ (a : Array) (e : List ℕ) (i : ℕ) (v : IsValid a) (he : length e ≡ a.size)
    (past : a.elements ≤ i) (room : i < a.number) where
  gap : List ℕ
  gap = replicate ((i - a.elements) * a.size) 0

  cleared : Buffer
  cleared = written a.buffer (a.elements * a.size) gap

  -- The array with the gap cleared and the element written behind it.
  pub extended : Array
  unfolding cleared gap
  extended = record a { buffer = written cleared (i * a.size) e; elements = i + 1 }

  next : i * a.size + a.size ≤ a.number * a.size
  next = index_step i a.size a.number room

  some_bytes : 0 < length (bytes a.buffer)
  some_bytes = omega (arith, next, v.sized, v.held)

  gap_end : a.elements * a.size + length gap ≡ i * a.size
  unfolding gap
  gap_end = omega (
    arith,
    length-replicate {A = ℕ} ((i - a.elements) * a.size) 0,
    scaled_sub a.elements i a.size past,
  )

  bytes-cleared : bytes cleared ≡ splice (bytes a.buffer) (a.elements * a.size) gap
  unfolding cleared
  bytes-cleared = bytes-written a.buffer (a.elements * a.size) gap some_bytes

  length-cleared : length (bytes cleared) ≡ length (bytes a.buffer)
  length-cleared =
      ap length bytes-cleared ∙ length-splice (bytes a.buffer) (a.elements * a.size) gap

  bytes-extended : bytes extended.buffer ≡ splice (bytes cleared) (i * a.size) e
  unfolding extended
  bytes-extended = bytes-written cleared (i * a.size) e (omega (arith, length-cleared, some_bytes))

  offsets :
      (u32 (a.elements * a.size) ≡ a.elements * a.size)
      × (u32 (i * a.size) ≡ i * a.size)
      × (u32 ((i - a.elements) * a.size) ≡ (i - a.elements) * a.size)
      × (u32 (i + 1) ≡ i + 1)
  offsets = (
    u32_lem _ (omega (arith, scaled_sub a.elements i a.size past, next, v.word, v.sized)),
    u32_lem _ (omega (arith, next, v.word, v.sized)),
    u32_lem _ (omega (arith, scaled_sub a.elements i a.size past, next, v.word, v.sized)),
    u32_lem _ (omega (arith, number_word v)),
  )

  pub extend-put : (extend_to i (0, a) >>= put_at i e) ≡ some (0, extended)
  unfolding extend_to put_at store_in extended cleared gap
  extend-put = ground (
    arith,
    offsets,
    store-written a.buffer (a.elements * a.size) gap some_bytes
        (omega (arith, gap_end, next, v.held)),
    store-written cleared (i * a.size) e (omega (arith, length-cleared, some_bytes))
        (omega (arith, length-cleared, next, v.held)),
  )

  contents-extended :
      contents extended ≡ (contents a ++ replicate (i - a.elements) (replicate a.size 0)) ++ e ∷ []
  unfolding extended
  contents-extended =
      ap (λ b. chunks b a.size 0 (i + 1)) bytes-extended
      ∙ chunks-splice (bytes cleared) a.size i e he (omega (arith, length-cleared, next, v.held))
      ∙ ap (λ b. chunks b a.size 0 i ++ e ∷ []) bytes-cleared
      ∙ unfold gap in
        ap (λ xs. xs ++ e ∷ [])
          (chunks-splice_zeroes (bytes a.buffer) a.size a.elements i past
            (omega (arith, next, v.held)))

  pub extended-IsValid : IsValid extended
  unfolding extended
  extended-IsValid = record {
    sized = v.sized;
    stepped = v.stepped;
    within = omega arith;
    word = v.word;
    held = omega (
      arith,
      ap length bytes-extended,
      length-splice (bytes cleared) (i * a.size) e,
      length-cleared,
      v.held,
    );
  }

  pub contents-extended-put : contents extended ≡ put (contents a) i e
  unfolding put
  contents-extended-put =
      ground (arith, contents-extended, length-chunks (bytes a.buffer) a.size 0 a.elements)

  pub size-extended : extended.size ≡ a.size
  unfolding extended
  size-extended = refl
