-- ===== src/Array.antt =====
-- src/my_array.c: the growing array. An element is `size` bytes of the buffer, and a pointer into
-- the buffer is its offset. `none` is a fault: an access outside the buffer.
pub mod Contents
pub mod Insert
pub mod Valid
pub mod Access
pub mod Lifecycle
pub mod Delete
pub mod Extend
pub mod Fill
pub mod Assign
pub mod Tests
use my_libs.Base.{
  ℕ, ◌+◌, ◌-◌, ◌*◌, ◌/◌, ◌^◌, Bool, ◌&&◌, Option, none, some, List, max, ltb, leb, ◌==◌,
  if◌then◌else◌, ◌>>=◌, length, replicate, u32, read, splice,
}
use my_libs.Malloc.{Allocator}

-- The block that `buffer` points to: NULL, the bytes that follow the struct, or a block of its own.
pub data Buffer : Type 0 where
  null : Buffer
  inline : List ℕ → Buffer
  heap : List ℕ → Buffer

-- `my_array`.
pub record Array : Type 0 where
  pub buffer : Buffer
  pub elements : ℕ
  pub number : ℕ
  pub increment : ℕ
  pub size : ℕ

-- memcpy(buffer + off, bs, n) for the `n` bytes `bs`; memset is this with zeroes.
pub store : Buffer → ℕ → List ℕ → Option Buffer
store null off bs = none
store (inline b) off bs =
    if leb (off + length bs) (length b) then some (inline (splice b off bs)) else none
store (heap b) off bs =
    if leb (off + length bs) (length b) then some (heap (splice b off bs)) else none

-- The `n` bytes at buffer + off.
pub load : Buffer → ℕ → ℕ → Option (List ℕ)
load null off n = none
load (inline b) off n = if leb (off + n) (length b) then some (read b off n) else none
load (heap b) off n = if leb (off + n) (length b) then some (read b off n) else none

pub store_in : Array → ℕ → List ℕ → Option Array
store_in a off bs = store a.buffer off bs >>= λ b. some (record a { buffer = b })

-- MAX((ARRAT_BLOCK_SIZE - MALLOC_OVERHEAD) / size, ARRAY_INIT_INCREMENT), and at most twice a
-- number of elements above ARRAY_INIT_NUMBER.
pub default_increment : ℕ → ℕ → ℕ
default_increment number size =
    let step = max ((8096 - 8) / size) 16 in
    if ltb 8 number && ltb (u32 (number * 2)) step then u32 (number * 2) else step

-- The increment used.
pub init_increment : ℕ → ℕ → ℕ → ℕ
unfolding default_increment
init_increment number increment size =
    if increment == 0 then default_increment number size else increment

-- `buffer + elements++ * size`.
pub take_place : Array → Option ℕ × Array
take_place a = (some (u32 (a.elements * a.size)), record a { elements = u32 (a.elements + 1) })

-- The end of my_array_alloc on a full array, with the new block if there is one.
pub grown : Array → Option Buffer → Option (Option ℕ × Array)
unfolding take_place
grown a none = some (none, a)
grown a (some b) =
    some (take_place (record a { buffer = b; number = u32 (a.number + a.increment) }))

-- A return value beside the array.
abbrev with_code : ℕ → Option Array → Option (ℕ × Array)
with_code code r = r >>= λ a. some (code, a)

-- The end of my_array_insert when the array was full: NULL, or the element is copied.
pub copy_to : List ℕ → Option ℕ × Array → Option (ℕ × Array)
unfolding store_in
copy_to element (none, a) = some (1, a)
copy_to element (some off, a) = with_code 0 (store_in a off element)

-- my_array_set: the gap before the index is cleared, and the index becomes the last.
pub extend_to : ℕ → ℕ × Array → Option (ℕ × Array)
unfolding store_in
extend_to idx (code, a) =
    let gap = replicate (u32 ((idx - a.elements) * a.size)) 0 in
    let cleared =
      store_in (record a { elements = u32 (idx + 1) }) (u32 (a.elements * a.size)) gap in
    if code == 0 then with_code 0 cleared else some (1, a)

pub put_at : ℕ → List ℕ → ℕ × Array → Option (ℕ × Array)
unfolding store_in
put_at idx element (code, a) =
    if code == 0 then with_code 0 (store_in a (u32 (idx * a.size)) element) else some (1, a)

module _ (al : Allocator) where
  -- The block given, or a new one.
  pub init_buffer : Buffer → ℕ → Option Buffer
  init_buffer null bytes = elim (al.malloc bytes) [ none ↦ none | some b ↦ some (heap b) ]
  init_buffer (inline b) bytes = some (inline b)
  init_buffer (heap b) bytes = some (heap b)

  -- `struct_allocated` says whether the my_calloc of the struct succeeds; `some none` is NULL. The
  -- division by a size of 0 is a fault.
  pub my_array_init : Bool → Buffer → ℕ → ℕ → ℕ → Option (Option Array)
  unfolding init_increment init_buffer
  my_array_init struct_allocated buffer number increment size =
      let step = init_increment number increment size in
      let count = if number == 0 then step else number in
      let given = if number == 0 then null else buffer in
      let made : Option Array = elim (init_buffer given (u32 (size * count))) [
        | none ↦ none
        | some b ↦
            some
              (record { buffer = b; elements = 0; number = count; increment = step; size = size })
      ] in
      if struct_allocated
      then (if (increment == 0) && (size == 0) then none else some made)
      else some none

  -- The new block of `bytes` bytes with the elements in it; `some none` if it is refused.
  pub move_buffer : Buffer → ℕ → ℕ → Option (Option Buffer)
  move_buffer (inline b) used bytes = elim (al.malloc bytes) [
    | none ↦ some none
    | some fresh ↦
        load (inline b) 0 used >>= λ old. store (heap fresh) 0 old >>= λ moved. some (some moved)
  ]
  move_buffer null used bytes = elim (al.realloc none bytes) [
    | none ↦ some none
    | some fresh ↦ some (some (heap fresh))
  ]
  move_buffer (heap b) used bytes = elim (al.realloc (some b) bytes) [
    | none ↦ some none
    | some fresh ↦ some (some (heap fresh))
  ]

  -- The offset of the new element, or NULL, and the array.
  pub my_array_alloc : Array → Option (Option ℕ × Array)
  unfolding move_buffer take_place grown
  my_array_alloc a =
      let wanted = u32 (u32 (a.number + a.increment) * a.size) in
      if a.elements == a.number
      then (move_buffer a.buffer (u32 (a.elements * a.size)) wanted >>= grown a)
      else some (take_place a)

  -- The result is the return value: 0, or 1 if no memory is left.
  pub my_array_insert : Array → List ℕ → Option (ℕ × Array)
  unfolding my_array_alloc store_in copy_to
  my_array_insert a element =
      let last = record a { elements = u32 (a.elements + 1) } in
      if a.elements == a.number
      then (my_array_alloc a >>= copy_to element)
      else with_code 0 (store_in last (u32 (a.elements * a.size)) element)

  -- A first part of my_array_set: room for the index `number`. Division by 0 is a fault.
  pub my_array_allocate : Array → ℕ → Option (ℕ × Array)
  unfolding move_buffer
  my_array_allocate a number =
      let count = u32 (u32 (number + a.increment) / a.increment * a.increment) in
      let moved =
        move_buffer a.buffer (u32 (a.elements * a.size)) (u32 (count * a.size)) >>= λ moved.
        some
          (elim moved [ none ↦ (1, a) | some b ↦ (0, record a { buffer = b; number = count }) ]) in
      if leb a.number number then (if a.increment == 0 then none else moved) else some (0, a)

  -- `idx - a.elements` is taken only where `idx` is no less.
  pub my_array_set : Array → List ℕ → ℕ → Option (ℕ × Array)
  unfolding my_array_allocate extend_to put_at
  my_array_set a element idx =
      let room = if leb a.number idx then my_array_allocate a idx else some (0, a) in
      if leb a.elements idx
      then (room >>= extend_to idx >>= put_at idx element)
      else put_at idx element (0, a)

  pub my_array_free : Array → Option Array
  my_array_free a =
      let elements = max a.elements 1 in
      let bytes = u32 (elements * a.size) in
      elim a.buffer [
        | inline b ↦ some a
        | null ↦ some a
        | heap b ↦
            if a.number == elements
            then some a
            else some (record a {
              buffer = elim (al.realloc (some b) bytes) [ none ↦ null | some c ↦ heap c ];
              number = elements;
            })
      ]

pub my_array_uninit : Array → Array
my_array_uninit a = elim a.buffer [
  | inline b ↦ record a { elements = 0 }
  | null ↦ a
  | heap b ↦ record a { buffer = null; elements = 0; number = 0 }
]

-- The macro my_array_reset.
pub my_array_reset : Array → Array
my_array_reset a = record a { elements = 0 }

-- The offset of the element taken off, or NULL.
pub my_array_pop : Array → Option ℕ × Array
my_array_pop a =
    if a.elements == 0
    then (none, a)
    else (some (u32 ((a.elements - 1) * a.size)), record a { elements = a.elements - 1 })

-- The return value and the bytes that `element` points to afterwards.
pub my_array_get : Array → ℕ → Option (ℕ × List ℕ)
my_array_get a idx =
    if leb a.elements idx
    then some (1, replicate a.size 0)
    else load a.buffer (u32 (idx * a.size)) a.size >>= λ bs. some (0, bs)

-- memmove reads its source before it writes. `elements--` and the count wrap around.
pub my_array_delete : Array → ℕ → Option Array
unfolding store_in
my_array_delete a idx =
    let ptr = u32 (a.size * idx) in
    let left = u32 (a.elements + (2 ^ 32 - 1)) in
    let count = u32 (u32 (left + (2 ^ 32 - u32 idx)) * a.size) in
    load a.buffer (ptr + a.size) count >>= λ bs. store_in (record a { elements = left }) ptr bs
