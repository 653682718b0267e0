-- ===== src/Array/Valid.antt =====
-- The invariant of an array of my_array.c, and moving its elements to a larger block.
use my_libs.Base.{
  ℕ, ◌+◌, ◌-◌, ap, ◌∙◌, ◌*◌, ◌^◌, ◌≤◌, ◌<◌, ◌≡◌, ◌⊎◌, inl, inr, none, some, arith, length, get_or,
  read, splice, length-read, get_or-read, length-splice, get_or-splice, Option-cases,
}
use my_libs.Malloc.{Allocator}
use my_libs.Array.{Array, Buffer, null, inline, heap, store, load, move_buffer}
use my_libs.Array.Contents.{bytes}

pub record IsValid (a : Array) : Type 0 where
  pub sized : 0 < a.size
  pub stepped : 0 < a.increment
  pub within : a.elements ≤ a.number
  -- the block has room for `number` elements
  pub held : a.number * a.size ≤ length (bytes a.buffer)
  -- and no offset into it wraps around
  pub word : a.number * a.size < 2 ^ 32

pub number_le : (n s : ℕ) → 0 < s → n ≤ n * s
number_le n s h = grind arith

-- The number of elements is a word too.
pub number_word : {a : Array} → IsValid a → a.number < 2 ^ 32
number_word {a} v = omega (arith, v.word, number_le a.number a.size v.sized)

-- A block `c` of `n` bytes that begins with the first `used` bytes of `b`.
pub record IsMoved (b : Buffer) (used n : ℕ) (c : Buffer) : Type 0 where
  pub room : length (bytes c) ≡ n
  pub kept : (k : ℕ) → k < used → get_or (bytes c) k 0 ≡ get_or (bytes b) k 0

-- The C library has no block of `n` bytes to take the place of a buffer.
abbrev pub Refused : Allocator → Buffer → ℕ → Type 0
Refused al null n = al.realloc none n ≡ none
Refused al (inline b) n = al.malloc n ≡ none
Refused al (heap b) n = al.realloc (some b) n ≡ none

module _ (al : Allocator) where
  pub move_buffer_lem :
      (b : Buffer) (used n : ℕ)
      → used ≤ length (bytes b)
      → used ≤ n
      → (move_buffer al b used n ≡ some none) × Refused al b n
        ⊎ ((c : Buffer) × (move_buffer al b used n ≡ some (some c)) × IsMoved b used n c)
  unfolding move_buffer load store
  move_buffer_lem null used n h hn = elim (Option-cases (al.realloc none n)) [
    | inl e ↦ inl (rw (e, move_buffer), e)
    | inr (c, e) ↦ inr (
      heap c,
      rw (e, move_buffer),
      record { room = al.length-realloc none n c e; kept = λ k hk. absurd (omega arith) },
    )
  ]
  move_buffer_lem (heap b) used n h hn = elim (Option-cases (al.realloc (some b) n)) [
    | inl e ↦ inl (rw (e, move_buffer), e)
    | inr (c, e) ↦ inr (
      heap c,
      rw (e, move_buffer),
      record {
        room = al.length-realloc (some b) n c e;
        kept = λ k hk. al.realloc_kept b n c k e (omega arith) (omega arith);
      },
    )
  ]
  move_buffer_lem (inline b) used n h hn = elim (Option-cases (al.malloc n)) [
    | inl e ↦ inl (rw (e, move_buffer), e)
    | inr (c, e) ↦
        let fits : 0 + length (read b 0 used) ≤ length c =
          omega (arith, length-read b 0 used, al.length-malloc n c e) in
        inr (
          heap (splice c 0 (read b 0 used)),
          ground (arith, length-read b 0 used),
          record {
            room = omega (arith, length-splice c 0 (read b 0 used), al.length-malloc n c e);
            kept = λ k hk.
                get_or-splice c 0 (read b 0 used) k fits
                ∙ (let e : k - 0 ≡ k = omega arith in
                    ground (
                      arith,
                      length-read b 0 used,
                      get_or-read b 0 used k hk,
                      ap (λ i. get_or (read b 0 used) i 0) e,
                    ));
          },
        )
  ]
