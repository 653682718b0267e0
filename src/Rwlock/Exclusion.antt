-- ===== src/Rwlock/Exclusion.antt =====
-- Who can have the lock of my_rwlock.c at the same time, and who waits for it.
use mathlib.Core.Path.{subst}
use my_libs.Base.{
  ℕ, zero, suc, ◌+◌, ◌^◌, ◌≤◌, ◌<◌, ◌≡◌, ◌≢◌, inl, inr, refl, ◌∙◌, sym, ap, true, none, some, List,
  [], ◌∷◌, get_elem?, get_elem?-eq-get_or, dec_lt, length, replicate, length-replicate, arith, ltb,
  Bool-cases,
}
use my_libs.Base.Int.{pos, is_neg}
use my_libs.Rwlock.{
  Place, idle, rd_waiting, reading, wr_waiting, writing, Call, rdlock, System, go, step, Reaches,
  start, further, my_rw_init, my_rw_rdlock,
}
use my_libs.Rwlock.Valid.{reads, writes, waits, count, at, IsValid, after, allowed}
use my_libs.Rwlock.Steps.{go_lem, refused}

get_elem?-none : (ts : List Place) (t : ℕ) → length ts ≤ t → get_elem? ts t ≡ none
get_elem?-none [] t h = refl
get_elem?-none (p ∷ ts) zero h = absurd (omega arith)
get_elem?-none (p ∷ ts) (suc t) h = get_elem?-none ts t (omega arith)

step-IsValid : (t : ℕ) (c : Call) (s s' : System) → IsValid s → step t c s ≡ some s' → IsValid s'
unfolding step
step-IsValid t c s s' v run = elim (dec_lt t (length s.threads)) [
  | no h ↦ absurd (ground (arith, get_elem?-none s.threads t (omega arith)))
  | yes h ↦ elim (Bool-cases (allowed c (at s.threads t))) [
    | inr out_of_place ↦ absurd (
        ground (
          arith,
          get_elem?-eq-get_or s.threads t idle h,
          refused s t v h c (at s.threads t) out_of_place,
        ))
    | inl ok ↦
        let (next, went, valid) = go_lem s t v h c (at s.threads t) refl ok in
        let same : after s t next ≡ s' = ground (arith, get_elem?-eq-get_or s.threads t idle h) in
        subst IsValid same valid
  ]
]

-- A new lock, and `n` threads in no call.
abbrev pub initial : ℕ → System
initial n = record { rwlock = my_rw_init; threads = replicate n idle }

count-replicate : (f : Place → ℕ) (n : ℕ) → f idle ≡ 0 → count f (replicate n idle) ≡ 0
count-replicate f zero h = refl
count-replicate f (suc n) h = omega (arith, h, count-replicate f n h)

initial-IsValid : (n : ℕ) → n + 1 < 2 ^ 31 → IsValid (initial n)
unfolding my_rw_init
initial-IsValid n h = record {
  held = inl (count-replicate writes n refl, ap pos (sym (count-replicate reads n refl)));
  queued = sym (count-replicate waits n refl);
  bounded = omega (arith, length-replicate n idle);
}

Reaches-IsValid : {s s' : System} → IsValid s → Reaches s s' → IsValid s'
Reaches-IsValid v start = v
Reaches-IsValid v (further {s' = s1} {s'' = s2} t c before run) =
    step-IsValid t c s1 s2 (Reaches-IsValid v before) run

count_pos : (f : Place → ℕ) (ts : List Place) (i : ℕ) → f idle ≡ 0 → f (at ts i) ≤ count f ts
count_pos f [] i h = omega (arith, h)
count_pos f (p ∷ ts) zero h = omega arith
count_pos f (p ∷ ts) (suc i) h = omega (arith, count_pos f ts i h)

count_two :
    (f : Place → ℕ) (ts : List Place) (i j : ℕ)
    → f idle ≡ 0
    → i ≢ j
    → f (at ts i) + f (at ts j) ≤ count f ts
count_two f [] i j h ne = omega (arith, h)
count_two f (p ∷ ts) zero zero h ne = absurd (ne refl)
count_two f (p ∷ ts) zero (suc j) h ne = omega (arith, count_pos f ts j h)
count_two f (p ∷ ts) (suc i) zero h ne = omega (arith, count_pos f ts i h)
count_two f (p ∷ ts) (suc i) (suc j) h ne = omega (arith, count_two f ts i j h (λ e. ne (ap suc e)))

-- Whatever steps fewer than 2^31 - 1 threads have made on a new lock: while a thread has it to
-- write, no other thread has it to write or to read.
pub my_rw_writer_excludes :
    (n : ℕ) (s : System) (i j : ℕ)
    → n + 1 < 2 ^ 31
    → Reaches (initial n) s
    → at s.threads i ≡ writing
    → i ≢ j
    → (at s.threads j ≢ writing) × (at s.threads j ≢ reading)
my_rw_writer_excludes n s i j h r w ne =
    let v = Reaches-IsValid (initial-IsValid n h) r in
    let two = count_two writes s.threads i j refl ne in
    elim v.held [
      | inl (none_writes, st) ↦ absurd (omega (arith, ap writes w, two, none_writes))
      | inr (one, no_reader, st) ↦ (
        λ e. omega (arith, ap writes w, ap writes e, two, one),
        λ e. omega (arith, ap reads e, no_reader, count_pos reads s.threads j refl),
      )
    ]

-- In every state that fewer than 2^31 - 1 threads can reach on a new lock, a call that is not out of
-- place, or the next step of a thread in a call, does not fault: the assertion of my_rw_unlock holds,
-- and the ints do not overflow.
pub my_rw_step_lem :
    (n : ℕ) (s : System) (t : ℕ) (c : Call)
    → n + 1 < 2 ^ 31
    → Reaches (initial n) s
    → t < length s.threads
    → allowed c (at s.threads t) ≡ true
    → (s' : System) × (step t c s ≡ some s')
unfolding step
my_rw_step_lem n s t c h r inside ok =
    let v = Reaches-IsValid (initial-IsValid n h) r in
    let (next, went, valid) = go_lem s t v inside c (at s.threads t) refl ok in
    (after s t next, ground (arith, get_elem?-eq-get_or s.threads t idle inside))

-- In every state that threads can reach on a new lock, while a thread waits to write, my_rw_rdlock
-- only waits: writers are preferred, and the lock does not change.
pub my_rw_rdlock_lem :
    (n : ℕ) (s : System) (t i : ℕ)
    → n + 1 < 2 ^ 31
    → Reaches (initial n) s
    → t < length s.threads
    → at s.threads t ≡ idle
    → at s.threads i ≡ wr_waiting
    → step t rdlock s ≡ some (after s t (rd_waiting, s.rwlock))
unfolding step go my_rw_rdlock
my_rw_rdlock_lem n s t i h r inside here w =
    let v = Reaches-IsValid (initial-IsValid n h) r in
    let found : get_elem? s.threads t ≡ some idle =
      get_elem?-eq-get_or s.threads t idle inside ∙ ap some here in
    let queue : ltb 0 s.rwlock.waiters ≡ true =
      ground (arith, ap waits w, v.queued, count_pos waits s.threads i refl) in
    elim (Bool-cases (is_neg s.rwlock.state)) [
      | inl writer ↦ rw (found, writer) refl
      | inr no_writer ↦ rw (found, no_writer, queue) refl
    ]
