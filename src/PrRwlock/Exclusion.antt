-- ===== src/PrRwlock/Exclusion.antt =====
-- Who can have the lock of my_pr_rwlock.c at the same time, and who waits for it.
use my_libs.Base.{
  ℕ, zero, suc, ◌+◌, ◌^◌, ◌≤◌, ◌<◌, ◌≡◌, ◌≢◌, ◌⊎◌, inl, inr, refl, sym, true, false, none, some,
  List, [], ◌∷◌, get_elem?, get_elem?-eq-get_or, dec_lt, length, set, replicate, length-replicate,
  arith, u32, Option-cases,
}
use my_libs.PrRwlock.{
  Pthread, Place, idle, rd_locking, reading, Call, RwPrLock, System, go, step, Reaches, start,
  further, rw_pr_init, rw_pr_rdlock,
}
use my_libs.PrRwlock.Valid.{reads, waits, writes, count, at, IsValid, after}
use my_libs.PrRwlock.Steps.{go-IsValid, one_more_reader}

get_elem?-none : (ts : List Place) (t : ℕ) → length ts ≤ t → get_elem? ts t ≡ none
get_elem?-none [] t h = refl
get_elem?-none (p ∷ ts) zero h = absurd (omega arith)
get_elem?-none (p ∷ ts) (suc t) h = get_elem?-none ts t (omega arith)

-- No thread is in a call.
abbrev pub idle_threads : ℕ → List Place
idle_threads n = replicate n idle

pub at-idle_threads : (n i : ℕ) → at (idle_threads n) i ≡ idle
at-idle_threads zero i = refl
at-idle_threads (suc n) zero = refl
at-idle_threads (suc n) (suc i) = at-idle_threads n i

pub count-idle_threads : (f : Place → ℕ) (n : ℕ) → f idle ≡ 0 → count f (idle_threads n) ≡ 0
count-idle_threads f zero h = refl
count-idle_threads f (suc n) h = omega (arith, count-idle_threads f n h)

module _ (pt : Pthread) where
  -- What a step is made of.
  pub record IsStep (t : ℕ) (c : Call) (s s' : System pt) : Type 0 where
    pub place : Place
    pub rwlock : RwPrLock pt
    pub inside : t < length s.threads
    pub went : go pt t c s.rwlock (at s.threads t) ≡ some (place, rwlock)
    pub result : s' ≡ after pt s t place rwlock

  pub step-IsStep :
      (t : ℕ) (c : Call) (s s' : System pt) → step pt t c s ≡ some s' → IsStep t c s s'
  unfolding step
  step-IsStep t c s s' run = elim (dec_lt t (length s.threads)) [
    | yes h ↦ elim (Option-cases (go pt t c s.rwlock (at s.threads t))) [
      | inl stuck ↦ absurd (ground (arith, get_elem?-eq-get_or s.threads t idle h))
      | inr ((p, l), went) ↦ record {
        place = p;
        rwlock = l;
        inside = h;
        went = went;
        result = ground (arith, get_elem?-eq-get_or s.threads t idle h);
      }
    ]
    | no h ↦ absurd (ground (arith, get_elem?-none s.threads t (omega arith)))
  ]

  pub step-IsValid :
      (t : ℕ) (c : Call) (s s' : System pt) → IsValid pt s → step pt t c s ≡ some s' → IsValid pt s'
  step-IsValid t c s s' v run =
      let i = step-IsStep t c s s' run in
      rw (i.result) (go-IsValid pt s t v i.inside c (at s.threads t) i.place i.rwlock refl i.went)

  -- A new lock, and `n` threads.
  abbrev pub initial : ℕ → System pt
  initial n = record { rwlock = rw_pr_init pt; threads = idle_threads n }

  pub initial-IsValid : (n : ℕ) → n < 2 ^ 32 → IsValid pt (initial n)
  unfolding rw_pr_init
  initial-IsValid n h = record {
    counted = sym (count-idle_threads reads n refl);
    queued = sym (count-idle_threads waits n refl);
    bounded = omega (arith, length-replicate n idle);
    freed = λ e. refl;
    owned = λ i e. absurd (ground (arith, pt.owner-mutex_init));
    exclusive = λ i e. absurd (ground (arith, at-idle_threads n i));
  }

  pub Reaches-IsValid : {s s' : System pt} → IsValid pt s → Reaches pt s s' → IsValid pt s'
  Reaches-IsValid v start = v
  Reaches-IsValid v (further {s' = s1} {s'' = s2} t c before run) =
      step-IsValid t c s1 s2 (Reaches-IsValid v before) run

  pub count_pos : (f : Place → ℕ) (ts : List Place) (i : ℕ) → f idle ≡ 0 → f (at ts i) ≤ count f ts
  count_pos f [] i h = omega arith
  count_pos f (p ∷ ts) zero h = omega arith
  count_pos f (p ∷ ts) (suc i) h = omega (arith, count_pos f ts i h)

  -- Whatever steps fewer than 2^32 threads have made on a new lock: while a thread has it as a
  -- writer, no other thread has it as a writer or as a reader.
  pub writer_excludes :
      (n : ℕ) (s : System pt) (i j : ℕ)
      → n < 2 ^ 32
      → Reaches pt (initial n) s
      → writes (at s.threads i) ≡ 1
      → i ≢ j
      → (writes (at s.threads j) ≡ 0) × (reads (at s.threads j) ≡ 0)
  writer_excludes n s i j h r w ne =
      let v = Reaches-IsValid (initial-IsValid n h) r in
      let mine = v.exclusive i w in
      let none_left = v.owned i mine in
      (
        ground (arith, v.exclusive j),
        omega (arith, none_left.2, v.counted, count_pos reads s.threads j refl),
      )

  -- rw_pr_rdlock waits for nothing but a writer that has the lock: the thread gets it and is
  -- counted, or there is a writer and no reader. So no request of a reader waits while a reader has
  -- the lock, whatever writers wait.
  pub rdlock_lem :
      (n : ℕ) (s : System pt) (t : ℕ) (c : Call)
      → n < 2 ^ 32
      → Reaches pt (initial n) s
      → t < length s.threads
      → at s.threads t ≡ rd_locking
      → ((s' : System pt) × (step pt t c s ≡ some s')
          × (s'.threads ≡ set s.threads t reading)
          × (s'.rwlock.active_readers ≡ s.rwlock.active_readers + 1)
          × (s.rwlock.active_writer ≡ false))
        ⊎ (step pt t c s ≡ none) × (s.rwlock.active_writer ≡ true) × (s.rwlock.active_readers ≡ 0)
  unfolding step go rw_pr_rdlock
  rdlock_lem n s t c h r inside e =
      let v = Reaches-IsValid (initial-IsValid n h) r in
      let here = get_elem?-eq-get_or s.threads t idle inside in
      elim (Option-cases (pt.owner s.rwlock.lock)) [
        | inl free ↦
            let (m, got) = pt.lock_free t s.rwlock.lock free in
            inl (
              after pt s t reading (record s.rwlock {
                lock = pt.unlock t m;
                active_readers = u32 (s.rwlock.active_readers + 1);
              }),
              ground (arith),
              refl,
              one_more_reader pt s t v inside (ground arith),
              v.freed free,
            )
        | inr (i, owner) ↦
            let held = v.owned i owner in
            elim (Option-cases (pt.lock t s.rwlock.lock)) [
              | inl busy ↦ inr (ground arith, held.1, held.2)
              | inr (m, got) ↦ absurd (ground (arith, pt.owner-lock t s.rwlock.lock m got))
            ]
      ]
