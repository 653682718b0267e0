-- ===== src/PrRwlock/Wakeups.antt =====
-- Every step keeps the threads that wait in my_pr_rwlock.c attended to.
use my_libs.Base.{
  ℕ, zero, suc, ◌+◌, ◌-◌, ◌^◌, ◌<◌, ◌≡◌, inl, inr, refl, true, false, some, List, [], ◌∷◌,
  get_elem?-eq-get_or, length, get_or-set, arith, ℕ_discrete, u32, Option-cases, Bool-cases,
}
use my_libs.PrRwlock.{
  Pthread, reader, writer, Place, idle, rd_locking, reading, wr_locking, wr_waiting, writing,
  unlocking, rd_unlocking, Call, rdlock, wrlock, unlock, RwPrLock, System, go, step, Reaches, start,
  further, rw_pr_init, rw_pr_rdlock, rw_pr_wrlock, wrlock_woken, unlock_reader, unlock_writer,
}
use my_libs.PrRwlock.Valid.{waits, at, IsValid, after}
use my_libs.PrRwlock.Steps.{one_more_reader, flag_of_reader, flag_of_writer}
use my_libs.PrRwlock.Exclusion.{step-IsStep, initial, initial-IsValid, Reaches-IsValid}
use my_libs.PrRwlock.Progress.{IsAttended, Attended, passes, queues, signals}

module _ (pt : Pthread) where
  module _ (s : System pt) (t : ℕ) (v : IsValid pt s) (a : IsAttended pt s)
      (h : t < length s.threads) where
    abbrev l : RwPrLock pt
    l = s.rwlock

    rdlock-IsAttended :
        (l' : RwPrLock pt)
        → at s.threads t ≡ rd_locking
        → rw_pr_rdlock pt t l ≡ some l'
        → IsAttended pt (after pt s t reading l')
    unfolding rw_pr_rdlock
    rdlock-IsAttended l' e run = elim (Option-cases (pt.lock t l.lock)) [
      | inl busy ↦ absurd (ground arith)
      | inr (m, got) ↦
          let more = one_more_reader pt s t v h (ground arith) in
          passes pt s t reading l' v a h (ground arith) (ground arith) (inl (ground (arith, more)))
    ]

    wrlock-IsAttended :
        (p : Place) (l' : RwPrLock pt)
        → at s.threads t ≡ wr_locking
        → rw_pr_wrlock pt t l ≡ some (p, l')
        → IsAttended pt (after pt s t p l')
    unfolding rw_pr_wrlock
    wrlock-IsAttended p l' e run = elim (Option-cases (pt.lock t l.lock)) [
      | inl busy ↦ absurd (ground arith)
      | inr (m, got) ↦ elim (ℕ_discrete l.active_readers 0) [
        | yes z ↦ passes pt s t p l' v a h (ground arith) (ground arith) (inr (inl (ground arith)))
        | no ne ↦
            queues pt s t p l' v a h
              (λ u b. elim (ℕ_discrete u t) [
                | yes same ↦ inl (same, ground arith)
                | no other ↦ inr (other, ground (arith, pt.blocked-wait t l.no_active_readers u))
              ])
              (inl (ground arith))
      ]
    ]

    woken-IsAttended :
        (p : Place) (l' : RwPrLock pt)
        → wrlock_woken pt t l ≡ some (p, l')
        → IsAttended pt (after pt s t p l')
    unfolding wrlock_woken
    woken-IsAttended p l' run = elim (Option-cases (pt.lock t l.lock)) [
      | inl busy ↦ absurd (ground arith)
      | inr (m, got) ↦
          let c = pt.returned t l.no_active_readers in
          elim (ℕ_discrete l.active_readers 0) [
            | yes z ↦
                queues pt s t p l' v a h
                  (λ u b. elim (ℕ_discrete u t) [
                    | yes same ↦
                        absurd (ground (arith, pt.blocked-returned t l.no_active_readers u))
                    | no other ↦
                        inr (other, ground (arith, pt.blocked-returned t l.no_active_readers u))
                  ])
                  (inr (ground arith))
            | no ne ↦
                queues pt s t p l' v a h
                  (λ u b. elim (ℕ_discrete u t) [
                    | yes same ↦ inl (same, ground arith)
                    | no other ↦ inr (
                      other,
                      ground (
                        arith,
                        pt.blocked-wait t c u,
                        pt.blocked-returned t l.no_active_readers u,
                      ),
                    )
                  ])
                  (inl (ground arith))
          ]
    ]

    unlock_reader-IsAttended :
        (l' : RwPrLock pt)
        → at s.threads t ≡ rd_unlocking reader
        → unlock_reader pt t l ≡ some l'
        → IsAttended pt (after pt s t idle l')
    unfolding unlock_reader
    unlock_reader-IsAttended l' e run = elim (Option-cases (pt.lock t l.lock)) [
      | inl busy ↦ absurd (ground arith)
      | inr (m, got) ↦ elim (ℕ_discrete (u32 (l.active_readers + (2 ^ 32 - 1))) 0) [
        | yes z ↦ elim (ℕ_discrete l.writers_waiting_readers 0) [
          | yes nobody ↦
              passes pt s t idle l' v a h (ground arith) (ground arith) (inr (inr (inl nobody)))
          | no somebody ↦ signals pt s t idle l' v a h (ground arith) (ground arith)
        ]
        | no ne ↦ passes pt s t idle l' v a h (ground arith) (ground arith) (inl (ground arith))
      ]
    ]

    unlock_writer-IsAttended :
        at s.threads t ≡ unlocking writer → IsAttended pt (after pt s t idle (unlock_writer pt t l))
    unfolding unlock_writer
    unlock_writer-IsAttended e = elim (ℕ_discrete l.writers_waiting_readers 0) [
      | yes nobody ↦
          passes pt s t idle (unlock_writer pt t l) v a h (ground arith) (ground arith)
            (inr (inr (inl nobody)))
      | no somebody ↦ signals pt s t idle (unlock_writer pt t l) v a h (ground arith) (ground arith)
    ]

    -- A step that leaves the lock as it is.
    unchanged :
        (p : Place) (l' : RwPrLock pt)
        → waits (at s.threads t) ≡ 0
        → l' ≡ l
        → IsAttended pt (after pt s t p l')
    unchanged p l' w e =
        passes pt s t p l' v a h w (ground arith) (inr (inr (inr (ground arith, ground arith))))

    go-IsAttended :
        (c : Call) (p p' : Place) (l' : RwPrLock pt)
        → at s.threads t ≡ p
        → go pt t c l p ≡ some (p', l')
        → IsAttended pt (after pt s t p' l')
    unfolding go unlock_reader
    go-IsAttended rdlock idle p' l' e run = unchanged p' l' (ground arith) (ground arith)
    go-IsAttended wrlock idle p' l' e run = unchanged p' l' (ground arith) (ground arith)
    go-IsAttended unlock idle p' l' e run = absurd (ground arith)
    go-IsAttended c rd_locking p' l' e run = elim (Option-cases (rw_pr_rdlock pt t l)) [
      | inl busy ↦ absurd (ground arith)
      | inr (m, got) ↦ ground (arith, rdlock-IsAttended m e got)
    ]
    go-IsAttended rdlock reading p' l' e run = absurd (ground arith)
    go-IsAttended wrlock reading p' l' e run = absurd (ground arith)
    go-IsAttended unlock reading p' l' e run = unchanged p' l' (ground arith) (ground arith)
    go-IsAttended c wr_locking p' l' e run = wrlock-IsAttended p' l' e run
    go-IsAttended c wr_waiting p' l' e run = woken-IsAttended p' l' run
    go-IsAttended rdlock writing p' l' e run = absurd (ground arith)
    go-IsAttended wrlock writing p' l' e run = absurd (ground arith)
    go-IsAttended unlock writing p' l' e run = unchanged p' l' (ground arith) (ground arith)
    go-IsAttended c (unlocking reader) p' l' e run =
        let flag = flag_of_reader pt s t v h (ground arith) in
        unchanged p' l' (ground arith) (ground arith)
    go-IsAttended c (unlocking writer) p' l' e run =
        let flag = flag_of_writer pt s t v h (ground arith) in
        ground (arith, unlock_writer-IsAttended e)
    go-IsAttended c (rd_unlocking reader) p' l' e run = elim (Option-cases (unlock_reader pt t l)) [
      | inl busy ↦ absurd (ground arith)
      | inr (m, got) ↦ ground (arith, unlock_reader-IsAttended m e got)
    ]
    go-IsAttended c (rd_unlocking writer) p' l' e run = elim (Option-cases (pt.lock t l.lock)) [
      | inl busy ↦ absurd (ground arith)
      | inr (m, got) ↦
          let owned = pt.owner-lock t l.lock m got in
          let mine = v.exclusive t (ground arith) in absurd (ground arith)
    ]

  pub Reaches-IsAttended :
      (n : ℕ) (s : System pt) → n < 2 ^ 32 → Reaches pt (initial pt n) s → IsAttended pt s
  unfolding rw_pr_init
  Reaches-IsAttended n s h start = record {
    blocked_waits = λ u b. absurd (ground (arith, pt.blocked-cond_init u));
    attended = λ u b. absurd (ground (arith, pt.blocked-cond_init u));
  }
  Reaches-IsAttended n s h (further {s' = s1} t c before run) =
      let i = step-IsStep pt t c s1 s run in
      rw (i.result) (
        go-IsAttended s1 t (Reaches-IsValid pt (initial-IsValid pt n h) before)
          (Reaches-IsAttended n s1 h before) i.inside c (at s1.threads t) i.place i.rwlock refl
          i.went)

  -- Only a thread of the list is in a call.
  inside_call : (ts : List Place) (u : ℕ) → waits (at ts u) ≡ 1 → u < length ts
  inside_call [] u e = absurd (omega arith)
  inside_call (p ∷ ts) zero e = omega arith
  inside_call (p ∷ ts) (suc u) e = omega (arith, inside_call ts u e)

  -- A thread that waits while nobody has the lock gets it as soon as it goes on.
  resumes :
      (s : System pt) (u : ℕ) (c : Call)
      → IsValid pt s
      → waits (at s.threads u) ≡ 1
      → s.rwlock.active_readers ≡ 0
      → s.rwlock.active_writer ≡ false
      → (s' : System pt) × (at s.threads u ≡ wr_waiting)
        × (step pt u c s ≡ some s')
        × (at s'.threads u ≡ writing)
        × (s'.rwlock.active_writer ≡ true)
  unfolding step go wrlock_woken
  resumes s u c v w nobody flag = elim (Option-cases (pt.owner s.rwlock.lock)) [
    | inl free ↦
        let (m, got) = pt.lock_free u s.rwlock.lock free in
        let inside = inside_call s.threads u w in
        let place : at s.threads u ≡ wr_waiting = ground arith in
        (
          after pt s u writing (record s.rwlock {
            lock = m;
            no_active_readers = pt.returned u s.rwlock.no_active_readers;
            writers_waiting_readers = u32 (s.rwlock.writers_waiting_readers + (2 ^ 32 - 1));
            active_writer = true;
          }),
          place,
          ground (arith, get_elem?-eq-get_or s.threads u idle inside),
          ground (arith, get_or-set s.threads u u writing idle inside),
          refl,
        )
    | inr (i, owner) ↦ absurd (ground (arith, v.owned i owner))
  ]

  -- Whatever steps fewer than 2^32 threads have made on a new lock: if a thread waits in rw_pr_wrlock
  -- while nobody has the lock, then a thread that waits there is not blocked any more, the mutex is
  -- free, and its next step gets it the lock as a writer.
  pub wakeup_lem :
      (n : ℕ) (s : System pt) (t : ℕ) (c : Call)
      → n < 2 ^ 32
      → Reaches pt (initial pt n) s
      → at s.threads t ≡ wr_waiting
      → s.rwlock.active_readers ≡ 0
      → s.rwlock.active_writer ≡ false
      → (u : ℕ) × (s' : System pt) × (pt.blocked s.rwlock.no_active_readers u ≡ false)
        × (at s.threads u ≡ wr_waiting)
        × (step pt u c s ≡ some s')
        × (at s'.threads u ≡ writing)
        × (s'.rwlock.active_writer ≡ true)
  unfolding Attended
  wakeup_lem n s t c h r w nobody flag =
      let v = Reaches-IsValid pt (initial-IsValid pt n h) r in
      let a = Reaches-IsAttended n s h r in
      elim (Bool-cases (pt.blocked s.rwlock.no_active_readers t)) [
        | inl blocked ↦ elim (a.attended t blocked) [
          | inl some_left ↦ absurd (omega arith)
          | inr (inl busy) ↦ absurd (ground arith)
          | inr (inr (u, woken)) ↦
              let (s', place, ran, wrote, set_flag) = resumes s u c v woken.waiting nobody flag in
              (u, s', woken.signalled, place, ran, wrote, set_flag)
        ]
        | inr signalled ↦
            let (s', place, ran, wrote, set_flag) = resumes s t c v (ground arith) nobody flag in
            (t, s', signalled, place, ran, wrote, set_flag)
      ]
