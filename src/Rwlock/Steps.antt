-- ===== src/Rwlock/Steps.antt =====
-- Every step of a thread keeps the invariant of the lock of my_rwlock.c.
use my_libs.Base.{
  ℕ, zero, suc, ◌+◌, ◌-◌, ◌^◌, ◌<◌, ◌≡◌, inl, inr, refl, ◌∙◌, ap, true, false, some, none, ltb,
  if◌then◌else◌, length, arith, Bool-cases, ◌>>=◌,
}
use my_libs.Base.Int.{pos, negsuc}
use my_libs.Rwlock.{
  RwLock, Place, idle, rd_waiting, reading, wr_waiting, writing, Call, rdlock, tryrdlock, wrlock,
  trywrlock, unlock, System, go, incremented, decremented, my_rw_rdlock, my_rw_tryrdlock,
  my_rw_wrlock, wrlock_woken, my_rw_trywrlock, my_rw_unlock,
}
use my_libs.Rwlock.Valid.{
  reads, writes, waits, count, at, count-set, count_le, waits_le, IsValid, after, allowed, Goes,
  moved, stays, reads_now, writes_now, room,
}

module _ (s : System) (t : ℕ) (v : IsValid s) (h : t < length s.threads) where
  abbrev l : RwLock
  l = s.rwlock

  abbrev here : Place
  here = at s.threads t

  module _ (a : waits here ≡ 0) (b : writes here ≡ 0) (c : reads here ≡ 0) where
    rdlock_lem : Goes s t v h (my_rw_rdlock l)
    unfolding my_rw_rdlock incremented
    rdlock_lem = elim v.held [
      | inr (one, no_reader, st) ↦ ((rd_waiting, l), rw st refl, stays s t v h rd_waiting a b c)
      | inl (none_writes, st) ↦ elim (Bool-cases (ltb 0 l.waiters)) [
        | inl queue ↦ ((rd_waiting, l), rw (st, queue) refl, stays s t v h rd_waiting a b c)
        | inr empty ↦ (
          (reading, record l { state = pos (count reads s.threads + 1) }),
          rw (st, empty, room s t v h) refl,
          reads_now s t v h _ none_writes refl a b c,
        )
      ]
    ]

    tryrdlock_lem :
        Goes s t v h (my_rw_tryrdlock l >>= λ r. some (if r.0 then reading else idle, r.1))
    unfolding my_rw_tryrdlock incremented
    tryrdlock_lem = elim v.held [
      | inr (one, no_reader, st) ↦ ((idle, l), rw st refl, stays s t v h idle a b c)
      | inl (none_writes, st) ↦ elim (Bool-cases (ltb 0 l.waiters)) [
        | inl queue ↦ ((idle, l), rw (st, queue) refl, stays s t v h idle a b c)
        | inr empty ↦ (
          (reading, record l { state = pos (count reads s.threads + 1) }),
          rw (st, empty, room s t v h) refl,
          reads_now s t v h _ none_writes refl a b c,
        )
      ]
    ]

    trywrlock_lem :
        Goes s t v h (my_rw_trywrlock l >>= λ r. some (if r.0 then writing else idle, r.1))
    unfolding my_rw_trywrlock
    trywrlock_lem = elim v.held [
      | inr (one, no_reader, st) ↦ ((idle, l), rw st refl, stays s t v h idle a b c)
      | inl (none_writes, st) ↦ elim (Bool-cases (ltb 0 (count reads s.threads))) [
        | inl some_read ↦ ((idle, l), rw (st, some_read) refl, stays s t v h idle a b c)
        | inr free ↦ (
          (writing, record l { state = negsuc 0 }),
          rw (st, free) refl,
          writes_now s t v h l.waiters none_writes (ground arith) (omega (arith, a)) b,
        )
      ]
    ]

    -- There is room for one writer more in the queue.
    queue_room : ltb (l.waiters + 1) (2 ^ 31) ≡ true
    queue_room = ground (arith, count_le waits waits_le s.threads, v.bounded, v.queued)

    wrlock_lem : Goes s t v h (my_rw_wrlock l)
    unfolding my_rw_wrlock wrlock_woken
    wrlock_lem =
        let waits_now : IsValid (after s t (wr_waiting, record l { waiters = l.waiters + 1 })) =
          moved s t v h wr_waiting (record l { waiters = l.waiters + 1 }) (omega (arith, a))
            λ w r ew er. elim v.held [
              | inl (none_writes, st) ↦
                  inl (omega (arith, ew, none_writes, b), st ∙ ap pos (omega (arith, er, c)))
              | inr (one, no_reader, st) ↦
                  inr (omega (arith, ew, one, b), omega (arith, er, no_reader, c), st)
            ] in
        elim v.held [
          | inr (one, no_reader, st) ↦ (
            (wr_waiting, record l { waiters = l.waiters + 1 }),
            rw (queue_room, st) refl,
            waits_now,
          )
          | inl (none_writes, st) ↦ elim (Bool-cases (ltb 0 (count reads s.threads))) [
            | inl some_read ↦ (
              (wr_waiting, record l { waiters = l.waiters + 1 }),
              rw (queue_room, st, some_read) refl,
              waits_now,
            )
            | inr free ↦ (
              (writing, record { state = negsuc 0; waiters = l.waiters + 1 - 1 }),
              rw (queue_room, st, free) refl,
              writes_now s t v h (l.waiters + 1 - 1) none_writes (ground arith) (omega (arith, a))
                  b,
            )
          ]
        ]

  woken_lem : waits here ≡ 1 → writes here ≡ 0 → reads here ≡ 0 → Goes s t v h (wrlock_woken l)
  unfolding wrlock_woken
  woken_lem a b c = elim v.held [
    | inr (one, no_reader, st) ↦ ((wr_waiting, l), rw st refl, stays s t v h wr_waiting a b c)
    | inl (none_writes, st) ↦ elim (Bool-cases (ltb 0 (count reads s.threads))) [
      | inl some_read ↦ ((wr_waiting, l), rw (st, some_read) refl, stays s t v h wr_waiting a b c)
      | inr free ↦ (
        (writing, record { state = negsuc 0; waiters = l.waiters - 1 }),
        rw (st, free) refl,
        writes_now s t v h (l.waiters - 1) none_writes (ground arith)
            (omega (arith, a, v.queued, count-set waits s.threads t idle h)) b,
      )
    ]
  ]

  positive : (n : ℕ) → 0 < n → (m : ℕ) × (n ≡ suc m)
  positive zero h = absurd (omega arith)
  positive (suc n) h = (n, refl)

  one_less :
      (n : ℕ)
      → here ≡ reading
      → count writes s.threads ≡ 0
      → count reads s.threads ≡ suc n
      → l.state ≡ pos (suc n)
      → Goes s t v h (my_rw_unlock l >>= λ r. some (idle, r.1))
  unfolding my_rw_unlock decremented
  one_less n e none_writes some_read st =
      let positive : ltb 0 (suc n) ≡ true = ground arith in
      (
        (idle, record l { state = pos n }),
        rw (st, positive) refl,
        moved s t v h idle (record l { state = pos n }) (omega (arith, ap waits e))
            λ w r ew er. inl (
              omega (arith, ew, none_writes, ap writes e),
              ap pos (omega (arith, er, ap reads e, some_read)),
            ),
      )

  unlock_reader_lem : here ≡ reading → Goes s t v h (my_rw_unlock l >>= λ r. some (idle, r.1))
  unlock_reader_lem e = elim v.held [
    | inr (one, no_reader, st) ↦
        absurd (omega (arith, no_reader, ap reads e, count-set reads s.threads t idle h))
    | inl (none_writes, st) ↦
        let (n, some_read) =
          positive (count reads s.threads)
            (omega (arith, ap reads e, count-set reads s.threads t idle h)) in
        one_less n e none_writes some_read (st ∙ ap pos some_read)
  ]

  unlock_writer_lem : here ≡ writing → Goes s t v h (my_rw_unlock l >>= λ r. some (idle, r.1))
  unfolding my_rw_unlock
  unlock_writer_lem e = elim v.held [
    | inl (none_writes, st) ↦
        absurd (omega (arith, none_writes, ap writes e, count-set writes s.threads t idle h))
    | inr (one, no_reader, st) ↦ (
      (idle, record l { state = pos 0 }),
      rw st refl,
      moved s t v h idle (record l { state = pos 0 }) (omega (arith, ap waits e))
          λ w r ew er. inl (
            omega (arith, ew, one, ap writes e),
            ap pos (omega (arith, er, no_reader, ap reads e)),
          ),
    )
  ]

  -- A call that is not out of place does not fault, and keeps the invariant.
  pub go_lem : (c : Call) (p : Place) → here ≡ p → allowed c p ≡ true → Goes s t v h (go c l p)
  unfolding go
  go_lem rdlock idle e ok = rdlock_lem (ap waits e) (ap writes e) (ap reads e)
  go_lem tryrdlock idle e ok = tryrdlock_lem (ap waits e) (ap writes e) (ap reads e)
  go_lem wrlock idle e ok = wrlock_lem (ap waits e) (ap writes e) (ap reads e)
  go_lem trywrlock idle e ok = trywrlock_lem (ap waits e) (ap writes e) (ap reads e)
  go_lem unlock idle e ok = absurd (ground arith)
  go_lem c rd_waiting e ok = rdlock_lem (ap waits e) (ap writes e) (ap reads e)
  go_lem c wr_waiting e ok = woken_lem (ap waits e) (ap writes e) (ap reads e)
  go_lem unlock reading e ok = unlock_reader_lem e
  go_lem unlock writing e ok = unlock_writer_lem e
  go_lem rdlock reading e ok = absurd (ground arith)
  go_lem tryrdlock reading e ok = absurd (ground arith)
  go_lem wrlock reading e ok = absurd (ground arith)
  go_lem trywrlock reading e ok = absurd (ground arith)
  go_lem rdlock writing e ok = absurd (ground arith)
  go_lem tryrdlock writing e ok = absurd (ground arith)
  go_lem wrlock writing e ok = absurd (ground arith)
  go_lem trywrlock writing e ok = absurd (ground arith)

  pub refused : (c : Call) (p : Place) → allowed c p ≡ false → go c l p ≡ none
  unfolding go
  refused unlock idle e = refl
  refused rdlock idle e = absurd (ground arith)
  refused tryrdlock idle e = absurd (ground arith)
  refused wrlock idle e = absurd (ground arith)
  refused trywrlock idle e = absurd (ground arith)
  refused c rd_waiting e = absurd (ground arith)
  refused c wr_waiting e = absurd (ground arith)
  refused unlock reading e = absurd (ground arith)
  refused rdlock reading e = refl
  refused tryrdlock reading e = refl
  refused wrlock reading e = refl
  refused trywrlock reading e = refl
  refused unlock writing e = absurd (ground arith)
  refused rdlock writing e = refl
  refused tryrdlock writing e = refl
  refused wrlock writing e = refl
  refused trywrlock writing e = refl
