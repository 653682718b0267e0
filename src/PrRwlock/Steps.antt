-- ===== src/PrRwlock/Steps.antt =====
-- Every step of a thread keeps the invariant of the lock of my_pr_rwlock.c.
use my_libs.Base.{
  ℕ, ◌+◌, ◌-◌, ◌^◌, ◌<◌, ◌≡◌, inl, inr, refl, true, false, some, length, set, length-set, arith,
  ℕ_discrete, u32, u32_lem, u32-pred, Option-cases,
}
use my_libs.PrRwlock.{
  Pthread, reader, writer, Place, idle, rd_locking, reading, wr_locking, wr_waiting, writing,
  unlocking, rd_unlocking, Call, rdlock, wrlock, unlock, RwPrLock, System, go, rw_pr_rdlock,
  rw_pr_wrlock, wrlock_woken, unlock_reader, unlock_writer,
}
use my_libs.PrRwlock.Valid.{
  reads, waits, writes, at, count-set, count_le, reads_le, waits_le, IsValid, after, keeps, takes,
  gives,
}

module _ (pt : Pthread) (s : System pt) (t : ℕ) (v : IsValid pt s) (h : t < length s.threads) where
  abbrev l : RwPrLock pt
  l = s.rwlock

  -- There is room for one more in the counters.
  pub one_more_reader :
      reads (at s.threads t) ≡ 0 → u32 (l.active_readers + 1) ≡ l.active_readers + 1
  one_more_reader e = u32_lem _ (
      omega (
        arith,
        v.counted,
        v.bounded,
        count-set reads s.threads t reading h,
        count_le reads reads_le (set s.threads t reading),
        length-set s.threads t reading,
      ))

  pub one_more_waiting :
      waits (at s.threads t) ≡ 0
      → u32 (l.writers_waiting_readers + 1) ≡ l.writers_waiting_readers + 1
  one_more_waiting e = u32_lem _ (
      omega (
        arith,
        v.queued,
        v.bounded,
        count-set waits s.threads t wr_waiting h,
        count_le waits waits_le (set s.threads t wr_waiting),
        length-set s.threads t wr_waiting,
      ))

  pub one_reader_less :
      reads (at s.threads t) ≡ 1 → u32 (l.active_readers + (2 ^ 32 - 1)) + 1 ≡ l.active_readers
  one_reader_less e = omega (
    arith,
    v.counted,
    v.bounded,
    count-set reads s.threads t idle h,
    count_le reads reads_le s.threads,
    u32-pred l.active_readers,
  )

  pub one_waiting_less :
      waits (at s.threads t) ≡ 1
      → u32 (l.writers_waiting_readers + (2 ^ 32 - 1)) + 1 ≡ l.writers_waiting_readers
  one_waiting_less e = omega (
    arith,
    v.queued,
    v.bounded,
    count-set waits s.threads t idle h,
    count_le waits waits_le s.threads,
    u32-pred l.writers_waiting_readers,
  )

  rdlock-IsValid :
      (l' : RwPrLock pt)
      → at s.threads t ≡ rd_locking
      → rw_pr_rdlock pt t l ≡ some l'
      → IsValid pt (after pt s t reading l')
  unfolding rw_pr_rdlock
  rdlock-IsValid l' e run = elim (Option-cases (pt.lock t l.lock)) [
    | inl busy ↦ absurd (ground arith)
    | inr (m, got) ↦
        let owned = pt.owner-lock t l.lock m got in
        let more = one_more_reader (ground arith) in
        gives pt s t reading l' v h (ground (arith, more)) (ground arith) (inl owned.0)
          (ground (arith, pt.owner-unlock t m owned.1)) (ground (arith, v.freed owned.0)) refl
  ]

  wrlock-IsValid :
      (p : Place) (l' : RwPrLock pt)
      → at s.threads t ≡ wr_locking
      → rw_pr_wrlock pt t l ≡ some (p, l')
      → IsValid pt (after pt s t p l')
  unfolding rw_pr_wrlock
  wrlock-IsValid p l' e run = elim (Option-cases (pt.lock t l.lock)) [
    | inl busy ↦ absurd (ground arith)
    | inr (m, got) ↦
        let owned = pt.owner-lock t l.lock m got in
        elim (ℕ_discrete l.active_readers 0) [
          | yes none_left ↦
              takes pt s t p l' v h (ground arith) (ground arith) owned.0 (ground arith)
                (ground arith) (ground arith) (ground arith)
          | no some_left ↦
              let more = one_more_waiting (ground arith) in
              gives pt s t p l' v h (ground arith) (ground (arith, more)) (inl owned.0)
                (ground (arith, pt.owner-unlock t m owned.1)) (ground (arith, v.freed owned.0))
                (ground arith)
        ]
  ]

  woken-IsValid :
      (p : Place) (l' : RwPrLock pt)
      → at s.threads t ≡ wr_waiting
      → wrlock_woken pt t l ≡ some (p, l')
      → IsValid pt (after pt s t p l')
  unfolding wrlock_woken
  woken-IsValid p l' e run = elim (Option-cases (pt.lock t l.lock)) [
    | inl busy ↦ absurd (ground arith)
    | inr (m, got) ↦
        let owned = pt.owner-lock t l.lock m got in
        elim (ℕ_discrete l.active_readers 0) [
          | yes none_left ↦
              let less = one_waiting_less (ground arith) in
              takes pt s t p l' v h (ground arith) (ground (arith, less)) owned.0 (ground arith)
                (ground arith) (ground arith) (ground arith)
          | no some_left ↦
              gives pt s t p l' v h (ground arith) (ground arith) (inl owned.0)
                (ground (arith, pt.owner-unlock t m owned.1)) (ground (arith, v.freed owned.0))
                (ground arith)
        ]
  ]

  unlock_reader-IsValid :
      (l' : RwPrLock pt)
      → at s.threads t ≡ rd_unlocking reader
      → unlock_reader pt t l ≡ some l'
      → IsValid pt (after pt s t idle l')
  unfolding unlock_reader
  unlock_reader-IsValid l' e run = elim (Option-cases (pt.lock t l.lock)) [
    | inl busy ↦ absurd (ground arith)
    | inr (m, got) ↦
        let owned = pt.owner-lock t l.lock m got in
        let less = one_reader_less (ground arith) in
        gives pt s t idle l' v h (ground (arith, less)) (ground arith) (inl owned.0)
          (ground (arith, pt.owner-unlock t m owned.1)) (ground (arith, v.freed owned.0)) refl
  ]

  unlock_writer-IsValid :
      at s.threads t ≡ unlocking writer → IsValid pt (after pt s t idle (unlock_writer pt t l))
  unfolding unlock_writer
  unlock_writer-IsValid e =
      let mine = v.exclusive t (ground arith) in
      gives pt s t idle (unlock_writer pt t l) v h (ground arith) (ground arith) (inr mine)
        (ground (arith, pt.owner-unlock t l.lock mine)) refl refl

  -- A thread that has the lock finds the flag that belongs to it.
  pub flag_of_reader : reads (at s.threads t) ≡ 1 → l.active_writer ≡ false
  flag_of_reader e = elim (Option-cases (pt.owner l.lock)) [
    | inl free ↦ v.freed free
    | inr (i, mine) ↦
        absurd (omega (arith, (v.owned i mine).2, v.counted, count-set reads s.threads t idle h))
  ]

  pub flag_of_writer : writes (at s.threads t) ≡ 1 → l.active_writer ≡ true
  flag_of_writer e = (v.owned t (v.exclusive t e)).1

  pub go-IsValid :
      (c : Call) (p p' : Place) (l' : RwPrLock pt)
      → at s.threads t ≡ p
      → go pt t c l p ≡ some (p', l')
      → IsValid pt (after pt s t p' l')
  unfolding go unlock_reader
  go-IsValid rdlock idle p' l' e run =
      keeps pt s t p' l' v h (ground arith) (ground arith) (ground arith) (ground arith)
        (ground arith) (ground arith)
  go-IsValid wrlock idle p' l' e run =
      keeps pt s t p' l' v h (ground arith) (ground arith) (ground arith) (ground arith)
        (ground arith) (ground arith)
  go-IsValid unlock idle p' l' e run = absurd (ground arith)
  go-IsValid c rd_locking p' l' e run = elim (Option-cases (rw_pr_rdlock pt t l)) [
    | inl busy ↦ absurd (ground arith)
    | inr (m, got) ↦ ground (arith, rdlock-IsValid m e got)
  ]
  go-IsValid rdlock reading p' l' e run = absurd (ground arith)
  go-IsValid wrlock reading p' l' e run = absurd (ground arith)
  go-IsValid unlock reading p' l' e run =
      keeps pt s t p' l' v h (ground arith) (ground arith) (ground arith) (ground arith)
        (ground arith) (ground arith)
  go-IsValid c wr_locking p' l' e run = wrlock-IsValid p' l' e run
  go-IsValid c wr_waiting p' l' e run = woken-IsValid p' l' e run
  go-IsValid rdlock writing p' l' e run = absurd (ground arith)
  go-IsValid wrlock writing p' l' e run = absurd (ground arith)
  go-IsValid unlock writing p' l' e run =
      keeps pt s t p' l' v h (ground arith) (ground arith) (ground arith) (ground arith)
        (ground arith) (ground arith)
  go-IsValid c (unlocking reader) p' l' e run =
      let flag = flag_of_reader (ground arith) in
      keeps pt s t p' l' v h (ground arith) (ground arith) (ground arith) (ground arith)
        (ground arith) (ground arith)
  go-IsValid c (unlocking writer) p' l' e run =
      let flag = flag_of_writer (ground arith) in ground (arith, unlock_writer-IsValid e)
  go-IsValid c (rd_unlocking reader) p' l' e run = elim (Option-cases (unlock_reader pt t l)) [
    | inl busy ↦ absurd (ground arith)
    | inr (m, got) ↦ ground (arith, unlock_reader-IsValid m e got)
  ]
  go-IsValid c (rd_unlocking writer) p' l' e run = elim (Option-cases (pt.lock t l.lock)) [
    | inl busy ↦ absurd (ground arith)
    | inr (m, got) ↦
        let owned = pt.owner-lock t l.lock m got in
        let mine = v.exclusive t (ground arith) in absurd (ground arith)
  ]
