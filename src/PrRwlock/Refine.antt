-- ===== src/PrRwlock/Refine.antt =====
-- Every step of a thread on the lock of my_pr_rwlock.c is a move of its specification.
use mathlib.Core.Path.{subst}
use my_libs.Base.{
  ℕ, ◌^◌, ◌<◌, ◌≡◌, ◌⊎◌, inl, inr, refl, sym, ap, false, none, some, get_elem?-eq-get_or, length,
  set, arith, Option-cases,
}
use my_libs.PrRwlock.{
  Pthread, Held, reader, writer, Place, idle, rd_locking, reading, wr_locking, wr_waiting, writing,
  unlocking, rd_unlocking, Call, rdlock, wrlock, unlock, RwPrLock, System, go, step, Reaches,
  rw_pr_rdlock, unlock_reader, unlock_writer,
}
use my_libs.PrRwlock.Valid.{writes, at, IsValid, after}
use my_libs.PrRwlock.Steps.{flag_of_reader, flag_of_writer}
use my_libs.PrRwlock.Exclusion.{step-IsStep, initial, initial-IsValid, Reaches-IsValid}
use my_libs.PrRwlock.Spec.{
  Move, access, stays, frees, rdlock-Move, wrlock-Move, woken-Move, unlock_reader-Move,
}

module _ (pt : Pthread) where
  module _ (s : System pt) (t : ℕ) (v : IsValid pt s) (h : t < length s.threads) where
    abbrev l : RwPrLock pt
    l = s.rwlock

    same_lock : (l' : RwPrLock pt) → l' ≡ l → Move (access pt l) (access pt l')
    same_lock l' e = stays pt s t v h l' (ap (access pt) e)

    -- A writer leaves no reader behind.
    unlock_writer-Move :
        writes (at s.threads t) ≡ 1 → Move (access pt l) (access pt (unlock_writer pt t l))
    unfolding unlock_writer
    unlock_writer-Move e =
        let held = v.owned t (v.exclusive t e) in
        frees pt s t v h (unlock_writer pt t l) held.1 refl held.2

    go-Move :
        (c : Call) (p p' : Place) (l' : RwPrLock pt)
        → at s.threads t ≡ p
        → go pt t c l p ≡ some (p', l')
        → Move (access pt l) (access pt l')
    unfolding go unlock_reader
    go-Move rdlock idle p' l' e run = same_lock l' (ground arith)
    go-Move wrlock idle p' l' e run = same_lock l' (ground arith)
    go-Move unlock idle p' l' e run = absurd (ground arith)
    go-Move c rd_locking p' l' e run = elim (Option-cases (rw_pr_rdlock pt t l)) [
      | inl busy ↦ absurd (ground arith)
      | inr (m, got) ↦
          let same : m ≡ l' = ground arith in
          subst (λ k. Move (access pt l) (access pt k)) same (rdlock-Move pt s t v h m e got)
    ]
    go-Move rdlock reading p' l' e run = absurd (ground arith)
    go-Move wrlock reading p' l' e run = absurd (ground arith)
    go-Move unlock reading p' l' e run = same_lock l' (ground arith)
    go-Move c wr_locking p' l' e run = wrlock-Move pt s t v h p' l' run
    go-Move c wr_waiting p' l' e run = woken-Move pt s t v h p' l' run
    go-Move rdlock writing p' l' e run = absurd (ground arith)
    go-Move wrlock writing p' l' e run = absurd (ground arith)
    go-Move unlock writing p' l' e run = same_lock l' (ground arith)
    go-Move c (unlocking reader) p' l' e run =
        let flag = flag_of_reader pt s t v h (ground arith) in same_lock l' (ground arith)
    go-Move c (unlocking writer) p' l' e run =
        let flag = flag_of_writer pt s t v h (ground arith) in
        let same : unlock_writer pt t l ≡ l' = ground arith in
        subst (λ k. Move (access pt l) (access pt k)) same (unlock_writer-Move (ground arith))
    go-Move c (rd_unlocking reader) p' l' e run = elim (Option-cases (unlock_reader pt t l)) [
      | inl busy ↦ absurd (ground arith)
      | inr (m, got) ↦
          let same : m ≡ l' = ground arith in
          subst (λ k. Move (access pt l) (access pt k)) same
            (unlock_reader-Move pt s t v h m (ground arith) got)
    ]
    go-Move c (rd_unlocking writer) p' l' e run = elim (Option-cases (pt.lock t l.lock)) [
      | inl busy ↦ absurd (ground arith)
      | inr (m, got) ↦
          let owned = pt.owner-lock t l.lock m got in
          let mine = v.exclusive t (ground arith) in absurd (ground arith)
    ]

  -- Whatever steps fewer than 2^32 threads have made on a new lock, the next step of any of them
  -- leaves who has the lock as it is, or adds or takes a reader while no writer has it, or hands
  -- it to a writer while nobody has it, or frees it from a writer.
  pub step-Move :
      (n : ℕ) (s s' : System pt) (t : ℕ) (c : Call)
      → n < 2 ^ 32
      → Reaches pt (initial pt n) s
      → step pt t c s ≡ some s'
      → Move (access pt s.rwlock) (access pt s'.rwlock)
  step-Move n s s' t c h r run =
      let v = Reaches-IsValid pt (initial-IsValid pt n h) r in
      let i = step-IsStep pt t c s s' run in
      subst (λ (k : System pt). Move (access pt s.rwlock) (access pt k.rwlock)) (sym i.result)
        (go-Move s t v i.inside c (at s.threads t) i.place i.rwlock refl i.went)

  -- Whatever steps fewer than 2^32 threads have made on a new lock, rw_pr_unlock takes the branch
  -- that fits the lock that the thread has: a reader goes on to the mutex and nothing is changed; a
  -- writer has then freed the mutex and cleared `active_writer`.
  pub unlock_lem :
      (n : ℕ) (s : System pt) (t : ℕ) (c : Call) (held : Held)
      → n < 2 ^ 32
      → Reaches pt (initial pt n) s
      → t < length s.threads
      → at s.threads t ≡ unlocking held
      → (s' : System pt) × (step pt t c s ≡ some s')
        × ((held ≡ reader) × (s' ≡ after pt s t (rd_unlocking reader) s.rwlock)
            ⊎ (held ≡ writer)
              × (s'.threads ≡ set s.threads t idle)
              × (pt.owner s'.rwlock.lock ≡ none)
              × (s'.rwlock.active_writer ≡ false))
  unfolding step go unlock_writer
  unlock_lem n s t c reader h r inside e =
      let v = Reaches-IsValid pt (initial-IsValid pt n h) r in
      let flag = flag_of_reader pt s t v inside (ground arith) in
      (
        after pt s t (rd_unlocking reader) s.rwlock,
        ground (arith, get_elem?-eq-get_or s.threads t idle inside),
        inl (refl, refl),
      )
  unlock_lem n s t c writer h r inside e =
      let v = Reaches-IsValid pt (initial-IsValid pt n h) r in
      let flag = flag_of_writer pt s t v inside (ground arith) in
      let mine = v.exclusive t (ground arith) in
      (
        after pt s t idle (unlock_writer pt t s.rwlock),
        ground (arith, get_elem?-eq-get_or s.threads t idle inside),
        inr (refl, refl, pt.owner-unlock t s.rwlock.lock mine, refl),
      )
