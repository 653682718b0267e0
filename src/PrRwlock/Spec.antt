-- ===== src/PrRwlock/Spec.antt =====
-- What the lock of my_pr_rwlock.c promises: its specification, which every step implements.
use mathlib.Core.Path.{subst}
use my_libs.Base.{
  ℕ, ◌+◌, ◌<◌, ◌≡◌, inl, inr, sym, true, false, some, if◌then◌else◌, length, arith, ℕ_discrete,
  Option-cases,
}
use my_libs.PrRwlock.{
  Pthread, Place, rd_locking, RwPrLock, System, rw_pr_rdlock, rw_pr_wrlock, wrlock_woken,
  unlock_reader,
}
use my_libs.PrRwlock.Valid.{reads, at, IsValid}
use my_libs.PrRwlock.Steps.{one_more_reader, one_reader_less, flag_of_reader}

-- The lock as its users see it: had by a number of readers, or by one writer.
pub data Access : Type 0 where
  shared : ℕ → Access
  exclusive : Access

-- How it may change hands.
pub data Move : Access → Access → Type 0 where
  stay : {a : Access} → Move a a
  enter : {n : ℕ} → Move (shared n) (shared (n + 1))
  leave : {n : ℕ} → Move (shared (n + 1)) (shared n)
  seize : Move (shared 0) exclusive
  free : Move exclusive (shared 0)

module _ (pt : Pthread) where
  -- Who has the lock, by its fields.
  pub access : RwPrLock pt → Access
  access l = if l.active_writer then exclusive else shared l.active_readers

  module _ (s : System pt) (t : ℕ) (v : IsValid pt s) (h : t < length s.threads) where
    abbrev l : RwPrLock pt
    l = s.rwlock

    pub stays : (l' : RwPrLock pt) → access l' ≡ access l → Move (access l) (access l')
    stays l' e = subst (λ a. Move (access l) a) (sym e) stay

    enters :
        (l' : RwPrLock pt)
        → l.active_writer ≡ false
        → l'.active_writer ≡ false
        → l'.active_readers ≡ l.active_readers + 1
        → Move (access l) (access l')
    unfolding access
    enters l' e e' more = rw (e, e', more) enter

    leaves :
        (l' : RwPrLock pt)
        → l.active_writer ≡ false
        → l'.active_writer ≡ false
        → l'.active_readers + 1 ≡ l.active_readers
        → Move (access l) (access l')
    unfolding access
    leaves l' e e' less = rw (e, e', sym less) leave

    seizes :
        (l' : RwPrLock pt)
        → l.active_writer ≡ false
        → l.active_readers ≡ 0
        → l'.active_writer ≡ true
        → Move (access l) (access l')
    unfolding access
    seizes l' e z e' = rw (e, z, e') seize

    pub frees :
        (l' : RwPrLock pt)
        → l.active_writer ≡ true
        → l'.active_writer ≡ false
        → l'.active_readers ≡ 0
        → Move (access l) (access l')
    unfolding access
    frees l' e e' z = rw (e, z, e') free

    pub rdlock-Move :
        (l' : RwPrLock pt)
        → at s.threads t ≡ rd_locking
        → rw_pr_rdlock pt t l ≡ some l'
        → Move (access l) (access l')
    unfolding rw_pr_rdlock
    rdlock-Move l' e run = elim (Option-cases (pt.lock t l.lock)) [
      | inl busy ↦ absurd (ground arith)
      | inr (m, got) ↦
          let flag = v.freed (pt.owner-lock t l.lock m got).0 in
          let more = one_more_reader pt s t v h (ground arith) in
          enters l' flag (ground arith) (ground (arith, more))
    ]

    pub wrlock-Move :
        (p : Place) (l' : RwPrLock pt)
        → rw_pr_wrlock pt t l ≡ some (p, l')
        → Move (access l) (access l')
    unfolding rw_pr_wrlock
    wrlock-Move p l' run = elim (Option-cases (pt.lock t l.lock)) [
      | inl busy ↦ absurd (ground arith)
      | inr (m, got) ↦
          let flag = v.freed (pt.owner-lock t l.lock m got).0 in
          elim (ℕ_discrete l.active_readers 0) [
            | yes z ↦ seizes l' flag z (ground arith)
            | no ne ↦ stays l' (unfold access in ground arith)
          ]
    ]

    pub woken-Move :
        (p : Place) (l' : RwPrLock pt)
        → wrlock_woken pt t l ≡ some (p, l')
        → Move (access l) (access l')
    unfolding wrlock_woken
    woken-Move p l' run = elim (Option-cases (pt.lock t l.lock)) [
      | inl busy ↦ absurd (ground arith)
      | inr (m, got) ↦
          let flag = v.freed (pt.owner-lock t l.lock m got).0 in
          elim (ℕ_discrete l.active_readers 0) [
            | yes z ↦ seizes l' flag z (ground arith)
            | no ne ↦ stays l' (unfold access in ground arith)
          ]
    ]

    pub unlock_reader-Move :
        (l' : RwPrLock pt)
        → reads (at s.threads t) ≡ 1
        → unlock_reader pt t l ≡ some l'
        → Move (access l) (access l')
    unfolding unlock_reader
    unlock_reader-Move l' e run = elim (Option-cases (pt.lock t l.lock)) [
      | inl busy ↦ absurd (ground arith)
      | inr (m, got) ↦
          let flag = flag_of_reader pt s t v h e in
          let less = one_reader_less pt s t v h e in
          leaves l' flag (ground arith) (ground (arith, less))
    ]
