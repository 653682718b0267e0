-- ===== src/PrRwlock/Progress.antt =====
-- No writer waits in my_pr_rwlock.c for a signal that never comes.
use my_libs.Base.{
  ℕ, ◌<◌, ◌≡◌, ◌≢◌, ◌⊎◌, inl, inr, refl, ◌∙◌, sym, ap, true, false, ◌==◌, if◌then◌else◌, length,
  set, get_or-set, arith, Bool-cases,
}
use my_libs.PrRwlock.{Pthread, Place, idle, RwPrLock, System}
use my_libs.PrRwlock.Valid.{waits, at, IsValid, after}
use my_libs.PrRwlock.Exclusion.{count_pos}

module _ (pt : Pthread) where
  -- A thread that waits and has been signalled.
  pub record IsWoken (s : System pt) (u : ℕ) : Type 0 where
    pub waiting : waits (at s.threads u) ≡ 1
    pub signalled : pt.blocked s.rwlock.no_active_readers u ≡ false

  -- Who will see to the threads that wait.
  unfoldable pub Attended : System pt → Type 0
  Attended s =
      (0 < s.rwlock.active_readers) ⊎ (s.rwlock.active_writer ≡ true) ⊎ (u : ℕ) × IsWoken s u

  pub record IsAttended (s : System pt) : Type 0 where
    -- a thread that is not signalled waits
    pub blocked_waits :
        (u : ℕ) → pt.blocked s.rwlock.no_active_readers u ≡ true → waits (at s.threads u) ≡ 1
    -- and a reader, a writer or a signalled thread will see to it
    pub attended : (u : ℕ) → pt.blocked s.rwlock.no_active_readers u ≡ true → Attended s

  module _ (s : System pt) (t : ℕ) (p : Place) (l : RwPrLock pt) (v : IsValid pt s)
      (a : IsAttended s) (h : t < length s.threads) where
    at-after : (i : ℕ) → at (set s.threads t p) i ≡ (if t == i then p else at s.threads i)
    at-after i = get_or-set s.threads t i p idle h

    -- The thread that was waiting with another still does.
    others :
        (u : ℕ)
        → waits (at s.threads t) ≡ 0
        → waits (at s.threads u) ≡ 1
        → waits (at (set s.threads t p) u) ≡ 1
    others u w e = ground (arith, at-after u)

    -- A step that leaves the condition variable, by a thread that does not wait.
    pub passes :
        waits (at s.threads t) ≡ 0
        → l.no_active_readers ≡ s.rwlock.no_active_readers
        → ((0 < l.active_readers)
            ⊎ (l.active_writer ≡ true)
            ⊎ (s.rwlock.writers_waiting_readers ≡ 0)
            ⊎ (l.active_readers ≡ s.rwlock.active_readers)
              × (l.active_writer ≡ s.rwlock.active_writer))
        → IsAttended (after pt s t p l)
    unfolding Attended
    passes w same by = record {
      blocked_waits =
          λ u b. others u w (a.blocked_waits u (ap (λ c. pt.blocked c u) (sym same) ∙ b));
      attended = λ u b.
          let old : pt.blocked s.rwlock.no_active_readers u ≡ true =
            ap (λ c. pt.blocked c u) (sym same) ∙ b in
          elim by [
            | inl some_left ↦ inl some_left
            | inr (inl flag) ↦ inr (inl flag)
            | inr (inr (inl nobody)) ↦ absurd (
                omega (arith, v.queued, a.blocked_waits u old, count_pos pt waits s.threads u refl))
            | inr (inr (inr (er, ew))) ↦ elim (a.attended u old) [
              | inl some_left ↦ inl (omega arith)
              | inr (inl flag) ↦ inr (inl (ew ∙ flag))
              | inr (inr (j, woken)) ↦ inr (
                  inr (
                    j,
                    record {
                      waiting = others j w woken.waiting;
                      signalled = ap (λ c. pt.blocked c j) same ∙ woken.signalled;
                    },
                  ))
            ]
          ];
    }

    -- A step that changes nothing but who is blocked: the thread starts to wait, or ends it.
    pub queues :
        ((u : ℕ)
          → pt.blocked l.no_active_readers u ≡ true
          → (u ≡ t) × (waits p ≡ 1) ⊎ (u ≢ t) × (pt.blocked s.rwlock.no_active_readers u ≡ true))
        → ((0 < l.active_readers) ⊎ (l.active_writer ≡ true))
        → IsAttended (after pt s t p l)
    unfolding Attended
    queues who by = record {
      blocked_waits = λ u b. elim (who u b) [
        | inl (e, w) ↦ ground (arith, at-after u)
        | inr (ne, old) ↦ ground (arith, at-after u, a.blocked_waits u old)
      ];
      attended = λ u b. elim by [ inl some_left ↦ inl some_left | inr flag ↦ inr (inl flag) ];
    }

    -- A step that signals, by a thread that does not wait.
    pub signals :
        waits (at s.threads t) ≡ 0
        → l.no_active_readers ≡ pt.signal s.rwlock.no_active_readers
        → IsAttended (after pt s t p l)
    unfolding Attended
    signals w e = record {
      blocked_waits = λ u b. others u w (a.blocked_waits u (still u b));
      attended = λ u b.
          let (j, before, now) = pt.signal_unblocks s.rwlock.no_active_readers u (still u b) in
          inr (
            inr (
              j,
              record {
                waiting = others j w (a.blocked_waits j before);
                signalled = ap (λ c. pt.blocked c j) e ∙ now;
              },
            ));
    }
      where
        still :
            (u : ℕ)
            → pt.blocked l.no_active_readers u ≡ true
            → pt.blocked s.rwlock.no_active_readers u ≡ true
        still u b = elim (Bool-cases (pt.blocked s.rwlock.no_active_readers u)) [
          | inl yes_blocked ↦ yes_blocked
          | inr not_blocked ↦ absurd (
              ground (
                arith,
                pt.blocked-signal s.rwlock.no_active_readers u not_blocked,
                ap (λ c. pt.blocked c u) e,
              ))
        ]
