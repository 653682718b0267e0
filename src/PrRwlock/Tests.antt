-- ===== src/PrRwlock/Tests.antt =====
-- Three threads on a lock of my_pr_rwlock.c, with the simplest mutex and condition variable.
use my_libs.Base.{
  ℕ, ◌+◌, ◌≡◌, ◌⊎◌, inl, inr, refl, Bool, true, false, Option, none, some, List, [], ◌∷◌, ◌==◌,
  ◌>>=◌, if◌then◌else◌, arith, Option-cases, u32,
}
use my_libs.PrRwlock.{
  Pthread, writer, idle, rd_locking, reading, wr_waiting, writing, unlocking, Call, rdlock, wrlock,
  unlock, System, Reaches, start, further, step, go, rw_pr_init, rw_pr_rdlock, rw_pr_wrlock,
  wrlock_woken, wait_for_readers, signal_and_unlock, unlock_reader,
}
use my_libs.PrRwlock.Valid.{reads, writes, at}
use my_libs.PrRwlock.Exclusion.{initial, writer_excludes, rdlock_lem}
use my_libs.PrRwlock.Spec.{Move, access}
use my_libs.PrRwlock.Refine.{step-Move}
use my_libs.PrRwlock.Wakeups.{wakeup_lem}

-- The mutex is its owner.
lock_if_free : ℕ → Option ℕ → Option (Option ℕ)
lock_if_free t none = some (some t)
lock_if_free t (some u) = none

owner-lock_if_free :
    (t : ℕ) (m m' : Option ℕ) → lock_if_free t m ≡ some m' → (m ≡ none) × (m' ≡ some t)
unfolding lock_if_free
owner-lock_if_free t none m' h = (refl, ground arith)
owner-lock_if_free t (some u) m' h = absurd (ground arith)

lock_if_free_free :
    (t : ℕ) (m : Option ℕ) → m ≡ none → (m' : Option ℕ) × (lock_if_free t m ≡ some m')
unfolding lock_if_free
lock_if_free_free t none h = (some t, refl)
lock_if_free_free t (some u) h = absurd (ground arith)

abbrev change : ℕ → Bool → (ℕ → Bool) → ℕ → Bool
change t b c u = if t == u then b else c u

-- A signal wakes everyone.
abbrev simple : Pthread
simple = record {
  Mutex = Option ℕ;
  Cond = ℕ → Bool;
  mutex_init = none;
  cond_init = λ u. false;
  owner = λ m. m;
  lock = lock_if_free;
  unlock = λ t m. none;
  blocked = λ c. c;
  wait = λ t. change t true;
  returned = λ t. change t false;
  signal = λ c u. false;
  owner-mutex_init = refl;
  owner-lock = owner-lock_if_free;
  lock_free = lock_if_free_free;
  owner-unlock = λ t m h. refl;
  blocked-cond_init = λ u. refl;
  blocked-wait = λ t c u. refl;
  blocked-returned = λ t c u. refl;
  blocked-signal = λ c u h. refl;
  signal_unblocks = λ c t h. (t, h, refl);
}

-- The steps of a script, one after the other.
abbrev run : List (ℕ × Call) → System simple → Option (System simple)
run [] s = some s
run ((t, c) ∷ script) s = step simple t c s >>= run script

run-Reaches :
    (script : List (ℕ × Call)) (s s1 s2 : System simple)
    → Reaches simple s s1
    → run script s1 ≡ some s2
    → Reaches simple s s2
run-Reaches [] s s1 s2 r h = let e : s1 ≡ s2 = ground arith in rw (← e) r
run-Reaches ((t, c) ∷ script) s s1 s2 r h = elim (Option-cases (step simple t c s1)) [
  | inl stuck ↦ absurd (ground arith)
  | inr (s', e) ↦ run-Reaches script s s' s2 (further t c r e) (ground arith)
]

-- Thread 0 reads, thread 1 waits to write, and thread 2 comes to read.
abbrev arrival : List (ℕ × Call)
arrival = (0, rdlock) ∷ (0, rdlock) ∷ (1, wrlock) ∷ (1, wrlock) ∷ (2, rdlock) ∷ []

abbrev arrived : System simple
arrived = record {
  rwlock = record {
    lock = none;
    no_active_readers = change 1 true (λ u. false);
    active_readers = 1;
    writers_waiting_readers = 1;
    active_writer = false;
  };
  threads = reading ∷ wr_waiting ∷ rd_locking ∷ [];
}

arrives : run arrival (initial simple 3) ≡ some arrived
unfolding step go rw_pr_init rw_pr_rdlock rw_pr_wrlock wait_for_readers lock_if_free u32
arrives = refl

arrived-Reaches : Reaches simple (initial simple 3) arrived
arrived-Reaches = run-Reaches arrival (initial simple 3) (initial simple 3) arrived start arrives

-- The reader has gone, and the writer is signalled.
abbrev released : System simple
released = record {
  rwlock = record {
    lock = none;
    no_active_readers = λ u. false;
    active_readers = 0;
    writers_waiting_readers = 1;
    active_writer = false;
  };
  threads = idle ∷ wr_waiting ∷ rd_locking ∷ [];
}

abbrev departure : List (ℕ × Call)
departure = (0, unlock) ∷ (0, unlock) ∷ (0, unlock) ∷ []

releases : run departure arrived ≡ some released
unfolding step go unlock_reader signal_and_unlock lock_if_free u32
releases = refl

released-Reaches : Reaches simple (initial simple 3) released
released-Reaches =
    run-Reaches departure (initial simple 3) arrived released arrived-Reaches releases

-- The writer has the lock, and gives it back.
abbrev written : System simple
written = record {
  rwlock = record {
    lock = some 1;
    no_active_readers = change 1 false (λ u. false);
    active_readers = 0;
    writers_waiting_readers = 0;
    active_writer = true;
  };
  threads = idle ∷ unlocking writer ∷ rd_locking ∷ [];
}

writes_next : run ((1, wrlock) ∷ (1, unlock) ∷ []) released ≡ some written
unfolding step go wrlock_woken lock_if_free u32
writes_next = refl

written-Reaches : Reaches simple (initial simple 3) written
written-Reaches =
    run-Reaches ((1, wrlock) ∷ (1, unlock) ∷ []) (initial simple 3) released written
      released-Reaches writes_next

-- Meanwhile the thread that came to read cannot go on.
reader_waits : run ((2, rdlock) ∷ []) written ≡ none
unfolding step go rw_pr_rdlock lock_if_free
reader_waits = refl

writer_excludes_example : (writes rd_locking ≡ 0) × (reads rd_locking ≡ 0)
writer_excludes_example =
    writer_excludes simple 3 written 1 2 (omega arith) written-Reaches refl (omega arith)

rdlock_lem_example :
    ((s' : System simple) × (step simple 2 rdlock arrived ≡ some s')
      × (s'.threads ≡ reading ∷ wr_waiting ∷ reading ∷ [])
      × (s'.rwlock.active_readers ≡ 1 + 1)
      × (false ≡ false))
    ⊎ (step simple 2 rdlock arrived ≡ none) × (false ≡ true) × (arrived.rwlock.active_readers ≡ 0)
rdlock_lem_example =
    rdlock_lem simple 3 arrived 2 rdlock (omega arith) arrived-Reaches (omega arith) refl

writes_again :
    step simple 1 wrlock released
    ≡ some (record written { threads = idle ∷ writing ∷ rd_locking ∷ [] })
unfolding step go wrlock_woken lock_if_free u32
writes_again = refl

step-Move_example : Move (access simple released.rwlock) (access simple written.rwlock)
step-Move_example =
    step-Move simple 3 released (record written { threads = idle ∷ writing ∷ rd_locking ∷ [] }) 1
      wrlock (omega arith) released-Reaches writes_again

wakeup_lem_example :
    (u : ℕ) × (s' : System simple) × (simple.blocked released.rwlock.no_active_readers u ≡ false)
    × (at released.threads u ≡ wr_waiting)
    × (step simple u unlock released ≡ some s')
    × (at s'.threads u ≡ writing)
    × (s'.rwlock.active_writer ≡ true)
wakeup_lem_example =
    wakeup_lem simple 3 released 1 unlock (omega arith) released-Reaches refl refl refl
