-- ===== src/PrRwlock.antt =====
-- src/my_pr_rwlock.c: the lock that prefers readers, with the threads that use it. What a thread
-- does while it owns the mutex is one step, since the fields are used by its owner alone; only
-- rw_pr_unlock looks at `active_writer` without it, which is a step of its own.
pub mod Valid
pub mod Steps
pub mod Exclusion
pub mod Spec
pub mod Refine
pub mod Progress
pub mod Wakeups
pub mod Tests
use my_libs.Base.{
  ℕ, zero, suc, ◌+◌, ◌-◌, ◌^◌, ◌<◌, ◌≡◌, Bool, true, false, ◌&&◌, Option, none, some, List, ◌==◌,
  if◌then◌else◌, ◌>>=◌, get_elem?, get_or, set, u32,
}

-- Mutexes and condition variables, as POSIX documents them. `lock` is `none` while it would block.
-- `blocked` says which threads wait to be signalled; `returned` is the end of such a wait, which
-- may also come without a signal.
pub record Pthread : Type 1 where
  pub Mutex : Type 0
  pub Cond : Type 0
  pub mutex_init : Mutex
  pub cond_init : Cond
  pub owner : Mutex → Option ℕ
  pub lock : ℕ → Mutex → Option Mutex
  pub unlock : ℕ → Mutex → Mutex
  pub blocked : Cond → ℕ → Bool
  pub wait : ℕ → Cond → Cond
  pub returned : ℕ → Cond → Cond
  pub signal : Cond → Cond
  pub owner-mutex_init : owner mutex_init ≡ none
  pub owner-lock :
      (t : ℕ) (m m' : Mutex) → lock t m ≡ some m' → (owner m ≡ none) × (owner m' ≡ some t)
  pub lock_free : (t : ℕ) (m : Mutex) → owner m ≡ none → (m' : Mutex) × (lock t m ≡ some m')
  pub owner-unlock : (t : ℕ) (m : Mutex) → owner m ≡ some t → owner (unlock t m) ≡ none
  pub blocked-cond_init : (u : ℕ) → blocked cond_init u ≡ false
  pub blocked-wait :
      (t : ℕ) (c : Cond) (u : ℕ) → blocked (wait t c) u ≡ (if t == u then true else blocked c u)
  pub blocked-returned :
      (t : ℕ) (c : Cond) (u : ℕ)
      → blocked (returned t c) u ≡ (if t == u then false else blocked c u)
  pub blocked-signal : (c : Cond) (u : ℕ) → blocked c u ≡ false → blocked (signal c) u ≡ false
  pub signal_unblocks :
      (c : Cond) (t : ℕ)
      → blocked c t ≡ true
      → (u : ℕ) × (blocked c u ≡ true) × (blocked (signal c) u ≡ false)

-- As what a thread has the lock.
pub data Held : Type 0 where
  reader : Held
  writer : Held

-- Where a thread is: before the mutex in rw_pr_rdlock or rw_pr_wrlock, in pthread_cond_wait, before
-- the test of rw_pr_unlock or before the mutex in its second branch, or in no call, with or
-- without the lock. What a thread has the lock as is not known to the code.
pub data Place : Type 0 where
  idle : Place
  rd_locking : Place
  reading : Place
  wr_locking : Place
  wr_waiting : Place
  writing : Place
  unlocking : Held → Place
  rd_unlocking : Held → Place

pub data Call : Type 0 where
  rdlock : Call
  wrlock : Call
  unlock : Call

module _ (pt : Pthread) where
  -- `rw_pr_lock_t`.
  pub record RwPrLock : Type 0 where
    pub lock : pt.Mutex
    pub no_active_readers : pt.Cond
    pub active_readers : ℕ
    pub writers_waiting_readers : ℕ
    pub active_writer : Bool

  pub rw_pr_init : RwPrLock
  rw_pr_init = record {
    lock = pt.mutex_init;
    no_active_readers = pt.cond_init;
    active_readers = 0;
    writers_waiting_readers = 0;
    active_writer = false;
  }

  -- `none` here and below: the mutex is not free.
  pub rw_pr_rdlock : ℕ → RwPrLock → Option RwPrLock
  rw_pr_rdlock t l = pt.lock t l.lock >>= λ m.
      some (record l { lock = pt.unlock t m; active_readers = u32 (l.active_readers + 1) })

  -- pthread_cond_wait up to where it blocks.
  wait_for_readers : ℕ → RwPrLock → Place × RwPrLock
  wait_for_readers t l = (
    wr_waiting,
    record l { lock = pt.unlock t l.lock; no_active_readers = pt.wait t l.no_active_readers },
  )

  -- rw_pr_wrlock up to its end or to pthread_cond_wait.
  pub rw_pr_wrlock : ℕ → RwPrLock → Option (Place × RwPrLock)
  unfolding wait_for_readers
  rw_pr_wrlock t l = pt.lock t l.lock >>= λ m. some (
      if l.active_readers == 0
      then (writing, record l { lock = m; active_writer = true })
      else wait_for_readers t
          (record l { lock = m; writers_waiting_readers = u32 (l.writers_waiting_readers + 1) }))

  -- rw_pr_wrlock from where pthread_cond_wait returns.
  pub wrlock_woken : ℕ → RwPrLock → Option (Place × RwPrLock)
  unfolding wait_for_readers
  wrlock_woken t l = pt.lock t l.lock >>= λ m.
      let back = record l { lock = m; no_active_readers = pt.returned t l.no_active_readers } in
      some (
        if l.active_readers == 0
        then (
          writing,
          record back {
            writers_waiting_readers = u32 (l.writers_waiting_readers + (2 ^ 32 - 1));
            active_writer = true;
          },
        )
        else wait_for_readers t back)

  -- pthread_cond_signal if the condition holds, and pthread_mutex_unlock.
  signal_and_unlock : ℕ → Bool → RwPrLock → RwPrLock
  signal_and_unlock t b l = record l {
    lock = pt.unlock t l.lock;
    no_active_readers = if b then pt.signal l.no_active_readers else l.no_active_readers;
  }

  -- The two branches of rw_pr_unlock.
  pub unlock_writer : ℕ → RwPrLock → RwPrLock
  unfolding signal_and_unlock
  unlock_writer t l =
      let waiting = if l.writers_waiting_readers == 0 then false else true in
      signal_and_unlock t waiting (record l { active_writer = false })

  pub unlock_reader : ℕ → RwPrLock → Option RwPrLock
  unfolding signal_and_unlock
  unlock_reader t l =
      let left = u32 (l.active_readers + (2 ^ 32 - 1)) in
      let waiting = if l.writers_waiting_readers == 0 then false else true in
      pt.lock t l.lock >>= λ m.
      some
        (signal_and_unlock t (left == 0 && waiting) (record l { lock = m; active_readers = left }))

  -- The next step of a thread, which makes the call named if it is in none; `none` if it cannot go
  -- on, or the call is not allowed there.
  pub go : ℕ → Call → RwPrLock → Place → Option (Place × RwPrLock)
  unfolding rw_pr_rdlock rw_pr_wrlock wrlock_woken unlock_writer unlock_reader
  go t rdlock l idle = some (rd_locking, l)
  go t wrlock l idle = some (wr_locking, l)
  go t unlock l idle = none
  go t c l rd_locking = rw_pr_rdlock t l >>= λ l'. some (reading, l')
  go t rdlock l reading = none
  go t wrlock l reading = none
  go t unlock l reading = some (unlocking reader, l)
  go t c l wr_locking = rw_pr_wrlock t l
  go t c l wr_waiting = wrlock_woken t l
  go t rdlock l writing = none
  go t wrlock l writing = none
  go t unlock l writing = some (unlocking writer, l)
  go t c l (unlocking h) =
      some (if l.active_writer then (idle, unlock_writer t l) else (rd_unlocking h, l))
  go t c l (rd_unlocking h) = unlock_reader t l >>= λ l'. some (idle, l')

  -- The lock and the threads, which are the indices of the list.
  pub record System : Type 0 where
    pub rwlock : RwPrLock
    pub threads : List Place

  pub step : ℕ → Call → System → Option System
  unfolding go
  step t c s = get_elem? s.threads t >>= λ p. go t c s.rwlock p >>= λ next.
      some (record { rwlock = next.1; threads = set s.threads t next.0 })

  -- Any number of steps, of any threads in any order.
  pub data Reaches (s : System) : System → Type 0 where
    start : Reaches s s
    further :
        {s' s'' : System} (t : ℕ) (c : Call) → Reaches s s' → step t c s' ≡ some s'' → Reaches s s''
