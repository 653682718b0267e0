-- ===== src/Rwlock.antt =====
-- src/my_rwlock.c, include/my_rwlock.h: the reader-writer lock for Windows, with the threads that
-- use it. What a thread does from pthread_mutex_lock to pthread_mutex_unlock, or to where it blocks,
-- is one step. A wait may end without a signal, as POSIX documents it, so that a waiting thread may
-- always test again. `none` is a fault: a failed assertion or an overflow of an int.
pub mod Native
pub mod Valid
pub mod Steps
pub mod Exclusion
pub mod Tests
use my_libs.Base.{
  ℕ, zero, suc, ◌+◌, ◌-◌, ◌^◌, ◌<◌, ◌≡◌, Bool, true, false, ◌&&◌, ◌||◌, Option, none, some, List,
  ltb, ◌==◌, if◌then◌else◌, ◌>>=◌, get_elem?, set,
}
use my_libs.Base.Int.{ℤ, pos, negsuc, is_neg, is_pos}

-- The portable half of `my_rw_lock_t`, without the mutex and the condition variables.
pub record RwLock : Type 0 where
  pub state : ℤ
  pub waiters : ℕ

-- Where a thread is: in no call, with or without the lock, or in pthread_cond_wait.
pub data Place : Type 0 where
  idle : Place
  rd_waiting : Place
  reading : Place
  wr_waiting : Place
  writing : Place

-- What is signalled: nothing, one that waits to write, or all that wait to read.
pub data Wake : Type 0 where
  no_one : Wake
  signal_writers : Wake
  broadcast_readers : Wake

unfoldable pub my_rw_init : RwLock
my_rw_init = record { state = pos 0; waiters = 0 }

unfoldable pub my_rw_destroy : RwLock → Option RwLock
my_rw_destroy l = if is_neg l.state || is_pos l.state then none else some l

-- `state++` and `state--` on an int.
unfoldable pub incremented : ℤ → Option ℤ
incremented (pos n) = if ltb (n + 1) (2 ^ 31) then some (pos (n + 1)) else none
incremented (negsuc zero) = some (pos 0)
incremented (negsuc (suc n)) = some (negsuc n)

unfoldable pub decremented : ℤ → Option ℤ
decremented (pos zero) = some (negsuc 0)
decremented (pos (suc n)) = some (pos n)
decremented (negsuc n) = if ltb (n + 1) (2 ^ 31) then some (negsuc (n + 1)) else none

abbrev pub is_minus_one : ℤ → Bool
is_minus_one (negsuc zero) = true
is_minus_one _ = false

-- From the mutex on, or from where the wait ends: it returns, or waits.
unfoldable pub my_rw_rdlock : RwLock → Option (Place × RwLock)
unfolding incremented
my_rw_rdlock l =
    let got = incremented l.state >>= λ n. some (reading, record l { state = n }) in
    if is_neg l.state || ltb 0 l.waiters then some (rd_waiting, l) else got

-- Whether the lock was got; otherwise the result is EBUSY.
unfoldable pub my_rw_tryrdlock : RwLock → Option (Bool × RwLock)
unfolding incremented
my_rw_tryrdlock l =
    let got = incremented l.state >>= λ n. some (true, record l { state = n }) in
    if is_neg l.state || ltb 0 l.waiters then some (false, l) else got

-- The loop of my_rw_wrlock and what follows it. The caller is one of the `waiters`, which are not 0.
unfoldable pub wrlock_woken : RwLock → Option (Place × RwLock)
wrlock_woken l = some (
    if is_neg l.state || is_pos l.state
    then (wr_waiting, l)
    else (writing, record l { state = negsuc 0; waiters = l.waiters - 1 }))

unfoldable pub my_rw_wrlock : RwLock → Option (Place × RwLock)
unfolding wrlock_woken
my_rw_wrlock l =
    if ltb (l.waiters + 1) (2 ^ 31)
    then wrlock_woken (record l { waiters = l.waiters + 1 })
    else none

unfoldable pub my_rw_trywrlock : RwLock → Option (Bool × RwLock)
my_rw_trywrlock l =
    some (
      if is_neg l.state || is_pos l.state
      then (false, l)
      else (true, record l { state = negsuc 0 }))

unfoldable pub my_rw_unlock : RwLock → Option (Wake × RwLock)
unfolding decremented
my_rw_unlock l =
    let by_writer : Wake × RwLock =
      (if ltb 0 l.waiters then signal_writers else broadcast_readers, record l { state = pos 0 }) in
    let by_reader = decremented l.state >>= λ n.
    let last = if is_neg n || is_pos n then false else ltb 0 l.waiters in
    some (if last then signal_writers else no_one, record l { state = n }) in
    let unlocked = if is_minus_one l.state then some by_writer else by_reader in
    if is_neg l.state || is_pos l.state then unlocked else none

pub data Call : Type 0 where
  rdlock : Call
  tryrdlock : Call
  wrlock : Call
  trywrlock : Call
  unlock : Call

-- The next step of a thread, which makes the call named if it is in none. A thread that has the
-- lock gives it back before it asks again.
unfoldable pub go : Call → RwLock → Place → Option (Place × RwLock)
unfolding my_rw_rdlock my_rw_tryrdlock my_rw_wrlock wrlock_woken my_rw_trywrlock my_rw_unlock
go c l rd_waiting = my_rw_rdlock l
go c l wr_waiting = wrlock_woken l
go rdlock l idle = my_rw_rdlock l
go tryrdlock l idle = my_rw_tryrdlock l >>= λ r. some (if r.0 then reading else idle, r.1)
go wrlock l idle = my_rw_wrlock l
go trywrlock l idle = my_rw_trywrlock l >>= λ r. some (if r.0 then writing else idle, r.1)
go unlock l reading = my_rw_unlock l >>= λ r. some (idle, r.1)
go unlock l writing = my_rw_unlock l >>= λ r. some (idle, r.1)
go _ l _ = none

-- The lock and the threads, which are the indices of the list.
pub record System : Type 0 where
  pub rwlock : RwLock
  pub threads : List Place

unfoldable pub step : ℕ → Call → System → Option System
unfolding go
step t c s = get_elem? s.threads t >>= λ p.
    go c s.rwlock p >>= λ next. some (record { rwlock = next.1; threads = set s.threads t next.0 })

-- Any number of steps, of any threads in any order.
pub data Reaches (s : System) : System → Type 0 where
  start : Reaches s s
  further :
      {s' s'' : System} (t : ℕ) (c : Call) → Reaches s s' → step t c s' ≡ some s'' → Reaches s s''
