-- ===== src/PrRwlock/Valid.antt =====
-- The invariant of a lock of my_pr_rwlock.c with its threads.
use my_libs.Base.{
  ℕ, zero, suc, ◌+◌, ◌^◌, ◌≤◌, ◌<◌, ◌≡◌, ◌⊎◌, ◌∙◌, sym, ap, true, false, none, some, List, [], ◌∷◌,
  ◌==◌, if◌then◌else◌, length, get_or, set, length-set, get_or-set, arith,
}
use my_libs.PrRwlock.{
  Pthread, reader, writer, Place, idle, reading, wr_waiting, writing, unlocking, rd_unlocking,
  RwPrLock, System,
}

-- 1 for a thread that is counted as a reader.
abbrev pub reads : Place → ℕ
reads reading = 1
reads (unlocking reader) = 1
reads (rd_unlocking reader) = 1
reads _ = 0

-- 1 for a thread that waits for the readers.
abbrev pub waits : Place → ℕ
waits wr_waiting = 1
waits _ = 0

-- 1 for a thread that has the lock as a writer.
abbrev pub writes : Place → ℕ
writes writing = 1
writes (unlocking writer) = 1
writes (rd_unlocking writer) = 1
writes _ = 0

-- The sum over the threads.
abbrev pub count : (Place → ℕ) → List Place → ℕ
count f [] = 0
count f (p ∷ ts) = f p + count f ts

-- Where a thread is.
abbrev pub at : List Place → ℕ → Place
at ts i = get_or ts i idle

pub count-set :
    (f : Place → ℕ) (ts : List Place) (i : ℕ) (p : Place)
    → i < length ts
    → count f (set ts i p) + f (at ts i) ≡ count f ts + f p
count-set f [] i p h = elim h [ ]
count-set f (q ∷ ts) zero p h = omega arith
count-set f (q ∷ ts) (suc i) p h = omega (arith, count-set f ts i p (omega arith))

pub reads_le : (p : Place) → reads p ≤ 1
reads_le p = ground arith

pub waits_le : (p : Place) → waits p ≤ 1
waits_le p = ground arith

pub count_le :
    (f : Place → ℕ) → ((p : Place) → f p ≤ 1) → (ts : List Place) → count f ts ≤ length ts
count_le f h [] = omega arith
count_le f h (p ∷ ts) = omega (arith, h p, count_le f h ts)

module _ (pt : Pthread) where
  pub record IsValid (s : System pt) : Type 0 where
    -- the counters count the threads, and cannot wrap around
    pub counted : s.rwlock.active_readers ≡ count reads s.threads
    pub queued : s.rwlock.writers_waiting_readers ≡ count waits s.threads
    pub bounded : length s.threads < 2 ^ 32
    -- the mutex is owned between steps by a writer only, and then there is no reader
    pub freed : pt.owner s.rwlock.lock ≡ none → s.rwlock.active_writer ≡ false
    pub owned :
        (i : ℕ)
        → pt.owner s.rwlock.lock ≡ some i
        → (writes (at s.threads i) ≡ 1)
          × (s.rwlock.active_writer ≡ true)
          × (s.rwlock.active_readers ≡ 0)
    -- and a writer owns it
    pub exclusive : (i : ℕ) → writes (at s.threads i) ≡ 1 → pt.owner s.rwlock.lock ≡ some i

  -- The system after a step of the thread `t`.
  abbrev pub after : System pt → ℕ → Place → RwPrLock pt → System pt
  after s t p l = record { rwlock = l; threads = set s.threads t p }

  module _ (s : System pt) (t : ℕ) (p : Place) (l : RwPrLock pt) (v : IsValid s)
      (h : t < length s.threads)
      (readers : l.active_readers + reads (at s.threads t) ≡ s.rwlock.active_readers + reads p)
      (waiting : l.writers_waiting_readers + waits (at s.threads t)
        ≡ s.rwlock.writers_waiting_readers + waits p) where
    now_counted : l.active_readers ≡ count reads (set s.threads t p)
    now_counted = omega (arith, readers, v.counted, count-set reads s.threads t p h)

    now_queued : l.writers_waiting_readers ≡ count waits (set s.threads t p)
    now_queued = omega (arith, waiting, v.queued, count-set waits s.threads t p h)

    now_bounded : length (set s.threads t p) < 2 ^ 32
    now_bounded = omega (arith, length-set s.threads t p, v.bounded)

    at-after : (i : ℕ) → at (set s.threads t p) i ≡ (if t == i then p else at s.threads i)
    at-after i = get_or-set s.threads t i p idle h

    -- A step that leaves the mutex and the flag.
    pub keeps :
        l.lock ≡ s.rwlock.lock
        → l.active_writer ≡ s.rwlock.active_writer
        → l.active_readers ≡ s.rwlock.active_readers
        → writes p ≡ writes (at s.threads t)
        → IsValid (after s t p l)
    keeps el ew er ep = record {
      counted = now_counted;
      queued = now_queued;
      bounded = now_bounded;
      freed = λ e. ew ∙ v.freed (ap pt.owner (sym el) ∙ e);
      owned = λ i e. let old = v.owned i (ap pt.owner (sym el) ∙ e) in ground (arith, at-after i);
      exclusive = λ i e. ap pt.owner el ∙ v.exclusive i (ground (arith, at-after i));
    }

    -- A step after which the thread is a writer.
    pub takes :
        pt.owner s.rwlock.lock ≡ none
        → pt.owner l.lock ≡ some t
        → l.active_writer ≡ true
        → l.active_readers ≡ 0
        → writes p ≡ 1
        → IsValid (after s t p l)
    takes free mine ew er ep = record {
      counted = now_counted;
      queued = now_queued;
      bounded = now_bounded;
      freed = λ e. ground arith;
      owned = λ i e. ground (arith, at-after i);
      exclusive = λ i e. ground (arith, at-after i, v.exclusive i);
    }

    -- A step after which no thread is a writer.
    pub gives :
        ((pt.owner s.rwlock.lock ≡ none) ⊎ (pt.owner s.rwlock.lock ≡ some t))
        → pt.owner l.lock ≡ none
        → l.active_writer ≡ false
        → writes p ≡ 0
        → IsValid (after s t p l)
    gives before free ew ep = record {
      counted = now_counted;
      queued = now_queued;
      bounded = now_bounded;
      freed = λ e. ew;
      owned = λ i e. ground arith;
      exclusive = λ i e. ground (arith, at-after i, v.exclusive i);
    }

    pub readers_word : l.active_readers < 2 ^ 32
    readers_word =
        omega (arith, now_counted, now_bounded, count_le reads reads_le (set s.threads t p))
