-- ===== src/Rwlock/Valid.antt =====
-- The invariant of a lock of my_rwlock.c with its threads.
use my_libs.Base.{
  ℕ, zero, suc, ◌+◌, ◌^◌, ◌≤◌, ◌<◌, ◌≡◌, ◌⊎◌, inl, inr, refl, ◌∙◌, ap, Bool, true, false, some,
  Option, List, [], ◌∷◌, ltb, length, get_or, set, length-set, arith,
}
use my_libs.Base.Int.{ℤ, pos, negsuc}
use my_libs.Rwlock.{
  RwLock, Place, idle, rd_waiting, reading, wr_waiting, writing, Call, unlock, System,
}

-- 1 for a thread that has the lock to read, that has it to write, and that waits to write.
abbrev pub reads : Place → ℕ
reads reading = 1
reads _ = 0

abbrev pub writes : Place → ℕ
writes writing = 1
writes _ = 0

abbrev pub waits : Place → ℕ
waits wr_waiting = 1
waits _ = 0

-- The sum over the threads.
abbrev pub count : (Place → ℕ) → List Place → ℕ
count f [] = 0
count f (p ∷ ts) = f p + count f ts

abbrev pub at : List Place → ℕ → Place
at ts i = get_or ts i idle

pub count-set :
    (f : Place → ℕ) (ts : List Place) (i : ℕ) (p : Place)
    → i < length ts
    → count f (set ts i p) + f (at ts i) ≡ count f ts + f p
count-set f [] i p h = elim h [ ]
count-set f (q ∷ ts) zero p h = omega arith
count-set f (q ∷ ts) (suc i) p h = omega (arith, count-set f ts i p (omega arith))

pub count_le :
    (f : Place → ℕ) → ((p : Place) → f p ≤ 1) → (ts : List Place) → count f ts ≤ length ts
count_le f h [] = omega arith
count_le f h (p ∷ ts) = omega (arith, h p, count_le f h ts)

reads_le : (p : Place) → reads p ≤ 1
reads_le p = ground arith

pub waits_le : (p : Place) → waits p ≤ 1
waits_le p = ground arith

-- What `state` is, with so many writers and readers.
abbrev pub Held : ℕ → ℕ → ℤ → Type 0
Held w r st = (w ≡ 0) × (st ≡ pos r) ⊎ (w ≡ 1) × (r ≡ 0) × (st ≡ negsuc 0)

pub record IsValid (s : System) : Type 0 where
  pub held : Held (count writes s.threads) (count reads s.threads) s.rwlock.state
  pub queued : s.rwlock.waiters ≡ count waits s.threads
  pub bounded : length s.threads + 1 < 2 ^ 31

-- The system after a step of the thread `t`.
abbrev pub after : System → ℕ → Place × RwLock → System
after s t next = record { rwlock = next.1; threads = set s.threads t next.0 }

-- A call that is not out of place.
abbrev pub allowed : Call → Place → Bool
allowed unlock idle = false
allowed c idle = true
allowed unlock reading = true
allowed c reading = false
allowed unlock writing = true
allowed c writing = false
allowed c rd_waiting = true
allowed c wr_waiting = true

module _ (s : System) (t : ℕ) (v : IsValid s) (h : t < length s.threads) where
  abbrev l : RwLock
  l = s.rwlock

  -- What a step comes to.
  abbrev pub Goes : Option (Place × RwLock) → Type 0
  Goes o = (next : Place × RwLock) × (o ≡ some next) × IsValid (after s t next)

  pub moved :
      (q : Place) (m : RwLock)
      → m.waiters + waits (at s.threads t) ≡ l.waiters + waits q
      → ((w r : ℕ)
          → w + writes (at s.threads t) ≡ count writes s.threads + writes q
          → r + reads (at s.threads t) ≡ count reads s.threads + reads q
          → Held w r m.state)
      → IsValid (after s t (q, m))
  moved q m e held = record {
    held =
        held (count writes (set s.threads t q)) (count reads (set s.threads t q))
          (count-set writes s.threads t q h) (count-set reads s.threads t q h);
    queued = omega (arith, e, v.queued, count-set waits s.threads t q h);
    bounded = omega (arith, length-set s.threads t q, v.bounded);
  }

  -- A thread that stays out of the lock.
  pub stays :
      (q : Place)
      → waits (at s.threads t) ≡ waits q
      → writes (at s.threads t) ≡ writes q
      → reads (at s.threads t) ≡ reads q
      → IsValid (after s t (q, l))
  stays q a b c = moved q l (omega (arith, a)) λ w r ew er. elim v.held [
    | inl (none_writes, st) ↦
        inl (omega (arith, ew, none_writes, b), st ∙ ap pos (omega (arith, er, c)))
    | inr (one, no_reader, st) ↦
        inr (omega (arith, ew, one, b), omega (arith, er, no_reader, c), st)
  ]

  -- One reader more.
  pub reads_now :
      (st : ℤ)
      → count writes s.threads ≡ 0
      → st ≡ pos (count reads s.threads + 1)
      → waits (at s.threads t) ≡ 0
      → writes (at s.threads t) ≡ 0
      → reads (at s.threads t) ≡ 0
      → IsValid (after s t (reading, record l { state = st }))
  reads_now st none_writes e a b c =
      moved reading (record l { state = st }) (omega (arith, a))
        λ w r ew er. inl (omega (arith, ew, none_writes, b), e ∙ ap pos (omega (arith, er, c)))

  -- The only writer.
  pub writes_now :
      (waiters : ℕ)
      → count writes s.threads ≡ 0
      → count reads s.threads ≡ 0
      → waiters + waits (at s.threads t) ≡ l.waiters
      → writes (at s.threads t) ≡ 0
      → IsValid (after s t (writing, record { state = negsuc 0; waiters = waiters }))
  writes_now waiters none_writes no_reader a b =
      moved writing (record { state = negsuc 0; waiters = waiters }) (omega (arith, a))
        λ w r ew er. inr (omega (arith, ew, none_writes, b), omega (arith, er, no_reader), refl)

  -- The room that is left in the ints.
  pub room : ltb (count reads s.threads + 1) (2 ^ 31) ≡ true
  room = ground (arith, count_le reads reads_le s.threads, v.bounded)
