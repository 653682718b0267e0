-- ===== src/Rwlock/Tests.antt =====
-- Two threads on a lock of my_rwlock.c.
use my_libs.Base.{◌≡◌, ◌≢◌, refl, some, [], ◌∷◌, arith}
use my_libs.Base.Int.{negsuc}
use my_libs.Rwlock.{
  idle, rd_waiting, reading, wr_waiting, writing, rdlock, wrlock, unlock, System, go, step, Reaches,
  start, further, my_rw_init, my_rw_wrlock, wrlock_woken,
}
use my_libs.Rwlock.Valid.{at, after}
use my_libs.Rwlock.Exclusion.{initial, my_rw_writer_excludes, my_rw_step_lem, my_rw_rdlock_lem}

abbrev written : System
written = record {
  rwlock = record { state = negsuc 0; waiters = 0 };
  threads = writing ∷ idle ∷ idle ∷ [];
}

abbrev queued : System
queued = record {
  rwlock = record { state = negsuc 0; waiters = 1 };
  threads = writing ∷ wr_waiting ∷ idle ∷ [];
}

to_written : Reaches (initial 3) written
unfolding step go my_rw_wrlock wrlock_woken my_rw_init
to_written = further 0 wrlock start refl

to_queued : Reaches (initial 3) queued
unfolding step go my_rw_wrlock wrlock_woken
to_queued = further 1 wrlock to_written refl

my_rw_writer_excludes_example : (at written.threads 1 ≢ writing) × (at written.threads 1 ≢ reading)
my_rw_writer_excludes_example =
    my_rw_writer_excludes 3 written 0 1 (omega arith) to_written refl (λ e. omega (arith, e))

my_rw_step_lem_example : (s' : System) × (step 0 unlock queued ≡ some s')
my_rw_step_lem_example = my_rw_step_lem 3 queued 0 unlock (omega arith) to_queued (omega arith) refl

my_rw_rdlock_lem_example : step 2 rdlock queued ≡ some (after queued 2 (rd_waiting, queued.rwlock))
my_rw_rdlock_lem_example =
    my_rw_rdlock_lem 3 queued 2 1 (omega arith) to_queued (omega arith) refl refl
