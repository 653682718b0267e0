-- ===== src/Rwlock/Native.antt =====
-- The part of my_rwlock.c that stands on the slim reader-writer locks of Windows. The calls of the
-- system are a result.
use my_libs.Base.{Bool, true, false, List, [], ◌∷◌, if◌then◌else◌}

pub data SrwCall : Type 0 where
  initialize : SrwCall
  acquire_shared : SrwCall
  acquire_exclusive : SrwCall
  release_shared : SrwCall
  release_exclusive : SrwCall

-- `have_exclusive_srwlock` after the call, and the calls made.
pub srw_init : List SrwCall × Bool
srw_init = (initialize ∷ [], false)

pub srw_rdlock : Bool → List SrwCall × Bool
srw_rdlock exclusive = (acquire_shared ∷ [], exclusive)

pub srw_wrlock : Bool → List SrwCall × Bool
srw_wrlock exclusive = (acquire_exclusive ∷ [], true)

-- `got` is what TryAcquireSRWLockShared or TryAcquireSRWLockExclusive returns; it is also whether
-- the result is 0, else EBUSY.
pub srw_tryrdlock : Bool → Bool → List SrwCall × Bool
srw_tryrdlock got exclusive = (if got then acquire_shared ∷ [] else [], exclusive)

pub srw_trywrlock : Bool → Bool → List SrwCall × Bool
srw_trywrlock got exclusive = if got then (acquire_exclusive ∷ [], true) else ([], exclusive)

pub srw_unlock : Bool → List SrwCall × Bool
srw_unlock exclusive =
    if exclusive then (release_exclusive ∷ [], false) else (release_shared ∷ [], exclusive)
