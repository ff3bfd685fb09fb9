-- ===== src/Synch/Locks.antt =====
-- A lock that nobody holds or waits for, and the state in between.
use os_project.Common.{ℕ, ◌≡◌, refl, none, some, [], arith, ok}
use os_project.Synch.{Lock, lock_init, lock_acquire_now, lock_release}

pub record IsFree (l : Lock) : Type 0 where
  pub holder : l.holder ≡ none
  pub value : l.semaphore.value ≡ 1
  pub waiters : l.semaphore.waiters ≡ []

pub lock_init-IsFree : IsFree lock_init
unfolding lock_init
lock_init-IsFree = record { holder = refl; value = refl; waiters = refl }

-- The lock while the thread `cur` holds it and nobody waits.
abbrev pub held : ℕ → Lock
held cur = record { holder = some cur; semaphore = record { value = 0; waiters = [] } }

pub lock_acquire_now-IsFree :
    {l : Lock} (cur : ℕ) → IsFree l → lock_acquire_now cur l ≡ ok (held cur)
unfolding lock_acquire_now
lock_acquire_now-IsFree {l} cur f = ground arith

pub lock_release-held : (cur : ℕ) → lock_release cur (held cur) ≡ ok (none, lock_init)
unfolding lock_release lock_init
lock_release-held cur = ground arith
