-- ===== src/Synch/Tests.antt =====
-- Runs of threads/synch.c.
use os_project.Common.{◌≡◌, refl, none, [], ◌∷◌, ok}
use os_project.Synch.{sema_up, sema_init, lock_init, lock_release}
use os_project.Synch.Locks.{held}
use os_project.Synch.Condition.{cond_init, cond_wait}

-- Thread 3 starts to wait; the lock is free behind it.
cond_wait_run :
    cond_wait 3 cond_init (held 3)
    ≡ ok (none, record { waiters = (3, record { value = 0; waiters = [] }) ∷ [] }, lock_init)
unfolding cond_wait cond_init sema_init lock_release lock_init sema_up
cond_wait_run = refl
