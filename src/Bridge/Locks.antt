-- ===== src/Bridge/Locks.antt =====
-- The locks of kernel/Xjail/xv6/xv6fs_bridge.c, for one processor: a lock that is taken where it is held
-- halts the kernel, which is `none`. Their names are left out; nothing reads them.
use notux_kernel.Base.{ℕ, Bool, true, false, not, Option, none, some, if◌then◌else◌}

pub record Spinlock : Type 0 where
  pub locked : Bool

pub record Sleeplock : Type 0 where
  pub locked : Bool
  pub lk : Spinlock
  pub pid : ℕ

pub initlock : Spinlock → Spinlock
initlock lk = record { locked = false }

pub acquire : Spinlock → Option Spinlock
acquire lk = if lk.locked then none else some (record { locked = true })

pub release : Spinlock → Option Spinlock
release lk = if not lk.locked then none else some (record { locked = false })

pub holding : Spinlock → Bool
holding lk = lk.locked

pub initsleeplock : Sleeplock → Sleeplock
initsleeplock lk = record { locked = false; lk = initlock lk.lk; pid = 0 }

pub acquiresleep : Sleeplock → Option Sleeplock
acquiresleep lk = if lk.locked then none else some (record lk { locked = true; pid = 0 })

pub releasesleep : Sleeplock → Option Sleeplock
releasesleep lk = if not lk.locked then none else some (record lk { locked = false })

pub holdingsleep : Sleeplock → Bool
holdingsleep lk = lk.locked
