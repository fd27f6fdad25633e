-- ===== src/Bridge.antt =====
-- kernel/Xjail/xv6/xv6fs_bridge.c: the buffers between the file system of kernel/xv6fs and the disk.
-- A buffer is its index in bcache_pool; its links prev, next and qnext, which nothing reads, are left
-- out, and its flags are the two bits that are used. bridge_halt stops the kernel, and is `none`.
pub mod Coherence
pub mod Refine
pub mod Reuse
pub mod Locks
pub mod Files
pub mod Ops
pub mod Owns
pub mod Branches
pub mod Boot
pub mod Balance
mod Examples
use notux_kernel.Base.{
  ℕ, ◌+◌, ◌-◌, ◌%◌, ◌^◌, Bool, true, false, not, ◌&&◌, Option, none, some, ◌==◌, if◌then◌else◌,
  for_loop, find_from, update,
}

-- The two calls of kernel/ahci/onahci.c, over the state `D` of the disk, for one sector each: what was
-- read, or none for an error; whether the write succeeded, and the disk after it.
pub record Ahci (D Sector : Type 0) : Type 0 where
  pub ahci_read_sectors : D → ℕ → Option Sector
  pub ahci_write_sectors : D → ℕ → Sector → Bool × D

pub record Buf (Sector : Type 0) : Type 0 where
  -- B_VALID and B_DIRTY of `flags`; `contents` is `data`.
  pub valid : Bool
  pub dirty : Bool
  pub dev : ℕ
  pub blockno : ℕ
  pub contents : Sector

pub record Bridge (D Sector : Type 0) : Type 0 where
  pub bcache_pool : ℕ → Buf Sector
  pub bcache_inited : Bool
  pub bcache_next_victim : ℕ
  -- ahci_dev != 0
  pub ahci_dev : Bool
  pub disk : D

-- XV6FS_NBUF
abbrev pub nbuf : ℕ
nbuf = 64

module _ {D Sector : Type 0} where
  abbrev pub set_buf : Bridge D Sector → ℕ → Buf Sector → Bridge D Sector
  set_buf s i b = record s { bcache_pool = update s.bcache_pool i b }

  -- `(uint)-1` is 2 ^ 32 - 1.
  pub bcache_init : Bridge D Sector → Bridge D Sector
  bcache_init s =
      let cleared =
        for_loop
          (λ i s. set_buf s i (record (s.bcache_pool i) {
            valid = false;
            dirty = false;
            dev = 2 ^ 32 - 1;
            blockno = 0;
          }))
          0 nbuf s in
      record cleared { bcache_inited = true }

  -- The test of the loop of bcache_get.
  abbrev pub is_block : Bridge D Sector → (dev blockno : ℕ) → ℕ → Bool
  is_block s dev blockno i =
      (s.bcache_pool i).valid
      && (s.bcache_pool i).dev == dev
      && (s.bcache_pool i).blockno == blockno

  module _ (ahci : Ahci D Sector) where
    -- bcache_get where no buffer holds the block. The result of the write is not looked at.
    pub take_victim : Bridge D Sector → (dev blockno : ℕ) → ℕ × Bridge D Sector
    take_victim s dev blockno =
        let i = s.bcache_next_victim in
        let victim = s.bcache_pool i in
        let s1 = record s { bcache_next_victim = (i + 1) % nbuf } in
        let s2 =
          if victim.valid && victim.dirty && s.ahci_dev
          then record s1 {
            disk = (ahci.ahci_write_sectors s1.disk victim.blockno victim.contents).1;
          }
          else s1 in
        (
          i,
          set_buf s2 i
              (record victim { dev = dev; blockno = blockno; valid = false; dirty = false }),
        )

    -- bcache_get after the pool has been cleared.
    pub look_up : Bridge D Sector → (dev blockno : ℕ) → ℕ × Bridge D Sector
    look_up s dev blockno = elim (find_from nbuf 0 (is_block s dev blockno)) [
      | some i ↦ (i, s)
      | none ↦ take_victim s dev blockno
    ]

    pub bcache_get : Bridge D Sector → (dev blockno : ℕ) → ℕ × Bridge D Sector
    bcache_get s dev blockno = look_up (if s.bcache_inited then s else bcache_init s) dev blockno

    -- The read into a buffer that is not valid.
    pub fill : Bridge D Sector → ℕ → ℕ → Option (ℕ × Bridge D Sector)
    fill s i blockno =
        if not s.ahci_dev then none else (elim (ahci.ahci_read_sectors s.disk blockno) [
          | none ↦ none
          | some x ↦ some (
            i,
            set_buf s i (record (s.bcache_pool i) { contents = x; valid = true; dirty = false }),
          )
        ])

    -- bread, from the buffer that bcache_get gave.
    pub read_into : ℕ × Bridge D Sector → ℕ → Option (ℕ × Bridge D Sector)
    read_into (i, s) blockno = if (s.bcache_pool i).valid then some (i, s) else fill s i blockno

    pub bread : Bridge D Sector → (dev blockno : ℕ) → Option (ℕ × Bridge D Sector)
    bread s dev blockno = read_into (bcache_get s dev blockno) blockno

    pub bwrite : Bridge D Sector → ℕ → Option (Bridge D Sector)
    bwrite s i =
        let b = s.bcache_pool i in
        let (ok, after) = ahci.ahci_write_sectors s.disk b.blockno b.contents in
        if not s.ahci_dev
        then some s
        else if not ok
        then none
        else some (record (set_buf s i (record b { dirty = false })) { disk = after })

    pub log_write : Bridge D Sector → ℕ → Option (Bridge D Sector)
    log_write s i = bwrite (set_buf s i (record (s.bcache_pool i) { dirty = true })) i

  pub brelse : Bridge D Sector → ℕ → Bridge D Sector
  brelse s i = s
