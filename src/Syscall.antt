-- ===== src/Syscall.antt =====
-- kernel/syscall.c: the state that the system calls work on, and the file system under them.
pub mod Files
pub mod Open
pub mod Memory
pub mod Exec
pub mod Handler
pub mod Fds
pub mod Seek
pub mod Wait
pub mod Brk
pub mod Others
mod Examples
use notux_kernel.Base.{
  ℕ, zero, suc, ◌+◌, ◌-◌, ◌*◌, ◌%◌, ◌^◌, ◌<◌, Bool, true, false, Option, none, some, List, [], ◌∷◌,
  ◌++◌, ltb, leb, ◌==◌, if◌then◌else◌, update,
}
use notux_kernel.Machine.{Machine}
use notux_kernel.Keyboard.{Keyboard}
use notux_kernel.Ramfs.{Ramfs}
use notux_kernel.Process.{Table, Process, Stacks, OFile, get_current_process, set_process}

-- User memory at virtual addresses, byte by byte.
abbrev pub Memory : Type 0
Memory = ℕ → ℕ

-- The calls that syscall.c makes of the file system, over the state `D` of that layer (inode cache,
-- buffers, disk, working directory). An inode pointer is its address, 0 for NULL. Paths are addresses
-- of text in user memory. A panic of that layer halts the kernel, and is not a value here.
pub record FileSystem (D : Type 0) : Type 0 where
  pub namei : D → Memory → ℕ → ℕ × D
  pub ilock : D → ℕ → D
  pub iunlock : D → ℕ → D
  pub iput : D → ℕ → D
  pub idup : D → ℕ → D
  pub iupdate : D → ℕ → D
  -- The fields `size` and `type` of an inode, and the assignment `ip->size = 0`.
  pub size : D → ℕ → ℕ
  pub type_of : D → ℕ → ℕ
  pub truncate : D → ℕ → D
  -- The bytes that were read, or none for -1.
  pub readi : D → ℕ → (off n : ℕ) → Option (List ℕ) × D
  -- How many of the bytes were written, or none for -1.
  pub writei : D → ℕ → List ℕ → (off n : ℕ) → Option ℕ × D
  pub xv6fs_create : D → Memory → ℕ → (type major minor : ℕ) → ℕ × D
  -- true for 0, false for -1
  pub xv6fs_unlink : D → Memory → ℕ → Bool × D
  pub xv6fs_bridge_set_cwd : D → ℕ → D

pub record Kernel (D : Type 0) : Type 0 where
  pub table : Table
  pub machine : Machine
  pub keyboard : Keyboard
  pub disk : D
  pub user : Memory
  -- What write() has sent to the screen, oldest first, and the words of the frame buffer.
  pub screen : List ℕ
  pub frame_buffer : ℕ → ℕ
  pub vbeaddr : ℕ
  -- The static arrays of syscall.c, by index.
  pub argv_scratch : ℕ → ℕ
  pub argv_ptrs : ℕ → ℕ
  pub elf_load_buffer : ℕ → ℕ
  pub ramfs : Ramfs

-- Where the linker puts static arrays.
pub record Layout : Type 0 where
  pub stacks : Stacks
  pub argv_scratch_at : ℕ
  pub argv_ptrs_at : ℕ

-- `(uint64_t)-1`
abbrev pub minus_one : ℕ
minus_one = 2 ^ 64 - 1

-- `(int)arg`, as the pattern of its 32 bits: a negative number is 2 ^ 31 or more.
abbrev pub int : ℕ → ℕ
int arg = arg % 2 ^ 32

module _ {D : Type 0} where
  abbrev pub current : Kernel D → Process
  current k = get_current_process k.table

  abbrev pub ofile : Kernel D → ℕ → OFile
  ofile k fd = (current k).ofiles fd

  abbrev pub is_open : Kernel D → ℕ → Bool
  is_open k fd = if (ofile k fd).ip == 0 then false else true

  abbrev pub set_current : Kernel D → Process → Kernel D
  set_current k p = record k { table = set_process k.table k.table.current_process_idx p }

  abbrev pub set_ofile : Kernel D → ℕ → OFile → Kernel D
  set_ofile k fd file =
      set_current k (record (current k) { ofiles = update (current k).ofiles fd file })

  abbrev pub set_disk : Kernel D → D → Kernel D
  set_disk k d = record k { disk = d }

-- `dst[0..]` after the bytes are put there.
pub put_bytes : Memory → ℕ → List ℕ → Memory
put_bytes mem dst [] = mem
put_bytes mem dst (b ∷ bs) = put_bytes (update mem dst b) (dst + 1) bs

-- The `n` bytes from `src` on.
pub get_bytes : Memory → ℕ → ℕ → List ℕ
get_bytes mem src zero = []
get_bytes mem src (suc n) = mem src ∷ get_bytes mem (src + 1) n
