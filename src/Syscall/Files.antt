-- ===== src/Syscall/Files.antt =====
-- The calls of kernel/syscall.c on open files: read (0), write (1), close (3), lseek (8), dup (32),
-- dup2 (33). Each gives what goes into regs[14], and the new state.
use notux_kernel.Base.{
  ℕ, ◌+◌, ◌/◌, ◌%◌, ◌^◌, Bool, not, ◌&&◌, ◌||◌, Option, none, some, ◌++◌, length, ltb, leb, ◌==◌,
  if◌then◌else◌, update, find_from,
}
use notux_kernel.Keyboard.{kgetc}
use notux_kernel.Process.{closed}
use notux_kernel.Syscall.{
  FileSystem, Kernel, minus_one, int, ofile, is_open, set_ofile, set_disk, put_bytes, get_bytes,
}

module _ {D : Type 0} (fs : FileSystem D) where
  open fs use {ilock, iunlock, iput, idup, iupdate, size, readi, writei}

  -- The part of read() that takes a character from the keyboard.
  unfoldable pub read_key : Kernel D → ℕ → ℕ × Kernel D
  read_key k buf =
      let (c, kb) = kgetc k.keyboard in
      let k1 = record k { keyboard = kb } in
      if c == 0 then (0, k1) else (1, record k1 { user = update k.user buf c })

  -- The part of read() that reads a file.
  unfoldable pub read_file : Kernel D → ℕ → ℕ → ℕ → ℕ × Kernel D
  read_file k fd buf count =
      let file = ofile k fd in
      let (r, d) = readi (ilock k.disk file.ip) file.ip file.offset (int count) in
      let k1 = set_disk k (iunlock d file.ip) in
      elim r [
        | none ↦ (minus_one, k1)
        | some bytes ↦ (
          length bytes,
          set_ofile (record k1 { user = put_bytes k.user buf bytes }) fd
              (record file { offset = (file.offset + length bytes) % 2 ^ 32 }),
        )
      ]

  unfoldable pub sys_read : Kernel D → ℕ → ℕ → ℕ → ℕ × Kernel D
  sys_read k arg1 buf count =
      let fd = int arg1 in
      if buf == 0 || count == 0
      then (minus_one, k)
      else if fd == 0 && not (is_open k 0)
      then read_key k buf
      else if (fd == 0 || (leb 3 fd && ltb fd 16)) && is_open k fd
      then read_file k fd buf count
      else (minus_one, k)

  abbrev pub may_write : ℕ → Bool
  may_write flags = flags % 2 == 1 || flags / 2 % 2 == 1

  -- O_APPEND writes at the end of the file.
  abbrev pub write_offset : Kernel D → ℕ → ℕ
  write_offset k fd =
      if (ofile k fd).flags / 0x400 % 2 == 1
      then size (ilock k.disk (ofile k fd).ip) (ofile k fd).ip
      else (ofile k fd).offset

  unfoldable pub write_file : Kernel D → ℕ → ℕ → ℕ → ℕ × Kernel D
  write_file k fd buf count =
      let file = ofile k fd in
      if not (may_write file.flags)
      then (minus_one, k)
      else (let off = write_offset k fd in
          let n = int count in
          let (r, d) = writei (ilock k.disk file.ip) file.ip (get_bytes k.user buf n) off n in
          let k1 = set_disk k (iunlock (iupdate d file.ip) file.ip) in
          elim r [
            | none ↦ (minus_one, k1)
            | some written ↦ (
              written,
              if written == 0
                  then k1
                  else set_ofile k1 fd (record file { offset = (off + written) % 2 ^ 32 }),
            )
          ])

  unfoldable pub sys_write : Kernel D → ℕ → ℕ → ℕ → ℕ × Kernel D
  sys_write k arg1 buf count =
      let fd = int arg1 in
      if (fd == 1 || fd == 2) && not (is_open k fd)
      then (if buf == 0
          then (minus_one, k)
          else (count, record k { screen = k.screen ++ get_bytes k.user buf count }))
      else (if (fd == 1 || fd == 2 || (leb 3 fd && ltb fd 16)) && is_open k fd
          then write_file k fd buf count
          else (minus_one, k))

  unfoldable pub sys_close : Kernel D → ℕ → ℕ × Kernel D
  sys_close k arg1 =
      let fd = int arg1 in
      if ltb fd 16 && is_open k fd
      then (0, set_ofile (set_disk k (iput k.disk (ofile k fd).ip)) fd closed)
      else (minus_one, k)

  -- The new offset as a 64-bit pattern, which is negative from 2 ^ 63 on; -1 for another `whence`.
  abbrev pub seek_target : Kernel D → ℕ → ℕ → ℕ → ℕ
  seek_target k fd offset whence =
      if whence == 0
      then offset
      else if whence == 1
      then ((ofile k fd).offset + offset) % 2 ^ 64
      else if whence == 2
      then (size (ilock k.disk (ofile k fd).ip) (ofile k fd).ip + offset) % 2 ^ 64
      else minus_one

  unfoldable pub sys_lseek : Kernel D → ℕ → ℕ → ℕ → ℕ × Kernel D
  sys_lseek k arg1 offset arg3 =
      let fd = int arg1 in
      if leb 3 fd && ltb fd 16 && is_open k fd
      then (let file = ofile k fd in
          let new_offset = seek_target k fd offset (int arg3) in
          let k1 = set_disk k (iunlock (ilock k.disk file.ip) file.ip) in
          if leb (2 ^ 63) new_offset
          then (minus_one, k1)
          else (new_offset, set_ofile k1 fd (record file { offset = new_offset % 2 ^ 32 })))
      else (minus_one, k)

  -- The first free descriptor from 3 on.
  unfoldable pub free_fd : Kernel D → Option ℕ
  free_fd k = find_from 13 3 λ i. (ofile k i).ip == 0

  unfoldable pub sys_dup : Kernel D → ℕ → ℕ × Kernel D
  sys_dup k arg1 =
      let oldfd = int arg1 in
      if leb 3 oldfd && ltb oldfd 16 && is_open k oldfd
      then elim (free_fd k) [
        | some newfd ↦
            (newfd, set_ofile (set_disk k (idup k.disk (ofile k oldfd).ip)) newfd (ofile k oldfd))
        | none ↦ (minus_one, k)
      ]
      else (minus_one, k)

  unfoldable pub sys_dup2 : Kernel D → ℕ → ℕ → ℕ × Kernel D
  sys_dup2 k arg1 arg2 =
      let oldfd = int arg1 in
      let newfd = int arg2 in
      if not (ltb oldfd 16) || not (ltb newfd 16) || not (is_open k oldfd)
      then (minus_one, k)
      else if oldfd == newfd
      then (newfd, k)
      else (let d = if is_open k newfd then iput k.disk (ofile k newfd).ip else k.disk in
          (newfd, set_ofile (set_disk k (idup d (ofile k oldfd).ip)) newfd (ofile k oldfd)))
