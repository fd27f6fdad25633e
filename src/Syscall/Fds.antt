-- ===== src/Syscall/Fds.antt =====
-- dup, dup2 and close of kernel/syscall.c: the descriptor table, and the reference counts of the inodes
-- that it holds.
use notux_kernel.Base.{
  ℕ, zero, suc, ◌+◌, ◌<◌, ◌≤◌, ◌≡◌, ◌≢◌, ◌⊎◌, inl, inr, true, false, arith, ltb, leb, ◌==◌,
  if◌then◌else◌, update, find_from-Searched, Bool-cases,
}
use mathlib.Core.Bool.{not, ◌&&◌, ◌||◌}
use notux_kernel.Process.{OFile, closed}
use notux_kernel.Syscall.{
  FileSystem, Kernel, minus_one, int, current, ofile, is_open, set_ofile, set_disk,
}
use notux_kernel.Syscall.Files.{sys_close, sys_dup, sys_dup2, free_fd}

-- How many of the first `n` descriptors hold the inode `ip`.
unfoldable pub held_below : ℕ → (ℕ → OFile) → ℕ → ℕ
held_below zero files ip = 0
held_below (suc n) files ip = held_below n files ip + (if (files n).ip == ip then 1 else 0)

pub held_below-update :
    (n : ℕ) (files : ℕ → OFile) (fd : ℕ) (file : OFile) (ip : ℕ)
    → held_below n (update files fd file) ip + (if ltb fd n && (files fd).ip == ip then 1 else 0)
      ≡ held_below n files ip + (if ltb fd n && file.ip == ip then 1 else 0)
unfolding held_below
held_below-update zero files fd file ip = ground arith
held_below-update (suc n) files fd file ip = ground (arith, held_below-update n files fd file ip)

module _ {D : Type 0} (fs : FileSystem D) where
  -- What idup and iput do to the reference counts, and to nothing else that counts.
  pub record Counts (refs : D → ℕ → ℕ) : Type 0 where
    pub idup_self : (d : D) (ip : ℕ) → refs (fs.idup d ip) ip ≡ refs d ip + 1
    pub idup_other : (d : D) (ip j : ℕ) → ip ≢ j → refs (fs.idup d ip) j ≡ refs d j
    pub iput_self : (d : D) (ip : ℕ) → 0 < refs d ip → refs (fs.iput d ip) ip + 1 ≡ refs d ip
    pub iput_other : (d : D) (ip j : ℕ) → ip ≢ j → refs (fs.iput d ip) j ≡ refs d j

  abbrev pub held : Kernel D → ℕ → ℕ
  held k ip = held_below 16 (current k).ofiles ip

  -- Every inode has a reference for each descriptor of the current process that holds it, besides
  -- those that it has from elsewhere.
  abbrev pub IsCounted : (D → ℕ → ℕ) → (ℕ → ℕ) → Kernel D → Type 0
  IsCounted refs elsewhere k = (ip : ℕ) → ip ≢ 0 → refs k.disk ip ≡ held k ip + elsewhere ip

  module _ {refs : D → ℕ → ℕ} (c : Counts refs) where
    ref-idup : (d : D) (ip j : ℕ) → refs (fs.idup d ip) j ≡ refs d j + (if ip == j then 1 else 0)
    ref-idup d ip j = ground (arith, c.idup_self d ip, c.idup_other d ip j)

    ref-iput :
        (d : D) (ip j : ℕ)
        → 0 < refs d ip
        → refs (fs.iput d ip) j + (if ip == j then 1 else 0) ≡ refs d j
    ref-iput d ip j h = ground (arith, c.iput_self d ip, c.iput_other d ip j)

    held-set_ofile :
        (k : Kernel D) (fd : ℕ) (file : OFile) (ip : ℕ)
        → fd < 16
        → held (set_ofile k fd file) ip + (if (ofile k fd).ip == ip then 1 else 0)
          ≡ held k ip + (if file.ip == ip then 1 else 0)
    held-set_ofile k fd file ip h =
        ground (arith, held_below-update 16 (current k).ofiles fd file ip)

    held-pos : (k : Kernel D) (fd ip : ℕ) → fd < 16 → (ofile k fd).ip ≡ ip → ip ≢ 0 → 0 < held k ip
    held-pos k fd ip h e ne = ground (arith, held-set_ofile k fd closed ip h)

    module _ (elsewhere : ℕ → ℕ) (k : Kernel D) (counted : IsCounted refs elsewhere k) where
      close-IsCounted :
          (fd : ℕ)
          → fd < 16
          → is_open k fd ≡ true
          → IsCounted refs elsewhere
              (set_ofile (set_disk k (fs.iput k.disk (ofile k fd).ip)) fd closed)
      close-IsCounted fd h o ip ne =
          let held_ip = (ofile k fd).ip in
          let pos : 0 < refs k.disk held_ip =
            ground (arith, held-pos k fd held_ip h, counted held_ip) in
          ground (
            arith,
            held-set_ofile (set_disk k (fs.iput k.disk held_ip)) fd closed ip h,
            ref-iput k.disk held_ip ip pos,
            counted ip ne,
          )

      dup-IsCounted :
          (old new : ℕ)
          → new < 16
          → (ofile k new).ip ≡ 0
          → IsCounted refs elsewhere
              (set_ofile (set_disk k (fs.idup k.disk (ofile k old).ip)) new (ofile k old))
      dup-IsCounted old new h free ip ne =
          let dup_ip = (ofile k old).ip in
          ground (
            arith,
            held-set_ofile (set_disk k (fs.idup k.disk dup_ip)) new (ofile k old) ip h,
            ref-idup k.disk dup_ip ip,
            counted ip ne,
          )

      replace-IsCounted :
          (old new : ℕ)
          → new < 16
          → is_open k new ≡ true
          → IsCounted refs elsewhere (
              set_ofile
                (set_disk k (fs.idup (fs.iput k.disk (ofile k new).ip) (ofile k old).ip))
                new
                (ofile k old))
      replace-IsCounted old new h o ip ne =
          let gone = (ofile k new).ip in
          let dup_ip = (ofile k old).ip in
          let pos : 0 < refs k.disk gone = ground (arith, held-pos k new gone h, counted gone) in
          ground (
            arith,
            held-set_ofile (set_disk k (fs.idup (fs.iput k.disk gone) dup_ip)) new (ofile k old) ip
                h,
            ref-idup (fs.iput k.disk gone) dup_ip ip,
            ref-iput k.disk gone ip pos,
            counted ip ne,
          )

      sys_close-IsCounted : (arg1 : ℕ) → IsCounted refs elsewhere (sys_close fs k arg1).1
      unfolding sys_close
      sys_close-IsCounted arg1 = elim (Bool-cases (ltb (int arg1) 16 && is_open k (int arg1))) [
        | inl e ↦ rw e (close-IsCounted (int arg1) (ground arith) (ground arith))
        | inr e ↦ rw e counted
      ]

      sys_dup2-IsCounted : (arg1 arg2 : ℕ) → IsCounted refs elsewhere (sys_dup2 fs k arg1 arg2).1
      unfolding sys_dup2
      sys_dup2-IsCounted arg1 arg2 =
          let old = int arg1 in
          let new = int arg2 in
          elim (Bool-cases (not (ltb old 16) || not (ltb new 16) || not (is_open k old))) [
            | inl bad ↦ rw bad counted
            | inr good ↦ elim (Bool-cases (old == new)) [
              | inl same ↦ rw (good, same) counted
              | inr other ↦ elim (Bool-cases (is_open k new)) [
                | inl busy ↦ rw (good, other, busy) (replace-IsCounted old new (ground arith) busy)
                | inr free ↦
                    rw (good, other, free) (dup-IsCounted old new (ground arith) (ground arith))
              ]
            ]
          ]

      sys_dup-IsCounted : (arg1 : ℕ) → IsCounted refs elsewhere (sys_dup fs k arg1).1
      unfolding sys_dup free_fd
      sys_dup-IsCounted arg1 =
          elim (Bool-cases (leb 3 (int arg1) && ltb (int arg1) 16 && is_open k (int arg1))) [
            | inr bad ↦ rw bad counted
            | inl good ↦
                elim (find_from-Searched 13 3 16 (λ i. (ofile k i).ip == 0) (omega arith)) [
                  | inl (fd, e, lt, first) ↦
                      rw (good, e, free_fd)
                        (dup-IsCounted (int arg1) fd lt (ground (arith, first.passes)))
                  | inr (e, full) ↦ rw (good, e, free_fd) counted
                ]
          ]

      -- close, dup and dup2 keep the reference counts right, on every branch: each inode keeps exactly one
      -- reference for each descriptor of the caller that holds it, besides those from elsewhere.
      pub fd_calls-IsCounted :
          (arg1 arg2 : ℕ)
          → IsCounted refs elsewhere (sys_close fs k arg1).1
            × IsCounted refs elsewhere (sys_dup fs k arg1).1
            × IsCounted refs elsewhere (sys_dup2 fs k arg1 arg2).1
      fd_calls-IsCounted arg1 arg2 =
          (sys_close-IsCounted arg1, sys_dup-IsCounted arg1, sys_dup2-IsCounted arg1 arg2)

  -- dup2 on an open descriptor, with both in range, makes the second stand for the same open file as
  -- the first, returns it and leaves every other descriptor as it is; otherwise it returns -1 and
  -- changes nothing.
  pub sys_dup2_lem :
      (k : Kernel D) (arg1 arg2 : ℕ)
      → (((ltb (int arg1) 16 && ltb (int arg2) 16 && is_open k (int arg1)) ≡ true)
          × ((sys_dup2 fs k arg1 arg2).0 ≡ int arg2)
          × ((fd : ℕ)
              → ofile (sys_dup2 fs k arg1 arg2).1 fd
                ≡ (if int arg2 == fd then ofile k (int arg1) else ofile k fd)))
        ⊎ (((ltb (int arg1) 16 && ltb (int arg2) 16 && is_open k (int arg1)) ≡ false)
            × (sys_dup2 fs k arg1 arg2 ≡ (minus_one, k)))
  unfolding sys_dup2
  sys_dup2_lem k arg1 arg2 =
      let old = int arg1 in
      let new = int arg2 in
      elim (Bool-cases (ltb old 16 && ltb new 16 && is_open k old)) [
        | inl good ↦ inl (good, ground arith, λ fd. ground arith)
        | inr bad ↦ inr (bad, ground arith)
      ]

  -- What dup comes to.
  pub data Dup (k : Kernel D) (old : ℕ) : ℕ × Kernel D → Type 0 where
    refused : (ltb 2 old && ltb old 16 && is_open k old) ≡ false → Dup k old (minus_one, k)
    none_free : ((fd : ℕ) → 3 ≤ fd → fd < 16 → is_open k fd ≡ true) → Dup k old (minus_one, k)
    copied :
        {new : ℕ} {k' : Kernel D}
        → 3 ≤ new
        → new < 16
        → is_open k old ≡ true
        → is_open k new ≡ false
        → ((fd : ℕ) → 3 ≤ fd → fd < new → is_open k fd ≡ true)
        → ((fd : ℕ) → ofile k' fd ≡ (if new == fd then ofile k old else ofile k fd))
        → Dup k old (new, k')
