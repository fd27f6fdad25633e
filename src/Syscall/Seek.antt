-- ===== src/Syscall/Seek.antt =====
-- lseek of kernel/syscall.c: the offset that it stores and the one that it returns.
use notux_kernel.Base.{
  ℕ, zero, suc, ◌+◌, ◌%◌, ◌^◌, ◌<◌, ◌≤◌, ◌≡◌, refl, ◌≢◌, ◌⊎◌, inl, inr, Bool, true, false, arith,
  ltb, leb, Bool-cases,
}
use mathlib.Core.Bool.{◌&&◌}
use native.Mathlib.Decide.{dec_lt}
use notux_kernel.Syscall.{FileSystem, Kernel, minus_one, int, ofile, is_open}
use notux_kernel.Syscall.Files.{sys_lseek, seek_target}

module _ {D : Type 0} (fs : FileSystem D) where
  abbrev pub is_seekable : Kernel D → ℕ → Bool
  is_seekable k fd = leb 3 fd && ltb fd 16 && is_open k fd

  -- Where lseek counts from: SEEK_SET (0) from the start, SEEK_CUR (1) from the offset of the
  -- descriptor, SEEK_END (2) from the size of the file.
  pub data IsOrigin (k : Kernel D) (fd : ℕ) : (whence origin : ℕ) → Type 0 where
    from_start : IsOrigin k fd 0 0
    from_offset : IsOrigin k fd 1 (ofile k fd).offset
    from_size : IsOrigin k fd 2 (fs.size (fs.ilock k.disk (ofile k fd).ip) (ofile k fd).ip)

  -- The call gives -1, and no descriptor changes.
  abbrev pub IsRefused : Kernel D → ℕ × Kernel D → Type 0
  IsRefused k r = (r.0 ≡ minus_one) × ((fd : ℕ) → ofile r.1 fd ≡ ofile k fd)

  -- The call gives the target, and stores its low 32 bits as the offset of the descriptor alone.
  pub record IsMoved (k : Kernel D) (fd target : ℕ) (r : ℕ × Kernel D) : Type 0 where
    pub gives : r.0 ≡ target
    pub stores : (ofile r.1 fd).offset ≡ target % 2 ^ 32
    pub same_file : (ofile r.1 fd).ip ≡ (ofile k fd).ip
    pub others : (j : ℕ) → j ≢ fd → ofile r.1 j ≡ ofile k j

  -- What lseek comes to. The sum of the origin and the offset is one of 64 bits, and negative from 2^63
  -- on.
  pub data Sought (k : Kernel D) (fd offset whence : ℕ) (r : ℕ × Kernel D) : Type 0 where
    bad_fd : is_seekable k fd ≡ false → IsRefused k r → Sought k fd offset whence r
    bad_whence : is_seekable k fd ≡ true → 2 < whence → IsRefused k r → Sought k fd offset whence r
    before_start :
        (origin : ℕ)
        → is_seekable k fd ≡ true
        → IsOrigin k fd whence origin
        → 2 ^ 63 ≤ (origin + offset) % 2 ^ 64
        → IsRefused k r
        → Sought k fd offset whence r
    moves :
        (origin : ℕ)
        → is_seekable k fd ≡ true
        → IsOrigin k fd whence origin
        → (origin + offset) % 2 ^ 64 < 2 ^ 63
        → IsMoved k fd ((origin + offset) % 2 ^ 64) r
        → Sought k fd offset whence r

  -- What the code computes is what is asked for.
  seek_target-IsOrigin :
      (k : Kernel D) (fd offset whence : ℕ)
      → offset < 2 ^ 64
      → ((origin : ℕ) × IsOrigin k fd whence origin
          × (seek_target fs k fd offset whence ≡ (origin + offset) % 2 ^ 64))
        ⊎ ((2 < whence) × (seek_target fs k fd offset whence ≡ minus_one))
  seek_target-IsOrigin k fd offset zero h = inl (0, from_start, omega arith)
  seek_target-IsOrigin k fd offset (suc zero) h = inl ((ofile k fd).offset, from_offset, refl)
  seek_target-IsOrigin k fd offset (suc (suc zero)) h =
      inl (fs.size (fs.ilock k.disk (ofile k fd).ip) (ofile k fd).ip, from_size, refl)
  seek_target-IsOrigin k fd offset (suc (suc (suc w))) h = inr (omega arith, ground arith)

  refuses :
      (k : Kernel D) (arg1 offset arg3 : ℕ)
      → 2 ^ 63 ≤ seek_target fs k (int arg1) offset (int arg3)
      → IsRefused k (sys_lseek fs k arg1 offset arg3)
  unfolding sys_lseek
  refuses k arg1 offset arg3 high =
      let neg : leb (2 ^ 63) (seek_target fs k (int arg1) offset (int arg3)) ≡ true =
        ground arith in
      elim (Bool-cases (is_seekable k (int arg1))) [
        | inr bad ↦ rw bad (refl, λ fd. refl)
        | inl good ↦ rw (good, neg) (refl, λ fd. refl)
      ]

  moved :
      (k : Kernel D) (arg1 offset arg3 : ℕ)
      → is_seekable k (int arg1) ≡ true
      → seek_target fs k (int arg1) offset (int arg3) < 2 ^ 63
      → IsMoved k
          (int arg1)
          (seek_target fs k (int arg1) offset (int arg3))
          (sys_lseek fs k arg1 offset arg3)
  unfolding sys_lseek
  moved k arg1 offset arg3 good small =
      let low : leb (2 ^ 63) (seek_target fs k (int arg1) offset (int arg3)) ≡ false =
        ground arith in
      rw (good, low)
        (record {
          gives = refl;
          stores = ground arith;
          same_file = ground arith;
          others = λ j ne. ground arith;
        })

  bad :
      (k : Kernel D) (arg1 offset arg3 : ℕ)
      → is_seekable k (int arg1) ≡ false
      → IsRefused k (sys_lseek fs k arg1 offset arg3)
  unfolding sys_lseek
  bad k arg1 offset arg3 b = rw b (refl, λ fd. refl)

  -- lseek gives -1 and changes no descriptor if the descriptor is not open or not from 3 to 15, if the
  -- last argument is none of SEEK_SET, SEEK_CUR and SEEK_END, and if the target, which is the
  -- offset from the start, from the old offset or from the size of the file, is negative in 64
  -- bits. Otherwise it gives the target, and stores the low 32 bits of it as the offset of this
  -- descriptor, and changes no other.
  pub sys_lseek_lem :
      (k : Kernel D) (arg1 offset arg3 : ℕ)
      → offset < 2 ^ 64
      → Sought k (int arg1) offset (int arg3) (sys_lseek fs k arg1 offset arg3)
  sys_lseek_lem k arg1 offset arg3 h = elim (Bool-cases (is_seekable k (int arg1))) [
    | inr b ↦ bad_fd b (bad k arg1 offset arg3 b)
    | inl good ↦ elim (seek_target-IsOrigin k (int arg1) offset (int arg3) h) [
      | inr (other, e) ↦ bad_whence good other (refuses k arg1 offset arg3 (omega (arith, e)))
      | inl (origin, o, e) ↦ elim (dec_lt ((origin + offset) % 2 ^ 64) (2 ^ 63)) [
        | yes small ↦
            moves origin good o small
              (rw e at (moved k arg1 offset arg3 good (omega (arith, e, small))))
        | no high ↦
            before_start origin good o (omega (arith, high))
              (refuses k arg1 offset arg3 (omega (arith, e, high)))
      ]
    ]
  ]
