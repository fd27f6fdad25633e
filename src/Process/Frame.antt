-- ===== src/Process/Frame.antt =====
-- The frame that create_process of kernel/process.c leaves on the kernel stack of a new process.
use notux_kernel.Base.{
  ℕ, ◌+◌, ◌-◌, ◌*◌, ◌%◌, ◌^◌, ◌<◌, ◌≤◌, ◌≡◌, ◌⊎◌, refl, arith, ltb, leb, ◌&&◌, if◌then◌else◌,
  for_loop_inv, sym,
}
use native.Mathlib.Decide.{ℕ_discrete}
use notux_kernel.Machine.{Machine, read, write}
use notux_kernel.Vmm.Words.{read-write_self, read-write_ne}
use notux_kernel.Process.{push_frame}

-- From the top down: what iretq takes for a start at `entry` in user mode, then 15 registers of 0.
pub record Framed (m : Machine) (top user_top entry : ℕ) (m' : Machine) : Type 0 where
  pub ss : read m' (top - 8) ≡ 0x1B
  pub rsp : read m' (top - 16) ≡ user_top
  pub rflags : read m' (top - 24) ≡ 0x202
  pub cs : read m' (top - 32) ≡ 0x23
  pub rip : read m' (top - 40) ≡ entry
  pub registers : (i : ℕ) → i < 15 → read m' (top - 160 + 8 * i) ≡ 0
  -- No other word changes.
  pub rest : (a : ℕ) → a % 8 ≡ 0 → (a + 160 < top) ⊎ (top ≤ a) → read m' a ≡ read m a

-- After `k` rounds of the loop that pushes the registers.
abbrev Zeroed : Machine → (top k : ℕ) → Machine → Type 0
Zeroed m top k m' =
    (b : ℕ)
    → b % 8 ≡ 0
    → read m' b ≡ (if ltb (b + 40) top && leb top (b + 40 + 8 * k) then 0 else read m b)

Zeroed-round :
    (m m' : Machine) (top k : ℕ)
    → top % 8 ≡ 0
    → 160 ≤ top
    → k < 15
    → Zeroed m top k m'
    → Zeroed m top (k + 1) (write m' (top - 48 - 8 * k) 0)
Zeroed-round m m' top k aligned room lt z b hb = elim (ℕ_discrete b (top - 48 - 8 * k)) [
  | yes e ↦ let here = read-write_self m' (top - 48 - 8 * k) 0 (omega arith) in ground (arith, here)
  | no ne ↦
      let there = read-write_ne m' (top - 48 - 8 * k) b 0 (omega arith) hb (λ e. ne (sym e)) in
      ground (arith, there, z b hb)
]

pub push_frame-Framed :
    (m : Machine) (top user_top entry : ℕ)
    → top % 8 ≡ 0
    → 160 ≤ top
    → user_top < 2 ^ 64
    → entry < 2 ^ 64
    → Framed m top user_top entry (push_frame m top user_top entry)
unfolding push_frame
push_frame-Framed m top user_top entry aligned room hu he =
    let m1 = write m (top - 8) 0x1B in
    let m2 = write m1 (top - 16) user_top in
    let m3 = write m2 (top - 24) 0x202 in
    let m4 = write m3 (top - 32) 0x23 in
    let m5 = write m4 (top - 40) entry in
    let z =
      for_loop_inv (λ i m. write m (top - 48 - 8 * i) 0) (Zeroed m5 top) 15 0 15 m5 refl
        (λ k t lo hi. Zeroed-round m5 t top k aligned room hi) (λ b hb. ground arith) in
    let s1 = read-write_self m (top - 8) 0x1B (omega arith) in
    let s2 = read-write_self m1 (top - 16) user_top hu in
    let s3 = read-write_self m2 (top - 24) 0x202 (omega arith) in
    let s4 = read-write_self m3 (top - 32) 0x23 (omega arith) in
    let s5 = read-write_self m4 (top - 40) entry he in
    let k1 = λ (b : ℕ). read-write_ne m (top - 8) b 0x1B (omega arith) in
    let k2 = λ (b : ℕ). read-write_ne m1 (top - 16) b user_top (omega arith) in
    let k3 = λ (b : ℕ). read-write_ne m2 (top - 24) b 0x202 (omega arith) in
    let k4 = λ (b : ℕ). read-write_ne m3 (top - 32) b 0x23 (omega arith) in
    let k5 = λ (b : ℕ). read-write_ne m4 (top - 40) b entry (omega arith) in
    record {
      ss = ground (
        arith,
        z (top - 8) (omega arith),
        s1,
        k2 (top - 8) (omega arith) (omega arith),
        k3 (top - 8) (omega arith) (omega arith),
        k4 (top - 8) (omega arith) (omega arith),
        k5 (top - 8) (omega arith) (omega arith),
      );
      rsp = ground (
        arith,
        z (top - 16) (omega arith),
        s2,
        k3 (top - 16) (omega arith) (omega arith),
        k4 (top - 16) (omega arith) (omega arith),
        k5 (top - 16) (omega arith) (omega arith),
      );
      rflags = ground (
        arith,
        z (top - 24) (omega arith),
        s3,
        k4 (top - 24) (omega arith) (omega arith),
        k5 (top - 24) (omega arith) (omega arith),
      );
      cs =
          ground (arith, z (top - 32) (omega arith), s4, k5 (top - 32) (omega arith) (omega arith));
      rip = ground (arith, z (top - 40) (omega arith), s5);
      registers = λ i lt. ground (arith, z (top - 160 + 8 * i) (omega arith));
      rest = λ a ha far. ground (
        arith,
        z a ha,
        k1 a ha (omega arith),
        k2 a ha (omega arith),
        k3 a ha (omega arith),
        k4 a ha (omega arith),
        k5 a ha (omega arith),
      );
    }
