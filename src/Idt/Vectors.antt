-- ===== src/Idt/Vectors.antt =====
-- iinit of kernel/idt.c: where the vectors lead.
use notux_kernel.Base.{
  ℕ, ◌+◌, ◌-◌, ◌*◌, ◌/◌, ◌%◌, ◌^◌, ◌<◌, ◌≤◌, ◌≡◌, refl, arith, ◌==◌, ==_refl, false, for_loop_inv,
}
use native.Mathlib.Decide.{ℕ_discrete}
use notux_kernel.Idt.{Gate, Idt, Routines, iset, routine, iinit}

-- The address that the processor puts together from a gate.
abbrev pub gate_base : Gate → ℕ
gate_base g = g.base_low + g.base_mid * 2 ^ 16 + g.base_high * 2 ^ 32

-- A present interrupt gate of the kernel's code segment, whose fields fit, to this address.
pub record LeadsTo (address : ℕ) (g : Gate) : Type 0 where
  pub base : gate_base g ≡ address
  pub low : g.base_low < 2 ^ 16
  pub mid : g.base_mid < 2 ^ 16
  pub high : g.base_high < 2 ^ 32
  pub sel : g.sel ≡ 0x08
  pub flags : g.flags ≡ 0x8E
  pub ist : g.ist ≡ 0

record Set (r : Routines) (start : Idt) (k : ℕ) (t : Idt) : Type 0 where
  done : (v : ℕ) → v < k → LeadsTo (routine r v) (t.idt v)
  later : (v : ℕ) → k ≤ v → t.idt v ≡ start.idt v

made-LeadsTo :
    (address : ℕ)
    → address < 2 ^ 64
    → LeadsTo address (record {
      base_low = address % 2 ^ 16;
      sel = 0x08;
      ist = 0;
      flags = 0x8E;
      base_mid = address / 2 ^ 16 % 2 ^ 16;
      base_high = address / 2 ^ 32 % 2 ^ 32;
      reserved = 0;
    })
made-LeadsTo address small = record {
  base = omega arith;
  low = omega arith;
  mid = omega arith;
  high = omega arith;
  sel = refl;
  flags = refl;
  ist = refl;
}

iset-Set :
    (r : Routines) (start : Idt) (k : ℕ) (t : Idt)
    → routine r k < 2 ^ 64
    → Set r start k t
    → Set r start (k + 1) (iset t k (routine r k) 0x08 0x8E)
unfolding iset
iset-Set r start k t small s = record {
  done = λ v lt. elim (ℕ_discrete k v) [
    | yes e ↦ rw⁻¹ e (simp (==_refl k) (made-LeadsTo (routine r k) small))
    | no ne ↦ (let other : (k == v) ≡ false = ground arith in simp other (s.done v (omega arith)))
  ];
  later = λ v le. ground (arith, s.later v);
}

-- For routines at 64-bit addresses, after iinit the gate of each vector below 48 leads to its routine,
-- as a present interrupt gate of the kernel, and the other gates are as before.
pub iinit-LeadsTo :
    (r : Routines) (at : ℕ) (t : Idt)
    → ((v : ℕ) → routine r v < 2 ^ 64)
    → ((v : ℕ) → v < 48 → LeadsTo (routine r v) ((iinit r at t).idt v))
      × ((v : ℕ) → 48 ≤ v → (iinit r at t).idt v ≡ t.idt v)
unfolding iinit
iinit-LeadsTo r at t small =
    let start = record t { ip_limit = 16 * 256 - 1; ip_base = at } in
    let s =
      for_loop_inv (λ v t. iset t v (routine r v) 0x08 0x8E) (λ k. Set r start k) 48 0 48 start refl
        (λ k u lo hi. iset-Set r start k u (small k))
        record { done = λ v lt. absurd (omega arith); later = λ v le. refl } in
    (s.done, s.later)
