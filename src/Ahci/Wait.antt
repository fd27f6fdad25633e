-- ===== src/Ahci/Wait.antt =====
-- kernel/ahci/onahci.c: the loops that wait for the device.
use Prim.Native.Nat.{bit_and}
use notux_kernel.Base.{
  ℕ, zero, suc, ◌<◌, ◌≡◌, ◌≢◌, ◌⊎◌, inl, inr, refl, ◌∙◌, arith, Bool, true, false, Bool-cases, ◌==◌,
}
use notux_kernel.Base.Bits.{test_bit}
use notux_kernel.Ahci.{Register, px_ci, px_is, Port, Disk, read_reg, wait_clear, wait_done}

-- Nothing was written, to the memory or to the registers.
pub record Keeps {D : Type 0} (s s' : Disk D) : Type 0 where
  pub headers : s'.headers ≡ s.headers
  pub tables : s'.tables ≡ s.tables
  pub writes : s'.writes ≡ s.writes

pub Keeps-trans : {D : Type 0} {a b c : Disk D} → Keeps a b → Keeps b c → Keeps a c
Keeps-trans x y = record {
  headers = y.headers ∙ x.headers;
  tables = y.tables ∙ x.tables;
  writes = y.writes ∙ x.writes;
}

module _ {D : Type 0} (port : Port D) where
  pub read_reg-Keeps : (r : Register) (s : Disk D) → Keeps s (read_reg port r s).1
  unfolding read_reg
  read_reg-Keeps r s = record { headers = refl; tables = refl; writes = refl }

  pub wait_clear-Keeps :
      (reads : ℕ) (r : Register) (mask : ℕ) (s : Disk D)
      → Keeps s (wait_clear port reads r mask s).1
  unfolding wait_clear
  wait_clear-Keeps zero r mask s = record { headers = refl; tables = refl; writes = refl }
  wait_clear-Keeps (suc reads) r mask s =
      let v = read_reg port r s in
      elim (Bool-cases (bit_and v.0 mask == 0)) [
        | inl clear ↦ rw (wait_clear, clear) (read_reg-Keeps r s)
        | inr set ↦
            rw (wait_clear, set)
              (Keeps-trans (read_reg-Keeps r s) (wait_clear-Keeps reads r mask v.1))
      ]

  -- The answer to read `k` of a row of reads of the register, from 0 on, and the device after it.
  pub nth_read : Register → (k : ℕ) → D → ℕ × D
  nth_read r zero d = port.read r d
  nth_read r (suc k) d = nth_read r k (port.read r d).1

  -- The first of the reads that finds the bits of the mask clear is read `k`, and leaves `d'`.
  pub record IsClearAt (r : Register) (mask reads : ℕ) (d : D) (k : ℕ) (d' : D) : Type 0 where
    pub in_time : k < reads
    pub clear : bit_and (nth_read r k d).0 mask ≡ 0
    pub set_before : (j : ℕ) → j < k → bit_and (nth_read r j d).0 mask ≢ 0
    pub leaves : d' ≡ (nth_read r k d).1

  -- No read finds them clear.
  abbrev pub NeverClear : Register → (mask reads : ℕ) → D → Type 0
  NeverClear r mask reads d = (j : ℕ) → j < reads → bit_and (nth_read r j d).0 mask ≢ 0

  -- A first read, and the reads after it.
  later_reads :
      (r : Register) (mask n : ℕ) (d : D)
      → bit_and (port.read r d).0 mask ≢ 0
      → NeverClear r mask n (port.read r d).1
      → (j : ℕ) → j < suc n
      → bit_and (nth_read r j d).0 mask ≢ 0
  unfolding nth_read
  later_reads r mask n d first later zero lt = first
  later_reads r mask n d first later (suc j) lt = later j (omega arith)

  pub wait_clear-cases :
      (reads : ℕ) (r : Register) (mask : ℕ) (s : Disk D)
      → (((wait_clear port reads r mask s).0 ≡ true)
          × (k : ℕ) × IsClearAt r mask reads s.dev k (wait_clear port reads r mask s).1.dev)
        ⊎ (((wait_clear port reads r mask s).0 ≡ false) × NeverClear r mask reads s.dev)
  unfolding wait_clear read_reg nth_read
  wait_clear-cases zero r mask s = inr (refl, λ j lt. absurd (omega arith))
  wait_clear-cases (suc reads) r mask s =
      let v = read_reg port r s in
      elim (Bool-cases (bit_and v.0 mask == 0)) [
        | inl clear ↦
            rw (wait_clear, clear)
              (inl (
                refl,
                0,
                record {
                  in_time = omega arith;
                  clear = ground arith;
                  set_before = λ j lt. absurd (omega arith);
                  leaves = refl;
                },
              ))
        | inr set ↦
            rw (wait_clear, set)
              (elim (wait_clear-cases reads r mask v.1) [
                | inl (ok, k, c) ↦ inl (
                  ok,
                  suc k,
                  record {
                    in_time = omega (arith, c.in_time);
                    clear = c.clear;
                    set_before = later_reads r mask k s.dev (ground arith) c.set_before;
                    leaves = c.leaves;
                  },
                )
                | inr (bad, never) ↦ inr (bad, later_reads r mask reads s.dev (ground arith) never)
              ])
      ]

  -- The device after `k` rounds that read PxCI and then PxIS.
  pub nth_poll : (k : ℕ) → D → D
  nth_poll zero d = d
  nth_poll (suc k) d = nth_poll k (port.read px_is (port.read px_ci d).1).1

  -- Round `k` finds the bit of the slot still set in PxCI, and no error in PxIS.
  abbrev pub IsPending : (slot : ℕ) → D → (k : ℕ) → Type 0
  IsPending slot d k =
      let ci = port.read px_ci (nth_poll k d) in
      (test_bit ci.0 slot ≡ true) × (test_bit (port.read px_is ci.1).0 30 ≡ false)

  -- How the wait for the command of the slot ends: the first round that is not pending finds the bit clear,
  -- or an error; or all are pending.
  pub data Ends (reads slot : ℕ) (d : D) : (ok : Bool) → Type 0 where
    is_done :
        (k : ℕ)
        → k < reads
        → ((j : ℕ) → j < k → IsPending slot d j)
        → test_bit (port.read px_ci (nth_poll k d)).0 slot ≡ false
        → Ends reads slot d true
    has_error :
        (k : ℕ)
        → k < reads
        → ((j : ℕ) → j < k → IsPending slot d j)
        → test_bit (port.read px_ci (nth_poll k d)).0 slot ≡ true
        → test_bit (port.read px_is (port.read px_ci (nth_poll k d)).1).0 30 ≡ true
        → Ends reads slot d false
    too_late : ((j : ℕ) → j < reads → IsPending slot d j) → Ends reads slot d false

  later_polls :
      (slot n : ℕ) (d : D)
      → IsPending slot d 0
      → ((j : ℕ) → j < n → IsPending slot (port.read px_is (port.read px_ci d).1).1 j)
      → (j : ℕ) → j < suc n
      → IsPending slot d j
  unfolding nth_poll
  later_polls slot n d first later zero lt = first
  later_polls slot n d first later (suc j) lt = later j (omega arith)

  Ends-later :
      (reads slot : ℕ) (d : D) {ok : Bool}
      → IsPending slot d 0
      → Ends reads slot (port.read px_is (port.read px_ci d).1).1 ok
      → Ends (suc reads) slot d ok
  unfolding nth_poll
  Ends-later reads slot d first (is_done k lt before clear) =
      is_done (suc k) (omega arith) (later_polls slot k d first before) clear
  Ends-later reads slot d first (has_error k lt before set error) =
      has_error (suc k) (omega arith) (later_polls slot k d first before) set error
  Ends-later reads slot d first (too_late all) = too_late (later_polls slot reads d first all)

  pub wait_done-Ends :
      (reads slot : ℕ) (s : Disk D)
      → Keeps s (wait_done port reads slot s).1
        × Ends reads slot s.dev (wait_done port reads slot s).0
  unfolding wait_done read_reg nth_poll
  wait_done-Ends zero slot s = (
    record { headers = refl; tables = refl; writes = refl },
    too_late (λ j lt. absurd (omega arith)),
  )
  wait_done-Ends (suc reads) slot s =
      let c = read_reg port px_ci s in
      let e = read_reg port px_is c.1 in
      let both = Keeps-trans (read_reg-Keeps px_ci s) (read_reg-Keeps px_is c.1) in
      elim (Bool-cases (test_bit c.0 slot)) [
        | inr clear ↦
            rw (wait_done, clear)
              (read_reg-Keeps px_ci s, is_done 0 (omega arith) (λ j lt. absurd (omega arith)) clear)
        | inl set ↦ elim (Bool-cases (test_bit e.0 30)) [
          | inl error ↦
              rw (wait_done, set, error)
                (both, has_error 0 (omega arith) (λ j lt. absurd (omega arith)) set error)
          | inr fine ↦
              let later = wait_done-Ends reads slot e.1 in
              rw (wait_done, set, fine)
                (Keeps-trans both later.0, Ends-later reads slot s.dev (set, fine) later.1)
        ]
      ]

  pub IsClearAt-start :
      {r : Register} {mask reads k : ℕ} {d e d' : D}
      → d ≡ e
      → IsClearAt r mask reads d k d'
      → IsClearAt r mask reads e k d'
  IsClearAt-start same c = rw same at c

  pub NeverClear-start :
      (r : Register) (mask : ℕ) {reads : ℕ} {d e : D}
      → d ≡ e
      → NeverClear r mask reads d
      → NeverClear r mask reads e
  NeverClear-start r mask same c = rw same at c
