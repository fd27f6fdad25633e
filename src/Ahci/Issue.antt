-- ===== src/Ahci/Issue.antt =====
-- kernel/ahci/onahci.c: what a transfer does to the slots and the registers of the port.
use Prim.Native.Nat.{bit_or}
use notux_kernel.Base.{
  ℕ, ◌+◌, ◌*◌, ◌^◌, ◌<◌, ◌≤◌, ◌≡◌, ◌≢◌, ◌⊎◌, inl, inr, refl, ap, ◌∙◌, arith, Bool, true, false, not,
  List, ◌∷◌, ◌==◌, if◌then◌else◌, ==_refl, find_from-Searched,
}
use notux_kernel.Base.Bits.{test_bit}
use notux_kernel.Ahci.{
  Register, px_sact, px_ci, px_tfd, Port, CommandTable, Disk, command_table, read_reg, write_reg,
  wait_clear, fill_slot, run_slot, issue, ahci_find_free_slot, ahci_do_rw, ahci_io_timeout,
}
use notux_kernel.Ahci.Wait.{
  Keeps, Keeps-trans, read_reg-Keeps, wait_clear-Keeps, IsClearAt, NeverClear, wait_clear-cases,
  Ends, wait_done-Ends, IsClearAt-start, NeverClear-start,
}

-- The transfer that the device reads out of a table.
pub record Requests (t : CommandTable) (lba sectors buf : ℕ) (write : Bool) : Type 0 where
  pub place :
      t.cfis.lba0
        + 2 ^ 8 * t.cfis.lba1
        + 2 ^ 16 * t.cfis.lba2
        + 2 ^ 24 * t.cfis.lba3
        + 2 ^ 32 * t.cfis.lba4
        + 2 ^ 40 * t.cfis.lba5
      ≡ lba
  pub count : t.cfis.count ≡ sectors
  -- A register frame with a command, in LBA mode.
  pub frame : (t.cfis.fis_type ≡ 0x27) × (t.cfis.c ≡ 1) × (t.cfis.device ≡ 64)
  -- One interrupt, when it is done.
  pub interrupt : t.i ≡ 1
  pub command : t.cfis.command ≡ (if write then 0x35 else 0x25)
  pub buffer : t.dba + 2 ^ 32 * t.dbau ≡ buf
  pub bytes : t.dbc + 1 ≡ 512 * sectors

command_table-Requests :
    (lba count buf : ℕ) (write : Bool)
    → lba < 2 ^ 48
    → 1 ≤ count
    → count ≤ 8192
    → buf < 2 ^ 64
    → Requests (command_table lba count buf write) lba count buf write
unfolding command_table
command_table-Requests lba count buf write hl some_sector few hb = record {
  place = omega (arith, hl);
  count = omega (arith, few);
  frame = (refl, refl, refl);
  interrupt = refl;
  command = refl;
  buffer = omega (arith, hb);
  bytes = omega (arith, some_sector, few);
}

module _ {D : Type 0} (port : Port D) where
  -- The device after PxCI was read and written back with the bit of the slot.
  abbrev pub commanded : D → (slot : ℕ) → D
  commanded d slot = let ci = port.read px_ci d in port.write px_ci (bit_or ci.0 (2 ^ slot)) ci.1

  -- The device stays busy and nothing is written; or the first read of PxTFD that finds it neither busy
  -- nor asking for data leaves it as `d'`, and then the bit of the slot is added to what PxCI reads.
  abbrev pub Written :
      D → (writes : List (Register × ℕ)) → (slot : ℕ) → (ok : Bool) → Disk D → Type 0
  Written d writes slot ok s' =
      (NeverClear port px_tfd 0x88 (ahci_io_timeout + 1) d × (s'.writes ≡ writes) × (ok ≡ false))
      ⊎ ((k : ℕ) × (d' : D) × IsClearAt port px_tfd 0x88 (ahci_io_timeout + 1) d k d'
          × (s'.writes ≡ (px_ci, bit_or (port.read px_ci d').0 (2 ^ slot)) ∷ writes)
          × Ends port (ahci_io_timeout + 1) slot (commanded d' slot) ok)

  -- What is left after a transfer that took the slot, from the state `s` on.
  pub record Transfers (s : Disk D) (slot lba count buf : ℕ) (write : Bool) (ok : Bool)
      (s' : Disk D) : Type 0 where
    pub table : Requests (s'.tables slot) lba count buf write
    pub direction : (s'.headers slot).w ≡ (if write then 1 else 0)
    pub length_of_frame : (s'.headers slot).cfl ≡ 5
    pub one_entry : (s'.headers slot).prdtl ≡ 1
    pub header_place :
        ((s'.headers slot).ctba ≡ (s.headers slot).ctba)
        × ((s'.headers slot).ctbau ≡ (s.headers slot).ctbau)
    pub others : (j : ℕ) → j ≢ slot → (s'.headers j ≡ s.headers j) × (s'.tables j ≡ s.tables j)
    -- The device is waited for, after PxSACT and PxCI have been read for the slot.
    pub written : Written (port.read px_ci (port.read px_sact s.dev).1).1 s.writes slot ok s'

  -- PxSACT or PxCI, as they are read first, say that the slot is in use.
  abbrev pub is_busy : Disk D → (slot : ℕ) → Bool
  is_busy s slot =
      let sact = port.read px_sact s.dev in test_bit (bit_or sact.0 (port.read px_ci sact.1).0) slot

  -- The two ways that a transfer can go: there is no slot, and nothing is written; or it takes the first
  -- slot that is free.
  abbrev pub Outcome : Disk D → (lba count buf : ℕ) → Bool → Bool × Disk D → Type 0
  Outcome s lba count buf write r =
      ((r.0 ≡ false) × Keeps s r.1 × ((j : ℕ) → j < 32 → is_busy s j ≡ true))
      ⊎ ((slot : ℕ) × (slot < 32)
          × (is_busy s slot ≡ false)
          × ((j : ℕ) → j < slot → is_busy s j ≡ true)
          × Transfers s slot lba count buf write r.0 r.1)

  -- The registers after the command, when the device has answered.
  issue-written :
      (s : Disk D) (slot : ℕ)
      → ((issue port s slot).1.headers ≡ s.headers)
        × ((issue port s slot).1.tables ≡ s.tables)
        × ((issue port s slot).1.writes
            ≡ (px_ci, bit_or (port.read px_ci s.dev).0 (2 ^ slot)) ∷ s.writes)
        × Ends port (ahci_io_timeout + 1) slot (commanded s.dev slot) (issue port s slot).0
  unfolding issue write_reg read_reg
  issue-written s slot =
      let c = read_reg port px_ci s in
      let k = read_reg-Keeps port px_ci s in
      let w =
        wait_done-Ends port (ahci_io_timeout + 1) slot
          (write_reg port px_ci (bit_or c.0 (2 ^ slot)) c.1) in
      (
        w.0.headers ∙ k.headers,
        w.0.tables ∙ k.tables,
        w.0.writes ∙ ap (λ l. (px_ci, bit_or c.0 (2 ^ slot)) ∷ l) k.writes,
        w.1,
      )

  -- A slot that is filled, as the rest of the transfer leaves it.
  filled-Transfers :
      (s s1 s2 : Disk D) (slot lba count buf : ℕ) (write ok : Bool)
      → Keeps s s1
      → Requests (command_table lba count buf write) lba count buf write
      → s2.headers ≡ (fill_slot port s1 slot lba count buf write).headers
      → s2.tables ≡ (fill_slot port s1 slot lba count buf write).tables
      → Written (port.read px_ci (port.read px_sact s.dev).1).1 s.writes slot ok s2
      → Transfers s slot lba count buf write ok s2
  unfolding fill_slot
  filled-Transfers s s1 s2 slot lba count buf write ok keeps req headers tables written =
      let self : (slot == slot) ≡ true = ==_refl slot in
      record {
        table = rw (tables, self) req;
        direction = rw (headers, self) refl;
        length_of_frame = rw (headers, self) refl;
        one_entry = rw (headers, self) refl;
        header_place = rw (headers, self, keeps.headers) (refl, refl);
        others = λ j ne.
            (let other : (slot == j) ≡ false = ground arith in
              rw (headers, tables, other, keeps.headers, keeps.tables) (refl, refl));
        written = written;
      }

  fill_slot-writes :
      (s s1 : Disk D) (slot lba count buf : ℕ) (write : Bool)
      → Keeps s s1
      → (fill_slot port s1 slot lba count buf write).writes ≡ s.writes
  unfolding fill_slot
  fill_slot-writes s s1 slot lba count buf write keeps = keeps.writes

  fill_slot-dev :
      (s : Disk D) (slot lba count buf : ℕ) (write : Bool)
      → (fill_slot port s slot lba count buf write).dev ≡ s.dev
  unfolding fill_slot
  fill_slot-dev s slot lba count buf write = refl

  run_slot-Transfers :
      (s s1 : Disk D) (slot lba count buf : ℕ) (write : Bool)
      → Keeps s s1
      → s1.dev ≡ (port.read px_ci (port.read px_sact s.dev).1).1
      → Requests (command_table lba count buf write) lba count buf write
      → (let r = run_slot port s1 slot lba count buf write in
          Transfers s slot lba count buf write r.0 r.1)
  unfolding run_slot
  run_slot-Transfers s s1 slot lba count buf write keeps dev req =
      let f = fill_slot port s1 slot lba count buf write in
      let w = wait_clear port (ahci_io_timeout + 1) px_tfd (2 ^ 3 + 2 ^ 7) f in
      let k = wait_clear-Keeps port (ahci_io_timeout + 1) px_tfd (2 ^ 3 + 2 ^ 7) f in
      let before : f.writes ≡ s.writes = fill_slot-writes s s1 slot lba count buf write keeps in
      let same : f.dev ≡ (port.read px_ci (port.read px_sact s.dev).1).1 =
        fill_slot-dev s1 slot lba count buf write ∙ dev in
      elim (wait_clear-cases port (ahci_io_timeout + 1) px_tfd (2 ^ 3 + 2 ^ 7) f) [
        | inl (ready, n, clear) ↦
            let i = issue-written w.1 slot in
            rw ready (
              filled-Transfers s s1 (issue port w.1 slot).1 slot lba count buf write
                (issue port w.1 slot).0 keeps req (i.0 ∙ k.headers) (i.1 ∙ k.tables)
                (inr (
                  n,
                  w.1.dev,
                  IsClearAt-start port same clear,
                  i.2
                      ∙ ap (λ l. (px_ci, bit_or (port.read px_ci w.1.dev).0 (2 ^ slot)) ∷ l)
                          (k.writes ∙ before),
                  i.3,
                )))
        | inr (busy, never) ↦ rw busy (
            filled-Transfers s s1 w.1 slot lba count buf write false keeps req k.headers k.tables
              (inl (NeverClear-start port px_tfd 0x88 same never, k.writes ∙ before, refl)))
      ]

  -- A transfer of 1 to 8192 sectors below sector 2^48 fails without a write when all slots are in use.
  -- Otherwise it takes the first free one: its header and table ask the device for this transfer, and no
  -- other slot changes. If none of the reads of PxTFD finds bits 3 and 7 clear, nothing is written to the
  -- registers and the call fails; else PxCI is written once, after the first read that does, with the
  -- bit of the slot added to what is read. Then the call succeeds if a read of PxCI finds that bit
  -- clear, before a read of PxIS finds bit 30 set and within the reads that there is time for, and
  -- fails otherwise.
  pub ahci_do_rw-Outcome :
      (s : Disk D) (lba count buf : ℕ) (write : Bool)
      → lba < 2 ^ 48
      → 1 ≤ count
      → count ≤ 8192
      → buf < 2 ^ 64
      → Outcome s lba count buf write (ahci_do_rw port s lba count buf write)
  unfolding ahci_do_rw ahci_find_free_slot read_reg
  ahci_do_rw-Outcome s lba count buf write hl some_sector few hb =
      let a = read_reg port px_sact s in
      let b = read_reg port px_ci a.1 in
      let both = Keeps-trans (read_reg-Keeps port px_sact s) (read_reg-Keeps port px_ci a.1) in
      elim (find_from-Searched 32 0 32 (λ i. not (test_bit (bit_or a.0 b.0) i)) (omega arith)) [
        | inr (nothing, busy) ↦
            rw (ahci_do_rw, nothing)
              (inl (refl, both, λ j lj. ground (arith, busy j (omega arith) lj)))
        | inl (slot, found, low, first) ↦
            rw (ahci_do_rw, found)
              (inr (
                slot,
                low,
                ground (arith, first.passes),
                λ j lj. ground (arith, first.before j (omega arith) lj),
                run_slot-Transfers s b.1 slot lba count buf write both refl
                    (command_table-Requests lba count buf write hl some_sector few hb),
              ))
      ]
