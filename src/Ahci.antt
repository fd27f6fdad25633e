-- ===== src/Ahci.antt =====
-- kernel/ahci/onahci.c: the commands that it gives to a port of the disk controller. The registers of the
-- port are a parameter: a read gives a value and may find the device in a later state.
pub mod Wait
pub mod Issue
mod Examples
use notux_kernel.Base.{
  ℕ, zero, suc, ◌+◌, ◌-◌, ◌*◌, ◌/◌, ◌%◌, ◌^◌, Bool, true, false, not, ◌&&◌, ◌||◌, Option, some,
  none, List, [], ◌∷◌, ◌==◌, if◌then◌else◌, update, find_from,
}
use Prim.Native.Nat.{bit_or, bit_and}
use notux_kernel.Base.Bits.{test_bit}

pub data Register : Type 0 where
  px_is : Register
  px_cmd : Register
  px_tfd : Register
  px_ssts : Register
  px_sact : Register
  px_ci : Register

pub record Port (D : Type 0) : Type 0 where
  pub read : Register → D → ℕ × D
  pub write : Register → ℕ → D → D

abbrev pub ahci_io_timeout : ℕ
ahci_io_timeout = 50000000

pub record CommandHeader : Type 0 where
  pub cfl : ℕ
  pub w : ℕ
  pub prdtl : ℕ
  pub ctba : ℕ
  pub ctbau : ℕ

pub record Fis : Type 0 where
  pub fis_type : ℕ
  pub c : ℕ
  pub command : ℕ
  pub lba0 : ℕ
  pub lba1 : ℕ
  pub lba2 : ℕ
  pub lba3 : ℕ
  pub lba4 : ℕ
  pub lba5 : ℕ
  pub device : ℕ
  pub count : ℕ

-- The FIS and the first entry of the PRDT; the rest of the table is zero.
pub record CommandTable : Type 0 where
  pub cfis : Fis
  pub dba : ℕ
  pub dbau : ℕ
  pub dbc : ℕ
  pub i : ℕ

-- What k_memset leaves of a table.
abbrev pub blank : CommandTable
blank = record {
  cfis = record {
    fis_type = 0;
    c = 0;
    command = 0;
    lba0 = 0;
    lba1 = 0;
    lba2 = 0;
    lba3 = 0;
    lba4 = 0;
    lba5 = 0;
    device = 0;
    count = 0;
  };
  dba = 0;
  dbau = 0;
  dbc = 0;
  i = 0;
}

-- The port, the headers and tables of its 32 slots, and what was written to its registers, the last first.
pub record Disk (D : Type 0) : Type 0 where
  pub dev : D
  pub headers : ℕ → CommandHeader
  pub tables : ℕ → CommandTable
  pub writes : List (Register × ℕ)

-- The table of a transfer.
unfoldable pub command_table : (lba count buf : ℕ) → (write : Bool) → CommandTable
command_table lba count buf write = record blank {
  cfis = record {
    fis_type = 0x27;
    c = 1;
    command = if write then 0x35 else 0x25;
    lba0 = lba % 256;
    lba1 = lba / 2 ^ 8 % 256;
    lba2 = lba / 2 ^ 16 % 256;
    lba3 = lba / 2 ^ 24 % 256;
    lba4 = lba / 2 ^ 32 % 256;
    lba5 = lba / 2 ^ 40 % 256;
    device = 2 ^ 6;
    count = count % 2 ^ 16;
  };
  dba = buf % 2 ^ 32;
  dbau = buf / 2 ^ 32 % 2 ^ 32;
  dbc = (count * 512 + 2 ^ 32 - 1) % 2 ^ 22;
  i = 1;
}

module _ {D : Type 0} (port : Port D) where
  unfoldable pub read_reg : Register → Disk D → ℕ × Disk D
  read_reg r s = let (v, dev) = port.read r s.dev in (v, record s { dev = dev })

  unfoldable pub write_reg : Register → ℕ → Disk D → Disk D
  write_reg r v s = record s { dev = port.write r v s.dev; writes = (r, v) ∷ s.writes }

  -- `while (port->r & mask) if (++spins > AHCI_IO_TIMEOUT) return -1;`, on the reads that are left.
  unfoldable pub wait_clear : (reads : ℕ) → Register → (mask : ℕ) → Disk D → Bool × Disk D
  wait_clear zero r mask s = (false, s)
  wait_clear (suc reads) r mask s =
      let (v, s1) = read_reg r s in
      elim (bit_and v mask == 0) [ true ↦ (true, s1) | false ↦ wait_clear reads r mask s1 ]

  unfoldable pub ahci_port_is_present : Disk D → Bool × Disk D
  ahci_port_is_present s =
      let (ssts, s1) = read_reg px_ssts s in (ssts % 16 == 3 && ssts / 2 ^ 8 % 16 == 1, s1)

  unfoldable pub ahci_port_stop : Disk D → Bool × Disk D
  ahci_port_stop s =
      let (cmd, s1) = read_reg px_cmd s in
      let s2 = write_reg px_cmd (bit_and cmd (2 ^ 32 - 1 - 2 ^ 0)) s1 in
      let (cmd', s3) = read_reg px_cmd s2 in
      let s4 = write_reg px_cmd (bit_and cmd' (2 ^ 32 - 1 - 2 ^ 4)) s3 in
      wait_clear (ahci_io_timeout + 1) px_cmd (2 ^ 14 + 2 ^ 15) s4

  unfoldable pub ahci_port_start : Disk D → Bool × Disk D
  ahci_port_start s =
      let (clear, s1) = wait_clear (ahci_io_timeout + 1) px_cmd (2 ^ 15) s in
      if clear
      then (let (cmd, s2) = read_reg px_cmd s1 in
          let s3 = write_reg px_cmd (bit_or cmd (2 ^ 4)) s2 in
          let (cmd', s4) = read_reg px_cmd s3 in (true, write_reg px_cmd (bit_or cmd' (2 ^ 0)) s4))
      else (false, s1)

  unfoldable pub ahci_find_free_slot : Disk D → Option ℕ × Disk D
  ahci_find_free_slot s =
      let (sact, s1) = read_reg px_sact s in
      let (ci, s2) = read_reg px_ci s1 in
      (find_from 32 0 (λ i. not (test_bit (bit_or sact ci) i)), s2)

  -- `while (port->ci & (1u << slot))`, with the test for an error of the device.
  unfoldable pub wait_done : (reads slot : ℕ) → Disk D → Bool × Disk D
  wait_done zero slot s = (false, s)
  wait_done (suc reads) slot s =
      let (ci, s1) = read_reg px_ci s in
      elim (test_bit ci slot) [
        | false ↦ (true, s1)
        | true ↦
            let (is, s2) = read_reg px_is s1 in
            elim (test_bit is 30) [ true ↦ (false, s2) | false ↦ wait_done reads slot s2 ]
      ]

  -- The header and the table of the slot, filled in.
  unfoldable pub fill_slot : Disk D → (slot lba count buf : ℕ) → (write : Bool) → Disk D
  fill_slot s slot lba count buf write = record s {
    headers =
        update s.headers slot
          (record (s.headers slot) { cfl = 5; w = if write then 1 else 0; prdtl = 1 });
    tables = update s.tables slot (command_table lba count buf write);
  }

  -- From `port->ci |= (1u << slot)` on.
  unfoldable pub issue : Disk D → (slot : ℕ) → Bool × Disk D
  issue s slot =
      let (ci, s1) = read_reg px_ci s in
      wait_done (ahci_io_timeout + 1) slot (write_reg px_ci (bit_or ci (2 ^ slot)) s1)

  -- The transfer, once its slot is found.
  unfoldable pub run_slot : Disk D → (slot lba count buf : ℕ) → (write : Bool) → Bool × Disk D
  run_slot s slot lba count buf write =
      let (ready, s1) =
        wait_clear (ahci_io_timeout + 1) px_tfd (2 ^ 3 + 2 ^ 7)
          (fill_slot s slot lba count buf write) in
      if ready then issue s1 slot else (false, s1)

  unfoldable pub ahci_do_rw : Disk D → (lba count buf : ℕ) → (write : Bool) → Bool × Disk D
  ahci_do_rw s lba count buf write =
      let (free, s1) = ahci_find_free_slot s in
      elim free [ none ↦ (false, s1) | some slot ↦ run_slot s1 slot lba count buf write ]

  abbrev pub ahci_read_sectors : Disk D → (lba count buf : ℕ) → Bool × Disk D
  ahci_read_sectors s lba count buf = ahci_do_rw s lba count buf false

  abbrev pub ahci_write_sectors : Disk D → (lba count buf : ℕ) → Bool × Disk D
  ahci_write_sectors s lba count buf = ahci_do_rw s lba count buf true
