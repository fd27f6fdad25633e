-- ===== src/Ahci/Examples.antt =====
-- kernel/ahci/onahci.c with a port that finishes a command as soon as PxCI is read.
use notux_kernel.Base.{ℕ, ◌+◌, ◌*◌, ◌≡◌, refl, find_from, true, [], arith}
use notux_kernel.Base.Bits.{test_bit}
use notux_kernel.Ahci.{
  Register, px_is, px_cmd, px_tfd, px_ssts, px_sact, px_ci, Port, Disk, blank, ahci_do_rw,
  ahci_find_free_slot, run_slot, fill_slot, issue, wait_clear, wait_done, read_reg, write_reg,
}
use notux_kernel.Ahci.Issue.{Outcome, ahci_do_rw-Outcome}

-- The state is PxCI.
read_quick : Register → ℕ → ℕ × ℕ
read_quick px_ci d = (d, 0)
read_quick px_is d = (0, d)
read_quick px_cmd d = (0, d)
read_quick px_tfd d = (0, d)
read_quick px_ssts d = (0x113, d)
read_quick px_sact d = (0, d)

write_quick : Register → ℕ → ℕ → ℕ
write_quick px_ci v d = v
write_quick px_is v d = d
write_quick px_cmd v d = d
write_quick px_tfd v d = d
write_quick px_ssts v d = d
write_quick px_sact v d = d

abbrev quick : Port ℕ
quick = record { read = read_quick; write = write_quick }

abbrev idle : Disk ℕ
idle = record {
  dev = 0;
  headers = λ i. record { cfl = 0; w = 0; prdtl = 8; ctba = 4096 * (i + 1); ctbau = 0 };
  tables = λ i. blank;
  writes = [];
}

ahci_do_rw-Outcome_example :
    Outcome quick idle 2048 8 0x200000 true (ahci_do_rw quick idle 2048 8 0x200000 true)
ahci_do_rw-Outcome_example =
    ahci_do_rw-Outcome quick idle 2048 8 0x200000 true (omega arith) (omega arith) (omega arith)
      (omega arith)

-- The call succeeds.
transfer_done : (ahci_do_rw quick idle 2048 8 0x200000 true).0 ≡ true
unfolding ahci_do_rw ahci_find_free_slot run_slot fill_slot issue wait_clear wait_done read_reg
    write_reg find_from test_bit read_quick write_quick
transfer_done = refl
