-- ===== src/Bridge/Coherence.antt =====
-- The buffers of kernel/Xjail/xv6/xv6fs_bridge.c against the disk: what bread and log_write keep.
use notux_kernel.Base.{
  ℕ, ◌+◌, ◌-◌, ◌%◌, ◌^◌, ◌<◌, ◌≡◌, ◌≢◌, refl, sym, ap, ◌∙◌, true, false, ◌&&◌, arith, if◌then◌else◌,
  for_loop_inv, Bool-cases, Option-cases, inl, inr, ◌⊎◌, Option, none, some, find_from,
  find_from-Searched,
}
use notux_kernel.Bridge.{
  Ahci, Buf, Bridge, nbuf, set_buf, bcache_init, is_block, take_victim, look_up, bcache_get, fill,
  read_into, bread,
}

module _ {D Sector : Type 0} where
  -- What the disk is relied on for: a write that succeeds is read back, and leaves the other sectors.
  pub record IsDisk (ahci : Ahci D Sector) : Type 0 where
    pub same :
        (d : D) (a : ℕ) (x : Sector)
        → (ahci.ahci_write_sectors d a x).0 ≡ true
        → ahci.ahci_read_sectors (ahci.ahci_write_sectors d a x).1 a ≡ some x
    pub other :
        (d : D) (a b : ℕ) (x : Sector)
        → (ahci.ahci_write_sectors d a x).0 ≡ true
        → a ≢ b
        → ahci.ahci_read_sectors (ahci.ahci_write_sectors d a x).1 b ≡ ahci.ahci_read_sectors d b

  -- The disk is there, every valid buffer holds what the disk has, and no block is held twice.
  pub record IsCoherent (ahci : Ahci D Sector) (dev : ℕ) (s : Bridge D Sector) : Type 0 where
    pub present : s.ahci_dev ≡ true
    pub victim : s.bcache_next_victim < nbuf
    pub one_device : (i : ℕ) → (s.bcache_pool i).valid ≡ true → (s.bcache_pool i).dev ≡ dev
    pub clean : (i : ℕ) → (s.bcache_pool i).valid ≡ true → (s.bcache_pool i).dirty ≡ false
    pub holds :
        (i : ℕ)
        → (s.bcache_pool i).valid ≡ true
        → ahci.ahci_read_sectors s.disk (s.bcache_pool i).blockno ≡ some (s.bcache_pool i).contents
    pub once :
        (i j : ℕ)
        → (s.bcache_pool i).valid ≡ true
        → (s.bcache_pool j).valid ≡ true
        → (s.bcache_pool i).blockno ≡ (s.bcache_pool j).blockno
        → i ≡ j
    pub in_pool : (i : ℕ) → (s.bcache_pool i).valid ≡ true → i < nbuf

  -- The buffer `i` holds the block, with these contents.
  pub record Holds (s : Bridge D Sector) (i blockno : ℕ) (x : Sector) : Type 0 where
    pub in_pool : i < nbuf
    pub valid : (s.bcache_pool i).valid ≡ true
    pub block : (s.bcache_pool i).blockno ≡ blockno
    pub contents : (s.bcache_pool i).contents ≡ x

  -- The pool is cleared before its first use.
  started : Bridge D Sector → Bridge D Sector
  started s = if s.bcache_inited then s else bcache_init s

  -- The next victim, given up for a block. No write is needed.
  unfoldable pub victim_for : Bridge D Sector → (dev blockno : ℕ) → Bridge D Sector
  victim_for s dev blockno =
      let i = s.bcache_next_victim in
      set_buf (record s { bcache_next_victim = (i + 1) % nbuf }) i
        (record (s.bcache_pool i) { dev = dev; blockno = blockno; valid = false; dirty = false })

  -- What a read of a block comes to: it halts, or some buffer holds the block as the disk has it.
  abbrev pub Fetched :
      Ahci D Sector → ℕ → Bridge D Sector → ℕ → Option (ℕ × Bridge D Sector) → Type 0
  Fetched ahci dev s blockno r =
      ((ahci.ahci_read_sectors s.disk blockno ≡ none) × (r ≡ none))
      ⊎ ((x : Sector) × (i : ℕ) × (s' : Bridge D Sector) × (ahci.ahci_read_sectors s.disk blockno
            ≡ some x)
          × (r ≡ some (i, s'))
          × IsCoherent ahci dev s'
          × Holds s' i blockno x
          × (s'.disk ≡ s.disk))

  module _ (ahci : Ahci D Sector) (dev : ℕ) where
    -- A buffer given up.
    drop :
        (s : Bridge D Sector) (i : ℕ) (b : Buf Sector)
        → b.valid ≡ false
        → IsCoherent ahci dev s
        → IsCoherent ahci dev (set_buf s i b)
    drop s i b gone c = record {
      present = c.present;
      victim = c.victim;
      one_device = λ j v. ground (arith, c.one_device j);
      clean = λ j v. ground (arith, c.clean j);
      holds = λ j v. ground (arith, c.holds j);
      once = λ j k v w e. ground (arith, c.once j k);
      in_pool = λ j v. ground (arith, c.in_pool j);
    }

    bcache_init-IsCoherent :
        (s : Bridge D Sector)
        → IsCoherent ahci dev s
        → IsCoherent ahci dev (bcache_init s) × ((bcache_init s).disk ≡ s.disk)
    unfolding bcache_init
    bcache_init-IsCoherent s c =
        let kept =
          for_loop_inv
            (λ i (s : Bridge D Sector). set_buf s i (record (s.bcache_pool i) {
              valid = false;
              dirty = false;
              dev = 2 ^ 32 - 1;
              blockno = 0;
            }))
            (λ k (t : Bridge D Sector). IsCoherent ahci dev t × (t.disk ≡ s.disk)) nbuf 0 nbuf s
            refl (λ k t lo hi (before, same). (drop t k _ refl before, same)) (c, refl) in
        (
          record {
            present = kept.0.present;
            victim = kept.0.victim;
            one_device = kept.0.one_device;
            clean = kept.0.clean;
            holds = kept.0.holds;
            once = kept.0.once;
            in_pool = kept.0.in_pool;
          },
          kept.1,
        )

    started-IsCoherent :
        (s : Bridge D Sector)
        → IsCoherent ahci dev s
        → IsCoherent ahci dev (started s) × ((started s).disk ≡ s.disk)
    unfolding started
    started-IsCoherent s c = elim (Bool-cases s.bcache_inited) [
      | inl done ↦ simp done (c, refl)
      | inr fresh ↦ simp fresh (bcache_init-IsCoherent s c)
    ]

    -- A buffer that was given up takes the contents of a block that no buffer holds.
    load :
        (s : Bridge D Sector) (i : ℕ) (x : Sector)
        → i < nbuf
        → (s.bcache_pool i).dev ≡ dev
        → ahci.ahci_read_sectors s.disk (s.bcache_pool i).blockno ≡ some x
        → ((j : ℕ)
            → (s.bcache_pool j).valid ≡ true
            → (s.bcache_pool j).blockno ≢ (s.bcache_pool i).blockno)
        → IsCoherent ahci dev s
        → IsCoherent ahci dev
            (set_buf s i (record (s.bcache_pool i) { contents = x; valid = true; dirty = false }))
    load s i x lt here found nowhere c = record {
      present = c.present;
      victim = c.victim;
      one_device = λ j v. ground (arith, c.one_device j);
      clean = λ j v. ground (arith, c.clean j);
      holds = λ j v. ground (arith, c.holds j);
      once = λ j k v w e. ground (arith, c.once j k, nowhere j, nowhere k);
      in_pool = λ j v. ground (arith, c.in_pool j);
    }

    take_victim-clean :
        (s : Bridge D Sector) (blockno : ℕ)
        → IsCoherent ahci dev s
        → take_victim ahci s dev blockno ≡ (s.bcache_next_victim, victim_for s dev blockno)
    unfolding take_victim victim_for
    take_victim-clean s blockno c =
        let none_dirty : ((s.bcache_pool s.bcache_next_victim).valid
              && (s.bcache_pool s.bcache_next_victim).dirty
              && s.ahci_dev)
            ≡ false =
          ground (arith, c.clean s.bcache_next_victim) in
        rw none_dirty refl

    victim_for-IsCoherent :
        (s : Bridge D Sector) (blockno : ℕ)
        → IsCoherent ahci dev s
        → IsCoherent ahci dev (victim_for s dev blockno)
    unfolding victim_for
    victim_for-IsCoherent s blockno c =
        let moved : IsCoherent ahci dev
            (record s { bcache_next_victim = (s.bcache_next_victim + 1) % nbuf }) =
          record {
            present = c.present;
            victim = omega arith;
            one_device = c.one_device;
            clean = c.clean;
            holds = c.holds;
            once = c.once;
            in_pool = c.in_pool;
          } in
        drop (record s { bcache_next_victim = (s.bcache_next_victim + 1) % nbuf })
          s.bcache_next_victim _ refl moved

    miss-Fetched :
        (s : Bridge D Sector) (blockno : ℕ)
        → ((j : ℕ) → j < nbuf → is_block s dev blockno j ≡ false)
        → IsCoherent ahci dev s
        → Fetched ahci dev s blockno
            (fill ahci (victim_for s dev blockno) s.bcache_next_victim blockno)
    unfolding fill victim_for
    miss-Fetched s blockno nowhere c = elim (Option-cases (ahci.ahci_read_sectors s.disk blockno)) [
      | inl gone ↦ inl (gone, rw (c.present, gone) refl)
      | inr (x, found) ↦
          let t = victim_for s dev blockno in
          let after = victim_for-IsCoherent s blockno c in
          let apart : (j : ℕ)
              → (t.bcache_pool j).valid ≡ true
              → (t.bcache_pool j).blockno ≢ (t.bcache_pool s.bcache_next_victim).blockno =
            λ j v. ground (arith, nowhere j, c.one_device j, c.in_pool j) in
          inr (
            x,
            s.bcache_next_victim,
            _,
            found,
            simp (c.present, found) refl,
            load t s.bcache_next_victim x c.victim (ground arith) (ground (arith, found)) apart
                after,
            record {
              in_pool = c.victim;
              valid = ground arith;
              block = ground arith;
              contents = ground arith;
            },
            refl,
          )
    ]

    hit-Fetched :
        (s : Bridge D Sector) (blockno i : ℕ)
        → is_block s dev blockno i ≡ true
        → IsCoherent ahci dev s
        → Fetched ahci dev s blockno (some (i, s))
    hit-Fetched s blockno i hit c =
        let valid : (s.bcache_pool i).valid ≡ true = ground arith in
        let block : (s.bcache_pool i).blockno ≡ blockno = ground arith in
        inr (
          (s.bcache_pool i).contents,
          i,
          s,
          (rw⁻¹ block (c.holds i valid)),
          refl,
          c,
          record { in_pool = c.in_pool i valid; valid = valid; block = block; contents = refl },
          refl,
        )

    pub read_into-valid :
        (s : Bridge D Sector) (blockno i : ℕ)
        → (s.bcache_pool i).valid ≡ true
        → read_into ahci (i, s) blockno ≡ some (i, s)
    unfolding read_into
    read_into-valid s blockno i valid = simp valid refl

    pub read_into-invalid :
        (s : Bridge D Sector) (blockno i : ℕ)
        → (s.bcache_pool i).valid ≡ false
        → read_into ahci (i, s) blockno ≡ fill ahci s i blockno
    unfolding read_into
    read_into-invalid s blockno i given_up = simp given_up refl

    pub victim_for-invalid :
        (s : Bridge D Sector) (blockno : ℕ)
        → ((victim_for s dev blockno).bcache_pool s.bcache_next_victim).valid ≡ false
    unfolding victim_for
    victim_for-invalid s blockno = ground arith

    pub look_up-hit :
        (s : Bridge D Sector) (blockno i : ℕ)
        → find_from nbuf 0 (is_block s dev blockno) ≡ some i
        → look_up ahci s dev blockno ≡ (i, s)
    unfolding look_up
    look_up-hit s blockno i found = rw (found, look_up) refl

    pub look_up-miss :
        (s : Bridge D Sector) (blockno : ℕ)
        → find_from nbuf 0 (is_block s dev blockno) ≡ none
        → IsCoherent ahci dev s
        → look_up ahci s dev blockno ≡ (s.bcache_next_victim, victim_for s dev blockno)
    unfolding look_up
    look_up-miss s blockno gone c = rw (gone, look_up) (take_victim-clean s blockno c)

    look_up-Fetched :
        (s : Bridge D Sector) (blockno : ℕ)
        → IsCoherent ahci dev s
        → Fetched ahci dev s blockno (read_into ahci (look_up ahci s dev blockno) blockno)
    look_up-Fetched s blockno c =
        elim (find_from-Searched nbuf 0 nbuf (is_block s dev blockno) refl) [
          | inl (i, found, below, first) ↦
              let valid : (s.bcache_pool i).valid ≡ true = (let h = first.passes in ground arith) in
              let value : read_into ahci (i, s) blockno ≡ some (i, s) =
                read_into-valid s blockno i valid in
              rw (look_up-hit s blockno i found, value) (hit-Fetched s blockno i first.passes c)
          | inr (gone, nowhere) ↦
              let given_up = victim_for-invalid s blockno in
              let value : read_into ahci (s.bcache_next_victim, victim_for s dev blockno) blockno
                  ≡ fill ahci (victim_for s dev blockno) s.bcache_next_victim blockno =
                read_into-invalid (victim_for s dev blockno) blockno s.bcache_next_victim
                  given_up in
              rw (look_up-miss s blockno gone c, value)
                (miss-Fetched s blockno (λ j. nowhere j (omega arith)) c)
        ]

    Fetched-from :
        (s t : Bridge D Sector) (blockno : ℕ) (r : Option (ℕ × Bridge D Sector))
        → t.disk ≡ s.disk
        → Fetched ahci dev t blockno r
        → Fetched ahci dev s blockno r
    Fetched-from s t blockno r same f = elim f [
      | inl (gone, halts) ↦
          inl (ap (λ d. ahci.ahci_read_sectors d blockno) (sym same) ∙ gone, halts)
      | inr (x, i, s', found, value, c, h, kept) ↦ inr (
        x,
        i,
        s',
        ap (λ d. ahci.ahci_read_sectors d blockno) (sym same) ∙ found,
        value,
        c,
        h,
        kept ∙ same,
      )
    ]

    pub bread-Fetched :
        (s : Bridge D Sector) (blockno : ℕ)
        → IsCoherent ahci dev s
        → Fetched ahci dev s blockno (bread ahci s dev blockno)
    unfolding bread bcache_get started
    bread-Fetched s blockno c =
        let ready = started-IsCoherent s c in
        Fetched-from s (started s) blockno _ ready.1 (look_up-Fetched (started s) blockno ready.0)
