-- ===== src/Bridge/Refine.antt =====
-- The buffers of kernel/Xjail/xv6/xv6fs_bridge.c, used as kernel/xv6fs/fs.c uses them, against a disk
-- that is read and written directly.
use notux_kernel.Base.{
  ℕ, ◌≡◌, ◌≢◌, refl, sym, ap, ◌∙◌, true, false, arith, if◌then◌else◌, Bool-cases, Option-cases, inl,
  inr, ◌⊎◌, Option, none, some, List, [], ◌∷◌, ◌>>=◌,
}
use native.Mathlib.Decide.{ℕ_discrete}
use notux_kernel.Bridge.{Ahci, Bridge, set_buf, bread, bwrite, log_write}
use notux_kernel.Bridge.Coherence.{IsDisk, IsCoherent, Holds, bread-Fetched}

-- What the file system does with a block: read it, or read it, change it and call log_write.
pub data Call (Sector : Type 0) : Type 0 where
  get : ℕ → Call Sector
  change : ℕ → (Sector → Sector) → Call Sector

module _ {D Sector : Type 0} (ahci : Ahci D Sector) where
  -- `bp->data` is set, then log_write(bp).
  pub edit : Bridge D Sector → ℕ → Sector → Option (Bridge D Sector)
  edit s i x = log_write ahci (set_buf s i (record (s.bcache_pool i) { contents = x })) i

  cached : ℕ → Call Sector → Bridge D Sector → Option (Sector × Bridge D Sector)
  cached dev (get blockno) s = do
    (i, s1) ← bread ahci s dev blockno
    some ((s1.bcache_pool i).contents, s1)
  cached dev (change blockno f) s = do
    (i, s1) ← bread ahci s dev blockno
    s2 ← edit s1 i (f (s1.bcache_pool i).contents)
    some (f (s1.bcache_pool i).contents, s2)

  direct : Call Sector → D → Option (Sector × D)
  direct (get blockno) d = do x ← ahci.ahci_read_sectors d blockno; some (x, d)
  direct (change blockno f) d = do
    x ← ahci.ahci_read_sectors d blockno
    if (ahci.ahci_write_sectors d blockno (f x)).0
        then some (f x, (ahci.ahci_write_sectors d blockno (f x)).1)
        else none

  -- The answers of a list of calls, and the state after them; none if the kernel halts on the way.
  pub run_cached : ℕ → List (Call Sector) → Bridge D Sector → Option (List Sector × Bridge D Sector)
  run_cached dev [] s = some ([], s)
  run_cached dev (c ∷ calls) s = do
    (x, s1) ← cached dev c s
    (xs, s2) ← run_cached dev calls s1
    some (x ∷ xs, s2)

  pub run_direct : List (Call Sector) → D → Option (List Sector × D)
  run_direct [] d = some ([], d)
  run_direct (c ∷ calls) d = do
    (x, d1) ← direct c d
    (xs, d2) ← run_direct calls d1
    some (x ∷ xs, d2)

  -- The disk under the buffers.
  pub seen : Option (List Sector × Bridge D Sector) → Option (List Sector × D)
  seen none = none
  seen (some (xs, s)) = some (xs, s.disk)

  module _ (disk : IsDisk ahci) (dev : ℕ) where
    -- The state that edit leaves when the write succeeds.
    abbrev edited : Bridge D Sector → ℕ → Sector → Bridge D Sector
    edited s i x =
        let s1 = set_buf s i (record (s.bcache_pool i) { contents = x }) in
        let s2 = set_buf s1 i (record (s1.bcache_pool i) { dirty = true }) in
        record (set_buf s2 i (record (s2.bcache_pool i) { dirty = false })) {
          disk =
              (ahci.ahci_write_sectors s2.disk (s2.bcache_pool i).blockno
                (s2.bcache_pool i).contents).1;
        }

    edited-IsCoherent :
        (s : Bridge D Sector) (i blockno : ℕ) (y x : Sector)
        → IsCoherent ahci dev s
        → Holds s i blockno y
        → ((ahci.ahci_write_sectors s.disk blockno x).0 ≡ true)
        → IsCoherent ahci dev (edited s i x)
    edited-IsCoherent s i blockno y x c h ok =
        let same = disk.same s.disk blockno x ok in
        let block = h.block in
        record {
          present = c.present;
          victim = c.victim;
          one_device = λ j v. ground (arith, c.one_device j, h.valid);
          clean = λ j v. ground (arith, c.clean j);
          holds = λ j v. elim (ℕ_discrete i j) [
            | yes e ↦ ground (arith, same, block)
            | no ne ↦
                let kept : (s.bcache_pool j).valid ≡ true = ground arith in
                let apart : blockno ≢ (s.bcache_pool j).blockno =
                  λ e. ne (c.once i j h.valid kept (block ∙ e)) in
                ground (
                  arith,
                  c.holds j kept,
                  disk.other s.disk blockno (s.bcache_pool j).blockno x ok apart,
                  block,
                )
          ];
          once = λ j k v w e. ground (arith, c.once j k, c.once i j, c.once i k, h.valid);
          in_pool = λ j v. ground (arith, c.in_pool j, h.valid);
        }

    edit-written :
        (s : Bridge D Sector) (i blockno : ℕ) (y x : Sector)
        → IsCoherent ahci dev s
        → Holds s i blockno y
        → ((ahci.ahci_write_sectors s.disk blockno x).0 ≡ true)
        → (edit s i x ≡ some (edited s i x))
          × ((edited s i x).disk ≡ (ahci.ahci_write_sectors s.disk blockno x).1)
    unfolding edit log_write bwrite
    edit-written s i blockno y x c h ok =
        (ground (arith, c.present, h.block, ok), ground (arith, h.block))

    edit-halts :
        (s : Bridge D Sector) (i blockno : ℕ) (y x : Sector)
        → IsCoherent ahci dev s
        → Holds s i blockno y
        → ((ahci.ahci_write_sectors s.disk blockno x).0 ≡ false)
        → edit s i x ≡ none
    unfolding edit log_write bwrite
    edit-halts s i blockno y x c h bad = ground (arith, c.present, h.block, bad)

    edit-IsCoherent :
        (s : Bridge D Sector) (i blockno : ℕ) (y x : Sector)
        → IsCoherent ahci dev s
        → Holds s i blockno y
        → ((ahci.ahci_write_sectors s.disk blockno x).0 ≡ true)
        → (t : Bridge D Sector) × (edit s i x ≡ some t)
          × IsCoherent ahci dev t
          × (t.disk ≡ (ahci.ahci_write_sectors s.disk blockno x).1)
    edit-IsCoherent s i blockno y x c h ok =
        let now = edit-written s i blockno y x c h ok in
        (edited s i x, now.0, edited-IsCoherent s i blockno y x c h ok, now.1)

    -- One call on both sides: both halt, or the answers and the disks are the same.
    Agrees : ℕ → Call Sector → Bridge D Sector → Type 0
    Agrees dev call s =
        ((direct call s.disk ≡ none) × (cached dev call s ≡ none))
        ⊎ ((x : Sector) × (s' : Bridge D Sector) × (direct call s.disk ≡ some (x, s'.disk))
            × (cached dev call s ≡ some (x, s'))
            × IsCoherent ahci dev s')

    cached-Agrees :
        (call : Call Sector) (s : Bridge D Sector) → IsCoherent ahci dev s → Agrees dev call s
    unfolding Agrees direct cached
    cached-Agrees (get blockno) s c = elim (bread-Fetched ahci dev s blockno c) [
      | inl (gone, halts) ↦ inl (rw gone refl, rw halts refl)
      | inr (x, i, s', found, value, c', h, kept) ↦
          inr (x, s', rw (found, kept) refl, rw value (ap (λ y. some (y, s')) h.contents), c')
    ]
    cached-Agrees (change blockno f) s c = elim (bread-Fetched ahci dev s blockno c) [
      | inl (gone, halts) ↦ inl (rw gone refl, rw halts refl)
      | inr (x, i, s', found, value, c', h, kept) ↦
          let found' : ahci.ahci_read_sectors s'.disk blockno ≡ some x =
            ap (λ d. ahci.ahci_read_sectors d blockno) kept ∙ found in
          let same' : s.disk ≡ s'.disk = sym kept in
          elim (Bool-cases (ahci.ahci_write_sectors s'.disk blockno (f x)).0) [
            | inl ok ↦
                let (t, edit_value, after, written) =
                  edit-IsCoherent s' i blockno x (f x) c' h ok in
                inr (
                  f x,
                  t,
                  rw (same', found', ok) (ap (λ d. some (f x, d)) (sym written)),
                  rw (value, h.contents, edit_value) refl,
                  after,
                )
            | inr bad ↦ inl (
              rw (same', found', bad) refl,
              rw (value, h.contents, edit-halts s' i blockno x (f x) c' h bad) refl,
            )
          ]
    ]

    chain :
        (x : Sector) (s' : Bridge D Sector) (calls : List (Call Sector))
        → seen (run_cached dev calls s') ≡ run_direct calls s'.disk
        → seen (run_cached dev calls s' >>= (λ r. some (x ∷ r.0, r.1)))
          ≡ (run_direct calls s'.disk >>= (λ r. some (x ∷ r.0, r.1)))
    unfolding seen
    chain x s' calls same = rw⁻¹ same (elim (Option-cases (run_cached dev calls s')) [
      | inl halts ↦ rw halts refl
      | inr (r, value) ↦ rw value refl
    ])

    -- For buffers that hold what the disk has, and a disk whose sectors are apart, any list of reads and
    -- changes gives the same answers through bread and log_write as on the disk itself, leaves the same
    -- disk, and halts in the same cases.
    pub run_cached-run_direct :
        (calls : List (Call Sector)) (s : Bridge D Sector)
        → IsCoherent ahci dev s
        → seen (run_cached dev calls s) ≡ run_direct calls s.disk
    unfolding seen run_cached run_direct Agrees
    run_cached-run_direct [] s c = refl
    run_cached-run_direct (call ∷ calls) s c = elim (cached-Agrees call s c) [
      | inl (halts, halts') ↦ rw (halts, halts') refl
      | inr (x, s', value, value', c') ↦
          rw (value, value') (chain x s' calls (run_cached-run_direct calls s' c'))
    ]
