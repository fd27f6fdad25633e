-- ===== src/Bridge/Reuse.antt =====
-- The choice of a buffer in kernel/Xjail/xv6/xv6fs_bridge.c, which has no count of who holds a buffer.
use notux_kernel.Base.{
  ℕ, ◌≡◌, ◌≢◌, refl, ap, ◌∙◌, true, false, arith, inl, inr, some, find_from-Searched,
}
use notux_kernel.Bridge.{
  Ahci, Bridge, nbuf, is_block, set_buf, look_up, fill, read_into, bcache_get, bread,
}
use notux_kernel.Bridge.Coherence.{
  IsCoherent, Holds, look_up-hit, look_up-miss, read_into-valid, read_into-invalid, victim_for,
  victim_for-invalid,
}

module _ {D Sector : Type 0} (ahci : Ahci D Sector) (dev : ℕ) where
  bread-read_into :
      (s : Bridge D Sector) (blockno : ℕ)
      → s.bcache_inited ≡ true
      → bread ahci s dev blockno ≡ read_into ahci (look_up ahci s dev blockno) blockno
  unfolding bread bcache_get
  bread-read_into s blockno inited = simp inited refl

  -- A block that the buffer `i` holds is found there.
  bread-held :
      (s : Bridge D Sector) (i : ℕ)
      → IsCoherent ahci dev s
      → s.bcache_inited ≡ true
      → (s.bcache_pool i).valid ≡ true
      → bread ahci s dev (s.bcache_pool i).blockno ≡ some (i, s)
  bread-held s i c inited valid =
      let blockno = (s.bcache_pool i).blockno in
      let lt = c.in_pool i valid in
      let here : is_block s dev blockno i ≡ true = ground (arith, c.one_device i valid) in
      bread-read_into s blockno inited
      ∙ (elim (find_from-Searched nbuf 0 nbuf (is_block s dev blockno) refl) [
        | inl (j, found, below, first) ↦
            let hit = first.passes in
            let e : j ≡ i = c.once j i (ground arith) valid (ground arith) in
            rw (look_up-hit ahci dev s blockno j found, e)
              (read_into-valid ahci dev s blockno i valid)
        | inr (gone, nowhere) ↦ absurd (ground (arith, nowhere i, here))
      ])

  bread-missed :
      (s : Bridge D Sector) (blockno : ℕ) (x : Sector)
      → IsCoherent ahci dev s
      → s.bcache_inited ≡ true
      → ((j : ℕ) → (s.bcache_pool j).valid ≡ true → (s.bcache_pool j).blockno ≢ blockno)
      → ahci.ahci_read_sectors s.disk blockno ≡ some x
      → (s' : Bridge D Sector) × (bread ahci s dev blockno ≡ some (s.bcache_next_victim, s'))
        × Holds s' s.bcache_next_victim blockno x
  unfolding fill victim_for
  bread-missed s blockno x c inited nowhere found =
      elim (find_from-Searched nbuf 0 nbuf (is_block s dev blockno) refl) [
        | inl (j, hit, below, first) ↦ (let h = first.passes in absurd (ground (arith, nowhere j)))
        | inr (gone, none_passes) ↦
            let miss = look_up-miss ahci dev s blockno gone c in
            let empty =
              read_into-invalid ahci dev (victim_for s dev blockno) blockno s.bcache_next_victim
                (victim_for-invalid ahci dev s blockno) in
            let t = victim_for s dev blockno in
            (
              set_buf t s.bcache_next_victim (record (t.bcache_pool s.bcache_next_victim) {
                contents = x;
                valid = true;
                dirty = false;
              }),
              bread-read_into s blockno inited
                  ∙ ap (λ r. read_into ahci r blockno) miss
                  ∙ empty
                  ∙ simp (c.present, found) refl,
              record {
                in_pool = c.victim;
                valid = ground arith;
                block = ground arith;
                contents = ground arith;
              },
            )
      ]

  -- If the buffer that is next to be given up holds a block, bread gives it out for that block without
  -- any note of this: a read of another block, which is in no buffer, then gives the same buffer, with
  -- the other block in it.
  pub bread_reuses_held :
      (s : Bridge D Sector) (blockno : ℕ) (x : Sector)
      → IsCoherent ahci dev s
      → s.bcache_inited ≡ true
      → (s.bcache_pool s.bcache_next_victim).valid ≡ true
      → ((j : ℕ) → (s.bcache_pool j).valid ≡ true → (s.bcache_pool j).blockno ≢ blockno)
      → ahci.ahci_read_sectors s.disk blockno ≡ some x
      → (bread ahci s dev (s.bcache_pool s.bcache_next_victim).blockno
          ≡ some (s.bcache_next_victim, s))
        × ((s' : Bridge D Sector) × (bread ahci s dev blockno ≡ some (s.bcache_next_victim, s'))
            × Holds s' s.bcache_next_victim blockno x)
  bread_reuses_held s blockno x c inited valid nowhere found = (
    bread-held s s.bcache_next_victim c inited valid,
    bread-missed s blockno x c inited nowhere found,
  )
