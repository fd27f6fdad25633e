-- ===== src/Ramfs/Lookup.antt =====
-- streq and ramfs_open of kernel/ramfs.c: the comparison of names, and the search for a file.
use notux_kernel.Base.{
  ℕ, zero, suc, ◌+◌, ◌<◌, ◌≤◌, ◌≡◌, ◌≢◌, inl, inr, true, false, not, ◌&&◌, Option, none, some,
  arith, ◌==◌, find_from-Searched, Bool-cases,
}
use notux_kernel.Ramfs.{Ramfs, ramfs_magic, entry_at, streq, ramfs_open}

-- A C string of `len` bytes stands at `b`.
pub record IsString (t : ℕ → ℕ) (b len : ℕ) : Type 0 where
  pub body : (j : ℕ) → j < len → t (b + j) ≢ 0
  pub ends : t (b + len) ≡ 0

-- The bytes from `a` on are those of the string, with its end.
abbrev pub Spells : (ℕ → ℕ) → ℕ → (ℕ → ℕ) → ℕ → ℕ → Type 0
Spells s a t b len = (j : ℕ) → j ≤ len → s (a + j) ≡ t (b + j)

tail : {t : ℕ → ℕ} {b len : ℕ} → IsString t b (suc len) → IsString t (b + 1) len
tail {t} {b} {len} h = record {
  body = λ j lt. ground (arith, h.body (j + 1));
  ends = ground (arith, h.ends);
}

-- With more bytes allowed than the string has, the comparison says true of the same string only.
streq_sound :
    (limit len : ℕ) (s : ℕ → ℕ) (a : ℕ) (t : ℕ → ℕ) (b : ℕ)
    → IsString t b len
    → len < limit
    → streq limit s a t b ≡ true
    → Spells s a t b len
unfolding streq
streq_sound zero len s a t b h lt e j le = absurd (omega arith)
streq_sound (suc limit) zero s a t b h lt e j le = ground (arith, h.ends, e)
streq_sound (suc limit) (suc len) s a t b h lt e zero le = ground (arith, h.body 0, e)
streq_sound (suc limit) (suc len) s a t b h lt e (suc j) le =
    let more : streq limit s (a + 1) t (b + 1) ≡ true = ground (arith, h.body 0, e) in
    ground
      (arith, streq_sound limit len s (a + 1) t (b + 1) (tail h) (omega arith) more j (omega arith))

streq_complete :
    (limit len : ℕ) (s : ℕ → ℕ) (a : ℕ) (t : ℕ → ℕ) (b : ℕ)
    → IsString t b len
    → len < limit
    → Spells s a t b len
    → streq limit s a t b ≡ true
unfolding streq
streq_complete zero len s a t b h lt same = absurd (omega arith)
streq_complete (suc limit) zero s a t b h lt same = ground (arith, h.ends, same 0)
streq_complete (suc limit) (suc len) s a t b h lt same =
    let rest =
      streq_complete limit len s (a + 1) t (b + 1) (tail h) (omega arith)
        (λ j le. ground (arith, same (j + 1))) in
    ground (arith, h.body 0, same 0, rest)

module _ (fs : Ramfs) (names : ℕ → ℕ) (name len : ℕ) where
  -- File `i` has the name.
  abbrev pub HasName : ℕ → Type 0
  HasName i = Spells fs.image (entry_at i) names name len

  -- What opening a file comes to.
  pub data Opened : Option ℕ → Type 0 where
    no_image : (not (fs.disk == 0) && fs.magic == ramfs_magic) ≡ false → Opened none
    no_file : ((i : ℕ) → i < fs.file_count → ¬ HasName i) → Opened none
    found :
        {i : ℕ}
        → (not (fs.disk == 0) && fs.magic == ramfs_magic) ≡ true
        → i < fs.file_count
        → HasName i
        → ((j : ℕ) → j < i → ¬ HasName j)
        → Opened (some i)

  -- For a name of `len` bytes and a limit above that, ramfs_open finds the first file whose name is
  -- byte for byte the one sought, and says -1 only if there is no such file or no image.
  pub ramfs_open-Opened :
      (limit : ℕ) → IsString names name len → len < limit → Opened (ramfs_open limit fs names name)
  unfolding ramfs_open
  ramfs_open-Opened limit h lt =
      let test = λ (i : ℕ). streq limit fs.image (entry_at i) names name in
      let missed : (i : ℕ) → test i ≡ false → ¬ HasName i = λ i e same.
        ground (arith, e, streq_complete limit len fs.image (entry_at i) names name h lt same) in
      elim (Bool-cases (fs.disk == 0)) [
        | inl absent ↦ rw absent (no_image (ground (arith, absent)))
        | inr present ↦ elim (Bool-cases (fs.magic == ramfs_magic)) [
          | inr other ↦ rw (present, other) (no_image (ground (arith, other)))
          | inl right ↦ elim (find_from-Searched fs.file_count 0 fs.file_count test (omega arith)) [
            | inl (i, e, below, first) ↦
                rw (present, right, e)
                  (found (ground (arith, present, right)) below
                    (streq_sound limit len fs.image (entry_at i) names name h lt first.passes)
                    (λ j before. missed j (first.before j (omega arith) before)))
            | inr (e, gone) ↦
                rw (present, right, e) (no_file (λ i below. missed i (gone i (omega arith) below)))
          ]
        ]
      ]
