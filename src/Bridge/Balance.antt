-- ===== src/Bridge/Balance.antt =====
-- kernel/Xjail/xv6/xv6fs_ops.c and the read of a file in xv6fs_bridge.c: the references and locks that
-- they take on inodes are given back.
use notux_kernel.Base.{
  ℕ, ◌+◌, ◌≡◌, ◌≢◌, refl, Bool, false, not, ◌&&◌, arith, ◌==◌, if◌then◌else◌, Bool-cases, inl, inr,
}
use notux_kernel.Bridge.Files.{Inodes, xv6fs_bridge_read_file}
use notux_kernel.Bridge.Boot.{default_dir, create_default_dirs}
use notux_kernel.Bridge.Ops.{xv6fs_create, xv6fs_unlink, is_dot, is_dot_dot}
use notux_kernel.Bridge.Owns.{
  Counts, Owns, same-Owns, let_go-Owns, locks-Owns, readi-Owns, dirlookup-Owns, namei-Owns,
  nameiparent-Owns,
}
use notux_kernel.Bridge.Branches.{
  unlocked, Returns, null-Returns, none_taken, close_one, create_found-Returns, unlink_found-Owns,
  create_new-Returns,
}

module _ {D Text : Type 0} (fs : Inodes D Text) {refs : D → ℕ → ℕ} {locked : D → ℕ → Bool}
    (c : Counts fs refs locked) where
  started : (d : D) → ((i : ℕ) → locked d i ≡ false) → Owns fs c (refs d) unlocked d
  started d quiet = record { count = λ i. refl; locks = quiet }

  create-Returns :
      (d : D) (path : Text) (type major minor : ℕ)
      → ((i : ℕ) → locked d i ≡ false)
      → Returns fs c (refs d) (xv6fs_create fs d path type major minor)
  unfolding xv6fs_create
  create-Returns d path type major minor quiet =
      let call = fs.nameiparent d path in
      let o = nameiparent-Owns fs c (started d quiet) path in
      elim (Bool-cases (call.0 == 0)) [
        | inl missing ↦ rw missing (null-Returns fs c (none_taken fs c call.0 missing o))
        | inr there ↦
            let real : call.0 ≢ 0 = ground arith in
            let d1 = fs.ilock call.2 call.0 in
            let one = locks-Owns fs c o call.0 in
            let name = call.1 in
            let entry = fs.dirlookup d1 call.0 name in
            let looked = dirlookup-Owns fs c one call.0 name in
            elim (Bool-cases (entry.0 == 0)) [
              | inl new ↦
                  rw (there, new)
                    (create_new-Returns fs c (refs d) call.0 real entry.2 name type major minor
                      (none_taken fs c entry.0 new looked))
              | inr old ↦
                  let found : entry.0 ≢ 0 = ground arith in
                  rw (there, old)
                    (create_found-Returns fs c (refs d) call.0 real entry.0 found entry.2 type
                      looked)
            ]
      ]

  default_dir-Owns :
      (n : ℕ → ℕ) (d : D) (path : Text)
      → Owns fs c n unlocked d
      → Owns fs c n unlocked (default_dir fs d path)
  unfolding default_dir
  default_dir-Owns n d path o =
      let call = xv6fs_create fs d path 1 0 0 in
      let back = create-Returns d path 1 0 0 o.locks in
      elim (Bool-cases (call.0 == 0)) [
        | inl null ↦
            rw null (same-Owns fs c (none_taken fs c call.0 null back) o.count (λ i. ground arith))
        | inr real ↦ rw real (
            same-Owns fs c (let_go-Owns fs c back call.0 (ground arith))
              (λ i. ground (arith, o.count i)) (λ i. ground arith))
      ]

  default_dirs-Owns :
      (d : D) (etc bin root : Text)
      → ((i : ℕ) → locked d i ≡ false)
      → Owns fs c (refs d) unlocked (create_default_dirs fs d etc bin root)
  unfolding create_default_dirs
  default_dirs-Owns d etc bin root quiet =
      let d1 = default_dir fs d etc in
      let d2 = default_dir fs d1 bin in
      default_dir-Owns (refs d) d2 root
        (default_dir-Owns (refs d) d1 bin (default_dir-Owns (refs d) d etc (started d quiet)))

  unlink-Owns :
      (d : D) (path : Text)
      → ((i : ℕ) → locked d i ≡ false)
      → Owns fs c (refs d) unlocked (xv6fs_unlink fs d path).1
  unfolding xv6fs_unlink
  unlink-Owns d path quiet =
      let call = fs.nameiparent d path in
      let o = nameiparent-Owns fs c (started d quiet) path in
      elim (Bool-cases (call.0 == 0)) [
        | inl missing ↦ rw missing (none_taken fs c call.0 missing o)
        | inr there ↦
            let real : call.0 ≢ 0 = ground arith in
            let d1 = fs.ilock call.2 call.0 in
            let one = locks-Owns fs c o call.0 in
            let name = call.1 in
            let entry = fs.dirlookup d1 call.0 name in
            let looked = dirlookup-Owns fs c one call.0 name in
            elim (Bool-cases (is_dot name)) [
              | inl self ↦ rw (there, self) (close_one fs c (refs d) call.0 real one)
              | inr other ↦ elim (Bool-cases (is_dot_dot name)) [
                | inl dots ↦ rw (there, other, dots) (close_one fs c (refs d) call.0 real one)
                | inr named ↦ elim (Bool-cases (entry.0 == 0)) [
                  | inl absent ↦
                      rw (there, other, named, absent)
                        (close_one fs c (refs d) call.0 real
                          (none_taken fs c entry.0 absent looked))
                  | inr present ↦
                      let found : entry.0 ≢ 0 = ground arith in
                      rw (there, other, named, present)
                        (unlink_found-Owns fs c (refs d) call.0 real entry.0 found entry.2 entry.1
                          looked)
                ]
              ]
            ]
      ]

  read_file-Owns :
      (d : D) (path : Text) (maxlen : ℕ)
      → ((i : ℕ) → locked d i ≡ false)
      → Owns fs c (refs d) unlocked (xv6fs_bridge_read_file fs d path maxlen).1
  unfolding xv6fs_bridge_read_file
  read_file-Owns d path maxlen quiet =
      let call = fs.namei d path in
      let o = namei-Owns fs c (started d quiet) path in
      elim (Bool-cases (call.0 == 0)) [
        | inl missing ↦ rw missing (none_taken fs c call.0 missing o)
        | inr there ↦
            let real : call.0 ≢ 0 = ground arith in
            let held = readi-Owns fs c (locks-Owns fs c o call.0) call.0 0 maxlen in
            rw there (close_one fs c (refs d) call.0 real held)
      ]

  -- If the calls below count references and locks as xv6 documents them, and no inode is locked, then
  -- on every branch xv6fs_create leaves exactly one more reference and one lock, those of the inode that
  -- it returns, or none if it returns NULL; and xv6fs_unlink, xv6fs_bridge_read_file and
  -- create_default_dirs leave the references as they were and nothing locked.
  pub file_calls-balanced :
      (d : D) (path : Text)
      → ((i : ℕ) → locked d i ≡ false)
      → ((type major minor i : ℕ)
          → (let (ip, d') = xv6fs_create fs d path type major minor in
              (refs d' i ≡ (if not (ip == 0) && ip == i then refs d i + 1 else refs d i))
              × (locked d' i ≡ (not (ip == 0) && ip == i))))
        × ((i : ℕ)
            → (let d' = (xv6fs_unlink fs d path).1 in
                (refs d' i ≡ refs d i) × (locked d' i ≡ false)))
        × ((maxlen i : ℕ)
            → (let d' = (xv6fs_bridge_read_file fs d path maxlen).1 in
                (refs d' i ≡ refs d i) × (locked d' i ≡ false)))
        × ((etc bin root : Text) (i : ℕ)
            → (let d' = create_default_dirs fs d etc bin root in
                (refs d' i ≡ refs d i) × (locked d' i ≡ false)))
  file_calls-balanced d path quiet = (
    λ type major minor i.
        let o = create-Returns d path type major minor quiet in (o.count i, o.locks i),
    λ i. let o = unlink-Owns d path quiet in (o.count i, o.locks i),
    λ maxlen i. let o = read_file-Owns d path maxlen quiet in (o.count i, o.locks i),
    λ etc bin root i. let o = default_dirs-Owns d etc bin root quiet in (o.count i, o.locks i),
  )
