-- ===== src/Bridge/Branches.antt =====
-- kernel/Xjail/xv6/xv6fs_ops.c: the references and locks on the branches of its functions.
use notux_kernel.Base.{
  ℕ, zero, suc, ◌+◌, ◌-◌, ◌*◌, ◌/◌, ◌%◌, ◌^◌, ◌≡◌, ◌≢◌, refl, Bool, true, false, not, ◌&&◌, ◌||◌,
  arith, leb, ◌==◌, update, Bool-cases, inl, inr,
}
use notux_kernel.Bridge.Files.{Name, Inodes}
use notux_kernel.Bridge.Ops.{
  dirent_size, t_dir, t_file, let_go, create_found, link_dots, create_link, create_new, dir_empty,
  unlink_entry, unlink_found, is_unused, is_whole, dot, dot_dot, zeros,
}
use notux_kernel.Bridge.Owns.{
  more, Counts, Owns, locks-Owns, let_go-Owns, nlink-Owns, device-Owns, dirlink-Owns, readi-Owns,
  writei-Owns, ialloc-Owns, same-Owns,
}

-- Nothing is locked; only `p` is, unless it is NULL; one or two inodes are.
abbrev pub unlocked : ℕ → Bool
unlocked i = false

abbrev pub only : ℕ → ℕ → Bool
only p i = not (p == 0) && p == i

abbrev pub one_lock : ℕ → ℕ → Bool
one_lock dp = update unlocked dp true

abbrev two_locks : ℕ → ℕ → ℕ → Bool
two_locks dp ip = update (one_lock dp) ip true

module _ {D Text : Type 0} (fs : Inodes D Text) {refs : D → ℕ → ℕ} {locked : D → ℕ → Bool}
    (c : Counts fs refs locked) where
  -- What a function leaves that returns an inode, or NULL.
  abbrev pub Returns : (ℕ → ℕ) → ℕ × D → Type 0
  Returns n r = Owns fs c (more r.0 n) (only r.0) r.1

  pub null-Returns : {n : ℕ → ℕ} {d : D} → Owns fs c n unlocked d → Returns n (0, d)
  null-Returns o = same-Owns fs c o (λ i. ground arith) (λ i. ground arith)

  -- A call that found nothing has taken nothing.
  pub none_taken :
      {n : ℕ → ℕ} {l : ℕ → Bool} {d : D} (p : ℕ)
      → (p == 0) ≡ true
      → Owns fs c (more p n) l d
      → Owns fs c n l d
  none_taken p null o = same-Owns fs c o (λ i. ground arith) (λ i. refl)

  module _ (n : ℕ → ℕ) (dp : ℕ) (real : dp ≢ 0) where
    pub close_one :
        {d : D} → Owns fs c (more dp n) (one_lock dp) d → Owns fs c n unlocked (let_go fs d dp)
    close_one o =
        same-Owns fs c (let_go-Owns fs c o dp (ground arith)) (λ i. ground arith)
          (λ i. ground arith)

    module _ (ip : ℕ) (found : ip ≢ 0) where
      close_two :
          {d : D}
          → Owns fs c (more ip (more dp n)) (two_locks dp ip) d
          → Owns fs c n unlocked (let_go fs (let_go fs d ip) dp)
      close_two o =
          same-Owns fs c (let_go-Owns fs c (let_go-Owns fs c o ip (ground arith)) dp (ground arith))
            (λ i. ground arith) (λ i. ground arith)

      close_parent :
          {d : D} (k : ℕ)
          → Owns fs c (more ip (more dp n)) (two_locks dp ip) d
          → Owns fs c n unlocked (let_go fs (fs.iupdate (fs.set_nlink (let_go fs d dp) ip k) ip) ip)
      close_parent k o =
          let after = nlink-Owns fs c (let_go-Owns fs c o dp (ground arith)) ip k in
          same-Owns fs c (let_go-Owns fs c after ip (ground arith)) (λ i. ground arith)
            (λ i. ground arith)

      pub create_found-Returns :
          (d : D) (type : ℕ)
          → Owns fs c (more ip (more dp n)) (one_lock dp) d
          → Returns n (create_found fs d dp ip type)
      unfolding create_found
      create_found-Returns d type o =
          let d1 = fs.ilock (let_go fs d dp) ip in
          let opened = locks-Owns fs c (let_go-Owns fs c o dp (ground arith)) ip in
          let mine : Owns fs c (more ip n) (only ip) d1 =
            same-Owns fs c opened (λ i. ground arith) (λ i. ground arith) in
          elim (Bool-cases (type == t_file && fs.type_of d1 ip == t_file)) [
            | inl file ↦ rw file mine
            | inr other ↦ rw other (
                same-Owns fs c (let_go-Owns fs c mine ip (ground arith)) (λ i. ground arith)
                  (λ i. ground arith))
          ]

      link_dots-Owns :
          (d : D)
          → Owns fs c (more ip (more dp n)) (two_locks dp ip) d
          → Owns fs c (more ip (more dp n)) (two_locks dp ip) (link_dots fs d dp ip).1
      unfolding link_dots
      link_dots-Owns d o =
          let d1 = fs.iupdate (fs.set_nlink d dp ((fs.nlink d dp + 1) % 2 ^ 16)) dp in
          let first =
            dirlink-Owns fs c (nlink-Owns fs c o dp ((fs.nlink d dp + 1) % 2 ^ 16)) ip dot
              (fs.inum d1 ip) in
          let call = fs.dirlink d1 ip dot (fs.inum d1 ip) in
          elim (Bool-cases call.0) [
            | inl ok ↦ rw ok (dirlink-Owns fs c first ip dot_dot (fs.inum call.1 dp))
            | inr bad ↦ rw bad first
          ]

      create_link-Returns :
          (ok : Bool) (d : D) (name : Name)
          → ip ≢ dp
          → Owns fs c (more ip (more dp n)) (two_locks dp ip) d
          → Returns n (create_link fs (ok, d) dp ip name)
      unfolding create_link
      create_link-Returns false d name apart o = null-Returns (close_two o)
      create_link-Returns true d name apart o =
          let call = fs.dirlink d dp name (fs.inum d ip) in
          let now = dirlink-Owns fs c o dp name (fs.inum d ip) in
          elim (Bool-cases call.0) [
            | inr bad ↦ rw bad (null-Returns (close_two now))
            | inl linked ↦ rw linked (
                same-Owns fs c (let_go-Owns fs c now dp (ground arith)) (λ i. ground arith)
                  (λ i. ground arith))
          ]

      unlink_entry-Owns :
          (ok : Bool) (d : D) (off : ℕ)
          → Owns fs c (more ip (more dp n)) (two_locks dp ip) d
          → Owns fs c n unlocked (unlink_entry fs (ok, d) dp ip off).1
      unfolding unlink_entry
      unlink_entry-Owns false d off o = close_two o
      unlink_entry-Owns true d off o =
          let call = fs.writei d dp (zeros dirent_size) off dirent_size in
          let now = writei-Owns fs c o dp (zeros dirent_size) off dirent_size in
          elim (Bool-cases (is_whole call.0)) [
            | inr bad ↦ rw bad (close_two now)
            | inl whole ↦ elim (Bool-cases (fs.type_of call.1 ip == t_dir)) [
              | inl dir ↦ rw (whole, dir) (close_parent _ (nlink-Owns fs c now dp _))
              | inr other ↦ rw (whole, other) (close_parent _ now)
            ]
          ]

      dir_empty-Owns :
          (rounds : ℕ) (d : D) (off : ℕ)
          → Owns fs c (more ip (more dp n)) (two_locks dp ip) d
          → Owns fs c (more ip (more dp n)) (two_locks dp ip) (dir_empty fs d ip off rounds).1
      unfolding dir_empty
      dir_empty-Owns zero d off o = o
      dir_empty-Owns (suc rounds) d off o =
          let call = fs.readi d ip off dirent_size in
          let now = readi-Owns fs c o ip off dirent_size in
          elim (Bool-cases (is_unused call.0)) [
            | inl free ↦ rw free (dir_empty-Owns rounds call.1 (off + dirent_size) now)
            | inr bad ↦ rw bad now
          ]

      pub unlink_found-Owns :
          (d : D) (off : ℕ)
          → Owns fs c (more ip (more dp n)) (one_lock dp) d
          → Owns fs c n unlocked (unlink_found fs d dp ip off).1
      unfolding unlink_found
      unlink_found-Owns d off o =
          let d1 = fs.ilock d ip in
          let opened = locks-Owns fs c o ip in
          let rounds = (fs.size d1 ip - 2 * dirent_size + 15) / dirent_size in
          let call = dir_empty fs d1 ip (2 * dirent_size) rounds in
          elim (Bool-cases (fs.nlink d1 ip == 0 || leb (2 ^ 15) (fs.nlink d1 ip))) [
            | inl unlinked ↦ rw unlinked (close_two opened)
            | inr linked ↦ elim (Bool-cases (fs.type_of d1 ip == t_dir)) [
              | inl dir ↦
                  rw (linked, dir)
                    (unlink_entry-Owns call.0 call.1 off
                      (dir_empty-Owns rounds d1 (2 * dirent_size) opened))
              | inr other ↦ rw (linked, other) (unlink_entry-Owns true d1 off opened)
            ]
          ]

    pub create_new-Returns :
        (d : D) (name : Name) (type major minor : ℕ)
        → Owns fs c (more dp n) (one_lock dp) d
        → Returns n (create_new fs d dp name type major minor)
    unfolding create_new
    create_new-Returns d name type major minor o =
        let call = fs.ialloc d (fs.dev d dp) type in
        let got = ialloc-Owns fs c o (fs.dev d dp) type in
        elim (Bool-cases (call.0 == 0)) [
          | inl full ↦ rw full (null-Returns (close_one (none_taken call.0 full got)))
          | inr made ↦
              let found : call.0 ≢ 0 = ground arith in
              let apart : call.0 ≢ dp =
                λ e. ground (arith, c.ialloc_unheld d (fs.dev d dp) type found, o.count call.0) in
              let ready =
                nlink-Owns fs c (device-Owns fs c (locks-Owns fs c got call.0) call.0 major minor)
                  call.0 1 in
              let d3 =
                fs.iupdate
                  (fs.set_nlink (fs.set_device (fs.ilock call.1 call.0) call.0 major minor) call.0
                    1)
                  call.0 in
              let dots = link_dots fs d3 dp call.0 in
              elim (Bool-cases (type == t_dir)) [
                | inl dir ↦
                    rw (made, dir)
                      (create_link-Returns call.0 found dots.0 dots.1 name apart
                        (link_dots-Owns call.0 found d3 ready))
                | inr other ↦
                    rw (made, other) (create_link-Returns call.0 found true d3 name apart ready)
              ]
        ]
