-- ===== src/Mkfs/Main.antt =====
-- main of mkfs.c: the image that it leaves.
use notux_kernel.Base.{ℕ, ◌+◌, ◌<◌, ◌≤◌, ◌≡◌, ◌≢◌, refl, sym, ap, ◌∙◌, true, arith, ltb, some}
use notux_kernel.Mkfs.{Image, fssize}
use notux_kernel.Mkfs.Bytes.{Use}
use notux_kernel.Mkfs.Spec.{Tree, appended, created, relinked, Shows, Yields, Makes, iappend-Makes}
use notux_kernel.Mkfs.Alloc.{ialloc-Allocates, set_nlink-Makes}
use notux_kernel.Mkfs.Run.{
  bind-Yields, done-Yields, linked, dirlink-Makes, with_dir, make_dir_under_root-Yields,
}
use notux_kernel.Mkfs.Embed.{embed-Makes, blocks_for}
use notux_kernel.Mkfs.Start.{start, no_use, no_files, start-Shows}
use notux_kernel.Mkfs.Build.{
  char_at, dot, dot_dot, etc_name, bin_name, root_name, readme_name, child_name, readme_text,
  Binary, Argument, binary, build, build_tree, build_readme, build_child, balloc_mark_used,
}
use notux_kernel.Mkfs.Build.Bitmap.{block_bit, balloc_mark_used-Marks}

-- The root, the three directories, the text and the embedded file.
abbrev pub root_tree : Tree
root_tree = linked (linked (created no_files 1 1) 1 dot 1) 1 dot_dot 1

abbrev pub dir_tree : Tree
dir_tree =
    relinked (with_dir (with_dir (with_dir root_tree 2 1 etc_name) 3 1 bin_name) 4 1 root_name) 1 5

abbrev pub readme_tree : Tree
readme_tree = linked (appended (created dir_tree 5 2) 5 (char_at readme_text) 252) 1 readme_name 5

abbrev pub whole_tree : Binary → Tree
whole_tree b =
    linked (appended (created readme_tree 6 2) 6 (λ k. b.byte (0 + k)) b.size) 3 child_name 6

build_tree-Yields :
    (s : Image) (u : Use)
    → Shows s u no_files 64 1
    → Yields (build_tree s) (λ s'. (1, 3, s')) dir_tree 97 5
unfolding build_tree
build_tree-Yields s u sh =
    bind-Yields _ (ialloc-Allocates s u no_files 64 1 1 sh (omega arith) (omega arith)) (λ s0 u0 h0.
      bind-Yields _
        (dirlink-Makes s0 u0 (created no_files 1 1) 64 2 1 dot 1 h0 (omega arith) refl (omega arith)
          (omega arith))
        (λ s1 u1 h1.
          bind-Yields _
            (dirlink-Makes s1 u1 (linked (created no_files 1 1) 1 dot 1) 67 2 1 dot_dot 1 h1
              (omega arith) refl (omega arith) (omega arith))
            (λ s2 u2 h2.
              bind-Yields _
                (make_dir_under_root-Yields s2 u2 root_tree 70 2 1 etc_name h2 (omega arith)
                  (omega arith) (omega arith) refl (omega arith) (omega arith))
                (λ s3 u3 h3.
                  bind-Yields _
                    (make_dir_under_root-Yields s3 u3 (with_dir root_tree 2 1 etc_name) 79 3 1
                      bin_name h3 (omega arith) (omega arith) (omega arith) refl (omega arith)
                      (omega arith))
                    (λ s4 u4 h4.
                      bind-Yields _
                        (make_dir_under_root-Yields s4 u4
                          (with_dir (with_dir root_tree 2 1 etc_name) 3 1 bin_name) 88 4 1 root_name
                          h4 (omega arith) (omega arith) (omega arith) refl (omega arith)
                          (omega arith))
                        (λ s5 u5 h5.
                          bind-Yields _
                            (set_nlink-Makes s5 u5
                              (with_dir (with_dir (with_dir root_tree 2 1 etc_name) 3 1 bin_name) 4
                                1 root_name)
                              97 5 1 5 h5 (omega arith) (omega arith))
                            (λ s6 u6 h6.
                              done-Yields s6 u6 (λ s'. (1, 3, s')) dir_tree 97 5 h6)))))))

build_readme-Makes :
    (s : Image) (u : Use) → Shows s u dir_tree 97 5 → Makes (build_readme s 1) readme_tree 103 6
unfolding build_readme
build_readme-Makes s u sh =
    bind-Yields _ (ialloc-Allocates s u dir_tree 97 5 2 sh (omega arith) (omega arith)) (λ s0 u0 h0.
      bind-Yields _
        (iappend-Makes s0 u0 (created dir_tree 5 2) 97 6 5 (char_at readme_text) 252 h0
          (omega arith) (omega arith) (omega arith))
        (λ s1 u1 h1.
          dirlink-Makes s1 u1 (appended (created dir_tree 5 2) 5 (char_at readme_text) 252) 100 6 1
            readme_name 5 h1 (omega arith) refl (omega arith) (omega arith)))

build_steps :
    (arg : Argument) (s1 s2 s3 s4 : Image)
    → build_tree start ≡ some (1, 3, s1)
    → build_readme s1 1 ≡ some s2
    → build_child s2 3 arg ≡ some s3
    → balloc_mark_used s3 s3.freeblock ≡ some s4
    → build arg ≡ some s4
unfolding build
build_steps arg s1 s2 s3 s4 e1 e2 e3 e4 = rw (e1, e2, e3) e4

-- A binary for which no more than 4096 blocks are used.
abbrev pub largest : ℕ
largest = 680960

module _ (b : Binary) (fits : b.size ≤ largest) where
  build_child-Makes :
      (s : Image) (u : Use)
      → Shows s u readme_tree 103 6
      → Makes (build_child s 3 (binary b)) (whole_tree b) (103 + blocks_for b.size + 3) 7
  unfolding build_child
  build_child-Makes s u sh =
      bind-Yields _ (ialloc-Allocates s u readme_tree 103 6 2 sh (omega arith) (omega arith))
        (λ s0 u0 h0.
          bind-Yields _
            (embed-Makes b.size s0 u0 (created readme_tree 6 2) 103 7 6 b.byte 0 b.size h0
              (omega arith) refl (λ ne. refl) (omega (arith, fits)) (omega (arith, fits))
              (omega arith))
            (λ s1 u1 h1.
              dirlink-Makes s1 u1
                (appended (created readme_tree 6 2) 6 (λ k. b.byte (0 + k)) b.size)
                (103 + blocks_for b.size) 7 3 child_name 6 h1 (omega arith) refl (omega arith)
                (omega (arith, fits))))

  -- The image, its uses, and what stands in it.
  pub record Built : Type 0 where
    pub image : Image
    pub uses : Use
    pub free : ℕ
    pub result : build (binary b) ≡ some image
    pub shows : Shows image uses (whole_tree b) free 7
    pub bits : (n : ℕ) → n < fssize → block_bit image n ≡ ltb n image.freeblock
    pub used : (n : ℕ) → uses.level n ≢ 0 → block_bit image n ≡ true

  pub built : Built
  built =
      let tree = build_tree-Yields start no_use start-Shows in
      let readme = build_readme-Makes tree.image tree.uses tree.shows in
      let child = build_child-Makes readme.image readme.uses readme.shows in
      let marks =
        balloc_mark_used-Marks child.image child.image.freeblock
          (omega (arith, child.shows.free_le, fits)) in
      let sh = marks.shows child.uses (whole_tree b) (103 + blocks_for b.size + 3) 7 child.shows in
      let bits : (n : ℕ) → n < fssize → block_bit marks.image n ≡ ltb n marks.image.freeblock =
        λ n ln. marks.bits n ln ∙ ap (ltb n) (sym marks.freeblock) in
      record {
        image = marks.image;
        uses = child.uses;
        free = 103 + blocks_for b.size + 3;
        result =
            build_steps (binary b) tree.image readme.image child.image marks.image tree.result
              readme.result child.result marks.result;
        shows = sh;
        bits = bits;
        used = λ n real.
            (let r = sh.image.fs.range n real in
              bits n (omega (arith, r.1, sh.free_le, fits)) ∙ ground (arith, r.1));
      }
