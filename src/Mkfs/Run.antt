-- ===== src/Mkfs/Run.antt =====
-- mkfs.c: a run of several operations, the entries of a directory, and a new directory.
use notux_kernel.Base.{
  ℕ, ◌+◌, ◌*◌, ◌%◌, ◌<◌, ◌≤◌, ◌≡◌, ◌≢◌, refl, true, false, arith, ◌==◌, ==_refl, Option, some,
  ◌>>=◌,
}
use notux_kernel.Mkfs.{Image, maxfile, fssize}
use notux_kernel.Mkfs.Build.{Chars, dirent_byte, dirlink, make_dir_under_root, dot, dot_dot}
use notux_kernel.Mkfs.Bytes.{Use, inode_limit}
use notux_kernel.Mkfs.Append.{need}
use notux_kernel.Mkfs.Spec.{Tree, appended, created, relinked, Shows, Yields, Makes, iappend-Makes}
use notux_kernel.Mkfs.Alloc.{ialloc-Allocates, set_nlink-Makes}

pub bind-Yields :
    {A B : Type 0} {r : Option A} (k : A → Option B) {f : Image → A} {g : Image → B} {t t' : Tree}
    {free next free' next' : ℕ}
    → Yields r f t free next
    → ((s : Image) (u : Use) → Shows s u t free next → Yields (k (f s)) g t' free' next')
    → Yields (r >>= k) g t' free' next'
bind-Yields k first then_ =
    let second = then_ first.image first.uses first.shows in
    record {
      image = second.image;
      uses = second.uses;
      result = rw first.result second.result;
      shows = second.shows;
    }

pub done-Yields :
    {A : Type 0} (s : Image) (u : Use) (f : Image → A) (t : Tree) (free next : ℕ)
    → Shows s u t free next
    → Yields (some (f s)) f t free next
done-Yields s u f t free next sh = record { image = s; uses = u; result = refl; shows = sh }

pub wider :
    (s : Image) (u : Use) (t : Tree) (free next free' : ℕ)
    → Shows s u t free next
    → free ≤ free'
    → Shows s u t free' next
wider s u t free next free' sh le = record {
  image = sh.image;
  blocks = sh.blocks;
  free_le = omega (arith, sh.free_le, le);
  next_is = sh.next_is;
  super = sh.super;
  type = sh.type;
  nlink = sh.nlink;
  size = sh.size;
  byte = sh.byte;
}

-- A directory with one more entry.
abbrev pub linked : Tree → (dir : ℕ) → (name : Chars) → (target : ℕ) → Tree
linked t dir name target = appended t dir (dirent_byte name target) 16

pub dirlink-Makes :
    (s : Image) (u : Use) (t : Tree) (free next dir : ℕ) (name : Chars) (target : ℕ)
    → Shows s u t free next
    → dir < inode_limit
    → t.size dir % 16 ≡ 0
    → t.size dir + 16 ≤ 512 * maxfile
    → free + 3 ≤ fssize
    → Makes (dirlink s dir name target) (linked t dir name target) (free + 3) next
unfolding dirlink
dirlink-Makes s u t free next dir name target sh ld whole in_file room =
    let three : need (t.size dir) 16 ≡ 3 = omega arith in
    let m =
      iappend-Makes s u t free next dir (dirent_byte name target) 16 sh ld in_file
        (rw three room) in
    record {
      image = m.image;
      uses = m.uses;
      result = m.result;
      shows =
          wider m.image m.uses (linked t dir name target) (free + need (t.size dir) 16) next
            (free + 3) m.shows (omega (arith, three));
    }

-- A new directory `n` under the root.
abbrev pub with_dir : Tree → (n root : ℕ) → (name : Chars) → Tree
with_dir t n root name =
    relinked (linked (linked (linked (created t n 1) n dot n) n dot_dot root) root name n) n 2

pub make_dir_under_root-Yields :
    (s : Image) (u : Use) (t : Tree) (free next root : ℕ) (name : Chars)
    → Shows s u t free next
    → next < inode_limit
    → root < inode_limit
    → root ≢ next
    → t.size root % 16 ≡ 0
    → t.size root + 16 ≤ 512 * maxfile
    → free + 9 ≤ fssize
    → Yields
        (make_dir_under_root s root name)
        (λ s'. (next, s'))
        (with_dir t next root name)
        (free + 9)
        (next + 1)
unfolding make_dir_under_root
make_dir_under_root-Yields s u t free next root name sh ln lr ne whole in_file room =
    let t0 = created t next 1 in
    let t1 = linked t0 next dot next in
    let t2 = linked t1 next dot_dot root in
    let t3 = linked t2 root name next in
    let self : (next == next) ≡ true = ==_refl next in
    let other : (next == root) ≡ false = ground arith in
    let new_size : t0.size next ≡ 0 = rw self refl in
    let size1 : t1.size next ≡ 16 = rw self refl in
    let root_size : t2.size root ≡ t.size root = rw other refl in
    bind-Yields _ (ialloc-Allocates s u t free next 1 sh ln (omega arith)) (λ s0 u0 h0.
      bind-Yields _
        (dirlink-Makes s0 u0 t0 free (next + 1) next dot next h0 ln (omega (arith, new_size))
          (omega (arith, new_size)) (omega arith))
        (λ s1 u1 h1.
          bind-Yields _
            (dirlink-Makes s1 u1 t1 (free + 3) (next + 1) next dot_dot root h1 ln
              (omega (arith, size1)) (omega (arith, size1)) (omega arith))
            (λ s2 u2 h2.
              bind-Yields _
                (dirlink-Makes s2 u2 t2 (free + 3 + 3) (next + 1) root name next h2 lr
                  (rw root_size whole) (rw root_size in_file) (omega arith))
                (λ s3 u3 h3.
                  bind-Yields _
                    (set_nlink-Makes s3 u3 t3 (free + 9) (next + 1) next 2
                      (wider s3 u3 t3 (free + 3 + 3 + 3) (next + 1) (free + 9) h3 (omega arith)) ln
                      (omega arith))
                    (λ s4 u4 h4.
                      done-Yields s4 u4 (λ s'. (next, s')) (relinked t3 next 2) (free + 9)
                        (next + 1) h4)))))
