-- ===== src/Mkfs/Contents.antt =====
-- main of mkfs.c: the directories and files of the image that it leaves, byte by byte.
use notux_kernel.Base.{
  ℕ, ◌+◌, ◌-◌, ◌*◌, ◌<◌, ◌≤◌, ◌≡◌, ◌≢◌, refl, ◌∙◌, true, arith, ltb, leb, ◌==◌, ◌&&◌, some, length,
  ==_refl,
}
use notux_kernel.Mkfs.{Image, fssize}
use notux_kernel.Mkfs.Bytes.{Use}
use notux_kernel.Mkfs.Files.{inode_of, byte_at, IsImage}
use notux_kernel.Mkfs.Spec.{Tree, Shows, appended, created}
use notux_kernel.Mkfs.Main.{dir_tree, whole_tree, largest, built}
use notux_kernel.Mkfs.Build.{
  Chars, char_at, dirent_byte, dot, dot_dot, etc_name, bin_name, root_name, readme_name, child_name,
  readme_text, Binary, binary, build, super_sector,
}
use notux_kernel.Mkfs.Build.Bitmap.{block_bit}

-- An entry of a directory.
abbrev pub IsEntry : Image → (dir index : ℕ) → (name : Chars) → (target : ℕ) → Type 0
IsEntry s dir index name target =
    (k : ℕ) → k < 16 → byte_at s dir (16 * index + k) ≡ dirent_byte name target k

-- A directory under the root, and what a directory has first.
abbrev pub IsDirectory : Image → (dir entries nlink : ℕ) → Type 0
IsDirectory s dir entries nlink =
    ((inode_of s dir).type ≡ 1)
    × ((inode_of s dir).nlink ≡ nlink)
    × ((inode_of s dir).size ≡ 16 * entries)
    × IsEntry s dir 0 dot dir
    × IsEntry s dir 1 dot_dot 1

abbrev pub IsFile : Image → (inum size : ℕ) → (ℕ → ℕ) → Type 0
IsFile s inum size byte =
    ((inode_of s inum).type ≡ 2)
    × ((inode_of s inum).size ≡ size)
    × ((i : ℕ) → i < size → byte_at s inum i ≡ byte i)

pub record Holds (b : Binary) (s : Image) : Type 0 where
  pub root : IsDirectory s 1 6 5
  pub etc : IsEntry s 1 2 etc_name 2 × IsDirectory s 2 2 2
  pub bin : IsEntry s 1 3 bin_name 3 × IsDirectory s 3 3 2
  pub home : IsEntry s 1 4 root_name 4 × IsDirectory s 4 2 2
  pub readme : IsEntry s 1 5 readme_name 5 × IsFile s 5 (length readme_text) (char_at readme_text)
  pub child : IsEntry s 3 2 child_name 6 × IsFile s 6 b.size b.byte

-- The bytes of a new file.
new_file :
    (t : Tree) (n type : ℕ) (p : ℕ → ℕ) (size i : ℕ)
    → i < size
    → (appended (created t n type) n p size).byte n i ≡ p i
new_file t n type p size i li =
    let self : (n == n) ≡ true = ==_refl n in
    let inside : leb 0 i && ltb i (0 + size) ≡ true = ground arith in
    let place : i - 0 ≡ i = omega arith in rw (self, inside, place) refl

module _ (b : Binary) (fits : b.size ≤ largest) (s : Image) (u : Use) (free : ℕ)
    (sh : Shows s u (whole_tree b) free 7) where
  root_dot : IsEntry s 1 0 dot 1
  root_dot k lk = sh.byte 1 (16 * 0 + k) (omega arith) (omega arith) ∙ ground arith

  root_dots : IsEntry s 1 1 dot_dot 1
  root_dots k lk = sh.byte 1 (16 * 1 + k) (omega arith) (omega arith) ∙ ground arith

  root_etc : IsEntry s 1 2 etc_name 2
  root_etc k lk = sh.byte 1 (16 * 2 + k) (omega arith) (omega arith) ∙ ground arith

  root_bin : IsEntry s 1 3 bin_name 3
  root_bin k lk = sh.byte 1 (16 * 3 + k) (omega arith) (omega arith) ∙ ground arith

  root_home : IsEntry s 1 4 root_name 4
  root_home k lk = sh.byte 1 (16 * 4 + k) (omega arith) (omega arith) ∙ ground arith

  root_readme : IsEntry s 1 5 readme_name 5
  root_readme k lk = sh.byte 1 (16 * 5 + k) (omega arith) (omega arith) ∙ ground arith

  etc_dot : IsEntry s 2 0 dot 2
  etc_dot k lk = sh.byte 2 (16 * 0 + k) (omega arith) (omega arith) ∙ ground arith

  etc_dots : IsEntry s 2 1 dot_dot 1
  etc_dots k lk = sh.byte 2 (16 * 1 + k) (omega arith) (omega arith) ∙ ground arith

  bin_dot : IsEntry s 3 0 dot 3
  bin_dot k lk = sh.byte 3 (16 * 0 + k) (omega arith) (omega arith) ∙ ground arith

  bin_dots : IsEntry s 3 1 dot_dot 1
  bin_dots k lk = sh.byte 3 (16 * 1 + k) (omega arith) (omega arith) ∙ ground arith

  bin_child : IsEntry s 3 2 child_name 6
  bin_child k lk = sh.byte 3 (16 * 2 + k) (omega arith) (omega arith) ∙ ground arith

  home_dot : IsEntry s 4 0 dot 4
  home_dot k lk = sh.byte 4 (16 * 0 + k) (omega arith) (omega arith) ∙ ground arith

  home_dots : IsEntry s 4 1 dot_dot 1
  home_dots k lk = sh.byte 4 (16 * 1 + k) (omega arith) (omega arith) ∙ ground arith

  readme_is : IsFile s 5 (length readme_text) (char_at readme_text)
  readme_is = (
    sh.type 5 (omega arith),
    sh.size 5 (omega arith),
    λ i li.
        sh.byte 5 i (omega arith) (omega (arith, li))
        ∙ new_file dir_tree 5 2 (char_at readme_text) 252 i li,
  )

  child_is : IsFile s 6 b.size b.byte
  child_is = (
    sh.type 6 (omega arith),
    sh.size 6 (omega arith) ∙ omega arith,
    λ i li. sh.byte 6 i (omega arith) (omega (arith, li, fits)) ∙ ground (arith, li),
  )

  pub whole_tree-Holds : Holds b s
  whole_tree-Holds = record {
    root = (
      sh.type 1 (omega arith),
      sh.nlink 1 (omega arith),
      sh.size 1 (omega arith),
      root_dot,
      root_dots,
    );
    etc = (
      root_etc,
      (
        sh.type 2 (omega arith),
        sh.nlink 2 (omega arith),
        sh.size 2 (omega arith),
        etc_dot,
        etc_dots,
      ),
    );
    bin = (
      root_bin,
      (
        sh.type 3 (omega arith),
        sh.nlink 3 (omega arith),
        sh.size 3 (omega arith),
        bin_dot,
        bin_dots,
      ),
    );
    home = (
      root_home,
      (
        sh.type 4 (omega arith),
        sh.nlink 4 (omega arith),
        sh.size 4 (omega arith),
        home_dot,
        home_dots,
      ),
    );
    readme = (root_readme, readme_is);
    child = (bin_child, child_is);
  }

-- The image that main leaves, with everything that stands in it.
pub record Leaves (b : Binary) : Type 0 where
  pub image : Image
  pub uses : Use
  pub result : build (binary b) ≡ some image
  pub is_image : IsImage image uses
  pub holds : Holds b image
  pub super : image.disk 1 ≡ super_sector
  pub bits : (n : ℕ) → n < fssize → block_bit image n ≡ ltb n image.freeblock
  pub used : (n : ℕ) → uses.level n ≢ 0 → block_bit image n ≡ true

-- For a binary of at most 680960 bytes main ends, with an image that has every entry of the directories,
-- both files byte by byte and the superblock. Its bitmap marks the blocks below the next free one, so
-- every block that a file uses.
pub build-Leaves : (b : Binary) → b.size ≤ largest → Leaves b
build-Leaves b fits =
    let m = built b fits in
    record {
      image = m.image;
      uses = m.uses;
      result = m.result;
      is_image = m.shows.image;
      holds = whole_tree-Holds b fits m.image m.uses m.free m.shows;
      super = m.shows.super;
      bits = m.bits;
      used = m.used;
    }
