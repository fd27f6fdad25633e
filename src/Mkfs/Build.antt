-- ===== src/Mkfs/Build.antt =====
-- main of mkfs.c: the layout, the directories, the two files and the bitmap.
pub mod Bitmap
use notux_kernel.Base.{
  ℕ, zero, suc, ◌+◌, ◌-◌, ◌*◌, ◌/◌, ◌%◌, ◌^◌, Bool, true, false, Option, none, some, ◌>>=◌, List,
  [], ◌∷◌, ltb, leb, ◌==◌, if◌then◌else◌, update, for_loop, get_or, length,
}
use notux_kernel.Base.Bits.{set_bit}
use notux_kernel.Machine.{byte_of}
use notux_kernel.Mkfs.{
  Sector, Image, Dinode, wsect, rinode, winode, ialloc, iappend, fssize, ninodes, logsize, nmeta,
  inodestart, bmapstart,
}

-- The characters of a string, each by its code; the NUL at the end is left out.
abbrev pub Chars : Type 0
Chars = List ℕ

-- Character `k` of a string, and 0 after its end.
abbrev pub char_at : Chars → ℕ → ℕ
char_at cs k = get_or cs k 0

-- The bytes of `de`: the number, then what strncpy writes.
unfoldable pub dirent_byte : (name : Chars) (target_inum k : ℕ) → ℕ
dirent_byte name target_inum k = if ltb k 2 then byte_of target_inum k else char_at name (k - 2)

unfoldable pub dirlink : Image → (dir_inum : ℕ) → (name : Chars) → (target_inum : ℕ) → Option Image
dirlink s dir_inum name target_inum = iappend s dir_inum (dirent_byte name target_inum) 16

-- `din.nlink = nlink` between rinode and winode.
unfoldable pub set_nlink : Image → (inum nlink : ℕ) → Option Image
set_nlink s inum nlink = rinode s inum >>= λ din. winode s inum (record din { nlink = nlink })

abbrev pub dot : Chars
dot = b'.' ∷ []

abbrev pub dot_dot : Chars
dot_dot = b'.' ∷ b'.' ∷ []

unfoldable pub make_dir_under_root : Image → (root_inum : ℕ) → (name : Chars) → Option (ℕ × Image)
make_dir_under_root s root_inum name = ialloc s 1 >>= λ r. dirlink r.1 r.0 dot r.0 >>= λ s1.
    dirlink s1 r.0 dot_dot root_inum >>= λ s2.
    dirlink s2 root_inum name r.0 >>= λ s3. set_nlink s3 r.0 2 >>= λ s4. some (r.0, s4)

-- A round of the second loop on the bits of balloc_mark_used.
unfoldable pub mark : (used first : ℕ) → ℕ → Sector → Sector
mark used first bi buf =
    if ltb (first + bi) used then update buf (bi / 8) (set_bit (buf (bi / 8)) (bi % 8)) else buf

unfoldable pub bitmap_sector : (used first : ℕ) → Sector
bitmap_sector used first = for_loop (mark used first) 0 4096 (λ k. 0)

-- The first loop marks `used` bits of a buffer of 512 bytes, whose bytes the second one clears: `none`
-- is a write after its end.
unfoldable pub balloc_mark_used : Image → (used : ℕ) → Option Image
balloc_mark_used s used =
    if ltb (8 * 512) used
    then none
    else some
        (wsect (wsect s bmapstart (bitmap_sector used 0)) (bmapstart + 1) (bitmap_sector used 4096))

-- The words of `sb`.
abbrev pub super_words : List ℕ
super_words =
    270544960 ∷ fssize ∷ (fssize - nmeta) ∷ ninodes ∷ logsize ∷ 2 ∷ inodestart ∷ bmapstart ∷ []

unfoldable pub super_sector : Sector
super_sector k = byte_of (get_or super_words (k / 4) 0) (k % 4)

-- The file as open leaves it, and after the sectors are cleared.
abbrev pub opened : Image
opened = record { disk = λ b k. 0; blocks = 0; freeblock = nmeta; freeinode = 1 }

abbrev pub cleared : Image
cleared = for_loop (λ i s. wsect s i (λ k. 0)) 0 fssize opened

-- The bytes that fread finds, and how many.
pub record Binary : Type 0 where
  pub size : ℕ
  pub byte : ℕ → ℕ

pub data Argument : Type 0 where
  no_binary : Argument
  unreadable : Argument
  binary : Binary → Argument

-- The loop on fread: `left` bytes come after `off`, in pieces of 4096.
unfoldable pub embed : (rounds : ℕ) → Image → (inum : ℕ) → (ℕ → ℕ) → (off left : ℕ) → Option Image
embed zero s inum byte off left = if left == 0 then some s else none
embed (suc rounds) s inum byte off left = elim (left == 0) [
  | true ↦ some s
  | false ↦
      let got : ℕ = if ltb left 4096 then left else 4096 in
      iappend s inum (λ k. byte (off + k)) got >>= λ s1.
      embed rounds s1 inum byte (off + got) (left - got)
]

abbrev pub etc_name : Chars
etc_name = b'e' ∷ b't' ∷ b'c' ∷ []

abbrev pub bin_name : Chars
bin_name = b'b' ∷ b'i' ∷ b'n' ∷ []

abbrev pub root_name : Chars
root_name = b'r' ∷ b'o' ∷ b'o' ∷ b't' ∷ []

abbrev pub readme_name : Chars
readme_name = b'R' ∷ b'E' ∷ b'A' ∷ b'D' ∷ b'M' ∷ b'E' ∷ []

abbrev pub child_name : Chars
child_name = b'c' ∷ b'h' ∷ b'i' ∷ b'l' ∷ b'd' ∷ []

abbrev pub readme_text : Chars
readme_text =
    b'W' ∷ b'e' ∷ b'l' ∷ b'c' ∷ b'o' ∷ b'm' ∷ b'e' ∷ b' ' ∷ b't' ∷ b'o' ∷ b' ' ∷ b'n' ∷ b'o' ∷ b't'
    ∷ b'u' ∷ b'x' ∷ b'.' ∷ 10 ∷ 10 ∷ b'T' ∷ b'h' ∷ b'i' ∷ b's' ∷ b' ' ∷ b'f' ∷ b'i' ∷ b'l' ∷ b'e'
    ∷ b' ' ∷ b'w' ∷ b'a' ∷ b's' ∷ b' ' ∷ b'w' ∷ b'r' ∷ b'i' ∷ b't' ∷ b't' ∷ b'e' ∷ b'n' ∷ b' '
    ∷ b'b' ∷ b'y' ∷ b' ' ∷ b't' ∷ b'o' ∷ b'o' ∷ b'l' ∷ b's' ∷ b'/' ∷ b'm' ∷ b'k' ∷ b'f' ∷ b's'
    ∷ b'.' ∷ b'c' ∷ b' ' ∷ b'w' ∷ b'h' ∷ b'e' ∷ b'n' ∷ b' ' ∷ b't' ∷ b'h' ∷ b'i' ∷ b's' ∷ b' '
    ∷ b'd' ∷ b'i' ∷ b's' ∷ b'k' ∷ b' ' ∷ b'i' ∷ b'm' ∷ b'a' ∷ b'g' ∷ b'e' ∷ 10 ∷ b'w' ∷ b'a' ∷ b's'
    ∷ b' ' ∷ b'b' ∷ b'u' ∷ b'i' ∷ b'l' ∷ b't' ∷ b' ' ∷ b'-' ∷ b'-' ∷ b' ' ∷ b'i' ∷ b'f' ∷ b' '
    ∷ b'y' ∷ b'o' ∷ b'u' ∷ b' ' ∷ b'c' ∷ b'a' ∷ b'n' ∷ b' ' ∷ b'r' ∷ b'e' ∷ b'a' ∷ b'd' ∷ b' '
    ∷ b't' ∷ b'h' ∷ b'i' ∷ b's' ∷ b',' ∷ b' ' ∷ b't' ∷ b'h' ∷ b'e' ∷ b' ' ∷ b'A' ∷ b'H' ∷ b'C'
    ∷ b'I' ∷ b' ' ∷ b'd' ∷ b'r' ∷ b'i' ∷ b'v' ∷ b'e' ∷ b'r' ∷ b' ' ∷ b'a' ∷ b'n' ∷ b'd' ∷ 10 ∷ b'x'
    ∷ b'v' ∷ b'6' ∷ b'f' ∷ b's' ∷ b' ' ∷ b'a' ∷ b'r' ∷ b'e' ∷ b' ' ∷ b'b' ∷ b'o' ∷ b't' ∷ b'h'
    ∷ b' ' ∷ b'w' ∷ b'o' ∷ b'r' ∷ b'k' ∷ b'i' ∷ b'n' ∷ b'g' ∷ b' ' ∷ b'e' ∷ b'n' ∷ b'd' ∷ b' '
    ∷ b't' ∷ b'o' ∷ b' ' ∷ b'e' ∷ b'n' ∷ b'd' ∷ b'.' ∷ 10 ∷ 10 ∷ b'L' ∷ b'a' ∷ b'y' ∷ b'o' ∷ b'u'
    ∷ b't' ∷ b':' ∷ 10 ∷ b' ' ∷ b' ' ∷ b'/' ∷ b'b' ∷ b'i' ∷ b'n' ∷ b' ' ∷ b' ' ∷ b' ' ∷ b'e' ∷ b'x'
    ∷ b'e' ∷ b'c' ∷ b'u' ∷ b't' ∷ b'a' ∷ b'b' ∷ b'l' ∷ b'e' ∷ b's' ∷ 10 ∷ b' ' ∷ b' ' ∷ b'/' ∷ b'e'
    ∷ b't' ∷ b'c' ∷ b' ' ∷ b' ' ∷ b' ' ∷ b'c' ∷ b'o' ∷ b'n' ∷ b'f' ∷ b'i' ∷ b'g' ∷ b'u' ∷ b'r'
    ∷ b'a' ∷ b't' ∷ b'i' ∷ b'o' ∷ b'n' ∷ 10 ∷ b' ' ∷ b' ' ∷ b'/' ∷ b'r' ∷ b'o' ∷ b'o' ∷ b't' ∷ b' '
    ∷ b' ' ∷ b'r' ∷ b'o' ∷ b'o' ∷ b't' ∷ 39 ∷ b's' ∷ b' ' ∷ b'h' ∷ b'o' ∷ b'm' ∷ b'e' ∷ b' ' ∷ b'd'
    ∷ b'i' ∷ b'r' ∷ b'e' ∷ b'c' ∷ b't' ∷ b'o' ∷ b'r' ∷ b'y' ∷ 10 ∷ []

-- The directories and their links.
unfoldable pub build_tree : Image → Option (ℕ × ℕ × Image)
build_tree s = ialloc s 1 >>= λ root.
    if root.0 == 1
    then (dirlink root.1 root.0 dot root.0 >>= λ s1. dirlink s1 root.0 dot_dot root.0 >>= λ s2.
        make_dir_under_root s2 root.0 etc_name >>= λ etc.
        make_dir_under_root etc.1 root.0 bin_name >>= λ bin.
        make_dir_under_root bin.1 root.0 root_name >>= λ home.
        set_nlink home.1 root.0 (2 + 3) >>= λ s3. some (root.0, bin.0, s3))
    else none

unfoldable pub build_readme : Image → (root_inum : ℕ) → Option Image
build_readme s root_inum = ialloc s 2 >>= λ readme.
    iappend readme.1 readme.0 (char_at readme_text) (length readme_text) >>= λ s1.
    dirlink s1 root_inum readme_name readme.0

unfoldable pub build_child : Image → (bin_inum : ℕ) → Argument → Option Image
build_child s bin_inum no_binary = some s
build_child s bin_inum unreadable = none
build_child s bin_inum (binary b) = ialloc s 2 >>= λ child.
    embed b.size child.1 child.0 b.byte 0 b.size >>= λ s1. dirlink s1 bin_inum child_name child.0

unfoldable pub build : Argument → Option Image
build arg = build_tree (wsect cleared 1 super_sector) >>= λ r.
    build_readme r.2 r.0 >>= λ s1. build_child s1 r.1 arg >>= λ s2. balloc_mark_used s2 s2.freeblock
