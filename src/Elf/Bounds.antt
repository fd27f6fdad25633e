-- ===== src/Elf/Bounds.antt =====
-- load_elf_into_process of kernel/onion.c, one page: what goes where, and from where in the file.
use notux_kernel.Base.{
  ℕ, zero, suc, ◌+◌, ◌-◌, ◌%◌, ◌^◌, ◌<◌, ◌≤◌, ◌≡◌, refl, Bool, true, false, arith, ltb, leb, ◌&&◌,
  if◌then◌else◌, update, for_loop, Bool-cases, ap, inl, inr,
}
use notux_kernel.Machine.{Machine, load64}
use notux_kernel.Elf.{
  File, Phdr, phdr_of, segment_ok, pages_ok, page_start, page_end, copy_bytes, copy_start, copy_end,
  src_off, fill_page,
}

-- The fields of a program header fit in their 64 bits.
pub record IsPhdr (ph : Phdr) : Type 0 where
  pub offset_fits : ph.p_offset < 2 ^ 64
  pub vaddr_fits : ph.p_vaddr < 2 ^ 64
  pub filesz_fits : ph.p_filesz < 2 ^ 64
  pub memsz_fits : ph.p_memsz < 2 ^ 64

load64-lt : (file : File) (a : ℕ) → ((i : ℕ) → file i < 256) → load64 file a < 2 ^ 64
unfolding load64
load64-lt file a bytes = omega (
  arith,
  bytes a,
  bytes (a + 1),
  bytes (a + 2),
  bytes (a + 3),
  bytes (a + 4),
  bytes (a + 5),
  bytes (a + 6),
  bytes (a + 7),
)

-- What is read from a file of bytes is such a header.
pub phdr_of-IsPhdr : (file : File) (a : ℕ) → ((i : ℕ) → file i < 256) → IsPhdr (phdr_of file a)
unfolding phdr_of
phdr_of-IsPhdr file a bytes = record {
  offset_fits = load64-lt file (a + 8) bytes;
  vaddr_fits = load64-lt file (a + 16) bytes;
  filesz_fits = load64-lt file (a + 32) bytes;
  memsz_fits = load64-lt file (a + 40) bytes;
}

-- The segment has passed the tests of the loader.
pub record IsChecked (ph : Phdr) (file_size : ℕ) : Type 0 where
  pub fits : IsPhdr ph
  pub segment : segment_ok ph file_size ≡ true
  pub pages : pages_ok ph ≡ true

-- One of the pages that the loop over the segment comes to.
pub record IsPage (ph : Phdr) (page : ℕ) : Type 0 where
  pub aligned : page % 4096 ≡ 0
  pub first : page_start ph ≤ page
  pub last : page < page_end ph

-- In the segment's part that comes from the file.
abbrev pub in_file : Phdr → ℕ → Bool
in_file ph a = leb ph.p_vaddr a && ltb a (ph.p_vaddr + ph.p_filesz)

copied :
    (i n : ℕ) (m : Machine) (dst : ℕ) (file : File) (src a : ℕ)
    → (for_loop (λ j m. record m { mem = update m.mem (dst + j) (file (src + j)) }) i n m).mem a
      ≡ (if leb (dst + i) a && ltb a (dst + i + n) then file (src + (a - dst)) else m.mem a)
unfolding for_loop
copied i zero m dst file src a = ground arith
copied i (suc n) m dst file src a =
    let now = record m { mem = update m.mem (dst + i) (file (src + i)) } in
    ground (arith, copied (i + 1) n now dst file src a)

copy_bytes-hit :
    (m : Machine) (dst : ℕ) (file : File) (src n a : ℕ)
    → dst ≤ a
    → a < dst + n
    → (copy_bytes m dst file src n).mem a ≡ file (src + (a - dst))
unfolding copy_bytes
copy_bytes-hit m dst file src n a lo hi = ground (arith, copied 0 n m dst file src a)

copy_bytes-miss :
    (m : Machine) (dst : ℕ) (file : File) (src n a : ℕ)
    → (leb dst a && ltb a (dst + n)) ≡ false
    → (copy_bytes m dst file src n).mem a ≡ m.mem a
unfolding copy_bytes
copy_bytes-miss m dst file src n a out = ground (arith, copied 0 n m dst file src a)

-- What the loader leaves in a page at the physical address `phys`.
pub record Filled (m : Machine) (phys : ℕ) (file : File) (file_size : ℕ) (ph : Phdr) (page : ℕ)
    (answer : Bool × Machine) : Type 0 where
  pub succeeds : answer.0 ≡ true
  pub content :
      (j : ℕ)
      → j < 4096
      → answer.1.mem (phys + j) ≡ (
          if in_file ph (page + j)
          then file (ph.p_offset + (page + j - ph.p_vaddr))
          else m.mem (phys + j))
  pub source :
      (j : ℕ) → in_file ph (page + j) ≡ true → ph.p_offset + (page + j - ph.p_vaddr) < file_size
  pub outside : (a : ℕ) → (leb phys a && ltb a (phys + 4096)) ≡ false → answer.1.mem a ≡ m.mem a

record Ranges (ph : Phdr) (file_size page : ℕ) : Type 0 where
  top : page + 4096 < 2 ^ 64
  file_end : ph.p_vaddr + ph.p_filesz < 2 ^ 64
  memory : ph.p_filesz ≤ ph.p_memsz
  in_size : ph.p_offset + ph.p_filesz ≤ file_size

ranges :
    (ph : Phdr) (file_size page : ℕ)
    → file_size < 2 ^ 64
    → IsChecked ph file_size
    → IsPage ph page
    → Ranges ph file_size page
unfolding segment_ok pages_ok
ranges ph file_size page small c p = record {
  top = ground (arith, c.segment, c.pages);
  file_end = ground (arith, c.segment, c.pages);
  memory = ground (arith, c.segment, c.pages);
  in_size = ground (arith, c.segment, c.pages);
}

page_content :
    (m : Machine) (phys : ℕ) (file : File) (file_size : ℕ) (ph : Phdr) (page : ℕ)
    → file_size < 2 ^ 64
    → Ranges ph file_size page
    → IsPage ph page
    → (j : ℕ) → j < 4096
    → leb (copy_end ph page) (copy_start ph page) ≡ false
    → (copy_bytes m
          (phys + (copy_start ph page - page))
          file
          (src_off ph page)
          (copy_end ph page - copy_start ph page)).mem
        (phys + j)
      ≡ (if in_file ph (page + j)
          then file (ph.p_offset + (page + j - ph.p_vaddr))
          else m.mem (phys + j))
page_content m phys file file_size ph page small r p j lt some_bytes =
    let len = copy_end ph page - copy_start ph page in
    let dst = phys + (copy_start ph page - page) in
    let src = src_off ph page in
    elim (Bool-cases (in_file ph (page + j))) [
      | inl y ↦
          let place : src + (phys + j - dst) ≡ ph.p_offset + (page + j - ph.p_vaddr) =
            ground (arith, r.top, r.file_end, r.in_size) in
          rw
            (
              y,
              copy_bytes-hit m dst file src len (phys + j) (ground (arith, r.top))
                  (ground (arith, r.top, r.file_end)),
            )
            (ap file place)
      | inr n ↦
          rw (n, copy_bytes-miss m dst file src len (phys + j) (ground (arith, r.top, r.file_end)))
            refl
    ]

-- For a segment that has passed the tests, with a file of less than 2^64 bytes, filling one of its
-- pages never fails: the loader's further tests on the offset never refuse. Each byte of the page is
-- the file's where the segment has file contents and is left as it was elsewhere, each byte that is
-- read lies inside the file, and no byte outside the page is written.
pub fill_page-Filled :
    (m : Machine) (phys : ℕ) (file : File) (file_size : ℕ) (ph : Phdr) (page : ℕ)
    → file_size < 2 ^ 64
    → IsChecked ph file_size
    → IsPage ph page
    → Filled m phys file file_size ph page (fill_page m phys file file_size ph page)
unfolding fill_page
fill_page-Filled m phys file file_size ph page small c p =
    let r = ranges ph file_size page small c p in
    let len = copy_end ph page - copy_start ph page in
    let dst = phys + (copy_start ph page - page) in
    elim (Bool-cases (leb (copy_end ph page) (copy_start ph page))) [
      | inl empty ↦ rw empty (record {
        succeeds = refl;
        content = λ j lt. ground (arith, r.top, r.file_end, r.in_size);
        source = λ j h. ground (arith, r.top, r.file_end, r.in_size);
        outside = λ a h. refl;
      })
      | inr some_bytes ↦
          let inside : ltb file_size (src_off ph page) ≡ false =
            ground (arith, r.top, r.file_end, r.in_size) in
          let enough : ltb (file_size - src_off ph page) len ≡ false =
            ground (arith, r.top, r.file_end, r.in_size) in
          rw (some_bytes, inside, enough)
            (record {
              succeeds = refl;
              content =
                  λ j lt. page_content m phys file file_size ph page small r p j lt some_bytes;
              source = λ j h. ground (arith, r.top, r.file_end, r.in_size);
              outside = λ a h.
                  copy_bytes-miss m dst file (src_off ph page) len a
                    (ground (arith, r.top, r.file_end, r.in_size));
            })
    ]
