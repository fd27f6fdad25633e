-- ===== src/Elf.antt =====
-- The ELF loader of kernel/onion.c, load_elf_into_process. The file is a function from an offset to
-- the byte there; every return of -1 is `false`. What is printed to the serial line is left out.
pub mod Bounds
pub mod Pages
pub mod Whole
mod Examples
use notux_kernel.Base.{
  ℕ, zero, suc, ◌+◌, ◌-◌, ◌*◌, ◌/◌, ◌%◌, ◌^◌, Bool, true, false, not, ◌&&◌, ◌||◌, ltb, leb, ◌==◌,
  if◌then◌else◌, update, for_loop,
}
use notux_kernel.Machine.{Machine, load64, alloc_page}
use notux_kernel.Vmm.{vmm_map_page}

abbrev pub File : Type 0
File = ℕ → ℕ

unfoldable pub load16 : File → ℕ → ℕ
load16 file a = file a + 256 * file (a + 1)

unfoldable pub load32 : File → ℕ → ℕ
load32 file a = file a + 256 * file (a + 1) + 256 ^ 2 * file (a + 2) + 256 ^ 3 * file (a + 3)

-- The fields of `elf64_ehdr_t` that are read.
pub record Ehdr : Type 0 where
  pub e_type : ℕ
  pub e_machine : ℕ
  pub e_entry : ℕ
  pub e_phoff : ℕ
  pub e_phentsize : ℕ
  pub e_phnum : ℕ

-- The fields of `elf64_phdr_t` that are read.
pub record Phdr : Type 0 where
  pub p_type : ℕ
  pub p_flags : ℕ
  pub p_offset : ℕ
  pub p_vaddr : ℕ
  pub p_filesz : ℕ
  pub p_memsz : ℕ

unfoldable pub ehdr_of : File → Ehdr
ehdr_of file = record {
  e_type = load16 file 16;
  e_machine = load16 file 18;
  e_entry = load64 file 24;
  e_phoff = load64 file 32;
  e_phentsize = load16 file 54;
  e_phnum = load16 file 56;
}

unfoldable pub phdr_of : File → ℕ → Phdr
phdr_of file a = record {
  p_type = load32 file a;
  p_flags = load32 file (a + 4);
  p_offset = load64 file (a + 8);
  p_vaddr = load64 file (a + 16);
  p_filesz = load64 file (a + 32);
  p_memsz = load64 file (a + 40);
}

abbrev pub ehdr_size : ℕ
ehdr_size = 64

abbrev pub phdr_size : ℕ
phdr_size = 56

-- 0x7F, 'E', 'L', 'F'
pub has_magic : File → Bool
has_magic file = file 0 == 0x7F && file 1 == b'E' && file 2 == b'L' && file 3 == b'F'

-- The tests on the header, in the order of the code.
pub header_ok : File → ℕ → Bool
header_ok file file_size =
    let ehdr = ehdr_of file in
    let ph_size = ehdr.e_phnum * ehdr.e_phentsize % 2 ^ 64 in
    if ltb file_size ehdr_size
    then false
    else if not (has_magic file)
    then false
    else if not (file 4 == 2)
    then false
    else if not (file 5 == 1)
    then false
    else if not (ehdr.e_machine == 62)
    then false
    else if not (ehdr.e_type == 2) && not (ehdr.e_type == 3)
    then false
    else if ehdr.e_phnum == 0
    then false
    else if not (ehdr.e_phentsize == phdr_size)
    then false
    else if ltb file_size ehdr.e_phoff
    then false
    else if ltb (file_size - ehdr.e_phoff) ph_size
    then false
    else true

abbrev pub seg_end : Phdr → ℕ
seg_end ph = (ph.p_vaddr + ph.p_memsz) % 2 ^ 64

-- The tests on a segment of type PT_LOAD that is not empty.
pub segment_ok : Phdr → ℕ → Bool
segment_ok ph file_size =
    if ltb ph.p_memsz ph.p_filesz
    then false
    else if ltb file_size ph.p_offset
    then false
    else if ltb (file_size - ph.p_offset) ph.p_filesz
    then false
    else if ltb (seg_end ph) ph.p_vaddr
    then false
    else true

abbrev pub page_start : Phdr → ℕ
page_start ph = ph.p_vaddr - ph.p_vaddr % 4096

abbrev pub page_end : Phdr → ℕ
page_end ph = let up = (seg_end ph + 0xFFF) % 2 ^ 64 in up - up % 4096

-- The tests on the pages of a segment that is not empty.
pub pages_ok : Phdr → Bool
pages_ok ph =
    if ltb 0xFFFF_FFFF_FFFF_F000 (seg_end ph)
    then false
    else if ltb (page_end ph) (seg_end ph)
    then false
    else true

-- PAGE_USER, with PAGE_WRITE where the segment is writable.
abbrev pub page_flags : Phdr → ℕ
page_flags ph = if ph.p_flags / 2 % 2 == 1 then 6 else 4

-- `for (j = 0; j < n; j++) dst[j] = src[j];` on bytes.
pub copy_bytes : Machine → ℕ → File → ℕ → ℕ → Machine
copy_bytes m dst file src n =
    for_loop (λ j m. record m { mem = update m.mem (dst + j) (file (src + j)) }) 0 n m

pub zero_page : Machine → ℕ → Machine
zero_page m phys = for_loop (λ i m. record m { mem = update m.mem (phys + i) 0 }) 0 4096 m

abbrev pub copy_start : Phdr → ℕ → ℕ
copy_start ph page = if ltb page ph.p_vaddr then ph.p_vaddr else page

abbrev pub copy_end : Phdr → ℕ → ℕ
copy_end ph page =
    let file_end = (ph.p_vaddr + ph.p_filesz) % 2 ^ 64 in
    let next = (page + 4096) % 2 ^ 64 in if ltb file_end next then file_end else next

abbrev pub src_off : Phdr → ℕ → ℕ
src_off ph page = (ph.p_offset + (copy_start ph page - ph.p_vaddr)) % 2 ^ 64

-- What one page takes from the file, once it is mapped.
pub fill_page : Machine → ℕ → File → ℕ → Phdr → ℕ → Bool × Machine
fill_page m phys file file_size ph page =
    let len = copy_end ph page - copy_start ph page in
    if leb (copy_end ph page) (copy_start ph page)
    then (true, m)
    else if ltb file_size (src_off ph page)
    then (false, m)
    else if ltb (file_size - src_off ph page) len
    then (false, m)
    else (true, copy_bytes m (phys + (copy_start ph page - page)) file (src_off ph page) len)

-- One round of the loop over the pages of a segment.
pub load_page : Machine → ℕ → File → ℕ → Phdr → ℕ → Bool × Machine
load_page m pml4 file file_size ph page =
    let (phys, m1) = alloc_page m in
    if phys == 0
    then (false, m1)
    else (let m2 = vmm_map_page (zero_page m1 phys) pml4 page phys (page_flags ph) in
        fill_page m2 phys file file_size ph page)

-- The loop, with the number of pages left.
pub load_pages : ℕ → Machine → ℕ → File → ℕ → Phdr → ℕ → Bool × Machine
load_pages zero m pml4 file file_size ph page = (true, m)
load_pages (suc rounds) m pml4 file file_size ph page =
    let (going, m1) = load_page m pml4 file file_size ph page in
    let rest = load_pages rounds m1 pml4 file file_size ph (page + 4096) in
    if going then rest else (false, m1)

abbrev pub page_count : Phdr → ℕ
page_count ph = (page_end ph - page_start ph) / 4096

pub load_segment : Machine → ℕ → File → ℕ → Phdr → Bool × Machine
load_segment m pml4 file file_size ph =
    if not (segment_ok ph file_size)
    then (false, m)
    else if ph.p_memsz == 0
    then (true, m)
    else if not (pages_ok ph)
    then (false, m)
    else load_pages (page_count ph) m pml4 file file_size ph (page_start ph)

-- The loop over the program headers, with the number of headers left, the offset of the next one
-- and the number of PT_LOAD segments so far. It ends with the test that there was one.
pub load_segments : ℕ → Machine → ℕ → File → ℕ → ℕ → ℕ → Bool × Machine
load_segments zero m pml4 file file_size at count = (not (count == 0), m)
load_segments (suc left) m pml4 file file_size at count =
    let ph = phdr_of file at in
    let skipped = load_segments left m pml4 file file_size (at + phdr_size) count in
    let (going, m1) = load_segment m pml4 file file_size ph in
    let rest = load_segments left m1 pml4 file file_size (at + phdr_size) (count + 1) in
    if not (ph.p_type == 1) then skipped else (if going then rest else (false, m1))

pub load_elf_into_process : Machine → ℕ → File → ℕ → Bool × Machine
load_elf_into_process m pml4 file file_size =
    if pml4 == 0
    then (false, m)
    else if not (header_ok file file_size)
    then (false, m)
    else (let ehdr = ehdr_of file in
        load_segments ehdr.e_phnum m pml4 file file_size ehdr.e_phoff 0)
