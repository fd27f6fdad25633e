-- ===== src/Elf/Examples.antt =====
-- The theorems on the ELF loader of kernel/onion.c at a concrete segment of three pages, with file
-- contents in the first two.
use notux_kernel.Base.{ℕ, List, ◌∷◌, get_or, true, ◌%◌, ◌≡◌, refl, arith, ◌==◌, if◌then◌else◌, []}
use notux_kernel.Machine.{Machine, load64}
use notux_kernel.Elf.{
  File, Phdr, segment_ok, pages_ok, fill_page, header_ok, has_magic, ehdr_of, phdr_of, load16,
  load32,
}
use notux_kernel.Elf.Bounds.{IsPhdr, IsChecked, IsPage, Filled, fill_page-Filled}
use notux_kernel.Elf.Whole.{takes_segments, takes_file}

abbrev machine : Machine
machine = record {
  mem = λ a. 0;
  bitmap = λ i. if i == 0 then 1 else 0;
  kernel_pml4 = 0x1000;
  cr3 = 0x1000;
  kernel_stack = 0;
  invalidated = [];
}

abbrev file : File
file = λ i. i % 256

abbrev segment : Phdr
segment = record {
  p_type = 1;
  p_flags = 6;
  p_offset = 0x100;
  p_vaddr = 0x40_0100;
  p_filesz = 0x1000;
  p_memsz = 0x2000;
}

segment-IsPhdr : IsPhdr segment
segment-IsPhdr = record {
  offset_fits = omega arith;
  vaddr_fits = omega arith;
  filesz_fits = omega arith;
  memsz_fits = omega arith;
}

segment-IsChecked : IsChecked segment 0x2000
unfolding segment_ok pages_ok
segment-IsChecked = record { fits = segment-IsPhdr; segment = refl; pages = refl }

second-IsPage : IsPage segment 0x40_1000
second-IsPage = record { aligned = refl; first = omega arith; last = omega arith }

fill_page-Filled_example :
    Filled machine 0x5000 file 0x2000 segment 0x40_1000
      (fill_page machine 0x5000 file 0x2000 segment 0x40_1000)
fill_page-Filled_example =
    fill_page-Filled machine 0x5000 file 0x2000 segment 0x40_1000 (omega arith) segment-IsChecked
      second-IsPage

-- A file with one segment of two pages.
abbrev elf_bytes : List ℕ
elf_bytes =
    127 ∷ 69 ∷ 76 ∷ 70 ∷ 2 ∷ 1 ∷ 1 ∷ 0 ∷ 0 ∷ 0 ∷ 0 ∷ 0 ∷ 0 ∷ 0 ∷ 0 ∷ 0 ∷ 2 ∷ 0 ∷ 62 ∷ 0 ∷ 1 ∷ 0 ∷ 0
    ∷ 0 ∷ 0 ∷ 1 ∷ 64 ∷ 0 ∷ 0 ∷ 0 ∷ 0 ∷ 0 ∷ 64 ∷ 0 ∷ 0 ∷ 0 ∷ 0 ∷ 0 ∷ 0 ∷ 0 ∷ 0 ∷ 0 ∷ 0 ∷ 0 ∷ 0 ∷ 0
    ∷ 0 ∷ 0 ∷ 0 ∷ 0 ∷ 0 ∷ 0 ∷ 64 ∷ 0 ∷ 56 ∷ 0 ∷ 1 ∷ 0 ∷ 0 ∷ 0 ∷ 0 ∷ 0 ∷ 0 ∷ 0 ∷ 1 ∷ 0 ∷ 0 ∷ 0 ∷ 6
    ∷ 0 ∷ 0 ∷ 0 ∷ 0 ∷ 0 ∷ 0 ∷ 0 ∷ 0 ∷ 0 ∷ 0 ∷ 0 ∷ 0 ∷ 0 ∷ 64 ∷ 0 ∷ 0 ∷ 0 ∷ 0 ∷ 0 ∷ 0 ∷ 0 ∷ 64 ∷ 0
    ∷ 0 ∷ 0 ∷ 0 ∷ 0 ∷ 120 ∷ 0 ∷ 0 ∷ 0 ∷ 0 ∷ 0 ∷ 0 ∷ 0 ∷ 0 ∷ 32 ∷ 0 ∷ 0 ∷ 0 ∷ 0 ∷ 0 ∷ 0 ∷ 0 ∷ 16 ∷ 0
    ∷ 0 ∷ 0 ∷ 0 ∷ 0 ∷ 0 ∷ []

abbrev elf_file : File
elf_file = λ i. get_or elf_bytes i 0 % 256

elf_file-taken : takes_file elf_file 120 ≡ true
unfolding header_ok has_magic ehdr_of phdr_of load16 load32 load64 takes_segments segment_ok
    pages_ok
elf_file-taken = refl
