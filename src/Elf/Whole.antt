-- ===== src/Elf/Whole.antt =====
-- load_elf_into_process of kernel/onion.c, a whole file: which files it takes, and the only way to fail
-- on one of these.
use notux_kernel.Base.{
  ℕ, zero, suc, ◌+◌, ◌<◌, ◌≡◌, ◌≢◌, ◌^◌, refl, Bool, true, false, not, arith, ◌==◌, ◌&&◌, ◌||◌,
  if◌then◌else◌, Bool-cases, ◌⊎◌, inl, inr,
}
use notux_kernel.Machine.{Machine}
use notux_kernel.Elf.{
  File, Phdr, phdr_size, ehdr_of, phdr_of, header_ok, segment_ok, pages_ok, page_count, page_start,
  load_segment, load_segments, load_elf_into_process,
}
use notux_kernel.Elf.Bounds.{IsPhdr, IsChecked, phdr_of-IsPhdr}
use notux_kernel.Elf.Pages.{IsReady, Loaded, load_pages-Loaded, page_count-end}

-- A segment that the loader takes: it lies in the file, and in the address space unless it is empty.
abbrev pub takes_segment : Phdr → ℕ → Bool
takes_segment ph file_size = segment_ok ph file_size && (ph.p_memsz == 0 || pages_ok ph)

-- A table of headers that the loader takes: each of type PT_LOAD is of such a segment, and there is one.
unfoldable pub takes_segments : (left : ℕ) → File → (file_size at count : ℕ) → Bool
takes_segments zero file file_size at count = not (count == 0)
takes_segments (suc left) file file_size at count =
    if not ((phdr_of file at).p_type == 1)
    then takes_segments left file file_size (at + phdr_size) count
    else takes_segment (phdr_of file at) file_size
      && takes_segments left file file_size (at + phdr_size) (count + 1)

abbrev pub takes_file : File → ℕ → Bool
takes_file file file_size =
    header_ok file file_size
    && takes_segments (ehdr_of file).e_phnum file file_size (ehdr_of file).e_phoff 0

-- A file that is refused is not loaded; one that is taken is, unless every physical page is in use.
abbrev pub Answers : Bool → Bool × Machine → Type 0
Answers taken answer = ((taken ≡ true) × Loaded answer) ⊎ ((taken ≡ false) × (answer.0 ≡ false))

load_segment-cases :
    (m : Machine) (pml4 : ℕ) (file : File) (file_size : ℕ) (ph : Phdr)
    → file_size < 2 ^ 64
    → IsPhdr ph
    → IsReady m
    → Answers (takes_segment ph file_size) (load_segment m pml4 file file_size ph)
unfolding load_segment
load_segment-cases m pml4 file file_size ph small fits h =
    elim (Bool-cases (segment_ok ph file_size)) [
      | inr refused ↦ inr (ground arith, rw refused refl)
      | inl checked ↦ elim (Bool-cases (ph.p_memsz == 0)) [
        | inl empty ↦ inl (ground arith, rw (checked, empty) (inl (refl, h)))
        | inr not_empty ↦ elim (Bool-cases (pages_ok ph)) [
          | inr high ↦ inr (ground arith, rw (checked, not_empty, high) refl)
          | inl low ↦
              let c : IsChecked ph file_size = record {
                fits = fits;
                segment = checked;
                pages = low;
              } in
              inl (
                ground arith,
                rw (checked, not_empty, low)
                    (load_pages-Loaded file file_size ph small c pml4 (page_count ph) m
                      (page_start ph) h (omega arith) (omega arith) (page_count-end ph c)),
              )
        ]
      ]
    ]

module _ (pml4 : ℕ) (file : File) (file_size : ℕ) (small : file_size < 2 ^ 64)
    (bytes : (i : ℕ) → file i < 256) where
  load_segments-cases :
      (left : ℕ) (m : Machine) (at count : ℕ)
      → IsReady m
      → Answers
          (takes_segments left file file_size at count)
          (load_segments left m pml4 file file_size at count)
  unfolding load_segments takes_segments
  load_segments-cases zero m at count h = elim (Bool-cases (count == 0)) [
    | inl none ↦ rw none (inr (refl, refl))
    | inr some ↦ rw some (inl (refl, inl (refl, h)))
  ]
  load_segments-cases (suc left) m at count h =
      let ph = phdr_of file at in
      elim (Bool-cases (ph.p_type == 1)) [
        | inr other ↦
            rw (other, load_segments, takes_segments)
              (load_segments-cases left m (at + phdr_size) count h)
        | inl load ↦
            elim (load_segment-cases m pml4 file file_size ph small (phdr_of-IsPhdr file at bytes)
              h) [
                | inr (refused, stopped) ↦
                    rw (load, load_segments, takes_segments, refused, stopped) (inr (refl, refl))
                | inl (taken, inr (stopped, full)) ↦
                    elim (Bool-cases
                      (takes_segments left file file_size (at + phdr_size) (count + 1))) [
                        | inl rest ↦
                            rw (load, load_segments, takes_segments, taken, stopped, rest)
                              (inl (refl, inr (refl, full)))
                        | inr rest ↦
                            rw (load, load_segments, takes_segments, taken, stopped, rest)
                              (inr (refl, refl))
                      ]
                | inl (taken, inl (going, ready)) ↦
                    rw (load, load_segments, takes_segments, taken, going)
                      (load_segments-cases left (load_segment m pml4 file file_size ph).1
                        (at + phdr_size) (count + 1) ready)
              ]
      ]

-- A file of fewer than 2^64 bytes, with page tables and page 0 in use: if the tests on its header or on
-- a segment refuse it, the call fails. If they take it, the call succeeds, or it fails and every
-- physical page is in use.
pub load_elf_into_process-Answers :
    (m : Machine) (pml4 : ℕ) (file : File) (file_size : ℕ)
    → pml4 ≢ 0
    → file_size < 2 ^ 64
    → ((i : ℕ) → file i < 256)
    → IsReady m
    → Answers (takes_file file file_size) (load_elf_into_process m pml4 file file_size)
unfolding load_elf_into_process
load_elf_into_process-Answers m pml4 file file_size tables small bytes h =
    let some_tables : (pml4 == 0) ≡ false = ground arith in
    elim (Bool-cases (header_ok file file_size)) [
      | inr refused ↦ rw (some_tables, refused) (inr (refl, refl))
      | inl accepted ↦
          rw (some_tables, accepted)
            (load_segments-cases pml4 file file_size small bytes (ehdr_of file).e_phnum m
              (ehdr_of file).e_phoff 0 h)
    ]
