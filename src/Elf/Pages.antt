-- ===== src/Elf/Pages.antt =====
-- load_elf_into_process of kernel/onion.c, a whole segment: its pages, and the only way to fail.
use notux_kernel.Base.{
  ℕ, zero, suc, ◌+◌, ◌-◌, ◌*◌, ◌%◌, ◌^◌, ◌<◌, ◌≤◌, ◌≡◌, refl, Bool, true, false, arith, ltb, leb,
  ◌==◌, ◌&&◌, update, for_loop_inv, Bool-cases, ◌⊎◌, inl, inr,
}
use notux_kernel.Machine.{Machine, alloc_page}
use notux_kernel.Pmm.{bitmap_test}
use notux_kernel.Pmm.Bitmap.{IsBytes}
use notux_kernel.Pmm.Alloc.{IsFull, alloc-cases}
use notux_kernel.Vmm.{vmm_map_page}
use notux_kernel.Vmm.Frames.{Takes, vmm_map_page-Takes, alloc_page-Takes}
use notux_kernel.Elf.{
  File, Phdr, segment_ok, pages_ok, page_start, page_end, page_count, page_flags, copy_bytes,
  zero_page, fill_page, load_page, load_pages, load_segment, copy_start, copy_end, src_off,
}
use notux_kernel.Elf.Bounds.{IsPhdr, IsChecked, IsPage, fill_page-Filled}

-- The bitmap is one of bytes, and page 0 is never given out.
pub record IsReady (m : Machine) : Type 0 where
  pub bytes : IsBytes m.bitmap
  pub reserved : bitmap_test m.bitmap 0 ≡ true

IsReady-Takes : {m m' : Machine} → Takes m m' → IsReady m → IsReady m'
IsReady-Takes t h = record { bytes = t.bytes h.bytes; reserved = t.used h.bytes 0 h.reserved }

-- With page 0 in use, an allocation fails only when every page is in use.
alloc_page-IsFull :
    (m : Machine) → IsReady m → (alloc_page m).0 ≡ 0 → IsFull (alloc_page m).1.bitmap
unfolding alloc_page
alloc_page-IsFull m h null = elim (alloc-cases m.bitmap) [
  | inl (k, low, e) ↦ absurd (ground (arith, low.free, h.reserved))
  | inr (full, e) ↦ simp e full
]

zero_page-bitmap : (m : Machine) (phys : ℕ) → (zero_page m phys).bitmap ≡ m.bitmap
unfolding zero_page
zero_page-bitmap m phys =
    for_loop_inv (λ i m. record m { mem = update m.mem (phys + i) 0 }) (λ i t. t.bitmap ≡ m.bitmap)
      4096 0 4096 m refl (λ k t lo hi e. e) refl

fill_page-bitmap :
    (m : Machine) (phys : ℕ) (file : File) (file_size : ℕ) (ph : Phdr) (page : ℕ)
    → (fill_page m phys file file_size ph page).1.bitmap ≡ m.bitmap
unfolding fill_page copy_bytes
fill_page-bitmap m phys file file_size ph page =
    let len = copy_end ph page - copy_start ph page in
    let loop =
      for_loop_inv
        (λ j m. record m {
          mem = update m.mem (phys + (copy_start ph page - page) + j) (file (src_off ph page + j));
        })
        (λ i t. t.bitmap ≡ m.bitmap) len 0 len m (omega arith) (λ k t lo hi e. e) refl in
    elim (Bool-cases (leb (copy_end ph page) (copy_start ph page))) [
      | inl empty ↦ rw empty refl
      | inr not_empty ↦ elim (Bool-cases (ltb file_size (src_off ph page))) [
        | inl beyond ↦ rw (not_empty, beyond) refl
        | inr within ↦ elim (Bool-cases (ltb (file_size - src_off ph page) len)) [
          | inl short ↦ rw (not_empty, within, short) refl
          | inr enough ↦ rw (not_empty, within, enough) loop
        ]
      ]
    ]

IsReady-same : {m m' : Machine} → m'.bitmap ≡ m.bitmap → IsReady m → IsReady m'
IsReady-same e h = record { bytes = rw e h.bytes; reserved = rw e h.reserved }

-- Loading went well, or every physical page is in use.
abbrev pub Loaded : Bool × Machine → Type 0
Loaded answer =
    ((answer.0 ≡ true) × IsReady answer.1) ⊎ ((answer.0 ≡ false) × IsFull answer.1.bitmap)

pub page_count-end :
    (ph : Phdr) {file_size : ℕ}
    → IsChecked ph file_size
    → page_start ph + 4096 * page_count ph ≤ page_end ph
unfolding segment_ok pages_ok
page_count-end ph c = ground (arith, c.segment, c.pages)

module _ (file : File) (file_size : ℕ) (ph : Phdr) (small : file_size < 2 ^ 64)
    (c : IsChecked ph file_size) (pml4 : ℕ) where
  load_page-Loaded :
      (m : Machine) (page : ℕ)
      → IsReady m
      → IsPage ph page
      → Loaded (load_page m pml4 file file_size ph page)
  unfolding load_page
  load_page-Loaded m page h p =
      let phys = (alloc_page m).0 in
      let m1 = (alloc_page m).1 in
      let m2 = vmm_map_page (zero_page m1 phys) pml4 page phys (page_flags ph) in
      let ready1 : IsReady m1 = IsReady-Takes (alloc_page-Takes m) h in
      let zeroed : IsReady (zero_page m1 phys) = IsReady-same (zero_page-bitmap m1 phys) ready1 in
      let ready2 : IsReady m2 =
        IsReady-Takes (vmm_map_page-Takes (zero_page m1 phys) pml4 page phys (page_flags ph))
          zeroed in
      elim (Bool-cases (phys == 0)) [
        | inl null ↦ rw null (inr (refl, alloc_page-IsFull m h (ground (arith, null))))
        | inr some_page ↦ rw some_page (
            inl (
              (fill_page-Filled m2 phys file file_size ph page small c p).succeeds,
              IsReady-same (fill_page-bitmap m2 phys file file_size ph page) ready2,
            ))
      ]

  pub load_pages-Loaded :
      (rounds : ℕ) (m : Machine) (page : ℕ)
      → IsReady m
      → page % 4096 ≡ 0
      → page_start ph ≤ page
      → page + 4096 * rounds ≤ page_end ph
      → Loaded (load_pages rounds m pml4 file file_size ph page)
  unfolding load_pages
  load_pages-Loaded zero m page h al lo hi = inl (refl, h)
  load_pages-Loaded (suc rounds) m page h al lo hi =
      elim (load_page-Loaded m page h (record { aligned = al; first = lo; last = omega arith })) [
        | inl (going, ready) ↦
            rw (going, load_pages)
              (load_pages-Loaded rounds (load_page m pml4 file file_size ph page).1 (page + 4096)
                ready (omega arith) (omega arith) (omega arith))
        | inr (stopped, full) ↦ rw (stopped, load_pages) (inr (refl, full))
      ]

-- Loading a segment of a file shorter than 2^64 bytes, where page 0 is in use, ends in one of three
-- ways: the tests on the segment refuse it and nothing changes; or it succeeds; or it fails, and then
-- every physical page is in use.
pub load_segment-Loaded :
    (m : Machine) (pml4 : ℕ) (file : File) (file_size : ℕ) (ph : Phdr)
    → file_size < 2 ^ 64
    → IsPhdr ph
    → IsReady m
    → (((segment_ok ph file_size && pages_ok ph) ≡ false)
        × (load_segment m pml4 file file_size ph ≡ (false, m)))
      ⊎ Loaded (load_segment m pml4 file file_size ph)
unfolding load_segment
load_segment-Loaded m pml4 file file_size ph small fits h =
    elim (Bool-cases (segment_ok ph file_size)) [
      | inr refused ↦ inl (ground arith, rw refused refl)
      | inl checked ↦ elim (Bool-cases (ph.p_memsz == 0)) [
        | inl empty ↦ rw (checked, empty) (inr (inl (refl, h)))
        | inr not_empty ↦ elim (Bool-cases (pages_ok ph)) [
          | inr high ↦ inl (ground arith, rw (checked, not_empty, high) refl)
          | inl low ↦
              let c : IsChecked ph file_size = record {
                fits = fits;
                segment = checked;
                pages = low;
              } in
              rw (checked, not_empty, low)
                (inr (
                  load_pages-Loaded file file_size ph small c pml4 (page_count ph) m (page_start ph)
                    h (omega arith) (omega arith) (page_count-end ph c)))
        ]
      ]
    ]
