-- ===== src/Mkfs/Alloc.antt =====
-- mkfs.c: a new inode, and a new number of links, in terms of the files alone.
use notux_kernel.Base.{
  ℕ, ◌+◌, ◌%◌, ◌^◌, ◌<◌, ◌≤◌, ◌≡◌, ◌≢◌, refl, ◌∙◌, true, false, arith, ltb, ◌==◌, ==_refl, update,
  Option, some,
}
use native.Mathlib.Decide.{ℕ_discrete}
use notux_kernel.Mkfs.{Image, Dinode, ipb, iblock, rsect, rinode, winode, ialloc, nmeta}
use notux_kernel.Mkfs.Build.{set_nlink}
use notux_kernel.Mkfs.Inode.{Fits, dinode_at-Fits}
use notux_kernel.Mkfs.Bytes.{Use, inode_limit}
use notux_kernel.Mkfs.Files.{inode_of, view, IsImage, WroteInode, winode-WroteInode}
use notux_kernel.Mkfs.Agree.{agree-bytes}
use notux_kernel.Mkfs.Spec.{
  Tree, created, relinked, Shows, Yields, Makes, WroteInode-IsImage, other-byte, no_bytes,
}

abbrev new_inode : ℕ → Dinode
new_inode type = record { type = type; major = 0; minor = 0; nlink = 1; size = 0; addrs = λ i. 0 }

-- A field after the inode `n` is written.
field_after :
    (f : Dinode → ℕ) (g : ℕ → ℕ) (s s' : Image) (n x m : ℕ)
    → f (inode_of s' n) ≡ x
    → (m ≢ n → f (inode_of s' m) ≡ f (inode_of s m))
    → f (inode_of s m) ≡ g m
    → f (inode_of s' m) ≡ update g n x m
field_after f g s s' n x m it others old = elim (ℕ_discrete m n) [
  | yes e ↦ let self : (n == n) ≡ true = ==_refl n in rw (e, self) it
  | no ne ↦ let other : (n == m) ≡ false = ground arith in rw other (others ne ∙ old)
]

created-Shows :
    (s s1 : Image) (u : Use) (t : Tree) (free next type : ℕ) (s' : Image)
    → Shows s u t free next
    → next < inode_limit
    → s1 ≡ record s { freeinode = next + 1 }
    → WroteInode s1 next (new_inode type) s'
    → Shows s' u (created t next type) free (next + 1)
created-Shows s s1 u t free next type s' sh ln e w' =
    let w : WroteInode (record s { freeinode = next + 1 }) next (new_inode type) s' = rw e at w' in
    let im : IsImage (record s { freeinode = next + 1 }) u = record {
      fs = record {
        null = sh.image.fs.null;
        range = sh.image.fs.range;
        after_meta = sh.image.fs.after_meta;
        fresh = sh.image.fs.fresh;
        roots = sh.image.fs.roots;
        children = sh.image.fs.children;
      };
      bytes = sh.image.bytes;
      present = sh.image.present;
      small = sh.image.small;
    } in
    record {
      image =
          WroteInode-IsImage (record s { freeinode = next + 1 }) u next (new_inode type) s' im
            (λ i li ne. absurd (ne refl)) w;
      blocks = w.blocks ∙ sh.blocks;
      free_le = omega (arith, w.freeblock, sh.free_le);
      next_is = w.freeinode;
      super = w.super ∙ sh.super;
      type = λ m lm.
          field_after (λ d. d.type) t.type s s' next type m w.it.type
            (λ ne. (w.others m lm ne).type) (sh.type m lm);
      nlink = λ m lm.
          field_after (λ d. d.nlink) t.nlink s s' next 1 m w.it.nlink
            (λ ne. (w.others m lm ne).nlink) (sh.nlink m lm);
      size = λ m lm.
          field_after (λ d. d.size) t.size s s' next 0 m w.it.size (λ ne. (w.others m lm ne).size)
            (sh.size m lm);
      byte = λ m i lm li. elim (ℕ_discrete m next) [
        | yes same ↦
            let self : (next == next) ≡ true = ==_refl next in
            rw (same, self) (no_bytes s'.disk (view s' next) i (λ j lj. w.it.addrs j lj) li)
        | no ne ↦
            let other : (m == next) ≡ false = ground arith in
            rw other (
              other-byte (record s { freeinode = next + 1 }) u next (new_inode type) s' im w m i lm
                li ne
              ∙ sh.byte m i lm li)
      ];
    }

-- ialloc gives the next inode.
abbrev pub Allocates : Option (ℕ × Image) → Tree → (free next : ℕ) → Type 0
Allocates r t free next = Yields r (λ s. (next, s)) t free (next + 1)

ialloc-winode :
    (s : Image) (next type : ℕ) (s' : Image)
    → s.freeinode ≡ next
    → next < inode_limit
    → winode (record s { freeinode = next + 1 }) next (new_inode type) ≡ some s'
    → ialloc s type ≡ some (next, s')
unfolding ialloc
ialloc-winode s next type s' e lt w =
    let bumped : (next + 1) % 2 ^ 32 ≡ next + 1 = omega arith in rw (e, bumped, w) refl

pub ialloc-Allocates :
    (s : Image) (u : Use) (t : Tree) (free next type : ℕ)
    → Shows s u t free next
    → next < inode_limit
    → type < 2 ^ 16
    → Allocates (ialloc s type) (created t next type) free next
ialloc-Allocates s u t free next type sh ln lt =
    let s1 : Image = record s { freeinode = next + 1 } in
    let fits : Fits (new_inode type) = record {
      type = lt;
      major = omega arith;
      minor = omega arith;
      nlink = omega arith;
      size = omega arith;
      addrs = λ i li. omega arith;
    } in
    let (s', w) =
      winode-WroteInode s1 next (new_inode type) ln
        (omega (arith, sh.image.present, sh.image.fs.after_meta)) fits in
    record {
      image = s';
      uses = u;
      result = ialloc-winode s next type s' sh.next_is ln w.0;
      shows = created-Shows s s1 u t free next type s' sh ln refl w.1;
    }

relinked-Shows :
    (s : Image) (u : Use) (t : Tree) (free next n nlink : ℕ) (s' : Image)
    → Shows s u t free next
    → n < inode_limit
    → WroteInode s n (record (inode_of s n) { nlink = nlink }) s'
    → Shows s' u (relinked t n nlink) free next
relinked-Shows s u t free next n nlink s' sh ln w = record {
  image =
      WroteInode-IsImage s u n (record (inode_of s n) { nlink = nlink }) s' sh.image
        (λ i li ne. refl) w;
  blocks = w.blocks ∙ sh.blocks;
  free_le = omega (arith, w.freeblock, sh.free_le);
  next_is = w.freeinode ∙ sh.next_is;
  super = w.super ∙ sh.super;
  type =
      λ m lm. field_kept (λ d. d.type) m w.it.type (λ ne. (w.others m lm ne).type) ∙ sh.type m lm;
  nlink = λ m lm.
      field_after (λ d. d.nlink) t.nlink s s' n nlink m w.it.nlink (λ ne. (w.others m lm ne).nlink)
        (sh.nlink m lm);
  size =
      λ m lm. field_kept (λ d. d.size) m w.it.size (λ ne. (w.others m lm ne).size) ∙ sh.size m lm;
  byte = λ m i lm li.
      agree-bytes s (view s) u sh.image.fs s' (view s') w.blocks_same w.freeblock m lm
        (λ j lj.
          field_kept (λ d. d.addrs j) m (w.it.addrs j lj) (λ ne. (w.others m lm ne).addrs j lj))
        i li
      ∙ sh.byte m i lm li;
}
  where
    field_kept :
        (f : Dinode → ℕ) (m : ℕ)
        → f (inode_of s' n) ≡ f (inode_of s n)
        → (m ≢ n → f (inode_of s' m) ≡ f (inode_of s m))
        → f (inode_of s' m) ≡ f (inode_of s m)
    field_kept f m it others = elim (ℕ_discrete m n) [ yes e ↦ rw e it | no ne ↦ others ne ]

set_nlink-winode :
    (s : Image) (n nlink : ℕ) (s' : Image)
    → n < inode_limit
    → nmeta ≤ s.blocks
    → winode s n (record (inode_of s n) { nlink = nlink }) ≡ some s'
    → set_nlink s n nlink ≡ some s'
unfolding set_nlink rinode rsect
set_nlink-winode s n nlink s' ln le w =
    let there : ltb (iblock n) s.blocks ≡ true = ground arith in rw there w

pub set_nlink-Makes :
    (s : Image) (u : Use) (t : Tree) (free next n nlink : ℕ)
    → Shows s u t free next
    → n < inode_limit
    → nlink < 2 ^ 16
    → Makes (set_nlink s n nlink) (relinked t n nlink) free next
set_nlink-Makes s u t free next n nlink sh ln lt =
    let old : Fits (inode_of s n) =
      dinode_at-Fits (s.disk (iblock n)) (n % ipb)
        (λ k. sh.image.bytes (iblock n) k (omega arith)) in
    let fits : Fits (record (inode_of s n) { nlink = nlink }) = record {
      type = old.type;
      major = old.major;
      minor = old.minor;
      nlink = lt;
      size = old.size;
      addrs = old.addrs;
    } in
    let enough : nmeta ≤ s.blocks = omega (arith, sh.image.present, sh.image.fs.after_meta) in
    let (s', w) = winode-WroteInode s n (record (inode_of s n) { nlink = nlink }) ln enough fits in
    record {
      image = s';
      uses = u;
      result = set_nlink-winode s n nlink s' ln enough w.0;
      shows = relinked-Shows s u t free next n nlink s' sh ln w.1;
    }
