-- ===== src/Mkfs/Embed.antt =====
-- mkfs.c: the loop that embeds a file, as one append.
use notux_kernel.Base.{
  ℕ, zero, suc, ◌+◌, ◌-◌, ◌*◌, ◌/◌, ◌%◌, ◌<◌, ◌≤◌, ◌≡◌, ◌≢◌, refl, sym, ap, ◌∙◌, Bool-cases, inl,
  inr, true, false, ◌&&◌, arith, ltb, leb, ◌==◌, ==_refl, if◌then◌else◌, Option, ◌>>=◌,
}
use native.Mathlib.Decide.{ℕ_discrete}
use notux_kernel.Mkfs.{Image, iappend, maxfile, fssize}
use notux_kernel.Mkfs.Build.{embed}
use notux_kernel.Mkfs.Bytes.{Use, inode_limit}
use notux_kernel.Mkfs.Append.{need}
use notux_kernel.Mkfs.Spec.{Tree, appended, Shows, Makes, iappend-Makes}
use notux_kernel.Mkfs.Run.{bind-Yields, done-Yields}

-- Two trees with the same files.
record Same (t t' : Tree) : Type 0 where
  type : (m : ℕ) → t.type m ≡ t'.type m
  nlink : (m : ℕ) → t.nlink m ≡ t'.nlink m
  size : (m : ℕ) → t.size m ≡ t'.size m
  byte : (m i : ℕ) → t.byte m i ≡ t'.byte m i

Makes-Same :
    {r : Option Image} {t t' : Tree} {free free' next : ℕ}
    → Same t t'
    → free ≤ free'
    → Makes r t free next
    → Makes r t' free' next
Makes-Same same le made = record {
  image = made.image;
  uses = made.uses;
  result = made.result;
  shows = record {
    image = made.shows.image;
    blocks = made.shows.blocks;
    free_le = omega (arith, made.shows.free_le, le);
    next_is = made.shows.next_is;
    super = made.shows.super;
    type = λ m lm. made.shows.type m lm ∙ same.type m;
    nlink = λ m lm. made.shows.nlink m lm ∙ same.nlink m;
    size = λ m lm. made.shows.size m lm ∙ same.size m;
    byte = λ m i lm li. made.shows.byte m i lm li ∙ same.byte m i;
  };
}

appended-none : (t : Tree) (n : ℕ) (p : ℕ → ℕ) → Same t (appended t n p 0)
appended-none t n p = record {
  type = λ m. refl;
  nlink = λ m. refl;
  size = λ m. elim (ℕ_discrete n m) [
    | yes e ↦
        (let self : (n == m) ≡ true = ground arith in rw self (ap t.size (sym e) ∙ omega arith))
    | no ne ↦ (let other : (n == m) ≡ false = ground arith in rw other refl)
  ];
  byte = λ m i.
      (let out : leb (t.size n) i && ltb i (t.size n + 0) ≡ false = ground arith in
        elim (Bool-cases (m == n)) [ inl e ↦ rw (e, out) refl | inr e ↦ rw e refl ]);
}

appended-appended :
    (t : Tree) (n : ℕ) (byte : ℕ → ℕ) (off a b : ℕ)
    → Same
        (appended (appended t n (λ k. byte (off + k)) a) n (λ k. byte (off + a + k)) b)
        (appended t n (λ k. byte (off + k)) (a + b))
appended-appended t n byte off a b =
    let self : (n == n) ≡ true = ==_refl n in
    record {
      type = λ m. refl;
      nlink = λ m. refl;
      size = λ m. rw self (ground arith);
      byte = λ m i. rw self (elim (Bool-cases (m == n)) [
        | inr other ↦ rw other refl
        | inl mine ↦ elim (Bool-cases (leb (t.size n + a) i)) [
          | inl high ↦
              let early : leb (t.size n) i && ltb i (t.size n + a) ≡ false = ground arith in
              let late : leb (t.size n + a) i && ltb i (t.size n + a + b)
                  ≡ leb (t.size n) i && ltb i (t.size n + (a + b)) =
                ground arith in
              let place : off + a + (i - (t.size n + a)) ≡ off + (i - t.size n) = ground arith in
              rw (mine, early, late, place) refl
          | inr low ↦
              let late : leb (t.size n + a) i && ltb i (t.size n + a + b) ≡ false = ground arith in
              let early : leb (t.size n) i && ltb i (t.size n + a)
                  ≡ leb (t.size n) i && ltb i (t.size n + (a + b)) =
                ground arith in
              rw (mine, late, early) refl
        ]
      ]);
    }

-- Three blocks for each block of the file.
abbrev pub blocks_for : ℕ → ℕ
blocks_for left = 3 * ((left + 511) / 512)

-- What fread finds of `left` bytes.
abbrev piece : ℕ → ℕ
piece left = if ltb left 4096 then left else 4096

piece-le : (left : ℕ) → piece left ≤ left
piece-le left = ground arith

piece-ge : (left : ℕ) → left ≢ 0 → 1 ≤ piece left
piece-ge left ne = ground arith

need-piece :
    (off left : ℕ)
    → off % 4096 ≡ 0
    → left ≢ 0
    → need off (piece left) + blocks_for (left - piece left) ≤ blocks_for left
need-piece off left start ne = ground arith

whole_piece :
    (off left : ℕ) → off % 4096 ≡ 0 → left - piece left ≢ 0 → (off + piece left) % 4096 ≡ 0
whole_piece off left start ne = ground arith

embed_step :
    (rounds : ℕ) (s : Image) (n : ℕ) (byte : ℕ → ℕ) (off left : ℕ)
    → (left == 0) ≡ false
    → embed (suc rounds) s n byte off left ≡ (
        iappend s n (λ k. byte (off + k)) (piece left) >>= λ s1.
        embed rounds s1 n byte (off + piece left) (left - piece left))
unfolding embed
embed_step rounds s n byte off left more = rw (embed, more) refl

pub embed-Makes :
    (rounds : ℕ) (s : Image) (u : Use) (t : Tree) (free next n : ℕ) (byte : ℕ → ℕ) (off left : ℕ)
    → Shows s u t free next
    → n < inode_limit
    → t.size n ≡ off
    → (left ≢ 0 → off % 4096 ≡ 0)
    → off + left ≤ 512 * maxfile
    → free + blocks_for left ≤ fssize
    → left ≤ rounds
    → Makes
        (embed rounds s n byte off left)
        (appended t n (λ k. byte (off + k)) left)
        (free + blocks_for left)
        next
unfolding embed
embed-Makes zero s u t free next n byte off left sh ln at whole in_file room le =
    let none_left : left ≡ 0 = omega arith in
    rw none_left (
      Makes-Same (appended-none t n (λ k. byte (off + k))) (omega arith)
        (done-Yields s u (λ s'. s') t free next sh))
embed-Makes (suc rounds) s u t free next n byte off left sh ln at whole in_file room le =
    elim (Bool-cases (left == 0)) [
      | inl done ↦
          let none_left : left ≡ 0 = ground arith in
          rw none_left (
            Makes-Same (appended-none t n (λ k. byte (off + k))) (omega arith)
              (done-Yields s u (λ s'. s') t free next sh))
      | inr more ↦
          let got : ℕ = piece left in
          let some_left : left ≢ 0 = ground arith in
          let start = whole some_left in
          let le_got = piece-le left in
          let at_start : t.size n % 4096 ≡ 0 = rw at start in
          let t1 = appended t n (λ k. byte (off + k)) got in
          let self : (n == n) ≡ true = ==_refl n in
          let at1 : t1.size n ≡ off + got = rw (self, at) refl in
          let cost : need (t.size n) got + blocks_for (left - got) ≤ blocks_for left =
            need-piece (t.size n) left at_start some_left in
          let first =
            iappend-Makes s u t free next n (λ k. byte (off + k)) got sh ln
              (omega (arith, at, in_file, le_got)) (omega (arith, cost, room)) in
          let both = bind-Yields _ first (λ s1 u1 h1.
            embed-Makes rounds s1 u1 t1 (free + need (t.size n) got) next n byte (off + got)
              (left - got) h1 ln at1 (λ ne. whole_piece off left start ne)
              (omega (arith, in_file, le_got)) (omega (arith, cost, room))
              (omega (arith, le, le_got, piece-ge left some_left))) in
          let sum : got + (left - got) ≡ left = omega (arith, le_got) in
          let whole_tree = appended-appended t n byte off got (left - got) in
          rw (embed_step rounds s n byte off left more)
            (Makes-Same (rw sum at whole_tree) (omega (arith, cost)) both)
    ]
