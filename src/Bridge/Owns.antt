-- ===== src/Bridge/Owns.antt =====
-- The calls that kernel/Xjail/xv6/xv6fs_ops.c and xv6fs_bridge.c make of kernel/xv6fs/fs.c: what each
-- does to the references and the locks on inodes.
use notux_kernel.Base.{
  ℕ, ◌+◌, ◌-◌, ◌<◌, ◌≡◌, ◌≢◌, ◌∙◌, Bool, true, false, not, ◌&&◌, arith, List, ◌==◌, if◌then◌else◌,
  update,
}
use notux_kernel.Bridge.Files.{Name, Inodes}
use notux_kernel.Bridge.Ops.{let_go}

-- One reference more at `p`, unless `p` is NULL; and one fewer.
abbrev pub more : ℕ → (ℕ → ℕ) → ℕ → ℕ
more p n i = if not (p == 0) && p == i then n i + 1 else n i

abbrev pub fewer : ℕ → (ℕ → ℕ) → ℕ → ℕ
fewer p n i = if p == i then n i - 1 else n i

module _ {D Text : Type 0} (fs : Inodes D Text) where
  -- What the calls of kernel/xv6fs/fs.c do to the references that are held and to the locks.
  pub record Counts (refs : D → ℕ → ℕ) (locked : D → ℕ → Bool) : Type 0 where
    pub namei :
        (d : D) (path : Text) (i : ℕ)
        → refs (fs.namei d path).1 i ≡ more (fs.namei d path).0 (refs d) i
    pub nameiparent :
        (d : D) (path : Text) (i : ℕ)
        → refs (fs.nameiparent d path).2 i ≡ more (fs.nameiparent d path).0 (refs d) i
    pub dirlookup :
        (d : D) (dp : ℕ) (name : Name) (i : ℕ)
        → refs (fs.dirlookup d dp name).2 i ≡ more (fs.dirlookup d dp name).0 (refs d) i
    pub ialloc :
        (d : D) (dev type i : ℕ)
        → refs (fs.ialloc d dev type).1 i ≡ more (fs.ialloc d dev type).0 (refs d) i
    -- ialloc gives an inode that nobody holds.
    pub ialloc_unheld :
        (d : D) (dev type : ℕ) → (fs.ialloc d dev type).0 ≢ 0 → refs d (fs.ialloc d dev type).0 ≡ 0
    pub iput : (d : D) (p i : ℕ) → 0 < refs d p → refs (fs.iput d p) i ≡ fewer p (refs d) i
    pub ilock : (d : D) (p i : ℕ) → locked (fs.ilock d p) i ≡ update (locked d) p true i
    pub iunlock : (d : D) (p i : ℕ) → locked (fs.iunlock d p) i ≡ update (locked d) p false i
    pub refs_ilock : (d : D) (p i : ℕ) → refs (fs.ilock d p) i ≡ refs d i
    pub refs_iunlock : (d : D) (p i : ℕ) → refs (fs.iunlock d p) i ≡ refs d i
    pub refs_iupdate : (d : D) (p i : ℕ) → refs (fs.iupdate d p) i ≡ refs d i
    pub refs_dirlink :
        (d : D) (p : ℕ) (name : Name) (n i : ℕ) → refs (fs.dirlink d p name n).1 i ≡ refs d i
    pub refs_readi : (d : D) (p off n i : ℕ) → refs (fs.readi d p off n).1 i ≡ refs d i
    pub refs_writei :
        (d : D) (p : ℕ) (bytes : List ℕ) (off n i : ℕ)
        → refs (fs.writei d p bytes off n).1 i ≡ refs d i
    pub refs_set_device : (d : D) (p a b i : ℕ) → refs (fs.set_device d p a b) i ≡ refs d i
    pub refs_set_nlink : (d : D) (p n i : ℕ) → refs (fs.set_nlink d p n) i ≡ refs d i
    pub locked_namei : (d : D) (path : Text) (i : ℕ) → locked (fs.namei d path).1 i ≡ locked d i
    pub locked_nameiparent :
        (d : D) (path : Text) (i : ℕ) → locked (fs.nameiparent d path).2 i ≡ locked d i
    pub locked_dirlookup :
        (d : D) (dp : ℕ) (name : Name) (i : ℕ) → locked (fs.dirlookup d dp name).2 i ≡ locked d i
    pub locked_ialloc : (d : D) (dev type i : ℕ) → locked (fs.ialloc d dev type).1 i ≡ locked d i
    pub locked_iput : (d : D) (p i : ℕ) → locked (fs.iput d p) i ≡ locked d i
    pub locked_iupdate : (d : D) (p i : ℕ) → locked (fs.iupdate d p) i ≡ locked d i
    pub locked_dirlink :
        (d : D) (p : ℕ) (name : Name) (n i : ℕ) → locked (fs.dirlink d p name n).1 i ≡ locked d i
    pub locked_readi : (d : D) (p off n i : ℕ) → locked (fs.readi d p off n).1 i ≡ locked d i
    pub locked_writei :
        (d : D) (p : ℕ) (bytes : List ℕ) (off n i : ℕ)
        → locked (fs.writei d p bytes off n).1 i ≡ locked d i
    pub locked_set_device : (d : D) (p a b i : ℕ) → locked (fs.set_device d p a b) i ≡ locked d i
    pub locked_set_nlink : (d : D) (p n i : ℕ) → locked (fs.set_nlink d p n) i ≡ locked d i

  module _ {refs : D → ℕ → ℕ} {locked : D → ℕ → Bool} (c : Counts refs locked) where
    -- The references and the locks of a state.
    pub record Owns (n : ℕ → ℕ) (l : ℕ → Bool) (d : D) : Type 0 where
      pub count : (i : ℕ) → refs d i ≡ n i
      pub locks : (i : ℕ) → locked d i ≡ l i

    module _ {n : ℕ → ℕ} {l : ℕ → Bool} {d : D} (o : Owns n l d) where
      pub locks-Owns : (p : ℕ) → Owns n (update l p true) (fs.ilock d p)
      locks-Owns p = record {
        count = λ i. c.refs_ilock d p i ∙ o.count i;
        locks = λ i. ground (arith, c.ilock d p i, o.locks i);
      }

      pub let_go-Owns : (p : ℕ) → 0 < n p → Owns (fewer p n) (update l p false) (let_go fs d p)
      let_go-Owns p held = record {
        count = λ i. ground (
          arith,
          c.iput (fs.iunlock d p) p i,
          c.refs_iunlock d p i,
          c.refs_iunlock d p p,
          o.count i,
          o.count p,
        );
        locks = λ i. ground (arith, c.locked_iput (fs.iunlock d p) p i, c.iunlock d p i, o.locks i);
      }

      pub nlink-Owns : (p k : ℕ) → Owns n l (fs.iupdate (fs.set_nlink d p k) p)
      nlink-Owns p k = record {
        count = λ i. c.refs_iupdate (fs.set_nlink d p k) p i ∙ c.refs_set_nlink d p k i ∙ o.count i;
        locks =
            λ i. c.locked_iupdate (fs.set_nlink d p k) p i ∙ c.locked_set_nlink d p k i ∙ o.locks i;
      }

      pub device-Owns : (p a b : ℕ) → Owns n l (fs.set_device d p a b)
      device-Owns p a b = record {
        count = λ i. c.refs_set_device d p a b i ∙ o.count i;
        locks = λ i. c.locked_set_device d p a b i ∙ o.locks i;
      }

      pub dirlink-Owns : (p : ℕ) (name : Name) (k : ℕ) → Owns n l (fs.dirlink d p name k).1
      dirlink-Owns p name k = record {
        count = λ i. c.refs_dirlink d p name k i ∙ o.count i;
        locks = λ i. c.locked_dirlink d p name k i ∙ o.locks i;
      }

      pub readi-Owns : (p off k : ℕ) → Owns n l (fs.readi d p off k).1
      readi-Owns p off k = record {
        count = λ i. c.refs_readi d p off k i ∙ o.count i;
        locks = λ i. c.locked_readi d p off k i ∙ o.locks i;
      }

      pub writei-Owns :
          (p : ℕ) (bytes : List ℕ) (off k : ℕ) → Owns n l (fs.writei d p bytes off k).1
      writei-Owns p bytes off k = record {
        count = λ i. c.refs_writei d p bytes off k i ∙ o.count i;
        locks = λ i. c.locked_writei d p bytes off k i ∙ o.locks i;
      }

      pub dirlookup-Owns :
          (p : ℕ) (name : Name)
          → Owns (more (fs.dirlookup d p name).0 n) l (fs.dirlookup d p name).2
      dirlookup-Owns p name = record {
        count = λ i. ground (arith, c.dirlookup d p name i, o.count i);
        locks = λ i. c.locked_dirlookup d p name i ∙ o.locks i;
      }

      pub ialloc-Owns :
          (dev type : ℕ) → Owns (more (fs.ialloc d dev type).0 n) l (fs.ialloc d dev type).1
      ialloc-Owns dev type = record {
        count = λ i. ground (arith, c.ialloc d dev type i, o.count i);
        locks = λ i. c.locked_ialloc d dev type i ∙ o.locks i;
      }

      pub namei-Owns : (path : Text) → Owns (more (fs.namei d path).0 n) l (fs.namei d path).1
      namei-Owns path = record {
        count = λ i. ground (arith, c.namei d path i, o.count i);
        locks = λ i. c.locked_namei d path i ∙ o.locks i;
      }

      pub nameiparent-Owns :
          (path : Text) → Owns (more (fs.nameiparent d path).0 n) l (fs.nameiparent d path).2
      nameiparent-Owns path = record {
        count = λ i. ground (arith, c.nameiparent d path i, o.count i);
        locks = λ i. c.locked_nameiparent d path i ∙ o.locks i;
      }

      -- The same references and locks, written differently.
      pub same-Owns :
          {n' : ℕ → ℕ} {l' : ℕ → Bool}
          → ((i : ℕ) → n i ≡ n' i)
          → ((i : ℕ) → l i ≡ l' i)
          → Owns n' l' d
      same-Owns e f = record { count = λ i. o.count i ∙ e i; locks = λ i. o.locks i ∙ f i }
