-- ===== src/Ramfs/Examples.antt =====
-- The search of kernel/ramfs.c on a concrete image of one file, called `sh`.
use notux_kernel.Base.{ℕ, refl, arith, update}
use notux_kernel.Ramfs.{Ramfs, ramfs_open}
use notux_kernel.Ramfs.Lookup.{IsString, Opened, ramfs_open-Opened}

abbrev image : ℕ → ℕ
image = update (update (λ a. 0) 8 b's') 9 b'h'

abbrev one_file : Ramfs
one_file = record { image = image; disk = 0x10_0000; magic = 0x52414D46; file_count = 1 }

abbrev names : ℕ → ℕ
names = update (update (λ a. 0) 0x2000 b's') 0x2001 b'h'

names-IsString : IsString names 0x2000 2
names-IsString = record { body = λ j lt. ground arith; ends = refl }

ramfs_open-Opened_example : Opened one_file names 0x2000 2 (ramfs_open 32 one_file names 0x2000)
ramfs_open-Opened_example =
    ramfs_open-Opened one_file names 0x2000 2 32 names-IsString (omega arith)
