-- ===== src/Mkfs/Examples.antt =====
-- mkfs.c on concrete files.
use notux_kernel.Base.{ℕ, ◌+◌, ◌≡◌, refl, arith, ◌*◌, ◌%◌}
use notux_kernel.Mkfs.{nmeta, iappend}
use notux_kernel.Mkfs.Spec.{Makes, appended, iappend-Makes}
use notux_kernel.Mkfs.Start.{start, no_use, no_files, start-Shows}
use notux_kernel.Mkfs.Build.{Binary, balloc_mark_used, opened, dirent_byte, dot_dot}
use notux_kernel.Mkfs.Build.Bitmap.{Marks, balloc_mark_used-Marks}
use notux_kernel.Mkfs.Contents.{Leaves, build-Leaves}

abbrev pattern : ℕ → ℕ
pattern i = (i * 7 + 3) % 256

abbrev nine_kilobytes : Binary
nine_kilobytes = record { size = 9216; byte = pattern }

build-Leaves_example : Leaves nine_kilobytes
build-Leaves_example = build-Leaves nine_kilobytes (omega arith)

iappend-Makes_example :
    Makes (iappend start 1 pattern 700) (appended no_files 1 pattern 700) (nmeta + 6) 1
iappend-Makes_example =
    iappend-Makes start no_use no_files nmeta 1 1 pattern 700 start-Shows (omega arith)
      (omega arith) (omega arith)

balloc_mark_used-Marks_example : Marks opened 106 (balloc_mark_used opened 106)
balloc_mark_used-Marks_example = balloc_mark_used-Marks opened 106 (omega arith)

parent_entry : dirent_byte dot_dot 1 3 ≡ 46
unfolding dirent_byte
parent_entry = refl
