-- ===== src/Fat/Tests/Open.antt =====
-- A volume with a directory, and each theorem about the root directory and the opening of its files
-- (tools/fat/fat.c) applied to it.
use tos_sfsu_fall.Base.{◌≡◌, refl, false, ◌&&◌, ◌==◌, ltb, if◌then◌else◌, some, [], ◌∷◌, arith}
use tos_sfsu_fall.Kernel.State.{done, ◌>>=◌, update}
use tos_sfsu_fall.Kernel.Memory.{Memory, peek_w, peek_l}
use tos_sfsu_fall.Fat.{Volume, fs_bio_read}
use tos_sfsu_fall.Fat.Directory.{
  FatDirEntry, dir_file_size, entry_of, first_named, judge, same_name, find_from, format_from,
  tos_fs_format_dir_entry_name, tos_fs_find_dir_entry,
}
use tos_sfsu_fall.Fat.Directory.Search.{find_dir_entry-first_named}
use tos_sfsu_fall.Fat.File.{Files, fs_read, num_fcb, is_valid_fcb_entry, tos_no_error}
use tos_sfsu_fall.Fat.Handle.{ReadsFile}
use tos_sfsu_fall.Fat.Open.{
  unused_fcb, tos_fs_open, tos_fs_close, fs_get_file_size, open-read, close-stale,
}
use tos_sfsu_fall.Fat.Seek.{tos_fs_read, tos_fs_read-fs_read}
use tos_sfsu_fall.Fat.Tests.{
  floppy, floppy-IsDevice, five-IsChain, reading, readable, readable-valid,
}

abbrev blank : Memory
blank i = 0

-- The directory in sector 3: an entry that was deleted, and the file A of three bytes in cluster 5.
abbrev directory : Memory
directory a =
    if a == 1536
    then 0xe5
    else if a == 1568
    then b'A'
    else if ltb 1568 a && ltb a 1579
    then b' '
    else if a == 1594
    then 5
    else if a == 1596
    then 3
    else 0

abbrev shelf : Volume
shelf = record floppy { image = directory }

abbrev file_a : FatDirEntry
file_a = entry_of (fs_bio_read directory blank 3 1) 1

shelf-finds : tos_fs_find_dir_entry shelf blank (b'a' ∷ []) ≡ done (some file_a)
unfolding tos_fs_find_dir_entry tos_fs_format_dir_entry_name format_from find_from judge same_name
    entry_of fs_bio_read
shelf-finds = refl

find_dir_entry-first_named_example : tos_fs_find_dir_entry shelf blank (b'a' ∷ b'.' ∷ b'C' ∷ []) ≡ (
    tos_fs_format_dir_entry_name (b'a' ∷ b'.' ∷ b'C' ∷ []) >>= λ name.
    done (first_named shelf name 16 0))
find_dir_entry-first_named_example =
    find_dir_entry-first_named shelf blank (b'a' ∷ b'.' ∷ b'C' ∷ []) refl

abbrev shelf_files : Files
shelf_files = record readable { volume = shelf }

shelf-unused : unused_fcb shelf_files num_fcb 0 ≡ some 0
unfolding unused_fcb
shelf-unused = refl

file_a-size : dir_file_size file_a ≡ 3
unfolding entry_of fs_bio_read peek_l peek_w
file_a-size = refl

open-read_example :
    (f' : Files) × (tos_fs_open shelf_files blank (b'a' ∷ []) ≡ done (0, f'))
    × (fs_get_file_size f' 0 ≡ (tos_no_error, some (dir_file_size file_a)))
    × (f'.volume ≡ shelf)
    × ReadsFile f' 0 5 [] 0 7
open-read_example =
    open-read shelf_files blank (b'a' ∷ []) file_a 0 7 5 [] shelf-finds shelf-unused (omega arith)
      floppy-IsDevice five-IsChain (unfold entry_of fs_bio_read peek_w in refl)
      (omega (arith, file_a-size)) (omega (arith, file_a-size))

close-stale_example :
    ((tos_fs_close readable 1).0 ≡ tos_no_error)
    × (is_valid_fcb_entry
          (record readable {
            fcb = update (tos_fs_close readable 1).1.fcb 1 (record reading { seq = 1 });
          })
          1
        ≡ false)
    × (is_valid_fcb_entry (tos_fs_close readable 1).1 0 ≡ is_valid_fcb_entry readable 0)
close-stale_example =
    close-stale readable 1 0 (record reading { seq = 1 }) readable-valid (omega arith)
      (unfold tos_fs_close is_valid_fcb_entry in refl) (omega arith)

tos_fs_read-fs_read_example : tos_fs_read readable 1 7 ≡ fs_read readable 1 7
tos_fs_read-fs_read_example = tos_fs_read-fs_read readable 1 7
