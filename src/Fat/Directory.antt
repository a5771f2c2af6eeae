-- ===== src/Fat/Directory.antt =====
-- tools/fat/fat.c: the names and the entries of the root directory.
--
-- A directory entry is its 32 bytes. A name is the list of its bytes, without the byte 0 at its end.
pub mod Search
use tos_sfsu_fall.Base.{
  ℕ, zero, suc, ◌+◌, ◌-◌, ◌*◌, ◌/◌, ◌%◌, ◌^◌, ◌≤◌, ◌<◌, ◌≡◌, refl, sym, ◌∙◌, ap, fun_ext, Bool,
  true, false, not, ◌&&◌, ◌==◌, ltb, ltb_of_lt, leb, if◌then◌else◌, Bool-cases, inl, inr, Option,
  none, some, List, [], ◌∷◌, arith,
}
use tos_sfsu_fall.Kernel.State.{Outcome, done, halt, undefined, ◌>>=◌, update}
use tos_sfsu_fall.Kernel.Memory.{Memory, peek_w, peek_l}
use tos_sfsu_fall.Fat.{Device, Volume, fs_bio_read}

abbrev pub dir_entry_empty : ℕ
dir_entry_empty = 0xe5

abbrev pub dir_entry_last_empty : ℕ
dir_entry_last_empty = 0x00

abbrev pub FatDirEntry : Type 0
FatDirEntry = ℕ → ℕ

-- The entry at an index of a buffer.
unfoldable pub entry_of : Memory → (index : ℕ) → FatDirEntry
entry_of sector index k = if ltb k 32 then sector (index * 32 + k) else 0

abbrev pub dir_fst_clus_hi : FatDirEntry → ℕ
dir_fst_clus_hi e = peek_w e 20

abbrev pub dir_fst_clus_lo : FatDirEntry → ℕ
dir_fst_clus_lo e = peek_w e 26

abbrev pub dir_file_size : FatDirEntry → ℕ
dir_file_size e = peek_l e 28

-- The name field filled with blanks.
abbrev pub blank_name : Memory
blank_name i = b' '

abbrev pub upper : ℕ → ℕ
upper ch = if leb b'a' ch && leb ch b'z' then ch - 32 else ch

-- The loop of `TOS_fs_format_dir_entry_name`; the field has 11 bytes.
unfoldable pub format_from : (name : List ℕ) (i : ℕ) (field : Memory) → Outcome Memory
format_from [] i field = done field
format_from (ch ∷ name) i field =
    if ch == b'.'
    then format_from name 8 field
    else if ltb i 11
    then format_from name (i + 1) (update field i (upper ch))
    else halt undefined

unfoldable pub tos_fs_format_dir_entry_name : List ℕ → Outcome Memory
unfolding format_from
tos_fs_format_dir_entry_name name = format_from name 0 blank_name

-- The comparison of `n` bytes of a name, from the first on.
unfoldable pub same_name : (n k : ℕ) (entry : FatDirEntry) (name : Memory) → Bool
same_name zero k entry name = true
same_name (suc n) k entry name = entry k == name k && same_name n (k + 1) entry name

-- What the loop makes of an entry: the end of the directory, the entry that is looked for, or neither.
unfoldable pub judge :
    (name : Memory) (entry : FatDirEntry) (rest : Option FatDirEntry) → Option FatDirEntry
unfolding same_name
judge name entry rest =
    if entry 0 == dir_entry_last_empty
    then none
    else if not (entry 0 == dir_entry_empty) && same_name 11 0 entry name
    then some entry
    else rest

-- The loop of `TOS_fs_find_dir_entry` for `rounds` entries: the buffer is read at the first entry of a
-- sector, and `cur` is the index of the entry in it.
unfoldable pub find_from :
    Volume → (name : Memory) (rounds i j : ℕ) (sector : Memory) (cur : ℕ) → Option FatDirEntry
find_from v name zero i j sector cur = none
find_from v name (suc rounds) i j sector cur =
    let new = i * 32 % v.dev.bytes_per_sector == 0 in
    let sector₁ =
      if new then fs_bio_read v.image sector (j + v.dev.first_root_dir_sector) 1 else sector in
    let cur₁ = if new then 0 else cur in
    judge name (entry_of sector₁ cur₁)
      (find_from v name rounds (i + 1) (if new then j + 1 else j) sector₁ (cur₁ + 1))

-- `none` is TOS_ERR_FILE_NOT_FOUND. `stack` is what the buffer holds before.
unfoldable pub tos_fs_find_dir_entry :
    Volume → (stack : Memory) → List ℕ → Outcome (Option FatDirEntry)
unfolding tos_fs_format_dir_entry_name find_from
tos_fs_find_dir_entry v stack fname = do
  name ← tos_fs_format_dir_entry_name fname
  done (find_from v name (v.dev.root_dir_secs * v.dev.bytes_per_sector % 2 ^ 32 / 32) 0 0 stack 0)

-- The entry with a number in the root directory, where a sector has 512 bytes.
abbrev pub root_entry : Volume → ℕ → FatDirEntry
root_entry v n k =
    if ltb k 32
    then v.image ((n / 16 + v.dev.first_root_dir_sector) * 512 % 2 ^ 32 + (n % 16 * 32 + k))
    else 0

-- The name of an entry, in all of its 11 bytes.
abbrev pub is_named : (name : Memory) → FatDirEntry → Bool
is_named name e =
    (e 0 == name 0)
    && (e 1 == name 1)
    && (e 2 == name 2)
    && (e 3 == name 3)
    && (e 4 == name 4)
    && (e 5 == name 5)
    && (e 6 == name 6)
    && (e 7 == name 7)
    && (e 8 == name 8)
    && (e 9 == name 9)
    && (e 10 == name 10)

-- The first of `rounds` entries from `n` on that is not deleted (a first byte 0xe5) and has the name,
-- of those before the end of the directory, an entry whose first byte is 0.
abbrev pub first_named : Volume → (name : Memory) (rounds n : ℕ) → Option FatDirEntry
first_named v name zero n = none
first_named v name (suc rounds) n =
    let rest = first_named v name rounds (n + 1) in
    let e = root_entry v n in
    if e 0 == 0x00
    then none
    else if e 0 == 0xe5
    then rest
    else if is_named name e
    then some e
    else rest
