-- ===== src/Fat/Directory/Search.antt =====
-- `TOS_fs_find_dir_entry` reads each sector of the root directory once; it finds what a search among the
-- entries by their numbers finds.
use tos_sfsu_fall.Base.{
  ℕ, zero, suc, ◌+◌, ◌*◌, ◌/◌, ◌%◌, ◌^◌, ◌<◌, ◌≡◌, ◌≢◌, refl, sym, ◌∙◌, ap, fun_ext, true, false,
  ◌==◌, ltb, ltb_of_lt, if◌then◌else◌, Bool-cases, inl, inr, Option, none, some, List, arith,
}
use tos_sfsu_fall.Kernel.State.{Outcome, done, ◌>>=◌}
use tos_sfsu_fall.Kernel.Memory.{Memory}
use tos_sfsu_fall.Fat.{Volume, fs_bio_read}
use tos_sfsu_fall.Fat.Directory.{
  FatDirEntry, same_name, is_named, judge, entry_of, find_from, root_entry, first_named,
  tos_fs_format_dir_entry_name, tos_fs_find_dir_entry,
}

-- The bytes of the sector of entry `i`.
abbrev root_byte : Volume → (i x : ℕ) → ℕ
root_byte v i x = v.image ((i / 16 + v.dev.first_root_dir_sector) * 512 % 2 ^ 32 + x)

-- What the loop keeps before entry `i`: the sectors that were read, and the last of them in the buffer.
record Scans (v : Volume) (i j : ℕ) (sector : Memory) (cur : ℕ) : Type 0 where
  sectors : j ≡ (i + 15) / 16
  index : i % 16 ≢ 0 → cur ≡ i % 16
  buffer : i % 16 ≢ 0 → (x : ℕ) → x < 512 → sector x ≡ root_byte v i x

entry_of-root_entry :
    (v : Volume) (i : ℕ) (sector : Memory) (cur : ℕ)
    → cur ≡ i % 16
    → ((x : ℕ) → x < 512 → sector x ≡ root_byte v i x)
    → entry_of sector cur ≡ root_entry v i
unfolding entry_of
entry_of-root_entry v i sector cur at same = fun_ext λ k. elim (Bool-cases (ltb k 32)) [
  | inl e ↦ rw (e, at) (same (i % 16 * 32 + k) (ground (arith, e)))
  | inr e ↦ rw e
]

read-root :
    (v : Volume) (i j x : ℕ) (sector : Memory)
    → j ≡ i / 16
    → x < 512
    → fs_bio_read v.image sector (j + v.dev.first_root_dir_sector) 1 x ≡ root_byte v i x
unfolding fs_bio_read
read-root v i j x sector at low = rw (ltb_of_lt x 512 low, at)

-- The sector with entry `i`, read anew or not, serves the next entry too.
Scans-next :
    (v : Volume) (i j : ℕ) (sector : Memory) (cur : ℕ)
    → j ≡ i / 16 + 1
    → cur ≡ i % 16
    → ((x : ℕ) → x < 512 → sector x ≡ root_byte v i x)
    → Scans v (i + 1) j sector (cur + 1)
Scans-next v i j sector cur count at same = record {
  sectors = omega arith;
  index = λ n. omega (arith, n);
  buffer = λ n x low.
      let block : (i + 1) / 16 ≡ i / 16 = omega (arith, n) in
      same x low
      ∙ ap (λ b. v.image ((b + v.dev.first_root_dir_sector) * 512 % 2 ^ 32 + x)) (sym block);
}

-- The loop compares the whole name.
same_name-is_named : (e : FatDirEntry) (name : Memory) → same_name 11 0 e name ≡ is_named name e
unfolding same_name
same_name-is_named e name = ground arith

judge_lem :
    (name : Memory) (e : FatDirEntry) (rest : Option FatDirEntry)
    → judge name e rest ≡ (
        if e 0 == 0x00
        then none
        else if e 0 == 0xe5
        then rest
        else if is_named name e
        then some e
        else rest)
unfolding judge
judge_lem name e rest = rw (same_name-is_named e name) (ground arith)

find_from-first_named :
    (v : Volume) (name : Memory) (rounds i j : ℕ) (sector : Memory) (cur : ℕ)
    → v.dev.bytes_per_sector ≡ 512
    → Scans v i j sector cur
    → find_from v name rounds i j sector cur ≡ first_named v name rounds i
unfolding find_from
find_from-first_named v name zero i j sector cur d s = refl
find_from-first_named v name (suc rounds) i j sector cur d s = elim (Bool-cases (i % 16 == 0)) [
  | inl e ↦
      let new : (i * 32 % v.dev.bytes_per_sector == 0) ≡ true =
        ap (λ n. i * 32 % n == 0) d ∙ ground (arith, e) in
      let sector₁ = fs_bio_read v.image sector (j + v.dev.first_root_dir_sector) 1 in
      let at : j ≡ i / 16 = ground (arith, e, s.sectors) in
      let same : (x : ℕ) → x < 512 → sector₁ x ≡ root_byte v i x =
        λ x low. read-root v i j x sector at low in
      let zeroth : 0 ≡ i % 16 = ground (arith, e) in
      rw
        (
          new,
          entry_of-root_entry v i sector₁ 0 zeroth same,
          find_from-first_named v name rounds (i + 1) (j + 1) sector₁ (0 + 1) d
              (Scans-next v i (j + 1) sector₁ 0 (omega (arith, at)) zeroth same),
        )
        (judge_lem name (root_entry v i) (first_named v name rounds (i + 1)))
  | inr e ↦
      let new : (i * 32 % v.dev.bytes_per_sector == 0) ≡ false =
        ap (λ n. i * 32 % n == 0) d ∙ ground (arith, e) in
      let ne : i % 16 ≢ 0 = ground (arith, e) in
      rw
        (
          new,
          entry_of-root_entry v i sector cur (s.index ne) (s.buffer ne),
          find_from-first_named v name rounds (i + 1) j sector (cur + 1) d (
              Scans-next v i j sector cur (omega (arith, s.sectors, ne)) (s.index ne)
                (s.buffer ne)),
        )
        (judge_lem name (root_entry v i) (first_named v name rounds (i + 1)))
]

-- With sectors of 512 bytes, `TOS_fs_find_dir_entry` finds the first entry of the root directory that
-- has the name in all 11 bytes and was not deleted, among those before the end of the directory, and none
-- where there is no such entry, whatever the buffer held before.
pub find_dir_entry-first_named :
    (v : Volume) (stack : Memory) (fname : List ℕ)
    → v.dev.bytes_per_sector ≡ 512
    → tos_fs_find_dir_entry v stack fname ≡ (
        tos_fs_format_dir_entry_name fname >>= λ name.
        done (first_named v name (v.dev.root_dir_secs * 512 % 2 ^ 32 / 32) 0))
unfolding tos_fs_find_dir_entry
find_dir_entry-first_named v stack fname d =
    let none_read : Scans v 0 0 stack 0 = record {
      sectors = omega arith;
      index = λ n. absurd (n (omega arith));
      buffer = λ n x low. absurd (n (omega arith));
    } in
    rw (ap (λ n. v.dev.root_dir_secs * n % 2 ^ 32 / 32) d) (
      ap (λ (g : Memory → Outcome (Option FatDirEntry)). tos_fs_format_dir_entry_name fname >>= g)
        (fun_ext λ name. ap done (
          find_from-first_named v name (v.dev.root_dir_secs * 512 % 2 ^ 32 / 32) 0 0 stack 0 d
            none_read)))
