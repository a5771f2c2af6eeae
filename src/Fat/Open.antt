-- ===== src/Fat/Open.antt =====
-- tools/fat/fat.c: opening and closing a file of the root directory.
use tos_sfsu_fall.Base.{
  ℕ, zero, suc, ◌+◌, ◌*◌, ◌/◌, ◌%◌, ◌^◌, ◌≤◌, ◌<◌, ◌≡◌, ◌≢◌, refl, sym, ◌∙◌, ap, subst, true, false,
  ◌&&◌, ◌==◌, ==_refl, ltb, if◌then◌else◌, Bool-cases, inl, inr, Option, none, some, List, length,
  arith,
}
use tos_sfsu_fall.Kernel.State.{Outcome, done, ◌>>=◌, update}
use tos_sfsu_fall.Kernel.Memory.{Memory}
use tos_sfsu_fall.Fat.Chain.{IsChain}
use tos_sfsu_fall.Fat.Content.{IsDevice}
use tos_sfsu_fall.Fat.Directory.{
  FatDirEntry, dir_fst_clus_hi, dir_fst_clus_lo, dir_file_size, tos_fs_find_dir_entry,
}
use tos_sfsu_fall.Fat.File.{
  FcbEntry, Files, num_fcb, fcb_entry, is_valid_fcb_entry, minus, tos_no_error,
  tos_err_bad_file_descr,
}
use tos_sfsu_fall.Fat.Handle.{block, ReadsFile, fs_read-content}
use tos_sfsu_fall.Fat.Read.{IsReading}

abbrev pub tos_err_file_not_found : ℕ
tos_err_file_not_found = minus 1

abbrev pub tos_err_fcb_full : ℕ
tos_err_fcb_full = minus 2

-- The first block of `rounds` from `i` on that is unused.
unfoldable pub unused_fcb : Files → (rounds i : ℕ) → Option ℕ
unused_fcb f zero i = none
unused_fcb f (suc rounds) i =
    let rest = unused_fcb f rounds (i + 1) in if (f.fcb i).used then rest else some i

abbrev pub first_cluster_of : FatDirEntry → ℕ
first_cluster_of e = dir_fst_clus_lo e + dir_fst_clus_hi e * 2 ^ 16

-- The block for an entry. The mode stays as it was.
unfoldable pub opened : FcbEntry → FatDirEntry → FcbEntry
opened b e = record b {
  used = true;
  file_size = dir_file_size e;
  pos = 0;
  first_cluster = first_cluster_of e;
  current_cluster = first_cluster_of e;
}

-- The descriptor of a block: the index below the count of its uses.
abbrev pub descriptor : Files → (i : ℕ) → ℕ
descriptor f i = i + (f.fcb i).seq * 2 ^ 16 % 2 ^ 32

-- The file of an entry gets the block that was found.
unfoldable pub open_at : Files → FatDirEntry → (unused : Option ℕ) → ℕ × Files
unfolding opened
open_at f e none = (tos_err_fcb_full, f)
open_at f e (some i) = (descriptor f i, record f { fcb = update f.fcb i (opened (f.fcb i) e) })

-- `stack` is what the buffer for a sector holds before.
unfoldable pub tos_fs_open : Files → (stack : Memory) → (file_name : List ℕ) → Outcome (ℕ × Files)
unfolding open_at unused_fcb
tos_fs_open f stack file_name = do
  found ← tos_fs_find_dir_entry f.volume stack file_name
  elim found [
    | none ↦ done (tos_err_file_not_found, f)
    | some e ↦ done (open_at f e (unused_fcb f num_fcb 0))
  ]

unfoldable pub tos_fs_close : Files → (fd : ℕ) → ℕ × Files
unfolding is_valid_fcb_entry
tos_fs_close f fd =
    let b = f.fcb (fcb_entry fd) in
    if is_valid_fcb_entry f fd
    then (
      tos_no_error,
      record f {
        fcb = update f.fcb (fcb_entry fd) (record b { used = false; seq = (b.seq + 1) % 2 ^ 16 });
      },
    )
    else (tos_err_bad_file_descr, f)

unfoldable pub tos_fs_is_eof : Files → (fd : ℕ) → ℕ
unfolding is_valid_fcb_entry
tos_fs_is_eof f fd =
    let b = f.fcb (fcb_entry fd) in
    if is_valid_fcb_entry f fd
    then (if b.pos == b.file_size then 1 else 0)
    else tos_err_bad_file_descr

-- The size, where the descriptor is valid.
unfoldable pub fs_get_file_size : Files → (fd : ℕ) → ℕ × Option ℕ
unfolding is_valid_fcb_entry
fs_get_file_size f fd =
    if is_valid_fcb_entry f fd
    then (tos_no_error, some (f.fcb (fcb_entry fd)).file_size)
    else (tos_err_bad_file_descr, none)

unused_fcb-unused :
    (f : Files) (rounds i k : ℕ)
    → unused_fcb f rounds i ≡ some k
    → (i ≤ k) × (k < i + rounds) × ((f.fcb k).used ≡ false)
unfolding unused_fcb
unused_fcb-unused f zero i k h = ground (arith, h)
unused_fcb-unused f (suc rounds) i k h = elim (Bool-cases (f.fcb i).used) [
  | inl e ↦
      let rest = unused_fcb-unused f rounds (i + 1) k (rw e at h) in
      (omega (arith, rest.0), omega (arith, rest.1), rest.2)
  | inr e ↦
      let here : some i ≡ some k = rw e at h in
      let same : i ≡ k = ground (arith, here) in
      (omega (arith, same), omega (arith, same), subst (λ j. (f.fcb j).used ≡ false) same e)
]

-- A block that is opened is named by its descriptor.
opened-valid :
    (f : Files) (i : ℕ) (e : FatDirEntry)
    → i < 20
    → (f.fcb i).seq < 2 ^ 15
    → (fcb_entry (descriptor f i) ≡ i)
      × (is_valid_fcb_entry
            (record f { fcb = update f.fcb i (opened (f.fcb i) e) })
            (descriptor f i)
          ≡ true)
unfolding is_valid_fcb_entry opened
opened-valid f i e low small =
    let index : fcb_entry (descriptor f i) ≡ i = omega arith in
    let count : descriptor f i / 2 ^ 16 ≡ (f.fcb i).seq = omega arith in
    let few : ltb i num_fcb ≡ true = ground arith in
    let positive : ltb (descriptor f i) (2 ^ 31) ≡ true = ground arith in
    (index, rw (index, ==_refl i, few, positive, count, ==_refl (f.fcb i).seq))

get_file_size-valid :
    (f : Files) (fd : ℕ)
    → is_valid_fcb_entry f fd ≡ true
    → fs_get_file_size f fd ≡ (tos_no_error, some (block f fd).file_size)
unfolding fs_get_file_size
get_file_size-valid f fd valid = rw valid

open-returns :
    (f : Files) (stack : Memory) (file_name : List ℕ) (e : FatDirEntry) (i : ℕ)
    → tos_fs_find_dir_entry f.volume stack file_name ≡ done (some e)
    → unused_fcb f num_fcb 0 ≡ some i
    → tos_fs_open f stack file_name
      ≡ done (descriptor f i, record f { fcb = update f.fcb i (opened (f.fcb i) e) })
unfolding tos_fs_open open_at
open-returns f stack file_name e i found unused =
    let named : tos_fs_open f stack file_name ≡ done (open_at f e (unused_fcb f num_fcb 0)) =
      rw found in
    named ∙ ap (λ u. done (open_at f e u)) unused

-- Opening a file of the root directory by its name and reading it: where `TOS_fs_find_dir_entry` finds
-- the entry and a control block is unused, `TOS_fs_open` returns a descriptor by which
-- `fs_get_file_size` gives the size of the entry, and `fs_read` the bytes of the file from its start,
-- as many as are asked for or as the file has. The chain of the file reaches its size of 32 bits, a
-- sector of the volume has 512 bytes, and the block was used less than 2 ^ 15 times.
pub open-read :
    (f : Files) (stack : Memory) (file_name : List ℕ) (e : FatDirEntry) (i n c : ℕ) (ds : List ℕ)
    → tos_fs_find_dir_entry f.volume stack file_name ≡ done (some e)
    → unused_fcb f num_fcb 0 ≡ some i
    → (f.fcb i).seq < 2 ^ 15
    → IsDevice f.volume.dev
    → IsChain f.volume.dev c ds
    → first_cluster_of e ≡ c
    → dir_file_size e ≤ (length ds + 1) * (512 * f.volume.dev.sectors_per_cluster)
    → dir_file_size e < 2 ^ 32
    → (f' : Files) × (tos_fs_open f stack file_name ≡ done (descriptor f i, f'))
      × (fs_get_file_size f' (descriptor f i) ≡ (tos_no_error, some (dir_file_size e)))
      × (f'.volume ≡ f.volume)
      × ReadsFile f' (descriptor f i) c ds 0 n
open-read f stack file_name e i n c ds found unused small d chain first fits size =
    let free = unused_fcb-unused f num_fcb 0 i unused in
    let (index, valid) = opened-valid f i e (omega (arith, free.1)) small in
    let f' = record f { fcb = update f.fcb i (opened (f.fcb i) e) } in
    let here : block f' (descriptor f i) ≡ opened (f.fcb i) e = rw (index, ==_refl i) in
    let reading : IsReading f.volume c ds (opened (f.fcb i) e) =
      unfold opened in
      record {
        first = first;
        fits = fits;
        small = size;
        within = omega arith;
        loaded = λ m. absurd (m refl);
      } in
    (
      f',
      open-returns f stack file_name e i found unused,
      get_file_size-valid f' (descriptor f i) valid
          ∙ ap (λ b. (tos_no_error, some b.file_size)) here
          ∙ unfold opened in refl,
      refl,
      subst (λ p. ReadsFile f' (descriptor f i) c ds p n)
          (ap (λ b. b.pos) here ∙ unfold opened in refl)
          (fs_read-content f' (descriptor f i) n c ds valid d chain
            (subst (IsReading f.volume c ds) (sym here) reading)),
    )

-- A valid descriptor has the count of its block.
valid-seq :
    (f : Files) (fd : ℕ) → is_valid_fcb_entry f fd ≡ true → fd / 2 ^ 16 ≡ (f.fcb (fcb_entry fd)).seq
unfolding is_valid_fcb_entry
valid-seq f fd valid = ground (arith, valid)

-- What one block holds says whether a descriptor of it is valid.
valid-block :
    (f f' : Files) (fd : ℕ)
    → f'.fcb (fcb_entry fd) ≡ f.fcb (fcb_entry fd)
    → is_valid_fcb_entry f' fd ≡ is_valid_fcb_entry f fd
unfolding is_valid_fcb_entry
valid-block f f' fd same =
    ap (λ b. ltb (fcb_entry fd) num_fcb && b.used && ltb fd (2 ^ 31) && b.seq == fd / 2 ^ 16) same

close-returns :
    (f : Files) (fd : ℕ)
    → is_valid_fcb_entry f fd ≡ true
    → tos_fs_close f fd ≡ (
      tos_no_error,
      record f {
        fcb =
            update f.fcb
              (fcb_entry fd)
              (record (block f fd) { used = false; seq = ((block f fd).seq + 1) % 2 ^ 16 });
      },
    )
unfolding tos_fs_close
close-returns f fd valid = rw valid

wrong-seq : (f : Files) (fd : ℕ) → (block f fd).seq ≢ fd / 2 ^ 16 → is_valid_fcb_entry f fd ≡ false
unfolding is_valid_fcb_entry
wrong-seq f fd n = ground (arith, n)

-- `TOS_fs_close` of a valid descriptor, whose block keeps a count of 16 bits, succeeds. This descriptor
-- is invalid from then on, whatever use the block is put to before the next close changes its count;
-- every descriptor of another block is as valid as before.
pub close-stale :
    (f : Files) (fd other : ℕ) (b : FcbEntry)
    → is_valid_fcb_entry f fd ≡ true
    → (f.fcb (fcb_entry fd)).seq < 2 ^ 16
    → b.seq ≡ (block (tos_fs_close f fd).1 fd).seq
    → fcb_entry other ≢ fcb_entry fd
    → ((tos_fs_close f fd).0 ≡ tos_no_error)
      × (is_valid_fcb_entry
            (record f { fcb = update (tos_fs_close f fd).1.fcb (fcb_entry fd) b })
            fd
          ≡ false)
      × (is_valid_fcb_entry (tos_fs_close f fd).1 other ≡ is_valid_fcb_entry f other)
close-stale f fd other b valid small again apart =
    let r = close-returns f fd valid in
    let old = valid-seq f fd valid in
    let hit = ==_refl (fcb_entry fd) in
    let count : b.seq ≡ ((block f fd).seq + 1) % 2 ^ 16 =
      again ∙ ap (λ p. (block p.1 fd).seq) r ∙ rw hit in
    let f' = record f { fcb = update (tos_fs_close f fd).1.fcb (fcb_entry fd) b } in
    let here : (block f' fd).seq ≡ b.seq = rw hit in
    (
      ap (λ p. p.0) r,
      wrong-seq f' fd (omega (arith, here, count, old, small)),
      valid-block f (tos_fs_close f fd).1 other (
          ap (λ p. p.1.fcb (fcb_entry other)) r
          ∙ (let miss : (fcb_entry other == fcb_entry fd) ≡ false = ground (arith, apart) in
              rw miss)),
    )
