-- ===== src/Fat/Seek.antt =====
-- tools/fat/fat.c: `TOS_fs_read` and `TOS_fs_seek`. They follow the chain of a file by functions of
-- their own; what these compute is what the functions of `fs_read` compute.
use tos_sfsu_fall.Base.{
  ℕ, zero, suc, ◌+◌, ◌-◌, ◌*◌, ◌/◌, ◌%◌, ◌^◌, ◌≡◌, refl, ◌∙◌, ap, fun_ext, not, ◌==◌, leb,
  if◌then◌else◌, List, [], ◌∷◌,
}
use tos_sfsu_fall.Kernel.State.{Outcome, done, assert, ◌>>=◌, ◌>>◌, update}
use tos_sfsu_fall.Kernel.Memory.{Memory, peek_w, peek_l}
use tos_sfsu_fall.Fat.{
  FatType, fat12, fat16, fat32, Device, Volume, fs_bio_read, entry, entry_offset,
  fs_get_fat_cluster_entry, fs_get_first_sector_of_cluster,
}
use tos_sfsu_fall.Fat.File.{
  FcbEntry, Files, fcb_entry, is_valid_fcb_entry, tos_fs_is_last_cluster, find_cluster,
  bytes_per_cluster, sector_at, load_sector, read_bytes, fs_read, tos_no_error,
  tos_err_bad_file_descr, tos_err_beyond_eof,
}

abbrev pub next_cluster : FatType → (fat : Memory) (cluster : ℕ) → ℕ
next_cluster fat12 fat cluster =
    let next = peek_w fat ((cluster + cluster / 2) % 2 ^ 32) in
    if cluster % 2 == 1 then next / 2 ^ 4 else next % 2 ^ 12
next_cluster fat16 fat cluster = peek_w fat (cluster * 2 % 2 ^ 32)
next_cluster fat32 fat cluster = peek_l fat (cluster * 4 % 2 ^ 32)

unfoldable pub tos_fs_next_cluster_in_chain : Device → (cluster : ℕ) → ℕ
tos_fs_next_cluster_in_chain dev cluster = next_cluster dev.fat_type dev.fat cluster

unfoldable pub tos_fs_cluster_to_sector : Device → (cluster : ℕ) → ℕ
tos_fs_cluster_to_sector dev cluster =
    ((cluster + 2 ^ 32 - 2) % 2 ^ 32 * dev.sectors_per_cluster + dev.first_data_sector) % 2 ^ 32

-- The loop that finds the cluster with a number in its file.
unfoldable pub walk_chain : Device → (cluster cluster_to_load : ℕ) → Outcome ℕ
unfolding tos_fs_is_last_cluster
walk_chain dev zero cluster_to_load = done cluster_to_load
walk_chain dev (suc k) cluster_to_load = do
  let next = tos_fs_next_cluster_in_chain dev cluster_to_load
  assert (not (tos_fs_is_last_cluster dev next))
  walk_chain dev k next

-- Loading the sector of the current position.
unfoldable pub tos_load_sector : Volume → FcbEntry → Outcome FcbEntry
unfolding walk_chain tos_fs_cluster_to_sector fs_bio_read
tos_load_sector v f = do
  let bytes = bytes_per_cluster v.dev
  cluster_to_load ← walk_chain v.dev (f.pos / bytes) f.first_cluster
  let sector_to_load =
      (tos_fs_cluster_to_sector v.dev cluster_to_load + f.pos % bytes / v.dev.bytes_per_sector)
      % 2 ^ 32
  done (record f { sector = fs_bio_read v.image f.sector sector_to_load 1 })

-- The loop of `TOS_fs_read`: its result, the bytes for the buffer, and the block.
unfoldable pub tos_read_bytes : Volume → (len : ℕ) → FcbEntry → Outcome (ℕ × List ℕ × FcbEntry)
unfolding tos_load_sector
tos_read_bytes v zero f = done (tos_no_error, [], f)
tos_read_bytes v (suc len) f =
    let more = (do
      f₁ ← if f.pos % v.dev.bytes_per_sector == 0 then tos_load_sector v f else done f
      (code, bytes, f₂) ← tos_read_bytes v len (record f₁ { pos = (f.pos + 1) % 2 ^ 32 })
      done (code, f₁.sector (f.pos % v.dev.bytes_per_sector) ∷ bytes, f₂)) in
    if f.pos == f.file_size then done (tos_err_beyond_eof, [], f) else more

unfoldable pub tos_fs_read : Files → (fd len : ℕ) → Outcome (ℕ × List ℕ × Files)
unfolding is_valid_fcb_entry tos_read_bytes
tos_fs_read f fd len =
    let read = (do
      (code, bytes, block) ← tos_read_bytes f.volume len (f.fcb (fcb_entry fd))
      done (code, bytes, record f { fcb = update f.fcb (fcb_entry fd) block })) in
    if is_valid_fcb_entry f fd then read else done (tos_err_bad_file_descr, [], f)

unfoldable pub tos_fs_seek : Files → (fd pos : ℕ) → Outcome (ℕ × Files)
unfolding is_valid_fcb_entry
tos_fs_seek f fd pos =
    let block = f.fcb (fcb_entry fd) in
    let seek = (do
      block₁ ← tos_load_sector f.volume (record block { pos = pos })
      done (tos_no_error, record f { fcb = update f.fcb (fcb_entry fd) block₁ })) in
    if not (is_valid_fcb_entry f fd)
    then done (tos_err_bad_file_descr, f)
    else if leb block.file_size pos
    then done (tos_err_beyond_eof, f)
    else seek

next_cluster-entry : (t : FatType) (fat : Memory) (c : ℕ) → next_cluster t fat c ≡ entry t fat c
unfolding entry entry_offset
next_cluster-entry fat12 fat c = refl
next_cluster-entry fat16 fat c = refl
next_cluster-entry fat32 fat c = refl

next-get :
    (dev : Device) (c : ℕ) → tos_fs_next_cluster_in_chain dev c ≡ fs_get_fat_cluster_entry dev c
unfolding tos_fs_next_cluster_in_chain fs_get_fat_cluster_entry
next-get dev c = next_cluster-entry dev.fat_type dev.fat c

walk_chain-find_cluster : (dev : Device) (k c : ℕ) → walk_chain dev k c ≡ find_cluster dev k c
unfolding walk_chain find_cluster
walk_chain-find_cluster dev zero c = refl
walk_chain-find_cluster dev (suc k) c =
    ap (λ next. assert (not (tos_fs_is_last_cluster dev next)) >> walk_chain dev k next)
      (next-get dev c)
    ∙ ap
        (λ rest. assert (not (tos_fs_is_last_cluster dev (fs_get_fat_cluster_entry dev c))) >> rest)
        (walk_chain-find_cluster dev k (fs_get_fat_cluster_entry dev c))

pub tos_load_sector-load_sector :
    (v : Volume) (f : FcbEntry) → tos_load_sector v f ≡ load_sector v f
unfolding tos_load_sector load_sector tos_fs_cluster_to_sector fs_get_first_sector_of_cluster
    sector_at
tos_load_sector-load_sector v f =
    ap
      (λ found. found >>= λ c.
        done (record f { sector = fs_bio_read v.image f.sector (sector_at v.dev c f.pos) 1 }))
      (walk_chain-find_cluster v.dev (f.pos / bytes_per_cluster v.dev) f.first_cluster)

-- A round of the two loops, for a way to load a sector and a way to go on.
unfoldable read_with :
    Volume
    → (load : Outcome FcbEntry) → (rest : FcbEntry → Outcome (ℕ × List ℕ × FcbEntry)) → FcbEntry
    → Outcome (ℕ × List ℕ × FcbEntry)
read_with v load rest f =
    let more = (do
      f₁ ← if f.pos % v.dev.bytes_per_sector == 0 then load else done f
      (code, bytes, f₂) ← rest (record f₁ { pos = (f.pos + 1) % 2 ^ 32 })
      done (code, f₁.sector (f.pos % v.dev.bytes_per_sector) ∷ bytes, f₂)) in
    if f.pos == f.file_size then done (tos_err_beyond_eof, [], f) else more

tos_read_bytes-read_bytes :
    (v : Volume) (len : ℕ) (f : FcbEntry) → tos_read_bytes v len f ≡ read_bytes v len f
unfolding tos_read_bytes read_bytes read_with
tos_read_bytes-read_bytes v zero f = refl
tos_read_bytes-read_bytes v (suc len) f =
    ap (λ s. read_with v s (tos_read_bytes v len) f) (tos_load_sector-load_sector v f)
    ∙ ap (λ g. read_with v (load_sector v f) g f) (fun_ext (tos_read_bytes-read_bytes v len))

-- `TOS_fs_read` and `fs_read`, two routines in the same file, do the same: for every descriptor and
-- length they return the same result, bytes and control blocks, or stop at the same assertion.
pub tos_fs_read-fs_read : (f : Files) (fd len : ℕ) → tos_fs_read f fd len ≡ fs_read f fd len
unfolding tos_fs_read fs_read
tos_fs_read-fs_read f fd len =
    ap
      (λ r.
        if is_valid_fcb_entry f fd
        then (r >>= λ q. done (q.0, q.1, record f { fcb = update f.fcb (fcb_entry fd) q.2 }))
        else done (tos_err_bad_file_descr, [], f))
      (tos_read_bytes-read_bytes f.volume len (f.fcb (fcb_entry fd)))
