-- ===== src/Fat/File.antt =====
-- tools/fat/fat.c: the file control blocks, and reading and writing by a file descriptor.
--
-- All files are on the one volume, so that a block has no `dev`. A `TOS_Error` and a file descriptor
-- are words of 32 bits, negative ones from 2 ^ 31 on. What the caller's buffer receives, or holds, is
-- a list.
use tos_sfsu_fall.Base.{
  ℕ, zero, suc, ◌+◌, ◌-◌, ◌*◌, ◌/◌, ◌%◌, ◌^◌, Bool, false, not, ◌&&◌, ◌==◌, ltb, leb, if◌then◌else◌,
  none, some, List, [], ◌∷◌,
}
use tos_sfsu_fall.Kernel.State.{Outcome, done, assert, ◌>>=◌, ◌>>◌, update}
use tos_sfsu_fall.Kernel.Memory.{Memory}
use tos_sfsu_fall.Fat.{
  FatType, fat12, fat16, fat32, Device, Volume, fs_bio_read, fs_bio_write, fs_get_fat_cluster_entry,
  fs_get_first_sector_of_cluster, append_cluster,
}

abbrev pub num_fcb : ℕ
num_fcb = 20

-- -n, in 32 bits.
abbrev pub minus : ℕ → ℕ
minus n = 2 ^ 32 - n

abbrev pub tos_no_error : ℕ
tos_no_error = 0

abbrev pub tos_err_bad_file_descr : ℕ
tos_err_bad_file_descr = minus 3

abbrev pub tos_err_beyond_eof : ℕ
tos_err_beyond_eof = minus 4

abbrev pub open_mode_read : ℕ
open_mode_read = 1

abbrev pub open_mode_write : ℕ
open_mode_write = 2

pub record FcbEntry : Type 0 where
  pub used : Bool
  pub seq : ℕ
  pub file_size : ℕ
  pub pos : ℕ
  pub first_cluster : ℕ
  pub current_cluster : ℕ
  pub sector : Memory
  pub mode : ℕ

pub record Files : Type 0 where
  pub volume : Volume
  pub fcb : ℕ → FcbEntry

-- The blocks after `TOS_init_fcb`.
unfoldable pub tos_init_fcb : (ℕ → FcbEntry) → ℕ → FcbEntry
tos_init_fcb fcb i = if ltb i num_fcb then record (fcb i) { used = false; seq = 0 } else fcb i

abbrev pub fcb_entry : ℕ → ℕ
fcb_entry fd = fd % 2 ^ 16

-- `fd >> 16` is negative for a negative descriptor, and `seq` is not.
unfoldable pub is_valid_fcb_entry : Files → ℕ → Bool
is_valid_fcb_entry f fd =
    let block = f.fcb (fcb_entry fd) in
    ltb (fcb_entry fd) num_fcb && block.used && ltb fd (2 ^ 31) && block.seq == fd / 2 ^ 16

abbrev pub is_last : FatType → ℕ → Bool
is_last fat12 cluster = leb 0x0ff8 cluster
is_last fat16 cluster = leb 0xfff8 cluster
is_last fat32 cluster = leb 0x0ffffff8 cluster

unfoldable pub tos_fs_is_last_cluster : Device → ℕ → Bool
tos_fs_is_last_cluster dev cluster = is_last dev.fat_type cluster

-- The loop that finds the cluster with a number in its file.
unfoldable pub find_cluster : Device → (cluster cluster_to_load : ℕ) → Outcome ℕ
unfolding fs_get_fat_cluster_entry tos_fs_is_last_cluster
find_cluster dev zero cluster_to_load = done cluster_to_load
find_cluster dev (suc k) cluster_to_load = do
  let next = fs_get_fat_cluster_entry dev cluster_to_load
  assert (not (tos_fs_is_last_cluster dev next))
  find_cluster dev k next

abbrev pub bytes_per_cluster : Device → ℕ
bytes_per_cluster dev = dev.bytes_per_sector * dev.sectors_per_cluster % 2 ^ 32

-- The sector of a position that lies in a cluster.
unfoldable pub sector_at : Device → (cluster pos : ℕ) → ℕ
unfolding fs_get_first_sector_of_cluster
sector_at dev cluster pos =
    (fs_get_first_sector_of_cluster dev cluster
      + pos % bytes_per_cluster dev / dev.bytes_per_sector)
    % 2 ^ 32

-- Loading the sector of the current position.
unfoldable pub load_sector : Volume → FcbEntry → Outcome FcbEntry
unfolding find_cluster sector_at fs_bio_read
load_sector v f = do
  cluster_to_load ← find_cluster v.dev (f.pos / bytes_per_cluster v.dev) f.first_cluster
  done
      (record f { sector = fs_bio_read v.image f.sector (sector_at v.dev cluster_to_load f.pos) 1 })

-- The loop of `fs_read`: its result, the bytes for the buffer, and the block.
unfoldable pub read_bytes : Volume → (len : ℕ) → FcbEntry → Outcome (ℕ × List ℕ × FcbEntry)
unfolding load_sector
read_bytes v zero f = done (tos_no_error, [], f)
read_bytes v (suc len) f =
    let more = (do
      f₁ ← if f.pos % v.dev.bytes_per_sector == 0 then load_sector v f else done f
      (code, bytes, f₂) ← read_bytes v len (record f₁ { pos = (f.pos + 1) % 2 ^ 32 })
      done (code, f₁.sector (f.pos % v.dev.bytes_per_sector) ∷ bytes, f₂)) in
    if f.pos == f.file_size then done (tos_err_beyond_eof, [], f) else more

unfoldable pub fs_read : Files → (fd len : ℕ) → Outcome (ℕ × List ℕ × Files)
unfolding is_valid_fcb_entry read_bytes
fs_read f fd len =
    let read = (do
      (code, bytes, block) ← read_bytes f.volume len (f.fcb (fcb_entry fd))
      done (code, bytes, record f { fcb = update f.fcb (fcb_entry fd) block })) in
    if is_valid_fcb_entry f fd then read else done (tos_err_bad_file_descr, [], f)

-- Writing the sector in the block to the place of the current position.
unfoldable pub flush_sector : Volume → FcbEntry → Volume
unfolding sector_at fs_bio_write
flush_sector v f = record v {
  image = fs_bio_write v.image f.sector (sector_at v.dev f.current_cluster f.pos) 1;
}

-- Whether there is room for a byte: in the block, or no cluster is free.
pub data Room : Type 0 where
  room : Volume → FcbEntry → Room
  full : Volume → Room

-- What `fs_write` does before it puts a byte into the block.
unfoldable pub make_room : Volume → FcbEntry → Room
unfolding flush_sector append_cluster
make_room v f =
    if not (f.pos == 0) && f.pos % v.dev.bytes_per_sector == 0
    then (let v₁ = flush_sector v f in
        if f.pos % bytes_per_cluster v.dev == 0
        then (elim (append_cluster v₁ f.current_cluster) [
          | none ↦ full v₁
          | some (cluster, v₂) ↦ room v₂ (record f { current_cluster = cluster })
        ])
        else room v₁ f)
    else room v f

-- The loop of `fs_write`.
unfoldable pub write_bytes : Volume → List ℕ → FcbEntry → ℕ × Volume × FcbEntry
unfolding make_room
write_bytes v [] f = (0, v, f)
write_bytes v (byte ∷ bytes) f = elim (make_room v f) [
  | full v₁ ↦ (minus 1, v₁, f)
  | room v₁ f₁ ↦ write_bytes v₁ bytes (record f₁ {
    sector = update f₁.sector (f₁.pos % v₁.dev.bytes_per_sector) byte;
    pos = (f₁.pos + 1) % 2 ^ 32;
    file_size = (f₁.file_size + 1) % 2 ^ 32;
  })
]

unfoldable pub fs_write : Files → (fd : ℕ) → List ℕ → ℕ × Files
unfolding is_valid_fcb_entry write_bytes
fs_write f fd bytes =
    let (code, v, block) = write_bytes f.volume bytes (f.fcb (fcb_entry fd)) in
    if is_valid_fcb_entry f fd
    then (code, record { volume = v; fcb = update f.fcb (fcb_entry fd) block })
    else (tos_err_bad_file_descr, f)
