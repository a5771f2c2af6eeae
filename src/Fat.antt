-- ===== src/Fat.antt =====
-- tools/fat/fat.c, as the host tools build it: the file allocation table of a volume in memory and in
-- the image file.
--
-- The image is a function from offsets to bytes, and so are the buffers. The words of the table are
-- read as kernel/mem.c reads words, little end first, which is what `swap16` and `swap32` make of
-- them on every host. There is one device, as in the tools.
mod Tests
pub mod Entry
pub mod Mirror
pub mod Free
pub mod Chain
pub mod Init
pub mod File
pub mod Content
pub mod Read
pub mod Handle
pub mod Directory
pub mod Open
pub mod Seek
pub mod Place
pub mod Write
use tos_sfsu_fall.Base.{
  ℕ, zero, suc, ◌+◌, ◌-◌, ◌*◌, ◌/◌, ◌%◌, ◌^◌, ◌<◌, Bool, true, false, ◌&&◌, ◌==◌, ltb, leb,
  if◌then◌else◌, Option, none, some,
}
use tos_sfsu_fall.Kernel.Memory.{Memory, peek_w, peek_l, poke_w, poke_l}

abbrev pub bio_sector_size : ℕ
bio_sector_size = 512

pub data FatType : Type 0 where
  fat12 : FatType
  fat16 : FatType
  fat32 : FatType

pub record Device : Type 0 where
  pub fat_type : FatType
  pub fat_size : ℕ
  pub num_fat : ℕ
  pub fat : Memory
  pub bytes_per_sector : ℕ
  pub sectors_per_cluster : ℕ
  pub root_dir_secs : ℕ
  pub first_root_dir_sector : ℕ
  pub first_data_sector : ℕ
  pub total_sectors : ℕ
  pub total_data_sectors : ℕ
  pub total_clusters : ℕ
  pub rsvd_sec_cnt : ℕ

-- The device and the image behind it.
pub record Volume : Type 0 where
  pub dev : Device
  pub image : Memory

-- The sector count is a word of 16 bits.
unfoldable pub fs_bio_read : (image buffer : Memory) (start_sector sector_count : ℕ) → Memory
fs_bio_read image buffer start_sector sector_count i =
    if ltb i (sector_count % 2 ^ 16 * bio_sector_size)
    then image (start_sector * bio_sector_size % 2 ^ 32 + i)
    else buffer i

unfoldable pub fs_bio_write : (image buffer : Memory) (start_sector sector_count : ℕ) → Memory
fs_bio_write image buffer start_sector sector_count a =
    let start = start_sector * bio_sector_size % 2 ^ 32 in
    if leb start a && ltb a (start + sector_count % 2 ^ 16 * bio_sector_size)
    then buffer (a - start)
    else image a

-- The sector numbers below cluster 2 wrap around.
unfoldable pub fs_get_first_sector_of_cluster : Device → ℕ → ℕ
fs_get_first_sector_of_cluster dev cluster =
    ((cluster + 2 ^ 32 - 2) % 2 ^ 32 * dev.sectors_per_cluster + dev.first_data_sector) % 2 ^ 32

-- The offset of an entry in the table.
unfoldable pub entry_offset : FatType → ℕ → ℕ
entry_offset fat12 cluster = (cluster + cluster / 2) % 2 ^ 32
entry_offset fat16 cluster = cluster * 2 % 2 ^ 32
entry_offset fat32 cluster = cluster * 4 % 2 ^ 32

-- The entry of a cluster in a table.
unfoldable pub entry : FatType → Memory → ℕ → ℕ
unfolding entry_offset
entry fat12 fat cluster =
    let value = peek_w fat (entry_offset fat12 cluster) in
    if cluster % 2 == 1 then value / 2 ^ 4 else value % 2 ^ 12
entry fat16 fat cluster = peek_w fat (entry_offset fat16 cluster)
entry fat32 fat cluster = peek_l fat (entry_offset fat32 cluster)

unfoldable pub fs_get_fat_cluster_entry : Device → ℕ → ℕ
unfolding entry
fs_get_fat_cluster_entry dev cluster = entry dev.fat_type dev.fat cluster

-- The table with a new entry. A sum of disjoint groups of bits is their `|`; `poke_w` keeps the 16
-- low bits, as the conversion to `TOS_UInt16` does.
unfoldable pub put_entry : FatType → Memory → (cluster value : ℕ) → Memory
unfolding entry_offset
put_entry fat12 fat cluster value =
    let offset = entry_offset fat12 cluster in
    let old = peek_w fat offset in
    poke_w fat offset (
      if cluster % 2 == 1
      then value * 2 ^ 4 % 2 ^ 32 + old % 2 ^ 4
      else value % 2 ^ 12 + old / 2 ^ 12 * 2 ^ 12)
put_entry fat16 fat cluster value = poke_w fat (entry_offset fat16 cluster) value
put_entry fat32 fat cluster value =
    let offset = entry_offset fat32 cluster in
    poke_l fat offset (value % 2 ^ 28 + peek_l fat offset / 2 ^ 28 * 2 ^ 28)

-- `num_sec`: an entry of 12 bits may lie in two sectors.
unfoldable pub sectors_of : FatType → (bytes_per_sector offset : ℕ) → ℕ
sectors_of fat12 bytes_per_sector offset =
    if offset % bytes_per_sector == bytes_per_sector - 1 then 2 else 1
sectors_of fat16 bytes_per_sector offset = 1
sectors_of fat32 bytes_per_sector offset = 1

unfoldable pub fs_set_fat_cluster_entry : Volume → (cluster value : ℕ) → Volume
unfolding entry_offset put_entry sectors_of fs_bio_write
fs_set_fat_cluster_entry v cluster value =
    let dev = v.dev in
    let bytes = dev.bytes_per_sector in
    let offset = entry_offset dev.fat_type cluster in
    let fat = put_entry dev.fat_type dev.fat cluster value in
    record {
      dev = record dev { fat = fat };
      image =
          fs_bio_write v.image (λ i. fat (offset / bytes * bytes + i))
            (dev.rsvd_sec_cnt + offset / bytes) (sectors_of dev.fat_type bytes offset);
    }

abbrev pub eoc : FatType → ℕ → Bool
eoc fat12 value = leb 0x0ff8 value
eoc fat16 value = leb 0xfff8 value
eoc fat32 value = leb 0x0ffffff8 value

unfoldable pub fs_is_eoc : Device → ℕ → Bool
fs_is_eoc dev value = eoc dev.fat_type value

-- The loop of `fs_get_free_cluster`, which runs for `rounds` clusters.
unfoldable pub free_cluster_from : Device → (rounds cluster : ℕ) → Option ℕ
unfolding fs_get_fat_cluster_entry
free_cluster_from dev zero cluster = none
free_cluster_from dev (suc rounds) cluster =
    let rest = free_cluster_from dev rounds (cluster + 1) in
    if fs_get_fat_cluster_entry dev cluster == 0 then some cluster else rest

-- The free cluster with the least number from 2 to `total_clusters`.
unfoldable pub fs_get_free_cluster : Device → Option ℕ
unfolding free_cluster_from
fs_get_free_cluster dev = free_cluster_from dev (dev.total_clusters - 1) 2

-- The mark that ends a chain.
abbrev pub eoc_mark : FatType → ℕ
eoc_mark fat12 = 0x0fff
eoc_mark fat16 = 0xffff
eoc_mark fat32 = 0x0fffffff

-- Searching a free cluster and allocating it, as `fs_write`, `fs_open` and `fs_create_directory` do.
unfoldable pub allocate_cluster : Volume → Option (ℕ × Volume)
unfolding fs_get_free_cluster fs_set_fat_cluster_entry
allocate_cluster v = elim (fs_get_free_cluster v.dev) [
  | none ↦ none
  | some cluster ↦ some (cluster, fs_set_fat_cluster_entry v cluster (eoc_mark v.dev.fat_type))
]

-- And setting the last cluster of a file to it, as `fs_write` does then.
unfoldable pub append_cluster : Volume → (current_cluster : ℕ) → Option (ℕ × Volume)
unfolding allocate_cluster fs_set_fat_cluster_entry
append_cluster v current_cluster = elim (allocate_cluster v) [
  | none ↦ none
  | some (cluster, v₁) ↦ some (cluster, fs_set_fat_cluster_entry v₁ current_cluster cluster)
]
