-- ===== src/Fat/Place.antt =====
-- Where the clusters of a volume with one sector to a cluster lie, and what the writes of a sector and
-- of an entry leave as it was.
use tos_sfsu_fall.Base.{
  ℕ, zero, suc, ◌+◌, ◌-◌, ◌*◌, ◌/◌, ◌%◌, ◌^◌, ◌≤◌, ◌<◌, ◌≡◌, ◌≢◌, inr, ◌∙◌, ap, ◌&&◌, leb, ltb,
  if◌then◌else◌, List, [], ◌∷◌, length, get_or, arith,
}
use tos_sfsu_fall.Fat.{
  Device, Volume, fs_bio_write, fs_get_first_sector_of_cluster, fs_set_fat_cluster_entry,
  entry_offset,
}
use tos_sfsu_fall.Fat.Entry.{IsBytes}
use tos_sfsu_fall.Fat.Mirror.{IsSectored, width, set-image_outside}
use tos_sfsu_fall.Fat.Chain.{IsSized}
use tos_sfsu_fall.Fat.File.{FcbEntry, sector_at, bytes_per_cluster, flush_sector}
use tos_sfsu_fall.Fat.Content.{IsDevice, block_sector, byte_at}

-- Sectors of 512 bytes, one to a cluster, as on a floppy disk; the table holds an entry for every
-- cluster, and the clusters lie behind the table and below 4 GB.
pub record IsFloppy (dev : Device) : Type 0 where
  pub sector : dev.bytes_per_sector ≡ 512
  pub single : dev.sectors_per_cluster ≡ 1
  pub sized : IsSized dev.fat_type dev.total_clusters
  pub behind : dev.rsvd_sec_cnt + dev.fat_size ≤ dev.first_data_sector
  pub below : (dev.first_data_sector + dev.total_clusters) * 512 < 2 ^ 32
  pub entries :
      (e : ℕ)
      → e ≤ dev.total_clusters
      → entry_offset dev.fat_type e + width dev.fat_type ≤ dev.fat_size * 512

-- A cluster that the search may find.
abbrev pub IsCluster : Device → ℕ → Type 0
IsCluster dev e = (2 ≤ e) × (e ≤ dev.total_clusters)

abbrev pub AreClusters : Device → List ℕ → Type 0
AreClusters dev [] = Unit
AreClusters dev (e ∷ es) = IsCluster dev e × AreClusters dev es

-- The offset of a byte of a cluster in the image.
abbrev pub place : Device → (e i : ℕ) → ℕ
place dev e i = (e - 2 + dev.first_data_sector) * 512 + i

first_sector_lem :
    (dev : Device) (e : ℕ)
    → IsFloppy dev
    → IsCluster dev e
    → fs_get_first_sector_of_cluster dev e ≡ e - 2 + dev.first_data_sector
unfolding fs_get_first_sector_of_cluster
first_sector_lem dev e d h =
    ap (λ s. ((e + 2 ^ 32 - 2) % 2 ^ 32 * s + dev.first_data_sector) % 2 ^ 32) d.single
    ∙ omega (arith, d.below, h.0, h.1)

pub floppy-IsDevice : (dev : Device) → IsFloppy dev → IsDevice dev
floppy-IsDevice dev d = record {
  sector = d.sector;
  clustered = omega (arith, d.single);
  below = omega (arith, d.single);
}

pub floppy-IsSectored : (dev : Device) → IsFloppy dev → IsSectored dev
floppy-IsSectored dev d = record { sector = d.sector; below = omega (arith, d.behind, d.below) }

pub get_or-IsCluster :
    (dev : Device) (es : List ℕ) (b : ℕ)
    → AreClusters dev es
    → b < length es
    → IsCluster dev (get_or es b 0)
get_or-IsCluster dev [] b h low = absurd (omega (arith, low))
get_or-IsCluster dev (e ∷ es) zero h low = h.0
get_or-IsCluster dev (e ∷ es) (suc b) h low = get_or-IsCluster dev es b h.1 (omega (arith, low))

pub byte_at-place :
    (v : Volume) (es : List ℕ) (p : ℕ)
    → IsFloppy v.dev
    → AreClusters v.dev es
    → p / 512 < length es
    → byte_at v es p ≡ v.image (place v.dev (get_or es (p / 512) 0) (p % 512))
byte_at-place v es p d h low =
    let e = get_or es (p / 512) 0 in
    let c = get_or-IsCluster v.dev es (p / 512) h low in
    let first = first_sector_lem v.dev e d c in
    let whole : p / 512 / 1 ≡ p / 512 = omega arith in
    let block : block_sector v.dev es (p / 512) ≡ e - 2 + v.dev.first_data_sector =
      ap
        (λ s.
          (fs_get_first_sector_of_cluster v.dev (get_or es (p / 512 / s) 0) + p / 512 % s) % 2 ^ 32)
        d.single
      ∙ ap (λ b. (fs_get_first_sector_of_cluster v.dev (get_or es b 0) + p / 512 % 1) % 2 ^ 32)
          whole
      ∙ ap (λ s. (s + p / 512 % 1) % 2 ^ 32) first
      ∙ omega (arith, d.below, c.0, c.1) in
    ap v.image (ap (λ s. s * 512 % 2 ^ 32 + p % 512) block ∙ omega (arith, d.below, c.0, c.1))

pub floppy-bytes : (dev : Device) → IsFloppy dev → bytes_per_cluster dev ≡ 512
floppy-bytes dev d =
    ap (λ s. dev.bytes_per_sector * s % 2 ^ 32) d.single ∙ ap (λ b. b * 1 % 2 ^ 32) d.sector

pub sector_at_lem :
    (dev : Device) (e pos : ℕ)
    → IsFloppy dev
    → IsCluster dev e
    → sector_at dev e pos ≡ e - 2 + dev.first_data_sector
unfolding sector_at
sector_at_lem dev e pos d h =
    let whole = fs_get_first_sector_of_cluster dev e in
    ap (λ b. (whole + pos % b / dev.bytes_per_sector) % 2 ^ 32) (floppy-bytes dev d)
    ∙ ap (λ b. (whole + pos % 512 / b) % 2 ^ 32) d.sector
    ∙ ap (λ s. (s + pos % 512 / 512) % 2 ^ 32) (first_sector_lem dev e d h)
    ∙ omega (arith, d.below, h.0, h.1)

-- The image after `flush_sector`.
flush_sector-image :
    (v : Volume) (f : FcbEntry) (a : ℕ)
    → IsFloppy v.dev
    → IsCluster v.dev f.current_cluster
    → (flush_sector v f).image a ≡ (
        if leb (place v.dev f.current_cluster 0) a && ltb a (place v.dev f.current_cluster 0 + 512)
        then f.sector (a - place v.dev f.current_cluster 0)
        else v.image a)
unfolding flush_sector fs_bio_write
flush_sector-image v f a d h =
    let start : sector_at v.dev f.current_cluster f.pos * 512 % 2 ^ 32
        ≡ place v.dev f.current_cluster 0 =
      ap (λ s. s * 512 % 2 ^ 32) (sector_at_lem v.dev f.current_cluster f.pos d h)
      ∙ omega (arith, d.below, h.0, h.1) in
    ap (λ s. if leb s a && ltb a (s + 512) then f.sector (a - s) else v.image a) start

-- It holds the sector of the block in the current cluster, and all else as before.
pub flush_sector-at :
    (v : Volume) (f : FcbEntry) (i : ℕ)
    → IsFloppy v.dev
    → IsCluster v.dev f.current_cluster
    → i < 512
    → (flush_sector v f).image (place v.dev f.current_cluster i) ≡ f.sector i
flush_sector-at v f i d h low =
    let offset : place v.dev f.current_cluster i - place v.dev f.current_cluster 0 ≡ i =
      omega arith in
    flush_sector-image v f (place v.dev f.current_cluster i) d h
    ∙ ground (arith, ap f.sector offset)

pub flush_sector-other :
    (v : Volume) (f : FcbEntry) (e i : ℕ)
    → IsFloppy v.dev
    → IsCluster v.dev f.current_cluster
    → IsCluster v.dev e
    → e ≢ f.current_cluster
    → i < 512
    → (flush_sector v f).image (place v.dev e i) ≡ v.image (place v.dev e i)
flush_sector-other v f e i d h h' ne low =
    flush_sector-image v f (place v.dev e i) d h ∙ ground arith

-- Setting an entry leaves the clusters as they were.
pub set-place :
    (v : Volume) (c value e i : ℕ)
    → IsFloppy v.dev
    → IsBytes v.dev.fat
    → c < 2 ^ 30
    → c ≤ v.dev.total_clusters
    → (fs_set_fat_cluster_entry v c value).image (place v.dev e i) ≡ v.image (place v.dev e i)
set-place v c value e i d b small h =
    set-image_outside v c value (floppy-IsSectored v.dev d) small (d.entries c h) (place v.dev e i)
      (inr (omega (arith, d.behind)))
