-- ===== src/Fat/Content.antt =====
-- What a file holds: the bytes in the sectors of its clusters.
use tos_sfsu_fall.Base.{
  ℕ, zero, suc, ◌+◌, ◌*◌, ◌/◌, ◌%◌, ◌^◌, ◌≤◌, ◌<◌, ◌≡◌, refl, ◌∙◌, false, List, [], ◌∷◌, length,
  get_or, arith,
}
use tos_sfsu_fall.Kernel.State.{done}
use tos_sfsu_fall.Fat.{
  FatType, fat12, fat16, fat32, Device, Volume, eoc, fs_is_eoc, fs_get_first_sector_of_cluster,
}
use tos_sfsu_fall.Fat.Chain.{IsChain}
use tos_sfsu_fall.Fat.File.{
  is_last, tos_fs_is_last_cluster, find_cluster, bytes_per_cluster, sector_at,
}
use native.Mathlib.Nat.{div-div-eq-div-mul, mod-eq-sub-div-mul}

-- Sectors of 512 bytes, and clusters below 4 GB.
pub record IsDevice (dev : Device) : Type 0 where
  pub sector : dev.bytes_per_sector ≡ 512
  pub clustered : 0 < dev.sectors_per_cluster
  pub below : 512 * dev.sectors_per_cluster < 2 ^ 32

-- The sector in which block `b` of a file lies.
abbrev pub block_sector : Device → List ℕ → (b : ℕ) → ℕ
block_sector dev clusters b =
    (fs_get_first_sector_of_cluster dev (get_or clusters (b / dev.sectors_per_cluster) 0)
      + b % dev.sectors_per_cluster)
    % 2 ^ 32

-- The byte of a file at a position.
abbrev pub byte_at : Volume → List ℕ → (pos : ℕ) → ℕ
byte_at v clusters pos =
    v.image (block_sector v.dev clusters (pos / 512) * 512 % 2 ^ 32 + pos % 512)

-- The bytes of a file from a position on.
abbrev pub content : Volume → List ℕ → (pos n : ℕ) → List ℕ
content v clusters pos zero = []
content v clusters pos (suc n) = byte_at v clusters pos ∷ content v clusters (pos + 1) n

mod-mul-div : (p s : ℕ) → 0 < s → p % (512 * s) / 512 ≡ p / 512 % s
mod-mul-div p s h =
    let parts = mod-eq-sub-div-mul p (512 * s) in
    let blocks = mod-eq-sub-div-mul (p / 512) s in
    let quot = div-div-eq-div-mul p 512 s in
    let q = p / (512 * s) in
    let swap : q * (512 * s) ≡ 512 * (q * s) = grind arith in
    rw (parts, blocks, quot, swap) (omega arith)

pub bytes_per_cluster_lem :
    (dev : Device) → IsDevice dev → bytes_per_cluster dev ≡ 512 * dev.sectors_per_cluster
bytes_per_cluster_lem dev d = let low = d.below in rw (d.sector) (omega arith)

pub sector_at-block :
    (dev : Device) (clusters : List ℕ) (p : ℕ)
    → IsDevice dev
    → sector_at dev (get_or clusters (p / bytes_per_cluster dev) 0) p
      ≡ block_sector dev clusters (p / 512)
unfolding sector_at
sector_at-block dev clusters p d = rw (
  bytes_per_cluster_lem dev d,
  d.sector,
  ← div-div-eq-div-mul p 512 dev.sectors_per_cluster,
  mod-mul-div p dev.sectors_per_cluster d.clustered,
)

is_last-eoc : (t : FatType) (value : ℕ) → is_last t value ≡ eoc t value
is_last-eoc fat12 value = refl
is_last-eoc fat16 value = refl
is_last-eoc fat32 value = refl

-- The clusters of a chain are found by their number.
pub find_cluster-chain :
    (dev : Device) (k c : ℕ) (ds : List ℕ)
    → IsChain dev c ds
    → k ≤ length ds
    → find_cluster dev k c ≡ done (get_or (c ∷ ds) k 0)
unfolding find_cluster
find_cluster-chain dev zero c ds h le = refl
find_cluster-chain dev (suc k) c [] h le = absurd (omega (arith, le))
find_cluster-chain dev (suc k) c (d ∷ ds) h le =
    let more : tos_fs_is_last_cluster dev d ≡ false =
      unfold tos_fs_is_last_cluster fs_is_eoc in is_last-eoc dev.fat_type d ∙ h.3 in
    rw (h.1, more) (find_cluster-chain dev k d ds h.4 (omega arith))
