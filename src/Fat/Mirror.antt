-- ===== src/Fat/Mirror.antt =====
-- The file allocation table in memory and its copy in the image.
use tos_sfsu_fall.Base.{
  ℕ, ◌+◌, ◌-◌, ◌*◌, ◌/◌, ◌%◌, ◌^◌, ◌≤◌, ◌<◌, ◌≡◌, ◌⊎◌, inl, inr, sym, ◌∙◌, Bool, false, ◌&&◌, ltb,
  leb, if◌then◌else◌, Bool-cases, arith,
}
use tos_sfsu_fall.Kernel.Memory.{Memory, poke_w, poke_l}
use tos_sfsu_fall.Fat.{
  FatType, fat12, fat16, fat32, Device, Volume, entry_offset, put_entry, sectors_of, fs_bio_write,
  fs_set_fat_cluster_entry,
}

-- The first table of the image, on a volume with sectors of 512 bytes, holds what the table in memory
-- holds.
abbrev pub IsMirrored : Volume → Type 0
IsMirrored v =
    (i : ℕ) → i < v.dev.fat_size * 512 → v.image (v.dev.rsvd_sec_cnt * 512 + i) ≡ v.dev.fat i

-- Sectors of 512 bytes, and a table below 4 GB.
pub record IsSectored (dev : Device) : Type 0 where
  pub sector : dev.bytes_per_sector ≡ 512
  pub below : (dev.rsvd_sec_cnt + dev.fat_size) * 512 < 2 ^ 32

-- The bytes that an entry is written with.
abbrev pub width : FatType → ℕ
width fat12 = 2
width fat16 = 2
width fat32 = 4

put_entry-frame :
    (t : FatType) (fat : Memory) (c value i : ℕ)
    → (i < entry_offset t c) ⊎ (entry_offset t c + width t ≤ i)
    → put_entry t fat c value i ≡ fat i
unfolding put_entry poke_w poke_l
put_entry-frame fat12 fat c value i (inl h) = ground arith
put_entry-frame fat12 fat c value i (inr h) = ground arith
put_entry-frame fat16 fat c value i (inl h) = ground arith
put_entry-frame fat16 fat c value i (inr h) = ground arith
put_entry-frame fat32 fat c value i (inl h) = ground arith
put_entry-frame fat32 fat c value i (inr h) = ground arith

-- The sectors that are written hold the bytes that change.
sectors_of-le :
    (t : FatType) (c : ℕ)
    → c < 2 ^ 30
    → (entry_offset t c + width t
        ≤ entry_offset t c / 512 * 512 + sectors_of t 512 (entry_offset t c) * 512)
      × (1 ≤ sectors_of t 512 (entry_offset t c))
      × (sectors_of t 512 (entry_offset t c) ≤ 2)
      × ((entry_offset t c / 512 + sectors_of t 512 (entry_offset t c)) * 512
          < entry_offset t c + width t + 512)
unfolding sectors_of entry_offset
sectors_of-le fat12 c h = ground arith
sectors_of-le fat16 c h = ground arith
sectors_of-le fat32 c h = ground arith

-- What is written from a table, at the place of the image where its sectors are.
fs_bio_write-table :
    (image fat : Memory) (r q n a : ℕ)
    → (r + q) * 512 < 2 ^ 32
    → n ≤ 2
    → fs_bio_write image (λ i. fat (q * 512 + i)) (r + q) n a ≡ (
        if leb (r * 512 + q * 512) a && ltb a (r * 512 + q * 512 + n * 512)
        then fat (a - r * 512)
        else image a)
unfolding fs_bio_write
fs_bio_write-table image fat r q n a small few = elim (Bool-cases (leb (r * 512 + q * 512) a)) [
  | inl h ↦
      let place : q * 512 + (a - (r + q) * 512 % 2 ^ 32) ≡ a - r * 512 = ground arith in
      rw (← place) (ground arith)
  | inr h ↦ ground arith
]

module _ (v : Volume) (c value : ℕ) (s : IsSectored v.dev) (small : c < 2 ^ 30)
    (inside : entry_offset v.dev.fat_type c + width v.dev.fat_type ≤ v.dev.fat_size * 512) where
  abbrev offset : ℕ
  offset = entry_offset v.dev.fat_type c

  abbrev sectors : ℕ
  sectors = sectors_of v.dev.fat_type 512 (entry_offset v.dev.fat_type c)

  set-image :
      (a : ℕ)
      → (fs_set_fat_cluster_entry v c value).image a ≡ (
          if leb (v.dev.rsvd_sec_cnt * 512 + offset / 512 * 512) a
            && ltb a (v.dev.rsvd_sec_cnt * 512 + offset / 512 * 512 + sectors * 512)
          then put_entry v.dev.fat_type v.dev.fat c value (a - v.dev.rsvd_sec_cnt * 512)
          else v.image a)
  unfolding fs_set_fat_cluster_entry
  set-image a =
      let (covers, some, few, last) = sectors_of-le v.dev.fat_type c small in
      let low = s.below in
      rw (s.sector) (
        fs_bio_write-table v.image (put_entry v.dev.fat_type v.dev.fat c value) v.dev.rsvd_sec_cnt
          (offset / 512) sectors a (omega arith) few)

  covers : ℕ → Bool
  covers a =
      leb (v.dev.rsvd_sec_cnt * 512 + offset / 512 * 512) a
      && ltb a (v.dev.rsvd_sec_cnt * 512 + offset / 512 * 512 + sectors * 512)

  untouched :
      (i : ℕ)
      → covers (v.dev.rsvd_sec_cnt * 512 + i) ≡ false
      → (i < offset) ⊎ (offset + width v.dev.fat_type ≤ i)
  unfolding covers
  untouched i h =
      let bounds = sectors_of-le v.dev.fat_type c small in
      elim (Bool-cases (ltb i offset)) [ inl l ↦ inl (ground arith) | inr g ↦ inr (ground arith) ]

  set-image_table :
      (i : ℕ)
      → i < v.dev.fat_size * 512
      → v.image (v.dev.rsvd_sec_cnt * 512 + i) ≡ v.dev.fat i
      → (fs_set_fat_cluster_entry v c value).image (v.dev.rsvd_sec_cnt * 512 + i)
        ≡ put_entry v.dev.fat_type v.dev.fat c value i
  unfolding covers
  set-image_table i h m =
      let same : v.dev.rsvd_sec_cnt * 512 + i - v.dev.rsvd_sec_cnt * 512 ≡ i = omega arith in
      elim (Bool-cases (covers (v.dev.rsvd_sec_cnt * 512 + i))) [
        | inl e ↦ rw (set-image (v.dev.rsvd_sec_cnt * 512 + i), e, same)
        | inr e ↦
            rw (set-image (v.dev.rsvd_sec_cnt * 512 + i), e)
              (m ∙ sym (put_entry-frame v.dev.fat_type v.dev.fat c value i (untouched i e)))
      ]

  pub set-image_outside :
      (a : ℕ)
      → (a < v.dev.rsvd_sec_cnt * 512) ⊎ ((v.dev.rsvd_sec_cnt + v.dev.fat_size) * 512 ≤ a)
      → (fs_set_fat_cluster_entry v c value).image a ≡ v.image a
  set-image_outside a (inl h) = set-image a ∙ ground arith
  set-image_outside a (inr h) =
      let bounds = sectors_of-le v.dev.fat_type c small in set-image a ∙ ground arith

-- With sectors of 512 bytes and an entry that lies in the table: the bytes that
-- `fs_set_fat_cluster_entry` writes to the image keep the first table of the image equal to the table
-- in memory, also where an entry of 12 bits lies in two sectors, and every byte of the image outside of
-- this table stays as it was.
pub set_fat_cluster_entry-IsMirrored :
    (v : Volume) (c value a : ℕ)
    → IsSectored v.dev
    → c < 2 ^ 30
    → entry_offset v.dev.fat_type c + width v.dev.fat_type ≤ v.dev.fat_size * 512
    → IsMirrored v
    → (a < v.dev.rsvd_sec_cnt * 512) ⊎ ((v.dev.rsvd_sec_cnt + v.dev.fat_size) * 512 ≤ a)
    → IsMirrored (fs_set_fat_cluster_entry v c value)
      × ((fs_set_fat_cluster_entry v c value).image a ≡ v.image a)
unfolding fs_set_fat_cluster_entry
set_fat_cluster_entry-IsMirrored v c value a s small inside m out = (
  λ i h. set-image_table v c value s small inside i h (m i h),
  set-image_outside v c value s small inside a out,
)
