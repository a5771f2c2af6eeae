-- ===== src/Fat/Init.antt =====
-- tools/fat/fat.c: `fs_init`, which reads the parameters of the volume from its first sector.
use tos_sfsu_fall.Base.{
  ℕ, ◌+◌, ◌-◌, ◌*◌, ◌/◌, ◌%◌, ◌^◌, ◌<◌, ◌≡◌, refl, ap, Bool, true, false, not, ◌||◌, ◌==◌, ltb,
  if◌then◌else◌, Bool-cases, inl, inr, ◌⊎◌, arith,
}
use tos_sfsu_fall.Kernel.Memory.{Memory, peek_w, peek_l}
use tos_sfsu_fall.Kernel.State.{Outcome, done, halt, failed_assertion, assert, ◌>>◌}
use tos_sfsu_fall.Fat.{FatType, fat12, fat16, fat32, Device, fs_bio_read}
use tos_sfsu_fall.Fat.File.{FcbEntry, Files, tos_init_fcb}
use tos_sfsu_fall.Fat.Entry.{IsBytes}
use tos_sfsu_fall.Fat.Mirror.{IsMirrored}
use tos_sfsu_fall.Fat.Chain.{IsSized}

-- The fields that are used; the size of the table in 32 bits is the one of the union.
pub record BpbFat : Type 0 where
  pub bs_jmp_boot : ℕ
  pub bpb_byts_per_sec : ℕ
  pub bpb_sec_per_clus : ℕ
  pub bpb_rsvd_sec_cnt : ℕ
  pub bpb_num_fats : ℕ
  pub bpb_root_ent_cnt : ℕ
  pub bpb_tot_sec16 : ℕ
  pub bpb_fat_sz16 : ℕ
  pub bpb_tot_sec32 : ℕ
  pub bpb_fat_sz32 : ℕ

-- The layout of the packed structure.
unfoldable pub read_bpb : Memory → BpbFat
unfolding peek_w peek_l
read_bpb m = record {
  bs_jmp_boot = m 0;
  bpb_byts_per_sec = peek_w m 11;
  bpb_sec_per_clus = m 13;
  bpb_rsvd_sec_cnt = peek_w m 14;
  bpb_num_fats = m 16;
  bpb_root_ent_cnt = peek_w m 17;
  bpb_tot_sec16 = peek_w m 19;
  bpb_fat_sz16 = peek_w m 22;
  bpb_tot_sec32 = peek_l m 32;
  bpb_fat_sz32 = peek_l m 36;
}

abbrev pub is_sector_size : ℕ → Bool
is_sector_size bps = bps == 512 || bps == 1024 || bps == 2048 || bps == 4096

abbrev pub is_cluster_size : ℕ → Bool
is_cluster_size n =
    n == 1 || n == 2 || n == 4 || n == 8 || n == 16 || n == 32 || n == 64 || n == 128

unfoldable pub fs_check_fat : BpbFat → Outcome (Unit {0})
fs_check_fat fat = do
  assert (fat.bs_jmp_boot == 0xEB || fat.bs_jmp_boot == 0xE9)
  assert (is_sector_size fat.bpb_byts_per_sec)
  assert (is_cluster_size fat.bpb_sec_per_clus)
  assert (fat.bpb_num_fats == 2)

unfoldable pub type_of : (total_clusters : ℕ) → FatType
type_of total_clusters =
    if ltb total_clusters 4085 then fat12 else if ltb total_clusters 65525 then fat16 else fat32

abbrev pub is_fat32 : FatType → Bool
is_fat32 fat12 = false
is_fat32 fat16 = false
is_fat32 fat32 = true

-- The device for the parameters, with a table yet to be read. The differences wrap around.
unfoldable pub device_of : BpbFat → Memory → Device
unfolding type_of
device_of fat heap =
    let fat_size = if fat.bpb_fat_sz16 == 0 then fat.bpb_fat_sz32 else fat.bpb_fat_sz16 in
    let bytes = fat.bpb_byts_per_sec in
    let tables = fat.bpb_num_fats * fat_size in
    let root_dir_secs = (fat.bpb_root_ent_cnt * 32 + (bytes - 1)) / bytes in
    let system = (fat.bpb_rsvd_sec_cnt + tables + root_dir_secs) % 2 ^ 32 in
    let total = if fat.bpb_tot_sec16 == 0 then fat.bpb_tot_sec32 else fat.bpb_tot_sec16 in
    let total_data_sectors = (total + 2 ^ 32 - system) % 2 ^ 32 in
    let total_clusters = total_data_sectors / fat.bpb_sec_per_clus in
    record {
      fat_type = type_of total_clusters;
      fat_size = fat_size;
      num_fat = fat.bpb_num_fats;
      fat = heap;
      bytes_per_sector = bytes;
      sectors_per_cluster = fat.bpb_sec_per_clus;
      root_dir_secs = root_dir_secs;
      first_root_dir_sector = (fat.bpb_rsvd_sec_cnt + tables) % 2 ^ 32;
      first_data_sector = system;
      total_sectors = total;
      total_data_sectors = total_data_sectors;
      total_clusters = total_clusters;
      rsvd_sec_cnt = fat.bpb_rsvd_sec_cnt;
    }

-- `stack` is what the buffer for the sector holds before, and `heap` what `malloc` gives.
unfoldable pub fs_init : (image stack heap : Memory) → (ℕ → FcbEntry) → Outcome Files
unfolding fs_bio_read read_bpb fs_check_fat device_of tos_init_fcb
fs_init image stack heap fcb = do
  let fat = read_bpb (fs_bio_read image stack 0 1)
  fs_check_fat fat
  let dev = device_of fat heap
  assert (not (is_fat32 dev.fat_type))
  done (record {
    volume = record {
      dev = record dev { fat = fs_bio_read image heap 1 dev.fat_size };
      image = image;
    };
    fcb = tos_init_fcb fcb;
  })

-- The state that `fs_init` leaves.
pub record IsStarted (f : Files) : Type 0 where
  pub sector : f.volume.dev.bytes_per_sector ≡ 512
  pub bytes : IsBytes f.volume.dev.fat
  pub sized : IsSized f.volume.dev.fat_type f.volume.dev.total_clusters
  pub mirrored : IsMirrored f.volume
  pub unused : (i : ℕ) → i < 20 → (f.fcb i).used ≡ false

fs_bio_read-IsBytes :
    (image buffer : Memory) (start n : ℕ)
    → IsBytes image
    → IsBytes buffer
    → IsBytes (fs_bio_read image buffer start n)
unfolding fs_bio_read
fs_bio_read-IsBytes image buffer start n b b' a = elim (Bool-cases (ltb a (n % 2 ^ 16 * 512))) [
  | inl e ↦ rw e (b _)
  | inr e ↦ rw e (b' a)
]

type_of-IsSized : (n : ℕ) → is_fat32 (type_of n) ≡ false → IsSized (type_of n) n
unfolding type_of
type_of-IsSized n h = elim (Bool-cases (ltb n 4085)) [
  | inl e ↦ rw e (ground arith)
  | inr e ↦ elim (Bool-cases (ltb n 65525)) [
    | inl e' ↦ rw (e, e') (ground arith)
    | inr e' ↦ let bad : is_fat32 (type_of n) ≡ true = rw (e, e') in absurd (ground (arith, h, bad))
  ]
]

-- A sequence of assertions.
abbrev Stops : Outcome (Unit {0}) → Type 0
Stops m = (m ≡ done tt) ⊎ (m ≡ halt failed_assertion)

assert-Stops : (b : Bool) → Stops (assert b)
assert-Stops true = inl refl
assert-Stops false = inr refl

assert_then-Stops : (b : Bool) (n : Outcome (Unit {0})) → Stops n → Stops (assert b >> n)
assert_then-Stops true n s = s
assert_then-Stops false n s = inr refl

check-Stops : (fat : BpbFat) → Stops (fs_check_fat fat)
unfolding fs_check_fat
check-Stops fat =
    let a = fat.bs_jmp_boot == 0xEB || fat.bs_jmp_boot == 0xE9 in
    let b = is_sector_size fat.bpb_byts_per_sec in
    let c = is_cluster_size fat.bpb_sec_per_clus in
    let d = fat.bpb_num_fats == 2 in
    assert_then-Stops a (assert b >> (assert c >> assert d))
      (assert_then-Stops b (assert c >> assert d) (assert_then-Stops c (assert d) (assert-Stops d)))

-- The first sector as `fs_init` sees it.
abbrev pub bpb_of : (image stack : Memory) → BpbFat
bpb_of image stack = read_bpb (fs_bio_read image stack 0 1)

started : (image stack heap : Memory) → (ℕ → FcbEntry) → Files
started image stack heap fcb =
    let dev = device_of (bpb_of image stack) heap in
    record {
      volume = record {
        dev = record dev { fat = fs_bio_read image heap 1 dev.fat_size };
        image = image;
      };
      fcb = tos_init_fcb fcb;
    }

module _ (image stack heap : Memory) (fcb : ℕ → FcbEntry) (bytes : IsBytes image)
    (bytes' : IsBytes stack) (bytes'' : IsBytes heap)
    (reserved : (bpb_of image stack).bpb_rsvd_sec_cnt ≡ 1)
    (sized : 0 < (bpb_of image stack).bpb_fat_sz16)
    (sector : (bpb_of image stack).bpb_byts_per_sec ≡ 512) where
  few_sectors : (device_of (bpb_of image stack) heap).fat_size < 2 ^ 16
  unfolding device_of read_bpb peek_w
  few_sectors =
      let low = fs_bio_read-IsBytes image stack 0 1 bytes bytes' 22 in
      let high = fs_bio_read-IsBytes image stack 0 1 bytes bytes' 23 in ground arith

  started-IsMirrored : IsMirrored (started image stack heap fcb).volume
  unfolding started
  started-IsMirrored i h =
      let few = few_sectors in
      let dev = device_of (bpb_of image stack) heap in
      let one : dev.rsvd_sec_cnt ≡ 1 = unfold device_of in reserved in
      let inside : ltb i (dev.fat_size % 2 ^ 16 * 512) ≡ true = ground (arith, h) in
      let place : dev.rsvd_sec_cnt * 512 + i ≡ 1 * 512 % 2 ^ 32 + i = omega (arith, one) in
      unfold fs_bio_read in rw inside (ap image place)

  started-IsStarted :
      is_fat32 (device_of (bpb_of image stack) heap).fat_type ≡ false
      → IsStarted (started image stack heap fcb)
  unfolding started device_of
  started-IsStarted h = record {
    sector = sector;
    bytes = fs_bio_read-IsBytes image heap 1 _ bytes bytes'';
    sized = type_of-IsSized (device_of (bpb_of image stack) heap).total_clusters h;
    mirrored = started-IsMirrored;
    unused = λ i low. unfold tos_init_fcb in ground arith;
  }

  -- Where the first sector says sectors of 512 bytes, one reserved sector and a table size of 16
  -- bits, `fs_init` either stops at an assertion, or returns with a table of bytes that is equal
  -- to the first table of the image, with a number of clusters that fits the type of the table,
  -- and with all control blocks unused.
  pub fs_init-IsStarted :
      (fs_init image stack heap fcb ≡ halt failed_assertion)
      ⊎ ((f : Files) × (fs_init image stack heap fcb ≡ done f) × IsStarted f)
  unfolding fs_init
  fs_init-IsStarted = elim (check-Stops (bpb_of image stack)) [
    | inr stops ↦ inl (rw stops)
    | inl passes ↦ elim (Bool-cases (is_fat32 (device_of (bpb_of image stack) heap).fat_type)) [
      | inl e ↦ inl (rw (passes, e))
      | inr e ↦
          inr (started image stack heap fcb, unfold started in rw (passes, e), started-IsStarted e)
    ]
  ]
