-- ===== src/Fat/Tests.antt =====
-- A small volume, and each theorem about tools/fat/fat.c applied to it.
pub mod Open
use tos_sfsu_fall.Base.{
  ℕ, ◌-◌, ◌%◌, ◌<◌, ◌≡◌, ◌⊎◌, inr, refl, true, false, ◌&&◌, ◌||◌, zero, suc, get_or, leb, ltb, ◌==◌,
  if◌then◌else◌, some, [], ◌∷◌, Distinct, arith,
}
use tos_sfsu_fall.Kernel.Memory.{Memory, peek_w, poke_w}
use tos_sfsu_fall.Kernel.State.{done, halt, failed_assertion}
use tos_sfsu_fall.Fat.{
  Volume, fat12, entry, entry_offset, put_entry, fs_bio_read, fs_get_fat_cluster_entry,
  fs_set_fat_cluster_entry, fs_is_eoc, fs_get_free_cluster, free_cluster_from, append_cluster,
}
use tos_sfsu_fall.Fat.Entry.{IsBytes, get-set_fat_cluster_entry}
use tos_sfsu_fall.Fat.Mirror.{IsMirrored, set_fat_cluster_entry-IsMirrored}
use tos_sfsu_fall.Fat.Free.{Finds, get_free_cluster-Finds}
use tos_sfsu_fall.Fat.Chain.{IsChain, append_cluster-IsChain}
use tos_sfsu_fall.Fat.File.{
  FcbEntry, Files, is_valid_fcb_entry, flush_sector, read_bytes, open_mode_read, open_mode_write,
  tos_no_error,
}
use tos_sfsu_fall.Fat.Init.{IsStarted, read_bpb, fs_init, fs_init-IsStarted}
use tos_sfsu_fall.Fat.Content.{IsDevice}
use tos_sfsu_fall.Fat.Read.{IsReading}
use tos_sfsu_fall.Fat.Seek.{tos_fs_seek}
use tos_sfsu_fall.Fat.Handle.{ReadsFile, fs_read-content, seek-read}
use tos_sfsu_fall.Fat.Place.{IsFloppy}
use tos_sfsu_fall.Fat.Write.{IsWriting}
use tos_sfsu_fall.Fat.Write.Close.{flush-read}

-- The table: clusters 2 and 5 are the last ones of their files, and the others are free.
abbrev small_table : Memory
small_table a =
    if a == 3
    then 0xff
    else if a == 4
    then 0x0f
    else if a == 7
    then 0xf0
    else if a == 8
    then 0xff
    else 0

abbrev pub floppy : Volume
floppy = record {
  dev = record {
    fat_type = fat12;
    fat_size = 1;
    num_fat = 2;
    fat = small_table;
    bytes_per_sector = 512;
    sectors_per_cluster = 1;
    root_dir_secs = 1;
    first_root_dir_sector = 3;
    first_data_sector = 4;
    total_sectors = 24;
    total_data_sectors = 20;
    total_clusters = 20;
    rsvd_sec_cnt = 1;
  };
  image = λ a. if leb 512 a && ltb a 1024 then small_table (a - 512) else a % 256;
}

floppy-IsBytes : IsBytes floppy.dev.fat
floppy-IsBytes a = ground arith

-- The entry of cluster 4, which shares a byte with that of cluster 5.
set_123 : fs_get_fat_cluster_entry (fs_set_fat_cluster_entry floppy 4 0x123).dev 4 ≡ 0x123
unfolding fs_get_fat_cluster_entry fs_set_fat_cluster_entry entry put_entry entry_offset peek_w
    poke_w
set_123 = refl

get-set_fat_cluster_entry_example :
    fs_get_fat_cluster_entry (fs_set_fat_cluster_entry floppy 4 0x123).dev 5
    ≡ fs_get_fat_cluster_entry floppy.dev 5
get-set_fat_cluster_entry_example =
    get-set_fat_cluster_entry floppy 4 0x123 5 floppy-IsBytes (omega arith) (omega arith)

floppy-IsMirrored : IsMirrored floppy
floppy-IsMirrored i h = ground (arith, h)

set_fat_cluster_entry-IsMirrored_example :
    IsMirrored (fs_set_fat_cluster_entry floppy 4 0x123)
    × ((fs_set_fat_cluster_entry floppy 4 0x123).image 1024 ≡ 0)
set_fat_cluster_entry-IsMirrored_example =
    set_fat_cluster_entry-IsMirrored floppy 4 0x123 1024
      (record { sector = refl; below = omega arith }) (omega arith)
      (unfold entry_offset in omega arith) floppy-IsMirrored (inr (omega arith))

get_free_cluster-Finds_example : Finds floppy.dev 2 21 (fs_get_free_cluster floppy.dev)
get_free_cluster-Finds_example = get_free_cluster-Finds floppy.dev

floppy-free : fs_get_free_cluster floppy.dev ≡ some 3
unfolding fs_get_free_cluster free_cluster_from fs_get_fat_cluster_entry entry peek_w
floppy-free = refl

two-IsChain : IsChain floppy.dev 2 []
unfolding fs_is_eoc fs_get_fat_cluster_entry entry peek_w
two-IsChain = (omega arith, refl)

pub five-IsChain : IsChain floppy.dev 5 []
unfolding fs_is_eoc fs_get_fat_cluster_entry entry peek_w
five-IsChain = (omega arith, refl)

append_cluster-IsChain_example :
    (v' : Volume) × (append_cluster floppy 2 ≡ some (3, v'))
    × IsChain v'.dev 2 (3 ∷ [])
    × Distinct (2 ∷ 3 ∷ [])
    × IsChain v'.dev 5 []
append_cluster-IsChain_example =
    append_cluster-IsChain floppy 2 3 [] 5 [] floppy-IsBytes (omega arith) two-IsChain (refl, tt)
      floppy-free five-IsChain refl

-- The bytes of a first sector.
abbrev boot_sector : Memory
boot_sector a =
    if a == 0
    then 0xeb
    else if a == 12
    then 2
    else if a == 13 || a == 14 || a == 22
    then 1
    else if a == 16
    then 2
    else if a == 17
    then 16
    else if a == 19
    then 24
    else 0

abbrev closed : FcbEntry
closed = record {
  used = false;
  seq = 0;
  file_size = 0;
  pos = 0;
  first_cluster = 0;
  current_cluster = 0;
  sector = λ i. 0;
  mode = 0;
}

boot_sector-IsBytes : IsBytes boot_sector
boot_sector-IsBytes a = ground arith

fs_init-IsStarted_example :
    (fs_init boot_sector small_table small_table (λ i. closed) ≡ halt failed_assertion)
    ⊎ ((f : Files) × (fs_init boot_sector small_table small_table (λ i. closed) ≡ done f)
        × IsStarted f)
fs_init-IsStarted_example =
    fs_init-IsStarted boot_sector small_table small_table (λ i. closed) boot_sector-IsBytes
      floppy-IsBytes floppy-IsBytes (unfold read_bpb fs_bio_read peek_w in refl)
      (unfold read_bpb fs_bio_read peek_w in omega arith)
      (unfold read_bpb fs_bio_read peek_w in refl)

-- A file of three bytes in cluster 5, open for reading.
abbrev pub reading : FcbEntry
reading = record closed { used = true; file_size = 3; first_cluster = 5; mode = open_mode_read }

abbrev pub readable : Files
readable = record { volume = floppy; fcb = λ i. if i == 1 then reading else closed }

pub floppy-IsDevice : IsDevice floppy.dev
floppy-IsDevice = record { sector = refl; clustered = omega arith; below = omega arith }

pub readable-valid : is_valid_fcb_entry readable 1 ≡ true
unfolding is_valid_fcb_entry
readable-valid = refl

reading-IsReading : IsReading floppy 5 [] reading
reading-IsReading = record {
  first = refl;
  fits = omega arith;
  small = omega arith;
  within = omega arith;
  loaded = λ n. absurd (n refl);
}

fs_read-content_example : ReadsFile readable 1 5 [] 0 7
fs_read-content_example =
    fs_read-content readable 1 7 5 [] readable-valid floppy-IsDevice five-IsChain reading-IsReading

seek-read_example :
    (f' : Files) × (tos_fs_seek readable 1 1 ≡ done (tos_no_error, f'))
    × ((f'.fcb 1).file_size ≡ 3)
    × (f'.volume ≡ floppy)
    × ReadsFile f' 1 5 [] 1 2
seek-read_example =
    seek-read readable 1 1 2 5 [] readable-valid floppy-IsDevice five-IsChain reading-IsReading
      (omega arith)

floppy-IsFloppy : IsFloppy floppy.dev
unfolding entry_offset
floppy-IsFloppy = record {
  sector = refl;
  single = refl;
  sized = omega arith;
  behind = omega arith;
  below = omega arith;
  entries = λ e h. omega (arith, h);
}

-- A file with cluster 2 to which two bytes have been written.
abbrev writing : FcbEntry
writing = record closed {
  used = true;
  file_size = 2;
  pos = 2;
  first_cluster = 2;
  current_cluster = 2;
  sector = λ i. if i == 0 then 7 else 8;
  mode = open_mode_write;
}

two_bytes : (p : ℕ) → p < 2 → writing.sector (p % 512) ≡ get_or (7 ∷ 8 ∷ []) p 0
two_bytes zero h = refl
two_bytes (suc zero) h = refl
two_bytes (suc (suc p)) h = absurd (omega (arith, h))

writing-IsWriting : IsWriting floppy 2 [] (7 ∷ 8 ∷ []) writing
writing-IsWriting = record {
  bytes = floppy-IsBytes;
  floppy = floppy-IsFloppy;
  chain = two-IsChain;
  distinct = (refl, tt);
  clusters = ((omega arith, omega arith), tt);
  first = refl;
  current = refl;
  pos = refl;
  size = refl;
  blocks = refl;
  saved = λ p h. absurd (omega (arith, h));
  buffered = λ p low high. two_bytes p high;
}

abbrev writable : Files
writable = record { volume = floppy; fcb = λ i. if i == 0 then writing else closed }

flush-read_example :
    (g' : FcbEntry) × (read_bytes
        (flush_sector floppy writing)
        2
        (record closed { used = true; file_size = 2; first_cluster = 2 })
      ≡ done (tos_no_error, 7 ∷ 8 ∷ [], g'))
flush-read_example =
    flush-read floppy 2 [] (7 ∷ 8 ∷ []) writing
      (record closed { used = true; file_size = 2; first_cluster = 2 }) writing-IsWriting
      (omega arith) refl refl refl
