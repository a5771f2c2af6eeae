-- ===== src/Fat/Read.antt =====
-- `fs_read` against the content of a file.
use tos_sfsu_fall.Base.{
  ℕ, zero, suc, ◌+◌, ◌-◌, ◌*◌, ◌/◌, ◌%◌, ◌^◌, ◌≤◌, ◌<◌, ◌≡◌, ◌≢◌, refl, sym, ◌∙◌, ap, true, false,
  Bool-cases, inl, inr, leb, ltb_of_lt, ◌==◌, if◌then◌else◌, List, [], ◌∷◌, length, min, arith,
}
use tos_sfsu_fall.Kernel.State.{done, ◌>>=◌}
use tos_sfsu_fall.Fat.{Volume, fs_bio_read}
use tos_sfsu_fall.Fat.Chain.{IsChain}
use tos_sfsu_fall.Fat.Content.{
  IsDevice, block_sector, byte_at, content, bytes_per_cluster_lem, sector_at-block,
  find_cluster-chain,
}
use tos_sfsu_fall.Fat.File.{
  FcbEntry, bytes_per_cluster, load_sector, read_bytes, tos_no_error, tos_err_beyond_eof,
}
use native.Mathlib.Nat.{div-lt_iff_lt-mul}

-- The block holds the sector of its position, unless the position is the start of a sector.
abbrev pub IsLoaded : Volume → List ℕ → FcbEntry → Type 0
IsLoaded v clusters f =
    f.pos % 512 ≢ 0 → (i : ℕ) → i < 512 → f.sector i ≡ byte_at v clusters (f.pos / 512 * 512 + i)

-- A file that is open for reading: its clusters are `c` and `ds`.
pub record IsReading (v : Volume) (c : ℕ) (ds : List ℕ) (f : FcbEntry) : Type 0 where
  pub first : f.first_cluster ≡ c
  pub fits : f.file_size ≤ (length ds + 1) * (512 * v.dev.sectors_per_cluster)
  pub small : f.file_size < 2 ^ 32
  pub within : f.pos ≤ f.file_size
  pub loaded : IsLoaded v (c ∷ ds) f

-- Reading `n` bytes: what is returned, up to the end of the file, and the block behind it.
pub record Reads (v : Volume) (c : ℕ) (ds : List ℕ) (n : ℕ) (f : FcbEntry) : Type 0 where
  pub to : FcbEntry
  pub returns :
      read_bytes v n f
      ≡ done (
        if leb (f.pos + n) f.file_size then tos_no_error else tos_err_beyond_eof,
        content v (c ∷ ds) f.pos (min n (f.file_size - f.pos)),
        to,
      )
  pub reading : IsReading v c ds to
  pub pos : to.pos ≡ f.pos + min n (f.file_size - f.pos)
  pub size : to.file_size ≡ f.file_size
  pub handle : (to.used ≡ f.used) × (to.seq ≡ f.seq)

byte_at-block :
    (v : Volume) (clusters : List ℕ) (b i : ℕ)
    → i < 512
    → byte_at v clusters (b * 512 + i) ≡ v.image (block_sector v.dev clusters b * 512 % 2 ^ 32 + i)
byte_at-block v clusters b i h =
    let block : (b * 512 + i) / 512 ≡ b = omega arith in
    let rest : (b * 512 + i) % 512 ≡ i = omega arith in
    ap (λ x. v.image (block_sector v.dev clusters x * 512 % 2 ^ 32 + (b * 512 + i) % 512)) block
    ∙ ap (λ r. v.image (block_sector v.dev clusters b * 512 % 2 ^ 32 + r)) rest

==_at : (a b : ℕ) → a ≡ b → (a == b) ≡ true
==_at a b e = ground arith

-- The block behind `load_sector`.
unfoldable pub loaded_from : Volume → ℕ → List ℕ → FcbEntry → FcbEntry
loaded_from v c ds f = record f {
  sector = fs_bio_read v.image f.sector (block_sector v.dev (c ∷ ds) (f.pos / 512)) 1;
}

module _ (v : Volume) (c : ℕ) (ds : List ℕ) (d : IsDevice v.dev) (chain : IsChain v.dev c ds) where
  pub load_sector_lem :
      (f : FcbEntry)
      → f.first_cluster ≡ c
      → f.pos < (length ds + 1) * (512 * v.dev.sectors_per_cluster)
      → load_sector v f ≡ done (loaded_from v c ds f)
  unfolding load_sector loaded_from
  load_sector_lem f first h =
      let k = f.pos / bytes_per_cluster v.dev in
      let room : 0 < 512 * v.dev.sectors_per_cluster = omega (arith, d.clustered) in
      let below : f.pos / (512 * v.dev.sectors_per_cluster) < length ds + 1 =
        (div-lt_iff_lt-mul room).1 h in
      let few : k ≤ length ds = rw (bytes_per_cluster_lem v.dev d) (omega arith) in
      rw (first, find_cluster-chain v.dev k c ds chain few, sector_at-block v.dev (c ∷ ds) f.pos d)

  pub loaded_from-sector :
      (f : FcbEntry) (i : ℕ)
      → i < 512
      → (loaded_from v c ds f).sector i ≡ byte_at v (c ∷ ds) (f.pos / 512 * 512 + i)
  unfolding loaded_from fs_bio_read
  loaded_from-sector f i h =
      rw (ltb_of_lt i 512 h) (sym (byte_at-block v (c ∷ ds) (f.pos / 512) i h))

  -- The block before a byte is taken from it.
  filled : FcbEntry → FcbEntry
  filled f = record f {
    sector = if f.pos % 512 == 0 then (loaded_from v c ds f).sector else f.sector;
  }

  filled_lem :
      (f : FcbEntry)
      → IsReading v c ds f
      → f.pos < f.file_size
      → (if f.pos % v.dev.bytes_per_sector == 0 then load_sector v f else done f) ≡ done (filled f)
  unfolding filled loaded_from
  filled_lem f r h =
      let there : f.pos < (length ds + 1) * (512 * v.dev.sectors_per_cluster) =
        omega (arith, r.fits) in
      ap (λ n. if f.pos % n == 0 then load_sector v f else done f) d.sector
      ∙ elim (Bool-cases (f.pos % 512 == 0)) [
        | inl e ↦ rw e (load_sector_lem f r.first there)
        | inr e ↦ rw e
      ]

  filled-sector :
      (f : FcbEntry) (i : ℕ)
      → IsReading v c ds f
      → i < 512
      → (filled f).sector i ≡ byte_at v (c ∷ ds) (f.pos / 512 * 512 + i)
  unfolding filled
  filled-sector f i r h = elim (Bool-cases (f.pos % 512 == 0)) [
    | inl e ↦ rw e (loaded_from-sector f i h)
    | inr e ↦ rw e (r.loaded (ground arith) i h)
  ]

  -- And behind the byte.
  passed : FcbEntry → FcbEntry
  passed f = record (filled f) { pos = f.pos + 1 }

  passed-IsReading :
      (f : FcbEntry) → IsReading v c ds f → f.pos < f.file_size → IsReading v c ds (passed f)
  unfolding passed filled
  passed-IsReading f r h = record {
    first = r.first;
    fits = r.fits;
    small = r.small;
    within = omega arith;
    loaded = λ n i low.
        let same : (f.pos + 1) / 512 ≡ f.pos / 512 = omega (arith, n) in
        rw same (filled-sector f i r low);
  }

  passed-byte :
      (f : FcbEntry)
      → IsReading v c ds f
      → (filled f).sector (f.pos % 512) ≡ byte_at v (c ∷ ds) f.pos
  passed-byte f r =
      let whole : f.pos / 512 * 512 + f.pos % 512 ≡ f.pos = omega arith in
      filled-sector f (f.pos % 512) r (omega arith) ∙ ap (byte_at v (c ∷ ds)) whole

  read_bytes-end :
      (n : ℕ) (f : FcbEntry)
      → f.pos ≡ f.file_size
      → read_bytes v (suc n) f ≡ done (tos_err_beyond_eof, [], f)
  unfolding read_bytes
  read_bytes-end n f e = rw (==_at f.pos f.file_size e)

  read_bytes-more :
      (n : ℕ) (f : FcbEntry)
      → IsReading v c ds f
      → f.pos < f.file_size
      → read_bytes v (suc n) f ≡ (do
        (code, bytes, f₂) ← read_bytes v n (passed f)
        done (code, byte_at v (c ∷ ds) f.pos ∷ bytes, f₂))
  unfolding read_bytes passed
  read_bytes-more n f r h =
      let more : (f.pos == f.file_size) ≡ false = ground arith in
      let wrap : (f.pos + 1) % 2 ^ 32 ≡ f.pos + 1 = omega (arith, r.small) in
      let byte : (filled f).sector (f.pos % v.dev.bytes_per_sector) ≡ byte_at v (c ∷ ds) f.pos =
        ap (λ n. (filled f).sector (f.pos % n)) d.sector ∙ passed-byte f r in
      rw (more, filled_lem f r h, wrap, byte)

  pub read_bytes-Reads : (n : ℕ) (f : FcbEntry) → IsReading v c ds f → Reads v c ds n f
  unfolding passed filled
  read_bytes-Reads zero f r = record {
    to = f;
    returns =
        let code : leb (f.pos + 0) f.file_size ≡ true = ground (arith, r.within) in
        let none : min 0 (f.file_size - f.pos) ≡ 0 = omega arith in
        unfold read_bytes in rw (code, none);
    reading = r;
    pos = omega arith;
    size = refl;
    handle = (refl, refl);
  }
  read_bytes-Reads (suc n) f r = elim (Bool-cases (f.pos == f.file_size)) [
    | inl e ↦ record {
      to = f;
      returns =
          let code : leb (f.pos + suc n) f.file_size ≡ false = ground arith in
          let none : min (suc n) (f.file_size - f.pos) ≡ 0 = ground arith in
          rw (code, none, read_bytes-end n f (ground arith));
      reading = r;
      pos = ground arith;
      size = refl;
      handle = (refl, refl);
    }
    | inr e ↦
        let h : f.pos < f.file_size = ground (arith, r.within) in
        let rest = read_bytes-Reads n (passed f) (passed-IsReading f r h) in
        record {
          to = rest.to;
          returns =
              let ends : f.pos + suc n ≡ f.pos + 1 + n = omega arith in
              let count : min (suc n) (f.file_size - f.pos)
                  ≡ suc (min n (f.file_size - (f.pos + 1))) =
                omega arith in
              read_bytes-more n f r h ∙ rw (ends, count, rest.returns);
          reading = rest.reading;
          pos = rest.pos ∙ omega arith;
          size = rest.size;
          handle = rest.handle;
        }
  ]
