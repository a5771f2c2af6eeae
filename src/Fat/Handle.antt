-- ===== src/Fat/Handle.antt =====
-- `fs_read` and `TOS_fs_seek` by a file descriptor.
use tos_sfsu_fall.Base.{
  ℕ, ◌+◌, ◌-◌, ◌*◌, ◌<◌, ◌≡◌, refl, ◌∙◌, ap, subst, true, false, leb, ==_refl, if◌then◌else◌, List,
  ◌∷◌, length, min, arith,
}
use tos_sfsu_fall.Kernel.State.{done, update}
use tos_sfsu_fall.Fat.{Volume}
use tos_sfsu_fall.Fat.Chain.{IsChain}
use tos_sfsu_fall.Fat.Content.{IsDevice, content}
use tos_sfsu_fall.Fat.File.{
  FcbEntry, Files, fcb_entry, is_valid_fcb_entry, fs_read, tos_no_error, tos_err_beyond_eof,
}
use tos_sfsu_fall.Fat.Seek.{tos_fs_seek, tos_load_sector-load_sector}
use tos_sfsu_fall.Fat.Read.{
  IsReading, read_bytes-Reads, load_sector_lem, loaded_from, loaded_from-sector,
}

-- The block of a descriptor.
abbrev pub block : Files → ℕ → FcbEntry
block f fd = f.fcb (fcb_entry fd)

-- A new block, and a new volume, keep the descriptor valid.
pub is_valid-kept :
    (f : Files) (fd : ℕ) (v : Volume) (b : FcbEntry)
    → b.used ≡ (block f fd).used
    → b.seq ≡ (block f fd).seq
    → is_valid_fcb_entry (record { volume = v; fcb = update f.fcb (fcb_entry fd) b }) fd
      ≡ is_valid_fcb_entry f fd
unfolding is_valid_fcb_entry
is_valid-kept f fd v b u s = rw (==_refl (fcb_entry fd), u, s)

-- Reading `n` bytes by a valid descriptor of a file with the clusters `c` and `ds`.
pub record ReadsFile (f : Files) (fd : ℕ) (c : ℕ) (ds : List ℕ) (pos n : ℕ) : Type 0 where
  pub to : Files
  pub returns :
      fs_read f fd n
      ≡ done (
        if leb (pos + n) (block f fd).file_size then tos_no_error else tos_err_beyond_eof,
        content f.volume (c ∷ ds) pos (min n ((block f fd).file_size - pos)),
        to,
      )
  pub volume : to.volume ≡ f.volume
  pub valid : is_valid_fcb_entry to fd ≡ true
  pub reading : IsReading f.volume c ds (block to fd)
  pub place : (block to fd).pos ≡ pos + min n ((block f fd).file_size - pos)

-- With sectors of 512 bytes and clusters below 4 GB, `fs_read` by a valid descriptor returns, with
-- the bytes of the file from the current position on, as many as are asked for or as are left; it
-- says in the second case that the end of the file was met. The position moves on by what was
-- read, and the descriptor is ready for the next call. The chain of the file reaches its size.
pub fs_read-content :
    (f : Files) (fd n c : ℕ) (ds : List ℕ)
    → is_valid_fcb_entry f fd ≡ true
    → IsDevice f.volume.dev
    → IsChain f.volume.dev c ds
    → IsReading f.volume c ds (block f fd)
    → ReadsFile f fd c ds (block f fd).pos n
fs_read-content f fd n c ds valid d chain r =
    let x = read_bytes-Reads f.volume c ds d chain n (block f fd) r in
    let same = ==_refl (fcb_entry fd) in
    record {
      to = record f { fcb = update f.fcb (fcb_entry fd) x.to };
      returns = unfold fs_read in rw (valid, x.returns);
      volume = refl;
      valid = is_valid-kept f fd f.volume x.to x.handle.0 x.handle.1 ∙ valid;
      reading = rw same x.reading;
      place = rw same x.pos;
    }

sought : Files → (fd pos c : ℕ) → List ℕ → FcbEntry
sought f fd pos c ds = loaded_from f.volume c ds (record (block f fd) { pos = pos })

seek-returns :
    (f : Files) (fd pos c : ℕ) (ds : List ℕ)
    → is_valid_fcb_entry f fd ≡ true
    → IsDevice f.volume.dev
    → IsChain f.volume.dev c ds
    → IsReading f.volume c ds (block f fd)
    → pos < (block f fd).file_size
    → tos_fs_seek f fd pos
      ≡ done (tos_no_error, record f { fcb = update f.fcb (fcb_entry fd) (sought f fd pos c ds) })
unfolding tos_fs_seek sought
seek-returns f fd pos c ds valid d chain r h =
    let inside : leb (block f fd).file_size pos ≡ false = ground arith in
    let there : pos < (length ds + 1) * (512 * f.volume.dev.sectors_per_cluster) =
      omega (arith, h, r.fits) in
    rw (
      valid,
      inside,
      tos_load_sector-load_sector f.volume (record (block f fd) { pos = pos }),
      load_sector_lem f.volume c ds d chain (record (block f fd) { pos = pos }) r.first there,
    )

sought-IsReading :
    (f : Files) (fd pos c : ℕ) (ds : List ℕ)
    → IsDevice f.volume.dev
    → IsChain f.volume.dev c ds
    → IsReading f.volume c ds (block f fd)
    → pos < (block f fd).file_size
    → IsReading f.volume c ds (sought f fd pos c ds)
unfolding sought loaded_from
sought-IsReading f fd pos c ds d chain r h = record {
  first = r.first;
  fits = r.fits;
  small = r.small;
  within = omega (arith, h);
  loaded =
      λ n i low. loaded_from-sector f.volume c ds d chain (record (block f fd) { pos = pos }) i low;
}

-- With sectors of 512 bytes and clusters below 4 GB, `TOS_fs_seek` by a valid descriptor to a
-- position before the end of the file, and `fs_read` then: the bytes of the file from that
-- position on, as many as are asked for or as are left. The chain of the file reaches its size.
pub seek-read :
    (f : Files) (fd pos n c : ℕ) (ds : List ℕ)
    → is_valid_fcb_entry f fd ≡ true
    → IsDevice f.volume.dev
    → IsChain f.volume.dev c ds
    → IsReading f.volume c ds (block f fd)
    → pos < (block f fd).file_size
    → (f' : Files) × (tos_fs_seek f fd pos ≡ done (tos_no_error, f'))
      × ((block f' fd).file_size ≡ (block f fd).file_size)
      × (f'.volume ≡ f.volume)
      × ReadsFile f' fd c ds pos n
seek-read f fd pos n c ds valid d chain r h =
    let b = sought f fd pos c ds in
    let f' = record f { fcb = update f.fcb (fcb_entry fd) b } in
    let same = ==_refl (fcb_entry fd) in
    let here : block f' fd ≡ b = rw same in
    (
      f',
      seek-returns f fd pos c ds valid d chain r h,
      ap (λ x. x.file_size) here ∙ unfold sought loaded_from in refl,
      refl,
      subst (λ p. ReadsFile f' fd c ds p n)
          (ap (λ x. x.pos) here ∙ unfold sought loaded_from in refl)
          (fs_read-content f' fd n c ds
            (is_valid-kept f fd f.volume b (unfold sought loaded_from in refl)
                (unfold sought loaded_from in refl)
              ∙ valid)
            d chain (rw same (sought-IsReading f fd pos c ds d chain r h))),
    )
