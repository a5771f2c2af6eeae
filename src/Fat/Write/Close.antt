-- ===== src/Fat/Write/Close.antt =====
-- `fs_write` by a file descriptor, and reading a file that was written.
use tos_sfsu_fall.Base.{
  ℕ, suc, ◌+◌, ◌-◌, ◌*◌, ◌/◌, ◌^◌, ◌<◌, ◌≡◌, ◌⊎◌, refl, ◌∙◌, ap, true, leb, none, List, [], ◌∷◌,
  ◌++◌, length, get_or, min, arith,
}
use tos_sfsu_fall.Kernel.State.{done}
use tos_sfsu_fall.Fat.{Volume, fs_get_free_cluster}
use tos_sfsu_fall.Fat.Content.{byte_at, content}
use tos_sfsu_fall.Fat.File.{
  FcbEntry, Files, is_valid_fcb_entry, flush_sector, read_bytes, fs_write, minus, tos_no_error,
}
use tos_sfsu_fall.Fat.Handle.{block}
use tos_sfsu_fall.Fat.Place.{floppy-IsDevice}
use tos_sfsu_fall.Fat.Read.{IsReading, read_bytes-Reads}
use tos_sfsu_fall.Fat.Write.{IsWriting, flush_sector-saved}

-- Writing `bytes` by a descriptor of a file that holds `bs`.
pub record WritesFile (f : Files) (fd c : ℕ) (bs bytes : List ℕ) : Type 0 where
  pub code : ℕ
  pub to : Files
  pub clusters : List ℕ
  pub written : List ℕ
  pub returns : fs_write f fd bytes ≡ (code, to)
  pub valid : is_valid_fcb_entry to fd ≡ true
  pub writing : IsWriting to.volume c clusters written (block to fd)
  pub outcome :
      ((code ≡ 0) × (written ≡ bs ++ bytes))
      ⊎ ((code ≡ minus 1)
          × (fs_get_free_cluster to.volume.dev ≡ none)
          × ((part rest : List ℕ) × (written ≡ bs ++ part)
              × (part ++ rest ≡ bytes)
              × (0 < length rest)))

-- The content from its bytes.
content-eq :
    (v : Volume) (clusters xs : List ℕ) (pos : ℕ)
    → ((i : ℕ) → i < length xs → byte_at v clusters (pos + i) ≡ get_or xs i 0)
    → content v clusters pos (length xs) ≡ xs
content-eq v clusters [] pos h = refl
content-eq v clusters (x ∷ xs) pos h =
    let here : byte_at v clusters pos ≡ x =
      ap (byte_at v clusters) (omega arith) ∙ h 0 (omega arith) in
    let rest =
      content-eq v clusters xs (pos + 1)
        λ i low. ap (byte_at v clusters) (omega arith) ∙ h (suc i) (omega (arith, low)) in
    rw (here, rest)

-- On a volume of 12 or 16 bits whose clusters are one sector of 512 bytes, with the table before
-- the data and all below 4 GB, a file is read back: when all that was written is flushed as
-- `fs_close` does, then reading as many bytes from the start, by a new block with the first
-- cluster and the size of the file, returns just the bytes that were written, without an error.
pub flush-read :
    (v : Volume) (c : ℕ) (ds bs : List ℕ) (f g : FcbEntry)
    → IsWriting v c ds bs f
    → length bs < 2 ^ 32
    → g.first_cluster ≡ f.first_cluster
    → g.file_size ≡ f.file_size
    → g.pos ≡ 0
    → (g' : FcbEntry) × (read_bytes (flush_sector v f) (length bs) g ≡ done (tos_no_error, bs, g'))
unfolding flush_sector
flush-read v c ds bs f g o small first size start =
    let v' = flush_sector v f in
    let whole : (length ds + 1) * (512 * v.dev.sectors_per_cluster) ≡ (length ds + 1) * 512 =
      ap (λ s. (length ds + 1) * (512 * s)) o.floppy.single ∙ omega arith in
    let reading : IsReading v' c ds g = record {
      first = first ∙ o.first;
      fits = omega (arith, size, o.size, o.blocks, whole);
      small = omega (arith, size, o.size, small);
      within = omega (arith, start);
      loaded = λ n i low. absurd (n (omega (arith, start)));
    } in
    let x =
      read_bytes-Reads v' c ds (floppy-IsDevice v.dev o.floppy) o.chain (length bs) g reading in
    let code : leb (g.pos + length bs) g.file_size ≡ true = ground (arith, start, size, o.size) in
    let count : min (length bs) (g.file_size - g.pos) ≡ length bs =
      omega (arith, start, size, o.size) in
    let whole_content : content v' (c ∷ ds) g.pos (length bs) ≡ bs =
      content-eq v' (c ∷ ds) bs g.pos λ i low.
        ap (byte_at v' (c ∷ ds)) (omega (arith, start))
        ∙ flush_sector-saved ((length bs - 1) / 512) v c ds bs f i o low (omega (arith, low)) in
    (x.to, x.returns ∙ rw (code, count, whole_content))
