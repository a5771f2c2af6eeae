-- ===== src/Fat/Write.antt =====
-- `fs_write` on a volume with one sector to a cluster, against the bytes that it is given.
pub mod Link
pub mod Loop
pub mod Close
use tos_sfsu_fall.Base.{
  ℕ, zero, suc, ◌+◌, ◌-◌, ◌*◌, ◌/◌, ◌%◌, ◌^◌, ◌≤◌, ◌<◌, ◌≡◌, ◌≢◌, ◌⊎◌, inl, inr, refl, sym, ◌∙◌, ap,
  subst, Bool, true, false, not, ◌&&◌, leb, ltb, ◌==◌, if◌then◌else◌, Bool-cases, Option, none,
  some, Option-cases, List, [], ◌∷◌, ◌++◌, length, get_or, has, length-append, append-nil,
  append_assoc, ◌∈◌, ◌∉◌, Distinct, arith,
}
use tos_sfsu_fall.Kernel.State.{update}
use tos_sfsu_fall.Kernel.Memory.{Memory}
use tos_sfsu_fall.Fat.{
  Device, Volume, fs_get_free_cluster, fs_set_fat_cluster_entry, append_cluster, allocate_cluster,
}
use tos_sfsu_fall.Fat.Entry.{IsBytes}
use tos_sfsu_fall.Fat.Chain.{IsChain, last, last-mem, has-of-eq}
use tos_sfsu_fall.Fat.File.{
  FcbEntry, Room, room, full, make_room, flush_sector, write_bytes, minus, bytes_per_cluster,
}
use tos_sfsu_fall.Fat.Content.{byte_at}
use tos_sfsu_fall.Fat.Place.{
  IsFloppy, IsCluster, AreClusters, place, byte_at-place, flush_sector-at, flush_sector-other,
  get_or-IsCluster,
}

-- A file with the clusters `c` and `ds` to which the bytes `bs` have been written: those of the first
-- `k` blocks are in the image, and those behind them are in the block.
pub record IsOpen (k : ℕ) (v : Volume) (c : ℕ) (ds bs : List ℕ) (f : FcbEntry) : Type 0 where
  pub bytes : IsBytes v.dev.fat
  pub floppy : IsFloppy v.dev
  pub chain : IsChain v.dev c ds
  pub distinct : Distinct (c ∷ ds)
  pub clusters : AreClusters v.dev (c ∷ ds)
  pub first : f.first_cluster ≡ c
  pub current : f.current_cluster ≡ last c ds
  pub pos : f.pos ≡ length bs
  pub size : f.file_size ≡ length bs
  pub blocks : length ds ≡ k
  pub saved : (p : ℕ) → p < k * 512 → byte_at v (c ∷ ds) p ≡ get_or bs p 0
  pub buffered : (p : ℕ) → k * 512 ≤ p → p < length bs → f.sector (p % 512) ≡ get_or bs p 0

-- Between two calls: a full block is not yet in the image.
abbrev pub IsWriting : Volume → ℕ → (ds bs : List ℕ) → FcbEntry → Type 0
IsWriting v c ds bs f = IsOpen ((length bs - 1) / 512) v c ds bs f

pub last-get_or : (c : ℕ) (ds : List ℕ) → get_or (c ∷ ds) (length ds) 0 ≡ last c ds
last-get_or c [] = refl
last-get_or c (d ∷ ds) = last-get_or d ds

pub last-IsCluster :
    (dev : Device) (c : ℕ) (ds : List ℕ) → AreClusters dev (c ∷ ds) → IsCluster dev (last c ds)
last-IsCluster dev c [] h = h.0
last-IsCluster dev c (d ∷ ds) h = last-IsCluster dev d ds h.1

earlier-ne :
    (c : ℕ) (ds : List ℕ) (b : ℕ)
    → Distinct (c ∷ ds)
    → b < length ds
    → get_or (c ∷ ds) b 0 ≢ last c ds
earlier-ne c [] b h low = absurd (omega (arith, low))
earlier-ne c (d ∷ ds) zero h low =
    λ q. ground (arith, last-mem d ds, has-of-eq c (last d ds) (d ∷ ds) q)
earlier-ne c (d ∷ ds) (suc b) h low = earlier-ne d ds b h.1 (omega (arith, low))

-- With the block flushed, all bytes are in the image.
pub flush_sector-saved :
    (k : ℕ) (v : Volume) (c : ℕ) (ds bs : List ℕ) (f : FcbEntry) (p : ℕ)
    → IsOpen k v c ds bs f
    → p < length bs
    → p < (k + 1) * 512
    → byte_at (flush_sector v f) (c ∷ ds) p ≡ get_or bs p 0
unfolding flush_sector
flush_sector-saved k v c ds bs f p o low inside =
    let e = get_or (c ∷ ds) (p / 512) 0 in
    let count = o.blocks in
    let now : IsCluster v.dev f.current_cluster =
      rw (o.current) (last-IsCluster v.dev c ds o.clusters) in
    let there =
      byte_at-place (flush_sector v f) (c ∷ ds) p o.floppy o.clusters (omega (arith, count)) in
    elim (Bool-cases (ltb (p / 512) k)) [
      | inl early ↦
          let before : p / 512 < k = ground (arith, early) in
          let inside' : p / 512 < length ds = omega (arith, count) in
          let ne : e ≢ f.current_cluster =
            rw (o.current) (earlier-ne c ds (p / 512) o.distinct inside') in
          let mine =
            get_or-IsCluster v.dev (c ∷ ds) (p / 512) o.clusters (omega (arith, inside')) in
          there
          ∙ flush_sector-other v f e (p % 512) o.floppy now mine ne (omega arith)
          ∙ sym (byte_at-place v (c ∷ ds) p o.floppy o.clusters (omega (arith, inside')))
          ∙ o.saved p (omega arith)
      | inr late ↦
          let block : p / 512 ≡ length ds = ground (arith, late, count) in
          let same : e ≡ f.current_cluster =
            ap (λ b. get_or (c ∷ ds) b 0) block ∙ last-get_or c ds ∙ sym o.current in
          there
          ∙ ap (λ x. (flush_sector v f).image (place v.dev x (p % 512))) same
          ∙ flush_sector-at v f (p % 512) o.floppy now (omega arith)
          ∙ o.buffered p (ground (arith, late)) low
    ]
