-- ===== src/Fat/Write/Link.antt =====
-- A new cluster for a file to which bytes are written.
use tos_sfsu_fall.Base.{
  ℕ, zero, suc, ◌+◌, ◌*◌, ◌/◌, ◌%◌, ◌^◌, ◌≤◌, ◌<◌, ◌≡◌, refl, sym, ◌∙◌, ap, some, List, [], ◌∷◌,
  ◌++◌, length, get_or, length-append, Distinct, arith,
}
use tos_sfsu_fall.Fat.{Device, Volume, eoc_mark, fs_get_free_cluster, fs_set_fat_cluster_entry}
use tos_sfsu_fall.Fat.Entry.{IsBytes}
use tos_sfsu_fall.Fat.Chain.{
  IsChain, IsChain-small, last, last-append, linked_volume, linked_volume-IsChain, set-IsBytes,
  sized-small, free-Finds,
}
use tos_sfsu_fall.Fat.Content.{byte_at}
use tos_sfsu_fall.Fat.File.{FcbEntry}
use tos_sfsu_fall.Fat.Place.{IsFloppy, IsCluster, AreClusters, place, byte_at-place, set-place}
use tos_sfsu_fall.Fat.Write.{IsOpen, last-IsCluster}

set-IsFloppy :
    (v : Volume) (c value : ℕ) → IsFloppy v.dev → IsFloppy (fs_set_fat_cluster_entry v c value).dev
unfolding fs_set_fat_cluster_entry
set-IsFloppy v c value d = record {
  sector = d.sector;
  single = d.single;
  sized = d.sized;
  behind = d.behind;
  below = d.below;
  entries = d.entries;
}

set-AreClusters :
    (v : Volume) (c value : ℕ) (es : List ℕ)
    → AreClusters v.dev es
    → AreClusters (fs_set_fat_cluster_entry v c value).dev es
set-AreClusters v c value [] h = tt
set-AreClusters v c value (e ∷ es) h =
    (unfold fs_set_fat_cluster_entry in h.0, set-AreClusters v c value es h.1)

AreClusters-append :
    (dev : Device) (es : List ℕ) (e : ℕ)
    → AreClusters dev es
    → IsCluster dev e
    → AreClusters dev (es ++ (e ∷ []))
AreClusters-append dev [] e h h' = (h', tt)
AreClusters-append dev (d ∷ es) e h h' = (h.0, AreClusters-append dev es e h.1 h')

pub get_or-append : (xs ys : List ℕ) (i : ℕ) → i < length xs → get_or (xs ++ ys) i 0 ≡ get_or xs i 0
get_or-append [] ys i h = absurd (omega (arith, h))
get_or-append (x ∷ xs) ys zero h = refl
get_or-append (x ∷ xs) ys (suc i) h = get_or-append xs ys i (omega (arith, h))

-- A byte of a file stays, whatever entry is set.
set-byte_at :
    (v : Volume) (c value : ℕ) (es : List ℕ) (p : ℕ)
    → IsFloppy v.dev
    → IsBytes v.dev.fat
    → c < 2 ^ 30
    → c ≤ v.dev.total_clusters
    → AreClusters v.dev es
    → p / 512 < length es
    → byte_at (fs_set_fat_cluster_entry v c value) es p ≡ byte_at v es p
unfolding fs_set_fat_cluster_entry
set-byte_at v c value es p d b small h clusters low =
    byte_at-place (fs_set_fat_cluster_entry v c value) es p (set-IsFloppy v c value d)
      (set-AreClusters v c value es clusters) low
    ∙ set-place v c value (get_or es (p / 512) 0) (p % 512) d b small h
    ∙ sym (byte_at-place v es p d clusters low)

-- Nor does a cluster behind those of the file change it.
byte_at-append :
    (v : Volume) (es : List ℕ) (x p : ℕ)
    → IsFloppy v.dev
    → AreClusters v.dev es
    → IsCluster v.dev x
    → p / 512 < length es
    → byte_at v (es ++ (x ∷ [])) p ≡ byte_at v es p
byte_at-append v es x p d clusters new low =
    let more : p / 512 < length (es ++ (x ∷ [])) = omega (arith, low, length-append es (x ∷ [])) in
    byte_at-place v (es ++ (x ∷ [])) p d (AreClusters-append v.dev es x clusters new) more
    ∙ ap (λ e. v.image (place v.dev e (p % 512))) (get_or-append es (x ∷ []) (p / 512) low)
    ∙ sym (byte_at-place v es p d clusters low)

-- The file `c`, `ds` is full, and cluster `x` is free.
pub record IsFull (v : Volume) (c : ℕ) (ds bs : List ℕ) (f : FcbEntry) (x : ℕ) : Type 0 where
  pub bytes : IsBytes v.dev.fat
  pub floppy : IsFloppy v.dev
  pub chain : IsChain v.dev c ds
  pub distinct : Distinct (c ∷ ds)
  pub clusters : AreClusters v.dev (c ∷ ds)
  pub first : f.first_cluster ≡ c
  pub pos : f.pos ≡ length bs
  pub size : f.file_size ≡ length bs
  pub filled : length bs ≡ (length ds + 1) * 512
  pub saved : (p : ℕ) → p < length bs → byte_at v (c ∷ ds) p ≡ get_or bs p 0
  pub free : fs_get_free_cluster v.dev ≡ some x

module _ (v : Volume) (c : ℕ) (ds bs : List ℕ) (f : FcbEntry) (x : ℕ)
    (full : IsFull v c ds bs f x) where
  abbrev v₁ : Volume
  v₁ = fs_set_fat_cluster_entry v x (eoc_mark v.dev.fat_type)

  found : IsCluster v.dev x
  found = let finds = free-Finds v.dev x full.free in (finds.0, omega (arith, finds.1))

  x-small : x < 2 ^ 30
  x-small =
      let finds = free-Finds v.dev x full.free in
      sized-small v.dev.fat_type v.dev.total_clusters x full.floppy.sized finds.1

  bytes₁ : IsBytes v₁.dev.fat
  bytes₁ = set-IsBytes v x (eoc_mark v.dev.fat_type) full.bytes

  floppy₁ : IsFloppy v₁.dev
  floppy₁ = set-IsFloppy v x (eoc_mark v.dev.fat_type) full.floppy

  floppy₂ : IsFloppy (linked_volume v (last c ds) x).dev
  floppy₂ = set-IsFloppy v₁ (last c ds) x floppy₁

  clusters₁ : AreClusters v₁.dev (c ∷ ds)
  clusters₁ = set-AreClusters v x (eoc_mark v.dev.fat_type) (c ∷ ds) full.clusters

  clusters₂ : AreClusters (linked_volume v (last c ds) x).dev (c ∷ ds)
  clusters₂ = set-AreClusters v₁ (last c ds) x (c ∷ ds) clusters₁

  found₂ : IsCluster (linked_volume v (last c ds) x).dev x
  unfolding fs_set_fat_cluster_entry
  found₂ = found

  l-small : last c ds < 2 ^ 30
  l-small = IsChain-small v.dev c ds full.chain

  l-le : last c ds ≤ v₁.dev.total_clusters
  unfolding fs_set_fat_cluster_entry
  l-le = (last-IsCluster v.dev c ds full.clusters).1

  linked-byte_at :
      (p : ℕ)
      → p < length bs
      → byte_at (linked_volume v (last c ds) x) (c ∷ (ds ++ (x ∷ []))) p ≡ get_or bs p 0
  linked-byte_at p h =
      let there : p / 512 < length (c ∷ ds) = omega (arith, h, full.filled) in
      byte_at-append (linked_volume v (last c ds) x) (c ∷ ds) x p floppy₂ clusters₂ found₂ there
      ∙ set-byte_at v₁ (last c ds) x (c ∷ ds) p floppy₁ bytes₁ l-small l-le clusters₁ there
      ∙ set-byte_at v x (eoc_mark v.dev.fat_type) (c ∷ ds) p full.floppy full.bytes x-small found.1
          full.clusters there
      ∙ full.saved p h

  pub linked-IsOpen :
      IsOpen
        (length ds + 1)
        (linked_volume v (last c ds) x)
        c
        (ds ++ (x ∷ []))
        bs
        (record f { current_cluster = x })
  linked-IsOpen =
      let (own, apart) =
        linked_volume-IsChain v c x ds full.bytes full.floppy.sized full.chain full.distinct
          (free-Finds v.dev x full.free) in
      record {
        bytes = set-IsBytes v₁ (last c ds) x bytes₁;
        floppy = floppy₂;
        chain = own;
        distinct = apart;
        clusters =
            AreClusters-append (linked_volume v (last c ds) x).dev (c ∷ ds) x clusters₂ found₂;
        first = full.first;
        current = sym (last-append c x ds);
        pos = full.pos;
        size = full.size;
        blocks = length-append ds (x ∷ []) ∙ omega arith;
        saved = λ p h. linked-byte_at p (omega (arith, h, full.filled));
        buffered = λ p low high. absurd (omega (arith, low, high, full.filled));
      }
