-- ===== src/Fat/Chain.antt =====
-- The chain of clusters of a file.
use tos_sfsu_fall.Base.{
  ℕ, ◌+◌, ◌≤◌, ◌<◌, ◌≡◌, ◌≢◌, ◌^◌, refl, sym, subst, ◌∙◌, true, false, ◌==◌, if◌then◌else◌, none,
  some, List, [], ◌∷◌, ◌++◌, has, ◌∈◌, ◌∉◌, Distinct, Distinct-append, arith,
}
use tos_sfsu_fall.Kernel.Memory.{Memory, poke_w, poke_l}
use tos_sfsu_fall.Fat.{
  FatType, fat12, fat16, fat32, Device, Volume, put_entry, fs_get_fat_cluster_entry,
  fs_set_fat_cluster_entry, eoc, eoc_mark, fs_is_eoc, fs_get_free_cluster, allocate_cluster,
  append_cluster,
}
use tos_sfsu_fall.Fat.Entry.{IsBytes, stored, get-set_fat_cluster_entry}
use tos_sfsu_fall.Fat.Free.{Finds, get_free_cluster-Finds}

-- The clusters behind cluster `c`, up to the end of the chain.
abbrev pub IsChain : Device → ℕ → List ℕ → Type 0
IsChain dev c [] = (c < 2 ^ 30) × (fs_is_eoc dev (fs_get_fat_cluster_entry dev c) ≡ true)
IsChain dev c (d ∷ ds) =
    (c < 2 ^ 30)
    × (fs_get_fat_cluster_entry dev c ≡ d)
    × (2 ≤ d)
    × (fs_is_eoc dev d ≡ false)
    × IsChain dev d ds

abbrev pub last : ℕ → List ℕ → ℕ
last c [] = c
last c (d ∷ ds) = last d ds

-- The size of a volume by its type, as `fs_init` determines it. It refuses 32 bits.
abbrev pub IsSized : FatType → (total_clusters : ℕ) → Type 0
IsSized fat12 n = n < 4085
IsSized fat16 n = n < 65525
IsSized fat32 n = ⊥

put_entry-IsBytes :
    (t : FatType) (fat : Memory) (c value : ℕ) → IsBytes fat → IsBytes (put_entry t fat c value)
unfolding put_entry poke_w poke_l
put_entry-IsBytes fat12 fat c value b a = ground (arith, b a)
put_entry-IsBytes fat16 fat c value b a = ground (arith, b a)
put_entry-IsBytes fat32 fat c value b a = ground (arith, b a)

abbrev zero_eoc : (t : FatType) → eoc t 0 ≡ false
zero_eoc fat12 = refl
zero_eoc fat16 = refl
zero_eoc fat32 = refl

zero-eoc :
    (dev : Device) (f : ℕ)
    → fs_get_fat_cluster_entry dev f ≡ 0
    → fs_is_eoc dev (fs_get_fat_cluster_entry dev f) ≡ false
unfolding fs_is_eoc
zero-eoc dev f z = rw z (zero_eoc dev.fat_type)

-- A free cluster stands in no chain.
free-nmem :
    (dev : Device) (f c : ℕ) (ds : List ℕ)
    → fs_get_fat_cluster_entry dev f ≡ 0
    → IsChain dev c ds
    → f ∉ (c ∷ ds)
free-nmem dev f c [] z h = ground (arith, zero-eoc dev f z)
free-nmem dev f c (d ∷ ds) z h = ground (arith, free-nmem dev f d ds z h.4)

pub last-mem : (c : ℕ) (ds : List ℕ) → last c ds ∈ (c ∷ ds)
last-mem c [] = ground arith
last-mem c (d ∷ ds) = ground (arith, last-mem d ds)

pub has-of-eq : (a b : ℕ) (xs : List ℕ) → a ≡ b → has a xs ≡ has b xs
has-of-eq a b xs q = rw q

last-ne :
    (dev : Device) (c f : ℕ) (ds : List ℕ)
    → fs_get_fat_cluster_entry dev f ≡ 0
    → IsChain dev c ds
    → last c ds ≢ f
last-ne dev c f ds z h =
    λ q. ground (arith, last-mem c ds, has-of-eq (last c ds) f (c ∷ ds) q, free-nmem dev f c ds z h)

pub last-append : (c d : ℕ) (ds : List ℕ) → last c (ds ++ (d ∷ [])) ≡ d
last-append c d [] = refl
last-append c d (e ∷ ds) = last-append e d ds

pub IsChain-small : (dev : Device) (c : ℕ) (ds : List ℕ) → IsChain dev c ds → last c ds < 2 ^ 30
IsChain-small dev c [] h = h.0
IsChain-small dev c (d ∷ ds) h = IsChain-small dev d ds h.4

-- A chain in a table where only entries of other clusters differ.
IsChain-frame :
    (dev dev' : Device) (c : ℕ) (ds : List ℕ)
    → dev'.fat_type ≡ dev.fat_type
    → ((e : ℕ)
        → e ∈ (c ∷ ds)
        → e < 2 ^ 30
        → fs_get_fat_cluster_entry dev' e ≡ fs_get_fat_cluster_entry dev e)
    → IsChain dev c ds
    → IsChain dev' c ds
unfolding fs_is_eoc
IsChain-frame dev dev' c [] t same h = (h.0, rw (same c (ground arith) h.0, t) h.1)
IsChain-frame dev dev' c (d ∷ ds) t same h = (
  h.0,
  same c (ground arith) h.0 ∙ h.1,
  h.2,
  rw t h.3,
  IsChain-frame dev dev' d ds t (λ e m small. same e (ground arith) small) h.4,
)

-- What makes `d` the cluster behind the end of a chain, whose last cluster is `l`.
record IsAppended (dev dev' : Device) (l d : ℕ) : Type 0 where
  kind : dev'.fat_type ≡ dev.fat_type
  linked : fs_get_fat_cluster_entry dev' l ≡ d
  others :
      (e : ℕ)
      → e ≢ l
      → e ≢ d
      → e < 2 ^ 30
      → fs_get_fat_cluster_entry dev' e ≡ fs_get_fat_cluster_entry dev e
  marked : fs_is_eoc dev' (fs_get_fat_cluster_entry dev' d) ≡ true
  data_cluster : 2 ≤ d
  small : d < 2 ^ 30
  no_eoc : fs_is_eoc dev' d ≡ false

IsChain-append :
    (dev dev' : Device) (c d : ℕ) (ds : List ℕ)
    → IsAppended dev dev' (last c ds) d
    → Distinct (c ∷ ds)
    → d ∉ (c ∷ ds)
    → IsChain dev c ds
    → IsChain dev' c (ds ++ (d ∷ []))
IsChain-append dev dev' c d [] a distinct new h =
    (h.0, a.linked, a.data_cluster, a.no_eoc, (a.small, a.marked))
IsChain-append dev dev' c d (e ∷ ds) a distinct new h =
    let ne : c ≢ last e ds =
      λ q. ground (arith, last-mem e ds, has-of-eq c (last e ds) (e ∷ ds) q) in
    (
      h.0,
      a.others c ne (ground arith) h.0 ∙ h.1,
      h.2,
      unfold fs_is_eoc in rw a.kind h.3,
      IsChain-append dev dev' e d ds a distinct.1 (ground arith) h.4,
    )

stored-small : (t : FatType) (old n f : ℕ) → IsSized t n → f < n + 1 → stored t old f ≡ f
stored-small fat12 old n f s h = omega arith
stored-small fat16 old n f s h = omega arith
stored-small fat32 old n f s h = absurd s

eoc-small : (t : FatType) (n f : ℕ) → IsSized t n → f < n + 1 → eoc t f ≡ false
eoc-small fat12 n f s h = ground arith
eoc-small fat16 n f s h = ground arith
eoc-small fat32 n f s h = absurd s

pub sized-small : (t : FatType) (n f : ℕ) → IsSized t n → f < n + 1 → f < 2 ^ 30
sized-small fat12 n f s h = omega arith
sized-small fat16 n f s h = omega arith
sized-small fat32 n f s h = absurd s

eoc-eoc_mark : (t : FatType) (old : ℕ) → eoc t (stored t old (eoc_mark t)) ≡ true
eoc-eoc_mark fat12 old = refl
eoc-eoc_mark fat16 old = refl
eoc-eoc_mark fat32 old = ground arith

pub set-IsBytes :
    (v : Volume) (c value : ℕ)
    → IsBytes v.dev.fat
    → IsBytes (fs_set_fat_cluster_entry v c value).dev.fat
unfolding fs_set_fat_cluster_entry
set-IsBytes v c value b = put_entry-IsBytes v.dev.fat_type v.dev.fat c value b

set-kind :
    (v : Volume) (c value : ℕ) → (fs_set_fat_cluster_entry v c value).dev.fat_type ≡ v.dev.fat_type
unfolding fs_set_fat_cluster_entry
set-kind v c value = refl

-- The volume with cluster `f` behind cluster `l`.
abbrev pub linked_volume : Volume → (l f : ℕ) → Volume
linked_volume v l f =
    fs_set_fat_cluster_entry (fs_set_fat_cluster_entry v f (eoc_mark v.dev.fat_type)) l f

module _ (v : Volume) (l f : ℕ) (b : IsBytes v.dev.fat)
    (s : IsSized v.dev.fat_type v.dev.total_clusters) (small : l < 2 ^ 30) (ne : l ≢ f)
    (found : Finds v.dev 2 (v.dev.total_clusters + 1) (some f)) where
  f-small : f < 2 ^ 30
  f-small = sized-small v.dev.fat_type v.dev.total_clusters f s found.1

  linked_volume-entry :
      (e : ℕ)
      → e < 2 ^ 30
      → fs_get_fat_cluster_entry (linked_volume v l f).dev e ≡ (
          if l == e
          then f
          else if f == e
          then stored v.dev.fat_type (fs_get_fat_cluster_entry v.dev f) (eoc_mark v.dev.fat_type)
          else fs_get_fat_cluster_entry v.dev e)
  linked_volume-entry e h =
      let v₁ = fs_set_fat_cluster_entry v f (eoc_mark v.dev.fat_type) in
      let first = get-set_fat_cluster_entry v f (eoc_mark v.dev.fat_type) e b f-small h in
      let second =
        get-set_fat_cluster_entry v₁ l f e (set-IsBytes v f (eoc_mark v.dev.fat_type) b) small h in
      let whole =
        stored-small v₁.dev.fat_type (fs_get_fat_cluster_entry v₁.dev l) v.dev.total_clusters f
          (subst (λ t. IsSized t v.dev.total_clusters)
            (sym (set-kind v f (eoc_mark v.dev.fat_type))) s)
          found.1 in
      second ∙ rw (whole, first)

  linked_volume-kind : (linked_volume v l f).dev.fat_type ≡ v.dev.fat_type
  linked_volume-kind =
      set-kind (fs_set_fat_cluster_entry v f (eoc_mark v.dev.fat_type)) l f
      ∙ set-kind v f (eoc_mark v.dev.fat_type)

  linked_volume-marked :
      fs_get_fat_cluster_entry (linked_volume v l f).dev f
      ≡ stored v.dev.fat_type (fs_get_fat_cluster_entry v.dev f) (eoc_mark v.dev.fat_type)
  linked_volume-marked = linked_volume-entry f f-small ∙ ground arith

  linked_volume-IsAppended : IsAppended v.dev (linked_volume v l f).dev l f
  linked_volume-IsAppended = record {
    kind = linked_volume-kind;
    linked = linked_volume-entry l small ∙ ground arith;
    others = λ e n n' h. linked_volume-entry e h ∙ ground arith;
    marked = rw linked_volume-marked (
        unfold fs_is_eoc in
        rw linked_volume-kind (eoc-eoc_mark v.dev.fat_type (fs_get_fat_cluster_entry v.dev f)));
    data_cluster = found.0;
    small = f-small;
    no_eoc =
        unfold fs_is_eoc in
        rw linked_volume-kind (eoc-small v.dev.fat_type v.dev.total_clusters f s found.1);
  }

Distinct-snoc :
    (c d : ℕ) (ds : List ℕ) → Distinct (c ∷ ds) → d ∉ (c ∷ ds) → Distinct (c ∷ (ds ++ (d ∷ [])))
Distinct-snoc c d ds h n =
    Distinct-append (c ∷ ds) (d ∷ []) h (refl, tt) λ a m. ground (arith, has-of-eq a d (c ∷ ds))

pub append_cluster-found :
    (v : Volume) (l f : ℕ)
    → fs_get_free_cluster v.dev ≡ some f
    → append_cluster v l ≡ some (f, linked_volume v l f)
unfolding append_cluster allocate_cluster fs_set_fat_cluster_entry
append_cluster-found v l f free = rw (free, allocate_cluster, append_cluster)

pub append_cluster-none :
    (v : Volume) (l : ℕ) → fs_get_free_cluster v.dev ≡ none → append_cluster v l ≡ none
unfolding append_cluster allocate_cluster fs_set_fat_cluster_entry
append_cluster-none v l free = rw (free, allocate_cluster, append_cluster)

-- The chain with a free cluster at its end.
pub linked_volume-IsChain :
    (v : Volume) (c f : ℕ) (ds : List ℕ)
    → IsBytes v.dev.fat
    → IsSized v.dev.fat_type v.dev.total_clusters
    → IsChain v.dev c ds
    → Distinct (c ∷ ds)
    → Finds v.dev 2 (v.dev.total_clusters + 1) (some f)
    → IsChain (linked_volume v (last c ds) f).dev c (ds ++ (f ∷ []))
      × Distinct (c ∷ (ds ++ (f ∷ [])))
linked_volume-IsChain v c f ds b s h distinct found =
    let new = free-nmem v.dev f c ds found.2 h in
    (
      IsChain-append v.dev (linked_volume v (last c ds) f).dev c f ds
          (linked_volume-IsAppended v (last c ds) f b s (IsChain-small v.dev c ds h)
            (last-ne v.dev c f ds found.2 h) found)
          distinct new h,
      Distinct-snoc c f ds distinct new,
    )

pub free-Finds :
    (dev : Device) (f : ℕ)
    → fs_get_free_cluster dev ≡ some f
    → Finds dev 2 (dev.total_clusters + 1) (some f)
free-Finds dev f free =
    subst (Finds dev 2 (dev.total_clusters + 1)) free (get_free_cluster-Finds dev)

-- Where a free cluster is found, `append_cluster` puts it at the end of the chain of the file whose last
-- cluster is given; the chain stays free of repetitions, and the chain of another file, which does not
-- hold this last cluster, stays a chain. The table holds bytes, and the volume has a size that
-- `fs_init` accepts.
pub append_cluster-IsChain :
    (v : Volume) (c f : ℕ) (ds : List ℕ) (other : ℕ) (others : List ℕ)
    → IsBytes v.dev.fat
    → IsSized v.dev.fat_type v.dev.total_clusters
    → IsChain v.dev c ds
    → Distinct (c ∷ ds)
    → fs_get_free_cluster v.dev ≡ some f
    → IsChain v.dev other others
    → last c ds ∉ (other ∷ others)
    → (v' : Volume) × (append_cluster v (last c ds) ≡ some (f, v'))
      × IsChain v'.dev c (ds ++ (f ∷ []))
      × Distinct (c ∷ (ds ++ (f ∷ [])))
      × IsChain v'.dev other others
append_cluster-IsChain v c f ds a es b s h distinct free chain out =
    let found = free-Finds v.dev f free in
    let l = last c ds in
    let ne = last-ne v.dev c f ds found.2 h in
    let small = IsChain-small v.dev c ds h in
    let (own, apart) = linked_volume-IsChain v c f ds b s h distinct found in
    (
      linked_volume v l f,
      append_cluster-found v l f free,
      own,
      apart,
      IsChain-frame v.dev (linked_volume v l f).dev a es
          (linked_volume-kind v l f b s small ne found)
          (λ e m low.
            linked_volume-entry v l f b s small ne found e low
            ∙ ground (
              arith,
              free-nmem v.dev f a es found.2 chain,
              has-of-eq l e (a ∷ es),
              has-of-eq f e (a ∷ es),
            ))
          chain,
    )
