-- ===== src/Fat/Free.antt =====
-- The search for a free cluster.
use tos_sfsu_fall.Base.{
  ℕ, zero, suc, ◌+◌, ◌-◌, ◌≤◌, ◌<◌, ◌≡◌, ◌≢◌, subst, Bool-cases, inl, inr, ◌==◌, Option, none, some,
  arith,
}
use tos_sfsu_fall.Fat.{Device, fs_get_fat_cluster_entry, free_cluster_from, fs_get_free_cluster}

-- What a search among the clusters from `lo` to before `hi` finds: the first free one, or none.
abbrev pub Finds : Device → (lo hi : ℕ) → Option ℕ → Type 0
Finds dev lo hi none = (e : ℕ) → lo ≤ e → e < hi → fs_get_fat_cluster_entry dev e ≢ 0
Finds dev lo hi (some c) =
    (lo ≤ c)
    × (c < hi)
    × (fs_get_fat_cluster_entry dev c ≡ 0)
    × ((e : ℕ) → lo ≤ e → e < c → fs_get_fat_cluster_entry dev e ≢ 0)

Finds-skip :
    (dev : Device) (lo hi : ℕ) (r : Option ℕ)
    → fs_get_fat_cluster_entry dev lo ≢ 0
    → Finds dev (lo + 1) hi r
    → Finds dev lo hi r
Finds-skip dev lo hi none n f = λ e above below. elim (Bool-cases (e == lo)) [
  | inl y ↦ let q : e ≡ lo = ground arith in rw q n
  | inr y ↦ f e (ground arith) below
]
Finds-skip dev lo hi (some c) n f = (
  omega (arith, f.0),
  f.1,
  f.2,
  λ e above below. elim (Bool-cases (e == lo)) [
    | inl y ↦ let q : e ≡ lo = ground arith in rw q n
    | inr y ↦ f.3 e (ground arith) below
  ],
)

free_cluster_from-Finds :
    (dev : Device) (rounds lo : ℕ) → Finds dev lo (lo + rounds) (free_cluster_from dev rounds lo)
unfolding free_cluster_from
free_cluster_from-Finds dev zero lo = λ e above below. absurd (omega arith)
free_cluster_from-Finds dev (suc rounds) lo =
    elim (Bool-cases (fs_get_fat_cluster_entry dev lo == 0)) [
      | inl y ↦ rw y (omega arith, omega arith, ground arith, λ e above below. absurd (omega arith))
      | inr n ↦
          let more : lo + 1 + rounds ≡ lo + suc rounds = omega arith in
          rw n (
            Finds-skip dev lo (lo + suc rounds) (free_cluster_from dev rounds (lo + 1))
              (ground arith)
              (subst (λ h. Finds dev (lo + 1) h (free_cluster_from dev rounds (lo + 1))) more
                (free_cluster_from-Finds dev rounds (lo + 1))))
    ]

upto-Finds : (dev : Device) (n : ℕ) → Finds dev 2 (n + 1) (free_cluster_from dev (n - 1) 2)
upto-Finds dev zero = unfold free_cluster_from in λ e above below. absurd (omega arith)
upto-Finds dev (suc n) =
    let upto : 2 + (suc n - 1) ≡ suc n + 1 = omega arith in
    subst (λ h. Finds dev 2 h (free_cluster_from dev (suc n - 1) 2)) upto
      (free_cluster_from-Finds dev (suc n - 1) 2)

-- `fs_get_free_cluster` finds the free cluster with the least number from 2 to `total_clusters`; where
-- it finds none, none of these is free.
pub get_free_cluster-Finds :
    (dev : Device) → Finds dev 2 (dev.total_clusters + 1) (fs_get_free_cluster dev)
unfolding fs_get_free_cluster
get_free_cluster-Finds dev = upto-Finds dev dev.total_clusters
