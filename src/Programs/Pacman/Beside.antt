-- ===== src/Programs/Pacman/Beside.antt =====
-- The cells around a ghost of kernel/pacman.c.
use tos_sfsu_fall.Base.{
  ℕ, zero, suc, ◌+◌, ◌<◌, ◌≡◌, ◌⊎◌, refl, ◌∙◌, sym, ap, Option, none, some, arith, inl, inr,
}
use tos_sfsu_fall.Programs.Pacman.{back, stay, forth, Ghost, direction, target, moved}

-- Whether a ghost is at the cell next to another one, in direction `dir`.
abbrev pub IsNext : Ghost → ℕ → Ghost → Type 0
IsNext g dir new = target g (direction dir).0 (direction dir).1 ≡ some new

-- The places differ by one in one coordinate.
abbrev pub IsBeside : Ghost → Ghost → Type 0
IsBeside g new =
    ((new.y ≡ g.y) × ((new.x ≡ g.x + 1) ⊎ (g.x ≡ new.x + 1)))
    ⊎ ((new.x ≡ g.x) × ((new.y ≡ g.y + 1) ⊎ (g.y ≡ new.y + 1)))

target-west :
    (x y : ℕ) → target (record { x = suc x; y = y }) back stay ≡ some (record { x = x; y = y })
unfolding target moved
target-west x zero = refl
target-west x (suc y) = refl

target-east :
    (x y : ℕ) → target (record { x = x; y = y }) forth stay ≡ some (record { x = suc x; y = y })
unfolding target moved
target-east zero zero = refl
target-east zero (suc y) = refl
target-east (suc x) zero = refl
target-east (suc x) (suc y) = refl

target-north :
    (x y : ℕ) → target (record { x = x; y = suc y }) stay back ≡ some (record { x = x; y = y })
unfolding target moved
target-north zero y = refl
target-north (suc x) y = refl

target-south :
    (x y : ℕ) → target (record { x = x; y = y }) stay forth ≡ some (record { x = x; y = suc y })
unfolding target moved
target-south zero zero = refl
target-south zero (suc y) = refl
target-south (suc x) zero = refl
target-south (suc x) (suc y) = refl

target-left : (y : ℕ) → target (record { x = zero; y = y }) back stay ≡ none
unfolding target moved
target-left y = refl

target-top : (x : ℕ) → target (record { x = x; y = zero }) stay back ≡ none
unfolding target moved
target-top zero = refl
target-top (suc x) = refl

moved-forth : (n : ℕ) → moved n forth ≡ some (n + 1)
unfolding moved
moved-forth zero = refl
moved-forth (suc n) = ap some (omega arith)

none-some : {g : Ghost} → none ≡ some g → ⊥
none-some e = ground (arith, e)

from_some : (a b : Ghost) → some a ≡ some b → (a.x ≡ b.x) × (a.y ≡ b.y)
from_some a b e =
    let same : a ≡ b = ap (λ (o : Option Ghost). elim o [ none ↦ a | some c ↦ c ]) e in
    (ap (λ g. g.x) same, ap (λ g. g.y) same)

pub next-IsBeside :
    (x y dir : ℕ) (new : Ghost)
    → dir < 4
    → IsNext (record { x = x; y = y }) dir new
    → IsBeside (record { x = x; y = y }) new
unfolding direction
next-IsBeside zero y zero new d e = absurd (none-some (sym (target-left y) ∙ e))
next-IsBeside (suc x) y zero new d e =
    let same = from_some _ new (sym (target-west x y) ∙ e) in
    inl (omega (arith, same.1), inr (omega (arith, same.0)))
next-IsBeside x y (suc zero) new d e =
    let same = from_some _ new (sym (target-east x y) ∙ e) in
    inl (omega (arith, same.1), inl (omega (arith, same.0)))
next-IsBeside x zero (suc (suc zero)) new d e = absurd (none-some (sym (target-top x) ∙ e))
next-IsBeside x (suc y) (suc (suc zero)) new d e =
    let same = from_some _ new (sym (target-north x y) ∙ e) in
    inr (omega (arith, same.0), inr (omega (arith, same.1)))
next-IsBeside x y (suc (suc (suc zero))) new d e =
    let same = from_some _ new (sym (target-south x y) ∙ e) in
    inr (omega (arith, same.0), inl (omega (arith, same.1)))
next-IsBeside x y (suc (suc (suc (suc dir)))) new d e = absurd (omega (arith, d))
