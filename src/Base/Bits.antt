-- ===== src/Base/Bits.antt =====
-- Single bits of a word, and statements checked at every value below a bound.
use Prim.Native.Nat.{ℕ, zero, suc, ◌/◌, ◌%◌, ◌^◌, ◌<◌}
use mathlib.Core.Path.{◌≡◌, refl}
use mathlib.Core.Bool.{Bool, true, false, not, ◌&&◌}
use native.Mathlib.Omega.{arith}
use tos_sfsu_fall.Base.Tests.{◌==◌}

-- A test holds at each number below a bound.
unfoldable pub every_below : (bound : ℕ) (test : ℕ → Bool) → Bool
every_below zero test = true
every_below (suc bound) test = every_below bound test && test bound

pub every_below-at :
    (bound : ℕ) (test : ℕ → Bool) (a : ℕ)
    → every_below bound test ≡ true
    → a < bound
    → test a ≡ true
unfolding every_below
every_below-at zero test a ok small = ground arith
every_below-at (suc bound) test a ok small = ground (arith, every_below-at bound test a)

-- Two Boolean values agree.
abbrev pub agree : Bool → Bool → Bool
agree true b = b
agree false b = not b

pub agree-eq : (a b : Bool) → agree a b ≡ true → a ≡ b
agree-eq true true h = refl
agree-eq true false h = ground arith
agree-eq false true h = ground arith
agree-eq false false h = refl

-- Bit `i` of `w`.
abbrev pub bit : ℕ → ℕ → Bool
bit w i = (w / 2 ^ i) % 2 == 1
