-- ===== src/Window/Format/Fuel.antt =====
-- Every round of `vsprintf` of kernel/window.c takes a character of the format, so that the length of
-- the format is fuel enough.
use tos_sfsu_fall.Base.{
  ℕ, zero, suc, ◌+◌, ◌-◌, ◌*◌, ◌≤◌, ◌≡◌, refl, Bool, ◌==◌, List, [], ◌∷◌, Option, some, length,
  arith, Option-cases, inl, inr,
}
use tos_sfsu_fall.Window.Format.{
  Arg, peek, skip, skip_if, read_number, read_width, read_prec, directive, format,
}

skip-le : (fmt : List ℕ) → length (skip fmt) ≤ length fmt
skip-le [] = omega arith
skip-le (c ∷ fmt) = omega arith

skip_if-le : (c : ℕ) (fmt : List ℕ) → length (skip_if c fmt) ≤ length fmt
skip_if-le c fmt = ground (arith, skip-le fmt)

read_number-le : (n : ℕ) (fmt : List ℕ) → length (read_number n fmt).1 ≤ length fmt
unfolding read_number
read_number-le n [] = omega arith
read_number-le n (c ∷ fmt) = ground (arith, read_number-le (10 * n + (c - b'0')) fmt)

read_width-le :
    (left : Bool) (fmt : List ℕ) (args : List Arg) (len : ℕ) (left₁ : Bool) (fmt₁ : List ℕ)
    (args₁ : List Arg)
    → read_width left fmt args ≡ some (len, left₁, fmt₁, args₁)
    → length fmt₁ ≤ length fmt
unfolding read_width
read_width-le left fmt args len left₁ fmt₁ args₁ h =
    ground (arith, read_number-le 0 fmt, skip-le fmt, h)

read_prec-le :
    (fmt : List ℕ) (args : List Arg) (prec : Option ℕ) (fmt₁ : List ℕ) (args₁ : List Arg)
    → read_prec fmt args ≡ some (prec, fmt₁, args₁)
    → length fmt₁ ≤ length fmt
unfolding read_prec
read_prec-le fmt args prec fmt₁ args₁ h =
    ground (arith, read_number-le 0 (skip fmt), skip-le fmt, skip-le (skip fmt), h)

directive-le :
    (fmt : List ℕ) (args : List Arg) (out fmt₁ : List ℕ) (args₁ : List Arg)
    → directive fmt args ≡ some (out, fmt₁, args₁)
    → length fmt₁ ≤ length fmt
unfolding directive
directive-le fmt args out fmt₁ args₁ h =
    let fmt₂ = skip_if b'l' fmt in
    let fmt₃ = skip_if b'0' (skip_if b'-' fmt₂) in
    let shorter : length fmt₃ ≤ length fmt =
      omega
        (arith, skip_if-le b'l' fmt, skip_if-le b'-' fmt₂, skip_if-le b'0' (skip_if b'-' fmt₂)) in
    elim (Option-cases (read_width (peek fmt₂ == b'-') fmt₃ args)) [
      | inl e ↦ ground (arith, e, h)
      | inr ((len, left, fmt₄, args₂), e) ↦ elim (Option-cases (read_prec fmt₄ args₂)) [
        | inl f ↦ ground (arith, e, f, h)
        | inr ((prec, fmt₅, args₃), f) ↦ ground (
          arith,
          e,
          f,
          h,
          shorter,
          read_width-le _ fmt₃ args len left fmt₄ args₂ e,
          read_prec-le fmt₄ args₂ prec fmt₅ args₃ f,
          skip-le fmt₅,
        )
      ]
    ]

pub format-enough :
    (m n : ℕ) (fmt : List ℕ) (args : List Arg)
    → length fmt ≤ m
    → length fmt ≤ n
    → format m fmt args ≡ format n fmt args
unfolding format
format-enough m n [] args a b = refl
format-enough zero n (c ∷ fmt) args a b = absurd (omega (arith, a))
format-enough (suc m) zero (c ∷ fmt) args a b = absurd (omega (arith, b))
format-enough (suc m) (suc n) (c ∷ fmt) args a b = elim (Option-cases (directive fmt args)) [
  | inl e ↦ rw (e, format-enough m n fmt args (omega (arith, a)) (omega (arith, b))) refl
  | inr ((out, fmt₁, args₁), e) ↦
      let less = directive-le fmt args out fmt₁ args₁ e in
      rw
        (
          e,
          format-enough m n fmt args (omega (arith, a)) (omega (arith, b)),
          format-enough m n fmt₁ args₁ (omega (arith, a, less)) (omega (arith, b, less)),
        )
        refl
]
