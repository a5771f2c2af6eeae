-- ===== src/Window/Number.antt =====
-- `printnum` of kernel/window.c, on unsigned words of 32 bits.
use tos_sfsu_fall.Base.{
  ℕ, zero, suc, ◌+◌, ◌-◌, ◌*◌, ◌/◌, ◌%◌, ◌^◌, ◌≤◌, ◌<◌, ◌≡◌, refl, ◌∙◌, Bool, true, false, not,
  ◌&&◌, ltb, leb, ◌==◌, if◌then◌else◌, List, [], ◌∷◌, ◌++◌, get_or, length, codes, arith,
  every_below, every_below-at, ==_iff, ltb→lt, ap, append-nil, sym, Bool-cases, inl, inr,
}
use native.Mathlib.Nat.{div-lt_iff_lt-mul, mul-le-mul_left, mod-lt, div-add-mod', div-eq_of_lt}

-- `sizeof(long int) * 8` on the i386.
abbrev pub maxbuf : ℕ
maxbuf = 32

unfoldable pub digs : (upcase : Bool) → List ℕ
digs upcase = if upcase then codes "0123456789ABCDEF" else codes "0123456789abcdef"

-- The `do` loop fills `buf` from its end: `acc` is what stands in it. Each round takes one cell.
unfoldable pub put_digits : (fuel : ℕ) → Bool → (u base : ℕ) → (acc : List ℕ) → List ℕ
put_digits zero upcase u base acc = acc
put_digits (suc fuel) upcase u base acc =
    let acc₁ = get_or (digs upcase) (u % base) 0 ∷ acc in
    let more = put_digits fuel upcase (u / base) base acc₁ in if u / base == 0 then acc₁ else more

-- `while (length > size) { *b++ = padc; length--; }`
unfoldable pub padding : (length size padc : ℕ) → List ℕ
padding zero size padc = []
padding (suc n) size padc =
    let more = padding n size padc in if ltb size (suc n) then padc ∷ more else []

abbrev pub sign : Bool → List ℕ
sign negflag = if negflag then b'-' ∷ [] else []

-- What is written from `b` on.
unfoldable pub printnum :
    (u base : ℕ) (negflag : Bool) (len : ℕ) (ladjust : Bool) (padc : ℕ) (upcase : Bool) → List ℕ
printnum u base negflag len ladjust padc upcase =
    let number = put_digits maxbuf upcase u base [] in
    let size = length number in
    if ltb size len && not ladjust
    then sign negflag ++ (padding len size padc ++ number)
    else sign negflag ++ (number ++ padding len size padc)

-- The value of a digit, for both cases.
abbrev pub digit_value : ℕ → ℕ
digit_value c = if leb b'a' c then c - 87 else if leb b'A' c then c - 55 else c - 48

-- The number that a string of digits stands for, with `v` in front.
abbrev pub value : (base v : ℕ) → List ℕ → ℕ
value base v [] = v
value base v (c ∷ cs) = value base (v * base + digit_value c) cs

every_digit : (up : Bool) → every_below 16 (λ d. digit_value (get_or (digs up) d 0) == d) ≡ true
unfolding digs every_below
every_digit true = refl
every_digit false = refl

pub digit_value-digs : (up : Bool) (d : ℕ) → d < 16 → digit_value (get_or (digs up) d 0) ≡ d
digit_value-digs up d h = (==_iff _ _).0 (every_below-at 16 _ d (every_digit up) h)

pub halved : (u base n : ℕ) → 2 ≤ base → u < 2 ^ suc n → u / base < 2 ^ n
halved u base n two h =
    (div-lt_iff_lt-mul {k = base} {x = u} {y = 2 ^ n} (omega arith)).1
      (omega (arith, h, mul-le-mul_left (2 ^ n) two))

remainder_small : (u base : ℕ) → 2 ≤ base → base ≤ 16 → u % base < 16
remainder_small u base two top = omega (arith, mod-lt u {m = base} (omega arith), top)

small_quotient : (u base : ℕ) → u / base ≡ 0 → 0 * base + u % base ≡ u
small_quotient u base e = ap (λ q. q * base + u % base) (sym e) ∙ div-add-mod' u base

zero_quotient : (u base : ℕ) → 2 ≤ base → u < 2 → u / base ≡ 0
zero_quotient u base two h = div-eq_of_lt {n = u} {m = base} (omega arith)

value-of_digit :
    (up : Bool) (base v d : ℕ) (acc : List ℕ)
    → d < 16
    → value base v (get_or (digs up) d 0 ∷ acc) ≡ value base (v * base + d) acc
value-of_digit up base v d acc h = ap (λ x. value base (v * base + x) acc) (digit_value-digs up d h)

-- `put_digits` puts the digits of the number before what is there, where the fuel is enough.
pub put_digits_lem :
    (fuel : ℕ) (up : Bool) (u base : ℕ) (acc : List ℕ)
    → 2 ≤ base
    → base ≤ 16
    → u < 2 ^ suc fuel
    → value base 0 (put_digits (suc fuel) up u base acc) ≡ value base u acc
unfolding put_digits
put_digits_lem zero up u base acc two top h = rw (zero_quotient u base two h) (
    value-of_digit up base 0 (u % base) acc (remainder_small u base two top)
    ∙ ap (λ x. value base x acc) (small_quotient u base (zero_quotient u base two h)))
put_digits_lem (suc n) up u base acc two top h = elim (Bool-cases (u / base == 0)) [
  | inl e ↦ rw e (
      value-of_digit up base 0 (u % base) acc (remainder_small u base two top)
      ∙ ap (λ x. value base x acc) (small_quotient u base ((==_iff _ _).0 e)))
  | inr e ↦ rw e (
      put_digits_lem n up (u / base) base _ two top (halved u base (suc n) two h)
      ∙ value-of_digit up base (u / base) (u % base) acc (remainder_small u base two top)
      ∙ ap (λ x. value base x acc) (div-add-mod' u base))
]

abbrev pub repeated : ℕ → ℕ → List ℕ
repeated zero c = []
repeated (suc n) c = c ∷ repeated n c

pub length-repeated : (n c : ℕ) → length (repeated n c) ≡ n
length-repeated zero c = refl
length-repeated (suc n) c = omega (arith, length-repeated n c)

padding_lem : (n size c : ℕ) → padding n size c ≡ repeated (n - size) c
unfolding padding
padding_lem zero size c = ap (λ k. repeated k c) {x = 0} {y = 0 - size} (omega arith)
padding_lem (suc n) size c = elim (Bool-cases (ltb size (suc n))) [
  | inl e ↦ rw (e, padding_lem n size c) (ap (λ k. repeated k c) (more (ltb→lt _ _ e)))
  | inr e ↦ rw e (ap (λ k. repeated k c) (none_left e))
]
  where
    more : size < suc n → suc (n - size) ≡ suc n - size
    more h = omega arith

    none_left : ltb size (suc n) ≡ false → 0 ≡ suc n - size
    none_left h = ground arith

-- `put_digits` takes at most one cell for each round.
length-put_digits :
    (fuel : ℕ) (up : Bool) (u base : ℕ) (acc : List ℕ)
    → length (put_digits fuel up u base acc) ≤ fuel + length acc
unfolding put_digits
length-put_digits zero up u base acc = omega arith
length-put_digits (suc n) up u base acc =
    ground (arith, length-put_digits n up (u / base) base (get_or (digs up) (u % base) 0 ∷ acc))

-- Blanks or zeros stand left of the digits, or right of them for `ladjust`.
abbrev pub justified : (ladjust : Bool) → (blanks ds : List ℕ) → List ℕ
justified ladjust blanks ds = if ladjust then ds ++ blanks else blanks ++ ds

pub one_side :
    (len : ℕ) (left : Bool) (padc : ℕ) (pre ds : List ℕ)
    → (if ltb (length ds) len && not left
        then pre ++ (padding len (length ds) padc ++ ds)
        else pre ++ (ds ++ padding len (length ds) padc))
      ≡ pre ++ justified left (repeated (len - length ds) padc) ds
one_side len true padc pre ds = rw (padding_lem len (length ds) padc) (ground arith)
one_side len false padc pre ds = elim (Bool-cases (ltb (length ds) len)) [
  | inl e ↦ rw (e, padding_lem len (length ds) padc) refl
  | inr e ↦ rw (e, padding_lem len (length ds) padc, full e) (ap (λ l. pre ++ l) (append-nil ds))
]
  where
    full : ltb (length ds) len ≡ false → len - length ds ≡ 0
    full h = ground arith

-- For a word of 32 bits and a base from 2 to 16: the digits fit in `buf` and their value is the
-- number; `printnum` writes the sign, and the digits padded on one side up to the length. The sign
-- does not count for the length.
pub printnum_lem :
    (u base : ℕ) (neg : Bool) (len : ℕ) (left : Bool) (padc : ℕ) (up : Bool)
    → u < 2 ^ 32
    → 2 ≤ base
    → base ≤ 16
    → (ds : List ℕ) × (value base 0 ds ≡ u)
      × (length ds ≤ 32)
      × (printnum u base neg len left padc up
          ≡ sign neg ++ justified left (repeated (len - length ds) padc) ds)
unfolding printnum
printnum_lem u base neg len left padc up h two top =
    let ds = put_digits 32 up u base [] in
    (
      ds,
      put_digits_lem 31 up u base [] two top h,
      omega (arith, length-put_digits 32 up u base []),
      one_side len left padc (sign neg) ds,
    )
