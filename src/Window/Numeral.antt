-- ===== src/Window/Numeral.antt =====
-- The decimal numerals that `printnum` of kernel/window.c writes.
use tos_sfsu_fall.Base.{
  ℕ, zero, suc, ◌-◌, ◌/◌, ◌%◌, ◌^◌, ◌<◌, ◌≡◌, ◌≢◌, refl, Bool, true, false, not, ◌&&◌, ◌||◌, leb,
  ◌==◌, List, [], ◌∷◌, ◌++◌, get_or, length, arith, every_below, every_below-at, ==_iff, Bool-cases,
  inl, inr,
}
use tos_sfsu_fall.Window.Number.{
  digs, put_digits, printnum, sign, value, put_digits_lem, one_side, justified, repeated, halved,
}

abbrev pub is_digit : ℕ → Bool
is_digit c = leb b'0' c && leb c b'9'

abbrev pub all_digits : List ℕ → Bool
all_digits [] = true
all_digits (c ∷ cs) = is_digit c && all_digits cs

-- A decimal numeral: one digit, or several of which the first is not 0.
abbrev pub is_numeral : List ℕ → Bool
is_numeral [] = false
is_numeral (c ∷ []) = is_digit c
is_numeral (c ∷ (d ∷ cs)) = is_digit c && not (c == b'0') && all_digits (d ∷ cs)

-- The first digit is not 0.
abbrev leads : List ℕ → Bool
leads [] = false
leads (c ∷ cs) = not (c == b'0')

digits_checked :
    (up : Bool)
    → every_below 10
        (λ d. is_digit (get_or (digs up) d 0) && ((d == 0) || not (get_or (digs up) d 0 == b'0')))
      ≡ true
unfolding digs every_below
digits_checked true = refl
digits_checked false = refl

digit_lem :
    (up : Bool) (d : ℕ)
    → d < 10
    → (is_digit (get_or (digs up) d 0) && ((d == 0) || not (get_or (digs up) d 0 == b'0'))) ≡ true
digit_lem up d h = every_below-at 10 _ d (digits_checked up) h

put_digits-digits :
    (fuel : ℕ) (up : Bool) (u : ℕ) (acc : List ℕ)
    → all_digits acc ≡ true
    → all_digits (put_digits fuel up u 10 acc) ≡ true
unfolding put_digits
put_digits-digits zero up u acc h = h
put_digits-digits (suc n) up u acc h =
    let more : all_digits (get_or (digs up) (u % 10) 0 ∷ acc) ≡ true =
      ground (arith, digit_lem up (u % 10) (omega arith), h) in
    elim (Bool-cases (u / 10 == 0)) [
      | inl e ↦ rw e more
      | inr e ↦ rw e (put_digits-digits n up (u / 10) _ more)
    ]

put_digits-leads :
    (fuel : ℕ) (up : Bool) (u : ℕ) (acc : List ℕ)
    → u ≢ 0
    → u < 2 ^ suc fuel
    → leads (put_digits (suc fuel) up u 10 acc) ≡ true
unfolding put_digits
put_digits-leads zero up u acc ne h =
    let low : (u / 10 == 0) ≡ true = ground (arith, h) in
    rw low (ground (arith, digit_lem up (u % 10) (omega arith), ne, h))
put_digits-leads (suc n) up u acc ne h = elim (Bool-cases (u / 10 == 0)) [
  | inl e ↦ rw e (ground (arith, digit_lem up (u % 10) (omega arith), ne, e))
  | inr e ↦
      rw e
        (put_digits-leads n up (u / 10) _ (ground (arith, e)) (halved u 10 (suc n) (omega arith) h))
]

numeral_of : (ds : List ℕ) → leads ds ≡ true → all_digits ds ≡ true → is_numeral ds ≡ true
numeral_of [] l h = l
numeral_of (c ∷ []) l h = ground (arith, h)
numeral_of (c ∷ (d ∷ ds)) l h = ground (arith, l, h)

zero_lem : (up : Bool) → put_digits 32 up 0 10 [] ≡ b'0' ∷ []
unfolding put_digits digs
zero_lem true = refl
zero_lem false = refl

put_digits-numeral : (up : Bool) (u : ℕ) → u < 2 ^ 32 → is_numeral (put_digits 32 up u 10 []) ≡ true
put_digits-numeral up u h = elim (Bool-cases (u == 0)) [
  | inl e ↦ rw ((==_iff u 0).0 e, zero_lem up) refl
  | inr e ↦
      numeral_of (put_digits 32 up u 10 []) (put_digits-leads 31 up u [] (ground (arith, e)) h)
        (put_digits-digits 32 up u [] refl)
]

-- In base 10 a word of 32 bits is written as its numeral.
pub printnum-numeral :
    (u : ℕ) (neg : Bool) (len : ℕ) (left : Bool) (padc : ℕ) (up : Bool)
    → u < 2 ^ 32
    → (ds : List ℕ) × (is_numeral ds ≡ true)
      × (value 10 0 ds ≡ u)
      × (printnum u 10 neg len left padc up
          ≡ sign neg ++ justified left (repeated (len - length ds) padc) ds)
unfolding printnum
printnum-numeral u neg len left padc up h =
    let ds = put_digits 32 up u 10 [] in
    (
      ds,
      put_digits-numeral up u h,
      put_digits_lem 31 up u 10 [] (omega arith) (omega arith) h,
      one_side len left padc (sign neg) ds,
    )
