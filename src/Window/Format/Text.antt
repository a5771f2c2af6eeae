-- ===== src/Window/Format/Text.antt =====
-- What `vsprintf` of kernel/window.c writes for plain text, for `%d` and for `%s`.
use tos_sfsu_fall.Base.{
  ℕ, ◌+◌, ◌-◌, ◌^◌, ◌≤◌, ◌<◌, ◌≡◌, refl, ap, ◌∙◌, sym, Bool, true, false, not, ◌&&◌, ◌==◌, ltb, leb,
  if◌then◌else◌, List, [], ◌∷◌, ◌++◌, Option, none, some, length, ◌∉◌, codes, arith, Bool-cases,
  Option-cases, inl, inr, append-nil, append_assoc, length-append, length-take, take, min, max,
}
use tos_sfsu_fall.Window.Number.{value, repeated, length-repeated, sign}
use tos_sfsu_fall.Window.Numeral.{is_numeral, printnum-numeral}
use tos_sfsu_fall.Window.Format.Fuel.{format-enough}
use tos_sfsu_fall.Window.Format.{
  Arg, num, Spec, put_signed, put_string, cut, counted, is_neg, negate, read_width, read_prec,
  convert, directive, format, vsprintf,
}

abbrev pub prepend : List ℕ → Option (List ℕ) → Option (List ℕ)
prepend text none = none
prepend text (some out) = some (text ++ out)

-- Text without a `%` is copied, and the rest of the format follows.
pub vsprintf-append_text :
    (text fmt : List ℕ) (args : List Arg)
    → b'%' ∉ text
    → vsprintf (text ++ fmt) args ≡ prepend text (vsprintf fmt args)
unfolding vsprintf format
vsprintf-append_text [] fmt args plain = elim (Option-cases (format (length fmt) fmt args)) [
  | inl e ↦ rw e refl
  | inr (out, e) ↦ rw e refl
]
vsprintf-append_text (c ∷ text) fmt args plain =
    elim (Option-cases (format (length fmt) fmt args)) [
      | inl e ↦ rw (copied, vsprintf-append_text text fmt args (ground (arith, plain)), e) refl
      | inr (out, e) ↦
          rw (copied, vsprintf-append_text text fmt args (ground (arith, plain)), e) refl
    ]
  where
    copied : (c == b'%') ≡ false
    copied = ground (arith, plain)

-- A conversion without width and precision.
one_directive :
    (rest fmt : List ℕ) (args args₁ : List Arg) (out : List ℕ)
    → directive fmt args ≡ some (out, rest, args₁)
    → length rest ≤ length fmt
    → vsprintf (b'%' ∷ fmt) args ≡ prepend out (vsprintf rest args₁)
unfolding vsprintf format
one_directive rest fmt args args₁ out e short =
    elim (Option-cases (format (length rest) rest args₁)) [
      | inl f ↦
          rw (e, format-enough (length fmt) (length rest) rest args₁ short (omega arith), f) refl
      | inr (more, f) ↦
          rw (e, format-enough (length fmt) (length rest) rest args₁ short (omega arith), f) refl
    ]

abbrev pub plain_spec : Spec
plain_spec = record { len = 0; prec = none; ladjust = false; padc = b' ' }

vsprintf-d :
    (n : ℕ) (rest : List ℕ) (args : List Arg)
    → vsprintf (codes "%d" ++ rest) (num n ∷ args)
      ≡ prepend (put_signed plain_spec n) (vsprintf rest args)
unfolding directive read_width read_prec convert
vsprintf-d n rest args = one_directive rest (b'd' ∷ rest) (num n ∷ args) args _ refl (omega arith)

prepend-prepend :
    (a b : List ℕ) (o : Option (List ℕ)) → prepend a (prepend b o) ≡ prepend (a ++ b) o
prepend-prepend a b none = refl
prepend-prepend a b (some out) = ap some (sym (append_assoc a b out))

-- The magnitude of an `int`.
abbrev pub magnitude : ℕ → ℕ
magnitude n = if leb (2 ^ 31) n then 2 ^ 32 - n else n

put_signed_lem :
    (n : ℕ)
    → n < 2 ^ 32
    → (ds : List ℕ) × (is_numeral ds ≡ true)
      × (value 10 0 ds ≡ magnitude n)
      × (put_signed plain_spec n ≡ sign (is_neg n) ++ ds)
unfolding put_signed
put_signed_lem n h = elim (Bool-cases (is_neg n)) [
  | inl e ↦
      let (ds, numeral, v, p) = printnum-numeral (negate n) true 0 false b' ' false (omega arith) in
      (ds, numeral, rw e (v ∙ ground (arith, e)), rw (e, p, blank ds) refl)
  | inr e ↦
      let (ds, numeral, v, p) = printnum-numeral n false 0 false b' ' false h in
      (ds, numeral, rw e v, rw (e, p, blank ds) refl)
]
  where
    blank : (ds : List ℕ) → 0 - length ds ≡ 0
    blank ds = omega arith

-- For text without a `%` and a word of 32 bits: `%d` behind the text writes the text, a minus sign if
-- the word is negative as an `int`, and its magnitude as a decimal numeral: at least one digit from 0
-- to 9, and no 0 in front of others. The rest of the format follows with the rest of the arguments.
pub vsprintf-decimal :
    (text rest : List ℕ) (n : ℕ) (args : List Arg)
    → b'%' ∉ text
    → n < 2 ^ 32
    → (ds : List ℕ) × (is_numeral ds ≡ true)
      × (value 10 0 ds ≡ magnitude n)
      × (vsprintf (text ++ (codes "%d" ++ rest)) (num n ∷ args)
          ≡ prepend (text ++ (sign (leb (2 ^ 31) n) ++ ds)) (vsprintf rest args))
vsprintf-decimal text rest n args plain h =
    let (ds, numeral, v, p) = put_signed_lem n h in
    (
      ds,
      numeral,
      v,
      vsprintf-append_text text (codes "%d" ++ rest) (num n ∷ args) plain
          ∙ ap (prepend text) (vsprintf-d n rest args)
          ∙ prepend-prepend text (put_signed plain_spec n) (vsprintf rest args)
          ∙ ap (λ l. prepend (text ++ l) (vsprintf rest args)) p,
    )

length-cut :
    (p : ℕ) (s : List ℕ) → length (cut (some p) s) ≡ (if ltb p (length s) then p else length s)
length-cut p s = length-take p s ∙ ground arith

blanks : (a : List ℕ) (n c : ℕ) → length (a ++ repeated n c) ≡ length a + n
blanks a n c = length-append a (repeated n c) ∙ ap (λ k. length a + k) (length-repeated n c)

of_fields :
    (len : ℕ) (prec : Option ℕ) (left : Bool) (s : List ℕ)
    → length (
        (if ltb 0 len && not left then repeated (len - length (cut prec s)) b' ' else [])
        ++ (cut prec s ++ (if left then repeated (len - counted prec s) b' ' else [])))
      ≡ (if left && ltb (length (cut prec s)) (min (length s) len)
          then len - 1
          else max len (length (cut prec s)))
of_fields len none true s = ground (arith, blanks s (len - length s) b' ')
of_fields len (some p) true s =
    ground (arith, length-cut p s, blanks (take p s) (len - counted (some p) s) b' ')
of_fields len prec false s = ground (
  arith,
  append-nil (cut prec s),
  length-append (repeated (len - length (cut prec s)) b' ') (cut prec s),
  length-repeated (len - length (cut prec s)) b' ',
)

-- The length of what `%s` writes: the width, or the length of the string up to the precision if that
-- is larger. Where a string that is adjusted to the left is cut by the precision and shorter than
-- the width, it is one less than the width.
pub length-put_string :
    (spec : Spec) (s : List ℕ)
    → length (put_string spec s) ≡ (
        if spec.ladjust && ltb (length (cut spec.prec s)) (min (length s) spec.len)
        then spec.len - 1
        else max spec.len (length (cut spec.prec s)))
unfolding put_string
length-put_string spec s = of_fields spec.len spec.prec spec.ladjust s
