-- ===== src/Window/Format.antt =====
-- `vsprintf`, `wprintf` and `kprintf` of kernel/window.c.
--
-- A string is the list of its bytes up to the 0. An `int` is a word of 32 bits. What `vsprintf`
-- writes is a list; that `wprintf` and `kprintf` have room for 160 bytes only is not checked there.
pub mod Fuel
pub mod Text
use tos_sfsu_fall.Base.{
  ℕ, zero, suc, ◌+◌, ◌-◌, ◌*◌, ◌%◌, ◌^◌, ◌≤◌, ◌<◌, ◌≡◌, refl, Bool, true, false, not, ◌&&◌, ◌||◌,
  ltb, leb, ◌==◌, if◌then◌else◌, List, [], ◌∷◌, ◌++◌, Option, none, some, length, take, codes,
  arith, Bool-cases, inl, inr,
}
use tos_sfsu_fall.Kernel.State.{Outcome, halt}
use tos_sfsu_fall.Window.Number.{printnum, repeated}
use tos_sfsu_fall.Window.{Screen, Window, kernel_window, output_string}

-- An argument of the variable list: a word, or a pointer to a string or NULL.
pub data Arg : Type 0 where
  num : ℕ → Arg
  str : List ℕ → Arg
  nil : Arg

-- `va_arg`: an argument that is missing or of another type is undefined in C.
abbrev pub next_int : List Arg → Option (ℕ × List Arg)
next_int (num n ∷ args) = some (n, args)
next_int _ = none

abbrev pub next_string : List Arg → Option (List ℕ × List Arg)
next_string (str s ∷ args) = some (s, args)
next_string (nil ∷ args) = some (codes "(NULL)", args)
next_string _ = none

-- `isdigit` and `ctod` of the file.
abbrev pub isdigit : ℕ → Bool
isdigit d = leb b'0' d && leb d b'9'

abbrev pub is_neg : ℕ → Bool
is_neg n = leb (2 ^ 31) n

abbrev pub negate : ℕ → ℕ
negate n = (2 ^ 32 - n) % 2 ^ 32

-- The character `*fmt`, which is 0 at the end.
abbrev pub peek : List ℕ → ℕ
peek [] = 0
peek (c ∷ fmt) = c

-- `fmt++` where `*fmt` is not the end.
abbrev pub skip : List ℕ → List ℕ
skip [] = []
skip (c ∷ fmt) = fmt

-- `if (*fmt == c) fmt++`
abbrev pub skip_if : ℕ → List ℕ → List ℕ
skip_if c fmt = if peek fmt == c then skip fmt else fmt

-- `while (isdigit(*fmt)) length = 10 * length + ctod(*fmt++)`
unfoldable pub read_number : ℕ → List ℕ → ℕ × List ℕ
read_number n [] = (n, [])
read_number n (c ∷ fmt) =
    let more = read_number (10 * n + (c - b'0')) fmt in if isdigit c then more else (n, c ∷ fmt)

-- Everything between the `%` and the conversion character. A precision of -1 is `none`; any other
-- negative one prints nothing, as 0 does.
pub record Spec : Type 0 where
  pub len : ℕ
  pub prec : Option ℕ
  pub ladjust : Bool
  pub padc : ℕ

infixl 5 ◌>>=◌
abbrev ◌>>=◌ : {A B : Type 0} → Option A → (A → Option B) → Option B
none >>= f = none
some a >>= f = f a

-- A width of digits or of the argument; a negative argument turns the adjustment around.
unfoldable pub read_width :
    (ladjust : Bool) → List ℕ → List Arg → Option (ℕ × Bool × List ℕ × List Arg)
read_width ladjust fmt args =
    if isdigit (peek fmt)
    then some ((read_number 0 fmt).0, ladjust, (read_number 0 fmt).1, args)
    else if peek fmt == b'*'
    then (do
      (n, args₁) ← next_int args
      some (
          if is_neg n
          then (negate n, not ladjust, skip fmt, args₁)
          else (n, ladjust, skip fmt, args₁)))
    else some (0, ladjust, fmt, args)

abbrev pub to_prec : ℕ → Option ℕ
to_prec n = if n == 2 ^ 32 - 1 then none else some (if is_neg n then 0 else n)

unfoldable pub read_prec : List ℕ → List Arg → Option (Option ℕ × List ℕ × List Arg)
read_prec fmt args =
    if not (peek fmt == b'.')
    then some (none, fmt, args)
    else if isdigit (peek (skip fmt))
    then some (some (read_number 0 (skip fmt)).0, (read_number 0 (skip fmt)).1, args)
    else if peek (skip fmt) == b'*'
    then (do (n, args₁) ← next_int args; some (to_prec n, skip (skip fmt), args₁))
    else some (none, skip fmt, args)

-- The characters of a string up to the precision.
abbrev pub cut : Option ℕ → List ℕ → List ℕ
cut none s = s
cut (some p) s = take p s

-- The counter `n` behind the loop that copies: it has passed the precision where that cut the string.
abbrev pub counted : Option ℕ → List ℕ → ℕ
counted none s = length s
counted (some p) s = if ltb p (length s) then suc p else length s

-- `case 's'`
unfoldable pub put_string : Spec → List ℕ → List ℕ
put_string spec s =
    (if ltb 0 spec.len && not spec.ladjust
      then repeated (spec.len - length (cut spec.prec s)) b' '
      else [])
    ++ (cut spec.prec s
        ++ (if spec.ladjust then repeated (spec.len - counted spec.prec s) b' ' else []))

-- `case 'd'`
unfoldable pub put_signed : Spec → ℕ → List ℕ
put_signed spec n =
    if is_neg n
    then printnum (negate n) 10 true spec.len spec.ladjust spec.padc false
    else printnum n 10 false spec.len spec.ladjust spec.padc false

unfoldable pub put_unsigned :
    (base : ℕ) (upcase : Bool) → Spec → List Arg → Option (List ℕ × List Arg)
put_unsigned base upcase spec args = do
  (u, args₁) ← next_int args
  some (printnum u base false spec.len spec.ladjust spec.padc upcase, args₁)

-- The `switch`: what is written, and the arguments that are left. The end of the format writes nothing.
unfoldable pub convert : Spec → ℕ → List Arg → Option (List ℕ × List Arg)
convert spec c args =
    if (c == b'b') || (c == b'B')
    then put_unsigned 2 false spec args
    else if c == b'c'
    then (do (n, args₁) ← next_int args; some (n % 2 ^ 8 ∷ [], args₁))
    else if (c == b'd') || (c == b'D')
    then (do (n, args₁) ← next_int args; some (put_signed spec n, args₁))
    else if (c == b'o') || (c == b'O')
    then put_unsigned 8 false spec args
    else if c == b's'
    then (do (s, args₁) ← next_string args; some (put_string spec s, args₁))
    else if (c == b'u') || (c == b'U')
    then put_unsigned 10 false spec args
    else if c == b'x'
    then put_unsigned 16 false spec args
    else if c == b'X'
    then put_unsigned 16 true spec args
    else if c == 0
    then some ([], args)
    else some (c ∷ [], args)

-- What follows a `%`: what is written, and the format and the arguments that are left.
unfoldable pub directive : List ℕ → List Arg → Option (List ℕ × List ℕ × List Arg)
directive fmt args = do
  let fmt₁ = skip_if b'l' fmt
  let fmt₂ = skip_if b'-' fmt₁
  let fmt₃ = skip_if b'0' fmt₂
  (len, left, fmt₄, args₁) ← read_width (peek fmt₁ == b'-') fmt₃ args
  (prec, fmt₅, args₂) ← read_prec fmt₄ args₁
  let spec : Spec = record {
    len = len;
    prec = prec;
    ladjust = left;
    padc = if peek fmt₂ == b'0' then b'0' else b' ';
  }
  (out, args₃) ← convert spec (peek fmt₅) args₂
  some (out, skip fmt₅, args₃)

-- The loop over the format: the bytes that are written to `buf`.
unfoldable pub format : (fuel : ℕ) → List ℕ → List Arg → Option (List ℕ)
format fuel [] args = some []
format zero (c ∷ fmt) args = none
format (suc fuel) (c ∷ fmt) args =
    if not (c == b'%') then (do out ← format fuel fmt args; some (c ∷ out)) else do
      (out, fmt₁, args₁) ← directive fmt args
      more ← format fuel fmt₁ args₁
      some (out ++ more)

-- Every round takes a character of the format.
unfoldable pub vsprintf : List ℕ → List Arg → Option (List ℕ)
vsprintf fmt args = format (length fmt) fmt args

unfoldable pub wprintf : Window → List ℕ → List Arg → Screen → Option (Outcome (Window × Screen))
wprintf w fmt args s = do text ← vsprintf fmt args; some (output_string w text s)

unfoldable pub kprintf : List ℕ → List Arg → Screen → Option (Outcome (Window × Screen))
kprintf fmt args s = wprintf kernel_window fmt args s
