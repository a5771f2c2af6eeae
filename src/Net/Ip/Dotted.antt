-- ===== src/Net/Ip/Dotted.antt =====
-- The dotted notation of kernel/ip.c.
use tos_sfsu_fall.Base.{
  ℕ, zero, suc, ◌+◌, ◌-◌, ◌*◌, ◌/◌, ◌%◌, ◌<◌, ◌≡◌, refl, true, false, List, [], ◌∷◌, ◌++◌, ltb,
  if◌then◌else◌, Option, some, arith, length, ◌∙◌, Bool-cases, inl, inr,
}
use tos_sfsu_fall.Net.Bytes.{Buffer, is_digit}
use tos_sfsu_fall.Net.Ip.{digits, octets, inet_aton, first_number}

-- A number below 1000 in decimal, without leading zeros.
abbrev pub decimal : ℕ → Buffer
decimal n =
    if ltb n 10
    then (n + 48) ∷ []
    else if ltb n 100
    then (n / 10 + 48) ∷ (n % 10 + 48) ∷ []
    else (n / 100 + 48) ∷ (n / 10 % 10 + 48) ∷ (n % 10 + 48) ∷ []

dot : is_digit 46 ≡ false
unfolding is_digit
dot = refl

nul : is_digit 0 ≡ false
unfolding is_digit
nul = refl

stop : (c : ℕ) (s : Buffer) (val : ℕ) → is_digit c ≡ false → digits (c ∷ s) val ≡ some (val, c ∷ s)
unfolding digits
stop c s val h = rw h

digit : (d : ℕ) → d < 10 → is_digit (d + 48) ≡ true
unfolding is_digit
digit d h = ground arith

step :
    (d : ℕ) (s : Buffer) (val : ℕ)
    → d < 10
    → val * 10 + d < 256
    → digits ((d + 48) ∷ s) val ≡ digits s (val * 10 + d)
unfolding digits
step d s val h small = rw (digit d h, back, fits) refl
  where
    back : d + 48 - 48 ≡ d
    back = omega arith

    fits : ltb 255 (val * 10 + d) ≡ false
    fits = ground (arith, small)

start : (d : ℕ) (s : Buffer) → d < 10 → first_number ((d + 48) ∷ s) ≡ digits ((d + 48) ∷ s) 0
unfolding first_number
start d s h = rw (digit d h) refl

same_value :
    (s : Buffer) (m n : ℕ) → m ≡ n → ◌≡◌ {A = Option (ℕ × Buffer)} (some (m, s)) (some (n, s))
same_value s m n e = rw e refl

first_number-decimal :
    (n c : ℕ) (s : Buffer)
    → n < 256
    → is_digit c ≡ false
    → first_number (decimal n ++ (c ∷ s)) ≡ some (n, c ∷ s)
first_number-decimal n c s h stops = elim (Bool-cases (ltb n 10)) [
  | inl e ↦ rw e (
      start n (c ∷ s) (ground arith)
      ∙ step n (c ∷ s) 0 (ground arith) (omega arith)
      ∙ stop c s (0 * 10 + n) stops
      ∙ same_value (c ∷ s) _ n (omega arith))
  | inr e ↦ elim (Bool-cases (ltb n 100)) [
    | inl f ↦
        rw (e, f)
          (start (n / 10) _ (ground arith)
            ∙ step (n / 10) _ 0 (ground arith) (omega arith)
            ∙ step (n % 10) (c ∷ s) (0 * 10 + n / 10) (omega arith) (omega arith)
            ∙ stop c s _ stops
            ∙ same_value (c ∷ s) _ n (omega arith))
    | inr f ↦
        rw (e, f)
          (start (n / 100) _ (omega arith)
            ∙ step (n / 100) _ 0 (omega arith) (omega arith)
            ∙ step (n / 10 % 10) _ (0 * 10 + n / 100) (omega arith) (omega arith)
            ∙ step (n % 10) (c ∷ s) _ (omega arith) (omega arith)
            ∙ stop c s _ stops
            ∙ same_value (c ∷ s) _ n (omega arith))
  ]
]

octets-last : (left n : ℕ) → n < 256 → octets left (decimal n ++ (0 ∷ [])) ≡ some (n ∷ [], 0 ∷ [])
unfolding octets
octets-last zero n h = rw (octets, first_number-decimal n 0 [] h nul) refl
octets-last (suc left) n h = rw (octets, first_number-decimal n 0 [] h nul) refl

octets-more :
    (left n : ℕ) (s end : Buffer) (vals : List ℕ)
    → n < 256
    → octets left s ≡ some (vals, end)
    → octets (suc left) (decimal n ++ (46 ∷ s)) ≡ some (n ∷ vals, end)
unfolding octets
octets-more left n s end vals h e = rw (octets, first_number-decimal n 46 s h dot, e) refl

inet_aton-of_octets :
    (s : Buffer) (vals : List ℕ)
    → octets 3 s ≡ some (vals, 0 ∷ [])
    → ltb (length vals) 3 ≡ false
    → inet_aton s ≡ some vals
unfolding inet_aton
inet_aton-of_octets s vals e few = rw (inet_aton, e, few) refl

-- `inet_aton_tos` gives the four bytes of every address in dotted notation back.
pub inet_aton-dotted :
    (a b c d : ℕ)
    → a < 256
    → b < 256
    → c < 256
    → d < 256
    → inet_aton (decimal a ++ (46 ∷ decimal b ++ (46 ∷ decimal c ++ (46 ∷ decimal d ++ (0 ∷ [])))))
      ≡ some (a ∷ b ∷ c ∷ d ∷ [])
inet_aton-dotted a b c d ha hb hc hd =
    inet_aton-of_octets _ (a ∷ b ∷ c ∷ d ∷ [])
      (octets-more 2 a _ (0 ∷ []) _ ha
        (octets-more 1 b _ (0 ∷ []) _ hb (octets-more 0 c _ (0 ∷ []) _ hc (octets-last 0 d hd))))
      refl

-- `inet_aton_tos` accepts every string of three bytes in dotted notation, and gives these three.
pub inet_aton-short :
    (a b c : ℕ)
    → a < 256
    → b < 256
    → c < 256
    → inet_aton (decimal a ++ (46 ∷ decimal b ++ (46 ∷ decimal c ++ (0 ∷ []))))
      ≡ some (a ∷ b ∷ c ∷ [])
inet_aton-short a b c ha hb hc =
    inet_aton-of_octets _ (a ∷ b ∷ c ∷ [])
      (octets-more 2 a _ (0 ∷ []) _ ha (octets-more 1 b _ (0 ∷ []) _ hb (octets-last 1 c hc))) refl
