-- ===== src/Drivers/Keyboard/Alt.antt =====
-- What the notifier of kernel/keyb.c does once Alt is down.
use tos_sfsu_fall.Base.{
  ℕ, ◌-◌, ◌%◌, ◌≤◌, ◌≡◌, refl, Bool, true, false, not, ◌&&◌, ◌||◌, ltb, leb, ◌==◌, if◌then◌else◌,
  List, [], ◌∷◌, ◌++◌, Option, some, arith,
}
use tos_sfsu_fall.Drivers.Keyboard.{
  Keys, Effect, key, leds, get_keycode, end_round, new_keystroke, released, pressed, locks,
  keyb_notifier, rounds,
}
use tos_sfsu_fall.Drivers.Keyboard.Typing.{rounds-step}

-- Alt is down, and no key is half read.
abbrev pub IsAltDown : Keys → Type 0
IsAltDown k = (k.alt ≡ 1) × (k.brk ≡ 0) × (k.special ≡ 0)

abbrev pub no_keys : List Effect → Bool
no_keys [] = true
no_keys (key c ∷ out) = false
no_keys (leds l ∷ out) = no_keys out

abbrev Silent : Option (Keys × List Effect) → Type 0
Silent r =
    (k₁ : Keys) × (out : List Effect) × (r ≡ some (k₁, out)) × IsAltDown k₁ × (no_keys out ≡ true)

Silent-if :
    (t : Bool) (x y : Option (Keys × List Effect))
    → (t ≡ true → Silent x)
    → (t ≡ false → Silent y)
    → Silent (if t then x else y)
Silent-if true x y p q = p refl
Silent-if false x y p q = q refl

-- At the end of a round, where `brk` may be set.
Silent-end_round :
    (k : Keys) (out : List Effect)
    → k.alt ≡ 1
    → k.brk ≤ 1
    → k.special ≡ 0
    → no_keys out ≡ true
    → Silent (end_round k out)
Silent-end_round k out a b s n = (
  record k { special = k.special - 1; brk = k.brk - 1 },
  out,
  refl,
  (a, omega (arith, b), omega (arith, s)),
  n,
)

nothing-alt : (k : Keys) (ch : ℕ) → k.alt ≡ 1 → k.special ≡ 0 → get_keycode k ch ≡ some 0
unfolding get_keycode
nothing-alt k ch a s = ground (arith, a, s)

new_keystroke-Silent :
    (k : Keys) (ch : ℕ) → k.alt ≡ 1 → k.brk ≤ 1 → k.special ≡ 0 → Silent (new_keystroke k ch)
unfolding new_keystroke
new_keystroke-Silent k ch a b s =
    rw (new_keystroke, nothing-alt k ch a s) (Silent-end_round k [] a b s refl)

released-Silent :
    (k : Keys) (ch : ℕ)
    → k.alt ≡ 1
    → k.brk ≤ 1
    → k.special ≡ 0
    → (ch == 0x28) ≡ false
    → Silent (released k ch)
unfolding released
released-Silent k ch a b s h =
    Silent-if (ch == 0x1d) _ _ (λ e. Silent-end_round _ [] a b s refl)
      λ e.
        Silent-if (ch == 0x28) _ _ (λ e. absurd (ground (arith, e, h)))
          λ e.
            Silent-if ((ch == 0x36) || (ch == 0x2a)) _ _ (λ e. Silent-end_round _ [] a b s refl)
              λ e. new_keystroke-Silent k ch a b s

pressed-Silent : (k : Keys) (ch : ℕ) → k.alt ≡ 1 → k.brk ≤ 1 → k.special ≡ 0 → Silent (pressed k ch)
unfolding pressed
pressed-Silent k ch a b s =
    Silent-if (ch == 0x1d) _ _ (λ e. Silent-end_round _ [] a b s refl)
      λ e.
        Silent-if (ch == 0x38) _ _ (λ e. Silent-end_round _ [] refl b s refl)
          λ e.
            Silent-if (ch == 0x36) _ _ (λ e. Silent-end_round _ [] a b s refl)
              λ e. new_keystroke-Silent k ch a b s

locks-Silent :
    (k : Keys) (ch : ℕ)
    → k.alt ≡ 1
    → k.brk ≤ 1
    → k.special ≡ 0
    → ((k.brk == 0) || not (ch == 0x28)) ≡ true
    → Silent (locks k ch)
unfolding locks
locks-Silent k ch a b s h =
    Silent-if (ch == 0x3a) _ _ (λ e. Silent-end_round _ _ a b s refl)
      λ e.
        Silent-if (ch == 0x45) _ _ (λ e. Silent-end_round _ _ a b s refl)
          λ e.
            Silent-if (ch == 0x46) _ _ (λ e. Silent-end_round _ _ a b s refl)
              λ e.
                Silent-if (k.brk == 0) _ _ (λ e. pressed-Silent k ch a b s)
                  λ e. released-Silent k ch a b s (ground (arith, h, e))

-- No prefix of the grey keys, and no release of the key with the code 0x28.
abbrev pub keeps_alt : ℕ → Bool
keeps_alt code = ltb code 256 && not ((code == 0xe0) || (code == 0xa8))

keyb_notifier-Silent :
    (k : Keys) (code : ℕ) → IsAltDown k → keeps_alt code ≡ true → Silent (keyb_notifier k code)
unfolding keyb_notifier
keyb_notifier-Silent k code i h =
    let (a, b, s) = i in
    Silent-if ((code == 0xe1) && (k.ignore == 0)) _ _
      (λ e. Silent-end_round _ [] a (omega (arith, b)) s refl)
      λ e.
        Silent-if (not (k.ignore == 0)) _ _ (λ e. Silent-end_round _ [] a (omega (arith, b)) s refl)
          λ e.
            Silent-if (code == 0xe0) _ _ (λ e. absurd (ground (arith, e, h)))
              λ e.
                let k₁ : Keys = if leb 128 code then record k { brk = 1 } else k in
                let a₁ : k₁.alt ≡ 1 = ground (arith, a) in
                let b₁ : k₁.brk ≤ 1 = ground (arith, b) in
                let s₁ : k₁.special ≡ 0 = ground (arith, s) in
                Silent-if ((k₁.brk == 0) && (code % 128 == 0x2a)) _ _
                  (λ e.
                    Silent-if (k₁.special == 0) _ _ (λ e. Silent-end_round _ [] a₁ b₁ s₁ refl)
                      λ e. Silent-end_round _ [] a₁ b₁ s₁ refl)
                  λ e. locks-Silent k₁ (code % 128) a₁ b₁ s₁ (ground (arith, h, b))

abbrev pub all_keep_alt : List ℕ → Bool
all_keep_alt [] = true
all_keep_alt (c ∷ cs) = keeps_alt c && all_keep_alt cs

no_keys-append : (a b : List Effect) → no_keys a ≡ true → no_keys b ≡ true → no_keys (a ++ b) ≡ true
no_keys-append [] b p q = q
no_keys-append (key c ∷ a) b p q = ground (arith, p)
no_keys-append (leds l ∷ a) b p q = no_keys-append a b p q

-- Once Alt is down the keyboard is dead: whatever codes follow, the release of Alt among them, none
-- being the prefix of the grey keys or the release of the key 0x28, no key is sent and Alt stays down.
pub rounds-IsAltDown :
    (k : Keys) (cs : List ℕ)
    → IsAltDown k
    → all_keep_alt cs ≡ true
    → (k₁ : Keys) × (out : List Effect) × (rounds k cs ≡ some (k₁, out))
      × IsAltDown k₁
      × (no_keys out ≡ true)
unfolding rounds
rounds-IsAltDown k [] i h = (k, [], refl, i, refl)
rounds-IsAltDown k (c ∷ cs) i h =
    let here : keeps_alt c ≡ true = ground (arith, h) in
    let rest : all_keep_alt cs ≡ true = ground (arith, h) in
    let (k₁, out, e, j, n) = keyb_notifier-Silent k c i here in
    let (k₂, more, f, j₂, m) = rounds-IsAltDown k₁ cs j rest in
    (k₂, out ++ more, rounds-step k k₁ k₂ c cs out more e f, j₂, no_keys-append out more n m)
