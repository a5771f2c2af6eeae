-- ===== src/Drivers/Keyboard/Locks.antt =====
-- The flags of kernel/keyb.c: their ranges, and CapsLock.
use tos_sfsu_fall.Base.{
  ℕ, ◌+◌, ◌-◌, ◌*◌, ◌%◌, ◌^◌, ◌≤◌, ◌<◌, ◌≡◌, refl, Bool, true, false, not, ◌&&◌, ◌||◌, leb, ◌==◌,
  if◌then◌else◌, List, [], ◌∷◌, Option, some, arith, Option-cases, inl, inr,
}
use tos_sfsu_fall.Drivers.Keyboard.{
  Keys, Effect, leds, get_keycode, end_round, new_keystroke, released, pressed, locks,
  keyb_notifier, rounds,
}
use tos_sfsu_fall.Drivers.Keyboard.Typing.{layout, layout-IsLayout, at_layout, rounds-step}

-- The ranges of the variables; `brk` is at most `b`.
pub record IsRanged (b : ℕ) (k : Keys) : Type 0 where
  pub brk : k.brk ≤ b
  pub ignore : k.ignore ≤ 5
  pub special : k.special ≤ 2
  pub control : k.control ≤ 1
  pub shift : k.shift ≤ 1
  pub capslock : k.capslock ≤ 1
  pub numlock : k.numlock ≤ 1
  pub scrlock : k.scrlock ≤ 1
  pub alt : k.alt ≤ 1

-- Between two rounds `brk` is 0.
abbrev pub IsKeys : Keys → Type 0
IsKeys k = IsRanged 0 k

-- A round comes to an end, with the variables in range again.
abbrev pub Ends : Option (Keys × List Effect) → Type 0
Ends r = (k₁ : Keys) × (out : List Effect) × (r ≡ some (k₁, out)) × IsKeys k₁

Ends-if :
    (t : Bool) (x y : Option (Keys × List Effect))
    → (t ≡ true → Ends x)
    → (t ≡ false → Ends y)
    → Ends (if t then x else y)
Ends-if true x y p q = p refl
Ends-if false x y p q = q refl

Ends-end_round : (k : Keys) (out : List Effect) → IsRanged 1 k → Ends (end_round k out)
Ends-end_round k out r = (
  record k { special = k.special - 1; brk = k.brk - 1 },
  out,
  refl,
  record {
    brk = omega (arith, r.brk);
    ignore = r.ignore;
    special = omega (arith, r.special);
    control = r.control;
    shift = r.shift;
    capslock = r.capslock;
    numlock = r.numlock;
    scrlock = r.scrlock;
    alt = r.alt;
  },
)

get_keycode-inside :
    (k : Keys) (ch : ℕ) → 0 < ch → ch < 128 → (code : ℕ) × (get_keycode k ch ≡ some code)
unfolding get_keycode
get_keycode-inside k ch a b = elim (Option-cases (get_keycode k ch)) [
  | inl e ↦
      let (found, low) = at_layout (layout k) (ch - 1) (layout-IsLayout k) (omega arith) in
      absurd (ground (arith, e, found, a))
  | inr found ↦ found
]

new_keystroke-Ends :
    (k : Keys) (ch : ℕ) → IsRanged 1 k → 0 < ch → ch < 128 → Ends (new_keystroke k ch)
unfolding new_keystroke
new_keystroke-Ends k ch r a b =
    let (code, e) = get_keycode-inside k ch a b in rw (new_keystroke, e) (Ends-end_round k _ r)

released-Ends : (k : Keys) (ch : ℕ) → IsRanged 1 k → 0 < ch → ch < 128 → Ends (released k ch)
unfolding released
released-Ends k ch r a b =
    Ends-if (ch == 0x1d) _ _ (λ e. Ends-end_round _ [] (ground (arith, r)))
      λ e.
        Ends-if (ch == 0x28) _ _ (λ e. Ends-end_round _ [] (ground (arith, r)))
          λ e.
            Ends-if ((ch == 0x36) || (ch == 0x2a)) _ _
              (λ e. Ends-end_round _ [] (ground (arith, r))) λ e. new_keystroke-Ends k ch r a b

pressed-Ends : (k : Keys) (ch : ℕ) → IsRanged 1 k → 0 < ch → ch < 128 → Ends (pressed k ch)
unfolding pressed
pressed-Ends k ch r a b =
    Ends-if (ch == 0x1d) _ _ (λ e. Ends-end_round _ [] (ground (arith, r)))
      λ e.
        Ends-if (ch == 0x38) _ _ (λ e. Ends-end_round _ [] (ground (arith, r)))
          λ e.
            Ends-if (ch == 0x36) _ _ (λ e. Ends-end_round _ [] (ground (arith, r)))
              λ e. new_keystroke-Ends k ch r a b

locks-Ends : (k : Keys) (ch : ℕ) → IsRanged 1 k → 0 < ch → ch < 128 → Ends (locks k ch)
unfolding locks
locks-Ends k ch r a b =
    Ends-if (ch == 0x3a) _ _ (λ e. Ends-end_round _ _ (ground (arith, r)))
      λ e.
        Ends-if (ch == 0x45) _ _ (λ e. Ends-end_round _ _ (ground (arith, r)))
          λ e.
            Ends-if (ch == 0x46) _ _ (λ e. Ends-end_round _ _ (ground (arith, r)))
              λ e.
                Ends-if (k.brk == 0) _ _ (λ e. pressed-Ends k ch r a b)
                  λ e. released-Ends k ch r a b

-- From variables in their ranges a round of the notifier comes to an end for every code that names a
-- key, inside the tables, and leaves the variables in their ranges.
pub keyb_notifier-IsKeys :
    (k : Keys) (code : ℕ) → IsKeys k → code < 256 → 0 < code % 128 → Ends (keyb_notifier k code)
unfolding keyb_notifier
keyb_notifier-IsKeys k code r small_ names =
    Ends-if ((code == 0xe1) && (k.ignore == 0)) _ _ (λ e. Ends-end_round _ [] (ground (arith, r)))
      λ e.
        Ends-if (not (k.ignore == 0)) _ _ (λ e. Ends-end_round _ [] (ground (arith, r)))
          λ e.
            Ends-if (code == 0xe0) _ _
              (λ e. Ends-end_round (record k { special = 2 }) [] (ground (arith, r)))
              λ e.
                let k₁ : Keys = if leb 128 code then record k { brk = 1 } else k in
                let r₁ : IsRanged 1 k₁ = ground (arith, r) in
                Ends-if ((k₁.brk == 0) && (code % 128 == 0x2a)) _ _
                  (λ e.
                    Ends-if (k₁.special == 0) _ _ (λ e. Ends-end_round _ [] (ground (arith, r₁)))
                      λ e. Ends-end_round _ [] (ground (arith, r₁)))
                  λ e. locks-Ends k₁ (code % 128) r₁ names (omega arith)

turned : Keys → Keys
turned k = record k { capslock = 1 - k.capslock; special = k.special - 1; brk = 0 }

capslock-turns :
    (k : Keys) (code : ℕ)
    → k.brk ≡ 0
    → k.ignore ≡ 0
    → k.capslock ≤ 1
    → code % 128 ≡ 0x3a
    → code < 256
    → keyb_notifier k code
      ≡ some (turned k, leds ((k.scrlock + 2 * k.numlock + 4 * (1 - k.capslock)) % 2 ^ 8) ∷ [])
unfolding keyb_notifier locks turned
capslock-turns k code b i c h small_ = ground (arith, b, i, c, h, small_)

-- Pressing and releasing CapsLock leaves it as it was: it is on only while the key is held.
pub rounds-capslock :
    (k : Keys)
    → IsKeys k
    → k.ignore ≡ 0
    → (k₁ : Keys) × (out : List Effect) × (rounds k (0x3a ∷ 0xba ∷ []) ≡ some (k₁, out))
      × (k₁.capslock ≡ k.capslock)
unfolding turned rounds
rounds-capslock k r i =
    let down = capslock-turns k 0x3a (omega (arith, r.brk)) i r.capslock refl (omega arith) in
    let up = capslock-turns (turned k) 0xba refl i (omega arith) refl (omega arith) in
    (
      turned (turned k),
      _,
      rounds-step k (turned k) _ 0x3a (0xba ∷ []) _ _ down
          (rounds-step (turned k) (turned (turned k)) _ 0xba [] _ _ up refl),
      omega (arith, r.capslock),
    )
