-- ===== src/Drivers/Keyboard/Typing.antt =====
-- What the notifier of kernel/keyb.c sends while ordinary keys are pressed and released.
use tos_sfsu_fall.Base.{
  ℕ, ◌+◌, ◌-◌, ◌<◌, ◌≡◌, refl, ◌∙◌, Bool, true, false, not, ◌&&◌, ◌||◌, ltb, ◌==◌, if◌then◌else◌,
  List, [], ◌∷◌, ◌++◌, none, some, get_elem?, get_or, arith, every_below, every_below-at,
}
use tos_sfsu_fall.Drivers.Keyboard.{
  Keys, Effect, key, small, shfted, capped, at_code, get_keycode, new_keystroke, released, pressed,
  locks, keyb_notifier, rounds,
}

-- No key is half read and Alt is up; Ctrl, Shift and the locks are as they are.
abbrev pub IsIdle : Keys → Type 0
IsIdle k = (k.brk ≡ 0) × (k.ignore ≡ 0) × (k.special ≡ 0) × (k.alt ≡ 0)

-- The code of a key that is neither Ctrl, Shift, Alt nor a lock.
abbrev pub is_plain : ℕ → Bool
is_plain c =
    ltb 0 c
    && ltb c 96
    && not (
        (c == 0x1d)
        || (c == 0x2a)
        || (c == 0x36)
        || (c == 0x38)
        || (c == 0x3a)
        || (c == 0x45)
        || (c == 0x46))

-- The table that is read, by CapsLock and Shift.
abbrev pub layout : Keys → List ℕ
layout k = if k.capslock == 0 then if k.shift == 0 then small else shfted else capped

-- The character of a key: from the table for Shift only while CapsLock is off.
abbrev pub character : Keys → ℕ → ℕ
character k c = get_or (layout k) (c - 1) 0

abbrev pub typed : Keys → ℕ → List Effect
typed k c = if character k c == 0 then [] else key (character k c) ∷ []

abbrev pub IsLayout : List ℕ → Type 0
IsLayout t =
    every_below 127
      (λ i. elim (get_elem? t i) [ none ↦ false | some c ↦ ltb c 128 && (get_or t i 0 == c) ])
    ≡ true

small-IsLayout : IsLayout small
unfolding small every_below
small-IsLayout = refl

shfted-IsLayout : IsLayout shfted
unfolding shfted every_below
shfted-IsLayout = refl

capped-IsLayout : IsLayout capped
unfolding capped every_below
capped-IsLayout = refl

choose : {A : Type 0} (B : A → Type 0) (t : Bool) (x y : A) → B x → B y → B (if t then x else y)
choose B true x y p q = p
choose B false x y p q = q

pub layout-IsLayout : (k : Keys) → IsLayout (layout k)
layout-IsLayout k =
    choose IsLayout (k.capslock == 0) _ _
      (choose IsLayout (k.shift == 0) _ _ small-IsLayout shfted-IsLayout) capped-IsLayout

pub at_layout :
    (t : List ℕ) (i : ℕ)
    → IsLayout t
    → i < 127
    → (get_elem? t i ≡ some (get_or t i 0)) × (get_or t i 0 < 128)
at_layout t i ok h = ground (arith, every_below-at 127 _ i ok h)

-- The code is looked up in the table.
get_keycode-layout :
    (k : Keys) (c : ℕ) → IsIdle k → is_plain c ≡ true → get_keycode k c ≡ at_code (layout k) c
unfolding get_keycode
get_keycode-layout k c i p = ground (arith, i, p)

get_keycode-character :
    (k : Keys) (c : ℕ)
    → IsIdle k
    → is_plain c ≡ true
    → (get_keycode k c ≡ some (character k c)) × (character k c < 128)
get_keycode-character k c i p =
    let (found, small_) = at_layout (layout k) (c - 1) (layout-IsLayout k) (ground (arith, p)) in
    (get_keycode-layout k c i p ∙ ground (arith, found, p), small_)

Keys-eta : (k : Keys) → IsIdle k → record k { special = k.special - 1; brk = k.brk - 1 } ≡ k
Keys-eta k i = ground (arith, i)

-- Pressing a plain key sends its character.
press : (k : Keys) (c : ℕ) → IsIdle k → is_plain c ≡ true → keyb_notifier k c ≡ some (k, typed k c)
unfolding keyb_notifier locks pressed new_keystroke
press k c i p =
    let (found, small_) = get_keycode-character k c i p in
    ground (arith, i, p, found, small_, Keys-eta k i)

-- Releasing it sends nothing.
release :
    (k : Keys) (c : ℕ) → IsIdle k → is_plain c ≡ true → keyb_notifier k (c + 128) ≡ some (k, [])
unfolding keyb_notifier locks released new_keystroke get_keycode
release k c i p = ground (arith, i, p, Keys-eta k i)

-- The codes of keys that are pressed and released one after the other, and what is then sent.
abbrev pub strokes : List ℕ → List ℕ
strokes [] = []
strokes (c ∷ cs) = c ∷ (c + 128) ∷ strokes cs

abbrev pub all_typed : Keys → List ℕ → List Effect
all_typed k [] = []
all_typed k (c ∷ cs) = typed k c ++ all_typed k cs

abbrev pub all_plain : List ℕ → Bool
all_plain [] = true
all_plain (c ∷ cs) = is_plain c && all_plain cs

pub rounds-step :
    (k k₁ k₂ : Keys) (c : ℕ) (cs : List ℕ) (out more : List Effect)
    → keyb_notifier k c ≡ some (k₁, out)
    → rounds k₁ cs ≡ some (k₂, more)
    → rounds k (c ∷ cs) ≡ some (k₂, out ++ more)
unfolding rounds
rounds-step k k₁ k₂ c cs out more e f = rw (e, f) refl

-- While no key is half read and Alt is up, pressing and releasing plain keys one after the other sends
-- exactly their characters, in order, from the table that Shift and CapsLock select, and leaves the
-- variables as they were.
pub rounds-strokes :
    (k : Keys) (cs : List ℕ)
    → IsIdle k
    → all_plain cs ≡ true
    → rounds k (strokes cs) ≡ some (k, all_typed k cs)
unfolding rounds
rounds-strokes k [] i p = refl
rounds-strokes k (c ∷ cs) i p =
    let here : is_plain c ≡ true = ground (arith, p) in
    let rest : all_plain cs ≡ true = ground (arith, p) in
    rounds-step k k k c ((c + 128) ∷ strokes cs) (typed k c) (all_typed k cs) (press k c i here) (
      rounds-step k k k (c + 128) (strokes cs) [] (all_typed k cs) (release k c i here)
        (rounds-strokes k cs i rest))
