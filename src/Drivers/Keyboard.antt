-- ===== src/Drivers/Keyboard.antt =====
-- kernel/keyb.c: from scan codes to characters, and the process that hands characters to clients.
--
-- The static variables are one record; they are bytes and the flags are 0 or 1. The port writes that
-- acknowledge a scan code are not modelled.
pub mod Typing
pub mod Locks
pub mod Alt
use tos_sfsu_fall.Base.{
  ℕ, zero, suc, ◌+◌, ◌-◌, ◌*◌, ◌%◌, ◌^◌, Bool, true, false, not, ◌&&◌, ◌||◌, ltb, leb, ◌==◌,
  if◌then◌else◌, List, [], ◌∷◌, ◌++◌, Option, none, some, get_elem?, codes,
}
use tos_sfsu_fall.Kernel.State.{Outcome, done, ◌>>◌, assert, Ptr}

pub record Keys : Type 0 where
  pub brk : ℕ
  pub ignore : ℕ
  pub control : ℕ
  pub shift : ℕ
  pub special : ℕ
  pub capslock : ℕ
  pub numlock : ℕ
  pub scrlock : ℕ
  pub alt : ℕ

abbrev zeros : ℕ → List ℕ
zeros zero = []
zeros (suc n) = 0 ∷ zeros n

unfoldable pub small : List ℕ
small =
    ((27 ∷ [])
      ++ codes "1234567890-="
      ++ (8 ∷ 9 ∷ [])
      ++ codes "qwertyuiop[]"
      ++ (13 ∷ 0 ∷ [])
      ++ codes "asdfghjkl;'`"
      ++ (0 ∷ 92 ∷ [])
      ++ codes "zxcvbnm,./"
      ++ (0 ∷ [])
      ++ codes "*"
      ++ (0 ∷ [])
      ++ codes " "
      ++ (0 ∷ 0 ∷ 0 ∷ 0 ∷ 0 ∷ 0 ∷ 0 ∷ 0 ∷ 0 ∷ 0 ∷ 0 ∷ 0 ∷ 0 ∷ [])
      ++ codes "789-456+1230."
      ++ zeros 44)

unfoldable pub capped : List ℕ
capped =
    ((27 ∷ [])
      ++ codes "1234567890-="
      ++ (8 ∷ 9 ∷ [])
      ++ codes "QWERTYUIOP[]"
      ++ (13 ∷ 0 ∷ [])
      ++ codes "ASDFGHJKL;"
      ++ (0 ∷ [])
      ++ codes "`'"
      ++ (92 ∷ [])
      ++ codes "ZXCVBNM,./"
      ++ (0 ∷ [])
      ++ codes "*"
      ++ (0 ∷ [])
      ++ codes " "
      ++ (0 ∷ 0 ∷ 0 ∷ 0 ∷ 0 ∷ 0 ∷ 0 ∷ 0 ∷ 0 ∷ 0 ∷ 0 ∷ 0 ∷ 0 ∷ [])
      ++ codes "789-456+1230."
      ++ zeros 44)

unfoldable pub shfted : List ℕ
shfted =
    ((27 ∷ [])
      ++ codes "!@#$%^&*()_+"
      ++ (8 ∷ 9 ∷ [])
      ++ codes "QWERTYUIOP{}"
      ++ (13 ∷ 0 ∷ [])
      ++ codes "ASDFGHJKL:"
      ++ (34 ∷ [])
      ++ codes "~"
      ++ (0 ∷ [])
      ++ codes "|ZXCVBNM<>?"
      ++ (0 ∷ 0 ∷ 0 ∷ [])
      ++ codes " "
      ++ zeros 70)

abbrev is_arrow : ℕ → Bool
is_arrow ch = (ch == 0x48) || (ch == 0x4b) || (ch == 0x50) || (ch == 0x4d)

abbrev is_editing : ℕ → Bool
is_editing ch =
    (ch == 0x52) || (ch == 0x47) || (ch == 0x49) || (ch == 0x53) || (ch == 0x4f) || (ch == 0x51)

abbrev pub mult : ℕ
mult = 0x100

-- `table[ch - 1]`, which is outside the table for 0.
abbrev pub at_code : List ℕ → ℕ → Option ℕ
at_code table ch = if ch == 0 then none else get_elem? table (ch - 1)

-- `none` for a read outside the tables.
unfoldable pub get_keycode : Keys → ℕ → Option ℕ
get_keycode k ch =
    if (k.brk == 0) && (k.special == 0) && (k.alt == 0) && ltb 0x3a ch && ltb ch 59
    then some (ch * mult)
    else if (k.brk == 0) && not (k.special == 0) && (is_arrow ch || is_editing ch)
    then some (ch * mult)
    else if (k.special == 0) && (k.brk == 0) && (k.alt == 0)
    then if k.capslock == 0
      then if k.shift == 0 then at_code small ch else at_code shfted ch
      else at_code capped ch
    else if not (k.special == 0) && (k.brk == 0) && (ch == 0x1c)
    then some 13
    else if not (k.special == 0) && (k.brk == 0) && (ch == 0x35)
    then some b'/'
    else some 0

-- What a round of the notifier does outside: `set_led`, or the message with a key to the event manager.
pub data Effect : Type 0 where
  leds : ℕ → Effect
  key : ℕ → Effect

abbrev pub set_led : Keys → Effect
set_led k = leds ((k.scrlock + 2 * k.numlock + 4 * k.capslock) % 2 ^ 8)

-- `1 - flag`, as a byte.
abbrev toggled : ℕ → ℕ
toggled flag = (257 - flag) % 2 ^ 8

-- The end of a round: two variables become false after their number of scan codes.
abbrev pub end_round : Keys → List Effect → Option (Keys × List Effect)
end_round k out = some (record k { special = k.special - 1; brk = k.brk - 1 }, out)

-- A key that is not a shift or lock key: its key code is sent, as a byte, unless it is 0.
unfoldable pub new_keystroke : Keys → ℕ → Option (Keys × List Effect)
new_keystroke k ch = elim (get_keycode k ch) [
  | none ↦ none
  | some code ↦ end_round k (if code == 0 then [] else key (code % 2 ^ 8) ∷ [])
]

-- The keys that take effect on release.
unfoldable pub released : Keys → ℕ → Option (Keys × List Effect)
released k ch =
    if ch == 0x1d
    then end_round (record k { control = 0 }) []
    else if ch == 0x28
    then end_round (record k { alt = 0 }) []
    else if (ch == 0x36) || (ch == 0x2a)
    then end_round (record k { shift = 0 }) []
    else new_keystroke k ch

-- The keys that take effect on press.
unfoldable pub pressed : Keys → ℕ → Option (Keys × List Effect)
pressed k ch =
    if ch == 0x1d
    then end_round (record k { control = 1 }) []
    else if ch == 0x38
    then end_round (record k { alt = 1 }) []
    else if ch == 0x36
    then end_round (record k { shift = 1 }) []
    else new_keystroke k ch

abbrev lit : Keys → Option (Keys × List Effect)
lit k = end_round k (set_led k ∷ [])

-- The lock keys, on press and on release, and then the others.
unfoldable pub locks : Keys → ℕ → Option (Keys × List Effect)
locks k ch =
    if ch == 0x3a
    then lit (record k { capslock = toggled k.capslock })
    else if ch == 0x45
    then lit (record k { numlock = toggled k.numlock })
    else if ch == 0x46
    then lit (record k { scrlock = toggled k.scrlock })
    else if k.brk == 0
    then pressed k ch
    else released k ch

-- One round of `keyb_notifier`, for the code that the keyboard gives.
unfoldable pub keyb_notifier : Keys → ℕ → Option (Keys × List Effect)
keyb_notifier k code =
    if (code == 0xe1) && (k.ignore == 0)
    then end_round (record k { ignore = 5 }) []
    else if not (k.ignore == 0)
    then end_round (record k { ignore = k.ignore - 1 }) []
    else if code == 0xe0
    then end_round (record k { special = 2 }) []
    else let k₁ : Keys = if leb 128 code then record k { brk = 1 } else k in
      let ch = code % 128 in
      if (k₁.brk == 0) && (ch == 0x2a)
      then if k₁.special == 0
        then end_round (record k₁ { shift = 1 }) []
        else end_round (record k₁ { ignore = 3 }) []
      else locks k₁ ch

-- The static variables at the start.
abbrev pub keys₀ : Keys
keys₀ = record {
  brk = 0;
  ignore = 0;
  control = 0;
  shift = 0;
  special = 0;
  capslock = 0;
  numlock = 0;
  scrlock = 0;
  alt = 0;
}

infixl 5 ◌>>=◌
abbrev ◌>>=◌ : {A B : Type 0} → Option A → (A → Option B) → Option B
none >>= f = none
some a >>= f = f a

-- The rounds of the notifier for a list of codes, and all that it sends.
unfoldable pub rounds : Keys → List ℕ → Option (Keys × List Effect)
rounds k [] = some (k, [])
rounds k (code ∷ more_codes) = do
  (k₁, out) ← keyb_notifier k code
  (k₂, more) ← rounds k₁ more_codes
  some (k₂, out ++ more)

-- The variables of `keyb_process`.
pub record Server : Type 0 where
  pub client_proc : Option Ptr
  pub key_buffer : ℕ
  pub key_waiting : Bool

-- What `keyb_process` receives, and the reply with a key that it may send.
pub data Request : Type 0 where
  from_notifier : (keystroke : ℕ) → Request
  from_client : (sender_proc : Ptr) → Request

unfoldable pub keyb_process : Server → Request → Outcome (Server × Option (Ptr × ℕ))
keyb_process s (from_notifier keystroke) = elim s.client_proc [
  | some client ↦ done (record s { client_proc = none }, some (client, keystroke))
  | none ↦ done (record s { key_buffer = keystroke; key_waiting = true }, none)
]
keyb_process s (from_client sender_proc) = do
  assert (elim s.client_proc [ none ↦ true | some _ ↦ false ])
  done (
      if s.key_waiting
      then (record s { key_waiting = false }, some (sender_proc, s.key_buffer))
      else (record s { client_proc = some sender_proc }, none))
