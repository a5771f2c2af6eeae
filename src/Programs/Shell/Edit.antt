-- ===== src/Programs/Shell/Edit.antt =====
-- The line that `shell_process` of kernel/shell.c reads is the text that was typed.
use tos_sfsu_fall.Base.{
  ℕ, suc, ◌+◌, ◌-◌, ◌≤◌, ◌≡◌, refl, sym, ◌∙◌, ap, subst, Bool, true, false, not, ◌&&◌, ◌==◌,
  if◌then◌else◌, List, [], ◌∷◌, ◌++◌, set, length, length-append, length-set, append_assoc, arith,
  Bool-cases, inl, inr, ==_iff,
}
use tos_sfsu_fall.Drivers.Events.{EmMessage, key_stroke}
use tos_sfsu_fall.Programs.Shell.{text_of, Line, Shown, echo, shell_key, shell_message, read_line}

abbrev pub drop_last : List ℕ → List ℕ
drop_last [] = []
drop_last (c ∷ []) = []
drop_last (c ∷ d ∷ s) = c ∷ drop_last (d ∷ s)

-- What a key makes of the text: backspace takes the last character, and others are added up to 40.
abbrev pub edit : List ℕ → ℕ → List ℕ
edit text ch =
    if ch == 8 then drop_last text else if length text == 40 then text else text ++ (ch ∷ [])

abbrev pub edit_all : List ℕ → List ℕ → List ℕ
edit_all text [] = text
edit_all text (ch ∷ keys) = edit_all (edit text ch) keys

-- Keys that belong to the line.
abbrev pub all_typed : List ℕ → Bool
all_typed [] = true
all_typed (ch ∷ keys) = not (ch == 0) && not (ch == 13) && all_typed keys

-- The first characters of the buffer are the text, and the line is still open.
abbrev pub held : (text junk : List ℕ) → Line
held text junk = record { buffer = text ++ junk; i = length text; process_input = true }

held-eq :
    (b : List ℕ) (n : ℕ) (text junk : List ℕ)
    → b ≡ text ++ junk
    → n ≡ length text
    → ◌≡◌ {A = Line} (record { buffer = b; i = n; process_input = true }) (held text junk)
held-eq b n text junk e f = rw (e, f) refl

set-behind :
    (text : List ℕ) (j : ℕ) (junk : List ℕ) (c : ℕ)
    → set (text ++ (j ∷ junk)) (length text) c ≡ (text ++ (c ∷ [])) ++ junk
set-behind [] j junk c = refl
set-behind (t ∷ text) j junk c = ap (λ s. t ∷ s) (set-behind text j junk c)

last_of : (c : ℕ) (text : List ℕ) → (x : ℕ) × (c ∷ text ≡ drop_last (c ∷ text) ++ (x ∷ []))
last_of c [] = (c, refl)
last_of c (d ∷ text) = let (x, e) = last_of d text in (x, ap (λ s. c ∷ s) e)

has_junk :
    (text junk : List ℕ)
    → length text ≤ 40
    → length (text ++ junk) ≡ 80
    → (j : ℕ) × (more : List ℕ) × (junk ≡ j ∷ more)
has_junk text [] a b = absurd (omega (arith, a, b, length-append text []))
has_junk text (j ∷ more) a b = (j, more, refl)

snoc-append :
    (text : List ℕ) (x : ℕ) (junk : List ℕ) → (text ++ (x ∷ [])) ++ junk ≡ text ++ (x ∷ junk)
snoc-append text x junk = append_assoc text (x ∷ []) junk

-- A key keeps the text and the buffer together, and the text within 40 characters.
abbrev Keeps : List ℕ → List ℕ → ℕ → Type 0
Keeps text junk ch =
    (junk₁ : List ℕ) × (out : List Shown) × (shell_key (held text junk) ch
      ≡ (held (edit text ch) junk₁, out))
    × (length (edit text ch) ≤ 40)
    × (length (edit text ch ++ junk₁) ≡ 80)

backspace : (text junk : List ℕ) → length text ≤ 40 → length (text ++ junk) ≡ 80 → Keeps text junk 8
unfolding shell_key
backspace [] junk a b = (junk, [], refl, a, b)
backspace (c ∷ text) junk a b =
    let (x, e) = last_of c text in
    let moved : (c ∷ text) ++ junk ≡ drop_last (c ∷ text) ++ (x ∷ junk) =
      ap (λ t. t ++ junk) e ∙ snoc-append (drop_last (c ∷ text)) x junk in
    let shorter : suc (length text) ≡ length (drop_last (c ∷ text)) + 1 =
      ap length e ∙ length-append (drop_last (c ∷ text)) (x ∷ []) in
    (
      x ∷ junk,
      echo (8 ∷ []) ∷ [],
      rw (nonzero) (
          ap (λ (l : Line). (l, echo (8 ∷ []) ∷ []))
            (held-eq ((c ∷ text) ++ junk) (suc (length text) - 1) (drop_last (c ∷ text)) (x ∷ junk)
              moved (omega (arith, shorter)))),
      omega (arith, shorter, a),
      ap length (sym moved) ∙ b,
    )
  where
    nonzero : (suc (length text) == 0) ≡ false
    nonzero = ground arith

shell_key-Keeps :
    (text junk : List ℕ) (ch : ℕ)
    → length text ≤ 40
    → length (text ++ junk) ≡ 80
    → (ch == 13) ≡ false
    → Keeps text junk ch
unfolding shell_key
shell_key-Keeps text junk ch a b r = elim (Bool-cases (ch == 8)) [
  | inl e ↦ subst (Keeps text junk) (sym ((==_iff ch 8).0 e)) (backspace text junk a b)
  | inr e ↦ elim (Bool-cases (length text == 40)) [
    | inl f ↦ (junk, echo (ch ∷ []) ∷ [], rw (e, r, f) refl, rw (e, f) a, rw (e, f) b)
    | inr f ↦
        let (j, more, g) = has_junk text junk a b in
        let longer = length-append text (ch ∷ []) in
        let written : set (text ++ junk) (length text) ch ≡ (text ++ (ch ∷ [])) ++ more =
          ap (λ k. set (text ++ k) (length text) ch) g ∙ set-behind text j more ch in
        (
          more,
          echo (ch ∷ []) ∷ [],
          rw (e, r, f)
              (ap (λ (l : Line). (l, echo (ch ∷ []) ∷ []))
                (held-eq _ (length text + 1) (text ++ (ch ∷ [])) more written (sym longer))),
          rw (e, f) (ground (arith, longer, a, f)),
          rw (e, f) (ap length (sym written) ∙ length-set (text ++ junk) (length text) ch ∙ b),
        )
  ]
]

abbrev pub messages : List ℕ → List EmMessage → List EmMessage
messages [] rest = rest
messages (ch ∷ keys) rest = key_stroke ch ∷ messages keys rest

abbrev pub no_zero : List ℕ → Bool
no_zero [] = true
no_zero (c ∷ text) = not (c == 0) && no_zero text

text_of-zero : (text junk : List ℕ) → no_zero text ≡ true → text_of (text ++ (0 ∷ junk)) ≡ text
text_of-zero [] junk h = refl
text_of-zero (c ∷ text) junk h = ground (arith, h, text_of-zero text junk)

no_zero-append :
    (text : List ℕ) (ch : ℕ)
    → no_zero text ≡ true
    → (ch == 0) ≡ false
    → no_zero (text ++ (ch ∷ [])) ≡ true
no_zero-append [] ch h k = ground (arith, k)
no_zero-append (c ∷ text) ch h k = ground (arith, h, no_zero-append text ch, k)

no_zero-drop_last : (text : List ℕ) → no_zero text ≡ true → no_zero (drop_last text) ≡ true
no_zero-drop_last [] h = refl
no_zero-drop_last (c ∷ []) h = refl
no_zero-drop_last (c ∷ d ∷ text) h = ground (arith, h, no_zero-drop_last (d ∷ text))

no_zero-edit :
    (text : List ℕ) (ch : ℕ)
    → no_zero text ≡ true
    → (ch == 0) ≡ false
    → no_zero (edit text ch) ≡ true
no_zero-edit text ch h k = ground (arith, h, k, no_zero-drop_last text, no_zero-append text ch)

read_line-step :
    (l l₁ l₂ : Line) (m : EmMessage) (ms left : List EmMessage) (out more : List Shown)
    → l.process_input ≡ true
    → shell_message l m ≡ (l₁, out)
    → read_line l₁ ms ≡ (l₂, more, left)
    → read_line l (m ∷ ms) ≡ (l₂, out ++ more, left)
unfolding read_line
read_line-step l l₁ l₂ m ms left out more p e f = rw (e, f, p) refl

-- A closed line takes no message.
read_line-closed :
    (l : Line) (ms : List EmMessage) → l.process_input ≡ false → read_line l ms ≡ (l, [], ms)
unfolding read_line
read_line-closed l [] p = refl
read_line-closed l (m ∷ ms) p = rw p refl

-- Where the line holds a text, then for keys other than the return key and 0, and the return key
-- behind them, the loop ends at the return key: the line is closed, and the buffer holds the text
-- that the keys make of it, where backspace takes the last character and at most 40 are kept.
pub read_line-typed :
    (text junk keys : List ℕ) (rest : List EmMessage)
    → length text ≤ 40
    → length (text ++ junk) ≡ 80
    → no_zero text ≡ true
    → all_typed keys ≡ true
    → (l : Line) × (out : List Shown) × (read_line
          (held text junk)
          (messages keys (key_stroke 13 ∷ rest))
        ≡ (l, out, rest))
      × (l.process_input ≡ false)
      × (text_of l.buffer ≡ edit_all text keys)
      × (length l.buffer ≡ 80)
unfolding shell_message shell_key
read_line-typed text junk [] rest a b z h =
    let (j, more, g) = has_junk text junk a b in
    let l : Line = record {
      buffer = set (text ++ junk) (length text) 0;
      i = length text;
      process_input = false;
    } in
    (
      l,
      _,
      read_line-step (held text junk) l l (key_stroke 13) rest rest _ [] refl refl
          (read_line-closed l rest refl),
      refl,
      ap text_of (
            ap (λ k. set (text ++ k) (length text) 0) g
            ∙ set-behind text j more 0
            ∙ snoc-append text 0 more)
          ∙ text_of-zero text more z,
      length-set (text ++ junk) (length text) 0 ∙ b,
    )
read_line-typed text junk (ch ∷ keys) rest a b z h =
    let (junk₁, out, e, a₁, b₁) = shell_key-Keeps text junk ch a b (ground (arith, h)) in
    let (l, more, f, closed, t, s) =
      read_line-typed (edit text ch) junk₁ keys rest a₁ b₁
        (no_zero-edit text ch z (ground (arith, h))) (ground (arith, h)) in
    (
      l,
      out ++ more,
      read_line-step (held text junk) (held (edit text ch) junk₁) l (key_stroke ch)
          (messages keys (key_stroke 13 ∷ rest)) rest out more refl e f,
      closed,
      t,
      s,
    )
