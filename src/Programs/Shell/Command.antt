-- ===== src/Programs/Shell/Command.antt =====
-- What `is_command` and `process_command` of kernel/shell.c choose.
use tos_sfsu_fall.Base.{ℕ, ◌≡◌, refl, ◌∙◌, ap, true, ◌==◌, List, [], ◌∷◌, ◌++◌, arith, ==_iff, ◌↔◌}
use tos_sfsu_fall.Programs.Shell.{is_command}

is_command_complete : (word rest : List ℕ) → is_command (word ++ rest) word ≡ true
unfolding is_command
is_command_complete [] rest = refl
is_command_complete (c ∷ word) rest = ground (arith, is_command_complete word rest)

heads : (a c : ℕ) (s t : List ℕ) → (a == c) ≡ true → s ≡ t → a ∷ s ≡ c ∷ t
heads a c s t h e = rw (e, (==_iff a c).0 h) refl

is_command_sound :
    (s word : List ℕ) → is_command s word ≡ true → (rest : List ℕ) × (s ≡ word ++ rest)
unfolding is_command
is_command_sound s [] h = (s, refl)
is_command_sound [] (c ∷ word) h = absurd (ground (arith, h))
is_command_sound (a ∷ s) (c ∷ word) h =
    let (rest, e) = is_command_sound s word (ground (arith, h)) in
    (rest, heads a c (s) (word ++ rest) (ground (arith, h)) e)

-- `is_command` says whether the buffer starts with the word.
pub is_command_iff :
    (s word : List ℕ) → (is_command s word ≡ true) ↔ ((rest : List ℕ) × (s ≡ word ++ rest))
is_command_iff s word =
    (is_command_sound s word, λ r. ap (λ t. is_command t word) r.1 ∙ is_command_complete word r.0)
