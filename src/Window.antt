-- ===== src/Window.antt =====
-- kernel/window.c, in VGA mode: windows on a screen of 80 columns and 60 lines, and the cursor.
--
-- The screen is the array `SCREEN`; that each cell is also drawn as pixels is not modelled. The
-- fields of a window are `int`s that are never negative here: what the code subtracts from is at
-- least one where a window has a line.
mod Tests
pub mod Loop
pub mod Scroll
pub mod Output
pub mod Line
pub mod Number
pub mod Numeral
pub mod Format
use tos_sfsu_fall.Base.{
  ℕ, zero, suc, ◌+◌, ◌-◌, ◌*◌, ◌^◌, Bool, true, false, not, ◌&&◌, ◌||◌, ltb, leb, ◌==◌,
  if◌then◌else◌, bit_or, List, [], ◌∷◌,
}
use tos_sfsu_fall.Kernel.State.{Outcome, done, halt, ◌>>=◌, ◌>>◌, assert}
use tos_sfsu_fall.Window.Loop.{for_up}

abbrev pub console_chars : ℕ
console_chars = 80

abbrev pub console_lines : ℕ
console_lines = 60

-- `SCREEN[x][y]`
abbrev pub Screen : Type 0
Screen = ℕ → ℕ → ℕ

-- `WINDOW`. The characters are bytes.
pub record Window : Type 0 where
  pub x : ℕ
  pub y : ℕ
  pub width : ℕ
  pub height : ℕ
  pub cursor_x : ℕ
  pub cursor_y : ℕ
  pub cursor_char : ℕ

abbrev pub cursor_active_char : ℕ
cursor_active_char = 0xdc

abbrev pub cursor_inactive_char : ℕ
cursor_inactive_char = 0xb0

-- `ch | (default_color << 8)` for an `unsigned char`; `default_color` is 0x0F.
abbrev pub colored : ℕ → ℕ
colored c = bit_or c (0x0f * 2 ^ 8)

-- A `char` is signed: as a word, one with the high bit set is all ones above.
abbrev pub sign_extend : ℕ → ℕ
sign_extend c = if ltb c 128 then c else 0xff00 + c

abbrev pub put : Screen → (x y ch : ℕ) → Screen
put s x y ch a b = if (a == x) && (b == y) then ch else s a b

unfoldable pub poke_screen : (x y ch : ℕ) → Screen → Outcome Screen
poke_screen x y ch s = do assert (ltb x console_chars && ltb y console_lines); done (put s x y ch)

-- The assertion compares `y` with the number of columns.
unfoldable pub peek_screen : (x y : ℕ) → Screen → Outcome ℕ
peek_screen x y s = do assert (ltb x console_chars && ltb y console_chars); done (s x y)

unfoldable pub window_is_valid : Window → Bool
window_is_valid w = leb (w.x + w.width) console_chars && leb (w.y + w.height) console_chars

-- The inner loop of `scroll_window`: line `wy` gets what the next one holds.
unfoldable pub scroll_line : Window → (wy : ℕ) → Screen → Outcome Screen
scroll_line w wy =
    for_up w.width 0 λ x s. do ch ← peek_screen (w.x + x) (wy + 1) s; poke_screen (w.x + x) wy ch s

-- A line is filled with zeros.
unfoldable pub blank_line : Window → (wy : ℕ) → Screen → Outcome Screen
blank_line w wy = for_up w.width 0 λ x s. poke_screen (w.x + x) wy 0 s

unfoldable pub scroll_window : Window → Screen → Outcome (Window × Screen)
scroll_window w s = do
  s₁ ← for_up (w.height - 1) 0 (λ y s. scroll_line w (w.y + y) s) s
  s₂ ← blank_line w (w.y + w.height - 1) s₁
  done (record w { cursor_x = 0; cursor_y = w.height - 1 }, s₂)

unfoldable pub remove_cursor : Window → Screen → Outcome Screen
remove_cursor w s = poke_screen (w.x + w.cursor_x) (w.y + w.cursor_y) (colored b' ') s

-- The cursor is taken back to the first column where it would stand right of the screen.
abbrev pub clip_cursor : Window → Window
clip_cursor w = if ltb 79 (w.x + w.cursor_x) then record w { cursor_x = 0 } else w

unfoldable pub show_cursor : Window → Screen → Outcome (Window × Screen)
show_cursor w s = do
  let v : Window = clip_cursor w
  s₁ ← poke_screen (v.x + v.cursor_x) (v.y + v.cursor_y) (colored (sign_extend v.cursor_char)) s
  done (v, s₁)

unfoldable pub cursor_active : Window → Screen → Outcome (Window × Screen)
cursor_active w s = show_cursor (record w { cursor_char = cursor_active_char }) s

unfoldable pub cursor_inactive : Window → Screen → Outcome (Window × Screen)
cursor_inactive w s = show_cursor (record w { cursor_char = cursor_inactive_char }) s

unfoldable pub move_cursor : Window → (x y : ℕ) → Outcome Window
move_cursor w x y = do
  assert (ltb x w.width && ltb y w.height)
  done (record w { cursor_x = x; cursor_y = y })

unfoldable pub clear_window : Window → Screen → Outcome (Window × Screen)
clear_window w s = do
  let v : Window = record w { cursor_x = 0; cursor_y = 0 }
  s₁ ← for_up v.height 0 (λ y s. blank_line v (v.y + y) s) s
  show_cursor v s₁

-- Backspace: one column back, or to the end of the line above.
abbrev pub step_back : Window → Window
step_back w =
    if not (w.cursor_x == 0)
    then record w { cursor_x = w.cursor_x - 1 }
    else if not (w.cursor_y == 0)
    then record w { cursor_x = w.width - 1; cursor_y = w.cursor_y - 1 }
    else w

-- The `switch` of `output_char`: newline and return, backspace, a frame character, and all others.
unfoldable pub put_char : Window → ℕ → Screen → Outcome (Window × Screen)
put_char w c s =
    if (c == b'\n') || (c == 13)
    then done (record w { cursor_x = 0; cursor_y = w.cursor_y + 1 }, s)
    else if c == 8
    then done (step_back w, s)
    else if c == 14
    then (do
      s₁ ← poke_screen (w.x + w.width) (w.y + w.cursor_y) (colored 0xb3) s
      done (record w { cursor_y = w.cursor_y + 1 }, s₁))
    else (do
      s₁ ← poke_screen (w.x + w.cursor_x) (w.y + w.cursor_y) (colored c) s
      done (record w { cursor_x = w.cursor_x + 1 }, s₁))

unfoldable pub output_char : Window → ℕ → Screen → Outcome (Window × Screen)
output_char w c s = do
  s₁ ← remove_cursor w s
  (w₂, s₂) ← put_char w c s₁
  (w₃, s₃) ← if w₂.cursor_y == w₂.height then scroll_window w₂ s₂ else done (w₂, s₂)
  show_cursor w₃ s₃

unfoldable pub output_string : Window → List ℕ → Screen → Outcome (Window × Screen)
output_string w [] s = done (w, s)
output_string w (c ∷ cs) s = do (w₁, s₁) ← output_char w c s; output_string w₁ cs s₁

-- `kernel_window_def`
abbrev pub kernel_window : Window
kernel_window = record {
  x = 0;
  y = 0;
  width = 80;
  height = 25;
  cursor_x = 0;
  cursor_y = 0;
  cursor_char = b' ';
}

unfoldable pub clear_kernel_window : Screen → Outcome (Window × Screen)
clear_kernel_window s = clear_window kernel_window s
