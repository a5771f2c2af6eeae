-- ===== src/Window/Scroll.antt =====
-- What scrolling and clearing a window of kernel/window.c do to the screen.
use tos_sfsu_fall.Base.{
  ℕ, ◌+◌, ◌-◌, ◌≤◌, ◌<◌, ◌≡◌, refl, Bool, true, false, ◌&&◌, ltb, leb, ◌==◌, if◌then◌else◌, arith,
}
use tos_sfsu_fall.Kernel.State.{done}
use tos_sfsu_fall.Window.Loop.{for_up-from_zero}
use tos_sfsu_fall.Window.{
  Screen, Window, put, poke_screen, peek_screen, scroll_line, blank_line, scroll_window,
  clear_window, show_cursor, colored, sign_extend,
}

-- A window that lies on the screen and has a line.
pub record IsOnScreen (w : Window) : Type 0 where
  pub across : w.x + w.width ≤ 80
  pub down : w.y + w.height ≤ 60
  pub lines : 1 ≤ w.height

pub poke_screen_lem :
    (x y ch : ℕ) (s : Screen) → x < 80 → y < 60 → poke_screen x y ch s ≡ done (put s x y ch)
unfolding poke_screen
poke_screen_lem x y ch s hx hy = rw (inside) refl
  where
    inside : (ltb x 80 && ltb y 60) ≡ true
    inside = ground arith

peek_screen_lem : (x y : ℕ) (s : Screen) → x < 80 → y < 60 → peek_screen x y s ≡ done (s x y)
unfolding peek_screen
peek_screen_lem x y s hx hy = rw (inside) refl
  where
    inside : (ltb x 80 && ltb y 80) ≡ true
    inside = ground arith

-- Column `a` is one of the `n` from `x` on.
abbrev pub within : (a x n : ℕ) → Bool
within a x n = leb x a && ltb a (x + n)

-- The screen with line `wy` of the window, up to column `n`, taken from the next line.
abbrev LineUp : Window → (wy : ℕ) → Screen → ℕ → Screen → Type 0
LineUp w wy s n t =
    (a b : ℕ) → t a b ≡ (if (b == wy) && within a w.x n then s a (wy + 1) else s a b)

scroll_line_lem :
    (w : Window) (wy : ℕ) (s : Screen)
    → w.x + w.width ≤ 80
    → wy + 1 < 60
    → (t : Screen) × (scroll_line w wy s ≡ done t) × LineUp w wy s w.width t
unfolding scroll_line
scroll_line_lem w wy s fits low =
    for_up-from_zero w.width _ (LineUp w wy s)
      (λ j t hi p. (
        put t (w.x + j) wy (t (w.x + j) (wy + 1)),
        rw (peek_screen_lem (w.x + j) (wy + 1) t (omega (arith, fits, hi)) low)
            (poke_screen_lem (w.x + j) wy _ t (omega (arith, fits, hi)) (omega (arith, low))),
        λ a b. ground (arith, p a b, p (w.x + j) (wy + 1)),
      ))
      s λ a b. ground arith

-- A line of zeros, up to column `n`.
abbrev Blank : Window → (wy : ℕ) → Screen → ℕ → Screen → Type 0
Blank w wy s n t = (a b : ℕ) → t a b ≡ (if (b == wy) && within a w.x n then 0 else s a b)

blank_line_lem :
    (w : Window) (wy : ℕ) (s : Screen)
    → w.x + w.width ≤ 80
    → wy < 60
    → (t : Screen) × (blank_line w wy s ≡ done t) × Blank w wy s w.width t
unfolding blank_line
blank_line_lem w wy s fits low =
    for_up-from_zero w.width _ (Blank w wy s)
      (λ j t hi p. (
        put t (w.x + j) wy 0,
        poke_screen_lem (w.x + j) wy 0 t (omega (arith, fits, hi)) low,
        λ a b. ground (arith, p a b),
      ))
      s λ a b. ground arith

-- The cell at column `a` and line `b` belongs to the window.
abbrev pub covers : Window → (a b : ℕ) → Bool
covers w a b = within a w.x w.width && within b w.y w.height

-- The screen after a window has scrolled: each of its lines but the last shows the next one, the
-- last is zero, and the rest stays.
abbrev pub scrolled : Window → Screen → Screen
scrolled w s a b =
    if covers w a b then (if b + 1 == w.y + w.height then 0 else s a (b + 1)) else s a b

abbrev LinesUp : Window → Screen → ℕ → Screen → Type 0
LinesUp w s n t =
    (a b : ℕ) → t a b ≡ (if within b w.y n && within a w.x w.width then s a (b + 1) else s a b)

-- `scroll_window` of a window on the screen moves its lines up by one, and puts the cursor at the
-- start of the last line.
pub scroll_window_lem :
    (w : Window) (s : Screen)
    → IsOnScreen w
    → (t : Screen) × (scroll_window w s
        ≡ done (record w { cursor_x = 0; cursor_y = w.height - 1 }, t))
      × ((a b : ℕ) → t a b ≡ scrolled w s a b)
unfolding scroll_window
scroll_window_lem w s on =
    let (t, e, up) =
      for_up-from_zero (w.height - 1) (λ y s. scroll_line w (w.y + y) s) (LinesUp w s)
        (λ j t hi p.
          let (t', e', line) =
            scroll_line_lem w (w.y + j) t on.across (omega (arith, on.down, on.lines, hi)) in
          (t', e', λ a b. ground (arith, line a b, p a b, p a (w.y + j + 1))))
        s λ a b. ground arith in
    let (t', e', last) =
      blank_line_lem w (w.y + w.height - 1) t on.across (omega (arith, on.down, on.lines)) in
    (t', rw (e, e') refl, λ a b. ground (arith, last a b, up a b, on.lines, on.across, on.down))

abbrev Zeroed : Window → Screen → ℕ → Screen → Type 0
Zeroed w s n t = (a b : ℕ) → t a b ≡ (if within b w.y n && within a w.x w.width then 0 else s a b)

-- `clear_window` of a window on the screen blanks every cell of the window but the first, where it
-- shows the cursor, and no other cell.
pub clear_window_lem :
    (w : Window) (s : Screen)
    → IsOnScreen w
    → w.x < 80
    → (t : Screen) × (clear_window w s ≡ done (record w { cursor_x = 0; cursor_y = 0 }, t))
      × ((a b : ℕ)
          → t a b ≡ (
              if (a == w.x) && (b == w.y)
              then colored (sign_extend w.cursor_char)
              else if covers w a b
              then 0
              else s a b))
unfolding clear_window show_cursor
clear_window_lem w s on left =
    let v : Window = record w { cursor_x = 0; cursor_y = 0 } in
    let (t, e, zeros) =
      for_up-from_zero v.height (λ y s. blank_line v (v.y + y) s) (Zeroed v s)
        (λ j t hi p.
          let (t', e', line) =
            blank_line_lem v (v.y + j) t on.across (omega (arith, on.down, hi)) in
          (t', e', λ a b. ground (arith, line a b, p a b)))
        s λ a b. ground arith in
    (
      put t (w.x + 0) (w.y + 0) (colored (sign_extend w.cursor_char)),
      rw
          (
            e,
            clip,
            poke_screen_lem (w.x + 0) (w.y + 0) (colored (sign_extend w.cursor_char)) t
                (omega (arith, left)) (omega (arith, on.down, on.lines)),
          )
          refl,
      λ a b. ground (arith, zeros a b),
    )
  where
    clip : ltb 79 (w.x + 0) ≡ false
    clip = ground (arith, left)
