-- ===== src/Window/Output.antt =====
-- `output_char` of kernel/window.c: where the cursor can be, and what is written.
use tos_sfsu_fall.Base.{
  ℕ, ◌+◌, ◌-◌, ◌≤◌, ◌<◌, ◌≡◌, refl, Bool, true, false, not, ◌&&◌, ◌||◌, ltb, ◌==◌, if◌then◌else◌,
  arith, List, [], ◌∷◌, Bool-cases, inl, inr,
}
use tos_sfsu_fall.Kernel.State.{Outcome, done, ◌>>=◌}
use tos_sfsu_fall.Window.Scroll.{IsOnScreen, poke_screen_lem, scroll_window_lem}
use tos_sfsu_fall.Window.{
  Screen, Window, put, scroll_window, show_cursor, remove_cursor, clip_cursor, colored, sign_extend,
  put_char, step_back, output_char, output_string,
}

-- The cursor is on the screen, in a line of the window.
pub record IsInside (w : Window) : Type 0 where
  pub on : IsOnScreen w
  pub columns : 1 ≤ w.width
  pub across : w.x + w.cursor_x < 80
  pub down : w.cursor_y < w.height

-- Two windows of the same place and size.
abbrev pub SameBox : Window → Window → Type 0
SameBox w v =
    (v.x ≡ w.x)
    × (v.y ≡ w.y)
    × (v.width ≡ w.width)
    × (v.height ≡ w.height)
    × (v.cursor_char ≡ w.cursor_char)

-- A frame character is written right of the window: there has to be a column.
abbrev pub has_room : Window → ℕ → Bool
has_room w c = not (c == 14) || ltb (w.x + w.width) 80

room : (w : Window) (c : ℕ) → has_room w c ≡ true → (c == 14) ≡ true → w.x + w.width < 80
room w c r g = ground (arith, r, g)

pub line : (w : Window) → IsInside w → w.y + w.cursor_y < 60
line w i = omega (arith, i.down, i.on.down)

-- The window after a character, before it scrolls.
record IsMoved (w v : Window) : Type 0 where
  box : SameBox w v
  columns : v.x + v.cursor_x ≤ 80
  rows : v.cursor_y ≤ v.height

newline-IsMoved :
    (w : Window) → IsInside w → IsMoved w (record w { cursor_x = 0; cursor_y = w.cursor_y + 1 })
newline-IsMoved w i = record {
  box = (refl, refl, refl, refl, refl);
  columns = omega (arith, i.across);
  rows = omega (arith, i.down);
}

step_back-IsMoved : (w : Window) → IsInside w → IsMoved w (step_back w)
step_back-IsMoved w i = record {
  box = ground arith;
  columns = ground (arith, i.across, i.columns, i.on.across);
  rows = ground (arith, i.down);
}

put_char_lem :
    (w : Window) (c : ℕ) (s : Screen)
    → IsInside w
    → has_room w c ≡ true
    → (v : Window) × (t : Screen) × (put_char w c s ≡ done (v, t)) × IsMoved w v
unfolding put_char
put_char_lem w c s i r = elim (Bool-cases ((c == b'\n') || (c == 13))) [
  | inl e ↦ (_, s, rw e refl, newline-IsMoved w i)
  | inr e ↦ elim (Bool-cases (c == 8)) [
    | inl f ↦ (step_back w, s, rw (e, f) refl, step_back-IsMoved w i)
    | inr f ↦ elim (Bool-cases (c == 14)) [
      | inl g ↦ (
        record w { cursor_y = w.cursor_y + 1 },
        put s (w.x + w.width) (w.y + w.cursor_y) (colored 0xb3),
        rw
            (
              e,
              f,
              g,
              poke_screen_lem (w.x + w.width) (w.y + w.cursor_y) (colored 0xb3) s (room w c r g)
                  (line w i),
            )
            refl,
        record {
          box = (refl, refl, refl, refl, refl);
          columns = omega (arith, i.across);
          rows = omega (arith, i.down);
        },
      )
      | inr g ↦ (
        record w { cursor_x = w.cursor_x + 1 },
        put s (w.x + w.cursor_x) (w.y + w.cursor_y) (colored c),
        rw
            (
              e,
              f,
              g,
              poke_screen_lem (w.x + w.cursor_x) (w.y + w.cursor_y) (colored c) s i.across
                  (line w i),
            )
            refl,
        record {
          box = (refl, refl, refl, refl, refl);
          columns = omega (arith, i.across);
          rows = omega (arith, i.down);
        },
      )
    ]
  ]
]

-- Where the cursor is shown.
abbrev pub shown : Window → Screen → Screen
shown w s =
    put s ((clip_cursor w).x + (clip_cursor w).cursor_x)
      ((clip_cursor w).y + (clip_cursor w).cursor_y)
      (colored (sign_extend (clip_cursor w).cursor_char))

pub clip_cursor-fields :
    (w : Window)
    → w.x < 80
    → SameBox w (clip_cursor w)
      × (w.x + (clip_cursor w).cursor_x < 80)
      × ((clip_cursor w).cursor_y ≡ w.cursor_y)
clip_cursor-fields w left = ground (arith, left)

pub show_cursor_lem :
    (w : Window) (s : Screen)
    → IsOnScreen w
    → w.x < 80
    → w.cursor_y < w.height
    → show_cursor w s ≡ done (clip_cursor w, shown w s)
unfolding show_cursor
show_cursor_lem w s on left low =
    let (box, across, same) = clip_cursor-fields w left in
    rw
      (poke_screen_lem ((clip_cursor w).x + (clip_cursor w).cursor_x)
        ((clip_cursor w).y + (clip_cursor w).cursor_y)
        (colored (sign_extend (clip_cursor w).cursor_char)) s (omega (arith, box, across))
        (omega (arith, box, same, low, on.down)))
      refl

pub clip_cursor-IsInside :
    (w : Window) → IsOnScreen w → 1 ≤ w.width → w.cursor_y < w.height → IsInside (clip_cursor w)
clip_cursor-IsInside w on wide low =
    let (box, across, same) = clip_cursor-fields w (omega (arith, on.across, wide)) in
    record {
      on = record {
        across = omega (arith, box, on.across);
        down = omega (arith, box, on.down);
        lines = omega (arith, box, on.lines);
      };
      columns = omega (arith, box, wide);
      across = omega (arith, box, across);
      down = omega (arith, box, same, low);
    }

-- The last steps of `output_char`: the window scrolls where the cursor has left it below, and the
-- cursor is shown.
abbrev finish : Window → Screen → Outcome (Window × Screen)
finish w s =
    (if w.cursor_y == w.height then scroll_window w s else done (w, s)) >>= λ r. show_cursor r.0 r.1

finish_lem :
    (w : Window) (s : Screen)
    → IsOnScreen w
    → 1 ≤ w.width
    → w.cursor_y ≤ w.height
    → (v : Window) × (t : Screen) × (finish w s ≡ done (v, t)) × IsInside v × SameBox w v
finish_lem w s on wide low = elim (Bool-cases (w.cursor_y == w.height)) [
  | inl e ↦
      let u : Window = record w { cursor_x = 0; cursor_y = w.height - 1 } in
      let onu : IsOnScreen u = record { across = on.across; down = on.down; lines = on.lines } in
      let (t, scrolls, cells) = scroll_window_lem w s on in
      (
        clip_cursor u,
        shown u t,
        rw (e, scrolls)
            (show_cursor_lem u t onu (omega (arith, on.across, wide)) (omega (arith, on.lines))),
        clip_cursor-IsInside u onu wide (omega (arith, on.lines)),
        (clip_cursor-fields u (omega (arith, on.across, wide))).0,
      )
  | inr e ↦ (
    clip_cursor w,
    shown w s,
    rw e (show_cursor_lem w s on (omega (arith, on.across, wide)) (ground arith)),
    clip_cursor-IsInside w on wide (ground arith),
    (clip_cursor-fields w (omega (arith, on.across, wide))).0,
  )
]

-- `output_char` of a window on the screen whose cursor is in a line of the window and left of
-- column 80 of the screen: it returns, and the window keeps its place and size and this condition
-- on the cursor, whatever the character; for the character 14 the column behind the window is on
-- the screen.
pub output_char-IsInside :
    (w : Window) (c : ℕ) (s : Screen)
    → IsInside w
    → has_room w c ≡ true
    → (v : Window) × (t : Screen) × (output_char w c s ≡ done (v, t)) × IsInside v × SameBox w v
unfolding output_char remove_cursor
output_char-IsInside w c s i r =
    let s₁ = put s (w.x + w.cursor_x) (w.y + w.cursor_y) (colored b' ') in
    let (v, t, e, m) = put_char_lem w c s₁ i r in
    let (v', t', f, j, box) =
      finish_lem v t
        (record {
          across = omega (arith, m.box, i.on.across);
          down = omega (arith, m.box, i.on.down);
          lines = omega (arith, m.box, i.on.lines);
        })
        (omega (arith, m.box, i.columns)) m.rows in
    (
      v',
      t',
      rw
          (
            poke_screen_lem (w.x + w.cursor_x) (w.y + w.cursor_y) (colored b' ') s i.across
                (line w i),
            e,
          )
          f,
      j,
      ground (arith, box, m.box),
    )

-- Every character of a string has room.
abbrev pub all_room : Window → List ℕ → Bool
all_room w [] = true
all_room w (c ∷ cs) = has_room w c && all_room w cs

has_room-same : (w v : Window) (c : ℕ) → SameBox w v → has_room v c ≡ has_room w c
has_room-same w v c box = ground (arith, box)

all_room-same : (w v : Window) (cs : List ℕ) → SameBox w v → all_room v cs ≡ all_room w cs
all_room-same w v [] box = refl
all_room-same w v (c ∷ cs) box = rw (has_room-same w v c box, all_room-same w v cs box) refl

pub both : (a b : Bool) → (a && b) ≡ true → (a ≡ true) × (b ≡ true)
both a b h = ground arith

-- `output_string` to a window on the screen whose cursor is in a line of the window and left of
-- column 80 of the screen returns for every string; the window keeps its place and size, and the
-- cursor is again in a line of the window and left of column 80, though not always left of the
-- window's end. Where the string has a character 14, the column behind the window is on the
-- screen.
pub output_string-IsInside :
    (w : Window) (cs : List ℕ) (s : Screen)
    → IsInside w
    → all_room w cs ≡ true
    → (v : Window) × (t : Screen) × (output_string w cs s ≡ done (v, t)) × IsInside v × SameBox w v
unfolding output_string
output_string-IsInside w [] s i r = (w, s, refl, i, (refl, refl, refl, refl, refl))
output_string-IsInside w (c ∷ cs) s i r =
    let (here, rest) = both _ _ r in
    let (v, t, e, j, box) = output_char-IsInside w c s i here in
    let (v', t', f, j', box') =
      output_string-IsInside v cs t j (rw (all_room-same w v cs box) rest) in
    (v', t', rw e f, j', ground (arith, box, box'))

-- A character that is neither a control character nor the frame character, with a column right of
-- the cursor on the screen: it is written at the cursor, the cursor moves to the next column and is
-- shown there, and no other cell changes. The width of the window does not matter.
pub output_char-writes :
    (w : Window) (c : ℕ) (s : Screen)
    → IsInside w
    → ((c == b'\n') || (c == 13) || (c == 8) || (c == 14)) ≡ false
    → w.x + w.cursor_x + 1 < 80
    → (t : Screen) × (output_char w c s ≡ done (record w { cursor_x = w.cursor_x + 1 }, t))
      × ((a b : ℕ)
          → t a b ≡ (
              if (a == w.x + w.cursor_x) && (b == w.y + w.cursor_y)
              then colored c
              else if (a == w.x + w.cursor_x + 1) && (b == w.y + w.cursor_y)
              then colored (sign_extend w.cursor_char)
              else s a b))
unfolding output_char remove_cursor put_char
output_char-writes w c s i plain next =
    let s₁ = put s (w.x + w.cursor_x) (w.y + w.cursor_y) (colored b' ') in
    let s₂ = put s₁ (w.x + w.cursor_x) (w.y + w.cursor_y) (colored c) in
    let v : Window = record w { cursor_x = w.cursor_x + 1 } in
    let on : IsOnScreen v = record { across = i.on.across; down = i.on.down; lines = i.on.lines } in
    (
      shown v s₂,
      rw
          (
            poke_screen_lem (w.x + w.cursor_x) (w.y + w.cursor_y) (colored b' ') s i.across
                (line w i),
            no_newline,
            no_back,
            no_frame,
            poke_screen_lem (w.x + w.cursor_x) (w.y + w.cursor_y) (colored c) s₁ i.across
                (line w i),
            no_scroll,
            show_cursor_lem v s₂ on (omega (arith, next)) i.down,
            no_clip,
          )
          refl,
      λ a b. rw no_clip (ground (arith, next)),
    )
  where
    no_newline : ((c == b'\n') || (c == 13)) ≡ false
    no_newline = ground (arith, plain)

    no_back : (c == 8) ≡ false
    no_back = ground (arith, plain)

    no_frame : (c == 14) ≡ false
    no_frame = ground (arith, plain)

    no_scroll : (w.cursor_y == w.height) ≡ false
    no_scroll = ground (arith, i.down)

    no_clip : ltb 79 (w.x + (w.cursor_x + 1)) ≡ false
    no_clip = ground (arith, next)
