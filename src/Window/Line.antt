-- ===== src/Window/Line.antt =====
-- Plain characters that kernel/window.c writes stay in one line of the screen.
use tos_sfsu_fall.Base.{
  ℕ, ◌+◌, ◌<◌, ◌≡◌, refl, ◌∙◌, Bool, true, false, not, ◌&&◌, ◌||◌, ◌==◌, ltb, if◌then◌else◌, ap,
  arith, List, [], ◌∷◌,
}
use tos_sfsu_fall.Kernel.State.{Outcome, done}
use tos_sfsu_fall.Window.Scroll.{IsOnScreen, poke_screen_lem}
use tos_sfsu_fall.Window.Output.{
  IsInside, SameBox, line, shown, show_cursor_lem, clip_cursor-fields, clip_cursor-IsInside, both,
}
use tos_sfsu_fall.Window.{
  Screen, Window, put, colored, clip_cursor, remove_cursor, put_char, output_char, output_string,
}

-- A character that is written as itself.
abbrev pub is_glyph : ℕ → Bool
is_glyph c = not ((c == b'\n') || (c == 13) || (c == 8) || (c == 14))

abbrev pub all_glyphs : List ℕ → Bool
all_glyphs [] = true
all_glyphs (c ∷ cs) = is_glyph c && all_glyphs cs

-- The screens differ in one line at most.
abbrev pub SameBut : ℕ → Screen → Screen → Type 0
SameBut y s t = (a b : ℕ) → (b == y) ≡ false → t a b ≡ s a b

-- The column behind another one: the first one of the window behind the last one of the screen.
abbrev pub beside : (left col : ℕ) → ℕ
beside left col = if ltb 79 (col + 1) then left else col + 1

-- The column behind a text, and the screen with the text from a column of line `y` on, one
-- character after the other.
abbrev pub behind : (left col : ℕ) → List ℕ → ℕ
behind left col [] = col
behind left col (c ∷ cs) = behind left (beside left col) cs

abbrev pub typed : (left y col : ℕ) → List ℕ → Screen → Screen
typed left y col [] s = s
typed left y col (c ∷ cs) s = typed left y (beside left col) cs (put s col y (colored c))

-- The screens agree but for one cell.
abbrev pub SameButCell : (x y : ℕ) → Screen → Screen → Type 0
SameButCell x y s t = (a b : ℕ) → ((b == y) && (a == x)) ≡ false → t a b ≡ s a b

-- What stood in the cell where the text begins does not matter.
typed-SameButCell :
    (left y col : ℕ) (cs : List ℕ) (s t : Screen)
    → SameButCell col y s t
    → SameButCell (behind left col cs) y (typed left y col cs s) (typed left y col cs t)
typed-SameButCell left y col [] s t same = same
typed-SameButCell left y col (c ∷ cs) s t same =
    typed-SameButCell left y (beside left col) cs (put s col y (colored c))
      (put t col y (colored c)) λ a b other. ground (arith, same a b)

-- What a glyph leads to.
abbrev Stays : Window → (c : ℕ) → Screen → Outcome (Window × Screen) → Type 0
Stays w c s r =
    let col = beside w.x (w.x + w.cursor_x) in
    (v : Window) × (t : Screen) × (r ≡ done (v, t))
    × IsInside v
    × SameBox w v
    × (v.cursor_y ≡ w.cursor_y)
    × SameBut (w.y + w.cursor_y) s t
    × (v.x + v.cursor_x ≡ col)
    × SameButCell col (w.y + w.cursor_y) (put s (w.x + w.cursor_x) (w.y + w.cursor_y) (colored c)) t

output_char-Stays :
    (w : Window) (c : ℕ) (s : Screen)
    → IsInside w
    → is_glyph c ≡ true
    → Stays w c s (output_char w c s)
unfolding output_char remove_cursor put_char
output_char-Stays w c s i plain =
    let s₁ = put s (w.x + w.cursor_x) (w.y + w.cursor_y) (colored b' ') in
    let s₂ = put s₁ (w.x + w.cursor_x) (w.y + w.cursor_y) (colored c) in
    let v : Window = record w { cursor_x = w.cursor_x + 1 } in
    let on : IsOnScreen v = record { across = i.on.across; down = i.on.down; lines = i.on.lines } in
    let left : w.x < 80 = omega (arith, i.across) in
    let (box, inside, same) = clip_cursor-fields v left in
    (
      clip_cursor v,
      shown v s₂,
      rw
          (
            poke_screen_lem (w.x + w.cursor_x) (w.y + w.cursor_y) (colored b' ') s i.across
                (line w i),
            no_newline,
            no_back,
            no_frame,
            poke_screen_lem (w.x + w.cursor_x) (w.y + w.cursor_y) (colored c) s₁ i.across
                (line w i),
            no_scroll,
            show_cursor_lem v s₂ on left i.down,
          )
          refl,
      clip_cursor-IsInside v on i.columns i.down,
      box,
      same,
      λ a b other. ground (arith, other, same, box),
      ground arith,
      λ a b other. ground (arith, other, same, box),
    )
  where
    no_newline : ((c == b'\n') || (c == 13)) ≡ false
    no_newline = ground (arith, plain)

    no_back : (c == 8) ≡ false
    no_back = ground (arith, plain)

    no_frame : (c == 14) ≡ false
    no_frame = ground (arith, plain)

    no_scroll : (w.cursor_y == w.height) ≡ false
    no_scroll = ground (arith, i.down)

-- For a window on the screen, whose cursor is in a line of the window and left of column 80: a
-- string without control characters is written to the line of the cursor, however long it is. Each
-- character is written in turn, from the column of the cursor on, and behind column 79 the first
-- column of the window follows. The cursor stands behind the last character, in the same line; all
-- cells of the screen but that of the cursor are as written, and no other line changes.
pub output_string-one_line :
    (w : Window) (cs : List ℕ) (s : Screen)
    → IsInside w
    → all_glyphs cs ≡ true
    → (v : Window) × (t : Screen) × (output_string w cs s ≡ done (v, t))
      × IsInside v
      × SameBox w v
      × (v.cursor_y ≡ w.cursor_y)
      × SameBut (w.y + w.cursor_y) s t
      × (v.x + v.cursor_x ≡ behind w.x (w.x + w.cursor_x) cs)
      × SameButCell
          (behind w.x (w.x + w.cursor_x) cs)
          (w.y + w.cursor_y)
          (typed w.x (w.y + w.cursor_y) (w.x + w.cursor_x) cs s)
          t
unfolding output_string
output_string-one_line w [] s i g =
    (w, s, refl, i, (refl, refl, refl, refl, refl), refl, λ a b h. refl, refl, λ a b h. refl)
output_string-one_line w (c ∷ cs) s i g =
    let (here, rest) = both _ _ g in
    let (v, t, e, j, box, low, same, at, cells) = output_char-Stays w c s i here in
    let (v', t', f, j', box', low', same', at', cells') = output_string-one_line v cs t j rest in
    let left = w.x in
    let y = w.y + w.cursor_y in
    let col = beside left (left + w.cursor_x) in
    let line_eq : v.y + v.cursor_y ≡ y = omega (arith, box, low) in
    let s₁ = put s (left + w.cursor_x) y (colored c) in
    let agree = typed-SameButCell left y col cs s₁ t cells in
    let ends : behind v.x (v.x + v.cursor_x) cs ≡ behind left col cs =
      ap (λ l. behind l (v.x + v.cursor_x) cs) box.0 ∙ ap (λ q. behind left q cs) at in
    let texts : typed v.x (v.y + v.cursor_y) (v.x + v.cursor_x) cs t ≡ typed left y col cs t =
      ap (λ l. typed l (v.y + v.cursor_y) (v.x + v.cursor_x) cs t) box.0
      ∙ ap (λ b. typed left b (v.x + v.cursor_x) cs t) line_eq
      ∙ ap (λ q. typed left y q cs t) at in
    (
      v',
      t',
      rw e f,
      j',
      ground (arith, box, box'),
      low' ∙ low,
      λ a b h. ground (arith, same a b h, same' a b, box, low, h),
      at' ∙ ends,
      λ a b h. cells' a b (rw (line_eq, ends) h) ∙ ap (λ g. g a b) texts ∙ agree a b h,
    )
