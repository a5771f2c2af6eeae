-- ===== src/Window/Tests.antt =====
-- A window of the screen, and each theorem about kernel/window.c applied to it.
use tos_sfsu_fall.Base.{
  ℕ, ◌+◌, ◌-◌, ◌*◌, ◌^◌, List, ◌≡◌, refl, true, [], ◌∷◌, ◌++◌, some, codes, arith,
}
use tos_sfsu_fall.Kernel.State.{done}
use tos_sfsu_fall.Window.Scroll.{IsOnScreen}
use tos_sfsu_fall.Window.Output.{IsInside, SameBox, output_string-IsInside}
use tos_sfsu_fall.Window.Line.{SameBut, SameButCell, typed, output_string-one_line}
use tos_sfsu_fall.Window.Number.{value, sign, printnum, put_digits, digs, padding}
use tos_sfsu_fall.Window.Numeral.{is_numeral}
use tos_sfsu_fall.Window.Format.Text.{prepend, vsprintf-decimal}
use tos_sfsu_fall.Window.Format.{
  num, str, vsprintf, put_string, format, directive, read_width, read_prec, read_number, convert,
  put_unsigned, put_signed,
}
use tos_sfsu_fall.Window.{Window, Screen, output_string}

abbrev small_window : Window
small_window = record {
  x = 61;
  y = 8;
  width = 19;
  height = 4;
  cursor_x = 2;
  cursor_y = 3;
  cursor_char = b' ';
}

abbrev numbered : Screen
numbered a b = a + 100 * b

small_window-IsOnScreen : IsOnScreen small_window
small_window-IsOnScreen = record { across = omega arith; down = omega arith; lines = omega arith }

small_window-IsInside : IsInside small_window
small_window-IsInside = record {
  on = small_window-IsOnScreen;
  columns = omega arith;
  across = omega arith;
  down = omega arith;
}

-- Tests of `vsprintf`.
vsprintf_hex :
    vsprintf (codes "%04X-%5d|") (num 48879 ∷ num (2 ^ 32 - 42) ∷ []) ≡ some (codes "BEEF--   42|")
unfolding vsprintf format directive read_width read_prec read_number convert put_unsigned put_signed
    printnum put_digits digs padding
vsprintf_hex = refl

vsprintf_text :
    vsprintf (codes "%-6s|%3s|%%") (str (codes "tos") ∷ str (codes "x") ∷ [])
    ≡ some (codes "tos   |  x|%")
unfolding vsprintf format directive read_width read_prec read_number convert put_string
vsprintf_text = refl

-- A width of five and a precision of two give four characters.
vsprintf_cut : vsprintf (codes "%-5.2s|") (str (codes "abc") ∷ []) ≡ some (codes "ab  |")
unfolding vsprintf format directive read_width read_prec read_number convert put_string
vsprintf_cut = refl

output_string-IsInside_example :
    (v : Window) × (t : Screen) × (output_string small_window (codes "two\nlines") numbered
      ≡ done (v, t))
    × IsInside v
    × SameBox small_window v
output_string-IsInside_example =
    output_string-IsInside small_window (codes "two\nlines") numbered small_window-IsInside refl

output_string-one_line_example :
    (v : Window) × (t : Screen) × (output_string small_window
        (codes "longer than the window is wide")
        numbered
      ≡ done (v, t))
    × IsInside v
    × SameBox small_window v
    × (v.cursor_y ≡ 3)
    × SameBut 11 numbered t
    × (v.x + v.cursor_x ≡ 74)
    × SameButCell 74 11 (typed 61 11 63 (codes "longer than the window is wide") numbered) t
output_string-one_line_example =
    output_string-one_line small_window (codes "longer than the window is wide") numbered
      small_window-IsInside refl

vsprintf-decimal_example :
    (ds : List ℕ) × (is_numeral ds ≡ true)
    × (value 10 0 ds ≡ 42)
    × (vsprintf (codes "n=" ++ (codes "%d" ++ codes "!")) (num (2 ^ 32 - 42) ∷ [])
        ≡ prepend (codes "n=" ++ (sign true ++ ds)) (vsprintf (codes "!") []))
vsprintf-decimal_example =
    vsprintf-decimal (codes "n=") (codes "!") (2 ^ 32 - 42) [] refl (omega arith)
