-- ===== src/Programs/Pacman.antt =====
-- kernel/pacman.c: the maze, and the ghosts that walk in it.
--
-- The random numbers are those of `random`, in the order in which one ghost asks for them. A
-- displacement of -1, 0 or 1 is a `Delta`.
pub mod Random
pub mod Beside
pub mod Walk
pub mod Start
use tos_sfsu_fall.Base.{
  ℕ, zero, suc, ◌+◌, ◌-◌, ◌*◌, ◌%◌, Bool, true, false, not, ◌&&◌, ◌==◌, if◌then◌else◌, List, [],
  ◌∷◌, Option, none, some, get_elem?, codes,
}
use tos_sfsu_fall.Kernel.State.{Outcome, done, halt, undefined, out_of_fuel, ◌>>=◌}
use tos_sfsu_fall.Window.Format.{wprintf}
use tos_sfsu_fall.Window.{
  Window, Screen, clear_window, output_char, move_cursor, remove_cursor, show_cursor,
}

abbrev pub maze_width : ℕ
maze_width = 19

abbrev pub maze_height : ℕ
maze_height = 16

abbrev pub ghost_char : ℕ
ghost_char = 2

pub record Ghost : Type 0 where
  pub x : ℕ
  pub y : ℕ

unfoldable pub maze : List (List ℕ)
maze =
    codes "r--------T--------i"
    ∷ codes "|        |        |"
    ∷ codes "| ri r-i | r-i ri |"
    ∷ codes "| Ll L-l | L-l Ll |"
    ∷ codes "|                 |"
    ∷ codes "| -- | --T-- | -- |"
    ∷ codes "|    |   |   |    |"
    ∷ codes "E--- L--   --l ---e"
    ∷ codes "|        |        |"
    ∷ codes "| -i --- | --- r- |"
    ∷ codes "|  |           |  |"
    ∷ codes "E- | | --T-- | | -e"
    ∷ codes "|    |   |   |    |"
    ∷ codes "| ---t-- | --t--- |"
    ∷ codes "|                 |"
    ∷ codes "L-----------------l"
    ∷ []

-- `maze[y][x]`, where there is such a character.
unfoldable pub cell : (x y : ℕ) → Option ℕ
cell x y = elim (get_elem? maze y) [ none ↦ none | some row ↦ get_elem? row x ]

abbrev pub read_maze : (x y : ℕ) → Outcome ℕ
read_maze x y = elim (cell x y) [ none ↦ halt undefined | some c ↦ done c ]

-- The `switch` of `draw_maze_char`.
unfoldable pub maze_char : ℕ → ℕ
maze_char c =
    if c == b'|'
    then 0xb3
    else if c == b'-'
    then 0xc4
    else if c == b'r'
    then 0xda
    else if c == b'i'
    then 0xbf
    else if c == b'L'
    then 0xc0
    else if c == b'l'
    then 0xd9
    else if c == b'T'
    then 0xc2
    else if c == b't'
    then 0xc1
    else if c == b'E'
    then 0xc3
    else if c == b'e'
    then 0xb4
    else b' '

unfoldable pub draw_maze_char : ℕ → Window → Screen → Outcome (Window × Screen)
draw_maze_char c w s = output_char w (maze_char c) s

unfoldable pub draw_row : List ℕ → Window → Screen → Outcome (Window × Screen)
draw_row [] w s = done (w, s)
draw_row (c ∷ row) w s = do (w₁, s₁) ← draw_maze_char c w s; draw_row row w₁ s₁

unfoldable pub draw_rows : List (List ℕ) → Window → Screen → Outcome (Window × Screen)
draw_rows [] w s = done (w, s)
draw_rows (row ∷ rows) w s = do (w₁, s₁) ← draw_row row w s; draw_rows rows w₁ s₁

unfoldable pub draw_maze : Window → Screen → Outcome (Window × Screen)
draw_maze w s = do
  (w₁, s₁) ← clear_window w s
  (w₂, s₂) ← draw_rows maze w₁ s₁
  elim (wprintf w₂ (codes "PacMan ") [] s₂) [ none ↦ halt undefined | some r ↦ r ]

-- The next value of `last_random_number`, which is also what `random` returns.
unfoldable pub random : ℕ → ℕ
random last_random_number = (25173 * last_random_number + 13849) % 65536

-- The loop of `init_ghost`, with the last random number.
unfoldable pub init_ghost : (fuel : ℕ) → ℕ → Outcome (ℕ × Ghost)
init_ghost zero r = halt out_of_fuel
init_ghost (suc fuel) r =
    let x = random r % maze_width in
    let y = random (random r) % maze_height in
    let again = init_ghost fuel (random (random r)) in
    do
      c ← read_maze x y
      (if not (c == b' ') then again else done (random (random r), record { x = x; y = y }))

pub data Delta : Type 0 where
  back stay forth : Delta

-- The `switch` of `choose_random_direction`, for `dir`.
unfoldable pub direction : ℕ → Delta × Delta
direction dir =
    if dir == 0
    then (back, stay)
    else if dir == 1
    then (forth, stay)
    else if dir == 2
    then (stay, back)
    else if dir == 3
    then (stay, forth)
    else (stay, stay)

-- The last random number, and the displacements.
unfoldable pub choose_random_direction : ℕ → ℕ × Delta × Delta
choose_random_direction r = (random r, (direction (random r % 4)).0, (direction (random r % 4)).1)

unfoldable pub moved : ℕ → Delta → Option ℕ
moved zero back = none
moved (suc n) back = some n
moved n stay = some n
moved n forth = some (suc n)

-- The new position, where no coordinate falls below 0.
unfoldable pub target : Ghost → Delta → Delta → Option Ghost
target g dx dy = elim (moved g.x dx) [
  | none ↦ none
  | some x ↦ elim (moved g.y dy) [ none ↦ none | some y ↦ some (record { x = x; y = y }) ]
]

-- The ghost is taken from its old place and shown at the new one.
unfoldable pub walk : (old new : Ghost) → Window → Screen → Outcome (Window × Screen × Ghost × Bool)
walk old new w s = do
  w₁ ← move_cursor w old.x old.y
  s₁ ← remove_cursor w₁ s
  w₂ ← move_cursor w₁ new.x new.y
  (w₃, s₂) ← show_cursor w₂ s₁
  done (w₃, s₂, new, true)

-- The test of the new cell, and the steps behind it. The last component says whether the ghost has moved.
abbrev pub enter :
    (old new : Ghost) → Option ℕ → Window → Screen → Outcome (Window × Screen × Ghost × Bool)
enter old new none w s = halt undefined
enter old new (some c) w s = if not (c == b' ') then done (w, s, old, false) else walk old new w s

abbrev pub move_to :
    Ghost → Option Ghost → Window → Screen → Outcome (Window × Screen × Ghost × Bool)
move_to g none w s = halt undefined
move_to g (some new) w s = enter g new (cell new.x new.y) w s

unfoldable pub move_ghost :
    Ghost → (dx dy : Delta) → Window → Screen → Outcome (Window × Screen × Ghost × Bool)
move_ghost g dx dy w s = move_to g (target g dx dy) w s

-- What one ghost works on: the last random number, its place and its direction, and the screen.
pub record Game : Type 0 where
  pub last_random_number : ℕ
  pub ghost : Ghost
  pub dx : Delta
  pub dy : Delta
  pub window : Window
  pub screen : Screen

-- The inner loop of `create_new_ghost`: directions are chosen until the ghost can move.
unfoldable pub ghost_round : (fuel : ℕ) → Game → Outcome Game
ghost_round zero g = halt out_of_fuel
ghost_round (suc fuel) g =
    let choice = choose_random_direction g.last_random_number in
    let again =
      ghost_round fuel (record g { last_random_number = choice.0; dx = choice.1; dy = choice.2 }) in
    do
      (w, s, ghost, has_moved) ← move_ghost g.ghost g.dx g.dy g.window g.screen
      (if has_moved then done (record g { ghost = ghost; window = w; screen = s }) else again)

-- The start of `create_new_ghost`.
unfoldable pub create_new_ghost : (fuel : ℕ) → ℕ → Window → Screen → Outcome Game
create_new_ghost fuel r w s = do
  (r₁, g) ← init_ghost fuel r
  let choice : ℕ × Delta × Delta = choose_random_direction r₁
  done (record {
    last_random_number = choice.0;
    ghost = g;
    dx = choice.1;
    dy = choice.2;
    window = w;
    screen = s;
  })

-- `init_pacman` up to the processes of the ghosts: the size and the cursor of the window.
unfoldable pub init_pacman : Window → Screen → Outcome (Window × Screen)
init_pacman wnd s =
    draw_maze
      (record wnd { width = maze_width; height = maze_height + 1; cursor_char = ghost_char }) s
