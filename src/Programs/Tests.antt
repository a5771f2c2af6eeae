-- ===== src/Programs/Tests.antt =====
-- A line, a ghost, and each theorem about kernel/shell.c and kernel/pacman.c applied to them.
use tos_sfsu_fall.Base.{ℕ, ◌≡◌, refl, false, [], ◌∷◌, ◌++◌, List, arith, codes, length}
use tos_sfsu_fall.Kernel.State.{done, ◌>>=◌}
use tos_sfsu_fall.Drivers.Events.{key_stroke, focus_in}
use tos_sfsu_fall.Programs.Shell.Edit.{held, messages, read_line-typed}
use tos_sfsu_fall.Programs.Shell.{
  is_command, process_command, read_line, text_of, Line, Shown, Started, ne_send_udp, pong_usage,
}
use tos_sfsu_fall.Programs.Pacman.Start.{wander, create_new_ghost-wander}
use tos_sfsu_fall.Programs.Pacman.Walk.{IsPlaced, IsGame, IsStep, ghost_round-walks}
use tos_sfsu_fall.Programs.Pacman.{
  Game, create_new_ghost, ghost_round, back, stay, cell, maze, direction,
}

abbrev not_started : Started
not_started = record { pacman = false; train = false }

-- Tests of `process_command`.
sendudp_first :
    process_command not_started (codes "sendudp 10.0.0.1")
    ≡ (not_started, ne_send_udp (codes "10.0.0.1"))
unfolding process_command is_command
sendudp_first = refl

pong_without_name : process_command not_started (codes "pong") ≡ (not_started, pong_usage)
unfolding process_command is_command
pong_without_name = refl

-- A line is typed with a correction.
abbrev old_line : List ℕ
old_line = codes "12345678901234567890123456789012345678901234567890123456789012345678901234567890"

read_line-typed_example :
    (l : Line) × (out : List Shown) × (read_line
        (held [] old_line)
        (messages (codes "px" ++ (8 ∷ codes "s")) (key_stroke 13 ∷ focus_in ∷ []))
      ≡ (l, out, focus_in ∷ []))
    × (l.process_input ≡ false)
    × (text_of l.buffer ≡ codes "ps")
    × (length l.buffer ≡ 80)
read_line-typed_example =
    read_line-typed [] old_line (codes "px" ++ (8 ∷ codes "s")) (focus_in ∷ []) (omega arith) refl
      refl refl

-- A ghost in the upper left corner that heads for the wall.
abbrev corner : Game
corner = record {
  last_random_number = 5;
  ghost = record { x = 1; y = 1 };
  dx = back;
  dy = stay;
  window = record {
    x = 61;
    y = 8;
    width = 19;
    height = 17;
    cursor_x = 0;
    cursor_y = 0;
    cursor_char = 2;
  };
  screen = λ a b. 0;
}

corner-IsPlaced : IsPlaced corner.ghost
unfolding cell maze
corner-IsPlaced = record { left = omega arith; top = omega arith; blank = refl }

corner-IsGame : IsGame corner
unfolding direction
corner-IsGame = record {
  placed = corner-IsPlaced;
  window = record { wide = refl; high = refl; across = omega arith; down = omega arith };
  heads = (0, omega arith, refl, refl);
}

ghost_round-walks_example :
    (g₁ : Game) × (ghost_round 5 corner ≡ done g₁) × IsGame g₁ × IsStep corner g₁
ghost_round-walks_example = ghost_round-walks corner corner-IsGame

create_new_ghost-wander_example :
    (g : Game) × ((create_new_ghost 24 0 corner.window corner.screen >>= wander 1000) ≡ done g)
    × IsGame g
create_new_ghost-wander_example =
    create_new_ghost-wander 0 1000 corner.window corner.screen (omega arith) corner-IsGame.window
