-- ===== src/Programs/Pacman/Start.antt =====
-- The start of a ghost of kernel/pacman.c, and its life.
use tos_sfsu_fall.Base.{
  ℕ, zero, suc, ◌%◌, ◌<◌, ◌≡◌, refl, Bool, true, false, ◌&&◌, ltb, arith, every_below,
  every_below-at,
}
use tos_sfsu_fall.Kernel.State.{Outcome, done, halt, ◌>>=◌}
use tos_sfsu_fall.Window.{Window, Screen}
use tos_sfsu_fall.Programs.Pacman.Walk.{on_blank, IsPlaced, IsGameWindow, IsGame, ghost_round-walks}
use tos_sfsu_fall.Programs.Pacman.{
  Ghost, Game, cell, maze, random, init_ghost, direction, choose_random_direction, create_new_ghost,
  ghost_round,
}

-- The loop of `init_ghost` ends within 24 rounds, at a cell of a corridor.
abbrev starts : Outcome (ℕ × Ghost) → Bool
starts (halt h) = false
starts (done (r, g)) = ltb g.x 19 && ltb g.y 16 && on_blank g

-- Checked for every last random number.
every_start : every_below 65536 (λ r. starts (init_ghost 24 r)) ≡ true
unfolding every_below init_ghost random cell maze
every_start = refl

started :
    (o : Outcome (ℕ × Ghost))
    → starts o ≡ true
    → (r : ℕ) × (g : Ghost) × (o ≡ done (r, g)) × IsPlaced g
started (halt h) e = absurd (ground (arith, e))
started (done (r, g)) e = (
  r,
  g,
  refl,
  record { left = ground (arith, e); top = ground (arith, e); blank = ground (arith, e) },
)

-- From every random number of 16 bits a new ghost finds its place.
pub create_new_ghost-IsGame :
    (r : ℕ) (w : Window) (s : Screen)
    → r < 65536
    → IsGameWindow w
    → (g : Game) × (create_new_ghost 24 r w s ≡ done g) × IsGame g
unfolding create_new_ghost choose_random_direction
create_new_ghost-IsGame r w s small i =
    let (r₁, g, e, p) =
      started (init_ghost 24 r)
        (every_below-at 65536 (λ r. starts (init_ghost 24 r)) r every_start small) in
    let game : Game = record {
      last_random_number = random r₁;
      ghost = g;
      dx = (direction (random r₁ % 4)).0;
      dy = (direction (random r₁ % 4)).1;
      window = w;
      screen = s;
    } in
    (
      game,
      rw e refl,
      record { placed = p; window = i; heads = (random r₁ % 4, omega arith, refl, refl) },
    )

-- A number of rounds of `create_new_ghost` behind its start.
unfoldable pub wander : ℕ → Game → Outcome Game
wander zero g = done g
wander (suc n) g = ghost_round 5 g >>= wander n

wander-IsGame : (n : ℕ) (g : Game) → IsGame g → (g₁ : Game) × (wander n g ≡ done g₁) × IsGame g₁
unfolding wander
wander-IsGame zero g i = (g, refl, i)
wander-IsGame (suc n) g i =
    let (g₁, e, j, next) = ghost_round-walks g i in
    let (g₂, f, k) = wander-IsGame n g₁ j in (g₂, rw e f, k)

-- For every random number of 16 bits and a window of the game on the screen, a new ghost finds a place
-- within 24 tries, and after any number of rounds it is in a corridor of the maze; nothing stops.
pub create_new_ghost-wander :
    (r n : ℕ) (w : Window) (s : Screen)
    → r < 65536
    → IsGameWindow w
    → (g : Game) × ((create_new_ghost 24 r w s >>= wander n) ≡ done g) × IsGame g
create_new_ghost-wander r n w s small i =
    let (g, e, j) = create_new_ghost-IsGame r w s small i in
    let (g₁, f, k) = wander-IsGame n g j in (g₁, rw e f, k)
