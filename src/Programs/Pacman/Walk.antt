-- ===== src/Programs/Pacman/Walk.antt =====
-- The ghosts of kernel/pacman.c stay in the corridors, and always find a way.
use tos_sfsu_fall.Base.{
  ℕ, zero, suc, ◌+◌, ◌-◌, ◌%◌, ◌≤◌, ◌<◌, ◌≡◌, refl, ◌∙◌, ap, Bool, true, false, not, ◌&&◌, ◌||◌,
  ltb, ◌==◌, none, some, arith, every_below, every_below-at, Bool-cases, Option-cases, inl, inr,
}
use tos_sfsu_fall.Kernel.State.{done}
use tos_sfsu_fall.Window.Scroll.{IsOnScreen, poke_screen_lem}
use tos_sfsu_fall.Window.Output.{clip_cursor-fields, shown, show_cursor_lem}
use tos_sfsu_fall.Window.{Window, Screen, put, colored, clip_cursor, move_cursor, remove_cursor}
use tos_sfsu_fall.Programs.Pacman.{
  Ghost, cell, maze, direction, target, moved, move_ghost, walk, Game, ghost_round, random,
  choose_random_direction,
}
use tos_sfsu_fall.Programs.Pacman.Beside.{IsNext, IsBeside, next-IsBeside}
use tos_sfsu_fall.Programs.Pacman.Random.{random-turns}

-- The cell is part of a corridor.
abbrev pub is_blank : (x y : ℕ) → Bool
is_blank x y = elim (cell x y) [ none ↦ false | some c ↦ c == b' ' ]

abbrev pub on_blank : Ghost → Bool
on_blank g = is_blank g.x g.y

-- The ghost can go there.
abbrev pub is_open : Ghost → ℕ → Bool
is_open g dir = elim (target g (direction dir).0 (direction dir).1) [
  | none ↦ false
  | some new ↦ on_blank new
]

-- The neighbour exists, in each direction.
abbrev is_inside : Ghost → ℕ → Bool
is_inside g dir = elim (target g (direction dir).0 (direction dir).1) [
  | none ↦ false
  | some new ↦ elim (cell new.x new.y) [ none ↦ false | some c ↦ ltb new.x 19 && ltb new.y 16 ]
]

abbrev all_inside : Ghost → Bool
all_inside g = is_inside g 0 && is_inside g 1 && is_inside g 2 && is_inside g 3

abbrev any_open : Ghost → Bool
any_open g = is_open g 0 || is_open g 1 || is_open g 2 || is_open g 3

-- Every cell of a corridor lies within the walls, and has a neighbour that is part of one.
checked :
    every_below 19 (λ x. every_below 16 (λ y.
      not (is_blank x y)
      || (all_inside (record { x = x; y = y }) && any_open (record { x = x; y = y }))))
    ≡ true
unfolding every_below cell maze direction target moved
checked = refl

-- A ghost in a corridor of the maze.
pub record IsPlaced (g : Ghost) : Type 0 where
  pub left : g.x < 19
  pub top : g.y < 16
  pub blank : on_blank g ≡ true

placed-checked : (g : Ghost) → IsPlaced g → (all_inside g && any_open g) ≡ true
placed-checked g p = ground (
  arith,
  every_below-at 16 _ g.y
      (every_below-at 19
        (λ x. every_below 16 (λ y.
          not (is_blank x y)
          || (all_inside (record { x = x; y = y }) && any_open (record { x = x; y = y }))))
        g.x checked p.left)
      p.top,
  p.blank,
)

-- The window of the game lies on the screen.
pub record IsGameWindow (w : Window) : Type 0 where
  pub wide : w.width ≡ 19
  pub high : w.height ≡ 17
  pub across : w.x + 19 ≤ 80
  pub down : w.y + 17 ≤ 60

move_cursor_lem :
    (w : Window) (x y : ℕ)
    → IsGameWindow w
    → x < 19
    → y < 16
    → move_cursor w x y ≡ done (record w { cursor_x = x; cursor_y = y })
unfolding move_cursor
move_cursor_lem w x y i a b = rw inside refl
  where
    inside : (ltb x w.width && ltb y w.height) ≡ true
    inside = ground (arith, i.wide, i.high, a, b)

-- The windows are in the same place.
abbrev pub SamePlace : Window → Window → Type 0
SamePlace w v = (v.x ≡ w.x) × (v.y ≡ w.y)

-- The steps of `move_ghost` on the screen.
walk_lem :
    (g new : Ghost) (w : Window) (s : Screen)
    → IsPlaced g
    → IsPlaced new
    → IsGameWindow w
    → (v : Window) × (t : Screen) × (walk g new w s ≡ done (v, t, new, true))
      × IsGameWindow v
      × SamePlace w v
unfolding walk remove_cursor
walk_lem g new w s p q i =
    let w₁ : Window = record w { cursor_x = g.x; cursor_y = g.y } in
    let w₂ : Window = record w { cursor_x = new.x; cursor_y = new.y } in
    let s₁ = put s (w.x + g.x) (w.y + g.y) (colored b' ') in
    let i₁ : IsGameWindow w₁ = record {
      wide = i.wide;
      high = i.high;
      across = i.across;
      down = i.down;
    } in
    let on : IsOnScreen w₂ = record {
      across = omega (arith, i.across, i.wide);
      down = omega (arith, i.down, i.high);
      lines = omega (arith, i.high);
    } in
    let left : w.x < 80 = omega (arith, i.across) in
    let (box, a, b) = clip_cursor-fields w₂ left in
    (
      clip_cursor w₂,
      shown w₂ s₁,
      rw
          (
            move_cursor_lem w g.x g.y i p.left p.top,
            poke_screen_lem (w.x + g.x) (w.y + g.y) (colored b' ') s
                (omega (arith, i.across, p.left)) (omega (arith, i.down, p.top)),
            move_cursor_lem w₁ new.x new.y i₁ q.left q.top,
            show_cursor_lem w₂ s₁ on left (omega (arith, i.high, q.top)),
          )
          refl,
      record {
        wide = omega (arith, box, i.wide);
        high = omega (arith, box, i.high);
        across = omega (arith, box, i.across);
        down = omega (arith, box, i.down);
      },
      (box.0, box.1),
    )

inside_at : (g : Ghost) (dir : ℕ) → dir < 4 → all_inside g ≡ true → is_inside g dir ≡ true
inside_at g zero d h = ground (arith, h)
inside_at g (suc zero) d h = ground (arith, h)
inside_at g (suc (suc zero)) d h = ground (arith, h)
inside_at g (suc (suc (suc zero))) d h = ground (arith, h)
inside_at g (suc (suc (suc (suc dir)))) d h = absurd (omega (arith, d))

-- A neighbour: the next cell in one direction.
neighbour :
    (g : Ghost) (dir : ℕ)
    → IsPlaced g
    → dir < 4
    → (new : Ghost) × (c : ℕ) × (target g (direction dir).0 (direction dir).1 ≡ some new)
      × (cell new.x new.y ≡ some c)
      × (new.x < 19)
      × (new.y < 16)
neighbour g dir p d =
    let inside = inside_at g dir d (ground (arith, placed-checked g p)) in
    elim (Option-cases (target g (direction dir).0 (direction dir).1)) [
      | inl e ↦ absurd (ground (arith, inside, e))
      | inr (new, e) ↦ elim (Option-cases (cell new.x new.y)) [
        | inl f ↦ absurd (ground (arith, inside, e, f))
        | inr (c, f) ↦ (new, c, e, f, ground (arith, inside, e, f), ground (arith, inside, e, f))
      ]
    ]

-- What a move in one direction does: the ghost stays, or goes to a neighbour in a corridor.
move_blocked :
    (g : Ghost) (dir : ℕ) (w : Window) (s : Screen)
    → IsPlaced g
    → dir < 4
    → is_open g dir ≡ false
    → move_ghost g (direction dir).0 (direction dir).1 w s ≡ done (w, s, g, false)
unfolding move_ghost
move_blocked g dir w s p d h =
    let (new, c, e, f, a, b) = neighbour g dir p d in
    let wall : (c == b' ') ≡ false = ground (arith, h, e, f) in rw (e, f, wall) refl

move_open :
    (g : Ghost) (dir : ℕ) (w : Window) (s : Screen)
    → IsPlaced g
    → IsGameWindow w
    → dir < 4
    → is_open g dir ≡ true
    → (v : Window) × (t : Screen) × (new : Ghost) × (move_ghost g
          (direction dir).0
          (direction dir).1
          w
          s
        ≡ done (v, t, new, true))
      × IsPlaced new
      × IsGameWindow v
      × SamePlace w v
      × IsNext g dir new
unfolding move_ghost
move_open g dir w s p i d h =
    let (new, c, e, f, a, b) = neighbour g dir p d in
    let way : (c == b' ') ≡ true = ground (arith, h, e, f) in
    let q : IsPlaced new = record { left = a; top = b; blank = ground (arith, f, way) } in
    let (v, t, k, j, place) = walk_lem g new w s p q i in
    (v, t, new, rw (e, f, way) k, q, j, place, e)

-- The game of a ghost in a corridor that heads for one of the four directions.
pub record IsGame (g : Game) : Type 0 where
  pub placed : IsPlaced g.ghost
  pub window : IsGameWindow g.window
  pub heads : (dir : ℕ) × (dir < 4) × (g.dx ≡ (direction dir).0) × (g.dy ≡ (direction dir).1)

-- The game goes on with the ghost one cell further in one of the four directions, its heading, and
-- with the window in its place.
abbrev pub IsStep : Game → Game → Type 0
IsStep g g₁ =
    (dir : ℕ) × (dir < 4)
    × (g₁.dx ≡ (direction dir).0)
    × (g₁.dy ≡ (direction dir).1)
    × IsNext g.ghost dir g₁.ghost
    × IsBeside g.ghost g₁.ghost
    × SamePlace g.window g₁.window

-- One step of the loop in each case.
abbrev Arrives : ℕ → Game → Type 0
Arrives fuel g = (g₁ : Game) × (ghost_round fuel g ≡ done g₁) × IsGame g₁ × IsStep g g₁

arrives :
    (fuel : ℕ) (g : Game) (dir : ℕ)
    → IsPlaced g.ghost
    → IsGameWindow g.window
    → dir < 4
    → g.dx ≡ (direction dir).0
    → g.dy ≡ (direction dir).1
    → is_open g.ghost dir ≡ true
    → Arrives (suc fuel) g
unfolding ghost_round
arrives fuel g dir p i d hx hy h =
    let (v, t, new, e, q, j, place, next) = move_open g.ghost dir g.window g.screen p i d h in
    (
      record g { ghost = new; window = v; screen = t },
      rw (hx, hy, e) refl,
      record { placed = q; window = j; heads = (dir, d, hx, hy) },
      (dir, d, hx, hy, next, next-IsBeside g.ghost.x g.ghost.y dir new d next, place),
    )

some_open : (g : Ghost) → any_open g ≡ true → (d : ℕ) × (d < 4) × (is_open g d ≡ true)
some_open g h = elim (Bool-cases (is_open g 0)) [
  | inl o ↦ (0, omega arith, o)
  | inr a ↦ elim (Bool-cases (is_open g 1)) [
    | inl o ↦ (1, omega arith, o)
    | inr b ↦ elim (Bool-cases (is_open g 2)) [
      | inl o ↦ (2, omega arith, o)
      | inr c ↦ (3, omega arith, ground (arith, a, b, c, h))
    ]
  ]
]

four_ways :
    (g : Ghost) (r : ℕ) → any_open g ≡ true → (k : ℕ) × (k < 4) × (is_open g ((r + k) % 4) ≡ true)
four_ways g r h =
    let (d, small_, o) = some_open g h in
    (
      (d + 4 - r % 4) % 4,
      omega arith,
      ap (is_open g) {x = (r + (d + 4 - r % 4) % 4) % 4} {y = d} (omega (arith, small_)) ∙ o,
    )

-- From a direction that continues the random numbers, `n` more tries suffice if the `n`-th is open.
retries :
    (fuel n : ℕ) (g : Game)
    → IsPlaced g.ghost
    → IsGameWindow g.window
    → n < fuel
    → g.dx ≡ (direction (g.last_random_number % 4)).0
    → g.dy ≡ (direction (g.last_random_number % 4)).1
    → is_open g.ghost ((g.last_random_number + n) % 4) ≡ true
    → Arrives fuel g
unfolding ghost_round choose_random_direction
retries zero n g p i f hx hy h = absurd (omega (arith, f))
retries (suc fuel) zero g p i f hx hy h =
    arrives fuel g (g.last_random_number % 4) p i (omega arith) hx hy (
      ap (λ m. is_open g.ghost (m % 4)) {x = g.last_random_number} {y = g.last_random_number + 0}
        (omega arith)
      ∙ h)
retries (suc fuel) (suc n) g p i f hx hy h =
    elim (Bool-cases (is_open g.ghost (g.last_random_number % 4))) [
      | inl o ↦ arrives fuel g (g.last_random_number % 4) p i (omega arith) hx hy o
      | inr c ↦
          let r = random g.last_random_number in
          let (g₁, e, j, next) =
            retries fuel n
              (record g {
                last_random_number = r;
                dx = (direction (r % 4)).0;
                dy = (direction (r % 4)).1;
              })
              p i (omega (arith, f)) refl refl
              (ap (is_open g.ghost) (shift g.last_random_number n) ∙ h) in
          (
            g₁,
            rw
                (
                  hx,
                  hy,
                  move_blocked g.ghost (g.last_random_number % 4) g.window g.screen p (omega arith)
                      c,
                )
                e,
            j,
            next,
          )
    ]
  where
    shift : (r n : ℕ) → (random r + n) % 4 ≡ (r + suc n) % 4
    shift r n = omega (arith, random-turns r)

-- For a ghost in a corridor that heads for one of the four directions, in a window of the game on
-- the screen: the loop that moves it ends after at most five tries. The ghost is then in the next cell
-- in one of the four directions, part of a corridor, with `dx` and `dy` of this direction, and the window
-- keeps its place and size.
pub ghost_round-walks :
    (g : Game) → IsGame g → (g₁ : Game) × (ghost_round 5 g ≡ done g₁) × IsGame g₁ × IsStep g g₁
unfolding ghost_round choose_random_direction
ghost_round-walks g i =
    let (dir, d, hx, hy) = i.heads in
    elim (Bool-cases (is_open g.ghost dir)) [
      | inl o ↦ arrives 4 g dir i.placed i.window d hx hy o
      | inr c ↦
          let r = random g.last_random_number in
          let (k, small_, o) =
            four_ways g.ghost r (ground (arith, placed-checked g.ghost i.placed)) in
          let (g₁, e, j, next) =
            retries 4 k
              (record g {
                last_random_number = r;
                dx = (direction (r % 4)).0;
                dy = (direction (r % 4)).1;
              })
              i.placed i.window small_ refl refl o in
          (g₁, rw (hx, hy, move_blocked g.ghost dir g.window g.screen i.placed d c) e, j, next)
    ]
