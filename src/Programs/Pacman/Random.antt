-- ===== src/Programs/Pacman/Random.antt =====
-- The random numbers of kernel/pacman.c.
use tos_sfsu_fall.Base.{ℕ, ◌+◌, ◌*◌, ◌%◌, ◌<◌, ◌≡◌, arith}
use tos_sfsu_fall.Programs.Pacman.{random}

-- The sum that `random` computes fits an `int`, and the number fits 16 bits.
pub random-bounds : (r : ℕ) → r < 65536 → (25173 * r + 13849 < 2147483648) × (random r < 65536)
unfolding random
random-bounds r h = (omega arith, omega arith)

-- The last two bits count: every direction is chosen in turn.
pub random-turns : (r : ℕ) → random r % 4 ≡ (r + 1) % 4
unfolding random
random-turns r = omega arith
