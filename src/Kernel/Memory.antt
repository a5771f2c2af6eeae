-- ===== src/Kernel/Memory.antt =====
-- kernel/mem.c: the memory of the machine, byte by byte, little end first.
--
-- Addresses do not wrap around: the kernel uses addresses below 2 ^ 20 only.
use tos_sfsu_fall.Base.{
  ℕ, zero, suc, ◌+◌, ◌*◌, ◌/◌, ◌%◌, ◌^◌, ◌≡◌, ◌<◌, ◌≤◌, refl, List, [], ◌∷◌, arith,
}
use tos_sfsu_fall.Kernel.State.{update}

abbrev pub Memory : Type 0
Memory = ℕ → ℕ

unfoldable pub poke_b : Memory → ℕ → ℕ → Memory
poke_b m addr value = update m addr (value % 2 ^ 8)

unfoldable pub poke_w : Memory → ℕ → ℕ → Memory
poke_w m addr value = update (update m addr (value % 2 ^ 8)) (addr + 1) (value / 2 ^ 8 % 2 ^ 8)

unfoldable pub poke_l : Memory → ℕ → ℕ → Memory
poke_l m addr value =
    update
      (update (update (update m addr (value % 2 ^ 8)) (addr + 1) (value / 2 ^ 8 % 2 ^ 8)) (addr + 2)
        (value / 2 ^ 16 % 2 ^ 8))
      (addr + 3) (value / 2 ^ 24 % 2 ^ 8)

unfoldable pub peek_b : Memory → ℕ → ℕ
peek_b m addr = m addr

unfoldable pub peek_w : Memory → ℕ → ℕ
peek_w m addr = m addr + 2 ^ 8 * m (addr + 1)

unfoldable pub peek_l : Memory → ℕ → ℕ
peek_l m addr = m addr + 2 ^ 8 * m (addr + 1) + 2 ^ 16 * m (addr + 2) + 2 ^ 24 * m (addr + 3)

bytes_of :
    (v : ℕ)
    → v < 2 ^ 32
    → v % 2 ^ 8
        + 2 ^ 8 * (v / 2 ^ 8 % 2 ^ 8)
        + 2 ^ 16 * (v / 2 ^ 16 % 2 ^ 8)
        + 2 ^ 24 * (v / 2 ^ 24 % 2 ^ 8)
      ≡ v
bytes_of v h = omega arith

-- A value of 32 bits that `poke_l` writes is what `peek_l` reads at the same address.
pub peek_l-poke_l : (m : Memory) (a v : ℕ) → v < 2 ^ 32 → peek_l (poke_l m a v) a ≡ v
unfolding peek_l poke_l
peek_l-poke_l m a v h = ground (arith, bytes_of v h)

-- And so is a word.
pub peek_w-poke_w : (m : Memory) (a v : ℕ) → v < 2 ^ 16 → peek_w (poke_w m a v) a ≡ v
unfolding peek_w poke_w
peek_w-poke_w m a v h = ground arith

-- Above what is written nothing changes.
pub peek_l-poke_l_above :
    (m : Memory) (a b v : ℕ) → a + 4 ≤ b → peek_l (poke_l m a v) b ≡ peek_l m b
unfolding peek_l poke_l
peek_l-poke_l_above m a b v h = ground arith

-- The longs from an address on.
abbrev pub longs : ℕ → Memory → ℕ → List ℕ
longs zero m a = []
longs (suc n) m a = peek_l m a ∷ longs n m (a + 4)

pub longs-poke_l_above :
    (n : ℕ) (m : Memory) (a b v : ℕ) → a + 4 ≤ b → longs n (poke_l m a v) b ≡ longs n m b
longs-poke_l_above zero m a b v h = refl
longs-poke_l_above (suc n) m a b v h =
    rw (peek_l-poke_l_above m a b v h, longs-poke_l_above n m a (b + 4) v (omega arith))
