-- ===== src/Kernel/Dispatch/Table.antt =====
-- kernel/disptable.c: the table that gives the index of the highest bit of a byte.
use tos_sfsu_fall.Base.{
  ℕ, ◌-◌, ◌+◌, ◌^◌, ◌<◌, ◌≡◌, ◌≢◌, refl, Bool, true, false, ◌&&◌, ◌||◌, not, List, [], ◌∷◌, arith,
  ◌≤◌, leb, ltb, ltb→lt, ◌==◌, get_or, bit, every_below, every_below-at, agree, agree-eq, bit_and,
  bit_or,
}

-- The entry -1, as the `unsigned` that it is assigned to.
abbrev pub no_entry : ℕ
no_entry = 2 ^ 32 - 1

entries : List ℕ
entries =
    no_entry ∷ 0 ∷ 1 ∷ 1 ∷ 2 ∷ 2 ∷ 2 ∷ 2 ∷ 3 ∷ 3 ∷ 3 ∷ 3 ∷ 3 ∷ 3 ∷ 3 ∷ 3 ∷ 4 ∷ 4 ∷ 4 ∷ 4 ∷ 4 ∷ 4 ∷ 4
    ∷ 4 ∷ 4 ∷ 4 ∷ 4 ∷ 4 ∷ 4 ∷ 4 ∷ 4 ∷ 4 ∷ 5 ∷ 5 ∷ 5 ∷ 5 ∷ 5 ∷ 5 ∷ 5 ∷ 5 ∷ 5 ∷ 5 ∷ 5 ∷ 5 ∷ 5 ∷ 5 ∷ 5
    ∷ 5 ∷ 5 ∷ 5 ∷ 5 ∷ 5 ∷ 5 ∷ 5 ∷ 5 ∷ 5 ∷ 5 ∷ 5 ∷ 5 ∷ 5 ∷ 5 ∷ 5 ∷ 5 ∷ 5 ∷ 6 ∷ 6 ∷ 6 ∷ 6 ∷ 6 ∷ 6 ∷ 6
    ∷ 6 ∷ 6 ∷ 6 ∷ 6 ∷ 6 ∷ 6 ∷ 6 ∷ 6 ∷ 6 ∷ 6 ∷ 6 ∷ 6 ∷ 6 ∷ 6 ∷ 6 ∷ 6 ∷ 6 ∷ 6 ∷ 6 ∷ 6 ∷ 6 ∷ 6 ∷ 6 ∷ 6
    ∷ 6 ∷ 6 ∷ 6 ∷ 6 ∷ 6 ∷ 6 ∷ 6 ∷ 6 ∷ 6 ∷ 6 ∷ 6 ∷ 6 ∷ 6 ∷ 6 ∷ 6 ∷ 6 ∷ 6 ∷ 6 ∷ 6 ∷ 6 ∷ 6 ∷ 6 ∷ 6 ∷ 6
    ∷ 6 ∷ 6 ∷ 6 ∷ 6 ∷ 6 ∷ 6 ∷ 6 ∷ 6 ∷ 6 ∷ 7 ∷ 7 ∷ 7 ∷ 7 ∷ 7 ∷ 7 ∷ 7 ∷ 7 ∷ 7 ∷ 7 ∷ 7 ∷ 7 ∷ 7 ∷ 7 ∷ 7
    ∷ 7 ∷ 7 ∷ 7 ∷ 7 ∷ 7 ∷ 7 ∷ 7 ∷ 7 ∷ 7 ∷ 7 ∷ 7 ∷ 7 ∷ 7 ∷ 7 ∷ 7 ∷ 7 ∷ 7 ∷ 7 ∷ 7 ∷ 7 ∷ 7 ∷ 7 ∷ 7 ∷ 7
    ∷ 7 ∷ 7 ∷ 7 ∷ 7 ∷ 7 ∷ 7 ∷ 7 ∷ 7 ∷ 7 ∷ 7 ∷ 7 ∷ 7 ∷ 7 ∷ 7 ∷ 7 ∷ 7 ∷ 7 ∷ 7 ∷ 7 ∷ 7 ∷ 7 ∷ 7 ∷ 7 ∷ 7
    ∷ 7 ∷ 7 ∷ 7 ∷ 7 ∷ 7 ∷ 7 ∷ 7 ∷ 7 ∷ 7 ∷ 7 ∷ 7 ∷ 7 ∷ 7 ∷ 7 ∷ 7 ∷ 7 ∷ 7 ∷ 7 ∷ 7 ∷ 7 ∷ 7 ∷ 7 ∷ 7 ∷ 7
    ∷ 7 ∷ 7 ∷ 7 ∷ 7 ∷ 7 ∷ 7 ∷ 7 ∷ 7 ∷ 7 ∷ 7 ∷ 7 ∷ 7 ∷ 7 ∷ 7 ∷ 7 ∷ 7 ∷ 7 ∷ 7 ∷ 7 ∷ 7 ∷ 7 ∷ 7 ∷ 7 ∷ 7
    ∷ 7 ∷ 7 ∷ 7 ∷ 7 ∷ 7 ∷ 7 ∷ 7 ∷ 7 ∷ 7 ∷ 7 ∷ 7 ∷ 7 ∷ 7 ∷ 7 ∷ 7 ∷ 7 ∷ 7 ∷ []

-- `table[w]`; the index is a byte wherever the kernel is well formed.
unfoldable pub table : ℕ → ℕ
unfolding entries
table w = get_or entries w no_entry

is_highest : ℕ → Bool
is_highest w =
    (w == 0)
    || (ltb (table w) 8
        && bit w (table w)
        && every_below 8 (λ j. not (ltb (table w) j) || not (bit w j)))

every_is_highest : every_below 256 is_highest ≡ true
unfolding every_below is_highest table
every_is_highest = refl

and_parts : (a b : Bool) → (a && b) ≡ true → (a ≡ true) × (b ≡ true)
and_parts a b h = ground arith

-- The table gives the highest bit of every byte but 0.
pub table-highest :
    (w : ℕ)
    → w < 256
    → w ≢ 0
    → (table w < 8) × (bit w (table w) ≡ true) × ((j : ℕ) → table w < j → j < 8 → bit w j ≡ false)
unfolding is_highest
table-highest w h ne = (
  ground (arith, parts),
  ground (arith, parts),
  λ j lt small.
      ground
        (arith, every_below-at 8 (λ j. not (ltb (table w) j) || not (bit w j)) j none_above small),
)
  where
    parts :
        (ltb (table w) 8
          && bit w (table w)
          && every_below 8 (λ j. not (ltb (table w) j) || not (bit w j)))
        ≡ true
    parts = ground (arith, every_below-at 256 is_highest w every_is_highest h)

    none_above : every_below 8 (λ j. not (ltb (table w) j) || not (bit w j)) ≡ true
    none_above =
        (and_parts (ltb (table w) 8 && bit w (table w))
          (every_below 8 (λ j. not (ltb (table w) j) || not (bit w j))) parts).1

pub table-zero : table 0 ≡ no_entry
unfolding table
table-zero = refl

every_bit_or :
    every_below 256 (λ w. every_below 8 (λ p.
      every_below 8 (λ i.
        agree (bit (bit_or w (2 ^ p)) i) ((i == p) || bit w i) && ltb (bit_or w (2 ^ p)) 256)))
    ≡ true
unfolding every_below
every_bit_or = refl

every_bit_and :
    every_below 256 (λ w. every_below 8 (λ p. every_below 8 (λ i.
      agree (bit (bit_and w (2 ^ 32 - 1 - 2 ^ p)) i) (not (i == p) && bit w i)
      && ltb (bit_and w (2 ^ 32 - 1 - 2 ^ p)) 256)))
    ≡ true
unfolding every_below
every_bit_and = refl

pub bit-bit_or :
    (w p i : ℕ)
    → w < 256
    → p < 8
    → i < 8
    → (bit (bit_or w (2 ^ p)) i ≡ ((i == p) || bit w i)) × (bit_or w (2 ^ p) < 256)
bit-bit_or w p i hw hp hi = (agree-eq _ _ parts.0, ltb→lt _ _ parts.1)
  where
    parts :
        (agree (bit (bit_or w (2 ^ p)) i) ((i == p) || bit w i) ≡ true)
        × (ltb (bit_or w (2 ^ p)) 256 ≡ true)
    parts =
        and_parts _ _ (
          every_below-at 8 _ i (every_below-at 8 _ p (every_below-at 256 _ w every_bit_or hw) hp)
            hi)

pub bit-bit_and :
    (w p i : ℕ)
    → w < 256
    → p < 8
    → i < 8
    → (bit (bit_and w (2 ^ 32 - 1 - 2 ^ p)) i ≡ (not (i == p) && bit w i))
      × (bit_and w (2 ^ 32 - 1 - 2 ^ p) < 256)
bit-bit_and w p i hw hp hi = (agree-eq _ _ parts.0, ltb→lt _ _ parts.1)
  where
    parts :
        (agree (bit (bit_and w (2 ^ 32 - 1 - 2 ^ p)) i) (not (i == p) && bit w i) ≡ true)
        × (ltb (bit_and w (2 ^ 32 - 1 - 2 ^ p)) 256 ≡ true)
    parts = and_parts _ _ (
        every_below-at 8 _ i (every_below-at 8 _ p (every_below-at 256 _ w every_bit_and hw) hp) hi)

log2_at : ℕ → Bool
log2_at w = (w == 0) || (leb (2 ^ table w) w && ltb w (2 ^ (table w + 1)))

log2_everywhere : every_below 256 log2_at ≡ true
unfolding every_below log2_at table
log2_everywhere = refl

-- For every byte but 0 the table holds the number of its highest set bit.
pub table-log2 : (w : ℕ) → w < 256 → w ≢ 0 → (2 ^ table w ≤ w) × (w < 2 ^ (table w + 1))
unfolding log2_at
table-log2 w h ne = ground (arith, every_below-at 256 log2_at w log2_everywhere h)
