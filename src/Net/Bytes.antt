-- ===== src/Net/Bytes.antt =====
-- The helpers of include/nll.h: byte order, copies and comparisons of bytes, character tests.
--
-- A buffer or an array is the list of its bytes; a read behind its end gives 0.
use tos_sfsu_fall.Base.{
  ℕ, zero, suc, ◌+◌, ◌*◌, ◌/◌, ◌%◌, ◌^◌, ◌<◌, ◌≤◌, ◌≡◌, refl, Bool, true, false, ◌&&◌, List, [],
  ◌∷◌, arith, leb, ◌==◌, if◌then◌else◌, bit_and, bit_or, every_below, every_below-at, ==_iff,
  get_or, take, drop, length, Bool-cases, inl, inr, ◌≢◌,
}

abbrev pub Buffer : Type 0
Buffer = List ℕ

abbrev pub eth_addr_len : ℕ
eth_addr_len = 6

abbrev pub ip_len : ℕ
ip_len = 4

abbrev pub eth_head_len : ℕ
eth_head_len = 14

-- `htons_tos`, and `ntohs_tos` with the same body.
unfoldable pub htons : ℕ → ℕ
htons n = bit_or (bit_and n 0xff00 / 2 ^ 8) (bit_and n 0x00ff * 2 ^ 8)

-- The load of an `u_int16_t`, little end first, and the two bytes of such a value.
abbrev pub load : Buffer → ℕ → ℕ
load b i = get_or b i 0 + 2 ^ 8 * get_or b (i + 1) 0

abbrev pub store : ℕ → Buffer
store n = n % 2 ^ 8 ∷ n / 2 ^ 8 ∷ []

-- The bytes that `memcpy_tos` copies from an offset of a buffer.
abbrev pub slice : Buffer → (offset len : ℕ) → Buffer
slice b offset len = take len (drop offset b)

-- `memcmp_tos`; it is called on arrays of at least `size` bytes.
unfoldable pub memcmp : Buffer → Buffer → (size : ℕ) → Bool
memcmp p1 p2 zero = true
memcmp [] p2 (suc size) = false
memcmp (x ∷ p1) [] (suc size) = false
memcmp (x ∷ p1) (y ∷ p2) (suc size) = if x == y then memcmp p1 p2 size else false

unfoldable pub is_digit : ℕ → Bool
is_digit c = leb 0x30 c && leb c 0x39

unfoldable pub is_ascii : ℕ → Bool
is_ascii c = leb c 0x7f

unfoldable pub is_space : ℕ → Bool
is_space c = c == 0x20

swaps : ℕ → Bool
swaps n = htons n == (n % 2 ^ 8) * 2 ^ 8 + n / 2 ^ 8

every_swaps : every_below 65536 swaps ≡ true
unfolding every_below swaps htons
every_swaps = refl

-- `htons_tos` exchanges the two bytes of a word.
pub htons_lem : (n : ℕ) → n < 2 ^ 16 → htons n ≡ (n % 2 ^ 8) * 2 ^ 8 + n / 2 ^ 8
unfolding swaps
htons_lem n h = (==_iff _ _).0 (every_below-at 65536 swaps n every_swaps h)

-- On words of 16 bits `htons_tos` is its own inverse.
pub htons-htons : (n : ℕ) → n < 2 ^ 16 → htons (htons n) ≡ n
htons-htons n h = ground (arith, htons_lem n h, htons_lem (htons n))

pub htons-bound : (n : ℕ) → n < 2 ^ 16 → htons n < 2 ^ 16
htons-bound n h = ground (arith, htons_lem n h)

pub load-store : (n : ℕ) → n % 2 ^ 8 + 2 ^ 8 * (n / 2 ^ 8) ≡ n
load-store n = omega arith

-- Two arrays of the compared length are found equal just when they are.
pub memcmp-eq : (a b : Buffer) (n : ℕ) → length a ≡ n → length b ≡ n → memcmp a b n ≡ true → a ≡ b
unfolding memcmp
memcmp-eq [] [] n ha hb same = refl
memcmp-eq [] (y ∷ b) n ha hb same = ground arith
memcmp-eq (x ∷ a) [] n ha hb same = ground arith
memcmp-eq (x ∷ a) (y ∷ b) zero ha hb same = ground arith
memcmp-eq (x ∷ a) (y ∷ b) (suc n) ha hb same = ground (arith, memcmp-eq a b n)

pub memcmp-ne : (a b : Buffer) (n : ℕ) → length a ≡ n → length b ≡ n → a ≢ b → memcmp a b n ≡ false
memcmp-ne a b n ha hb ne = elim (Bool-cases (memcmp a b n)) [
  | inl m ↦ absurd (ne (memcmp-eq a b n ha hb m))
  | inr m ↦ m
]

pub memcmp_refl : (a : Buffer) (n : ℕ) → n ≤ length a → memcmp a a n ≡ true
unfolding memcmp
memcmp_refl a zero h = refl
memcmp_refl [] (suc n) h = ground arith
memcmp_refl (x ∷ a) (suc n) h = ground (arith, memcmp_refl a n)

-- An address as the list of its bytes.
pub mac_bytes : (a : Buffer) → length a ≡ 6 → (b c d e f g : ℕ) × (a ≡ b ∷ c ∷ d ∷ e ∷ f ∷ g ∷ [])
mac_bytes [] h = ground arith
mac_bytes (b ∷ []) h = ground arith
mac_bytes (b ∷ c ∷ []) h = ground arith
mac_bytes (b ∷ c ∷ d ∷ []) h = ground arith
mac_bytes (b ∷ c ∷ d ∷ e ∷ []) h = ground arith
mac_bytes (b ∷ c ∷ d ∷ e ∷ f ∷ []) h = ground arith
mac_bytes (b ∷ c ∷ d ∷ e ∷ f ∷ g ∷ []) h = (b, c, d, e, f, g, refl)
mac_bytes (b ∷ c ∷ d ∷ e ∷ f ∷ g ∷ x ∷ xs) h = ground arith

pub ip_bytes : (a : Buffer) → length a ≡ 4 → (b c d e : ℕ) × (a ≡ b ∷ c ∷ d ∷ e ∷ [])
ip_bytes [] h = ground arith
ip_bytes (b ∷ []) h = ground arith
ip_bytes (b ∷ c ∷ []) h = ground arith
ip_bytes (b ∷ c ∷ d ∷ []) h = ground arith
ip_bytes (b ∷ c ∷ d ∷ e ∷ []) h = (b, c, d, e, refl)
ip_bytes (b ∷ c ∷ d ∷ e ∷ x ∷ xs) h = ground arith
