-- ===== src/Fat/Entry.antt =====
-- The entries of the file allocation table: what is set is read again, and nothing else changes.
use tos_sfsu_fall.Base.{
  ℕ, ◌+◌, ◌*◌, ◌/◌, ◌%◌, ◌^◌, ◌<◌, ◌≡◌, ◌≢◌, refl, false, ◌≤◌, ◌⊎◌, inl, inr, Bool-cases, ◌==◌, ltb,
  if◌then◌else◌, arith,
}
use tos_sfsu_fall.Kernel.Memory.{Memory, peek_w, peek_l, poke_w, poke_l, peek_l-poke_l}
use tos_sfsu_fall.Fat.{
  FatType, fat12, fat16, fat32, Volume, entry, entry_offset, put_entry, fs_get_fat_cluster_entry,
  fs_set_fat_cluster_entry,
}

-- The table holds bytes.
abbrev pub IsBytes : Memory → Type 0
IsBytes m = (a : ℕ) → m a < 2 ^ 8

-- What an entry keeps of a value: 12, 16 or 28 bits, the last with the 4 bits of the old entry.
abbrev pub stored : FatType → (old value : ℕ) → ℕ
stored fat12 old value = value % 2 ^ 12
stored fat16 old value = value % 2 ^ 16
stored fat32 old value = value % 2 ^ 28 + old / 2 ^ 28 * 2 ^ 28

-- A word after another has been written: the same, one that shares a byte with it, or neither.
peek_w-poke_w_at :
    (m : Memory) (a b v : ℕ)
    → peek_w (poke_w m a v) b ≡ (
        if a == b
        then v % 2 ^ 16
        else if b == a + 1
        then v / 2 ^ 8 % 2 ^ 8 + 2 ^ 8 * m (b + 1)
        else if a == b + 1
        then m b + 2 ^ 8 * (v % 2 ^ 8)
        else peek_w m b)
unfolding peek_w poke_w
peek_w-poke_w_at m a b v = ground arith

peek_w_lem : (m : Memory) (a : ℕ) → peek_w m a ≡ m a + 2 ^ 8 * m (a + 1)
unfolding peek_w
peek_w_lem m a = refl

peek_l-poke_l_other :
    (m : Memory) (a b v : ℕ) → (a + 4 ≤ b) ⊎ (b + 4 ≤ a) → peek_l (poke_l m a v) b ≡ peek_l m b
unfolding peek_l poke_l
peek_l-poke_l_other m a b v (inl h) = ground arith
peek_l-poke_l_other m a b v (inr h) = ground arith

-- Entries of 12 bits: two of them may share a byte.
module _ (fat : Memory) (c value e : ℕ) (b : IsBytes fat) where
  abbrev odd_value : ℕ
  odd_value = value * 2 ^ 4 % 2 ^ 32 + peek_w fat (c + c / 2) % 2 ^ 4

  abbrev even_value : ℕ
  even_value = value % 2 ^ 12 + peek_w fat (c + c / 2) / 2 ^ 12 * 2 ^ 12

  odd_odd :
      c % 2 ≡ 1
      → e % 2 ≡ 1
      → peek_w (poke_w fat (c + c / 2) odd_value) (e + e / 2) / 2 ^ 4
        ≡ (if c == e then value % 2 ^ 12 else peek_w fat (e + e / 2) / 2 ^ 4)
  odd_odd h h' = ground (arith, peek_w-poke_w_at fat (c + c / 2) (e + e / 2) odd_value)

  odd_even :
      c % 2 ≡ 1
      → e % 2 ≡ 0
      → peek_w (poke_w fat (c + c / 2) odd_value) (e + e / 2) % 2 ^ 12
        ≡ peek_w fat (e + e / 2) % 2 ^ 12
  odd_even h h' = ground (
    arith,
    peek_w-poke_w_at fat (c + c / 2) (e + e / 2) odd_value,
    peek_w_lem fat (c + c / 2),
    peek_w_lem fat (e + e / 2),
    b (e + e / 2),
    b (c + c / 2),
  )

  even_odd :
      c % 2 ≡ 0
      → e % 2 ≡ 1
      → peek_w (poke_w fat (c + c / 2) even_value) (e + e / 2) / 2 ^ 4
        ≡ peek_w fat (e + e / 2) / 2 ^ 4
  even_odd h h' = ground (
    arith,
    peek_w-poke_w_at fat (c + c / 2) (e + e / 2) even_value,
    peek_w_lem fat (c + c / 2),
    peek_w_lem fat (e + e / 2),
    b (e + e / 2),
    b (c + c / 2),
  )

  even_even :
      c % 2 ≡ 0
      → e % 2 ≡ 0
      → peek_w (poke_w fat (c + c / 2) even_value) (e + e / 2) % 2 ^ 12
        ≡ (if c == e then value % 2 ^ 12 else peek_w fat (e + e / 2) % 2 ^ 12)
  even_even h h' = ground (arith, peek_w-poke_w_at fat (c + c / 2) (e + e / 2) even_value)

peek_l-lt : (m : Memory) (a : ℕ) → IsBytes m → peek_l m a < 2 ^ 32
unfolding peek_l
peek_l-lt m a b = omega (arith, b a, b (a + 1), b (a + 2), b (a + 3))

apart4 : (c e : ℕ) → c ≢ e → (c * 4 + 4 ≤ e * 4) ⊎ (e * 4 + 4 ≤ c * 4)
apart4 c e h = elim (Bool-cases (ltb c e)) [
  | inl l ↦ inl (ground arith)
  | inr g ↦ inr (ground arith)
]

pub entry-put_entry :
    (t : FatType) (fat : Memory) (c value e : ℕ)
    → IsBytes fat
    → c < 2 ^ 30
    → e < 2 ^ 30
    → entry t (put_entry t fat c value) e
      ≡ (if c == e then stored t (entry t fat c) value else entry t fat e)
entry-put_entry fat12 fat c value e b small small' =
    let same : (c + c / 2) % 2 ^ 32 ≡ c + c / 2 = omega arith in
    let same' : (e + e / 2) % 2 ^ 32 ≡ e + e / 2 = omega arith in
    unfold entry put_entry entry_offset in
    rw (same, same')
      (elim (Bool-cases (c % 2 == 1)) [
        | inl y ↦ rw y (elim (Bool-cases (e % 2 == 1)) [
          | inl y' ↦ rw y' (odd_odd fat c value e b (ground arith) (ground arith))
          | inr n' ↦
              (let ne : (c == e) ≡ false = ground arith in
                rw (n', ne) (odd_even fat c value e b (ground arith) (ground arith)))
        ])
        | inr n ↦ rw n (elim (Bool-cases (e % 2 == 1)) [
          | inl y' ↦
              (let ne : (c == e) ≡ false = ground arith in
                rw (y', ne) (even_odd fat c value e b (ground arith) (ground arith)))
          | inr n' ↦ rw n' (even_even fat c value e b (ground arith) (ground arith))
        ])
      ])
entry-put_entry fat16 fat c value e b small small' =
    unfold entry put_entry entry_offset peek_w poke_w in ground (arith, b (c * 2), b (c * 2 + 1))
entry-put_entry fat32 fat c value e b small small' =
    let o = c * 4 in
    let p = e * 4 in
    let same : o % 2 ^ 32 ≡ o = omega arith in
    let same' : p % 2 ^ 32 ≡ p = omega arith in
    let v = value % 2 ^ 28 + peek_l fat o / 2 ^ 28 * 2 ^ 28 in
    let word = peek_l-lt fat o b in
    unfold entry put_entry entry_offset in
    rw (same, same')
      (elim (Bool-cases (c == e)) [
        | inl y ↦
            (let q : c ≡ e = ground arith in
              rw (y, ← q) (peek_l-poke_l fat (c * 4) v (omega arith)))
        | inr n ↦ rw n (peek_l-poke_l_other fat (c * 4) (e * 4) v (apart4 c e (ground arith)))
      ])

-- In a table of bytes, `fs_set_fat_cluster_entry` stores the bits of the value that an entry of the
-- type has, and leaves all other entries as they were, also the neighbours that share a byte with it,
-- for clusters below 2 ^ 30.
pub get-set_fat_cluster_entry :
    (v : Volume) (c value e : ℕ)
    → IsBytes v.dev.fat
    → c < 2 ^ 30
    → e < 2 ^ 30
    → fs_get_fat_cluster_entry (fs_set_fat_cluster_entry v c value).dev e ≡ (
        if c == e
        then stored v.dev.fat_type (fs_get_fat_cluster_entry v.dev c) value
        else fs_get_fat_cluster_entry v.dev e)
unfolding fs_get_fat_cluster_entry fs_set_fat_cluster_entry
get-set_fat_cluster_entry v c value e b small small' =
    entry-put_entry v.dev.fat_type v.dev.fat c value e b small small'
