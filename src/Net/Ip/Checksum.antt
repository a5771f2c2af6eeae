-- ===== src/Net/Ip/Checksum.antt =====
-- The checksums of kernel/ip.c.
use tos_sfsu_fall.Base.{
  ℕ, zero, suc, ◌+◌, ◌-◌, ◌*◌, ◌/◌, ◌%◌, ◌^◌, ◌<◌, ◌≤◌, ◌≡◌, refl, ◌∙◌, Bool, true, false, [], ◌∷◌,
  ◌++◌, ◌==◌, ltb, leb, get_or, arith, length, ap, ◌&&◌,
}
use tos_sfsu_fall.Net.Bytes.{Buffer, load, ip_bytes}
use tos_sfsu_fall.Net.Ip.{
  Ip, ip_layout, fold_all, sum_words, sum_words_v2, ip_checksum, ip_checksum_v2,
}

-- The fuel is enough: after two folds the loop is at its end.
pub fold_all-bound : (sum : ℕ) → sum < 2 ^ 32 → fold_all 2 sum < 2 ^ 16
unfolding fold_all
fold_all-bound sum h = ground arith

-- The result differs from the sum by a multiple of 65535.
fold_all-mod : (sum : ℕ) → sum < 2 ^ 32 → fold_all 2 sum % 65535 ≡ sum % 65535
unfolding fold_all
fold_all-mod sum h = ground arith

-- The first fold of `ip_checksum_v2`.
abbrev carried : ℕ → ℕ
carried sum = sum / 2 ^ 16 + sum % 2 ^ 16

fold_all-twice :
    (sum : ℕ)
    → sum < 2 ^ 31
    → fold_all 2 sum ≡ (carried sum + carried sum / 2 ^ 16) % 2 ^ 32 % 2 ^ 16
unfolding fold_all
fold_all-twice sum h = ground arith

-- Bytes are below 256.
abbrev pub all_bytes : Buffer → Bool
all_bytes [] = true
all_bytes (x ∷ xs) = ltb x 256 && all_bytes xs

pub get_or-bound : (b : Buffer) (i : ℕ) → all_bytes b ≡ true → get_or b i 0 < 256
get_or-bound [] i h = ground arith
get_or-bound (x ∷ b) zero h = ground arith
get_or-bound (x ∷ b) (suc i) h = get_or-bound b i (ground (arith, h))

pub load-bound : (b : Buffer) (i : ℕ) → all_bytes b ≡ true → load b i < 2 ^ 16
load-bound b i h = omega (arith, get_or-bound b i h, get_or-bound b (i + 1) h)

-- As long as the sum stays small, the two loops do the same.
pub sum_words-v2 :
    (mem : Buffer) (n i sum : ℕ)
    → all_bytes mem ≡ true
    → sum + n * 2 ^ 16 < 2 ^ 31
    → (sum_words mem n i sum ≡ sum_words_v2 mem n i sum) × (sum_words mem n i sum < 2 ^ 31)
unfolding sum_words sum_words_v2
sum_words-v2 mem zero i sum h small = (refl, omega arith)
sum_words-v2 mem (suc n) i sum h small =
    rw not_high
      (sum_words-v2 mem n (i + 2) ((sum + load mem i) % 2 ^ 32) h (omega (arith, word, small)))
  where
    word : load mem i < 2 ^ 16
    word = load-bound mem i h

    not_high : leb (2 ^ 31) ((sum + load mem i) % 2 ^ 32) ≡ false
    not_high = ground (arith, word, small)

finish :
    (mem : Buffer) (n : ℕ)
    → all_bytes mem ≡ true
    → n < 2 ^ 14
    → fold_all 2 (sum_words mem n 0 0)
      ≡ (carried (sum_words_v2 mem n 0 0) + carried (sum_words_v2 mem n 0 0) / 2 ^ 16)
        % 2 ^ 32
        % 2 ^ 16
finish mem n h few =
    let (same, bound) = sum_words-v2 mem n 0 0 h (omega (arith, few)) in
    fold_all-twice (sum_words mem n 0 0) bound ∙ rw same refl

-- For byte values and a header length of four bits, `ip_checksum` and `ip_checksum_v2` give the
-- same checksum; the second one leaves 0 in the header.
pub ip_checksum-v2 :
    (beyond : Buffer) (ip : Ip)
    → ip.hdr_len < 16
    → all_bytes (ip_layout (record ip { checksum = 0 }) ++ beyond) ≡ true
    → ip_checksum_v2 beyond ip ≡ (ip_checksum beyond ip, record ip { checksum = 0 })
unfolding ip_checksum ip_checksum_v2
ip_checksum-v2 beyond ip short bytes =
    rw
      (
        even,
        finish (ip_layout (record ip { checksum = 0 }) ++ beyond) (ip.hdr_len * 4 / 2) bytes
            (omega (arith, short)),
      )
      refl
  where
    even : (ip.hdr_len * 4 % 2 == 1) ≡ false
    even = ground arith

-- The sum of `n` words from `i` on, without wrap-around.
unfoldable pub total : Buffer → (n i : ℕ) → ℕ
total mem zero i = 0
total mem (suc n) i = load mem i + total mem n (i + 2)

-- The sum of the words of a header of 20 bytes, its checksum field included.
abbrev pub header_sum : Ip → ℕ
header_sum ip = total (ip_layout ip) 10 0

pub sum_words_v2-total :
    (mem : Buffer) (n i sum : ℕ)
    → all_bytes mem ≡ true
    → sum + n * 2 ^ 16 < 2 ^ 31
    → (sum_words_v2 mem n i sum ≡ sum + total mem n i) × (total mem n i ≤ n * 2 ^ 16)
unfolding sum_words_v2 total
sum_words_v2-total mem zero i sum h small = (omega arith, omega arith)
sum_words_v2-total mem (suc n) i sum h small = omega (
  arith,
  small,
  load-bound mem i h,
  sum_words_v2-total mem n (i + 2) ((sum + load mem i) % 2 ^ 32) h
      (omega (arith, small, load-bound mem i h)),
)

-- A sum and the complement of its fold add up to a multiple of all ones, and not to 0.
complement :
    (t : ℕ)
    → t < 2 ^ 22
    → ((t + (2 ^ 16 - 1 - fold_all 2 t)) % 65535 ≡ 0) × (0 < t + (2 ^ 16 - 1 - fold_all 2 t))
unfolding fold_all
complement t h = (ground arith, ground arith)

abbrev pub with_checksum : Ip → ℕ → Ip
with_checksum ip c = record ip { checksum = c }

module _ (beyond : Buffer) (ip : Ip) (hs : length ip.src ≡ 4) (hd : length ip.dst ≡ 4)
    (bytes : all_bytes (ip_layout (with_checksum ip 0) ++ beyond) ≡ true) where
  abbrev mem : Buffer
  mem = ip_layout (with_checksum ip 0) ++ beyond

  total-checksum : (c : ℕ) → total (ip_layout (with_checksum ip c)) 10 0 ≡ total mem 10 0 + c
  unfolding total
  total-checksum c =
      let (m, o, p, q, eqs) = ip_bytes ip.src hs in
      let (r, s, t, u, eqd) = ip_bytes ip.dst hd in rw (eqs, eqd) (omega arith)

  checksum-words :
      ip_checksum beyond ip ≡ 2 ^ 16 - 1 - fold_all 2 (sum_words mem (ip.hdr_len * 4 / 2) 0 0)
  unfolding ip_checksum
  checksum-words = rw even refl
    where
      even : (ip.hdr_len * 4 % 2 == 1) ≡ false
      even = ground arith

  words-total : sum_words mem 10 0 0 ≡ total mem 10 0
  words-total =
      (sum_words-v2 mem 10 0 0 bytes (omega arith)).0
      ∙ (sum_words_v2-total mem 10 0 0 bytes (omega arith)).0
      ∙ omega arith

  checksum-total : ip.hdr_len ≡ 5 → ip_checksum beyond ip ≡ 2 ^ 16 - 1 - fold_all 2 (total mem 10 0)
  checksum-total five =
      checksum-words
      ∙ ap (λ n. 2 ^ 16 - 1 - fold_all 2 (sum_words mem n 0 0)) (omega (arith, five))
      ∙ ap (λ w. 2 ^ 16 - 1 - fold_all 2 w) words-total

  -- For a header of 20 bytes, of byte values, the words of the header with its checksum filled in
  -- add up to a multiple of 2 ^ 16 - 1 other than 0, which is all ones in the arithmetic of ones'
  -- complement: the rule of the Internet checksum.
  pub ip_checksum-valid :
      ip.hdr_len ≡ 5
      → (header_sum (with_checksum ip (ip_checksum beyond ip)) % 65535 ≡ 0)
        × (0 < header_sum (with_checksum ip (ip_checksum beyond ip)))
  ip_checksum-valid five =
      rw (checksum-total five, total-checksum (2 ^ 16 - 1 - fold_all 2 (total mem 10 0)))
        (complement (total mem 10 0)
          (omega (arith, (sum_words_v2-total mem 10 0 0 bytes (omega arith)).1)))
