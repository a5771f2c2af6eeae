-- ===== src/Net/Udp/Sum.antt =====
-- The checksum of kernel/udp.c does not depend on whether its field is 0 or all ones.
use tos_sfsu_fall.Base.{
  ℕ, zero, suc, ◌+◌, ◌-◌, ◌*◌, ◌/◌, ◌%◌, ◌^◌, ◌≤◌, ◌<◌, ◌≡◌, refl, ap, ◌∙◌, true, ◌++◌, ◌==◌,
  if◌then◌else◌, get_or, arith,
}
use tos_sfsu_fall.Net.Bytes.{Buffer, load, store}
use tos_sfsu_fall.Net.Ip.{fold_all}
use tos_sfsu_fall.Net.Ip.Checksum.{all_bytes, total, sum_words-v2, sum_words_v2-total}
use tos_sfsu_fall.Net.Udp.{sum_struct}

-- A struct with four words in front.
abbrev pub fields : (a b l c : ℕ) → Buffer → Buffer
fields a b l c rest = store a ++ store b ++ store l ++ store c ++ rest

load-fields :
    (a b l c : ℕ) (rest : Buffer) (i : ℕ)
    → load (fields a b l c rest) (suc (suc (suc (suc (suc (suc (suc (suc i)))))))) ≡ load rest i
load-fields a b l c rest i =
    ap (λ k. get_or rest i 0 + 2 ^ 8 * get_or (fields a b l c rest) k 0)
      {x = suc (suc (suc (suc (suc (suc (suc (suc i))))))) + 1}
      {y = suc (suc (suc (suc (suc (suc (suc (suc (i + 1))))))))} (omega arith)

total-fields :
    (a b l c : ℕ) (rest : Buffer) (n i : ℕ)
    → total (fields a b l c rest) n (suc (suc (suc (suc (suc (suc (suc (suc i))))))))
      ≡ total rest n i
unfolding total
total-fields a b l c rest zero i = refl
total-fields a b l c rest (suc n) i =
    let moved =
      ap (total (fields a b l c rest) n) {x = suc (suc (suc (suc (suc (suc (suc (suc i))))))) + 2}
        {y = suc (suc (suc (suc (suc (suc (suc (suc (i + 2))))))))} (omega arith)
      ∙ total-fields a b l c rest n (i + 2) in
    omega (arith, load-fields a b l c rest i, moved)

total_of :
    (a b l c : ℕ) (rest : Buffer) (m : ℕ)
    → total (fields a b l c rest) (suc (suc (suc (suc m)))) 0 ≡ a + b + l + c + total rest m 0
unfolding total
total_of a b l c rest m = omega (arith, total-fields a b l c rest m 0)

-- As numbers: the words of the struct, and its last byte.
abbrev pub tail_byte : Buffer → ℕ → ℕ
tail_byte rest len = if len % 2 == 1 then get_or rest (len - 9) 0 else 0

pub sum_struct-total :
    (a b l c : ℕ) (rest : Buffer) (len : ℕ)
    → all_bytes (fields a b l c rest) ≡ true
    → 8 ≤ len
    → len < 2 ^ 14
    → sum_struct (fields a b l c rest) len
      ≡ a + b + l + c + (total rest (len / 2 - 4) 0 + tail_byte rest len)
unfolding sum_struct
sum_struct-total a b l c rest len bytes least most =
    let loop =
      (sum_words-v2 (fields a b l c rest) (len / 2) 0 0 bytes (omega arith)).0
      ∙ (sum_words_v2-total (fields a b l c rest) (len / 2) 0 0 bytes (omega arith)).0
      ∙ ap (λ n. 0 + total (fields a b l c rest) n 0) {x = len / 2}
          {y = suc (suc (suc (suc (len / 2 - 4))))} (omega arith)
      ∙ ap (λ t. 0 + t) (total_of a b l c rest (len / 2 - 4)) in
    ground (arith, loop, last)
  where
    last : len % 2 ≡ 1 → get_or (fields a b l c rest) (len - 1) 0 ≡ get_or rest (len - 9) 0
    last odd =
        ap (λ i. get_or (fields a b l c rest) i 0) {x = len - 1}
          {y = suc (suc (suc (suc (suc (suc (suc (suc (len - 9))))))))} (omega (arith, odd, least))

-- Adding all ones does not change the fold of a sum that is not 0.
pub fold_all-ones :
    (t : ℕ) → 1 ≤ t → t < 2 ^ 31 → fold_all 2 ((t + 0xffff) % 2 ^ 32) ≡ fold_all 2 (t % 2 ^ 32)
unfolding fold_all
fold_all-ones t least most = ground (arith, least, most)
