-- ===== src/Net/Udp/Checksum.antt =====
-- The checksum of a UDP struct of kernel/udp.c: its field does not matter, nor what stands behind.
use tos_sfsu_fall.Base.{
  ℕ, zero, suc, ◌+◌, ◌-◌, ◌*◌, ◌/◌, ◌%◌, ◌^◌, ◌≤◌, ◌<◌, ◌≡◌, refl, ap, ◌∙◌, true, [], ◌∷◌, ◌++◌,
  ◌==◌, get_or, length, arith, Bool-cases, inl, inr,
}
use tos_sfsu_fall.Net.Bytes.{Buffer, htons}
use tos_sfsu_fall.Net.Ip.{fold_all, ip_proto_udp}
use tos_sfsu_fall.Net.Ip.Checksum.{all_bytes, load-bound, get_or-bound, total, sum_words_v2-total}
use tos_sfsu_fall.Net.Udp.Sum.{fields, tail_byte, sum_struct-total, fold_all-ones}
use tos_sfsu_fall.Net.Udp.{Udp, udp_layout, pseudo_header, sum_struct, udp_checksum}

get_or-append : (a b : Buffer) (i : ℕ) → i < length a → get_or (a ++ b) i 0 ≡ get_or a i 0
get_or-append [] b i h = absurd (omega (arith, h))
get_or-append (x ∷ a) b zero h = refl
get_or-append (x ∷ a) b (suc i) h = get_or-append a b i (omega (arith, h))

total-append : (a b : Buffer) (n i : ℕ) → i + 2 * n ≤ length a → total (a ++ b) n i ≡ total a n i
unfolding total
total-append a b zero i h = refl
total-append a b (suc n) i h = omega (
  arith,
  get_or-append a b i (omega (arith, h)),
  get_or-append a b (i + 1) (omega (arith, h)),
  total-append a b n (i + 2) (omega (arith, h)),
)

all_bytes-fields :
    (a b l c : ℕ) (rest : Buffer)
    → a < 2 ^ 16
    → b < 2 ^ 16
    → l < 2 ^ 16
    → c < 2 ^ 16
    → all_bytes rest ≡ true
    → all_bytes (fields a b l c rest) ≡ true
all_bytes-fields a b l c rest ha hb hl hc hr = ground (arith, ha, hb, hl, hc, hr)

all_bytes-append :
    (a b : Buffer) → all_bytes a ≡ true → all_bytes b ≡ true → all_bytes (a ++ b) ≡ true
all_bytes-append [] b ha hb = hb
all_bytes-append (x ∷ a) b ha hb = ground (arith, ha, all_bytes-append a b, hb)

-- The fields of a UDP struct are words, and its length is that of the payload.
pub record IsUdp (u : Udp) : Type 0 where
  pub src_port : u.src_port < 2 ^ 16
  pub dst_port : u.dst_port < 2 ^ 16
  pub len : u.len < 2 ^ 16
  pub size : htons u.len ≡ length u.payload + 8
  pub fits : length u.payload ≤ 250
  pub bytes : all_bytes u.payload ≡ true

-- What is summed, without the checksum field.
content : Udp → (src dst : Buffer) → ℕ
content u src dst =
    u.src_port
    + u.dst_port
    + u.len
    + (total u.payload ((length u.payload + 8) / 2 - 4) 0
        + tail_byte u.payload (length u.payload + 8))
    + pseudo_header src dst u.len

sum-content :
    (beyond : Buffer) (u : Udp) (src dst : Buffer) (c : ℕ)
    → IsUdp u
    → all_bytes beyond ≡ true
    → c < 2 ^ 16
    → sum_struct (udp_layout (record u { checksum = c }) ++ beyond) (htons u.len)
        + pseudo_header src dst u.len
      ≡ content u src dst + c
unfolding content
sum-content beyond u src dst c i hb hc =
    let rest = u.payload ++ beyond in
    let whole =
      ap (sum_struct (fields u.src_port u.dst_port u.len c rest)) i.size
      ∙ sum_struct-total u.src_port u.dst_port u.len c rest (length u.payload + 8)
          (all_bytes-fields u.src_port u.dst_port u.len c rest i.src_port i.dst_port i.len hc
            (all_bytes-append u.payload beyond i.bytes hb))
          (omega arith) (omega (arith, i.fits)) in
    let words = total-append u.payload beyond ((length u.payload + 8) / 2 - 4) 0 (omega arith) in
    omega (arith, whole, words, tail)
  where
    tail :
        tail_byte (u.payload ++ beyond) (length u.payload + 8)
        ≡ tail_byte u.payload (length u.payload + 8)
    tail = elim (Bool-cases ((length u.payload + 8) % 2 == 1)) [
      | inl e ↦ rw e (get_or-append u.payload beyond (length u.payload + 8 - 9) (ground (arith, e)))
      | inr e ↦ rw e refl
    ]

protocol_word : htons ip_proto_udp ≡ 0x1100
unfolding htons
protocol_word = refl

content-bound :
    (u : Udp) (src dst : Buffer)
    → IsUdp u
    → all_bytes src ≡ true
    → all_bytes dst ≡ true
    → (1 ≤ content u src dst) × (content u src dst < 2 ^ 30)
unfolding content
content-bound u src dst i hs hd =
    let words =
      (sum_words_v2-total u.payload ((length u.payload + 8) / 2 - 4) 0 0 i.bytes
        (omega (arith, i.fits))).1 in
    let protocol = protocol_word in
    let last : tail_byte u.payload (length u.payload + 8) < 256 =
      ground (arith, get_or-bound u.payload (length u.payload + 8 - 9) i.bytes) in
    let a = load-bound src 0 hs in
    let b = load-bound src 2 hs in
    let c = load-bound dst 0 hd in
    let d = load-bound dst 2 hd in
    (
      omega (arith, protocol),
      omega (arith, protocol, last, words, a, b, c, d, i.src_port, i.dst_port, i.len, i.fits),
    )

-- For a struct with byte values, a payload of at most 250 bytes and a matching length, the checksum
-- is the same while its field is 0 and while it is not, and whatever stands behind the struct.
pub udp_checksum-field :
    (beyond beyond' : Buffer) (u : Udp) (src dst : Buffer) (c : ℕ)
    → IsUdp u
    → all_bytes beyond ≡ true
    → all_bytes beyond' ≡ true
    → all_bytes src ≡ true
    → all_bytes dst ≡ true
    → udp_checksum beyond' (record u { checksum = c }) src dst
      ≡ udp_checksum beyond (record u { checksum = 0 }) src dst
unfolding udp_checksum
udp_checksum-field beyond beyond' u src dst c i hb hb' hs hd = elim (Bool-cases (c == 0)) [
  | inl e ↦
      rw
        (
          e,
          sum-content beyond u src dst 0 i hb (omega arith),
          sum-content beyond' u src dst 0 i hb' (omega arith),
        )
        refl
  | inr e ↦
      let (least, most) = content-bound u src dst i hs hd in
      rw
        (
          e,
          sum-content beyond u src dst 0 i hb (omega arith),
          sum-content beyond' u src dst 0xffff i hb' (omega arith),
        )
        (ap (λ f. 2 ^ 16 - 1 - f)
          (fold_all-ones (content u src dst) least (omega (arith, most))
            ∙ ap (λ t. fold_all 2 (t % 2 ^ 32)) {x = content u src dst} {y = content u src dst + 0}
                (omega arith)))
]
