-- ===== src/Net/Ip.antt =====
-- kernel/ip.c: IP headers, their checksum, and the dotted notation of addresses.
--
-- `ip_checksum` sums as many bytes as the field `hdr_len` says, from the start of a struct of 20
-- bytes: `beyond` stands for what the memory holds behind this struct.
pub mod Checksum
pub mod Header
pub mod Dotted
use tos_sfsu_fall.Base.{
  ℕ, zero, suc, ◌+◌, ◌-◌, ◌*◌, ◌/◌, ◌%◌, ◌^◌, Bool, true, false, not, ◌&&◌, ◌||◌, List, [], ◌∷◌,
  ◌++◌, ◌==◌, ltb, leb, if◌then◌else◌, get_or, Option, none, some, length, drop,
}
use tos_sfsu_fall.Net.Bytes.{
  Buffer, load, store, slice, htons, eth_addr_len, ip_len, eth_head_len, is_digit, is_ascii,
  is_space,
}
use tos_sfsu_fall.Net.Arp.{ethertype_ip}

abbrev pub ip_head_min_len : ℕ
ip_head_min_len = 20

abbrev pub ip_proto_udp : ℕ
ip_proto_udp = 0x11

-- `IP`. The words are in network order.
pub record Ip : Type 0 where
  pub hdr_len : ℕ
  pub version : ℕ
  pub tos : ℕ
  pub len : ℕ
  pub id : ℕ
  pub offset : ℕ
  pub ttl : ℕ
  pub protocol : ℕ
  pub checksum : ℕ
  pub src : Buffer
  pub dst : Buffer

-- The header as it stands in memory: `hdr_len` is the low half of the first byte.
abbrev pub ip_layout : Ip → Buffer
ip_layout p =
    ((p.hdr_len + 2 ^ 4 * p.version) ∷ p.tos ∷ [])
    ++ store p.len
    ++ store p.id
    ++ store p.offset
    ++ (p.ttl ∷ p.protocol ∷ [])
    ++ store p.checksum
    ++ p.src
    ++ p.dst

-- `(sum & 0xFFFF) + (sum >> 16)`
abbrev pub fold_once : ℕ → ℕ
fold_once sum = sum % 2 ^ 16 + sum / 2 ^ 16

-- `while(sum>>16)`, at most `fuel` times.
unfoldable pub fold_all : ℕ → ℕ → ℕ
fold_all zero sum = sum
fold_all (suc fuel) sum =
    let rest = fold_all fuel (fold_once sum) in if sum / 2 ^ 16 == 0 then sum else rest

-- The loop over `n` words from offset `i` on, in a `long` of 32 bits.
unfoldable pub sum_words : Buffer → (n i sum : ℕ) → ℕ
sum_words mem zero i sum = sum
sum_words mem (suc n) i sum =
    let s = (sum + load mem i) % 2 ^ 32 in
    sum_words mem n (i + 2) (if leb (2 ^ 31) s then fold_once s else s)

-- The left-over byte is read from the start of the header.
unfoldable pub ip_checksum : Buffer → Ip → ℕ
ip_checksum beyond ip =
    let mem = ip_layout (record ip { checksum = 0 }) ++ beyond in
    let len = ip.hdr_len * 4 in
    let sum = sum_words mem (len / 2) 0 0 in
    let sum' = if len % 2 == 1 then (sum + get_or mem 0 0) % 2 ^ 32 else sum in
    2 ^ 16 - 1 - fold_all 2 sum'

-- The loop of `ip_checksum_v2`.
unfoldable pub sum_words_v2 : Buffer → (n i sum : ℕ) → ℕ
sum_words_v2 mem zero i sum = sum
sum_words_v2 mem (suc n) i sum = sum_words_v2 mem n (i + 2) ((sum + load mem i) % 2 ^ 32)

-- The checksum, and the header, whose own checksum is 0 from then on.
unfoldable pub ip_checksum_v2 : Buffer → Ip → ℕ × Ip
ip_checksum_v2 beyond ip =
    let ip₁ : Ip = record ip { checksum = 0 } in
    let mem = ip_layout ip₁ ++ beyond in
    let len = ip.hdr_len * 4 in
    let sum = sum_words_v2 mem (len / 2) 0 0 in
    let sum₁ = sum / 2 ^ 16 + sum % 2 ^ 16 in
    let sum₂ = (sum₁ + sum₁ / 2 ^ 16) % 2 ^ 32 in (2 ^ 16 - 1 - sum₂ % 2 ^ 16, ip₁)

-- The header that `is_ip_packet` reads, before its tests.
unfoldable pub read_ip : Buffer → Ip
read_ip buffer = record {
  hdr_len = get_or buffer eth_head_len 0 % 2 ^ 4;
  version = get_or buffer eth_head_len 0 / 2 ^ 4 % 2 ^ 4;
  tos = get_or buffer (eth_head_len + 1) 0;
  len = load buffer (eth_head_len + 2);
  id = load buffer (eth_head_len + 4);
  offset = load buffer (eth_head_len + 6);
  ttl = get_or buffer (eth_head_len + 8) 0;
  protocol = get_or buffer (eth_head_len + 9) 0;
  checksum = load buffer (eth_head_len + 10);
  src = slice buffer (eth_head_len + 12) ip_len;
  dst = slice buffer (eth_head_len + 16) ip_len;
}

unfoldable pub is_ip_packet : (beyond buffer : Buffer) → Option Ip
is_ip_packet beyond buffer =
    if not (htons (load buffer (2 * eth_addr_len)) == ethertype_ip)
    then none
    else if ltb ((read_ip buffer).hdr_len * 4) ip_head_min_len
    then none
    else if not ((read_ip buffer).checksum == ip_checksum beyond (read_ip buffer))
    then none
    else some (read_ip buffer)

-- The header of `create_ip_hr` before its checksum is set.
unfoldable pub blank_ip_hr : (src_ip dst_ip : Buffer) → ℕ → Ip
blank_ip_hr src_ip dst_ip payload_len = record {
  hdr_len = 5;
  version = 4;
  tos = 0x10;
  len = htons ((20 + payload_len) % 2 ^ 16);
  id = htons 0xfeed;
  offset = htons 0x4000;
  ttl = 64;
  protocol = ip_proto_udp;
  checksum = 0;
  src = src_ip;
  dst = dst_ip;
}

-- The header, and the length that is returned.
unfoldable pub create_ip_hr : (beyond src_ip dst_ip : Buffer) → ℕ → Ip × ℕ
create_ip_hr beyond src_ip dst_ip payload_len =
    let p = blank_ip_hr src_ip dst_ip payload_len in
    (record p { checksum = ip_checksum beyond p }, (20 + payload_len) % 2 ^ 16)

-- The inner loop of `inet_aton_tos`: the digits of one number, and the rest of the string.
unfoldable pub digits : Buffer → ℕ → Option (ℕ × Buffer)
digits [] val = some (val, [])
digits (c ∷ s) val =
    let rest = digits s (val * 10 + (c - 48)) in
    if is_digit c then (if ltb 255 (val * 10 + (c - 48)) then none else rest) else some (val, c ∷ s)

first_number : Buffer → Option (ℕ × Buffer)
first_number s = if not (is_digit (get_or s 0 0)) then none else digits s 0

-- Its outer loop, with `left` dots that may still come: the numbers, and the rest of the string.
unfoldable pub octets : ℕ → Buffer → Option (List ℕ × Buffer)
unfolding first_number
octets zero s = elim (first_number s) [
  | none ↦ none
  | some (val, rest) ↦ if get_or rest 0 0 == 46 then none else some (val ∷ [], rest)
]
octets (suc left) s = elim (first_number s) [
  | none ↦ none
  | some (val, rest) ↦
      if get_or rest 0 0 == 46
      then (elim (octets left (drop 1 rest)) [
        | none ↦ none
        | some (vals, end) ↦ some (val ∷ vals, end)
      ])
      else some (val ∷ [], rest)
]

-- The bytes that are written to `net_ip` when 0 is returned.
unfoldable pub inet_aton : Buffer → Option (List ℕ)
inet_aton dot_ip = elim (octets 3 dot_ip) [
  | none ↦ none
  | some (vals, end) ↦
      if ltb (length vals) 3
      then none
      else if not (get_or end 0 0 == 0)
          && (not (is_ascii (get_or end 0 0)) || not (is_space (get_or end 0 0)))
      then none
      else some vals
]
