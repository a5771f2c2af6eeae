-- ===== src/Net/Udp.antt =====
-- kernel/udp.c: UDP headers and their checksum with the pseudo header.
--
-- `beyond` stands for what the memory holds behind the fields and the payload of a `UDP` struct.
pub mod Sum
pub mod Checksum
pub mod Packet
use tos_sfsu_fall.Base.{
  ℕ, ◌+◌, ◌-◌, ◌*◌, ◌/◌, ◌%◌, ◌^◌, Bool, true, false, not, ◌&&◌, ◌||◌, List, [], ◌∷◌, ◌++◌, ◌==◌,
  ltb, if◌then◌else◌, get_or, Option, none, some, take,
}
use tos_sfsu_fall.Kernel.State.{Outcome, done, halt, undefined}
use tos_sfsu_fall.Net.Bytes.{Buffer, load, store, slice, htons, eth_head_len}
use tos_sfsu_fall.Net.Ip.{
  Ip, ip_layout, ip_head_min_len, ip_proto_udp, is_ip_packet, sum_words, fold_all, create_ip_hr,
}

abbrev pub udp_head_min_len : ℕ
udp_head_min_len = 8

-- `UDP`. The words are in network order; the payload is the part that was copied into the array.
pub record Udp : Type 0 where
  pub src_port : ℕ
  pub dst_port : ℕ
  pub len : ℕ
  pub checksum : ℕ
  pub payload : Buffer

abbrev pub udp_layout : Udp → Buffer
udp_layout u = store u.src_port ++ store u.dst_port ++ store u.len ++ store u.checksum ++ u.payload

-- The words of the pseudo header: both addresses, the protocol and the length.
abbrev pub pseudo_header : (src dst : Buffer) → (len : ℕ) → ℕ
pseudo_header src dst len =
    load src 0 + load src 2 + load dst 0 + load dst 2 + htons ip_proto_udp + len

-- The sum over the struct: the words, and a last byte if the length is odd.
unfoldable pub sum_struct : Buffer → (length : ℕ) → ℕ
sum_struct mem length =
    sum_words mem (length / 2) 0 0 + (if length % 2 == 1 then get_or mem (length - 1) 0 else 0)

-- While the sum is taken the field is all ones, or 0 if it was 0.
unfoldable pub udp_checksum : Buffer → Udp → (src_ip dst_ip : Buffer) → ℕ
udp_checksum beyond u src_ip dst_ip =
    let field = if u.checksum == 0 then 0 else 0xffff in
    let mem = udp_layout (record u { checksum = field }) ++ beyond in
    2 ^ 16
    - 1
    - fold_all 2 ((sum_struct mem (htons u.len) + pseudo_header src_ip dst_ip u.len) % 2 ^ 32)

-- The header before its checksum is set.
abbrev pub blank_udp_hr : (src_port dst_port payload_len : ℕ) → Buffer → Udp
blank_udp_hr src_port dst_port payload_len payload = record {
  src_port = htons src_port;
  dst_port = htons dst_port;
  len = htons ((payload_len + udp_head_min_len) % 2 ^ 16);
  checksum = 0;
  payload = take payload_len payload;
}

unfoldable pub create_udp_hr :
    Buffer → (src_port dst_port payload_len : ℕ) → (payload sip dip : Buffer) → Udp × ℕ
create_udp_hr beyond src_port dst_port payload_len payload sip dip =
    let ud = blank_udp_hr src_port dst_port payload_len payload in
    (
      record ud { checksum = udp_checksum beyond ud sip dip },
      (payload_len + udp_head_min_len) % 2 ^ 16,
    )

-- The bytes of the packet, and the length that is returned.
unfoldable pub create_udp_packet :
    Buffer → (sp dp : ℕ) → (sip dip : Buffer) → (p_len : ℕ) → Buffer → Buffer × ℕ
create_udp_packet beyond sp dp sip dip p_len payload =
    let (ud, udp_len) = create_udp_hr beyond sp dp p_len payload sip dip in
    let (ip, ip_len) = create_ip_hr beyond sip dip udp_len in
    (ip_layout ip ++ take udp_len (udp_layout ud), ip_len)

-- The struct that `is_udp_packet` fills, for a payload of `payload_len` bytes.
unfoldable pub read_udp : Buffer → (payload_len : ℕ) → Udp
read_udp buffer payload_len = record {
  src_port = load buffer (eth_head_len + ip_head_min_len);
  dst_port = load buffer (eth_head_len + ip_head_min_len + 2);
  len = load buffer (eth_head_len + ip_head_min_len + 4);
  checksum = load buffer (eth_head_len + ip_head_min_len + 6);
  payload = slice buffer (eth_head_len + ip_head_min_len + udp_head_min_len) payload_len;
}

-- `FALSE` is `none`. An IP length below 28 makes the length of the copy negative, which `memcpy_tos`
-- takes for one of more than four billion; a payload of more than 250 bytes is written behind its array.
unfoldable pub is_udp_packet : (beyond buffer : Buffer) → Outcome (Option Udp)
is_udp_packet beyond buffer = elim (is_ip_packet beyond buffer) [
  | none ↦ done none
  | some ip_header ↦
      if not (ip_header.protocol == ip_proto_udp)
      then done none
      else if ltb (htons ip_header.len) (ip_head_min_len + udp_head_min_len)
          || ltb (ip_head_min_len + udp_head_min_len + 250) (htons ip_header.len)
      then halt undefined
      else (let packet =
            read_udp buffer (htons ip_header.len - (ip_head_min_len + udp_head_min_len)) in
          done (
            if not (packet.checksum == 0)
              && not (packet.checksum == udp_checksum beyond packet ip_header.src ip_header.dst)
            then none
            else some packet))
]
