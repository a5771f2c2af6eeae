-- ===== src/Net/Arp/Packet.antt =====
-- The packets of kernel/arp.c: what is sent is what is received.
use tos_sfsu_fall.Base.{
  ℕ, ◌≡◌, ◌<◌, ◌^◌, refl, Bool, true, false, not, if◌then◌else◌, ◌++◌, ◌==◌, length, arith, none,
  some,
}
use tos_sfsu_fall.Net.Bytes.{
  Buffer, htons, htons-htons, load-store, mac_bytes, ip_bytes, ip_len, eth_addr_len,
}
use tos_sfsu_fall.Net.Eth.{create_eth_header, eth_layout}
use tos_sfsu_fall.Net.Arp.{
  Arp, parse_arp, create_arp_packet, arp_layout, ethertype_arp, ethertype_ip, arphrd_ether,
}

-- The frame with an ARP packet: the Ethernet header and the packet, one behind the other.
abbrev pub arp_frame : (ip_to eth_to host_ip host_mac : Buffer) → ℕ → Buffer
arp_frame ip_to eth_to host_ip host_mac op =
    eth_layout (create_eth_header eth_to host_mac ethertype_arp)
    ++ arp_layout (create_arp_packet ip_to eth_to host_ip host_mac op)

-- What the receiver is to find in it.
abbrev pub arp_fields : (ip_to eth_to host_ip host_mac : Buffer) → ℕ → Arp
arp_fields ip_to eth_to host_ip host_mac op = record {
  hard_type = arphrd_ether;
  proto_type = ethertype_ip;
  hard_size = eth_addr_len;
  proto_size = ip_len;
  op = op;
  eth_source = host_mac;
  ip_source = host_ip;
  eth_dest = eth_to;
  ip_dest = ip_to;
}

if_not : {A : Type 0} (x y : A) (t : Bool) → (if not t then x else y) ≡ (if t then y else x)
if_not x y true = refl
if_not x y false = refl

module _ (ip_to eth_to host_ip host_mac : Buffer) (op : ℕ) (small : op < 2 ^ 16)
    (ht : length ip_to ≡ 4) (et : length eth_to ≡ 6) (hi : length host_ip ≡ 4)
    (hm : length host_mac ≡ 6) where
  -- For addresses of six and four bytes and an operation of 16 bits, parsing the frame of a packet
  -- that `create_arp_packet` made gives every field back in host order if the operation is the one
  -- wanted, and refuses the frame if not.
  pub parse_arp-frame :
      (wanted : ℕ)
      → parse_arp wanted (arp_frame ip_to eth_to host_ip host_mac op)
        ≡ (if op == wanted then some (arp_fields ip_to eth_to host_ip host_mac op) else none)
  unfolding parse_arp create_arp_packet create_eth_header
  parse_arp-frame wanted =
      let (a, b, c, d, e) = ip_bytes ip_to ht in
      let (a', b', c', d', e', f', g') = mac_bytes eth_to et in
      let (h, i, j, k, l) = ip_bytes host_ip hi in
      let (h', i', j', k', l', m', n') = mac_bytes host_mac hm in
      rw
        (
          e,
          g',
          l,
          n',
          load-store (htons ethertype_arp),
          load-store (htons op),
          load-store (htons arphrd_ether),
          load-store (htons ethertype_ip),
          htons-htons op small,
          htons-htons ethertype_arp (ground arith),
          htons-htons arphrd_ether (ground arith),
          htons-htons ethertype_ip (ground arith),
        )
        (if_not _ _ (op == wanted))
