-- ===== src/Net/Arp.antt =====
-- kernel/arp.c: ARP packets, and the cache of the addresses that are known.
pub mod Packet
pub mod Cache
use tos_sfsu_fall.Base.{
  ℕ, ◌+◌, ◌*◌, Bool, true, false, not, List, [], ◌∷◌, ◌++◌, ◌==◌, if◌then◌else◌, get_or, Option,
  none, some, map,
}
use tos_sfsu_fall.Net.Bytes.{
  Buffer, load, store, slice, memcmp, htons, eth_addr_len, ip_len, eth_head_len,
}

abbrev pub ethertype_ip : ℕ
ethertype_ip = 0x0800

abbrev pub ethertype_arp : ℕ
ethertype_arp = 0x0806

abbrev pub arphrd_ether : ℕ
arphrd_ether = 0x01

abbrev pub arp_request : ℕ
arp_request = 0x01

abbrev pub arp_reply : ℕ
arp_reply = 0x02

pub record Arp : Type 0 where
  pub hard_type : ℕ
  pub proto_type : ℕ
  pub hard_size : ℕ
  pub proto_size : ℕ
  pub op : ℕ
  pub eth_source : Buffer
  pub ip_source : Buffer
  pub eth_dest : Buffer
  pub ip_dest : Buffer

-- The common body of `is_arp_request` and `is_arp_reply`: the packet of an operation, its numbers in
-- host order.
unfoldable pub parse_arp : ℕ → Buffer → Option Arp
parse_arp wanted buffer =
    if not (htons (load buffer (2 * eth_addr_len)) == ethertype_arp)
    then none
    else if not (htons (load buffer (eth_head_len + 6)) == wanted)
    then none
    else some (record {
      hard_type = htons (load buffer eth_head_len);
      proto_type = htons (load buffer (eth_head_len + 2));
      hard_size = get_or buffer (eth_head_len + 4) 0;
      proto_size = get_or buffer (eth_head_len + 5) 0;
      op = htons (load buffer (eth_head_len + 6));
      eth_source = slice buffer (eth_head_len + 8) eth_addr_len;
      ip_source = slice buffer (eth_head_len + 14) ip_len;
      eth_dest = slice buffer (eth_head_len + 18) eth_addr_len;
      ip_dest = slice buffer (eth_head_len + 24) ip_len;
    })

unfoldable pub is_arp_request : Buffer → Option Arp
is_arp_request buffer = parse_arp arp_request buffer

unfoldable pub is_arp_reply : Buffer → Option Arp
is_arp_reply buffer = parse_arp arp_reply buffer

-- The packet to send, its numbers in network order.
unfoldable pub create_arp_packet : (ip_to eth_to host_ip host_mac : Buffer) → ℕ → Arp
create_arp_packet ip_to eth_to host_ip host_mac arp_op = record {
  hard_type = htons arphrd_ether;
  proto_type = htons ethertype_ip;
  hard_size = eth_addr_len;
  proto_size = ip_len;
  op = htons arp_op;
  eth_source = host_mac;
  ip_source = host_ip;
  eth_dest = eth_to;
  ip_dest = ip_to;
}

-- The packet as it stands in memory.
abbrev pub arp_layout : Arp → Buffer
arp_layout p =
    store p.hard_type
    ++ store p.proto_type
    ++ (p.hard_size ∷ p.proto_size ∷ [])
    ++ store p.op
    ++ p.eth_source
    ++ p.ip_source
    ++ p.eth_dest
    ++ p.ip_dest

-- An element of `arp_table`.
pub record Entry : Type 0 where
  pub init : ℕ
  pub ip : Buffer
  pub mac : Buffer

abbrev pub entry_initialized : ℕ
entry_initialized = 0xaa

abbrev pub Table : Type 0
Table = List Entry

-- The first loop of `arp_add_cache`: the first entry with this address gets the new MAC address.
unfoldable pub replace_mac : Table → (ip mac : Buffer) → Option Table
replace_mac [] ip mac = none
replace_mac (e ∷ t) ip mac =
    if memcmp e.ip ip ip_len
    then some (record e { mac = mac } ∷ t)
    else elim (replace_mac t ip mac) [ none ↦ none | some t' ↦ some (e ∷ t') ]

-- The second loop: the first entry that is not initialised is filled.
unfoldable pub fill_entry : Table → (ip mac : Buffer) → Table
fill_entry [] ip mac = []
fill_entry (e ∷ t) ip mac =
    if not (e.init == entry_initialized)
    then record { init = entry_initialized; ip = ip; mac = mac } ∷ t
    else e ∷ fill_entry t ip mac

unfoldable pub arp_add_cache : Table → (ip mac : Buffer) → Table
arp_add_cache t ip mac = elim (replace_mac t ip mac) [ none ↦ fill_entry t ip mac | some t' ↦ t' ]

-- The MAC address that `arp_ip_to_mac` finds.
unfoldable pub arp_ip_to_mac : Table → Buffer → Option Buffer
arp_ip_to_mac [] ip = none
arp_ip_to_mac (e ∷ t) ip = if memcmp e.ip ip ip_len then some e.mac else arp_ip_to_mac t ip
