-- ===== src/Net/Eth.antt =====
-- kernel/eth.c: Ethernet headers.
use tos_sfsu_fall.Base.{ℕ, ◌*◌, ◌≡◌, refl, ◌++◌, length}
use tos_sfsu_fall.Net.Bytes.{Buffer, slice, load, store, htons, eth_addr_len, mac_bytes, load-store}

-- `ETH`. The field `type` is in network order.
pub record Eth : Type 0 where
  pub dst : Buffer
  pub src : Buffer
  pub type_ : ℕ

-- Reads the header of a frame; it accepts every frame.
unfoldable pub is_ethernet_header : Buffer → Eth
is_ethernet_header buffer = record {
  dst = slice buffer 0 eth_addr_len;
  src = slice buffer eth_addr_len eth_addr_len;
  type_ = load buffer (2 * eth_addr_len);
}

unfoldable pub create_eth_header : (to host : Buffer) → ℕ → Eth
create_eth_header to host type_ = record { dst = to; src = host; type_ = htons type_ }

-- The header as it stands in memory.
abbrev pub eth_layout : Eth → Buffer
eth_layout e = e.dst ++ e.src ++ store e.type_

-- For addresses of six bytes, the header that `create_eth_header` made is read back from the front
-- of a frame.
pub eth-roundtrip :
    (to host payload : Buffer) (type_ : ℕ)
    → length to ≡ 6
    → length host ≡ 6
    → is_ethernet_header (eth_layout (create_eth_header to host type_) ++ payload)
      ≡ create_eth_header to host type_
unfolding is_ethernet_header create_eth_header
eth-roundtrip to host payload type_ ht hh =
    let (a, b, c, d, e, f, eq) = mac_bytes to ht in
    let (g, h, i, j, k, l, eq') = mac_bytes host hh in rw (eq, eq', load-store (htons type_)) refl
