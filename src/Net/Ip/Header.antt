-- ===== src/Net/Ip/Header.antt =====
-- The headers of kernel/ip.c: what is sent is what is received.
use tos_sfsu_fall.Base.{ℕ, ◌+◌, ◌%◌, ◌^◌, ◌≡◌, refl, [], ◌∷◌, ◌++◌, length, arith, some, ==_refl}
use tos_sfsu_fall.Net.Bytes.{Buffer, load, htons, htons-htons, load-store, mac_bytes, ip_bytes}
use tos_sfsu_fall.Net.Eth.{create_eth_header, eth_layout}
use tos_sfsu_fall.Net.Arp.{ethertype_ip}
use tos_sfsu_fall.Net.Ip.{
  Ip, ip_layout, read_ip, is_ip_packet, blank_ip_hr, create_ip_hr, ip_checksum, sum_words,
}

-- A frame with an IP packet.
abbrev pub ip_frame : (to host : Buffer) → Ip → Buffer → Buffer
ip_frame to host ip payload =
    eth_layout (create_eth_header to host ethertype_ip) ++ ip_layout ip ++ payload

module _ (beyond to host src dst : Buffer) (n : ℕ) (lt : length to ≡ 6) (lh : length host ≡ 6)
    (ls : length src ≡ 4) (ld : length dst ≡ 4) where
  abbrev made : Ip
  made = (create_ip_hr beyond src dst n).0

  read_ip-frame : (payload : Buffer) → read_ip (ip_frame to host made payload) ≡ made
  unfolding read_ip create_ip_hr blank_ip_hr create_eth_header
  read_ip-frame payload =
      let (a, b, c, d, e, f, eq) = mac_bytes to lt in
      let (g, h, i, j, k, l, eq') = mac_bytes host lh in
      let (m, o, p, q, eqs) = ip_bytes src ls in
      let (r, s, t, u, eqd) = ip_bytes dst ld in
      rw
        (
          eq,
          eq',
          eqs,
          eqd,
          load-store (htons ((20 + n) % 2 ^ 16)),
          load-store (htons 0xfeed),
          load-store (htons 0x4000),
          load-store (ip_checksum beyond (blank_ip_hr (m ∷ o ∷ p ∷ q ∷ []) (r ∷ s ∷ t ∷ u ∷ []) n)),
        )
        refl

  type-frame : (payload : Buffer) → htons (load (ip_frame to host made payload) 12) ≡ ethertype_ip
  unfolding create_eth_header
  type-frame payload =
      let (a, b, c, d, e, f, eq) = mac_bytes to lt in
      let (g, h, i, j, k, l, eq') = mac_bytes host lh in
      rw (eq, eq', load-store (htons ethertype_ip)) (htons-htons ethertype_ip (ground arith))

  -- A header of 20 bytes: neither the checksum field nor what stands behind it matters.
  ip_checksum-made : (beyond' : Buffer) → ip_checksum beyond' made ≡ made.checksum
  unfolding create_ip_hr blank_ip_hr ip_checksum sum_words
  ip_checksum-made beyond' =
      let (m, o, p, q, eqs) = ip_bytes src ls in
      let (r, s, t, u, eqd) = ip_bytes dst ld in rw (eqs, eqd) refl

  hdr_len-made : made.hdr_len ≡ 5
  unfolding create_ip_hr blank_ip_hr
  hdr_len-made = refl

  -- For addresses of six and four bytes, `is_ip_packet` accepts the frame of a header that
  -- `create_ip_hr` made and gives this header, with any payload and whatever stands behind the two
  -- structs in memory.
  pub is_ip_packet-frame :
      (beyond' payload : Buffer) → is_ip_packet beyond' (ip_frame to host made payload) ≡ some made
  unfolding is_ip_packet
  is_ip_packet-frame beyond' payload =
      rw
        (
          type-frame payload,
          read_ip-frame payload,
          hdr_len-made,
          ip_checksum-made beyond',
          ==_refl made.checksum,
        )
        refl
