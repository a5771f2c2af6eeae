-- ===== src/Net/Udp/Packet.antt =====
-- UDP packets of kernel/udp.c: what is sent is what is received.
use tos_sfsu_fall.Base.{
  ℕ, ◌+◌, ◌-◌, ◌%◌, ◌^◌, ◌≤◌, ◌<◌, ◌≡◌, refl, sym, ap, ◌∙◌, Bool, true, false, ◌&&◌, [], ◌∷◌, ◌++◌,
  ◌==◌, if◌then◌else◌, take, length, Option, some, none, arith, ==_refl, append_assoc, ltb, not,
  append_assoc, ltb,
}
use tos_sfsu_fall.Kernel.State.{Outcome, done}
use tos_sfsu_fall.Net.Bytes.{
  Buffer, htons, htons-htons, htons-bound, load-store, mac_bytes, ip_bytes,
}
use tos_sfsu_fall.Net.Eth.{create_eth_header, eth_layout}
use tos_sfsu_fall.Net.Arp.{ethertype_ip}
use tos_sfsu_fall.Net.Ip.{Ip, ip_layout, create_ip_hr, blank_ip_hr, ip_proto_udp, is_ip_packet}
use tos_sfsu_fall.Net.Ip.Checksum.{all_bytes}
use tos_sfsu_fall.Net.Ip.Header.{ip_frame, is_ip_packet-frame}
use tos_sfsu_fall.Net.Udp.Checksum.{IsUdp, udp_checksum-field}
use tos_sfsu_fall.Net.Udp.{
  Udp, udp_layout, udp_checksum, create_udp_hr, create_udp_packet, read_udp, is_udp_packet,
}

take-length : (a : Buffer) → take (length a) a ≡ a
take-length [] = refl
take-length (x ∷ a) = ap (λ (l : Buffer). x ∷ l) (take-length a)

read_udp-frame :
    (to host : Buffer) (ip : Ip) (u : Udp)
    → length to ≡ 6
    → length host ≡ 6
    → length ip.src ≡ 4
    → length ip.dst ≡ 4
    → read_udp (ip_frame to host ip (udp_layout u)) (length u.payload) ≡ u
unfolding read_udp create_eth_header
read_udp-frame to host ip u lt lh ls ld =
    let (a, b, c, d, e, f, eq) = mac_bytes to lt in
    let (g, h, i, j, k, l, eq') = mac_bytes host lh in
    let (m, o, p, q, eqs) = ip_bytes ip.src ls in
    let (r, s, t, v, eqd) = ip_bytes ip.dst ld in
    rw
      (
        eq,
        eq',
        eqs,
        eqd,
        load-store u.src_port,
        load-store u.dst_port,
        load-store u.len,
        load-store u.checksum,
        take-length u.payload,
      )
      refl

is_udp_packet-accepts :
    (beyond frame : Buffer) (ip : Ip) (u : Udp) (n : ℕ)
    → is_ip_packet beyond frame ≡ some ip
    → ip.protocol ≡ ip_proto_udp
    → htons ip.len ≡ n + 28
    → n ≤ 250
    → read_udp frame n ≡ u
    → udp_checksum beyond u ip.src ip.dst ≡ u.checksum
    → is_udp_packet beyond frame ≡ done (some u)
unfolding is_udp_packet
is_udp_packet-accepts beyond frame ip u n e protocol len few same sum =
    rw
      (
        is_udp_packet,
        e,
        protocol,
        len,
        long_enough,
        has_room,
        payload_left,
        same,
        sum,
        ==_refl u.checksum,
      )
      (accepted (u.checksum == 0))
  where
    long_enough : ltb (n + 28) 28 ≡ false
    long_enough = ground arith

    has_room : ltb 278 (n + 28) ≡ false
    has_room = ground (arith, few)

    payload_left : n + 28 - 28 ≡ n
    payload_left = omega arith

    accepted :
        (b : Bool)
        → ◌≡◌ {A = Outcome (Option Udp)}
            (done (if not b && false then none else some u))
            (done (some u))
    accepted true = refl
    accepted false = refl

module _ (beyond to host sip dip payload : Buffer) (sp dp : ℕ) (lt : length to ≡ 6)
    (lh : length host ≡ 6) (ls : length sip ≡ 4) (ld : length dip ≡ 4) (bs : all_bytes sip ≡ true)
    (bd : all_bytes dip ≡ true) (bp : all_bytes payload ≡ true) (bb : all_bytes beyond ≡ true)
    (hs : sp < 2 ^ 16) (hd : dp < 2 ^ 16) (fits : length payload ≤ 250) where
  -- The struct that is sent.
  abbrev pub sent : Udp
  sent = (create_udp_hr beyond sp dp (length payload) payload sip dip).0

  sent-IsUdp : IsUdp sent
  unfolding create_udp_hr
  sent-IsUdp = rw (take-length payload) (record {
    src_port = htons-bound sp hs;
    dst_port = htons-bound dp hd;
    len = htons-bound ((length payload + 8) % 2 ^ 16) (omega arith);
    size = htons-htons ((length payload + 8) % 2 ^ 16) (omega arith) ∙ omega (arith, fits);
    fits = fits;
    bytes = bp;
  })

  -- The packet behind an Ethernet header.
  abbrev pub udp_frame : Buffer
  udp_frame =
      eth_layout (create_eth_header to host ethertype_ip)
      ++ (create_udp_packet beyond sp dp sip dip (length payload) payload).0

  assoc : (a b c : Buffer) → a ++ (b ++ c) ≡ (a ++ b ++ c)
  assoc a b c = sym (append_assoc a b c)

  abbrev header : Ip
  header = (create_ip_hr beyond sip dip ((length payload + 8) % 2 ^ 16)).0

  udp_len-sent : (length payload + 8) % 2 ^ 16 ≡ length (udp_layout sent)
  unfolding create_udp_hr
  udp_len-sent = rw (take-length payload) (omega (arith, fits))

  frame-layout : udp_frame ≡ ip_frame to host header (udp_layout sent)
  unfolding create_udp_packet create_udp_hr
  frame-layout =
      assoc (eth_layout (create_eth_header to host ethertype_ip)) (ip_layout header)
        (take ((length payload + 8) % 2 ^ 16) (udp_layout sent))
      ∙ ap (λ (l : Buffer). ip_frame to host header l)
          (ap (λ n. take n (udp_layout sent)) udp_len-sent ∙ take-length (udp_layout sent))

  header-fields :
      (header.protocol ≡ ip_proto_udp)
      × (htons header.len ≡ length payload + 28)
      × (header.src ≡ sip)
      × (header.dst ≡ dip)
  unfolding create_ip_hr blank_ip_hr
  header-fields = (refl, htons-htons _ (omega arith) ∙ omega (arith, fits), refl, refl)

  checksum-sent :
      (beyond' : Buffer)
      → all_bytes beyond' ≡ true
      → udp_checksum beyond' sent sip dip ≡ sent.checksum
  unfolding create_udp_hr
  checksum-sent beyond' hb =
      udp_checksum-field beyond beyond' sent sip dip sent.checksum sent-IsUdp bb hb bs bd

  read_sent : read_udp (ip_frame to host header (udp_layout sent)) (length payload) ≡ sent
  unfolding create_udp_hr create_ip_hr blank_ip_hr
  read_sent =
      ap (λ (p : Buffer). read_udp (ip_frame to host header (udp_layout sent)) (length p))
        (sym (take-length payload))
      ∙ read_udp-frame to host header sent lt lh ls ld

  -- For addresses of six and four bytes, ports of 16 bits and a payload of at most 250 bytes,
  -- `is_udp_packet` accepts the packet that `create_udp_packet` made behind an Ethernet header, and
  -- gives the struct that was sent, whatever stands behind the structs in the memory of either side.
  pub is_udp_packet-frame :
      (beyond' : Buffer)
      → all_bytes beyond' ≡ true
      → is_udp_packet beyond' udp_frame ≡ done (some sent)
  is_udp_packet-frame beyond' hb =
      let (protocol, len, src, dst) = header-fields in
      ap (is_udp_packet beyond') frame-layout
      ∙ is_udp_packet-accepts beyond' (ip_frame to host header (udp_layout sent)) header sent
          (length payload)
          (is_ip_packet-frame beyond to host sip dip ((length payload + 8) % 2 ^ 16) lt lh ls ld
            beyond' (udp_layout sent))
          protocol len fits read_sent (rw (src, dst) (checksum-sent beyond' hb))
