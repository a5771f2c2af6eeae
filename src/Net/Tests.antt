-- ===== src/Net/Tests.antt =====
-- Addresses and packets, and each theorem about the network protocols applied to them.
use tos_sfsu_fall.Base.{
  ◌≡◌, ◌%◌, ◌<◌, refl, [], ◌∷◌, ◌++◌, length, arith, some, ◌≢◌, ap, get_or, ◌||◌, true,
}
use tos_sfsu_fall.Net.Bytes.{Buffer, memcmp}
use tos_sfsu_fall.Net.Arp.{Table, parse_arp, arp_add_cache, arp_ip_to_mac}
use tos_sfsu_fall.Net.Arp.Packet.{arp_frame, arp_fields, parse_arp-frame}
use tos_sfsu_fall.Net.Arp.Cache.{known, has_free, free_apart, arp_ip_to_mac-add}
use tos_sfsu_fall.Net.Ip.{Ip, ip_checksum, ip_checksum_v2, inet_aton}
use tos_sfsu_fall.Net.Ip.Checksum.{ip_checksum-v2, ip_checksum-valid, header_sum, with_checksum}
use tos_sfsu_fall.Net.Ip.Dotted.{inet_aton-dotted, decimal}
use tos_sfsu_fall.Kernel.State.{done}
use tos_sfsu_fall.Net.Udp.{create_udp_hr, is_udp_packet}
use tos_sfsu_fall.Net.Udp.Packet.{udp_frame, is_udp_packet-frame}

abbrev my_mac : Buffer
my_mac = 2 ∷ 0 ∷ 0 ∷ 0 ∷ 0 ∷ 1 ∷ []

abbrev your_mac : Buffer
your_mac = 2 ∷ 0 ∷ 0 ∷ 0 ∷ 0 ∷ 255 ∷ []

abbrev my_ip : Buffer
my_ip = 192 ∷ 168 ∷ 1 ∷ 10 ∷ []

abbrev your_ip : Buffer
your_ip = 192 ∷ 168 ∷ 1 ∷ 20 ∷ []

parse_arp-frame_example :
    parse_arp 1 (arp_frame your_ip your_mac my_ip my_mac 1)
    ≡ some (arp_fields your_ip your_mac my_ip my_mac 1)
parse_arp-frame_example =
    parse_arp-frame your_ip your_mac my_ip my_mac 1 (ground arith) refl refl refl refl 1

-- One entry in use, one free.
abbrev small_table : Table
small_table =
    record { init = 0xaa; ip = my_ip; mac = my_mac }
    ∷ record { init = 0; ip = 0 ∷ 0 ∷ 0 ∷ 0 ∷ []; mac = [] }
    ∷ []

room : (ip : Buffer) → (known small_table ip || has_free small_table) ≡ true
room ip = ground arith

small_table-held : free_apart small_table my_ip ≡ true
unfolding memcmp
small_table-held = refl

apart : my_ip ≢ your_ip
apart e = ground (arith, ap (λ l. get_or l 3 0) e)

arp_ip_to_mac-add_example :
    (arp_ip_to_mac (arp_add_cache small_table your_ip your_mac) your_ip ≡ some your_mac)
    × (length (arp_add_cache small_table your_ip your_mac) ≡ 2)
arp_ip_to_mac-add_example =
    arp_ip_to_mac-add your_ip your_mac refl small_table (refl, (refl, tt)) (room your_ip)

abbrev sample : Ip
sample = record {
  hdr_len = 5;
  version = 4;
  tos = 0x10;
  len = 0x7200;
  id = 0xedfe;
  offset = 0x40;
  ttl = 64;
  protocol = 0x11;
  checksum = 0;
  src = my_ip;
  dst = your_ip;
}

ip_checksum-v2_example :
    ip_checksum_v2 [] sample ≡ (ip_checksum [] sample, record sample { checksum = 0 })
ip_checksum-v2_example = ip_checksum-v2 [] sample (ground arith) refl

ip_checksum-valid_example :
    (header_sum (with_checksum sample (ip_checksum [] sample)) % 65535 ≡ 0)
    × (0 < header_sum (with_checksum sample (ip_checksum [] sample)))
ip_checksum-valid_example = ip_checksum-valid [] sample refl refl refl refl

inet_aton-dotted_example :
    inet_aton
      (decimal 192 ++ (46 ∷ decimal 168 ++ (46 ∷ decimal 1 ++ (46 ∷ decimal 20 ++ (0 ∷ [])))))
    ≡ some your_ip
inet_aton-dotted_example =
    inet_aton-dotted 192 168 1 20 (ground arith) (ground arith) (ground arith) (ground arith)

is_udp_packet-frame_example :
    is_udp_packet (9 ∷ []) (
      udp_frame [] your_mac my_mac my_ip your_ip
        (7 ∷ 8 ∷ 9 ∷ [])
        2000
        8080
        refl
        refl
        refl
        refl
        refl
        refl
        refl
        refl
        (omega arith)
        (omega arith)
        (omega arith))
    ≡ done (some (create_udp_hr [] 2000 8080 3 (7 ∷ 8 ∷ 9 ∷ []) my_ip your_ip).0)
is_udp_packet-frame_example =
    is_udp_packet-frame [] your_mac my_mac my_ip your_ip (7 ∷ 8 ∷ 9 ∷ []) 2000 8080 refl refl refl
      refl refl refl refl refl (omega arith) (omega arith) (omega arith) (9 ∷ []) refl
