-- ===== src/Tests/Queries.antt =====
-- DNS queries through sys/adfilter/filter.c.
use adfilter.Prelude.{
  ℕ, ◌-◌, ◌≡◌, ◌↔◌, ◌⊎◌, ◌==◌, refl, [], ◌∷◌, ◌++◌, none, some, true, false, arith, length,
  replicate, drop, Bytes, NoNul, c_text, map, bytes_eq, c_string,
}
use adfilter.Sock.{ipproto_udp, ntohs}
use adfilter.Ipc.{FltRequest, SockAddr, filter_allow, filter_deny}
use adfilter.HostList.{is_match_host_list}
use adfilter.Dns.{fmt_dns_msg, fmt_char}
use adfilter.Dns.Query.{IsLabel, dotted, query, dns_text, fmt_dns_msg-query, fmt_dns_msg-hyphen}
use adfilter.Dns.Safety.{fmt_dns_msg_fault}
use adfilter.Filter.{Adf, filter, tdifw_udp_send}
use adfilter.Pool.{Pool, Owns}
use adfilter.OtEntry.{OtEntry, calc_hash, find_ote, ot_find_fileobj, update}
use adfilter.ObjTable.{blank_ote}
use adfilter.Tdi.{World}
use adfilter.Tdi.Datagram.{tdi_send_datagram}
use adfilter.Tdi.Datagram.Verdict.{tdi_send_datagram-query}
use adfilter.Tests.Logging
use adfilter.Tests.Processes.{two}
use adfilter.Filter.Decision.{IsBlocked, Decides, tdifw_udp_send-query}
use adfilter.Filter.Traffic.{datagram, filtered, tdifw_udp_send-stale_check}
use adfilter.Tests.Hosts.{two_hosts, literal_match}

abbrev header : Bytes
header = replicate 12 0

-- ad.c
abbrev ad : Bytes
ad = 97 ∷ 100 ∷ []

abbrev c : Bytes
c = 99 ∷ []

abbrev tail : Bytes
tail = 0 ∷ 1 ∷ 0 ∷ 1 ∷ []

abbrev ad_c : Bytes
ad_c = query header ad (c ∷ []) tail

ad-IsLabel : IsLabel ad
ad-IsLabel = omega arith

c-IsLabel : IsLabel c
c-IsLabel = omega arith

ad-c-IsLabel : IsLabel (ad ++ 45 ∷ c)
ad-c-IsLabel = omega arith

fmt_dns_msg-query_example :
    dns_text (fmt_dns_msg ad_c (length ad_c - 1))
    ≡ some (dotted (map fmt_char ad) (map (map fmt_char) (c ∷ [])))
fmt_dns_msg-query_example =
    fmt_dns_msg-query header ad (c ∷ []) tail refl ad-IsLabel (c-IsLabel, tt) (omega arith)

fmt_dns_msg-hyphen_example :
    dns_text (
      fmt_dns_msg
        (query header (ad ++ 45 ∷ c) [] tail)
        (length (query header (ad ++ 45 ∷ c) [] tail) - 1))
    ≡ dns_text (fmt_dns_msg ad_c (length ad_c - 1))
fmt_dns_msg-hyphen_example =
    fmt_dns_msg-hyphen header ad c [] tail refl ad-IsLabel c-IsLabel ad-c-IsLabel tt (omega arith)
      (omega arith)

-- A datagram of 14 bytes that has no zero byte at its end.
abbrev unterminated : Bytes
unterminated = header ++ 1 ∷ 97 ∷ []

fmt_dns_msg_fault_example :
    (fmt_dns_msg unterminated (length unterminated - 1) ≡ none) ↔ NoNul (drop 13 unterminated)
fmt_dns_msg_fault_example = fmt_dns_msg_fault unterminated (omega arith) (omega arith)

abbrev pub adf_ad : Adf
adf_ad = record {
  paused = 0;
  device = 7;
  sys =
      record {
        entry_at = 8;
        buffer_at = 9;
        buffer = 97 ∷ 100 ∷ 46 ∷ 99 ∷ 0 ∷ [];
        length = 4;
        maximum_length = 5;
      }
      ∷ [];
  user = two_hosts;
  excpt = [];
  need_check = true;
}

tdifw_udp_send-query_example :
    Decides literal_match adf_ad
      (dotted ad (c ∷ []))
      (tdifw_udp_send literal_match adf_ad ad_c (length ad_c))
tdifw_udp_send-query_example =
    tdifw_udp_send-query literal_match adf_ad header ad (c ∷ []) tail refl refl refl ad-IsLabel
      (c-IsLabel, tt) (omega arith) (omega arith) (omega arith, tt)

deny_run : tdifw_udp_send literal_match adf_ad ad_c (length ad_c) ≡ some filter_deny
unfolding tdifw_udp_send filter fmt_dns_msg c_text is_match_host_list bytes_eq c_string
deny_run = refl

abbrev any_addr : SockAddr
any_addr = record { sin_family = 2; sin_port = 0; sin_addr = 0 }

-- A request of a protocol to a port, in network order.
abbrev to_port : ℕ → ℕ → FltRequest
to_port proto port = record {
  struct_size = 0;
  kind = 2;
  status = 0;
  result = 0;
  direction = 1;
  proto = proto;
  pid = 4;
  sid_a_size = 0;
  from = any_addr;
  to = record any_addr { sin_port = port };
  addr_len = 16;
  log_skipped = 0;
  log_bytes_in = 0;
  log_bytes_out = 0;
  log_rule_id = [];
  pname = none;
  sid_a = none;
}

-- Behind two other requests.
tdifw_udp_send-stale_check_example :
    (datagram literal_match
      (filtered adf_ad (to_port 17 0x5000 ∷ to_port 17 0x3500 ∷ to_port 6 0x5000 ∷ []))
      (to_port 0 0)
      ad_c).0
    ≡ tdifw_udp_send literal_match (record adf_ad { need_check = true }) ad_c (length ad_c)
unfolding ntohs
tdifw_udp_send-stale_check_example =
    tdifw_udp_send-stale_check literal_match adf_ad (to_port 17 0x5000 ∷ []) (to_port 17 0x3500)
      (to_port 6 0x5000 ∷ []) (to_port 0 0) ad_c refl refl (ground arith) (omega arith)

-- The query from a UDP socket, to port 53 of 10.0.0.2.
abbrev dns_server : SockAddr
dns_server = record { sin_family = 2; sin_port = 0x3500; sin_addr = 0x0200000A }

abbrev socket : OtEntry
socket = record (blank_ote 17 0x40) { kind = 1; ipproto = 17 }

abbrev socket_world : World
socket_world = record {
  net = record {
    objects = update (calc_hash 0x40) (socket ∷ []) (λ h. []);
    listens = λ h. [];
    conns = record { heap = λ a. none; chain = λ h. []; to_del = []; back = none };
    queue = Logging.start;
  };
  contexts = λ h. [];
  adf = record adf_ad { need_check = false };
  traffic = record { total_in = 0; total_out = 0; counted_in = 0; counted_out = 0 };
}

found_socket : ot_find_fileobj 0x40 socket_world.net.objects ≡ some socket
unfolding ot_find_fileobj find_ote
found_socket = refl

abbrev no_blocks : Pool
no_blocks = record { live = []; replies = [] }

port_53 : ntohs 0x3500 ≡ 53
unfolding ntohs
port_53 = refl

tdi_send_datagram-query_example :
    (verdict : ℕ) × (q : Pool) × (tdi_send_datagram true two literal_match
        (some ipproto_udp)
        0x40
        10
        dns_server
        ad_c
        (length ad_c)
        socket_world
        no_blocks
      ≡ some (
        (
          record { result = verdict; fake_status = verdict == filter_deny },
          record socket_world { adf = adf_ad },
        ),
        q,
      ))
    × (((verdict ≡ filter_deny) × IsBlocked literal_match socket_world.adf (dotted ad (c ∷ [])))
        ⊎ ((verdict ≡ filter_allow)
            × (¬ IsBlocked literal_match socket_world.adf (dotted ad (c ∷ [])))))
    × Owns q []
tdi_send_datagram-query_example =
    tdi_send_datagram-query true two literal_match (some ipproto_udp) 0x40 10 dns_server header ad
      (c ∷ []) tail socket_world socket no_blocks [] refl found_socket (λ b. refl) port_53 refl refl
      ad-IsLabel (c-IsLabel, tt) (omega arith) (omega arith) (omega arith, tt)
