-- ===== src/Tdi/Datagram/Verdict.antt =====
-- What a datagram's sender and receiver get, and what is left of it.
use adfilter.Prelude.{
  ℕ, ◌<◌, ◌≡◌, refl, ap, subst, ◌∙◌, ◌⊎◌, inl, inr, List, Option, some, Bool, true, false, ◌==◌,
  if◌then◌else◌, arith, length, Bytes, All,
}
use adfilter.Pool.{Pool, Owns}
use adfilter.Sock.{ntohs, ipproto_udp}
use adfilter.Ipc.{SockAddr, FltRequest, filter_allow, filter_deny}
use adfilter.Process.{Plist}
use adfilter.Process.Exit.{free_name_owned}
use adfilter.HostList.{SlreMatch}
use adfilter.Dns.{dns_buffer_size}
use adfilter.Dns.Query.{IsLabel, IsPlain, wire, dotted, query}
use adfilter.Filter.{Adf, tdifw_filter, tdifw_udp_send}
use adfilter.Filter.Decision.{IsBlocked, tdifw_udp_send-query}
use adfilter.OtEntry.{OtEntry, ot_find_fileobj}
use adfilter.ObjTable.Connections.{copy_sid_a_cases}
use adfilter.Tdi.{World, quick_filter, log_at}
use adfilter.Tdi.Datagram.{
  datagram_proto, log_out, log_in, tdi_send_datagram, tdi_receive_datagram_complete,
  tdi_event_receive_datagram,
}

-- The filter after the request of a protocol to an address.
abbrev pub checked : ℕ → SockAddr → Adf → Adf
checked ipproto to adf =
    if ipproto == ipproto_udp then record adf { need_check = ntohs to.sin_port == 53 } else adf

filter_eq :
    (adf : Adf) (request : FltRequest)
    → tdifw_filter adf request ≡ (filter_allow, checked request.proto request.to adf)
unfolding tdifw_filter
filter_eq adf request = ground arith

module _ (got_log : Bool) (plist : Plist) where
  module _ (slre_match : SlreMatch) where
    -- A datagram on a UDP or raw device, from a known address object, gets the verdict that
    -- tdifw_udp_send gives on its bytes after its address was seen; nothing is logged or counted,
    -- whatever the rules are; and the copy of the SID is freed.
    tdi_send_datagram-tdifw_udp_send :
        (devobj : Option ℕ) (fileobj pid send_length ipproto verdict : ℕ) (remote : SockAddr)
        (msg : Bytes) (w : World) (ote : OtEntry) (p : Pool) (rest : List ℕ)
        → datagram_proto devobj ≡ some ipproto
        → ot_find_fileobj fileobj w.net.objects ≡ some ote
        → tdifw_udp_send slre_match (checked ipproto remote w.adf) msg send_length ≡ some verdict
        → Owns p rest
        → (q : Pool) × (tdi_send_datagram got_log plist slre_match devobj fileobj pid remote msg
              send_length w p
            ≡ some (
              (
                record { result = verdict; fake_status = verdict == filter_deny },
                record w { adf = checked ipproto remote w.adf },
              ),
              q,
            ))
          × Owns q rest
    unfolding tdi_send_datagram quick_filter log_out log_at tdifw_filter
    tdi_send_datagram-tdifw_udp_send devobj fileobj pid send_length ipproto verdict remote msg w ote
          p rest d f v o =
        let (sid_a, q, e, o') = copy_sid_a_cases ote.sid_a ote.sid_a_size p rest o in
        let (t, g, o'') = free_name_owned sid_a q rest o' in (t, ground (arith, d, f, e, v, g), o'')

    -- A DNS query for a host name (labels of 1 to 47 bytes, all ASCII from '0' on, shorter than
    -- dns_buffer) that is sent on a UDP device from a known address object to port 53, while the
    -- driver is not paused, is denied exactly if the match that slre_match finds for a pattern of
    -- the user or the system list ends where the name ends, wherever it begins, and for no pattern
    -- of the exception list; otherwise it is allowed. Only the check flag changes.
    pub tdi_send_datagram-query :
        (devobj : Option ℕ) (fileobj pid : ℕ) (remote : SockAddr) (header l : Bytes)
        (ms : List Bytes) (tail : Bytes) (w : World) (ote : OtEntry) (p : Pool) (rest : List ℕ)
        → datagram_proto devobj ≡ some ipproto_udp
        → ot_find_fileobj fileobj w.net.objects ≡ some ote
        → Owns p rest
        → ntohs remote.sin_port ≡ 53
        → w.adf.paused ≡ 0
        → length header ≡ 12
        → IsLabel l
        → All IsLabel ms
        → length (wire l ms) < dns_buffer_size
        → IsPlain l
        → All IsPlain ms
        → (verdict : ℕ) × (q : Pool) × (tdi_send_datagram got_log plist slre_match devobj fileobj
              pid remote
              (query header l ms tail)
              (length (query header l ms tail))
              w
              p
            ≡ some (
              (
                record { result = verdict; fake_status = verdict == filter_deny },
                record w { adf = record w.adf { need_check = true } },
              ),
              q,
            ))
          × (((verdict ≡ filter_deny) × IsBlocked slre_match w.adf (dotted l ms))
              ⊎ ((verdict ≡ filter_allow) × (¬ IsBlocked slre_match w.adf (dotted l ms))))
          × Owns q rest
    tdi_send_datagram-query devobj fileobj pid remote header l ms tail w ote p rest d f o port run
          h1 h2 h3 h4 h5 h6 =
        let adf = record w.adf { need_check = true } in
        let msg = query header l ms tail in
        let seen : checked ipproto_udp remote w.adf ≡ adf = ground (arith, port) in
        let sent =
          λ (verdict : ℕ) (v : tdifw_udp_send slre_match adf msg (length msg) ≡ some verdict).
            tdi_send_datagram-tdifw_udp_send devobj fileobj pid (length msg) ipproto_udp verdict
              remote msg w ote p rest d f
              (ap (λ a. tdifw_udp_send slre_match a msg (length msg)) seen ∙ v) o in
        elim (tdifw_udp_send-query slre_match adf header l ms tail refl run h1 h2 h3 h4 h5 h6) [
          | inl (v, b) ↦
              (let (q, e, o') = sent filter_deny v in
                (
                  filter_deny,
                  q,
                  subst
                      (λ a.
                        tdi_send_datagram got_log plist slre_match devobj fileobj pid remote msg
                          (length msg) w p
                        ≡ some (
                          (
                            record { result = filter_deny; fake_status = true },
                            record w { adf = a },
                          ),
                          q,
                        ))
                      seen e,
                  inl (refl, b),
                  o',
                ))
          | inr (v, b) ↦
              (let (q, e, o') = sent filter_allow v in
                (
                  filter_allow,
                  q,
                  subst
                      (λ a.
                        tdi_send_datagram got_log plist slre_match devobj fileobj pid remote msg
                          (length msg) w p
                        ≡ some (
                          (
                            record { result = filter_allow; fake_status = false },
                            record w { adf = a },
                          ),
                          q,
                        ))
                      seen e,
                  inr (refl, b),
                  o',
                ))
        ]

  -- A datagram that is received on a UDP or raw device for a known address object is never refused,
  -- logged or counted, whichever way it comes: only the check flag changes, by the port of the object,
  -- and the copy of the SID is freed.
  tdi_receive_datagram_complete-tdi_event_receive_datagram :
      (proto_of : ℕ → Option ℕ) (addrobj information ipproto : ℕ) (remote : SockAddr) (w : World)
      (ote : OtEntry) (p : Pool) (rest : List ℕ)
      → datagram_proto (proto_of ote.devobj) ≡ some ipproto
      → ot_find_fileobj addrobj w.net.objects ≡ some ote
      → Owns p rest
      → (q : Pool) × (tdi_receive_datagram_complete got_log plist
            (proto_of ote.devobj)
            addrobj
            remote
            true
            information
            w
            p
          ≡ some (
            (
              record { result = filter_allow; fake_status = false },
              record w { adf = checked ipproto ote.local_addr w.adf },
            ),
            q,
          ))
        × (tdi_event_receive_datagram got_log plist proto_of addrobj remote information w p
            ≡ some ((true, record w { adf = checked ipproto ote.local_addr w.adf }), q))
        × Owns q rest
  unfolding tdi_receive_datagram_complete tdi_event_receive_datagram quick_filter log_in log_at
      tdifw_filter
  tdi_receive_datagram_complete-tdi_event_receive_datagram proto_of addrobj information ipproto
        remote w ote p rest d f o =
      let (sid_a, q, e, o') = copy_sid_a_cases ote.sid_a ote.sid_a_size p rest o in
      let (t, g, o'') = free_name_owned sid_a q rest o' in
      (t, ground (arith, d, f, e, g), ground (arith, d, f, e, g), o'')
