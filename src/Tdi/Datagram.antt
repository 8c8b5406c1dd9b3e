-- ===== src/Tdi/Datagram.antt =====
-- disp_dg.c, ev_dg.c and disp_sr.c of sys/tdi_fw/src: datagrams that are sent and received, and the
-- bytes of connections. A call of another driver, and the rest of an IRP, are left out.
pub mod Verdict
use adfilter.Prelude.{
  ℕ, List, [], ◌∷◌, Option, none, some, Bool, true, false, ◌==◌, if◌then◌else◌, Bytes,
}
use adfilter.Pool.{Block, M, pure, ◌>>=◌, ◌>>◌}
use adfilter.Control.{need}
use adfilter.Ipc.{
  SockAddr, FltRequest, ulong_max, filter_allow, filter_deny, type_datagram, direction_in,
  direction_out,
}
use adfilter.Process.{Plist, free_name}
use adfilter.Sids.{copy_sid_a}
use adfilter.HostList.{SlreMatch}
use adfilter.Filter.{Adf, tdifw_udp_send}
use adfilter.OtEntry.{OtEntry, ot_find_fileobj, write_object}
use adfilter.ObjTable.{Net}
use adfilter.Tdi.{
  World, Rule, no_rule, quick_filter, is_datagram_proto, sender, new_request, count_out, count_in,
  plus32, log_at, is_logged, is_counted,
}

-- What the handler did to the IRP: its answer, and whether it set a status of its own.
pub record Handled : Type 0 where
  pub result : ℕ
  pub fake_status : Bool

-- The UDP or raw protocol of a device.
abbrev pub datagram_proto : Option ℕ → Option ℕ
datagram_proto none = none
datagram_proto (some ipproto) = if is_datagram_proto ipproto then some ipproto else none

abbrev pub with_queue : World → Net → World
with_queue w net = record w { net = net }

module _ (got_log : Bool) (plist : Plist) where
  -- The count and the log of bytes that went out.
  unfoldable pub log_out : Rule → ℕ → FltRequest → World → M (FltRequest × World)
  log_out rule bytes request w = do
    (request', queue) ←
        log_at got_log plist (is_logged got_log plist rule)
          (record request {
            log_rule_id = rule.rule_id;
            log_bytes_out = if is_counted got_log plist rule then bytes else ulong_max;
          })
          w.net.queue
    pure (
      request',
      record w {
        net = record w.net { queue = queue };
        traffic =
            if is_logged got_log plist rule
            then count_out (is_counted got_log plist rule) bytes w.traffic
            else w.traffic;
      },
    )

  unfoldable pub log_in : Rule → ℕ → FltRequest → World → M (FltRequest × World)
  log_in rule bytes request w = do
    (request', queue) ←
        log_at got_log plist (is_logged got_log plist rule)
          (record request {
            log_rule_id = rule.rule_id;
            log_bytes_in = if is_counted got_log plist rule then bytes else ulong_max;
          })
          w.net.queue
    pure (
      request',
      record w {
        net = record w.net { queue = queue };
        traffic =
            if is_logged got_log plist rule
            then count_in (is_counted got_log plist rule) bytes w.traffic
            else w.traffic;
      },
    )

  module _ (slre_match : SlreMatch) where
    -- The device's protocol, the file object, the current process, the remote address and the bytes,
    -- with SendLength; the free build. An access outside of the bytes is a fault.
    unfoldable pub tdi_send_datagram :
        Option ℕ → ℕ → ℕ → SockAddr → Bytes → ℕ → World → M (Handled × World)
    tdi_send_datagram devobj fileobj pid remote_addr msg send_length w =
        elim (datagram_proto devobj) [
          | none ↦ pure (record { result = filter_deny; fake_status = true }, w)
          | some ipproto ↦ elim (ot_find_fileobj fileobj w.net.objects) [
            | none ↦ pure (record { result = filter_deny; fake_status = true }, w)
            | some ote_addr ↦ do
              sid_a ← copy_sid_a ote_addr.sid_a ote_addr.sid_a_size
              let request =
                    new_request type_datagram direction_out ipproto (sender pid ote_addr) ote_addr
                      sid_a ote_addr.local_addr remote_addr in
                  let (_, rule, adf) = quick_filter w.adf request no_rule in
                  do
                    result ← need (tdifw_udp_send slre_match adf msg send_length)
                    (request', w') ← log_out rule send_length request (record w { adf = adf })
                    free_name request'.sid_a
                    pure (record { result = result; fake_status = result == filter_deny }, w')
          ]
        ]

  -- The completion of a receive: the status of the IRP, whether it became STATUS_ACCESS_DENIED, and
  -- its information, the bytes received.
  unfoldable pub tdi_receive_datagram_complete :
      Option ℕ → ℕ → SockAddr → Bool → ℕ → World → M (Handled × World)
  tdi_receive_datagram_complete devobj addrobj remote_addr succeeded information w =
      elim (datagram_proto devobj) [
        | none ↦ pure (record { result = filter_deny; fake_status = false }, w)
        | some ipproto ↦ elim succeeded [
          | false ↦ pure (record { result = filter_deny; fake_status = false }, w)
          | true ↦ elim (ot_find_fileobj addrobj w.net.objects) [
            | none ↦ pure (record { result = filter_deny; fake_status = false }, w)
            | some ote_addr ↦ do
              sid_a ← copy_sid_a ote_addr.sid_a ote_addr.sid_a_size
              let request =
                    new_request type_datagram direction_in ipproto ote_addr.pid ote_addr sid_a
                      remote_addr ote_addr.local_addr in
                  let (result, rule, adf) = quick_filter w.adf request no_rule in
                  do
                    (request', w') ← log_in rule information request (record w { adf = adf })
                    free_name request'.sid_a
                    pure (
                      record {
                        result = result;
                        fake_status = if result == filter_allow then false else true;
                      },
                      w',
                    )
          ]
        ]
      ]

  -- The event of a datagram: whether the handler of the client is called, with the address object of
  -- the event's context; `proto_of` is get_original_devobj.
  unfoldable pub tdi_event_receive_datagram :
      (ℕ → Option ℕ) → ℕ → SockAddr → ℕ → World → M (Bool × World)
  tdi_event_receive_datagram proto_of addrobj remote_addr bytes_available w =
      elim (ot_find_fileobj addrobj w.net.objects) [
        | none ↦ pure (false, w)
        | some ote_addr ↦ elim (datagram_proto (proto_of ote_addr.devobj)) [
          | none ↦ pure (false, w)
          | some ipproto ↦ do
            sid_a ← copy_sid_a ote_addr.sid_a ote_addr.sid_a_size
            let request =
                  new_request type_datagram direction_in ipproto ote_addr.pid ote_addr sid_a
                    remote_addr ote_addr.local_addr in
                let (result, rule, adf) = quick_filter w.adf request no_rule in
                do
                  (request', w') ← log_in rule bytes_available request (record w { adf = adf })
                  free_name request'.sid_a
                  pure (result == filter_allow, w')
        ]
      ]

abbrev pub add_out : ℕ → OtEntry → OtEntry
add_out bytes e = record e { bytes_out = plus32 e.bytes_out bytes }

abbrev pub add_in : ℕ → OtEntry → OtEntry
add_in bytes e = record e { bytes_in = plus32 e.bytes_in bytes }

-- The bytes that a connection sends; it is always allowed.
unfoldable pub tdi_send : ℕ → ℕ → World → World
tdi_send connobj bytes w = elim (ot_find_fileobj connobj w.net.objects) [
  | none ↦ w
  | some ote_conn ↦ record w {
    net = record w.net { objects = write_object connobj (add_out bytes) w.net.objects };
    traffic = count_out ote_conn.log_disconnect bytes w.traffic;
  }
]

-- The bytes that a connection received.
unfoldable pub tdi_receive_complete : ℕ → ℕ → World → World
tdi_receive_complete connobj bytes w = elim (ot_find_fileobj connobj w.net.objects) [
  | none ↦ w
  | some ote_conn ↦ record w {
    net = record w.net { objects = write_object connobj (add_in bytes) w.net.objects };
    traffic = count_in ote_conn.log_disconnect bytes w.traffic;
  }
]
