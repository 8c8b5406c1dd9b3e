-- ===== src/Tdi/Connect.antt =====
-- sys/tdi_fw/src/disp_conn.c, and tdi_event_disconnect of ev_conn.c: connections that begin and end.
-- update_conn_info asks the kernel for the local address and is left out; its answer is
-- update_conn_info_complete.
pub mod Open
use adfilter.Prelude.{
  ℕ, ◌+◌, ◌-◌, ◌*◌, ◌/◌, ◌%◌, ◌^◌, List, [], ◌∷◌, Option, none, some, Bool, true, false, ◌&&◌, ◌||◌,
  ◌==◌, leb, if◌then◌else◌,
}
use adfilter.Pool.{Block, M, pure, ◌>>=◌, ◌>>◌, ex_allocate_pool, ex_free_pool}
use adfilter.Control.{need}
use adfilter.Sock.{ipproto_tcp, ipproto_udp}
use adfilter.Ipc.{SockAddr, FltRequest, filter_allow, filter_deny, direction_out}
use adfilter.Process.{Plist, free_name}
use adfilter.Sids.{copy_sid_a}
use adfilter.OtEntry.{OtEntry, Objects, ot_find_fileobj, write_object}
use adfilter.ConnCtx.{ot_find_conn_ctx}
use adfilter.TcpConn
use adfilter.TcpConn.{Conns, add_tcp_conn, tcp_state_closed}
use adfilter.ObjTable.{
  Net, Status, success, del_tcp_conn, set_tcp_conn_state, set_tcp_conn_local,
  get_tcp_conn_state_by_obj,
}
use adfilter.Tdi.{
  World, Rule, no_rule, quick_filter, sender, new_request, type_connect, log_at, is_logged,
  is_counted,
}
use adfilter.Tdi.Disconnect.{
  tcp_state_syn_sent, tcp_state_syn_rcvd, tcp_state_established_in, tcp_state_established_out,
  tcp_state_fin_wait1, tcp_state_fin_wait2, tcp_state_time_wait, tcp_state_close_wait,
  tcp_state_last_ack,
}

-- A protocol of connections.
abbrev pub connect_proto : Option ℕ → Option ℕ
connect_proto none = none
connect_proto (some ipproto) =
    if ipproto == ipproto_tcp || ipproto == ipproto_udp then some ipproto else none

-- The address object: the associated one for TCP, and the object itself for UDP.
unfoldable pub address_object : ℕ → OtEntry → Objects → Option OtEntry
address_object ipproto ote_conn objects =
    if ipproto == ipproto_tcp
    then (if ote_conn.associated_fileobj == 0
        then none
        else ot_find_fileobj ote_conn.associated_fileobj objects)
    else some ote_conn

-- A field of `width` bytes at offset `start` after memcpy of the first `n` bytes of another struct;
-- the low byte of a number is the first.
abbrev pub copied_field : ℕ → ℕ → ℕ → ℕ → ℕ → ℕ
copied_field start width n new old =
    if leb (start + width) n
    then new
    else new % 256 ^ (n - start) + old / 256 ^ (n - start) * 256 ^ (n - start)

-- AddressType, sin_port and in_addr of a TA_ADDRESS.
abbrev pub copy_address : ℕ → SockAddr → SockAddr → SockAddr
copy_address n new old = record {
  sin_family = copied_field 2 2 n new.sin_family old.sin_family;
  sin_port = copied_field 4 2 n new.sin_port old.sin_port;
  sin_addr = copied_field 6 4 n new.sin_addr old.sin_addr;
}

-- Each address is copied for AddressLength bytes from AddressLength on, which is a field of two bytes.
abbrev pub with_addresses : SockAddr → ℕ → SockAddr → ℕ → OtEntry → OtEntry
with_addresses local_addr local_length remote_addr remote_length e = record e {
  local_addr = copy_address local_length local_addr e.local_addr;
  remote_addr = copy_address remote_length remote_addr e.remote_addr;
  local_length = copied_field 0 2 local_length local_length e.local_length;
  remote_length = copied_field 0 2 remote_length remote_length e.remote_length;
}

abbrev pub with_conn : Option ℕ → OtEntry → OtEntry
with_conn a e = record e { conn_entry = a }

abbrev pub with_log : Bool → OtEntry → OtEntry
with_log log e = record e { log_disconnect = log }

-- The answer, whether the completion routine is set, and its context: a copy of the request in a
-- block.
pub record Connecting : Type 0 where
  pub result : ℕ
  pub completes : Bool
  pub context : Option (ℕ × FltRequest)

abbrev pub denied : Connecting
denied = record { result = filter_deny; completes = false; context = none }

-- Where an IRP completed: its status, 0 for a success.
abbrev pub status_success : ℕ
status_success = 0

-- The type of a connection that failed.
unfoldable pub failed_type : ℕ → ℕ
failed_type status =
    if status == 0xC0000236 || status == 0xC000020D
    then 8
    else (if status == 0xC0000241 || status == 0xC0000120
        then 7
        else (if status == 0xC00000B5
            then 9
            else (if status == 0xC000023C
                  || status == 0xC000023D
                  || status == 0xC000023E
                  || status == 0xC000023F
                then 10
                else 4)))

-- The request of a connection that failed.
abbrev pub failed : ℕ → Option (ℕ × FltRequest) → Option (ℕ × FltRequest)
failed status none = none
failed status (some (a, request)) =
    some (a, record request { kind = failed_type status; status = status })

module _ (got_log : Bool) (plist : Plist) where
  -- The copy of a request that is to be logged at its completion.
  unfoldable pub keep_request : Bool → FltRequest → M (Option (ℕ × FltRequest))
  keep_request false request = pure none
  keep_request true request = do
    context_req ← ex_allocate_pool
    elim context_req [ none ↦ pure none | some a ↦ pure (some (a, request)) ]

  -- The end of tdi_connect after the connection stands in the table.
  unfoldable pub connected : ℕ → Rule → FltRequest → World → M (Connecting × World)
  connected fileobj rule request w = do
    context ← keep_request (is_logged got_log plist rule) request
    let objects =
          if is_logged got_log plist rule
          then write_object fileobj (with_log (is_counted got_log plist rule)) w.net.objects
          else w.net.objects in
        elim context [
          | some c ↦ pure (
            record { result = filter_allow; completes = true; context = some c },
            record w { net = record w.net { objects = objects } },
          )
          | none ↦ do
            (request', queue) ←
                log_at got_log plist (is_logged got_log plist rule) request w.net.queue
            free_name request'.sid_a
            pure (
              record { result = filter_allow; completes = true; context = none },
              record w { net = record w.net { objects = objects; queue = queue } },
            )
        ]

  -- The verdict: TCP that is allowed gets an entry, in state SYN_SENT.
  unfoldable pub connect_verdict :
      ℕ → ℕ → OtEntry → ℕ → Rule → FltRequest → World → M (Connecting × World)
  connect_verdict fileobj ipproto ote_conn result rule request w =
      elim (result == filter_allow && ipproto == ipproto_tcp) [
        | true ↦ do
          (status, ote, conns) ← add_tcp_conn ote_conn tcp_state_syn_sent w.net.conns
          elim (status) [
            | TcpConn.Status.success ↦ connected fileobj rule request (record w {
              net = record w.net {
                objects = write_object fileobj (with_conn ote.conn_entry) w.net.objects;
                conns = conns;
              };
            })
            | _ ↦ do free_name request.sid_a; pure (denied, w)
          ]
        | false ↦ do
          (request', queue) ←
              log_at got_log plist (is_logged got_log plist rule) request w.net.queue
          free_name request'.sid_a
          pure (
            record { result = result; completes = false; context = none },
            record w { net = record w.net { queue = queue } },
          )
      ]

  -- The device and whether it is one of the two, the file object, the current process, the remote
  -- address with its length, and the largest length of an address.
  unfoldable pub tdi_connect :
      Bool → Option ℕ → ℕ → ℕ → SockAddr → ℕ → ℕ → World → M (Connecting × World)
  tdi_connect known devobj fileobj pid remote_addr remote_length ta_address_max w = elim known [
    | false ↦ pure (denied, w)
    | true ↦ elim (ot_find_fileobj fileobj w.net.objects) [
      | none ↦ pure (denied, w)
      | some ote_conn ↦ elim (connect_proto devobj) [
        | none ↦ pure (denied, w)
        | some ipproto ↦ elim (address_object ipproto ote_conn w.net.objects) [
          | none ↦ pure (denied, w)
          | some ote_addr ↦
              elim (ote_addr.local_length == remote_length && leb remote_length ta_address_max) [
                | false ↦ pure (denied, w)
                | true ↦ do
                  sid_a ← copy_sid_a ote_addr.sid_a ote_addr.sid_a_size
                  let set =
                        with_addresses ote_addr.local_addr ote_addr.local_length remote_addr
                          remote_length in
                      let request =
                        new_request type_connect direction_out ipproto (sender pid ote_addr)
                          ote_addr sid_a ote_addr.local_addr remote_addr in
                      let (result, rule, adf) = quick_filter w.adf request no_rule in
                      connect_verdict fileobj ipproto (set ote_conn) result rule
                        (record request { log_rule_id = rule.rule_id })
                        (record w {
                          net = record w.net { objects = write_object fileobj set w.net.objects };
                          adf = adf;
                        })
              ]
        ]
      ]
    ]
  ]

  -- The log of the request that the context holds.
  unfoldable pub log_context : Option (ℕ × FltRequest) → World → M (Option (ℕ × FltRequest) × World)
  log_context none w = pure (none, w)
  log_context (some (a, request)) w = do
    (request', queue) ← log_at got_log plist true request w.net.queue
    pure (some (a, request'), record w { net = record w.net { queue = queue } })

  unfoldable pub free_context : Option (ℕ × FltRequest) → M (Unit {0})
  free_context none = pure tt
  free_context (some (a, request)) = do free_name request.sid_a; ex_free_pool a

  -- Whether the IRP got a fake status; the tick count is an input.
  unfoldable pub tdi_connect_complete :
      ℕ → ℕ → ℕ → Option (ℕ × FltRequest) → World → M (Bool × World)
  tdi_connect_complete ticks status connobj context w = elim (status == status_success) [
    | true ↦ do
      (context', w') ← log_context context w
      (set, net) ← set_tcp_conn_state connobj tcp_state_established_out w'.net
      free_context context'
      pure ((elim set [ success ↦ false | _ ↦ true ]), record w' { net = net })
    | false ↦ do
      (context', w') ← log_context (failed status context) w
      net ← del_tcp_conn got_log plist ticks connobj false w'.net
      free_context context'
      pure (false, record w' { net = net })
  ]

  -- The answer to the query of update_conn_info.
  unfoldable pub update_conn_info_complete : ℕ → SockAddr → ℕ → World → M World
  update_conn_info_complete connobj addr param w = do
    (status, net) ← set_tcp_conn_local connobj addr w.net
    ex_free_pool param
    pure (record w { net = net })
