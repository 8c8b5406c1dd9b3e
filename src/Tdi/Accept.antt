-- ===== src/Tdi/Accept.antt =====
-- sys/tdi_fw/src/ev_conn.c: a connection that another host asks for. The handler of the client is an
-- input: the connection object that it accepts with, and the context. `rule` is not initialised in the
-- source before quick_filter, nor is `status`: both are inputs.
pub mod Reused
use adfilter.Prelude.{
  ℕ, List, [], ◌∷◌, Option, none, some, Bool, true, false, not, ◌&&◌, ◌||◌, ◌==◌, leb,
  if◌then◌else◌, replicate,
}
use adfilter.Pool.{Block, M, pure, ◌>>=◌, ◌>>◌, ex_allocate_pool, ex_free_pool}
use adfilter.Sock.{ipproto_tcp}
use adfilter.Ipc.{SockAddr, FltRequest, filter_allow, filter_deny, direction_in}
use adfilter.Process.{Plist, free_name}
use adfilter.Sids.{copy_sid_a}
use adfilter.OtEntry.{OtEntry, Objects, ot_find_fileobj, write_object}
use adfilter.ConnCtx
use adfilter.ConnCtx.{Contexts, ot_add_conn_ctx, ot_del_conn_ctx}
use adfilter.TcpConn
use adfilter.TcpConn.{Conns, add_tcp_conn, del_tcp_conn_obj}
use adfilter.ObjTable.{
  Net, blank_ote, log_if, end_listen, close_conn, del_tcp_conn, set_tcp_conn_state,
}
use adfilter.FilterInit.{zero_request}
use adfilter.Tdi.{
  World, Rule, quick_filter, new_request, type_connect, log_at, is_logged, is_counted,
}
use adfilter.Tdi.Connect.{with_addresses, with_conn, with_log}
use adfilter.Tdi.Disconnect.{tcp_state_syn_rcvd, tcp_state_established_in}

abbrev pub type_connect_error : ℕ
type_connect_error = 4

abbrev pub status_insufficient_resources : ℕ
status_insufficient_resources = 0xC000009A

abbrev pub status_object_name_not_found : ℕ
status_object_name_not_found = 0xC0000034

abbrev pub status_invalid_parameter : ℕ
status_invalid_parameter = 0xC000000D

abbrev pub status_info_length_mismatch : ℕ
status_info_length_mismatch = 0xC0000004

abbrev pub status_buffer_too_small : ℕ
status_buffer_too_small = 0xC0000023

abbrev pub status_object_name_exists : ℕ
status_object_name_exists = 0x40000000

abbrev pub context_status : ConnCtx.Status → ℕ
context_status ConnCtx.Status.success = 0
context_status ConnCtx.Status.insufficient_resources = status_insufficient_resources
context_status ConnCtx.Status.object_name_not_found = status_object_name_not_found

abbrev pub conn_status : TcpConn.Status → ℕ
conn_status TcpConn.Status.success = 0
conn_status TcpConn.Status.invalid_parameter = status_invalid_parameter
conn_status TcpConn.Status.insufficient_resources = status_insufficient_resources
conn_status TcpConn.Status.object_name_exists = status_object_name_exists
conn_status TcpConn.Status.object_name_not_found = status_object_name_not_found

-- The answer after add_tcp_conn.
abbrev pub verdict_of : TcpConn.Status → ℕ
verdict_of TcpConn.Status.success = filter_allow
verdict_of TcpConn.Status.invalid_parameter = filter_deny
verdict_of TcpConn.Status.insufficient_resources = filter_deny
verdict_of TcpConn.Status.object_name_exists = filter_deny
verdict_of TcpConn.Status.object_name_not_found = filter_deny

-- What the client's handler gave: the file object of its IRP, and its context.
pub record Accepting : Type 0 where
  pub connobj : ℕ
  pub conn_ctx : ℕ

abbrev pub with_ctx : ℕ → OtEntry → OtEntry
with_ctx conn_ctx e = record e { conn_ctx = conn_ctx }

-- bytes_in = bytes_out = 0, and the flag.
abbrev pub cleared : Bool → OtEntry → OtEntry
cleared log e = record e { bytes_in = 0; bytes_out = 0; log_disconnect = log }

-- The request as it is logged at the end.
abbrev pub final_request : ℕ → Rule → ℕ → FltRequest → FltRequest
final_request result rule status request =
    if not (result == filter_allow) && rule.result == filter_allow
    then record request { kind = type_connect_error; status = status }
    else request

abbrev pub put_objects : Objects → World → World
put_objects objects w = record w { net = record w.net { objects = objects } }

abbrev pub put_conns : Conns → World → World
put_conns conns w = record w { net = record w.net { conns = conns } }

module _ (got_log : Bool) (plist : Plist) (ticks : ℕ) where
  -- The entry of a connection that is denied after all, and its pointer.
  unfoldable pub drop_conn : Option OtEntry → World → M World
  drop_conn none w = pure w
  drop_conn (some ote) w = elim ote.conn_entry [
    | none ↦ pure w
    | some a ↦ do
      conns ← del_tcp_conn_obj ticks a w.net.conns
      pure (
          put_conns conns (put_objects (write_object ote.fileobj (with_conn none) w.net.objects) w))
  ]

  -- From `done` on: the log, the end of a connection that is denied, and the SID. Whether the event is
  -- accepted.
  unfoldable pub finish : ℕ → Rule → ℕ → FltRequest → Option OtEntry → World → M (Bool × World)
  finish result rule status request ote_conn w = do
    (request', queue) ←
        log_at got_log plist (is_logged got_log plist rule)
          (final_request result rule status request) w.net.queue
    w' ←
        drop_conn (if result == filter_allow then none else ote_conn)
          (record w { net = record w.net { queue = queue } })
    free_name request'.sid_a
    pure (result == filter_allow, w')

  -- The context of the connection object, where the client gave another.
  unfoldable pub change_ctx : ℕ → Accepting → OtEntry → World → M (ℕ × OtEntry × World)
  change_ctx addrobj accept ote w =
      if ote.conn_ctx == accept.conn_ctx then pure (0, ote, w) else (do
        (status, contexts) ← ot_del_conn_ctx ote.associated_fileobj ote.conn_ctx w.contexts
        elim (context_status status == 0) [
          | true ↦ do
            (status', contexts') ←
                ot_add_conn_ctx ote.associated_fileobj accept.conn_ctx accept.connobj contexts
            pure (
              context_status status',
              with_ctx accept.conn_ctx ote,
              put_objects (write_object accept.connobj (with_ctx accept.conn_ctx) w.net.objects)
                  (record w { contexts = contexts' }),
            )
          | false ↦ pure (context_status status, ote, record w { contexts = contexts })
        ])

  -- The old entries of a connection object that is used again; the pointers to them stay.
  unfoldable pub clear_entries : OtEntry → World → M World
  clear_entries ote w = do
    net ← end_listen got_log plist ticks ote w.net
    queue ←
        log_if got_log plist ticks
          (elim ote.conn_entry [
            | none ↦ false
            | some a ↦ ote.ipproto == ipproto_tcp && ote.log_disconnect
          ])
          ote net.queue
    conns ← close_conn got_log plist ticks ote.conn_entry net.conns
    pure (record w { net = record net { queue = queue; conns = conns } })

  -- The new entry of the connection object, whose addresses are set, in state SYN_RCVD.
  unfoldable pub set_up_conn :
      Accepting → Rule → FltRequest → (OtEntry → OtEntry) → OtEntry → World → M (Bool × World)
  set_up_conn accept rule request set ote w = do
    (status, ote', conns) ← add_tcp_conn (set ote) tcp_state_syn_rcvd w.net.conns
    finish (verdict_of status) rule (conn_status status) request (some ote') (
        put_conns conns (
          put_objects
            (write_object accept.connobj (with_conn ote'.conn_entry)
              (write_object accept.connobj set w.net.objects))
            w))

  -- The flags and the checks of the lengths before it.
  unfoldable pub set_up :
      OtEntry
      → SockAddr
      → ℕ
      → ℕ
      → Accepting
      → Rule
      → FltRequest
      → OtEntry
      → World
      → M (Bool × World)
  set_up ote_addr remote_addr remote_length ta_address_max accept rule request ote w =
      let flagged = cleared (is_counted got_log plist rule) in
      let w1 = put_objects (write_object accept.connobj flagged w.net.objects) w in
      elim (ote_addr.local_length == remote_length) [
        | false ↦
            finish filter_deny rule status_info_length_mismatch request (some (flagged ote)) w1
        | true ↦ elim (leb remote_length ta_address_max) [
          | false ↦ finish filter_deny rule status_buffer_too_small request (some (flagged ote)) w1
          | true ↦
              set_up_conn accept rule request
                (with_addresses ote_addr.local_addr ote_addr.local_length remote_addr remote_length)
                (flagged ote) w1
        ]
      ]

  -- From the answer of the client on. The block for the completion's parameters stays with the IRP.
  unfoldable pub accepted :
      ℕ → OtEntry → SockAddr → ℕ → ℕ → Accepting → Rule → FltRequest → World → M (Bool × World)
  accepted addrobj ote_addr remote_addr remote_length ta_address_max accept rule request w = do
    param ← ex_allocate_pool
    elim param [
      | none ↦ finish filter_deny rule status_insufficient_resources request none w
      | some b ↦ elim (ot_find_fileobj accept.connobj w.net.objects) [
        | none ↦ finish filter_deny rule status_object_name_not_found request none w
        | some ote_conn ↦ elim (ote_conn.associated_fileobj == addrobj) [
          | false ↦ finish filter_deny rule status_invalid_parameter request (some ote_conn) w
          | true ↦ do
            (status, ote, w') ← change_ctx addrobj accept ote_conn w
            elim (status == 0) [
              | false ↦ finish filter_deny rule status request (some ote) w'
              | true ↦ do
                w'' ← clear_entries ote w'
                set_up ote_addr remote_addr remote_length ta_address_max accept rule request ote w''
            ]
        ]
      ]
    ]

  -- The address object of the event's context, the remote address and its length, the largest length,
  -- and the client's answer, `none` for a refusal with its status.
  unfoldable pub tdi_event_connect :
      ℕ → Rule → ℕ → SockAddr → ℕ → ℕ → Option Accepting → ℕ → World → M (Bool × World)
  tdi_event_connect uninitialised rule addrobj remote_addr remote_length ta_address_max answer
        status w =
      elim (ot_find_fileobj addrobj w.net.objects) [
        | none ↦ finish filter_deny rule uninitialised zero_request none w
        | some ote_addr ↦ do
          sid_a ← copy_sid_a ote_addr.sid_a ote_addr.sid_a_size
          let plain =
                new_request type_connect direction_in ipproto_tcp ote_addr.pid ote_addr sid_a
                  remote_addr ote_addr.local_addr in
              let (result, rule', adf) = quick_filter w.adf plain rule in
              let request = record plain { log_rule_id = rule'.rule_id } in
              let w' = record w { adf = adf } in
              elim (result == filter_deny) [
                | true ↦ finish filter_deny rule' uninitialised request none w'
                | false ↦ elim answer [
                  | none ↦ finish filter_deny rule' status request none w'
                  | some accept ↦
                      accepted addrobj ote_addr remote_addr remote_length ta_address_max accept
                        rule' request w'
                ]
              ]
      ]

  -- The completion of the client's IRP: the state of the connection, and the block of the parameters.
  -- The call of the client's own completion routine is left out.
  unfoldable pub tdi_evconn_accept_complete : Bool → ℕ → ℕ → World → M World
  tdi_evconn_accept_complete succeeded connobj param w = elim succeeded [
    | true ↦ do
      (status, net) ← set_tcp_conn_state connobj tcp_state_established_in w.net
      ex_free_pool param
      pure (record w { net = net })
    | false ↦ do
      net ← del_tcp_conn got_log plist ticks connobj true w.net
      ex_free_pool param
      pure (record w { net = net })
  ]
