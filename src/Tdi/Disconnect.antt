-- ===== src/Tdi/Disconnect.antt =====
-- sys/tdi_fw/src/disp_conn.c and ev_conn.c: the release of a connection, by its client and by the
-- other side, and the states that it goes through.
pub mod Diagram
use adfilter.Prelude.{
  ℕ, List, [], ◌∷◌, Option, none, some, Bool, true, false, ◌&&◌, ◌||◌, ◌==◌, leb, if◌then◌else◌,
}
use adfilter.Pool.{Block, M, pure, ◌>>=◌, ◌>>◌, ex_allocate_pool, ex_free_pool}
use adfilter.Control.{need}
use adfilter.Sock.{ipproto_tcp, ipproto_udp}
use adfilter.Ipc.{SockAddr, FltRequest, filter_allow, filter_deny, direction_out}
use adfilter.Process.{Plist, free_name}
use adfilter.Sids.{copy_sid_a}
use adfilter.OtEntry.{OtEntry, Objects, ot_find_fileobj, write_object}
use adfilter.ConnCtx.{ot_find_conn_ctx}
use adfilter.TcpConn
use adfilter.TcpConn.{Conns, add_tcp_conn, tcp_state_closed}
use adfilter.ObjTable.{
  Net, Status, success, del_tcp_conn, set_tcp_conn_state, set_tcp_conn_local,
  get_tcp_conn_state_by_obj,
}
use adfilter.Tdi.{
  World, Rule, no_rule, quick_filter, sender, new_request, type_connect, log_at, is_logged,
  is_counted,
}

abbrev pub tcp_state_syn_sent : ℕ
tcp_state_syn_sent = 1

abbrev pub tcp_state_syn_rcvd : ℕ
tcp_state_syn_rcvd = 2

abbrev pub tcp_state_established_in : ℕ
tcp_state_established_in = 3

abbrev pub tcp_state_established_out : ℕ
tcp_state_established_out = 4

abbrev pub tcp_state_fin_wait1 : ℕ
tcp_state_fin_wait1 = 5

abbrev pub tcp_state_fin_wait2 : ℕ
tcp_state_fin_wait2 = 6

abbrev pub tcp_state_time_wait : ℕ
tcp_state_time_wait = 7

abbrev pub tcp_state_close_wait : ℕ
tcp_state_close_wait = 8

abbrev pub tcp_state_last_ack : ℕ
tcp_state_last_ack = 9

-- The state that TDI_DISCONNECT leads to. `new_state` is not initialised in the source: in any other
-- state it holds what its memory happens to have.
abbrev pub disconnect_state : ℕ → ℕ → ℕ
disconnect_state uninitialised state =
    if state == tcp_state_established_in || state == tcp_state_established_out
    then tcp_state_fin_wait1
    else (if state == tcp_state_close_wait then tcp_state_last_ack else uninitialised)

module _ (got_log : Bool) (plist : Plist) where
  -- The context of the completion is the new state.
  unfoldable pub tdi_disconnect : ℕ → Bool → ℕ → World → M (ℕ × World)
  tdi_disconnect uninitialised release connobj w = elim release [
    | true ↦ do
      state ← need (get_tcp_conn_state_by_obj connobj w.net)
      (status, net) ← set_tcp_conn_state connobj (disconnect_state uninitialised state) w.net
      pure (disconnect_state uninitialised state, record w { net = net })
    | false ↦ do
      (status, net) ← set_tcp_conn_state connobj tcp_state_closed w.net
      pure (tcp_state_closed, record w { net = net })
  ]

  unfoldable pub tdi_disconnect_complete : ℕ → Bool → ℕ → ℕ → World → M World
  tdi_disconnect_complete ticks succeeded state connobj w = elim succeeded [
    | false ↦ pure w
    | true ↦ elim (state == tcp_state_fin_wait1) [
      | true ↦ do
        (status, net) ← set_tcp_conn_state connobj tcp_state_fin_wait2 w.net
        pure (record w { net = net })
      | false ↦ elim (state == tcp_state_last_ack || state == tcp_state_closed) [
        | true ↦ do
          net ← del_tcp_conn got_log plist ticks connobj true w.net
          pure (record w { net = net })
        | false ↦ pure w
      ]
    ]
  ]

  -- The event of a disconnect, by the address object of its context and the connection's context; the
  -- handler of the client is called in any case.
  unfoldable pub tdi_event_disconnect : ℕ → Bool → ℕ → ℕ → World → M World
  tdi_event_disconnect ticks release addrobj conn_ctx w =
      let connobj = ot_find_conn_ctx addrobj conn_ctx w.contexts in
      elim release [
        | true ↦ do
          state ← need (get_tcp_conn_state_by_obj connobj w.net)
          elim (state == tcp_state_established_in || state == tcp_state_established_out) [
            | true ↦ do
              (status, net) ← set_tcp_conn_state connobj tcp_state_close_wait w.net
              pure (record w { net = net })
            | false ↦ elim (state == tcp_state_fin_wait2) [
              | true ↦ do
                (status, net) ← set_tcp_conn_state connobj tcp_state_time_wait w.net
                pure (record w { net = net })
              | false ↦ pure w
            ]
          ]
        | false ↦ do
          net ← del_tcp_conn got_log plist ticks connobj true w.net
          pure (record w { net = net })
      ]
