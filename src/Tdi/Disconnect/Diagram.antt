-- ===== src/Tdi/Disconnect/Diagram.antt =====
-- A connection that is closed, by either side first, through the states of TCP.
use adfilter.Prelude.{
  ℕ, ◌≡◌, ◌≢◌, refl, ap, subst, ◌∙◌, ◌⊎◌, inl, inr, List, ◌∷◌, some, Bool, true, false, arith,
}
use adfilter.Pool.{Pool}
use adfilter.Process.{Plist}
use adfilter.OtEntry.{OtEntry, ot_find_fileobj}
use adfilter.ConnCtx.{ot_find_conn_ctx}
use adfilter.TcpConn.{Conn, tcp_state_none, closed}
use adfilter.TcpConn.Invariant.{IsConns}
use adfilter.TcpConn.Operations.{set_state_lem}
use adfilter.ObjTable.{Net, success, set_tcp_conn_state, get_tcp_conn_state_by_obj}
use adfilter.ObjTable.Connections.{del_tcp_conn-get_tcp_conn_state_by_obj}
use adfilter.Tdi.{World}
use adfilter.Tdi.Disconnect.{
  tcp_state_established_in, tcp_state_established_out, tcp_state_fin_wait1, tcp_state_fin_wait2,
  tcp_state_time_wait, tcp_state_close_wait, tcp_state_last_ack, disconnect_state, tdi_disconnect,
  tdi_disconnect_complete, tdi_event_disconnect,
}

-- The file object holds the entry `a`, which is in the state; the other entries are held or listed.
pub record IsAt (net : Net) (p : Pool) (connobj : ℕ) (ote : OtEntry) (a : ℕ) (held rest : List ℕ)
    (state : ℕ) : Type 0 where
  pub found : ot_find_fileobj connobj net.objects ≡ some ote
  pub entry : ote.conn_entry ≡ some a
  pub in_state : (ce : Conn) × (net.conns.heap a ≡ some ce) × (ce.state ≡ state)
  pub sound : IsConns net.conns p (a ∷ held) rest

module _ (connobj : ℕ) (ote : OtEntry) (a : ℕ) (p : Pool) (held rest : List ℕ) where
  get_at :
      (net : Net) (state : ℕ)
      → IsAt net p connobj ote a held rest state
      → get_tcp_conn_state_by_obj connobj net ≡ some state
  unfolding get_tcp_conn_state_by_obj
  get_at net state w =
      let f = w.found in
      let e = w.entry in let (ce, h, s) = w.in_state in ground (arith, f, e, h, s)

  set-IsAt :
      (net : Net) (state state' : ℕ)
      → IsAt net p connobj ote a held rest state
      → (net' : Net) × (set_tcp_conn_state connobj state' net p ≡ some ((success, net'), p))
        × IsAt net' p connobj ote a held rest state'
  unfolding set_tcp_conn_state
  set-IsAt net state state' w =
      let f = w.found in
      let e = w.entry in
      let (ce, c, _, g, h, v) = set_state_lem net.conns p a held rest state' w.sound in
      (
        record net { conns = c },
        ground (arith, f, e, g),
        record {
          found = w.found;
          entry = w.entry;
          in_state = (record ce { state = state' }, h, refl);
          sound = v;
        },
      )

module _ (got_log : Bool) (plist : Plist) (ticks uninitialised connobj addrobj conn_ctx : ℕ)
    (ote : OtEntry) (a : ℕ) (p : Pool) (held rest : List ℕ) where
  disconnect-IsAt :
      (w : World) (state : ℕ)
      → IsAt w.net p connobj ote a held rest state
      → (net' : Net) × (tdi_disconnect got_log plist uninitialised true connobj w p
          ≡ some ((disconnect_state uninitialised state, record w { net = net' }), p))
        × IsAt net' p connobj ote a held rest (disconnect_state uninitialised state)
  unfolding tdi_disconnect
  disconnect-IsAt w state k =
      let g = get_at connobj ote a p held rest w.net state k in
      let (net', e, k') =
        set-IsAt connobj ote a p held rest w.net state (disconnect_state uninitialised state) k in
      (net', ground (arith, g, e), k')

  fin_wait1_done :
      (w : World) (state : ℕ)
      → IsAt w.net p connobj ote a held rest state
      → (net' : Net) × (tdi_disconnect_complete got_log plist ticks true tcp_state_fin_wait1 connobj
            w p
          ≡ some (record w { net = net' }, p))
        × IsAt net' p connobj ote a held rest tcp_state_fin_wait2
  unfolding tdi_disconnect_complete
  fin_wait1_done w state k =
      let (net', e, k') = set-IsAt connobj ote a p held rest w.net state tcp_state_fin_wait2 k in
      (net', ground (arith, e), k')

  event_from_fin_wait2 :
      (w : World)
      → ot_find_conn_ctx addrobj conn_ctx w.contexts ≡ connobj
      → IsAt w.net p connobj ote a held rest tcp_state_fin_wait2
      → (net' : Net) × (tdi_event_disconnect got_log plist ticks true addrobj conn_ctx w p
          ≡ some (record w { net = net' }, p))
        × IsAt net' p connobj ote a held rest tcp_state_time_wait
  unfolding tdi_event_disconnect
  event_from_fin_wait2 w c k =
      let g = get_at connobj ote a p held rest w.net tcp_state_fin_wait2 k in
      let (net', e, k') =
        set-IsAt connobj ote a p held rest w.net tcp_state_fin_wait2 tcp_state_time_wait k in
      (net', ground (arith, c, g, e), k')

  event_from_established :
      (w : World) (state : ℕ)
      → ot_find_conn_ctx addrobj conn_ctx w.contexts ≡ connobj
      → (state ≡ tcp_state_established_in) ⊎ (state ≡ tcp_state_established_out)
      → IsAt w.net p connobj ote a held rest state
      → (net' : Net) × (tdi_event_disconnect got_log plist ticks true addrobj conn_ctx w p
          ≡ some (record w { net = net' }, p))
        × IsAt net' p connobj ote a held rest tcp_state_close_wait
  unfolding tdi_event_disconnect
  event_from_established w state c s k =
      let g = get_at connobj ote a p held rest w.net state k in
      let (net', e, k') = set-IsAt connobj ote a p held rest w.net state tcp_state_close_wait k in
      (net', elim s [ inl s ↦ ground (arith, c, g, e, s) | inr s ↦ ground (arith, c, g, e, s) ], k')

  last_ack_done :
      (w : World)
      → ote.log_disconnect ≡ false
      → IsAt w.net p connobj ote a held rest tcp_state_last_ack
      → (ce : Conn) × (net' : Net) × (tdi_disconnect_complete got_log plist ticks true
            tcp_state_last_ack connobj w p
          ≡ some (record w { net = net' }, p))
        × (get_tcp_conn_state_by_obj connobj net' ≡ some tcp_state_none)
        × (net'.conns.heap a ≡ some (closed ticks ce))
        × IsConns net'.conns p held rest
  unfolding tdi_disconnect_complete
  last_ack_done w l k =
      let (ce, net', e, g, h, v) =
        del_tcp_conn-get_tcp_conn_state_by_obj connobj a ote w.net p held rest got_log plist ticks
          true k.found k.entry (ground (arith, l)) k.sound in
      (ce, net', ground (arith, e), g, h, v)

  -- This side closes first: an established connection whose client releases it is in FIN_WAIT1,
  -- after the release succeeded in FIN_WAIT2, and after the release of the other side in TIME_WAIT;
  -- the table of connections stays sound and the object keeps its entry.
  pub tdi_disconnect-tdi_event_disconnect :
      (w : World) (state : ℕ)
      → ot_find_conn_ctx addrobj conn_ctx w.contexts ≡ connobj
      → (state ≡ tcp_state_established_in) ⊎ (state ≡ tcp_state_established_out)
      → IsAt w.net p connobj ote a held rest state
      → (w1 : World) × (w2 : World) × (w3 : World) × (tdi_disconnect got_log plist uninitialised
            true connobj w p
          ≡ some ((tcp_state_fin_wait1, w1), p))
        × (get_tcp_conn_state_by_obj connobj w1.net ≡ some tcp_state_fin_wait1)
        × (tdi_disconnect_complete got_log plist ticks true tcp_state_fin_wait1 connobj w1 p
            ≡ some (w2, p))
        × (get_tcp_conn_state_by_obj connobj w2.net ≡ some tcp_state_fin_wait2)
        × (tdi_event_disconnect got_log plist ticks true addrobj conn_ctx w2 p ≡ some (w3, p))
        × IsAt w3.net p connobj ote a held rest tcp_state_time_wait
  tdi_disconnect-tdi_event_disconnect w state c s k =
      let to : disconnect_state uninitialised state ≡ tcp_state_fin_wait1 = elim s [
        | inl s ↦ ground (arith, s)
        | inr s ↦ ground (arith, s)
      ] in
      let (n1, e1, k1) = disconnect-IsAt w state k in
      let k1' = subst (IsAt n1 p connobj ote a held rest) to k1 in
      let (n2, e2, k2) = fin_wait1_done (record w { net = n1 }) tcp_state_fin_wait1 k1' in
      let (n3, e3, k3) = event_from_fin_wait2 (record w { net = n2 }) c k2 in
      (
        record w { net = n1 },
        record w { net = n2 },
        record w { net = n3 },
        e1 ∙ ap (λ x. some ((x, record w { net = n1 }), p)) to,
        get_at connobj ote a p held rest n1 tcp_state_fin_wait1 k1',
        e2,
        get_at connobj ote a p held rest n2 tcp_state_fin_wait2 k2,
        e3,
        k3,
      )

  -- The other side closes first: an established connection is in CLOSE_WAIT after the release of the
  -- other side and in LAST_ACK after that of the client; when the latter succeeded, and the connection
  -- does not log, the object has no connection any more, and its entry is closed and waits for its
  -- deletion.
  pub tdi_event_disconnect-tdi_disconnect :
      (w : World) (state : ℕ)
      → ot_find_conn_ctx addrobj conn_ctx w.contexts ≡ connobj
      → (state ≡ tcp_state_established_in) ⊎ (state ≡ tcp_state_established_out)
      → ote.log_disconnect ≡ false
      → IsAt w.net p connobj ote a held rest state
      → (w1 : World) × (w2 : World) × (w3 : World) × (ce : Conn) × (tdi_event_disconnect got_log
            plist ticks true addrobj conn_ctx w p
          ≡ some (w1, p))
        × (get_tcp_conn_state_by_obj connobj w1.net ≡ some tcp_state_close_wait)
        × (tdi_disconnect got_log plist uninitialised true connobj w1 p
            ≡ some ((tcp_state_last_ack, w2), p))
        × (get_tcp_conn_state_by_obj connobj w2.net ≡ some tcp_state_last_ack)
        × (tdi_disconnect_complete got_log plist ticks true tcp_state_last_ack connobj w2 p
            ≡ some (w3, p))
        × (get_tcp_conn_state_by_obj connobj w3.net ≡ some tcp_state_none)
        × (w3.net.conns.heap a ≡ some (closed ticks ce))
        × IsConns w3.net.conns p held rest
  tdi_event_disconnect-tdi_disconnect w state c s l k =
      let (n1, e1, k1) = event_from_established w state c s k in
      let (n2, e2, k2) = disconnect-IsAt (record w { net = n1 }) tcp_state_close_wait k1 in
      let (ce, n3, e3, g, h, v) = last_ack_done (record w { net = n2 }) l k2 in
      (
        record w { net = n1 },
        record w { net = n2 },
        record w { net = n3 },
        ce,
        e1,
        get_at connobj ote a p held rest n1 tcp_state_close_wait k1,
        e2,
        get_at connobj ote a p held rest n2 tcp_state_last_ack k2,
        e3,
        g,
        h,
        v,
      )

  -- From any other state than these a release sets the state of the connection, and the context of its
  -- completion, to what an uninitialised variable happens to hold.
  tdi_disconnect-uninitialised :
      (w : World) (state : ℕ)
      → state ≢ tcp_state_established_in
      → state ≢ tcp_state_established_out
      → state ≢ tcp_state_close_wait
      → IsAt w.net p connobj ote a held rest state
      → (w' : World) × (tdi_disconnect got_log plist uninitialised true connobj w p
          ≡ some ((uninitialised, w'), p))
        × (get_tcp_conn_state_by_obj connobj w'.net ≡ some uninitialised)
  tdi_disconnect-uninitialised w state n1 n2 n3 k =
      let to : disconnect_state uninitialised state ≡ uninitialised = ground (arith, n1, n2, n3) in
      let (net, e, k') = disconnect-IsAt w state k in
      (
        record w { net = net },
        e ∙ ap (λ x. some ((x, record w { net = net }), p)) to,
        get_at connobj ote a p held rest net (disconnect_state uninitialised state) k' ∙ ap some to,
      )
