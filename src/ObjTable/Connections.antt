-- ===== src/ObjTable/Connections.antt =====
-- The calls of conn_state.c by the file object of a connection.
use adfilter.Prelude.{
  ℕ, ◌≡◌, refl, ap, ◌∙◌, inl, inr, List, ◌∷◌, ◌++◌, Option, none, some, Bool, false, ◌&&◌, arith,
  take,
}
use adfilter.Pool.{Pool, Block, Owns, count-append, ex_allocate_pool_cases}
use adfilter.TcpConn.Find.{get_tcp_conn_state-head}
use adfilter.Ipc.{SockAddr}
use adfilter.Process.{Plist}
use adfilter.Process.Invariant.{name_blocks}
use adfilter.Sids.{copy_sid_a}
use adfilter.RequestQueue.{Queue}
use adfilter.RequestQueue.Pending.{IsQueue, pending, blocks}
use adfilter.RequestQueue.Log.{IsLogged, log_request-IsLogged}
use adfilter.OtEntry.{OtEntry, ot_find_fileobj, write_object}
use adfilter.OtEntry.Find.{written, ot_find_fileobj-write_object}
use adfilter.TcpConn.{Conn, tcp_state_none, moved, closed, get_tcp_conn_state}
use adfilter.TcpConn.Invariant.{IsConns}
use adfilter.TcpConn.Operations.{del_tcp_conn_obj_lem, set_state_lem, set_local_lem}
use adfilter.ObjTable.{
  Net, success, without_conn, disconnect_request, log_disconnect, log_if, close_conn, del_tcp_conn,
  set_tcp_conn_state, set_tcp_conn_local, get_tcp_conn_state_by_obj,
}

module _ (connobj a : ℕ) (ote : OtEntry) (net : Net) (p : Pool) (held rest : List ℕ) where
  -- A state that is set for the file object of a connection is the state that the object then has, and
  -- the table stays sound.
  set-get_tcp_conn_state_by_obj :
      (state : ℕ)
      → ot_find_fileobj connobj net.objects ≡ some ote
      → ote.conn_entry ≡ some a
      → IsConns net.conns p (a ∷ held) rest
      → (net' : Net) × (set_tcp_conn_state connobj state net p ≡ some ((success, net'), p))
        × (get_tcp_conn_state_by_obj connobj net' ≡ some state)
        × IsConns net'.conns p (a ∷ held) rest
  unfolding set_tcp_conn_state get_tcp_conn_state_by_obj
  set-get_tcp_conn_state_by_obj state f e w =
      let (ce, c, _, g, h, v) = set_state_lem net.conns p a held rest state w in
      (record net { conns = c }, ground (arith, f, e, g), ground (arith, f, e, h), v)

  -- The end of a connection that does not log: the file object has no connection any more, its entry
  -- is closed and waits for its deletion, and the table stays sound without it.
  pub del_tcp_conn-get_tcp_conn_state_by_obj :
      (got_log : Bool) (plist : Plist) (ticks : ℕ) (is_disconnect : Bool)
      → ot_find_fileobj connobj net.objects ≡ some ote
      → ote.conn_entry ≡ some a
      → (is_disconnect && ote.log_disconnect) ≡ false
      → IsConns net.conns p (a ∷ held) rest
      → (ce : Conn) × (net' : Net) × (del_tcp_conn got_log plist ticks connobj is_disconnect net p
          ≡ some (net', p))
        × (get_tcp_conn_state_by_obj connobj net' ≡ some tcp_state_none)
        × (net'.conns.heap a ≡ some (closed ticks ce))
        × IsConns net'.conns p held rest
  unfolding del_tcp_conn get_tcp_conn_state_by_obj log_if close_conn
  del_tcp_conn-get_tcp_conn_state_by_obj got_log plist ticks is_disconnect f e l w =
      let (ce, c, _, g, h, _, v) = del_tcp_conn_obj_lem net.conns p a held rest ticks w in
      let gone =
        (ot_find_fileobj-write_object connobj connobj without_conn net.objects (λ e. refl)).0
        ∙ ap (written without_conn) f in
      (
        ce,
        record net { objects = write_object connobj without_conn net.objects; conns = c },
        ground (arith, f, e, l, g),
        ground (arith, gone),
        h,
        v,
      )

  -- A connection whose file object gets a local address is found under that address from then on, with
  -- its state, and its entry keeps the remote address; the table stays sound.
  pub set_tcp_conn_local-get_tcp_conn_state :
      (addr : SockAddr)
      → ot_find_fileobj connobj net.objects ≡ some ote
      → ote.conn_entry ≡ some a
      → IsConns net.conns p (a ∷ held) rest
      → (ce : Conn) × (net' : Net) × (set_tcp_conn_local connobj addr net p
          ≡ some ((success, net'), p))
        × (net.conns.heap a ≡ some ce)
        × (get_tcp_conn_state addr.sin_addr addr.sin_port ce.raddr ce.rport net'.conns
            ≡ some ce.state)
        × IsConns net'.conns p (a ∷ held) rest
  unfolding set_tcp_conn_local
  set_tcp_conn_local-get_tcp_conn_state addr f e w =
      let (ce, c, i, g, h, (ns, k), v) = set_local_lem net.conns p a held rest addr w in
      (
        ce,
        record net { conns = c },
        ground (arith, f, e, g),
        i,
        get_tcp_conn_state-head a (moved addr ce) c ns h k,
        v,
      )

-- The copy of the SID of a file object, if it has one and there is memory for it.
pub copy_sid_a_cases :
    (sid_a : Option Block) (size : ℕ) (p : Pool) (rest : List ℕ)
    → Owns p rest
    → (copy : Option Block) × (q : Pool) × (copy_sid_a sid_a size p ≡ some (copy, q))
      × Owns q (name_blocks copy ++ rest)
unfolding copy_sid_a
copy_sid_a_cases none size p rest o = (none, p, refl, o)
copy_sid_a_cases (some b) size p rest o = elim (ex_allocate_pool_cases p rest o) [
  | inl (q, e, o') ↦ (none, q, ground (arith, e), o')
  | inr (a, q, e, o') ↦
      (some (record { at = a; bytes = take size b.bytes }), q, ground (arith, e), o')
]

-- The end of a connection that logs: the newest entry of the queue is a disconnect with the addresses
-- and the traffic of the connection, and with a copy of its SID where there is memory for one; a full
-- queue first loses its oldest entry; the queue and the pool stay well formed.
log_disconnect-IsLogged :
    (got_log : Bool) (plist : Plist) (ticks : ℕ) (ote : OtEntry) (q : Queue) (p : Pool)
    (rest : List ℕ)
    → IsQueue q p rest
    → (sid_a : Option Block) × (skipped : ℕ) × (q' : Queue) × (u : Pool) × (t : Pool)
      × (log_disconnect got_log plist ticks ote q p ≡ some (q', t))
      × (copy_sid_a ote.sid_a ote.sid_a_size p ≡ some (sid_a, u))
      × IsLogged plist (disconnect_request ote sid_a) u q q' skipped
      × IsQueue q' t rest
unfolding log_disconnect
log_disconnect-IsLogged got_log plist ticks ote q p rest w =
    let (sid_a, u, e, o) =
      copy_sid_a_cases ote.sid_a ote.sid_a_size p (blocks (pending q) ++ rest) w.owned in
    let w' : IsQueue q u (name_blocks sid_a ++ rest) = record {
      head_in = w.head_in;
      tail_in = w.tail_in;
      owned = λ b. omega (
        arith,
        o b,
        count-append b (name_blocks sid_a) (blocks (pending q) ++ rest),
        count-append b (blocks (pending q)) rest,
        count-append b (blocks (pending q)) (name_blocks sid_a ++ rest),
        count-append b (name_blocks sid_a) rest,
      );
    } in
    let (skipped, q', t, f, l, k) =
      log_request-IsLogged got_log plist (disconnect_request ote sid_a) q u rest w'
        (ground arith) in
    (sid_a, skipped, q', u, t, ground (arith, e, f), e, l, k)
