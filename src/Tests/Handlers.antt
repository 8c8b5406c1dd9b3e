-- ===== src/Tests/Handlers.antt =====
-- The handlers of TDI on the connection of Connections.
use adfilter.Prelude.{false, ℕ, ◌≡◌, refl, ◌⊎◌, inr, [], ◌∷◌, none, some, true, arith}
use adfilter.Pool.{Pool, ex_allocate_pool}
use adfilter.Sock.{ipproto_tcp}
use adfilter.Ipc.{SockAddr, filter_allow}
use adfilter.OtEntry.{OtEntry, find_ote, ot_find_fileobj}
use adfilter.TcpConn.{Conn, Conns, closed, tcp_state_none}
use adfilter.TcpConn.Invariant.{IsConns}
use adfilter.TcpConn.Steps.{start-IsSound}
use adfilter.ObjTable.{get_tcp_conn_state_by_obj}
use adfilter.Tdi.{World}
use adfilter.Tdi.Connect.{denied, tdi_connect}
use adfilter.Tdi.Disconnect.{tdi_disconnect, tdi_disconnect_complete, tdi_event_disconnect}
use adfilter.Tdi.Disconnect.Diagram.{
  IsAt, tdi_disconnect-tdi_event_disconnect, tdi_event_disconnect-tdi_disconnect,
}
use adfilter.Tdi.Connect.Open.{HasEnds, IsReady, tdi_connect-get_tcp_conn_state_by_obj}
use adfilter.Tdi.Accept.{Accepting, tdi_event_connect}
use adfilter.Tdi.Accept.Reused.{IsRing, tdi_event_connect-reused}
use adfilter.Tests.Connections.{
  conn, one_conn, with_block, one-IsConns, ote, ote_addr, objects_of, net_of, net, found,
  found_addr,
}
use adfilter.Tests.Processes.{two}
use adfilter.Tests.Contexts.{found_connobj, world_of, world}

-- Established.
IsAt-established : IsAt net with_block 0x20 ote 8 [] [] 4
IsAt-established = record {
  found = found;
  entry = refl;
  in_state = (conn, refl, refl);
  sound = one-IsConns;
}

tdi_disconnect-tdi_event_disconnect_example :
    (w1 : World) × (w2 : World) × (w3 : World) × (tdi_disconnect true two 99 true 0x20 world
        with_block
      ≡ some ((5, w1), with_block))
    × (get_tcp_conn_state_by_obj 0x20 w1.net ≡ some 5)
    × (tdi_disconnect_complete true two 7 true 5 0x20 w1 with_block ≡ some (w2, with_block))
    × (get_tcp_conn_state_by_obj 0x20 w2.net ≡ some 6)
    × (tdi_event_disconnect true two 7 true 0x40 5 w2 with_block ≡ some (w3, with_block))
    × IsAt w3.net with_block 0x20 ote 8 [] [] 7
tdi_disconnect-tdi_event_disconnect_example =
    tdi_disconnect-tdi_event_disconnect true two 7 99 0x20 0x40 5 ote 8 with_block [] [] world 4
      found_connobj (inr refl) IsAt-established

tdi_event_disconnect-tdi_disconnect_example :
    (w1 : World) × (w2 : World) × (w3 : World) × (ce : Conn) × (tdi_event_disconnect true two 7 true
        0x40 5 world with_block
      ≡ some (w1, with_block))
    × (get_tcp_conn_state_by_obj 0x20 w1.net ≡ some 8)
    × (tdi_disconnect true two 99 true 0x20 w1 with_block ≡ some ((9, w2), with_block))
    × (get_tcp_conn_state_by_obj 0x20 w2.net ≡ some 9)
    × (tdi_disconnect_complete true two 7 true 9 0x20 w2 with_block ≡ some (w3, with_block))
    × (get_tcp_conn_state_by_obj 0x20 w3.net ≡ some tcp_state_none)
    × (w3.net.conns.heap 8 ≡ some (closed 7 ce))
    × IsConns w3.net.conns with_block [] []
tdi_event_disconnect-tdi_disconnect_example =
    tdi_event_disconnect-tdi_disconnect true two 7 99 0x20 0x40 5 ote 8 with_block [] [] world 4
      found_connobj (inr refl) refl IsAt-established

-- A client's answer with the object whose old entry is still there, and a pool with one more block.
abbrev accept : Accepting
accept = record { connobj = 0x20; conn_ctx = 5 }

abbrev before_param : Pool
before_param = record { live = 8 ∷ []; replies = some 9 ∷ [] }

abbrev after_param : Pool
after_param = record { live = 9 ∷ 8 ∷ []; replies = [] }

gives_param : ex_allocate_pool before_param ≡ some (some 9, after_param)
unfolding ex_allocate_pool
gives_param = refl

param-IsConns : IsConns one_conn after_param (8 ∷ []) (9 ∷ [])
param-IsConns = record {
  table = one-IsConns.table;
  owned = one-IsConns.owned;
  are_closed = one-IsConns.are_closed;
  no_ring = one-IsConns.no_ring;
  blocks = λ b. omega arith;
}

abbrev far : SockAddr
far = record { sin_family = 2; sin_port = 0x5000; sin_addr = 0x0200000A }

tdi_event_connect-reused_example :
    (w : World) × (q : Pool) × (tdi_event_connect true two 7 99
        (record { result = 0; log = 0; rule_id = [] })
        0x40
        far
        14
        32
        (some accept)
        0
        world
        before_param
      ≡ some ((false, w), q))
    × IsRing 8 w.net.conns
tdi_event_connect-reused_example =
    tdi_event_connect-reused true two 7 99 0 0x40 9 8 ote_addr far 14 32 accept
      (record { result = 0; log = 0; rule_id = [] }) ote [] (9 ∷ []) world before_param after_param
      found_addr refl gives_param found refl refl refl refl refl refl param-IsConns

-- The object without a connection opens one.
abbrev pub idle : OtEntry
idle = record ote { conn_entry = none }

abbrev pub no_conns : Conns
no_conns = record { heap = λ _. none; chain = λ _. []; to_del = []; back = none }

abbrev idle_world : World
idle_world = world_of (net_of idle no_conns)

idle_found : ot_find_fileobj 0x20 (objects_of idle) ≡ some idle
unfolding ot_find_fileobj find_ote
idle_found = refl

idle_addr : ot_find_fileobj 0x40 (objects_of idle) ≡ some ote_addr
unfolding ot_find_fileobj find_ote
idle_addr = refl

ready : IsReady 0x20 (objects_of idle) idle ote_addr far 14 32
ready = record {
  found = idle_found;
  no_entry = refl;
  associated = λ e. omega (arith, e);
  address = idle_addr;
  no_sid = refl;
  same_length = refl;
  whole = omega arith;
  fits = omega arith;
  local_ip = refl;
  remote_ip = refl;
}

abbrev one_block : Pool
one_block = record { live = []; replies = some 8 ∷ [] }

tdi_connect-get_tcp_conn_state_by_obj_example :
    ((w : World) × (q : Pool) × (tdi_connect true two true
          (some ipproto_tcp)
          0x20
          10
          far
          14
          32
          idle_world
          one_block
        ≡ some ((denied, w), q))
      × (ex_allocate_pool one_block ≡ some (none, q))
      × (w.net.conns ≡ no_conns)
      × IsConns w.net.conns q [] [])
    ⊎ ((a : ℕ) × (w : World) × (q : Pool) × (tdi_connect true two true
            (some ipproto_tcp)
            0x20
            10
            far
            14
            32
            idle_world
            one_block
          ≡ some ((record { result = filter_allow; completes = true; context = none }, w), q))
        × (get_tcp_conn_state_by_obj 0x20 w.net ≡ some 1)
        × HasEnds ote_addr.local_addr far a w.net.conns
        × IsConns w.net.conns q (a ∷ []) [])
tdi_connect-get_tcp_conn_state_by_obj_example =
    tdi_connect-get_tcp_conn_state_by_obj true two (some ipproto_tcp) 0x20 10 14 32 far idle
      ote_addr idle_world one_block [] [] refl ready (start-IsSound one_block) refl
