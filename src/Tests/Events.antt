-- ===== src/Tests/Events.antt =====
-- The events that a client sets, the bytes it received, and the ends of the tables.
use adfilter.Prelude.{
  false, List, true, ◌≡◌, ◌⊎◌, refl, [], ◌∷◌, ◌++◌, none, some, true, arith, map,
}
use adfilter.Pool.{Pool, Owns}
use adfilter.Ipc.{SockAddr, filter_allow, filter_deny}
use adfilter.Listen.{is_listen}
use adfilter.Listen.Find.{IsTable}
use adfilter.RequestQueue.Pending.{IsQueue}
use adfilter.OtEntry.{OtEntry, ot_find_fileobj}
use adfilter.ConnCtx.{ot_find_conn_ctx}
use adfilter.TcpConn.{Conns}
use adfilter.TcpConn.Invariant.{IsConns}
use adfilter.ObjTable.Ends.{Call, processed_connobj, passes}
use adfilter.ObjTable.Ends.Disconnects.{entries, IsReleased, passes-IsReleased}
use adfilter.ConnState
use adfilter.ConnState.{Tables, conn_state_init, conn_state_free}
use adfilter.ConnState.Ends.{
  IsShort, gone, no_conns, running, conn_state_free_lem, conn_state_init-conn_state_free,
}
use adfilter.Tdi.{World}
use adfilter.Tdi.Event.{event_connect, as_is, replaced, tdi_set_event_handler}
use adfilter.Tdi.Event.Listening.{tdi_set_event_handler-is_listen}
use adfilter.Tdi.Event.Bytes.{Received, receive_all, sum, receive_all-Received}
use adfilter.Tests.Processes.{two}
use adfilter.Tests.Connections.{
  ote, ote_addr, one_conn, with_block, one-IsConns, closing, closing-IsConns, found, found_addr,
}
use adfilter.Tests.Contexts.{world, found_connobj}

-- The reader's request owns block 6, and there is a block for the entry.
abbrev pool : Pool
pool = record { live = 6 ∷ []; replies = some 9 ∷ [] }

queue-IsQueue : IsQueue world.net.queue pool (6 ∷ [])
queue-IsQueue = record { head_in = omega arith; tail_in = omega arith; owned = λ b. refl }

tdi_set_event_handler-is_listen_example :
    ((w : World) × (q : Pool) × (tdi_set_event_handler true two 3 0x40 0 100 200 world pool
        ≡ some ((record { result = filter_deny; sent = replaced (some event_connect) }, w), q))
      × (w.net.listens ≡ world.net.listens)
      × IsQueue w.net.queue q (6 ∷ []))
    ⊎ ((w1 : World) × (w2 : World) × (q : Pool) × (r : Pool) × (tdi_set_event_handler true two 3
            0x40 0 100 200 world pool
          ≡ some ((record { result = filter_allow; sent = replaced (some event_connect) }, w1), q))
        × IsTable w1.net.listens
        × (is_listen ote_addr.local_addr.sin_addr ote_addr.local_addr.sin_port ote_addr.ipproto
              w1.net.listens
            ≡ true)
        × (tdi_set_event_handler true two 3 0x40 0 0 0 w1 q
            ≡ some ((record { result = filter_allow; sent = as_is }, w2), r))
        × (w2.net.listens 22 ≡ [])
        × IsQueue w2.net.queue r (6 ∷ []))
tdi_set_event_handler-is_listen_example =
    tdi_set_event_handler-is_listen true two 3 3 0x40 100 200 22 ote_addr world pool (6 ∷ [])
      found_addr (omega arith) refl refl (λ h. tt) queue-IsQueue

found_ctx : ot_find_fileobj (ot_find_conn_ctx 0x40 5 world.contexts) world.net.objects ≡ some ote
found_ctx = rw (found_connobj, found)

receive_all-Received_example :
    Received
      (ot_find_conn_ctx 0x40 5 world.contexts)
      ote
      (sum (3 ∷ 0 ∷ 4 ∷ []))
      world
      (receive_all 0x40 5 (3 ∷ 0 ∷ 4 ∷ []) world)
receive_all-Received_example =
    receive_all-Received 0x40 5 (3 ∷ 0 ∷ 4 ∷ []) ote world found_ctx (omega arith) (omega arith)
      (omega arith)

-- Two connected objects in one chain.
abbrev there_addr : SockAddr
there_addr = record { sin_family = 2; sin_port = 0x5000; sin_addr = 0x0200000A }

abbrev first : OtEntry
first = record ote { remote_addr = there_addr }

abbrev second : OtEntry
second = record first { at = 18; fileobj = 0x20020; conn_entry = none }

sound : IsConns one_conn with_block (entries (first ∷ second ∷ []) ++ []) []
unfolding entries
sound = one-IsConns

passes-IsReleased_example :
    (calls : List Call) × (c : Conns) × (passes 7
        (λ _. true)
        3
        (first ∷ second ∷ [])
        world.net.listens
        one_conn
        with_block
      ≡ some
          ((calls, map processed_connobj (first ∷ second ∷ []), world.net.listens, c), with_block))
    × IsReleased (λ _. true) (first ∷ second ∷ []) calls
    × IsConns c with_block [] []
passes-IsReleased_example =
    passes-IsReleased 7 world.net.listens with_block (λ _. true) 1 (first ∷ second ∷ []) one_conn []
      []
      (
        record { there = omega arith; kind = refl },
        (record { there = omega arith; kind = refl }, tt),
      )
      sound

-- Memory for the first table only.
abbrev one_table : Pool
one_table = record { live = 6 ∷ []; replies = some 9 ∷ none ∷ [] }

conn_state_init-conn_state_free_example :
    (status : ConnState.Status) × (t : Tables) × (q : Pool) × (conn_state_init true one_table
      ≡ some ((status, t), q))
    × (((status ≡ ConnState.Status.success)
          × (true ≡ true)
          × (c : Conns) × (r : Pool) × (conn_state_free 100000 7 t no_conns q ≡ some ((gone, c), r))
          × Owns r (6 ∷ []))
        ⊎ ((status ≡ ConnState.Status.insufficient_resources) × IsShort one_table × Owns q (6 ∷ []))
        ⊎ ((status ≡ ConnState.Status.thread_failed)
            × (true ≡ false)
            × Owns q (6 ∷ [])
            × (conn_state_free 100000 7 t no_conns q ≡ none)))
conn_state_init-conn_state_free_example =
    conn_state_init-conn_state_free 100000 7 true one_table (6 ∷ []) (λ b. refl) refl

-- A closed connection, and the two tables in the blocks 10 and 11.
abbrev three : Pool
three = record { live = 8 ∷ 10 ∷ 11 ∷ []; replies = [] }

three-IsConns : IsConns closing three [] (10 ∷ 11 ∷ [])
three-IsConns = record {
  table = closing-IsConns.table;
  owned = closing-IsConns.owned;
  are_closed = closing-IsConns.are_closed;
  no_ring = closing-IsConns.no_ring;
  blocks = λ b. refl;
}

conn_state_free_lem_example :
    (c : Conns) × (q : Pool) × (conn_state_free 100000 7 (running 10 11) closing three
      ≡ some ((gone, c), q))
    × (c.heap 8 ≡ none)
    × Owns q []
conn_state_free_lem_example = conn_state_free_lem 100000 7 10 11 8 closing three [] three-IsConns
