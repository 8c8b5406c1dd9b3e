-- ===== src/Tests/Connections.antt =====
-- One connection from 10.0.0.1 to port 80, of the object 0x20, whose address object is 0x40.
use adfilter.Prelude.{
  ℕ, ◌<◌, ◌≡◌, refl, ◌⊎◌, map, List, [], ◌∷◌, none, some, true, false, ◌==◌, if◌then◌else◌, arith,
}
use adfilter.Pool.{Pool, count, ex_allocate_pool}
use adfilter.Sock.{ipproto_tcp}
use adfilter.Ipc.{SockAddr}
use adfilter.OtEntry.{
  OtEntry, Objects, fileobj_addrobj, fileobj_connobj, calc_hash, find_ote, ot_find_fileobj, update,
}
use adfilter.TcpConn.{
  Conn, Conns, success, link_conn, new_conn, add_tcp_conn, closed, tcp_state_none, del_tcp_conn_obj,
  set_state, set_local, get_tcp_conn_state, thread_round,
}
use adfilter.TcpConn.Invariant.{IsConns, link-IsTracked, close-IsTracked}
use adfilter.TcpConn.Find.{HasConn, get_tcp_conn_state-HasConn}
use adfilter.TcpConn.Sweep.{survivors, WaitsAtMost, WaitsExactly}
use adfilter.TcpConn.Thread.{thread_round-survivors, thread_round-WaitsExactly}
use adfilter.TcpConn.Steps.{
  State, IsSound, add, Reach, here, next, start, start-IsSound, Reach-IsSound, Reach-Returns,
}
use adfilter.ObjTable
use adfilter.ObjTable.{Net, blank_ote, ot_del_fileobj, set_tcp_conn_local}
use adfilter.ObjTable.Delete.{ot_del_fileobj-connection}
use adfilter.ObjTable.Connections.{set_tcp_conn_local-get_tcp_conn_state}
use adfilter.NfoRequest.{TcpConnNfo, Answer, tcp_conn_nfo, tcp_conn_nfo_size, enum_tcp_conn}
use adfilter.NfoRequest.Listing.{AreOpen, IsListing, enum_tcp_conn-IsListing}
use adfilter.Tests.Logging
use adfilter.Tests.Processes.{two}

abbrev here_addr : SockAddr
here_addr = record { sin_family = 2; sin_port = 0x0010; sin_addr = 0x0100000A }

abbrev there_addr : SockAddr
there_addr = record { sin_family = 2; sin_port = 0x5000; sin_addr = 0x0200000A }

abbrev empty : Conns
empty = record { heap = λ _. none; chain = λ _. []; to_del = []; back = none }

-- Established from this side, in block 8.
abbrev pub conn : Conn
conn = record {
  state = 4;
  laddr = 0x0100000A;
  lport = 0x0010;
  raddr = 0x0200000A;
  rport = 0x5000;
  connobj = 0x20;
  ticks = 0;
}

abbrev pub one_conn : Conns
one_conn = link_conn 8 conn empty

abbrev bare : Pool
bare = record { live = []; replies = [] }

abbrev pub with_block : Pool
with_block = record { live = 8 ∷ []; replies = [] }

pub one-IsConns : IsConns one_conn with_block (8 ∷ []) []
one-IsConns =
    link-IsTracked [] empty bare 8 [] [] conn with_block (start-IsSound bare) refl (λ b. refl)

get_tcp_conn_state-HasConn_example :
    (state : ℕ) × (get_tcp_conn_state 0x0100000A 0x0010 0x0200000A 0x5000 one_conn ≡ some state)
    × (HasConn 0x0100000A 0x0010 0x0200000A 0x5000 one_conn state
        ⊎ ((state ≡ tcp_state_none)
            × ¬ ((other : ℕ) × HasConn 0x0100000A 0x0010 0x0200000A 0x5000 one_conn other)))
get_tcp_conn_state-HasConn_example =
    get_tcp_conn_state-HasConn 0x0100000A 0x0010 0x0200000A 0x5000 one_conn one-IsConns.table

-- The same entry, closed at tick 5.
abbrev pub closing : Conns
closing = record {
  heap = λ b. if b == 8 then some (closed 5 conn) else one_conn.heap b;
  chain = one_conn.chain;
  to_del = 8 ∷ [];
  back = none;
}

pub closing-IsConns : IsConns closing with_block [] []
closing-IsConns =
    let w = close-IsTracked [] one_conn with_block 8 [] [] conn 5 one-IsConns refl in
    record {
      table = w.table;
      owned = w.owned;
      are_closed = w.are_closed;
      no_ring = w.no_ring;
      blocks = w.blocks;
    }

stays : 0 < count 8 (survivors 100000 7 false closing.heap closing.to_del)
unfolding survivors
stays = omega arith

thread_round-WaitsExactly_example :
    (timeout : ℕ) × (c : Conns) × (q : Pool) × (thread_round 100000 7 false closing with_block
      ≡ some ((timeout, c), q))
    × WaitsAtMost 100000 7 false closing.heap timeout 8
    × ((timeout ≡ 0)
        ⊎ ((a : ℕ) × (0 < count a c.to_del) × WaitsExactly 100000 7 false closing.heap timeout a))
thread_round-WaitsExactly_example =
    thread_round-WaitsExactly 100000 7 false closing with_block [] [] 8 closing-IsConns stays

thread_round-survivors_example :
    (timeout : ℕ) × (c : Conns) × (q : Pool) × (thread_round 100000 7 false one_conn with_block
      ≡ some ((timeout, c), q))
    × (c.to_del ≡ survivors 100000 7 false one_conn.heap one_conn.to_del)
    × (c.heap 8 ≡ one_conn.heap 8)
    × IsConns c q (8 ∷ []) []
thread_round-survivors_example =
    thread_round-survivors 100000 7 false one_conn with_block (8 ∷ []) [] 8 one-IsConns
      (omega arith)

-- The connection object, and its address object.
abbrev pub ote : OtEntry
ote = record (blank_ote 16 0x20) {
  kind = fileobj_connobj;
  ipproto = ipproto_tcp;
  associated_fileobj = 0x40;
  conn_ctx = 5;
  conn_entry = some 8;
}

abbrev pub ote_addr : OtEntry
ote_addr = record (blank_ote 17 0x40) {
  kind = fileobj_addrobj;
  ipproto = ipproto_tcp;
  local_addr = here_addr;
  local_length = 14;
}

abbrev no_objects : Objects
no_objects _ = []

abbrev pub objects_of : OtEntry → Objects
objects_of e = update (calc_hash 0x20) (e ∷ []) (update (calc_hash 0x40) (ote_addr ∷ []) no_objects)

abbrev pub net_of : OtEntry → Conns → Net
net_of e conns = record {
  objects = objects_of e;
  listens = λ _. [];
  conns = conns;
  queue = Logging.start;
}

abbrev pub net : Net
net = net_of ote one_conn

pub found : ot_find_fileobj 0x20 net.objects ≡ some ote
unfolding ot_find_fileobj find_ote
found = refl

pub found_addr : ot_find_fileobj 0x40 net.objects ≡ some ote_addr
unfolding ot_find_fileobj find_ote
found_addr = refl

found_ote : find_ote 0x20 (net.objects (calc_hash 0x20)) ≡ some ote
unfolding find_ote
found_ote = refl

alone : find_ote 0x20 [] ≡ none
unfolding find_ote
alone = refl

set_tcp_conn_local-get_tcp_conn_state_example :
    (ce : Conn) × (net' : Net) × (set_tcp_conn_local 0x20 there_addr net with_block
      ≡ some ((ObjTable.Status.success, net'), with_block))
    × (one_conn.heap 8 ≡ some ce)
    × (get_tcp_conn_state 0x0200000A 0x5000 ce.raddr ce.rport net'.conns ≡ some ce.state)
    × IsConns net'.conns with_block (8 ∷ []) []
set_tcp_conn_local-get_tcp_conn_state_example =
    set_tcp_conn_local-get_tcp_conn_state 0x20 8 ote net with_block [] [] there_addr found refl
      one-IsConns

abbrev with_entry : Pool
with_entry = record { live = 8 ∷ 16 ∷ []; replies = [] }

entry-IsConns : IsConns one_conn with_entry (8 ∷ []) (16 ∷ [])
entry-IsConns = record {
  table = one-IsConns.table;
  owned = one-IsConns.owned;
  are_closed = one-IsConns.are_closed;
  no_ring = one-IsConns.no_ring;
  blocks = λ b. refl;
}

ot_del_fileobj-connection_example :
    (ce : Conn) × (net' : Net) × (q : Pool) × (ot_del_fileobj true two 5 0x20 net with_entry
      ≡ some ((ObjTable.Status.success, some fileobj_connobj, net'), q))
    × (ot_find_fileobj 0x20 net'.objects ≡ none)
    × (ot_find_fileobj 0x40 net'.objects ≡ ot_find_fileobj 0x40 net.objects)
    × (net'.conns.heap 8 ≡ some (closed 5 ce))
    × IsConns net'.conns q [] []
ot_del_fileobj-connection_example =
    ot_del_fileobj-connection true two 5 0x20 ote net with_entry 8 0x40 [] []
      (λ e. omega (arith, e)) (λ e. omega (arith, e)) found_ote (alone, tt) refl refl refl
      entry-IsConns

enum_tcp_conn-IsListing_example :
    (ces : List Conn) × (r : Answer TcpConnNfo) × (enum_tcp_conn 56 net ≡ some r)
    × AreOpen one_conn ces
    × IsListing tcp_conn_nfo_size 56 (map (tcp_conn_nfo net.objects) ces) r
enum_tcp_conn-IsListing_example = enum_tcp_conn-IsListing 56 net one-IsConns.table (omega arith)

-- From the empty table, with one block to give: the connection is added, for an object of IP.
abbrev one_reply : Pool
one_reply = record { live = []; replies = some 8 ∷ [] }

abbrev ip_ote : OtEntry
ip_ote = record (blank_ote 16 0x20) { local_addr = here_addr; remote_addr = there_addr }

abbrev added : State
added = record {
  conns = link_conn 8 (new_conn ip_ote 1) empty;
  pool = with_block;
  held = 8 ∷ [];
  rest = [];
}

adds :
    add_tcp_conn ip_ote 1 empty one_reply
    ≡ some ((success, record ip_ote { conn_entry = some 8 }, added.conns), with_block)
unfolding add_tcp_conn ex_allocate_pool
adds = refl

reached : Reach (start one_reply) added
reached =
    next here
      (add ip_ote 1 8 refl (record { local_ip = refl; remote_ip = refl }) refl adds refl refl)

Reach-IsSound_example : IsSound added
Reach-IsSound_example = Reach-IsSound reached (start-IsSound one_reply)

Reach-Returns_example :
    ((c : Conns) × (q : Pool) × (del_tcp_conn_obj 5 8 added.conns with_block ≡ some (c, q)))
    × ((c : Conns) × (q : Pool) × (set_state 8 4 added.conns with_block ≡ some (c, q)))
    × ((c : Conns) × (q : Pool) × (set_local 8 there_addr added.conns with_block ≡ some (c, q)))
    × ((timeout : ℕ) × (c : Conns) × (q : Pool) × (thread_round 100000 7 false added.conns
            with_block
          ≡ some ((timeout, c), q)))
Reach-Returns_example =
    Reach-Returns one_reply added 8 5 4 100000 7 false there_addr [] reached refl
