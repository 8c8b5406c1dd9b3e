-- ===== src/TcpConn.antt =====
-- sys/tdi_fw/src/conn_state.c: the TCP connections. The entries stand in a heap, by their address; a
-- chain of the hash table is the list of the addresses in the order of `next`, and `to_del` those of
-- the entries that the thread is to delete. Each operation holds the table's lock and is one step;
-- the signals to the thread are left out. An access to an entry that is not there is `fault`.
pub mod Find
pub mod Heap
pub mod Invariant
pub mod Operations
pub mod Steps
pub mod Sweep
pub mod Thread
pub mod Waiting
use adfilter.Prelude.{
  ℕ, ◌+◌, ◌-◌, ◌*◌, ◌%◌, ◌^◌, List, [], ◌∷◌, Option, none, some, Bool, true, false, ◌&&◌, ◌||◌,
  ◌==◌, leb, ltb, if◌then◌else◌,
}
use adfilter.Pool.{M, pure, fault, ◌>>=◌, ◌>>◌, ex_allocate_pool, ex_free_pool, remove_one, count}
use adfilter.Control.{need}
use adfilter.Ipc.{SockAddr}
use adfilter.OtEntry.{OtEntry}

-- struct conn_entry; the tick count is one number.
pub record Conn : Type 0 where
  pub state : ℕ
  pub laddr : ℕ
  pub lport : ℕ
  pub raddr : ℕ
  pub rport : ℕ
  pub connobj : ℕ
  pub ticks : ℕ

-- `back` is the entry that next_to_del of the last of `to_del` points to: none, as it is NULL, unless
-- the list was closed to a ring.
pub record Conns : Type 0 where
  pub heap : ℕ → Option Conn
  pub chain : ℕ → List ℕ
  pub to_del : List ℕ
  pub back : Option ℕ

pub data Status : Type 0 where
  success invalid_parameter insufficient_resources object_name_exists object_name_not_found : Status

abbrev pub tdi_address_type_ip : ℕ
tdi_address_type_ip = 2

abbrev pub tcp_state_none : ℕ
tcp_state_none = 0

abbrev pub tcp_state_closed : ℕ
tcp_state_closed = 10

abbrev pub conn_hash_size : ℕ
conn_hash_size = 0x1000

-- CALC_CONN_HASH
abbrev pub calc_conn_hash : ℕ → ℕ → ℕ → ℕ → ℕ
calc_conn_hash laddr lport raddr rport = (laddr + lport + raddr + rport) % 2 ^ 32 % conn_hash_size

abbrev pub hash_of : Conn → ℕ
hash_of ce = calc_conn_hash ce.laddr ce.lport ce.raddr ce.rport

-- A write to the memory at an address.
abbrev pub store : ℕ → Option Conn → (ℕ → Option Conn) → ℕ → Option Conn
store a ce heap b = if b == a then ce else heap b

abbrev pub set_chain : ℕ → List ℕ → (ℕ → List ℕ) → ℕ → List ℕ
set_chain h nodes chain j = if j == h then nodes else chain j

abbrev pub new_conn : OtEntry → ℕ → Conn
new_conn ote tcp_state = record {
  state = tcp_state;
  laddr = ote.local_addr.sin_addr;
  lport = ote.local_addr.sin_port;
  raddr = ote.remote_addr.sin_addr;
  rport = ote.remote_addr.sin_port;
  connobj = ote.fileobj;
  ticks = 0;
}

-- The entry at the head of the chain of its hash.
abbrev pub link_conn : ℕ → Conn → Conns → Conns
link_conn a ce c = record c {
  heap = store a (some ce) c.heap;
  chain = set_chain (hash_of ce) (a ∷ c.chain (hash_of ce)) c.chain;
}

unfoldable pub add_tcp_conn : OtEntry → ℕ → Conns → M (Status × OtEntry × Conns)
add_tcp_conn ote tcp_state c =
    elim (ote.local_addr.sin_family == tdi_address_type_ip
      && ote.remote_addr.sin_family == tdi_address_type_ip) [
        | false ↦ pure (invalid_parameter, ote, c)
        | true ↦ do
          ce ← ex_allocate_pool
          elim ce [
            | none ↦ pure (insufficient_resources, ote, c)
            | some a ↦ elim ote.conn_entry [
              | some e ↦ do ex_free_pool a; pure (object_name_exists, ote, c)
              | none ↦ pure (
                success,
                record ote { conn_entry = some a },
                link_conn a (new_conn ote tcp_state) c,
              )
            ]
          ]
      ]

abbrev pub closed : ℕ → Conn → Conn
closed ticks ce = record ce { state = tcp_state_closed; connobj = 0; ticks = ticks }

-- The entries in front of the first at `a`.
unfoldable pub before : ℕ → List ℕ → List ℕ
before a [] = []
before a (b ∷ more) = let rest = before a more in if b == a then [] else b ∷ rest

-- ce->next_to_del = g_conn_to_del; g_conn_to_del = ce. For an entry that is in the list already the
-- first line overwrites its link: the list ends there, and what was behind it is lost.
abbrev pub listed : ℕ → Conns → Conns
listed a c =
    if count a c.to_del == 0
    then record c { to_del = a ∷ c.to_del }
    else record c { to_del = a ∷ before a c.to_del; back = some a }

-- The tick count is an input.
unfoldable pub del_tcp_conn_obj : ℕ → ℕ → Conns → M Conns
del_tcp_conn_obj ticks a c = do
  ce ← need (c.heap a)
  pure (listed a (record c { heap = store a (some (closed ticks ce)) c.heap }))

-- ote_conn->conn_entry->state = state
unfoldable pub set_state : ℕ → ℕ → Conns → M Conns
set_state a state c = do
  ce ← need (c.heap a)
  pure (record c { heap = store a (some (record ce { state = state })) c.heap })

-- The entry without its node in the table.
unfoldable pub unlink_conn : ℕ → Conn → Conns → M Conns
unlink_conn a ce c = do
  nodes ← need (remove_one a (c.chain (hash_of ce)))
  pure (record c { chain = set_chain (hash_of ce) nodes c.chain })

abbrev pub moved : SockAddr → Conn → Conn
moved addr ce = record ce { laddr = addr.sin_addr; lport = addr.sin_port }

-- The entry moves to the chain of its new local address.
unfoldable pub set_local : ℕ → SockAddr → Conns → M Conns
set_local a addr c = do
  ce ← need (c.heap a)
  c' ← unlink_conn a ce c
  pure (link_conn a (moved addr ce) c')

abbrev pub is_conn : ℕ → ℕ → ℕ → ℕ → Conn → Bool
is_conn laddr lport raddr rport ce =
    ce.laddr == laddr && ce.lport == lport && ce.raddr == raddr && ce.rport == rport

-- The state of the first entry that passes; an outer `none` is an access to freed memory.
unfoldable pub state_in : (Conn → Bool) → (ℕ → Option Conn) → List ℕ → Option ℕ
state_in test heap [] = some tcp_state_none
state_in test heap (a ∷ more) =
    let rest = state_in test heap more in
    elim (heap a) [ none ↦ none | some ce ↦ if test ce then some ce.state else rest ]

unfoldable pub get_tcp_conn_state : ℕ → ℕ → ℕ → ℕ → Conns → Option ℕ
get_tcp_conn_state laddr lport raddr rport c =
    state_in (is_conn laddr lport raddr rport) c.heap
      (c.chain (calc_conn_hash laddr lport raddr rport))

-- MAX_CLOSED_TIME, in units of 100 ns.
abbrev pub max_closed_time : ℕ
max_closed_time = 20 * 1000 * 10000

-- KeQueryTimeIncrement, the tick count at the wake-up, and whether g_conn_thread is NULL.
module _ (increment now : ℕ) (stop : Bool) where
  -- `delta >= MAX_CLOSED_TIME`, where delta is negative for a later tick count.
  abbrev pub is_expired : Conn → Bool
  is_expired ce = leb (ce.ticks * increment + max_closed_time) (now * increment)

  -- What an entry that is not expired has left.
  abbrev pub time_left : Conn → ℕ
  time_left ce = ce.ticks * increment + max_closed_time - now * increment

  -- The timeout is kept with its sign changed; 0 is none.
  abbrev pub longer_wait : ℕ → ℕ → ℕ
  longer_wait left timeout = if ltb timeout left || timeout == 0 then left else timeout

  unfoldable pub remove_conn : ℕ → Conn → Conns → M Conns
  remove_conn a ce c = do
    c' ← unlink_conn a ce c
    ex_free_pool a
    pure (record c' { heap = store a none c'.heap })

  -- The loop of the thread over the entries to delete: those that stay, the timeout, and the table. It
  -- does not come to the end of a ring: it reads an entry that it has freed, or goes round for ever
  -- over those that stay, as the tick count is read once. Both are `fault`.
  unfoldable pub thread_loop : List ℕ → ℕ → Conns → M (List ℕ × ℕ × Conns)
  thread_loop [] timeout c = elim c.back [ none ↦ pure ([], timeout, c) | some a ↦ fault ]
  thread_loop (a ∷ more) timeout c = do
    ce ← need (c.heap a)
    elim (is_expired ce || stop) [
      | true ↦ do c' ← remove_conn a ce c; thread_loop more timeout c'
      | false ↦ do
        (kept, timeout', c') ← thread_loop more (longer_wait (time_left ce) timeout) c
        pure (a ∷ kept, timeout', c')
    ]

  -- One round of conn_thread after it wakes up: the timeout of its next wait, and the table.
  unfoldable pub thread_round : Conns → M (ℕ × Conns)
  thread_round c = do
    (kept, timeout, c') ← thread_loop c.to_del 0 c
    pure (timeout, record c' { to_del = kept })
