-- ===== src/NfoRequest.antt =====
-- enum_listen and enum_tcp_conn of sys/tdi_fw/src/conn_state.c, and process_nfo_request of ipc.c: what
-- is told of the tables. The two loops over the hashes and over a chain are one over the entries in
-- that order; `buf_size` is below 2^32 - 28, so that no sum of sizes wraps around.
pub mod Listing
use adfilter.Prelude.{
  ℕ, zero, suc, ◌+◌, ◌*◌, List, [], ◌∷◌, ◌++◌, Option, none, some, Bool, true, false, not, ◌||◌,
  ◌==◌, ltb, if◌then◌else◌, length, map,
}
use adfilter.OtEntry.{OtEntry, Objects, ot_find_fileobj}
use adfilter.Listen
use adfilter.Listen.{Entry, listen_hash_size}
use adfilter.TcpConn.{Conn, Conns, conn_hash_size, tcp_state_closed}
use adfilter.ObjTable.{Net}
use adfilter.IpcRequest.{counters_size}

-- struct listen_nfo
pub record ListenNfo : Type 0 where
  pub ipproto : ℕ
  pub addr : ℕ
  pub port : ℕ
  pub pid : ℕ

-- struct tcp_conn_nfo
pub record TcpConnNfo : Type 0 where
  pub state : ℕ
  pub laddr : ℕ
  pub lport : ℕ
  pub raddr : ℕ
  pub rport : ℕ
  pub pid : ℕ
  pub bytes_in : ℕ
  pub bytes_out : ℕ

abbrev pub listen_nfo_size : ℕ
listen_nfo_size = 14

abbrev pub tcp_conn_nfo_size : ℕ
tcp_conn_nfo_size = 28

pub data Status : Type 0 where
  success invalid_parameter buffer_too_small info_length_mismatch not_supported : Status

-- The chains from the hash `h` on, `n` of them.
unfoldable pub chains_from {ℓ} : {A : Type ℓ} → ℕ → ℕ → (ℕ → List A) → List A
chains_from h zero t = []
chains_from h (suc n) t = t h ++ chains_from (suc h) n t

-- The loop that writes an item of `size` bytes for each entry, with `len` bytes written before: the
-- items, and whether it stops for want of room.
unfoldable pub enum_loop {ℓ} : {A : Type ℓ} → ℕ → ℕ → ℕ → List A → List A × Bool
enum_loop size buf_size len [] = ([], false)
enum_loop size buf_size len (x ∷ more) =
    let rest = enum_loop size buf_size (len + size) more in
    if ltb buf_size (len + size + size) then (x ∷ [], true) else (x ∷ rest.0, rest.1)

abbrev pub pid_of : Option OtEntry → ℕ
pid_of none = 0
pid_of (some ote) = ote.pid

abbrev pub bytes_in_of : Option OtEntry → ℕ
bytes_in_of none = 0
bytes_in_of (some ote) = ote.bytes_in

abbrev pub bytes_out_of : Option OtEntry → ℕ
bytes_out_of none = 0
bytes_out_of (some ote) = ote.bytes_out

abbrev pub listen_nfo : Objects → Entry → ListenNfo
listen_nfo objects le = record {
  ipproto = le.ipproto;
  addr = le.addr;
  port = le.port;
  pid = pid_of (ot_find_fileobj le.addrobj objects);
}

abbrev pub tcp_conn_nfo : Objects → Conn → TcpConnNfo
tcp_conn_nfo objects ce =
    let ote = ot_find_fileobj ce.connobj objects in
    record {
      state = ce.state;
      laddr = ce.laddr;
      lport = ce.lport;
      raddr = ce.raddr;
      rport = ce.rport;
      pid = pid_of ote;
      bytes_in = bytes_in_of ote;
      bytes_out = bytes_out_of ote;
    }

-- The items, as `*buf_len` bytes, and the status.
pub record Answer (A : Type 0) : Type 0 where
  pub status : Status
  pub buf_len : ℕ
  pub items : List A

abbrev pub refused : {A : Type 0} → Status → Answer A
refused st = record { status = st; buf_len = 0; items = [] }

unfoldable pub answer : {A : Type 0} → ℕ → List A × Bool → Answer A
answer size (items, small) = record {
  status = if small then buffer_too_small else success;
  buf_len = size * length items;
  items = items;
}

abbrev pub all_listens : Net → List ListenNfo
all_listens net = map (listen_nfo net.objects) (chains_from 0 listen_hash_size net.listens)

unfoldable pub enum_listen : ℕ → Net → Answer ListenNfo
enum_listen buf_size net =
    if ltb buf_size listen_nfo_size
    then refused invalid_parameter
    else answer listen_nfo_size (enum_loop listen_nfo_size buf_size 0 (all_listens net))

abbrev pub in_front {ℓ} : {A : Type ℓ} → A → Option (List A) → Option (List A)
in_front x none = none
in_front x (some xs) = some (x ∷ xs)

-- The entries that are not closed; `none` is an access to an entry that is not there.
unfoldable pub open_conns : (ℕ → Option Conn) → List ℕ → Option (List Conn)
open_conns heap [] = some []
open_conns heap (a ∷ more) =
    let rest = open_conns heap more in
    elim (heap a) [
      | none ↦ none
      | some ce ↦ if ce.state == tcp_state_closed then rest else in_front ce rest
    ]

unfoldable pub enum_tcp_conn : ℕ → Net → Option (Answer TcpConnNfo)
enum_tcp_conn buf_size net =
    if ltb buf_size tcp_conn_nfo_size
    then some (refused invalid_parameter)
    else (elim (open_conns net.conns.heap (chains_from 0 conn_hash_size net.conns.chain)) [
      | none ↦ none
      | some ces ↦ some (
          answer tcp_conn_nfo_size
            (enum_loop tcp_conn_nfo_size buf_size 0 (map (tcp_conn_nfo net.objects) ces)))
    ])

pub data Code : Type 0 where
  enum_listens enum_tcp_conns get_counters : Code
  other : ℕ → Code

pub data Reply : Type 0 where
  listens : Answer ListenNfo → Reply
  tcp_conns : Answer TcpConnNfo → Reply
  counters : Answer ℕ → Reply

abbrev pub the_conns : Option (Answer TcpConnNfo) → Option Reply
the_conns none = none
the_conns (some a) = some (tcp_conns a)

-- `has_buf` says whether the buffer is there; the counters are written without that test, and `none`
-- is a write to NULL.
unfoldable pub process_nfo_request : Code → Bool → ℕ → List ℕ → Net → Option Reply
process_nfo_request enum_listens has_buf buf_size g_traffic net =
    if ltb buf_size listen_nfo_size || not has_buf
    then some (listens (refused info_length_mismatch))
    else some (listens (enum_listen buf_size net))
process_nfo_request enum_tcp_conns has_buf buf_size g_traffic net =
    if ltb buf_size tcp_conn_nfo_size || not has_buf
    then some (tcp_conns (refused info_length_mismatch))
    else the_conns (enum_tcp_conn buf_size net)
process_nfo_request get_counters has_buf buf_size g_traffic net =
    if ltb buf_size counters_size
    then some (counters (refused info_length_mismatch))
    else (if has_buf
        then some
            (counters (record { status = success; buf_len = counters_size; items = g_traffic }))
        else none)
process_nfo_request (other code) has_buf buf_size g_traffic net =
    some (counters (refused not_supported))
