-- ===== src/ObjTable.antt =====
-- sys/tdi_fw/src/obj_tbl.c: the table of file objects, with what the end of an object does to its
-- listening endpoint or its connection, and log_disconnect and the calls of conn_state.c that begin
-- with a file object. Each operation holds the locks and is one step.
pub mod Add
pub mod Delete
pub mod Distinct
pub mod Ends
pub mod Connections
use adfilter.Prelude.{
  ℕ, ◌^◌, ◌-◌, List, [], ◌∷◌, Option, none, some, Bool, true, false, ◌&&◌, ◌==◌, if◌then◌else◌,
  replicate,
}
use adfilter.Pool.{Block, M, pure, fault, ◌>>=◌, ◌>>◌, ex_allocate_pool, ex_free_pool}
use adfilter.Control.{need}
use adfilter.Sock.{ipproto_tcp}
use adfilter.Ipc.{SockAddr, FltRequest, ulong_max, direction_any, filter_disconnect}
use adfilter.Process.{Plist, free_name}
use adfilter.RequestQueue.{Queue, log_request}
use adfilter.Sids.{copy_sid_a}
use adfilter.IpcRequest.{request_size}
use adfilter.OtEntry.{
  EventContext, OtEntry, Objects, fileobj_addrobj, fileobj_connobj, calc_hash, find_ote,
  ot_find_fileobj, update, write_object,
}
use adfilter.Listen
use adfilter.Listen.{del_listen_obj}
use adfilter.TcpConn.{Conns, del_tcp_conn_obj, set_state, set_local, tcp_state_none}

-- The tables behind the two locks, and the queue of requests to be logged.
pub record Net : Type 0 where
  pub objects : Objects
  pub listens : Listen.Table
  pub conns : Conns
  pub queue : Queue

pub data Status : Type 0 where
  success invalid_parameter invalid_parameter_1 invalid_parameter_2 insufficient_resources : Status
  object_name_not_found : Status

abbrev pub no_addr : SockAddr
no_addr = record { sin_family = 0; sin_port = 0; sin_addr = 0 }

abbrev pub no_ctx : ℕ → ℕ → EventContext
no_ctx fileobj i = record { fileobj = fileobj; old_handler = 0; old_context = 0 }

-- All fields zero but for the place in the chain and the file object.
abbrev pub blank_ote : ℕ → ℕ → OtEntry
blank_ote a fileobj = record {
  at = a;
  pid = 0;
  sid_a = none;
  sid_a_size = 0;
  devobj = 0;
  fileobj = fileobj;
  associated_fileobj = 0;
  kind = 0;
  ipproto = 0;
  ctx = no_ctx fileobj;
  local_addr = no_addr;
  remote_addr = no_addr;
  local_length = 0;
  remote_length = 0;
  conn_ctx = 0;
  listen_entry = none;
  conn_entry = none;
  bytes_out = 0;
  bytes_in = 0;
  log_disconnect = false;
}

abbrev pub sid_length : Option Block → ℕ → ℕ
sid_length none size = 0
sid_length (some b) size = size

abbrev pub disconnect_request : OtEntry → Option Block → FltRequest
disconnect_request ote sid_a = record {
  struct_size = request_size;
  kind = 0;
  status = 0;
  result = filter_disconnect;
  direction = direction_any;
  proto = ote.ipproto;
  pid = ulong_max;
  sid_a_size = sid_length sid_a ote.sid_a_size;
  from = ote.local_addr;
  to = ote.remote_addr;
  addr_len = 16;
  log_skipped = 0;
  log_bytes_in = ote.bytes_in;
  log_bytes_out = ote.bytes_out;
  log_rule_id = replicate 32 0;
  pname = none;
  sid_a = sid_a;
}

-- The arguments of ot_add_fileobj, the process, and what get_current_sid_a gave.
abbrev pub filled : ℕ → Option Block → ℕ → ℕ → ℕ → ℕ → ℕ → OtEntry → OtEntry
filled pid sid_a sid_a_size devobj kind ipproto conn_ctx e = record e {
  pid = pid;
  sid_a = sid_a;
  sid_a_size = sid_a_size;
  devobj = devobj;
  kind = kind;
  ipproto = ipproto;
  conn_ctx = conn_ctx;
}

-- The first entry of the file object without its place in the chain.
unfoldable pub unlink_ote : ℕ → List OtEntry → List OtEntry
unlink_ote fileobj [] = []
unlink_ote fileobj (e ∷ more) =
    let rest = unlink_ote fileobj more in if e.fileobj == fileobj then more else e ∷ rest

-- ote_conn->conn_entry = NULL
abbrev pub without_conn : OtEntry → OtEntry
without_conn e = record e { conn_entry = none }

-- Whether the reader is there, the list of processes, and the tick count are inputs.
module _ (got_log : Bool) (plist : Plist) (ticks : ℕ) where
  unfoldable pub log_disconnect : OtEntry → Queue → M Queue
  log_disconnect ote queue = do
    sid_a ← copy_sid_a ote.sid_a ote.sid_a_size
    (logged, request, queue') ← log_request got_log plist (disconnect_request ote sid_a) queue
    pure queue'

  -- Under a condition.
  unfoldable pub log_if : Bool → OtEntry → Queue → M Queue
  log_if false ote queue = pure queue
  log_if true ote queue = log_disconnect ote queue

  unfoldable pub end_listen : OtEntry → Net → M Net
  end_listen ote net = elim ote.listen_entry [
    | none ↦ pure net
    | some e ↦ do listens ← del_listen_obj e net.listens; pure (record net { listens = listens })
  ]

  unfoldable pub end_conn : OtEntry → Net → M Net
  end_conn ote net = elim ote.conn_entry [
    | none ↦ pure net
    | some a ↦ do
      queue ← log_if (ote.ipproto == ipproto_tcp && ote.log_disconnect) ote net.queue
      conns ← del_tcp_conn_obj ticks a net.conns
      pure (record net { conns = conns; queue = queue })
  ]

  -- What the end of a file object does by its type.
  unfoldable pub end_object : OtEntry → Net → M Net
  end_object ote net = elim (ote.kind == fileobj_addrobj) [
    | true ↦ end_listen ote net
    | false ↦ elim (ote.kind == fileobj_connobj) [ true ↦ end_conn ote net | false ↦ pure net ]
  ]

  unfoldable pub ot_cleanup_ote : OtEntry → Net → M Net
  ot_cleanup_ote ote net = do
    net' ← end_object ote net
    pure (record net' {
      objects = write_object ote.fileobj (λ e. blank_ote e.at e.fileobj) net'.objects;
    })

  -- The call of get_current_sid_a and the rest of the function.
  unfoldable pub ot_add_fileobj :
      M (Option Block × ℕ) → ℕ → ℕ → ℕ → ℕ → ℕ → ℕ → Net → M (Status × Net)
  ot_add_fileobj get_current_sid_a pid devobj fileobj kind ipproto conn_ctx net =
      elim (fileobj == 0) [
        | true ↦ pure (invalid_parameter_2, net)
        | false ↦ do
          (sid_a, sid_a_size) ← get_current_sid_a
          elim (find_ote fileobj (net.objects (calc_hash fileobj))) [
            | none ↦ do
              new ← ex_allocate_pool
              elim new [
                | none ↦ do free_name sid_a; pure (insufficient_resources, net)
                | some a ↦
                    let e =
                      filled pid sid_a sid_a_size devobj kind ipproto conn_ctx
                        (blank_ote a fileobj) in
                    let h = calc_hash fileobj in
                    pure
                      (success, record net { objects = update h (e ∷ net.objects h) net.objects })
              ]
            | some old ↦ do
              net' ← ot_cleanup_ote old net
              pure (
                success,
                record net' {
                  objects =
                      write_object fileobj
                        (filled pid sid_a sid_a_size devobj kind ipproto conn_ctx) net'.objects;
                },
              )
          ]
      ]

  -- The status, the type of the object that is gone, and the tables.
  unfoldable pub ot_del_fileobj : ℕ → Net → M (Status × Option ℕ × Net)
  unfolding unlink_ote
  ot_del_fileobj fileobj net = elim (fileobj == 0) [
    | true ↦ pure (invalid_parameter_1, none, net)
    | false ↦ elim (find_ote fileobj (net.objects (calc_hash fileobj))) [
      | none ↦ pure (object_name_not_found, none, net)
      | some ote ↦ do
        net' ← end_object ote net
        free_name ote.sid_a
        ex_free_pool ote.at
        let h = calc_hash fileobj in
            pure (
              success,
              some ote.kind,
              record net' { objects = update h (unlink_ote fileobj (net'.objects h)) net'.objects },
            )
    ]
  ]

  unfoldable pub close_conn : Option ℕ → Conns → M Conns
  close_conn none conns = pure conns
  close_conn (some a) conns = del_tcp_conn_obj ticks a conns

  unfoldable pub del_tcp_conn : ℕ → Bool → Net → M Net
  del_tcp_conn connobj is_disconnect net = elim (ot_find_fileobj connobj net.objects) [
    | none ↦ pure net
    | some ote_conn ↦ do
      queue ← log_if (is_disconnect && ote_conn.log_disconnect) ote_conn net.queue
      conns ← close_conn ote_conn.conn_entry net.conns
      pure (record net {
        objects = write_object connobj without_conn net.objects;
        conns = conns;
        queue = queue;
      })
  ]

unfoldable pub set_tcp_conn_state : ℕ → ℕ → Net → M (Status × Net)
set_tcp_conn_state connobj state net = elim (ot_find_fileobj connobj net.objects) [
  | none ↦ pure (object_name_not_found, net)
  | some ote_conn ↦ elim ote_conn.conn_entry [
    | none ↦ pure (invalid_parameter, net)
    | some a ↦ do conns ← set_state a state net.conns; pure (success, record net { conns = conns })
  ]
]

unfoldable pub set_tcp_conn_local : ℕ → SockAddr → Net → M (Status × Net)
set_tcp_conn_local connobj addr net = elim (ot_find_fileobj connobj net.objects) [
  | none ↦ pure (object_name_not_found, net)
  | some ote_conn ↦ elim ote_conn.conn_entry [
    | none ↦ pure (invalid_parameter, net)
    | some a ↦ do conns ← set_local a addr net.conns; pure (success, record net { conns = conns })
  ]
]

-- `none` is an access to an entry that is not there.
unfoldable pub get_tcp_conn_state_by_obj : ℕ → Net → Option ℕ
get_tcp_conn_state_by_obj connobj net = elim (ot_find_fileobj connobj net.objects) [
  | none ↦ some tcp_state_none
  | some ote_conn ↦ elim ote_conn.conn_entry [
    | none ↦ some tcp_state_none
    | some a ↦ elim (net.conns.heap a) [ none ↦ none | some ce ↦ some ce.state ]
  ]
]
