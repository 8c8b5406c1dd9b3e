-- ===== src/Tdi/Object.antt =====
-- sys/tdi_fw/src/disp_obj.c: file objects that are created, cleaned up and associated. The answers of
-- the kernel are inputs; what an IRP does next is left out.
pub mod Associate
pub mod Complete
use adfilter.Prelude.{
  ℕ, List, [], ◌∷◌, Option, none, some, Bool, true, false, not, ◌&&◌, ◌||◌, ◌==◌, ltb, leb,
  if◌then◌else◌, replicate,
}
use adfilter.Pool.{Block, M, pure, ◌>>=◌, ◌>>◌, ex_allocate_pool, ex_free_pool}
use adfilter.Sock.{ntohl, ipproto_tcp}
use adfilter.Ipc.{SockAddr, FltRequest, ulong_max, filter_allow, filter_deny, type_resolve_pid}
use adfilter.Process
use adfilter.Process.{Plist, pid_pname_resolve, pid_pname_set_event, free_name}
use adfilter.Rules.{Chains, default_chain_only}
use adfilter.RequestQueue.{Queue, log_request}
use adfilter.FilterInit.{zero_request}
use adfilter.IpcRequest.{request_size}
use adfilter.Sids.{copy_sid_a}
use adfilter.OtEntry.{
  EventContext, OtEntry, Objects, fileobj_addrobj, fileobj_connobj, ot_find_fileobj, write_object,
}
use adfilter.Listen
use adfilter.Listen.{Entry, add_listen, del_listen_obj}
use adfilter.ConnCtx
use adfilter.ConnCtx.{ot_add_conn_ctx, ot_del_conn_ctx}
use adfilter.ObjTable
use adfilter.ObjTable.{Net, sid_length, ot_add_fileobj, ot_del_fileobj}
use adfilter.Tdi.{World, sender}
use adfilter.Tdi.Connect.{copied_field, copy_address}

abbrev pub put_net : Net → World → World
put_net net w = record w { net = net }

abbrev pub put_queue : Queue → World → World
put_queue queue w = record w { net = record w.net { queue = queue } }

-- The extended attributes of a TDI_CREATE: none, the name of an address object, that of a connection
-- object with its context, or another name.
pub data Ea : Type 0 where
  no_ea transport_address other_name : Ea
  connection_context : ℕ → Ea

abbrev pub resolve_request : ℕ → Option Block → ℕ → FltRequest
resolve_request pid sid_a size = record zero_request {
  struct_size = request_size;
  kind = type_resolve_pid;
  pid = pid;
  sid_a_size = size;
  sid_a = sid_a;
}

abbrev pub is_known : Option (Option (List ℕ)) → Bool
is_known none = false
is_known (some name) = true

module _ (got_log : Bool) (ticks : ℕ) where
  -- The name of the process: the event's address, the call of get_current_sid_a and whether the user
  -- part answered in time are inputs. Whether TDI_CREATE goes on, the list of processes and the queue.
  unfoldable pub resolve_pid :
      ℕ → ℕ → M (Option Block × ℕ) → Bool → Chains → Plist → Queue → M (Bool × Plist × Queue)
  resolve_pid pid event get_current_sid_a answered chains plist queue =
      elim (is_known (pid_pname_resolve pid 0 plist)) [
        | true ↦ pure (true, plist, queue)
        | false ↦ do
          (set, plist1) ← pid_pname_set_event pid (some event) plist
          (sid_a, size) ← get_current_sid_a
          (logged, request, queue') ←
              log_request got_log plist1 (resolve_request pid sid_a size) queue
          free_name request.sid_a
          (reset, plist2) ← pid_pname_set_event pid none plist1
          pure ((if logged then answered else default_chain_only chains), plist2, queue')
      ]

  module _ (plist : Plist) where
    -- The rest of TDI_CREATE: the device's protocol, whether the query IRP can be built, and the
    -- answer, with whether the completion that asks for the address is set.
    unfoldable pub tdi_create :
        M (Option Block × ℕ) → ℕ → ℕ → ℕ → Option ℕ → Ea → Bool → World → M (ℕ × Bool × World)
    tdi_create get_current_sid_a pid devobj fileobj ipproto ea has_irp w = elim ea [
      | no_ea ↦ pure (filter_allow, false, w)
      | transport_address ↦ elim ipproto [
        | none ↦ pure (filter_deny, false, w)
        | some proto ↦ do
          (status, net) ←
              ot_add_fileobj got_log plist ticks get_current_sid_a pid devobj fileobj
                fileobj_addrobj proto 0 w.net
          elim status [
            | ObjTable.Status.success ↦
                if has_irp
                then pure (filter_allow, true, put_net net w)
                else pure (filter_deny, false, put_net net w)
            | _ ↦ pure (filter_deny, false, put_net net w)
          ]
      ]
      | connection_context conn_ctx ↦ elim ipproto [
        | none ↦ pure (filter_deny, false, w)
        | some proto ↦ do
          (status, net) ←
              ot_add_fileobj got_log plist ticks get_current_sid_a pid devobj fileobj
                fileobj_connobj proto conn_ctx w.net
          pure (
            (elim status [ ObjTable.Status.success ↦ filter_allow | _ ↦ filter_deny ]),
            false,
            put_net net w,
          )
      ]
      | other_name ↦ elim ipproto [
        | none ↦ pure (filter_deny, false, w)
        | some proto ↦ pure (filter_allow, false, w)
      ]
    ]

    unfoldable pub tdi_cleanup : ℕ → World → M (ℕ × World)
    tdi_cleanup fileobj w = do
      (status, kind, net) ← ot_del_fileobj got_log plist ticks fileobj w.net
      pure (filter_allow, put_net net w)

-- What IoCallDriver answers to the query of an address.
pub data Call : Type 0 where
  call_pending call_success call_failed : Call

abbrev pub is_pending : Call → Bool
is_pending call_pending = true
is_pending call_success = false
is_pending call_failed = false

-- The two blocks of the query: its context and the address information.
pub record Query : Type 0 where
  pub ctx : ℕ
  pub tai : ℕ

-- The query of the address of a new address object: whether there is an MDL and an original device,
-- and the answer of the call. Its status, and the blocks that the query has.
unfoldable pub query_address : Bool → Bool → Call → M (Call × Option Query)
query_address has_mdl has_devobj call = do
  ctx ← ex_allocate_pool
  elim ctx [
    | none ↦ pure (call_failed, none)
    | some a ↦ do
      tai ← ex_allocate_pool
      elim tai [
        | none ↦ do ex_free_pool a; pure (call_failed, none)
        | some b ↦ elim (has_mdl && has_devobj) [
          | true ↦ pure (call, some (record { ctx = a; tai = b }))
          | false ↦ do ex_free_pool b; ex_free_pool a; pure (call_failed, none)
        ]
      ]
  ]

module _ (got_log : Bool) (plist : Plist) (ticks : ℕ) where
  -- The entry is deleted unless the query is pending.
  unfoldable pub end_create : ℕ → Call → World → M World
  end_create fileobj call w = elim (is_pending call) [
    | true ↦ pure w
    | false ↦ do
      (status, kind, net) ← ot_del_fileobj got_log plist ticks fileobj w.net
      pure (put_net net w)
  ]

  -- The completion of the creation of an address object; `succeeded` is the status of its IRP.
  unfoldable pub tdi_create_addrobj_complete :
      ℕ → Bool → Bool → Bool → Call → World → M (Option Query × World)
  tdi_create_addrobj_complete fileobj succeeded has_mdl has_devobj call w = elim succeeded [
    | false ↦ do w' ← end_create fileobj call_failed w; pure (none, w')
    | true ↦ do
      (status, query) ← query_address has_mdl has_devobj call
      w' ← end_create fileobj status w
      pure (query, w')
  ]

-- The fields that the table of endpoints reads.
abbrev pub listening : OtEntry → Listen.Ote
listening ote = record {
  fileobj = ote.fileobj;
  is_ip = ote.local_addr.sin_family == 2;
  in_addr = ote.local_addr.sin_addr;
  sin_port = ote.local_addr.sin_port;
  ipproto = ote.ipproto;
  listen_entry = ote.listen_entry;
}

abbrev pub with_local : SockAddr → ℕ → OtEntry → OtEntry
with_local addr addr_length e = record e {
  local_addr = copy_address addr_length addr e.local_addr;
  local_length = copied_field 0 2 addr_length addr_length e.local_length;
}

abbrev pub with_listen : Option Entry → OtEntry → OtEntry
with_listen le e = record e { listen_entry = le }

-- An object that listens from now on, and the table of endpoints.
unfoldable pub begin_listen : ℕ → OtEntry → World → M World
begin_listen fileobj ote w = do
  (status, o, listens) ← add_listen (listening ote) w.net.listens
  pure (
      put_net
        (record w.net {
          objects = write_object fileobj (with_listen o.listen_entry) w.net.objects;
          listens = listens;
        })
        w)

unfoldable pub free_query : Query → M (Unit {0})
free_query q = do ex_free_pool q.tai; ex_free_pool q.ctx

-- The answer to the query: the address, with its length, and the largest one.
unfoldable pub tdi_create_addrobj_complete2 : ℕ → Query → SockAddr → ℕ → ℕ → World → M World
tdi_create_addrobj_complete2 fileobj query addr addr_length ta_address_max w =
    elim (ot_find_fileobj fileobj w.net.objects) [
      | none ↦ do free_query query; pure w
      | some ote_addr ↦ elim (leb addr_length ta_address_max) [
        | false ↦ do free_query query; pure w
        | true ↦
            let set = with_local addr addr_length in
            let w1 =
              put_net (record w.net { objects = write_object fileobj set w.net.objects }) w in
            elim (ote_addr.ipproto == ipproto_tcp) [
              | true ↦ do free_query query; pure w1
              | false ↦ do w2 ← begin_listen fileobj (set ote_addr) w1; free_query query; pure w2
            ]
      ]
    ]

abbrev pub with_associated : ℕ → OtEntry → OtEntry
with_associated addrobj e = record e { associated_fileobj = addrobj }

abbrev pub context_verdict : ConnCtx.Status → ℕ
context_verdict ConnCtx.Status.success = filter_allow
context_verdict ConnCtx.Status.insufficient_resources = filter_deny
context_verdict ConnCtx.Status.object_name_not_found = filter_deny

-- The address object that the handle stands for, if it is one.
unfoldable pub tdi_associate_address : Option ℕ → ℕ → World → M (ℕ × World)
tdi_associate_address handle connobj w = elim handle [
  | none ↦ pure (filter_deny, w)
  | some addrobj ↦ elim (ot_find_fileobj connobj w.net.objects) [
    | none ↦ pure (filter_deny, w)
    | some ote_conn ↦ do
      (status, contexts) ← ot_add_conn_ctx addrobj ote_conn.conn_ctx connobj w.contexts
      pure (
        context_verdict status,
        put_net
            (record w.net {
              objects = write_object connobj (with_associated addrobj) w.net.objects;
            })
            (record w { contexts = contexts }),
      )
  ]
]

unfoldable pub tdi_disassociate_address : ℕ → World → M (ℕ × World)
tdi_disassociate_address connobj w = elim (ot_find_fileobj connobj w.net.objects) [
  | none ↦ pure (filter_allow, w)
  | some ote_conn ↦ do
    (status, contexts) ← ot_del_conn_ctx ote_conn.associated_fileobj ote_conn.conn_ctx w.contexts
    pure (filter_allow, record w { contexts = contexts })
]
