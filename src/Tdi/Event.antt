-- ===== src/Tdi/Event.antt =====
-- sys/tdi_fw/src/disp_ev.c, ev_recv.c and events.c: the event handlers that a client sets, which the
-- driver puts its own in the place of, and the events of received bytes. A handler of the client and
-- its context are numbers, 0 for NULL; what the client's handler answers is an input.
pub mod Changes
pub mod Listening
pub mod Bytes
use adfilter.Prelude.{
  ℕ, ◌∷◌, [], List, Option, none, some, Bool, true, false, ◌||◌, ◌&&◌, not, ◌==◌, leb,
  if◌then◌else◌, replicate,
}
use adfilter.Pool.{M, pure, ◌>>=◌, ◌>>◌, ex_free_pool}
use adfilter.Sock.{ntohl, ipproto_tcp}
use adfilter.Ipc.{FltRequest, filter_allow, filter_deny, ulong_max}
use adfilter.Process.{Plist, free_name}
use adfilter.RequestQueue.{Queue, log_request}
use adfilter.Sids.{copy_sid_a}
use adfilter.Listen
use adfilter.Listen.{add_listen, del_listen_obj}
use adfilter.OtEntry.{OtEntry, EventContext, ot_find_fileobj, write_object}
use adfilter.ConnCtx.{ot_find_conn_ctx}
use adfilter.ObjTable.{Net, no_addr}
use adfilter.Tdi.{World, sender, new_request}
use adfilter.Tdi.Object.{listening, with_listen}
use adfilter.Tdi.Datagram.{tdi_receive_complete}

-- The driver's own handlers.
pub data Handler : Type 0 where
  event_connect event_disconnect event_receive_datagram event_receive event_chained_receive :
      Handler

abbrev pub max_event : ℕ
max_event = 11

abbrev pub tdi_event_connect_type : ℕ
tdi_event_connect_type = 0

abbrev pub type_listen : ℕ
type_listen = 5

abbrev pub type_not_listen : ℕ
type_not_listen = 6

-- g_tdi_event_handlers without its last row.
abbrev pub g_tdi_event_handlers : List (ℕ × Option Handler)
g_tdi_event_handlers =
    (0, some event_connect)
    ∷ (1, some event_disconnect)
    ∷ (4, some event_receive_datagram)
    ∷ (8, none)
    ∷ (3, some event_receive)
    ∷ (5, some event_receive)
    ∷ (7, some event_chained_receive)
    ∷ (9, some event_chained_receive)
    ∷ []

unfoldable pub find_event : ℕ → List (ℕ × Option Handler) → Option (Option Handler)
find_event event_type [] = none
find_event event_type ((event, handler) ∷ more) =
    let rest = find_event event_type more in if event == event_type then some handler else rest

-- What the transport gets as handler: what the client asks for, or what the driver puts in its place,
-- with the context of the entry.
pub data Sent : Type 0 where
  as_is : Sent
  replaced : Option Handler → Sent

pub record Setting : Type 0 where
  pub result : ℕ
  pub sent : Sent

-- *ctx of the event.
abbrev pub with_event : ℕ → ℕ → ℕ → OtEntry → OtEntry
with_event event_type handler context e = record e {
  ctx = λ j.
      if j == event_type
      then record (e.ctx j) { old_handler = handler; old_context = context }
      else e.ctx j;
}

abbrev pub is_added : Listen.Status → Bool
is_added Listen.Status.success = true
is_added Listen.Status.invalid_parameter = false
is_added Listen.Status.insufficient_resources = false
is_added Listen.Status.object_name_exists = false

-- The endpoint that begins to listen, or ends to; whether that succeeded.
unfoldable pub change_listen : Bool → ℕ → OtEntry → Net → M (Bool × Net)
change_listen true fileobj ote net = do
  (status, o, listens) ← add_listen (listening ote) net.listens
  pure (
    is_added status,
    record net {
      objects = write_object fileobj (with_listen o.listen_entry) net.objects;
      listens = listens;
    },
  )
change_listen false fileobj ote net = elim ote.listen_entry [
  | none ↦ pure (true, net)
  | some e ↦ do
    listens ← del_listen_obj e net.listens
    pure (
      true,
      record net {
        objects = write_object fileobj (with_listen none) net.objects;
        listens = listens;
      },
    )
]

module _ (got_log : Bool) (plist : Plist) where
  -- The log of an endpoint that begins or ends to listen.
  unfoldable pub log_listen : Bool → ℕ → OtEntry → Net → M Net
  log_listen adds pid ote net = elim (ntohl ote.local_addr.sin_addr == 0x7f000001) [
    | true ↦ pure net
    | false ↦ do
      sid_a ← copy_sid_a ote.sid_a ote.sid_a_size
      (logged, request, queue) ←
          log_request got_log plist
            (new_request (if adds then type_listen else type_not_listen) 0 ipproto_tcp
              (if adds then sender pid ote else ulong_max) ote sid_a ote.local_addr no_addr)
            net.queue
      free_name request.sid_a
      pure (record net { queue = queue })
  ]

  -- The rest of the handler where the type is TDI_EVENT_CONNECT.
  unfoldable pub set_connect : Bool → ℕ → ℕ → OtEntry → Net → M (ℕ × Net)
  set_connect adds pid fileobj ote net = do
    (done, net') ← change_listen adds fileobj ote net
    elim done [
      | false ↦ pure (filter_deny, net')
      | true ↦ do net'' ← log_listen adds pid ote net'; pure (filter_allow, net'')
    ]

  -- The rest of the handler where the event is known.
  unfoldable pub set_event : Sent → Bool → ℕ → ℕ → ℕ → ℕ → ℕ → OtEntry → World → M (Setting × World)
  set_event sent adds pid fileobj event_type handler context ote w =
      let net = record w.net {
        objects = write_object fileobj (with_event event_type handler context) w.net.objects;
      } in
      elim (event_type == tdi_event_connect_type) [
        | false ↦ pure (record { result = filter_allow; sent = sent }, record w { net = net })
        | true ↦ do
          (result, net') ← set_connect adds pid fileobj ote net
          pure (record { result = result; sent = sent }, record w { net = net' })
      ]

  -- The current process, the file object, and the fields of the request.
  unfoldable pub tdi_set_event_handler : ℕ → ℕ → ℕ → ℕ → ℕ → World → M (Setting × World)
  tdi_set_event_handler pid fileobj event_type handler context w =
      elim (ot_find_fileobj fileobj w.net.objects) [
        | none ↦ pure (
          record { result = if handler == 0 then filter_allow else filter_deny; sent = as_is },
          w,
        )
        | some ote_addr ↦ elim (leb max_event event_type) [
          | true ↦ pure (record { result = filter_allow; sent = as_is }, w)
          | false ↦ elim (handler == 0) [
            | true ↦ set_event as_is false pid fileobj event_type 0 0 ote_addr w
            | false ↦ elim (find_event event_type g_tdi_event_handlers) [
              | none ↦ pure (record { result = filter_allow; sent = as_is }, w)
              | some own ↦
                  set_event (replaced own) true pid fileobj event_type handler context ote_addr w
            ]
          ]
        ]
      ]

-- The event of received bytes: the connection of the context gets what the client's handler took.
unfoldable pub tdi_event_receive : ℕ → ℕ → ℕ → World → World
tdi_event_receive addrobj conn_ctx bytes_taken w =
    if bytes_taken == 0
    then w
    else tdi_receive_complete (ot_find_conn_ctx addrobj conn_ctx w.contexts) bytes_taken w

-- The same for a chain of buffers; `accepted` is whether the client's handler answered a success or
-- that it keeps the buffers.
unfoldable pub tdi_event_chained_receive : ℕ → ℕ → Bool → ℕ → World → World
tdi_event_chained_receive addrobj conn_ctx accepted receive_length w =
    if accepted
    then tdi_receive_complete (ot_find_conn_ctx addrobj conn_ctx w.contexts) receive_length w
    else w

-- Whether the completion routine of the client is called, by its old control.
abbrev pub is_invoked : Bool → Bool → Bool → Bool → Bool → Bool
is_invoked cancel succeeded on_cancel on_success on_error =
    if cancel then on_cancel else (if succeeded then on_success else on_error)

-- The completion of an IRP of the client, with its context in a block. The status is that of the
-- client's routine, if there is one; the source leaves it uninitialised if there is none.
unfoldable pub tdi_client_irp_complete :
    ℕ → ℕ → Bool → Bool → ℕ → Option ℕ → ℕ → World → M (ℕ × World)
tdi_client_irp_complete ctx connobj succeeded invoked information completion uninitialised w = do
  ex_free_pool ctx
  pure (
    elim completion [ none ↦ uninitialised | some status ↦ if invoked then status else 0 ],
    if succeeded then tdi_receive_complete connobj information w else w,
  )
