-- ===== src/RequestQueue.antt =====
-- sys/tdi_fw/src/filter.c: the queue of requests to be logged, a ring of REQUEST_QUEUE_SIZE slots.
-- The slots are a function of the index. Both operations hold the queue's lock: each is one step.
pub mod Room
pub mod Pending
pub mod Log
pub mod Get
use adfilter.Prelude.{
  ℕ, zero, suc, ◌+◌, ◌-◌, ◌%◌, ◌^◌, List, [], ◌∷◌, Option, none, some, Bool, true, false, not, ◌&&◌,
  ◌==◌, ltb, if◌then◌else◌, length, take, Bytes,
}
use adfilter.Pool.{Pool, Block, M, pure, fault, ◌>>=◌, ◌>>◌, ex_allocate_pool, ex_free_pool}
use adfilter.Ipc.{FltRequest, ulong_max, type_resolve_pid}
use adfilter.Process.{Plist, pid_pname_resolve, free_name}

abbrev pub request_queue_size : ℕ
request_queue_size = 1024

-- g_queue: written at the head, read from the tail.
pub record Queue : Type 0 where
  pub slot : ℕ → FltRequest
  pub head : ℕ
  pub tail : ℕ

abbrev pub write : ℕ → FltRequest → (ℕ → FltRequest) → ℕ → FltRequest
write i r s j = if j == i then r else s j

abbrev pub next : ℕ → ℕ
next i = (i + 1) % request_queue_size

-- The name that is found, in a buffer of 256 bytes.
abbrev pub resolved : Option (Option Bytes) → Option Bytes
resolved (some (some name)) = some name
resolved _ = none

-- A copy of the name of the process in a block of its own, where there is memory for it.
unfoldable pub copy_name : Plist → ℕ → M (Option Block)
copy_name l pid =
    if pid == ulong_max then pure none else (elim (resolved (pid_pname_resolve pid 256 l)) [
      | none ↦ pure none
      | some name ↦ do
        pname ← ex_allocate_pool
        elim pname [ none ↦ pure none | some a ↦ pure (some (record { at = a; bytes = name })) ]
    ])

-- A full queue loses its oldest entry: the number that the new entry says was skipped, and the tail.
unfoldable pub make_room : Queue → M (ℕ × ℕ)
make_room q =
    if next q.head == q.tail
    then (do
      free_name (q.slot q.tail).pname
      free_name (q.slot q.tail).sid_a
      pure (((q.slot q.tail).log_skipped + 1) % 2 ^ 32, next q.tail))
    else pure (0, q.tail)

-- The answer, the caller's request after the call, and the queue. The signal to the event is left
-- out.
unfoldable pub log_request : Bool → Plist → FltRequest → Queue → M (Bool × FltRequest × Queue)
log_request got_log l request q =
    if not got_log && request.kind == type_resolve_pid then pure (false, request, q) else (do
      (skipped, tail) ← make_room q
      pname ← copy_name l request.pid
      pure (
        true,
        record request { log_skipped = skipped; sid_a = none },
        record {
          slot = write q.head (record request { log_skipped = skipped; pname = pname }) q.slot;
          head = next q.head;
          tail = tail;
        },
      ))

-- What the reader gets of one request: the structure, with its size, the name with its NUL, and the
-- SID.
pub record Item : Type 0 where
  pub request : FltRequest
  pub name : Bytes
  pub sid : Bytes

abbrev pub name_size : Option Block → ℕ
name_size none = 0
name_size (some b) = length b.bytes + 1

abbrev pub sid_size : FltRequest → ℕ
sid_size r = elim r.sid_a [ none ↦ 0 | some b ↦ r.sid_a_size ]

abbrev pub text_of : Option Block → Bytes
text_of none = []
text_of (some b) = b.bytes

-- The slot after it is read: its blocks are freed.
abbrev pub emptied : FltRequest → FltRequest
emptied r = record r { pname = none; sid_a = none }

module _ (struct_size : ℕ) where
  -- sizeof(struct flt_request), which depends on the size of a pointer, the name and the SID.
  abbrev pub item_size : FltRequest → ℕ
  item_size r = struct_size + name_size r.pname + sid_size r

  abbrev pub item : FltRequest → Item
  item r = record {
    request = record r { struct_size = (r.struct_size + name_size r.pname + sid_size r) % 2 ^ 32 };
    name = text_of r.pname;
    sid = take (sid_size r) (text_of r.sid_a);
  }

  -- `while (head != tail)`, with `room` bytes of the buffer left.
  unfoldable pub get_loop : ℕ → ℕ → Queue → M (List Item × ℕ × Queue)
  get_loop zero room q = fault
  get_loop (suc fuel) room q = elim (q.head == q.tail) [
    | true ↦ pure ([], 0, q)
    | false ↦ elim (ltb room (item_size (q.slot q.tail))) [
      | true ↦ pure ([], 0, q)
      | false ↦ do
        free_name (q.slot q.tail).pname
        free_name (q.slot q.tail).sid_a
        (items, size, q') ←
            get_loop fuel (room - item_size (q.slot q.tail)) (record q {
              slot = write q.tail (emptied (q.slot q.tail)) q.slot;
              tail = next q.tail;
            })
        pure (item (q.slot q.tail) ∷ items, item_size (q.slot q.tail) + size, q')
    ]
  ]

  -- The items and the bytes written, which is at most `buf_size` and cannot wrap around.
  unfoldable pub get_request : ℕ → Queue → M (List Item × ℕ × Queue)
  get_request buf_size q =
      if ltb buf_size struct_size then pure ([], 0, q) else get_loop request_queue_size buf_size q
