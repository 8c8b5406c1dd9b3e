-- ===== src/Tdi.antt =====
-- sys/tdi_fw/src: what the handlers of TDI requests and events share: their state, quick_filter of
-- filter.c, the traffic counters, and the log of a request. A handler that holds the lock of the table
-- of file objects is one step.
pub mod Datagram
pub mod Object
pub mod Event
pub mod Connect
pub mod Disconnect
pub mod Accept
use adfilter.Prelude.{
  ℕ, ◌+◌, ◌%◌, ◌^◌, List, [], ◌∷◌, Option, none, some, Bool, true, false, ◌||◌, ◌==◌, leb,
  if◌then◌else◌, replicate, Bytes,
}
use adfilter.Pool.{Block, M, pure, ◌>>=◌, ◌>>◌}
use adfilter.Sock.{ipproto_ip, ipproto_udp}
use adfilter.Ipc.{SockAddr, FltRequest, ulong_max, rule_log_log, type_datagram}
use adfilter.Process.{Plist}
use adfilter.RequestQueue.{Queue, log_request}
use adfilter.IpcRequest.{request_size}
use adfilter.Filter.{Adf, tdifw_filter}
use adfilter.OtEntry.{OtEntry}
use adfilter.ConnCtx.{Contexts}
use adfilter.ObjTable.{Net, sid_length}

-- g_traffic, of 64-bit numbers.
pub record Traffic : Type 0 where
  pub total_in : ℕ
  pub total_out : ℕ
  pub counted_in : ℕ
  pub counted_out : ℕ

pub record World : Type 0 where
  pub net : Net
  pub contexts : Contexts
  pub adf : Adf
  pub traffic : Traffic

abbrev pub rule_log_count : ℕ
rule_log_count = 2

abbrev pub type_connect : ℕ
type_connect = 1

abbrev pub plus64 : ℕ → ℕ → ℕ
plus64 a b = (a + b) % 2 ^ 64

abbrev pub plus32 : ℕ → ℕ → ℕ
plus32 a b = (a + b) % 2 ^ 32

-- Bytes that go out, and that come in; `counted` says whether they are counted as well.
abbrev pub count_out : Bool → ℕ → Traffic → Traffic
count_out counted bytes t = record t {
  total_out = plus64 t.total_out bytes;
  counted_out = if counted then plus64 t.counted_out bytes else t.counted_out;
}

abbrev pub count_in : Bool → ℕ → Traffic → Traffic
count_in counted bytes t = record t {
  total_in = plus64 t.total_in bytes;
  counted_in = if counted then plus64 t.counted_in bytes else t.counted_in;
}

-- The fields of struct flt_rule that the handlers read after quick_filter.
pub record Rule : Type 0 where
  pub result : ℕ
  pub log : ℕ
  pub rule_id : Bytes

abbrev pub no_rule : Rule
no_rule = record { result = 0; log = 0; rule_id = replicate 32 0 }

-- The rule is handed on and not written.
unfoldable pub quick_filter : Adf → FltRequest → Rule → ℕ × Rule × Adf
quick_filter adf request rule = let answer = tdifw_filter adf request in (answer.0, rule, answer.1)

-- A UDP or a raw device; `none` is get_original_devobj without an answer.
abbrev pub is_datagram_proto : ℕ → Bool
is_datagram_proto ipproto = ipproto == ipproto_udp || ipproto == ipproto_ip

-- The process of a request: the current one, or that of the object for the idle process.
abbrev pub sender : ℕ → OtEntry → ℕ
sender pid ote = if pid == 0 then ote.pid else pid

abbrev pub new_request : ℕ → ℕ → ℕ → ℕ → OtEntry → Option Block → SockAddr → SockAddr → FltRequest
new_request kind direction proto pid ote sid_a from to = record {
  struct_size = request_size;
  kind = kind;
  status = 0;
  result = 0;
  direction = direction;
  proto = proto;
  pid = pid;
  sid_a_size = sid_length sid_a ote.sid_a_size;
  from = from;
  to = to;
  addr_len = 16;
  log_skipped = 0;
  log_bytes_in = 0;
  log_bytes_out = 0;
  log_rule_id = replicate 32 0;
  pname = none;
  sid_a = sid_a;
}

module _ (got_log : Bool) (plist : Plist) where
  -- The request after it, whose SID the queue may have taken, and the queue.
  unfoldable pub log_at : Bool → FltRequest → Queue → M (FltRequest × Queue)
  log_at false request queue = pure (request, queue)
  log_at true request queue = do
    (logged, request', queue') ← log_request got_log plist request queue
    pure (request', queue')

  abbrev pub is_logged : Rule → Bool
  is_logged rule = leb rule_log_log rule.log

  abbrev pub is_counted : Rule → Bool
  is_counted rule = leb rule_log_count rule.log
