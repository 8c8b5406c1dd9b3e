-- ===== src/Tests/Logging.antt =====
-- The request queue, from empty.
use adfilter.Prelude.{ℕ, ◌≡◌, refl, List, [], ◌∷◌, none, some, true, arith}
use adfilter.Pool.{Pool}
use adfilter.Ipc.{SockAddr, FltRequest, type_datagram}
use adfilter.RequestQueue.{Queue, Item, log_request, get_request}
use adfilter.RequestQueue.Pending.{IsQueue}
use adfilter.RequestQueue.Log.{IsLogged, log_request-IsLogged}
use adfilter.RequestQueue.Get.{IsTaken, get_request-IsTaken}
use adfilter.Tests.Processes.{two}

abbrev nowhere : SockAddr
nowhere = record { sin_family = 2; sin_port = 0; sin_addr = 0 }

-- A datagram of process 10, with a SID of two bytes in block 6.
abbrev datagram : FltRequest
datagram = record {
  struct_size = 131;
  kind = type_datagram;
  status = 0;
  result = 1;
  direction = 1;
  proto = 17;
  pid = 10;
  sid_a_size = 2;
  from = nowhere;
  to = nowhere;
  addr_len = 16;
  log_skipped = 0;
  log_bytes_in = 0;
  log_bytes_out = 0;
  log_rule_id = [];
  pname = none;
  sid_a = some (record { at = 6; bytes = 1 ∷ 2 ∷ [] });
}

abbrev pub start : Queue
start = record { slot = λ _. datagram; head = 1023; tail = 1023 }

abbrev one : Pool
one = record { live = 6 ∷ []; replies = some 8 ∷ [] }

start-IsQueue : IsQueue start one (6 ∷ [])
start-IsQueue = record { head_in = omega arith; tail_in = omega arith; owned = λ b. refl }

log_request-IsLogged_example :
    (skipped : ℕ) × (q : Queue) × (t : Pool) × (log_request true two datagram start one
      ≡ some ((true, record datagram { log_skipped = skipped; sid_a = none }, q), t))
    × IsLogged two datagram one start q skipped
    × IsQueue q t []
log_request-IsLogged_example =
    log_request-IsLogged true two datagram start one [] start-IsQueue refl

-- One pending request, in the last slot of the array.
abbrev waiting : Queue
waiting = record { slot = λ _. datagram; head = 0; tail = 1023 }

waiting-IsQueue : IsQueue waiting one []
waiting-IsQueue = record { head_in = omega arith; tail_in = omega arith; owned = λ b. omega arith }

get_request-IsTaken_example :
    (items : List Item) × (size : ℕ) × (q : Queue) × (t : Pool) × (get_request 131 140 waiting one
      ≡ some ((items, size, q), t))
    × IsTaken 131 140 waiting q items size
    × IsQueue q t []
get_request-IsTaken_example =
    get_request-IsTaken 131 140 waiting one [] waiting-IsQueue (omega arith)
