-- ===== src/FilterInit.antt =====
-- sys/tdi_fw/src/filter.c: start and end of the filter, filter_init and filter_free.
pub mod Loops
pub mod Free
use adfilter.Prelude.{
  ℕ, zero, suc, ◌+◌, ◌-◌, List, [], ◌∷◌, Option, none, some, Bool, true, false, replicate, Bytes,
}
use Prim.Native.String.{String}
use adfilter.Pool.{M, pure, fault, ◌>>=◌, ◌>>◌, ex_allocate_pool, ex_free_pool}
use adfilter.Links.{empty}
use adfilter.Ipc.{
  FltRule, FltRequest, SockAddr, filter_allow, direction_any, ipproto_any, rule_log_log,
  max_chains_count,
}
use adfilter.Process.{Plist, free_name, pid_pname_free}
use adfilter.Rules.{Chains, cleared, update, clear_flt_chain}
use adfilter.RequestQueue.{Queue, request_queue_size}
use adfilter.Sids.{Sids, no_sids, set_sid_list}
use adfilter.Console.{codes}

-- g_rules, g_plist, g_queue with the block of its array or NULL, and g_sids.
pub record Filter : Type 0 where
  pub chains : Chains
  pub plist : Plist
  pub queue : Queue
  pub queue_at : Option ℕ
  pub sids : Sids

-- "ALLOW * * FROM ANY TO ANY", for every user.
abbrev pub allow_all : FltRule
allow_all = record {
  chain = 0;
  result = filter_allow;
  proto = ipproto_any;
  direction = direction_any;
  addr_from = 0;
  mask_from = 0;
  port_from = 0;
  port2_from = 0;
  addr_to = 0;
  mask_to = 0;
  port_to = 0;
  port2_to = 0;
  log = rule_log_log;
  sid_mask = replicate 16 255;
  rule_id = codes "startup";
}

abbrev zero_addr : SockAddr
zero_addr = record { sin_family = 0; sin_port = 0; sin_addr = 0 }

-- A slot of the queue after memset.
abbrev pub zero_request : FltRequest
zero_request = record {
  struct_size = 0;
  kind = 0;
  status = 0;
  result = 0;
  direction = 0;
  proto = 0;
  pid = 0;
  sid_a_size = 0;
  from = zero_addr;
  to = zero_addr;
  addr_len = 0;
  log_skipped = 0;
  log_bytes_in = 0;
  log_bytes_out = 0;
  log_rule_id = replicate 32 0;
  pname = none;
  sid_a = none;
}

abbrev pub empty_queue : Queue
empty_queue = record { slot = λ _. zero_request; head = 0; tail = 0 }

abbrev pub no_chains : Chains
no_chains _ = cleared

-- The default chain, with its rule at the address.
abbrev pub start_chains : ℕ → Chains
start_chains a =
    update 0
      (record {
        rules = record { nodes = (a, allow_all) ∷ []; tail = some a };
        pname = none;
        active = true;
      })
      no_chains

-- The status, and what the module's variables hold; sids_init leaves g_sids as it is loaded, zero.
unfoldable pub filter_init : M (Bool × Filter)
filter_init = do
  head ← ex_allocate_pool
  elim head [
    | none ↦ pure (
      false,
      record {
        chains = no_chains;
        plist = empty;
        queue = empty_queue;
        queue_at = none;
        sids = no_sids;
      },
    )
    | some a ↦ do
      data_at ← ex_allocate_pool
      elim data_at [
        | none ↦ pure (
          false,
          record {
            chains = start_chains a;
            plist = empty;
            queue = empty_queue;
            queue_at = none;
            sids = no_sids;
          },
        )
        | some b ↦ pure (
          true,
          record {
            chains = start_chains a;
            plist = empty;
            queue = empty_queue;
            queue_at = some b;
            sids = no_sids;
          },
        )
      ]
  ]

-- The loop over the chains from `i` on, with `n` chains left.
unfoldable pub clear_chains : ℕ → ℕ → Chains → M Chains
clear_chains i zero cs = pure cs
clear_chains i (suc n) cs = do (r, cs') ← clear_flt_chain i cs; clear_chains (i + 1) n cs'

-- The loop over the array of requests from slot `i` on, with `n` slots left.
unfoldable pub free_slots : (ℕ → FltRequest) → ℕ → ℕ → M (Unit {0})
free_slots s i zero = pure tt
free_slots s i (suc n) = do free_name (s i).pname; free_name (s i).sid_a; free_slots s (i + 1) n

-- Without its array the queue cannot be walked.
unfoldable pub free_queue : Option ℕ → Filter → M (Unit {0})
free_queue none f = fault
free_queue (some b) f = do
  free_slots f.queue.slot 0 request_queue_size
  ex_free_pool b
  (st, s) ← set_sid_list none 0 f.sids
  l ← pid_pname_free f.plist
  pure tt

unfoldable pub filter_free : Filter → M (Unit {0})
filter_free f = do cs ← clear_chains 0 max_chains_count f.chains; free_queue f.queue_at f
