-- ===== src/IpcRequest.antt =====
-- sys/tdi_fw/src/ipc.c: the requests of the user part. Pointers and size_t are taken with 32 bits;
-- `buf` is the system buffer, whose first `len` bytes are the caller's, or NULL.
pub mod Parts
pub mod Reads
pub mod Safety
use adfilter.Prelude.{
  ℕ, ◌+◌, ◌-◌, List, [], ◌∷◌, Option, none, some, Bool, true, false, not, ◌||◌, ◌==◌, ltb,
  if◌then◌else◌, length, take, drop, get_elem?, Bytes, c_text,
}
use adfilter.Pool.{M, pure, fault, ◌>>=◌}
use adfilter.Control.{need}
use adfilter.Ipc.{FltRule, read_ulong, read_ushort}
use adfilter.Process
use adfilter.Process.{Plist}
use adfilter.Sids
use adfilter.Sids.{Sids, set_sid_list}
use adfilter.Rules.{
  Chains, Result, add_flt_rule, clear_flt_chain, set_chain_pname, set_pid_pname, activate_flt_chain,
}
use adfilter.RequestQueue.{Queue, Item, get_request}

-- sizeof(struct flt_request), sizeof(struct flt_rule) and sizeof(g_traffic).
abbrev pub request_size : ℕ
request_size = 131

abbrev pub rule_size : ℕ
rule_size = 92

abbrev pub counters_size : ℕ
counters_size = 32

-- The requests of the user part; `other` is any other code.
pub data Command : Type 0 where
  getrequest clearchain appendrule setchainpname setpname activatechain set_sids get_counters :
      Command
  other : ℕ → Command

pub data Answer : Type 0 where
  success info_length_mismatch invalid_parameter not_supported : Answer
  of_rules : Result → Answer
  of_names : Process.Status → Answer
  of_sids : Sids.Status → Answer

-- The state of the library behind the requests: the chains, the processes, the queue, the SIDs, and
-- the traffic counters.
pub record Firewall : Type 0 where
  pub chains : Chains
  pub plist : Plist
  pub queue : Queue
  pub sids : Sids
  pub g_traffic : List ℕ

-- What is written to the buffer.
pub data Output : Type 0 where
  no_output : Output
  items : List Item → Output
  counters : List ℕ → Output

-- The status, *buf_len, and the output.
pub record Outcome : Type 0 where
  pub status : Answer
  pub buf_len : ℕ
  pub output : Output

abbrev pub outcome : Answer → Outcome
outcome a = record { status = a; buf_len = 0; output = no_output }

abbrev pub word : Bytes → ℕ → M ℕ
word b i = need (read_ulong (drop i b))

abbrev pub half : Bytes → ℕ → M ℕ
half b i = need (read_ushort (drop i b))

-- *(struct flt_rule *)buf
unfoldable pub read_rule : Bytes → M FltRule
read_rule b = do
  chain ← word b 0
  result ← word b 4
  proto ← word b 8
  direction ← word b 12
  addr_from ← word b 16
  mask_from ← word b 20
  port_from ← half b 24
  port2_from ← half b 26
  addr_to ← word b 28
  mask_to ← word b 32
  port_to ← half b 36
  port2_to ← half b 38
  log ← word b 40
  pure (record {
    chain = chain;
    result = result;
    proto = proto;
    direction = direction;
    addr_from = addr_from;
    mask_from = mask_from;
    port_from = port_from;
    port2_from = port2_from;
    addr_to = addr_to;
    mask_to = mask_to;
    port_to = port_to;
    port2_to = port2_to;
    log = log;
    sid_mask = take 16 (drop 44 b);
    rule_id = take 32 (drop 60 b);
  })

-- `buf[len - 1] != '\0'`
unfoldable pub is_unterminated : Bytes → ℕ → M Bool
is_unterminated b len = do last ← need (get_elem? b (len - 1)); pure (not (last == 0))

module _ (fw : Firewall) (len buf_size : ℕ) where
  unfoldable pub clear_case : Bytes → M (Outcome × Firewall)
  clear_case b = do
    chain ← word b 0
    (r, cs) ← clear_flt_chain chain fw.chains
    pure (outcome (of_rules r), record fw { chains = cs })

  unfoldable pub append_case : Bytes → M (Outcome × Firewall)
  append_case b = do
    rule ← read_rule b
    (r, cs) ← add_flt_rule rule.chain rule fw.chains
    pure (outcome (of_rules r), record fw { chains = cs })

  unfoldable pub chain_pname_case : Bytes → M (Outcome × Firewall)
  chain_pname_case b = do
    bad ← is_unterminated b len
    elim bad [
      | true ↦ pure (outcome invalid_parameter, fw)
      | false ↦ do
        chain ← word b 0
        pname ← need (c_text (drop 4 b))
        (r, cs) ← set_chain_pname chain pname fw.chains
        pure (outcome (of_rules r), record fw { chains = cs })
    ]

  unfoldable pub pname_case : Bytes → M (Outcome × Firewall)
  pname_case b = do
    bad ← is_unterminated b len
    elim bad [
      | true ↦ pure (outcome invalid_parameter, fw)
      | false ↦ do
        pid ← word b 0
        pname ← need (c_text (drop 4 b))
        (st, event, l) ← set_pid_pname pid pname fw.chains fw.plist
        pure (outcome (of_names st), record fw { plist = l })
    ]

  unfoldable pub activate_case : Bytes → M (Outcome × Firewall)
  activate_case b = do
    chain ← word b 0
    let (r, cs) = activate_flt_chain chain fw.chains
    pure (outcome (of_rules r), record fw { chains = cs })

  unfoldable pub get_case : M (Outcome × Firewall)
  get_case = do
    (is, size, q) ← get_request request_size buf_size fw.queue
    pure (record { status = success; buf_len = size; output = items is }, record fw { queue = q })

  -- Without a test for NULL: the copy then faults.
  unfoldable pub counters_case : Option Bytes → M (Outcome × Firewall)
  counters_case none = fault
  counters_case (some b) =
      pure
        (record { status = success; buf_len = counters_size; output = counters fw.g_traffic }, fw)

  unfoldable pub sids_case : Option Bytes → M (Outcome × Firewall)
  sids_case buf = do
    (st, s) ← set_sid_list buf len fw.sids
    pure (outcome (of_sids st), record fw { sids = s })

  abbrev pub mismatch : M (Outcome × Firewall)
  mismatch = pure (outcome info_length_mismatch, fw)

  -- A case that wants a buffer and a length.
  abbrev pub guarded :
      Bool → Option Bytes → (Bytes → M (Outcome × Firewall)) → M (Outcome × Firewall)
  guarded refused none run = mismatch
  guarded refused (some b) run = if refused then mismatch else run b

  unfoldable pub process_request : Command → Option Bytes → M (Outcome × Firewall)
  unfolding clear_case append_case chain_pname_case pname_case activate_case get_case counters_case
      sids_case
  process_request code buf = elim code [
    | getrequest ↦ guarded (ltb buf_size request_size) buf (λ b. get_case)
    | clearchain ↦ guarded (not (len == 4)) buf clear_case
    | appendrule ↦ guarded (not (len == rule_size)) buf append_case
    | setchainpname ↦ guarded (ltb len 5) buf chain_pname_case
    | setpname ↦ guarded (ltb len 5) buf pname_case
    | activatechain ↦ guarded (not (len == 4)) buf activate_case
    | set_sids ↦ if ltb len 4 then mismatch else sids_case buf
    | get_counters ↦ if ltb buf_size counters_size then mismatch else counters_case buf
    | other n ↦ pure (outcome not_supported, fw)
  ]
