-- ===== src/IpcRequest/Safety.antt =====
-- No request of the user part faults, whatever its buffer holds.
use adfilter.Prelude.{
  ℕ, suc, ◌+◌, ◌^◌, ◌<◌, ◌≡◌, refl, inl, inr, List, ◌++◌, Option, none, some, arith, ◌==◌, ltb,
  length, Bytes, Bool-cases,
}
use adfilter.Pool.{Pool, Owns}
use adfilter.Ipc.{max_chains_count}
use adfilter.Process.Invariant.{name_blocks, IsPlist, IsFresh}
use adfilter.RequestQueue.Pending.{IsQueue}
use adfilter.RequestQueue.Get.{get_request-IsTaken}
use adfilter.Rules.{activate_flt_chain}
use adfilter.Rules.Chains.{IsChain}
use adfilter.Rules.Names.{set_pid_pname_lem}
use adfilter.IpcRequest.{
  Firewall, Command, Outcome, getrequest, clearchain, appendrule, setchainpname, setpname,
  activatechain, set_sids, get_counters, other, outcome, request_size, rule_size, counters_size,
  process_request, success, info_length_mismatch, invalid_parameter, of_rules, of_names, of_sids,
  items, counters,
}
use adfilter.IpcRequest.Reads.{word-some, read_rule-some, terminated_cases}
use adfilter.IpcRequest.Parts.{add-some, clear-some, name-some, sids-some}

-- Each part is well formed, and owns its blocks among those that are live.
pub record IsSound (fw : Firewall) (p : Pool) : Type 0 where
  pub chains_owned : (c : ℕ) → c < max_chains_count → (rest : List ℕ) × IsChain (fw.chains c) p rest
  pub plist_owned : (rest : List ℕ) × IsPlist fw.plist p rest
  pub queue_owned : (rest : List ℕ) × IsQueue fw.queue p rest
  pub sids_owned : (rest : List ℕ) × Owns p (name_blocks fw.sids.buf ++ rest)

-- The system buffer of a request of `len` bytes: it has them, or it is NULL, which two of the
-- requests do not test.
abbrev pub IsBuffer : Command → Option Bytes → ℕ → Type 0
IsBuffer set_sids none len = ⊥
IsBuffer get_counters none len = ⊥
IsBuffer _ none len = Unit {0}
IsBuffer code (some b) len = length b ≡ len

-- The request returns.
abbrev pub Returns : Option ((Outcome × Firewall) × Pool) → Type 0
Returns r = (o : Outcome) × (fw : Firewall) × (q : Pool) × (r ≡ some ((o, fw), q))

module _ (fw : Firewall) (len buf_size : ℕ) (p : Pool) (w : IsSound fw p) (f : IsFresh p)
    (small : len + 4 < 2 ^ 32) where
  rule-Returns :
      (b : Bytes) → length b ≡ len → Returns (process_request fw len buf_size appendrule (some b) p)
  unfolding process_request
  rule-Returns b h = elim (Bool-cases (len == rule_size)) [
    | inr n ↦ (outcome info_length_mismatch, fw, p, ground (arith, n))
    | inl y ↦
        let size : length b ≡ rule_size = ground (arith, h, y) in
        let (rule, e) = read_rule-some b size in
        let (r, cs, q, g) = add-some fw.chains p w.chains_owned rule.chain rule f in
        let e' = e p in
        (outcome (of_rules r), record fw { chains = cs }, q, ground (arith, y, e', g))
  ]

  clear-Returns :
      (b : Bytes) → length b ≡ len → Returns (process_request fw len buf_size clearchain (some b) p)
  unfolding process_request
  clear-Returns b h = elim (Bool-cases (len == 4)) [
    | inr n ↦ (outcome info_length_mismatch, fw, p, ground (arith, n))
    | inl y ↦
        let (chain, e) = word-some b 0 (ground (arith, h, y)) in
        let (r, cs, q, g) = clear-some fw.chains p w.chains_owned chain in
        (outcome (of_rules r), record fw { chains = cs }, q, ground (arith, y, e, g))
  ]

  activate-Returns :
      (b : Bytes)
      → length b ≡ len
      → Returns (process_request fw len buf_size activatechain (some b) p)
  unfolding process_request
  activate-Returns b h = elim (Bool-cases (len == 4)) [
    | inr n ↦ (outcome info_length_mismatch, fw, p, ground (arith, n))
    | inl y ↦
        let (chain, e) = word-some b 0 (ground (arith, h, y)) in
        (
          outcome (of_rules (activate_flt_chain chain fw.chains).0),
          record fw { chains = (activate_flt_chain chain fw.chains).1 },
          p,
          ground (arith, y, e),
        )
  ]

  chain_pname-Returns :
      (b : Bytes)
      → length b ≡ len
      → Returns (process_request fw len buf_size setchainpname (some b) p)
  unfolding process_request
  chain_pname-Returns b h = elim (Bool-cases (ltb len 5)) [
    | inl y ↦ (outcome info_length_mismatch, fw, p, ground (arith, y))
    | inr n ↦
        let (chain, e) = word-some b 0 (ground (arith, h, n)) in
        elim (terminated_cases b len h (ground (arith, n))) [
          | inl bad ↦ let g = bad p in (outcome invalid_parameter, fw, p, ground (arith, n, g))
          | inr (good, pname, k) ↦
              let g = good p in
              let (r, cs, q, t) = name-some fw.chains p w.chains_owned chain pname in
              (outcome (of_rules r), record fw { chains = cs }, q, ground (arith, n, g, e, k, t))
        ]
  ]

  pname-Returns :
      (b : Bytes) → length b ≡ len → Returns (process_request fw len buf_size setpname (some b) p)
  unfolding process_request
  pname-Returns b h = elim (Bool-cases (ltb len 5)) [
    | inl y ↦ (outcome info_length_mismatch, fw, p, ground (arith, y))
    | inr n ↦
        let (pid, e) = word-some b 0 (ground (arith, h, n)) in
        elim (terminated_cases b len h (ground (arith, n))) [
          | inl bad ↦ let g = bad p in (outcome invalid_parameter, fw, p, ground (arith, n, g))
          | inr (good, pname, k) ↦
              let g = good p in
              let (rest, v) = w.plist_owned in
              let (_, st, event, l, q, t, _, _, _, _) =
                set_pid_pname_lem pid pname 256 (suc pid) fw.chains fw.plist p rest v f
                  (omega arith) (λ e. omega arith) in
              (outcome (of_names st), record fw { plist = l }, q, ground (arith, n, g, e, k, t))
        ]
  ]

  get-Returns : (b : Bytes) → Returns (process_request fw len buf_size getrequest (some b) p)
  unfolding process_request
  get-Returns b = elim (Bool-cases (ltb buf_size request_size)) [
    | inl y ↦ (outcome info_length_mismatch, fw, p, ground (arith, y))
    | inr n ↦
        let (rest, v) = w.queue_owned in
        let (is, size, q, t, e, _, _) =
          get_request-IsTaken request_size buf_size fw.queue p rest v (ground (arith, n)) in
        (
          record { status = success; buf_len = size; output = items is },
          record fw { queue = q },
          t,
          ground (arith, n, e),
        )
  ]

  sids-Returns :
      (b : Bytes) → length b ≡ len → Returns (process_request fw len buf_size set_sids (some b) p)
  unfolding process_request
  sids-Returns b h = elim (Bool-cases (ltb len 4)) [
    | inl y ↦ (outcome info_length_mismatch, fw, p, ground (arith, y))
    | inr n ↦
        let (rest, o) = w.sids_owned in
        let (st, s, q, e) = sids-some b len fw.sids p rest o h small in
        (outcome (of_sids st), record fw { sids = s }, q, ground (arith, n, e))
  ]

  counters-Returns : (b : Bytes) → Returns (process_request fw len buf_size get_counters (some b) p)
  unfolding process_request
  counters-Returns b = elim (Bool-cases (ltb buf_size counters_size)) [
    | inl y ↦ (outcome info_length_mismatch, fw, p, ground (arith, y))
    | inr n ↦ (
      record { status = success; buf_len = counters_size; output = counters fw.g_traffic },
      fw,
      p,
      ground (arith, n),
    )
  ]

  null-Returns :
      (code : Command)
      → IsBuffer code none len
      → Returns (process_request fw len buf_size code none p)
  unfolding process_request
  null-Returns getrequest h = (_, _, p, refl)
  null-Returns clearchain h = (_, _, p, refl)
  null-Returns appendrule h = (_, _, p, refl)
  null-Returns setchainpname h = (_, _, p, refl)
  null-Returns setpname h = (_, _, p, refl)
  null-Returns activatechain h = (_, _, p, refl)
  null-Returns set_sids h = absurd h
  null-Returns get_counters h = absurd h
  null-Returns (other n) h = (_, _, p, refl)

  other-Returns :
      (n : ℕ) (b : Bytes) → Returns (process_request fw len buf_size (other n) (some b) p)
  unfolding process_request
  other-Returns n b = (_, _, p, refl)

-- From a sound state, where the pool hands out no block in use, any request of the user part with a
-- buffer of the length that it gives, below 2^32 - 4, returns: it reads nothing behind the buffer,
-- however its words and texts are chosen, and frees only what is live. A request without a buffer
-- returns as well, but for the two that do not test for it.
pub process_request-Returns :
    (fw : Firewall) (code : Command) (buf : Option Bytes) (len buf_size : ℕ) (p : Pool)
    → IsSound fw p
    → IsFresh p
    → IsBuffer code buf len
    → len + 4 < 2 ^ 32
    → Returns (process_request fw len buf_size code buf p)
process_request-Returns fw code none len buf_size p w f h small =
    null-Returns fw len buf_size p w f small code h
process_request-Returns fw getrequest (some b) len buf_size p w f h small =
    get-Returns fw len buf_size p w f small b
process_request-Returns fw clearchain (some b) len buf_size p w f h small =
    clear-Returns fw len buf_size p w f small b h
process_request-Returns fw appendrule (some b) len buf_size p w f h small =
    rule-Returns fw len buf_size p w f small b h
process_request-Returns fw setchainpname (some b) len buf_size p w f h small =
    chain_pname-Returns fw len buf_size p w f small b h
process_request-Returns fw setpname (some b) len buf_size p w f h small =
    pname-Returns fw len buf_size p w f small b h
process_request-Returns fw activatechain (some b) len buf_size p w f h small =
    activate-Returns fw len buf_size p w f small b h
process_request-Returns fw set_sids (some b) len buf_size p w f h small =
    sids-Returns fw len buf_size p w f small b h
process_request-Returns fw get_counters (some b) len buf_size p w f h small =
    counters-Returns fw len buf_size p w f small b
process_request-Returns fw (other n) (some b) len buf_size p w f h small =
    other-Returns fw len buf_size p w f small n b
