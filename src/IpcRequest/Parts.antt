-- ===== src/IpcRequest/Parts.antt =====
-- The operations behind the requests return, whatever the request holds.
use adfilter.Prelude.{
  ℕ, suc, ◌+◌, ◌^◌, ◌<◌, ◌≡◌, ap, ◌∙◌, ◌⊎◌, inl, inr, List, ◌++◌, some, true, arith, ◌==◌, leb,
  if◌then◌else◌, length, take, Bytes, Bool-cases, take_of_length-le,
}
use adfilter.Pool.{Pool, Owns, ex_allocate_pool_cases}
use adfilter.Ipc.{max_chains_count, max_sids_count, FltRule}
use adfilter.Process.Invariant.{name_blocks, IsFresh}
use adfilter.Process.Exit.{free_name_owned}
use adfilter.Rules.{Chains, Result, is_invalid, add_flt_rule, clear_flt_chain, set_chain_pname}
use adfilter.Rules.Chains.{IsChain, add_flt_rule_cases, clear_flt_chain_lem}
use adfilter.Rules.Names.{set_chain_pname-IsRenamed}
use adfilter.Sids.{Sids, Status, set_sid_list, parse, no_sids}
use adfilter.IpcRequest.Reads.{parse-some}

invalid_cases : (chain : ℕ) → (is_invalid chain ≡ true) ⊎ (chain < max_chains_count)
invalid_cases chain = elim (Bool-cases (leb 128 chain)) [
  | inl h ↦ inl (ground arith)
  | inr h ↦ inr (ground arith)
]

module _ (cs : Chains) (p : Pool)
    (own : (c : ℕ) → c < max_chains_count → (rest : List ℕ) × IsChain (cs c) p rest) where
  pub add-some :
      (chain : ℕ) (rule : FltRule)
      → IsFresh p
      → (r : Result) × (cs' : Chains) × (q : Pool) × (add_flt_rule chain rule cs p
          ≡ some ((r, cs'), q))
  unfolding add_flt_rule
  add-some chain rule f = elim (invalid_cases chain) [
    | inl h ↦ (Result.invalid_parameter_1, cs, p, ground (arith, h))
    | inr h ↦
        let (rest, w) = own chain h in
        elim (add_flt_rule_cases chain (suc chain) rule cs p rest w f h (λ e. omega arith)) [
          | inl (q, e, _) ↦ (_, cs, q, e)
          | inr (a, cs', q, e, _, _, _) ↦ (_, cs', q, e)
        ]
  ]

  pub clear-some :
      (chain : ℕ)
      → (r : Result) × (cs' : Chains) × (q : Pool) × (clear_flt_chain chain cs p
          ≡ some ((r, cs'), q))
  unfolding clear_flt_chain
  clear-some chain = elim (invalid_cases chain) [
    | inl h ↦ (Result.invalid_parameter_1, cs, p, ground (arith, h))
    | inr h ↦
        let (rest, w) = own chain h in
        let (cs', q, e, _, _, _) =
          clear_flt_chain_lem chain (suc chain) cs p rest w h (λ e. omega arith) in
        (_, cs', q, e)
  ]

  pub name-some :
      (chain : ℕ) (pname : Bytes)
      → (r : Result) × (cs' : Chains) × (q : Pool) × (set_chain_pname chain pname cs p
          ≡ some ((r, cs'), q))
  unfolding set_chain_pname
  name-some chain pname = elim (invalid_cases chain) [
    | inl h ↦ (Result.invalid_parameter_1, cs, p, ground (arith, h))
    | inr h ↦
        let (rest, w) = own chain h in
        let (r, cs', q, e, _, _, _) =
          set_chain_pname-IsRenamed chain (suc chain) pname cs p rest w h (λ e. omega arith) in
        (r, cs', q, e)
  ]

pub sids-some :
    (b : Bytes) (len : ℕ) (s : Sids) (p : Pool) (rest : List ℕ)
    → Owns p (name_blocks s.buf ++ rest)
    → length b ≡ len
    → len + 4 < 2 ^ 32
    → (st : Status) × (s' : Sids) × (q : Pool) × (set_sid_list (some b) len s p
        ≡ some ((st, s'), q))
unfolding set_sid_list
sids-some b len s p rest o h f =
    let (q, e, o') = free_name_owned s.buf p rest o in
    elim (Bool-cases (len == 0)) [
      | inl z ↦ (Status.success, no_sids, q, ground (arith, e, z))
      | inr n ↦ elim (ex_allocate_pool_cases q rest o') [
        | inl (t, g, _) ↦ (Status.insufficient_resources, no_sids, t, ground (arith, e, n, g))
        | inr (a, t, g, _) ↦
            let all : take len b ≡ b = take_of_length-le len b (omega arith) in
            let (l, last, k) = parse-some max_sids_count 0 len b h (omega arith) f in
            let k' = ap (parse max_sids_count 0 len) all ∙ k in
            (
              (if last == len then Status.success else Status.invalid_parameter),
              record { buf = some (record { at = a; bytes = take len b }); list = l },
              t,
              ground (arith, e, n, g, k'),
            )
      ]
    ]
