-- ===== src/FilterInit/Loops.antt =====
-- The loops of filter_free, each against the blocks that it frees.
use adfilter.Prelude.{
  ℕ, zero, suc, ◌+◌, ◌≤◌, ◌<◌, ◌≡◌, refl, ap, sym, subst, ◌∙◌, List, [], ◌++◌, none, some, arith,
}
use adfilter.Pool.{Pool, Owns, count, count-append}
use adfilter.Links.{addresses}
use adfilter.Ipc.{FltRequest, max_chains_count}
use adfilter.Process.{success}
use adfilter.Process.Invariant.{name_blocks}
use adfilter.Process.Exit.{free_name_owned}
use adfilter.RequestQueue.Pending.{request_blocks}
use adfilter.RequestQueue.Room.{free_request}
use adfilter.Rules.{Chain, Chains, update, cleared, clear_flt_chain, status}
use adfilter.Rules.Chains.{chain_blocks, valid, free_rules_owned, update_other}
use adfilter.Sids.{Sids, Status, no_sids, set_sid_list}
use adfilter.FilterInit.{clear_chains, free_slots}

-- The blocks of the chains from `i` on, of `n` chains.
abbrev pub all_chain_blocks : Chains → ℕ → ℕ → List ℕ
all_chain_blocks cs i zero = []
all_chain_blocks cs i (suc n) = chain_blocks (cs i) ++ all_chain_blocks cs (i + 1) n

-- The blocks of the slots from `i` on, of `n` slots.
abbrev pub slot_blocks : (ℕ → FltRequest) → ℕ → ℕ → List ℕ
slot_blocks s i zero = []
slot_blocks s i (suc n) = request_blocks (s i) ++ slot_blocks s (i + 1) n

pub all_chain_blocks-update :
    (cs : Chains) (c : Chain) (k i n : ℕ)
    → k < i
    → all_chain_blocks (update k c cs) i n ≡ all_chain_blocks cs i n
all_chain_blocks-update cs c k i zero h = refl
all_chain_blocks-update cs c k i (suc n) h =
    let here : update k c cs i ≡ cs i = update_other k i c cs (λ e. omega arith) in
    ap (λ x. chain_blocks x ++ all_chain_blocks (update k c cs) (i + 1) n) here
    ∙ ap (λ bs. chain_blocks (cs i) ++ bs) (all_chain_blocks-update cs c k (i + 1) n (omega arith))

pub append_assoc_blocks :
    (b : ℕ) (xs ys zs : List ℕ) → count b ((xs ++ ys) ++ zs) ≡ count b (xs ++ (ys ++ zs))
append_assoc_blocks b xs ys zs = omega (
  arith,
  count-append b (xs ++ ys) zs,
  count-append b xs ys,
  count-append b xs (ys ++ zs),
  count-append b ys zs,
)

pub clear_run :
    (i : ℕ) (cs : Chains) (p : Pool) (rest : List ℕ)
    → i < max_chains_count
    → Owns p (chain_blocks (cs i) ++ rest)
    → (q : Pool) × (clear_flt_chain i cs p ≡ some ((status success, update i cleared cs), q))
      × Owns q rest
unfolding clear_flt_chain
clear_run i cs p rest v o =
    let ok = valid i v in
    let (q, e, o') = free_rules_owned (cs i).rules.nodes p (name_blocks (cs i).pname ++ rest) (λ b.
      o b ∙ append_assoc_blocks b (addresses (cs i).rules.nodes) (name_blocks (cs i).pname) rest) in
    let (t, f, o'') = free_name_owned (cs i).pname q rest o' in (t, ground (arith, ok, e, f), o'')

pub clear_chains_owned :
    (n i : ℕ) (cs : Chains) (p : Pool) (rest : List ℕ)
    → i + n ≤ max_chains_count
    → Owns p (all_chain_blocks cs i n ++ rest)
    → (cs' : Chains) × (q : Pool) × (clear_chains i n cs p ≡ some (cs', q)) × Owns q rest
unfolding clear_chains
clear_chains_owned zero i cs p rest v o = (cs, p, refl, o)
clear_chains_owned (suc n) i cs p rest v o =
    let (q, e, o') = clear_run i cs p (all_chain_blocks cs (i + 1) n ++ rest) (omega arith) (λ b.
      o b ∙ append_assoc_blocks b (chain_blocks (cs i)) (all_chain_blocks cs (i + 1) n) rest) in
    let (cs', t, f, o'') = clear_chains_owned n (i + 1) (update i cleared cs) q rest (omega arith) (
      subst (λ bs. Owns q (bs ++ rest))
        (sym (all_chain_blocks-update cs cleared i (i + 1) n (omega arith))) o') in
    (cs', t, ground (arith, e, f), o'')

pub free_slots_owned :
    (n i : ℕ) (s : ℕ → FltRequest) (p : Pool) (rest : List ℕ)
    → Owns p (slot_blocks s i n ++ rest)
    → (q : Pool) × (free_slots s i n p ≡ some (tt, q)) × Owns q rest
unfolding free_slots
free_slots_owned zero i s p rest o = (p, refl, o)
free_slots_owned (suc n) i s p rest o =
    let (q, t, e, f, o') =
      free_request (s i) p (slot_blocks s (i + 1) n ++ rest)
        (λ b. o b ∙ append_assoc_blocks b (request_blocks (s i)) (slot_blocks s (i + 1) n) rest) in
    let (u, g, o'') = free_slots_owned n (i + 1) s t rest o' in (u, ground (arith, e, f, g), o'')

pub sids_end :
    (s : Sids) (p : Pool) (rest : List ℕ)
    → Owns p (name_blocks s.buf ++ rest)
    → (q : Pool) × (set_sid_list none 0 s p ≡ some ((Status.success, no_sids), q)) × Owns q rest
unfolding set_sid_list
sids_end s p rest o = let (q, e, o') = free_name_owned s.buf p rest o in (q, ground (arith, e), o')
