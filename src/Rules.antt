-- ===== src/Rules.antt =====
-- sys/tdi_fw/src/filter.c: the chains of rules. The array of chains is a function of the index; an
-- `int chain` is its bit pattern, from 2^31 on negative.
pub mod Chains
pub mod Names
use adfilter.Prelude.{
  ℕ, zero, suc, ◌+◌, ◌^◌, List, [], ◌∷◌, Option, none, some, Bool, true, false, not, ◌&&◌, ◌||◌,
  ◌==◌, leb, if◌then◌else◌, Bytes, bytes_eq, map,
}
use adfilter.Pool.{Block, M, pure, fault, ◌>>=◌, ◌>>◌, ex_allocate_pool, ex_free_pool}
use adfilter.Links.{Links, append, empty}
use adfilter.Ipc.{FltRule, max_chains_count}
use adfilter.Process.{Plist, free_name, pid_pname_set, Status, success, insufficient_resources}

pub record Chain : Type 0 where
  pub rules : Links FltRule
  pub pname : Option Block
  pub active : Bool

abbrev pub Chains : Type 0
Chains = ℕ → Chain

abbrev pub update : ℕ → Chain → Chains → Chains
update i c cs j = if j == i then c else cs j

pub data Result : Type 0 where
  status : Status → Result
  invalid_parameter_1 : Result

-- `chain < 0 || chain >= MAX_CHAINS_COUNT`
abbrev pub is_invalid : ℕ → Bool
is_invalid chain = leb (2 ^ 31) chain || leb max_chains_count chain

unfoldable pub add_flt_rule : ℕ → FltRule → Chains → M (Result × Chains)
add_flt_rule chain rule cs = if is_invalid chain then pure (invalid_parameter_1, cs) else (do
  new_rule ← ex_allocate_pool
  elim new_rule [
    | none ↦ pure (status insufficient_resources, cs)
    | some a ↦ elim (append (cs chain).rules (a, record rule { chain = 0 })) [
      | none ↦ fault
      | some l ↦ pure (status success, update chain (record (cs chain) { rules = l }) cs)
    ]
  ])

unfoldable pub free_rules : List (ℕ × FltRule) → M (Unit {0})
free_rules [] = pure tt
free_rules (r ∷ rs) = do ex_free_pool r.0; free_rules rs

abbrev pub cleared : Chain
cleared = record { rules = empty; pname = none; active = false }

unfoldable pub clear_flt_chain : ℕ → Chains → M (Result × Chains)
clear_flt_chain chain cs = if is_invalid chain then pure (invalid_parameter_1, cs) else (do
  free_rules (cs chain).rules.nodes
  free_name (cs chain).pname
  pure (status success, update chain cleared cs))

unfoldable pub set_chain_pname : ℕ → Bytes → Chains → M (Result × Chains)
set_chain_pname chain pname cs = if is_invalid chain then pure (invalid_parameter_1, cs) else (do
  free_name (cs chain).pname
  buf ← ex_allocate_pool
  elim buf [
    | none ↦
        pure (status insufficient_resources, update chain (record (cs chain) { pname = none }) cs)
    | some a ↦ pure (
      status success,
      update chain (record (cs chain) { pname = some (record { at = a; bytes = pname }) }) cs,
    )
  ])

-- _stricmp of the C library folds the letters of ASCII.
abbrev pub to_lower : ℕ → ℕ
to_lower c = if leb 65 c && leb c 90 then c + 32 else c

unfoldable pub stricmp_eq : Bytes → Bytes → Bool
stricmp_eq a b = bytes_eq (map to_lower a) (map to_lower b)

unfoldable pub is_chain_of : Bytes → Chain → Bool
is_chain_of pname c = elim c.pname [ none ↦ false | some b ↦ stricmp_eq pname b.bytes ]

-- The loop from chain `i` on, with `n` chains left; `chain` is 0 where none is found.
unfoldable pub find_chain : Bytes → Chains → ℕ → ℕ → ℕ
find_chain pname cs i zero = 0
find_chain pname cs i (suc n) =
    let rest = find_chain pname cs (i + 1) n in if is_chain_of pname (cs i) then i else rest

unfoldable pub set_pid_pname : ℕ → Bytes → Chains → Plist → M (Status × Option ℕ × Plist)
set_pid_pname pid pname cs l = pid_pname_set pid pname (find_chain pname cs 0 max_chains_count) l

unfoldable pub activate_flt_chain : ℕ → Chains → Result × Chains
activate_flt_chain chain cs =
    if is_invalid chain
    then (invalid_parameter_1, cs)
    else (status success, update chain (record (cs chain) { active = true }) cs)

-- The loop of default_chain_only from chain `i` on, with `n` chains left.
unfoldable pub none_active : Chains → ℕ → ℕ → Bool
none_active cs i zero = true
none_active cs i (suc n) =
    let rest = none_active cs (i + 1) n in if (cs i).active then false else rest

unfoldable pub default_chain_only : Chains → Bool
default_chain_only cs = if (cs 0).active then none_active cs 1 127 else false
