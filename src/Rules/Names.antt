-- ===== src/Rules/Names.antt =====
-- The name of a chain, and the chain of a process by its name.
use adfilter.Prelude.{
  ℕ, zero, suc, ◌+◌, ◌≤◌, ◌<◌, ◌≡◌, ◌≢◌, refl, ap, sym, subst, ◌∙◌, ◌⊎◌, inl, inr, List, [], ◌∷◌,
  ◌++◌, Option, none, some, true, false, arith, ◌==◌, Bool-cases, Bytes,
}
use adfilter.Pool.{Pool, count-append, ex_allocate_pool_cases}
use adfilter.Links.{addresses}
use adfilter.Ipc.{max_chains_count}
use adfilter.Process.{Plist, Status, success, insufficient_resources}
use adfilter.Process.Invariant.{name_blocks, IsPlist, IsFresh}
use adfilter.Process.Exit.{free_name_owned}
use adfilter.Process.Search.{entry_of}
use adfilter.Process.Names.{IsPnameSet, pid_pname_set_lem}
use adfilter.Rules.{
  Chain, Chains, update, Result, status, is_chain_of, find_chain, set_pid_pname, set_chain_pname,
}
use adfilter.Rules.Chains.{IsChain, chain_blocks, update_self, update_other, valid}

-- Some chain from `i` on, before `j`, has the name.
abbrev pub SomeNamed : Bytes → Chains → ℕ → ℕ → Type 0
SomeNamed pname cs i j = (k : ℕ) × (i ≤ k) × (k < j) × (is_chain_of pname (cs k) ≡ true)

-- The first chain of the name from `i` on, before `j`, or 0 where there is none.
abbrev pub IsFirst : Bytes → Chains → ℕ → ℕ → ℕ → Type 0
IsFirst pname cs i j c =
    ((i ≤ c) × (c < j) × (is_chain_of pname (cs c) ≡ true) × ¬ SomeNamed pname cs i c)
    ⊎ ((c ≡ 0) × ¬ SomeNamed pname cs i j)

module _ (pname : Bytes) (cs : Chains) where
  -- A chain of the name is not the chain `i`, which has another.
  later :
      (i j : ℕ)
      → is_chain_of pname (cs i) ≡ false
      → SomeNamed pname cs i j
      → SomeNamed pname cs (i + 1) j
  later i j e (k, a, b, f) = elim (Bool-cases (i == k)) [
    | inr h ↦ (k, ground arith, b, f)
    | inl h ↦
        let same : i ≡ k = ground arith in
        let g : is_chain_of pname (cs i) ≡ is_chain_of pname (cs k) =
          ap (λ i. is_chain_of pname (cs i)) same in
        ground (arith, e, f, g)
  ]

  find_chain-IsFirst : (i n : ℕ) → IsFirst pname cs i (i + n) (find_chain pname cs i n)
  unfolding find_chain
  find_chain-IsFirst i zero = inr (refl, λ (k, a, b, f). absurd (omega arith))
  find_chain-IsFirst i (suc n) = elim (Bool-cases (is_chain_of pname (cs i))) [
    | inl e ↦
        let here : find_chain pname cs i (suc n) ≡ i = ground (arith, e) in
        subst (IsFirst pname cs i (i + suc n)) (sym here)
          (inl (omega arith, omega arith, e, λ (k, a, b, f). absurd (omega arith)))
    | inr e ↦
        let there : find_chain pname cs i (suc n) ≡ find_chain pname cs (i + 1) n =
          ground (arith, e) in
        let reach : i + 1 + n ≡ i + suc n = omega arith in
        subst (IsFirst pname cs i (i + suc n)) (sym there) (
          wider (find_chain pname cs (i + 1) n) e (
            subst (λ m. IsFirst pname cs (i + 1) m (find_chain pname cs (i + 1) n)) reach
              (find_chain-IsFirst (i + 1) n)))
  ]
    where
      wider :
          (c : ℕ)
          → is_chain_of pname (cs i) ≡ false
          → IsFirst pname cs (i + 1) (i + suc n) c
          → IsFirst pname cs i (i + suc n) c
      wider c e (inl (a, b, f, g)) = inl (omega arith, b, f, λ s. g (later i c e s))
      wider c e (inr (z, g)) = inr (z, λ s. g (later i (i + suc n) e s))

-- The process gets the first chain of its name, letters compared without case, or the default chain
-- where no chain has the name; the rest, and the conditions, are as for pid_pname_set.
pub set_pid_pname_lem :
    (pid : ℕ) (pname : Bytes) (size other : ℕ) (cs : Chains) (l : Plist) (p : Pool) (rest : List ℕ)
    → IsPlist l p rest
    → IsFresh p
    → 0 < size
    → other ≢ pid
    → (chain : ℕ) × (st : Status) × (event : Option ℕ) × (l' : Plist) × (q : Pool) × (set_pid_pname
          pid pname cs l p
        ≡ some ((st, event, l'), q))
      × IsFirst pname cs 0 max_chains_count chain
      × IsPlist l' q rest
      × (entry_of other l' ≡ entry_of other l)
      × IsPnameSet pid pname chain size l st l'
unfolding set_pid_pname
set_pid_pname_lem pid pname size other cs l p rest w f s ne =
    let c = find_chain pname cs 0 max_chains_count in
    let (st, event, l', q, e, w', k, g) =
      pid_pname_set_lem pid pname c size other l p rest w f s ne in
    (c, st, event, l', q, e, find_chain-IsFirst pname cs 0 max_chains_count, w', k, g)

-- How a chain's name ends up: the new one, or none for want of memory.
abbrev pub IsRenamed : Bytes → Chain → Result → Chain → Type 0
IsRenamed pname c r c' =
    ((a : ℕ) × (r ≡ status success)
      × (c' ≡ record c { pname = some (record { at = a; bytes = pname }) }))
    ⊎ ((r ≡ status insufficient_resources) × (c' ≡ record c { pname = none }))

-- Naming one of the 128 chains, well formed, frees the old name, gives it the new one in a block of
-- its own, or none for want of memory, and changes neither its rules nor another chain.
pub set_chain_pname-IsRenamed :
    (chain other : ℕ) (pname : Bytes) (cs : Chains) (p : Pool) (rest : List ℕ)
    → IsChain (cs chain) p rest
    → chain < max_chains_count
    → other ≢ chain
    → (r : Result) × (cs' : Chains) × (q : Pool) × (set_chain_pname chain pname cs p
        ≡ some ((r, cs'), q))
      × IsRenamed pname (cs chain) r (cs' chain)
      × (cs' other ≡ cs other)
      × IsChain (cs' chain) q rest
unfolding set_chain_pname
set_chain_pname-IsRenamed chain other pname cs p rest w v ne =
    let ok = valid chain v in
    let rules = addresses (cs chain).rules.nodes in
    let (q, e, o) = free_name_owned (cs chain).pname p (rules ++ rest) (λ b.
      w.owned b
      ∙ omega (
        arith,
        count-append b (chain_blocks (cs chain)) rest,
        count-append b rules (name_blocks (cs chain).pname),
        count-append b (name_blocks (cs chain).pname) (rules ++ rest),
        count-append b rules rest,
      )) in
    elim (ex_allocate_pool_cases q (rules ++ rest) o) [
      | inl (t, f, o') ↦
          let c : Chain = record (cs chain) { pname = none } in
          let here = update_self chain c cs in
          (
            status insufficient_resources,
            update chain c cs,
            t,
            ground (arith, ok, e, f),
            inr (refl, here),
            update_other chain other c cs ne,
            subst (λ c. IsChain c t rest) (sym here)
                (record {
                  linked = w.linked;
                  owned = λ b.
                      o' b
                      ∙ omega (
                        arith,
                        count-append b (chain_blocks c) rest,
                        count-append b rules [],
                        count-append b rules rest,
                      );
                }),
          )
      | inr (a, t, f, o') ↦
          let c : Chain = record (cs chain) { pname = some (record { at = a; bytes = pname }) } in
          let here = update_self chain c cs in
          (
            status success,
            update chain c cs,
            t,
            ground (arith, ok, e, f),
            inl (a, refl, here),
            update_other chain other c cs ne,
            subst (λ c. IsChain c t rest) (sym here)
                (record {
                  linked = w.linked;
                  owned = λ b.
                      o' b
                      ∙ omega (
                        arith,
                        count-append b (chain_blocks c) rest,
                        count-append b rules (a ∷ []),
                        count-append b rules rest,
                      );
                }),
          )
    ]
