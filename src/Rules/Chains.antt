-- ===== src/Rules/Chains.antt =====
-- Adding a rule to a chain, clearing and activating a chain, and whether only the default is active.
use adfilter.Prelude.{
  ℕ, zero, suc, ◌+◌, ◌≤◌, ◌<◌, ◌≡◌, ◌≢◌, ◌↔◌, refl, ap, sym, subst, ◌∙◌, ◌⊎◌, inl, inr, List, [],
  ◌∷◌, ◌++◌, some, true, false, arith, ◌==◌, All, Bool-cases,
}
use adfilter.Pool.{Pool, Owns, count, count-append, ex_allocate_pool_cases, ex_free_pool_owned}
use adfilter.Links.{addresses}
use adfilter.Links.Append.{IsLinked, append_lem}
use adfilter.Ipc.{FltRule, max_chains_count}
use adfilter.Process.{success, insufficient_resources}
use adfilter.Process.Invariant.{name_blocks, IsFresh, fresh_reply}
use adfilter.Process.Exit.{free_name_owned}
use adfilter.Rules.{
  Chain, Chains, update, status, is_invalid, add_flt_rule, free_rules, cleared, clear_flt_chain,
  none_active, default_chain_only,
}

abbrev pub chain_blocks : Chain → List ℕ
chain_blocks c = addresses c.rules.nodes ++ name_blocks c.pname

-- A chain whose tail is its last rule, and whose blocks are live besides `rest`.
pub record IsChain (c : Chain) (p : Pool) (rest : List ℕ) : Type 0 where
  pub linked : IsLinked c.rules
  pub owned : Owns p (chain_blocks c ++ rest)

absent :
    (a : ℕ) (ns : List (ℕ × FltRule)) (rest : List ℕ)
    → count a (addresses ns ++ rest) ≡ 0
    → All (λ b. b ≢ a) (addresses ns)
absent a [] rest h = tt
absent a (x ∷ xs) rest h = (λ e. ground arith, absent a xs rest (ground arith))

count-addresses-snoc :
    (b : ℕ) (ns : List (ℕ × FltRule)) (n : ℕ × FltRule)
    → count b (addresses (ns ++ n ∷ [])) ≡ count b (addresses ns) + count b (n.0 ∷ [])
count-addresses-snoc b [] n = omega arith
count-addresses-snoc b (x ∷ xs) n = omega (arith, count-addresses-snoc b xs n)

pub valid : (chain : ℕ) → chain < max_chains_count → is_invalid chain ≡ false
valid chain h = ground arith

pub update_self : (i : ℕ) (c : Chain) (cs : Chains) → update i c cs i ≡ c
update_self i c cs = ground arith

pub update_other : (i j : ℕ) (c : Chain) (cs : Chains) → j ≢ i → update i c cs j ≡ cs j
update_other i j c cs h = ground arith

-- Where the pool hands out no block in use, a rule for one of the 128 chains goes to the end of
-- that chain, which stays well formed, and no other chain changes; or there is no memory for it and
-- nothing changes.
pub add_flt_rule_cases :
    (chain other : ℕ) (rule : FltRule) (cs : Chains) (p : Pool) (rest : List ℕ)
    → IsChain (cs chain) p rest
    → IsFresh p
    → chain < max_chains_count
    → other ≢ chain
    → ((q : Pool) × (add_flt_rule chain rule cs p ≡ some ((status insufficient_resources, cs), q))
        × IsChain (cs chain) q rest)
      ⊎ ((a : ℕ) × (cs' : Chains) × (q : Pool) × (add_flt_rule chain rule cs p
            ≡ some ((status success, cs'), q))
          × ((cs' chain).rules.nodes
              ≡ (cs chain).rules.nodes ++ (a, record rule { chain = 0 }) ∷ [])
          × (cs' other ≡ cs other)
          × IsChain (cs' chain) q rest)
unfolding add_flt_rule
add_flt_rule_cases chain other rule cs p rest w f v ne =
    let ok = valid chain v in
    elim (ex_allocate_pool_cases p (chain_blocks (cs chain) ++ rest) w.owned) [
      | inl (q, e, o) ↦ inl (q, ground (arith, ok, e), record { linked = w.linked; owned = o })
      | inr (a, q, e, o) ↦
          let new = absent a (cs chain).rules.nodes (name_blocks (cs chain).pname ++ rest) (
            omega (
              arith,
              w.owned a,
              fresh_reply p q a f e,
              count-append a (chain_blocks (cs chain)) rest,
              count-append a (addresses (cs chain).rules.nodes) (name_blocks (cs chain).pname),
              count-append a (addresses (cs chain).rules.nodes)
                  (name_blocks (cs chain).pname ++ rest),
              count-append a (name_blocks (cs chain).pname) rest,
            )) in
          let (l, g, k, w') =
            append_lem (cs chain).rules (a, record rule { chain = 0 }) w.linked new in
          let c : Chain = record (cs chain) { rules = l } in
          let here = update_self chain c cs in
          inr (
            a,
            update chain c cs,
            q,
            ground (arith, ok, e, g),
            ap (λ (c : Chain). c.rules.nodes) here ∙ k,
            update_other chain other c cs ne,
            subst (λ c. IsChain c q rest) (sym here)
                (record {
                  linked = w';
                  owned = λ b.
                      o b
                      ∙ omega (
                        arith,
                        ap (λ ns. count b (addresses ns)) k,
                        count-addresses-snoc b (cs chain).rules.nodes
                            (a, record rule { chain = 0 }),
                        count-append b (chain_blocks (cs chain)) rest,
                        count-append b (addresses (cs chain).rules.nodes)
                            (name_blocks (cs chain).pname),
                        count-append b (chain_blocks c) rest,
                        count-append b (addresses l.nodes) (name_blocks (cs chain).pname),
                      );
                }),
          )
    ]

pub free_rules_owned :
    (rs : List (ℕ × FltRule)) (p : Pool) (rest : List ℕ)
    → Owns p (addresses rs ++ rest)
    → (q : Pool) × (free_rules rs p ≡ some (tt, q)) × Owns q rest
unfolding free_rules
free_rules_owned [] p rest o = (p, refl, o)
free_rules_owned (r ∷ rs) p rest o =
    let (q, e, o') = ex_free_pool_owned r.0 p (addresses rs ++ rest) o in
    let (t, f, o'') = free_rules_owned rs q rest o' in (t, ground (arith, e, f), o'')

-- Clearing one of the 128 chains, well formed, frees exactly its rules and its name, leaves it
-- empty and inactive, and changes no other chain.
pub clear_flt_chain_lem :
    (chain other : ℕ) (cs : Chains) (p : Pool) (rest : List ℕ)
    → IsChain (cs chain) p rest
    → chain < max_chains_count
    → other ≢ chain
    → (cs' : Chains) × (q : Pool) × (clear_flt_chain chain cs p ≡ some ((status success, cs'), q))
      × (cs' chain ≡ cleared)
      × (cs' other ≡ cs other)
      × Owns q rest
unfolding clear_flt_chain
clear_flt_chain_lem chain other cs p rest w v ne =
    let ok = valid chain v in
    let (q, e, o) =
      free_rules_owned (cs chain).rules.nodes p (name_blocks (cs chain).pname ++ rest) (λ b.
        w.owned b
        ∙ omega (
          arith,
          count-append b (chain_blocks (cs chain)) rest,
          count-append b (addresses (cs chain).rules.nodes) (name_blocks (cs chain).pname),
          count-append b (addresses (cs chain).rules.nodes) (name_blocks (cs chain).pname ++ rest),
          count-append b (name_blocks (cs chain).pname) rest,
        )) in
    let (t, f, o') = free_name_owned (cs chain).pname q rest o in
    (
      update chain cleared cs,
      t,
      ground (arith, ok, e, f),
      update_self chain cleared cs,
      update_other chain other cleared cs ne,
      o',
    )

-- Some chain from `i` on, of `n` chains, is active.
abbrev pub SomeActive : Chains → ℕ → ℕ → Type 0
SomeActive cs i n = (j : ℕ) × (i ≤ j) × (j < i + n) × ((cs j).active ≡ true)

none_active_iff : (cs : Chains) (i n : ℕ) → (none_active cs i n ≡ false) ↔ SomeActive cs i n
unfolding none_active
none_active_iff cs i zero = (λ h. cc, λ (j, a, b, e). absurd (omega arith))
none_active_iff cs i (suc n) = (
  λ h. elim (Bool-cases (cs i).active) [
    | inl e ↦ (i, omega arith, omega arith, e)
    | inr e ↦
        let (j, a, b, f) = (none_active_iff cs (i + 1) n).0 (ground (arith, h, e)) in
        (j, omega arith, omega arith, f)
  ],
  λ (j, a, b, f). elim (Bool-cases (cs i).active) [
    | inl e ↦ ground (arith, e)
    | inr e ↦
        let further : i + 1 ≤ j = later i j e f a in
        let k = (none_active_iff cs (i + 1) n).1 (j, further, omega arith, f) in
        ground (arith, e, k)
  ],
)
  where
    later : (i j : ℕ) → (cs i).active ≡ false → (cs j).active ≡ true → i ≤ j → i + 1 ≤ j
    later i j e f a = elim (Bool-cases (i == j)) [
      | inr h ↦ ground arith
      | inl h ↦
          let same : i ≡ j = ground arith in
          let k : (cs i).active ≡ (cs j).active = ap (λ i. (cs i).active) same in
          ground (arith, k, e, f)
    ]

-- The answer is true exactly if the default chain is active and no other of the 128 is.
default_chain_only_iff :
    (cs : Chains)
    → (default_chain_only cs ≡ true) ↔ (((cs 0).active ≡ true) × ¬ SomeActive cs 1 127)
unfolding default_chain_only
default_chain_only_iff cs = (
  λ h. elim (Bool-cases (cs 0).active) [
    | inl e ↦ (e, λ s. let k = (none_active_iff cs 1 127).1 s in ground (arith, h, e, k))
    | inr e ↦ ground (arith, h, e)
  ],
  λ (e, s). elim (Bool-cases (none_active cs 1 127)) [
    | inl k ↦ ground (arith, e, k)
    | inr k ↦ absurd (s ((none_active_iff cs 1 127).0 k))
  ],
)
