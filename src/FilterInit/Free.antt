-- ===== src/FilterInit/Free.antt =====
-- What filter_free leaves, after a use of the filter and after a start that failed.
use adfilter.Prelude.{
  ℕ, zero, suc, ◌+◌, ◌≡◌, refl, ap, sym, subst, ◌∙◌, inl, inr, List, [], ◌∷◌, ◌++◌, none, some,
  Bool, true, false, arith,
}
use adfilter.Pool.{
  Pool, M, ◌>>=◌, Owns, ex_allocate_pool, ex_allocate_pool_cases, ex_free_pool, ex_free_pool_owned,
}
use adfilter.Links.{empty}
use adfilter.Links.Append.{IsLinked}
use adfilter.Ipc.{max_chains_count}
use adfilter.Process.{pid_pname_free}
use adfilter.Process.Invariant.{name_blocks, IsPlist}
use adfilter.Process.Invariant
use adfilter.Process.Exit.{pid_pname_free_lem}
use adfilter.RequestQueue.{request_queue_size}
use adfilter.Sids.{Status, no_sids, set_sid_list}
use adfilter.FilterInit.{
  Filter, filter_init, clear_chains, free_slots, free_queue, filter_free, start_chains, no_chains,
  zero_request, empty_queue,
}
use adfilter.FilterInit.Loops.{
  all_chain_blocks, slot_blocks, all_chain_blocks-update, clear_chains_owned, free_slots_owned,
  sids_end,
}

-- The blocks of the filter.
abbrev pub filter_blocks : Filter → ℕ → List ℕ → List ℕ
filter_blocks f b rest =
    all_chain_blocks f.chains 0 max_chains_count
    ++ (slot_blocks f.queue.slot 0 request_queue_size
        ++ (b ∷ (name_blocks f.sids.buf ++ (Invariant.blocks f.plist.nodes ++ rest))))

bind_some :
    {A : Type 0} {B : Type 0} (m : M A) (k : A → M B) (p q : Pool) (a : A)
    → m p ≡ some (a, q)
    → (m >>= k) p ≡ k a q
bind_some m k p q a e = ap (λ r. elim r [ none ↦ none | some (a, p') ↦ k a p' ]) e

free_queue_lem :
    (f : Filter) (b : ℕ) (p : Pool) (rest : List ℕ)
    → IsLinked f.plist
    → Owns p (
        slot_blocks f.queue.slot 0 request_queue_size
        ++ (b ∷ (name_blocks f.sids.buf ++ (Invariant.blocks f.plist.nodes ++ rest))))
    → (q : Pool) × (free_queue (some b) f p ≡ some (tt, q)) × Owns q rest
unfolding free_queue
free_queue_lem f b p rest w o =
    let (q2, e2, o2) = free_slots_owned request_queue_size 0 f.queue.slot p _ o in
    let (q3, e3, o3) = ex_free_pool_owned b q2 _ o2 in
    let (q4, e4, o4) = sids_end f.sids q3 _ o3 in
    let (q5, e5, o5) = pid_pname_free_lem f.plist q4 rest (record { linked = w; owned = o4 }) in
    (
      q5,
      bind_some (free_slots f.queue.slot 0 request_queue_size) _ p q2 tt e2
          ∙ bind_some (ex_free_pool b) _ q2 q3 tt e3
          ∙ bind_some (set_sid_list none 0 f.sids) _ q3 q4 (Status.success, no_sids) e4
          ∙ bind_some (pid_pname_free f.plist) _ q4 q5 empty e5,
      o5,
    )

-- Where the queue has its array and the tail of the processes is their last entry, the end of the
-- filter frees all chains, the queue with every name and SID in its array, the SIDs and the
-- processes, and no other block, provided that each of these is live.
filter_free_lem :
    (f : Filter) (b : ℕ) (p : Pool) (rest : List ℕ)
    → f.queue_at ≡ some b
    → IsLinked f.plist
    → Owns p (filter_blocks f b rest)
    → (q : Pool) × (filter_free f p ≡ some (tt, q)) × Owns q rest
unfolding filter_free
filter_free_lem f b p rest h w o =
    let (cs, q1, e1, o1) = clear_chains_owned max_chains_count 0 f.chains p _ (omega arith) o in
    let (q, e, o') = free_queue_lem f b q1 rest w o1 in
    (
      q,
      bind_some (clear_chains 0 max_chains_count f.chains) _ p q1 cs e1
          ∙ ap (λ o. free_queue o f q1) h
          ∙ e,
      o',
    )

no_chain_blocks : (i n : ℕ) → all_chain_blocks no_chains i n ≡ []
no_chain_blocks i zero = refl
no_chain_blocks i (suc n) = no_chain_blocks (i + 1) n

pub no_slot_blocks : (i n : ℕ) → slot_blocks (λ _. zero_request) i n ≡ []
no_slot_blocks i zero = refl
no_slot_blocks i (suc n) = no_slot_blocks (i + 1) n

pub start_chain_blocks : (a : ℕ) → all_chain_blocks (start_chains a) 0 max_chains_count ≡ a ∷ []
start_chain_blocks a = ap (◌∷◌ a) (
    all_chain_blocks-update no_chains (start_chains a 0) 0 1 127 (omega arith)
    ∙ no_chain_blocks 1 127)

-- What the end does after a start: it gives back all blocks after one that succeeded, and faults
-- after one that failed.
abbrev pub Ends : Bool → Filter → Pool → List ℕ → Type 0
Ends true f q rest = (t : Pool) × (filter_free f q ≡ some (tt, t)) × Owns t rest
Ends false f q rest = filter_free f q ≡ none

none_left : (f : Filter) (q : Pool) → free_queue none f q ≡ none
unfolding free_queue
none_left f q = refl

no_queue :
    (f : Filter) (p : Pool) (rest : List ℕ)
    → f.queue_at ≡ none
    → Owns p (all_chain_blocks f.chains 0 max_chains_count ++ rest)
    → filter_free f p ≡ none
unfolding filter_free
no_queue f p rest h o =
    let (cs, q, e, _) = clear_chains_owned max_chains_count 0 f.chains p rest (omega arith) o in
    bind_some (clear_chains 0 max_chains_count f.chains) _ p q cs e
    ∙ ap (λ o. free_queue o f q) h
    ∙ none_left f q

-- After a start of the filter its end frees exactly what the start allocated; after a start that
-- found no memory the end faults, as it walks an array that is not there.
pub filter_init-Ends :
    (p : Pool) (rest : List ℕ)
    → Owns p rest
    → (ok : Bool) × (f : Filter) × (q : Pool) × (filter_init p ≡ some ((ok, f), q))
      × Ends ok f q rest
unfolding filter_init
filter_init-Ends p rest o = elim (ex_allocate_pool_cases p rest o) [
  | inl (q, e, o') ↦
      let f : Filter = record {
        chains = no_chains;
        plist = empty;
        queue = empty_queue;
        queue_at = none;
        sids = no_sids;
      } in
      (
        false,
        f,
        q,
        bind_some ex_allocate_pool _ p q none e,
        no_queue f q rest refl
            (subst (λ bs. Owns q (bs ++ rest)) (sym (no_chain_blocks 0 max_chains_count)) o'),
      )
  | inr (a, q, e, o') ↦ elim (ex_allocate_pool_cases q (a ∷ rest) o') [
    | inl (t, g, o'') ↦
        let f : Filter = record {
          chains = start_chains a;
          plist = empty;
          queue = empty_queue;
          queue_at = none;
          sids = no_sids;
        } in
        (
          false,
          f,
          t,
          bind_some ex_allocate_pool _ p q (some a) e ∙ bind_some ex_allocate_pool _ q t none g,
          no_queue f t rest refl
              (subst (λ bs. Owns t (bs ++ rest)) (sym (start_chain_blocks a)) o''),
        )
    | inr (b, t, g, o'') ↦
        let f : Filter = record {
          chains = start_chains a;
          plist = empty;
          queue = empty_queue;
          queue_at = some b;
          sids = no_sids;
        } in
        let order : Owns t (a ∷ ([] ++ (b ∷ rest))) = λ c. o'' c ∙ omega arith in
        (
          true,
          f,
          t,
          bind_some ex_allocate_pool _ p q (some a) e ∙ bind_some ex_allocate_pool _ q t (some b) g,
          filter_free_lem f b t rest refl (record { distinct = tt; at_end = refl })
              (subst
                (λ bs.
                  Owns t (bs ++ (slot_blocks empty_queue.slot 0 request_queue_size ++ (b ∷ rest))))
                (sym (start_chain_blocks a))
                (subst (λ bs. Owns t (a ∷ (bs ++ (b ∷ rest))))
                  (sym (no_slot_blocks 0 request_queue_size)) order)),
        )
  ]
]
