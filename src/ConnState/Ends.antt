-- ===== src/ConnState/Ends.antt =====
-- The start and the end of the tables together.
use adfilter.Prelude.{
  ℕ, ◌≡◌, ◌≢◌, refl, sym, ◌∙◌, ◌⊎◌, inl, inr, List, [], ◌∷◌, none, some, Bool, true, false, arith,
  Bool-cases,
}
use adfilter.Pool.{
  Pool, Owns, count, remove_one, ex_allocate_pool, ex_allocate_pool_cases, ex_free_pool,
  ex_free_pool_owned,
}
use adfilter.Process.Invariant.{IsFresh, fresh_reply}
use adfilter.TcpConn.{Conns}
use adfilter.TcpConn.Invariant.{IsConns}
use adfilter.TcpConn.Thread.{thread_round-stop}
use adfilter.TcpConn.Steps.{start-IsSound}
use adfilter.ConnState.{
  Tables, Status, success, insufficient_resources, thread_failed, free_if, conn_state_init,
  set_event, last_round, conn_state_free,
}

abbrev pub running : ℕ → ℕ → Tables
running a b = record { listen = some a; conn = some b; event = true; thread = true }

abbrev pub gone : Tables
gone = record { listen = none; conn = none; event = true; thread = false }

abbrev pub no_conns : Conns
no_conns = record { heap = λ _. none; chain = λ _. []; to_del = []; back = none }

remove_one_absent : (a : ℕ) (xs : List ℕ) → count a xs ≡ 0 → remove_one a xs ≡ none
unfolding remove_one
remove_one_absent a [] h = refl
remove_one_absent a (x ∷ xs) h =
    let miss : x ≢ a = λ s. absurd (ground (arith, s, h)) in
    let ih = remove_one_absent a xs (omega (arith, h, miss)) in ground (arith, miss, ih)

ex_free_pool_absent :
    (a : ℕ) (p : Pool) (rest : List ℕ) → Owns p rest → count a rest ≡ 0 → ex_free_pool a p ≡ none
unfolding ex_free_pool
ex_free_pool_absent a p rest o h = let e = remove_one_absent a p.live (o a ∙ h) in ground (arith, e)

-- The pool refuses the first or the second block.
abbrev pub IsShort : Pool → Type 0
IsShort p =
    ((q : Pool) × (ex_allocate_pool p ≡ some (none, q)))
    ⊎ ((a : ℕ) × (q : Pool) × (r : Pool) × (ex_allocate_pool p ≡ some (some a, q))
        × (ex_allocate_pool q ≡ some (none, r)))

module _ (increment now : ℕ) where
  -- When no file object holds a connection, the end of the tables deletes every connection that there
  -- is, and frees its block and those of the two tables, and no other.
  pub conn_state_free_lem :
      (a b x : ℕ) (c : Conns) (p : Pool) (rest : List ℕ)
      → IsConns c p [] (a ∷ b ∷ rest)
      → (c' : Conns) × (q : Pool) × (conn_state_free increment now (running a b) c p
          ≡ some ((gone, c'), q))
        × (c'.heap x ≡ none)
        × Owns q rest
  unfolding conn_state_free set_event last_round free_if
  conn_state_free_lem a b x c p rest w =
      let (timeout, c', q, e, l, h, o) = thread_round-stop increment now x c p (a ∷ b ∷ rest) w in
      let (r, f, o1) = ex_free_pool_owned a q (b ∷ rest) o in
      let (s, g, o2) = ex_free_pool_owned b r rest o1 in (c', s, ground (arith, e, f, g), h, o2)

  freed_twice :
      (a b : ℕ) (c : Conns) (p : Pool) (rest : List ℕ)
      → Owns p rest
      → count a rest ≡ 0
      → conn_state_free increment now
          (record { listen = some a; conn = some b; event = true; thread = false })
          c
          p
        ≡ none
  unfolding conn_state_free set_event last_round free_if
  freed_twice a b c p rest o h = let e = ex_free_pool_absent a p rest o h in ground (arith, e)

  -- The start of the tables where the pool hands out no block in use: after a success the end of
  -- the tables frees exactly what the start allocated; where there was no memory for one of the two
  -- tables, or the thread could not be created, the start itself has freed what it allocated; and
  -- in the last case the end faults, as it frees the first table again.
  pub conn_state_init-conn_state_free :
      (created : Bool) (p : Pool) (rest : List ℕ)
      → Owns p rest
      → IsFresh p
      → (status : Status) × (t : Tables) × (q : Pool) × (conn_state_init created p
          ≡ some ((status, t), q))
        × (((status ≡ success)
              × (created ≡ true)
              × (c : Conns) × (r : Pool) × (conn_state_free increment now t no_conns q
                  ≡ some ((gone, c), r))
              × Owns r rest)
            ⊎ ((status ≡ insufficient_resources) × IsShort p × Owns q rest)
            ⊎ ((status ≡ thread_failed)
                × (created ≡ false)
                × Owns q rest
                × (conn_state_free increment now t no_conns q ≡ none)))
  unfolding conn_state_init
  conn_state_init-conn_state_free created p rest o fresh = elim (ex_allocate_pool_cases p rest o) [
    | inl (q, e, o1) ↦ (
      insufficient_resources,
      record { listen = none; conn = none; event = false; thread = false },
      q,
      ground (arith, e),
      inr (inl (refl, inl (q, e), o1)),
    )
    | inr (a, q, e, o1) ↦
        let new : count a rest ≡ 0 = sym (o a) ∙ fresh_reply p q a fresh e in
        elim (ex_allocate_pool_cases q (a ∷ rest) o1) [
          | inl (r, f, o2) ↦
              let (s, g, o3) = ex_free_pool_owned a r rest o2 in
              (
                insufficient_resources,
                record { listen = some a; conn = none; event = false; thread = false },
                s,
                ground (arith, e, f, g),
                inr (inl (refl, inr (a, q, r, e, f), o3)),
              )
          | inr (b, r, f, o2) ↦
              let order : Owns r (a ∷ b ∷ rest) = λ x. omega (arith, o2 x) in
              elim (Bool-cases created) [
                | inl y ↦
                    let w = start-IsSound r in
                    let sound : IsConns no_conns r [] (a ∷ b ∷ rest) = record {
                      table = w.table;
                      owned = w.owned;
                      are_closed = w.are_closed;
                      no_ring = w.no_ring;
                      blocks = order;
                    } in
                    let (c, s, g, h, k) = conn_state_free_lem a b 0 no_conns r rest sound in
                    (success, running a b, r, ground (arith, e, f, y), inl (refl, y, c, s, g, k))
                | inr n ↦
                    let (s, g, o3) = ex_free_pool_owned a r (b ∷ rest) order in
                    let (u, h, o4) = ex_free_pool_owned b s rest o3 in
                    (
                      thread_failed,
                      record { listen = some a; conn = some b; event = true; thread = false },
                      u,
                      ground (arith, e, f, n, g, h),
                      inr (inr (refl, n, o4, freed_twice a b no_conns u rest o4 new)),
                    )
              ]
        ]
  ]
