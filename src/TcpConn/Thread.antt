-- ===== src/TcpConn/Thread.antt =====
-- The thread that deletes closed entries: what a round deletes, what it keeps, and how long it waits.
use adfilter.Prelude.{
  ℕ, ◌+◌, ◌<◌, ◌≡◌, refl, sym, subst, ◌∙◌, ◌⊎◌, inl, inr, List, [], ◌∷◌, ◌++◌, Option, none, some,
  Bool, true, arith, Option-cases,
}
use adfilter.Pool.{Pool, Owns, count}
use adfilter.TcpConn.{Conn, Conns, thread_loop, thread_round}
use adfilter.TcpConn.Invariant.{IsConns, presence}
use adfilter.TcpConn.Sweep.{survivors, WaitsAtMost, WaitsExactly, sweep}

module _ (increment now : ℕ) (stop : Bool) (c : Conns) (p : Pool) (held rest : List ℕ) where
  round_eq :
      (kept : List ℕ) (timeout : ℕ) (c' : Conns) (q : Pool)
      → thread_loop increment now stop c.to_del 0 c p ≡ some ((kept, timeout, c'), q)
      → thread_round increment now stop c p ≡ some ((timeout, record c' { to_del = kept }), q)
  unfolding thread_round
  round_eq kept timeout c' q e = ground (arith, e)

  pub thread_round_lem :
      IsConns c p held rest
      → (timeout : ℕ) × (c' : Conns) × (q : Pool) × (thread_round increment now stop c p
          ≡ some ((timeout, c'), q))
        × (c'.to_del ≡ survivors increment now stop c.heap c.to_del)
        × IsConns c' q held rest
  thread_round_lem w =
      let (kept, timeout, c', q, e, s) = sweep increment now stop c.to_del c 0 p held rest w in
      let v = s.tracked in
      (
        timeout,
        record c' { to_del = kept },
        q,
        round_eq kept timeout c' q e,
        s.kept_eq,
        record {
          table = v.table;
          owned = v.owned;
          are_closed = v.are_closed;
          no_ring = v.no_ring;
          blocks = v.blocks;
        },
      )

  -- From a sound table a round of the thread returns: it deletes the entries that are old enough, or
  -- all if it is to stop, and frees exactly their blocks; the others wait on in their order, an entry
  -- that a file object holds is unchanged, and the table is sound again.
  pub thread_round-survivors :
      (b : ℕ)
      → IsConns c p held rest
      → 0 < count b held
      → (timeout : ℕ) × (c' : Conns) × (q : Pool) × (thread_round increment now stop c p
          ≡ some ((timeout, c'), q))
        × (c'.to_del ≡ survivors increment now stop c.heap c.to_del)
        × (c'.heap b ≡ c.heap b)
        × IsConns c' q held rest
  thread_round-survivors b w i =
      let (kept, timeout, c', q, e, s) = sweep increment now stop c.to_del c 0 p held rest w in
      let v = s.tracked in
      (
        timeout,
        record c' { to_del = kept },
        q,
        round_eq kept timeout c' q e,
        s.kept_eq,
        s.frame b (omega (arith, i)),
        record {
          table = v.table;
          owned = v.owned;
          are_closed = v.are_closed;
          no_ring = v.no_ring;
          blocks = v.blocks;
        },
      )

  -- After a round from a sound table no entry that the thread kept has longer to stay than the thread
  -- waits, and the wait is 0, or exactly what some entry that it kept has left: the last of them.
  pub thread_round-WaitsExactly :
      (b : ℕ)
      → IsConns c p held rest
      → 0 < count b (survivors increment now stop c.heap c.to_del)
      → (timeout : ℕ) × (c' : Conns) × (q : Pool) × (thread_round increment now stop c p
          ≡ some ((timeout, c'), q))
        × WaitsAtMost increment now stop c.heap timeout b
        × ((timeout ≡ 0)
            ⊎ ((a : ℕ) × (0 < count a c'.to_del)
                × WaitsExactly increment now stop c.heap timeout a))
  thread_round-WaitsExactly b w i =
      let (kept, timeout, c', q, e, s) = sweep increment now stop c.to_del c 0 p held rest w in
      (
        timeout,
        record c' { to_del = kept },
        q,
        round_eq kept timeout c' q e,
        s.enough b (subst (λ ks. 0 < count b ks) (sym s.kept_eq) i),
        s.attained,
      )

none_survive :
    (increment now : ℕ) (heap : ℕ → Option Conn) (todo : List ℕ)
    → survivors increment now true heap todo ≡ []
unfolding survivors
none_survive increment now heap [] = refl
none_survive increment now heap (a ∷ todo) =
    let ih = none_survive increment now heap todo in
    elim (Option-cases (heap a)) [
      | inl e ↦ ground (arith, e, ih)
      | inr (ce, e) ↦ ground (arith, e, ih)
    ]

-- When no file object holds an entry, the last round of the thread deletes every entry there is and
-- frees its block: the table is left empty.
pub thread_round-stop :
    (increment now a : ℕ) (c : Conns) (p : Pool) (rest : List ℕ)
    → IsConns c p [] rest
    → (timeout : ℕ) × (c' : Conns) × (q : Pool) × (thread_round increment now true c p
        ≡ some ((timeout, c'), q))
      × (c'.to_del ≡ [])
      × (c'.heap a ≡ none)
      × Owns q rest
thread_round-stop increment now a c p rest w =
    let (kept, timeout, c', q, e, s) = sweep increment now true c.to_del c 0 p [] rest w in
    let gone = s.kept_eq ∙ none_survive increment now c.heap c.to_del in
    let v = s.tracked in
    let k = v.owned a in
    let k' = subst (λ ks. count a [] + count a ks ≡ presence (c'.heap a)) gone k in
    (
      timeout,
      record c' { to_del = kept },
      q,
      round_eq increment now true c p [] rest kept timeout c' q e,
      gone,
      elim (Option-cases (c'.heap a)) [ inl f ↦ f | inr (ce, f) ↦ absurd (ground (arith, f, k')) ],
      subst (λ ks. Owns q (ks ++ rest)) gone v.blocks,
    )
