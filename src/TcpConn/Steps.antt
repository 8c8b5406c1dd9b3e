-- ===== src/TcpConn/Steps.antt =====
-- The connections as a system of steps: what file objects and the thread do, in any order. A file
-- object that closes its entry gives the pointer up, as every caller of del_tcp_conn_obj does but
-- tdi_event_connect (ev_conn.c), which is no step here; Tdi.Accept.Reused is about that one.
use adfilter.Prelude.{
  ℕ, ◌≡◌, refl, sym, subst, inl, inr, List, [], ◌∷◌, ◌++◌, none, some, Bool, arith,
}
use adfilter.Pool.{Pool, Owns, count, count-append}
use adfilter.Process.Invariant.{IsFresh}
use adfilter.Ipc.{SockAddr}
use adfilter.OtEntry.{OtEntry}
use adfilter.TcpConn.{
  Conns, success, add_tcp_conn, del_tcp_conn_obj, set_state, set_local, thread_round,
}
use adfilter.TcpConn.Invariant.{IsConns}
use adfilter.TcpConn.Operations.{
  IsIp, add_tcp_conn_cases, del_tcp_conn_obj_lem, set_state_lem, set_local_lem,
}
use adfilter.TcpConn.Thread.{thread_round_lem}

-- The entries that file objects hold are `held`, and the pool's other blocks are `rest`.
pub record State : Type 0 where
  pub conns : Conns
  pub pool : Pool
  pub held : List ℕ
  pub rest : List ℕ

abbrev pub IsSound : State → Type 0
IsSound s = IsConns s.conns s.pool s.held s.rest

-- What comes next: an entry for a file object that has none, its end, by which the file object gives
-- the pointer up, a new state or local address, or a round of the thread; `order` is another order of
-- the entries held, and `elsewhere` any use of the pool that leaves the blocks of the table alone.
pub data Step (s : State) (t : State) : Type 0 where
  add :
      (ote : OtEntry) (tcp_state a : ℕ)
      → IsFresh s.pool
      → IsIp ote
      → ote.conn_entry ≡ none
      → add_tcp_conn ote tcp_state s.conns s.pool
        ≡ some ((success, record ote { conn_entry = some a }, t.conns), t.pool)
      → t.held ≡ a ∷ s.held
      → t.rest ≡ s.rest
      → Step s t
  close :
      (ticks a : ℕ)
      → s.held ≡ a ∷ t.held
      → del_tcp_conn_obj ticks a s.conns s.pool ≡ some (t.conns, t.pool)
      → t.rest ≡ s.rest
      → Step s t
  state :
      (a tcp_state : ℕ) (held : List ℕ)
      → s.held ≡ a ∷ held
      → set_state a tcp_state s.conns s.pool ≡ some (t.conns, t.pool)
      → t.held ≡ a ∷ held
      → t.rest ≡ s.rest
      → Step s t
  local_address :
      (a : ℕ) (addr : SockAddr) (held : List ℕ)
      → s.held ≡ a ∷ held
      → set_local a addr s.conns s.pool ≡ some (t.conns, t.pool)
      → t.held ≡ a ∷ held
      → t.rest ≡ s.rest
      → Step s t
  round :
      (increment now timeout : ℕ) (stop : Bool)
      → thread_round increment now stop s.conns s.pool ≡ some ((timeout, t.conns), t.pool)
      → t.held ≡ s.held
      → t.rest ≡ s.rest
      → Step s t
  order :
      t.conns ≡ s.conns
      → t.pool ≡ s.pool
      → ((b : ℕ) → count b t.held ≡ count b s.held)
      → t.rest ≡ s.rest
      → Step s t
  elsewhere :
      t.conns ≡ s.conns
      → t.held ≡ s.held
      → Owns t.pool (t.held ++ (t.conns.to_del ++ t.rest))
      → Step s t

pub data Reach (s : State) : State → Type 0 where
  here : Reach s s
  next : {t u : State} → Reach s t → Step t u → Reach s u

IsSound-at :
    (t : State) (c : Conns) (p : Pool) (held rest : List ℕ)
    → t.conns ≡ c
    → t.pool ≡ p
    → t.held ≡ held
    → t.rest ≡ rest
    → IsConns c p held rest
    → IsSound t
IsSound-at t c p held rest e1 e2 e3 e4 w =
    subst (λ c. IsConns c t.pool t.held t.rest) (sym e1)
      (subst (λ p. IsConns c p t.held t.rest) (sym e2)
        (subst (λ h. IsConns c p h t.rest) (sym e3) (subst (IsConns c p held) (sym e4) w)))

module _ (s t : State) where
  add-IsSound :
      (ote : OtEntry) (tcp_state a : ℕ)
      → IsSound s
      → IsFresh s.pool
      → IsIp ote
      → ote.conn_entry ≡ none
      → add_tcp_conn ote tcp_state s.conns s.pool
        ≡ some ((success, record ote { conn_entry = some a }, t.conns), t.pool)
      → t.held ≡ a ∷ s.held
      → t.rest ≡ s.rest
      → IsSound t
  add-IsSound ote tcp_state a w f ip idle e h r =
      elim (add_tcp_conn_cases ote tcp_state s.conns s.pool s.held s.rest w f ip idle) [
        | inl (q, _, g, v) ↦ absurd (ground (arith, e, g))
        | inr (b, q, g, v) ↦
            IsSound-at t _ q (b ∷ s.held) s.rest (ground (arith, e, g)) (ground (arith, e, g))
              (let same : a ≡ b = ground (arith, e, g) in ground (arith, h, same)) r v
      ]

  close-IsSound :
      (ticks a : ℕ)
      → IsSound s
      → s.held ≡ a ∷ t.held
      → del_tcp_conn_obj ticks a s.conns s.pool ≡ some (t.conns, t.pool)
      → t.rest ≡ s.rest
      → IsSound t
  close-IsSound ticks a w h e r =
      let (ce, c', x, g, y, z, v) =
        del_tcp_conn_obj_lem s.conns s.pool a t.held s.rest ticks
          (subst (λ h. IsConns s.conns s.pool h s.rest) h w) in
      IsSound-at t c' s.pool t.held s.rest (ground (arith, e, g)) (ground (arith, e, g)) refl r v

  state-IsSound :
      (a tcp_state : ℕ) (held : List ℕ)
      → IsSound s
      → s.held ≡ a ∷ held
      → set_state a tcp_state s.conns s.pool ≡ some (t.conns, t.pool)
      → t.held ≡ a ∷ held
      → t.rest ≡ s.rest
      → IsSound t
  state-IsSound a tcp_state held w h e h' r =
      let (ce, c', x, g, y, v) =
        set_state_lem s.conns s.pool a held s.rest tcp_state
          (subst (λ h. IsConns s.conns s.pool h s.rest) h w) in
      IsSound-at t c' s.pool (a ∷ held) s.rest (ground (arith, e, g)) (ground (arith, e, g)) h' r v

  local-IsSound :
      (a : ℕ) (addr : SockAddr) (held : List ℕ)
      → IsSound s
      → s.held ≡ a ∷ held
      → set_local a addr s.conns s.pool ≡ some (t.conns, t.pool)
      → t.held ≡ a ∷ held
      → t.rest ≡ s.rest
      → IsSound t
  local-IsSound a addr held w h e h' r =
      let (ce, c', x, g, y, head, v) =
        set_local_lem s.conns s.pool a held s.rest addr
          (subst (λ h. IsConns s.conns s.pool h s.rest) h w) in
      IsSound-at t c' s.pool (a ∷ held) s.rest (ground (arith, e, g)) (ground (arith, e, g)) h' r v

  round-IsSound :
      (increment now timeout : ℕ) (stop : Bool)
      → IsSound s
      → thread_round increment now stop s.conns s.pool ≡ some ((timeout, t.conns), t.pool)
      → t.held ≡ s.held
      → t.rest ≡ s.rest
      → IsSound t
  round-IsSound increment now timeout stop w e h r =
      let (timeout', c', q, g, x, v) =
        thread_round_lem increment now stop s.conns s.pool s.held s.rest w in
      IsSound-at t c' q s.held s.rest (ground (arith, e, g)) (ground (arith, e, g)) h r v

  order-IsSound :
      IsSound s
      → t.conns ≡ s.conns
      → t.pool ≡ s.pool
      → ((b : ℕ) → count b t.held ≡ count b s.held)
      → t.rest ≡ s.rest
      → IsSound t
  order-IsSound w e1 e2 k r = IsSound-at t s.conns s.pool t.held s.rest e1 e2 refl r (record {
    table = w.table;
    owned = λ b. (let o = w.owned b in omega (arith, o, k b));
    are_closed = w.are_closed;
    no_ring = w.no_ring;
    blocks = λ b.
        (let o = w.blocks b in
          omega (
            arith,
            o,
            k b,
            count-append b s.held (s.conns.to_del ++ s.rest),
            count-append b t.held (s.conns.to_del ++ s.rest),
          ));
  })

  elsewhere-IsSound :
      IsSound s
      → t.conns ≡ s.conns
      → t.held ≡ s.held
      → Owns t.pool (t.held ++ (t.conns.to_del ++ t.rest))
      → IsSound t
  elsewhere-IsSound w e h o = IsSound-at t s.conns t.pool s.held t.rest e refl h refl (record {
    table = w.table;
    owned = w.owned;
    are_closed = w.are_closed;
    no_ring = w.no_ring;
    blocks =
        subst (λ h. Owns t.pool (h ++ (s.conns.to_del ++ t.rest))) h
          (subst (λ c. Owns t.pool (t.held ++ (c.to_del ++ t.rest))) e o);
  })

Step-IsSound : {s t : State} → Step s t → IsSound s → IsSound t
Step-IsSound {s} {t} (add ote tcp_state a f ip idle e h r) w =
    add-IsSound s t ote tcp_state a w f ip idle e h r
Step-IsSound {s} {t} (close ticks a h e r) w = close-IsSound s t ticks a w h e r
Step-IsSound {s} {t} (state a tcp_state held h e h' r) w =
    state-IsSound s t a tcp_state held w h e h' r
Step-IsSound {s} {t} (local_address a addr held h e h' r) w =
    local-IsSound s t a addr held w h e h' r
Step-IsSound {s} {t} (round increment now timeout stop e h r) w =
    round-IsSound s t increment now timeout stop w e h r
Step-IsSound {s} {t} (order e1 e2 k r) w = order-IsSound s t w e1 e2 k r
Step-IsSound {s} {t} (elsewhere e h o) w = elsewhere-IsSound s t w e h o

-- File objects that get an entry while they have none, change its state or its local address, and
-- close it and give the pointer up, and the thread, in any order and as often as they like: from a
-- sound state each state is sound. Every entry is in the chain of its hash, once; it is held by one
-- file object, or closed and listed for deletion once, and the list ends; and the live blocks are
-- those of the entries and the others.
pub Reach-IsSound : {s t : State} → Reach s t → IsSound s → IsSound t
Reach-IsSound here w = w
Reach-IsSound (next r st) w = Step-IsSound st (Reach-IsSound r w)

-- The table that conn_state_init makes.
abbrev pub start : Pool → State
start p = record {
  conns = record { heap = λ _. none; chain = λ _. []; to_del = []; back = none };
  pool = p;
  held = [];
  rest = p.live;
}

pub start-IsSound : (p : Pool) → IsSound (start p)
start-IsSound p = record {
  table = record {
    in_chain = λ h a i. absurd (omega (arith, i));
    has_node = λ a ce e. absurd (cc);
  };
  owned = λ a. refl;
  are_closed = λ a i. absurd (omega (arith, i));
  no_ring = refl;
  blocks = λ b. refl;
}

-- In every state that those steps reach from the empty table, the calls on an entry that a file object
-- holds return, and so does a round of the thread: none of them touches a block that is not live.
pub Reach-Returns :
    (p : Pool) (t : State) (a ticks tcp_state increment now : ℕ) (stop : Bool) (addr : SockAddr)
    (held : List ℕ)
    → Reach (start p) t
    → t.held ≡ a ∷ held
    → ((c : Conns) × (q : Pool) × (del_tcp_conn_obj ticks a t.conns t.pool ≡ some (c, q)))
      × ((c : Conns) × (q : Pool) × (set_state a tcp_state t.conns t.pool ≡ some (c, q)))
      × ((c : Conns) × (q : Pool) × (set_local a addr t.conns t.pool ≡ some (c, q)))
      × ((timeout : ℕ) × (c : Conns) × (q : Pool) × (thread_round increment now stop t.conns t.pool
            ≡ some ((timeout, c), q)))
Reach-Returns p t a ticks tcp_state increment now stop addr held r h =
    let w = Reach-IsSound r (start-IsSound p) in
    let v = subst (λ h. IsConns t.conns t.pool h t.rest) h w in
    let (_, c1, _, e1, _, _, _) = del_tcp_conn_obj_lem t.conns t.pool a held t.rest ticks v in
    let (_, c2, _, e2, _, _) = set_state_lem t.conns t.pool a held t.rest tcp_state v in
    let (_, c3, _, e3, _, _, _) = set_local_lem t.conns t.pool a held t.rest addr v in
    let (timeout, c4, q, e4, _, _) =
      thread_round_lem increment now stop t.conns t.pool t.held t.rest w in
    ((c1, t.pool, e1), (c2, t.pool, e2), (c3, t.pool, e3), (timeout, c4, q, e4))
