-- ===== src/TcpConn/Find.antt =====
-- The search for a connection against the entries that there are, wherever they are.
use adfilter.Prelude.{
  ℕ, ◌<◌, ◌≡◌, refl, sym, ap, subst, ◌∙◌, ◌⊎◌, inl, inr, List, [], ◌∷◌, Option, some, Bool, true,
  false, ◌==◌, arith, Bool-cases,
}
use adfilter.Pool.{count}
use adfilter.TcpConn.{
  Conn, Conns, tcp_state_none, calc_conn_hash, hash_of, is_conn, state_in, get_tcp_conn_state,
}
use adfilter.TcpConn.Heap.{IsTable}

-- An entry with the four numbers of a connection, and its state.
abbrev pub HasConn : ℕ → ℕ → ℕ → ℕ → Conns → ℕ → Type 0
HasConn laddr lport raddr rport c state =
    (a : ℕ) × (ce : Conn) × (c.heap a ≡ some ce)
    × (ce.laddr ≡ laddr)
    × (ce.lport ≡ lport)
    × (ce.raddr ≡ raddr)
    × (ce.rport ≡ rport)
    × (ce.state ≡ state)

module _ (test : Conn → Bool) (heap : ℕ → Option Conn) where
  FoundIn : List ℕ → ℕ → Type 0
  FoundIn ns state =
      (a : ℕ) × (ce : Conn) × (heap a ≡ some ce)
      × (0 < count a ns)
      × (test ce ≡ true)
      × (ce.state ≡ state)

  NoneIn : List ℕ → Type 0
  NoneIn ns = (a : ℕ) (ce : Conn) → heap a ≡ some ce → 0 < count a ns → test ce ≡ false

  state_in_cases :
      (ns : List ℕ)
      → ((a : ℕ) → 0 < count a ns → (ce : Conn) × (heap a ≡ some ce))
      → (state : ℕ) × (state_in test heap ns ≡ some state)
        × (FoundIn ns state ⊎ ((state ≡ tcp_state_none) × NoneIn ns))
  unfolding state_in FoundIn NoneIn
  state_in_cases [] k = (tcp_state_none, refl, inr (refl, λ a ce e i. absurd (ground (arith, i))))
  state_in_cases (a ∷ ns) k =
      let (ce, e) = k a (ground arith) in
      let (state, f, r) = state_in_cases ns (λ b i. k b (ground (arith, i))) in
      elim (Bool-cases (test ce)) [
        | inl y ↦ (ce.state, ground (arith, e, y, f), inl (a, ce, e, ground arith, y, refl))
        | inr n ↦ (
          state,
          ground (arith, e, n, f),
          elim r [
            | inl (b, d, g, i, t, s) ↦ inl (b, d, g, ground (arith, i), t, s)
            | inr (z, absent) ↦ inr (
              z,
              λ b d g i. elim (Bool-cases (b == a)) [
                | inl y ↦
                    (let same : b ≡ a = ground arith in
                      let g' = subst (λ b. heap b ≡ some d) same g in
                      let both : ce ≡ d = ground (arith, e, g') in ap test (sym both) ∙ n)
                | inr m ↦ absent b d g (ground (arith, m, i))
              ],
            )
          ],
        )
      ]

-- In a sound table the search for a connection returns: the state of an entry with the two addresses
-- and ports, in whatever chain, or TCP_STATE_NONE if there is no such entry.
pub get_tcp_conn_state-HasConn :
    (laddr lport raddr rport : ℕ) (c : Conns)
    → IsTable c.heap c.chain
    → (state : ℕ) × (get_tcp_conn_state laddr lport raddr rport c ≡ some state)
      × (HasConn laddr lport raddr rport c state
          ⊎ ((state ≡ tcp_state_none) × ¬ ((other : ℕ) × HasConn laddr lport raddr rport c other)))
unfolding get_tcp_conn_state FoundIn NoneIn
get_tcp_conn_state-HasConn laddr lport raddr rport c w =
    let h = calc_conn_hash laddr lport raddr rport in
    let (state, e, r) =
      state_in_cases (is_conn laddr lport raddr rport) c.heap (c.chain h)
        (λ a i. (let (ce, f, _) = w.in_chain h a i in (ce, f))) in
    (
      state,
      e,
      elim r [
        | inl (a, ce, f, i, t, s) ↦ inl (
          a,
          ce,
          f,
          ground (arith, t),
          ground (arith, t),
          ground (arith, t),
          ground (arith, t),
          s,
        )
        | inr (z, absent) ↦ inr (
          z,
          λ (other, x).
              let (a, ce, f, g1, g2, g3, g4, s) = x in
              let t : is_conn laddr lport raddr rport ce ≡ true = ground (arith, g1, g2, g3, g4) in
              let hashes : hash_of ce ≡ h = same_hash ce g1 g2 g3 g4 in
              let one = w.has_node a ce f in
              let n = absent a ce f (ground (arith, ap (λ h. count a (c.chain h)) hashes, one)) in
              absurd (ground (arith, n, t)),
        )
      ],
    )
  where
    same_hash :
        (ce : Conn)
        → ce.laddr ≡ laddr
        → ce.lport ≡ lport
        → ce.raddr ≡ raddr
        → ce.rport ≡ rport
        → hash_of ce ≡ calc_conn_hash laddr lport raddr rport
    same_hash ce g1 g2 g3 g4 =
        ap (λ x. calc_conn_hash x ce.lport ce.raddr ce.rport) g1
        ∙ ap (λ x. calc_conn_hash laddr x ce.raddr ce.rport) g2
        ∙ ap (λ x. calc_conn_hash laddr lport x ce.rport) g3
        ∙ ap (calc_conn_hash laddr lport raddr) g4

-- The first entry of its chain is the one found.
pub get_tcp_conn_state-head :
    (a : ℕ) (ce : Conn) (c : Conns) (ns : List ℕ)
    → c.heap a ≡ some ce
    → c.chain (hash_of ce) ≡ a ∷ ns
    → get_tcp_conn_state ce.laddr ce.lport ce.raddr ce.rport c ≡ some ce.state
unfolding get_tcp_conn_state state_in
get_tcp_conn_state-head a ce c ns e h =
    ap (state_in (is_conn ce.laddr ce.lport ce.raddr ce.rport) c.heap) h ∙ ground (arith, e)
