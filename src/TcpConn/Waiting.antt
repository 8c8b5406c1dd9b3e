-- ===== src/TcpConn/Waiting.antt =====
-- One entry that waits for its deletion.
use adfilter.Prelude.{
  ℕ, ◌+◌, ◌<◌, ◌≡◌, refl, sym, subst, inl, inr, List, ◌∷◌, ◌++◌, none, some, Bool, ◌==◌, arith,
  Bool-cases,
}
use adfilter.Pool.{Pool, count, count-append, ex_free_pool_owned}
use adfilter.TcpConn.{Conn, Conns, hash_of, store, set_chain, unlink_conn, remove_conn}
use adfilter.TcpConn.Heap.{unlink-IsTable}
use adfilter.TcpConn.Invariant.{IsTracked, IsClosed, there, presence}

module _ (todo : List ℕ) (c : Conns) (p : Pool) (a : ℕ) (held rest : List ℕ) where
  pub listed_entry :
      IsTracked (a ∷ todo) c p held rest
      → (ce : Conn) × (c.heap a ≡ some ce) × (count a todo ≡ 0) × (count a held ≡ 0)
  listed_entry w =
      let k = w.owned a in
      let (ce, e) = there c.heap a (count a held + count a todo) (ground (arith, k)) in
      (ce, e, ground (arith, k, e), ground (arith, k, e))

  pub as_held : IsTracked (a ∷ todo) c p held rest → IsTracked todo c p (a ∷ held) rest
  as_held w = record {
    table = w.table;
    owned = λ b. (let k = w.owned b in omega (arith, k));
    no_ring = w.no_ring;
    are_closed = λ b i. w.are_closed b (omega (arith, i));
    blocks = λ b.
        (let k = w.blocks b in
          omega (
            arith,
            k,
            count-append b held (a ∷ (todo ++ rest)),
            count-append b held (todo ++ rest),
          ));
  }

  pub as_listed :
      IsTracked todo c p (a ∷ held) rest → IsClosed c.heap a → IsTracked (a ∷ todo) c p held rest
  as_listed w x = record {
    table = w.table;
    owned = λ b. (let k = w.owned b in omega (arith, k));
    no_ring = w.no_ring;
    are_closed = λ b i. (elim (Bool-cases (b == a)) [
      | inl y ↦ (let same : b ≡ a = ground arith in subst (IsClosed c.heap) (sym same) x)
      | inr n ↦ w.are_closed b (ground (arith, n, i))
    ]);
    blocks = λ b.
        (let k = w.blocks b in
          omega (
            arith,
            k,
            count-append b held (a ∷ (todo ++ rest)),
            count-append b held (todo ++ rest),
          ));
  }

  module _ (increment now : ℕ) (stop : Bool) where
    -- An entry that is deleted leaves the table and gives its block back.
    pub remove_conn_lem :
        (ce : Conn)
        → IsTracked (a ∷ todo) c p held rest
        → c.heap a ≡ some ce
        → (c' : Conns) × (q : Pool) × (remove_conn increment now stop a ce c p ≡ some (c', q))
          × (c'.heap ≡ store a none c.heap)
          × IsTracked todo c' q held rest
    unfolding remove_conn unlink_conn
    remove_conn_lem ce w e =
        let (ns, f, t) = unlink-IsTable a ce c.heap c.chain w.table e in
        let (_, _, z1, z2) = listed_entry w in
        let (q, g, o) = ex_free_pool_owned a p (held ++ (todo ++ rest)) (λ b.
          (let k = w.blocks b in
            omega (
              arith,
              k,
              count-append b held (a ∷ (todo ++ rest)),
              count-append b held (todo ++ rest),
            ))) in
        (
          record c { heap = store a none c.heap; chain = set_chain (hash_of ce) ns c.chain },
          q,
          ground (arith, f, g),
          refl,
          record {
            table = t;
            owned = λ b.
                (let k = w.owned b in
                  elim (Bool-cases (b == a)) [
                    | inl y ↦
                        (let same : b ≡ a = ground arith in
                          subst
                            (λ b. count b held + count b todo ≡ presence (store a none c.heap b))
                            (sym same) (ground (arith, z1, z2)))
                    | inr n ↦ ground (arith, n, k)
                  ]);
            no_ring = w.no_ring;
            are_closed = λ b i.
                (let (d, e, s, z) = w.are_closed b (omega (arith, i)) in
                  (
                    d,
                    elim (Bool-cases (b == a)) [
                      | inl y ↦
                          (let same : b ≡ a = ground arith in
                            let i' = subst (λ b. 0 < count b todo) same i in
                            absurd (omega (arith, i', z1)))
                      | inr n ↦ ground (arith, n, e)
                    ],
                    s,
                    z,
                  ));
            blocks = o;
          },
        )
