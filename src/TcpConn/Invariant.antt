-- ===== src/TcpConn/Invariant.antt =====
-- What every operation on the connections keeps: an entry is held by one file object or waits for
-- its deletion, once and closed, and its block is live.
use adfilter.Prelude.{
  ℕ, suc, ◌+◌, ◌<◌, ◌≡◌, refl, sym, subst, inl, inr, List, ◌∷◌, ◌++◌, Option, none, some, ◌==◌,
  arith, Bool-cases, Option-cases,
}
use adfilter.Pool.{Pool, Owns, count, count-append}
use adfilter.TcpConn.{Conn, Conns, tcp_state_closed, store, link_conn, closed}
use adfilter.TcpConn.Heap.{IsTable, link-IsTable, write-IsTable}

abbrev pub presence : Option Conn → ℕ
presence none = 0
presence (some ce) = 1

abbrev pub IsClosed : (ℕ → Option Conn) → ℕ → Type 0
IsClosed heap a =
    (ce : Conn) × (heap a ≡ some ce) × (ce.state ≡ tcp_state_closed) × (ce.connobj ≡ 0)

-- The entries of file objects are `held`, those of `todo` are to be deleted, and the other blocks
-- are `rest`.
pub record IsTracked (todo : List ℕ) (c : Conns) (p : Pool) (held rest : List ℕ) : Type 0 where
  pub table : IsTable c.heap c.chain
  pub owned : (a : ℕ) → count a held + count a todo ≡ presence (c.heap a)
  pub are_closed : (a : ℕ) → 0 < count a todo → IsClosed c.heap a
  pub no_ring : c.back ≡ none
  pub blocks : Owns p (held ++ (todo ++ rest))

abbrev pub IsConns : Conns → Pool → List ℕ → List ℕ → Type 0
IsConns c p held rest = IsTracked c.to_del c p held rest

pub there :
    (heap : ℕ → Option Conn) (a n : ℕ)
    → suc n ≡ presence (heap a)
    → (ce : Conn) × (heap a ≡ some ce)
there heap a n h = elim (Option-cases (heap a)) [
  | inl e ↦ absurd (ground (arith, h, e))
  | inr (ce, e) ↦ (ce, e)
]

module _ (todo : List ℕ) (c : Conns) (p : Pool) (a : ℕ) (held rest : List ℕ) where
  pub held_entry :
      IsTracked todo c p (a ∷ held) rest → (ce : Conn) × (c.heap a ≡ some ce) × (count a todo ≡ 0)
  held_entry w =
      let k = w.owned a in
      let (ce, e) = there c.heap a (count a held + count a todo) (ground (arith, k)) in
      (ce, e, ground (arith, k, e))

  pub link-IsTracked :
      (ce : Conn) (q : Pool)
      → IsTracked todo c p held rest
      → count a p.live ≡ 0
      → Owns q (a ∷ (held ++ (todo ++ rest)))
      → IsTracked todo (link_conn a ce c) q (a ∷ held) rest
  link-IsTracked ce q w f o =
      let owned = w.owned a in
      let here : c.heap a ≡ none = elim (Option-cases (c.heap a)) [
        | inl e ↦ e
        | inr (d, e) ↦ absurd (
            ground (
              arith,
              f,
              w.blocks a,
              count-append a held (todo ++ rest),
              count-append a todo rest,
              owned,
              e,
            ))
      ] in
      record {
        table = link-IsTable a ce c.heap c.chain w.table here;
        owned = λ b.
            (let k = w.owned b in
              elim (Bool-cases (b == a)) [
                | inl y ↦
                    (let same : b ≡ a = ground arith in
                      subst
                        (λ b.
                          count b (a ∷ held) + count b todo ≡ presence (store a (some ce) c.heap b))
                        (sym same) (ground (arith, owned, here)))
                | inr n ↦ ground (arith, n, k)
              ]);
        no_ring = w.no_ring;
        are_closed =
            λ b i. (let (d, e, s, z) = w.are_closed b i in (d, kept_entry d b e here, s, z));
        blocks = o;
      }
    where
      kept_entry :
          (d : Conn) (b : ℕ)
          → c.heap b ≡ some d
          → c.heap a ≡ none
          → store a (some ce) c.heap b ≡ some d
      kept_entry d b e here = elim (Bool-cases (b == a)) [
        | inl y ↦
            (let same : b ≡ a = ground arith in
              let e' = subst (λ b. c.heap b ≡ some d) same e in absurd (ground (arith, e', here)))
        | inr n ↦ ground (arith, n, e)
      ]

  pub write-IsTracked :
      (ce ce' : Conn) (chain : ℕ → List ℕ)
      → IsTracked todo c p (a ∷ held) rest
      → c.heap a ≡ some ce
      → IsTable (store a (some ce') c.heap) chain
      → IsTracked todo
          (record c { heap = store a (some ce') c.heap; chain = chain })
          p
          (a ∷ held)
          rest
  write-IsTracked ce ce' chain w e t =
      let (_, _, idle) = held_entry w in
      record {
        table = t;
        owned = λ b. (let k = w.owned b in owned_written ce ce' b e k);
        no_ring = w.no_ring;
        are_closed =
            λ b i. (let (d, f, s, z) = w.are_closed b i in (d, kept_entry ce' d b f i idle, s, z));
        blocks = w.blocks;
      }
    where
      kept_entry :
          (ce' d : Conn) (b : ℕ)
          → c.heap b ≡ some d
          → 0 < count b todo
          → count a todo ≡ 0
          → store a (some ce') c.heap b ≡ some d
      kept_entry ce' d b e i z = elim (Bool-cases (b == a)) [
        | inl y ↦
            (let same : b ≡ a = ground arith in
              let i' = subst (λ b. 0 < count b todo) same i in absurd (omega arith))
        | inr n ↦ ground (arith, n, e)
      ]

      owned_written :
          (ce ce' : Conn) (b : ℕ)
          → c.heap a ≡ some ce
          → count b (a ∷ held) + count b todo ≡ presence (c.heap b)
          → count b (a ∷ held) + count b todo ≡ presence (store a (some ce') c.heap b)
      owned_written ce ce' b e k = elim (Bool-cases (b == a)) [
        | inl y ↦
            (let same : b ≡ a = ground arith in
              let e' = subst (λ b. c.heap b ≡ some ce) (sym same) e in ground (arith, y, k, e'))
        | inr n ↦ ground (arith, n, k)
      ]

  pub close-IsTracked :
      (ce : Conn) (ticks : ℕ)
      → IsTracked todo c p (a ∷ held) rest
      → c.heap a ≡ some ce
      → IsTracked
          (a ∷ todo)
          (record c { heap = store a (some (closed ticks ce)) c.heap })
          p
          held
          rest
  close-IsTracked ce ticks w e =
      let v =
        write-IsTracked ce (closed ticks ce) c.chain w e
          (write-IsTable a ce (closed ticks ce) c.heap c.chain w.table e refl) in
      record {
        table = v.table;
        owned = λ b. (let k = v.owned b in k' b k);
        no_ring = v.no_ring;
        are_closed = λ b i. elim (Bool-cases (b == a)) [
          | inl y ↦ (closed ticks ce, ground (arith, y), refl, refl)
          | inr n ↦ v.are_closed b (ground (arith, n, i))
        ];
        blocks = λ b.
            (let k = v.blocks b in
              ground (
                arith,
                k,
                count-append b held (a ∷ (todo ++ rest)),
                count-append b held (todo ++ rest),
              ));
      }
    where
      k' :
          (b : ℕ)
          → {n : ℕ} → count b (a ∷ held) + count b todo ≡ n
          → count b held + count b (a ∷ todo) ≡ n
      k' b e = omega (arith, e)
