-- ===== src/TcpConn/Operations.antt =====
-- The operations on the entry of one file object.
use adfilter.Prelude.{ℕ, ◌≡◌, ◌≢◌, refl, ◌⊎◌, inl, inr, List, ◌∷◌, ◌++◌, none, some, arith}
use adfilter.Pool.{Pool, ex_allocate_pool, ex_allocate_pool_cases, ex_free_pool_owned, remove_one}
use adfilter.Process.Invariant.{IsFresh, fresh_reply}
use adfilter.Ipc.{SockAddr}
use adfilter.OtEntry.{OtEntry}
use adfilter.TcpConn.{
  Conn, Conns, Status, success, insufficient_resources, object_name_exists, tdi_address_type_ip,
  hash_of, store, set_chain, new_conn, link_conn, add_tcp_conn, closed, del_tcp_conn_obj, set_state,
  unlink_conn, moved, set_local,
}
use adfilter.TcpConn.Heap.{IsTable, IsTable-same, link-IsTable, unlink-IsTable, write-IsTable}
use adfilter.TcpConn.Invariant.{
  IsConns, held_entry, link-IsTracked, write-IsTracked, close-IsTracked,
}

-- Both ends of a connection have addresses of IP.
pub record IsIp (ote : OtEntry) : Type 0 where
  pub local_ip : ote.local_addr.sin_family ≡ tdi_address_type_ip
  pub remote_ip : ote.remote_addr.sin_family ≡ tdi_address_type_ip

-- Where the pool hands out no block in use, a connection between addresses of IP, of a file object
-- that holds no entry, gets one, which the object then holds; or there is no memory, and nothing
-- changes. In both cases the table stays well formed.
pub add_tcp_conn_cases :
    (ote : OtEntry) (tcp_state : ℕ) (c : Conns) (p : Pool) (held rest : List ℕ)
    → IsConns c p held rest
    → IsFresh p
    → IsIp ote
    → ote.conn_entry ≡ none
    → ((q : Pool) × (ex_allocate_pool p ≡ some (none, q))
        × (add_tcp_conn ote tcp_state c p ≡ some ((insufficient_resources, ote, c), q))
        × IsConns c q held rest)
      ⊎ ((a : ℕ) × (q : Pool) × (add_tcp_conn ote tcp_state c p
            ≡ some (
              (success, record ote { conn_entry = some a }, link_conn a (new_conn ote tcp_state) c),
              q,
            ))
          × IsConns (link_conn a (new_conn ote tcp_state) c) q (a ∷ held) rest)
unfolding add_tcp_conn
add_tcp_conn_cases ote tcp_state c p held rest w f ip idle =
    let l = ip.local_ip in
    let r = ip.remote_ip in
    elim (ex_allocate_pool_cases p (held ++ (c.to_del ++ rest)) w.blocks) [
      | inl (q, e, o) ↦ inl (
        q,
        e,
        ground (arith, l, r, e),
        record {
          table = w.table;
          owned = w.owned;
          are_closed = w.are_closed;
          no_ring = w.no_ring;
          blocks = o;
        },
      )
      | inr (a, q, e, o) ↦ inr (
        a,
        q,
        ground (arith, l, r, e, idle),
        link-IsTracked c.to_del c p a held rest (new_conn ote tcp_state) q w (fresh_reply p q a f e)
            o,
      )
    ]

-- A file object that holds an entry gets no other: the block of the new one is freed again.
add_tcp_conn-twice :
    (ote : OtEntry) (tcp_state a : ℕ) (c : Conns) (p : Pool) (held rest : List ℕ)
    → IsConns c p held rest
    → IsIp ote
    → ote.conn_entry ≡ some a
    → (st : Status) × (q : Pool) × (add_tcp_conn ote tcp_state c p ≡ some ((st, ote, c), q))
      × (st ≢ success)
      × IsConns c q held rest
unfolding add_tcp_conn
add_tcp_conn-twice ote tcp_state a c p held rest w ip busy =
    let l = ip.local_ip in
    let r = ip.remote_ip in
    elim (ex_allocate_pool_cases p (held ++ (c.to_del ++ rest)) w.blocks) [
      | inl (q, e, o) ↦ (
        insufficient_resources,
        q,
        ground (arith, l, r, e),
        λ e. cc,
        record {
          table = w.table;
          owned = w.owned;
          are_closed = w.are_closed;
          no_ring = w.no_ring;
          blocks = o;
        },
      )
      | inr (b, q, e, o) ↦
          (let (t, g, o') = ex_free_pool_owned b q (held ++ (c.to_del ++ rest)) o in
            (
              object_name_exists,
              t,
              ground (arith, l, r, e, busy, g),
              λ e. cc,
              record {
                table = w.table;
                owned = w.owned;
                are_closed = w.are_closed;
                no_ring = w.no_ring;
                blocks = o';
              },
            ))
    ]

module _ (c : Conns) (p : Pool) (a : ℕ) (held rest : List ℕ) where
  -- The entry that a file object gives up is closed and waits for its deletion, without a fault;
  -- no block is freed yet.
  pub del_tcp_conn_obj_lem :
      (ticks : ℕ)
      → IsConns c p (a ∷ held) rest
      → (ce : Conn) × (c' : Conns) × (c.heap a ≡ some ce)
        × (del_tcp_conn_obj ticks a c p ≡ some (c', p))
        × (c'.heap a ≡ some (closed ticks ce))
        × (c'.to_del ≡ a ∷ c.to_del)
        × IsConns c' p held rest
  unfolding del_tcp_conn_obj
  del_tcp_conn_obj_lem ticks w =
      let (ce, e, idle) = held_entry c.to_del c p a held rest w in
      (
        ce,
        record c { heap = store a (some (closed ticks ce)) c.heap; to_del = a ∷ c.to_del },
        e,
        ground (arith, e, idle),
        ground arith,
        refl,
        let v = close-IsTracked c.to_del c p a held rest ce ticks w e in
            record {
              table = v.table;
              owned = v.owned;
              are_closed = v.are_closed;
              no_ring = v.no_ring;
              blocks = v.blocks;
            },
      )

  -- A new state for a held entry.
  pub set_state_lem :
      (state : ℕ)
      → IsConns c p (a ∷ held) rest
      → (ce : Conn) × (c' : Conns) × (c.heap a ≡ some ce)
        × (set_state a state c p ≡ some (c', p))
        × (c'.heap a ≡ some (record ce { state = state }))
        × IsConns c' p (a ∷ held) rest
  unfolding set_state
  set_state_lem state w =
      let (ce, e, idle) = held_entry c.to_del c p a held rest w in
      (
        ce,
        record c { heap = store a (some (record ce { state = state })) c.heap },
        e,
        ground (arith, e),
        ground arith,
        let v =
              write-IsTracked c.to_del c p a held rest ce (record ce { state = state }) c.chain w e
                (write-IsTable a ce (record ce { state = state }) c.heap c.chain w.table e refl) in
            record {
              table = v.table;
              owned = v.owned;
              are_closed = v.are_closed;
              no_ring = v.no_ring;
              blocks = v.blocks;
            },
      )

  set_local_eq :
      (addr : SockAddr) (ce : Conn) (ns : List ℕ)
      → c.heap a ≡ some ce
      → remove_one a (c.chain (hash_of ce)) ≡ some ns
      → set_local a addr c p
        ≡ some (
          link_conn a (moved addr ce) (record c { chain = set_chain (hash_of ce) ns c.chain }),
          p,
        )
  unfolding set_local unlink_conn
  set_local_eq addr ce ns e f = ground (arith, e, f)

  relinked :
      (ce ce' : Conn) (ns : List ℕ)
      → IsTable (store a none c.heap) (set_chain (hash_of ce) ns c.chain)
      → IsTable
          (store a (some ce') c.heap)
          (link_conn a ce' (record c { chain = set_chain (hash_of ce) ns c.chain })).chain
  relinked ce ce' ns t =
      IsTable-same (store a (some ce') (store a none c.heap)) (store a (some ce') c.heap) _
        (λ b. ground arith)
        (link-IsTable a ce' (store a none c.heap) (set_chain (hash_of ce) ns c.chain) t
          (ground arith))

  linked : (h : ℕ) (chain : ℕ → List ℕ) → set_chain h (a ∷ chain h) chain h ≡ a ∷ chain h
  linked h chain = ground arith

  -- A held entry moves to the chain of its new local address, without a fault.
  pub set_local_lem :
      (addr : SockAddr)
      → IsConns c p (a ∷ held) rest
      → (ce : Conn) × (c' : Conns) × (c.heap a ≡ some ce)
        × (set_local a addr c p ≡ some (c', p))
        × (c'.heap a ≡ some (moved addr ce))
        × ((ns : List ℕ) × (c'.chain (hash_of (moved addr ce)) ≡ a ∷ ns))
        × IsConns c' p (a ∷ held) rest
  set_local_lem addr w =
      let (ce, e, idle) = held_entry c.to_del c p a held rest w in
      let (ns, f, t) = unlink-IsTable a ce c.heap c.chain w.table e in
      (
        ce,
        link_conn a (moved addr ce) (record c { chain = set_chain (hash_of ce) ns c.chain }),
        e,
        set_local_eq addr ce ns e f,
        ground arith,
        (
          set_chain (hash_of ce) ns c.chain (hash_of (moved addr ce)),
          linked (hash_of (moved addr ce)) (set_chain (hash_of ce) ns c.chain),
        ),
        let v =
              write-IsTracked c.to_del c p a held rest ce (moved addr ce)
                (link_conn a (moved addr ce)
                  (record c { chain = set_chain (hash_of ce) ns c.chain })).chain
                w e (relinked ce (moved addr ce) ns t) in
            record {
              table = v.table;
              owned = v.owned;
              are_closed = v.are_closed;
              no_ring = v.no_ring;
              blocks = v.blocks;
            },
      )
