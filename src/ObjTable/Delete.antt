-- ===== src/ObjTable/Delete.antt =====
-- A file object that goes.
use adfilter.Prelude.{ℕ, ◌≡◌, ◌≢◌, subst, ◌∙◌, List, ◌∷◌, ◌++◌, none, some, Bool, false, arith}
use adfilter.Pool.{Pool, count-append, ex_free_pool, ex_free_pool_owned}
use adfilter.Process.{Plist, free_name}
use adfilter.Process.Invariant.{name_blocks}
use adfilter.Process.Exit.{free_name_owned}
use adfilter.OtEntry.{OtEntry, fileobj_connobj, calc_hash, find_ote, ot_find_fileobj, update}
use adfilter.TcpConn.{Conn, Conns, closed, del_tcp_conn_obj}
use adfilter.TcpConn.Invariant.{IsConns}
use adfilter.TcpConn.Operations.{del_tcp_conn_obj_lem}
use adfilter.ObjTable.{Net, success, log_if, end_conn, end_object, unlink_ote, ot_del_fileobj}
use adfilter.ObjTable.Distinct.{
  IsDistinct, find_ote-unlink_ote, find_ote-unlink_ote_other, ot_find_fileobj-update,
  ot_find_fileobj-update_other,
}

-- The chain without the first entry of the object.
abbrev pub without_object : ℕ → Net → Net
without_object fileobj net = record net {
  objects =
      update (calc_hash fileobj) (unlink_ote fileobj (net.objects (calc_hash fileobj))) net.objects;
}

module _ (got_log : Bool) (plist : Plist) (ticks fileobj : ℕ) (ote : OtEntry) (net : Net)
    (p : Pool) where
  pub del_found :
      (net1 : Net) (p1 p2 q : Pool)
      → fileobj ≢ 0
      → find_ote fileobj (net.objects (calc_hash fileobj)) ≡ some ote
      → end_object got_log plist ticks ote net p ≡ some (net1, p1)
      → free_name ote.sid_a p1 ≡ some (tt, p2)
      → ex_free_pool ote.at p2 ≡ some (tt, q)
      → ot_del_fileobj got_log plist ticks fileobj net p
        ≡ some ((success, some ote.kind, without_object fileobj net1), q)
  unfolding ot_del_fileobj
  del_found net1 p1 p2 q n e f g h = ground (arith, n, e, f, g, h)

  ended :
      (a : ℕ) (c : Conns)
      → ote.kind ≡ fileobj_connobj
      → ote.conn_entry ≡ some a
      → ote.log_disconnect ≡ false
      → del_tcp_conn_obj ticks a net.conns p ≡ some (c, p)
      → end_object got_log plist ticks ote net p ≡ some (record net { conns = c }, p)
  unfolding end_object end_conn log_if
  ended a c k e l f = ground (arith, k, e, l, f)

  -- Where no object has two entries in its chain, the end of a connection object that does not log is
  -- the end of its entry, which no search gives after that; the blocks of the entry and of its SID are
  -- freed, and no other; its connection is closed and waits for its deletion; the other objects are
  -- found as before.
  pub ot_del_fileobj-connection :
      (a other : ℕ) (held rest : List ℕ)
      → fileobj ≢ 0
      → other ≢ fileobj
      → find_ote fileobj (net.objects (calc_hash fileobj)) ≡ some ote
      → IsDistinct (net.objects (calc_hash fileobj))
      → ote.kind ≡ fileobj_connobj
      → ote.conn_entry ≡ some a
      → ote.log_disconnect ≡ false
      → IsConns net.conns p (a ∷ held) (ote.at ∷ (name_blocks ote.sid_a ++ rest))
      → (ce : Conn) × (net' : Net) × (q : Pool) × (ot_del_fileobj got_log plist ticks fileobj net p
          ≡ some ((success, some fileobj_connobj, net'), q))
        × (ot_find_fileobj fileobj net'.objects ≡ none)
        × (ot_find_fileobj other net'.objects ≡ ot_find_fileobj other net.objects)
        × (net'.conns.heap a ≡ some (closed ticks ce))
        × IsConns net'.conns q held rest
  ot_del_fileobj-connection a other held rest n m f d k e l w =
      let (ce, c, _, g, closes, _, v) =
        del_tcp_conn_obj_lem net.conns p a held (ote.at ∷ (name_blocks ote.sid_a ++ rest)) ticks
          w in
      let chain = net.objects (calc_hash fileobj) in
      let (q1, h1, o1) = free_name_owned ote.sid_a p (ote.at ∷ (held ++ (c.to_del ++ rest))) (λ b.
        omega (
          arith,
          v.blocks b,
          count-append b held (c.to_del ++ (ote.at ∷ (name_blocks ote.sid_a ++ rest))),
          count-append b c.to_del (ote.at ∷ (name_blocks ote.sid_a ++ rest)),
          count-append b (name_blocks ote.sid_a) rest,
          count-append b (name_blocks ote.sid_a) (ote.at ∷ (held ++ (c.to_del ++ rest))),
          count-append b held (c.to_del ++ rest),
          count-append b c.to_del rest,
        )) in
      let (q2, h2, o2) = ex_free_pool_owned ote.at q1 (held ++ (c.to_del ++ rest)) o1 in
      (
        ce,
        without_object fileobj (record net { conns = c }),
        q2,
        subst
            (λ k.
              ot_del_fileobj got_log plist ticks fileobj net p
              ≡ some ((success, some k, without_object fileobj (record net { conns = c })), q2))
            k (del_found (record net { conns = c }) p q1 q2 n f (ended a c k e l g) h1 h2),
        ot_find_fileobj-update fileobj (unlink_ote fileobj chain) net.objects n
            ∙ find_ote-unlink_ote fileobj chain d,
        ot_find_fileobj-update_other fileobj other (unlink_ote fileobj chain) net.objects
            (find_ote-unlink_ote_other fileobj other chain m),
        closes,
        record {
          table = v.table;
          owned = v.owned;
          are_closed = v.are_closed;
          no_ring = v.no_ring;
          blocks = o2;
        },
      )
