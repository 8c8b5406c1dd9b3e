-- ===== src/Tdi/Accept/Reused.antt =====
-- A connection object that still has an entry when another connection comes in for it.
use adfilter.Prelude.{
  ℕ, suc, ◌≡◌, ◌≢◌, refl, ap, ◌∙◌, inl, inr, List, [], ◌∷◌, ◌++◌, Option, none, some, Bool, false,
  ◌&&◌, ◌==◌, leb, arith, Bool-cases,
}
use adfilter.Pool.{Pool, count, ex_allocate_pool, ex_allocate_pool_cases, ex_free_pool_owned}
use adfilter.Sock.{ipproto_tcp}
use adfilter.Ipc.{SockAddr, FltRequest, filter_deny, direction_in}
use adfilter.Process.{Plist, free_name}
use adfilter.Sids.{copy_sid_a}
use adfilter.OtEntry.{write_object, OtEntry, ot_find_fileobj}
use adfilter.TcpConn
use adfilter.TcpConn.{
  Conn, Conns, add_tcp_conn, before, closed, del_tcp_conn_obj, store, tdi_address_type_ip,
}
use adfilter.TcpConn.Invariant.{IsConns}
use adfilter.TcpConn.Operations.{del_tcp_conn_obj_lem}
use adfilter.Filter.{tdifw_filter}
use adfilter.ObjTable.{log_if, end_listen, close_conn}
use adfilter.Tdi.{
  new_request, type_connect, World, Rule, quick_filter, log_at, is_logged, is_counted,
}
use adfilter.Tdi.Connect.{with_addresses, with_conn}
use adfilter.Tdi.Disconnect.{tcp_state_syn_rcvd}
use adfilter.Tdi.Accept.{
  Accepting, verdict_of, conn_status, set_up_conn, status_info_length_mismatch,
  status_buffer_too_small, cleared, drop_conn, finish, change_ctx, clear_entries, set_up, accepted,
  tdi_event_connect, put_conns, put_objects,
}

-- The list of entries to delete holds only the entry, whose link points to the entry itself.
pub record IsRing (a : ℕ) (c : Conns) : Type 0 where
  pub alone : c.to_del ≡ a ∷ []
  pub itself : c.back ≡ some a

before-head : (a : ℕ) (more : List ℕ) → before a (a ∷ more) ≡ []
unfolding before
before-head a more = ground arith

again :
    (ticks a : ℕ) (c : Conns) (ce : Conn) (more : List ℕ) (p : Pool)
    → c.heap a ≡ some ce
    → c.to_del ≡ a ∷ more
    → (c' : Conns) × (del_tcp_conn_obj ticks a c p ≡ some (c', p)) × IsRing a c'
unfolding del_tcp_conn_obj
again ticks a c ce more p h e =
    let k : count a c.to_del ≡ suc (count a more) = ap (count a) e ∙ ground arith in
    let b : before a c.to_del ≡ [] = ap (before a) e ∙ before-head a more in
    (
      record {
        heap = store a (some (closed ticks ce)) c.heap;
        chain = c.chain;
        to_del = a ∷ [];
        back = some a;
      },
      ground (arith, h, k, b),
      record { alone = refl; itself = refl },
    )

-- An object with an entry gets no other, whatever the addresses and the pool are.
add_busy :
    (ote : OtEntry) (state a : ℕ) (c : Conns) (p : Pool) (held rest : List ℕ)
    → IsConns c p held rest
    → ote.conn_entry ≡ some a
    → (st : TcpConn.Status) × (q : Pool) × (add_tcp_conn ote state c p ≡ some ((st, ote, c), q))
      × (st ≢ TcpConn.Status.success)
unfolding add_tcp_conn
add_busy ote state a c p held rest w e =
    elim (Bool-cases (
      ote.local_addr.sin_family == tdi_address_type_ip
      && ote.remote_addr.sin_family == tdi_address_type_ip)) [
        | inr n ↦ (TcpConn.Status.invalid_parameter, p, ground (arith, n), λ x. cc)
        | inl y ↦ elim (ex_allocate_pool_cases p (held ++ (c.to_del ++ rest)) w.blocks) [
          | inl (q, f, o) ↦
              (TcpConn.Status.insufficient_resources, q, ground (arith, y, f), λ x. cc)
          | inr (b, q, f, o) ↦
              let (r, g, _) = ex_free_pool_owned b q (held ++ (c.to_del ++ rest)) o in
              (TcpConn.Status.object_name_exists, r, ground (arith, y, f, e, g), λ x. cc)
        ]
      ]

-- The event returns and refuses, and leaves a ring.
abbrev Rings : ℕ → Option ((Bool × World) × Pool) → Type 0
Rings a r = (w : World) × (q : Pool) × (r ≡ some ((false, w), q)) × IsRing a w.net.conns

module _ (got_log : Bool) (plist : Plist) (ticks : ℕ) where
  finish_ring :
      (rule : Rule) (status a : ℕ) (request : FltRequest) (ote : OtEntry) (ce : Conn)
      (more : List ℕ) (w : World) (p : Pool)
      → is_logged got_log plist rule ≡ false
      → request.sid_a ≡ none
      → ote.conn_entry ≡ some a
      → w.net.conns.heap a ≡ some ce
      → w.net.conns.to_del ≡ a ∷ more
      → Rings a (finish got_log plist ticks filter_deny rule status request (some ote) w p)
  unfolding finish drop_conn log_at free_name
  finish_ring rule status a request ote ce more w p l s e h t =
      let (c, f, ring) = again ticks a w.net.conns ce more p h t in
      let ended =
        put_conns c (put_objects (write_object ote.fileobj (with_conn none) w.net.objects) w) in
      (ended, p, ground (arith, l, s, e, f), ring)

  set_up_conn_ring :
      (a : ℕ) (accept : Accepting) (rule : Rule) (request : FltRequest) (set : OtEntry → OtEntry)
      (ote : OtEntry) (ce : Conn) (more held rest : List ℕ) (w : World) (p : Pool)
      → is_logged got_log plist rule ≡ false
      → request.sid_a ≡ none
      → (set ote).conn_entry ≡ some a
      → w.net.conns.heap a ≡ some ce
      → w.net.conns.to_del ≡ a ∷ more
      → IsConns w.net.conns p held rest
      → Rings a (set_up_conn got_log plist ticks accept rule request set ote w p)
  unfolding set_up_conn
  set_up_conn_ring a accept rule request set ote ce more held rest w p l s e h t sound =
      let (st, q, f, n) = add_busy (set ote) tcp_state_syn_rcvd a w.net.conns p held rest sound e in
      let after = put_conns w.net.conns (
        put_objects
          (write_object accept.connobj (with_conn (set ote).conn_entry)
            (write_object accept.connobj set w.net.objects))
          w) in
      let (w', r, g, ring) =
        finish_ring rule (conn_status st) a request (set ote) ce more after q l s e h t in
      let d = denies st n in (w', r, ground (arith, f, d, g), ring)
    where
      denies : (st : TcpConn.Status) → st ≢ TcpConn.Status.success → verdict_of st ≡ filter_deny
      denies TcpConn.Status.success n = absurd (n refl)
      denies TcpConn.Status.invalid_parameter n = refl
      denies TcpConn.Status.insufficient_resources n = refl
      denies TcpConn.Status.object_name_exists n = refl
      denies TcpConn.Status.object_name_not_found n = refl

  set_up_ring :
      (ote_addr : OtEntry) (remote : SockAddr) (remote_length max a : ℕ) (accept : Accepting)
      (rule : Rule) (request : FltRequest) (ote : OtEntry) (ce : Conn) (more held rest : List ℕ)
      (w : World) (p : Pool)
      → is_logged got_log plist rule ≡ false
      → request.sid_a ≡ none
      → ote.conn_entry ≡ some a
      → w.net.conns.heap a ≡ some ce
      → w.net.conns.to_del ≡ a ∷ more
      → IsConns w.net.conns p held rest
      → Rings a
          (set_up got_log plist ticks ote_addr remote remote_length max accept rule request ote w p)
  unfolding set_up
  set_up_ring ote_addr remote remote_length max a accept rule request ote ce more held rest w p l s
        e h t sound =
      let flagged = cleared (is_counted got_log plist rule) in
      let w1 = put_objects (write_object accept.connobj flagged w.net.objects) w in
      elim (Bool-cases (ote_addr.local_length == remote_length)) [
        | inr n ↦
            let (w', q, f, ring) =
              finish_ring rule status_info_length_mismatch a request (flagged ote) ce more w1 p l s
                e h t in
            (w', q, ground (arith, n, f), ring)
        | inl y ↦ elim (Bool-cases (leb remote_length max)) [
          | inr n ↦
              let (w', q, f, ring) =
                finish_ring rule status_buffer_too_small a request (flagged ote) ce more w1 p l s e
                  h t in
              (w', q, ground (arith, y, n, f), ring)
          | inl z ↦
              let (w', q, f, ring) =
                set_up_conn_ring a accept rule request
                  (with_addresses ote_addr.local_addr ote_addr.local_length remote remote_length)
                  (flagged ote) ce more held rest w1 p l s e h t sound in
              (w', q, ground (arith, y, z, f), ring)
        ]
      ]

  cleared_entries :
      (a : ℕ) (ote : OtEntry) (c : Conns) (w : World) (p : Pool)
      → ote.listen_entry ≡ none
      → ote.conn_entry ≡ some a
      → (ote.ipproto == ipproto_tcp && ote.log_disconnect) ≡ false
      → del_tcp_conn_obj ticks a w.net.conns p ≡ some (c, p)
      → clear_entries got_log plist ticks ote w p ≡ some (put_conns c w, p)
  unfolding clear_entries end_listen log_if close_conn
  cleared_entries a ote c w p l e n f = ground (arith, l, e, n, f)

  same_ctx :
      (addrobj : ℕ) (accept : Accepting) (ote : OtEntry) (w : World) (p : Pool)
      → ote.conn_ctx ≡ accept.conn_ctx
      → change_ctx got_log plist ticks addrobj accept ote w p ≡ some ((0, ote, w), p)
  unfolding change_ctx
  same_ctx addrobj accept ote w p e = ground (arith, e)

  accepted_ring :
      (addrobj b a : ℕ) (ote_addr : OtEntry) (remote : SockAddr) (remote_length max : ℕ)
      (accept : Accepting) (rule : Rule) (request : FltRequest) (ote : OtEntry) (c : Conns)
      (w : World) (p q : Pool)
      → ex_allocate_pool p ≡ some (some b, q)
      → ot_find_fileobj accept.connobj w.net.objects ≡ some ote
      → ote.associated_fileobj ≡ addrobj
      → ote.conn_ctx ≡ accept.conn_ctx
      → clear_entries got_log plist ticks ote w q ≡ some (put_conns c w, q)
      → Rings a (
          set_up got_log plist ticks ote_addr remote remote_length max accept rule request ote
            (put_conns c w)
            q)
      → Rings a (
          accepted got_log plist ticks addrobj ote_addr remote remote_length max accept rule request
            w p)
  unfolding accepted
  accepted_ring addrobj b a ote_addr remote remote_length max accept rule request ote c w p q al f
        as_addr x cl (w', r, su, ring) =
      let s = same_ctx addrobj accept ote w q x in
      (w', r, ground (arith, al, f, as_addr, s, cl, su), ring)

  -- A connection that comes in for a connection object whose old entry is still there: the event gives
  -- the old entry up for deletion and keeps the pointer, so the new entry is refused, and the denial
  -- gives the old one up again, whatever the addresses are. The event returns, and leaves that entry
  -- alone in the list of entries to delete, its link pointing to itself: a ring, and the entries that
  -- waited before are lost. The conditions: the client's handler accepts with that object, under its
  -- context; the object belongs to the address object, does not log, and holds its entry in a sound
  -- table; the address object has no SID, there is memory for the completion's parameters, and the
  -- rule says that nothing is logged.
  pub tdi_event_connect-reused :
      (uninitialised status addrobj b a : ℕ) (ote_addr : OtEntry) (remote : SockAddr)
      (remote_length max : ℕ) (accept : Accepting) (rule : Rule) (ote : OtEntry)
      (held rest : List ℕ) (w : World) (p q : Pool)
      → ot_find_fileobj addrobj w.net.objects ≡ some ote_addr
      → ote_addr.sid_a ≡ none
      → ex_allocate_pool p ≡ some (some b, q)
      → ot_find_fileobj accept.connobj w.net.objects ≡ some ote
      → ote.associated_fileobj ≡ addrobj
      → ote.conn_ctx ≡ accept.conn_ctx
      → ote.listen_entry ≡ none
      → ote.conn_entry ≡ some a
      → ote.log_disconnect ≡ false
      → rule.log ≡ 0
      → IsConns w.net.conns q (a ∷ held) rest
      → (w' : World) × (r : Pool) × (tdi_event_connect got_log plist ticks uninitialised rule
            addrobj remote remote_length max
            (some accept)
            status
            w
            p
          ≡ some ((false, w'), r))
        × IsRing a w'.net.conns
  unfolding tdi_event_connect quick_filter tdifw_filter copy_sid_a
  tdi_event_connect-reused uninitialised status addrobj b a ote_addr remote remote_length max accept
        rule ote held rest w p q fa sid al f as_addr x l e n r sound =
      let plain =
        new_request type_connect direction_in ipproto_tcp ote_addr.pid ote_addr none remote
          ote_addr.local_addr in
      let request = record plain { log_rule_id = rule.rule_id } in
      let (ce, c, _, g, h, t, v) = del_tcp_conn_obj_lem w.net.conns q a held rest ticks sound in
      let cl = cleared_entries a ote c w q l e (ground (arith, n)) g in
      let su =
        set_up_ring ote_addr remote remote_length max a accept rule request ote (closed ticks ce)
          w.net.conns.to_del held rest (put_conns c w) q (ground (arith, r)) refl e h t v in
      let (w', q', ac, ring) =
        accepted_ring addrobj b a ote_addr remote remote_length max accept rule request ote c w p q
          al f as_addr x cl su in
      (w', q', ground (arith, fa, sid, ac), ring)
