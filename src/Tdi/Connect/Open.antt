-- ===== src/Tdi/Connect/Open.antt =====
-- A TCP connection that a client opens.
use adfilter.Prelude.{
  ℕ, ◌+◌, ◌≤◌, ◌≡◌, ◌≢◌, refl, ap, ◌∙◌, ◌⊎◌, inl, inr, List, ◌∷◌, Option, none, some, Bool, true,
  arith,
}
use adfilter.Pool.{Pool, ex_allocate_pool}
use adfilter.Sock.{ipproto_tcp}
use adfilter.Ipc.{SockAddr, FltRequest, filter_allow, direction_out}
use adfilter.Process.{Plist, free_name}
use adfilter.Process.Invariant.{IsFresh}
use adfilter.Sids.{copy_sid_a}
use adfilter.OtEntry.{OtEntry, Objects, ot_find_fileobj, write_object}
use adfilter.OtEntry.Find.{written, ot_find_fileobj-write_object}
use adfilter.TcpConn
use adfilter.TcpConn.{Conn, Conns, add_tcp_conn, link_conn, new_conn, tdi_address_type_ip}
use adfilter.TcpConn.Invariant.{IsConns}
use adfilter.TcpConn.Operations.{IsIp, add_tcp_conn_cases}
use adfilter.Filter.{tdifw_filter}
use adfilter.ObjTable.{get_tcp_conn_state_by_obj}
use adfilter.Tdi.{World, no_rule, quick_filter, sender, new_request, type_connect, log_at}
use adfilter.Tdi.Connect.{
  connect_proto, address_object, copied_field, with_addresses, with_conn, denied, keep_request,
  connected, connect_verdict, tdi_connect,
}
use adfilter.Tdi.Disconnect.{tcp_state_syn_sent}

-- A connection object without an entry, and an address object of IP to which it belongs, without a
-- SID; the two addresses have the same length, which reaches to the end of in_addr and is not too
-- large.
pub record IsReady (fileobj : ℕ) (objects : Objects) (ote_conn ote_addr : OtEntry)
    (remote : SockAddr) (remote_length max : ℕ) : Type 0 where
  pub found : ot_find_fileobj fileobj objects ≡ some ote_conn
  pub no_entry : ote_conn.conn_entry ≡ none
  pub associated : ote_conn.associated_fileobj ≢ 0
  pub address : ot_find_fileobj ote_conn.associated_fileobj objects ≡ some ote_addr
  pub no_sid : ote_addr.sid_a ≡ none
  pub same_length : ote_addr.local_length ≡ remote_length
  pub whole : 10 ≤ remote_length
  pub fits : remote_length ≤ max
  pub local_ip : ote_addr.local_addr.sin_family ≡ tdi_address_type_ip
  pub remote_ip : remote.sin_family ≡ tdi_address_type_ip

-- The entry at `a` has these two ends.
pub record HasEnds (local remote : SockAddr) (a : ℕ) (c : Conns) : Type 0 where
  pub entry : Conn
  pub there : c.heap a ≡ some entry
  pub laddr : entry.laddr ≡ local.sin_addr
  pub lport : entry.lport ≡ local.sin_port
  pub raddr : entry.raddr ≡ remote.sin_addr
  pub rport : entry.rport ≡ remote.sin_port

copied_field_whole :
    (start width n new old : ℕ) → start + width ≤ n → copied_field start width n new old ≡ new
copied_field_whole start width n new old h = ground (arith, h)

module _ (got_log : Bool) (plist : Plist) where
  -- The state after a connection got its entry `a`.
  abbrev opened : ℕ → ℕ → OtEntry → (OtEntry → OtEntry) → World → World
  opened fileobj a ote set w = record w {
    net = record w.net {
      objects = write_object fileobj (with_conn (some a)) (write_object fileobj set w.net.objects);
      conns = link_conn a (new_conn (set ote) tcp_state_syn_sent) w.net.conns;
    };
  }

  abbrev addressed : ℕ → (OtEntry → OtEntry) → World → World
  addressed fileobj set w = record w {
    net = record w.net { objects = write_object fileobj set w.net.objects };
  }

  verdict_success :
      (fileobj a : ℕ) (ote : OtEntry) (request : FltRequest) (set : OtEntry → OtEntry) (w : World)
      (p q : Pool)
      → request.sid_a ≡ none
      → add_tcp_conn (set ote) tcp_state_syn_sent w.net.conns p
        ≡ some (
          (
            TcpConn.Status.success,
            record (set ote) { conn_entry = some a },
            link_conn a (new_conn (set ote) tcp_state_syn_sent) w.net.conns,
          ),
          q,
        )
      → connect_verdict got_log plist fileobj ipproto_tcp
          (set ote)
          filter_allow
          no_rule
          request
          (addressed fileobj set w)
          p
        ≡ some (
          (
            record { result = filter_allow; completes = true; context = none },
            opened fileobj a ote set w,
          ),
          q,
        )
  unfolding connect_verdict connected keep_request log_at free_name
  verdict_success fileobj a ote request set w p q s e = ground (arith, s, e)

  verdict_refused :
      (fileobj : ℕ) (ote : OtEntry) (request : FltRequest) (set : OtEntry → OtEntry) (w : World)
      (p q : Pool)
      → request.sid_a ≡ none
      → add_tcp_conn (set ote) tcp_state_syn_sent w.net.conns p
        ≡ some ((TcpConn.Status.insufficient_resources, set ote, w.net.conns), q)
      → connect_verdict got_log plist fileobj ipproto_tcp
          (set ote)
          filter_allow
          no_rule
          request
          (addressed fileobj set w)
          p
        ≡ some ((denied, addressed fileobj set w), q)
  unfolding connect_verdict free_name
  verdict_refused fileobj ote request set w p q s e = ground (arith, s, e)

  reaches :
      (devobj : Option ℕ) (fileobj pid remote_length max : ℕ) (remote : SockAddr)
      (ote_conn ote_addr : OtEntry) (w : World) (p : Pool)
      → connect_proto devobj ≡ some ipproto_tcp
      → IsReady fileobj w.net.objects ote_conn ote_addr remote remote_length max
      → tdi_connect got_log plist true devobj fileobj pid remote remote_length max w p
        ≡ connect_verdict got_log plist fileobj ipproto_tcp
            (with_addresses ote_addr.local_addr ote_addr.local_length remote remote_length ote_conn)
            filter_allow
            no_rule
            (new_request type_connect direction_out ipproto_tcp
              (sender pid ote_addr)
              ote_addr
              none
              ote_addr.local_addr
              remote)
            (addressed fileobj
              (with_addresses ote_addr.local_addr ote_addr.local_length remote remote_length)
              w)
            p
  unfolding tdi_connect address_object quick_filter tdifw_filter copy_sid_a
  reaches devobj fileobj pid remote_length max remote ote_conn ote_addr w p d r =
      let f = r.found in
      let n = r.associated in
      let a = r.address in
      let s = r.no_sid in
      let l = r.same_length in let m = r.fits in ground (arith, d, f, n, a, s, l, m)

  state_of_opened :
      (fileobj a : ℕ) (ote : OtEntry) (set : OtEntry → OtEntry) (w : World)
      → ((e : OtEntry) → (set e).fileobj ≡ e.fileobj)
      → ot_find_fileobj fileobj w.net.objects ≡ some ote
      → get_tcp_conn_state_by_obj fileobj (opened fileobj a ote set w).net ≡ some tcp_state_syn_sent
  unfolding get_tcp_conn_state_by_obj
  state_of_opened fileobj a ote set w k f =
      let first =
        (ot_find_fileobj-write_object fileobj fileobj set w.net.objects k).0 ∙ ap (written set) f in
      let second =
        (ot_find_fileobj-write_object fileobj fileobj (with_conn (some a))
          (write_object fileobj set w.net.objects) (λ e. refl)).0
        ∙ ap (written (with_conn (some a))) first in
      ground (arith, second)

  -- A TCP connection that a client opens is allowed: its entry is in the table in state SYN_SENT
  -- with the local address of the address object and the remote address, the object holds it, and
  -- the table stays sound; or the pool refuses the block for the entry, and the connection is
  -- denied with the table of connections as it was. The table is sound before, the pool hands out
  -- no block in use, the connection object has no entry and belongs to an address object, which has
  -- no SID, and both addresses are of IP and of one length, from 10 to the largest.
  pub tdi_connect-get_tcp_conn_state_by_obj :
      (devobj : Option ℕ) (fileobj pid remote_length max : ℕ) (remote : SockAddr)
      (ote_conn ote_addr : OtEntry) (w : World) (p : Pool) (held rest : List ℕ)
      → connect_proto devobj ≡ some ipproto_tcp
      → IsReady fileobj w.net.objects ote_conn ote_addr remote remote_length max
      → IsConns w.net.conns p held rest
      → IsFresh p
      → ((w' : World) × (q : Pool) × (tdi_connect got_log plist true devobj fileobj pid remote
              remote_length max w p
            ≡ some ((denied, w'), q))
          × (ex_allocate_pool p ≡ some (none, q))
          × (w'.net.conns ≡ w.net.conns)
          × IsConns w'.net.conns q held rest)
        ⊎ ((a : ℕ) × (w' : World) × (q : Pool) × (tdi_connect got_log plist true devobj fileobj pid
                remote remote_length max w p
              ≡ some ((record { result = filter_allow; completes = true; context = none }, w'), q))
            × (get_tcp_conn_state_by_obj fileobj w'.net ≡ some tcp_state_syn_sent)
            × HasEnds ote_addr.local_addr remote a w'.net.conns
            × IsConns w'.net.conns q (a ∷ held) rest)
  tdi_connect-get_tcp_conn_state_by_obj devobj fileobj pid remote_length max remote ote_conn
        ote_addr w p held rest d r sound fresh =
      let set = with_addresses ote_addr.local_addr ote_addr.local_length remote remote_length in
      let request =
        new_request type_connect direction_out ipproto_tcp (sender pid ote_addr) ote_addr none
          ote_addr.local_addr remote in
      let start = reaches devobj fileobj pid remote_length max remote ote_conn ote_addr w p d r in
      let h = r.whole in
      let h' : 10 ≤ ote_addr.local_length = let l = r.same_length in omega (arith, h, l) in
      let local_family =
        copied_field_whole 2 2 ote_addr.local_length ote_addr.local_addr.sin_family
          ote_conn.local_addr.sin_family (omega (arith, h')) in
      let remote_family =
        copied_field_whole 2 2 remote_length remote.sin_family ote_conn.remote_addr.sin_family
          (omega (arith, h)) in
      let ip : IsIp (set ote_conn) = record {
        local_ip = local_family ∙ r.local_ip;
        remote_ip = remote_family ∙ r.remote_ip;
      } in
      elim (add_tcp_conn_cases (set ote_conn) tcp_state_syn_sent w.net.conns p held rest sound fresh
        ip r.no_entry) [
          | inl (q, n, e, v) ↦ inl (
            addressed fileobj set w,
            q,
            start ∙ verdict_refused fileobj ote_conn request set w p q refl e,
            n,
            refl,
            v,
          )
          | inr (a, q, e, v) ↦ inr (
            a,
            opened fileobj a ote_conn set w,
            q,
            start ∙ verdict_success fileobj a ote_conn request set w p q refl e,
            state_of_opened fileobj a ote_conn set w (λ e. refl) r.found,
            record {
              entry = new_conn (set ote_conn) tcp_state_syn_sent;
              there = ground arith;
              laddr =
                  copied_field_whole 6 4 ote_addr.local_length ote_addr.local_addr.sin_addr
                    ote_conn.local_addr.sin_addr h';
              lport =
                  copied_field_whole 4 2 ote_addr.local_length ote_addr.local_addr.sin_port
                    ote_conn.local_addr.sin_port (omega (arith, h'));
              raddr =
                  copied_field_whole 6 4 remote_length remote.sin_addr ote_conn.remote_addr.sin_addr
                    h;
              rport =
                  copied_field_whole 4 2 remote_length remote.sin_port ote_conn.remote_addr.sin_port
                    (omega (arith, h));
            },
            v,
          )
        ]
