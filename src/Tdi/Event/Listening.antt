-- ===== src/Tdi/Event/Listening.antt =====
-- The endpoint of an address object whose connect handler is set and removed.
use adfilter.Prelude.{
  ℕ, ◌≡◌, ◌≢◌, ◌⊎◌, refl, ap, ◌∙◌, inl, inr, List, ◌∷◌, none, some, Bool, true, false, arith,
}
use adfilter.Pool.{Pool}
use adfilter.Ipc.{filter_allow, filter_deny}
use adfilter.Process.{Plist}
use adfilter.RequestQueue.Pending.{IsQueue}
use adfilter.Listen.{entry_for, is_listen}
use adfilter.Listen.Find.{IsTable}
use adfilter.Listen.Edit.{added, listens, update-IsTable}
use adfilter.OtEntry.{OtEntry, ot_find_fileobj, write_object}
use adfilter.OtEntry.Find.{written, ot_find_fileobj-write_object}
use adfilter.ObjTable.{Net}
use adfilter.Tdi.{World}
use adfilter.Tdi.Object.{listening, with_listen}
use adfilter.Tdi.Event.{
  event_connect, as_is, replaced, with_event, log_listen, change_listen, set_connect, set_event,
  tdi_set_event_handler, find_event,
}
use adfilter.Tdi.Event.Changes.{log_listen_lem, change_listen_cases, change_listen_end}

-- What a search gives after a write to the events and one to the endpoint.
found_written :
    (fileobj : ℕ) (f g : OtEntry → OtEntry) (ote : OtEntry) (net : Net)
    → ((e : OtEntry) → (f e).fileobj ≡ e.fileobj)
    → ((e : OtEntry) → (g e).fileobj ≡ e.fileobj)
    → ot_find_fileobj fileobj net.objects ≡ some ote
    → ot_find_fileobj fileobj (write_object fileobj g (write_object fileobj f net.objects))
      ≡ some (g (f ote))
found_written fileobj f g ote net k l found =
    let (once, m) = ot_find_fileobj-write_object fileobj 0 f net.objects k in
    let (twice, n) =
      ot_find_fileobj-write_object fileobj 0 g (write_object fileobj f net.objects) l in
    twice ∙ ap (written g) (once ∙ ap (written f) found)

module _ (got_log : Bool) (plist : Plist) where
  set_connect_eq :
      (adds : Bool) (pid fileobj : ℕ) (ote : OtEntry) (net net1 net2 : Net) (p q r : Pool)
      → change_listen adds fileobj ote net p ≡ some ((true, net1), q)
      → log_listen got_log plist adds pid ote net1 q ≡ some (net2, r)
      → set_connect got_log plist adds pid fileobj ote net p ≡ some ((filter_allow, net2), r)
  unfolding set_connect
  set_connect_eq adds pid fileobj ote net net1 net2 p q r e f = ground (arith, e, f)

  set_connect_denied :
      (pid fileobj : ℕ) (ote : OtEntry) (net net1 : Net) (p q : Pool)
      → change_listen true fileobj ote net p ≡ some ((false, net1), q)
      → set_connect got_log plist true pid fileobj ote net p ≡ some ((filter_deny, net1), q)
  unfolding set_connect
  set_connect_denied pid fileobj ote net net1 p q e = ground (arith, e)

  handler_set :
      (pid fileobj handler context result : ℕ) (ote : OtEntry) (w : World) (net : Net) (p q : Pool)
      → ot_find_fileobj fileobj w.net.objects ≡ some ote
      → handler ≢ 0
      → set_connect got_log plist true pid fileobj ote
          (record w.net {
            objects = write_object fileobj (with_event 0 handler context) w.net.objects;
          })
          p
        ≡ some ((result, net), q)
      → tdi_set_event_handler got_log plist pid fileobj 0 handler context w p
        ≡ some (
          (
            record { result = result; sent = replaced (some event_connect) },
            record w { net = net },
          ),
          q,
        )
  unfolding tdi_set_event_handler set_event find_event
  handler_set pid fileobj handler context result ote w net p q found set e =
      ground (arith, found, set, e)

  handler_removed :
      (pid fileobj result : ℕ) (ote : OtEntry) (w : World) (net : Net) (p q : Pool)
      → ot_find_fileobj fileobj w.net.objects ≡ some ote
      → set_connect got_log plist false pid fileobj ote
          (record w.net { objects = write_object fileobj (with_event 0 0 0) w.net.objects })
          p
        ≡ some ((result, net), q)
      → tdi_set_event_handler got_log plist pid fileobj 0 0 0 w p
        ≡ some ((record { result = result; sent = as_is }, record w { net = net }), q)
  unfolding tdi_set_event_handler set_event
  handler_removed pid fileobj result ote w net p q found e = ground (arith, found, e)

  -- A client sets its connect handler on an address object of IP that does not listen: the driver's
  -- handler goes to the transport, and the endpoint is listened on; when the handler is removed again,
  -- every chain of the table is as before, and so are the blocks that live beside the queue. If there
  -- is no memory for the entry, the request is denied and the endpoints stay as they were. The
  -- conditions: every entry of the table is in the chain of its hash, and the queue of logged requests
  -- is well formed; it stays so.
  pub tdi_set_event_handler-is_listen :
      (pid pid2 fileobj handler context j : ℕ) (ote : OtEntry) (w : World) (p : Pool)
      (rest : List ℕ)
      → ot_find_fileobj fileobj w.net.objects ≡ some ote
      → handler ≢ 0
      → ote.local_addr.sin_family ≡ 2
      → ote.listen_entry ≡ none
      → IsTable w.net.listens
      → IsQueue w.net.queue p rest
      → ((w' : World) × (q : Pool) × (tdi_set_event_handler got_log plist pid fileobj 0 handler
              context w p
            ≡ some ((record { result = filter_deny; sent = replaced (some event_connect) }, w'), q))
          × (w'.net.listens ≡ w.net.listens)
          × IsQueue w'.net.queue q rest)
        ⊎ ((w1 : World) × (w2 : World) × (q : Pool) × (r : Pool) × (tdi_set_event_handler got_log
                plist pid fileobj 0 handler context w p
              ≡ some
                  ((record { result = filter_allow; sent = replaced (some event_connect) }, w1), q))
            × IsTable w1.net.listens
            × (is_listen ote.local_addr.sin_addr ote.local_addr.sin_port ote.ipproto w1.net.listens
                ≡ true)
            × (tdi_set_event_handler got_log plist pid2 fileobj 0 0 0 w1 q
                ≡ some ((record { result = filter_allow; sent = as_is }, w2), r))
            × (w2.net.listens j ≡ w.net.listens j)
            × IsQueue w2.net.queue r rest)
  unfolding added
  tdi_set_event_handler-is_listen pid pid2 fileobj handler context j ote w p rest found set ip idle
        table queue =
      let change : OtEntry → OtEntry = with_event 0 handler context in
      let net : Net = record w.net { objects = write_object fileobj change w.net.objects } in
      elim (change_listen_cases fileobj ote net p rest ip idle queue) [
        | inl (q, e, k) ↦ inl (
          record w {
            net = record net { objects = write_object fileobj (with_listen none) net.objects };
          },
          q,
          handler_set pid fileobj handler context filter_deny ote w _ p q found set
              (set_connect_denied pid fileobj ote net _ p q e),
          refl,
          k,
        )
        | inr (a, q, e, k) ↦
            let entry = entry_for a (listening ote) in
            let net1 : Net = record net {
              objects = write_object fileobj (with_listen (some entry)) net.objects;
              listens = added entry net.listens;
            } in
            let (queue1, q1, f, k1) =
              log_listen_lem got_log plist true pid ote net1 q (a ∷ rest) k in
            let w1 : World = record w { net = record net1 { queue = queue1 } } in
            let ote1 : OtEntry = with_listen (some entry) (change ote) in
            let found1 : ot_find_fileobj fileobj w1.net.objects ≡ some ote1 =
              found_written fileobj change (with_listen (some entry)) ote w.net (λ e. refl)
                (λ e. refl) found in
            let cleared : OtEntry → OtEntry = with_event 0 0 0 in
            let net2 : Net = record w1.net {
              objects = write_object fileobj cleared w1.net.objects;
            } in
            let (listens2, q2, g, same, k2) =
              change_listen_end fileobj j entry w.net.listens ote1 net2 q1 rest refl refl k1 in
            let net3 : Net = record net2 {
              objects = write_object fileobj (with_listen none) net2.objects;
              listens = listens2;
            } in
            let (queue3, q3, h, k3) =
              log_listen_lem got_log plist false pid2 ote1 net3 q2 rest k2 in
            inr (
              w1,
              record w { net = record net3 { queue = queue3 } },
              q1,
              q3,
              handler_set pid fileobj handler context filter_allow ote w _ p q1 found set
                  (set_connect_eq true pid fileobj ote net net1 _ p q q1 e f),
              update-IsTable entry w.net.listens table,
              listens entry w.net.listens,
              handler_removed pid2 fileobj filter_allow ote1 w1 _ q1 q3 found1
                  (set_connect_eq false pid2 fileobj ote1 net2 net3 _ q1 q2 q3 g h),
              same,
              k3,
            )
      ]
