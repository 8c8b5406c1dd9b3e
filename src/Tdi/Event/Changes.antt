-- ===== src/Tdi/Event/Changes.antt =====
-- The endpoint that begins or ends to listen, and the log of it.
use adfilter.Prelude.{
  ℕ, ◌≡◌, ◌⊎◌, inl, inr, List, [], ◌∷◌, ◌++◌, none, some, Bool, true, false, ◌==◌, arith,
  Bool-cases, if◌then◌else◌,
}
use adfilter.Pool.{Pool, Owns, count-append, ex_allocate_pool_cases, ex_free_pool_owned}
use adfilter.Ipc.{ulong_max}
use adfilter.Sock.{ntohl, ipproto_tcp}
use adfilter.Process.{Plist, free_name}
use adfilter.Process.Invariant.{name_blocks}
use adfilter.RequestQueue.{Queue}
use adfilter.RequestQueue.Pending.{IsQueue, pending, blocks}
use adfilter.RequestQueue.Log.{log_request-IsLogged}
use adfilter.Listen.{Entry, Table, add_listen, entry_for}
use adfilter.Listen.Edit.{added, deleted}
use adfilter.OtEntry.{OtEntry, write_object}
use adfilter.ObjTable.{Net, no_addr}
use adfilter.ObjTable.Connections.{copy_sid_a_cases}
use adfilter.Tdi.{sender, new_request}
use adfilter.Tdi.Object.{listening, with_listen}
use adfilter.Tdi.Event.{type_listen, type_not_listen, log_listen, change_listen}

-- The blocks of the queue with other blocks in front of the rest.
IsQueue-more :
    (q : Queue) (p u : Pool) (new rest : List ℕ)
    → IsQueue q p rest
    → Owns u (new ++ (blocks (pending q) ++ rest))
    → IsQueue q u (new ++ rest)
IsQueue-more q p u new rest w o = record {
  head_in = w.head_in;
  tail_in = w.tail_in;
  owned = λ b. omega (
    arith,
    o b,
    count-append b new (blocks (pending q) ++ rest),
    count-append b (blocks (pending q)) rest,
    count-append b (blocks (pending q)) (new ++ rest),
    count-append b new rest,
  );
}

module _ (got_log : Bool) (plist : Plist) where
  pub log_listen_lem :
      (adds : Bool) (pid : ℕ) (ote : OtEntry) (net : Net) (p : Pool) (rest : List ℕ)
      → IsQueue net.queue p rest
      → (queue : Queue) × (t : Pool) × (log_listen got_log plist adds pid ote net p
          ≡ some (record net { queue = queue }, t))
        × IsQueue queue t rest
  unfolding log_listen free_name
  log_listen_lem adds pid ote net p rest w =
      elim (Bool-cases (ntohl ote.local_addr.sin_addr == 0x7f000001)) [
        | inl y ↦ (net.queue, p, ground (arith, y), w)
        | inr n ↦
            let (sid_a, u, e, o) =
              copy_sid_a_cases ote.sid_a ote.sid_a_size p (blocks (pending net.queue) ++ rest)
                w.owned in
            let request =
              new_request (if adds then type_listen else type_not_listen) 0 ipproto_tcp
                (if adds then sender pid ote else ulong_max) ote sid_a ote.local_addr no_addr in
            let (skipped, q, t, f, l, k) =
              log_request-IsLogged got_log plist request net.queue u rest
                (IsQueue-more net.queue p u (name_blocks sid_a) rest w o) (ground arith) in
            (q, t, ground (arith, n, e, f), k)
      ]

-- The endpoint of an address object that does not listen: it begins to, and is found, and the entry
-- that it got is the one that its end deletes; or there is no memory.
pub change_listen_cases :
    (fileobj : ℕ) (ote : OtEntry) (net : Net) (p : Pool) (rest : List ℕ)
    → ote.local_addr.sin_family ≡ 2
    → ote.listen_entry ≡ none
    → IsQueue net.queue p rest
    → ((q : Pool) × (change_listen true fileobj ote net p
          ≡ some (
            (false, record net { objects = write_object fileobj (with_listen none) net.objects }),
            q,
          ))
        × IsQueue net.queue q rest)
      ⊎ ((a : ℕ) × (q : Pool) × (change_listen true fileobj ote net p
            ≡ some (
              (
                true,
                record net {
                  objects =
                      write_object fileobj
                        (with_listen (some (entry_for a (listening ote))))
                        net.objects;
                  listens = added (entry_for a (listening ote)) net.listens;
                },
              ),
              q,
            ))
          × IsQueue net.queue q (a ∷ rest))
unfolding change_listen add_listen added
change_listen_cases fileobj ote net p rest ip idle w =
    elim (ex_allocate_pool_cases p (blocks (pending net.queue) ++ rest) w.owned) [
      | inl (q, e, o) ↦ inl (
        q,
        ground (arith, ip, e, idle),
        record { head_in = w.head_in; tail_in = w.tail_in; owned = o },
      )
      | inr (a, q, e, o) ↦
          inr (a, q, ground (arith, ip, e, idle), IsQueue-more net.queue p q (a ∷ []) rest w o)
    ]

pub change_listen_end :
    (fileobj j : ℕ) (e : Entry) (t : Table) (ote : OtEntry) (net : Net) (p : Pool) (rest : List ℕ)
    → ote.listen_entry ≡ some e
    → net.listens ≡ added e t
    → IsQueue net.queue p (e.at ∷ rest)
    → (listens' : Table) × (q : Pool) × (change_listen false fileobj ote net p
        ≡ some (
          (
            true,
            record net {
              objects = write_object fileobj (with_listen none) net.objects;
              listens = listens';
            },
          ),
          q,
        ))
      × (listens' j ≡ t j)
      × IsQueue net.queue q rest
unfolding change_listen
change_listen_end fileobj j e t ote net p rest busy same w =
    let owned : Owns p (e.at ∷ (blocks (pending net.queue) ++ rest)) = λ b. omega (
      arith,
      w.owned b,
      count-append b (blocks (pending net.queue)) (e.at ∷ rest),
      count-append b (blocks (pending net.queue)) rest,
      count-append b (e.at ∷ []) (blocks (pending net.queue) ++ rest),
      count-append b (e.at ∷ []) rest,
    ) in
    let (q, f, o) = ex_free_pool_owned e.at p (blocks (pending net.queue) ++ rest) owned in
    let (t', g, k) = deleted e t j p q f in
    (
      t',
      q,
      ground (arith, busy, same, g),
      k,
      record { head_in = w.head_in; tail_in = w.tail_in; owned = o },
    )
