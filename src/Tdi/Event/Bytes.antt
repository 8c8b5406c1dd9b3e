-- ===== src/Tdi/Event/Bytes.antt =====
-- The bytes that a connection received, over any number of events.
use adfilter.Prelude.{
  ℕ, ◌+◌, ◌%◌, ◌^◌, ◌<◌, ◌≡◌, ◌⊎◌, refl, ap, sym, subst, ◌∙◌, inl, inr, List, [], ◌∷◌, some, ◌==◌,
  arith, Bool-cases, if◌then◌else◌,
}
use adfilter.OtEntry.{OtEntry, ot_find_fileobj}
use adfilter.OtEntry.Find.{written, ot_find_fileobj-write_object}
use adfilter.ConnCtx.{ot_find_conn_ctx}
use adfilter.Tdi.{World}
use adfilter.Tdi.Datagram.{add_in, tdi_receive_complete}
use adfilter.Tdi.Event.{tdi_event_receive}

-- The events of a connection, by the bytes that the client took at each.
unfoldable pub receive_all : ℕ → ℕ → List ℕ → World → World
receive_all addrobj conn_ctx [] w = w
receive_all addrobj conn_ctx (bytes ∷ more) w =
    receive_all addrobj conn_ctx more (tdi_event_receive addrobj conn_ctx bytes w)

unfoldable pub sum : List ℕ → ℕ
sum [] = 0
sum (n ∷ ns) = n + sum ns

-- What a list of events did to an entry and to the counters.
pub record Received (connobj : ℕ) (ote : OtEntry) (bytes : ℕ) (w w' : World) : Type 0 where
  pub entry :
      ot_find_fileobj connobj w'.net.objects
      ≡ some (record ote { bytes_in = (ote.bytes_in + bytes) % 2 ^ 32 })
  pub total : w'.traffic.total_in ≡ (w.traffic.total_in + bytes) % 2 ^ 64
  pub counted : w'.traffic.counted_in ≡ (
      if ote.log_disconnect then (w.traffic.counted_in + bytes) % 2 ^ 64 else w.traffic.counted_in)
  pub same_contexts : w'.contexts ≡ w.contexts

one_event :
    (addrobj conn_ctx bytes : ℕ) (ote : OtEntry) (w : World)
    → ot_find_fileobj (ot_find_conn_ctx addrobj conn_ctx w.contexts) w.net.objects ≡ some ote
    → ote.bytes_in < 2 ^ 32
    → w.traffic.total_in < 2 ^ 64
    → w.traffic.counted_in < 2 ^ 64
    → Received
        (ot_find_conn_ctx addrobj conn_ctx w.contexts)
        ote
        bytes
        w
        (tdi_event_receive addrobj conn_ctx bytes w)
unfolding tdi_event_receive tdi_receive_complete
one_event addrobj conn_ctx bytes ote w found small total counted =
    let connobj = ot_find_conn_ctx addrobj conn_ctx w.contexts in
    let (k, _) = ot_find_fileobj-write_object connobj 0 (add_in bytes) w.net.objects (λ e. refl) in
    let k' = k ∙ ap (written (add_in bytes)) found in
    elim (Bool-cases (bytes == 0)) [
      | inl y ↦ record {
        entry = ground (arith, y, found, small);
        total = ground (arith, y, total);
        counted = ground (arith, y, counted);
        same_contexts = ground (arith, y);
      }
      | inr n ↦ record {
        entry = ground (arith, n, found, k');
        total = ground (arith, n, found);
        counted = ground (arith, n, found);
        same_contexts = ground (arith, n, found);
      }
    ]

mod_twice : (m a b c : ℕ) → m ≡ 2 ^ 32 ⊎ m ≡ 2 ^ 64 → ((a + b) % m + c) % m ≡ (a + (b + c)) % m
mod_twice m a b c (inl e) = ground (arith, e)
mod_twice m a b c (inr e) = ground (arith, e)

with_bytes :
    (e : OtEntry) (m n : ℕ)
    → m ≡ n
    → some (record e { bytes_in = m }) ≡ some (record e { bytes_in = n })
with_bytes e m n s = ap (λ k. some (record e { bytes_in = k })) s

both_events :
    (connobj b c : ℕ) (ote : OtEntry) (w w1 w2 : World)
    → Received connobj ote b w w1
    → Received connobj (record ote { bytes_in = (ote.bytes_in + b) % 2 ^ 32 }) c w1 w2
    → Received connobj ote (b + c) w w2
both_events connobj b c ote w w1 w2 r s = record {
  entry = s.entry ∙ with_bytes ote _ _ (mod_twice (2 ^ 32) ote.bytes_in b c (inl refl));
  total = let t = r.total in let u = s.total in ground (arith, t, u);
  counted = let t = r.counted in let u = s.counted in ground (arith, t, u);
  same_contexts = s.same_contexts ∙ r.same_contexts;
}

-- Over any number of events on a connection that the address object and the context find, the entry of
-- the connection counts all bytes that the client took, modulo 2^32, and so do the counters of the
-- traffic, modulo 2^64, those of the counted traffic only where the connection logs. The conditions:
-- each of the three numbers is in its range before.
pub receive_all-Received :
    (addrobj conn_ctx : ℕ) (bs : List ℕ) (ote : OtEntry) (w : World)
    → ot_find_fileobj (ot_find_conn_ctx addrobj conn_ctx w.contexts) w.net.objects ≡ some ote
    → ote.bytes_in < 2 ^ 32
    → w.traffic.total_in < 2 ^ 64
    → w.traffic.counted_in < 2 ^ 64
    → Received
        (ot_find_conn_ctx addrobj conn_ctx w.contexts)
        ote
        (sum bs)
        w
        (receive_all addrobj conn_ctx bs w)
unfolding receive_all sum
receive_all-Received addrobj conn_ctx [] ote w found small total counted = record {
  entry = found ∙ with_bytes ote _ _ (omega (arith, small));
  total = omega (arith, total);
  counted = ground (arith, counted);
  same_contexts = refl;
}
receive_all-Received addrobj conn_ctx (b ∷ bs) ote w found small total counted =
    let w1 = tdi_event_receive addrobj conn_ctx b w in
    let connobj = ot_find_conn_ctx addrobj conn_ctx w.contexts in
    let r = one_event addrobj conn_ctx b ote w found small total counted in
    let at : ot_find_conn_ctx addrobj conn_ctx w1.contexts ≡ connobj =
      ap (ot_find_conn_ctx addrobj conn_ctx) r.same_contexts in
    let ote1 : OtEntry = record ote { bytes_in = (ote.bytes_in + b) % 2 ^ 32 } in
    let found1 = subst (λ f. ot_find_fileobj f w1.net.objects ≡ some ote1) (sym at) r.entry in
    let t = r.total in
    let c = r.counted in
    let s =
      receive_all-Received addrobj conn_ctx bs ote1 w1 found1 (omega arith) (omega (arith, t))
        (ground (arith, c, counted)) in
    both_events connobj b (sum bs) ote w w1 (receive_all addrobj conn_ctx bs w1) r
      (subst (λ f. Received f ote1 (sum bs) w1 (receive_all addrobj conn_ctx bs w1)) at s)
