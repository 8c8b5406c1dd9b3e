-- ===== src/ObjTable/Ends/Disconnects.antt =====
-- The connections that the end of the table releases.
use adfilter.Prelude.{
  ℕ, suc, ◌≡◌, ◌≢◌, refl, sym, ap, subst, inl, inr, Bool, Bool-cases, List, [], ◌∷◌, ◌++◌, Option,
  none, some, ◌==◌, arith, map, if◌then◌else◌, All,
}
use mathlib.Core.List.{append_assoc}
use adfilter.Pool.{Pool}
use adfilter.Listen.{Table}
use adfilter.OtEntry.{OtEntry, fileobj_connobj}
use adfilter.TcpConn.{Conns}
use adfilter.TcpConn.Invariant.{IsConns}
use adfilter.TcpConn.Operations.{del_tcp_conn_obj_lem}
use adfilter.ObjTable.Ends.{
  Call, disconnect, leave_conn, processed_connobj, chosen, pass, next_call, passes,
}

pub record IsConnobj (e : OtEntry) : Type 0 where
  pub there : e.fileobj ≢ 0
  pub kind : e.kind ≡ fileobj_connobj

-- The entries of connections that the objects hold.
abbrev pub held_by : Option ℕ → List ℕ
held_by none = []
held_by (some a) = a ∷ []

unfoldable pub entries : List OtEntry → List ℕ
entries [] = []
entries (e ∷ es) = held_by e.conn_entry ++ entries es

-- The last connected object of a chain, or `connobj`.
unfoldable last_connected : List OtEntry → ℕ → ℕ
last_connected [] connobj = connobj
last_connected (e ∷ es) connobj = last_connected es (chosen e connobj)

abbrev pub IsUnconnected : OtEntry → Type 0
IsUnconnected e = e.remote_addr.sin_addr ≡ 0

-- The objects of a chain in the order of its links, and the calls at the end of the table: there is no
-- connected object and no call, or the last connected object is released, if the IRP can be built.
pub data IsReleased (builds : Call → Bool) (es : List OtEntry) (calls : List Call) : Type 0 where
  nothing : All IsUnconnected es → calls ≡ [] → IsReleased builds es calls
  last_of :
      (front : List OtEntry) (e : OtEntry) (back : List OtEntry)
      → es ≡ front ++ e ∷ back
      → e.remote_addr.sin_addr ≢ 0
      → All IsUnconnected back
      → calls ≡ (if builds (disconnect e.fileobj) then disconnect e.fileobj ∷ [] else [])
      → IsReleased builds es calls

-- Where the object that a chain leads to comes from.
data IsLast (es : List OtEntry) (connobj : ℕ) : ℕ → Type 0 where
  kept : All IsUnconnected es → IsLast es connobj connobj
  found :
      (front : List OtEntry) (e : OtEntry) (back : List OtEntry)
      → es ≡ front ++ e ∷ back
      → e.remote_addr.sin_addr ≢ 0
      → e.fileobj ≢ 0
      → All IsUnconnected back
      → IsLast es connobj e.fileobj

last_connected-IsLast :
    (es : List OtEntry) (connobj : ℕ)
    → All IsConnobj es
    → IsLast es connobj (last_connected es connobj)
unfolding last_connected
last_connected-IsLast [] connobj k = kept tt
last_connected-IsLast (e ∷ es) connobj (k, ks) = elim (Bool-cases (e.remote_addr.sin_addr == 0)) [
  | inl y ↦
      let zero_addr : e.remote_addr.sin_addr ≡ 0 = ground (arith, y) in
      let same : chosen e connobj ≡ connobj = ground (arith, y) in
      subst (λ n. IsLast (e ∷ es) connobj (last_connected es n)) (sym same)
        (past_unconnected zero_addr (last_connected-IsLast es connobj ks))
  | inr n ↦
      let addr : e.remote_addr.sin_addr ≢ 0 = ground (arith, n) in
      let same : chosen e connobj ≡ e.fileobj = ground (arith, n) in
      subst (λ n. IsLast (e ∷ es) connobj (last_connected es n)) (sym same)
        (past_connected addr (last_connected-IsLast es e.fileobj ks))
]
  where
    past_unconnected :
        {n : ℕ} → e.remote_addr.sin_addr ≡ 0 → IsLast es connobj n → IsLast (e ∷ es) connobj n
    past_unconnected z (kept us) = kept (z, us)
    past_unconnected z (found front d back s a there us) =
        found (e ∷ front) d back (ap (◌∷◌ e) s) a there us

    past_connected :
        {n : ℕ} → e.remote_addr.sin_addr ≢ 0 → IsLast es e.fileobj n → IsLast (e ∷ es) connobj n
    past_connected a (kept us) = found [] e es refl a k.there us
    past_connected a (found front d back s a' there us) =
        found (e ∷ front) d back (ap (◌∷◌ e) s) a' there us

abbrev released : (Call → Bool) → ℕ → List Call
released builds connobj =
    if connobj == 0
    then []
    else (if builds (disconnect connobj) then disconnect connobj ∷ [] else [])

released-IsReleased :
    (builds : Call → Bool) (es : List OtEntry) (n : ℕ)
    → IsLast es 0 n
    → IsReleased builds es (released builds n)
released-IsReleased builds es n (kept us) = nothing us refl
released-IsReleased builds es n (found front e back s a there us) =
    last_of front e back s a us (ground (arith, there))

module _ (ticks : ℕ) (t : Table) (p : Pool) where
  leave_conn_lem :
      (entry : Option ℕ) (c : Conns) (held rest : List ℕ)
      → IsConns c p (held_by entry ++ held) rest
      → (c' : Conns) × (leave_conn ticks entry c p ≡ some (c', p)) × IsConns c' p held rest
  unfolding leave_conn
  leave_conn_lem none c held rest w = (c, refl, w)
  leave_conn_lem (some a) c held rest w =
      let (ce, c', e, f, g, h, v) = del_tcp_conn_obj_lem c p a held rest ticks w in (c', f, v)

  pass_conns :
      (es : List OtEntry) (connobj : ℕ) (c : Conns) (held rest : List ℕ)
      → All IsConnobj es
      → IsConns c p (entries es ++ held) rest
      → (c' : Conns) × (pass ticks es connobj t c p
          ≡ some (
            record {
              chain = map processed_connobj es;
              listens = t;
              conns = c';
              event = none;
              connobj = last_connected es connobj;
            },
            p,
          ))
        × IsConns c' p held rest
  unfolding pass entries last_connected
  pass_conns [] connobj c held rest k w = (c, refl, w)
  pass_conns (e ∷ es) connobj c held rest (k, ks) w =
      let w' =
        subst (λ xs. IsConns c p xs rest) (append_assoc (held_by e.conn_entry) (entries es) held)
          w in
      let (c1, f, v) = leave_conn_lem e.conn_entry c (entries es ++ held) rest w' in
      let (c2, g, u) = pass_conns es (chosen e connobj) c1 held rest ks v in
      let there = k.there in let kind = k.kind in (c2, ground (arith, there, kind, f, g), u)

  pass_processed :
      (es : List OtEntry) (c : Conns)
      → pass ticks (map processed_connobj es) 0 t c p
        ≡ some (
          record {
            chain = map processed_connobj es;
            listens = t;
            conns = c;
            event = none;
            connobj = 0;
          },
          p,
        )
  unfolding pass
  pass_processed [] c = refl
  pass_processed (e ∷ es) c = let ih = pass_processed es c in ground (arith, ih)

  -- At the end of the table a chain of connection objects is processed with at most one of them
  -- released, the last that is connected, however many are, if the IRP for it can be built; every
  -- object leaves the chain's searches, gives up its entry in the table of connections, which stays
  -- sound, and two passes are enough.
  pub passes-IsReleased :
      (builds : Call → Bool) (n : ℕ) (es : List OtEntry) (c : Conns) (held rest : List ℕ)
      → All IsConnobj es
      → IsConns c p (entries es ++ held) rest
      → (calls : List Call) × (c' : Conns) × (passes ticks builds (suc (suc n)) es t c p
          ≡ some ((calls, map processed_connobj es, t, c'), p))
        × IsReleased builds es calls
        × IsConns c' p held rest
  unfolding passes next_call
  passes-IsReleased builds n es c held rest k w =
      let (c', e, v) = pass_conns es 0 c held rest k w in
      let f = pass_processed es c' in
      (
        released builds (last_connected es 0),
        c',
        ground (arith, e, f),
        released-IsReleased builds es (last_connected es 0) (last_connected-IsLast es 0 k),
        v,
      )
