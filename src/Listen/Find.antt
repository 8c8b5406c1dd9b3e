-- ===== src/Listen/Find.antt =====
-- The table against the entries that it holds, wherever they are.
use adfilter.Prelude.{
  ℕ, zero, suc, ◌<◌, ◌≡◌, ◌≢◌, ◌↔◌, refl, ap, sym, subst, ◌∙◌, inl, inr, List, [], ◌∷◌, Bool, true,
  false, not, ◌&&◌, arith, ◌==◌, All, Any, Bool-cases,
}
use adfilter.Sock.{ntohl}
use adfilter.Listen.{
  Entry, Table, calc_listen_hash, is_endpoint, any_entry, is_listen, bit, is_within,
  is_bcast_endpoint, is_bcast_listen,
}

-- Every entry is in the chain of its hash.
abbrev pub IsTable : Table → Type 0
IsTable t = (h : ℕ) → All (λ (e : Entry). calc_listen_hash e.ipproto e.port ≡ h) (t h)

-- Some chain holds an entry that passes.
abbrev pub Holds : (Entry → Type 0) → Table → Type 0
Holds P t = (h : ℕ) × Any P (t h)

abbrev pub IsEndpoint : ℕ → ℕ → ℕ → Entry → Type 0
IsEndpoint addr port ipproto e = (e.ipproto ≡ ipproto) × (e.addr ≡ addr) × (e.port ≡ port)

any_entry_iff :
    (test : Entry → Bool) (P : Entry → Type 0) (es : List Entry)
    → ((e : Entry) → (test e ≡ true) ↔ P e)
    → (any_entry test es ≡ true) ↔ Any P es
unfolding any_entry
any_entry_iff test P [] k = (λ h. cc, λ h. absurd h)
any_entry_iff test P (e ∷ es) k =
    let ih = any_entry_iff test P es k in
    elim (Bool-cases (test e)) [
      | inl y ↦ (λ _. inl ((k e).0 y), λ _. ground (arith, y))
      | inr n ↦ (
        λ h. inr (ih.0 (ground (arith, h, n))),
        λ m. elim m [
          | inl x ↦ let y = (k e).1 x in ground (arith, y, n)
          | inr x ↦ let r = ih.1 x in ground (arith, n, r)
        ],
      )
    ]

is_endpoint_iff :
    (addr port ipproto : ℕ) (e : Entry)
    → (is_endpoint addr port ipproto e ≡ true) ↔ IsEndpoint addr port ipproto e
is_endpoint_iff addr port ipproto e = ground arith

in_chain :
    (P : Entry → Type 0) (port ipproto h : ℕ) (es : List Entry)
    → ((e : Entry) → P e → (e.ipproto ≡ ipproto) × (e.port ≡ port))
    → All (λ (e : Entry). calc_listen_hash e.ipproto e.port ≡ h) es
    → Any P es
    → calc_listen_hash ipproto port ≡ h
in_chain P port ipproto h [] f w k = absurd k
in_chain P port ipproto h (e ∷ es) f w (inl x) =
    let (a, c) = f e x in
    ap (λ i. calc_listen_hash i port) (sym a) ∙ ap (calc_listen_hash e.ipproto) (sym c) ∙ w.0
in_chain P port ipproto h (e ∷ es) f w (inr k) = in_chain P port ipproto h es f w.1 k

search_iff :
    (test : Entry → Bool) (P : Entry → Type 0) (port ipproto : ℕ) (t : Table)
    → IsTable t
    → ((e : Entry) → (test e ≡ true) ↔ P e)
    → ((e : Entry) → P e → (e.ipproto ≡ ipproto) × (e.port ≡ port))
    → (any_entry test (t (calc_listen_hash ipproto port)) ≡ true) ↔ Holds P t
search_iff test P port ipproto t w k f = (
  λ h. (calc_listen_hash ipproto port, (any_entry_iff test P _ k).0 h),
  λ (h, m).
      let here = in_chain P port ipproto h (t h) f (w h) m in
      (any_entry_iff test P _ k).1 (subst (λ h. Any P (t h)) (sym here) m),
)

-- Where every entry is in the chain of its hash, an endpoint is listened on exactly if some entry,
-- in whatever chain, has its protocol, address and port.
is_listen_iff :
    (addr port ipproto : ℕ) (t : Table)
    → IsTable t
    → (is_listen addr port ipproto t ≡ true) ↔ Holds (IsEndpoint addr port ipproto) t
unfolding is_listen
is_listen_iff addr port ipproto t w =
    search_iff (is_endpoint addr port ipproto) (IsEndpoint addr port ipproto) port ipproto t w
      (is_endpoint_iff addr port ipproto) (λ e (a, b, c). (a, c))

-- A bit below `n` differs, and is clear in the second address.
abbrev pub SomeOutside : ℕ → ℕ → ℕ → Type 0
SomeOutside a b n = (i : ℕ) × (i < n) × (bit a i ≢ bit b i) × (bit b i ≡ 0)

is_within_iff : (a b n : ℕ) → (is_within a b n ≡ true) ↔ (¬ SomeOutside a b n)
unfolding is_within
is_within_iff a b zero = (λ _ (i, l, _, _). absurd (omega arith), λ _. refl)
is_within_iff a b (suc n) = elim (Bool-cases (not (bit a n == bit b n) && bit b n == 0)) [
  | inl y ↦
      let out : SomeOutside a b (suc n) =
        (n, omega arith, λ e. ground (arith, y, e), ground (arith, y)) in
      (λ h. ground (arith, h, y), λ k. absurd (k out))
  | inr no_hit ↦ (
    λ h s. (is_within_iff a b n).0 (ground (arith, h, no_hit)) (smaller no_hit s),
    λ k.
        let r = (is_within_iff a b n).1 (λ (i, l, d, z). k (i, omega arith, d, z)) in
        ground (arith, no_hit, r),
  )
]
  where
    smaller :
        (not (bit a n == bit b n) && bit b n == 0) ≡ false
        → SomeOutside a b (suc n)
        → SomeOutside a b n
    smaller e (i, l, d, z) = elim (Bool-cases (i == n)) [
      | inr h ↦ (i, ground arith, d, z)
      | inl h ↦
          let same : i ≡ n = ground arith in
          let d' : bit a n ≢ bit b n = subst (λ i. bit a i ≢ bit b i) same d in
          let z' : bit b n ≡ 0 = subst (λ i. bit b i ≡ 0) same z in ground (arith, e, d', z')
    ]

-- An entry of the port whose address has no bit that the broadcast address lacks.
abbrev pub IsBcast : ℕ → ℕ → ℕ → Entry → Type 0
IsBcast addr port ipproto e =
    (e.ipproto ≡ ipproto) × (e.port ≡ port) × ¬ SomeOutside (ntohl e.addr) (ntohl addr) 32

is_bcast_endpoint_iff :
    (addr port ipproto : ℕ) (e : Entry)
    → (is_bcast_endpoint addr port ipproto e ≡ true) ↔ IsBcast addr port ipproto e
unfolding is_bcast_endpoint
is_bcast_endpoint_iff addr port ipproto e =
    let k = is_within_iff (ntohl e.addr) (ntohl addr) 32 in
    elim (Bool-cases (e.ipproto == ipproto && e.port == port)) [
      | inl y ↦ (
        λ h. (ground (arith, y), ground (arith, y), k.0 (ground (arith, h, y))),
        λ (a, b, c). let r = k.1 c in ground (arith, y, r),
      )
      | inr n ↦ (λ h. ground (arith, h, n), λ (a, b, c). ground (arith, a, b, n))
    ]

-- Where every entry is in the chain of its hash, a broadcast is listened on exactly if some entry,
-- in whatever chain, has its protocol and port and an address with no bit that the broadcast
-- address lacks.
pub is_bcast_listen_iff :
    (addr port ipproto : ℕ) (t : Table)
    → IsTable t
    → (is_bcast_listen addr port ipproto t ≡ true) ↔ Holds (IsBcast addr port ipproto) t
unfolding is_bcast_listen
is_bcast_listen_iff addr port ipproto t w =
    search_iff (is_bcast_endpoint addr port ipproto) (IsBcast addr port ipproto) port ipproto t w
      (is_bcast_endpoint_iff addr port ipproto) (λ e (a, b, c). (a, b))
