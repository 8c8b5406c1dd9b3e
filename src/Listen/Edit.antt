-- ===== src/Listen/Edit.antt =====
-- An endpoint that begins and ends to listen.
use adfilter.Prelude.{
  ℕ, ◌≡◌, ◌≢◌, ap, sym, subst, ◌∙◌, ◌⊎◌, inl, inr, List, ◌∷◌, none, some, true, arith, ◌==◌, All,
  Bool-cases,
}
use adfilter.Pool.{Pool, Owns, ex_allocate_pool_cases, ex_free_pool, ex_free_pool_owned}
use adfilter.Listen.{
  Entry, Table, Ote, Status, success, insufficient_resources, object_name_exists, calc_listen_hash,
  update, entry_for, add_listen, unlink, del_listen_obj, is_endpoint, any_entry, is_listen,
}
use adfilter.Listen.Find.{IsTable}

update_self : (h : ℕ) (es : List Entry) (t : Table) → update h es t h ≡ es
update_self h es t = ground arith

update_other : (h j : ℕ) (es : List Entry) (t : Table) → j ≢ h → update h es t j ≡ t j
update_other h j es t n = ground arith

-- The chain with an entry of its hash in front.
pub update-IsTable :
    (e : Entry) (t : Table)
    → IsTable t
    → IsTable
        (update (calc_listen_hash e.ipproto e.port) (e ∷ t (calc_listen_hash e.ipproto e.port)) t)
update-IsTable e t w j = elim (Bool-cases (j == calc_listen_hash e.ipproto e.port)) [
  | inl y ↦
      let same : j ≡ calc_listen_hash e.ipproto e.port = ground arith in
      let here =
        ap
          (update (calc_listen_hash e.ipproto e.port) (e ∷ t (calc_listen_hash e.ipproto e.port)) t)
          same
        ∙ update_self _ (e ∷ t (calc_listen_hash e.ipproto e.port)) t in
      subst (All (λ (e : Entry). calc_listen_hash e.ipproto e.port ≡ j)) (sym here) (
        sym same,
        subst
            (λ h.
              All (λ (e : Entry). calc_listen_hash e.ipproto e.port ≡ h)
                (t (calc_listen_hash e.ipproto e.port)))
            (sym same) (w (calc_listen_hash e.ipproto e.port)),
      )
  | inr n ↦
      let other : j ≢ calc_listen_hash e.ipproto e.port = λ e. ground (arith, e, n) in
      subst (All (λ (e : Entry). calc_listen_hash e.ipproto e.port ≡ j))
        (sym (update_other _ j _ t other)) (w j)
]

module _ (e : Entry) (t : Table) where
  unfoldable pub added : Table
  added = update (calc_listen_hash e.ipproto e.port) (e ∷ t (calc_listen_hash e.ipproto e.port)) t

  pub listens : is_listen e.addr e.port e.ipproto added ≡ true
  unfolding is_listen any_entry added
  listens =
      let here =
        update_self (calc_listen_hash e.ipproto e.port) (e ∷ t (calc_listen_hash e.ipproto e.port))
          t in
      ap (any_entry (is_endpoint e.addr e.port e.ipproto)) here ∙ ground arith

  pub deleted :
      (j : ℕ) (p q : Pool)
      → ex_free_pool e.at p ≡ some (tt, q)
      → (t' : Table) × (del_listen_obj e added p ≡ some (t', q)) × (t' j ≡ t j)
  unfolding del_listen_obj unlink added
  deleted j p q f =
      let h = calc_listen_hash e.ipproto e.port in
      let here = update_self h (e ∷ t h) t in
      let out : unlink e.at (added h) ≡ some (t h) = ap (unlink e.at) here ∙ ground arith in
      (
        update h (t h) added,
        ground (arith, out, f),
        elim (Bool-cases (j == h)) [
          | inl y ↦
              let same : j ≡ h = ground arith in
              ap (update h (t h) added) same ∙ update_self h (t h) added ∙ ap t (sym same)
          | inr n ↦
              let other : j ≢ h = λ e. ground (arith, e, n) in
              update_other h j (t h) added other ∙ update_other h j (e ∷ t h) t other
        ],
      )

-- Where every entry is in the chain of its hash, an address of IP that does not listen begins to
-- listen, unless there is no memory: then it is found; and when its entry is deleted every chain is
-- as before, and so are the live blocks.
add_listen-del_listen_obj :
    (o : Ote) (t : Table) (j : ℕ) (p : Pool) (rest : List ℕ)
    → IsTable t
    → Owns p rest
    → o.is_ip ≡ true
    → o.listen_entry ≡ none
    → ((q : Pool) × (add_listen o t p ≡ some ((insufficient_resources, o, t), q)) × Owns q rest)
      ⊎ ((e : Entry) × (t' : Table) × (q : Pool) × (add_listen o t p
            ≡ some ((success, record o { listen_entry = some e }, t'), q))
          × IsTable t'
          × (is_listen o.in_addr o.sin_port o.ipproto t' ≡ true)
          × (t'' : Table) × (r : Pool) × (del_listen_obj e t' q ≡ some (t'', r))
          × (t'' j ≡ t j)
          × Owns r rest)
unfolding add_listen added
add_listen-del_listen_obj o t j p rest w own ip idle = elim (ex_allocate_pool_cases p rest own) [
  | inl (q, e, o') ↦ inl (q, ground (arith, ip, e), o')
  | inr (a, q, e, o') ↦
      let (r, f, o'') = ex_free_pool_owned a q rest o' in
      let (t'', g, k) = deleted (entry_for a o) t j q r f in
      inr (
        entry_for a o,
        added (entry_for a o) t,
        q,
        ground (arith, ip, e, idle),
        update-IsTable (entry_for a o) t w,
        listens (entry_for a o) t,
        t'',
        r,
        g,
        k,
        o'',
      )
]

-- An address of IP that listens already is refused, nothing changes, and the block of its new entry
-- is freed again.
add_listen-twice :
    (o : Ote) (e : Entry) (t : Table) (p : Pool) (rest : List ℕ)
    → Owns p rest
    → o.is_ip ≡ true
    → o.listen_entry ≡ some e
    → (st : Status) × (q : Pool) × (add_listen o t p ≡ some ((st, o, t), q))
      × (st ≢ success)
      × Owns q rest
unfolding add_listen
add_listen-twice o e t p rest own ip busy = elim (ex_allocate_pool_cases p rest own) [
  | inl (q, f, o') ↦ (insufficient_resources, q, ground (arith, ip, f), λ e. cc, o')
  | inr (a, q, f, o') ↦
      let (r, g, o'') = ex_free_pool_owned a q rest o' in
      (object_name_exists, r, ground (arith, ip, f, busy, g), λ e. cc, o'')
]
