-- ===== src/ConnCtx/Chains.antt =====
-- The chains of distinct keys, and the table as a map.
use adfilter.Prelude.{
  ℕ, ◌≡◌, refl, sym, ap, subst, ◌∙◌, inl, inr, List, [], ◌∷◌, Option, none, some, true, false, ◌&&◌,
  if◌then◌else◌, ◌==◌, arith, Bool-cases,
}
use adfilter.ConnCtx.{
  CtxEntry, Contexts, calc_hash_2, is_context, find_cte, update, set_connobj, unlink_cte,
}

-- No two entries of a chain have one key.
abbrev pub IsDistinct : List CtxEntry → Type 0
IsDistinct [] = Unit {0}
IsDistinct (e ∷ es) = (find_cte e.addrobj e.conn_ctx es ≡ none) × IsDistinct es

abbrev pub IsContexts : Contexts → Type 0
IsContexts t = (h : ℕ) → IsDistinct (t h)

-- The map: what it has for a key.
abbrev pub Keys : Type 0
Keys = ℕ → ℕ → Option ℕ

abbrev pub the_connobj : Option CtxEntry → Option ℕ
the_connobj none = none
the_connobj (some e) = some e.connobj

unfoldable pub view : Contexts → Keys
view t addrobj conn_ctx = the_connobj (find_cte addrobj conn_ctx (t (calc_hash_2 addrobj conn_ctx)))

-- The map with a key set, or taken out.
abbrev pub assign : ℕ → ℕ → Option ℕ → Keys → Keys
assign addrobj conn_ctx v m a c = if a == addrobj && c == conn_ctx then v else m a c

-- Everywhere the same.
abbrev pub Agree : Keys → Keys → Type 0
Agree m n = (a c : ℕ) → m a c ≡ n a c

module _ (addrobj conn_ctx connobj : ℕ) where
  pub find_cte-set_connobj :
      (a c : ℕ) (es : List CtxEntry)
      → the_connobj (find_cte a c (set_connobj addrobj conn_ctx connobj es)) ≡ (
          if a == addrobj && c == conn_ctx
          then elim (find_cte addrobj conn_ctx es) [ none ↦ none | some e ↦ some connobj ]
          else the_connobj (find_cte a c es))
  unfolding find_cte set_connobj
  find_cte-set_connobj a c [] = ground arith
  find_cte-set_connobj a c (e ∷ es) =
      let ih = find_cte-set_connobj a c es in
      elim (Bool-cases (is_context addrobj conn_ctx e)) [
        | inl y ↦ ground (arith, y)
        | inr n ↦ ground (arith, n, ih)
      ]

  pub find_cte-unlink_cte :
      (a c : ℕ) (es : List CtxEntry)
      → IsDistinct es
      → the_connobj (find_cte a c (unlink_cte addrobj conn_ctx es))
        ≡ (if a == addrobj && c == conn_ctx then none else the_connobj (find_cte a c es))
  unfolding find_cte unlink_cte
  find_cte-unlink_cte a c [] w = ground arith
  find_cte-unlink_cte a c (e ∷ es) w =
      let ih = find_cte-unlink_cte a c es w.1 in
      elim (Bool-cases (is_context addrobj conn_ctx e)) [
        | inl y ↦
            let e1 : e.addrobj ≡ addrobj = ground (arith, y) in
            let e2 : e.conn_ctx ≡ conn_ctx = ground (arith, y) in
            let absent =
              subst (λ x. find_cte x conn_ctx es ≡ none) e1
                (subst (λ x. find_cte e.addrobj x es ≡ none) e2 w.0) in
            elim (Bool-cases (a == addrobj && c == conn_ctx)) [
              | inl m ↦
                  let f1 : a ≡ addrobj = ground (arith, m) in
                  let f2 : c ≡ conn_ctx = ground (arith, m) in
                  let absent' =
                    subst (λ x. find_cte x c es ≡ none) (sym f1)
                      (subst (λ x. find_cte addrobj x es ≡ none) (sym f2) absent) in
                  ground (arith, y, m, absent')
              | inr m ↦ ground (arith, y, m)
            ]
        | inr n ↦ ground (arith, n, ih)
      ]

  find_cte-unlink_cte-none :
      (a c : ℕ) (es : List CtxEntry)
      → find_cte a c es ≡ none
      → find_cte a c (unlink_cte addrobj conn_ctx es) ≡ none
  unfolding find_cte unlink_cte
  find_cte-unlink_cte-none a c [] h = refl
  find_cte-unlink_cte-none a c (e ∷ es) h =
      let ih = find_cte-unlink_cte-none a c es (ground (arith, h)) in ground (arith, h, ih)

  find_cte-set_connobj-none :
      (a c : ℕ) (es : List CtxEntry)
      → find_cte a c es ≡ none
      → find_cte a c (set_connobj addrobj conn_ctx connobj es) ≡ none
  unfolding find_cte set_connobj
  find_cte-set_connobj-none a c [] h = refl
  find_cte-set_connobj-none a c (e ∷ es) h =
      let ih = find_cte-set_connobj-none a c es (ground (arith, h)) in ground (arith, h, ih)

  pub unlink_cte-IsDistinct :
      (es : List CtxEntry) → IsDistinct es → IsDistinct (unlink_cte addrobj conn_ctx es)
  unfolding unlink_cte
  unlink_cte-IsDistinct [] w = tt
  unlink_cte-IsDistinct (e ∷ es) (n, w) =
      let ih = unlink_cte-IsDistinct es w in
      let out = find_cte-unlink_cte-none e.addrobj e.conn_ctx es n in
      elim (is_context addrobj conn_ctx e)
        as (λ b. IsDistinct (if b then es else e ∷ unlink_cte addrobj conn_ctx es)) [
          | true ↦ w
          | false ↦ (out, ih)
        ]

  pub set_connobj-IsDistinct :
      (es : List CtxEntry) → IsDistinct es → IsDistinct (set_connobj addrobj conn_ctx connobj es)
  unfolding set_connobj
  set_connobj-IsDistinct [] w = tt
  set_connobj-IsDistinct (e ∷ es) (n, w) =
      let ih = set_connobj-IsDistinct es w in
      let out = find_cte-set_connobj-none e.addrobj e.conn_ctx es n in
      elim (is_context addrobj conn_ctx e)
        as (λ b. IsDistinct (
          if b
          then record e { connobj = connobj } ∷ es
          else e ∷ set_connobj addrobj conn_ctx connobj es)) [ true ↦ (n, w) | false ↦ (out, ih) ]

pub update-IsContexts :
    (h : ℕ) (es : List CtxEntry) (t : Contexts)
    → IsContexts t
    → IsDistinct es
    → IsContexts (update h es t)
update-IsContexts h es t w d j = elim (j == h) as (λ b. IsDistinct (if b then es else t j)) [
  | true ↦ d
  | false ↦ w j
]

-- A new chain for the hash of a key is seen at that key alone, if it changes no other search.
pub view-update :
    (addrobj conn_ctx : ℕ) (v : Option ℕ) (es : List CtxEntry) (t : Contexts)
    → ((a c : ℕ)
        → the_connobj (find_cte a c es) ≡ (
            if a == addrobj && c == conn_ctx
            then v
            else the_connobj (find_cte a c (t (calc_hash_2 addrobj conn_ctx)))))
    → Agree (view (update (calc_hash_2 addrobj conn_ctx) es t)) (assign addrobj conn_ctx v (view t))
unfolding view
view-update addrobj conn_ctx v es t k a c =
    elim (Bool-cases (calc_hash_2 a c == calc_hash_2 addrobj conn_ctx)) [
      | inl y ↦
          (let same : calc_hash_2 a c ≡ calc_hash_2 addrobj conn_ctx = eq y in
            at_same (calc_hash_2 a c) same)
      | inr n ↦ elim (Bool-cases (a == addrobj && c == conn_ctx)) [
        | inl m ↦ absurd (differ n m)
        | inr m ↦ at_other (calc_hash_2 a c) (calc_hash_2 addrobj conn_ctx) n m
      ]
    ]
  where
    eq : {x y : ℕ} → (x == y) ≡ true → x ≡ y
    eq h = ground (arith, h)

    at_same :
        (h : ℕ)
        → h ≡ calc_hash_2 addrobj conn_ctx
        → the_connobj (find_cte a c (update (calc_hash_2 addrobj conn_ctx) es t h))
          ≡ (if a == addrobj && c == conn_ctx then v else the_connobj (find_cte a c (t h)))
    at_same h same =
        subst
          (λ h.
            the_connobj (find_cte a c (update (calc_hash_2 addrobj conn_ctx) es t h))
            ≡ (if a == addrobj && c == conn_ctx then v else the_connobj (find_cte a c (t h))))
          (sym same) (here (calc_hash_2 addrobj conn_ctx) ∙ k a c)
      where
        here :
            (g : ℕ) → the_connobj (find_cte a c (update g es t g)) ≡ the_connobj (find_cte a c es)
        here g = ground arith

    at_other :
        (h g : ℕ)
        → (h == g) ≡ false
        → (a == addrobj && c == conn_ctx) ≡ false
        → the_connobj (find_cte a c (update g es t h))
          ≡ (if a == addrobj && c == conn_ctx then v else the_connobj (find_cte a c (t h)))
    at_other h g n m = ground (arith, n, m)

    unequal : {x y : ℕ} → (x == y) ≡ false → x ≡ y → ⊥
    unequal n s = ground (arith, n, s)

    differ :
        (calc_hash_2 a c == calc_hash_2 addrobj conn_ctx) ≡ false
        → (a == addrobj && c == conn_ctx) ≡ true
        → ⊥
    differ n m =
        let f1 : a ≡ addrobj = ground (arith, m) in
        let f2 : c ≡ conn_ctx = ground (arith, m) in
        let same : calc_hash_2 a c ≡ calc_hash_2 addrobj conn_ctx =
          ap (λ x. calc_hash_2 x c) f1 ∙ ap (calc_hash_2 addrobj) f2 in
        unequal n same
