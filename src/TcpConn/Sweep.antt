-- ===== src/TcpConn/Sweep.antt =====
-- The loop of the thread over the entries to delete.
use adfilter.Prelude.{
  ℕ, ◌+◌, ◌<◌, ◌≤◌, ◌≡◌, refl, sym, ap, ◌∙◌, ◌⊎◌, inl, inr, List, [], ◌∷◌, Option, none, some, Bool,
  true, false, ◌||◌, if◌then◌else◌, ◌==◌, ltb, arith, Bool-cases,
}
use adfilter.Pool.{Pool, count}
use adfilter.TcpConn.{Conn, Conns, store, is_expired, time_left, longer_wait, thread_loop}
use adfilter.TcpConn.Invariant.{IsTracked}
use adfilter.TcpConn.Waiting.{listed_entry, as_held, as_listed, remove_conn_lem}

module _ (increment now : ℕ) (stop : Bool) where
  abbrev pub stays : Option Conn → Bool
  stays none = false
  stays (some ce) = if is_expired increment now stop ce || stop then false else true

  -- The entries that are not old enough.
  unfoldable pub survivors : (ℕ → Option Conn) → List ℕ → List ℕ
  survivors heap [] = []
  survivors heap (a ∷ more) =
      let rest = survivors heap more in if stays (heap a) then a ∷ rest else rest

  survivors-store :
      (a : ℕ) (heap : ℕ → Option Conn) (todo : List ℕ)
      → count a todo ≡ 0
      → survivors (store a none heap) todo ≡ survivors heap todo
  unfolding survivors
  survivors-store a heap [] z = refl
  survivors-store a heap (b ∷ todo) z =
      let ih = survivors-store a heap todo (omega (arith, z)) in
      let here : store a none heap b ≡ heap b = ground (arith, z) in
      ap (λ r. if stays (store a none heap b) then b ∷ r else r) ih
      ∙ ap (λ x. if stays x then b ∷ survivors heap todo else survivors heap todo) here

  abbrev pub WaitsAtMost : (ℕ → Option Conn) → ℕ → ℕ → Type 0
  WaitsAtMost heap timeout a =
      (ce : Conn) × (heap a ≡ some ce) × (time_left increment now stop ce ≤ timeout)

  abbrev pub WaitsExactly : (ℕ → Option Conn) → ℕ → ℕ → Type 0
  WaitsExactly heap timeout a =
      (ce : Conn) × (heap a ≡ some ce) × (time_left increment now stop ce ≡ timeout)

  -- After the loop over `todo`, which found the timeout `before`.
  pub record IsSwept (todo : List ℕ) (c : Conns) (before : ℕ) (kept : List ℕ) (timeout : ℕ)
      (c' : Conns) (q : Pool) (held rest : List ℕ) : Type 0 where
    pub kept_eq : kept ≡ survivors c.heap todo
    pub tracked : IsTracked kept c' q held rest
    pub frame : (b : ℕ) → 0 < count b held + count b kept → c'.heap b ≡ c.heap b
    pub grows : before ≤ timeout
    pub enough : (b : ℕ) → 0 < count b kept → WaitsAtMost c.heap timeout b
    pub attained :
        (timeout ≡ before) ⊎ ((b : ℕ) × (0 < count b kept) × WaitsExactly c.heap timeout b)

  abbrev pub Swept :
      (todo : List ℕ) (c : Conns) (before : ℕ) (p : Pool) (held rest : List ℕ) → Type 0
  Swept todo c before p held rest =
      (kept : List ℕ) × (timeout : ℕ) × (c' : Conns) × (q : Pool) × (thread_loop increment now stop
          todo before c p
        ≡ some ((kept, timeout, c'), q))
      × IsSwept todo c before kept timeout c' q held rest

  grown :
      (left before timeout : ℕ)
      → longer_wait increment now stop left before ≤ timeout
      → before ≤ timeout
  grown left before timeout h = ground (arith, h)

  waited :
      (left before timeout : ℕ)
      → longer_wait increment now stop left before ≤ timeout
      → left ≤ timeout
  waited left before timeout h = ground (arith, h)

  longer_cases :
      (left before : ℕ)
      → (longer_wait increment now stop left before ≡ left)
        ⊎ (longer_wait increment now stop left before ≡ before)
  longer_cases left before = elim (Bool-cases (ltb before left || before == 0)) [
    | inl y ↦ inl (ground (arith, y))
    | inr n ↦ inr (ground (arith, n))
  ]

  module _ (todo : List ℕ) (c : Conns) (before : ℕ) (p : Pool) (a : ℕ) (held rest : List ℕ)
      (ce : Conn) where
    unstored :
        (heap : ℕ → Option Conn) (b : ℕ) (d : Conn) → store a none heap b ≡ some d → heap b ≡ some d
    unstored heap b d e = elim (Bool-cases (b == a)) [
      | inl y ↦ absurd (ground (arith, y, e))
      | inr n ↦ ground (arith, n, e)
    ]

    dropped :
        IsTracked (a ∷ todo) c p held rest
        → c.heap a ≡ some ce
        → (is_expired increment now stop ce || stop) ≡ true
        → survivors c.heap todo ≡ survivors c.heap (a ∷ todo)
    unfolding survivors
    dropped w e x = ground (arith, e, x)

    sweep_removed :
        IsTracked (a ∷ todo) c p held rest
        → c.heap a ≡ some ce
        → (is_expired increment now stop ce || stop) ≡ true
        → ((c' : Conns) (q : Pool)
            → IsTracked todo c' q held rest
            → Swept todo c' before q held rest)
        → Swept (a ∷ todo) c before p held rest
    unfolding survivors thread_loop
    sweep_removed w e x k =
        let (c1, p1, f, h, w1) = remove_conn_lem todo c p a held rest increment now stop ce w e in
        let (_, _, z1, z2) = listed_entry todo c p a held rest w in
        let (kept, timeout, c', q, g, s) = k c1 p1 w1 in
        (
          kept,
          timeout,
          c',
          q,
          ground (arith, e, x, f, g),
          record {
            kept_eq =
                s.kept_eq
                ∙ ap (λ heap. survivors heap todo) h
                ∙ survivors-store a c.heap todo z1
                ∙ dropped w e x;
            tracked = s.tracked;
            frame = λ b i. s.frame b i ∙ ap (λ heap. heap b) h ∙ elim (Bool-cases (b == a)) [
              | inl y ↦
                  let same : b ≡ a = ground arith in
                  let here = s.frame b i ∙ ap (λ heap. heap b) h in
                  let k = s.tracked.owned b in absurd (ground (arith, here, k, y, i))
              | inr n ↦ ground (arith, n)
            ];
            grows = s.grows;
            enough = λ b i.
                (let (d, e1, l) = s.enough b i in
                  (d, unstored c.heap b d (sym (ap (λ heap. heap b) h) ∙ e1), l));
            attained = elim s.attained [
              | inl e ↦ inl e
              | inr (b, i, x) ↦
                  (let (d, e1, l) = x in
                    inr (b, i, (d, unstored c.heap b d (sym (ap (λ heap. heap b) h) ∙ e1), l)))
            ];
          },
        )

    retained :
        c.heap a ≡ some ce
        → (is_expired increment now stop ce || stop) ≡ false
        → a ∷ survivors c.heap todo ≡ survivors c.heap (a ∷ todo)
    unfolding survivors
    retained e x = ground (arith, e, x)

    sweep_kept :
        IsTracked (a ∷ todo) c p held rest
        → c.heap a ≡ some ce
        → (is_expired increment now stop ce || stop) ≡ false
        → Swept todo c
            (longer_wait increment now stop (time_left increment now stop ce) before)
            p
            (a ∷ held)
            rest
        → Swept (a ∷ todo) c before p held rest
    unfolding survivors thread_loop
    sweep_kept w e x (kept, timeout, c', q, g, s) = (
      a ∷ kept,
      timeout,
      c',
      q,
      ground (arith, e, x, g),
      record {
        kept_eq = ap (◌∷◌ a) s.kept_eq ∙ retained e x;
        tracked = as_listed kept c' q a held rest s.tracked (
            let (d, f, st, z) = w.are_closed a (ground arith) in
            (d, s.frame a (ground arith) ∙ f, st, z));
        frame = λ b i. s.frame b (omega (arith, i));
        grows = (let g = s.grows in grown (time_left increment now stop ce) before timeout g);
        enough = λ b i. elim (Bool-cases (b == a)) [
          | inl y ↦
              (let same : b ≡ a = ground arith in
                let g = s.grows in
                (ce, ap c.heap same ∙ e, waited (time_left increment now stop ce) before timeout g))
          | inr n ↦ s.enough b (ground (arith, n, i))
        ];
        attained = elim s.attained [
          | inl f ↦ elim (longer_cases (time_left increment now stop ce) before) [
            | inl g ↦ inr (a, ground arith, (ce, e, sym g ∙ sym f))
            | inr g ↦ inl (f ∙ g)
          ]
          | inr (b, i, x) ↦ inr (b, omega (arith, i), x)
        ];
      },
    )

  pub sweep :
      (todo : List ℕ) (c : Conns) (before : ℕ) (p : Pool) (held rest : List ℕ)
      → IsTracked todo c p held rest
      → Swept todo c before p held rest
  unfolding survivors thread_loop
  sweep [] c before p held rest w = (
    [],
    before,
    c,
    p,
    let straight = w.no_ring in ground (arith, straight),
    record {
      kept_eq = refl;
      tracked = w;
      frame = λ b i. refl;
      grows = omega arith;
      enough = λ b i. absurd (omega (arith, i));
      attained = inl refl;
    },
  )
  sweep (a ∷ todo) c before p held rest w =
      let (ce, e, _, _) = listed_entry todo c p a held rest w in
      elim (Bool-cases (is_expired increment now stop ce || stop)) [
        | inl x ↦
            sweep_removed todo c before p a held rest ce w e x
              (λ c' q w'. sweep todo c' before q held rest w')
        | inr x ↦ sweep_kept todo c before p a held rest ce w e x (
            sweep todo c (longer_wait increment now stop (time_left increment now stop ce) before) p
              (a ∷ held) rest (as_held todo c p a held rest w))
      ]
