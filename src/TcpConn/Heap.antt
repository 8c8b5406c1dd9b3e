-- ===== src/TcpConn/Heap.antt =====
-- The heap and the chains: a node for each entry, in the chain of its hash, and no other node.
use adfilter.Prelude.{
  ℕ, ◌+◌, ◌<◌, ◌≡◌, ◌≢◌, sym, ap, subst, ◌∙◌, inl, inr, List, ◌∷◌, Option, none, some, true, ◌&&◌,
  if◌then◌else◌, ◌==◌, arith, Bool-cases,
}
use adfilter.Pool.{count, remove_one, remove_one_counted}
use adfilter.TcpConn.{Conn, hash_of, store, set_chain}

abbrev pub IsNode : (ℕ → Option Conn) → ℕ → ℕ → Type 0
IsNode heap h a = (ce : Conn) × (heap a ≡ some ce) × (hash_of ce ≡ h)

pub record IsTable (heap : ℕ → Option Conn) (chain : ℕ → List ℕ) : Type 0 where
  pub in_chain : (h a : ℕ) → 0 < count a (chain h) → IsNode heap h a
  pub has_node : (a : ℕ) (ce : Conn) → heap a ≡ some ce → count a (chain (hash_of ce)) ≡ 1

pub store_self : (a : ℕ) (ce : Option Conn) (heap : ℕ → Option Conn) → store a ce heap a ≡ ce
store_self a ce heap = ground arith

pub store_other :
    (a b : ℕ) (ce : Option Conn) (heap : ℕ → Option Conn) → b ≢ a → store a ce heap b ≡ heap b
store_other a b ce heap n = ground arith

count-set_chain :
    (h j a b : ℕ) (chain : ℕ → List ℕ)
    → count b (set_chain h (a ∷ chain h) chain j)
      ≡ (if a == b && j == h then 1 else 0) + count b (chain j)
count-set_chain h j a b chain = elim (Bool-cases (j == h)) [
  | inl y ↦
      (let same : j ≡ h = ground arith in
        subst
          (λ j.
            count b (set_chain h (a ∷ chain h) chain j)
            ≡ (if a == b && j == h then 1 else 0) + count b (chain j))
          (sym same) (ground arith))
  | inr n ↦ ground (arith, n)
]

-- Memory that reads the same.
pub IsTable-same :
    (heap heap' : ℕ → Option Conn) (chain : ℕ → List ℕ)
    → ((b : ℕ) → heap b ≡ heap' b)
    → IsTable heap chain
    → IsTable heap' chain
IsTable-same heap heap' chain k w = record {
  in_chain = λ h a i. (let (ce, e, f) = w.in_chain h a i in (ce, sym (k a) ∙ e, f));
  has_node = λ a ce e. w.has_node a ce (k a ∙ e);
}

absent_count :
    (heap : ℕ → Option Conn) (chain : ℕ → List ℕ) (a : ℕ)
    → IsTable heap chain
    → heap a ≡ none
    → (h : ℕ) → count a (chain h) ≡ 0
absent_count heap chain a w e h = elim (Bool-cases (count a (chain h) == 0)) [
  | inl y ↦ ground arith
  | inr n ↦ (let (ce, f, _) = w.in_chain h a (ground arith) in absurd (cc))
]

module _ (a : ℕ) (ce : Conn) (heap : ℕ → Option Conn) (chain : ℕ → List ℕ) where
  in_linked :
      (h b : ℕ)
      → IsTable heap chain
      → heap a ≡ none
      → 0 < count b (set_chain (hash_of ce) (a ∷ chain (hash_of ce)) chain h)
      → IsNode (store a (some ce) heap) h b
  in_linked h b w e i =
      let k = count-set_chain (hash_of ce) h a b chain in
      elim (Bool-cases (b == a)) [
        | inl y ↦
            (let same : b ≡ a = ground arith in
              let none_there = absent_count heap chain a w e h in
              let none_here = subst (λ b. count b (chain h) ≡ 0) (sym same) none_there in
              elim (Bool-cases (h == hash_of ce)) [
                | inl z ↦ (ce, ground (arith, same), ==_right z)
                | inr n ↦ absurd (ground (arith, n, i, k, none_here))
              ])
        | inr n ↦
            (let (ce', f, g) = w.in_chain h b (ground (arith, n, i, k)) in
              (ce', ground (arith, n, f), g))
      ]
    where
      ==_right : {x y : ℕ} → (x == y) ≡ true → y ≡ x
      ==_right z = ground arith

  has_linked :
      (b : ℕ) (ce' : Conn)
      → IsTable heap chain
      → heap a ≡ none
      → store a (some ce) heap b ≡ some ce'
      → count b (set_chain (hash_of ce) (a ∷ chain (hash_of ce)) chain (hash_of ce')) ≡ 1
  has_linked b ce' w e i =
      let k = count-set_chain (hash_of ce) (hash_of ce') a b chain in
      elim (Bool-cases (b == a)) [
        | inl y ↦
            (let same : b ≡ a = ground arith in
              let both : ce ≡ ce' = ground (arith, i, y) in
              let hashes : hash_of ce' ≡ hash_of ce = ap hash_of (sym both) in
              let none_there = absent_count heap chain a w e (hash_of ce') in
              let none_here =
                subst (λ b. count b (chain (hash_of ce')) ≡ 0) (sym same) none_there in
              ground (arith, k, none_here, hashes, same))
        | inr n ↦ (let f = w.has_node b ce' (ground (arith, n, i)) in ground (arith, n, k, f))
      ]

  -- A node of a new entry.
  pub link-IsTable :
      IsTable heap chain
      → heap a ≡ none
      → IsTable (store a (some ce) heap) (set_chain (hash_of ce) (a ∷ chain (hash_of ce)) chain)
  link-IsTable w e = record {
    in_chain = λ h b i. in_linked h b w e i;
    has_node = λ b ce' i. has_linked b ce' w e i;
  }

module _ (a : ℕ) (ce : Conn) (heap : ℕ → Option Conn) (chain : ℕ → List ℕ) where
  count-unlinked :
      (ns : List ℕ) (h b : ℕ)
      → ((b : ℕ) → count b (chain (hash_of ce)) ≡ (if a == b then 1 else 0) + count b ns)
      → count b (chain h)
        ≡ (if a == b && h == hash_of ce then 1 else 0) + count b (set_chain (hash_of ce) ns chain h)
  count-unlinked ns h b k = elim (Bool-cases (h == hash_of ce)) [
    | inl y ↦
        (let same : h ≡ hash_of ce = go y in
          subst
            (λ h.
              count b (chain h)
              ≡ (if a == b && h == hash_of ce then 1 else 0)
                + count b (set_chain (hash_of ce) ns chain h))
            (sym same) (let r = k b in there (hash_of ce) r))
    | inr n ↦ ground (arith, n)
  ]
    where
      go : {x y : ℕ} → (x == y) ≡ true → x ≡ y
      go z = ground arith

      there :
          (j : ℕ)
          → count b (chain j) ≡ (if a == b then 1 else 0) + count b ns
          → count b (chain j)
            ≡ (if a == b && j == j then 1 else 0) + count b (set_chain j ns chain j)
      there j r = ground arith

  -- The node of an entry that is there is found, and without both the rest is as it was.
  pub unlink-IsTable :
      IsTable heap chain
      → heap a ≡ some ce
      → (ns : List ℕ) × (remove_one a (chain (hash_of ce)) ≡ some ns)
        × IsTable (store a none heap) (set_chain (hash_of ce) ns chain)
  unlink-IsTable w e =
      let one = w.has_node a ce e in
      let (ns, f, k) = remove_one_counted a (chain (hash_of ce)) (omega (arith, one)) in
      (
        ns,
        f,
        record {
          in_chain = λ h b i. in_rest ns h b w e k i;
          has_node = λ b ce' i. has_rest ns b ce' w k i;
        },
      )
    where
      in_rest :
          (ns : List ℕ) (h b : ℕ)
          → IsTable heap chain
          → heap a ≡ some ce
          → ((b : ℕ) → count b (chain (hash_of ce)) ≡ (if a == b then 1 else 0) + count b ns)
          → 0 < count b (set_chain (hash_of ce) ns chain h)
          → IsNode (store a none heap) h b
      in_rest ns h b w e k i =
          let r = count-unlinked ns h b k in
          let (ce', f, g) = w.in_chain h b (omega arith) in
          elim (Bool-cases (b == a)) [
            | inl y ↦
                (let same : b ≡ a = ground arith in
                  let both : ce ≡ ce' = ground (arith, e, subst (λ b. heap b ≡ some ce') same f) in
                  let hashes : h ≡ hash_of ce = sym g ∙ ap hash_of (sym both) in
                  let one = w.has_node a ce e in
                  let once : count b (chain h) ≡ 1 =
                    ap (λ b. count b (chain h)) same ∙ ap (λ h. count a (chain h)) hashes ∙ one in
                  absurd (ground (arith, r, once, i, same, hashes)))
            | inr n ↦ (ce', ground (arith, n, f), g)
          ]

      has_rest :
          (ns : List ℕ) (b : ℕ) (ce' : Conn)
          → IsTable heap chain
          → ((b : ℕ) → count b (chain (hash_of ce)) ≡ (if a == b then 1 else 0) + count b ns)
          → store a none heap b ≡ some ce'
          → count b (set_chain (hash_of ce) ns chain (hash_of ce')) ≡ 1
      has_rest ns b ce' w k i =
          let r = count-unlinked ns (hash_of ce') b k in
          elim (Bool-cases (b == a)) [
            | inl y ↦ absurd (ground (arith, i, y))
            | inr n ↦ (let f = w.has_node b ce' (ground (arith, n, i)) in ground (arith, n, f, r))
          ]

-- A write to an entry that keeps its hash.
pub write-IsTable :
    (a : ℕ) (ce ce' : Conn) (heap : ℕ → Option Conn) (chain : ℕ → List ℕ)
    → IsTable heap chain
    → heap a ≡ some ce
    → hash_of ce' ≡ hash_of ce
    → IsTable (store a (some ce') heap) chain
write-IsTable a ce ce' heap chain w e h = record {
  in_chain = λ j b i. in_written j b i;
  has_node = λ b d i. has_written b d i;
}
  where
    in_written : (j b : ℕ) → 0 < count b (chain j) → IsNode (store a (some ce') heap) j b
    in_written j b i =
        let (d, f, g) = w.in_chain j b i in
        elim (Bool-cases (b == a)) [
          | inl y ↦
              let same : b ≡ a = ground arith in
              let both : ce ≡ d = ground (arith, e, subst (λ b. heap b ≡ some d) same f) in
              (ce', ground (arith, y), h ∙ ap hash_of both ∙ g)
          | inr n ↦ (d, ground (arith, n, f), g)
        ]

    has_written :
        (b : ℕ) (d : Conn) → store a (some ce') heap b ≡ some d → count b (chain (hash_of d)) ≡ 1
    has_written b d i = elim (Bool-cases (b == a)) [
      | inl y ↦
          let same : b ≡ a = ground arith in
          let both : ce' ≡ d = ground (arith, i, y) in
          let hashes : hash_of d ≡ hash_of ce = ap hash_of (sym both) ∙ h in
          ap (λ b. count b (chain (hash_of d))) same
          ∙ ap (λ h. count a (chain h)) hashes
          ∙ w.has_node a ce e
      | inr n ↦ w.has_node b d (ground (arith, i, n))
    ]
