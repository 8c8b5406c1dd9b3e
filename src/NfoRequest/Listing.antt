-- ===== src/NfoRequest/Listing.antt =====
-- How much of the tables a buffer gets.
use adfilter.Prelude.{
  ℕ, zero, suc, ◌+◌, ◌*◌, ◌/◌, ◌≤◌, ◌<◌, ◌≡◌, ◌≢◌, refl, sym, ap, subst, ◌∙◌, List, [], ◌∷◌, Option,
  some, ◌==◌, leb, ltb, if◌then◌else◌, arith, map, length, length-take, take, Bool-cases,
  Option-cases, inl, inr, none,
}
use adfilter.Pool.{count, count-append}
use adfilter.TcpConn.{Conn, Conns, conn_hash_size, hash_of, tcp_state_closed}
use adfilter.TcpConn.Heap.{IsTable}
use adfilter.ObjTable.{Net}
use adfilter.NfoRequest.{
  TcpConnNfo, listen_nfo_size, tcp_conn_nfo_size, success, buffer_too_small, chains_from, enum_loop,
  Answer, answer, tcp_conn_nfo, all_listens, enum_listen, open_conns, enum_tcp_conn,
}

-- Room for `suc k` items.
enum_loop_lem {ℓ} :
    {A : Type ℓ} (size buf_size len k : ℕ) (xs : List A)
    → len + suc k * size ≤ buf_size
    → buf_size < len + suc k * size + size
    → enum_loop size buf_size len xs ≡ (take (suc k) xs, leb (suc k) (length xs))
unfolding enum_loop
enum_loop_lem size buf_size len k [] h1 h2 = ground arith
enum_loop_lem size buf_size len zero (x ∷ xs) h1 h2 = ground (arith, h1, h2)
enum_loop_lem size buf_size len (suc k) (x ∷ xs) h1 h2 =
    let ih =
      enum_loop_lem size buf_size (len + size) k xs (omega (arith, h1)) (omega (arith, h2)) in
    ground (arith, ih, h1, h2)

-- The listing of a table with the entries `xs`: as many of the first ones as the buffer holds, and a
-- success exactly if it has room for one more.
abbrev pub IsListing : {A : Type 0} → ℕ → ℕ → List A → Answer A → Type 0
IsListing size buf_size xs r =
    (r.items ≡ take (buf_size / size) xs)
    × (r.buf_len ≡ size * length r.items)
    × (r.buf_len ≤ buf_size)
    × (r.status ≡ (if ltb (length xs) (buf_size / size) then success else buffer_too_small))

times_le : (size a b : ℕ) → a ≤ b → size * a ≤ size * b
times_le zero a b h = omega arith
times_le (suc size) a b h = omega (arith, times_le size a b h)

answer-IsListing :
    {A : Type 0} (size buf_size k : ℕ) (xs : List A)
    → suc k * size ≤ buf_size
    → buf_size < suc k * size + size
    → suc k ≡ buf_size / size
    → IsListing size buf_size xs (answer size (enum_loop size buf_size 0 xs))
unfolding answer
answer-IsListing {A} size buf_size k xs h1 h2 e =
    subst (λ r. IsListing size buf_size xs (answer size r))
      (sym (enum_loop_lem size buf_size 0 k xs (omega (arith, h1)) (omega (arith, h2))))
      (subst
        (λ n.
          (take (suc k) xs ≡ take n xs)
          × (size * length (take (suc k) xs) ≡ size * length (take (suc k) xs))
          × (size * length (take (suc k) xs) ≤ buf_size)
          × ((if leb (suc k) (length xs) then buffer_too_small else success)
              ≡ (if ltb (length xs) n then success else buffer_too_small)))
        e (refl, refl, fits, ground arith))
  where
    fits : size * length (take (suc k) xs) ≤ buf_size
    fits = omega (
      arith,
      h1,
      length-take (suc k) xs,
      times_le size (length (take (suc k) xs)) (suc k) (omega (arith, length-take (suc k) xs)),
      commuted,
    )
      where
        commuted : size * suc k ≡ suc k * size
        commuted = omega arith

below : (n : ℕ) → 0 < n → (k : ℕ) × (suc k ≡ n)
below zero h = absurd (omega (arith, h))
below (suc n) h = (n, refl)

listens_eq :
    (buf_size : ℕ) (net : Net)
    → listen_nfo_size ≤ buf_size
    → enum_listen buf_size net
      ≡ answer listen_nfo_size (enum_loop listen_nfo_size buf_size 0 (all_listens net))
unfolding enum_listen
listens_eq buf_size net h = ground (arith, h)

-- A buffer that holds one item gets the listening endpoints in the order of the table, as many as
-- it has room for, with their processes, and nothing is written behind it; the status is a success
-- exactly if there is room for one more item than was listed.
enum_listen-IsListing :
    (buf_size : ℕ) (net : Net)
    → listen_nfo_size ≤ buf_size
    → IsListing listen_nfo_size buf_size (all_listens net) (enum_listen buf_size net)
enum_listen-IsListing buf_size net h =
    let (k, e) = below (buf_size / listen_nfo_size) (omega (arith, h)) in
    subst (IsListing listen_nfo_size buf_size (all_listens net)) (sym (listens_eq buf_size net h)) (
      answer-IsListing listen_nfo_size buf_size k (all_listens net) (omega (arith, e))
        (omega (arith, e)) e)

count-chains_from :
    (a h n : ℕ) (chain : ℕ → List ℕ)
    → 0 < count a (chains_from h n chain)
    → (j : ℕ) × (0 < count a (chain j))
unfolding chains_from
count-chains_from a h zero chain i = absurd (omega (arith, i))
count-chains_from a h (suc n) chain i = elim (Bool-cases (count a (chain h) == 0)) [
  | inl y ↦
      count-chains_from a (suc h) n chain
        (ground (arith, y, i, count-append a (chain h) (chains_from (suc h) n chain)))
  | inr m ↦ (h, ground (arith, m))
]

-- Of chains of which only the one of `j` has the address, those without it, and those with it.
chains_from-other :
    (a h n j : ℕ) (chain : ℕ → List ℕ)
    → j < h
    → ((k : ℕ) → k ≢ j → count a (chain k) ≡ 0)
    → count a (chains_from h n chain) ≡ 0
unfolding chains_from
chains_from-other a h zero j chain l o = refl
chains_from-other a h (suc n) j chain l o = omega (
  arith,
  count-append a (chain h) (chains_from (suc h) n chain),
  o h (λ e. absurd (omega (arith, e, l))),
  chains_from-other a (suc h) n j chain (omega (arith, l)) o,
)

chains_from-only :
    (a h n j : ℕ) (chain : ℕ → List ℕ)
    → h ≤ j
    → j < h + n
    → ((k : ℕ) → k ≢ j → count a (chain k) ≡ 0)
    → count a (chains_from h n chain) ≡ count a (chain j)
unfolding chains_from
chains_from-only a h zero j chain l u o = absurd (omega (arith, l, u))
chains_from-only a h (suc n) j chain l u o = elim (Bool-cases (j == h)) [
  | inl y ↦
      (let same : j ≡ h = ground arith in
        let rest = chains_from-other a (suc h) n j chain (ground (arith, same)) o in
        let head : count a (chain h) ≡ count a (chain j) = ap (λ k. count a (chain k)) (sym same) in
        omega (arith, rest, head, count-append a (chain h) (chains_from (suc h) n chain)))
  | inr m ↦
      (let rest =
          chains_from-only a (suc h) n j chain (ground (arith, m, l)) (omega (arith, u)) o in
        let head = o h (λ e. ground (arith, e, m)) in
        omega (arith, rest, head, count-append a (chain h) (chains_from (suc h) n chain)))
]

-- 1 for an entry that is not closed.
abbrev pub openness : Option Conn → ℕ
openness none = 0
openness (some ce) = if ce.state == tcp_state_closed then 0 else 1

-- The connections that are not closed, wherever they are: all of them, each once, and no other;
-- `nodes` are their addresses.
pub record AreOpen (c : Conns) (ces : List Conn) : Type 0 where
  pub nodes : List ℕ
  pub entries : map c.heap nodes ≡ map some ces
  pub once : (a : ℕ) → count a nodes ≡ openness (c.heap a)

open_conns_lem :
    (heap : ℕ → Option Conn) (nodes : List ℕ)
    → ((a : ℕ) → 0 < count a nodes → (ce : Conn) × (heap a ≡ some ce))
    → (ces : List Conn) × (kept : List ℕ) × (open_conns heap nodes ≡ some ces)
      × (map heap kept ≡ map some ces)
      × ((a : ℕ) → count a kept ≡ count a nodes * openness (heap a))
unfolding open_conns
open_conns_lem heap [] k = ([], [], refl, refl, λ a. omega arith)
open_conns_lem heap (a ∷ nodes) k =
    let (d, e) = k a (ground arith) in
    let (ces, kept, f, m, o) = open_conns_lem heap nodes (λ b i. k b (ground (arith, i))) in
    elim (Bool-cases (d.state == tcp_state_closed)) [
      | inl y ↦ (
        ces,
        kept,
        ground (arith, e, y, f),
        m,
        λ b. elim (Bool-cases (b == a)) [
          | inl z ↦
              (let same : b ≡ a = ground arith in
                let e' = subst (λ b. heap b ≡ some d) (sym same) e in
                let r = o b in ground (arith, e', y, r))
          | inr z ↦ (let r = o b in ground (arith, z, r))
        ],
      )
      | inr y ↦ (
        d ∷ ces,
        a ∷ kept,
        ground (arith, e, y, f),
        (λ i. e i ∷ m i),
        λ b. elim (Bool-cases (b == a)) [
          | inl z ↦
              (let same : b ≡ a = ground arith in
                let e' = subst (λ b. heap b ≡ some d) (sym same) e in
                let one : openness (heap b) ≡ 1 = ground (arith, e', y) in
                let r = o b in
                let r' : count b kept ≡ count b nodes =
                  r ∙ ap (λ n. count b nodes * n) one ∙ omega arith in
                let goal : count b (a ∷ kept) ≡ count b (a ∷ nodes) = omega (arith, r') in
                goal ∙ sym (ap (λ n. count b (a ∷ nodes) * n) one ∙ omega arith))
          | inr z ↦
              (let r = o b in
                let miss : count b (a ∷ nodes) ≡ count b nodes = ground (arith, z) in
                let miss' : count b (a ∷ kept) ≡ count b kept = ground (arith, z) in
                miss' ∙ r ∙ sym (ap (λ n. n * openness (heap b)) miss))
        ],
      )
    ]

conns_eq :
    (buf_size : ℕ) (net : Net) (ces : List Conn)
    → tcp_conn_nfo_size ≤ buf_size
    → open_conns net.conns.heap (chains_from 0 conn_hash_size net.conns.chain) ≡ some ces
    → enum_tcp_conn buf_size net
      ≡ some (
          answer tcp_conn_nfo_size
            (enum_loop tcp_conn_nfo_size buf_size 0 (map (tcp_conn_nfo net.objects) ces)))
unfolding enum_tcp_conn
conns_eq buf_size net ces h e = ground (arith, h, e)

-- In a table every address of an entry stands once in all the chains together, and no other does.
count-nodes :
    (c : Conns) (a : ℕ)
    → IsTable c.heap c.chain
    → count a (chains_from 0 conn_hash_size c.chain) * openness (c.heap a) ≡ openness (c.heap a)
count-nodes c a w = elim (Option-cases (c.heap a)) [
  | inl e ↦
      let zero_open : openness (c.heap a) ≡ 0 = ground (arith, e) in
      ap (λ n. count a (chains_from 0 conn_hash_size c.chain) * n) zero_open
      ∙ omega arith
      ∙ sym zero_open
  | inr (ce, e) ↦
      let only : (k : ℕ) → k ≢ hash_of ce → count a (c.chain k) ≡ 0 = λ k n.
        elim (Bool-cases (count a (c.chain k) == 0)) [
          | inl y ↦ ground (arith, y)
          | inr m ↦
              let (d, f, h) = w.in_chain k a (ground (arith, m)) in
              let same : d ≡ ce = ground (arith, e, f) in
              absurd (n (sym h ∙ ap (λ d. hash_of d) same))
        ] in
      let one =
        chains_from-only a 0 conn_hash_size (hash_of ce) c.chain (omega arith) (omega arith) only
        ∙ w.has_node a ce e in
      ap (λ n. n * openness (c.heap a)) one ∙ omega arith
]

-- From a sound table a buffer that holds one item gets the connections that are not closed, as many as
-- it has room for, with their processes and traffic, and nothing is written behind it. They are the
-- first ones of a list that has each connection in the table that is not closed once, and no other.
-- The status is a success exactly if there is room for one more item than was listed.
pub enum_tcp_conn-IsListing :
    (buf_size : ℕ) (net : Net)
    → IsTable net.conns.heap net.conns.chain
    → tcp_conn_nfo_size ≤ buf_size
    → (ces : List Conn) × (r : Answer TcpConnNfo) × (enum_tcp_conn buf_size net ≡ some r)
      × AreOpen net.conns ces
      × IsListing tcp_conn_nfo_size buf_size (map (tcp_conn_nfo net.objects) ces) r
enum_tcp_conn-IsListing buf_size net w h =
    let nodes = chains_from 0 conn_hash_size net.conns.chain in
    let (ces, kept, e, m, o) = open_conns_lem net.conns.heap nodes (λ a i.
      let (j, i') = count-chains_from a 0 conn_hash_size net.conns.chain i in
      let (d, f, _) = w.in_chain j a i' in (d, f)) in
    let (k, f) = below (buf_size / tcp_conn_nfo_size) (omega (arith, h)) in
    (
      ces,
      answer tcp_conn_nfo_size
          (enum_loop tcp_conn_nfo_size buf_size 0 (map (tcp_conn_nfo net.objects) ces)),
      conns_eq buf_size net ces h e,
      record { nodes = kept; entries = m; once = λ a. o a ∙ count-nodes net.conns a w },
      answer-IsListing tcp_conn_nfo_size buf_size k (map (tcp_conn_nfo net.objects) ces)
          (omega (arith, f)) (omega (arith, f)) f,
    )
