-- ===== src/Listen.antt =====
-- sys/tdi_fw/src/conn_state.c: the table of listening endpoints. A chain of the hash table is the
-- list of its entries in the order of `next`; the table is a function of the hash. Each operation
-- holds the table's lock and is one step.
pub mod Edit
pub mod Find
use adfilter.Prelude.{
  ℕ, zero, suc, ◌+◌, ◌/◌, ◌%◌, ◌^◌, List, [], ◌∷◌, Option, none, some, Bool, true, false, not, ◌&&◌,
  ◌==◌, if◌then◌else◌,
}
use adfilter.Pool.{M, pure, fault, ◌>>=◌, ◌>>◌, ex_allocate_pool, ex_free_pool}
use adfilter.Sock.{ntohl}

-- struct listen_entry, at its address.
pub record Entry : Type 0 where
  pub at : ℕ
  pub ipproto : ℕ
  pub addr : ℕ
  pub port : ℕ
  pub addrobj : ℕ

abbrev pub Table : Type 0
Table = ℕ → List Entry

-- The fields of struct ot_entry that the table reads, and whether its address is one of IP.
pub record Ote : Type 0 where
  pub fileobj : ℕ
  pub is_ip : Bool
  pub in_addr : ℕ
  pub sin_port : ℕ
  pub ipproto : ℕ
  pub listen_entry : Option Entry

pub data Status : Type 0 where
  success invalid_parameter insufficient_resources object_name_exists : Status

abbrev pub listen_hash_size : ℕ
listen_hash_size = 0x1000

-- CALC_LISTEN_HASH
abbrev pub calc_listen_hash : ℕ → ℕ → ℕ
calc_listen_hash ipproto port = (ipproto + port) % 2 ^ 32 % listen_hash_size

abbrev pub update : ℕ → List Entry → Table → Table
update h es t j = if j == h then es else t j

abbrev pub entry_for : ℕ → Ote → Entry
entry_for a o = record {
  at = a;
  ipproto = o.ipproto;
  addr = o.in_addr;
  port = o.sin_port;
  addrobj = o.fileobj;
}

unfoldable pub add_listen : Ote → Table → M (Status × Ote × Table)
add_listen o t = elim o.is_ip [
  | false ↦ pure (invalid_parameter, o, t)
  | true ↦ do
    le ← ex_allocate_pool
    elim le [
      | none ↦ pure (insufficient_resources, o, t)
      | some a ↦ elim o.listen_entry [
        | some e ↦ do ex_free_pool a; pure (object_name_exists, o, t)
        | none ↦
            let e = entry_for a o in
            let h = calc_listen_hash e.ipproto e.port in
            pure (success, record o { listen_entry = some e }, update h (e ∷ t h) t)
      ]
    ]
]

abbrev pub behind : Entry → Option (List Entry) → Option (List Entry)
behind e none = none
behind e (some es) = some (e ∷ es)

-- The node at an address is unlinked; a pointer that is no node is freed memory.
unfoldable pub unlink : ℕ → List Entry → Option (List Entry)
unlink a [] = none
unlink a (e ∷ es) = let rest = unlink a es in if e.at == a then some es else behind e rest

unfoldable pub del_listen_obj : Entry → Table → M Table
del_listen_obj e t =
    let h = calc_listen_hash e.ipproto e.port in
    elim (unlink e.at (t h)) [ none ↦ fault | some es ↦ do ex_free_pool e.at; pure (update h es t) ]

abbrev pub is_endpoint : ℕ → ℕ → ℕ → Entry → Bool
is_endpoint addr port ipproto e = e.ipproto == ipproto && e.addr == addr && e.port == port

unfoldable pub any_entry : (Entry → Bool) → List Entry → Bool
any_entry test [] = false
any_entry test (e ∷ es) = let rest = any_entry test es in if test e then true else rest

unfoldable pub is_listen : ℕ → ℕ → ℕ → Table → Bool
is_listen addr port ipproto t =
    any_entry (is_endpoint addr port ipproto) (t (calc_listen_hash ipproto port))

-- The bit `i`.
abbrev pub bit : ℕ → ℕ → ℕ
bit n i = n / 2 ^ i % 2

-- The loop over the bits below `n`, from the highest on.
unfoldable pub is_within : ℕ → ℕ → ℕ → Bool
is_within addr_l addr_p zero = true
is_within addr_l addr_p (suc i) =
    let rest = is_within addr_l addr_p i in
    if not (bit addr_l i == bit addr_p i) && bit addr_p i == 0 then false else rest

unfoldable pub is_bcast_endpoint : ℕ → ℕ → ℕ → Entry → Bool
is_bcast_endpoint addr port ipproto e =
    if e.ipproto == ipproto && e.port == port
    then is_within (ntohl e.addr) (ntohl addr) 32
    else false

unfoldable pub is_bcast_listen : ℕ → ℕ → ℕ → Table → Bool
is_bcast_listen addr port ipproto t =
    any_entry (is_bcast_endpoint addr port ipproto) (t (calc_listen_hash ipproto port))
