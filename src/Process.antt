-- ===== src/Process.antt =====
-- sys/tdi_fw/src/pid_pname.c: the names of the processes. malloc_np and free are those of Pool; a
-- name is kept without its NUL. Between find_ple and add_ple the lock is free: that window is not
-- modelled, and each operation is one step.
pub mod Places
pub mod Invariant
pub mod Names
pub mod Search
pub mod Exit
use adfilter.Prelude.{
  ℕ, ◌-◌, List, [], ◌∷◌, ◌++◌, Option, none, some, Bool, true, false, ◌==◌, ltb, if◌then◌else◌,
  take, Bytes,
}
use adfilter.Pool.{Pool, Block, M, pure, fault, ◌>>=◌, ◌>>◌, ex_allocate_pool, ex_free_pool}
use adfilter.Links.{Links, append, empty, last}

-- struct plist_entry, without `next`.
pub record Ple : Type 0 where
  pub pid : ℕ
  pub pname : Option Block
  pub pname_event : Option ℕ
  pub context : ℕ

abbrev pub Plist : Type 0
Plist = Links Ple

pub data Status : Type 0 where
  success insufficient_resources : Status

-- Where an entry stands: the nodes before it, itself, and the nodes behind it.
pub record Place : Type 0 where
  pub before : List (ℕ × Ple)
  pub entry : ℕ × Ple
  pub after : List (ℕ × Ple)

abbrev pub further : ℕ × Ple → Option Place → Option Place
further x none = none
further x (some p) = some (record p { before = x ∷ p.before })

-- The first entry of the process.
unfoldable pub find_ple : ℕ → List (ℕ × Ple) → Option Place
find_ple pid [] = none
find_ple pid (x ∷ xs) =
    let rest = find_ple pid xs in
    if x.1.pid == pid then some (record { before = []; entry = x; after = xs }) else further x rest

abbrev pub fresh_ple : ℕ → Ple
fresh_ple pid = record { pid = pid; pname = none; pname_event = none; context = 0 }

-- The address of the new entry, or no memory.
unfoldable pub add_ple : ℕ → Plist → M (Option ℕ × Plist)
add_ple pid l = do
  ple ← ex_allocate_pool
  elim ple [
    | none ↦ pure (none, l)
    | some a ↦ elim (append l (a, fresh_ple pid)) [ none ↦ fault | some l' ↦ pure (some a, l') ]
  ]

-- Put an entry back in its place.
abbrev pub replaced : Place → Ple → Plist → Plist
replaced p e l = record l { nodes = p.before ++ (p.entry.0, e) ∷ p.after }

-- The node at an address.
unfoldable pub place_at : ℕ → List (ℕ × Ple) → Option Place
place_at a [] = none
place_at a (x ∷ xs) =
    let rest = place_at a xs in
    if x.0 == a then some (record { before = []; entry = x; after = xs }) else further x rest

-- find_ple, or else add_ple: `none` is no memory.
unfoldable pub find_or_add : ℕ → Plist → M (Option Place × Plist)
find_or_add pid l = elim (find_ple pid l.nodes) [
  | some p ↦ pure (some p, l)
  | none ↦ do
    (ple, l') ← add_ple pid l
    elim ple [
      | none ↦ pure (none, l')
      | some a ↦ elim (place_at a l'.nodes) [ none ↦ fault | some p ↦ pure (some p, l') ]
    ]
]

unfoldable pub pid_pname_set_event : ℕ → Option ℕ → Plist → M (Status × Plist)
pid_pname_set_event pid event l = do
  (place, l') ← find_or_add pid l
  elim place [
    | none ↦ pure (insufficient_resources, l')
    | some p ↦ pure (success, replaced p (record p.entry.1 { pname_event = event }) l')
  ]

-- The name of an entry that has none yet; the event is signalled in either case.
unfoldable pub set_name : Bytes → Ple → M (Status × Ple)
set_name pname e = elim e.pname [
  | some b ↦ pure (success, e)
  | none ↦ do
    buf ← ex_allocate_pool
    elim buf [
      | none ↦ pure (insufficient_resources, e)
      | some a ↦ pure (success, record e { pname = some (record { at = a; bytes = pname }) })
    ]
]

-- The event that is signalled, if there is one.
abbrev pub signal : Ple → Option ℕ
signal e = elim e.pname [ some b ↦ none | none ↦ e.pname_event ]

unfoldable pub pid_pname_set : ℕ → Bytes → ℕ → Plist → M (Status × Option ℕ × Plist)
pid_pname_set pid pname context l = do
  (place, l') ← find_or_add pid l
  elim place [
    | none ↦ pure (insufficient_resources, none, l')
    | some p ↦ do
      (status, e) ← set_name pname p.entry.1
      pure (status, signal p.entry.1, replaced p (record e { context = context }) l')
  ]

-- Whether there is a name, and what a buffer of `buf_size` bytes then holds; a buffer of no bytes is
-- not written.
unfoldable pub pid_pname_resolve : ℕ → ℕ → Plist → Option (Option Bytes)
pid_pname_resolve pid buf_size l = elim (find_ple pid l.nodes) [
  | none ↦ none
  | some p ↦ elim p.entry.1.pname [
    | none ↦ none
    | some b ↦ some (if ltb 0 buf_size then some (take (buf_size - 1) b.bytes) else none)
  ]
]

unfoldable pub pid_pname_get_context : ℕ → Plist → ℕ
pid_pname_get_context pid l = elim (find_ple pid l.nodes) [ none ↦ 0 | some p ↦ p.entry.1.context ]

unfoldable pub free_name : Option Block → M (Unit {0})
free_name none = pure tt
free_name (some b) = ex_free_pool b.at

-- The node is unlinked; where it was the last, the node before it becomes the tail.
unfoldable pub unlink : Place → Plist → Plist
unlink p l = record {
  nodes = p.before ++ p.after;
  tail = elim p.after [ [] ↦ last p.before | x ∷ xs ↦ l.tail ];
}

-- Whether find_ple or add_ple comes back with the lock held: where it has an entry. Without one it has
-- released the lock itself.
abbrev pub is_locked {ℓ} : {A : Type ℓ} → Option A → Bool
is_locked none = false
is_locked (some x) = true

-- KeReleaseSpinLock: the release of a lock that is not held is a bug check.
unfoldable pub release : Bool → M (Unit {0})
release true = pure tt
release false = fault

-- The call of tdifw_filter is left out: it changes nothing for a request of no protocol.
unfoldable pub process_notify_proc : ℕ → Bool → Plist → M Plist
process_notify_proc pid true l = do (ple, l') ← add_ple pid l; release (is_locked ple); pure l'
process_notify_proc pid false l = elim (find_ple pid l.nodes) [
  | none ↦ pure l
  | some p ↦ do
    free_name p.entry.1.pname
    ex_free_pool p.entry.0
    release (is_locked (some p))
    pure (unlink p l)
]

unfoldable pub free_nodes : List (ℕ × Ple) → M (Unit {0})
free_nodes [] = pure tt
free_nodes (x ∷ xs) = do free_name x.1.pname; ex_free_pool x.0; free_nodes xs

unfoldable pub pid_pname_free : Plist → M Plist
pid_pname_free l = do free_nodes l.nodes; pure empty
