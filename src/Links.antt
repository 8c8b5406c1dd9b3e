-- ===== src/Links.antt =====
-- The singly linked lists of sys/tdi_fw/src with a tail pointer: g_plist of pid_pname.c and the
-- chains of filter.c. A node is its address and its fields; the order is that of `next` from the head.
pub mod Append
use adfilter.Prelude.{ℕ, List, [], ◌∷◌, Option, none, some, Bool, true, false, ◌==◌, if◌then◌else◌}

pub record Links (A : Type 0) : Type 0 where
  pub nodes : List (ℕ × A)
  pub tail : Option ℕ

module _ {A : Type 0} where
  abbrev pub empty : Links A
  empty = record { nodes = []; tail = none }

  abbrev pub behind : ℕ × A → Option (List (ℕ × A)) → Option (List (ℕ × A))
  behind x none = none
  behind x (some xs) = some (x ∷ xs)

  -- `tail->next = n`: what stood behind the tail is cut off; a tail that is no node is freed memory.
  unfoldable pub link_after : ℕ → ℕ × A → List (ℕ × A) → Option (List (ℕ × A))
  link_after t n [] = none
  link_after t n (x ∷ xs) =
      let rest = link_after t n xs in if x.0 == t then some (x ∷ n ∷ []) else behind x rest

  -- Without a tail the node becomes head and tail.
  unfoldable pub append : Links A → ℕ × A → Option (Links A)
  append l n = elim l.tail [
    | none ↦ some (record { nodes = n ∷ []; tail = some n.0 })
    | some t ↦ elim (link_after t n l.nodes) [
      | none ↦ none
      | some ns ↦ some (record { nodes = ns; tail = some n.0 })
    ]
  ]

  -- The addresses of the nodes.
  abbrev pub addresses : List (ℕ × A) → List ℕ
  addresses [] = []
  addresses (x ∷ xs) = x.0 ∷ addresses xs

  abbrev pub last_of : ℕ → List (ℕ × A) → ℕ
  last_of a [] = a
  last_of a (x ∷ xs) = last_of x.0 xs

  -- The address of the last node.
  abbrev pub last : List (ℕ × A) → Option ℕ
  last [] = none
  last (x ∷ xs) = some (last_of x.0 xs)
