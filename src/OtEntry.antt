-- ===== src/OtEntry.antt =====
-- sys/tdi_fw/src/obj_tbl.h and the search of obj_tbl.c: the entry of a file object. A chain of the
-- hash table is the list of its entries in the order of `next`, and the table a function of the
-- hash. A pointer of the kernel that is only compared is a number, 0 for NULL.
pub mod Find
use adfilter.Prelude.{
  ℕ, ◌/◌, ◌%◌, ◌^◌, List, [], ◌∷◌, Option, none, some, Bool, ◌==◌, if◌then◌else◌,
}
use adfilter.Pool.{Block}
use adfilter.Ipc.{SockAddr}
use adfilter.Listen.{Entry}

abbrev pub fileobj_addrobj : ℕ
fileobj_addrobj = 1

abbrev pub fileobj_connobj : ℕ
fileobj_connobj = 2

-- TDI_EVENT_CONTEXT
pub record EventContext : Type 0 where
  pub fileobj : ℕ
  pub old_handler : ℕ
  pub old_context : ℕ

-- struct ot_entry, at its address; the events are a function of the index, the addresses stand beside
-- their AddressLength, and `conn_entry` is the address of a struct conn_entry.
pub record OtEntry : Type 0 where
  pub at : ℕ
  pub pid : ℕ
  pub sid_a : Option Block
  pub sid_a_size : ℕ
  pub devobj : ℕ
  pub fileobj : ℕ
  pub associated_fileobj : ℕ
  pub kind : ℕ
  pub ipproto : ℕ
  pub ctx : ℕ → EventContext
  pub local_addr : SockAddr
  pub remote_addr : SockAddr
  pub local_length : ℕ
  pub remote_length : ℕ
  pub conn_ctx : ℕ
  pub listen_entry : Option Entry
  pub conn_entry : Option ℕ
  pub bytes_out : ℕ
  pub bytes_in : ℕ
  pub log_disconnect : Bool

abbrev pub Objects : Type 0
Objects = ℕ → List OtEntry

abbrev pub hash_size : ℕ
hash_size = 0x1000

-- CALC_HASH
abbrev pub calc_hash : ℕ → ℕ
calc_hash fileobj = fileobj % 2 ^ 32 / 2 ^ 5 % hash_size

unfoldable pub find_ote : ℕ → List OtEntry → Option OtEntry
find_ote fileobj [] = none
find_ote fileobj (ote ∷ more) =
    let rest = find_ote fileobj more in if ote.fileobj == fileobj then some ote else rest

unfoldable pub ot_find_fileobj : ℕ → Objects → Option OtEntry
ot_find_fileobj fileobj t = if fileobj == 0 then none else find_ote fileobj (t (calc_hash fileobj))

abbrev pub update : ℕ → List OtEntry → Objects → Objects
update h otes t j = if j == h then otes else t j

-- What the code writes through the pointer that the search gave.
unfoldable pub write_ote : ℕ → (OtEntry → OtEntry) → List OtEntry → List OtEntry
write_ote fileobj f [] = []
write_ote fileobj f (ote ∷ more) =
    let rest = write_ote fileobj f more in
    if ote.fileobj == fileobj then f ote ∷ more else ote ∷ rest

unfoldable pub write_object : ℕ → (OtEntry → OtEntry) → Objects → Objects
write_object fileobj f t =
    update (calc_hash fileobj) (write_ote fileobj f (t (calc_hash fileobj))) t
