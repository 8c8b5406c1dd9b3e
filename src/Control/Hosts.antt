-- ===== src/Control/Hosts.antt =====
-- What the requests of sys/adfilter/dispatch.c do to the host lists.
use adfilter.Prelude.{
  All, ℕ, zero, suc, if◌then◌else◌, ◌+◌, ◌*◌, ◌^◌, ◌≤◌, ◌≡◌, ◌==◌, ◌⊎◌, List, [], ◌∷◌, ◌++◌, Option,
  none, some, length, take, Bytes,
}
use adfilter.Pool.{Pool, Owns}
use adfilter.HostList.{Host}
use adfilter.HostList.Lookup.{IsHost, names}
use adfilter.HostList.Memory.{blocks}
use adfilter.HostList.Edit.{erase_name}
use adfilter.Filter.{Adf}
use adfilter.Control.{
  IoControlCode, get_pause, set_pause, add_user_host, del_user_host, add_except_host,
  del_except_host, unknown, Irp, Reply, adf_host_max_len, strnlen_in, reply,
}
use adfilter.Control.Invariant.{IsDriver, IsHostText}

-- The host name that a request carries.
abbrev pub measured : Bytes → Option ℕ → Bytes
measured b none = []
measured b (some n) = take n b

abbrev pub host_text : Bytes → Bytes
host_text b = measured b (strnlen_in adf_host_max_len b)

module _ (irp : Irp) (b : Bytes) (hs : List Host) (p : Pool) (rest : List ℕ) where
  abbrev Edits : (Bytes → List Bytes → List Bytes → Type 0) → Option (List Host × Pool) → Type 0
  Edits P r =
      (hs' : List Host) × (q : Pool) × (r ≡ some (hs', q))
      × P (host_text b) (names hs) (names hs')
      × All IsHost hs'
      × Owns q (blocks hs' ++ rest)

-- What a caller of the control device can know of the driver.
pub record View : Type 0 where
  pub paused : ℕ
  pub user : List Bytes
  pub excpt : List Bytes
  pub sys : List Bytes

abbrev pub view : Adf → View
view adf = record {
  paused = adf.paused;
  user = names adf.user;
  excpt = names adf.excpt;
  sys = names adf.sys;
}

-- The byte at an offset, and the number of the first four bytes, the lowest one first.
abbrev pub byte : ℕ → Bytes → ℕ
byte i [] = 0
byte zero (c ∷ cs) = c
byte (suc i) (c ∷ cs) = byte i cs

abbrev pub ulong : Bytes → ℕ
ulong b = byte 0 b + byte 1 b * 2 ^ 8 + byte 2 b * 2 ^ 16 + byte 3 b * 2 ^ 24

-- What a request does, by its code, its input length and its buffer. The pause becomes the number in
-- the buffer, unless the input is empty; an addition of a name may fail for want of memory, and then
-- changes nothing; a removal takes out the newest entry of the name.
abbrev pub Effect : IoControlCode → ℕ → Bytes → View → View → Type 0
Effect get_pause inlen b v w = w ≡ v
Effect set_pause inlen b v w = w ≡ (if inlen == 0 then v else record v { paused = ulong b })
Effect add_user_host inlen b v w = (w ≡ v) ⊎ (w ≡ record v { user = host_text b ∷ v.user })
Effect del_user_host inlen b v w = w ≡ record v { user = erase_name (host_text b) v.user }
Effect add_except_host inlen b v w = (w ≡ v) ⊎ (w ≡ record v { excpt = host_text b ∷ v.excpt })
Effect del_except_host inlen b v w = w ≡ record v { excpt = erase_name (host_text b) v.excpt }
Effect (unknown n) inlen b v w = w ≡ v

-- What a buffer must hold for a request not to leave it.
abbrev pub IsSafe : IoControlCode → Bytes → Type 0
IsSafe get_pause b = 4 ≤ length b
IsSafe set_pause b = 4 ≤ length b
IsSafe (unknown n) b = Unit {0}
IsSafe _ b = IsHostText b

module _ (adf : Adf) (p : Pool) (rest : List ℕ) (b : Bytes) (inlen outlen : ℕ) where
  abbrev Refines : IoControlCode → Option ((Reply × Adf) × Pool) → Type 0
  Refines code r =
      (reply : Reply) × (adf' : Adf) × (q : Pool) × (r ≡ some ((reply, adf'), q))
      × Effect code inlen b (view adf) (view adf')
      × IsDriver adf' q rest

  abbrev request : IoControlCode → Irp
  request code = record { code = code; buffer = some b; inlen = inlen; outlen = outlen }
