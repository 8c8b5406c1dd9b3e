-- ===== src/Control.antt =====
-- sys/adfilter/dispatch.c: the requests of the control device. The action is on the pool; its
-- `none` is a bug check, or an access outside of the system buffer.
pub mod Invariant
pub mod Hosts
pub mod Pause
use adfilter.Prelude.{
  ℕ, ◌+◌, ◌*◌, ◌/◌, ◌%◌, ◌^◌, List, [], ◌∷◌, ◌++◌, Option, none, some, Bool, true, false, not, ◌||◌,
  ◌==◌, leb, if◌then◌else◌, length, take, drop, Bytes, c_text,
}
use adfilter.Pool.{Pool, M, pure, ◌>>=◌}
use adfilter.HostList.{Host, add_host_list, remove_host_list}
use adfilter.Filter.{Adf}

-- NTSTATUS
pub data Status : Type 0 where
  success invalid_parameter unsuccessful : Status

pub data IoControlCode : Type 0 where
  get_pause set_pause : IoControlCode
  add_user_host del_user_host add_except_host del_except_host : IoControlCode
  unknown : ℕ → IoControlCode

-- The IRP of a control request. `buffer` is SystemBuffer with its bytes, or NULL.
pub record Irp : Type 0 where
  pub code : IoControlCode
  pub buffer : Option Bytes
  pub inlen : ℕ
  pub outlen : ℕ

-- What the caller gets back: the status, IoStatus.Information, and the system buffer.
pub record Reply : Type 0 where
  pub status : Status
  pub information : ℕ
  pub buffer : Option Bytes

abbrev pub adf_host_max_len : ℕ
adf_host_max_len = 128

-- *(bool *)buff, where `bool` is unsigned long, in little-endian order.
unfoldable pub read_bool : Bytes → Option ℕ
read_bool (a ∷ b ∷ c ∷ d ∷ rest) = some (a + b * 2 ^ 8 + c * 2 ^ 16 + d * 2 ^ 24)
read_bool _ = none

pub bool_bytes : ℕ → Bytes
bool_bytes n = n % 256 ∷ n / 2 ^ 8 % 256 ∷ n / 2 ^ 16 % 256 ∷ n / 2 ^ 24 % 256 ∷ []

unfoldable pub write_bool : ℕ → Bytes → Option Bytes
unfolding bool_bytes
write_bool n (a ∷ b ∷ c ∷ d ∷ rest) = some (bool_bytes n ++ rest)
write_bool n _ = none

-- strnlen(buff, max) on a buffer: it must find a NUL or `max` bytes.
unfoldable pub strnlen_in : ℕ → Bytes → Option ℕ
strnlen_in max b = elim (c_text (take max b)) [
  | some s ↦ some (length s)
  | none ↦ if leb max (length b) then some max else none
]

-- A result that is missing is a fault.
abbrev pub need {ℓ} : {A : Type ℓ} → Option A → M A
need none p = none
need (some a) p = some (a, p)

abbrev pub reply : Irp → Status → Reply
reply irp s = record { status = s; information = 0; buffer = irp.buffer }

set_pause_case : Adf → Irp → M (Reply × Adf)
set_pause_case adf irp = elim irp.buffer [
  | none ↦ pure (reply irp invalid_parameter, adf)
  | some b ↦
      if irp.inlen == 0
      then pure (reply irp invalid_parameter, adf)
      else (do value ← need (read_bool b); pure (reply irp success, record adf { paused = value }))
]

get_pause_case : Adf → Irp → M (Reply × Adf)
get_pause_case adf irp = elim irp.buffer [
  | none ↦ pure (reply irp invalid_parameter, adf)
  | some b ↦ if irp.outlen == 0 then pure (reply irp invalid_parameter, adf) else (do
    b' ← need (write_bool adf.paused b)
    pure (record { status = success; information = 4; buffer = some b' }, adf))
]

-- strnlen(NULL) faults; what addHostList and removeHostList answer is only printed.
pub host_case : (List Host → Bytes → ℕ → M (Bool × List Host)) → List Host → Irp → M (List Host)
host_case edit header irp = do
  buff ← need irp.buffer
  bufflen ← need (strnlen_in adf_host_max_len buff)
  (_, header') ← edit header buff bufflen
  pure header'

unfoldable pub device_control : Adf → Irp → M (Reply × Adf)
unfolding set_pause_case get_pause_case host_case
device_control adf irp = elim irp.code [
  | set_pause ↦ set_pause_case adf irp
  | get_pause ↦ get_pause_case adf irp
  | add_user_host ↦ do
    l ← host_case add_host_list adf.user irp
    pure (reply irp success, record adf { user = l })
  | del_user_host ↦ do
    l ← host_case remove_host_list adf.user irp
    pure (reply irp success, record adf { user = l })
  | add_except_host ↦ do
    l ← host_case add_host_list adf.excpt irp
    pure (reply irp success, record adf { excpt = l })
  | del_except_host ↦ do
    l ← host_case remove_host_list adf.excpt irp
    pure (reply irp success, record adf { excpt = l })
  | unknown n ↦ pure (reply irp success, adf)
]

pub data MajorFunction : Type 0 where
  create close device_control_request : MajorFunction
  other : ℕ → MajorFunction

-- A missing IRP or another device is refused before anything is looked at.
unfoldable pub tdifw_user_device_dispatch :
    Adf → ℕ → MajorFunction → Option Irp → M (Status × Option Reply × Adf)
tdifw_user_device_dispatch adf device major none = pure (unsuccessful, none, adf)
tdifw_user_device_dispatch adf device major (some irp) =
    if device == adf.device
    then (elim major [
      | device_control_request ↦ do
        (r, adf') ← device_control adf irp
        pure (r.status, some r, adf')
      | _ ↦ pure (success, some (reply irp success), adf)
    ])
    else pure (unsuccessful, none, adf)
