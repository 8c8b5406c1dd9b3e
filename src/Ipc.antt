-- ===== src/Ipc.antt =====
-- sys/tdi_fw/src/ipc.h: requests, rules and their codes. An `int` that holds -1 is its bit pattern.
use adfilter.Prelude.{ℕ, ◌+◌, ◌-◌, ◌*◌, ◌^◌, ◌∷◌, Option, none, some, Bytes}
use adfilter.Pool.{Block}

abbrev pub ulong_max : ℕ
ulong_max = 2 ^ 32 - 1

abbrev pub direction_in : ℕ
direction_in = 0

abbrev pub direction_out : ℕ
direction_out = 1

abbrev pub direction_any : ℕ
direction_any = ulong_max

abbrev pub filter_allow : ℕ
filter_allow = 1

abbrev pub filter_deny : ℕ
filter_deny = 2

abbrev pub filter_disconnect : ℕ
filter_disconnect = 5

abbrev pub type_datagram : ℕ
type_datagram = 2

abbrev pub type_resolve_pid : ℕ
type_resolve_pid = 3

abbrev pub type_process_create : ℕ
type_process_create = 11

abbrev pub type_process_terminate : ℕ
type_process_terminate = 12

-- struct sockaddr_in: address and port in network order.
pub record SockAddr : Type 0 where
  pub sin_family : ℕ
  pub sin_port : ℕ
  pub sin_addr : ℕ

-- struct flt_request, without the fields of the packet engine. `pname` and `sid_a` are blocks
-- that the request owns; the pointer inside of the latter is kept as an offset.
pub record FltRequest : Type 0 where
  pub struct_size : ℕ
  pub kind : ℕ
  pub status : ℕ
  pub result : ℕ
  pub direction : ℕ
  pub proto : ℕ
  pub pid : ℕ
  pub sid_a_size : ℕ
  pub from : SockAddr
  pub to : SockAddr
  pub addr_len : ℕ
  pub log_skipped : ℕ
  pub log_bytes_in : ℕ
  pub log_bytes_out : ℕ
  pub log_rule_id : Bytes
  pub pname : Option Block
  pub sid_a : Option Block

-- struct flt_rule; `chain` shares its place with the pointer `next`, and is 0 in a rule of a chain.
pub record FltRule : Type 0 where
  pub chain : ℕ
  pub result : ℕ
  pub proto : ℕ
  pub direction : ℕ
  pub addr_from : ℕ
  pub mask_from : ℕ
  pub port_from : ℕ
  pub port2_from : ℕ
  pub addr_to : ℕ
  pub mask_to : ℕ
  pub port_to : ℕ
  pub port2_to : ℕ
  pub log : ℕ
  pub sid_mask : Bytes
  pub rule_id : Bytes

abbrev pub max_chains_count : ℕ
max_chains_count = 128

abbrev pub max_sids_count : ℕ
max_sids_count = 128

abbrev pub rule_log_log : ℕ
rule_log_log = 1

abbrev pub ipproto_any : ℕ
ipproto_any = ulong_max

-- *(ULONG *)buf, in little-endian order; `none` is an access behind the buffer.
unfoldable pub read_ulong : Bytes → Option ℕ
read_ulong (a ∷ b ∷ c ∷ d ∷ rest) = some (a + b * 2 ^ 8 + c * 2 ^ 16 + d * 2 ^ 24)
read_ulong _ = none

unfoldable pub read_ushort : Bytes → Option ℕ
read_ushort (a ∷ b ∷ rest) = some (a + b * 2 ^ 8)
read_ushort _ = none
