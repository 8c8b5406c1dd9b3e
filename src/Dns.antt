-- ===== src/Dns.antt =====
-- fmt_dns_msg of sys/adfilter/filter.c: the host name that a DNS query asks for, as text.
pub mod Query
pub mod Safety
use adfilter.Prelude.{
  ℕ, zero, suc, ◌+◌, ◌-◌, List, [], ◌∷◌, ◌++◌, Option, none, some, Bool, ◌||◌, ltb, leb, ◌==◌,
  if◌then◌else◌, length, drop, replicate, Bytes,
}

-- sizeof dns_buffer
abbrev pub dns_buffer_size : ℕ
dns_buffer_size = 1024

-- A `char` is signed, so a byte from 128 on is below '0' as well.
unfoldable pub fmt_char : ℕ → ℕ
fmt_char c = if ltb c b'0' || leb 128 c then b'.' else c

abbrev pub store : ℕ → ℕ → Option Bytes → Option Bytes
store i c none = none
store i c (some r) = if ltb i dns_buffer_size then some (c ∷ r) else none

-- The loop from round `i` on, with `n` rounds left; `msg` are the bytes from `data + i + 13` on.
-- The result is what is stored from `dns_buffer + i` on; `none` is an access outside of the
-- datagram or of dns_buffer.
unfoldable pub fmt_loop : ℕ → ℕ → Bytes → Option Bytes
unfolding fmt_char
fmt_loop zero i msg = some []
fmt_loop (suc n) i [] = none
fmt_loop (suc n) i (c ∷ cs) =
    let rest = fmt_loop n (i + 1) cs in if c == 0 then some [] else store i (fmt_char c) rest

abbrev pub zero_fill : Option Bytes → Option Bytes
zero_fill none = none
zero_fill (some s) = some (s ++ replicate (dns_buffer_size - length s) 0)

-- The contents of dns_buffer after the call; `msg` is the whole datagram.
unfoldable pub fmt_dns_msg : Bytes → ℕ → Option Bytes
unfolding fmt_loop
fmt_dns_msg msg len = zero_fill (fmt_loop len 0 (drop 13 msg))
