-- ===== src/Sock.antt =====
-- sys/tdi_fw/src/sock.c and sock.h: the byte order of ports and addresses, and protocol numbers.
use adfilter.Prelude.{ℕ, ◌+◌, ◌*◌, ◌/◌, ◌%◌, ◌^◌, ◌<◌, ◌≡◌, arith}

-- A u_short and a u_long with their bytes in the reverse order.
unfoldable pub ntohs : ℕ → ℕ
ntohs n = n % 256 * 256 + n / 256 % 256

unfoldable pub ntohl : ℕ → ℕ
ntohl n = n % 256 * 2 ^ 24 + n / 256 % 256 * 2 ^ 16 + n / 2 ^ 16 % 256 * 256 + n / 2 ^ 24 % 256

abbrev pub ipproto_ip : ℕ
ipproto_ip = 0

abbrev pub ipproto_tcp : ℕ
ipproto_tcp = 6

abbrev pub ipproto_udp : ℕ
ipproto_udp = 17

-- The two functions undo themselves on every 16-bit and 32-bit number, and stay in that range.
ntohs-ntohl_involutive :
    (s l : ℕ)
    → s < 2 ^ 16
    → l < 2 ^ 32
    → (ntohs (ntohs s) ≡ s) × (ntohs s < 2 ^ 16) × (ntohl (ntohl l) ≡ l) × (ntohl l < 2 ^ 32)
unfolding ntohs ntohl
ntohs-ntohl_involutive s l h k = omega arith
