-- ===== src/Control/Pause.antt =====
-- The pause requests of sys/adfilter/dispatch.c, and requests without a system buffer.
use adfilter.Prelude.{
  ℕ, ◌+◌, ◌*◌, ◌^◌, ◌≤◌, ◌<◌, ◌≡◌, refl, [], ◌∷◌, ◌++◌, Option, none, some, arith, length, Bytes,
  ◌≢◌,
}
use adfilter.Pool.{Pool}
use adfilter.Filter.{Adf}
use adfilter.Control.{
  IoControlCode, get_pause, set_pause, unknown, Irp, Reply, reply, success, invalid_parameter,
  device_control, read_bool, write_bool, bool_bytes,
}

-- Four bytes that are read as a number and written back give the same four bytes.
write-read :
    (a b c d : ℕ) (rest out : Bytes)
    → a < 256
    → b < 256
    → c < 256
    → d < 256
    → 4 ≤ length out
    → (n : ℕ) × (out' : Bytes) × (read_bool (a ∷ b ∷ c ∷ d ∷ rest) ≡ some n)
      × (write_bool n out ≡ some out')
      × (read_bool out' ≡ some n)
unfolding read_bool write_bool bool_bytes
write-read a b c d rest (x ∷ y ∷ z ∷ w ∷ out) ha hb hc hd h = (
  a + b * 2 ^ 8 + c * 2 ^ 16 + d * 2 ^ 24,
  bool_bytes (a + b * 2 ^ 8 + c * 2 ^ 16 + d * 2 ^ 24) ++ out,
  refl,
  refl,
  ground arith,
)
write-read a b c d rest [] ha hb hc hd h = absurd (omega arith)
write-read a b c d rest (x ∷ []) ha hb hc hd h = absurd (omega arith)
write-read a b c d rest (x ∷ y ∷ []) ha hb hc hd h = absurd (omega arith)
write-read a b c d rest (x ∷ y ∷ z ∷ []) ha hb hc hd h = absurd (omega arith)

-- What a caller sets is what a later caller gets, whatever word of four bytes it sends, and the
-- host lists and the pool are left alone; either call needs room for four bytes, although it only
-- tests that its length is not zero.
set-get_pause :
    (adf : Adf) (p : Pool) (a b c d : ℕ) (rest out : Bytes) (inlen outlen inlen' outlen' : ℕ)
    → a < 256
    → b < 256
    → c < 256
    → d < 256
    → 4 ≤ length out
    → inlen ≢ 0
    → outlen' ≢ 0
    → (let word = a ∷ b ∷ c ∷ d ∷ rest in
        let set : Irp = record {
          code = set_pause;
          buffer = some word;
          inlen = inlen;
          outlen = outlen;
        } in
        let get : Irp = record {
          code = get_pause;
          buffer = some out;
          inlen = inlen';
          outlen = outlen';
        } in
        (n : ℕ) × (out' : Bytes) × (read_bool word ≡ some n)
        × (device_control adf set p ≡ some ((reply set success, record adf { paused = n }), p))
        × (device_control (record adf { paused = n }) get p
            ≡ some (
              (
                record { status = success; information = 4; buffer = some out' },
                record adf { paused = n },
              ),
              p,
            ))
        × (read_bool out' ≡ some n))
unfolding device_control
set-get_pause adf p a b c d rest out inlen outlen inlen' outlen' ha hb hc hd h i o =
    let (n, out', r, w, r') = write-read a b c d rest out ha hb hc hd h in
    (n, out', r, ground (arith, r), ground (arith, w), r')

-- The outcome of a request without a system buffer.
abbrev pub unbuffered : IoControlCode → Adf → Irp → Pool → Option ((Reply × Adf) × Pool)
unbuffered get_pause adf irp p = some ((reply irp invalid_parameter, adf), p)
unbuffered set_pause adf irp p = some ((reply irp invalid_parameter, adf), p)
unbuffered (unknown n) adf irp p = some ((reply irp success, adf), p)
unbuffered _ adf irp p = none

-- Without a system buffer the pause requests are refused, an unknown request succeeds, both with no
-- change, and the four host requests fault: they pass NULL to strnlen.
device_control-unbuffered :
    (adf : Adf) (irp : Irp) (p : Pool)
    → irp.buffer ≡ none
    → device_control adf irp p ≡ unbuffered irp.code adf irp p
unfolding device_control
device_control-unbuffered adf irp p e = ground arith
