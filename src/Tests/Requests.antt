-- ===== src/Tests/Requests.antt =====
-- Requests of the control device.
use adfilter.Prelude.{ℕ, ◌≡◌, [], ◌∷◌, Option, none, some, true, Bytes}
use adfilter.Pool.{Pool}
use adfilter.Filter.{Adf}
use adfilter.Control.{
  get_pause, set_pause, add_except_host, Irp, Reply, reply, success, device_control, read_bool,
}
use adfilter.Control.Invariant.{IsDriver}
use adfilter.Control.Hosts.{Effect, view}
use adfilter.Tests.Hosts.{two_hosts, two_pool}

abbrev pub adf_two : Adf
adf_two = record {
  paused = 0;
  device = 7;
  sys = [];
  user = two_hosts;
  excpt = [];
  need_check = true;
}

abbrev add_x : Irp
add_x = record { code = add_except_host; buffer = some (120 ∷ 0 ∷ []); inlen = 2; outlen = 0 }

abbrev RefinesAddX : Option ((Reply × Adf) × Pool) → Type 0
RefinesAddX r =
    (rep : Reply) × (adf : Adf) × (q : Pool) × (r ≡ some ((rep, adf), q))
    × Effect add_x.code add_x.inlen (120 ∷ 0 ∷ []) (view adf_two) (view adf)
    × IsDriver adf q []

abbrev word : Bytes
word = 1 ∷ 0 ∷ 0 ∷ 0 ∷ []

abbrev RoundTrip : Type 0
RoundTrip =
    let set : Irp = record { code = set_pause; buffer = some word; inlen = 4; outlen = 0 } in
    let get : Irp = record { code = get_pause; buffer = some word; inlen = 0; outlen = 4 } in
    (n : ℕ) × (out : Bytes) × (read_bool word ≡ some n)
    × (device_control adf_two set two_pool
        ≡ some ((reply set success, record adf_two { paused = n }), two_pool))
    × (device_control (record adf_two { paused = n }) get two_pool
        ≡ some (
          (
            record { status = success; information = 4; buffer = some out },
            record adf_two { paused = n },
          ),
          two_pool,
        ))
    × (read_bool out ≡ some n)

abbrev bare : Irp
bare = record { code = set_pause; buffer = none; inlen = 4; outlen = 0 }
