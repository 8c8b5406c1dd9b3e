-- ===== src/Tests/Startup.antt =====
-- Loading a file, start and stop.
use adfilter.Prelude.{◌≡◌, refl, All, List, [], ◌∷◌, none, some, Bool, true, false, arith, Bytes}
use adfilter.Pool.{Pool}
use adfilter.Config.{Registry}
use adfilter.Config.Rounds.{text, IsHostLine}
use adfilter.Config.RoundTrip.{read_at}
use adfilter.Driver.{Driver, Answers, tdifw_driver_entry}
use adfilter.Driver.Entry.{
  missing, unopened, lines, IsHostRegistry, emptied, Started, tdifw_driver_entry-Started,
}
use adfilter.Tests.Requests.{adf_two}

-- "ab", "c" and a last line "d".
abbrev two_lines : List Bytes
two_lines = (97 ∷ 98 ∷ []) ∷ (99 ∷ []) ∷ []

abbrev last_line : Bytes
last_line = 100 ∷ []

abbrev fresh : Pool
fresh = record { live = []; replies = some 1 ∷ some 2 ∷ some 3 ∷ none ∷ [] }

two_lines-IsHostLine : All IsHostLine two_lines
two_lines-IsHostLine = ground arith

-- A driver that is not there, and a kernel that does as it is asked.
abbrev stopped : Driver
stopped = record { adf = emptied adf_two; device_exists = false; link_exists = false }

abbrev willing : Answers
willing = record { created = true; object = 9; registered = true; linked = true }

abbrev registry : Registry
registry = record {
  pause = some 0;
  except_file = none;
  user_file = some none;
  sys_file = some (some (read_at (text two_lines last_line)));
}

registry-IsHostRegistry : IsHostRegistry 3 registry
registry-IsHostRegistry = record {
  excepts = missing;
  users = unopened;
  system =
      lines two_lines last_line (read_at (text two_lines last_line)) (λ _. refl) (omega arith)
        two_lines-IsHostLine (ground arith) (omega arith);
}

tdifw_driver_entry-Started_example :
    (b : Bool) × (d : Driver) × (q : Pool) × (tdifw_driver_entry 3 true registry willing stopped
        fresh
      ≡ some ((b, d), q))
    × Started 3 registry fresh [] willing b d q
tdifw_driver_entry-Started_example =
    tdifw_driver_entry-Started 3 registry willing stopped fresh [] registry-IsHostRegistry refl
      (λ _. refl)

abbrev running : Driver
running = record { adf = adf_two; device_exists = true; link_exists = true }
