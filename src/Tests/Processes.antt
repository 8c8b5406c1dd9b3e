-- ===== src/Tests/Processes.antt =====
-- Two processes: 10 with the name "ab" and 20 with none.
use adfilter.Prelude.{ℕ, ◌≡◌, refl, [], ◌∷◌, Option, none, some, false, arith}
use adfilter.Pool.{Pool}
use adfilter.Process.{Ple, Plist, Status, process_notify_proc, pid_pname_set}
use adfilter.Process.Invariant.{IsPlist}
use adfilter.Process.Search.{entry_of}
use adfilter.Process.Names.{IsPnameSet, pid_pname_set_lem}
use adfilter.Process.Exit.{erase_pid, process_notify_proc-erase_pid}

abbrev named : Ple
named = record {
  pid = 10;
  pname = some (record { at = 2; bytes = 97 ∷ 98 ∷ [] });
  pname_event = none;
  context = 1;
}

abbrev unnamed : Ple
unnamed = record { pid = 20; pname = none; pname_event = some 7; context = 0 }

abbrev pub two : Plist
two = record { nodes = (1, named) ∷ (3, unnamed) ∷ []; tail = some 3 }

abbrev pub two_live : Pool
two_live = record { live = 3 ∷ 2 ∷ 1 ∷ []; replies = some 4 ∷ some 5 ∷ none ∷ [] }

pub two-IsPlist : IsPlist two two_live []
two-IsPlist = record {
  linked = record { distinct = ground arith; at_end = refl };
  owned = λ b. omega arith;
}

process_notify_proc-erase_pid_example :
    (l : Plist) × (q : Pool) × (process_notify_proc 10 false two two_live ≡ some (l, q))
    × (l.nodes ≡ erase_pid 10 two.nodes)
    × IsPlist l q []
process_notify_proc-erase_pid_example = process_notify_proc-erase_pid 10 two two_live [] two-IsPlist

pid_pname_set_lem_example :
    (st : Status) × (event : Option ℕ) × (l : Plist) × (q : Pool) × (pid_pname_set 20
        (99 ∷ [])
        5
        two
        two_live
      ≡ some ((st, event, l), q))
    × IsPlist l q []
    × (entry_of 10 l ≡ entry_of 10 two)
    × IsPnameSet 20 (99 ∷ []) 5 256 two st l
pid_pname_set_lem_example =
    pid_pname_set_lem 20 (99 ∷ []) 5 256 10 two two_live [] two-IsPlist refl (omega arith)
      (ground arith)
