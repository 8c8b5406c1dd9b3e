-- ===== src/Driver/Entry.antt =====
-- What is left in memory and in the kernel after the driver's start and stop.
use adfilter.Prelude.{
  All, ℕ, ◌^◌, ◌<◌, ◌≡◌, refl, ◌⊎◌, inl, inr, List, [], ◌++◌, Option, none, some, Bool, true, false,
  arith, length, Bytes, Bool-cases,
}
use mathlib.Core.Option.{get_or}
use adfilter.Pool.{Pool, Owns, count-append}
use adfilter.HostList.{Host}
use adfilter.HostList.Lookup.{IsHost}
use adfilter.HostList.Memory.{blocks}
use adfilter.HostList.Edit.{clear_host_list_lem}
use adfilter.Filter.{Adf}
use adfilter.Config.{
  Registry, File, LoadStatus, ok_status, load_file, load_optional, load_sys, load_cfg, unload_cfg,
}
use adfilter.Config.Rounds.{text, IsHostLine}
use adfilter.Config.RoundTrip.{read_at, closing, Loads, load_file-text}
use adfilter.Control.Invariant.{IsDriver}
use adfilter.Driver.{
  Answers, Driver, create_device, delete_device, tdifw_driver_entry, tdifw_driver_unload,
}

-- A path that is missing, a file that cannot be opened, or a file of host lines, few enough for the
-- fuel.
pub data IsHostFile (fuel : ℕ) : Option File → Type 0 where
  missing : IsHostFile fuel none
  unopened : IsHostFile fuel (some none)
  lines :
      (ls : List Bytes) (last : Bytes) (read : ℕ → Option Bytes)
      → ((o : ℕ) → read o ≡ read_at (text ls last) o)
      → length (text ls last) < 2 ^ 32
      → All IsHostLine ls
      → IsHostLine last
      → length ls < fuel
      → IsHostFile fuel (some (some read))

-- A list that is well formed and has its blocks accounted for.
abbrev Filled : List ℕ → List Host → Pool → Type 0
Filled rest hs q = All IsHost hs × Owns q (blocks hs ++ rest)

-- What becomes of the file of a path, with the pool before and after: nothing where it is missing or
-- cannot be opened, and otherwise what load_file makes of it, which is its lines, or some first ones.
pub data IsLoaded (fuel : ℕ) (p : Pool) (hs : List Host) (q : Pool) : Option File → Type 0 where
  absent : hs ≡ [] → q ≡ p → IsLoaded fuel p hs q none
  closed : hs ≡ [] → q ≡ p → IsLoaded fuel p hs q (some none)
  loaded :
      (ls : List Bytes) (last : Bytes) (read : ℕ → Option Bytes) (status : LoadStatus)
      (rest : List ℕ)
      → ((o : ℕ) → read o ≡ read_at (text ls last) o)
      → load_file fuel true (some read) [] p ≡ some ((status, hs), q)
      → Loads (ls ++ closing last) [] rest (load_file fuel true (some read) [] p)
      → IsLoaded fuel p hs q (some (some read))

Loads-Filled :
    (ls ns : List Bytes) (rest : List ℕ) (r : Option ((LoadStatus × List Host) × Pool))
    → Loads ls ns rest r
    → (s : LoadStatus) × (hs : List Host) × (q : Pool) × (r ≡ some ((s, hs), q)) × Filled rest hs q
Loads-Filled ls ns rest r (inl (hs, q, e, (n, w, o))) = (LoadStatus.success, hs, q, e, (w, o))
Loads-Filled ls ns rest r (inr (_, _, hs, q, _, e, (n, w, o))) =
    (LoadStatus.memory_not_allocated, hs, q, e, (w, o))

load_file-unopened :
    (fuel : ℕ) (p : Pool) → load_file fuel true none [] p ≡ some ((LoadStatus.open_failed, []), p)
unfolding load_file
load_file-unopened fuel p = refl

module _ (fuel : ℕ) (rest : List ℕ) (p : Pool) (own : Owns p rest) where
  load_optional-IsLoaded :
      (f : Option File)
      → IsHostFile fuel f
      → (hs : List Host) × (q : Pool) × (load_optional fuel true f [] p ≡ some (hs, q))
        × IsLoaded fuel p hs q f
        × Filled rest hs q
  unfolding load_optional
  load_optional-IsLoaded f missing = ([], p, refl, absent refl refl, (tt, own))
  load_optional-IsLoaded f unopened =
      let e = load_file-unopened fuel p in ([], p, ground (arith, e), closed refl refl, (tt, own))
  load_optional-IsLoaded f (lines ls last read r s ws w l) =
      let run = load_file-text read ls last fuel [] [] rest p r s ws w l (refl, tt, own) in
      let (st, hs, q, e, v) = Loads-Filled _ _ _ _ run in
      (hs, q, ground (arith, e), loaded ls last read st rest r e run, v)

  load_sys-IsLoaded :
      (f : Option File)
      → IsHostFile fuel f
      → (b : Bool) × (hs : List Host) × (q : Pool) × (load_sys fuel true f [] p ≡ some ((b, hs), q))
        × IsLoaded fuel p hs q f
        × Filled rest hs q
  unfolding load_sys
  load_sys-IsLoaded f missing = (false, [], p, refl, absent refl refl, (tt, own))
  load_sys-IsLoaded f unopened =
      let e = load_file-unopened fuel p in
      (false, [], p, ground (arith, e), closed refl refl, (tt, own))
  load_sys-IsLoaded f (lines ls last read r s ws w l) =
      let run = load_file-text read ls last fuel [] [] rest p r s ws w l (refl, tt, own) in
      let (st, hs, q, e, v) = Loads-Filled _ _ _ _ run in
      (ok_status st, hs, q, ground (arith, e), loaded ls last read st rest r e run, v)

-- The blocks of three lists in another order.
Owns-rotate :
    (p : Pool) (a b c rest : List ℕ)
    → Owns p (a ++ (b ++ (c ++ rest)))
    → Owns p (c ++ (a ++ (b ++ rest)))
Owns-rotate p a b c rest o x = omega (
  arith,
  o x,
  count-append x a (b ++ (c ++ rest)),
  count-append x b (c ++ rest),
  count-append x c rest,
  count-append x c (a ++ (b ++ rest)),
  count-append x a (b ++ rest),
  count-append x b rest,
)

abbrev pub emptied : Adf → Adf
emptied adf = record adf { sys = []; user = []; excpt = [] }

unload_cfg_lem :
    (adf : Adf) (p : Pool) (rest : List ℕ)
    → IsDriver adf p rest
    → (q : Pool) × (unload_cfg adf p ≡ some (emptied adf, q)) × Owns q rest
unfolding unload_cfg
unload_cfg_lem adf p rest d =
    let u = blocks adf.user in
    let x = blocks adf.excpt in
    let (q, e, o) =
      clear_host_list_lem adf.sys p (u ++ (x ++ rest))
        (Owns-rotate p u x (blocks adf.sys) rest d.owned) in
    let (r, f, o') = clear_host_list_lem adf.user q (x ++ rest) o in
    let (t, g, o'') = clear_host_list_lem adf.excpt r rest o' in (t, ground (arith, e, f, g), o'')

-- A registry whose three paths are host files, if they are there.
pub record IsHostRegistry (fuel : ℕ) (reg : Registry) : Type 0 where
  pub excepts : IsHostFile fuel reg.except_file
  pub users : IsHostFile fuel reg.user_file
  pub system : IsHostFile fuel reg.sys_file

-- The three lists are what their three files give, read one after the other.
pub record IsConfigured (fuel : ℕ) (reg : Registry) (p q : Pool) (adf : Adf) : Type 0 where
  pub after_excepts : Pool
  pub after_users : Pool
  pub excepts : IsLoaded fuel p adf.excpt after_excepts reg.except_file
  pub users : IsLoaded fuel after_excepts adf.user after_users reg.user_file
  pub system : IsLoaded fuel after_users adf.sys q reg.sys_file

load_cfg-IsDriver :
    (fuel : ℕ) (reg : Registry) (adf : Adf) (p : Pool) (rest : List ℕ)
    → IsHostRegistry fuel reg
    → Owns p rest
    → (b : Bool) × (adf' : Adf) × (q : Pool) × (load_cfg fuel true reg adf p ≡ some ((b, adf'), q))
      × IsConfigured fuel reg p q adf'
      × IsDriver adf' q rest
unfolding load_cfg
load_cfg-IsDriver fuel reg adf p rest w own =
    let (x, q, e, lx, (wx, ox)) =
      load_optional-IsLoaded fuel rest p own reg.except_file w.excepts in
    let (u, r, f, lu, (wu, ou)) =
      load_optional-IsLoaded fuel (blocks x ++ rest) q ox reg.user_file w.users in
    let (b, s, t, g, ls, (ws, os)) =
      load_sys-IsLoaded fuel (blocks u ++ (blocks x ++ rest)) r ou reg.sys_file w.system in
    (
      b,
      record adf { paused = get_or reg.pause adf.paused; excpt = x; user = u; sys = s },
      t,
      ground (arith, e, f, g),
      record { after_excepts = q; after_users = r; excepts = lx; users = lu; system = ls },
      record {
        user_hosts = wu;
        excpt_hosts = wx;
        sys_hosts = ws;
        owned =
            Owns-rotate t (blocks x) (blocks s) (blocks u) rest
              (Owns-rotate t (blocks s) (blocks u) (blocks x) rest os);
      },
    )

-- What a start leaves. After a success the exception, the user and the system list are what their
-- files give, well formed and with their blocks accounted for, and the device and its link exist,
-- unless the registration failed, when there is no device; a failure leaves neither lists nor device.
abbrev pub Started : ℕ → Registry → Pool → List ℕ → Answers → Bool → Driver → Pool → Type 0
Started fuel reg p rest a true d q =
    IsConfigured fuel reg p q d.adf
    × IsDriver d.adf q rest
    × (((a.registered ≡ true) × (d.device_exists ≡ true) × (d.link_exists ≡ true))
        ⊎ ((a.registered ≡ false) × (d.device_exists ≡ false)))
Started fuel reg p rest a false d q =
    (d.adf ≡ emptied d.adf) × (d.device_exists ≡ false) × Owns q rest

with_device :
    (adf : Adf) (n : ℕ) (q : Pool) (rest : List ℕ)
    → IsDriver adf q rest
    → IsDriver (record adf { device = n }) q rest
with_device adf n q rest w = record {
  user_hosts = w.user_hosts;
  excpt_hosts = w.excpt_hosts;
  sys_hosts = w.sys_hosts;
  owned = w.owned;
}

-- The kernel's answers, as far as they decide what create_device does.
abbrev Cases : Answers → Type 0
Cases a =
    (a.created ≡ false)
    ⊎ ((a.created ≡ true) × (a.registered ≡ false))
    ⊎ ((a.created ≡ true) × (a.registered ≡ true) × (a.linked ≡ false))
    ⊎ ((a.created ≡ true) × (a.registered ≡ true) × (a.linked ≡ true))

answer-Cases : (a : Answers) → Cases a
answer-Cases a = elim (Bool-cases a.created) [
  | inr c ↦ inl c
  | inl c ↦ elim (Bool-cases a.registered) [
    | inr r ↦ inr (inl (c, r))
    | inl r ↦ elim (Bool-cases a.linked) [
      | inr l ↦ inr (inr (inl (c, r, l)))
      | inl l ↦ inr (inr (inr (c, r, l)))
    ]
  ]
]

-- From a driver that is not there, a registry of host files and whatever the kernel answers, the
-- start does not fault. If it succeeds, the exception, the user and the system list are what
-- load_file makes of the files of those three paths, one after the other, or empty where a path is
-- missing or its file cannot be opened; and the device and its link exist, or the registration was
-- refused and the device is gone. If it fails, nothing is left of either.
pub tdifw_driver_entry-Started :
    (fuel : ℕ) (reg : Registry) (a : Answers) (d : Driver) (p : Pool) (rest : List ℕ)
    → IsHostRegistry fuel reg
    → d.device_exists ≡ false
    → Owns p rest
    → (b : Bool) × (d' : Driver) × (q : Pool) × (tdifw_driver_entry fuel true reg a d p
        ≡ some ((b, d'), q))
      × Started fuel reg p rest a b d' q
unfolding tdifw_driver_entry create_device
tdifw_driver_entry-Started fuel reg a d p rest w n own =
    let (b, adf, q, e, m, k) = load_cfg-IsDriver fuel reg d.adf p rest w own in
    let adf' : Adf = record adf { device = a.object } in
    let k' : IsDriver adf' q rest = with_device adf a.object q rest k in
    elim (answer-Cases a) [
      | inl c ↦
          let (t, f, o) = unload_cfg_lem adf q rest k in
          (false, record d { adf = emptied adf }, t, ground (arith, e, f), (refl, n, o))
      | inr (inl (c, r)) ↦ (
        true,
        record { adf = adf'; device_exists = false; link_exists = d.link_exists },
        q,
        ground (arith, e),
        (configured m, k', inr (r, refl)),
      )
      | inr (inr (inl (c, r, l))) ↦
          let (t, f, o) = unload_cfg_lem adf' q rest k' in
          (
            false,
            record { adf = emptied adf'; device_exists = false; link_exists = d.link_exists },
            t,
            ground (arith, e, f),
            (refl, refl, o),
          )
      | inr (inr (inr (c, r, l))) ↦ (
        true,
        record { adf = adf'; device_exists = true; link_exists = true },
        q,
        ground (arith, e),
        (configured m, k', inl (r, refl, refl)),
      )
    ]
  where
    configured :
        {adf : Adf} {q : Pool}
        → IsConfigured fuel reg p q adf
        → IsConfigured fuel reg p q (record adf { device = a.object })
    configured m = record {
      after_excepts = m.after_excepts;
      after_users = m.after_users;
      excepts = m.excepts;
      users = m.users;
      system = m.system;
    }

-- The stop frees the blocks of all lists and no other, and removes the device and its link.
tdifw_driver_unload_lem :
    (d : Driver) (p : Pool) (rest : List ℕ)
    → IsDriver d.adf p rest
    → (q : Pool) × (tdifw_driver_unload d p
        ≡ some (record { adf = emptied d.adf; device_exists = false; link_exists = false }, q))
      × Owns q rest
unfolding tdifw_driver_unload delete_device
tdifw_driver_unload_lem d p rest w =
    let (q, e, o) = unload_cfg_lem d.adf p rest w in (q, ground (arith, e), o)
