-- ===== src/Console.antt =====
-- exe/adfcon: the console client. adf.c turns a call into a request of the control device, app.c a
-- command line into such calls. `ioctl` is DeviceIoControl, a parameter: whether the request
-- succeeds, and the system buffer after it.
pub mod Request
use Prim.Native.Char.{code}
use Prim.Native.String.{String}
use adfilter.Prelude.{
  ℕ, ◌+◌, List, [], ◌∷◌, ◌++◌, Option, none, some, Bool, true, false, not, ◌&&◌, ◌==◌, ltb,
  if◌then◌else◌, length, take, Bytes, bytes_eq, c_string,
}
use adfilter.Control.{
  IoControlCode, get_pause, set_pause, add_user_host, del_user_host, add_except_host,
  del_except_host, Irp, adf_host_max_len, read_bool, bool_bytes,
}

-- The bytes of a literal.
abbrev pub codes : String → Bytes
codes String.[] = []
codes (String.◌∷◌ c s) = code c ∷ codes s

abbrev pub host_code : Bool → Bool → IoControlCode
host_code true true = add_except_host
host_code true false = add_user_host
host_code false true = del_except_host
host_code false false = del_user_host

-- METHOD_BUFFERED: the driver sees a copy of `len + 1` bytes.
unfoldable pub host_request : Bytes → ℕ → Bool → Bool → Irp
host_request host len add except = record {
  code = host_code add except;
  buffer = some (take (len + 1) host);
  inlen = len + 1;
  outlen = 0;
}

module _ (ioctl : Irp → Bool × Option Bytes) where
  -- The result, and whether the resolver cache is flushed. A NULL host is `none`.
  unfoldable pub adf_host : Option Bytes → ℕ → Bool → Bool → Bool × Bool
  unfolding host_request
  adf_host none len add except = (false, false)
  adf_host (some host) len add except =
      if ltb adf_host_max_len len
      then (false, false)
      else ((ioctl (host_request host len add except)).0, add)

  -- `h` tells whether the handle is valid.
  unfoldable pub adf_set_pause : Bool → ℕ → Bool
  adf_set_pause h pause =
      if h
      then (ioctl
          (record { code = set_pause; buffer = some (bool_bytes pause); inlen = 4; outlen = 0 })).0
      else false

  -- The word that the driver wrote; `pause` stays true where it wrote none.
  abbrev pause_answer : Option Bytes → Bool
  pause_answer none = true
  pause_answer (some b) = elim (read_bool b) [ none ↦ true | some n ↦ not (n == 0) ]

  unfoldable pub adf_get_pause : Bool → Bool
  adf_get_pause h =
      let answer =
        ioctl (record {
          code = get_pause;
          buffer = some (0 ∷ 0 ∷ 0 ∷ 0 ∷ []);
          inlen = 0;
          outlen = 4;
        }) in
      if h then (answer.0 && pause_answer answer.1) else false

-- What a command line leads to.
pub data Action : Type 0 where
  promot : Action
  open_failed : Action
  start stop show : Action
  host : Bytes → Bool → Bool → Action
  invalid : Action
  crash : Action

-- strlen(argv[2]): without a third argument it is NULL.
abbrev host_action : List Bytes → Bool → Bool → Action
host_action [] add except = crash
host_action (name ∷ more) add except = host name add except

command : Bytes → List Bytes → Action
command cmd args =
    if bytes_eq cmd (codes "start")
    then start
    else (if bytes_eq cmd (codes "stop")
        then stop
        else (if bytes_eq cmd (codes "show")
            then show
            else (if bytes_eq cmd (codes "add")
                then host_action args true false
                else (if bytes_eq cmd (codes "del")
                    then host_action args false false
                    else (if bytes_eq cmd (codes "addE")
                        then host_action args true true
                        else (if bytes_eq cmd (codes "delE")
                            then host_action args false true
                            else invalid))))))

-- `argv` without the program's name; a missing host name is reported and then used all the same.
unfoldable pub main : Bool → List Bytes → Action
unfolding command
main opens [] = promot
main opens (cmd ∷ args) = if opens then command cmd args else open_failed
