-- ===== src/Config.antt =====
-- sys/adfilter/adfilter.c: loading and freeing the host lists. Reading a file is a parameter:
-- `read o` is what ZwReadFile delivers at the offset `o`, at most 256 bytes, or a failure.
pub mod Rounds
pub mod Lines
pub mod Chunks
pub mod RoundTrip
use adfilter.Prelude.{
  ℕ, zero, suc, ◌+◌, ◌-◌, ◌%◌, ◌^◌, List, [], ◌∷◌, ◌++◌, Option, none, some, Bool, true, false,
  ◌==◌, ltb, leb, if◌then◌else◌, length, take, drop, replicate, Bytes,
}
use mathlib.Core.Option.{get_or}
use adfilter.Pool.{Pool, M, pure, fault, ◌>>=◌}
use adfilter.HostList.{Host, add_host_list, clear_host_list}
use adfilter.Filter.{Adf}

-- What the inner loop finds from a position of the buffer on: a line up to a carriage return, the
-- bytes up to a NUL, or a write past `len`.
pub data Scan : Type 0 where
  line : Bytes → Scan
  partial : Bytes → Scan
  overrun : Scan

-- sizeof len
abbrev pub len_size : ℕ
len_size = 128

-- sizeof buff
abbrev pub buff_size : ℕ
buff_size = 256

abbrev pub copied : ℕ → Scan → Scan
copied c (line l) = line (c ∷ l)
copied c (partial l) = partial (c ∷ l)
copied c overrun = overrun

-- The loop over `j`, with the bytes of the buffer from `i + j` on.
unfoldable pub scan_line : ℕ → Bytes → Scan
scan_line j [] = overrun
scan_line j (c ∷ cs) =
    let rest = scan_line (j + 1) cs in
    if c == 0x0d
    then line []
    else (if c == 0 then partial [] else (if ltb j len_size then copied c rest else overrun))

-- How the lines of one buffer end: the list, the number of lines, the position behind the last one
-- and what `len` holds then, or an entry that could not be made.
pub data Chunk : Type 0 where
  done : List Host → ℕ → ℕ → Bytes → Chunk
  no_memory : List Host → Chunk

-- `for (; i < 255;)`, with the bytes of the buffer from `i` on. Each round takes at least two bytes.
unfoldable pub load_lines : ℕ → ℕ → ℕ → Bytes → List Host → Bytes → M Chunk
load_lines zero i lines len header buff = fault
load_lines (suc fuel) i lines len header buff =
    if ltb i 255
    then (elim (scan_line 0 buff) [
      | overrun ↦ fault
      | partial l ↦ pure (done header lines i l)
      | line l ↦ do
        (added, header') ← add_host_list header l (length l)
        elim added [
          | true ↦
              load_lines fuel (i + length l + 2) (lines + 1) l header' (drop (length l + 2) buff)
          | false ↦ pure (no_memory header')
        ]
    ])
    else pure (done header lines i len)

-- RtlZeroMemory, the read, and `buff[255] = 0`.
unfoldable pub filled : Bytes → Bytes
filled chunk = take 255 chunk ++ replicate (buff_size - length (take 255 chunk)) 0

pub data LoadStatus : Type 0 where
  success memory_not_allocated invalid_device_state open_failed : LoadStatus

module _ (read : ℕ → Option Bytes) where
  -- `while (1)`. A last line without an end is added when a buffer begins with it.
  unfoldable pub load_chunks : ℕ → ℕ → List Host → M (LoadStatus × List Host)
  load_chunks zero offset header = fault
  load_chunks (suc fuel) offset header = elim (read offset) [
    | none ↦ pure (success, header)
    | some chunk ↦ do
      r ← load_lines buff_size 0 0 [] header (filled chunk)
      elim r [
        | no_memory header' ↦ pure (memory_not_allocated, header')
        | done header' lines i len ↦ elim (lines == 0) [
          | true ↦ do
            (added, header'') ← add_host_list header' len (length len)
            pure ((if added then success else memory_not_allocated), header'')
          | false ↦ load_chunks fuel ((offset + i) % 2 ^ 32) header'
        ]
      ]
  ]

-- A file that can be opened, with its reads; `none` if ZwCreateFile fails.
abbrev pub File : Type 0
File = Option (ℕ → Option Bytes)

-- `fuel` bounds the rounds of the outer loop.
unfoldable pub load_file : ℕ → Bool → File → List Host → M (LoadStatus × List Host)
load_file fuel passive none header =
    pure ((if passive then open_failed else invalid_device_state), header)
load_file fuel passive (some read) header =
    if passive then load_chunks read fuel 0 header else pure (invalid_device_state, header)

-- What the registry answers: a value, and three paths with the files that they name.
pub record Registry : Type 0 where
  pub pause : Option ℕ
  pub except_file : Option File
  pub user_file : Option File
  pub sys_file : Option File

-- Whether load_cfg succeeds; its callers test no more.
abbrev pub ok_status : LoadStatus → Bool
ok_status success = true
ok_status _ = false

module _ (fuel : ℕ) (passive : Bool) where
  unfoldable pub load_optional : Option File → List Host → M (List Host)
  load_optional none header = pure header
  load_optional (some f) header = do
    (status, header') ← load_file fuel passive f header
    pure header'

  unfoldable pub load_sys : Option File → List Host → M (Bool × List Host)
  load_sys none header = pure (false, header)
  load_sys (some f) header = do
    (status, header') ← load_file fuel passive f header
    pure (ok_status status, header')

  -- The exception and the user file are optional; only the system file decides the status.
  unfoldable pub load_cfg : Registry → Adf → M (Bool × Adf)
  unfolding load_optional load_sys
  load_cfg reg adf = do
    excpt ← load_optional reg.except_file []
    user ← load_optional reg.user_file []
    (status, sys) ← load_sys reg.sys_file []
    pure (
      status,
      record adf { paused = get_or reg.pause adf.paused; excpt = excpt; user = user; sys = sys },
    )

unfoldable pub unload_cfg : Adf → M Adf
unload_cfg adf = do
  sys ← clear_host_list adf.sys
  user ← clear_host_list adf.user
  excpt ← clear_host_list adf.excpt
  pure (record adf { sys = sys; user = user; excpt = excpt })
