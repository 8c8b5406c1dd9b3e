-- ===== src/ConnState.antt =====
-- sys/tdi_fw/src/conn_state.c: start and end of its tables and of the thread that deletes closed
-- connections, conn_state_init and conn_state_free.
pub mod Ends
use adfilter.Prelude.{ℕ, Option, none, some, Bool, true, false}
use adfilter.Pool.{M, pure, fault, ◌>>=◌, ◌>>◌, ex_allocate_pool, ex_free_pool}
use adfilter.TcpConn.{Conns, thread_round}

-- g_listen, g_conn, g_conn_new_to_del and g_conn_thread: the blocks of the tables or NULL, whether the
-- event is initialised, and whether the thread runs.
pub record Tables : Type 0 where
  pub listen : Option ℕ
  pub conn : Option ℕ
  pub event : Bool
  pub thread : Bool

pub data Status : Type 0 where
  success insufficient_resources thread_failed : Status

-- What conn_state_init frees where it fails; the pointers stay.
unfoldable pub free_if : Option ℕ → M (Unit {0})
free_if none = pure tt
free_if (some a) = ex_free_pool a

-- `created` is whether PsCreateSystemThread is a success.
unfoldable pub conn_state_init : Bool → M (Status × Tables)
conn_state_init created = do
  listen ← ex_allocate_pool
  elim listen [
    | none ↦ pure (
      insufficient_resources,
      record { listen = none; conn = none; event = false; thread = false },
    )
    | some a ↦ do
      conn ← ex_allocate_pool
      elim conn [
        | none ↦ do
          ex_free_pool a
          pure (
            insufficient_resources,
            record { listen = some a; conn = none; event = false; thread = false },
          )
        | some b ↦ elim created [
          | true ↦
              pure (success, record { listen = some a; conn = some b; event = true; thread = true })
          | false ↦ do
            ex_free_pool a
            ex_free_pool b
            pure (
              thread_failed,
              record { listen = some a; conn = some b; event = true; thread = false },
            )
        ]
      ]
  ]

-- The last round of the thread, which sees that g_conn_thread is NULL.
unfoldable pub last_round : ℕ → ℕ → Bool → Conns → M Conns
last_round increment now false c = pure c
last_round increment now true c = do (timeout, c') ← thread_round increment now true c; pure c'

-- KeSetEvent reads the links of the event, which are NULL where it was never initialised.
unfoldable pub set_event : Bool → M (Unit {0})
set_event true = pure tt
set_event false = fault

-- Where there is no thread, its handle is NULL: the wait for it and ZwClose are refused, and the
-- source does not look at their status.
unfoldable pub conn_state_free : ℕ → ℕ → Tables → Conns → M (Tables × Conns)
conn_state_free increment now t c = do
  set_event t.event
  c' ← last_round increment now t.thread c
  free_if t.listen
  free_if t.conn
  pure (record { listen = none; conn = none; event = t.event; thread = false }, c')
