-- ===== src/Lib.antt =====
-- Verification of the advertisement filter driver: a Windows driver that denies DNS queries for
-- listed host names, on top of the TDI firewall library tdi_fw.
--
-- The program's parts and the files that model them:
-- - HostList (sys/adfilter/list.c): the lists of host patterns, their searches and edits. A
--   LIST_ENTRY ring is the list of its entries in Blink order; the pool is Pool, whose answers
--   are an input and whose live blocks are counted.
-- - Dns (fmt_dns_msg of sys/adfilter/filter.c): the text of a query's name. Filter (the rest of
--   that file): the verdict on a datagram; Filter.Traffic has the two calls in the order of
--   tdi_send_datagram.
-- - Control (sys/adfilter/dispatch.c): the requests of the control device.
-- - Config (sys/adfilter/adfilter.c): loading and freeing the lists. Config.Lines, Config.Rounds,
--   Config.Chunks and Config.RoundTrip go from one line to one buffer to a whole file. Driver
--   (sys/adfilter/driver.c): start and stop.
-- - Console (exe/adfcon): the console client and its requests.
-- - RequestQueue (log_request and get_request of sys/tdi_fw/src/filter.c): the ring of requests
--   to be logged. Rules (the chains of the same file), FilterInit (its start and end). Process
--   (sys/tdi_fw/src/pid_pname.c): the list of processes, with the names and the rule chains. Both
--   kinds of list stand on Links. Listen (the first part of sys/tdi_fw/src/conn_state.c): the
--   table of listening endpoints.
-- - OtEntry, ObjTable (sys/tdi_fw/src/obj_tbl.c): the entries of file objects and the table of
--   them, with the operations of conn_state.c that go through it; ObjTable.Ends is its start and
--   end, ot_init and ot_free. ConnCtx (the rest of obj_tbl.c): the contexts of connections, and
--   the map that they stand for. TcpConn (the second part of conn_state.c): the connections as a
--   heap of entries, the chains and the list to delete as addresses in it, TcpConn.Steps the
--   interleavings of file objects and the thread that deletes closed entries; ConnState is the
--   start and the end of the tables. NfoRequest (process_nfo_request of ipc.c with enum_listen
--   and enum_tcp_conn): the listings for the user part.
-- - Tdi (sys/tdi_fw/src): the handlers of TDI on these tables. Tdi.Datagram (disp_dg.c, ev_dg.c,
--   disp_sr.c), Tdi.Connect and Tdi.Disconnect (disp_conn.c, and the disconnect of ev_conn.c),
--   Tdi.Accept (the rest of ev_conn.c), Tdi.Object (disp_obj.c), Tdi.Event (disp_ev.c, ev_recv.c,
--   events.c).
-- - IpcRequest (process_request of sys/tdi_fw/src/ipc.c): the requests of the user part. Sids
--   (sys/tdi_fw/src/sids.c): its list of SIDs. Both take pointers and size_t with 32 bits.
-- - Sock, Ipc (sys/tdi_fw/src/sock.c, sock.h, ipc.h): byte order and the records that the parts
--   exchange.
--
-- C functions keep their names in snake case. An outer `none` is an access outside of a buffer or
-- a bug check, so a theorem that gives `some` says that none happens. Locks are implicit: an
-- operation that the code runs under a lock is one step; only the lock that ProcessNotifyProc
-- releases is looked at, as it may not be held. Loops are recursions on lists or on the rounds
-- left; the loops over a host file and over the request queue, and the passes of ot_free over a
-- chain, take fuel: a buffer of 256 bytes needs 256 rounds at most, and a file one round for each
-- line and one more, as Config.RoundTrip shows; the queue needs one round for each slot, as
-- RequestQueue.Get shows; a chain of connection objects needs two passes, as
-- ObjTable.Ends.Disconnects shows. A read at an offset is a parameter. The pool's answers are an
-- input: where a theorem asks that the pool hands out no block in use, the next answer is not a
-- live block. A tick count, the process of a call, the address that a query of the kernel gives,
-- and a variable that the code leaves uninitialised are inputs as well. A round of the thread
-- that deletes connections is a recursion on the list of what is to delete, whose acyclicity is
-- part of the invariant IsConns; an entry that is listed twice closes it to a ring, which is the
-- list and the entry that its last link points to.
--
-- Not modelled: the matcher of sys/slre, which is a parameter slre_match (it searches from every
-- position of the name, and the driver only tests where the match ends); the hooks and devices of
-- sys/tdi_fw (tdi_fw.c); the packet engine of sys/tdi_fw/src/packet.c; the graphical client, the
-- installer, debug output, and the memory tracking of checked builds (memtrack.c).
pub mod Prelude
pub mod OtEntry
pub mod Tdi
pub mod NfoRequest
pub mod ConnCtx
pub mod ConnState
pub mod ObjTable
pub mod TcpConn
pub mod Pool
pub mod HostList
pub mod Dns
pub mod Links
pub mod Process
pub mod RequestQueue
pub mod Rules
pub mod Sids
pub mod IpcRequest
pub mod FilterInit
pub mod Listen
pub mod Sock
pub mod Ipc
pub mod Filter
pub mod Control
pub mod Driver
pub mod Console
mod Tests
pub mod Config
