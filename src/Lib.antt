-- ===== src/Lib.antt =====
-- The core of WL-hosted, which lets a host use the radios of a coprocessor over a framed transport:
-- the wire protocol that both sides share, the host's link and the coprocessor's core, with the theorems
-- about them.
--
-- Parts, and the files that model them:
-- - protocol/src/wire.c, protocol/src/raw_record.c and their headers: Protocol. A frame carries
--   either raw records or one RPC message. Protocol/Endian has the byte order, Protocol/Checksum
--   `wlh_sum32` and `wlh_crc32c`, Protocol/Frame `wlh_frame_encode` and `wlh_frame_decode`,
--   Protocol/Rpc `wlh_rpc_encode` and `wlh_rpc_decode`, Protocol/RawRecord the record encoder and
--   iterator. Protocol/Ids has the numbers of ids.h. A wire function returns `accept` with what its
--   output parameters receive, or `reject` with a result code.
-- - host-core/include/wlh/host.h and host-core/src/host_internal.h: Host/Types. `Host` is
--   `wlh_host_t` with the list of the calls that it has made.
-- - host-core/src/host.c: Host/Effects has the clock, buffers, events, completions and `set_state`.
-- - host-core/src/host_wire.c: Host/Send sends frames and RPC messages against credit.
-- - host-core/src/host_rpc.c: Host/Pending has the table of requests, Host/Deadlines the timeouts.
-- - host-core/src/host_link.c: Host/Link has negotiation, credit updates, heartbeats, a changed
--   session and a lost transport.
-- - host-core/src/host_frame.c, with the receiving halves of host_bluetooth.c and host_ota.c:
--   Host/Frame has `process_frame` and the RPC channels, Host/Ethernet the Ethernet channels with
--   the credit that is returned for them, Host/Streams the Bluetooth and the OTA channel.
--   Host/OtaStream has the record that `wlh_host_ota_stream_send` builds.
-- - coproc-core/include/wlh/coproc.h and coproc-core/src/coproc_internal.h: Coproc/Types. `Coproc` is
--   `wlh_coproc_t` with the list of the calls that it has made; its fields `ota_*` are a record.
-- - coproc-core/src/coproc.c: Coproc/Effects has the clock, buffers, the job queue and `set_state`.
-- - coproc-core/src/coproc_wire.c: Coproc/Send sends frames, RPC messages and queued events.
-- - coproc-core/src/coproc_ota.c: Coproc/Ota. Transfer has the transfer's state, Requests the
--   service's methods, Stream the chunks, Complete the backend's answers. Flash is the abstract
--   image that the backend holds, read off the calls; Sound and its children relate the two, and
--   Steps has the operations in any order. Arrive joins the host's sender to the receiver here.
-- - coproc-core/src/coproc_link.c: Coproc/Link has heartbeats and what they wait for, credit updates,
--   and negotiation in Coproc/Link/Hello.
-- - coproc-core/src/coproc_frame.c: Coproc/Ethernet delivers Ethernet records and pays for them.
-- - coproc-core/src/coproc_ethernet.c, with `aggregate_ethernet_jobs` and the worker's branch of
--   coproc.c: Coproc/Ethernet/Transmit queues Ethernet frames and sends them together. The jobs that
--   the queue hands out while the worker aggregates are an argument, a list.
-- - coproc-core/src/coproc_io.c and coproc_adc.c: Coproc/Services/Peripherals; Errors has the status
--   that an answer carries, from coproc_wire.c.
-- - coproc-core/src/coproc_kv.c: Coproc/Services/Kv has `handle_kv_request`, Utf8 its `utf8_valid`;
--   Utf8/Encode says what UTF-8 is, independently of that.
-- - coproc-core/src/coproc_bluetooth.c: Coproc/Bluetooth has the controller's operations and their
--   completions, Hci the packets of both directions, with the worker's branch of coproc.c that sends
--   them. Controller is the automaton that the operations follow.
-- - common/osal/src/posix_osal.c: Osal/Queue and Osal/Semaphore; Osal/Wait has the mutex, the
--   conditions and the time limits that they share. What other threads do while a call waits is an
--   argument of it: each wake-up carries the state that they leave behind. An item of a queue stands
--   for its `item_size` bytes, the storage for an array of items.
--
-- State is passed explicitly: a function of the core takes the host, or
-- the coprocessor, and returns it with its result.
-- What is not code of the core is the parameter `Platform`: the callbacks of the adapter (buffers,
-- transport, executor, clock), the protobuf library, and the sizes of structures. Its answers are
-- functions of all calls so far, so that they may differ from call to call. Nothing is assumed
-- about them but where a theorem says so.
--
-- Bounds: fixed-width integers are native numbers with the wrap written out; `size_t` has the width
-- that `size_max` says. The loop over raw records runs on fuel, one more than the bytes that are
-- left being enough, that of `utf8_valid` on a unit for each byte; the loops over the sixteen slots count them.
--
-- Not modelled: the workers of both sides, for which queue and lock are parameters, the services on
-- top of `wlh_host_rpc_request`, the coprocessor's RPC dispatch with its services but OTA, I/O, ADC,
-- KV and Bluetooth, its Wi-Fi, the events, timers and tasks of the operating system's layer and its
-- other ports, the logging, and memory: an output buffer is a list, so overlapping buffers are not
-- seen, and a pointer that must not be NULL is not.
pub mod Prelude
pub mod Protocol
pub mod Host
pub mod Coproc
pub mod Osal
