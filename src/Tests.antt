-- ===== src/Tests.antt =====
-- The theorems on concrete inputs: a heartbeat, a delta, the queue of a socket, a dispatcher, datagrams and
-- a file of settings.
mod Data
mod Wiring
mod Streams
mod Queues
mod Links
mod Datagrams
mod Dispatch
mod Texts
