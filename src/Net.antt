-- ===== src/Net.antt =====
-- The TCP side of the server: packets, one client's session, the session table and the queues.
pub mod Packet
pub mod Session
pub mod Server
pub mod ResultQueue
