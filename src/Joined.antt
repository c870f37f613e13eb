-- ===== src/Joined.antt =====
-- The clients and the threads of server.cpp that serve them, each reading what the other writes.
pub mod Senders
pub mod Receivers
