-- ===== src/Unix.antt =====
-- src/unix/unix_socket.cpp: the path rules and the life of the socket file.
pub mod Path
pub mod Listen
pub mod Socket
pub mod Parent
pub mod Directory
pub mod Prepare
mod Tests
