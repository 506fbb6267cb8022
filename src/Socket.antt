-- ===== src/Socket.antt =====
-- The socket library, socket/Socket: `Server_Socket` and `Client_Socket`.
pub mod Packets
pub mod Server
pub mod Client
