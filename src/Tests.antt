-- ===== src/Tests.antt =====
-- Runs on small inputs, and each theorem at an input that meets its hypotheses.
mod Connection
mod PlayerQueues
mod DecoderRuns
mod Sockets
mod Keyed
mod Chatting
mod Clients
mod Pools
mod Utilities
mod Serial
mod Windows
mod SocketLogin
