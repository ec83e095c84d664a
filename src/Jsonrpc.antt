-- ===== src/Jsonrpc.antt =====
-- snail/jsonrpc: messages over byte streams, requests, and the server that answers them.
pub mod Transport
pub mod Json
pub mod Protocol
pub mod Server
