-- ===== src/Controller.antt =====
-- controller: the users that a panel sends in chunks, the agent's HTTP server, and the gRPC server
-- that panels speak to.
pub mod Chunks
pub mod Grpccompat
pub mod Agent
pub mod Node
pub mod Examples
pub mod ServerExamples
