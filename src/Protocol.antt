-- ===== src/Protocol.antt =====
-- src/internal/protocol: the messages of the wire and the rules that both sides check them by.
pub mod Messages
pub mod Tokens
pub mod Sessions
pub mod Agents
pub mod Workspaces
pub mod Lifecycle
pub mod Commands
pub mod Results
pub mod Negotiation
