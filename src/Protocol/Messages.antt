-- ===== src/Protocol/Messages.antt =====
-- The protobuf messages that the rules read (generated into src/gen/agentflow/v1/control.pb.go).
-- A pointer is an `Option`. `unknown` says that `ProtoReflect().GetUnknown()` is not empty.
mod Basic
mod Actions
mod Receipt
mod Commands
mod Unknown
unfoldable pub use Basic.*
unfoldable pub use Actions.*
unfoldable pub use Receipt.*
unfoldable pub use Commands.*
unfoldable pub use Unknown.*
