-- ===== src/Sse.antt =====
-- backend/pkg/sse/manager.go: `Manager` keeps the table of consumers, `Stream` reads a connection,
-- `Events` turns an event into runs of workflows, `Backoff` is the delay between connections.
pub mod Manager
pub mod Stream
pub mod Events
pub mod Backoff
pub mod Consumer
pub mod Agreement
