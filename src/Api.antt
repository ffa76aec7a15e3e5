-- ===== src/Api.antt =====
-- backend/pkg/service: the REST API, workflows.go and, in Account, automation.go and spaces.go; Router
-- is backend/pkg/server/http/server.go. The JSON encoding and the log are not modelled: a request
-- comes with its parameters and its decoded body.
pub mod Wire
pub mod Entries
pub mod Handlers
pub mod Index
pub mod Answers
pub mod Account
pub mod Router
pub mod Guarded
