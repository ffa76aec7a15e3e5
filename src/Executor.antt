-- ===== src/Executor.antt =====
-- backend/pkg/executor/executor.go, the interpreter of workflow graphs: `Order` is the walk of the
-- graph, `Template` the text functions, `Clients` the interfaces that the executor calls and the
-- state that it keeps during a run, `Nodes` one step for each type of node, `Run` the whole run.
pub mod Order
pub mod Template
pub mod Clients
pub mod Nodes
pub mod Run
