-- ===== src/WebdavStore.antt =====
-- backend/pkg/webdavstore/store.go: `Internal` is the test for internal paths, `Store` the operations,
-- `Refines` the definitions as a map, `Executions` the records of runs.
pub mod Internal
pub mod Store
pub mod Executions
pub mod Refines
