-- ===== src/Scheduler/Runs.antt =====
-- What a started goroutine may call.
use ocis_workflows.Services.{Services}
