-- ===== src/Task/Status.antt =====
-- The status of a whole task in internal/task/task.go.
pub mod Laws
use redis_meter.Base.{ℕ, Bool, true, false, some, String}
use redis_meter.Base.Int.{ℤ, pos, add, int_le}
use redis_meter.Task.Model.{TaskStatus, Task}

abbrev pub resumable : TaskStatus → Bool
resumable TaskStatus.running = true
resumable TaskStatus.paused = true
resumable TaskStatus.failed = true
resumable _ = false

unfoldable pub can_resume : Task → Bool
can_resume t = resumable t.status

abbrev pub ends : TaskStatus → ℤ → ℤ → Bool
ends TaskStatus.completed retries cap = true
ends TaskStatus.cancelled retries cap = true
ends TaskStatus.timed_out retries cap = true
ends TaskStatus.failed retries most = int_le most retries
ends _ retries most = false

unfoldable pub is_terminal : Task → Bool
is_terminal t = ends t.status t.retry_count t.max_retries

unfoldable pub complete : Task → String → ℕ → Task
complete t result_id now = record t {
  status = TaskStatus.completed;
  completed_at = some now;
  progress = pos 100;
  result_id = result_id;
  last_updated_at = now;
}

unfoldable pub fail : Task → String → ℕ → Task
fail t message now = record t {
  status = TaskStatus.failed;
  completed_at = some now;
  error = message;
  retry_count = add t.retry_count (pos 1);
  last_updated_at = now;
}

unfoldable pub cancel : Task → ℕ → Task
cancel t now = record t {
  status = TaskStatus.cancelled;
  completed_at = some now;
  last_updated_at = now;
}

unfoldable pub pause : Task → ℕ → Task
pause t now = record t { status = TaskStatus.paused; last_updated_at = now }

unfoldable pub resume : Task → ℕ → Task
resume t now = record t { status = TaskStatus.running; last_updated_at = now }
