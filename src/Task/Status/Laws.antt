-- ===== src/Task/Status/Laws.antt =====
-- Terminal tasks, resumable tasks and retries in internal/task/task.go.
use redis_meter.Base.{
  ℕ, zero, suc, ◌+◌, ◌<◌, ◌≡◌, refl, ap, ◌∙◌, ◌↔◌, true, false, String, arith, leb,
}
use native.Mathlib.Nat.{add-zero}
use redis_meter.Base.Int.{pos, ◌≤ℤ◌, add-pos, int_limit}
use redis_meter.Task.Model.{TaskStatus, Task}
use redis_meter.Task.Status.{can_resume, is_terminal, fail, resume}

-- Exactly the failed tasks whose retries are used up are both terminal and resumable.
pub terminal_resumable_iff :
    (t : Task)
    → ((is_terminal t ≡ true) × (can_resume t ≡ true))
      ↔ ((t.status ≡ TaskStatus.failed) × (t.max_retries ≤ℤ t.retry_count))
unfolding is_terminal can_resume
terminal_resumable_iff t = ground arith

-- Resuming makes any task, a terminal one too, one that is not terminal, and keeps its retry count.
pub resume_revives :
    (t : Task) (now : ℕ)
    → (is_terminal (resume t now) ≡ false) × ((resume t now).retry_count ≡ t.retry_count)
unfolding is_terminal resume
resume_revives t now = (refl, refl)

-- A task that fails and is resumed over and over: the failure of the last attempt stands.
pub failures : ℕ → String → ℕ → Task → Task
failures zero message now t = t
failures (suc n) message now t = fail (resume (failures n message now t) now) message now

failures-count :
    (n r : ℕ) (message : String) (now : ℕ) (t : Task)
    → t.retry_count ≡ pos r
    → r + n < int_limit
    → ((failures n message now t).retry_count ≡ pos (r + n))
      × ((failures n message now t).max_retries ≡ t.max_retries)
unfolding failures fail resume
failures-count zero r message now t e h = (e ∙ ap pos (omega arith), refl)
failures-count (suc n) r message now t e h =
    let (c, m) = failures-count n r message now t e (omega arith) in
    (rw (c, add-pos (r + n) 1 (omega arith)) (ap pos (omega arith)), m)

failures_end :
    (n : ℕ) (message : String) (now : ℕ) (t : Task)
    → (failures (suc n) message now t).status ≡ TaskStatus.failed
unfolding failures fail
failures_end n message now t = refl

-- After n > 0 attempts that all fail, a task that started with r retries out of m is terminal
-- exactly when r + n has reached m.
pub failures-is_terminal :
    (n r m : ℕ) (message : String) (now : ℕ) (t : Task)
    → t.retry_count ≡ pos r
    → t.max_retries ≡ pos m
    → r + suc n < int_limit
    → is_terminal (failures (suc n) message now t) ≡ leb m (r + suc n)
unfolding is_terminal
failures-is_terminal n r m message now t e f h =
    let (c, k) = failures-count (suc n) r message now t e h in
    rw (failures_end n message now t) (rw (c, k, f) (rw (add-zero m, add-zero (r + suc n))))
