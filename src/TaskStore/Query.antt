-- ===== src/TaskStore/Query.antt =====
-- `TaskFilter.Matches`, `List`, `ListActive`, `ListResumable`, `GetByTool` and `GetStats` of
-- internal/task/store.go. Go visits the cache in any order: the list's order is one of them.
use Prim.Native.Char.{code}
use redis_meter.Base.{
  ℕ, ◌+◌, Bool, true, false, not, ◌&&◌, Option, none, some, List, [], ◌∷◌, String, str_eq, ltb, leb,
  ◌==◌, if◌then◌else◌, length, take, any, select,
}
use redis_meter.Base.Int.{ℤ, pos, pos_part, int_lt}
use redis_meter.Base.Dict.{Dict, get, put}
use redis_meter.Base.Sort.{sort}
use redis_meter.Task.Model.{ToolType, TaskStatus, Task, status_text}
use redis_meter.Task.Status.{can_resume}
use redis_meter.TaskStore.Model.{Store}

pub record TaskFilter : Type 0 where
  pub statuses : List TaskStatus
  pub tool : ToolType
  pub tags : List String
  pub limit : ℤ

-- `strings.EqualFold` on ASCII texts.
abbrev lower : ℕ → ℕ
lower c = if leb b'A' c && leb c b'Z' then c + 32 else c

unfoldable pub equal_fold : String → String → Bool
equal_fold String.[] String.[] = true
equal_fold String.[] (String.◌∷◌ d t) = false
equal_fold (String.◌∷◌ c s) String.[] = false
equal_fold (String.◌∷◌ c s) (String.◌∷◌ d t) =
    let rest = equal_fold s t in if lower (code c) == lower (code d) then rest else false

unfoldable pub same_status : TaskStatus → TaskStatus → Bool
unfolding status_text
same_status a b = str_eq (status_text a) (status_text b)

abbrev pub is_empty {ℓ} : {A : Type ℓ} → List A → Bool
is_empty [] = true
is_empty (x ∷ xs) = false

has_tags : List String → List String → Bool
unfolding any equal_fold
has_tags [] tags = true
has_tags (tag ∷ wanted) tags =
    let rest = has_tags wanted tags in if any (λ t. equal_fold t tag) tags then rest else false

unfoldable pub matches : TaskFilter → Task → Bool
unfolding any same_status has_tags
matches f t =
    if not (is_empty f.statuses) && not (any (λ s. same_status t.status s) f.statuses)
    then false
    else if not (str_eq f.tool "") && not (str_eq t.tool f.tool)
    then false
    else has_tags f.tags t.tags

-- A nil filter matches every task.
unfoldable pub accepts : Option TaskFilter → Task → Bool
unfolding matches
accepts none t = true
accepts (some f) t = matches f t

-- The tasks of the cache, each read through its pointer.
unfoldable pub cached : (ℕ → Task) → Dict ℕ → List Task
cached object [] = []
cached object ((id, p) ∷ rest) = object p ∷ cached object rest

abbrev pub newest_first : Task → Task → Bool
newest_first a b = ltb b.created_at a.created_at

abbrev pub latest_first : Task → Task → Bool
latest_first a b = ltb b.last_updated_at a.last_updated_at

unfoldable pub cut : Option TaskFilter → List Task → List Task
cut none ts = ts
cut (some f) ts =
    if int_lt (pos 0) f.limit && ltb (pos_part f.limit) (length ts)
    then take (pos_part f.limit) ts
    else ts

unfoldable pub list : Store → Option TaskFilter → List Task
list s f = cut f (sort newest_first (select (accepts f) (cached s.object s.cache)))

unfoldable pub list_active : Store → List Task
unfolding list
list_active s = list s (
    some (record {
      statuses = TaskStatus.pending ∷ TaskStatus.running ∷ TaskStatus.paused ∷ [];
      tool = "";
      tags = [];
      limit = pos 0;
    }))

unfoldable pub list_resumable : Store → List Task
unfolding cached select sort can_resume
list_resumable s = sort latest_first (select can_resume (cached s.object s.cache))

unfoldable pub get_by_tool : Store → ToolType → List Task
unfolding list
get_by_tool s tool = list s (some (record { statuses = []; tool = tool; tags = []; limit = pos 0 }))

-- The counters of `Stats` count tasks in memory, far fewer than an `int` holds.
pub record Stats : Type 0 where
  pub total : ℕ
  pub by_status : Dict ℕ
  pub by_tool : Dict ℕ
  pub active : ℕ
  pub resumable : ℕ

abbrev pub or_none : Option ℕ → ℕ
or_none none = 0
or_none (some n) = n

-- `m[k]++`
unfoldable pub bump : Dict ℕ → String → Dict ℕ
bump d k = put d k (or_none (get d k) + 1)

abbrev pub is_active : TaskStatus → Bool
is_active TaskStatus.running = true
is_active TaskStatus.paused = true
is_active _ = false

count_task : Stats → Task → Stats
unfolding bump status_text can_resume
count_task st t = record st {
  by_status = bump st.by_status (status_text t.status);
  by_tool = bump st.by_tool t.tool;
  active = if is_active t.status then st.active + 1 else st.active;
  resumable = if can_resume t then st.resumable + 1 else st.resumable;
}

count_tasks : Stats → List Task → Stats
count_tasks st [] = st
count_tasks st (t ∷ ts) = count_tasks (count_task st t) ts

unfoldable pub get_stats : Store → Stats
unfolding count_task count_tasks cached
get_stats s =
    count_tasks
      (record { total = length s.cache; by_status = []; by_tool = []; active = 0; resumable = 0 })
      (cached s.object s.cache)
