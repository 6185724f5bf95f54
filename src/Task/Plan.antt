-- ===== src/Task/Plan.antt =====
-- The step types, the tools and the standard workflows of internal/task/task.go.
use redis_meter.Base.{Bool, List, [], ◌∷◌, ◌++◌, str_eq, if◌then◌else◌}
use redis_meter.Task.Model.{StepType, ToolType}

abbrev pub deploy_infra : StepType
deploy_infra = "deploy_infra"

abbrev pub wait_infra_ready : StepType
wait_infra_ready = "wait_infra_ready"

abbrev pub validate_infra : StepType
validate_infra = "validate_infra"

abbrev pub prepare_runner : StepType
prepare_runner = "prepare_runner"

abbrev pub prepare_database : StepType
prepare_database = "prepare_database"

abbrev pub upload_dataset : StepType
upload_dataset = "upload_dataset"

abbrev pub build_index : StepType
build_index = "build_index"

abbrev pub warmup : StepType
warmup = "warmup"

abbrev pub run_benchmark : StepType
run_benchmark = "run_benchmark"

abbrev pub collect_results : StepType
collect_results = "collect_results"

abbrev pub collect_logs : StepType
collect_logs = "collect_logs"

abbrev pub cleanup : StepType
cleanup = "cleanup"

abbrev pub destroy_infra : StepType
destroy_infra = "destroy_infra"

abbrev pub memtier : ToolType
memtier = "memtier_benchmark"

abbrev pub vector_db : ToolType
vector_db = "vector_db_benchmark"

abbrev pub ftsb : ToolType
ftsb = "ftsb"

unfoldable pub standard_memtier_steps : List StepType
standard_memtier_steps =
    validate_infra ∷ prepare_runner ∷ prepare_database ∷ run_benchmark ∷ collect_results
    ∷ collect_logs ∷ []

unfoldable pub standard_vector_db_steps : List StepType
standard_vector_db_steps =
    validate_infra ∷ prepare_runner ∷ prepare_database ∷ upload_dataset ∷ build_index
    ∷ run_benchmark ∷ collect_results ∷ collect_logs ∷ cleanup ∷ []

unfoldable pub standard_ftsb_steps : List StepType
standard_ftsb_steps =
    validate_infra ∷ prepare_runner ∷ prepare_database ∷ upload_dataset ∷ build_index ∷ warmup
    ∷ run_benchmark ∷ collect_results ∷ collect_logs ∷ []

unfoldable pub with_infra_deployment : List StepType → Bool → List StepType
with_infra_deployment steps destroy_after =
    let result = (deploy_infra ∷ wait_infra_ready ∷ []) ++ steps in
    if destroy_after then result ++ (destroy_infra ∷ []) else result

unfoldable pub get_standard_steps : ToolType → List StepType
unfolding standard_memtier_steps standard_vector_db_steps standard_ftsb_steps
get_standard_steps tool =
    if str_eq tool memtier
    then standard_memtier_steps
    else if str_eq tool vector_db
    then standard_vector_db_steps
    else if str_eq tool ftsb
    then standard_ftsb_steps
    else standard_memtier_steps
