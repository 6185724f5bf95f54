-- ===== src/Storage/Model.antt =====
-- internal/storage/file.go: NewFileStorage, Save, Load, Delete and the operations on runs. The base
-- directory has a directory for each type of entity, and this a file for each identifier, named by
-- it; an identifier has no path separator. A file's content is the entity whose JSON it holds, or it
-- is malformed. What the file system answers to a write is an argument.
use redis_meter.Base.{
  Bool, true, false, Option, none, some, List, [], ◌∷◌, String, str_eq, if◌then◌else◌,
}
use redis_meter.Base.Dict.{Dict, get, put, remove}
use redis_meter.Base.Result.{Result, ok, err}
use redis_meter.Domain.{BenchmarkRun, Baseline}

pub data File : Type 0 where
  stored_run : BenchmarkRun → File
  stored_baseline : Baseline → File
  malformed unreadable : File

abbrev pub FileStorage : Type 0
FileStorage = Dict (Dict File)

-- The argument of Save by its type: `other` is any that is neither a run nor a baseline.
pub data Entity : Type 0 where
  run_entity : BenchmarkRun → Entity
  baseline_entity : Baseline → Entity
  other : Entity

-- A write of a file may leave it cut short, or fail before it touches it; the entity may have no JSON,
-- and the directory may not be made.
pub data WriteOutcome : Type 0 where
  whole cut_short untouched not_encoded no_directory : WriteOutcome

pub data StorageError : Type 0 where
  no_id encoding_failed directory_failed write_failed : StorageError
  entity_not_found : String → String → StorageError
  read_failed decoding_failed delete_failed : StorageError

abbrev pub directory : Option (Dict File) → Dict File
directory none = []
directory (some files) = files

-- os.MkdirAll leaves a directory that is there.
unfoldable pub make_dir : FileStorage → String → FileStorage
make_dir fs type = put fs type (directory (get fs type))

unfoldable pub make_dirs : FileStorage → List String → FileStorage
make_dirs fs [] = fs
make_dirs fs (type ∷ types) = make_dirs (make_dir fs type) types

unfoldable pub new_file_storage : FileStorage → FileStorage
new_file_storage fs = make_dirs fs ("runs" ∷ "baseline" ∷ "workloads" ∷ "config" ∷ [])

unfoldable pub get_entity_id : Entity → String
get_entity_id (Entity.run_entity r) = r.id
get_entity_id (Entity.baseline_entity b) = b.id
get_entity_id Entity.other = ""

unfoldable pub file_of : Entity → File
file_of (Entity.run_entity r) = File.stored_run r
file_of (Entity.baseline_entity b) = File.stored_baseline b
file_of Entity.other = File.malformed

unfoldable pub write_file : FileStorage → String → String → File → FileStorage
write_file fs type id f = put fs type (put (directory (get fs type)) id f)

abbrev pub write_entity :
    FileStorage → String → Entity → WriteOutcome → FileStorage × Result StorageError String
write_entity fs type e WriteOutcome.whole =
    (write_file fs type (get_entity_id e) (file_of e), ok (get_entity_id e))
write_entity fs type e WriteOutcome.cut_short =
    (write_file fs type (get_entity_id e) File.malformed, err StorageError.write_failed)
write_entity fs type e WriteOutcome.untouched = (make_dir fs type, err StorageError.write_failed)
write_entity fs type e WriteOutcome.not_encoded = (fs, err StorageError.encoding_failed)
write_entity fs type e WriteOutcome.no_directory = (fs, err StorageError.directory_failed)

unfoldable pub save :
    FileStorage → String → Entity → WriteOutcome → FileStorage × Result StorageError String
save fs type e w =
    if str_eq (get_entity_id e) "" then (fs, err StorageError.no_id) else write_entity fs type e w

unfoldable pub find_file : FileStorage → String → String → Option File
find_file fs type id = get (directory (get fs type)) id

-- `removes` says whether os.Remove can remove a file that is there.
abbrev pub delete_found :
    FileStorage → String → String → Bool → Option File → FileStorage × Option StorageError
delete_found fs type id removes none = (fs, some (StorageError.entity_not_found type id))
delete_found fs type id false (some f) = (fs, some StorageError.delete_failed)
delete_found fs type id true (some f) = (put fs type (remove (directory (get fs type)) id), none)

unfoldable pub delete : FileStorage → String → String → Bool → FileStorage × Option StorageError
delete fs type id removes = delete_found fs type id removes (find_file fs type id)

-- What encoding/json makes of the text of the other type of entity.
pub record Codec : Type 0 where
  pub as_run : Baseline → Option BenchmarkRun
  pub as_baseline : BenchmarkRun → Option Baseline

module _ (c : Codec) where
  unfoldable pub decode_run : File → Option BenchmarkRun
  decode_run (File.stored_run r) = some r
  decode_run (File.stored_baseline b) = c.as_run b
  decode_run File.malformed = none
  decode_run File.unreadable = none

  unfoldable pub decode_baseline : File → Option Baseline
  decode_baseline (File.stored_run r) = c.as_baseline r
  decode_baseline (File.stored_baseline b) = some b
  decode_baseline File.malformed = none
  decode_baseline File.unreadable = none

  abbrev pub decoded : Option BenchmarkRun → Result StorageError BenchmarkRun
  decoded none = err StorageError.decoding_failed
  decoded (some r) = ok r

  abbrev pub load_found : String → String → Option File → Result StorageError BenchmarkRun
  load_found type id none = err (StorageError.entity_not_found type id)
  load_found type id (some File.unreadable) = err StorageError.read_failed
  load_found type id (some f) = decoded (decode_run f)

  -- Load into a run.
  unfoldable pub load : FileStorage → String → String → Result StorageError BenchmarkRun
  load fs type id = load_found type id (find_file fs type id)

  unfoldable pub get_run : FileStorage → String → Result StorageError BenchmarkRun
  get_run fs id = load fs "runs" id

abbrev pub error_of : Result StorageError String → Option StorageError
error_of (ok id) = none
error_of (err e) = some e

unfoldable pub save_run :
    FileStorage → BenchmarkRun → WriteOutcome → FileStorage × Option StorageError
save_run fs r w = (
  (save fs "runs" (Entity.run_entity r) w).0,
  error_of (save fs "runs" (Entity.run_entity r) w).1,
)

unfoldable pub delete_run : FileStorage → String → Bool → FileStorage × Option StorageError
delete_run fs id removes = delete fs "runs" id removes
