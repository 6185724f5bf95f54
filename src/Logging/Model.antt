-- ===== src/Logging/Model.antt =====
-- The entries of internal/logging/logger.go and the state of JSONStore in json_store.go. A time is in
-- nanoseconds; the date of an entry, by which the files are named, is its day in UTC. The files stand
-- in the order of their dates; a file's content is its lines, each of them JSON. The context of an
-- entry is its JSON.
use redis_meter.Base.{ℕ, ◌/◌, Option, List, [], ◌∷◌, ◌++◌, String, ltb, ◌==◌, if◌then◌else◌}
use redis_meter.Base.Int.{ℤ}
use redis_meter.Base.Text.{Text}

-- The types `Level` and `Source` are strings.
abbrev pub Level : Type 0
Level = String

abbrev pub Source : Type 0
Source = String

pub record Entry : Type 0 where
  pub id : Text
  pub timestamp : ℕ
  pub level : Level
  pub source : Source
  pub operation : Text
  pub message : Text
  pub context : Text
  pub benchmark_id : String
  pub infra_id : String
  pub error : String
  pub duration : ℤ

pub record QueryFilter : Type 0 where
  pub level : Level
  pub source : Source
  pub operation : Text
  pub benchmark_id : String
  pub infra_id : String
  pub since : Option ℕ
  pub until : Option ℕ
  pub search : Text
  pub limit : ℤ
  pub offset : ℤ

-- A line that MarshalJSON made of an entry has its duration as a text, which Decode refuses; a line of
-- another origin may have it as a number, and then gives an entry, or it may be no entry at all.
pub data Line : Type 0 where
  marshalled : Entry → Line
  numeric : Entry → Line
  foreign : Line

abbrev pub Files : Type 0
Files = List (ℕ × List Line)

-- `buffer` is the channel, `pending` what the background writer has taken from it.
pub record JsonStore : Type 0 where
  pub cache : List Entry
  pub cache_max : ℕ
  pub buffer : List Entry
  pub pending : List Entry
  pub files : Files

unfoldable pub day : ℕ → ℕ
day t = t / 86400000000000

-- The file of a date is opened, made if it is not there, and lines are written at its end.
unfoldable pub append_to : Files → ℕ → List Line → Files
append_to [] d new = (d, new) ∷ []
append_to ((c, ls) ∷ fs) d new =
    let rest = append_to fs d new in
    if c == d
    then (c, ls ++ new) ∷ fs
    else (if ltb d c then (d, new) ∷ (c, ls) ∷ fs else (c, ls) ∷ rest)

-- loadFile skips the lines that Decode refuses.
unfoldable pub load_file : List Line → List Entry
load_file [] = []
load_file (Line.marshalled e ∷ ls) = load_file ls
load_file (Line.numeric e ∷ ls) = e ∷ load_file ls
load_file (Line.foreign ∷ ls) = load_file ls
