-- ===== src/Workloads/Registry.antt =====
-- internal/workload/registry.go: Registry and LoadFromFile. A workload is a value, so what a caller
-- makes of the copy that Get gives does not reach the registry. The order of the lists is one in
-- which Go may visit the map.
use redis_meter.Base.{
  Option, none, some, List, [], ◌∷◌, map, String, str_eq, if◌then◌else◌, ◌≡◌, arith, inl, inr,
  Option-cases, Bool-cases, eq_iff, ◌∙◌, sym, ap,
}
use redis_meter.Base.Dict.{Dict, get, put, get-put}
use redis_meter.Base.Result.{Result, ok, err, or_err, value_of, value_of-or_err}
use redis_meter.Domain.{Workload}
use redis_meter.Workloads.Builtins.{builtins}

pub data WorkloadError : Type 0 where
  already_registered workload_not_found : String → WorkloadError
  file_unread yaml_unparsed nameless : WorkloadError

abbrev pub register_free :
    Dict Workload → Workload → Option Workload → Dict Workload × Option WorkloadError
register_free d w none = (put d w.name w, none)
register_free d w (some v) = (d, some (WorkloadError.already_registered w.name))

unfoldable pub register : Dict Workload → Workload → Dict Workload × Option WorkloadError
register d w = register_free d w (get d w.name)

-- The errors are dropped, as registerBuiltins drops them.
unfoldable pub register_all : Dict Workload → List Workload → Dict Workload
register_all d [] = d
register_all d (w ∷ ws) = register_all (register d w).0 ws

unfoldable pub new_registry : Dict Workload
new_registry = register_all [] builtins

unfoldable pub get_workload : Dict Workload → String → Result WorkloadError Workload
get_workload d name = or_err (get d name) (WorkloadError.workload_not_found name)

unfoldable pub list_names : Dict Workload → List String
list_names d = map (λ e. e.0) d

unfoldable pub list_workloads : Dict Workload → List Workload
list_workloads d = map (λ e. e.1) d

-- What is read from a file: nothing, a text that is no workload in YAML, or a workload.
pub data YamlFile : Type 0 where
  missing unparsable : YamlFile
  parsed : Workload → YamlFile

unfoldable pub load_from_file : YamlFile → Result WorkloadError Workload
load_from_file YamlFile.missing = err WorkloadError.file_unread
load_from_file YamlFile.unparsable = err WorkloadError.yaml_unparsed
load_from_file (YamlFile.parsed w) = if str_eq w.name "" then err WorkloadError.nameless else ok w

kept :
    (d : Dict Workload) (w v : Workload) (name : String)
    → get d w.name ≡ none
    → get d name ≡ some v
    → get (put d w.name w) name ≡ some v
kept d w v name e h = elim (Bool-cases (str_eq w.name name)) [
  | inl q ↦
      let clash : none ≡ some v = sym e ∙ ap (get d) ((eq_iff w.name name).0 q) ∙ h in
      absurd (ground (arith, clash))
  | inr q ↦ get-put d w.name name w ∙ rw q h
]

get-register :
    (d : Dict Workload) (w v : Workload) (name : String)
    → get d name ≡ some v
    → get (register d w).0 name ≡ some v
unfolding register
get-register d w v name h = elim (Option-cases (get d w.name)) [
  | inl e ↦ rw (e, register) (kept d w v name e h)
  | inr (u, e) ↦ rw (e, register) h
]

get-register_all :
    (d : Dict Workload) (ws : List Workload) (v : Workload) (name : String)
    → get d name ≡ some v
    → get (register_all d ws) name ≡ some v
unfolding register_all
get-register_all d [] v name h = h
get-register_all d (w ∷ ws) v name h =
    get-register_all (register d w).0 ws v name (get-register d w v name h)

-- What a name shows is never replaced: after any registrations it still shows the same workload.
pub get_workload-register_all :
    (d : Dict Workload) (ws : List Workload) (v : Workload) (name : String)
    → get_workload d name ≡ ok v
    → get_workload (register_all d ws) name ≡ ok v
unfolding get_workload
get_workload-register_all d ws v name h =
    let found : get d name ≡ some v =
      sym (value_of-or_err (get d name) (WorkloadError.workload_not_found name)) ∙ ap value_of h in
    ap (λ o. or_err o (WorkloadError.workload_not_found name)) (get-register_all d ws v name found)
