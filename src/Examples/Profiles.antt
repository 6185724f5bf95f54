-- ===== src/Examples/Profiles.antt =====
-- The theorems on internal/infraprofile at a new store.
use redis_meter.Base.{ℕ, Bool, true, false, List, [], ◌∷◌, String, arith}
use redis_meter.Base.Dict.{get}
use redis_meter.InfraProfile.Predefined.{local_redis}
use redis_meter.InfraProfile.Store.{Write}
use redis_meter.InfraProfile.Moves.{view, Moves, Call}
use redis_meter.InfraProfile.Refines.{run, run-Moves}

-- An order for the names: there is one name only.
abbrev any_order : String → String → Bool
any_order a b = false

abbrev calls : List (ℕ × Call)
calls =
    (1, Call.creates "u1" Write.written (record local_redis { is_builtin = false }))
    ∷ (2, Call.uses Write.written "local-redis")
    ∷ (3, Call.uses Write.torn "local-redis")
    ∷ (4, Call.deletes true "local-redis")
    ∷ []

run-Moves_example : Moves (view []) calls (view (run any_order [] calls))
unfolding get
run-Moves_example = (run-Moves any_order [] calls tt (λ k p e. absurd (ground (arith, e)))).0
