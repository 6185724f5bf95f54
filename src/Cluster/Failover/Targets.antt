-- ===== src/Cluster/Failover/Targets.antt =====
-- How `RunFailoverScenario` of internal/cluster/cluster.go chooses a target.
use redis_meter.Base.{ℕ, ◌+◌, ◌≡◌, refl, Option, none, some, List, [], ◌∷◌, All}
use mathlib.Core.Path.{subst}
use redis_meter.Base.Text.{Text, fields}
use redis_meter.Cluster.Topology.{NodeInfo, ClusterTopology, parse_node, parse_node_line}
use redis_meter.Cluster.Analyzer.{Reply, Loaded, Analyzer, get_topology}
use redis_meter.Cluster.Analyzer.Masters.{MastersSatisfy, get_topology-MastersSatisfy}
use redis_meter.Cluster.Failover.{
  Net, FailoverTester, FailoverScenario, FailoverError, Outcome, first_node, has_replicas,
  find_target, load, choose_nodes, run_failover_scenario,
}

abbrev IsAlone : NodeInfo → Type 0
IsAlone n = n.replicas ≡ []

abbrev IsAloneIn : Option NodeInfo → Type 0
IsAloneIn none = Unit
IsAloneIn (some n) = IsAlone n

parse_node-IsAlone : (parts : List Text) → IsAloneIn (parse_node parts)
unfolding parse_node
parse_node-IsAlone [] = tt
parse_node-IsAlone (a ∷ []) = tt
parse_node-IsAlone (a ∷ b ∷ []) = tt
parse_node-IsAlone (a ∷ b ∷ c ∷ []) = tt
parse_node-IsAlone (a ∷ b ∷ c ∷ d ∷ []) = tt
parse_node-IsAlone (a ∷ b ∷ c ∷ d ∷ e ∷ []) = tt
parse_node-IsAlone (a ∷ b ∷ c ∷ d ∷ e ∷ f ∷ []) = tt
parse_node-IsAlone (a ∷ b ∷ c ∷ d ∷ e ∷ f ∷ g ∷ []) = tt
parse_node-IsAlone (a ∷ b ∷ c ∷ d ∷ e ∷ f ∷ g ∷ h ∷ slots) = refl

parse_node_line-IsAlone : (line : Text) (n : NodeInfo) → parse_node_line line ≡ some n → IsAlone n
unfolding parse_node_line
parse_node_line-IsAlone line n h = subst IsAloneIn h (parse_node-IsAlone (fields line))

first_node-none : (ns : List NodeInfo) → All IsAlone ns → first_node has_replicas ns ≡ none
unfolding first_node
first_node-none [] a = refl
first_node-none (n ∷ ns) a = rw (a.0, first_node) (first_node-none ns a.1)

get_topology-IsAlone :
    (a : Analyzer) (nodes info : Reply) → MastersSatisfy IsAlone (get_topology a nodes info).1
get_topology-IsAlone a nodes info =
    get_topology-MastersSatisfy IsAlone (λ line n e m. parse_node_line-IsAlone line n e) a nodes
      info

-- No test was made: the call was refused, and no command was sent since `t`.
abbrev pub IsRefused : FailoverTester → FailoverTester × Outcome → Type 0
IsRefused t (u, Outcome.refused e) = u.sent ≡ t.sent
IsRefused t (u, Outcome.tested r) = ⊥

module _ (net : Net) where
  choose_nodes-IsRefused :
      (fuel : ℕ) (t : FailoverTester) (sc : FailoverScenario) (initial : ClusterTopology)
      → sc.target_node ≡ []
      → All IsAlone initial.masters
      → choose_nodes net fuel t sc initial ≡ (t, Outcome.refused FailoverError.no_target)
  unfolding choose_nodes find_target
  choose_nodes-IsRefused fuel t sc initial e a =
      rw (e, choose_nodes) (rw (first_node-none initial.masters a) refl)

  -- A scenario that names no target is refused whatever the cluster answers, and no command is
  -- sent: no node of a topology has replicas, so no master is chosen.
  pub no_target-IsRefused :
      (fuel : ℕ) (t : FailoverTester) (sc : FailoverScenario)
      → sc.target_node ≡ []
      → IsRefused t (run_failover_scenario net fuel t sc)
  unfolding run_failover_scenario load
  no_target-IsRefused fuel t sc e =
      refused (get_topology t.analyzer (net.nodes t.calls) (net.info t.calls)).1
        (get_topology-IsAlone t.analyzer (net.nodes t.calls) (net.info t.calls))
    where
      after : FailoverTester
      after = record t {
        analyzer = (get_topology t.analyzer (net.nodes t.calls) (net.info t.calls)).0;
        calls = t.calls + 1;
      }

      refused :
          (l : Loaded)
          → MastersSatisfy IsAlone l
          → IsRefused t (elim l [
            | Loaded.error x ↦ (after, Outcome.refused (FailoverError.initial_topology x))
            | Loaded.topology initial ↦ choose_nodes net fuel after sc initial
          ])
      refused (Loaded.error x) a = refl
      refused (Loaded.topology initial) a =
          rw (choose_nodes-IsRefused fuel after sc initial e a) refl
