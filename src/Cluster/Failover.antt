-- ===== src/Cluster/Failover.antt =====
-- `FailoverTester` of internal/cluster/cluster.go. The cluster, the client and the clock are
-- parameters: what they answer at each call of the client, in order. Times are nanoseconds.
pub mod Waiting
pub mod Targets
use redis_meter.Base.{
  ℕ, zero, suc, ◌+◌, ◌≡◌, Bool, true, false, not, ◌||◌, Option, none, some, List, [], ◌∷◌, ◌++◌,
  String, ltb, if◌then◌else◌, any,
}
use redis_meter.Base.Text.{Text, codes, text_eq, is_empty}
use redis_meter.Cluster.Topology.{NodeInfo, ClusterTopology}
use redis_meter.Cluster.Analyzer.{Reply, ClusterError, Loaded, Analyzer, get_topology}

-- What the world answers at a count of calls: the texts of the topology, the error of a command to
-- a node, and the time.
pub record Net : Type 0 where
  pub nodes : ℕ → Reply
  pub info : ℕ → Reply
  pub command_error : ℕ → Option String
  pub time : ℕ → ℕ

-- The tester with the calls made so far, and the commands that were sent: the address, and whether
-- the failover is forced.
pub record FailoverTester : Type 0 where
  pub analyzer : Analyzer
  pub calls : ℕ
  pub sent : List (Text × Bool)

pub record FailoverScenario : Type 0 where
  pub name : Text
  pub kind : Text
  pub target_node : Text
  pub duration : ℕ

pub data FailoverError : Type 0 where
  initial_topology : ClusterError → FailoverError
  no_target no_replica timed_out : FailoverError
  command : String → FailoverError

pub record FailoverResult : Type 0 where
  pub scenario : FailoverScenario
  pub success : Bool
  pub target_node : NodeInfo
  pub initial_topology : ClusterTopology
  pub final_topology : Option ClusterTopology
  pub error : Option FailoverError

-- How `WaitForFailover` ends; `polling` where it has not ended.
pub data Wait : Type 0 where
  reached expired polling : Wait

-- A call gives no result, or one and perhaps an error.
pub data Outcome : Type 0 where
  refused : FailoverError → Outcome
  tested : FailoverResult → Outcome

-- The node with this address or ID.
abbrev pub is_named : Text → NodeInfo → Bool
is_named name n = text_eq n.address name || text_eq n.id name

unfoldable pub first_node : (NodeInfo → Bool) → List NodeInfo → Option NodeInfo
first_node p [] = none
first_node p (n ∷ ns) = let rest = first_node p ns in if p n then some n else rest

abbrev pub has_replicas : NodeInfo → Bool
has_replicas n = not (is_empty n.replicas)

unfoldable pub find_target : FailoverScenario → ClusterTopology → Option NodeInfo
find_target sc t =
    if is_empty sc.target_node
    then first_node has_replicas t.masters
    else first_node (is_named sc.target_node) t.nodes

abbrev pub replicates : NodeInfo → NodeInfo → Bool
replicates target r = text_eq r.master_id target.id

abbrev pub topology_of : Loaded → Option ClusterTopology
topology_of (Loaded.topology t) = some t
topology_of (Loaded.error e) = none

abbrev pub wait_error : Wait → Option FailoverError
wait_error Wait.reached = none
wait_error _ = some FailoverError.timed_out

abbrev pub is_reached : Wait → Bool
is_reached Wait.reached = true
is_reached _ = false

abbrev pub shows_master : Text → Loaded → Bool
shows_master expected (Loaded.topology t) = any (is_named expected) t.masters
shows_master expected (Loaded.error e) = false

module _ (net : Net) where
  unfoldable pub load : FailoverTester → FailoverTester × Loaded
  load t =
      let (a, l) = get_topology t.analyzer (net.nodes t.calls) (net.info t.calls) in
      (record t { analyzer = a; calls = t.calls + 1 }, l)

  -- `TriggerManualFailover` and `TriggerForceFailover`.
  unfoldable pub trigger : FailoverTester → Text → Bool → FailoverTester × Option String
  trigger t address force = (
    record t { calls = t.calls + 1; sent = t.sent ++ ((address, force) ∷ []) },
    net.command_error t.calls,
  )

  -- The loop, for at most `fuel` polls.
  unfoldable pub wait_for_failover : ℕ → FailoverTester → Text → ℕ → FailoverTester × Wait
  wait_for_failover zero t expected deadline = (t, Wait.polling)
  wait_for_failover (suc fuel) t expected deadline =
      let (u, l) = load t in
      let rest = wait_for_failover fuel u expected deadline in
      if ltb (net.time t.calls) deadline
      then (if shows_master expected l then (u, Wait.reached) else rest)
      else (t, Wait.expired)

  -- From the trigger on, with the target and its replica.
  unfoldable pub test_failover :
      ℕ
      → FailoverTester
      → FailoverScenario
      → ClusterTopology
      → NodeInfo
      → NodeInfo
      → FailoverTester × Outcome
  test_failover fuel t sc initial target replica =
      let (u, failed) = trigger t replica.address (text_eq sc.kind (codes "force")) in
      elim failed [
        | some message ↦ (
          u,
          Outcome.tested (record {
            scenario = sc;
            success = false;
            target_node = target;
            initial_topology = initial;
            final_topology = none;
            error = some (FailoverError.command message);
          }),
        )
        | none ↦
            let (v, w) =
              wait_for_failover fuel u replica.address (net.time u.calls + sc.duration) in
            let (x, last) = load v in
            (
              x,
              Outcome.tested (record {
                scenario = sc;
                success = is_reached w;
                target_node = target;
                initial_topology = initial;
                final_topology = topology_of last;
                error = wait_error w;
              }),
            )
      ]

  unfoldable pub choose_nodes :
      ℕ → FailoverTester → FailoverScenario → ClusterTopology → FailoverTester × Outcome
  choose_nodes fuel t sc initial = elim (find_target sc initial) [
    | none ↦ (t, Outcome.refused FailoverError.no_target)
    | some target ↦ elim (first_node (replicates target) initial.replicas) [
      | none ↦ (t, Outcome.refused FailoverError.no_replica)
      | some replica ↦ test_failover fuel t sc initial target replica
    ]
  ]

  unfoldable pub run_failover_scenario :
      ℕ → FailoverTester → FailoverScenario → FailoverTester × Outcome
  run_failover_scenario fuel t sc =
      let (u, l) = load t in
      elim l [
        | Loaded.error e ↦ (u, Outcome.refused (FailoverError.initial_topology e))
        | Loaded.topology initial ↦ choose_nodes fuel u sc initial
      ]
