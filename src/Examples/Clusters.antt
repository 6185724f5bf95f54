-- ===== src/Examples/Clusters.antt =====
-- The theorems on internal/cluster/cluster.go at a reply, some keys and some accesses.
use redis_meter.Base.{
  ℕ, ◌<◌, ◌≡◌, ◌↔◌, refl, true, false, List, [], ◌∷◌, String, All, arith, ◌≢◌, any, none,
}
use redis_meter.Base.Text.{
  Text, codes, contains, split, trim_space, trim_left, trim_right, fields, fields_of, text_eq,
  digits_value, atoi,
}
use redis_meter.Cluster.Slot.{get_slot_for_key}
use redis_meter.Cluster.Slot.HashTag.{tagged, same_tag_same_slot}
use redis_meter.Cluster.Topology.{
  role_from, parse_slots, parse_slot_range, parse_node_line, parse_node,
}
use redis_meter.Cluster.Analyzer.{read_nodes, see_lines, see_node, Reply, get_topology}
use redis_meter.Cluster.Analyzer.Coverage.{HasBoundedSlots}
use redis_meter.Cluster.Analyzer.Full.{HasOwner, cluster_ok_iff_owned}
use redis_meter.Cluster.Failover.{
  Net, FailoverTester, FailoverScenario, Wait, load, wait_for_failover, run_failover_scenario,
}
use redis_meter.Cluster.Failover.Targets.{IsRefused, no_target-IsRefused}
use redis_meter.Cluster.Failover.Waiting.{WasSeen, reached-WasSeen, wait_for_failover_ends}

abbrev reply : Text
reply = codes "a1 10.0.0.1:6379@16379 myself,master - 0 0 1 connected 0-3"

bounded : All HasBoundedSlots (read_nodes reply).masters
unfolding read_nodes see_lines see_node parse_node_line parse_node trim_space split fields atoi
    digits_value contains trim_right trim_left fields_of text_eq role_from parse_slots
    parse_slot_range
bounded = ((omega arith, tt), tt)

cluster_ok_iff_owned_example :
    ((read_nodes reply).cluster_ok ≡ true) ↔ ((x : ℕ) → x < 16384 → HasOwner (read_nodes reply) x)
cluster_ok_iff_owned_example = cluster_ok_iff_owned reply bounded

no_brace : contains b'{' (codes "a") ≡ false
unfolding contains
no_brace = refl

plain_tag : contains b'}' (codes "u1") ≡ false
unfolding contains
plain_tag = refl

same_tag_same_slot_example :
    get_slot_for_key (tagged (codes "a") (codes "u1") (codes ".x"))
    ≡ get_slot_for_key (tagged [] (codes "u1") (codes ".y"))
same_tag_same_slot_example =
    same_tag_same_slot (codes "a") (codes "u1") (codes ".x") [] (codes ".y") no_brace
      (unfold contains in refl) plain_tag (omega arith)

abbrev log : List (Text × String)
log = (codes "a", "n1") ∷ (codes "b", "n2") ∷ (codes "a", "n1") ∷ []

abbrev net : Net
net = record {
  nodes = λ k. Reply.text reply;
  info = λ k. Reply.other;
  command_error = λ k. none;
  time = λ k. k;
}

abbrev tester : FailoverTester
tester = record { analyzer = none; calls = 0; sent = [] }

abbrev scenario : FailoverScenario
scenario = record { name = codes "any"; kind = codes "manual"; target_node = []; duration = 5 }

no_target-IsRefused_example : IsRefused tester (run_failover_scenario net 9 tester scenario)
no_target-IsRefused_example = no_target-IsRefused net 9 tester scenario refl

wait_for_failover_ends_example : (wait_for_failover net 9 tester (codes "b2") 5).1 ≢ Wait.polling
wait_for_failover_ends_example =
    wait_for_failover_ends net 5 9 tester (codes "b2") 5 (omega arith) (omega arith)

found_at_once : (wait_for_failover net 9 tester (codes "a1") 5).1 ≡ Wait.reached
unfolding wait_for_failover load get_topology read_nodes see_lines see_node parse_node_line
    parse_node trim_space split fields trim_right trim_left fields_of text_eq role_from any
found_at_once = refl

reached-WasSeen_example : WasSeen net 0 (codes "a1") 5
reached-WasSeen_example = reached-WasSeen net 9 tester (codes "a1") 5 found_at_once
