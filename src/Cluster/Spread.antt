-- ===== src/Cluster/Spread.antt =====
-- `SlotDistribution` of internal/cluster/cluster.go: how many accesses each slot and each node has
-- had. The group of a slot, in Go the text of its first and last slot, is here these two numbers.
pub mod Totals
use redis_meter.Base.{
  ℕ, ◌+◌, ◌*◌, ◌/◌, List, [], ◌∷◌, String, ◌==◌, ◌&&◌, Option, none, some, if◌then◌else◌,
}
use redis_meter.Base.Int.{ℤ, pos, add}
use redis_meter.Base.Dict.{Dict, get, put}
use redis_meter.Base.Text.{Text}
use redis_meter.Cluster.Slot.{get_slot_for_key}

-- A map from numbers to counts.
abbrev pub Counts : Type 0
Counts = List (ℕ × ℤ)

-- `m[k] += d`
unfoldable pub add_count : Counts → ℕ → ℤ → Counts
add_count [] k d = (k, add (pos 0) d) ∷ []
add_count ((j, v) ∷ m) k d =
    let rest = add_count m k d in if j == k then (j, add v d) ∷ m else (j, v) ∷ rest

pub record SlotDistribution : Type 0 where
  pub counts : Counts
  pub node_count : Dict ℤ

unfoldable pub new_slot_distribution : SlotDistribution
new_slot_distribution = record { counts = []; node_count = [] }

abbrev pub count_or_zero : Option ℤ → ℤ
count_or_zero none = pos 0
count_or_zero (some n) = n

unfoldable pub add_node_count : Dict ℤ → String → Dict ℤ
add_node_count d address = put d address (add (count_or_zero (get d address)) (pos 1))

unfoldable pub record_key : SlotDistribution → Text → String → SlotDistribution
record_key d key address = record {
  counts = add_count d.counts (get_slot_for_key key) (pos 1);
  node_count = add_node_count d.node_count address;
}

pub record DistributionStats : Type 0 where
  pub total_ops : ℤ
  pub node_ops : Dict ℤ
  pub slot_groups : Counts

unfoldable pub sum_from : ℤ → Counts → ℤ
sum_from total [] = total
sum_from total ((slot, count) ∷ m) = sum_from (add total count) m

unfoldable pub copy_nodes : Dict ℤ → Dict ℤ → Dict ℤ
copy_nodes copied [] = copied
copy_nodes copied ((node, count) ∷ d) = copy_nodes (put copied node count) d

-- The first slot of the group, which ends 999 slots later.
abbrev pub group_of : ℕ → ℕ
group_of slot = slot / 1000 * 1000

unfoldable pub group_slots : Counts → Counts → Counts
group_slots groups [] = groups
group_slots groups ((slot, count) ∷ m) = group_slots (add_count groups (group_of slot) count) m

unfoldable pub get_distribution_stats : SlotDistribution → DistributionStats
get_distribution_stats d = record {
  total_ops = sum_from (pos 0) d.counts;
  node_ops = copy_nodes [] d.node_count;
  slot_groups = group_slots [] d.counts;
}
