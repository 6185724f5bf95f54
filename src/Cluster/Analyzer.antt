-- ===== src/Cluster/Analyzer.antt =====
-- `GetTopology`, `parseClusterInfo` and `GetNodeForSlot` of internal/cluster/cluster.go. The
-- client's replies are arguments. The set of covered slots, in Go a map from slots to true, is a
-- list without repetitions. A range that ends at the largest `int` makes the source's loop over its
-- slots endless; the loop here makes as many steps as the range has slots.
pub mod Coverage
pub mod Counting
pub mod Full
pub mod Masters
use redis_meter.Base.{
  ℕ, zero, suc, ◌+◌, ◌-◌, ◌≡◌, refl, Bool, true, false, ◌&&◌, Option, none, some, List, [], ◌∷◌,
  ◌++◌, String, ltb, leb, ◌==◌, if◌then◌else◌, length, any,
}
use redis_meter.Base.Int.{ℤ, pos, negsuc, pos_part, neg_part, add, int_le}
use redis_meter.Base.Text.{Text, codes, text_eq, split, trim_space, cut_at, atoi}
use redis_meter.Cluster.Topology.{SlotRange, NodeInfo, ClusterTopology, is_master, parse_node_line}

abbrev pub int_eq : ℤ → ℤ → Bool
int_eq (pos a) (pos b) = a == b
int_eq (negsuc a) (negsuc b) = a == b
int_eq _ _ = false

unfoldable pub has_slot : ℤ → List ℤ → Bool
has_slot slot slots = any (int_eq slot) slots

unfoldable pub add_slot : ℤ → List ℤ → List ℤ
add_slot slot slots = if has_slot slot slots then slots else slot ∷ slots

unfoldable pub cover : ℕ → ℤ → List ℤ → List ℤ
cover zero slot covered = covered
cover (suc n) slot covered = cover n (add slot (pos 1)) (add_slot slot covered)

-- The number of slots from the start to the end.
abbrev pub slot_count : SlotRange → ℕ
slot_count r =
    if int_le r.start r.end
    then suc ((pos_part r.end + neg_part r.start) - (pos_part r.start + neg_part r.end))
    else 0

unfoldable pub cover_ranges : List SlotRange → List ℤ → List ℤ
cover_ranges [] covered = covered
cover_ranges (r ∷ rs) covered = cover_ranges rs (cover (slot_count r) r.start covered)

-- What the loop over the lines has gathered.
pub record Seen : Type 0 where
  pub nodes : List NodeInfo
  pub masters : List NodeInfo
  pub replicas : List NodeInfo
  pub covered : List ℤ

unfoldable pub see_node : Seen → NodeInfo → Seen
see_node seen node =
    if is_master node
    then record seen {
      nodes = seen.nodes ++ (node ∷ []);
      masters = seen.masters ++ (node ∷ []);
      covered = cover_ranges node.slots seen.covered;
    }
    else record seen { nodes = seen.nodes ++ (node ∷ []); replicas = seen.replicas ++ (node ∷ []) }

-- An empty line has no fields, so it tells no node.
abbrev pub see_line : Seen → Text → Seen
see_line seen line = elim (parse_node_line line) [ none ↦ seen | some node ↦ see_node seen node ]

unfoldable pub see_lines : List Text → Seen → Seen
see_lines [] seen = seen
see_lines (line ∷ lines) seen = see_lines lines (see_line seen line)

abbrev pub nothing_seen : Seen
nothing_seen = record { nodes = []; masters = []; replicas = []; covered = [] }

-- The topology before `CLUSTER INFO` is read.
unfoldable pub read_nodes : Text → ClusterTopology
read_nodes reply =
    let seen = see_lines (split 10 (trim_space reply)) nothing_seen in
    record {
      nodes = seen.nodes;
      masters = seen.masters;
      replicas = seen.replicas;
      total_slots = 16384;
      covered_slots = length seen.covered;
      cluster_ok = length seen.covered == 16384;
      current_epoch = pos 0;
      my_epoch = pos 0;
    }

unfoldable pub set_info : Text → Text → ClusterTopology → ClusterTopology
set_info key value t =
    if text_eq key (codes "cluster_state")
    then record t { cluster_ok = text_eq value (codes "ok") }
    else if text_eq key (codes "cluster_current_epoch")
    then record t { current_epoch = (atoi value).0 }
    else if text_eq key (codes "cluster_my_epoch")
    then record t { my_epoch = (atoi value).0 }
    else t

unfoldable pub read_info_lines : List Text → ClusterTopology → ClusterTopology
read_info_lines [] t = t
read_info_lines (line ∷ lines) t =
    read_info_lines lines
      (elim (cut_at b':' (trim_space line)) [ none ↦ t | some (key, value) ↦ set_info key value t ])

unfoldable pub parse_cluster_info : Text → ClusterTopology → ClusterTopology
parse_cluster_info info t = read_info_lines (split 10 info) t

-- What the client answers to a command.
pub data Reply : Type 0 where
  text : Text → Reply
  other : Reply
  failed : String → Reply

pub data ClusterError : Type 0 where
  client : String → ClusterError
  unexpected_type topology_not_loaded no_node : ClusterError

pub data Loaded : Type 0 where
  topology : ClusterTopology → Loaded
  error : ClusterError → Loaded

-- `ClusterAnalyzer`, as the topology it keeps.
abbrev pub Analyzer : Type 0
Analyzer = Option ClusterTopology

abbrev pub with_info : Reply → ClusterTopology → ClusterTopology
with_info (Reply.text info) t = parse_cluster_info info t
with_info Reply.other t = t
with_info (Reply.failed m) t = t

-- The replies are those to `CLUSTER NODES` and `CLUSTER INFO`. A failed call keeps the topology.
unfoldable pub get_topology : Analyzer → Reply → Reply → Analyzer × Loaded
get_topology a (Reply.text nodes) info =
    let t = with_info info (read_nodes nodes) in (some t, Loaded.topology t)
get_topology a Reply.other info = (a, Loaded.error ClusterError.unexpected_type)
get_topology a (Reply.failed m) info = (a, Loaded.error (ClusterError.client m))

abbrev pub in_slot_range : ℤ → SlotRange → Bool
in_slot_range slot r = int_le r.start slot && int_le slot r.end

unfoldable pub owns : ℤ → NodeInfo → Bool
owns slot master = any (in_slot_range slot) master.slots

-- The first master with such a range.
unfoldable pub find_owner : ℤ → List NodeInfo → Option NodeInfo
find_owner slot [] = none
find_owner slot (m ∷ ms) = let rest = find_owner slot ms in if owns slot m then some m else rest

pub data Owner : Type 0 where
  node : NodeInfo → Owner
  error : ClusterError → Owner

abbrev pub owner_or : Option NodeInfo → Owner
owner_or none = Owner.error ClusterError.no_node
owner_or (some n) = Owner.node n

unfoldable pub get_node_for_slot : Analyzer → ℤ → Owner
get_node_for_slot none slot = Owner.error ClusterError.topology_not_loaded
get_node_for_slot (some t) slot = owner_or (find_owner slot t.masters)
