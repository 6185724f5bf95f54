-- ===== src/Cluster/Topology.antt =====
-- The nodes that the lines of `CLUSTER NODES` tell: the parsers of internal/cluster/cluster.go.
pub mod Nonnegative
use redis_meter.Base.{ℕ, Bool, true, false, Option, none, some, List, [], ◌∷◌, if◌then◌else◌}
use redis_meter.Base.Int.{ℤ, pos}
use redis_meter.Base.Text.{Text, codes, text_eq, split, fields, contains, has_prefix, atoi}

pub record SlotRange : Type 0 where
  pub start : ℤ
  pub end : ℤ

pub record NodeInfo : Type 0 where
  pub id : Text
  pub address : Text
  pub host : Text
  pub port : ℤ
  pub role : Text
  pub master_id : Text
  pub slots : List SlotRange
  pub flags : List Text
  pub connected : Bool
  pub ping_sent : ℤ
  pub pong_recv : ℤ
  pub config_epoch : ℤ
  pub link_state : Text
  pub replicas : List Text

pub record ClusterTopology : Type 0 where
  pub nodes : List NodeInfo
  pub masters : List NodeInfo
  pub replicas : List NodeInfo
  pub total_slots : ℕ
  pub covered_slots : ℕ
  pub cluster_ok : Bool
  pub current_epoch : ℤ
  pub my_epoch : ℤ

abbrev pub one_slot : ℤ × Bool → Option SlotRange
one_slot (slot, false) = none
one_slot (slot, true) = some (record { start = slot; end = slot })

abbrev pub two_slots : List Text → Option SlotRange
two_slots (a ∷ b ∷ []) = some (record { start = (atoi a).0; end = (atoi b).0 })
two_slots _ = none

-- The errors of the two numbers of a range are dropped.
unfoldable pub parse_slot_range : Text → Option SlotRange
parse_slot_range s =
    if contains b'-' s
    then elim (two_slots (split b'-' s)) [ none ↦ one_slot (atoi s) | some r ↦ some r ]
    else one_slot (atoi s)

abbrev pub role_of : Text → Text → Text
role_of flag role =
    if text_eq flag (codes "master")
    then codes "master"
    else if text_eq flag (codes "slave")
    then codes "replica"
    else if text_eq flag (codes "replica")
    then codes "replica"
    else role

-- The last flag that tells a role counts.
unfoldable pub role_from : List Text → Text → Text
role_from [] role = role
role_from (flag ∷ flags) role = role_from flags (role_of flag role)

abbrev pub or_unknown : Text → Text
or_unknown [] = codes "unknown"
or_unknown role = role

-- Slots that are imported or migrated, in brackets, and what does not parse are left out.
unfoldable pub parse_slots : List Text → List SlotRange
parse_slots [] = []
parse_slots (s ∷ rest) =
    let others = parse_slots rest in
    if has_prefix b'[' s
    then others
    else elim (parse_slot_range s) [ none ↦ others | some r ↦ r ∷ others ]

abbrev pub head_or : Text → List Text → Text
head_or d [] = d
head_or d (t ∷ ts) = t

abbrev pub host_port : List Text → Text × ℤ
host_port (h ∷ p ∷ []) = (h, (atoi p).0)
host_port _ = ([], pos 0)

abbrev pub is_master : NodeInfo → Bool
is_master n = text_eq n.role (codes "master")

-- The flag `fail` clears `Connected`, which the link state then sets, whatever the flags.
unfoldable pub parse_node : List Text → Option NodeInfo
parse_node (id ∷ address ∷ flag_text ∷ master ∷ ping ∷ pong ∷ epoch ∷ link ∷ slot_texts) =
    let (host, port) = host_port (split b':' (head_or [] (split b'@' address))) in
    let flags = split b',' flag_text in
    let role = or_unknown (role_from flags []) in
    some (record {
      id = id;
      address = address;
      host = host;
      port = port;
      role = role;
      master_id = if text_eq master (codes "-") then [] else master;
      slots = if text_eq role (codes "master") then parse_slots slot_texts else [];
      flags = flags;
      connected = text_eq link (codes "connected");
      ping_sent = (atoi ping).0;
      pong_recv = (atoi pong).0;
      config_epoch = (atoi epoch).0;
      link_state = link;
      replicas = [];
    })
parse_node _ = none

unfoldable pub parse_node_line : Text → Option NodeInfo
parse_node_line line = parse_node (fields line)
