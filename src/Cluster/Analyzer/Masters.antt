-- ===== src/Cluster/Analyzer/Masters.antt =====
-- What holds of the masters of a topology: GetTopology of internal/cluster/cluster.go takes a node for
-- one only if the parser says so.
use redis_meter.Base.{
  ◌≡◌, refl, ◌∙◌, sym, subst, true, Bool-cases, Option-cases, inl, inr, some, List, [], ◌∷◌, ◌++◌,
  All,
}
use redis_meter.Base.Text.{Text, codes, text_eq, split, trim_space, cut_at}
use redis_meter.Cluster.Topology.{NodeInfo, ClusterTopology, is_master, parse_node_line}
use redis_meter.Cluster.Analyzer.{
  Reply, Loaded, Analyzer, Seen, see_node, see_line, see_lines, nothing_seen, read_nodes, set_info,
  read_info_lines, parse_cluster_info, with_info, get_topology,
}

set_info-masters :
    (key value : Text) (t : ClusterTopology) → (set_info key value t).masters ≡ t.masters
unfolding set_info
set_info-masters key value t = elim (Bool-cases (text_eq key (codes "cluster_state"))) [
  | inl a ↦ rw a refl
  | inr a ↦ elim (Bool-cases (text_eq key (codes "cluster_current_epoch"))) [
    | inl b ↦ rw (a, b) refl
    | inr b ↦ elim (Bool-cases (text_eq key (codes "cluster_my_epoch"))) [
      | inl c ↦ rw (a, b, c) refl
      | inr c ↦ rw (a, b, c) refl
    ]
  ]
]

read_info_lines-masters :
    (lines : List Text) (t : ClusterTopology) → (read_info_lines lines t).masters ≡ t.masters
unfolding read_info_lines
read_info_lines-masters [] t = refl
read_info_lines-masters (line ∷ lines) t = elim (Option-cases (cut_at b':' (trim_space line))) [
  | inl e ↦ rw (e, read_info_lines) (read_info_lines-masters lines t)
  | inr ((key, value), e) ↦
      rw (e, read_info_lines)
        (read_info_lines-masters lines (set_info key value t) ∙ set_info-masters key value t)
]

with_info-masters : (r : Reply) (t : ClusterTopology) → (with_info r t).masters ≡ t.masters
unfolding parse_cluster_info
with_info-masters (Reply.text info) t = read_info_lines-masters (split 10 info) t
with_info-masters Reply.other t = refl
with_info-masters (Reply.failed m) t = refl

module _ (P : NodeInfo → Type 0) where
  All-snoc : (ns : List NodeInfo) (n : NodeInfo) → All P ns → P n → All P (ns ++ (n ∷ []))
  All-snoc [] n a p = (p, tt)
  All-snoc (m ∷ ns) n a p = (a.0, All-snoc ns n a.1 p)

  -- The predicate holds of all masters of a topology that was loaded.
  abbrev pub MastersSatisfy : Loaded → Type 0
  MastersSatisfy (Loaded.topology t) = All P t.masters
  MastersSatisfy (Loaded.error e) = Unit

  module _
      (parsed : (line : Text) (n : NodeInfo)
        → parse_node_line line ≡ some n
        → is_master n ≡ true
        → P n) where
    see_node-All :
        (seen : Seen) (line : Text) (n : NodeInfo)
        → parse_node_line line ≡ some n
        → All P seen.masters
        → All P (see_node seen n).masters
    unfolding see_node
    see_node-All seen line n q a = elim (Bool-cases (is_master n)) [
      | inl e ↦ rw e (All-snoc seen.masters n a (parsed line n q e))
      | inr e ↦ rw e a
    ]

    see_lines-All :
        (lines : List Text) (seen : Seen)
        → All P seen.masters
        → All P (see_lines lines seen).masters
    unfolding see_lines
    see_lines-All [] seen a = a
    see_lines-All (line ∷ lines) seen a = elim (Option-cases (parse_node_line line)) [
      | inl e ↦ rw (e, see_lines, see_line) (see_lines-All lines seen a)
      | inr (n, e) ↦
          rw (e, see_lines, see_line)
            (see_lines-All lines (see_node seen n) (see_node-All seen line n e a))
    ]

    pub get_topology-MastersSatisfy :
        (a : Analyzer) (nodes info : Reply) → MastersSatisfy (get_topology a nodes info).1
    unfolding get_topology read_nodes
    get_topology-MastersSatisfy a (Reply.text nodes) info =
        subst (All P) (sym (with_info-masters info (read_nodes nodes)))
          (see_lines-All (split 10 (trim_space nodes)) nothing_seen tt)
    get_topology-MastersSatisfy a Reply.other info = tt
    get_topology-MastersSatisfy a (Reply.failed m) info = tt
