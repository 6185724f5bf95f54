-- ===== src/Cluster/Failover/Waiting.antt =====
-- What `WaitForFailover` of internal/cluster/cluster.go waits for.
use redis_meter.Base.{
  ℕ, zero, suc, ◌+◌, ◌<◌, ◌≤◌, ◌≡◌, ◌≢◌, ◌⊎◌, refl, ap, true, Bool-cases, inl, inr, none, List, [],
  ◌∷◌, All, Any, any, ltb, ltb→lt, arith,
}
use native.Mathlib.Nat.{add-zero}
use redis_meter.Base.Text.{Text, codes, text_eq}
use redis_meter.Cluster.Topology.{NodeInfo, ClusterTopology}
use redis_meter.Cluster.Analyzer.Masters.{MastersSatisfy, get_topology-MastersSatisfy}
use redis_meter.Cluster.Analyzer.{Reply, Loaded, Analyzer, get_topology}
use redis_meter.Cluster.Failover.{
  Net, FailoverTester, Wait, is_named, shows_master, load, wait_for_failover,
}

-- What `GetTopology` loads does not depend on what was loaded before.
get_topology-same :
    (a b : Analyzer) (nodes info : Reply)
    → (get_topology a nodes info).1 ≡ (get_topology b nodes info).1
unfolding get_topology
get_topology-same a b (Reply.text nodes) info = refl
get_topology-same a b Reply.other info = refl
get_topology-same a b (Reply.failed m) info = refl

-- The node has the role of a master, and this address or identifier.
abbrev pub IsPromoted : Text → NodeInfo → Type 0
IsPromoted expected n = (n.role ≡ codes "master") × ((n.address ≡ expected) ⊎ (n.id ≡ expected))

text_eq-same : (a b : Text) → text_eq a b ≡ true → a ≡ b
unfolding text_eq
text_eq-same [] [] h = refl
text_eq-same [] (c ∷ b) h = absurd (ground (arith, h))
text_eq-same (c ∷ a) [] h = absurd (ground (arith, h))
text_eq-same (c ∷ a) (d ∷ b) h = ground (arith, h, text_eq-same a b)

named :
    (expected : Text) (n : NodeInfo)
    → is_named expected n ≡ true
    → (n.address ≡ expected) ⊎ (n.id ≡ expected)
named expected n h = elim (Bool-cases (text_eq n.address expected)) [
  | inl e ↦ inl (text_eq-same n.address expected e)
  | inr e ↦ inr (text_eq-same n.id expected (ground (arith, h, e)))
]

any-IsPromoted :
    (expected : Text) (ns : List NodeInfo)
    → All (λ n. n.role ≡ codes "master") ns
    → any (is_named expected) ns ≡ true
    → Any (IsPromoted expected) ns
unfolding any
any-IsPromoted expected [] a h = absurd (ground (arith, h))
any-IsPromoted expected (n ∷ ns) a h = elim (Bool-cases (is_named expected n)) [
  | inl e ↦ inl (a.0, named expected n e)
  | inr e ↦ inr (any-IsPromoted expected ns a.1 (ground (arith, h, e)))
]

-- The masters of a loaded topology have the role.
role-IsMaster :
    (a : Analyzer) (nodes info : Reply)
    → MastersSatisfy (λ n. n.role ≡ codes "master") (get_topology a nodes info).1
role-IsMaster a nodes info =
    get_topology-MastersSatisfy (λ n. n.role ≡ codes "master")
      (λ line n e m. text_eq-same n.role (codes "master") m) a nodes info

shown :
    (expected : Text) (l : Loaded)
    → MastersSatisfy (λ n. n.role ≡ codes "master") l
    → shows_master expected l ≡ true
    → (t : ClusterTopology) × (l ≡ Loaded.topology t) × Any (IsPromoted expected) t.masters
shown expected (Loaded.topology t) a h = (t, refl, any-IsPromoted expected t.masters a h)
shown expected (Loaded.error e) a h = absurd (ground (arith, h))

module _ (net : Net) where
  -- What the cluster answers at a call.
  abbrev pub answer : ℕ → Loaded
  answer k = (get_topology none (net.nodes k) (net.info k)).1

  -- A poll from `k` on, begun before the deadline, loaded a topology with a node of the role of a
  -- master among its masters that has the expected address or identifier.
  pub record WasSeen (k : ℕ) (expected : Text) (deadline : ℕ) : Type 0 where
    call : ℕ
    from : k ≤ call
    in_time : net.time call < deadline
    seen : ClusterTopology
    loaded : answer call ≡ Loaded.topology seen
    promoted : Any (IsPromoted expected) seen.masters

  load-answer :
      (t : FailoverTester)
      → ((load net t).1 ≡ answer t.calls) × ((load net t).0.calls ≡ t.calls + 1)
  unfolding load
  load-answer t = (get_topology-same t.analyzer none (net.nodes t.calls) (net.info t.calls), refl)

  -- WaitForFailover reports success only if some poll of it, begun before the deadline, loaded a topology
  -- that has, among its masters, a node whose role is that of a master and whose address or
  -- identifier is the expected one.
  pub reached-WasSeen :
      (fuel : ℕ) (t : FailoverTester) (expected : Text) (deadline : ℕ)
      → (wait_for_failover net fuel t expected deadline).1 ≡ Wait.reached
      → WasSeen t.calls expected deadline
  unfolding wait_for_failover
  reached-WasSeen zero t expected deadline h = cc
  reached-WasSeen (suc fuel) t expected deadline h =
      let (l, c) = load-answer t in
      elim (Bool-cases (ltb (net.time t.calls) deadline)) [
        | inr late ↦ absurd (not_reached Wait.expired (rw (late, wait_for_failover) at h) (λ e. cc))
        | inl early ↦ elim (Bool-cases (shows_master expected (load net t).1)) [
          | inl seen ↦
              let (u, e, p) =
                shown expected (answer t.calls)
                  (role-IsMaster none (net.nodes t.calls) (net.info t.calls)) (rw l at seen) in
              record {
                call = t.calls;
                from = omega arith;
                in_time = ltb→lt _ _ early;
                seen = u;
                loaded = e;
                promoted = p;
              }
          | inr other ↦
              let s =
                reached-WasSeen fuel (load net t).0 expected deadline
                  (rw (early, other, wait_for_failover) at h) in
              record {
                call = s.call;
                from = later s.from c;
                in_time = s.in_time;
                seen = s.seen;
                loaded = s.loaded;
                promoted = s.promoted;
              }
        ]
      ]
    where
      not_reached : (w : Wait) → w ≡ Wait.reached → w ≢ Wait.reached → ⊥
      not_reached w e n = n e

      later : {j c : ℕ} → c ≤ j → c ≡ t.calls + 1 → t.calls ≤ j
      later le e = omega arith

  -- The loop ends within `n` polls and one more, if the clock has reached the deadline by then.
  pub wait_for_failover_ends :
      (n fuel : ℕ) (t : FailoverTester) (expected : Text) (deadline : ℕ)
      → n < fuel
      → deadline ≤ net.time (t.calls + n)
      → (wait_for_failover net fuel t expected deadline).1 ≢ Wait.polling
  unfolding wait_for_failover
  wait_for_failover_ends n zero t expected deadline b d = absurd (omega arith)
  wait_for_failover_ends n (suc fuel) t expected deadline b d =
      elim (Bool-cases (ltb (net.time t.calls) deadline)) [
        | inr late ↦ rw (late, wait_for_failover) (λ e. cc)
        | inl early ↦ elim (Bool-cases (shows_master expected (load net t).1)) [
          | inl seen ↦ rw (early, seen, wait_for_failover) (λ e. cc)
          | inr other ↦
              let (m, s) = before n (ltb→lt _ _ early) d in
              let later = ap net.time (same_call m s) in
              rw (early, other, wait_for_failover)
                (wait_for_failover_ends m fuel (load net t).0 expected deadline (omega arith)
                  (rw later at (rw s at d)))
        ]
      ]
    where
      before :
          (k : ℕ)
          → net.time t.calls < deadline
          → deadline ≤ net.time (t.calls + k)
          → (m : ℕ) × (k ≡ suc m)
      before zero e f = absurd (late_now (rw (add-zero t.calls) at f) e)
        where
          late_now : deadline ≤ net.time t.calls → net.time t.calls < deadline → ⊥
          late_now x y = omega arith
      before (suc m) e f = (m, refl)

      same_call : (m : ℕ) → n ≡ suc m → t.calls + suc m ≡ (load net t).0.calls + m
      same_call m s = omega (arith, (load-answer t).1)
