-- ===== src/Watcher/Manager/Startup.antt =====
-- The clusters that `Start` of manager.go is given, and what becomes of them.
use k8s_deploy_monitor_opera.Prelude.{
  ℕ, true, false, not, ◌&&◌, Option, List, [], ◌∷◌, GoString, Map, has_key, length, eqb, All,
  has_key-nil, on_some_both, if_both, Bool, ◌≡◌, refl, sym, ap, subst, ◌∙◌, arith,
}
use k8s_deploy_monitor_opera.Watcher.Manager.{
  ClusterInfo, Manager, World, start_watcher, start_one, is_interrupted, start_all,
  load_file_hashes, start,
}
use k8s_deploy_monitor_opera.Watcher.Manager.Invariant.{covered}
use k8s_deploy_monitor_opera.Watcher.Manager.Rescan.Sound.{queue_retry-covered, started-covered}
use k8s_deploy_monitor_opera.Watcher.Manager.Reconcile.Steps.{Keeps, Keeps-trans, queue_retry-Keeps}
use k8s_deploy_monitor_opera.Watcher.Manager.Reconcile.Sound.{start-Keeps}

module _ {C : Type 0} (world : World C) where
  start_one-Keeps :
      (now : ℕ) (cluster : ClusterInfo C) (m : Manager C) → Keeps m (start_one world now cluster m)
  unfolding start_one
  start_one-Keeps now cluster m =
      let m' = (start_watcher world cluster m).0 in
      on_some_both {B = Manager C} (Keeps m) (start_watcher world cluster m).1 _ _
        (λ _. start-Keeps world cluster m)
        (λ e _.
          Keeps-trans m m' _ (start-Keeps world cluster m)
            (queue_retry-Keeps now cluster.id e cluster m' refl))

  start_one-covered :
      (now : ℕ) (cluster : ClusterInfo C) (m : Manager C)
      → covered cluster.id (start_one world now cluster m) ≡ true
  unfolding start_one
  start_one-covered now cluster m =
      on_some_both {B = Manager C} (λ x. covered cluster.id x ≡ true)
        (start_watcher world cluster m).1 _ _
        (λ e. started-covered world now cluster.id [] cluster refl m e)
        (λ e _. queue_retry-covered now cluster.id e cluster (start_watcher world cluster m).0)

  start_all-keeps :
      (k : GoString) (clusters : List (ℕ × Bool × ClusterInfo C)) (m : Manager C)
      → covered k m ≡ true
      → covered k (start_all world clusters m).0 ≡ true
  unfolding start_all
  start_all-keeps k [] m c = c
  start_all-keeps k ((now, cancelled, cluster) ∷ rest) m c =
      let kept : covered k (start_one world now cluster m) ≡ true =
        (start_one-Keeps now cluster m).covers k c in
      if_both {A = Manager C × Bool} (λ r. covered k r.0 ≡ true)
        (is_interrupted world cancelled cluster m (eqb (length rest) 0)) _ _ kept
        (start_all-keeps k rest (start_one world now cluster m) kept)

  -- the context is not cancelled while the clusters are started
  abbrev pub IsUncancelled : List (ℕ × Bool × ClusterInfo C) → Type 0
  IsUncancelled clusters = All (λ e. e.1 ≡ false) clusters

  not_interrupted :
      (cluster : ClusterInfo C) (m : Manager C) (is_last cancelled : Bool)
      → cancelled ≡ false
      → is_interrupted world cancelled cluster m is_last ≡ false
  unfolding is_interrupted
  not_interrupted cluster m is_last cancelled e = rw e refl

  start_all-next :
      (now : ℕ) (cancelled : Bool) (cluster : ClusterInfo C)
      (rest : List (ℕ × Bool × ClusterInfo C)) (m : Manager C)
      → cancelled ≡ false
      → start_all world ((now, cancelled, cluster) ∷ rest) m
        ≡ start_all world rest (start_one world now cluster m)
  unfolding start_all
  start_all-next now cancelled cluster rest m e =
      rw (not_interrupted cluster m (eqb (length rest) 0) cancelled e) refl

  start_all-completes :
      (clusters : List (ℕ × Bool × ClusterInfo C)) (m : Manager C)
      → IsUncancelled clusters
      → (start_all world clusters m).1 ≡ true
  unfolding start_all
  start_all-completes [] m u = refl
  start_all-completes ((now, cancelled, cluster) ∷ rest) m u =
      ap (λ r. r.1) (start_all-next now cancelled cluster rest m u.0)
      ∙ start_all-completes rest (start_one world now cluster m) u.1

  start_all-covers :
      (clusters : List (ℕ × Bool × ClusterInfo C)) (m : Manager C)
      → IsUncancelled clusters
      → All (λ e. covered (e.2).id (start_all world clusters m).0 ≡ true) clusters
  start_all-covers [] m u = tt
  start_all-covers ((now, cancelled, cluster) ∷ rest) m u =
      subst {A = Manager C × Bool}
        (λ r. (covered cluster.id r.0 ≡ true) × All (λ e. covered (e.2).id r.0 ≡ true) rest)
        (sym (start_all-next now cancelled cluster rest m u.0))
        (
          start_all-keeps cluster.id rest _ (start_one-covered now cluster m),
          start_all-covers rest (start_one world now cluster m) u.1,
        )

  length_of_has_key :
      {V : Type 0} (k : GoString) (m : Map V) → has_key k m ≡ true → eqb (length m) 0 ≡ false
  length_of_has_key {V} k [] h = cc (h, has_key-nil V k)
  length_of_has_key k (e ∷ m) h = ground arith

  start_ok_of_covered :
      (k : GoString) (m : Manager C)
      → covered k m ≡ true
      → not (eqb (length m.watchers) 0 && eqb (length m.pending_retry) 0) ≡ true
  start_ok_of_covered k m c =
      ground (arith, length_of_has_key k m.watchers, length_of_has_key k m.pending_retry)

  load_file_hashes-covered :
      (snapshot : Option (Map GoString)) (k : GoString) (m : Manager C)
      → covered k (load_file_hashes snapshot m) ≡ covered k m
  unfolding load_file_hashes
  load_file_hashes-covered snapshot k m = ground arith

  All-covered_same :
      (clusters : List (ℕ × Bool × ClusterInfo C)) (m m' : Manager C)
      → ((k : GoString) → covered k m' ≡ covered k m)
      → All (λ e. covered (e.2).id m ≡ true) clusters
      → All (λ e. covered (e.2).id m' ≡ true) clusters
  All-covered_same [] m m' same h = tt
  All-covered_same ((now, cancelled, cluster) ∷ rest) m m' same h =
      (same cluster.id ∙ h.0, All-covered_same rest m m' same h.1)

  start-completed :
      (snapshot : Option (Map GoString)) (clusters : List (ℕ × Bool × ClusterInfo C))
      (m : Manager C)
      → (start_all world clusters m).1 ≡ true
      → let m₂ = load_file_hashes snapshot (start_all world clusters m).0 in
        start world snapshot clusters m
        ≡ (m₂, not (eqb (length m₂.watchers) 0 && eqb (length m₂.pending_retry) 0))
  unfolding start
  start-completed snapshot clusters m e = rw e refl

  -- `Start` with at least one cluster, and a context that is not cancelled in the waits between the
  -- clusters, succeeds whatever starts fail, and every configured cluster is then watched or queued
  -- for a retry.
  pub start_covers :
      (snapshot : Option (Map GoString)) (now : ℕ) (cancelled : Bool) (first : ClusterInfo C)
      (rest : List (ℕ × Bool × ClusterInfo C)) (m : Manager C)
      → let clusters = (now, cancelled, first) ∷ rest in
        let (m', ok) = start world snapshot clusters m in
        IsUncancelled clusters → (ok ≡ true) × All (λ e. covered (e.2).id m' ≡ true) clusters
  start_covers snapshot now cancelled first rest m u =
      let clusters : List (ℕ × Bool × ClusterInfo C) = (now, cancelled, first) ∷ rest in
      let m₁ : Manager C = (start_all world clusters m).0 in
      let m₂ : Manager C = load_file_hashes snapshot m₁ in
      let all =
        All-covered_same clusters m₁ m₂ (λ k. load_file_hashes-covered snapshot k m₁)
          (start_all-covers clusters m u) in
      subst {A = Manager C × Bool}
        (λ r. (r.1 ≡ true) × All (λ e. covered (e.2).id r.0 ≡ true) clusters)
        (sym (start-completed snapshot clusters m (start_all-completes clusters m u)))
        (start_ok_of_covered first.id m₂ all.0, all)
