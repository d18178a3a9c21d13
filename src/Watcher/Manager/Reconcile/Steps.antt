-- ===== src/Watcher/Manager/Reconcile/Steps.antt =====
-- What the parts of `reconcile` keep of the manager's maps.
use k8s_deploy_monitor_opera.Prelude.{
  ℕ, true, [], ◌∷◌, GoString, Map, remove, has_key, All, All-insert, All-remove, has_key-insert,
  has_key-remove, eq_iff, ◌≡◌, refl, sym, ◌∙◌, ap, arith, inl, inr, Bool-cases,
}
use k8s_deploy_monitor_opera.Watcher.Informer.{health_status}
use k8s_deploy_monitor_opera.Watcher.Manager.{
  ClusterInfo, RetryEntry, Watcher, Manager, stop_watcher, queue_retry, new_entry,
}
use k8s_deploy_monitor_opera.Watcher.Manager.Invariant.{
  covered, WatcherNamed, EntryNamed, IsNamed, IsSound,
}
use k8s_deploy_monitor_opera.Watcher.Manager.Reconcile.{
  Tick, check_watcher, check_health, set_entry,
}

module _ {C : Type 0} where
  -- A step that records no file and loses no cluster.
  pub record Keeps (m m' : Manager C) : Type 0 where
    pub names : IsNamed m → IsNamed m'
    pub files : m'.file_hashes ≡ m.file_hashes
    pub covers : (k : GoString) → covered k m ≡ true → covered k m' ≡ true

  pub Keeps-refl : (m : Manager C) → Keeps m m
  Keeps-refl m = record { names = λ n. n; files = refl; covers = λ k c. c }

  pub Keeps-trans : (a b c : Manager C) → Keeps a b → Keeps b c → Keeps a c
  Keeps-trans a b c h g = record {
    names = λ n. g.names (h.names n);
    files = g.files ∙ h.files;
    covers = λ k x. g.covers k (h.covers k x);
  }

  pub Keeps-IsSound : (m m' : Manager C) → Keeps m m' → IsSound m → IsSound m'
  Keeps-IsSound m m' h s = record {
    named = h.names s.named;
    files_covered = λ k r. h.covers k (s.files_covered k (ap (has_key k) (sym h.files) ∙ r));
  }

  pub set_entry-Keeps :
      (id : GoString) (entry : RetryEntry C) (m : Manager C)
      → (entry.cluster).id ≡ id
      → Keeps m (set_entry id entry m)
  unfolding set_entry
  set_entry-Keeps id entry m e = record {
    names = λ n. record {
      watchers_named = n.watchers_named;
      entries_named = All-insert EntryNamed id entry m.pending_retry e n.entries_named;
    };
    files = refl;
    covers = λ k c. ground (arith, has_key-insert id k entry m.pending_retry);
  }

  pub queue_retry-Keeps :
      (now : ℕ) (id err : GoString) (cluster : ClusterInfo C) (m : Manager C)
      → cluster.id ≡ id
      → Keeps m (queue_retry now id cluster err m)
  unfolding queue_retry new_entry set_entry
  queue_retry-Keeps now id err cluster m e = set_entry-Keeps id (new_entry now cluster err) m e

  drop_watcher-Keeps :
      (id : GoString) (w : Watcher) (m : Manager C)
      → has_key id m.pending_retry ≡ true
      → Keeps m (record (stop_watcher w m) { watchers = remove id m.watchers })
  unfolding stop_watcher
  drop_watcher-Keeps id w m p = record {
    names = λ n. record {
      watchers_named = All-remove WatcherNamed id m.watchers n.watchers_named;
      entries_named = n.entries_named;
    };
    files = refl;
    covers = λ k c. ground (arith, has_key-remove id k m.watchers, eq_iff id k);
  }

  replace_watcher-Keeps :
      (now : ℕ) (id err : GoString) (cluster : ClusterInfo C) (w : Watcher) (m : Manager C)
      → cluster.id ≡ id
      → Keeps m (
          queue_retry now id cluster err
            (record (stop_watcher w m) { watchers = remove id m.watchers }))
  unfolding stop_watcher queue_retry new_entry
  replace_watcher-Keeps now id err cluster w m e = record {
    names = λ n. record {
      watchers_named = All-remove WatcherNamed id m.watchers n.watchers_named;
      entries_named = All-insert EntryNamed id _ m.pending_retry e n.entries_named;
    };
    files = refl;
    covers = λ k c. ground (
      arith,
      has_key-remove id k m.watchers,
      has_key-insert id k (new_entry now cluster err) m.pending_retry,
    );
  }

  check_watcher-Keeps :
      (t : Tick C) (id : GoString) (w : Watcher) (m : Manager C)
      → WatcherNamed (id, w)
      → Keeps m (check_watcher t id w m)
  unfolding check_watcher stop_watcher
  check_watcher-Keeps t id w m named = elim (Bool-cases (health_status (t.state_of w)).0) [
    | inl healthy ↦ rw healthy (Keeps-refl m)
    | inr sick ↦ elim (Bool-cases (has_key id m.pending_retry)) [
      | inl pending ↦ rw (sick, pending) (unfold stop_watcher in drop_watcher-Keeps id w m pending)
      | inr idle ↦ rw (sick, idle) (replace_watcher-Keeps _ id _ _ w m named)
    ]
  ]

  pub check_health-Keeps :
      (t : Tick C) (ws : Map Watcher) (m : Manager C)
      → All WatcherNamed ws
      → Keeps m (check_health t ws m)
  unfolding check_health
  check_health-Keeps t [] m n = Keeps-refl m
  check_health-Keeps t ((id, w) ∷ rest) m n =
      Keeps-trans m (check_watcher t id w m) _ (check_watcher-Keeps t id w m n.0)
        (check_health-Keeps t rest _ n.1)
