-- ===== src/Watcher/ConfigWatcher/History.antt =====
-- What the filter decides after any history of the MonitorConfig objects.
use k8s_deploy_monitor_opera.Prelude.{
  ℕ, Bool, Option, none, some, List, [], ◌∷◌, GoString, str, Map, lookup, ◌==◌, on_some,
  if◌then◌else◌, ◌≡◌, refl, inl, inr, Bool-cases, Option-cases,
}
use k8s_deploy_monitor_opera.Record.{Value}
use k8s_deploy_monitor_opera.Watcher.Filter.{NamespaceFilter, allowed}
use k8s_deploy_monitor_opera.Watcher.Filter.Decision.{admits, allowed-update}
use k8s_deploy_monitor_opera.Watcher.ConfigWatcher.{
  MonitorConfig, Observed, unstructured, other_object, ConfigClient, to_string_slice, apply_config,
  initial_sync, handle_config_change, handle_changes, watch_config,
}

-- The allow list and the deny list of a configuration.
abbrev pub Lists : Type 0
Lists = List GoString × List GoString

abbrev pub spec_lists : Map Value → Lists
spec_lists m = (
  to_string_slice (lookup (str "namespaceAllowlist") m),
  to_string_slice (lookup (str "namespaceDenylist") m),
)

-- The lists that an object sets: only "default" with a spec sets any.
abbrev pub lists_of : Observed → Option Lists
lists_of other_object = none
lists_of (unstructured name spec) =
    if name == str "default" then on_some spec none (λ m. some (spec_lists m)) else none

-- The last lists that a history sets, or those before it.
abbrev pub last_lists : Option Lists → List (ℕ × Observed) → Option Lists
last_lists before [] = before
last_lists before ((now, o) ∷ rest) = last_lists (on_some (lists_of o) before (λ l. some l)) rest

-- the decision by the lists that are set, or by the filter where none are
abbrev pub decides : NamespaceFilter → Option Lists → GoString → Bool
decides f none ns = allowed f ns
decides f (some (allow, deny)) ns = admits allow deny ns

module _ (client : ConfigClient) (f : NamespaceFilter) (ns : GoString) where
  handle_config_change-decides :
      (now : ℕ) (o : Observed) (before : Option Lists) (r : NamespaceFilter × client.Server)
      → allowed r.0 ns ≡ decides f before ns
      → allowed (handle_config_change client now o r).0 ns
        ≡ decides f (on_some (lists_of o) before (λ l. some l)) ns
  unfolding handle_config_change apply_config
  handle_config_change-decides now other_object before r h = h
  handle_config_change-decides now (unstructured name none) before r h =
      elim (Bool-cases (name == str "default")) [
        | inl same ↦ rw same h
        | inr another ↦ rw another h
      ]
  handle_config_change-decides now (unstructured name (some m)) before r h =
      elim (Bool-cases (name == str "default")) [
        | inl same ↦ rw same (allowed-update r.0 _ _ ns)
        | inr another ↦ rw another h
      ]

  handle_changes-decides :
      (changes : List (ℕ × Observed)) (before : Option Lists) (r : NamespaceFilter × client.Server)
      → allowed r.0 ns ≡ decides f before ns
      → allowed (handle_changes client changes r).0 ns ≡ decides f (last_lists before changes) ns
  unfolding handle_changes
  handle_changes-decides [] before r h = h
  handle_changes-decides ((now, o) ∷ rest) before r h =
      handle_changes-decides rest _ _ (handle_config_change-decides now o before r h)

  -- the lists that the first read finds
  abbrev pub first_lists : Option MonitorConfig → Option Lists
  first_lists o = on_some o none (λ mc. some (mc.namespace_allowlist, mc.namespace_denylist))

  initial_sync-decides :
      (now : ℕ) (s : client.Server)
      → allowed (initial_sync client now (f, s)).0 ns ≡ decides f (first_lists (client.get s)) ns
  unfolding initial_sync apply_config
  initial_sync-decides now s = elim (Option-cases (client.get s)) [
    | inl missing ↦ rw missing refl
    | inr (mc, found) ↦ rw found (allowed-update f _ _ ns)
  ]

  -- After the first read and any history of objects, the filter allows a namespace exactly if the
  -- lists allow it that were set last, by the first read or by an object "default" with a spec; if
  -- none were set, it decides as at the start.
  pub watch_config-decides :
      (now : ℕ) (changes : List (ℕ × Observed)) (s : client.Server)
      → allowed (watch_config client now changes (f, s)).0 ns
        ≡ decides f (last_lists (first_lists (client.get s)) changes) ns
  unfolding watch_config
  watch_config-decides now changes s =
      handle_changes-decides changes _ _ (initial_sync-decides now s)
