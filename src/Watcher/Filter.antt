-- ===== src/Watcher/Filter.antt =====
-- internal/watcher/namespace_filter.go: the allow/deny filter, replaced at run time.
pub mod Decision
use k8s_deploy_monitor_opera.Prelude.{
  Bool, true, not, List, [], ◌∷◌, GoString, Map, insert, index, length, ltb, if◌then◌else◌,
}

pub record NamespaceFilter : Type 0 where
  pub allowlist : Map Bool
  pub denylist : Map Bool

-- the loop of `toSet`
unfoldable pub to_set_from : Map Bool → List GoString → Map Bool
to_set_from m [] = m
to_set_from m (item ∷ items) = to_set_from (insert item true m) items

unfoldable pub to_set : List GoString → Map Bool
to_set items = to_set_from [] items

unfoldable pub update : List GoString → List GoString → NamespaceFilter → NamespaceFilter
update allow deny f = record f { allowlist = to_set allow; denylist = to_set deny }

unfoldable pub new_namespace_filter : List GoString → List GoString → NamespaceFilter
new_namespace_filter allow deny = update allow deny (record { allowlist = []; denylist = [] })

unfoldable pub allowed : NamespaceFilter → GoString → Bool
allowed f ns =
    if ltb 0 (length f.allowlist) then index f.allowlist ns else not (index f.denylist ns)
