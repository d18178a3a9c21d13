-- ===== src/Config/Settings/Namespaces.antt =====
-- The namespaces of the settings and those of the namespace filter.
use k8s_deploy_monitor_opera.Prelude.{
  not, List, [], ◌∷◌, GoString, eq_iff, if◌then◌else◌, ◌≡◌, refl, sym, ap, ◌∙◌, arith,
}
use k8s_deploy_monitor_opera.Config.Fields.{Config}
use k8s_deploy_monitor_opera.Config.Settings.{is_empty_list, is_listed, namespace_allowed}
use k8s_deploy_monitor_opera.Watcher.Filter.{new_namespace_filter, allowed}
use k8s_deploy_monitor_opera.Watcher.Filter.Decision.{listed, admits, allowed-update}

is_listed-listed : (ns : GoString) (items : List GoString) → is_listed ns items ≡ listed items ns
unfolding is_listed
is_listed-listed ns [] = refl
is_listed-listed ns (s ∷ items) =
    ground (arith, is_listed-listed ns items, eq_iff ns s, eq_iff s ns)

decides :
    (allow deny : List GoString) (ns : GoString)
    → (if not (is_empty_list allow) then is_listed ns allow else not (is_listed ns deny))
      ≡ admits allow deny ns
unfolding is_empty_list
decides [] deny ns = ap not (is_listed-listed ns deny)
decides (a ∷ allow) deny ns = is_listed-listed ns (a ∷ allow)

-- The settings allow exactly the namespaces that a filter made of their lists allows.
namespace_allowed-allowed :
    (c : Config) (ns : GoString)
    → namespace_allowed c ns
      ≡ allowed (new_namespace_filter c.namespace_allowlist c.namespace_denylist) ns
unfolding namespace_allowed new_namespace_filter
namespace_allowed-allowed c ns =
    decides c.namespace_allowlist c.namespace_denylist ns
    ∙ sym (allowed-update _ c.namespace_allowlist c.namespace_denylist ns)
