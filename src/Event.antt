-- ===== src/Event.antt =====
-- internal/models/event.go: the event that travels from a watcher to the targets.
use k8s_deploy_monitor_opera.Prelude.{ℕ, List, GoString, join_key}

pub record RolloutEvent : Type 0 where
  pub cluster_id : GoString
  pub namespace : GoString
  pub deployment_name : GoString
  pub old_template_hash : GoString
  pub new_template_hash : GoString
  pub old_images : List GoString
  pub new_images : List GoString
  pub app : GoString
  pub slack_channel : GoString
  pub timestamp : ℕ

unfoldable pub deployment_key : RolloutEvent → GoString
deployment_key e = join_key e.cluster_id (join_key e.namespace e.deployment_name)
