-- ===== src/Dispatch/Cleaner.antt =====
-- internal/dispatch/ttl_cleaner.go: old records that are finished are deleted.
pub mod Kept
use k8s_deploy_monitor_opera.Prelude.{
  ℕ, ◌+◌, ◌*◌, ◌%◌, ◌^◌, Bool, true, false, not, ◌&&◌, ltb, none, some, List, [], ◌∷◌, GoString,
  ◌==◌, on_some, if◌then◌else◌,
}
use k8s_deploy_monitor_opera.Record.{Item, dispatched, failed, phase_text}
use k8s_deploy_monitor_opera.Record.Server.{Client}
use k8s_deploy_monitor_opera.Dispatch.Records.{phase_of}

abbrev pub day : ℕ
day = 86_400_000_000_000

-- A `time.Duration`: the 64 bits of a signed number of nanoseconds.
unfoldable pub ttl_of : ℕ → ℕ
ttl_of days = (days * day) % 2 ^ 64

-- `now.Sub(created) < ttl`, a signed comparison
unfoldable pub is_young : ℕ → ℕ → ℕ → Bool
is_young ttl now created =
    if ltb ttl (2 ^ 63) then ltb now (created + ttl) else ltb (now + 2 ^ 64) (created + ttl)

unfoldable pub is_terminal : Item → Bool
is_terminal it =
    not (not (phase_of it == phase_text dispatched) && not (phase_of it == phase_text failed))

module _ (client : Client) (ttl now : ℕ) where
  -- the body of the loop, with the number of records that are deleted
  unfoldable pub clean_item : Item → client.Server × ℕ → client.Server × ℕ
  clean_item it (s, n) =
      let (s', ok) = client.delete it.name s in
      if not (is_terminal it)
      then (s, n)
      else if is_young ttl now it.created
      then (s, n)
      else (s', if ok then n + 1 else n)

  unfoldable pub clean_items : List Item → client.Server × ℕ → client.Server × ℕ
  clean_items [] r = r
  clean_items (it ∷ items) r = clean_items items (clean_item it r)

  unfoldable pub cleanup : client.Server → client.Server × ℕ
  cleanup s = on_some (client.list_records s) (s, 0) (λ items. clean_items items (s, 0))
