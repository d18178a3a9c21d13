-- ===== src/Dispatch/Delivery.antt =====
-- What `DispatchEvent` reports of the targets.
use k8s_deploy_monitor_opera.Prelude.{
  ◌≤◌, ◌<◌, some, List, [], ◌∷◌, ◌++◌, GoString, map, length, length-append, ◌≡◌, ◌≢◌, ◌⊎◌, inl,
  inr, refl, ap, ◌∙◌, arith, Option-cases,
}
use mathlib.Core.List.{append-nil, append_assoc}
use k8s_deploy_monitor_opera.Event.{RolloutEvent}
use k8s_deploy_monitor_opera.Dispatch.{
  Target, Dispatcher, Sent, send_to, send_all, dispatch_event, target_names,
}

module _ {W : Type 0} where
  -- No target returns an error with an empty text.
  abbrev pub HasErrorTexts : List (Target W) → Type 0
  HasErrorTexts [] = Unit
  HasErrorTexts (t ∷ ts) =
      ((event : RolloutEvent) (w : W) → (t.send event w).1 ≢ some []) × HasErrorTexts ts

  -- What is reported while the first targets have been sent to: no error and all their names, or
  -- an error and fewer names.
  abbrev IsReport : List GoString → Sent W → Type 0
  IsReport names r =
      ((r.dispatch_err ≡ []) × (r.target_names ≡ names))
      ⊎ ((r.dispatch_err ≢ []) × (length r.target_names < length names))

  delivered_at_most :
      (names : List GoString) (r : Sent W) → IsReport names r → length r.target_names ≤ length names
  delivered_at_most names r (inl (_, all)) = rw all (omega arith)
  delivered_at_most names r (inr (_, fewer)) = omega (arith, fewer)

  send_to-IsReport :
      (event : RolloutEvent) (t : Target W) (names : List GoString) (r : Sent W)
      → (t.send event r.world).1 ≢ some []
      → IsReport names r
      → IsReport (names ++ t.name ∷ []) (send_to event t r)
  unfolding send_to
  send_to-IsReport event t names r texts h = elim (Option-cases (t.send event r.world).1) [
    | inl ok ↦ rw ok (extended h)
    | inr (e, failed) ↦ rw failed (
        inr (
          λ empty. texts (failed ∙ ap some empty),
          omega (arith, delivered_at_most names r h, length-append names (t.name ∷ [])),
        ))
  ]
    where
      extended :
          IsReport names r
          → IsReport
              (names ++ t.name ∷ [])
              (record r { target_names = r.target_names ++ t.name ∷ [] })
      extended (inl (quiet, all)) = inl (quiet, rw all refl)
      extended (inr (loud, fewer)) = inr (
        loud,
        omega (
          arith,
          fewer,
          length-append names (t.name ∷ []),
          length-append r.target_names (t.name ∷ []),
        ),
      )

  send_all-IsReport :
      (event : RolloutEvent) (ts : List (Target W)) (names : List GoString) (r : Sent W)
      → HasErrorTexts ts
      → IsReport names r
      → IsReport (names ++ map (λ (t : Target W). t.name) ts) (send_all event ts r)
  unfolding send_all
  send_all-IsReport event [] names r texts h = rw (append-nil names) h
  send_all-IsReport event (t ∷ ts) names r texts h =
      rw (← append_assoc names (t.name ∷ []) (map (λ (u : Target W). u.name) ts)) (
        send_all-IsReport event ts (names ++ t.name ∷ []) (send_to event t r) texts.1
          (send_to-IsReport event t names r (texts.0 event r.world) h))

  -- For targets whose errors have a text, `DispatchEvent` returns the names of all targets and no
  -- error, or it returns an error and fewer names.
  dispatch_event-all_or_error :
      (d : Dispatcher W) (event : RolloutEvent) (w : W)
      → HasErrorTexts d.targets
      → let r = dispatch_event d event w in
        ((r.dispatch_err ≡ []) × (r.target_names ≡ target_names d))
        ⊎ ((r.dispatch_err ≢ []) × (length r.target_names < length (target_names d)))
  unfolding dispatch_event target_names
  dispatch_event-all_or_error d event w texts =
      send_all-IsReport event d.targets [] _ texts (inl (refl, refl))
