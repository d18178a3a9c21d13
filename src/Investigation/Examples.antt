-- ===== src/Investigation/Examples.antt =====
-- Runs of the orchestrator.
use k8s_deploy_monitor_opera.Prelude.{List, [], ◌∷◌, GoString, str, lookup, ◌≡◌, refl, arith}
use k8s_deploy_monitor_opera.Investigation.{Orchestrator, new_orchestrator, investigate, clean_up}
use k8s_deploy_monitor_opera.Investigation.Slots.{
  Op, supersede_op, admit_op, register_op, clean_up_op, release_op, run, IsBounded, IsTracked,
  run-new-IsSound,
}
use k8s_deploy_monitor_opera.Investigation.Superseded.{IsFree, unsuperseded}

abbrev cart : GoString
cart = str "east/shop/cart"

-- two calls at once for one slot
abbrev calls : List Op
calls =
    supersede_op cart
    ∷ supersede_op cart
    ∷ admit_op cart
    ∷ admit_op cart
    ∷ register_op cart
    ∷ clean_up_op 0 cart
    ∷ release_op 0
    ∷ []

run-new-IsSound_example : let o = run calls (new_orchestrator 1) in IsBounded o × IsTracked o
run-new-IsSound_example = run-new-IsSound 1 calls

fresh-IsFree : IsFree 3 cart (new_orchestrator 5)
unfolding new_orchestrator lookup
fresh-IsFree = record { running_on = refl; free = omega arith; none_active = refl }

unsuperseded_example :
    let o' =
      investigate cart
        (clean_up 0 cart (investigate cart (investigate cart (new_orchestrator 5)))) in
    (o'.running ≡ (2, cart) ∷ (1, cart) ∷ []) × (o'.cancelled ≡ 0 ∷ 0 ∷ [])
unfolding new_orchestrator
unsuperseded_example = unsuperseded cart (new_orchestrator 5) fresh-IsFree

-- one investigation is active
abbrev busy : Orchestrator
busy = record (new_orchestrator 1) {
  slots = 1;
  active = (cart, 0) ∷ [];
  running = (0, cart) ∷ [];
  registered = 1;
}
