-- ===== src/Dispatch/Examples/Listed.antt =====
-- Lists, deletes and creates of the server with one record.
use k8s_deploy_monitor_opera.Prelude.{
  ℕ, suc, false, Option, none, some, List, [], ◌∷◌, GoString, ◌==◌, eq_iff, eq_refl, ◌≡◌, refl,
  subst, All, arith,
}
use k8s_deploy_monitor_opera.Record.{Item}
use k8s_deploy_monitor_opera.Record.Server.{created}
use k8s_deploy_monitor_opera.Dispatch.Cleaner.Kept.{IsListed}
use k8s_deploy_monitor_opera.Persistence.Recorder.Unclaimed.{DropsStatus}
use k8s_deploy_monitor_opera.Dispatch.Examples.{
  current, slot_named, slot_list, create_slot, delete_slot, contents,
}

others_stay :
    (n m : GoString) (v : ℕ) (o : Option Item)
    → m == n ≡ false
    → slot_named n (delete_slot m v o).0.revision (delete_slot m v o).0.slot ≡ slot_named n v o
others_stay n m v none h = refl
others_stay n m v (some old) h = ground (arith, h, eq_iff old.name m, eq_iff old.name n)

listed :
    (v : ℕ) (o : Option Item) (items : List Item)
    → some (slot_list v o) ≡ some items
    → All (λ (it : Item). slot_named it.name v o ≡ some it) items
listed v none items h =
    let same : [] ≡ items = ground (arith, h) in
    subst (All (λ (it : Item). slot_named it.name v none ≡ some it)) same tt
listed v (some old) items h =
    let same : current v old ∷ [] ≡ items = ground (arith, h) in
    subst (All (λ (it : Item). slot_named it.name v (some old) ≡ some it)) same
      (rw (eq_refl old.name) refl, tt)

pub server-IsListed : IsListed contents
server-IsListed = record {
  listed = λ s items. listed s.revision s.slot items;
  others_stay = λ n m s. others_stay n m s.revision s.slot;
}

dropped :
    (it : Item) (v : ℕ) (o : Option Item)
    → (create_slot it v o).1 ≡ created
    → (new : Item) × (slot_named it.name (create_slot it v o).0.revision (create_slot it v o).0.slot
        ≡ some new)
      × (new.spec ≡ it.spec)
      × (new.status ≡ none)
dropped it v none h =
    rw (eq_refl it.name) (current (suc v) (record it { status = none }), refl, refl, refl)
dropped it v (some old) h = absurd (ground (arith, h))

pub server-DropsStatus : DropsStatus contents
server-DropsStatus = record { dropped = λ it s. dropped it s.revision s.slot }
