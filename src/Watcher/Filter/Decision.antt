-- ===== src/Watcher/Filter/Decision.antt =====
-- What the filter of namespace_filter.go decides, in terms of the lists that it was given.
use k8s_deploy_monitor_opera.Prelude.{
  ◌<◌, ◌≡◌, ◌∙◌, lookup, refl, Bool, true, false, not, ◌||◌, List, [], ◌∷◌, GoString, Map, insert,
  index, length, any, arith, ◌==◌, index-insert,
}
use k8s_deploy_monitor_opera.Watcher.Filter.{NamespaceFilter, to_set_from, to_set, update, allowed}

-- membership in a list of names
abbrev pub listed : List GoString → GoString → Bool
listed items ns = any (λ item. item == ns) items

index-to_set_from :
    (m : Map Bool) (items : List GoString) (ns : GoString)
    → index (to_set_from m items) ns ≡ (listed items ns || index m ns)
unfolding to_set_from
index-to_set_from m [] ns = refl
index-to_set_from m (item ∷ items) ns =
    ground (arith, index-to_set_from (insert item true m) items ns, index-insert item ns true m)

or_false : (b : Bool) → (b || false) ≡ b
or_false true = refl
or_false false = refl

pub index-to_set :
    (items : List GoString) (ns : GoString) → index (to_set items) ns ≡ listed items ns
unfolding to_set index lookup
index-to_set items ns = index-to_set_from [] items ns ∙ or_false (listed items ns)

length-insert-pos : (k : GoString) (b : Bool) (m : Map Bool) → 0 < length (insert k b m)
unfolding insert
length-insert-pos k b [] = omega arith
length-insert-pos k b ((j, w) ∷ m) = ground arith

length-to_set_from-pos :
    (m : Map Bool) (items : List GoString) → 0 < length m → 0 < length (to_set_from m items)
unfolding to_set_from
length-to_set_from-pos m [] h = h
length-to_set_from-pos m (item ∷ items) h =
    length-to_set_from-pos (insert item true m) items (length-insert-pos item true m)

-- The decision that the lists stand for: a non-empty allow list admits its members alone, and
-- otherwise the members of the deny list are refused.
abbrev pub admits : List GoString → List GoString → GoString → Bool
admits [] deny ns = not (listed deny ns)
admits (a ∷ allow) deny ns = listed (a ∷ allow) ns

length-to_set-pos : (a : GoString) (allow : List GoString) → 0 < length (to_set (a ∷ allow))
unfolding to_set to_set_from
length-to_set-pos a allow =
    length-to_set_from-pos (insert a true []) allow (length-insert-pos a true [])

length-to_set-nil : length (to_set []) ≡ 0
unfolding to_set to_set_from
length-to_set-nil = refl

-- After an update, whatever the filter held before, a namespace passes exactly if it is in the
-- allow list, or the allow list is empty and it is not in the deny list.
pub allowed-update :
    (f : NamespaceFilter) (allow deny : List GoString) (ns : GoString)
    → allowed (update allow deny f) ns ≡ admits allow deny ns
unfolding allowed update
allowed-update f [] deny ns = ground (arith, index-to_set deny ns, length-to_set-nil)
allowed-update f (a ∷ allow) deny ns =
    ground (arith, index-to_set (a ∷ allow) ns, length-to_set-pos a allow)
