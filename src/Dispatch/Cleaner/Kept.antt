-- ===== src/Dispatch/Cleaner/Kept.antt =====
-- Which records a round of the cleaner keeps.
use k8s_deploy_monitor_opera.Prelude.{
  ℕ, ◌+◌, ◌*◌, ◌%◌, ◌^◌, ◌≤◌, ◌<◌, true, false, not, ◌&&◌, ltb, some, List, [], ◌∷◌, GoString, ◌==◌,
  eq_iff, on_some_both, All, ◌≡◌, refl, sym, ap, subst, ◌∙◌, ◌⊎◌, inl, inr, arith, Bool-cases,
}
use k8s_deploy_monitor_opera.Record.{Item}
use k8s_deploy_monitor_opera.Record.Server.{Client, Contents}
use k8s_deploy_monitor_opera.Dispatch.Cleaner.{
  day, ttl_of, is_young, is_terminal, clean_item, clean_items, cleanup,
}

-- The longest time to live, in days, that fits in a `time.Duration`.
abbrev pub max_days : ℕ
max_days = 106_751

-- An age in nanoseconds is compared as the days say, as long as they fit.
is_young_days :
    (days now created : ℕ)
    → days ≤ max_days
    → is_young (ttl_of days) now created ≡ ltb now (created + days * day)
unfolding is_young ttl_of
is_young_days days now created h =
    let fits : (days * day) % 2 ^ 64 ≡ days * day = omega (arith, h) in
    let positive : ltb (days * day) (2 ^ 63) ≡ true = ground (arith, h) in rw (fits, positive) refl

module _ {client : Client} (c : Contents client) where
  -- A list has what is stored; a delete takes one object away.
  pub record IsListed : Type 0 where
    pub listed :
        (s : client.Server) (items : List Item)
        → client.list_records s ≡ some items
        → All (λ (it : Item). c.stored it.name s ≡ some it) items
    pub others_stay :
        (n m : GoString) (s : client.Server)
        → m == n ≡ false
        → c.stored n (client.delete m s).0 ≡ c.stored n s

  -- the listed object of the name, if there is one, is not deleted
  abbrev IsSpared : ℕ → ℕ → GoString → Item → Type 0
  IsSpared ttl now n it =
      it.name == n ≡ true → (is_terminal it && not (is_young ttl now it.created)) ≡ false

  module _ (laws : IsListed) where
    clean_item_keeps :
        (ttl now : ℕ) (n : GoString) (it : Item) (r : client.Server × ℕ)
        → IsSpared ttl now n it
        → c.stored n (clean_item client ttl now it r).0 ≡ c.stored n r.0
    unfolding clean_item
    clean_item_keeps ttl now n it r spared = elim (Bool-cases (it.name == n)) [
      | inl same ↦ ground (arith, spared same)
      | inr different ↦ ground (arith, laws.others_stay n it.name r.0 different)
    ]

    clean_items_keep :
        (ttl now : ℕ) (n : GoString) (items : List Item) (r : client.Server × ℕ)
        → All (IsSpared ttl now n) items
        → c.stored n (clean_items client ttl now items r).0 ≡ c.stored n r.0
    unfolding clean_items
    clean_items_keep ttl now n [] r h = refl
    clean_items_keep ttl now n (it ∷ items) r h =
        clean_items_keep ttl now n items _ h.1 ∙ clean_item_keeps ttl now n it r h.0

    all-IsSpared :
        (days now : ℕ) (n : GoString) (it : Item) (s : client.Server) (items : List Item)
        → days ≤ max_days
        → c.stored n s ≡ some it
        → (is_terminal it ≡ false) ⊎ (now < it.created + days * day)
        → All (λ (i : Item). c.stored i.name s ≡ some i) items
        → All (IsSpared (ttl_of days) now n) items
    all-IsSpared days now n it s [] short stored spared h = tt
    all-IsSpared days now n it s (i ∷ items) short stored spared h = (
      λ same.
          let name : i.name ≡ n = (eq_iff i.name n).0 same in
          let equal : it ≡ i =
            ground (arith, sym stored ∙ ap (λ m. c.stored m s) (sym name) ∙ h.0) in
          subst
            (λ (j : Item). (is_terminal j && not (is_young (ttl_of days) now j.created)) ≡ false)
            equal (rw (is_young_days days now it.created short) (ground (arith, spared))),
      all-IsSpared days now n it s items short stored spared h.1,
    )

    -- A time to live of at most 106751 days: a round of the cleaner keeps each record that is not
    -- finished, or was created less than that many days ago.
    pub cleanup_keeps :
        (days now : ℕ) (n : GoString) (it : Item) (s : client.Server)
        → days ≤ max_days
        → c.stored n s ≡ some it
        → (is_terminal it ≡ false) ⊎ (now < it.created + days * day)
        → c.stored n (cleanup client (ttl_of days) now s).0 ≡ some it
    unfolding cleanup
    cleanup_keeps days now n it s short stored spared =
        on_some_both (λ (r : client.Server × ℕ). c.stored n r.0 ≡ some it) (client.list_records s)
          (s, 0) _ (λ failed. stored)
          (λ items e.
            clean_items_keep (ttl_of days) now n items (s, 0)
              (all-IsSpared days now n it s items short stored spared (laws.listed s items e))
            ∙ stored)
