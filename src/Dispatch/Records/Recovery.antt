-- ===== src/Dispatch/Records/Recovery.antt =====
-- What the recovery of stuck records does to a record that another replica works on.
use k8s_deploy_monitor_opera.Prelude.{
  ℕ, ◌+◌, ◌≤◌, true, false, ltb, not, none, some, List, [], ◌∷◌, ◌++◌, GoString, insert, str,
  if_both, on_some_both, All, ◌==◌, eq_refl, ◌≡◌, ◌≢◌, refl, sym, ap, subst, ◌∙◌, arith,
}
use k8s_deploy_monitor_opera.Record.{Item, text, detected, processing, phase_text}
use k8s_deploy_monitor_opera.Record.Server.{Client, Contents, IsOptimistic, IsReliable}
use k8s_deploy_monitor_opera.Dispatch.Records.{
  phase_of, status_of, set_phase, claim_of, claim_record, recover_item, recover_items,
  do_recover_stuck, get_nested_string,
}
use k8s_deploy_monitor_opera.Dispatch.Records.Claims.{phase_of-set_phase}
use k8s_deploy_monitor_opera.Dispatch.Records.Outcome.{set_phase-IsUpdated, processing_is_new}

no_phase : (it : Item) → it.status ≡ none → phase_of it ≢ phase_text processing
unfolding phase_of get_nested_string phase_text
no_phase it missing phase = ground (arith, missing, phase)

phase_after :
    (phase : GoString) (it new : Item)
    → new ≡ record it {
      status = some (insert (str "phase") (text phase) (status_of it));
      version = new.version;
    }
    → phase_of new ≡ phase
unfolding set_phase phase_of
phase_after phase it new e = ap (λ (i : Item). phase_of i) e ∙ phase_of-set_phase phase it

-- No record of the list has the name.
abbrev pub IsAbsent : GoString → List Item → Type 0
IsAbsent n items = All (λ (it : Item). it.name == n ≡ false) items

module _ {client : Client} (c : Contents client) (optimistic : IsOptimistic c) where
  recover_item_other :
      (timeout now : ℕ) (n : GoString) (it : Item) (s : client.Server)
      → it.name == n ≡ false
      → c.stored n (recover_item client timeout now it s) ≡ c.stored n s
  unfolding recover_item set_phase
  recover_item_other timeout now n it s h =
      if_both (λ s'. c.stored n s' ≡ c.stored n s) (not (phase_of it == phase_text processing)) s _
        refl
        (if_both (λ s'. c.stored n s' ≡ c.stored n s) (ltb now (it.created + timeout)) s _ refl
          (on_some_both (λ s'. c.stored n s' ≡ c.stored n s) it.status s _ (λ e. refl)
            (λ m e. optimistic.separate n (set_phase (phase_text detected) it) s h)))

  recover_items_other :
      (timeout now : ℕ) (n : GoString) (items : List Item) (s : client.Server)
      → IsAbsent n items
      → c.stored n (recover_items client timeout now items s) ≡ c.stored n s
  unfolding recover_items
  recover_items_other timeout now n [] s h = refl
  recover_items_other timeout now n (it ∷ items) s h =
      recover_items_other timeout now n items _ h.1 ∙ recover_item_other timeout now n it s h.0

  recover_items-append :
      (timeout now : ℕ) (before after : List Item) (s : client.Server)
      → recover_items client timeout now (before ++ after) s
        ≡ recover_items client timeout now after (recover_items client timeout now before s)
  unfolding recover_items
  recover_items-append timeout now [] after s = refl
  recover_items-append timeout now (it ∷ before) after s =
      recover_items-append timeout now before after _

  -- the stored record can be claimed
  abbrev pub IsReset : GoString → client.Server → Type 0
  IsReset n s = (new : Item) × (c.stored n s ≡ some new) × (phase_of new ≡ phase_text detected)

  module _ (reliable : IsReliable c) where
    -- the record is processed, and was created long ago
    recover_item-resets :
        (timeout now : ℕ) (it : Item) (s : client.Server)
        → c.stored it.name s ≡ some it
        → phase_of it ≡ phase_text processing
        → it.created + timeout ≤ now
        → IsReset it.name (recover_item client timeout now it s)
    unfolding recover_item set_phase
    recover_item-resets timeout now it s stored phase old =
        let u =
          set_phase-IsUpdated c optimistic it s (phase_text processing) (phase_text detected) stored
            phase (λ e. processing_is_new (sym e))
            (reliable.writes (set_phase (phase_text detected) it) it s stored refl) in
        let found : phase_of it == phase_text processing ≡ true = rw phase (eq_refl _) in
        let due : ltb now (it.created + timeout) ≡ false = ground (arith, old) in
        rw (found, due)
          (on_some_both (IsReset it.name) it.status s _
            (λ missing. absurd (no_phase it missing phase))
            (λ m has. (u.new, u.stored, phase_after _ it _ u.content)))

    recover_items-resets :
        (timeout now : ℕ) (it : Item) (before after : List Item) (s : client.Server)
        → c.stored it.name s ≡ some it
        → phase_of it ≡ phase_text processing
        → it.created + timeout ≤ now
        → IsAbsent it.name before
        → IsAbsent it.name after
        → IsReset it.name (recover_items client timeout now (before ++ it ∷ after) s)
    recover_items-resets timeout now it before after s stored phase old b a =
        let (new, kept, reset) =
          recover_item-resets timeout now it (recover_items client timeout now before s)
            (recover_items_other timeout now it.name before s b ∙ stored) phase old in
        rw (recover_items-append timeout now before (it ∷ after) s) (
          new,
          unfold recover_items in recover_items_other timeout now it.name after _ a ∙ kept,
          reset,
        )

    -- A claim is undone by a recovery that follows at once, if the record itself was created as long
    -- ago as the timeout, so that the record can be claimed, and its event sent, again.
    pub recovery_undoes_fresh_claim :
        (timeout now : ℕ) (it claimed : Item) (before after : List Item) (s : client.Server)
        → c.stored it.name s ≡ some it
        → phase_of it ≡ phase_text detected
        → it.created + timeout ≤ now
        → c.stored it.name (claim_record client it s).0 ≡ some claimed
        → client.list_records (claim_record client it s).0 ≡ some (before ++ claimed ∷ after)
        → IsAbsent it.name before
        → IsAbsent it.name after
        → IsReset it.name (do_recover_stuck client timeout now (claim_record client it s).0)
    unfolding do_recover_stuck claim_record claim_of set_phase
    recovery_undoes_fresh_claim timeout now it claimed before after s stored phase old st listed b
          a =
        let u =
          set_phase-IsUpdated c optimistic it s (phase_text detected) (phase_text processing) stored
            phase processing_is_new
            (reliable.writes (set_phase (phase_text processing) it) it s stored refl) in
        let same : claimed ≡ u.new = ground (arith, st, u.stored) in
        let name : claimed.name ≡ it.name = ap (λ (i : Item). i.name) (same ∙ u.content) in
        let age : claimed.created ≡ it.created = ap (λ (i : Item). i.created) (same ∙ u.content) in
        let current : phase_of claimed ≡ phase_text processing =
          ap (λ (i : Item). phase_of i) same ∙ phase_after _ it u.new u.content in
        rw listed (
          subst
            (λ n. IsReset n (
              recover_items client timeout now (before ++ claimed ∷ after)
                (claim_record client it s).0))
            name
            (recover_items-resets timeout now claimed before after (claim_record client it s).0
              (ap (λ n. c.stored n (claim_record client it s).0) name ∙ st) current
              (omega (arith, age, old)) (subst (λ n. IsAbsent n before) (sym name) b)
              (subst (λ n. IsAbsent n after) (sym name) a)))
