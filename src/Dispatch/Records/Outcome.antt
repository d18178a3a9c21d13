-- ===== src/Dispatch/Records/Outcome.antt =====
-- What becomes of a record that a replica handles, whichever of its calls fail.
use k8s_deploy_monitor_opera.Prelude.{
  ℕ, Bool, true, Option, some, List, [], GoString, str, Map, insert, ◌==◌, eq_refl, if◌then◌else◌,
  ◌≡◌, ◌≢◌, refl, sym, ap, ◌∙◌, arith, inl, inr, Bool-cases, lookup-insert, lookup-insert_self,
  Option-cases, none, false, ◌⊎◌,
}
use mathlib.Core.Option.{some-injective}
use k8s_deploy_monitor_opera.Record.{
  Item, Value, text, detected, processing, dispatched, failed, phase_text, to_interface_slice,
}
use k8s_deploy_monitor_opera.Record.Server.{Client, Contents, IsOptimistic, IsConsistent}
use k8s_deploy_monitor_opera.Dispatch.{Dispatcher, dispatch_event}
use k8s_deploy_monitor_opera.Dispatch.Records.{
  phase_of, get_nested_string, get_str, get_str_slice, value_text, value_texts, status_of,
  set_phase, claim_of, claim_record, final_status, update_record_status, dispatch_claimed,
  handle_record, to_rollout_event, texts_of-map,
}
use k8s_deploy_monitor_opera.Dispatch.Records.Claims.{phase_of-set_phase}

-- Two statuses with different phases differ.
pub statuses_differ :
    (o o' : Option (Map Value)) (p q : GoString)
    → get_nested_string o (str "phase") ≡ p
    → get_nested_string o' (str "phase") ≡ q
    → p ≢ q
    → o ≢ o'
statuses_differ o o' p q h k apart e =
    apart (sym h ∙ ap (λ x. get_nested_string x (str "phase")) e ∙ k)

-- the phase that `updateRecordStatus` writes
abbrev pub final_phase : GoString → GoString
final_phase dispatch_err = if dispatch_err == [] then phase_text dispatched else phase_text failed

phase-final_status :
    (now : GoString) (targets : List GoString) (err : GoString) (it : Item)
    → get_nested_string (some (final_status now targets err it)) (str "phase") ≡ final_phase err
unfolding final_status get_nested_string get_str value_text ◌==◌
phase-final_status now targets err it = elim (Bool-cases (err == [])) [
  | inl quiet ↦ rw (quiet, lookup-insert, lookup-insert, lookup-insert) refl
  | inr loud ↦ rw (loud, lookup-insert, lookup-insert, lookup-insert, lookup-insert) refl
]

pub processing_is_new : phase_text detected ≢ phase_text processing
unfolding phase_text
processing_is_new e = cc

targets-final_status :
    (now : GoString) (targets : List GoString) (err : GoString) (it : Item)
    → get_str_slice (final_status now targets err it) (str "dispatchTargets") ≡ targets
unfolding final_status get_str_slice value_texts to_interface_slice
targets-final_status now targets err it = rw lookup-insert_self (texts_of-map targets)

final_phase-not_processing : (err : GoString) → phase_text processing ≢ final_phase err
unfolding phase_text
final_phase-not_processing err e = elim (Bool-cases (err == [])) [
  | inl quiet ↦ ground (arith, e, quiet)
  | inr loud ↦ ground (arith, e, loud)
]

module _ {client : Client} (c : Contents client) (optimistic : IsOptimistic c) where
  -- what an update of the current object leaves if it succeeds
  pub record IsUpdated (it : Item) (st : Map Value) (r : client.Server × Bool) : Type 0 where
    pub new : Item
    pub stored : c.stored it.name r.0 ≡ some new
    pub content : new ≡ record it { status = some st; version = new.version }

  pub update-IsUpdated :
      (it : Item) (st : Map Value) (s : client.Server)
      → c.stored it.name s ≡ some it
      → it.status ≢ some st
      → (client.update_status (record it { status = some st }) s).1 ≡ true
      → IsUpdated it st (client.update_status (record it { status = some st }) s)
  update-IsUpdated it st s stored differ ok =
      let (new, stored', _, content) =
        optimistic.replaces (record it { status = some st }) it s ok stored differ in
      record { new = new; stored = stored'; content = content }

  pub set_phase-IsUpdated :
      (it : Item) (s : client.Server) (p q : GoString)
      → c.stored it.name s ≡ some it
      → phase_of it ≡ p
      → p ≢ q
      → (client.update_status (set_phase q it) s).1 ≡ true
      → IsUpdated it
          (insert (str "phase") (text q) (status_of it))
          (client.update_status (set_phase q it) s)
  unfolding set_phase
  set_phase-IsUpdated it s p q stored phase apart ok =
      update-IsUpdated it _ s stored
        (unfold phase_of in
          statuses_differ it.status (set_phase q it).status p q phase (phase_of-set_phase q it)
            apart)
        ok

  -- the final update, of a record that was claimed
  final-IsUpdated :
      (now : GoString) (targets : List GoString) (err : GoString) (it : Item) (s : client.Server)
      → c.stored it.name s ≡ some it
      → phase_of it ≡ phase_text processing
      → (client.update_status (record it { status = some (final_status now targets err it) }) s).1
        ≡ true
      → IsUpdated it
          (final_status now targets err it)
          (client.update_status (record it { status = some (final_status now targets err it) }) s)
  final-IsUpdated now targets err it s stored phase ok =
      update-IsUpdated it _ s stored
        (unfold phase_of in
          statuses_differ it.status _ (phase_text processing) (final_phase err) phase
            (phase-final_status now targets err it) (final_phase-not_processing err))
        ok

  -- What is left of a record: all but its status as it was, and the phase, the targets and the error
  -- that the dispatcher reports.
  pub record IsFinished (it : Item) (targets : List GoString) (err : GoString) (s : client.Server)
      : Type 0 where
    pub new : Item
    pub stored : c.stored it.name s ≡ some new
    pub same_spec : new.spec ≡ it.spec
    pub phase : phase_of new ≡ final_phase err
    pub targets_listed : get_str_slice (status_of new) (str "dispatchTargets") ≡ targets

  named_as :
      (n m : GoString) (it : Item) (s : client.Server)
      → n ≡ m
      → c.stored n s ≡ some it
      → c.stored m s ≡ some it
  named_as n m it s e stored = ap (λ k. c.stored k s) (sym e) ∙ stored

  -- the record is still in the phase Processing, since the read that precedes the final update failed
  pub record IsUnread (it : Item) (s : client.Server) : Type 0 where
    pub failed_read : client.get it.name s ≡ none
    pub new : Item
    pub stored : c.stored it.name s ≡ some new
    pub same_spec : new.spec ≡ it.spec
    pub phase : phase_of new ≡ phase_text processing

  -- The final update of the record, as stored at `before`, reported a failure: the server is as that
  -- call left it.
  pub record IsUnwritten (now : GoString) (it : Item) (targets : List GoString) (err : GoString)
      (before s : client.Server) : Type 0 where
    pub old : Item
    pub stored : c.stored it.name before ≡ some old
    pub failed_write :
        client.update_status
          (record old { status = some (final_status now targets err old) })
          before
        ≡ (s, false)

  -- what `updateRecordStatus` makes of a record that was claimed at `before`
  pub data Recorded (now : GoString) (it : Item) (targets : List GoString) (err : GoString)
      (before s : client.Server) : Type 0 where
    finished : IsFinished it targets err s → Recorded now it targets err before s
    unread : IsUnread it s → Recorded now it targets err before s
    unwritten : IsUnwritten now it targets err before s → Recorded now it targets err before s

  module _ (consistent : IsConsistent c) (now : GoString) (targets : List GoString) (err : GoString)
      (it it' : Item) (st : Map Value) (s : client.Server)
      (same : it' ≡ record it { status = some st; version = it'.version })
      (stored : c.stored it.name s ≡ some it') (phase : phase_of it' ≡ phase_text processing) where
    -- the server after the final update
    abbrev written : client.Server
    written =
        (client.update_status (record it' { status = some (final_status now targets err it') }) s).0

    abbrev is_written : Bool
    is_written =
        (client.update_status (record it' { status = some (final_status now targets err it') }) s).1

    written-IsFinished : is_written ≡ true → IsFinished it targets err written
    written-IsFinished ok =
        let name : it'.name ≡ it.name = ap (λ (i : Item). i.name) same in
        let u =
          final-IsUpdated now targets err it' s (named_as it.name it'.name it' s (sym name) stored)
            phase ok in
        record {
          new = u.new;
          stored = named_as it'.name it.name u.new _ name u.stored;
          same_spec = ap (λ (i : Item). i.spec) u.content ∙ ap (λ (i : Item). i.spec) same;
          phase =
              unfold phase_of in
              ap (λ (i : Item). phase_of i) u.content ∙ phase-final_status now targets err it';
          targets_listed =
              unfold status_of in
              ap (λ (i : Item). get_str_slice (status_of i) (str "dispatchTargets")) u.content
              ∙ targets-final_status now targets err it';
        }

    written-Recorded : Recorded now it targets err s written
    written-Recorded = elim (Bool-cases is_written) [
      | inl ok ↦ finished (written-IsFinished ok)
      | inr failure ↦
          unwritten (record { old = it'; stored = stored; failed_write = ground (arith, failure) })
    ]

    update_record_status-Recorded :
        Recorded now it targets err s (update_record_status client now it.name targets err s)
    unfolding update_record_status
    update_record_status-Recorded = elim (Option-cases (client.get it.name s)) [
      | inl none_read ↦ rw none_read (
          unread (record {
            failed_read = none_read;
            new = it';
            stored = stored;
            same_spec = ap (λ (i : Item). i.spec) same;
            phase = phase;
          }))
      | inr (got, read) ↦
          let e : it' ≡ got =
            some-injective it' got (sym stored ∙ consistent.current it.name s got read) in
          rw (read, ← e) written-Recorded
    ]

  -- the replica lost the claim: it sends nothing
  pub record IsLost {W : Type 0} (it : Item) (s s' : client.Server) (w w' : W) : Type 0 where
    pub failed_claim : claim_record client it s ≡ (s', false)
    pub nothing_sent : w' ≡ w

  -- The replica won the claim, sent the event to all targets, and then recorded the outcome.
  pub record IsSent {W : Type 0} (parse_time : GoString → ℕ) (now : GoString) (d : Dispatcher W)
      (it : Item) (s s' : client.Server) (w w' : W) : Type 0 where
    pub won_claim : (claim_record client it s).1 ≡ true
    pub all_sent : w' ≡ (dispatch_event d (to_rollout_event parse_time it) w).world
    pub recorded :
        let sent = dispatch_event d (to_rollout_event parse_time it) w in
        Recorded now it sent.target_names sent.dispatch_err (claim_record client it s).0 s'

  found :
      (it : Item) → phase_of it ≡ phase_text detected → phase_of it == phase_text detected ≡ true
  found it phase = rw phase (eq_refl _)

  won-IsSent :
      {W : Type 0}
      → IsConsistent c
      → (parse_time : GoString → ℕ) (now : GoString) (d : Dispatcher W) (it : Item)
        (s : client.Server) (w : W)
      → c.stored it.name s ≡ some it
      → phase_of it ≡ phase_text detected
      → (claim_record client it s).1 ≡ true
      → let (s', w') =
          dispatch_claimed client parse_time now d it ((claim_record client it s).0, w) in
        IsSent parse_time now d it s s' w w'
  unfolding dispatch_claimed claim_record claim_of set_phase phase_of
  won-IsSent consistent parse_time now d it s w stored phase won =
      let u =
        set_phase-IsUpdated it s (phase_text detected) (phase_text processing) stored phase
          processing_is_new won in
      let moved : phase_of u.new ≡ phase_text processing =
        ap (λ (i : Item). phase_of i) u.content ∙ phase_of-set_phase (phase_text processing) it in
      record {
        won_claim = won;
        all_sent = refl;
        recorded =
            update_record_status-Recorded consistent now _ _ it u.new _ _ u.content u.stored moved;
      }

  -- A replica observes a record in the phase Detected as it is stored, and nothing else writes the
  -- record while it is handled; any of the calls may fail. If the claim fails, nothing is sent and
  -- nothing more is written. If it succeeds, the event is sent to all targets, and the record ends
  -- in the phase Dispatched, or Failed if a target has returned an error text, with the names of the
  -- targets that succeeded; or it stays in the phase Processing since the read before the final
  -- update failed; or the final update failed.
  pub handle_record-IsHandled :
      {W : Type 0}
      → IsConsistent c
      → (parse_time : GoString → ℕ) (now : GoString) (d : Dispatcher W) (it : Item)
        (s : client.Server) (w : W)
      → c.stored it.name s ≡ some it
      → phase_of it ≡ phase_text detected
      → let (s', w') = handle_record client parse_time now d it (s, w) in
        IsLost it s s' w w' ⊎ IsSent parse_time now d it s s' w w'
  unfolding handle_record
  handle_record-IsHandled consistent parse_time now d it s w stored phase =
      rw (found it phase) (elim (Bool-cases (claim_record client it s).1) [
        | inl won ↦ rw won (inr (won-IsSent consistent parse_time now d it s w stored phase won))
        | inr lost ↦
            rw lost (inl (record { failed_claim = ground (arith, lost); nothing_sent = refl }))
      ])
