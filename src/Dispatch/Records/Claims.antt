-- ===== src/Dispatch/Records/Claims.antt =====
-- Which replica may send the event of a record: the claims that succeed.
use k8s_deploy_monitor_opera.Prelude.{
  ℕ, suc, ◌≤◌, ◌<◌, Bool, true, false, ◌&&◌, some, List, [], ◌∷◌, GoString, str, eqb, ◌==◌, eq_iff,
  if◌then◌else◌, ◌≡◌, ◌≢◌, inl, inr, refl, sym, ap, ◌∙◌, arith, Bool-cases, lookup-insert_self,
}
use k8s_deploy_monitor_opera.Record.{Item, text, detected, processing, phase_text}
use k8s_deploy_monitor_opera.Record.Server.{
  Client, Contents, IsVersioned, IsOptimistic, IsSucceeded,
}
use k8s_deploy_monitor_opera.Dispatch.Records.{
  phase_of, get_nested_string, get_str, value_text, set_phase, claim_of, claim_record, status_of,
}

pub phase_of-set_phase : (phase : GoString) (it : Item) → phase_of (set_phase phase it) ≡ phase
unfolding phase_of set_phase get_nested_string get_str value_text
phase_of-set_phase phase it = rw (lookup-insert_self (str "phase") (text phase) (status_of it)) refl

-- A write to the server: the claim of a record that some replica has observed, or any other.
pub data Step : Type 0 where
  claim : Item → Step
  put_status : Item → Step
  delete_record : GoString → Step
  create_record : Item → Step

module _ {client : Client} (c : Contents client) where
  unfoldable pub write : Step → client.Server → client.Server
  write (claim it) s = (claim_record client it s).0
  write (put_status it) s = (client.update_status it s).0
  write (delete_record n) s = (client.delete n s).0
  write (create_record it) s = (client.create it s).0

  -- a claim of the version `v` of the record `n`, as `handleRecord` makes it, that succeeds
  unfoldable pub wins : GoString → ℕ → Step → client.Server → Bool
  wins n v (claim it) s =
      it.name == n
      && (eqb it.version v && (phase_of it == phase_text detected && (claim_record client it s).1))
  wins n v (put_status it) s = false
  wins n v (delete_record m) s = false
  wins n v (create_record it) s = false

  unfoldable pub won : GoString → ℕ → List Step → client.Server → ℕ
  won n v [] s = 0
  won n v (step ∷ steps) s =
      let rest = won n v steps (write step s) in if wins n v step s then suc rest else rest

  -- An observed record is what the server has under its version.
  abbrev pub IsObserved : Item → client.Server → Type 0
  IsObserved it s =
      (old : Item)
      → c.stored it.name s ≡ some old
      → old.version ≡ it.version
      → old.status ≡ it.status

  abbrev pub AreObserved : List Step → client.Server → Type 0
  AreObserved [] s = Unit
  AreObserved (claim it ∷ steps) s = IsObserved it s × AreObserved steps (write (claim it) s)
  AreObserved (step ∷ steps) s = AreObserved steps (write step s)

  -- the version `v` of the record has been replaced
  record IsPast (n : GoString) (v : ℕ) (s : client.Server) : Type 0 where
    reached : v ≤ c.revision s
    replaced : (it : Item) → c.stored n s ≡ some it → it.version ≢ v

  module _ (versioned : IsVersioned c) (optimistic : IsOptimistic c) where
    write_grows : (step : Step) (s : client.Server) → c.revision s ≤ c.revision (write step s)
    unfolding write claim_record
    write_grows (claim it) s = versioned.update_grows _ s
    write_grows (put_status it) s = versioned.update_grows it s
    write_grows (delete_record n) s = versioned.delete_grows n s
    write_grows (create_record it) s = versioned.create_grows it s

    write-IsSucceeded :
        (n : GoString) (step : Step) (s : client.Server) → IsSucceeded c n s (write step s)
    unfolding write claim_record
    write-IsSucceeded n (claim it) s = versioned.updated n _ s
    write-IsSucceeded n (put_status it) s = versioned.updated n it s
    write-IsSucceeded n (delete_record m) s = versioned.deleted n m s
    write-IsSucceeded n (create_record it) s = versioned.made n it s

    write-IsPast :
        (n : GoString) (v : ℕ) (step : Step) (s : client.Server)
        → IsPast n v s
        → IsPast n v (write step s)
    write-IsPast n v step s h = record {
      reached = omega (arith, h.reached, write_grows step s);
      replaced = λ it e. elim (write-IsSucceeded n step s) [
        | inl same ↦ h.replaced it (sym same ∙ e)
        | inr (inl gone) ↦ absurd (ground (arith, gone, e))
        | inr (inr (new, stored, grown)) ↦ ground (arith, stored, e, grown, h.reached)
      ];
    }

    -- a claim that wins has observed the stored version
    record IsWon (n : GoString) (v : ℕ) (it : Item) (s : client.Server) : Type 0 where
      name : it.name ≡ n
      version : it.version ≡ v
      phase : phase_of it ≡ phase_text detected
      claimed : (client.update_status (claim_of it) s).1 ≡ true

    wins-IsWon :
        (n : GoString) (v : ℕ) (it : Item) (s : client.Server)
        → wins n v (claim it) s ≡ true
        → IsWon n v it s
    unfolding wins claim_record
    wins-IsWon n v it s h = record {
      name = (eq_iff it.name n).0 (ground (arith, h));
      version = ground (arith, h);
      phase = (eq_iff (phase_of it) (phase_text detected)).0 (ground (arith, h));
      claimed = ground (arith, h);
    }

    wins-stored :
        (n : GoString) (v : ℕ) (step : Step) (s : client.Server)
        → wins n v step s ≡ true
        → (old : Item) × (c.stored n s ≡ some old) × (old.version ≡ v)
    wins-stored n v (claim it) s h =
        let w = wins-IsWon n v it s h in
        let (old, stored, version) = optimistic.conflict (claim_of it) s w.claimed in
        unfold claim_of set_phase in
        (old, ap (λ m. c.stored m s) (sym w.name) ∙ stored, version ∙ w.version)
    wins-stored n v (put_status it) s h = absurd (unfold wins in ground (arith, h))
    wins-stored n v (delete_record m) s h = absurd (unfold wins in ground (arith, h))
    wins-stored n v (create_record it) s h = absurd (unfold wins in ground (arith, h))

    -- a claim changes the phase
    claim_changes :
        (it old : Item)
        → phase_of it ≡ phase_text detected
        → old.status ≡ it.status
        → old.status ≢ (claim_of it).status
    unfolding phase_of phase_text get_nested_string claim_of set_phase
    claim_changes it old p same e =
        let moved : phase_of it ≡ phase_text processing =
          ap (λ o. get_nested_string o (str "phase")) (sym same ∙ e)
          ∙ phase_of-set_phase (phase_text processing) it in
        let equal : phase_text detected ≡ phase_text processing = sym p ∙ moved in cc

    later :
        (v : ℕ) (n : GoString) (s s' : client.Server) (i new : Item)
        → c.revision s < new.version
        → v ≤ c.revision s
        → c.stored n s' ≡ some i
        → c.stored n s' ≡ some new
        → i.version ≢ v
    later v n s s' i new grown reached e e' = ground (arith, e, e', grown, reached)

    wins-IsPast :
        (n : GoString) (v : ℕ) (it : Item) (s : client.Server)
        → wins n v (claim it) s ≡ true
        → IsObserved it s
        → IsPast n v (write (claim it) s)
    unfolding write claim_record claim_of set_phase
    wins-IsPast n v it s h observed =
        let w = wins-IsWon n v it s h in
        let (old, stored, version) = optimistic.conflict (claim_of it) s w.claimed in
        let (new, stored', grown, _) =
          optimistic.replaces (claim_of it) old s w.claimed stored
            (claim_changes it old w.phase (observed old stored version)) in
        record {
          reached = omega (
            arith,
            versioned.bounded it.name s old stored,
            versioned.update_grows (claim_of it) s,
            version,
            w.version,
          );
          replaced = λ i e.
              later v n s _ i new grown
                (omega (arith, versioned.bounded it.name s old stored, version, w.version)) e
                (ap (λ m. c.stored m (write (claim it) s)) (sym w.name) ∙ stored');
        }

    won_past :
        (n : GoString) (v : ℕ) (steps : List Step) (s : client.Server)
        → IsPast n v s
        → won n v steps s ≡ 0
    unfolding won
    won_past n v [] s h = refl
    won_past n v (step ∷ steps) s h = elim (Bool-cases (wins n v step s)) [
      | inl w ↦
          let (old, stored, version) = wins-stored n v step s w in
          absurd (h.replaced old stored version)
      | inr lost ↦ rw lost (won_past n v steps (write step s) (write-IsPast n v step s h))
    ]

    -- Whatever the replicas and the other clients write, and in whatever order, at most one claim
    -- of a version of a record succeeds.
    pub at_most_one_claim :
        (n : GoString) (v : ℕ) (steps : List Step) (s : client.Server)
        → AreObserved steps s
        → won n v steps s ≤ 1
    unfolding won wins
    at_most_one_claim n v [] s h = omega arith
    at_most_one_claim n v (claim it ∷ steps) s h = elim (Bool-cases (wins n v (claim it) s)) [
      | inl w ↦ rw w (omega (arith, won_past n v steps _ (wins-IsPast n v it s w h.0)))
      | inr lost ↦ rw lost (at_most_one_claim n v steps _ h.1)
    ]
    at_most_one_claim n v (put_status it ∷ steps) s h = at_most_one_claim n v steps _ h
    at_most_one_claim n v (delete_record m ∷ steps) s h = at_most_one_claim n v steps _ h
    at_most_one_claim n v (create_record it ∷ steps) s h = at_most_one_claim n v steps _ h
