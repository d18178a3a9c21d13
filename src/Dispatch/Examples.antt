-- ===== src/Dispatch/Examples.antt =====
-- Concrete runs of the dispatcher, on a server that keeps one record at most.
mod Listed
mod Runs
use k8s_deploy_monitor_opera.Prelude.{
  ℕ, suc, ◌+◌, ◌≤◌, ◌<◌, Bool, true, false, ◌&&◌, eqb, eqb_iff, Option, none, some, List, [], ◌∷◌,
  GoString, ◌==◌, eq_iff, eq_refl, if◌then◌else◌, if_both, ◌≡◌, refl, sym, ap, subst, All, ◌∙◌, inl,
  inr, arith, Bool-cases,
}
use k8s_deploy_monitor_opera.Record.{Item}
use k8s_deploy_monitor_opera.Record.Server.{
  Client, Contents, CreateResult, created, already_exists, create_failed, IsVersioned, IsOptimistic,
  IsReliable, IsConsistent, IsSucceeded,
}
use k8s_deploy_monitor_opera.Dispatch.Cleaner.Kept.{IsListed}
use k8s_deploy_monitor_opera.Persistence.Recorder.Unclaimed.{DropsStatus}

-- A server with its revision and the record, whose version is the revision.
pub record OneRecord : Type 0 where
  pub revision : ℕ
  pub slot : Option Item

abbrev current : ℕ → Item → Item
current v it = record it { version = v }

abbrev slot_named : GoString → ℕ → Option Item → Option Item
slot_named n v none = none
slot_named n v (some it) = if it.name == n then some (current v it) else none

abbrev slot_list : ℕ → Option Item → List Item
slot_list v none = []
slot_list v (some it) = current v it ∷ []

abbrev create_slot : Item → ℕ → Option Item → OneRecord × CreateResult
create_slot it v none =
    (record { revision = suc v; slot = some (record it { status = none }) }, created)
create_slot it v (some old) = (
  record { revision = v; slot = some old },
  if old.name == it.name then already_exists else create_failed [],
)

abbrev update_slot : Item → ℕ → Option Item → OneRecord × Bool
update_slot it v none = (record { revision = v; slot = none }, false)
update_slot it v (some old) =
    if old.name == it.name && eqb v it.version
    then (record { revision = suc v; slot = some (record old { status = it.status }) }, true)
    else (record { revision = v; slot = some old }, false)

abbrev delete_slot : GoString → ℕ → Option Item → OneRecord × Bool
delete_slot n v none = (record { revision = v; slot = none }, false)
delete_slot n v (some old) =
    if old.name == n
    then (record { revision = v; slot = none }, true)
    else (record { revision = v; slot = some old }, false)

abbrev pub server : Client
server = record {
  Server = OneRecord;
  get = λ n s. slot_named n s.revision s.slot;
  list_records = λ s. some (slot_list s.revision s.slot);
  create = λ it s. create_slot it s.revision s.slot;
  update_status = λ it s. update_slot it s.revision s.slot;
  delete = λ n s. delete_slot n s.revision s.slot;
}

abbrev pub contents : Contents server
contents = record { stored = λ n s. slot_named n s.revision s.slot; revision = λ s. s.revision }

bounded :
    (n : GoString) (v : ℕ) (o : Option Item) (it : Item)
    → slot_named n v o ≡ some it
    → it.version ≤ v
bounded n v none it h = cc
bounded n v (some old) it h = ground (arith, h)

update_grows : (it : Item) (v : ℕ) (o : Option Item) → v ≤ (update_slot it v o).0.revision
update_grows it v none = omega arith
update_grows it v (some old) = ground arith

abbrev Outcome : GoString → ℕ → Option Item → OneRecord → Type 0
Outcome n v o s' = IsSucceeded contents n (record { revision = v; slot = o }) s'

-- a record that is put at a later revision
placed :
    (n : GoString) (v : ℕ) (o : Option Item) (it : Item)
    → Outcome n v o (record { revision = suc v; slot = some it })
placed n v o it = elim (Bool-cases (it.name == n)) [
  | inl here ↦ rw here (inr (inr (current (suc v) it, refl, omega arith)))
  | inr elsewhere ↦ rw elsewhere (inr (inl refl))
]

updated :
    (n : GoString) (it : Item) (v : ℕ) (o : Option Item) → Outcome n v o (update_slot it v o).0
updated n it v none = inl refl
updated n it v (some old) =
    if_both (λ (r : OneRecord × Bool). Outcome n v (some old) r.0)
      (old.name == it.name && eqb v it.version) _ _
      (placed n v (some old) (record old { status = it.status })) (inl refl)

deleted : (n m : GoString) (v : ℕ) (o : Option Item) → Outcome n v o (delete_slot m v o).0
deleted n m v none = inl refl
deleted n m v (some old) =
    if_both (λ (r : OneRecord × Bool). Outcome n v (some old) r.0) (old.name == m) _ _
      (inr (inl refl)) (inl refl)

made : (n : GoString) (it : Item) (v : ℕ) (o : Option Item) → Outcome n v o (create_slot it v o).0
made n it v none = placed n v none (record it { status = none })
made n it v (some old) = inl refl

delete_grows : (m : GoString) (v : ℕ) (o : Option Item) → v ≤ (delete_slot m v o).0.revision
delete_grows m v none = omega arith
delete_grows m v (some old) = ground arith

create_grows : (it : Item) (v : ℕ) (o : Option Item) → v ≤ (create_slot it v o).0.revision
create_grows it v none = omega arith
create_grows it v (some old) = omega arith

pub server-IsVersioned : IsVersioned contents
server-IsVersioned = record {
  bounded = λ n s it. bounded n s.revision s.slot it;
  update_grows = λ it s. update_grows it s.revision s.slot;
  delete_grows = λ n s. delete_grows n s.revision s.slot;
  create_grows = λ it s. create_grows it s.revision s.slot;
  updated = λ n it s. updated n it s.revision s.slot;
  deleted = λ n m s. deleted n m s.revision s.slot;
  made = λ n it s. made n it s.revision s.slot;
}

slot_name :
    (n : GoString) (v : ℕ) (old it : Item) → slot_named n v (some old) ≡ some it → old.name ≡ n
slot_name n v old it h = (eq_iff old.name n).0 (ground (arith, h))

conflict :
    (it : Item) (v : ℕ) (o : Option Item)
    → (update_slot it v o).1 ≡ true
    → (old : Item) × (slot_named it.name v o ≡ some old) × (old.version ≡ it.version)
conflict it v none h = cc
conflict it v (some old) h =
    let here : old.name == it.name ≡ true = ground (arith, h) in
    let same : v ≡ it.version = ground (arith, h) in rw here (current v old, refl, same)

replaces :
    (it old : Item) (v : ℕ) (o : Option Item)
    → (update_slot it v o).1 ≡ true
    → slot_named it.name v o ≡ some old
    → (new : Item) × (slot_named it.name (update_slot it v o).0.revision (update_slot it v o).0.slot
        ≡ some new)
      × (v < new.version)
      × (new ≡ record old { status = it.status; version = new.version })
replaces it old v none h stored = cc
replaces it old v (some kept) h stored =
    let here : kept.name == it.name ≡ true = ground (arith, h) in
    let same : eqb v it.version ≡ true = ground (arith, h) in
    let content : current v kept ≡ old = ground (arith, here, stored) in
    rw (here, same, here)
      (
        current (suc v) (record kept { status = it.status }),
        refl,
        omega arith,
        ap (λ (i : Item). record i { status = it.status; version = suc v }) content,
      )

separate :
    (n : GoString) (it : Item) (v : ℕ) (o : Option Item)
    → it.name == n ≡ false
    → slot_named n (update_slot it v o).0.revision (update_slot it v o).0.slot ≡ slot_named n v o
separate n it v none h = refl
separate n it v (some old) h = ground (arith, h, eq_iff old.name it.name, eq_iff old.name n)

pub server-IsOptimistic : IsOptimistic contents
server-IsOptimistic = record {
  conflict = λ it s. conflict it s.revision s.slot;
  replaces = λ it old s h stored changed. replaces it old s.revision s.slot h stored;
  separate = λ n it s. separate n it s.revision s.slot;
}

writes :
    (it old : Item) (v : ℕ) (o : Option Item)
    → slot_named it.name v o ≡ some old
    → old.version ≡ it.version
    → (update_slot it v o).1 ≡ true
writes it old v none stored same = cc
writes it old v (some kept) stored same = ground (arith, stored, same)

named :
    (n : GoString) (v : ℕ) (o : Option Item) (it : Item) → slot_named n v o ≡ some it → it.name ≡ n
named n v none it h = cc
named n v (some old) it h =
    let content : current v old ≡ it = ground (arith, h) in
    ap (λ (i : Item). i.name) (sym content) ∙ slot_name n v old it h

pub server-IsConsistent : IsConsistent contents
server-IsConsistent = record {
  current = λ n s it h. h;
  own_name = λ n s it. named n s.revision s.slot it;
}

pub server-IsReliable : IsReliable contents
server-IsReliable = record {
  reads = λ n s it h. h;
  writes = λ it old s. writes it old s.revision s.slot;
  named = λ n s it. named n s.revision s.slot it;
}
