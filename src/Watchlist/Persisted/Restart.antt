-- ===== src/Watchlist/Persisted/Restart.antt =====
-- What `LoadAll` finds after a restart of what was put before it.
use k8s_deploy_monitor_opera.Prelude.{
  Bool, true, false, not, ◌&&◌, Option, none, some, List, [], ◌∷◌, GoString, Map, lookup, insert,
  All, HasUniqueKeys, ◌==◌, eq_iff, if◌then◌else◌, ◌≡◌, inl, inr, refl, sym, ap, subst, ◌∙◌, arith,
  Bool-cases,
}
use k8s_deploy_monitor_opera.Persistence.Names.{sanitize_name}
use k8s_deploy_monitor_opera.Watchlist.{
  WatchEntry, AppWatchConfigSpec, Store, Conflict, PutResult, put_ok, accepted_of, claims,
  conflicts_of, put, put_checked, put_after, add_to_index, load_items, load_all,
}
use k8s_deploy_monitor_opera.Watchlist.Ownership.{
  is_claimed, put-owns, put-commit, lookup-add_claims,
}
use k8s_deploy_monitor_opera.Watchlist.Persisted.{
  GetResult, exists, not_found, get_failed, WatchClient, upsert_after, upsert_crd, write_unless,
  put_persist,
}

-- the entry of a key after the objects are loaded in turn
abbrev last_owner :
    GoString → List (GoString × AppWatchConfigSpec) → Option WatchEntry → Option WatchEntry
last_owner key [] o = o
last_owner key ((name, spec) ∷ items) o = last_owner key items (
    if is_claimed key (claims spec.clusters)
    then some (record { app = name; slack_channel = spec.slack_channel })
    else o)

lookup-load_items :
    (key : GoString) (items : List (GoString × AppWatchConfigSpec)) (s : Store)
    → lookup key (load_items items s).index ≡ last_owner key items (lookup key s.index)
unfolding load_items add_to_index
lookup-load_items key [] s = refl
lookup-load_items key ((name, spec) ∷ items) s =
    lookup-load_items key items _
    ∙ ap (last_owner key items) (
        lookup-add_claims (record { app = name; slack_channel = spec.slack_channel })
          (claims spec.clusters) s.index key)

-- no object but the app's own claims the key
abbrev pub IsUnclaimed : GoString → GoString → GoString × AppWatchConfigSpec → Type 0
IsUnclaimed app key item =
    (is_claimed key (claims (item.1).clusters) && not (item.0 == app)) ≡ false

last_owner-unclaimed :
    (key app : GoString) (items : Map AppWatchConfigSpec) (o : Option WatchEntry)
    → lookup app items ≡ none
    → All (IsUnclaimed app key) items
    → last_owner key items o ≡ o
unfolding lookup
last_owner-unclaimed key app [] o absent h = refl
last_owner-unclaimed key app ((name, spec) ∷ items) o absent h =
    let other : name == app ≡ false = ground (arith, absent) in
    let free : is_claimed key (claims spec.clusters) ≡ false = ground (arith, other, h.0) in
    rw free (last_owner-unclaimed key app items o (ground (arith, absent)) h.1)

last_owner-first :
    (key app : GoString) (spec : AppWatchConfigSpec) (items : Map AppWatchConfigSpec)
    → (o : Option WatchEntry) → is_claimed key (claims spec.clusters) ≡ true
    → lookup app items ≡ none
    → All (IsUnclaimed app key) items
    → last_owner key ((app, spec) ∷ items) o
      ≡ some (record { app = app; slack_channel = spec.slack_channel })
last_owner-first key app spec items o claimed absent h =
    rw claimed (last_owner-unclaimed key app items _ absent h)

last_owner-insert :
    (key app : GoString) (spec : AppWatchConfigSpec) (items : Map AppWatchConfigSpec)
    → (o : Option WatchEntry) → HasUniqueKeys items
    → All (IsUnclaimed app key) items
    → is_claimed key (claims spec.clusters) ≡ true
    → last_owner key (insert app spec items) o
      ≡ some (record { app = app; slack_channel = spec.slack_channel })
unfolding insert
last_owner-insert key app spec [] o unique h claimed = rw claimed refl
last_owner-insert key app spec ((name, old) ∷ items) o unique h claimed =
    elim (Bool-cases (name == app)) [
      | inl same ↦ rw same (
          last_owner-first key app spec items o claimed
            (subst (λ n. lookup n items ≡ none) ((eq_iff name app).0 same) unique.0) h.1)
      | inr other ↦ rw other (last_owner-insert key app spec items _ unique.1 h.1 claimed)
    ]

-- a `Put` that succeeds has written its object
put_after-upserted :
    (cs : List Conflict) (upserted : Option Bool) (app : GoString) (spec : AppWatchConfigSpec)
    → (rejected : Map GoString) (s : Store) (r : PutResult)
    → (put_after cs upserted app spec rejected s).1 ≡ put_ok r
    → (b : Bool) × (upserted ≡ some b)
unfolding put_after
put_after-upserted (c ∷ cs) upserted app spec rejected s r e = cc
put_after-upserted [] none app spec rejected s r e = cc
put_after-upserted [] (some created) app spec rejected s r e = (created, refl)

put-upserted :
    (known : Map Bool) (upserted : Option Bool) (app : GoString) (spec : AppWatchConfigSpec)
    → (s : Store) (r : PutResult) → (put known upserted app spec s).1 ≡ put_ok r
    → (b : Bool) × (upserted ≡ some b)
unfolding put put_checked
put-upserted known upserted app spec s r e = put_after-upserted _ upserted app _ _ s r e

module _ (client : WatchClient) where
  -- The objects of the server: a list has them, and a write that succeeds stores its own.
  pub record IsKept (objects : client.Server → Map AppWatchConfigSpec) : Type 0 where
    pub listed : (s : client.Server) → client.list_items s ≡ some (objects s)
    pub created :
        (name : GoString) (spec : AppWatchConfigSpec) (s : client.Server)
        → (client.create name spec s).1 ≡ true
        → objects (client.create name spec s).0 ≡ insert name spec (objects s)
    pub updated :
        (name : GoString) (spec : AppWatchConfigSpec) (s : client.Server)
        → (client.update name spec s).1 ≡ true
        → objects (client.update name spec s).0 ≡ insert name spec (objects s)

  module _ (objects : client.Server → Map AppWatchConfigSpec) (kept : IsKept objects) where
    upsert_after-stores :
        (g : GetResult) (name : GoString) (spec : AppWatchConfigSpec) (s : client.Server) (b : Bool)
        → (upsert_after client g name spec s).1 ≡ some b
        → objects (upsert_after client g name spec s).0 ≡ insert name spec (objects s)
    unfolding upsert_after
    upsert_after-stores not_found name spec s b h = kept.created name spec s (ground (arith, h))
    upsert_after-stores get_failed name spec s b h = absurd (ground (arith, h))
    upsert_after-stores exists name spec s b h = kept.updated name spec s (ground (arith, h))

    write_unless-stores :
        (cs : List Conflict) (app : GoString) (spec : AppWatchConfigSpec) (s : client.Server)
        → (b : Bool) → (write_unless client cs app spec s).1 ≡ some b
        → objects (write_unless client cs app spec s).0
          ≡ insert (sanitize_name app) spec (objects s)
    unfolding write_unless upsert_crd
    write_unless-stores [] app spec s b h =
        upsert_after-stores (client.get (sanitize_name app) s) (sanitize_name app) spec s b h
    write_unless-stores (c ∷ cs) app spec s b h = absurd (ground (arith, h))

    -- A restart after a successful `Put` of an app whose name `sanitizeName` keeps: every pair that
    -- the `Put` accepted, and that no other object claims, has the same entry again.
    pub load_all-put :
        (known : Map Bool) (app : GoString) (spec : AppWatchConfigSpec) (s restarted : Store)
        → (server : client.Server) (r : PutResult) (key : GoString)
        → (put_persist client known app spec s server).0.1 ≡ put_ok r
        → sanitize_name app ≡ app
        → HasUniqueKeys (objects server)
        → All (IsUnclaimed app key) (objects server)
        → is_claimed key (claims r.accepted) ≡ true
        → lookup key
            (load_all
              (client.list_items (put_persist client known app spec s server).1)
              restarted).index
          ≡ lookup key (put_persist client known app spec s server).0.0.index
    unfolding put_persist load_all
    load_all-put known app spec s restarted server r key ok same unique free claimed =
        let acc : AppWatchConfigSpec = record {
          slack_channel = spec.slack_channel;
          clusters = accepted_of known spec.clusters;
        } in
        let cs = conflicts_of app s.index (claims (accepted_of known spec.clusters)) in
        let w = write_unless client cs app acc server in
        let (b, written) = put-upserted known w.1 app spec s r ok in
        let stores : objects w.0 ≡ insert app acc (objects server) =
          write_unless-stores cs app acc server b written
          ∙ ap (λ n. insert n acc (objects server)) same in
        let c = put-commit known w.1 app spec s r ok in
        rw (kept.listed w.0, stores)
          (lookup-load_items key (insert app acc (objects server)) _
            ∙ (last_owner-insert key app acc (objects server) _ unique free
                  (ap (λ a. is_claimed key (claims a)) (sym (c.1.0)) ∙ claimed)
                ∙ sym (put-owns known w.1 app spec s r ok key claimed)))
