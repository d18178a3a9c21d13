-- ===== src/Persistence/HashStore/Buffer.antt =====
-- What the in-memory buffer of hash_store.go holds for a cluster and a key after each operation.
use k8s_deploy_monitor_opera.Prelude.{
  Option, none, some, List, [], ◌∷◌, GoString, Map, lookup, insert, remove, has_key, ◌==◌, eq_iff,
  if◌then◌else◌, ◌≡◌, refl, arith, lookup-insert, lookup-remove, HasUniqueKeys, ◌&&◌,
}
use k8s_deploy_monitor_opera.Persistence.HashStore.{
  Pending, Update, pending_for, buffer_hash, apply_updates, requeue, buffer_all,
}

-- the pending value of a key
unfoldable pub pending_at : GoString → GoString → Pending → Option GoString
pending_at cluster key p = lookup key (pending_for cluster p)

pub pending_at-buffer_hash :
    (cluster key hash c k : GoString) (p : Pending)
    → pending_at c k (buffer_hash cluster key hash p)
      ≡ (if (cluster == c) && (key == k) then some hash else pending_at c k p)
unfolding pending_at pending_for buffer_hash
pending_at-buffer_hash cluster key hash c k p = ground (
  arith,
  lookup-insert cluster c (insert key hash (pending_for cluster p)) p,
  lookup-insert key k hash (pending_for cluster p),
  eq_iff cluster c,
  eq_iff key k,
)

-- the first value, if there is one, and else the second
abbrev pub or_else {ℓ} : {A : Type ℓ} → Option A → Option A → Option A
or_else (some a) o = some a
or_else none o = o

-- The last update of a key in a list, found from its head on.
unfoldable pub latest : GoString → GoString → List Update → Option GoString
latest c k [] = none
latest c k ((cluster, key, hash) ∷ updates) =
    or_else (latest c k updates) (if (cluster == c) && (key == k) then some hash else none)

pub pending_at-buffer_all :
    (updates : List Update) (c k : GoString) (p : Pending)
    → pending_at c k (buffer_all updates p) ≡ or_else (latest c k updates) (pending_at c k p)
unfolding buffer_all latest
pending_at-buffer_all [] c k p = refl
pending_at-buffer_all ((cluster, key, hash) ∷ updates) c k p = ground (
  arith,
  pending_at-buffer_all updates c k (buffer_hash cluster key hash p),
  pending_at-buffer_hash cluster key hash c k p,
)

requeue_one :
    (cluster key hash c k : GoString) (p : Pending)
    → pending_at c k
        (if has_key key (pending_for cluster p) then p else buffer_hash cluster key hash p)
      ≡ or_else (pending_at c k p) (if (cluster == c) && (key == k) then some hash else none)
unfolding has_key pending_at
requeue_one cluster key hash c k p =
    ground (arith, pending_at-buffer_hash cluster key hash c k p, eq_iff cluster c, eq_iff key k)

-- Re-queueing keeps every newer value and restores the rest.
pub pending_at-requeue :
    (cluster : GoString) (hashes : Map GoString) (c k : GoString) (p : Pending)
    → pending_at c k (requeue cluster hashes p)
      ≡ or_else (pending_at c k p) (if cluster == c then lookup k hashes else none)
unfolding requeue lookup
pending_at-requeue cluster [] c k p = ground arith
pending_at-requeue cluster ((key, hash) ∷ hashes) c k p = ground (
  arith,
  pending_at-requeue cluster hashes c k
      (if has_key key (pending_for cluster p) then p else buffer_hash cluster key hash p),
  requeue_one cluster key hash c k p,
)

-- what a pending value means: the empty hash deletes
abbrev pub decode : GoString → Option GoString
decode hash = if hash == [] then none else some hash

abbrev pub overlay : Option GoString → Option GoString → Option GoString
overlay none base = base
overlay (some hash) base = decode hash

pub lookup-apply_updates :
    (updates hashes : Map GoString) (k : GoString)
    → HasUniqueKeys updates
    → lookup k (apply_updates updates hashes) ≡ overlay (lookup k updates) (lookup k hashes)
unfolding apply_updates lookup
lookup-apply_updates [] hashes k h = refl
lookup-apply_updates ((key, v) ∷ updates) hashes k h = ground (
  arith,
  lookup-apply_updates updates (if v == [] then remove key hashes else insert key v hashes) k,
  lookup-insert key k v hashes,
  lookup-remove key k hashes,
  eq_iff key k,
)
