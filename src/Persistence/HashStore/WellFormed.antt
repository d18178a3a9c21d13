-- ===== src/Persistence/HashStore/WellFormed.antt =====
-- The well-formedness of the buffer of hash_store.go: a map of maps in which every cluster, and
-- every key of a cluster, stands once.
use k8s_deploy_monitor_opera.Prelude.{
  List, [], ◌∷◌, GoString, Map, lookup, insert, has_key, ◌==◌, ◌≡◌, arith, HasUniqueKeys,
  insert-HasUniqueKeys, All, Bool-cases, true, false, if_both, inl, inr,
}
use k8s_deploy_monitor_opera.Persistence.HashStore.{
  Client, Pending, Update, pending_for, buffer_hash, requeue, buffer_all, upsert_cluster_state,
  flush_loop, flush,
}

abbrev pub HasUniqueInner : Pending → Type 0
HasUniqueInner = All (λ e. HasUniqueKeys (e.1))

pub record IsWellFormed (p : Pending) : Type 0 where
  pub unique : HasUniqueKeys p
  pub inner : HasUniqueInner p

pending_for-cons_eq :
    (cluster c : GoString) (m : Map GoString) (p : Pending)
    → c == cluster ≡ true
    → pending_for cluster ((c, m) ∷ p) ≡ m
unfolding pending_for lookup
pending_for-cons_eq cluster c m p e = ground arith

pending_for-cons_ne :
    (cluster c : GoString) (m : Map GoString) (p : Pending)
    → c == cluster ≡ false
    → pending_for cluster ((c, m) ∷ p) ≡ pending_for cluster p
unfolding pending_for lookup
pending_for-cons_ne cluster c m p e = ground arith

pending_for-HasUniqueKeys :
    (cluster : GoString) (p : Pending) → HasUniqueInner p → HasUniqueKeys (pending_for cluster p)
pending_for-HasUniqueKeys cluster [] h = unfold pending_for lookup in tt
pending_for-HasUniqueKeys cluster ((c, m) ∷ p) h = elim (Bool-cases (c == cluster)) [
  | inl e ↦ rw (pending_for-cons_eq cluster c m p e) (h.0)
  | inr e ↦ rw (pending_for-cons_ne cluster c m p e) (pending_for-HasUniqueKeys cluster p h.1)
]

insert-HasUniqueInner :
    (cluster : GoString) (m : Map GoString) (p : Pending)
    → HasUniqueKeys m
    → HasUniqueInner p
    → HasUniqueInner (insert cluster m p)
unfolding insert
insert-HasUniqueInner cluster m [] u h = (u, tt)
insert-HasUniqueInner cluster m ((c, n) ∷ p) u h = elim (Bool-cases (c == cluster)) [
  | inl e ↦ rw e ((u, h.1))
  | inr e ↦ rw e ((h.0, insert-HasUniqueInner cluster m p u h.1))
]

pub buffer_hash-IsWellFormed :
    (cluster key hash : GoString) (p : Pending)
    → IsWellFormed p
    → IsWellFormed (buffer_hash cluster key hash p)
unfolding buffer_hash
buffer_hash-IsWellFormed cluster key hash p h =
    let m = insert key hash (pending_for cluster p) in
    let u =
      insert-HasUniqueKeys key hash (pending_for cluster p)
        (pending_for-HasUniqueKeys cluster p h.inner) in
    record {
      unique = insert-HasUniqueKeys cluster m p h.unique;
      inner = insert-HasUniqueInner cluster m p u h.inner;
    }

pub buffer_all-IsWellFormed :
    (updates : List Update) (p : Pending) → IsWellFormed p → IsWellFormed (buffer_all updates p)
unfolding buffer_all
buffer_all-IsWellFormed [] p h = h
buffer_all-IsWellFormed ((cluster, key, hash) ∷ updates) p h =
    buffer_all-IsWellFormed updates _ (buffer_hash-IsWellFormed cluster key hash p h)

requeue-IsWellFormed :
    (cluster : GoString) (hashes : Map GoString) (p : Pending)
    → IsWellFormed p
    → IsWellFormed (requeue cluster hashes p)
unfolding requeue
requeue-IsWellFormed cluster [] p h = h
requeue-IsWellFormed cluster ((k, v) ∷ hashes) p h = requeue-IsWellFormed cluster hashes _ (
    if_both IsWellFormed (has_key k (pending_for cluster p)) _ _ h
      (buffer_hash-IsWellFormed cluster k v p h))

module _ (c : Client) where
  flush_loop-IsWellFormed :
      (arrivals : GoString → List Update) (q p : Pending) (s : c.Server)
      → IsWellFormed p
      → IsWellFormed (flush_loop c arrivals q (p, s)).0
  unfolding flush_loop
  flush_loop-IsWellFormed arrivals [] p s h = h
  flush_loop-IsWellFormed arrivals ((cluster, hashes) ∷ rest) p s h =
      let h' = buffer_all-IsWellFormed (arrivals cluster) p h in
      flush_loop-IsWellFormed arrivals rest _ _ (
        if_both IsWellFormed (upsert_cluster_state c cluster hashes s).1 _ _ h'
          (requeue-IsWellFormed cluster hashes _ h'))

  -- whatever fails, a flush leaves a buffer in which each key stands once
  flush-IsWellFormed :
      (arrivals : GoString → List Update) (p : Pending) (s : c.Server)
      → IsWellFormed (flush c arrivals (p, s)).0
  unfolding flush
  flush-IsWellFormed arrivals p s =
      flush_loop-IsWellFormed arrivals p [] s (record { unique = tt; inner = tt })
