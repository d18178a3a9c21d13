-- ===== src/Persistence/HashStore/Flush.antt =====
-- `flush` of hash_store.go against an abstract view: what is known of a deployment is the pending
-- update if there is one, and else what the API server stores.
use k8s_deploy_monitor_opera.Prelude.{
  true, false, Option, none, List, [], ◌∷◌, ◌++◌, GoString, Map, lookup, ◌==◌, eq_iff,
  if◌then◌else◌, ◌≡◌, refl, arith, lookup-nil, HasUniqueKeys, All, ◌⊎◌, ◌∙◌,
}
use k8s_deploy_monitor_opera.Persistence.Names.{sanitize_name}
use k8s_deploy_monitor_opera.Persistence.HashStore.{
  Client, Pending, Update, pending_for, requeue, buffer_all, upsert_cluster_state, flush_loop,
  flush,
}
use k8s_deploy_monitor_opera.Persistence.HashStore.Buffer.{
  pending_at, or_else, latest, overlay, pending_at-buffer_all, pending_at-requeue,
}
use k8s_deploy_monitor_opera.Persistence.HashStore.Upsert.{
  IsFaithful, stored_at, upsert_after_self, upsert_after_other,
}

module _ (c : Client) (f : IsFaithful c) where
  open c use {Server, get}

  -- What is known of a deployment: its latest pending value, or else the stored hash.
  abbrev pub known : GoString → GoString → Pending × Server → Option GoString
  known cluster k (p, s) = overlay (pending_at cluster k p) (stored_at c f cluster k s)

  -- A cluster shares its object with no other cluster that is flushed.
  abbrev pub OwnsObject : GoString → Pending → Type 0
  OwnsObject cluster =
      All (λ e. (e.0 == cluster ≡ true) ⊎ (sanitize_name e.0 == sanitize_name cluster ≡ false))

  abbrev pub arrivals_during : (GoString → List Update) → Pending → List Update
  arrivals_during arrivals [] = []
  arrivals_during arrivals ((cluster, hashes) ∷ rest) =
      arrivals cluster ++ arrivals_during arrivals rest

  known_step :
      (cluster : GoString) (hashes : Map GoString) (new : List Update) (c₀ k : GoString)
      (p : Pending) (s : Server) (l r : Option GoString)
      → HasUniqueKeys hashes
      → (cluster == c₀ ≡ true) ⊎ (sanitize_name cluster == sanitize_name c₀ ≡ false)
      → (cluster == c₀ ≡ true → r ≡ none)
      → let (s', written) = upsert_cluster_state c cluster hashes s in
        overlay
          (or_else l (
            or_else
              (pending_at c₀ k
                (if written then buffer_all new p else requeue cluster hashes (buffer_all new p)))
              r))
          (stored_at c f c₀ k s')
        ≡ overlay
            (or_else
              (or_else l (latest c₀ k new))
              (or_else (pending_at c₀ k p) (if cluster == c₀ then lookup k hashes else r)))
            (stored_at c f c₀ k s)
  unfolding upsert_cluster_state
  known_step cluster hashes new c₀ k p s l r u own last = ground (
    arith,
    upsert_after_self c f cluster hashes k s (get (sanitize_name cluster) s) u refl,
    upsert_after_other c f cluster hashes (sanitize_name c₀) s (get (sanitize_name cluster) s) refl,
    pending_at-buffer_all new c₀ k p,
    pending_at-requeue cluster hashes c₀ k (buffer_all new p),
    eq_iff cluster c₀,
  )

  latest-nil : (c₀ k : GoString) → latest c₀ k [] ≡ none
  unfolding latest
  latest-nil c₀ k = refl

  latest-append :
      (c₀ k : GoString) (a b : List Update)
      → latest c₀ k (a ++ b) ≡ or_else (latest c₀ k b) (latest c₀ k a)
  unfolding latest
  latest-append c₀ k [] b = ground arith
  latest-append c₀ k ((cluster, key, hash) ∷ a) b = ground (arith, latest-append c₀ k a b)

  pending_for-none :
      (cluster : GoString) (p : Pending) → lookup cluster p ≡ none → pending_for cluster p ≡ []
  unfolding pending_for
  pending_for-none cluster p e = ground arith

  pending_at-none :
      (cluster k : GoString) (p : Pending) → lookup cluster p ≡ none → pending_at cluster k p ≡ none
  unfolding pending_at
  pending_at-none cluster k p e =
      ground (arith, pending_for-none cluster p e, lookup-nil {V = GoString} k)

  pending_at-cons :
      (cluster : GoString) (hashes : Map GoString) (c₀ k : GoString) (rest : Pending)
      → pending_at c₀ k ((cluster, hashes) ∷ rest)
        ≡ (if cluster == c₀ then lookup k hashes else pending_at c₀ k rest)
  unfolding pending_at pending_for lookup
  pending_at-cons cluster hashes c₀ k rest = ground arith

  known-flush_loop :
      (arrivals : GoString → List Update) (q : Pending) (c₀ k : GoString) (p : Pending) (s : Server)
      → HasUniqueKeys q
      → All (λ e. HasUniqueKeys (e.1)) q
      → OwnsObject c₀ q
      → known c₀ k (flush_loop c arrivals q (p, s))
        ≡ overlay
            (or_else
              (latest c₀ k (arrivals_during arrivals q))
              (or_else (pending_at c₀ k p) (pending_at c₀ k q)))
            (stored_at c f c₀ k s)
  unfolding flush_loop
  known-flush_loop arrivals [] c₀ k p s u us own =
      ground (arith, pending_at-none c₀ k [] (lookup-nil c₀), latest-nil c₀ k)
  known-flush_loop arrivals ((cluster, hashes) ∷ rest) c₀ k p s u us own =
      let w = upsert_cluster_state c cluster hashes s in
      let p' : Pending = buffer_all (arrivals cluster) p in
      known-flush_loop arrivals rest c₀ k (if w.1 then p' else requeue cluster hashes p') w.0 u.1
        us.1 own.1
      ∙ known_step cluster hashes (arrivals cluster) c₀ k p s
          (latest c₀ k (arrivals_during arrivals rest)) (pending_at c₀ k rest) us.0 own.0
          (λ e. pending_at-none c₀ k rest (rw (← (eq_iff cluster c₀).0 e) u.0))
      ∙ ground (
        arith,
        latest-append c₀ k (arrivals cluster) (arrivals_during arrivals rest),
        pending_at-cons cluster hashes c₀ k rest,
      )

  -- Flushing is invisible, whatever fails: for a cluster that shares its object with no other
  -- pending cluster, what is known of a deployment after the flush (its pending value, or else the
  -- hash that the server stores) is what would be known had the updates that arrived during the
  -- flush been buffered and nothing flushed.
  pub known-flush :
      (arrivals : GoString → List Update) (p : Pending) (s : Server) (c₀ k : GoString)
      → HasUniqueKeys p
      → All (λ e. HasUniqueKeys (e.1)) p
      → OwnsObject c₀ p
      → known c₀ k (flush c arrivals (p, s))
        ≡ known c₀ k (buffer_all (arrivals_during arrivals p) p, s)
  unfolding flush
  known-flush arrivals p s c₀ k u us own =
      known-flush_loop arrivals p c₀ k [] s u us own
      ∙ ground (
        arith,
        pending_at-buffer_all (arrivals_during arrivals p) c₀ k p,
        pending_at-none c₀ k [] (lookup-nil c₀),
      )
