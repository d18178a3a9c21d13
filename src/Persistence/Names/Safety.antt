-- ===== src/Persistence/Names/Safety.antt =====
-- What `sanitizeName` guarantees of its result.
use k8s_deploy_monitor_opera.Prelude.{
  ℕ, suc, zero, ◌≤◌, ◌<◌, ◌≢◌, [], ◌∷◌, GoString, map, take, length, All, All-append, arith, eqb,
  Bool-cases, inl, inr, ◌⊎◌,
}
use mathlib.Core.List.{reverse, reverse-cons}
use k8s_deploy_monitor_opera.Persistence.Names.{
  lower_byte, replace_byte, trim_left, trim, max_name, sanitize_name,
}

-- A byte that `sanitizeName` leaves in a name: no capital letter, and none of `/`, `_`, `.`.
pub record IsSafe (c : ℕ) : Type 0 where
  pub not_upper : c < b'A' ⊎ b'Z' < c
  pub not_slash : c ≢ b'/'
  pub not_underscore : c ≢ b'_'
  pub not_dot : c ≢ b'.'

clean_byte-IsSafe :
    (c : ℕ) → IsSafe (replace_byte b'.' (replace_byte b'_' (replace_byte b'/' (lower_byte c))))
unfolding replace_byte lower_byte
clean_byte-IsSafe c = ground arith

clean-All :
    (s : GoString)
    → All IsSafe (
        map
          (replace_byte b'.')
          (map (replace_byte b'_') (map (replace_byte b'/') (map lower_byte s))))
clean-All [] = tt
clean-All (c ∷ s) = (clean_byte-IsSafe c, clean-All s)

module _ (P : ℕ → Type 0) where
  trim_left-All : (s : GoString) → All P s → All P (trim_left s)
  unfolding trim_left
  trim_left-All [] h = tt
  trim_left-All (c ∷ s) h = elim (Bool-cases (eqb c b'-')) [
    | inl e ↦ rw e (trim_left-All s h.1)
    | inr e ↦ rw e h
  ]

  reverse-All : (s : GoString) → All P s → All P (reverse s)
  reverse-All [] h = tt
  reverse-All (c ∷ s) h =
      rw reverse-cons (All-append P (reverse s) (c ∷ []) (reverse-All s h.1) (h.0, tt))

  take-All : (n : ℕ) (s : GoString) → All P s → All P (take n s)
  take-All zero s h = tt
  take-All (suc n) [] h = tt
  take-All (suc n) (c ∷ s) h = (h.0, take-All n s h.1)

trim-All : (s : GoString) → All IsSafe s → All IsSafe (trim s)
unfolding trim
trim-All s h =
    reverse-All IsSafe _ (trim_left-All IsSafe _ (reverse-All IsSafe _ (trim_left-All IsSafe s h)))

length-take-le : (n : ℕ) (s : GoString) → length (take n s) ≤ n
length-take-le zero s = omega arith
length-take-le (suc n) [] = omega arith
length-take-le (suc n) (c ∷ s) = omega (arith, length-take-le n s)

-- Every sanitized name has at most 63 bytes, and no capital letter, slash, underscore or dot.
pub sanitize_name-IsSafe :
    (s : GoString) → (length (sanitize_name s) ≤ max_name) × All IsSafe (sanitize_name s)
unfolding sanitize_name
sanitize_name-IsSafe s =
    (length-take-le max_name _, take-All IsSafe max_name _ (trim-All _ (clean-All s)))
