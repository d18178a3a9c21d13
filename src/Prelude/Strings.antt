-- ===== src/Prelude/Strings.antt =====
-- Go's strings: lists of bytes. A literal is written `str "…"`.
use Prim.Native.Nat.{ℕ}
use Prim.Native.Char.{code}
use Prim.Native.String.{String}
use mathlib.Core.Path.{◌≡◌, refl}
use mathlib.Core.Logic.{◌↔◌}
use mathlib.Core.Bool.{Bool, true, false, ◌&&◌, ◌||◌}
use mathlib.Core.List.{List, [], ◌∷◌, ◌++◌}
use native.Mathlib.Omega.{arith}
use k8s_deploy_monitor_opera.Prelude.Tests.{eqb, if◌then◌else◌}

abbrev pub GoString : Type 0
GoString = List ℕ

-- The code points of a text: its bytes, if it is ASCII.
abbrev pub str : String → GoString
str String.[] = []
str (String.◌∷◌ c s) = code c ∷ str s

infix 50 ◌==◌
unfoldable pub ◌==◌ : GoString → GoString → Bool
[] == [] = true
[] == (d ∷ t) = false
(c ∷ s) == [] = false
(c ∷ s) == (d ∷ t) = eqb c d && s == t

pub eq→eq : (s t : GoString) → s == t ≡ true → s ≡ t
unfolding ◌==◌
eq→eq [] [] h = refl
eq→eq [] (d ∷ t) h = cc
eq→eq (c ∷ s) [] h = cc
eq→eq (c ∷ s) (d ∷ t) h = ground (arith, eq→eq s t)

pub eq_refl : (s : GoString) → s == s ≡ true
unfolding ◌==◌
eq_refl [] = refl
eq_refl (c ∷ s) = ground (arith, eq_refl s)

pub eq_iff : (s t : GoString) → (s == t ≡ true) ↔ (s ≡ t)
eq_iff s t = (eq→eq s t, λ e. rw (← e) (eq_refl s))

-- `a + "/" + b`, the form of every composite key of the program.
abbrev pub join_key : GoString → GoString → GoString
join_key a b = a ++ b'/' ∷ b

eqb_refl : (c : ℕ) → eqb c c ≡ true
eqb_refl c = ground arith

-- A shared prefix does not matter to a comparison.
pub eq-append_left : (s t u : GoString) → (s ++ t) == (s ++ u) ≡ t == u
unfolding ◌==◌
eq-append_left [] t u = refl
eq-append_left (c ∷ s) t u = ground (arith, eqb_refl c, eq-append_left s t u)

pub eq-join_key : (s t u : GoString) → join_key s t == join_key s u ≡ t == u
unfolding ◌==◌
eq-join_key s t u = ground (arith, eq-append_left s (b'/' ∷ t) (b'/' ∷ u))

-- `strings.HasSuffix` and `strings.TrimSuffix`, with the suffix first.
unfoldable pub has_suffix : GoString → GoString → Bool
has_suffix suffix [] = suffix == []
has_suffix suffix (c ∷ s) = suffix == (c ∷ s) || has_suffix suffix s

unfoldable pub trim_suffix : GoString → GoString → GoString
trim_suffix suffix [] = []
trim_suffix suffix (c ∷ s) = if suffix == (c ∷ s) then [] else c ∷ trim_suffix suffix s
