-- ===== src/Persistence/Names.antt =====
-- internal/persistence/names.go (and the same function of internal/watchlist/store.go): names made
-- safe for Kubernetes. `strings.ToLower` is modelled on ASCII: other bytes stay as they are.
pub mod Safety
use k8s_deploy_monitor_opera.Prelude.{
  ℕ, ◌+◌, Bool, List, [], ◌∷◌, GoString, map, take, leb, eqb, ◌&&◌, if◌then◌else◌,
}
use mathlib.Core.List.{reverse}

abbrev is_upper : ℕ → Bool
is_upper c = leb b'A' c && leb c b'Z'

-- strings.ToLower
unfoldable pub lower_byte : ℕ → ℕ
lower_byte c = if is_upper c then c + 32 else c

-- strings.ReplaceAll(s, old, "-") for an `old` of one byte
unfoldable pub replace_byte : ℕ → ℕ → ℕ
replace_byte old c = if eqb c old then b'-' else c

-- strings.TrimLeft(s, "-")
unfoldable pub trim_left : GoString → GoString
trim_left [] = []
trim_left (c ∷ s) = if eqb c b'-' then trim_left s else c ∷ s

-- strings.Trim(s, "-")
unfoldable pub trim : GoString → GoString
trim s = reverse (trim_left (reverse (trim_left s)))

abbrev pub max_name : ℕ
max_name = 63

-- a slice `s[:63]` where the text is longer, and the whole text otherwise
unfoldable pub sanitize_name : GoString → GoString
sanitize_name s =
    let lower = map lower_byte s in
    let dashed =
      map (replace_byte b'.') (map (replace_byte b'_') (map (replace_byte b'/') lower)) in
    take max_name (trim dashed)
