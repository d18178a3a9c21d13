-- ===== src/Diagnostic/Logs.antt =====
-- `filterErrorLines` and `countLines` of analyzer.go, on the bytes of a log. `bufio.Scanner` splits
-- them at newlines, drops a carriage return at a line's end, and stops before a line that does not
-- fit its buffer of 64 KB.
pub mod Distinct
use k8s_deploy_monitor_opera.Prelude.{
  ℕ, zero, suc, ◌+◌, ◌/◌, ◌%◌, Bool, true, false, ◌&&◌, ◌||◌, Option, none, some, List, [], ◌∷◌,
  ◌++◌, GoString, str, Map, lookup, insert, length, any, map, ltb, eqb, ◌==◌, on_some,
  if◌then◌else◌,
}
use k8s_deploy_monitor_opera.Persistence.Names.{lower_byte}

-- the longest line that the scanner returns
abbrev pub max_line : ℕ
max_line = 65_535

unfoldable pub drop_cr : GoString → GoString
drop_cr [] = []
drop_cr (c ∷ []) = if eqb c 13 then [] else c ∷ []
drop_cr (c ∷ d ∷ s) = c ∷ drop_cr (d ∷ s)

-- The lines of the rest of a log, where `line` has been read of the first.
unfoldable pub scan_lines : GoString → GoString → List GoString
scan_lines [] [] = []
scan_lines (b ∷ line) [] = if ltb max_line (length (b ∷ line)) then [] else drop_cr (b ∷ line) ∷ []
scan_lines line (c ∷ log) = elim (ltb max_line (length line)) [
  | true ↦ []
  | false ↦ elim (eqb c 10) [
    | true ↦ drop_cr line ∷ scan_lines [] log
    | false ↦ scan_lines (line ++ c ∷ []) log
  ]
]

unfoldable pub count_lines : GoString → ℕ
count_lines log = length (scan_lines [] log)

unfoldable pub has_prefix : GoString → GoString → Bool
has_prefix [] s = true
has_prefix (c ∷ p) [] = false
has_prefix (c ∷ p) (d ∷ s) = eqb c d && has_prefix p s

-- `strings.Contains(s, pattern)`
unfoldable pub contains : GoString → GoString → Bool
contains pattern [] = has_prefix pattern []
contains pattern (c ∷ s) = has_prefix pattern (c ∷ s) || contains pattern s

abbrev pub error_log_patterns : List GoString
error_log_patterns =
    str "error" ∷ str "fatal" ∷ str "panic" ∷ str "traceback" ∷ str "exception" ∷ []

unfoldable pub is_error_line : GoString → Bool
is_error_line line = any (λ p. contains p (map lower_byte line)) error_log_patterns

-- The body of the loop for a line that matches: `seen` and `result`.
unfoldable pub see_line : GoString → Map ℕ × List GoString → Map ℕ × List GoString
see_line line (seen, result) =
    on_some (lookup line seen) (insert line 1 seen, result ++ line ∷ [])
      (λ count. (insert line (count + 1) seen, result))

unfoldable pub see_lines : List GoString → Map ℕ × List GoString → Map ℕ × List GoString
see_lines [] st = st
see_lines (line ∷ rest) st = see_lines rest (if is_error_line line then see_line line st else st)

-- a number in decimal; the first argument bounds its digits
unfoldable pub decimal_from : ℕ → ℕ → GoString → GoString
decimal_from zero n digits = digits
decimal_from (suc fuel) n digits =
    let digits' : GoString = (48 + n % 10) ∷ digits in
    let more = decimal_from fuel (n / 10) digits' in if ltb n 10 then digits' else more

unfoldable pub decimal : ℕ → GoString
decimal n = decimal_from (n + 1) n []

-- `result[i] = fmt.Sprintf("%s (seen %d times)", line, count)`
unfoldable pub annotate : Map ℕ → GoString → GoString
annotate seen line =
    on_some (lookup line seen) line (λ count.
      if ltb 1 count then line ++ str " (seen " ++ decimal count ++ str " times)" else line)

unfoldable pub filter_error_lines : GoString → List GoString
filter_error_lines log =
    let (seen, result) = see_lines (scan_lines [] log) ([], []) in map (annotate seen) result
