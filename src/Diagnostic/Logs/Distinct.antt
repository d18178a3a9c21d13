-- ===== src/Diagnostic/Logs/Distinct.antt =====
-- `filterErrorLines` against a description that counts and removes repetitions.
use k8s_deploy_monitor_opera.Prelude.{
  ℕ, ◌+◌, Bool, false, not, ◌&&◌, ◌||◌, List, [], ◌∷◌, ◌++◌, GoString, str, Map, lookup, insert,
  has_key, has_key-insert, has_key-nil, lookup-insert, lookup-nil, map, ltb, ◌==◌, eq_iff, on_some,
  if◌then◌else◌, ◌≡◌, refl, arith, ◌∙◌, ap, Bool-cases, Option-cases, inl, inr, sym,
}
use mathlib.Core.List.{append-nil, append_assoc}
use k8s_deploy_monitor_opera.Diagnostic.Logs.{
  is_error_line, see_line, see_lines, decimal, annotate, filter_error_lines, scan_lines,
}

-- how often a line occurs among the lines that match
abbrev pub occurrences : GoString → List GoString → ℕ
occurrences line [] = 0
occurrences line (l ∷ ls) =
    let rest = occurrences line ls in if is_error_line l && l == line then rest + 1 else rest

-- The matching lines without repetitions, and without those of which `known` holds.
abbrev pub distinct : (GoString → Bool) → List GoString → List GoString
distinct known [] = []
distinct known (l ∷ ls) =
    if is_error_line l && not (known l)
    then l ∷ distinct (λ k. known k || l == k) ls
    else distinct known ls

abbrev pub with_count : List GoString → GoString → GoString
with_count lines line =
    if ltb 1 (occurrences line lines)
    then line ++ str " (seen " ++ decimal (occurrences line lines) ++ str " times)"
    else line

abbrev count_in : GoString → Map ℕ → ℕ
count_in line seen = on_some (lookup line seen) 0 (λ n. n)

count_in-see_line :
    (l line : GoString) (seen : Map ℕ) (result : List GoString)
    → count_in line (see_line l (seen, result)).0
      ≡ (if l == line then count_in line seen + 1 else count_in line seen)
unfolding see_line
count_in-see_line l line seen result = elim (Option-cases (lookup l seen)) [
  | inl e ↦ rw (e, see_line) (ground (arith, e, eq_iff l line, lookup-insert l line 1 seen))
  | inr (n, e) ↦
      rw (e, see_line) (ground (arith, e, eq_iff l line, lookup-insert l line (n + 1) seen))
]

see_lines-count :
    (lines : List GoString) (line : GoString) (st : Map ℕ × List GoString)
    → count_in line (see_lines lines st).0 ≡ count_in line st.0 + occurrences line lines
unfolding see_lines
see_lines-count [] line st = omega arith
see_lines-count (l ∷ ls) line (seen, result) = elim (Bool-cases (is_error_line l)) [
  | inl e ↦
      rw (e, see_lines)
        (ground (
          arith,
          see_lines-count ls line (see_line l (seen, result)),
          count_in-see_line l line seen result,
        ))
  | inr e ↦ rw (e, see_lines) (see_lines-count ls line (seen, result))
]

distinct-same :
    (p q : GoString → Bool) (lines : List GoString)
    → ((k : GoString) → p k ≡ q k)
    → distinct p lines ≡ distinct q lines
distinct-same p q [] h = refl
distinct-same p q (l ∷ ls) h = ground (
  arith,
  h l,
  distinct-same p q ls h,
  distinct-same (λ k. p k || l == k) (λ k. q k || l == k) ls (λ k. rw (h k) refl),
)

-- one more line that matches
see_line-distinct :
    (l : GoString) (ls : List GoString) (seen : Map ℕ) (result : List GoString)
    → ((seen : Map ℕ) (result : List GoString)
        → (see_lines ls (seen, result)).1 ≡ result ++ distinct (λ k. has_key k seen) ls)
    → (see_lines ls (see_line l (seen, result))).1
      ≡ result
        ++ (if not (has_key l seen)
            then l ∷ distinct (λ k. has_key k seen || l == k) ls
            else distinct (λ k. has_key k seen) ls)
unfolding see_line has_key
see_line-distinct l ls seen result rest = elim (Option-cases (lookup l seen)) [
  | inl e ↦
      rw (e, see_line, has_key)
        (rest (insert l 1 seen) (result ++ l ∷ [])
          ∙ append_assoc result (l ∷ []) _
          ∙ ap (λ x. result ++ l ∷ x)
              (distinct-same _ _ ls (λ k. ground (arith, has_key-insert l k 1 seen))))
  | inr (n, e) ↦
      rw (e, see_line, has_key)
        (rest (insert l (n + 1) seen) result
          ∙ ap (λ x. result ++ x)
              (distinct-same _ _ ls
                (λ k. ground (arith, has_key-insert l k (n + 1) seen, eq_iff l k, e))))
]

see_lines-distinct :
    (lines : List GoString) (seen : Map ℕ) (result : List GoString)
    → (see_lines lines (seen, result)).1 ≡ result ++ distinct (λ k. has_key k seen) lines
unfolding see_lines
see_lines-distinct [] seen result = sym (append-nil result)
see_lines-distinct (l ∷ ls) seen result = elim (Bool-cases (is_error_line l)) [
  | inl e ↦ rw (e, see_lines) (see_line-distinct l ls seen result (see_lines-distinct ls))
  | inr e ↦ rw (e, see_lines) (see_lines-distinct ls seen result)
]

annotate-count :
    (seen : Map ℕ) (line : GoString)
    → annotate seen line ≡ (
        if ltb 1 (count_in line seen)
        then line ++ str " (seen " ++ decimal (count_in line seen) ++ str " times)"
        else line)
unfolding annotate
annotate-count seen line = elim (Option-cases (lookup line seen)) [
  | inl e ↦ rw (e, annotate) refl
  | inr (n, e) ↦ rw (e, annotate) refl
]

map-same :
    (f g : GoString → GoString) (lines : List GoString)
    → ((l : GoString) → f l ≡ g l)
    → map f lines ≡ map g lines
map-same f g [] h = refl
map-same f g (l ∷ ls) h = cc (h l, map-same f g ls h)

count_in-see_lines :
    (lines : List GoString) (line : GoString)
    → count_in line (see_lines lines ([], [])).0 ≡ occurrences line lines
count_in-see_lines lines line =
    see_lines-count lines line ([], []) ∙ rw (lookup-nil {V = ℕ} line) (omega arith)

-- Of the lines that the scanner reads (it ends before the first line of more than 65535 bytes), the
-- filtered log has every line that matches an error pattern once, in the order of first occurrence,
-- and a line that occurs more than once among them carries the number of its occurrences.
pub filter_error_lines-distinct :
    (log : GoString)
    → let lines = scan_lines [] log in
      filter_error_lines log ≡ map (with_count lines) (distinct (λ k. false) lines)
unfolding filter_error_lines
filter_error_lines-distinct log =
    let lines = scan_lines [] log in
    map-same _ _ (see_lines lines ([], [])).1
      (λ l. annotate-count _ l ∙ rw (count_in-see_lines lines l) refl)
    ∙ ap (map (with_count lines))
        (see_lines-distinct lines [] [] ∙ distinct-same _ _ lines (λ k. has_key-nil ℕ k))
