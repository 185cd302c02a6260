-- ===== src/Build/Linters/Listed.antt =====
-- When the listing of the linters of magefile.go ends, and what it lists.
use proxyreverse.Prelude.{
  ℕ, zero, suc, ◌<◌, ◌≡◌, ◌∙◌, refl, sym, ap, ◌||◌, ◌⊎◌, inl, inr, Option, none, some, List, [],
  ◌∷◌, ◌++◌, Text, text_eq, length, if◌then◌else◌, arith, ◌==◌, Bool-cases, Option-cases,
}
use mathlib.Core.List.{append_assoc, append-nil}
use proxyreverse.Go.Split.{cut, split}
use proxyreverse.Build.Hooks.{newline}
use proxyreverse.Build.Linters.{
  trim, trim_end, trim_start, read_string, linter_of, read_linters, enabled_heading,
  disabled_heading,
}

-- The names on the lines before the heading of the disabled linters, if there is that heading:
-- empty lines and the other heading name nothing.
unfoldable pub listed : List Text → Option (List Text)
listed [] = none
listed (line ∷ lines) =
    let rest = listed lines in
    if text_eq (trim line) [] || text_eq (trim line) enabled_heading
    then rest
    else if text_eq (trim line) disabled_heading
    then some []
    else elim rest [ none ↦ none | some names ↦ some (linter_of (trim line) ∷ names) ]

trim_end-newline : (s : Text) → trim_end (s ++ (newline ∷ [])) ≡ trim_end s
unfolding trim_end
trim_end-newline [] = refl
trim_end-newline (c ∷ s) = rw (trim_end-newline s) refl

trim-newline : (s : Text) → trim (s ++ (newline ∷ [])) ≡ trim s
unfolding trim
trim-newline s = ap trim_start (trim_end-newline s)

-- A text has no newline and is one line, or it is a line and a newline before others.
abbrev LineCases : Text → Type 0
LineCases s =
    ((cut newline s ≡ none) × (split newline s ≡ s ∷ []))
    ⊎ ((u : Text) × (v : Text) × (cut newline s ≡ some (u, v))
        × (split newline s ≡ u ∷ split newline v)
        × (length v < length s))

line_cases : (s : Text) → LineCases s
unfolding cut split
line_cases [] = inl (refl, refl)
line_cases (c ∷ s) = elim (Bool-cases (c == newline)) [
  | inl e ↦ inr ([], s, rw e refl, rw e refl, omega arith)
  | inr e ↦ elim (line_cases s) [
    | inl (cuts, splits) ↦ inl (rw (e, cuts) refl, rw (e, splits) refl)
    | inr (u, v, cuts, splits, shorter) ↦
        inr (c ∷ u, v, rw (e, cuts) refl, rw (e, splits) refl, omega (arith, shorter))
  ]
]

listed_last : (line : Text) → listed (line ∷ []) ≡ listed (line ∷ [] ∷ [])
unfolding listed trim trim_end trim_start text_eq
listed_last line = refl

nil_or_longer : (s : Text) → (0 < length s) ⊎ (s ≡ [])
nil_or_longer [] = inr refl
nil_or_longer (c ∷ s) = inl (omega arith)

read_string_last : (s : Text) → cut newline s ≡ none → read_string s ≡ (s, [])
unfolding read_string
read_string_last s h = rw (read_string, h) refl

read_string_line :
    (s u v : Text) → cut newline s ≡ some (u, v) → read_string s ≡ (u ++ (newline ∷ []), v)
unfolding read_string
read_string_line s u v h = rw (read_string, h) refl

split-nil : split newline [] ≡ [] ∷ []
unfolding split
split-nil = refl

listed_nil : listed (split newline []) ≡ none
unfolding listed split trim trim_end trim_start text_eq
listed_nil = refl

-- The first line of a text, read or split off, and what is left after it.
abbrev FirstLine : Text → Type 0
FirstLine s =
    (u : Text) × (v : Text) × (trim (read_string s).0 ≡ trim u)
    × ((read_string s).1 ≡ v)
    × (listed (split newline s) ≡ listed (u ∷ split newline v))
    × ((length v < length s) ⊎ (s ≡ []))

FirstLine-of : (s : Text) → FirstLine s
FirstLine-of s = elim (line_cases s) [
  | inl (cuts, splits) ↦
      let read = read_string_last s cuts in
      (
        s,
        [],
        ap (λ r. trim r.0) read,
        ap (λ r. r.1) read,
        ap listed splits ∙ listed_last s ∙ ap (λ ls. listed (s ∷ ls)) (sym split-nil),
        nil_or_longer s,
      )
  | inr (u, v, cuts, splits, shorter) ↦
      let read = read_string_line s u v cuts in
      (
        u,
        v,
        ap (λ r. trim r.0) read ∙ trim-newline u,
        ap (λ r. r.1) read,
        ap listed splits,
        inl shorter,
      )
]

-- One round of the loop, by the trimmed line.
abbrev round : {A : Type 0} → Text → A → A → A → A
round line skip done more =
    if text_eq line [] || text_eq line enabled_heading
    then skip
    else if text_eq line disabled_heading
    then done
    else more

read_linters-round :
    (f : ℕ) (s u v : Text) (acc : List Text)
    → trim (read_string s).0 ≡ trim u
    → (read_string s).1 ≡ v
    → read_linters (suc f) s acc
      ≡ round
          (trim u)
          (read_linters f v acc)
          (some acc)
          (read_linters f v (acc ++ (linter_of (trim u) ∷ [])))
unfolding read_linters
read_linters-round f s u v acc e h =
    let on = λ (line : Text) (left : Text).
      round line (read_linters f left acc) (some acc)
        (read_linters f left (acc ++ (linter_of line ∷ []))) in
    ap (λ line. on line (read_string s).1) e ∙ ap (on (trim u)) h

-- Where the heading is missing, no number of rounds is enough.
read_linters-none :
    (f : ℕ) (s : Text) (acc : List Text)
    → listed (split newline s) ≡ none
    → read_linters f s acc ≡ none
unfolding listed
read_linters-none zero s acc h = unfold read_linters in refl
read_linters-none (suc f) s acc h =
    let (u, v, line, left, e, shorter) = FirstLine-of s in
    let h' : listed (u ∷ split newline v) ≡ none = sym e ∙ h in
    read_linters-round f s u v acc line left
    ∙ ground
        (arith, read_linters-none f v acc, read_linters-none f v (acc ++ (linter_of (trim u) ∷ [])))

-- Where it is there, as many rounds as the output has bytes are enough.
read_linters-some :
    (f : ℕ) (s : Text) (acc names : List Text)
    → length s < f
    → listed (split newline s) ≡ some names
    → read_linters f s acc ≡ some (acc ++ names)
unfolding listed
read_linters-some zero s acc names fuel h = absurd (omega arith)
read_linters-some (suc f) s acc names fuel h =
    let (u, v, line, left, e, shorter) = FirstLine-of s in
    let h' : listed (u ∷ split newline v) ≡ some names = sym e ∙ h in
    let x = linter_of (trim u) in
    let enough : length v < f = elim shorter [
      | inl short ↦ omega arith
      | inr empty ↦ absurd (ground (arith, listed_nil, ap (λ t. listed (split newline t)) empty))
    ] in
    read_linters-round f s u v acc line left ∙ elim (Option-cases (listed (split newline v))) [
      | inl nothing ↦ ground (arith, append-nil acc)
      | inr (rest, found) ↦ ground (
        arith,
        append-nil acc,
        append_assoc acc (x ∷ []) rest,
        read_linters-some f v acc rest enough found,
        read_linters-some f v (acc ++ (x ∷ [])) rest enough found,
      )
    ]

-- With more rounds than the output has bytes, the loop that reads the names of the linters gives
-- what the lines before the heading of the disabled linters name, in their order, without the empty
-- lines and the other heading. If no line is that heading, it has not ended after them, however many
-- they are.
pub read_linters-listed :
    (output : Text) (f : ℕ)
    → length output < f
    → read_linters f output [] ≡ listed (split newline output)
read_linters-listed output f enough = elim (Option-cases (listed (split newline output))) [
  | inl e ↦ read_linters-none f output [] e ∙ sym e
  | inr (names, e) ↦ read_linters-some f output [] names enough e ∙ sym e
]
