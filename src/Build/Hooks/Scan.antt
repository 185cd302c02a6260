-- ===== src/Build/Hooks/Scan.antt =====
-- The search for the managed section in `Autogen` of magefile.go.
use proxyreverse.Prelude.{
  ℕ, suc, ◌+◌, ◌≡◌, ◌∙◌, ap, true, false, Option, none, some, List, [], ◌∷◌, ◌++◌, Text, arith,
  text_eq, text_eq_iff, length, All, ok, err, refl,
}
use proxyreverse.Build.Hooks.{
  scan, is_head, is_foot, trim_space, multiple_script_sections, managed_script_section_head,
  managed_script_section_foot,
}

-- A line that is neither the head nor the foot of a section.
abbrev pub IsUnmarked : Text → Type 0
IsUnmarked line = (is_head line ≡ false) × (is_foot line ≡ false)

head_ne_foot : text_eq managed_script_section_head managed_script_section_foot ≡ false
unfolding text_eq
head_ne_foot = refl

pub is_head-foot : (line : Text) → is_foot line ≡ true → is_head line ≡ false
is_head-foot line h = ground (
  arith,
  text_eq_iff (trim_space line) managed_script_section_head,
  text_eq_iff (trim_space line) managed_script_section_foot,
  text_eq_iff managed_script_section_head managed_script_section_foot,
  head_ne_foot,
)

pub scan-append :
    (idx : ℕ) (h t : Option ℕ) (xs ys : List Text)
    → All IsUnmarked xs
    → scan idx h t (xs ++ ys) ≡ scan (idx + length xs) h t ys
unfolding scan
scan-append idx h t [] ys u = ap (λ i. scan i h t ys) (omega arith)
scan-append idx h t (x ∷ xs) ys ((p, q), u) =
    let e : suc idx + length xs ≡ idx + suc (length xs) = omega arith in
    ground (arith, scan-append (suc idx) h t xs ys u, e)

pub scan_unmarked :
    (idx : ℕ) (h t : Option ℕ) (xs : List Text) → All IsUnmarked xs → scan idx h t xs ≡ ok (h, t)
unfolding scan
scan_unmarked idx h t [] u = refl
scan_unmarked idx h t (x ∷ xs) ((p, q), u) = ground (arith, scan_unmarked (suc idx) h t xs u)

scan_head :
    (idx : ℕ) (t : Option ℕ) (line : Text) (lines : List Text)
    → is_head line ≡ true
    → scan idx none t (line ∷ lines) ≡ scan (suc idx) (some idx) t lines
unfolding scan
scan_head idx t line lines e = ground arith

scan_foot :
    (idx : ℕ) (h : Option ℕ) (line : Text) (lines : List Text)
    → is_foot line ≡ true
    → scan idx h none (line ∷ lines) ≡ scan (suc idx) h (some (suc idx)) lines
unfolding scan
scan_foot idx h line lines e = ground (arith, is_head-foot line e)

-- A second foot is refused.
pub scan_second_foot :
    (idx n : ℕ) (h : Option ℕ) (line : Text) (lines : List Text)
    → is_foot line ≡ true
    → scan idx h (some n) (line ∷ lines) ≡ err multiple_script_sections
unfolding scan
scan_second_foot idx n h line lines e = ground (arith, is_head-foot line e)

-- Where the one section stands.
pub scan_section :
    (pre old post : List Text) (head foot : Text)
    → All IsUnmarked pre
    → All IsUnmarked old
    → is_head head ≡ true
    → is_foot foot ≡ true
    → scan 0 none none (pre ++ (head ∷ (old ++ (foot ∷ post))))
      ≡ scan
          (length pre + (length old + 2))
          (some (length pre))
          (some (length pre + (length old + 2)))
          post
scan_section pre old post head foot p o h f =
    let e : suc (suc (length pre) + length old) ≡ length pre + (length old + 2) = omega arith in
    scan-append 0 none none pre (head ∷ (old ++ (foot ∷ post))) p
    ∙ ap (λ i. scan i none none (head ∷ (old ++ (foot ∷ post)))) (omega arith)
    ∙ scan_head (length pre) none head (old ++ (foot ∷ post)) h
    ∙ scan-append (suc (length pre)) (some (length pre)) none old (foot ∷ post) o
    ∙ scan_foot (suc (length pre) + length old) (some (length pre)) foot post f
    ∙ ap (λ i. scan i (some (length pre)) (some i) post) e
