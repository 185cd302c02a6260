-- ===== src/Build/Hooks/Update.antt =====
-- The new lines of a hook in `Autogen` of magefile.go, with the append that writes into the lines
-- that it still has to read.
use proxyreverse.Prelude.{
  ℕ, suc, ◌+◌, ◌-◌, ◌≤◌, ◌<◌, ◌≡◌, ◌⊎◌, inl, inr, ◌∙◌, ap, true, false, List, [], ◌∷◌, ◌++◌, Text,
  arith, length, length-append, take, drop, refl, leb,
}
use mathlib.Core.List.{append_assoc}
use proxyreverse.Build.Hooks.{replace_section, append_to}

take-append : (xs ys : List Text) → take (length xs) (xs ++ ys) ≡ xs
take-append [] ys = refl
take-append (x ∷ xs) ys = ap (λ l. x ∷ l) (take-append xs ys)

drop-append : (n : ℕ) (xs ys : List Text) → drop (length xs + n) (xs ++ ys) ≡ drop n ys
drop-append n [] ys = ap (λ i. drop i ys) (omega arith)
drop-append n (x ∷ xs) ys =
    let e : suc (length xs) + n ≡ suc (length xs + n) = omega arith in
    ap (λ i. drop i (x ∷ (xs ++ ys))) e ∙ drop-append n xs ys

drop-length-append : (xs ys : List Text) → drop (length xs) (xs ++ ys) ≡ ys
drop-length-append [] ys = refl
drop-length-append (x ∷ xs) ys = drop-length-append xs ys

-- What is written over the first lines is dropped with them.
drop-over :
    (script sec post : List Text)
    → length script ≤ length sec
    → drop (length sec) (script ++ drop (length script) (sec ++ post)) ≡ post
drop-over [] sec post h = drop-length-append sec post
drop-over (s ∷ script) [] post h = absurd (omega arith)
drop-over (s ∷ script) (l ∷ sec) post h = drop-over script sec post (omega arith)

drop-prefix :
    (script sec rest : List Text)
    → length sec ≤ length script
    → drop (length sec) (script ++ rest) ≡ drop (length sec) script ++ rest
drop-prefix script [] rest h = refl
drop-prefix [] (l ∷ sec) rest h = absurd (omega arith)
drop-prefix (s ∷ script) (l ∷ sec) rest h = drop-prefix script sec rest (omega arith)

drop-past :
    (script sec post : List Text)
    → length sec ≤ length script
    → drop (length script) (sec ++ post) ≡ drop (length script - length sec) post
drop-past script [] post h = ap (λ i. drop i post) (omega arith)
drop-past [] (l ∷ sec) post h = absurd (omega arith)
drop-past (s ∷ script) (l ∷ sec) post h =
    drop-past script sec post (omega arith) ∙ ap (λ i. drop i post) (omega arith)

module _ (pre sec post script : List Text) where
  abbrev pub section_lines : List Text
  section_lines = pre ++ (sec ++ post)

  -- No room: the lines are read as they were.
  replace_grown :
      length (sec ++ post) < length script
      → replace_section section_lines (length pre) (length pre + length sec) script
        ≡ pre ++ (script ++ post)
  unfolding replace_section append_to
  replace_grown h =
      let full : leb (length pre + length script) (length section_lines) ≡ false =
        ground (arith, length-append pre (sec ++ post)) in
      rw full (
        rw
          (
            take-append pre (sec ++ post),
            drop-append (length sec) pre (sec ++ post),
            drop-length-append sec post,
          )
          (append_assoc pre script post))

  -- Room: what the script has written over is read after it.
  replace_in_place :
      length script ≤ length (sec ++ post)
      → replace_section section_lines (length pre) (length pre + length sec) script
        ≡ pre ++ (script ++ drop (length sec) (script ++ drop (length script) (sec ++ post)))
  unfolding replace_section append_to
  replace_in_place h =
      let room : leb (length pre + length script) (length section_lines) ≡ true =
        ground (arith, length-append pre (sec ++ post)) in
      rw room (
        rw
          (
            take-append pre (sec ++ post),
            drop-append (length script) pre (sec ++ post),
            drop-append (length sec) pre (script ++ drop (length script) (sec ++ post)),
          )
          (append_assoc pre script _))

  -- A script that is no longer than the section, or too long for all the lines from there on, takes
  -- the place of the section, and all other lines stay.
  pub replace_fits :
      (length script ≤ length sec) ⊎ (length (sec ++ post) < length script)
      → replace_section section_lines (length pre) (length pre + length sec) script
        ≡ pre ++ (script ++ post)
  replace_fits (inl short) =
      replace_in_place (omega (arith, length-append sec post))
      ∙ ap (λ l. pre ++ (script ++ l)) (drop-over script sec post short)
  replace_fits (inr long) = replace_grown long

  -- A script that is longer than the section, but not too long for the lines from there on, takes as
  -- many lines after the section with it, and its own last lines stand in their place.
  pub replace_overruns :
      length sec ≤ length script
      → length script ≤ length (sec ++ post)
      → replace_section section_lines (length pre) (length pre + length sec) script
        ≡ pre ++ (script ++ (drop (length sec) script ++ drop (length script - length sec) post))
  replace_overruns longer room =
      replace_in_place room
      ∙ ap (λ l. pre ++ (script ++ l))
          (drop-prefix script sec (drop (length script) (sec ++ post)) longer
            ∙ ap (λ l. drop (length sec) script ++ l) (drop-past script sec post longer))
