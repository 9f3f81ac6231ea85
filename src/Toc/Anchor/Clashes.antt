-- ===== src/Toc/Anchor/Clashes.antt =====
-- The headings that `generateId` (toc.js) gives the same id.
use mathlib.Core.Path.{ap₂}
use sbt_example.Common.{
  ap, ==_iff, ℕ, ◌≡◌, ◌↔◌, ◌⊎◌, refl, sym, ◌∙◌, Str, Bool, true, ◌||◌, [], ◌∷◌, ◌==◌, if◌then◌else◌,
  Bool-cases, inl, inr,
}
use sbt_example.Toc.Anchor.{is_unwanted, generate_id}

-- A character that becomes an underscore, or is one.
abbrev pub is_blank : ℕ → Bool
is_blank c = is_unwanted c || c == b'_'

-- Texts of the same length that differ at blank characters only.
abbrev pub AreAlike : Str → Str → Type 0
AreAlike [] [] = Unit
AreAlike [] (d ∷ t) = ⊥
AreAlike (c ∷ s) [] = ⊥
AreAlike (c ∷ s) (d ∷ t) = ((c ≡ d) ⊎ ((is_blank c ≡ true) × (is_blank d ≡ true))) × AreAlike s t

replaced : ℕ → ℕ
replaced c = if is_unwanted c then b'_' else c

blank_iff : (c : ℕ) → is_blank c ≡ true ↔ replaced c ≡ b'_'
unfolding replaced
blank_iff c = elim (Bool-cases (is_unwanted c)) [
  | inl unwanted ↦ rw unwanted ((λ e. refl), (λ e. refl))
  | inr wanted ↦ rw wanted (==_iff c b'_')
]

wanted_or_blank : (c : ℕ) → (replaced c ≡ c) ⊎ (is_blank c ≡ true)
unfolding replaced
wanted_or_blank c = elim (Bool-cases (is_unwanted c)) [
  | inl unwanted ↦ inr (rw unwanted refl)
  | inr wanted ↦ inl (rw wanted refl)
]

replaced_iff :
    (c d : ℕ) → replaced c ≡ replaced d ↔ ((c ≡ d) ⊎ ((is_blank c ≡ true) × (is_blank d ≡ true)))
replaced_iff c d = (
  (λ e. elim (wanted_or_blank c) [
    | inr blank ↦ inr (blank, (blank_iff d).1 (sym e ∙ (blank_iff c).0 blank))
    | inl kept ↦ elim (wanted_or_blank d) [
      | inr blank ↦ inr ((blank_iff c).1 (e ∙ (blank_iff d).0 blank), blank)
      | inl kept' ↦ inl (sym kept ∙ (e ∙ kept'))
    ]
  ]),
  elim [
    | inl e ↦ ap replaced e
    | inr (blank, blank') ↦ (blank_iff c).0 blank ∙ sym ((blank_iff d).0 blank')
  ],
)

-- Two headings get the same id exactly if their texts have the same length and differ only where
-- both have an underscore or one of the characters that are replaced.
pub generate_id_iff : (s t : Str) → generate_id s ≡ generate_id t ↔ AreAlike s t
unfolding generate_id replaced
generate_id_iff [] [] = ((λ e. tt), (λ h. refl))
generate_id_iff [] (d ∷ t) = ((λ e. cc), (λ h. absurd h))
generate_id_iff (c ∷ s) [] = ((λ e. cc), (λ h. absurd h))
generate_id_iff (c ∷ s) (d ∷ t) = (
  (λ e.
      let here : replaced c ≡ replaced d = cc in
      let later : generate_id s ≡ generate_id t = cc in
      ((replaced_iff c d).0 here, (generate_id_iff s t).0 later)),
  (λ (h, hs). ap₂ (λ x xs. x ∷ xs) ((replaced_iff c d).1 h) ((generate_id_iff s t).1 hs)),
)
