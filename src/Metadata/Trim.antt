-- ===== src/Metadata/Trim.antt =====
-- What `wasp_metadata_trim` leaves of a text.
use dae_proj.Base.{ℕ, Bool, true, false, ◌≡◌, refl, ap, ◌∙◌, [], ◌∷◌, ◌++◌, Bool-cases, inl, inr}
use dae_proj.Metadata.{Text, skip_spaces, push_unless_blank, cut_spaces, wasp_metadata_trim}

module _ (is_space : ℕ → Bool) where
  abbrev pub AllSpaces : Text → Type 0
  AllSpaces [] = Unit
  AllSpaces (c ∷ s) = (is_space c ≡ true) × AllSpaces s

  abbrev pub StartsPlain : Text → Type 0
  StartsPlain [] = Unit
  StartsPlain (c ∷ s) = is_space c ≡ false

  abbrev pub EndsPlain : Text → Type 0
  EndsPlain [] = Unit
  EndsPlain (c ∷ []) = is_space c ≡ false
  EndsPlain (c ∷ (d ∷ s)) = EndsPlain (d ∷ s)

  skip_spaces_lem :
      (s : Text)
      → (before : Text) × AllSpaces before
        × (s ≡ before ++ skip_spaces is_space s)
        × StartsPlain (skip_spaces is_space s)
  unfolding skip_spaces
  skip_spaces_lem [] = ([], tt, refl, tt)
  skip_spaces_lem (c ∷ s) = elim (Bool-cases (is_space c)) [
    | inl blank ↦
        let (before, blanks, parts, plain) = skip_spaces_lem s in
        rw blank (c ∷ before, (blank, blanks), ap (λ (t : Text). c ∷ t) parts, plain)
    | inr plain ↦ rw plain ([], tt, refl, plain)
  ]

  -- What `cut_spaces` keeps and cuts, after one more character.
  push_unless_blank_lem :
      (c : ℕ) (kept after : Text)
      → AllSpaces after
      → EndsPlain kept
      → (rest : Text) × AllSpaces rest
        × (c ∷ (kept ++ after) ≡ push_unless_blank is_space c kept ++ rest)
        × EndsPlain (push_unless_blank is_space c kept)
  push_unless_blank_lem c (d ∷ kept) after blanks plain = (after, blanks, refl, plain)
  push_unless_blank_lem c [] after blanks plain = elim (Bool-cases (is_space c)) [
    | inl blank ↦ rw blank (c ∷ after, (blank, blanks), refl, tt)
    | inr dark ↦ rw dark (after, blanks, refl, dark)
  ]

  cut_spaces_lem :
      (s : Text)
      → (after : Text) × AllSpaces after
        × (s ≡ cut_spaces is_space s ++ after)
        × EndsPlain (cut_spaces is_space s)
  unfolding cut_spaces
  cut_spaces_lem [] = ([], tt, refl, tt)
  cut_spaces_lem (c ∷ s) =
      let (after, blanks, parts, plain) = cut_spaces_lem s in
      let (rest, more, whole, ends) =
        push_unless_blank_lem c (cut_spaces is_space s) after blanks plain in
      (rest, more, ap (λ (t : Text). c ∷ t) parts ∙ whole, ends)

  push_unless_blank-StartsPlain :
      (c : ℕ) (s : Text) → is_space c ≡ false → StartsPlain (push_unless_blank is_space c s)
  push_unless_blank-StartsPlain c [] plain = rw plain plain
  push_unless_blank-StartsPlain c (d ∷ s) plain = plain

  cut_spaces-StartsPlain : (s : Text) → StartsPlain s → StartsPlain (cut_spaces is_space s)
  unfolding cut_spaces
  cut_spaces-StartsPlain [] plain = tt
  cut_spaces-StartsPlain (c ∷ s) plain =
      push_unless_blank-StartsPlain c (cut_spaces is_space s) plain

  -- Only spaces are cut, and the text that is left neither starts nor ends with one.
  pub wasp_metadata_trim_lem :
      (s : Text)
      → (before after : Text) × AllSpaces before
        × AllSpaces after
        × (s ≡ before ++ (wasp_metadata_trim is_space s ++ after))
        × StartsPlain (wasp_metadata_trim is_space s)
        × EndsPlain (wasp_metadata_trim is_space s)
  unfolding wasp_metadata_trim
  wasp_metadata_trim_lem s =
      let (before, blanks, parts, plain) = skip_spaces_lem s in
      let (after, more, whole, ends) = cut_spaces_lem (skip_spaces is_space s) in
      (
        before,
        after,
        blanks,
        more,
        parts ∙ ap (λ (t : Text). before ++ t) whole,
        cut_spaces-StartsPlain (skip_spaces is_space s) plain,
        ends,
      )
