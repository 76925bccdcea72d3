-- ===== src/Metadata/Read.antt =====
-- What the metadata that is read holds: the limits that are checked, and of every key the value
-- of the last line that assigns it.
use dae_proj.Base.{
  ℕ, Bool, true, false, ◌≡◌, ◌≤◌, ◌<◌, refl, ◌∙◌, ap, Option, none, some, List, [], ◌∷◌, ◌⊎◌, inl,
  inr, Result-cases, if◌then◌else◌, ok, fault, Fault, arith,
}
use dae_proj.Metadata.{
  Text, MetadataKey, Metadata, MetadataFile, default_metadata, same_text, wasp_metadata_trim,
  cut_comment, assigned, wasp_parse_metadata_value, read_line, read_lines, accept, read_metadata,
}

-- The field of a key.
abbrev pub value_of : MetadataKey → Metadata → ℕ
value_of MetadataKey.num_pipeline_stages m = m.num_pipeline_stages
value_of MetadataKey.producer_warps_per_cta m = m.producer_warps_per_cta
value_of MetadataKey.queues_per_original_warp m = m.queues_per_original_warp
value_of MetadataKey.payload_words_per_lane m = m.payload_words_per_lane
value_of MetadataKey.element_bits m = m.element_bits

abbrev pub or_else : Option ℕ → Option ℕ → Option ℕ
or_else none other = other
or_else (some n) other = some n

abbrev pub or_default : Option ℕ → ℕ → ℕ
or_default none n = n
or_default (some v) n = v

or_default-or_else :
    (last first : Option ℕ) (n : ℕ)
    → or_default last (or_default first n) ≡ or_default (or_else last first) n
or_default-or_else none first n = refl
or_default-or_else (some v) first n = refl

module _ (is_space : ℕ → Bool) (scan : Text → Option (Text × ℕ)) (name : MetadataKey → Text) where
  -- What a line assigns to a key.
  abbrev pub of_scanned : Option (Text × ℕ) → Text → Option ℕ
  of_scanned none key = none
  of_scanned (some (lhs, rhs)) key =
      if same_text (wasp_metadata_trim is_space lhs) key then some rhs else none

  abbrev pub value_in_line : Text → MetadataKey → Option ℕ
  value_in_line line k = of_scanned (scan (cut_comment line)) (name k)

  -- The value of the last line that assigns a key.
  abbrev pub last_value : List Text → MetadataKey → Option ℕ
  last_value [] k = none
  last_value (line ∷ lines) k = or_else (last_value lines k) (value_in_line line k)

  if-or_default :
      (b : Bool) (v n : ℕ) → (if b then v else n) ≡ or_default (if b then some v else none) n
  if-or_default true v n = refl
  if-or_default false v n = refl

  assigned-of_scanned :
      (found : Option (Text × ℕ)) (key : Text) (n : ℕ)
      → assigned is_space scan name found key n ≡ or_default (of_scanned found key) n
  assigned-of_scanned none key n = refl
  assigned-of_scanned (some (lhs, rhs)) key n =
      if-or_default (same_text (wasp_metadata_trim is_space lhs) key) rhs n

  value_of-read_line :
      (k : MetadataKey) (m : Metadata) (line : Text)
      → value_of k (read_line is_space scan name m line)
        ≡ or_default (value_in_line line k) (value_of k m)
  unfolding read_line wasp_parse_metadata_value
  value_of-read_line MetadataKey.num_pipeline_stages m line =
      assigned-of_scanned (scan (cut_comment line)) (name MetadataKey.num_pipeline_stages)
        m.num_pipeline_stages
  value_of-read_line MetadataKey.producer_warps_per_cta m line =
      assigned-of_scanned (scan (cut_comment line)) (name MetadataKey.producer_warps_per_cta)
        m.producer_warps_per_cta
  value_of-read_line MetadataKey.queues_per_original_warp m line =
      assigned-of_scanned (scan (cut_comment line)) (name MetadataKey.queues_per_original_warp)
        m.queues_per_original_warp
  value_of-read_line MetadataKey.payload_words_per_lane m line =
      assigned-of_scanned (scan (cut_comment line)) (name MetadataKey.payload_words_per_lane)
        m.payload_words_per_lane
  value_of-read_line MetadataKey.element_bits m line =
      assigned-of_scanned (scan (cut_comment line)) (name MetadataKey.element_bits) m.element_bits

  value_of-read_lines :
      (k : MetadataKey) (m : Metadata) (lines : List Text)
      → value_of k (read_lines is_space scan name m lines)
        ≡ or_default (last_value lines k) (value_of k m)
  unfolding read_lines
  value_of-read_lines k m [] = refl
  value_of-read_lines k m (line ∷ lines) =
      value_of-read_lines k (read_line is_space scan name m line) lines
      ∙ ap (or_default (last_value lines k)) (value_of-read_line k m line)
      ∙ or_default-or_else (last_value lines k) (value_in_line line k) (value_of k m)

  accept_lem :
      (max_stages : ℕ) (m result : Metadata)
      → accept is_space scan name max_stages m ≡ ok result
      → (result ≡ m)
        × (m.num_pipeline_stages ≤ max_stages)
        × (0 < m.queues_per_original_warp)
        × (0 < m.payload_words_per_lane)
  accept_lem max_stages m result h = ground (arith, h)

  accept_total :
      (max_stages : ℕ) (m : Metadata)
      → m.num_pipeline_stages ≤ max_stages
      → 0 < m.queues_per_original_warp
      → 0 < m.payload_words_per_lane
      → accept is_space scan name max_stages m ≡ ok m
  accept_total max_stages m stages queues words = ground arith

  -- The value a file asks for: that of its last line with the key, or else the default.
  abbrev pub asked : List Text → MetadataKey → ℕ
  asked lines k = or_default (last_value lines k) (value_of k default_metadata)

  -- What is asked for is within the limits that `init` checks.
  abbrev pub Acceptable : ℕ → List Text → Type 0
  Acceptable max_stages lines =
      (asked lines MetadataKey.num_pipeline_stages ≤ max_stages)
      × (0 < asked lines MetadataKey.queues_per_original_warp)
      × (0 < asked lines MetadataKey.payload_words_per_lane)

  accept-Acceptable :
      (max_stages : ℕ) (lines : List Text)
      → Acceptable max_stages lines
      → read_metadata is_space scan name max_stages (MetadataFile.lines_of lines)
        ≡ ok (read_lines is_space scan name default_metadata lines)
  unfolding read_metadata
  accept-Acceptable max_stages lines (stages, queues, words) =
      let m = read_lines is_space scan name default_metadata lines in
      let is = λ (k : MetadataKey). value_of-read_lines k default_metadata lines in
      accept_total max_stages m (omega (arith, is MetadataKey.num_pipeline_stages, stages))
        (omega (arith, is MetadataKey.queues_per_original_warp, queues))
        (omega (arith, is MetadataKey.payload_words_per_lane, words))

  read-Acceptable :
      (max_stages : ℕ) (lines : List Text) (result : Metadata)
      → read_metadata is_space scan name max_stages (MetadataFile.lines_of lines) ≡ ok result
      → Acceptable max_stages lines × ((k : MetadataKey) → value_of k result ≡ asked lines k)
  unfolding read_metadata
  read-Acceptable max_stages lines result h =
      let m = read_lines is_space scan name default_metadata lines in
      let (same, stages, queues, words) = accept_lem max_stages m result h in
      let is = λ (k : MetadataKey). value_of-read_lines k default_metadata lines in
      (
        (
          omega (arith, is MetadataKey.num_pipeline_stages, stages),
          omega (arith, is MetadataKey.queues_per_original_warp, queues),
          omega (arith, is MetadataKey.payload_words_per_lane, words),
        ),
        λ k. ap (value_of k) same ∙ is k,
      )

  -- A metadata file is accepted exactly when the values it asks for are within the limits: no
  -- more stages than the maximum, and at least one queue and one payload word. A key asks for
  -- the value of the last line that assigns it, or else for its default. What is accepted
  -- holds for each of the five keys the value that is asked for; in the other case reading
  -- stops.
  pub read_metadata_lem :
      (max_stages : ℕ) (lines : List Text)
      → (Acceptable max_stages lines
          × (result : Metadata) × (read_metadata is_space scan name max_stages
                (MetadataFile.lines_of lines)
              ≡ ok result)
          × ((k : MetadataKey) → value_of k result ≡ asked lines k))
        ⊎ ((¬ Acceptable max_stages lines)
            × (why : Fault) × (read_metadata is_space scan name max_stages
                  (MetadataFile.lines_of lines)
                ≡ fault why))
  read_metadata_lem max_stages lines =
      let outcome = read_metadata is_space scan name max_stages (MetadataFile.lines_of lines) in
      elim (Result-cases outcome) [
        | inl (result, h) ↦
            let (limits, values) = read-Acceptable max_stages lines result h in
            inl (limits, result, h, values)
        | inr (why, h) ↦
            inr (λ limits. ground (arith, h, accept-Acceptable max_stages lines limits), why, h)
      ]
