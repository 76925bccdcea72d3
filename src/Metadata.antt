-- ===== src/Metadata.antt =====
-- The metadata of the queues that `shader_core_config::init` of gpgpu-sim/shader.h reads from a
-- file. A line is the list of the codes of its characters. `isspace` and what `sscanf` finds in a
-- line (the name before the `=` and the number behind it) are arguments.
pub mod Trim
pub mod Read
mod Tests
use dae_proj.Base.{
  ℕ, Bool, true, false, not, ◌&&◌, Option, none, some, List, [], ◌∷◌, ltb, ◌==◌, if◌then◌else◌,
  Result, ok, fault, Fault, ◌>>=◌, ◌>>◌, check,
}

abbrev pub Text : Type 0
Text = List ℕ

unfoldable pub same_text : Text → Text → Bool
same_text [] [] = true
same_text (a ∷ s) (b ∷ t) = (a == b) && same_text s t
same_text _ _ = false

unfoldable pub skip_spaces : (ℕ → Bool) → Text → Text
skip_spaces is_space [] = []
skip_spaces is_space (c ∷ s) = if is_space c then skip_spaces is_space s else c ∷ s

abbrev pub push_unless_blank : (ℕ → Bool) → ℕ → Text → Text
push_unless_blank is_space c [] = if is_space c then [] else c ∷ []
push_unless_blank is_space c (d ∷ s) = c ∷ (d ∷ s)

-- The loop that cuts spaces off the end.
unfoldable pub cut_spaces : (ℕ → Bool) → Text → Text
cut_spaces is_space [] = []
cut_spaces is_space (c ∷ s) = push_unless_blank is_space c (cut_spaces is_space s)

unfoldable pub wasp_metadata_trim : (ℕ → Bool) → Text → Text
unfolding skip_spaces cut_spaces
wasp_metadata_trim is_space s = cut_spaces is_space (skip_spaces is_space s)

-- The five keys of a metadata file.
pub data MetadataKey : Type 0 where
  num_pipeline_stages producer_warps_per_cta queues_per_original_warp : MetadataKey
  payload_words_per_lane element_bits : MetadataKey

pub record Metadata : Type 0 where
  pub num_pipeline_stages : ℕ
  pub producer_warps_per_cta : ℕ
  pub queues_per_original_warp : ℕ
  pub payload_words_per_lane : ℕ
  pub element_bits : ℕ

abbrev pub default_metadata : Metadata
default_metadata = record {
  num_pipeline_stages = 2;
  producer_warps_per_cta = 0;
  queues_per_original_warp = 1;
  payload_words_per_lane = 3;
  element_bits = 96;
}

-- Up to the first `#`, whose code is 35.
unfoldable pub cut_comment : Text → Text
cut_comment [] = []
cut_comment (c ∷ s) = if c == 35 then [] else c ∷ cut_comment s

-- The file: not named, named but not to be opened, or its lines.
pub data MetadataFile : Type 0 where
  not_named unreadable : MetadataFile
  lines_of : List Text → MetadataFile

module _ (is_space : ℕ → Bool) (scan : Text → Option (Text × ℕ)) (name : MetadataKey → Text) where
  abbrev pub assigned : Option (Text × ℕ) → Text → ℕ → ℕ
  assigned none key value = value
  assigned (some (lhs, rhs)) key value =
      if same_text (wasp_metadata_trim is_space lhs) key then rhs else value

  -- The value that `*value` has after the call.
  unfoldable pub wasp_parse_metadata_value : Text → Text → ℕ → ℕ
  unfolding same_text
  wasp_parse_metadata_value line key value = assigned (scan line) key value

  unfoldable pub read_line : Metadata → Text → Metadata
  unfolding wasp_parse_metadata_value
  read_line m line =
      let put =
        λ (k : MetadataKey) (v : ℕ). wasp_parse_metadata_value (cut_comment line) (name k) v in
      record {
        num_pipeline_stages = put MetadataKey.num_pipeline_stages m.num_pipeline_stages;
        producer_warps_per_cta = put MetadataKey.producer_warps_per_cta m.producer_warps_per_cta;
        queues_per_original_warp =
            put MetadataKey.queues_per_original_warp m.queues_per_original_warp;
        payload_words_per_lane = put MetadataKey.payload_words_per_lane m.payload_words_per_lane;
        element_bits = put MetadataKey.element_bits m.element_bits;
      }

  unfoldable pub read_lines : Metadata → List Text → Metadata
  unfolding read_line
  read_lines m [] = m
  read_lines m (line ∷ lines) = read_lines (read_line m line) lines

  abbrev pub read_file : MetadataFile → Result Metadata
  read_file not_named = ok default_metadata
  read_file unreadable = fault Fault.aborted
  read_file (lines_of lines) = ok (read_lines default_metadata lines)

  abbrev pub accept : ℕ → Metadata → Result Metadata
  accept max_stages m =
      if ltb max_stages m.num_pipeline_stages
      then fault Fault.aborted
      else check (ltb 0 m.queues_per_original_warp)
        >> (check (ltb 0 m.payload_words_per_lane) >> ok m)

  -- The part of `init` for one of the two mechanisms.
  unfoldable pub read_metadata : ℕ → MetadataFile → Result Metadata
  unfolding read_lines
  read_metadata max_stages file = read_file file >>= accept max_stages
