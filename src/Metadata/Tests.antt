-- ===== src/Metadata/Tests.antt =====
-- The metadata of gpgpu-sim/shader.h at concrete inputs. A line of the test is an assignment that
-- `sscanf` would find in it: the value, then the characters of the name.
use dae_proj.Base.{
  ℕ, Bool, ◌==◌, ◌≡◌, refl, Option, none, some, List, [], ◌∷◌, ok, fault, Fault, ◌⊎◌,
}
use dae_proj.Metadata.{
  Text, MetadataKey, Metadata, MetadataFile, wasp_metadata_trim, read_metadata, skip_spaces,
  cut_spaces, cut_comment, same_text, read_line, read_lines, wasp_parse_metadata_value,
}
use dae_proj.Metadata.Read.{value_of, asked, Acceptable, read_metadata_lem}

abbrev is_blank : ℕ → Bool
is_blank c = c == 32

abbrev scan_value_first : Text → Option (Text × ℕ)
scan_value_first [] = none
scan_value_first (value ∷ name) = some (name, value)

abbrev short_name : MetadataKey → Text
short_name MetadataKey.num_pipeline_stages = 1 ∷ []
short_name MetadataKey.producer_warps_per_cta = 2 ∷ []
short_name MetadataKey.queues_per_original_warp = 3 ∷ []
short_name MetadataKey.payload_words_per_lane = 4 ∷ []
short_name MetadataKey.element_bits = 5 ∷ []

trim_both_ends :
    wasp_metadata_trim is_blank (32 ∷ (7 ∷ (32 ∷ (8 ∷ (32 ∷ (32 ∷ [])))))) ≡ 7 ∷ (32 ∷ (8 ∷ []))
unfolding wasp_metadata_trim skip_spaces cut_spaces
trim_both_ends = refl

-- Four queues, twice assigned, a stage count with spaces around its name, and a comment.
abbrev some_lines : List Text
some_lines =
    (2 ∷ (3 ∷ [])) ∷ ((4 ∷ (3 ∷ [])) ∷ ((3 ∷ (32 ∷ (1 ∷ (32 ∷ [])))) ∷ ((35 ∷ (9 ∷ [])) ∷ [])))

abbrev read_result : Metadata
read_result = record {
  num_pipeline_stages = 3;
  producer_warps_per_cta = 0;
  queues_per_original_warp = 4;
  payload_words_per_lane = 3;
  element_bits = 96;
}

read_some_lines :
    read_metadata is_blank scan_value_first short_name 8 (MetadataFile.lines_of some_lines)
    ≡ ok read_result
unfolding read_metadata read_lines read_line wasp_parse_metadata_value cut_comment same_text
    wasp_metadata_trim skip_spaces cut_spaces
read_some_lines = refl

too_many_stages :
    read_metadata is_blank scan_value_first short_name 2 (MetadataFile.lines_of some_lines)
    ≡ fault Fault.aborted
unfolding read_metadata read_lines read_line wasp_parse_metadata_value cut_comment same_text
    wasp_metadata_trim skip_spaces cut_spaces
too_many_stages = refl

-- With at most eight stages, and the name of each key one character.
read_metadata_lem_example :
    (Acceptable is_blank scan_value_first short_name 8 some_lines
      × (result : Metadata) × (read_metadata is_blank scan_value_first short_name 8
            (MetadataFile.lines_of some_lines)
          ≡ ok result)
      × ((k : MetadataKey)
          → value_of k result ≡ asked is_blank scan_value_first short_name some_lines k))
    ⊎ ((¬ Acceptable is_blank scan_value_first short_name 8 some_lines)
        × (why : Fault) × (read_metadata is_blank scan_value_first short_name 8
              (MetadataFile.lines_of some_lines)
            ≡ fault why))
read_metadata_lem_example = read_metadata_lem is_blank scan_value_first short_name 8 some_lines
