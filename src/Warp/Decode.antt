-- ===== src/Warp/Decode.antt =====
-- `shader_core_ctx::decode` in gpgpu-sim/shader.cc: how fetched instructions enter the buffer of
-- their warp. Where the instruction at an address comes from (`get_next_inst`) is an argument.
use dae_proj.Base.{
  ℕ, ◌+◌, Option, none, some, Bool, true, false, not, if◌then◌else◌, Result, ok, ◌>>=◌, inc64,
}
use dae_proj.Warp.{Warp, ibuffer_fill, inc_inst_in_pipeline}

-- `ifetch_buffer_t`, of which the decoder reads these fields.
pub record FetchBuffer : Type 0 where
  pub valid : Bool
  pub pc : ℕ

pub data OperandType : Type 0 where
  un_op int_op fp_op : OperandType

abbrev is_int : OperandType → Bool
is_int fp_op = false
is_int _ = true

abbrev is_fp : OperandType → Bool
is_fp fp_op = true
is_fp _ = false

-- `m_num_decoded_insn`, `m_num_INTdecoded_insn` and `m_num_FPdecoded_insn` of one core.
pub record DecodeCounts : Type 0 where
  pub decoded : ℕ
  pub int_decoded : ℕ
  pub fp_decoded : ℕ

-- What is counted for one instruction, told the two types that the tests read.
abbrev pub count_decoded : OperandType → OperandType → DecodeCounts → DecodeCounts
count_decoded first second c = record {
  decoded = inc64 c.decoded;
  int_decoded = if is_int first then inc64 c.int_decoded else c.int_decoded;
  fp_decoded =
      if is_int first
      then c.fp_decoded
      else if is_fp second
      then inc64 c.fp_decoded
      else c.fp_decoded;
}

module _ {ℓ} {I : Type ℓ} (isize : I → ℕ) (oprnd_type : I → OperandType)
    (get_next_inst : ℕ → Option I) where
  abbrev fill_second : Warp I → DecodeCounts → I → Option I → Result (Warp I × DecodeCounts)
  fill_second w c first none = ok (w, c)
  fill_second w c first (some second) = do
    w' ← ibuffer_fill w 1 (some second)
    ok (inc_inst_in_pipeline w', count_decoded (oprnd_type first) (oprnd_type second) c)

  abbrev fill_first : Warp I → DecodeCounts → ℕ → Option I → Result (Warp I × DecodeCounts)
  fill_first w c pc none = ok (w, c)
  fill_first w c pc (some first) =
      fill_second w (count_decoded (oprnd_type first) (oprnd_type first) c) first
        (get_next_inst (pc + isize first))

  -- What becomes of the warp, whose next instruction is at the address `pc`.
  unfoldable pub decode_at : Warp I → DecodeCounts → ℕ → Result (Warp I × DecodeCounts)
  decode_at w c pc = do
    w' ← ibuffer_fill w 0 (get_next_inst pc)
    fill_first (inc_inst_in_pipeline w') c pc (get_next_inst pc)

  -- The warp is that of the fetch buffer.
  unfoldable pub decode :
      FetchBuffer → Warp I → DecodeCounts → Result (FetchBuffer × Warp I × DecodeCounts)
  unfolding decode_at
  decode b w c =
      if not b.valid
      then ok (b, w, c)
      else (decode_at w c b.pc >>= λ r. ok (record b { valid = false }, r.0, r.1))
