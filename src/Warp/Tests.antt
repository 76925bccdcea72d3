-- ===== src/Warp/Tests.antt =====
-- The warps of gpgpu-sim/shader.h at concrete inputs. An instruction is its address here.
use dae_proj.Base.{
  ℕ, ◌≡◌, refl, true, false, Option, none, some, [], ◌∷◌, length, ◌==◌, ltb, ok, arith,
  if◌then◌else◌,
}
use dae_proj.Barrier.{count_of, remove_warp}
use dae_proj.Warp.{
  Warp, fresh_warp, set_completed, ibuffer_fill, count_valid, functional_done, ibuffer_flush,
  ibuffer_free, num_inst_in_buffer, num_issued_inst_in_pipeline, max_warp_size, LaneSet, launched,
}
use dae_proj.Warp.Decode.{decode, decode_at, OperandType, DecodeCounts}
use dae_proj.Warp.Buffer.{Buffered, Run, Step, Run-flush}
use dae_proj.Warp.Threads.{Counted, complete_all, complete_all-done}

abbrev idle_warp : Warp ℕ
idle_warp = fresh_warp 32

-- Lanes 0 to 2 have threads.
abbrev three_lanes : LaneSet
three_lanes = λ lane. ltb lane 3

abbrev running_warp : Warp ℕ
running_warp = launched idle_warp 64 1 3 three_lanes 7 0

abbrev code : ℕ → Option ℕ
code pc = if ltb pc 100 then some pc else none

abbrev zero_counts : DecodeCounts
zero_counts = record { decoded = 0; int_decoded = 0; fp_decoded = 0 }

abbrev decoded_warp : Warp ℕ
decoded_warp = record running_warp {
  ibuffer =
      record { inst = some 64; valid = true } ∷ (record { inst = some 72; valid = true } ∷ []);
  inst_in_pipeline = 2;
}

abbrev two_counted : DecodeCounts
two_counted = record { decoded = 2; int_decoded = 2; fp_decoded = 0 }

decode_two :
    decode
      (λ pc. 8)
      (λ pc. OperandType.int_op)
      code
      (record { valid = true; pc = 64 })
      running_warp
      zero_counts
    ≡ ok (record { valid = false; pc = 64 }, decoded_warp, two_counted)
unfolding decode decode_at ibuffer_fill
decode_two = refl

running_warp-Buffered : Buffered running_warp
unfolding count_valid
running_warp-Buffered = record {
  slots = refl;
  next_slot = ground arith;
  covered = ground arith;
  narrow = ground arith;
}

one_issued : Run (λ pc. 8) (λ pc. OperandType.int_op) running_warp (ibuffer_free decoded_warp)
one_issued =
    Run.then_step
      (Run.then_step Run.here (
        Step.decoded code (record { valid = true; pc = 64 }) (record { valid = false; pc = 64 })
          zero_counts two_counted (ground arith) decode_two))
      Step.freed

Run-flush_example :
    (w' : Warp ℕ) × (ibuffer_flush (ibuffer_free decoded_warp) ≡ ok w')
    × (num_inst_in_buffer w' ≡ 0)
    × (w'.inst_in_pipeline ≡ num_issued_inst_in_pipeline (ibuffer_free decoded_warp))
Run-flush_example = Run-flush (λ pc. 8) (λ pc. OperandType.int_op) running_warp-Buffered one_issued

running_warp-Counted : Counted running_warp
unfolding count_of
running_warp-Counted = record { narrow = ground arith; parts = refl }

abbrev two_exited : Warp ℕ
two_exited = record running_warp {
  n_completed = 31;
  active_threads = remove_warp (remove_warp three_lanes 0) 2;
}

exits_two : complete_all running_warp (0 ∷ (2 ∷ [])) ≡ ok two_exited
unfolding complete_all set_completed count_of
exits_two = refl

complete_all-done_example :
    functional_done two_exited
    ≡ (length {A = ℕ} (0 ∷ (2 ∷ [])) == count_of max_warp_size running_warp.active_threads)
complete_all-done_example =
    complete_all-done running_warp two_exited (0 ∷ (2 ∷ [])) running_warp-Counted exits_two
