-- ===== src/Exec/Tests.antt =====
-- The queue instructions of cuda-sim/cuda-sim.cc at concrete inputs.
use dae_proj.Base.{ℕ, ◌+◌, ◌*◌, ◌<◌, ◌≡◌, refl, true, false, List, [], ◌∷◌, ok, arith}
use dae_proj.Exec.{
  Thread, Operand, global_space, ld_exec, mov_exec, written, wasp_rfq_effective_address,
  wasp_queue_id_from_operand, trailing_digits, all_digits, digits_value,
}
use dae_proj.Exec.Lanes.{IsOpen, Holds, loaded_words, mov_exec-ld_exec}
use dae_proj.Port.{Side, QueueState, QueueInst, token_from_inst}
use dae_proj.Rfq.{Rfq, Token, configure, head_ready, tail_token}
use dae_proj.Rfq.Inv.{IsValid, configured_rfq, configure-fresh-IsValid}
use dae_proj.Rfq.Ops.{after_reserve, after_reserve-IsValid}
use dae_proj.Rfq.Progress.{after_reserve-IsCurrent}
use dae_proj.Rfq.Keys.{same_key}
use dae_proj.Rfq.Table.{find}

-- The name q12.
queue_twelve : wasp_queue_id_from_operand (Operand.named (113 ∷ (49 ∷ (50 ∷ [])))) ≡ ok 12
unfolding wasp_queue_id_from_operand trailing_digits all_digits digits_value
queue_twelve = refl

abbrev two_slots : Rfq
two_slots = configured_rfq 2 3 2

abbrev load_inst : QueueInst
load_inst = record {
  warp_id = 0;
  active_mask = 3;
  accessq_count = 0;
  load = true;
  move = false;
  queue_id = 4;
  payload_words_per_lane = 3;
  token_valid = true;
  token_cta_hw_id = 0;
  token_original_warp_id = 0;
  token_slot_index = 0;
  token_sequence = 1;
}

abbrev move_inst : QueueInst
move_inst = record load_inst { load = false; move = true; token_sequence = 0 }

abbrev lane_token : Token
lane_token = tail_token two_slots (token_from_inst load_inst).key

abbrev one_entry : Rfq
one_entry = after_reserve two_slots 3 0

two_slots-IsValid : IsValid two_slots
unfolding configure
two_slots-IsValid = (configure-fresh-IsValid 2 3 2 two_slots (omega arith) refl).0

one_entry-IsOpen : IsOpen one_entry lane_token 3
unfolding head_ready
one_entry-IsOpen = record {
  valid = after_reserve-IsValid two_slots 3 0 two_slots-IsValid refl;
  fits = omega arith;
  current =
      after_reserve-IsCurrent two_slots (token_from_inst load_inst).key 3 0 two_slots-IsValid refl;
  at_head = refl;
  ready = refl;
  words = refl;
}

abbrev queue_side : Side
queue_side = record {
  enabled = true;
  model_data = true;
  queue_entries = 2;
  metadata_producer_warps_per_cta = 1;
  warp_size = 2;
  staged = true;
}

abbrev one_queue : QueueState
one_queue = record {
  table = ((token_from_inst load_inst).key, one_entry) ∷ [];
  stats = record {
    reservations = 1;
    memory_fills = 0;
    consumes = 0;
    full_stalls = 0;
    empty_stalls = 0;
    head_not_ready_stalls = 0;
    max_occupancy = 1;
    producer_issues = 0;
    consumer_issues = 0;
  };
}

-- Operand `n` holds the address 100 n, and memory holds one more than each address.
abbrev loading : Thread
loading = record {
  num_operands = 4;
  operand_value = λ n. 100 * n;
  space = global_space;
  which_space = λ a. global_space;
  generic_to_global = λ a. a;
  read_global = λ a. a + 1;
  destination_is_vector = true;
}

abbrev at_hundreds : ℕ → ℕ
at_hundreds w = 100 * (w + 1)

resolves_hundreds :
    (w : ℕ) → w < 3 → wasp_rfq_effective_address loading (w + 1) ≡ ok (at_hundreds w)
unfolding wasp_rfq_effective_address
resolves_hundreds w p = refl

one_queue-Holds :
    Holds queue_side loading load_inst 1 3 at_hundreds refl refl resolves_hundreds one_queue
unfolding find same_key
one_queue-Holds = record {
  queue = one_entry;
  found = refl;
  opened = one_entry-IsOpen;
  wide = omega arith;
}

mov_exec-ld_exec_example :
    (read : List ℕ) × (st' : QueueState) × (ld_exec queue_side loading load_inst 1 one_queue
      ≡ ok (read, st'))
    × (mov_exec queue_side loading move_inst 1 st'
        ≡ ok (written loading (loaded_words loading at_hundreds 3 0)))
mov_exec-ld_exec_example =
    mov_exec-ld_exec queue_side loading load_inst 1 3 at_hundreds refl refl resolves_hundreds
      one_queue move_inst loading one_queue-Holds refl refl refl (omega arith) (omega arith)
