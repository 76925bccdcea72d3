-- ===== src/Smemq/Tests.antt =====
-- The shared-memory queue of gpgpu-sim/shader.cc at concrete inputs.
use dae_proj.Base.{◌≡◌, refl, true, false, [], ◌∷◌, some, ok, arith}
use dae_proj.Rfq.{Rfq, configure}
use dae_proj.Rfq.Inv.{configured_rfq}
use dae_proj.Rfq.Table.{find, put, get_or_create}
use dae_proj.Config.{
  ShaderConfig, QueueBudget, Kernel, CtaLimits, padded_cta_size, producer_warps_per_cta,
  smemq_shared_bytes_per_cta, smemq_metadata_bits_per_cta, wasp_rfq_regs_per_cta, resident_ctas,
  cut_to_grid, settle_ctas, max_cta, set_max_cta,
}
use dae_proj.Port.{
  Layout, Counters, QueueState, QueueInst, key_for_warp, queue_of, verdict, can_issue,
  prepare_issue,
}
use dae_proj.Port.Pairing.{queue_key}
use dae_proj.Port.Sides.{rfq_side, smemq_side, layout_of}
use dae_proj.Port.Issue.{IsOn, Fitting, Went}
use dae_proj.Smemq.{smemq_key_for_warp, smemq_can_issue}
use dae_proj.Smemq.Issue.{smemq_can_issue-issue}

abbrev two_entries : QueueBudget
two_entries = record {
  model_data = true;
  entries = 2;
  metadata_producer_warps_per_cta = 1;
  metadata_payload_words_per_lane = 1;
  metadata_queues_per_original_warp = 1;
}

abbrev smem_core : ShaderConfig
smem_core = record {
  warp_size = 4;
  n_thread_per_shader = 64;
  shmem_size = 200;
  shader_registers = 512;
  max_cta_per_core = 6;
  num_shader = 2;
  adaptive_cache_config = false;
  shmem_opt_list = [];
  m_unified_cache_size = 0;
  ignore_resources_limitation = false;
  concurrent_kernel_sm = true;
  wasp_enable = true;
  rfq_enable = false;
  rfq_count_register_pressure = true;
  rfq = two_entries;
  smemq_enable = true;
  smemq = two_entries;
}

abbrev seven_threads : Kernel
seven_threads = record {
  threads_per_cta = 7;
  num_blocks = 100;
  smem = 20;
  regs = 5;
  cache_config_set = false;
}

abbrev no_limits : CtaLimits
no_limits = record {
  kernel_max_cta_per_shader = 0;
  kernel_padded_threads_per_cta = 0;
  rfq_register_slots_per_cta = 0;
  rfq_metadata_bits_per_cta = 0;
  rfq_adjusted_max_cta = 0;
  smemq_shared_bytes_per_cta = 0;
  smemq_metadata_bits_per_cta = 0;
  smemq_adjusted_max_cta = 0;
}

abbrev new_limits : CtaLimits
new_limits = record no_limits {
  kernel_max_cta_per_shader = 3;
  kernel_padded_threads_per_cta = 8;
  smemq_shared_bytes_per_cta = 32;
  smemq_metadata_bits_per_cta = 128;
  smemq_adjusted_max_cta = 3;
}

limits_set : set_max_cta smem_core seven_threads no_limits ≡ ok new_limits
unfolding set_max_cta max_cta smemq_shared_bytes_per_cta smemq_metadata_bits_per_cta
    wasp_rfq_regs_per_cta producer_warps_per_cta padded_cta_size resident_ctas cut_to_grid
    settle_ctas
limits_set = refl

abbrev two_warps : Layout
two_warps = layout_of new_limits (0 ∷ 0 ∷ [])

abbrev no_counts : Counters
no_counts = record {
  reservations = 0;
  memory_fills = 0;
  consumes = 0;
  full_stalls = 0;
  empty_stalls = 0;
  head_not_ready_stalls = 0;
  max_occupancy = 0;
  producer_issues = 0;
  consumer_issues = 0;
}

abbrev no_queues : QueueState
no_queues = record { table = []; stats = no_counts }

abbrev plain_inst : QueueInst
plain_inst = record {
  warp_id = 0;
  active_mask = 15;
  accessq_count = 0;
  load = false;
  move = false;
  queue_id = 0;
  payload_words_per_lane = 1;
  token_valid = false;
  token_cta_hw_id = 0;
  token_original_warp_id = 0;
  token_slot_index = 0;
  token_sequence = 0;
}

abbrev load_inst : QueueInst
load_inst = record plain_inst { load = true }

smem-IsOn : IsOn (smemq_side smem_core)
smem-IsOn = record { enabled = refl; deep = omega arith; narrow = omega arith; wide = omega arith }

smem-Fitting : Fitting (smemq_side smem_core) load_inst []
unfolding find
smem-Fitting k q h = ground arith

load_key : smemq_key_for_warp smem_core two_warps 0 0 ≡ ok (queue_key 0 0 0)
unfolding key_for_warp
load_key = refl

abbrev looked_up : QueueState
looked_up = record { table = (queue_key 0 0 0, configured_rfq 2 1 4) ∷ []; stats = no_counts }

load_guard :
    smemq_can_issue smem_core two_warps no_queues 0 (some load_inst) true ≡ ok (true, looked_up)
unfolding can_issue queue_of verdict get_or_create find put configure key_for_warp
load_guard = refl

smemq_can_issue-issue_example :
    (prepare_issue (rfq_side smem_core) two_warps no_queues (some plain_inst)
      ≡ ok (some plain_inst, no_queues))
    × (q : Rfq) × Went (smemq_side smem_core) two_warps looked_up load_inst 1 (queue_key 0 0 0) q
smemq_can_issue-issue_example =
    smemq_can_issue-issue smem_core seven_threads no_limits new_limits two_warps no_queues no_queues
      looked_up plain_inst load_inst true (queue_key 0 0 0) 1 limits_set smem-IsOn refl load_key
      smem-Fitting load_guard
