-- ===== src/Port/Tests.antt =====
-- The queue methods of shader.cc at concrete inputs.
use dae_proj.Base.{ℕ, ◌%◌, ◌≡◌, refl, true, false, [], ◌∷◌, some, get_elem?, ok, arith}
use dae_proj.Rfq.{Rfq, configure}
use dae_proj.Rfq.Table.{find, put, get_or_create}
use dae_proj.Rfq.Inv.{configured_rfq}
use dae_proj.Config.{ShaderConfig, QueueBudget, Kernel, CtaLimits, smemq_shared_bytes_per_cta}
use dae_proj.Port.{
  Side, Layout, Counters, QueueState, QueueInst, key_for_warp, queue_of, verdict, can_issue,
}
use dae_proj.Port.Pairing.{queue_key, warps_in_cta, key_for_warp_pairs, key_for_warp_apart}
use dae_proj.Port.Issue.{IsOn, Fitting, Went, can_issue-issue_queue}

-- Warps of two threads, two to a CTA, the first of which is the producer.
abbrev small_side : Side
small_side = record {
  enabled = true;
  model_data = true;
  queue_entries = 2;
  metadata_producer_warps_per_cta = 1;
  warp_size = 2;
  staged = true;
}

abbrev small_queue : ℕ
small_queue = 5

abbrev small_layout : Layout
small_layout = record { padded_threads_per_cta = 4; warp_ctas = 0 ∷ 0 ∷ 1 ∷ 1 ∷ [] }

key_for_warp_pairs_example :
    (key_for_warp small_side small_layout 2 5 ≡ ok (queue_key 1 0 5))
    × (key_for_warp small_side small_layout 3 5 ≡ ok (queue_key 1 0 5))
key_for_warp_pairs_example =
    key_for_warp_pairs small_side small_layout 1 0 5 1 (omega arith) (omega arith) (omega arith)
      refl refl

producer_key : key_for_warp small_side small_layout 2 5 ≡ ok (queue_key 1 0 5)
unfolding key_for_warp
producer_key = refl

key_for_warp_apart_example :
    (2 % warps_in_cta small_side small_layout ≡ 2 % warps_in_cta small_side small_layout)
    × (get_elem? small_layout.warp_ctas 2 ≡ get_elem? small_layout.warp_ctas 2)
    × (small_queue ≡ small_queue)
key_for_warp_apart_example =
    key_for_warp_apart small_side small_layout 2 2 5 5 (queue_key 1 0 5) (omega arith) (omega arith)
      producer_key producer_key

abbrev no_counts : Counters
no_counts = record {
  reservations = 0;
  memory_fills = 0;
  consumes = 0;
  full_stalls = 0;
  empty_stalls = 0;
  head_not_ready_stalls = 0;
  max_occupancy = 0;
  producer_issues = 0;
  consumer_issues = 0;
}

abbrev no_queues : QueueState
no_queues = record { table = []; stats = no_counts }

abbrev load_inst : QueueInst
load_inst = record {
  warp_id = 2;
  active_mask = 3;
  accessq_count = 0;
  load = true;
  move = false;
  queue_id = 5;
  payload_words_per_lane = 1;
  token_valid = false;
  token_cta_hw_id = 0;
  token_original_warp_id = 0;
  token_slot_index = 0;
  token_sequence = 0;
}

small-IsOn : IsOn small_side
small-IsOn = record { enabled = refl; deep = omega arith; narrow = omega arith; wide = omega arith }

no_queues-Fitting : Fitting small_side load_inst []
unfolding find
no_queues-Fitting k q h = ground arith

abbrev looked_up : QueueState
looked_up = record { table = (queue_key 1 0 5, configured_rfq 2 1 2) ∷ []; stats = no_counts }

load_can_issue :
    can_issue small_side small_layout no_queues 2 (some load_inst) true ≡ ok (true, looked_up)
unfolding can_issue queue_of verdict get_or_create find put configure key_for_warp
load_can_issue = refl

can_issue-issue_queue_example :
    (q : Rfq) × Went small_side small_layout looked_up load_inst 1 (queue_key 1 0 5) q
can_issue-issue_queue_example =
    can_issue-issue_queue small_side small_layout no_queues looked_up load_inst true
      (queue_key 1 0 5) 1 small-IsOn refl producer_key no_queues-Fitting load_can_issue

abbrev two_entries : QueueBudget
two_entries = record {
  model_data = true;
  entries = 2;
  metadata_producer_warps_per_cta = 1;
  metadata_payload_words_per_lane = 1;
  metadata_queues_per_original_warp = 1;
}

abbrev rfq_core : ShaderConfig
rfq_core = record {
  warp_size = 4;
  n_thread_per_shader = 64;
  shmem_size = 200;
  shader_registers = 512;
  max_cta_per_core = 6;
  num_shader = 2;
  adaptive_cache_config = false;
  shmem_opt_list = [];
  m_unified_cache_size = 0;
  ignore_resources_limitation = false;
  concurrent_kernel_sm = true;
  wasp_enable = true;
  rfq_enable = true;
  rfq_count_register_pressure = true;
  rfq = two_entries;
  smemq_enable = false;
  smemq = two_entries;
}

abbrev seven_threads : Kernel
seven_threads = record {
  threads_per_cta = 7;
  num_blocks = 100;
  smem = 20;
  regs = 5;
  cache_config_set = false;
}

abbrev no_limits : CtaLimits
no_limits = record {
  kernel_max_cta_per_shader = 0;
  kernel_padded_threads_per_cta = 0;
  rfq_register_slots_per_cta = 0;
  rfq_metadata_bits_per_cta = 0;
  rfq_adjusted_max_cta = 0;
  smemq_shared_bytes_per_cta = 0;
  smemq_metadata_bits_per_cta = 0;
  smemq_adjusted_max_cta = 0;
}

abbrev new_limits : CtaLimits
new_limits = record no_limits {
  kernel_max_cta_per_shader = 6;
  kernel_padded_threads_per_cta = 8;
  rfq_register_slots_per_cta = 8;
  rfq_metadata_bits_per_cta = 128;
  rfq_adjusted_max_cta = 6;
}
