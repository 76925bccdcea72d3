-- ===== src/Core/Sample.antt =====
-- A small core of gpgpu-sim/shader.cc for tests: a CTA of a producer and a consumer warp, each with
-- one instruction in its buffer, and nothing outside.
use dae_proj.Base.{ℕ, true, false, none, some, [], ◌∷◌, Result, ok, fault, u32_max}
use dae_proj.Barrier.{BarrierSet, BarrierType, no_warps}
use dae_proj.Config.{ShaderConfig, QueueBudget}
use dae_proj.Core.{Core, CoreConfig, Inst, Outside, RegisterSet}
use dae_proj.Port.{QueueState, QueueInst, Counters}
use dae_proj.Scheduler.{Op, IssueUnit}
use dae_proj.Warp.{Warp, fresh_warp, launched}

abbrev small_queues : QueueBudget
small_queues = record {
  model_data = false;
  entries = 4;
  metadata_producer_warps_per_cta = 1;
  metadata_payload_words_per_lane = 1;
  metadata_queues_per_original_warp = 1;
}

abbrev pub small_shader : ShaderConfig
small_shader = record {
  warp_size = 32;
  n_thread_per_shader = 64;
  shmem_size = 1024;
  shader_registers = 1024;
  max_cta_per_core = 1;
  num_shader = 1;
  adaptive_cache_config = false;
  shmem_opt_list = [];
  m_unified_cache_size = 0;
  ignore_resources_limitation = false;
  concurrent_kernel_sm = false;
  wasp_enable = true;
  rfq_enable = true;
  rfq_count_register_pressure = true;
  rfq = small_queues;
  smemq_enable = false;
  smemq = small_queues;
}

abbrev pub small_config : CoreConfig
small_config = record {
  shader = small_shader;
  sub_core_model = false;
  flush_l1 = false;
  padded_threads_per_cta = 64;
  m_id = 0;
}

abbrev no_queue : QueueInst
no_queue = record {
  warp_id = 0;
  active_mask = 0;
  accessq_count = 0;
  load = false;
  move = false;
  queue_id = 0;
  payload_words_per_lane = 1;
  token_valid = false;
  token_cta_hw_id = 0;
  token_original_warp_id = 0;
  token_slot_index = 0;
  token_sequence = 0;
}

abbrev pub plain_inst : Op → ℕ → Inst
plain_inst op pc = record {
  pc = pc;
  addr = none;
  isize = 8;
  valid = true;
  op = op;
  m_is_cdp = 0;
  rfq = no_queue;
  smemq = no_queue;
  bar = record { bar_type = BarrierType.sync; bar_id = 0; bar_count = u32_max };
  m_is_ldgsts = false;
  no_threads = false;
  m_is_ldgdepbar = false;
  m_is_depbar = false;
  m_depbar_group_no = 0;
}

abbrev ready_warp : ℕ → Op → Warp Inst
ready_warp wid op = record (launched (fresh_warp 32) 64 0 wid (λ lane. true) wid 0) {
  n_completed = 0;
  ibuffer =
      record { inst = some (plain_inst op 64); valid = true }
      ∷ (record { inst = none; valid = false } ∷ []);
  inst_in_pipeline = 1;
}

abbrev no_counters : Counters
no_counters = record {
  reservations = 0;
  memory_fills = 0;
  consumes = 0;
  full_stalls = 0;
  empty_stalls = 0;
  head_not_ready_stalls = 0;
  max_occupancy = 0;
  producer_issues = 0;
  consumer_issues = 0;
}

abbrev empty_table : QueueState
empty_table = record { table = []; stats = no_counters }

abbrev one_free : IssueUnit → RegisterSet
one_free u = none ∷ []

abbrev free_barriers : BarrierSet
free_barriers = record {
  max_cta_per_core = 1;
  max_barriers_per_cta = 16;
  warp_size = 32;
  cta_to_warps = [];
  bar_id_to_warps = λ i. no_warps;
  warp_active = no_warps;
  warp_at_barrier = no_warps;
}

-- Warp 0 is about to load, warp 1 to compute.
abbrev pub small_core : Core (Unit {0})
small_core = record {
  warps = ready_warp 0 Op.load_op ∷ (ready_warp 1 Op.other_op ∷ []);
  barriers = free_barriers;
  rfq = empty_table;
  smemq = empty_table;
  registers = one_free;
  distro = λ k. 0;
  outside = tt;
}

-- Every instruction stands at 64, and nothing holds it back.
abbrev pub nothing_outside : Outside (Unit {0})
nothing_outside = record {
  stack_pc = λ e w. 64;
  check_collision = λ e w i. false;
  pending_writes = λ e w. false;
  get_active_mask = λ e w i. 1;
  mask_count = λ m. 32;
  func_exec = λ e q s i. record { outside = tt; rfq = q; smemq = s; accesses = 0 };
  invalidate_l1 = λ e. tt;
  broadcast_reduction = λ e w i. tt;
  update_simt_stack = λ e i. tt;
  reserve_registers = λ e i. tt;
  event_warp_issued = λ e w n. tt;
  cdp_latency = λ k. 0;
}

-- What a run that succeeds returns.
abbrev pub value_or {ℓ} : {A : Type ℓ} → Result A → A → A
value_or (ok a) d = a
value_or (fault why) d = d
