-- ===== src/Config/Tests.antt =====
-- The limits of gpgpu-sim/shader.cc at concrete inputs.
use dae_proj.Base.{◌+◌, ◌*◌, ◌≤◌, ◌<◌, ◌≡◌, ◌⊎◌, refl, true, false, [], ◌∷◌, ok, arith}
use dae_proj.Config.{
  ShaderConfig, QueueBudget, Kernel, padded_cta_size, producer_warps_per_cta,
  smemq_shared_bytes_per_cta, wasp_rfq_regs_per_cta, resident_ctas, cut_to_grid, settle_ctas,
  max_cta, total_smem_per_cta, total_regs_per_cta, max_cta_per_shader,
}
use dae_proj.Config.Limits.{max_cta-fits, max_cta-greatest}

abbrev pub small_budget : QueueBudget
small_budget = record {
  model_data = true;
  entries = 2;
  metadata_producer_warps_per_cta = 1;
  metadata_payload_words_per_lane = 1;
  metadata_queues_per_original_warp = 1;
}

-- Warps of four threads; a CTA of seven threads is padded to eight.
abbrev pub small_core : ShaderConfig
small_core = record {
  warp_size = 4;
  n_thread_per_shader = 64;
  shmem_size = 100;
  shader_registers = 512;
  max_cta_per_core = 6;
  num_shader = 2;
  adaptive_cache_config = true;
  shmem_opt_list = 0 ∷ (1024 ∷ []);
  m_unified_cache_size = 2;
  ignore_resources_limitation = false;
  concurrent_kernel_sm = true;
  wasp_enable = true;
  rfq_enable = true;
  rfq_count_register_pressure = true;
  rfq = small_budget;
  smemq_enable = false;
  smemq = small_budget;
}

abbrev pub small_kernel : Kernel
small_kernel = record {
  threads_per_cta = 7;
  num_blocks = 100;
  smem = 20;
  regs = 5;
  cache_config_set = false;
}

no_bytes : smemq_shared_bytes_per_cta small_core small_kernel ≡ ok 0
unfolding smemq_shared_bytes_per_cta
no_bytes = refl

eight_regs : wasp_rfq_regs_per_cta small_core small_kernel ≡ ok 8
unfolding wasp_rfq_regs_per_cta producer_warps_per_cta padded_cta_size
eight_regs = refl

padded_to_eight : 0 < padded_cta_size 7 4
unfolding padded_cta_size
padded_to_eight = omega arith

five_fit : max_cta small_core small_kernel ≡ ok 5
unfolding max_cta smemq_shared_bytes_per_cta wasp_rfq_regs_per_cta producer_warps_per_cta
    padded_cta_size resident_ctas cut_to_grid settle_ctas
five_fit = refl

max_cta-fits_example :
    (1 ≤ 5)
    × (5 ≤ max_cta_per_shader)
    × (5 * padded_cta_size 7 4 ≤ 64)
    × (5 * total_smem_per_cta small_kernel 0 ≤ 100)
    × (5 * total_regs_per_cta small_core small_kernel 8 ≤ 512)
    × (5 ≤ 6)
max_cta-fits_example =
    max_cta-fits small_core small_kernel 0 8 (omega arith) padded_to_eight no_bytes eight_regs 5
      refl five_fit

max_cta-greatest_example :
    (64 < (5 + 1) * padded_cta_size 7 4)
    ⊎ (100 < (5 + 1) * total_smem_per_cta small_kernel 0)
    ⊎ (512 < (5 + 1) * total_regs_per_cta small_core small_kernel 8)
    ⊎ (5 ≡ small_core.max_cta_per_core)
max_cta-greatest_example =
    max_cta-greatest small_core small_kernel 0 8 (omega arith) padded_to_eight no_bytes eight_regs 5
      refl five_fit (omega arith)
