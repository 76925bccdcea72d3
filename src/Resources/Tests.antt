-- ===== src/Resources/Tests.antt =====
-- The resources of a core of gpgpu-sim/gpu-sim.cc at concrete inputs.
use dae_proj.Base.{
  ℕ, ◌+◌, ◌≤◌, ◌<◌, ◌≡◌, refl, Bool, true, false, List, [], ◌∷◌, Option, none, ok, arith, replicate,
  ◌++◌, ◌*◌,
}
use dae_proj.Config.{
  ShaderConfig, QueueBudget, Kernel, padded_cta_size, smemq_shared_bytes_per_cta,
  wasp_rfq_regs_per_cta, resident_ctas, cut_to_grid, settle_ctas, max_cta,
}
use dae_proj.Resources.{
  Occupied, range_free, find_from, find_available_hwtid, padded_size, occupy_shader_resource_1block,
  can_issue_1block, lookup, claim_block, release_shader_resource_1block,
}
use dae_proj.Resources.Marks.{Free}
use dae_proj.Resources.Threads.{Searched, Marked, find_available_hwtid_lem}
use dae_proj.Resources.Claim.{Within, Fits32}
use dae_proj.Resources.Issue.{occupy-Within, can_issue_1block-claim_block}

abbrev no_budget : QueueBudget
no_budget = record {
  model_data = false;
  entries = 0;
  metadata_producer_warps_per_cta = 0;
  metadata_payload_words_per_lane = 0;
  metadata_queues_per_original_warp = 0;
}

-- A core of eight threads in warps of four, shared by kernels.
abbrev shared_core : ShaderConfig
shared_core = record {
  warp_size = 4;
  n_thread_per_shader = 8;
  shmem_size = 100;
  shader_registers = 512;
  max_cta_per_core = 4;
  num_shader = 1;
  adaptive_cache_config = false;
  shmem_opt_list = [];
  m_unified_cache_size = 0;
  ignore_resources_limitation = false;
  concurrent_kernel_sm = true;
  wasp_enable = false;
  rfq_enable = false;
  rfq_count_register_pressure = false;
  rfq = no_budget;
  smemq_enable = false;
  smemq = no_budget;
}

abbrev three_threads : Kernel
three_threads = record {
  threads_per_cta = 3;
  num_blocks = 9;
  smem = 20;
  regs = 5;
  cache_config_set = false;
}

-- One CTA has the first four threads.
abbrev one_resident : Occupied
one_resident = record {
  n_threads = 4;
  shmem = 20;
  regs = 32;
  ctas = 1;
  hwtid = replicate 4 true ++ replicate 4 false;
  cta_to_hwtid = (0, 0) ∷ [];
}

no_bytes : smemq_shared_bytes_per_cta shared_core three_threads ≡ ok 0
unfolding smemq_shared_bytes_per_cta
no_bytes = refl

no_regs : wasp_rfq_regs_per_cta shared_core three_threads ≡ ok 0
unfolding wasp_rfq_regs_per_cta
no_regs = refl

resident-Within : Within shared_core one_resident
resident-Within = record {
  n_threads = omega arith;
  shmem = omega arith;
  regs = omega arith;
  ctas = omega arith;
}

sums-fit : Fits32 shared_core three_threads one_resident 0 0
unfolding padded_cta_size
sums-fit = record {
  n_threads = omega arith;
  smem = omega arith;
  shmem = omega arith;
  regs = omega arith;
  ctas = omega arith;
}

abbrev two_resident : Occupied
two_resident = record one_resident { n_threads = 8; shmem = 40; regs = 64; ctas = 2 }

occupied_two :
    occupy_shader_resource_1block shared_core three_threads one_resident true
    ≡ ok (true, two_resident)
unfolding occupy_shader_resource_1block find_available_hwtid find_from range_free padded_cta_size
    smemq_shared_bytes_per_cta wasp_rfq_regs_per_cta
occupied_two = refl

can_issue_two : can_issue_1block shared_core three_threads one_resident 1 ≡ ok true
unfolding can_issue_1block occupy_shader_resource_1block find_available_hwtid find_from range_free
    padded_cta_size smemq_shared_bytes_per_cta wasp_rfq_regs_per_cta max_cta resident_ctas
    cut_to_grid settle_ctas
can_issue_two = refl

one-absent : lookup one_resident.cta_to_hwtid 1 ≡ none
unfolding lookup
one-absent = refl

each_range-covered : (j : ℕ) → j * 4 < 8 → j * 4 + 4 ≤ 8
each_range-covered j h = omega arith

find_available_hwtid_lem_example :
    (found : Option ℕ) × (after : List Bool) × (find_available_hwtid shared_core one_resident.hwtid
        4 true
      ≡ ok (found, after))
    × (find_available_hwtid shared_core one_resident.hwtid 4 false ≡ ok (found, one_resident.hwtid))
    × Searched one_resident.hwtid 8 4 0 found
    × Marked one_resident.hwtid 4 found after
find_available_hwtid_lem_example =
    find_available_hwtid_lem shared_core one_resident.hwtid 4 (omega arith) each_range-covered
      (omega arith)

occupy-Within_example : Within shared_core two_resident
occupy-Within_example =
    occupy-Within shared_core three_threads one_resident 0 0 no_bytes no_regs true two_resident
      resident-Within occupied_two

can_issue_1block-claim_block_example :
    (start : ℕ) × (o' : Occupied) × (claim_block shared_core three_threads one_resident 1
      ≡ ok (start, o'))
    × (start < 8)
    × Free one_resident.hwtid start (padded_size shared_core three_threads)
    × (release_shader_resource_1block shared_core three_threads o' 1 ≡ ok one_resident)
can_issue_1block-claim_block_example =
    can_issue_1block-claim_block shared_core three_threads one_resident 0 0 no_bytes no_regs 1 1
      refl sums-fit one-absent can_issue_two
