-- ===== src/Config.antt =====
-- How many CTAs a core takes: `shader_core_config::max_cta`, the budgets of the queues that it
-- charges, and `shader_core_ctx::set_max_cta`, of gpgpu-sim/shader.cc. Only the fields that they
-- read are here. The sizes that the source keeps in `int` (`smem`, `regs`) are not negative, and
-- `warp_size`, `num_shader` and the padded size, by which the source divides, are not 0; with a
-- divisor of 0 the source has no behaviour and the model's quotient is 0. What `max_cta` writes to
-- the L1 data cache and to `cache_config_set` is not kept; the assertions on the way are.
pub mod Adaptive
pub mod Limits
pub mod Padding
mod Tests
use dae_proj.Base.{
  ℕ, ◌+◌, ◌*◌, ◌/◌, ◌%◌, min, Bool, true, false, Option, none, some, List, [], ◌∷◌, not, ◌&&◌, ◌||◌,
  ltb, leb, ◌==◌, if◌then◌else◌, Result, ok, fault, Fault, ◌>>=◌, ◌>>◌, check, access, non_null,
  u32_max, add32, mul32,
}

-- The configuration of the queues of one kind.
pub record QueueBudget : Type 0 where
  pub model_data : Bool
  pub entries : ℕ
  pub metadata_producer_warps_per_cta : ℕ
  pub metadata_payload_words_per_lane : ℕ
  pub metadata_queues_per_original_warp : ℕ

pub record ShaderConfig : Type 0 where
  pub warp_size : ℕ
  pub n_thread_per_shader : ℕ
  pub shmem_size : ℕ
  pub shader_registers : ℕ
  pub max_cta_per_core : ℕ
  pub num_shader : ℕ
  pub adaptive_cache_config : Bool
  pub shmem_opt_list : List ℕ
  pub m_unified_cache_size : ℕ
  pub ignore_resources_limitation : Bool
  pub concurrent_kernel_sm : Bool
  pub wasp_enable : Bool
  pub rfq_enable : Bool
  pub rfq_count_register_pressure : Bool
  pub rfq : QueueBudget
  pub smemq_enable : Bool
  pub smemq : QueueBudget

pub record Kernel : Type 0 where
  pub threads_per_cta : ℕ
  pub num_blocks : ℕ
  pub smem : ℕ
  pub regs : ℕ
  pub cache_config_set : Bool

-- The least multiple of `warp_size` that holds a CTA.
unfoldable pub padded_cta_size : ℕ → ℕ → ℕ
padded_cta_size threads_per_cta warp_size =
    if threads_per_cta % warp_size == 0
    then threads_per_cta
    else mul32 (add32 (threads_per_cta / warp_size) 1) warp_size

abbrev pub warps_of : ShaderConfig → Kernel → ℕ
warps_of c k = padded_cta_size k.threads_per_cta c.warp_size / c.warp_size

abbrev pub or_one : ℕ → ℕ
or_one n = if n == 0 then 1 else n

unfoldable pub producer_warps_per_cta : QueueBudget → ShaderConfig → Kernel → Result ℕ
producer_warps_per_cta b c k =
    if ltb 0 b.metadata_producer_warps_per_cta
    then (do
      check (ltb b.metadata_producer_warps_per_cta (warps_of c k))
      ok b.metadata_producer_warps_per_cta)
    else ok (or_one (warps_of c k / 2))

abbrev pub payload_words_per_lane : QueueBudget → ℕ
payload_words_per_lane b = or_one b.metadata_payload_words_per_lane

abbrev pub queues_per_original_warp : QueueBudget → ℕ
queues_per_original_warp b = or_one b.metadata_queues_per_original_warp

-- The words of all queues of a CTA that has `producers` producer warps.
abbrev pub queue_words : QueueBudget → ℕ → ℕ → ℕ
queue_words b warp_size producers =
    mul32
      (mul32 (mul32 (mul32 producers (queues_per_original_warp b)) b.entries)
        (payload_words_per_lane b))
      warp_size

unfoldable pub wasp_rfq_regs_per_cta : ShaderConfig → Kernel → Result ℕ
wasp_rfq_regs_per_cta c k =
    if not (c.wasp_enable && c.rfq_enable && c.rfq_count_register_pressure) then ok 0 else (do
      producers ← producer_warps_per_cta c.rfq c k
      ok (queue_words c.rfq c.warp_size producers))

-- `sizeof(float)` is 4.
unfoldable pub smemq_shared_bytes_per_cta : ShaderConfig → Kernel → Result ℕ
smemq_shared_bytes_per_cta c k = if not c.smemq_enable then ok 0 else (do
  producers ← producer_warps_per_cta c.smemq c k
  ok (mul32 (queue_words c.smemq c.warp_size producers) 4))

-- 128 bits of each queue.
abbrev metadata_bits : QueueBudget → ℕ → ℕ
metadata_bits b producers = mul32 (mul32 producers (queues_per_original_warp b)) 128

unfoldable pub wasp_rfq_metadata_bits_per_cta : ShaderConfig → Kernel → Result ℕ
wasp_rfq_metadata_bits_per_cta c k =
    if not (c.wasp_enable && c.rfq_enable)
    then ok 0
    else (do producers ← producer_warps_per_cta c.rfq c k; ok (metadata_bits c.rfq producers))

unfoldable pub smemq_metadata_bits_per_cta : ShaderConfig → Kernel → Result ℕ
smemq_metadata_bits_per_cta c k =
    if not c.smemq_enable
    then ok 0
    else (do producers ← producer_warps_per_cta c.smemq c k; ok (metadata_bits c.smemq producers))

-- `(regs + 3) & ~3`
abbrev pub round_up_4 : ℕ → ℕ
round_up_4 n = (n + 3) / 4 * 4

-- The registers of a CTA but for the queues.
abbrev pub normal_regs_per_cta : ShaderConfig → Kernel → ℕ
normal_regs_per_cta c k =
    if ltb 0 k.regs
    then mul32 (padded_cta_size k.threads_per_cta c.warp_size) (round_up_4 k.regs)
    else 0

-- How many shares of `each` fit into `amount`; no limit when a CTA needs nothing.
abbrev pub limit : ℕ → ℕ → ℕ
limit amount each = if ltb 0 each then amount / each else u32_max

abbrev pub total_smem_per_cta : Kernel → ℕ → ℕ
total_smem_per_cta k queue_bytes = add32 k.smem queue_bytes

abbrev pub total_regs_per_cta : ShaderConfig → Kernel → ℕ → ℕ
total_regs_per_cta c k queue_regs = add32 (normal_regs_per_cta c k) queue_regs

-- `result` before it is cut to what the grid needs.
unfoldable pub resident_ctas : ShaderConfig → Kernel → ℕ → ℕ → ℕ
resident_ctas c k queue_bytes queue_regs =
    min
      (min
        (min (c.n_thread_per_shader / padded_cta_size k.threads_per_cta c.warp_size)
          (limit c.shmem_size (total_smem_per_cta k queue_bytes)))
        (limit c.shader_registers (total_regs_per_cta c k queue_regs)))
      c.max_cta_per_core

-- The CTAs of each core when the grid is spread over all of them.
abbrev pub blocks_per_core : ShaderConfig → Kernel → ℕ
blocks_per_core c k =
    k.num_blocks / c.num_shader + (if k.num_blocks % c.num_shader == 0 then 0 else 1)

unfoldable pub cut_to_grid : ShaderConfig → Kernel → ℕ → ℕ
cut_to_grid c k result =
    if ltb k.num_blocks (mul32 result c.num_shader) then blocks_per_core c k else result

-- `MAX_CTA_PER_SHADER`
abbrev pub max_cta_per_shader : ℕ
max_cta_per_shader = 32

-- `shmem_opt_list.back()`
unfoldable pub back : List ℕ → Option ℕ
back [] = none
back (n ∷ []) = some n
back (n ∷ (next ∷ ns)) = back (next ∷ ns)

-- The loop over the options: the first that holds the shared memory of the CTAs.
unfoldable pub first_option : List ℕ → ℕ → Option ℕ
first_option [] total_shmem = none
first_option (n ∷ ns) total_shmem =
    let rest = first_option ns total_shmem in if leb total_shmem n then some n else rest

abbrev pub total_unified : ShaderConfig → ℕ
total_unified c = mul32 c.m_unified_cache_size 1024

-- The assertions of the adaptive cache configuration. The options and the size of the cache are
-- multiples of 1024 below 2 ^ 32, which a float holds exactly, so `l1_ratio` lies between 0 and 1
-- exactly when the option is at most the size; a size of 0 gives an infinity or no number.
unfoldable pub adapt_cache : ShaderConfig → Kernel → ℕ → Result (Unit {0})
unfolding back first_option
adapt_cache c k result =
    if not (c.adaptive_cache_config && not k.cache_config_set) then ok tt else (do
      most ← access (back c.shmem_opt_list)
      check (leb (mul32 k.smem result) most)
      chosen ← non_null (first_option c.shmem_opt_list (mul32 k.smem result))
      check (ltb 0 (total_unified c) && leb chosen (total_unified c)))

-- The last tests of `max_cta`.
unfoldable pub settle_ctas : ShaderConfig → Kernel → ℕ → Result ℕ
unfolding adapt_cache
settle_ctas c k result = do
  check (leb result max_cta_per_shader)
  if ltb result 1
      then (if c.ignore_resources_limitation then ok 1 else fault Fault.aborted)
      else adapt_cache c k result >> ok result

unfoldable pub max_cta : ShaderConfig → Kernel → Result ℕ
max_cta c k = if c.wasp_enable && c.rfq_enable && c.smemq_enable then fault Fault.aborted else (do
  queue_bytes ← smemq_shared_bytes_per_cta c k
  queue_regs ← wasp_rfq_regs_per_cta c k
  settle_ctas c k (cut_to_grid c k (resident_ctas c k queue_bytes queue_regs)))

-- What `set_max_cta` writes of the core and its statistics.
pub record CtaLimits : Type 0 where
  pub kernel_max_cta_per_shader : ℕ
  pub kernel_padded_threads_per_cta : ℕ
  pub rfq_register_slots_per_cta : ℕ
  pub rfq_metadata_bits_per_cta : ℕ
  pub rfq_adjusted_max_cta : ℕ
  pub smemq_shared_bytes_per_cta : ℕ
  pub smemq_metadata_bits_per_cta : ℕ
  pub smemq_adjusted_max_cta : ℕ

abbrev note_rfq : ShaderConfig → Kernel → CtaLimits → Result CtaLimits
note_rfq c k l = if not (c.wasp_enable && c.rfq_enable) then ok l else (do
  regs ← wasp_rfq_regs_per_cta c k
  bits ← wasp_rfq_metadata_bits_per_cta c k
  ok (record l {
    rfq_register_slots_per_cta = regs;
    rfq_metadata_bits_per_cta = bits;
    rfq_adjusted_max_cta = l.kernel_max_cta_per_shader;
  }))

abbrev note_smemq : ShaderConfig → Kernel → CtaLimits → Result CtaLimits
note_smemq c k l = if not c.smemq_enable then ok l else (do
  bytes ← smemq_shared_bytes_per_cta c k
  bits ← smemq_metadata_bits_per_cta c k
  ok (record l {
    smemq_shared_bytes_per_cta = bytes;
    smemq_metadata_bits_per_cta = bits;
    smemq_adjusted_max_cta = l.kernel_max_cta_per_shader;
  }))

unfoldable pub set_max_cta : ShaderConfig → Kernel → CtaLimits → Result CtaLimits
set_max_cta c k l = do
  most ← max_cta c k
  noted ← note_rfq c k (record l {
    kernel_max_cta_per_shader = most;
    kernel_padded_threads_per_cta = padded_cta_size k.threads_per_cta c.warp_size;
  })
  note_smemq c k noted
