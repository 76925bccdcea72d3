-- ===== src/Exit.antt =====
-- A thread of a CTA that ends, and the end of the CTA and of its kernel:
-- `shader_core_ctx::register_cta_thread_exit` of gpgpu-sim/shader.cc. A pointer to a kernel is its
-- uid, and the kernel stands in its slot of `m_running_kernels`. Prints and the count of CTAs that
-- only the visualizer reads are left out.
pub mod Queues
mod Tests
use dae_proj.Base.{
  ℕ, ◌-◌, ◌==◌, Bool, true, false, not, ◌||◌, Option, none, some, List, [], ◌∷◌, set, get_elem?,
  ltb, if◌then◌else◌, Result, ok, fault, Fault, ◌>>=◌, ◌>>◌, check, access, add32, sub32,
}
use dae_proj.Barrier.{BarrierSet, deallocate_barrier}
use dae_proj.Config.{ShaderConfig, Kernel}
use dae_proj.Launch.{KernelInfo, threads_per_cta, num_blocks, dec_running, running}
use dae_proj.Launch.Kernels.{Gpu, kernel_more_cta_left, set_kernel_done}
use dae_proj.Resources.{Occupied, release_shader_resource_1block}
use dae_proj.Rfq.Table.{Table, erase_cta}

-- What the exit of a thread reads and writes: of the core the threads left of each CTA, the
-- number of its CTAs, its kernel, barriers, queues and resources; two counts; and the GPU.
pub record ExitState : Type 0 where
  pub cta_status : List ℕ
  pub n_active_cta : ℕ
  pub kernel : Option ℕ
  pub barriers : BarrierSet
  pub rfq_table : Table
  pub smemq_table : Table
  pub occupied : Occupied
  pub ctas_completed : ℕ
  pub gpu_completed_cta : ℕ
  pub gpu : Gpu

abbrev pub is_kernel : ℕ → Option KernelInfo → Bool
is_kernel uid none = false
is_kernel uid (some k) = k.uid == uid

unfoldable pub find_kernel : List (Option KernelInfo) → ℕ → Result KernelInfo
find_kernel [] uid = fault Fault.bad_access
find_kernel (none ∷ ss) uid = find_kernel ss uid
find_kernel (some k ∷ ss) uid = let rest = find_kernel ss uid in if k.uid == uid then ok k else rest

-- The kernel of that uid as it is now.
unfoldable pub update_kernel : List (Option KernelInfo) → KernelInfo → List (Option KernelInfo)
update_kernel [] k = []
update_kernel (s ∷ ss) k = (if is_kernel k.uid s then some k else s) ∷ update_kernel ss k

abbrev pub same_kernel : Option ℕ → ℕ → Bool
same_kernel none uid = false
same_kernel (some u) uid = u == uid

-- The assertion on an empty core: its kernel has ended or has no CTA left.
abbrev pub check_emptied : Gpu → Option ℕ → Result (Unit {0})
check_emptied g none = ok tt
check_emptied g (some u) = do
  k ← find_kernel g.running_kernels u
  check (not (kernel_more_cta_left g (some k)))

-- The code under `if (m_n_active_cta == 0)`.
unfoldable pub empty_core : ExitState → ℕ → Result ExitState
unfolding find_kernel
empty_core s uid = if not (s.n_active_cta == 0) then ok s else (do
  if same_kernel s.kernel uid then ok tt else check_emptied s.gpu s.kernel
  ok (record s { kernel = none }))

-- The kernel has ended when it has neither a CTA left nor a core that runs it.
unfoldable pub end_kernel : ExitState → KernelInfo → Result ExitState
end_kernel s k = if kernel_more_cta_left s.gpu (some k) || running k then ok s else (do
  g ← set_kernel_done s.gpu k
  ok (record s { kernel = if same_kernel s.kernel k.uid then none else s.kernel; gpu = g }))

-- The queues and resources of the CTA are gone, and the kernel is as given.
abbrev pub freed : ExitState → ℕ → Occupied → KernelInfo → ExitState
freed s cta_num occupied k = record s {
  rfq_table = erase_cta s.rfq_table cta_num;
  smemq_table = erase_cta s.smemq_table cta_num;
  occupied = occupied;
  gpu = record (s.gpu) { running_kernels = update_kernel s.gpu.running_kernels k };
}

-- `usage` is the shared memory and the registers of a kernel, and `inc_completed_cta` that method of
-- `gpgpu_sim`, on its count.
module _ (c : ShaderConfig) (usage : ℕ → ℕ × ℕ) (inc_completed_cta : ℕ → ℕ) where
  abbrev pub counted : ExitState → BarrierSet → ExitState
  counted s barriers = record s {
    ctas_completed = add32 s.ctas_completed 1;
    gpu_completed_cta = inc_completed_cta s.gpu_completed_cta;
    n_active_cta = sub32 s.n_active_cta 1;
    barriers = barriers;
  }

  -- `max_cta` has configured the cache, where it is adaptive, before a CTA of the kernel was issued.
  abbrev pub resources_of : KernelInfo → Kernel
  resources_of k = record {
    threads_per_cta = threads_per_cta k;
    num_blocks = num_blocks k;
    smem = (usage k.uid).0;
    regs = (usage k.uid).1;
    cache_config_set = c.adaptive_cache_config;
  }

  -- What a CTA frees, and its core's share of the kernel.
  unfoldable pub free_cta : ExitState → ℕ → ℕ → Result ExitState
  unfolding end_kernel update_kernel find_kernel
  free_cta s cta_num uid = do
    k ← find_kernel s.gpu.running_kernels uid
    occupied ← release_shader_resource_1block c (resources_of k) s.occupied cta_num
    k' ← dec_running k
    end_kernel (freed s cta_num occupied k') k'

  -- The code under `if (!m_cta_status[cta_num])`.
  unfoldable pub end_cta : ExitState → ℕ → ℕ → Result ExitState
  unfolding empty_core free_cta
  end_cta s cta_num uid = do
    barriers ← deallocate_barrier s.barriers cta_num
    emptied ← empty_core (counted s barriers) uid
    free_cta emptied cta_num uid

  -- With the threads that are left of the CTA.
  unfoldable pub exit_of : ExitState → ℕ → ℕ → ℕ → Result ExitState
  unfolding end_cta
  exit_of s cta_num uid left =
      let s' = record s { cta_status = set s.cta_status cta_num (left - 1) } in
      check (ltb 0 left) >> (if left == 1 then end_cta s' cta_num uid else ok s')

  unfoldable pub register_cta_thread_exit : ExitState → ℕ → ℕ → Result ExitState
  unfolding exit_of
  register_cta_thread_exit s cta_num uid =
      access (get_elem? s.cta_status cta_num) >>= exit_of s cta_num uid
