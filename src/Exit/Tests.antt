-- ===== src/Exit/Tests.antt =====
-- The exit of a thread at concrete inputs.
use dae_proj.Base.{ℕ, false, ◌≡◌, refl, none, some, [], ◌∷◌, ltb, Result, ok, ◌+◌}
use dae_proj.Barrier.{deallocate_barrier, find_cta, any_of, none_stuck}
use dae_proj.Core.Sample.{small_shader, value_or}
use dae_proj.Exit.{
  ExitState, register_cta_thread_exit, exit_of, end_cta, free_cta, end_kernel, empty_core,
  find_kernel, update_kernel,
}
use dae_proj.Exit.Queues.{QueuesLeft, register_cta_thread_exit-find}
use dae_proj.Launch.{KernelInfo, origin, dec_running, no_more_ctas_to_run}
use dae_proj.Launch.Kernels.{
  Gpu, KernelTime, kernel_more_cta_left, hit_max_cta_count, set_kernel_done, free_slot, end_time,
}
use dae_proj.Resources.{release_shader_resource_1block}
use dae_proj.Rfq.Inv.{configured_rfq}
use dae_proj.Rfq.Keys.{default_key}
use dae_proj.Rfq.Table.{Table}

-- The kernel has launched its last CTA, which runs on one core.
abbrev last_kernel : KernelInfo
last_kernel = record {
  uid = 5;
  stream_id = 0;
  grid_dim = record { x = 1; y = 1; z = 1 };
  block_dim = record { x = 64; y = 1; z = 1 };
  next_cta = record { x = 0; y = 0; z = 1 };
  next_tid = origin;
  num_cores_running = 1;
  tb_latency = 0;
  start_cycle = 0;
  end_cycle = 0;
}

abbrev five_started : KernelTime
five_started = record { stream_id = 0; uid = 5; start = 10; finish = 0 }

abbrev one_running : Gpu
one_running = record {
  running_kernels = none ∷ (some last_kernel ∷ []);
  last_issued_kernel = 1;
  max_concurrent_kernel = 2;
  executed_kernel_uids = 5 ∷ [];
  finished_kernels = [];
  kernel_times = five_started ∷ [];
  last_uid = 0;
  last_stream_id = 0;
  gpu_max_cta_opt = 0;
  ctas_issued = 1;
  n_thread_per_shader = 2048;
  cycle = 100;
}

-- A queue of CTA 0 and one of CTA 1.
abbrev two_queues : Table
two_queues =
    (default_key, configured_rfq 2 1 2)
    ∷ ((record default_key { cta_hw_id = 1 }, configured_rfq 2 1 2) ∷ [])

-- All warps of CTA 0 have exited, and one of its threads has yet to be registered.
abbrev one_thread_left : ExitState
one_thread_left = record {
  cta_status = 1 ∷ (2 ∷ []);
  n_active_cta = 1;
  kernel = some 5;
  barriers = record {
    max_cta_per_core = 4;
    max_barriers_per_cta = 2;
    warp_size = 32;
    cta_to_warps = (0, λ w. ltb w 2) ∷ [];
    bar_id_to_warps = λ i w. false;
    warp_active = λ w. false;
    warp_at_barrier = λ w. false;
  };
  rfq_table = two_queues;
  smemq_table = two_queues;
  occupied = record { n_threads = 0; shmem = 0; regs = 0; ctas = 0; hwtid = []; cta_to_hwtid = [] };
  ctas_completed = 0;
  gpu_completed_cta = 0;
  gpu = one_running;
}

abbrev no_usage : ℕ → ℕ × ℕ
no_usage uid = (0, 0)

abbrev one_more : ℕ → ℕ
one_more n = n + 1

abbrev outcome : Result ExitState
outcome = register_cta_thread_exit small_shader no_usage one_more one_thread_left 0 5

abbrev after_last : ExitState
after_last = value_or outcome one_thread_left

last_thread : outcome ≡ ok after_last
unfolding register_cta_thread_exit exit_of end_cta free_cta end_kernel empty_core find_kernel
    update_kernel deallocate_barrier find_cta any_of none_stuck dec_running no_more_ctas_to_run
    kernel_more_cta_left hit_max_cta_count set_kernel_done free_slot end_time
    release_shader_resource_1block
last_thread = refl

-- The kernel is done.
kernel_ends : after_last.gpu.finished_kernels ≡ 5 ∷ []
unfolding register_cta_thread_exit exit_of end_cta free_cta end_kernel empty_core find_kernel
    update_kernel deallocate_barrier find_cta any_of none_stuck dec_running no_more_ctas_to_run
    kernel_more_cta_left hit_max_cta_count set_kernel_done free_slot end_time
    release_shader_resource_1block
kernel_ends = refl

register_cta_thread_exit-find_example : QueuesLeft one_thread_left after_last 0 1
register_cta_thread_exit-find_example =
    register_cta_thread_exit-find small_shader no_usage one_more one_thread_left after_last 0 5 1
      refl last_thread
