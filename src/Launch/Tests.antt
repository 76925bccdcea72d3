-- ===== src/Launch/Tests.antt =====
-- The kernels of gpgpu-sim/gpu-sim.cc at concrete inputs.
use dae_proj.Base.{◌≡◌, refl, none, some, [], ◌∷◌, ok, arith, ◌==◌}
use dae_proj.Launch.{
  Dim3, origin, KernelInfo, num_blocks, get_next_cta_id_single, no_more_ctas_to_run,
}
use dae_proj.Launch.Kernels.{
  Gpu, select_kernel, select_from, executed, kernel_more_cta_left, hit_max_cta_count,
}
use dae_proj.Launch.Walk.{Countable, walk, walk-ctas}

abbrev two_by_three : Dim3
two_by_three = record { x = 2; y = 3; z = 1 }

abbrev small_kernel : KernelInfo
small_kernel = record {
  uid = 5;
  stream_id = 0;
  grid_dim = two_by_three;
  block_dim = record { x = 64; y = 1; z = 1 };
  next_cta = origin;
  next_tid = origin;
  num_cores_running = 0;
  tb_latency = 0;
  start_cycle = 0;
  end_cycle = 0;
}

two_by_three-Countable : Countable two_by_three
two_by_three-Countable = record {
  wide = ground arith;
  high = ground arith;
  deep = ground arith;
  x_narrow = ground arith;
  y_narrow = ground arith;
  z_narrow = ground arith;
  narrow = ground arith;
}

walk-ctas_example :
    (get_next_cta_id_single (walk 6 small_kernel) ≡ 6)
    × (no_more_ctas_to_run (walk 6 small_kernel) ≡ (6 == num_blocks small_kernel))
walk-ctas_example = walk-ctas 6 small_kernel two_by_three-Countable refl (ground arith)

abbrev one_kernel : Gpu
one_kernel = record {
  running_kernels = none ∷ (some small_kernel ∷ []);
  last_issued_kernel = 0;
  max_concurrent_kernel = 2;
  executed_kernel_uids = [];
  finished_kernels = [];
  kernel_times = [];
  last_uid = 0;
  last_stream_id = 0;
  gpu_max_cta_opt = 0;
  ctas_issued = 0;
  n_thread_per_shader = 2048;
  cycle = 100;
}

abbrev started_kernel : KernelInfo
started_kernel = record small_kernel { start_cycle = 100 }

abbrev one_started : Gpu
one_started = record one_kernel {
  running_kernels = none ∷ (some started_kernel ∷ []);
  last_issued_kernel = 1;
  executed_kernel_uids = 5 ∷ [];
}

kernel_selected : select_kernel one_kernel ≡ ok (one_started, some started_kernel)
unfolding select_kernel select_from executed kernel_more_cta_left hit_max_cta_count
    no_more_ctas_to_run
kernel_selected = refl
