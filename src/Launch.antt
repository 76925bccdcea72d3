-- ===== src/Launch.antt =====
-- The walk of a kernel over its grid and of a CTA over its threads: `kernel_info_t` of
-- abstract_hardware_model.h and `increment_x_then_y_then_z` of gpgpu-sim/gpu-sim.cc.
pub mod Walk
pub mod Kernels
pub mod Select
mod Tests
use dae_proj.Base.{
  ℕ, zero, suc, ◌+◌, ◌-◌, ◌*◌, ◌%◌, ◌^◌, Bool, true, false, not, ◌&&◌, ◌||◌, Option, none, some,
  List, [], ◌∷◌, ◌++◌, length, get_elem?, set, ltb, leb, ◌==◌, if◌then◌else◌, Result, ok, fault,
  Fault, ◌>>=◌, ◌>>◌, check, access, add32, mul32,
}

pub record Dim3 : Type 0 where
  pub x : ℕ
  pub y : ℕ
  pub z : ℕ

abbrev pub origin : Dim3
origin = record { x = 0; y = 0; z = 0 }

unfoldable pub increment_x_then_y_then_z : Dim3 → Dim3 → Dim3
increment_x_then_y_then_z i bound =
    if ltb (add32 i.x 1) bound.x
    then record i { x = add32 i.x 1 }
    else if ltb (add32 i.y 1) bound.y
    then record { x = 0; y = add32 i.y 1; z = i.z }
    else record { x = 0; y = 0; z = if ltb i.z bound.z then add32 i.z 1 else i.z }

pub record KernelInfo : Type 0 where
  pub uid : ℕ
  pub stream_id : ℕ
  pub grid_dim : Dim3
  pub block_dim : Dim3
  pub next_cta : Dim3
  pub next_tid : Dim3
  pub num_cores_running : ℕ
  pub tb_latency : ℕ
  pub start_cycle : ℕ
  pub end_cycle : ℕ

abbrev pub volume : Dim3 → ℕ
volume d = mul32 (mul32 d.x d.y) d.z

-- The place of `i` in a box of the size `bound`.
abbrev pub linear : Dim3 → Dim3 → ℕ
linear bound i = add32 (add32 i.x (mul32 bound.x i.y)) (mul32 (mul32 bound.x bound.y) i.z)

abbrev pub num_blocks : KernelInfo → ℕ
num_blocks k = volume k.grid_dim

abbrev pub threads_per_cta : KernelInfo → ℕ
threads_per_cta k = volume k.block_dim

unfoldable pub increment_cta_id : KernelInfo → KernelInfo
increment_cta_id k = record k {
  next_cta = increment_x_then_y_then_z k.next_cta k.grid_dim;
  next_tid = origin;
}

abbrev pub get_next_cta_id_single : KernelInfo → ℕ
get_next_cta_id_single k = linear k.grid_dim k.next_cta

unfoldable pub no_more_ctas_to_run : KernelInfo → Bool
no_more_ctas_to_run k =
    leb k.grid_dim.x k.next_cta.x || leb k.grid_dim.y k.next_cta.y || leb k.grid_dim.z k.next_cta.z

unfoldable pub increment_thread_id : KernelInfo → KernelInfo
increment_thread_id k = record k { next_tid = increment_x_then_y_then_z k.next_tid k.block_dim }

abbrev pub get_next_thread_id : KernelInfo → ℕ
get_next_thread_id k = linear k.block_dim k.next_tid

unfoldable pub more_threads_in_cta : KernelInfo → Bool
more_threads_in_cta k =
    ltb k.next_tid.z k.block_dim.z
    && ltb k.next_tid.y k.block_dim.y
    && ltb k.next_tid.x k.block_dim.x

abbrev pub inc_running : KernelInfo → KernelInfo
inc_running k = record k { num_cores_running = add32 k.num_cores_running 1 }

unfoldable pub dec_running : KernelInfo → Result KernelInfo
dec_running k = do
  check (ltb 0 k.num_cores_running)
  ok (record k { num_cores_running = k.num_cores_running - 1 })

abbrev pub running : KernelInfo → Bool
running k = ltb 0 k.num_cores_running

unfoldable pub done : KernelInfo → Bool
done k = no_more_ctas_to_run k && not (running k)
