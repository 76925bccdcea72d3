-- ===== src/Scheduler/Order.antt =====
-- The orders and classes of `scheduler_unit` in gpgpu-sim/shader.cc.
use dae_proj.Base.{
  ℕ, ◌≡◌, ◌-◌, ◌%◌, true, false, some, get_elem?, if◌then◌else◌, ok, ◌>>=◌, arith,
  lt-length_of_get_elem?,
}
use dae_proj.Config.{ShaderConfig}
use dae_proj.Port.{Layout, key_for_warp}
use dae_proj.Port.Pairing.{warps_in_cta, producers_in_cta, queue_key}
use dae_proj.Port.Sides.{rfq_side, wasp_rfq_enabled}
use dae_proj.Scheduler.{is_wasp_producer_warp}

-- On a core with the register-file queues on and the shared-memory queues off, the scheduler and
-- key_for_warp class a warp of the core alike: where is_wasp_producer_warp takes it for a producer,
-- its key has the place of the warp in its CTA, and where not, that place less the number of
-- producers; and where one of the two fails, the other fails in the same way.
pub is_wasp_producer_warp-side :
    (c : ShaderConfig) (layout : Layout) (warp_id queue_id cta : ℕ)
    → c.smemq_enable ≡ false
    → wasp_rfq_enabled c ≡ true
    → get_elem? layout.warp_ctas warp_id ≡ some cta
    → key_for_warp (rfq_side c) layout warp_id queue_id ≡ (
        is_wasp_producer_warp c layout.padded_threads_per_cta warp_id >>= λ producer. ok (
          queue_key cta
            (warp_id % warps_in_cta (rfq_side c) layout
              - (if producer then 0 else producers_in_cta (rfq_side c) layout))
            queue_id))
unfolding is_wasp_producer_warp key_for_warp
is_wasp_producer_warp-side c layout warp_id queue_id cta off on there =
    ground (arith, lt-length_of_get_elem? layout.warp_ctas warp_id cta there)
