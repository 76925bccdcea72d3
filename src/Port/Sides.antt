-- ===== src/Port/Sides.antt =====
-- What each mechanism reads of the configuration in gpgpu-sim/shader.cc: `wasp_rfq_enabled` and
-- `smemq_enabled`, and the fields behind them. The budgets of `max_cta` are for as many producer
-- warps as get keys.
use dae_proj.Base.{ℕ, Bool, true, false, ◌&&◌, List}
use dae_proj.Config.{ShaderConfig, CtaLimits}
use dae_proj.Port.{Side, Layout}

abbrev pub wasp_rfq_enabled : ShaderConfig → Bool
wasp_rfq_enabled c = c.wasp_enable && c.rfq_enable

abbrev pub rfq_side : ShaderConfig → Side
rfq_side c = record {
  enabled = wasp_rfq_enabled c;
  model_data = c.rfq.model_data;
  queue_entries = c.rfq.entries;
  metadata_producer_warps_per_cta = c.rfq.metadata_producer_warps_per_cta;
  warp_size = c.warp_size;
  staged = true;
}

abbrev pub smemq_side : ShaderConfig → Side
smemq_side c = record {
  enabled = c.smemq_enable;
  model_data = c.smemq.model_data;
  queue_entries = c.smemq.entries;
  metadata_producer_warps_per_cta = c.smemq.metadata_producer_warps_per_cta;
  warp_size = c.warp_size;
  staged = false;
}

-- The layout of a core on which `set_max_cta` ran.
abbrev pub layout_of : CtaLimits → List ℕ → Layout
layout_of l ctas = record {
  padded_threads_per_cta = l.kernel_padded_threads_per_cta;
  warp_ctas = ctas;
}
