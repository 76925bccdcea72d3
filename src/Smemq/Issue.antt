-- ===== src/Smemq/Issue.antt =====
-- The `smemq_*` methods of gpgpu-sim/shader.cc together: an issue, and which mechanism runs.
use dae_proj.Base.{ℕ, ◌≡◌, Bool, true, false, some, ok, fault, Fault, arith, Bool-cases, inl, inr}
use dae_proj.Rfq.Keys.{Key}
use dae_proj.Rfq.{Rfq}
use dae_proj.Config.{ShaderConfig, Kernel, CtaLimits, max_cta, set_max_cta}
use dae_proj.Port.{Side, Layout, QueueState, QueueInst, uses_queue, prepare_issue}
use dae_proj.Port.Sides.{rfq_side, smemq_side, wasp_rfq_enabled}
use dae_proj.Port.Issue.{IsOn, Fitting, Went, can_issue-issue_queue}
use dae_proj.Smemq.{smemq_can_issue, smemq_key_for_warp}

both_kinds :
    (c : ShaderConfig) (k : Kernel) (old : CtaLimits)
    → wasp_rfq_enabled c ≡ true
    → c.smemq_enable ≡ true
    → set_max_cta c k old ≡ fault Fault.aborted
unfolding set_max_cta max_cta
both_kinds c k old w s = ground arith

rfq-off :
    (c : ShaderConfig) (k : Kernel) (old new : CtaLimits)
    → set_max_cta c k old ≡ ok new
    → c.smemq_enable ≡ true
    → wasp_rfq_enabled c ≡ false
rfq-off c k old new h s = elim (Bool-cases (wasp_rfq_enabled c)) [
  | inl w ↦ absurd (ground (arith, both_kinds c k old w s))
  | inr w ↦ w
]

prepare-off :
    (side : Side) (layout : Layout) (st : QueueState) (inst : QueueInst)
    → side.enabled ≡ false
    → prepare_issue side layout st (some inst) ≡ ok (some inst, st)
unfolding prepare_issue
prepare-off side layout st inst off = ground arith

-- On a core for which set_max_cta succeeded and on which the shared-memory queues are on, an
-- instruction that smemq_can_issue lets through is issued on the queue of its key without a
-- failed assertion, when the queues of the table have the configured shape, and the register-
-- file queues are off: their prepare_issue changes neither an instruction nor its state.
pub smemq_can_issue-issue :
    (c : ShaderConfig) (k : Kernel) (old new : CtaLimits) (layout : Layout)
    (rfq_st st st1 : QueueState) (rfq_inst inst : QueueInst) (count : Bool) (key : Key) (n : ℕ)
    → set_max_cta c k old ≡ ok new
    → IsOn (smemq_side c)
    → uses_queue inst ≡ true
    → smemq_key_for_warp c layout inst.warp_id inst.queue_id ≡ ok key
    → Fitting (smemq_side c) inst st.table
    → smemq_can_issue c layout st inst.warp_id (some inst) count ≡ ok (true, st1)
    → (prepare_issue (rfq_side c) layout rfq_st (some rfq_inst) ≡ ok (some rfq_inst, rfq_st))
      × (q : Rfq) × Went (smemq_side c) layout st1 inst n key q
smemq_can_issue-issue c k old new layout rfq_st st st1 rfq_inst inst count key n set on uses of_key
      fits guard =
    let issue =
      can_issue-issue_queue (smemq_side c) layout st st1 inst count key n on uses of_key fits
        guard in
    (
      prepare-off (rfq_side c) layout rfq_st rfq_inst (rfq-off c k old new set on.enabled),
      issue.0,
      issue.1,
    )
