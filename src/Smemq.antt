-- ===== src/Smemq.antt =====
-- The shared-memory queue of gpgpu-sim/wasp-smem-queue.{h,cc} and the `smemq_*` methods of
-- `shader_core_ctx` in gpgpu-sim/shader.cc. They are the code of wasp-rfq.{h,cc} and of the
-- `wasp_rfq_*` methods with other names, other configuration fields and other instruction fields,
-- so that each definition is that of `Rfq` or of `Port` by its name here; what differs is
-- `smemq_side`, with which the methods run.
pub mod Issue
mod Tests
use dae_proj.Base.{ℕ, Bool, Option, Result}
use dae_proj.Rfq.Keys
use dae_proj.Rfq
use dae_proj.Rfq.Table
use dae_proj.Port
use dae_proj.Port.{Layout, QueueState, QueueInst}
use dae_proj.Port.Sides.{smemq_side}
use dae_proj.Config.{ShaderConfig}

abbrev pub SmemqKey : Type 0
SmemqKey = Keys.Key

abbrev pub SmemqToken : Type 0
SmemqToken = Rfq.Token

abbrev pub SmemqEntry : Type 0
SmemqEntry = Rfq.Entry

abbrev pub Smemq : Type 0
Smemq = Rfq.Rfq

abbrev pub configure : Smemq → ℕ → ℕ → ℕ → Result Smemq
configure = Rfq.configure

abbrev pub head_ready : Smemq → Bool
head_ready = Rfq.head_ready

abbrev pub ready_count : Smemq → ℕ
ready_count = Rfq.ready_count

abbrev pub pending_count : Smemq → ℕ
pending_count = Rfq.pending_count

abbrev pub reserve_tail : Smemq → SmemqKey → ℕ → ℕ → Result (SmemqToken × Smemq)
reserve_tail = Rfq.reserve_tail

abbrev pub entry_for_token : Smemq → SmemqToken → Result SmemqEntry
entry_for_token = Rfq.entry_for_token

abbrev pub set_pending_responses : Smemq → SmemqToken → ℕ → Result Smemq
set_pending_responses = Rfq.set_pending_responses

abbrev pub has_pending_responses : Smemq → SmemqToken → Result Bool
has_pending_responses = Rfq.has_pending_responses

abbrev pub mark_response : Smemq → SmemqToken → Result (Bool × Smemq)
mark_response = Rfq.mark_response

abbrev pub consume_head : Smemq → SmemqKey → Result Smemq
consume_head = Rfq.consume_head

abbrev pub set_lane_value : Smemq → SmemqToken → ℕ → ℕ → ℕ → Result Smemq
set_lane_value = Rfq.set_lane_value

abbrev pub head_lane_value : Smemq → ℕ → ℕ → Result ℕ
head_lane_value = Rfq.head_lane_value

abbrev pub SmemqTable : Type 0
SmemqTable = Table.Table

abbrev pub get_or_create : SmemqTable → SmemqKey → ℕ → ℕ → ℕ → Result (Smemq × SmemqTable)
get_or_create = Table.get_or_create

abbrev pub find : SmemqTable → SmemqKey → Option Smemq
find = Table.find

abbrev pub erase_cta : SmemqTable → ℕ → SmemqTable
erase_cta = Table.erase_cta

abbrev pub smemq_enabled : ShaderConfig → Bool
smemq_enabled c = c.smemq_enable

abbrev pub smemq_key_for_warp : ShaderConfig → Layout → ℕ → ℕ → Result SmemqKey
smemq_key_for_warp c = Port.key_for_warp (smemq_side c)

abbrev pub smemq_token_from_inst : QueueInst → SmemqToken
smemq_token_from_inst = Port.token_from_inst

abbrev pub smemq_write_token_to_inst : QueueInst → SmemqToken → QueueInst
smemq_write_token_to_inst = Port.write_token_to_inst

abbrev pub smemq_can_issue :
    ShaderConfig → Layout → QueueState → ℕ → Option QueueInst → Bool → Result (Bool × QueueState)
smemq_can_issue c = Port.can_issue (smemq_side c)

abbrev pub smemq_prepare_issue :
    ShaderConfig → Layout → QueueState → Option QueueInst → Result (Option QueueInst × QueueState)
smemq_prepare_issue c = Port.prepare_issue (smemq_side c)

abbrev pub smemq_after_func_exec : ShaderConfig → QueueState → Option QueueInst → Result QueueState
smemq_after_func_exec c = Port.after_func_exec (smemq_side c)

abbrev pub smemq_load_pending : ShaderConfig → QueueState → QueueInst → Result Bool
smemq_load_pending c = Port.load_pending (smemq_side c)

abbrev pub smemq_mark_mem_response :
    ShaderConfig → QueueState → QueueInst → Result (Bool × QueueState)
smemq_mark_mem_response c = Port.mark_mem_response (smemq_side c)

abbrev pub smemq_functional_store_lane :
    ShaderConfig → QueueState → QueueInst → ℕ → ℕ → ℕ → Result QueueState
smemq_functional_store_lane c = Port.functional_store_lane (smemq_side c)

abbrev pub smemq_functional_read_lane : ShaderConfig → QueueState → QueueInst → ℕ → ℕ → Result ℕ
smemq_functional_read_lane c = Port.functional_read_lane (smemq_side c)
