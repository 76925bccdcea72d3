-- ===== src/Ldst.antt =====
-- The load and store unit of a core: class `ldst_unit` of gpgpu-sim/shader.h and shader.cc. The
-- caches, the interconnect, the allocator of memory requests, the operand collector and the
-- scoreboard, none of which the repository holds but for the collector, are a type `E` of states
-- with the operations `Memory`. The bitset `occupied` is left out: nothing reads it of this unit.
pub mod Depbar
pub mod Access
pub mod Stages
pub mod Latency
pub mod Writeback
pub mod Cycle
pub mod Serve
pub mod Outputs
pub mod Responses
pub mod Queued
mod Tests
use dae_proj.Base.{
  ℕ, zero, suc, ◌+◌, ◌/◌, ◌-◌, ◌^◌, ◌%◌, Bool, true, false, not, ◌&&◌, ◌||◌, Option, none, some,
  List, [], ◌∷◌, ◌++◌, set, get_elem?, length, ltb, leb, ◌==◌, if◌then◌else◌, Result, ok, fault,
  Fault, ◌>>=◌, ◌>>◌, check, access, add32, sub32, inc64,
}
use dae_proj.Port.{Side, QueueState, QueueInst, mark_mem_response}
use dae_proj.Warp.{Warp, inc_store_req, dec_store_req, dec_n_atomic, dec_inst_in_pipeline}

-- The spaces of memory that the unit tells apart.
pub data Space : Type 0 where
  shared_space const_space param_space_kernel tex_space : Space
  global_space local_space param_space_local other_space : Space

abbrev pub is_shared : Space → Bool
is_shared shared_space = true
is_shared _ = false

pub data CacheOp : Type 0 where
  cache_undefined cache_l1 cache_global other_op : CacheOp

-- The kind of unit that an instruction was issued to.
pub data OpPipe : Type 0 where
  sp_op sfu_op mem_op other_pipe : OpPipe

-- A `mem_access_t` of the access queue.
pub record MemAccess : Type 0 where
  pub addr : ℕ
  pub size : ℕ

-- The fields of `warp_inst_t` that the unit reads and writes. `out` holds the numbers of the output
-- registers, 0 for none; the back of `accesses` is its first element; `cycles` is the dispatch
-- delay; `addr` the first address of the threads.
pub record MemInst : Type 0 where
  pub warp_id : ℕ
  pub pc : ℕ
  pub addr : ℕ
  pub active_count : ℕ
  pub is_load : Bool
  pub is_store : Bool
  pub atomic : Bool
  pub space : Space
  pub cache_op : CacheOp
  pub op_pipe : OpPipe
  pub out : List ℕ
  pub accesses : List MemAccess
  pub cycles : ℕ
  pub rfq : QueueInst
  pub smemq : QueueInst
  pub m_is_ldgsts : Bool

pub data FetchKind : Type 0 where
  texture_read const_read global_read global_write other_access : FetchKind

-- A `mem_fetch`; `mask_count` counts the threads of its access.
pub record Fetch : Type 0 where
  pub inst : MemInst
  pub data_size : ℕ
  pub is_write : Bool
  pub write_ack : Bool
  pub kind : FetchKind
  pub atomic : Bool
  pub wid : ℕ
  pub mask_count : ℕ

pub data CacheId : Type 0 where
  l1_texture l1_constant l1_data : CacheId

pub data CacheStatus : Type 0 where
  hit hit_reserved miss reservation_fail other_status : CacheStatus

-- The answer of a cache: the status, and which events it reports.
pub record Answer : Type 0 where
  pub status : CacheStatus
  pub write_sent : Bool
  pub read_sent : Bool
  pub writeallocate_sent : Bool

pub record Memory (E : Type 0) : Type 0 where
  pub alloc : E → MemInst → MemAccess → Fetch × E
  pub cache_access : CacheId → E → Fetch → Answer × E
  pub data_port_free : CacheId → E → Bool
  pub access_ready : CacheId → E → Bool
  pub next_access : CacheId → E → Fetch × E
  pub fill_port_free : CacheId → E → Bool
  pub fill : CacheId → E → Fetch → E
  pub cache_cycle : CacheId → E → E
  pub icnt_full : E → ℕ → Bool → MemAccess → Bool
  pub icnt_push : E → Fetch → E
  pub set_bank : Fetch → ℕ
  pub set_reply : Fetch → Fetch
  pub collector_writeback : E → MemInst → Bool × E
  pub release_register : E → ℕ → ℕ → E
  pub release_registers : E → MemInst → E
  pub do_atomic : E → MemInst → E

-- `acks_writes` is `gpgpu_perfect_mem || SST_mode`; `lazy_write` says that a write that misses is
-- acknowledged when it is merged: the policy is not write-through and fetches on write or read.
pub record MemConfig : Type 0 where
  pub rfq : Side
  pub smemq : Side
  pub warp_size : ℕ
  pub clock_gated_lanes : Bool
  pub has_l1d : Bool
  pub sector_assoc : Bool
  pub sector_size : ℕ
  pub l1_latency : ℕ
  pub l1_banks : ℕ
  pub gmem_skip_l1d : Bool
  pub acks_writes : Bool
  pub lazy_write : Bool
  pub perfect_inst_const_cache : Bool
  pub smem_latency : ℕ
  pub response_queue_size : ℕ
  pub mem_unit_ports : ℕ
  pub mem_warp_parts : ℕ
  pub write_packet_size : ℕ
  pub read_packet_size : ℕ

-- `mem_stage_stall_type` and `mem_stage_access_type`
pub data Stall : Type 0 where
  no_rc_fail bk_conf coal_stall data_port_stall icnt_rc_fail : Stall

abbrev pub no_fail : Stall → Bool
no_fail no_rc_fail = true
no_fail _ = false

pub data StageAccess : Type 0 where
  c_mem t_mem s_mem g_mem_ld l_mem_ld g_mem_st l_mem_st : StageAccess

pub record MemStats : Type 0 where
  pub sp_committed : ℕ
  pub sfu_committed : ℕ
  pub mem_committed : ℕ
  pub sim_insn : ℕ
  pub sim_winsn : ℕ
  pub gpu_sim_insn : ℕ
  pub shmem_bank_access : ℕ
  pub shmem_bkconflict : ℕ
  pub l1cache_bkconflict : ℕ
  pub cmem_portconflict : ℕ
  pub stall_shd_mem : ℕ
  pub stall_breakdown : List (StageAccess × Stall)

-- The unit and what it changes of its core. `pending_writes` is by warp and register,
-- `pending_ldgsts` by warp, `pc` and address; an erased or absent entry is 0. The instructions of
-- the warps' own buffers are of type `I`.
pub record Ldst (I E : Type 0) : Type 0 where
  pub warps : List (Warp I)
  pub rfq : QueueState
  pub smemq : QueueState
  pub dispatch : Option MemInst
  pub pipeline : List (Option MemInst)
  pub next_wb : Option MemInst
  pub next_global : Option Fetch
  pub response_fifo : List Fetch
  pub writeback_arb : ℕ
  pub pending_writes : ℕ → ℕ → ℕ
  pub pending_ldgsts : ℕ → ℕ → ℕ → ℕ
  pub latency_queue : List (List (Option Fetch))
  pub mem_rc : Stall
  pub stats : MemStats
  pub outside : E

-- The map with another value at one place.
abbrev pub set_pending : (ℕ → ℕ → ℕ) → ℕ → ℕ → ℕ → ℕ → ℕ → ℕ
set_pending m w r n = λ w' r'. if w' == w && r' == r then n else m w' r'

abbrev pub set_ldgsts : (ℕ → ℕ → ℕ → ℕ) → ℕ → ℕ → ℕ → ℕ → ℕ → ℕ → ℕ → ℕ
set_ldgsts m w pc a n = λ w' pc' a'. if w' == w && pc' == pc && a' == a then n else m w' pc' a'

abbrev committed : OpPipe → MemStats → MemStats
committed sp_op s = record s { sp_committed = inc64 s.sp_committed }
committed sfu_op s = record s { sfu_committed = inc64 s.sfu_committed }
committed mem_op s = record s { mem_committed = inc64 s.mem_committed }
committed other_pipe s = s

abbrev pub completed_stats : MemConfig → MemInst → MemStats → MemStats
completed_stats c i s =
    let t = committed i.op_pipe s in
    record t {
      sim_insn =
          (t.sim_insn + (if c.clock_gated_lanes then i.active_count else c.warp_size)) % 2 ^ 64;
      sim_winsn = inc64 t.sim_winsn;
      gpu_sim_insn = (t.gpu_sim_insn + i.active_count) % 2 ^ 64;
    }

-- How often a write is acknowledged: once for each sector.
abbrev pub acks_of : MemConfig → Fetch → ℕ
acks_of c mf = if c.sector_assoc then mf.data_size / c.sector_size else 1

abbrev pub clock_multiplier : MemConfig → ℕ
clock_multiplier c = if ltb 0 c.mem_unit_ports then c.mem_unit_ports else c.mem_warp_parts

module _ {I E : Type 0} where
  abbrev pub warp_inst_complete : MemConfig → Ldst I E → MemInst → Ldst I E
  warp_inst_complete c s i = record s { stats = completed_stats c i s.stats }

  unfoldable pub change_warp : Ldst I E → ℕ → (Warp I → Result (Warp I)) → Result (Ldst I E)
  change_warp s w f = do
    held ← access (get_elem? s.warps w)
    new ← f held
    ok (record s { warps = set s.warps w new })

  abbrev pub core_inc_store_req : Ldst I E → ℕ → Result (Ldst I E)
  core_inc_store_req s w = change_warp s w (λ x. ok (inc_store_req x))

  -- `for (i < n) m_core->inc_store_req(warp_id)`
  unfoldable pub inc_store_reqs : ℕ → Ldst I E → ℕ → Result (Ldst I E)
  inc_store_reqs zero s w = ok s
  inc_store_reqs (suc n) s w = core_inc_store_req s w >>= λ s'. inc_store_reqs n s' w

  -- `shader_core_ctx::store_ack`
  unfoldable pub store_ack : MemConfig → Ldst I E → Fetch → Result (Ldst I E)
  store_ack c s mf = do
    check (mf.write_ack || (c.acks_writes && mf.is_write))
    change_warp s mf.wid dec_store_req

  unfoldable pub store_acks : MemConfig → ℕ → Ldst I E → Fetch → Result (Ldst I E)
  store_acks c zero s mf = ok s
  store_acks c (suc n) s mf = store_ack c s mf >>= λ s'. store_acks c n s' mf

  -- `shader_core_ctx::decrement_atomic_count`
  unfoldable pub decrement_atomic_count : Ldst I E → ℕ → ℕ → Result (Ldst I E)
  decrement_atomic_count s w n =
      change_warp s w (λ x. check (leb n x.n_atomic) >> ok (dec_n_atomic x n))

  unfoldable pub core_dec_inst_in_pipeline : Ldst I E → ℕ → Result (Ldst I E)
  core_dec_inst_in_pipeline s w = change_warp s w dec_inst_in_pipeline

  -- `m_core->wasp_rfq_mark_mem_response` and `smemq_mark_mem_response`
  unfoldable pub mark_rfq : MemConfig → Ldst I E → MemInst → Result (Bool × Ldst I E)
  mark_rfq c s i =
      mark_mem_response c.rfq s.rfq i.rfq >>= λ marked. ok (marked.0, record s { rfq = marked.1 })

  unfoldable pub mark_smemq : MemConfig → Ldst I E → MemInst → Result (Bool × Ldst I E)
  mark_smemq c s i = mark_mem_response c.smemq s.smemq i.smemq >>= λ marked.
      ok (marked.0, record s { smemq = marked.1 })

  -- The instruction is complete when the response was its last.
  abbrev pub complete_if : MemConfig → MemInst → Bool × Ldst I E → Ldst I E
  complete_if c i marked = if marked.0 then warp_inst_complete c marked.1 i else marked.1

  abbrev pub pending_of : Ldst I E → MemInst → ℕ → ℕ
  pending_of s i r = s.pending_writes i.warp_id r

  abbrev pub put_pending : Ldst I E → MemInst → ℕ → ℕ → Ldst I E
  put_pending s i r n = record s { pending_writes = set_pending s.pending_writes i.warp_id r n }

  abbrev pub response_buffer_full : MemConfig → Ldst I E → Bool
  response_buffer_full c s = leb c.response_queue_size (length s.response_fifo)

  -- `ldst_unit::fill`
  abbrev pub fill : Ldst I E → Fetch → Ldst I E
  fill s mf = record s { response_fifo = s.response_fifo ++ (mf ∷ []) }

  -- What `issue` notes of a load that is not from shared memory, for each output register.
  unfoldable pub add_pending : Ldst I E → MemInst → List ℕ → Ldst I E
  add_pending s i [] = s
  add_pending s i (r ∷ rs) =
      add_pending
        (if ltb 0 r then put_pending s i r (add32 (pending_of s i r) (length i.accesses)) else s) i
        rs

  -- `ldst_unit::issue` of the instruction that `get_ready` chose.
  unfoldable pub issue : Ldst I E → MemInst → Ldst I E
  unfolding add_pending
  issue s i =
      let noted = add_pending s i i.out in
      let counted = record noted {
        pending_ldgsts =
            set_ldgsts noted.pending_ldgsts i.warp_id i.pc i.addr
              (add32 (noted.pending_ldgsts i.warp_id i.pc i.addr) (length i.accesses));
      } in
      let s' =
        if not (i.is_load && not (is_shared i.space))
        then s
        else if i.m_is_ldgsts
        then counted
        else noted in
      record s' { dispatch = some (record i { op_pipe = mem_op }) }
