-- ===== src/Ldst/Cycle.antt =====
-- `ldst_unit::cycle` of gpgpu-sim/shader.cc.
use dae_proj.Base.{
  ℕ, ◌-◌, Bool, true, false, not, ◌&&◌, ◌||◌, Option, none, some, List, [], ◌∷◌, set, get_elem?,
  ltb, ◌==◌, if◌then◌else◌, Result, ok, ◌>>=◌, ◌>>◌, check, access, inc64,
}
use dae_proj.Port.{load_pending}
use dae_proj.Ldst.{
  CacheOp, MemInst, Fetch, FetchKind, CacheId, Memory, MemConfig, Stall, no_fail, Ldst, is_shared,
  warp_inst_complete, pending_of, store_ack, core_dec_inst_in_pipeline,
}
use dae_proj.Ldst.Depbar.{unset_depbar}
use dae_proj.Ldst.Latency.{l1_latency_queue_cycle}
use dae_proj.Ldst.Stages.{Progress, all_stages}
use dae_proj.Ldst.Writeback.{writeback}

-- Each instruction moves into the stage before it when that is free; the first stage is given apart.
unfoldable pub advance : Option MemInst → List (Option MemInst) → List (Option MemInst)
advance held [] = held ∷ []
advance none (next ∷ stages) = next ∷ advance none stages
advance (some i) (next ∷ stages) = some i ∷ advance next stages

unfoldable pub advance_all : List (Option MemInst) → List (Option MemInst)
unfolding advance
advance_all [] = []
advance_all (held ∷ stages) = advance held stages

abbrev is_cache_op_global : CacheOp → Bool
is_cache_op_global CacheOp.cache_global = true
is_cache_op_global _ = false

abbrev global_kind : FetchKind → Bool
global_kind FetchKind.global_read = true
global_kind FetchKind.global_write = true
global_kind _ = false

abbrev pub bypass_fill : MemConfig → Fetch → Bool
bypass_fill c mf =
    if is_cache_op_global mf.inst.cache_op || not c.has_l1d
    then true
    else global_kind mf.kind && c.gmem_skip_l1d

module _ {I E : Type 0} (m : Memory E) (c : MemConfig) where
  -- A response goes to its cache when the fill port is free.
  abbrev fill_cache : CacheId → Ldst I E → Fetch → List Fetch → Ldst I E
  fill_cache cache s mf rest =
      if m.fill_port_free cache s.outside
      then record s { outside = m.fill cache s.outside mf; response_fifo = rest }
      else s

  abbrev take_global : Ldst I E → Fetch → List Fetch → Option Fetch → Ldst I E
  take_global s mf rest none = record s { response_fifo = rest; next_global = some mf }
  take_global s mf rest (some held) = s

  -- A response that is neither for the texture nor for the constant cache.
  unfoldable pub data_response : Ldst I E → Fetch → List Fetch → Result (Ldst I E)
  data_response s mf rest =
      if mf.write_ack || (c.acks_writes && mf.is_write)
      then (store_ack c s mf >>= λ s'. ok (record s' { response_fifo = rest }))
      else check (not mf.is_write)
        >> ok (
            if bypass_fill c mf
            then take_global s mf rest s.next_global
            else fill_cache CacheId.l1_data s mf rest)

  abbrev response_of : Ldst I E → Fetch → List Fetch → FetchKind → Result (Ldst I E)
  response_of s mf rest FetchKind.texture_read = ok (fill_cache CacheId.l1_texture s mf rest)
  response_of s mf rest FetchKind.const_read = ok (fill_cache CacheId.l1_constant s mf rest)
  response_of s mf rest _ = data_response s mf rest

  -- The first response of the queue.
  unfoldable pub take_response : Ldst I E → List Fetch → Result (Ldst I E)
  unfolding data_response
  take_response s [] = ok s
  take_response s (mf ∷ rest) = response_of s mf rest mf.kind

  abbrev read_only_cycles : Ldst I E → Ldst I E
  read_only_cycles s = record s {
    outside = m.cache_cycle CacheId.l1_constant (m.cache_cycle CacheId.l1_texture s.outside);
  }

  unfoldable pub cache_cycles : Ldst I E → Result (Ldst I E)
  cache_cycles s =
      let t = read_only_cycles s in
      let u = record t { outside = m.cache_cycle CacheId.l1_data t.outside } in
      if not c.has_l1d
      then ok t
      else if ltb 0 c.l1_latency
      then l1_latency_queue_cycle m c u
      else ok u

  abbrev undispatched : Ldst I E → Ldst I E
  undispatched s = record s { dispatch = none }

  -- The loop that looks for a pending write; an entry of 0 stays absent.
  unfoldable pub some_pending : Ldst I E → MemInst → List ℕ → Bool
  some_pending s i [] = false
  some_pending s i (r ∷ rs) = (ltb 0 r && ltb 0 (pending_of s i r)) || some_pending s i rs

  unfoldable pub pending_requests : Ldst I E → MemInst → Result Bool
  unfolding some_pending
  pending_requests s i =
      if i.rfq.load
      then load_pending c.rfq s.rfq i.rfq
      else if i.smemq.load
      then load_pending c.smemq s.smemq i.smemq
      else ok (some_pending s i i.out)

  -- A load that is already done is complete here.
  unfoldable pub finish_load : Ldst I E → MemInst → Bool → Result (Ldst I E)
  finish_load s i pending =
      let completed = warp_inst_complete c s i in
      let s' = record completed { outside = m.release_registers completed.outside i } in
      if pending
      then ok s
      else if i.m_is_ldgsts && (s'.pending_ldgsts i.warp_id i.pc i.addr == 0)
      then unset_depbar s' i
      else ok s'

  -- A load from shared memory enters the last stage of the pipeline when that is free.
  abbrev enter_pipeline : Ldst I E → MemInst → Option MemInst → Ldst I E
  enter_pipeline s i none =
      undispatched (record s { pipeline = set s.pipeline (c.smem_latency - 1) (some i) })
  enter_pipeline s i (some held) = s

  -- The instruction has made all its accesses.
  unfoldable pub leave_dispatch : Ldst I E → MemInst → Result (Ldst I E)
  unfolding pending_requests finish_load
  leave_dispatch s i =
      if not i.is_load
      then (core_dec_inst_in_pipeline s i.warp_id >>= λ s'.
          ok (undispatched (warp_inst_complete c s' i)))
      else if is_shared i.space
      then (access (get_elem? s.pipeline (c.smem_latency - 1)) >>= λ last.
          ok (enter_pipeline s i last))
      else (pending_requests s i >>= λ pending. finish_load s i pending >>= λ s'.
          core_dec_inst_in_pipeline s' i.warp_id >>= λ s''. ok (undispatched s''))

  abbrev stalled : Progress I E → Ldst I E
  stalled p = record (p.unit) {
    mem_rc = p.rc_fail;
    dispatch = some p.inst;
    stats = record (p.unit.stats) {
      stall_shd_mem = inc64 p.unit.stats.stall_shd_mem;
      stall_breakdown = (p.fail_type, p.rc_fail) ∷ p.unit.stats.stall_breakdown;
    };
  }

  abbrev unstalled : Progress I E → Ldst I E
  unstalled p = record (p.unit) { mem_rc = p.rc_fail; dispatch = some p.inst }

  unfoldable pub dispatch_cycle : Ldst I E → Option MemInst → Result (Ldst I E)
  unfolding leave_dispatch
  dispatch_cycle s none = ok (record s { mem_rc = Stall.no_rc_fail })
  dispatch_cycle s (some i) = all_stages m c s i >>= λ p.
      if not p.done
      then check (not (no_fail p.rc_fail)) >> ok (stalled p)
      else leave_dispatch (unstalled p) p.inst

  unfoldable pub ldst_cycle : Ldst I E → Result (Ldst I E)
  unfolding advance_all take_response cache_cycles dispatch_cycle
  ldst_cycle s = do
    s1 ← writeback m c s
    let s2 = record s1 { pipeline = advance_all s1.pipeline }
    s3 ← take_response s2 s2.response_fifo
    s4 ← cache_cycles s3
    dispatch_cycle s4 s4.dispatch
