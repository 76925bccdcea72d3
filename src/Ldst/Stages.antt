-- ===== src/Ldst/Stages.antt =====
-- The four stages that the instruction in the dispatch register goes through in a cycle.
use dae_proj.Base.{
  ℕ, ◌+◌, ◌-◌, Bool, true, false, not, ◌&&◌, ◌||◌, List, [], ◌∷◌, length, ltb, ◌==◌, if◌then◌else◌,
  Result, ok, ◌>>=◌, ◌>>◌, check, inc64,
}
use dae_proj.Ldst.{
  Space, CacheOp, MemAccess, MemInst, CacheId, Memory, MemConfig, Stall, no_fail, StageAccess,
  MemStats, Ldst, is_shared, core_inc_store_req, pending_of,
}
use dae_proj.Ldst.Access.{
  Staged, accessq_empty, accessq_pop_back, sub_pending, process_memory_access_queue,
  process_memory_access_queue_l1cache, process_queue_of, process_l1_queue_of,
}

-- What the stages of a cycle pass on: `done`, `rc_fail`, `type`, the instruction and the unit.
pub record Progress (I E : Type 0) : Type 0 where
  pub done : Bool
  pub rc_fail : Stall
  pub fail_type : StageAccess
  pub inst : MemInst
  pub unit : Ldst I E

abbrev is_const : Space → Bool
is_const Space.const_space = true
is_const Space.param_space_kernel = true
is_const _ = false

abbrev is_texture : Space → Bool
is_texture Space.tex_space = true
is_texture _ = false

-- The spaces that `memory_cycle` serves, and which of them are global and local.
abbrev is_memory : Space → Bool
is_memory Space.global_space = true
is_memory Space.local_space = true
is_memory Space.param_space_local = true
is_memory _ = false

abbrev is_global : Space → Bool
is_global Space.global_space = true
is_global _ = false

abbrev is_local : Space → Bool
is_local Space.local_space = true
is_local Space.param_space_local = true
is_local _ = false

-- `dispatch_delay`: one cycle less, and whether some are left.
abbrev pub dispatch_delay : MemInst → Bool × MemInst
dispatch_delay i = (ltb 0 (i.cycles - 1), record i { cycles = i.cycles - 1 })

abbrev count_bank_access : Bool → MemStats → MemStats
count_bank_access b s = if b then record s { shmem_bank_access = inc64 s.shmem_bank_access } else s

abbrev count_port_conflict : Stall → MemStats → MemStats
count_port_conflict Stall.bk_conf s = record s { cmem_portconflict = inc64 s.cmem_portconflict }
count_port_conflict Stall.coal_stall s = record s { cmem_portconflict = inc64 s.cmem_portconflict }
count_port_conflict _ s = s

abbrev pub store_type : Space → Bool → StageAccess
store_type space is_write =
    if is_local space
    then (if is_write then StageAccess.l_mem_st else StageAccess.l_mem_ld)
    else (if is_write then StageAccess.g_mem_st else StageAccess.g_mem_ld)

abbrev is_cache_op_l1 : CacheOp → Bool
is_cache_op_l1 CacheOp.cache_l1 = true
is_cache_op_l1 _ = false

abbrev is_cache_op_global : CacheOp → Bool
is_cache_op_global CacheOp.cache_global = true
is_cache_op_global _ = false

abbrev is_undefined : CacheOp → Bool
is_undefined CacheOp.cache_undefined = true
is_undefined _ = false

abbrev pub bypass_l1d : MemConfig → MemInst → Bool
bypass_l1d c i =
    if is_cache_op_global i.cache_op || not c.has_l1d
    then true
    else is_global i.space && c.gmem_skip_l1d && not (is_cache_op_l1 i.cache_op)

module _ {I E : Type 0} where
  unfoldable pub shared_cycle : Progress I E → Progress I E
  shared_cycle p =
      let delayed = dispatch_delay p.inst in
      let counted = count_bank_access (ltb 0 p.inst.cycles) p.unit.stats in
      if not (is_shared p.inst.space) || (p.inst.active_count == 0)
      then p
      else if delayed.0
      then record {
        done = false;
        rc_fail = Stall.bk_conf;
        fail_type = StageAccess.s_mem;
        inst = delayed.1;
        unit = record (p.unit) {
          stats = record counted { shmem_bkconflict = inc64 counted.shmem_bkconflict };
        };
      }
      else record p {
        rc_fail = Stall.no_rc_fail;
        inst = delayed.1;
        unit = record (p.unit) { stats = counted };
      }

  -- The end of a stage: its stall is noted with the kind of access, and it is done when no access
  -- is left.
  abbrev pub stage_end : Progress I E → StageAccess → Staged I E → Progress I E
  stage_end p kind left = record {
    done = p.done && accessq_empty left.1;
    rc_fail = if no_fail left.0 then p.rc_fail else left.0;
    fail_type = if no_fail left.0 then p.fail_type else kind;
    inst = left.1;
    unit = left.2;
  }

  -- With a perfect constant cache all accesses are done at once.
  abbrev pub all_accesses : Ldst I E → MemInst → Staged I E
  all_accesses s i = (
    Stall.no_rc_fail,
    record i { accesses = [] },
    if i.is_load then sub_pending (length i.accesses) s i i.out else s,
  )

  abbrev conflicted : Stall → Progress I E → Progress I E
  conflicted stall p = record p {
    unit = record (p.unit) { stats = count_port_conflict stall p.unit.stats };
  }

  -- The stall of `memory_cycle`, when accesses are left over.
  abbrev pub stall_left : Staged I E → Staged I E
  stall_left (stall, i, s) =
      (if not (accessq_empty i) && no_fail stall then Stall.coal_stall else stall, i, s)

module _ {I E : Type 0} (m : Memory E) (c : MemConfig) where
  unfoldable pub constant_cycle : Progress I E → Result (Progress I E)
  unfolding process_queue_of sub_pending
  constant_cycle p = if not (is_const p.inst.space) || (p.inst.active_count == 0) then ok p else (do
    left ←
        if c.perfect_inst_const_cache
        then ok (all_accesses p.unit p.inst)
        else process_memory_access_queue m c CacheId.l1_constant p.unit p.inst
    ok (conflicted left.0 (stage_end p StageAccess.c_mem left)))

  unfoldable pub texture_cycle : Progress I E → Result (Progress I E)
  unfolding process_queue_of
  texture_cycle p =
      if not (is_texture p.inst.space) || (p.inst.active_count == 0) then ok p else (do
        left ← process_memory_access_queue m c CacheId.l1_texture p.unit p.inst
        ok (stage_end p StageAccess.t_mem left))

  -- A load that goes to memory waits for the write of each of its registers.
  unfoldable pub all_pending : Ldst I E → MemInst → List ℕ → Bool
  all_pending s i [] = true
  all_pending s i (r ∷ rs) = (not (ltb 0 r) || ltb 0 (pending_of s i r)) && all_pending s i rs

  -- An access that bypasses the L1 cache.
  unfoldable pub send : Ldst I E → MemInst → MemAccess → Result (Staged I E)
  unfolding all_pending
  send s i a =
      let control = if i.is_store then c.write_packet_size else c.read_packet_size in
      let made = m.alloc s.outside i a in
      let sent = record s { outside = m.icnt_push made.1 made.0 } in
      if m.icnt_full s.outside (a.size + control) (i.is_store || i.atomic) a
      then ok (Stall.icnt_rc_fail, i, s)
      else if i.is_load
      then check (all_pending sent i i.out) >> ok (Stall.no_rc_fail, accessq_pop_back i, sent)
      else if i.is_store
      then (core_inc_store_req sent i.warp_id >>= λ s'.
          ok (Stall.no_rc_fail, accessq_pop_back i, s'))
      else ok (Stall.no_rc_fail, accessq_pop_back i, sent)

  unfoldable pub memory_access : Ldst I E → MemInst → List MemAccess → Result (Staged I E)
  unfolding send process_l1_queue_of
  memory_access s i [] = ok (Stall.no_rc_fail, i, s)
  memory_access s i (a ∷ rest) =
      if bypass_l1d c i
      then send s i a
      else check (not (is_undefined i.cache_op)) >> process_memory_access_queue_l1cache m c s i

  unfoldable pub memory_cycle : Progress I E → Result (Progress I E)
  unfolding memory_access
  memory_cycle p =
      if not (is_memory p.inst.space) || (p.inst.active_count == 0) || accessq_empty p.inst
      then ok p
      else (memory_access p.unit p.inst p.inst.accesses >>= λ left.
          ok (stage_end p (store_type p.inst.space p.inst.is_store) (stall_left left)))

  abbrev pub first_progress : Ldst I E → MemInst → Progress I E
  first_progress s i = record {
    done = true;
    rc_fail = Stall.no_rc_fail;
    fail_type = StageAccess.c_mem;
    inst = i;
    unit = s;
  }

  -- The four stages, in the order in which a cycle goes through them.
  unfoldable pub all_stages : Ldst I E → MemInst → Result (Progress I E)
  unfolding shared_cycle constant_cycle texture_cycle memory_cycle
  all_stages s i = do
    p ← constant_cycle (shared_cycle (first_progress s i))
    q ← texture_cycle p
    memory_cycle q
