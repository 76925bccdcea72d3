-- ===== src/Ldst/Writeback.antt =====
-- `ldst_unit::writeback` of gpgpu-sim/shader.cc: the instruction that is being written back, and the
-- round robin among the five clients that supply the next one.
use dae_proj.Base.{
  ℕ, zero, suc, ◌-◌, ◌%◌, Bool, true, false, not, ◌||◌, Option, none, some, List, [], ◌∷◌, set,
  get_elem?, ltb, ◌==◌, if◌then◌else◌, Result, ok, fault, Fault, ◌>>=◌, ◌>>◌, check, access, add32,
}
use dae_proj.Ldst.{
  MemInst, Fetch, CacheId, Memory, MemConfig, Ldst, is_shared, warp_inst_complete, mark_rfq,
  mark_smemq, complete_if, pending_of, put_pending, decrement_atomic_count,
  core_dec_inst_in_pipeline,
}
use dae_proj.Ldst.Access.{dec_ldgsts}
use dae_proj.Ldst.Depbar.{unset_depbar}
use dae_proj.Ldst.Latency.{with_release}

-- `m_num_writeback_clients`: shared memory, texture, constant, global and local, L1 data cache
abbrev pub num_clients : ℕ
num_clients = 5

module _ {I E : Type 0} (m : Memory E) (c : MemConfig) where
  -- The write of one output register, and whether it was the last.
  unfoldable pub write_output : Ldst I E → MemInst → ℕ → Result (Bool × Ldst I E)
  write_output s i r = if is_shared i.space then ok (true, with_release m c s i r) else (do
    check (ltb 0 (pending_of s i r))
    let s' = put_pending s i r (pending_of s i r - 1)
    ok (if pending_of s i r == 1 then (true, with_release m c s' i r) else (false, s')))

  -- The loop over the output registers, with `insn_completed`.
  unfoldable pub write_all : Bool → Ldst I E → MemInst → List ℕ → Result (Bool × Ldst I E)
  unfolding write_output
  write_all done s i [] = ok (done, s)
  write_all done s i (r ∷ rs) =
      let rest = λ (d : Bool) (s' : Ldst I E). write_all d s' i rs in
      if ltb 0 r
      then (write_output s i r >>= λ w. rest (done || w.0) w.1)
      else if i.m_is_ldgsts
      then ok (done || (dec_ldgsts s i).0, (dec_ldgsts s i).1)
      else rest done s

  unfoldable pub complete_inst : Bool → Ldst I E → MemInst → Result (Ldst I E)
  complete_inst done s i =
      let s' = warp_inst_complete c s i in
      if not done then ok s else if i.m_is_ldgsts then unset_depbar s' i else ok s'

  abbrev pub no_next : Ldst I E → Ldst I E
  no_next s = record s { next_wb = none }

  -- The instruction that is being written back; the flag says that `writeback` returns.
  unfoldable pub write_next : Ldst I E → Option MemInst → Result (Bool × Ldst I E)
  unfolding write_all complete_inst
  write_next s none = ok (false, s)
  write_next s (some i) =
      let collected = m.collector_writeback s.outside i in
      let s1 = record s { outside = collected.1 } in
      if i.rfq.load
      then (mark_rfq c s i >>= λ marked. ok (true, no_next (complete_if c i marked)))
      else if i.smemq.load
      then (mark_smemq c s i >>= λ marked. ok (true, no_next (complete_if c i marked)))
      else if not collected.0
      then ok (false, s1)
      else (write_all false s1 i i.out >>= λ w.
          complete_inst w.0 w.1 i >>= λ s2. ok (false, no_next s2))

  -- The shared-memory client: the first stage of the pipeline.
  unfoldable pub serve_shared : Ldst I E → Option MemInst → Result (Bool × Ldst I E)
  serve_shared s none = ok (false, s)
  serve_shared s (some i) = do
    s1 ←
        if i.atomic
        then decrement_atomic_count (record s { outside = m.do_atomic s.outside i }) i.warp_id
            i.active_count
        else ok s
    s2 ← core_dec_inst_in_pipeline s1 i.warp_id
    ok (true, record s2 { next_wb = some i; pipeline = set s2.pipeline 0 none })

  abbrev pub serve_cache : CacheId → Ldst I E → Bool × Ldst I E
  serve_cache cache s =
      let taken = m.next_access cache s.outside in
      if m.access_ready cache s.outside
      then (true, record s { next_wb = some taken.0.inst; outside = taken.1 })
      else (false, s)

  unfoldable pub serve_global : Ldst I E → Option Fetch → Result (Bool × Ldst I E)
  serve_global s none = ok (false, s)
  serve_global s (some mf) = do
    s1 ← if mf.atomic then decrement_atomic_count s mf.wid mf.mask_count else ok s
    ok (true, record s1 { next_wb = some mf.inst; next_global = none })

  -- One client; the flag says whether it was serviced.
  unfoldable pub serve : Ldst I E → ℕ → Result (Bool × Ldst I E)
  unfolding serve_shared serve_global
  serve s client =
      if client == 0
      then (access (get_elem? s.pipeline 0) >>= serve_shared s)
      else if client == 1
      then ok (serve_cache CacheId.l1_texture s)
      else if client == 2
      then ok (serve_cache CacheId.l1_constant s)
      else if client == 3
      then serve_global s s.next_global
      else if client == 4
      then ok (if c.has_l1d then serve_cache CacheId.l1_data s else (false, s))
      else fault Fault.aborted

  -- The loop over the clients while nothing is being written back, and which one was serviced.
  unfoldable pub serve_from : ℕ → ℕ → Ldst I E → Result (Option ℕ × Ldst I E)
  unfolding serve
  serve_from zero k s = ok (none, s)
  serve_from (suc n) k s =
      let client = add32 k s.writeback_arb % num_clients in
      let rest = λ (s' : Ldst I E). serve_from n (suc k) s' in
      serve s client >>= λ tried. if tried.0 then ok (some client, tried.1) else rest tried.1

  abbrev pub arbitrated : Option ℕ × Ldst I E → Ldst I E
  arbitrated (none, s) = s
  arbitrated (some client, s) = record s { writeback_arb = add32 client 1 % num_clients }

  -- The second half, when nothing is being written back.
  unfoldable pub supply : Ldst I E → Option MemInst → Result (Ldst I E)
  unfolding serve_from
  supply s (some i) = ok s
  supply s none = serve_from num_clients 0 s >>= λ served. ok (arbitrated served)

  unfoldable pub writeback : Ldst I E → Result (Ldst I E)
  unfolding write_next supply
  writeback s = do
    written ← write_next s s.next_wb
    if written.0 then ok written.1 else supply written.1 written.1.next_wb
