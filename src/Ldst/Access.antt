-- ===== src/Ldst/Access.antt =====
-- The accesses that the load and store unit makes for the instruction in its dispatch register:
-- `process_cache_access`, `process_memory_access_queue` and the stages `shared_cycle`,
-- `constant_cycle`, `texture_cycle` and `memory_cycle` of `ldst_unit` in gpgpu-sim/shader.cc.
use dae_proj.Base.{
  ℕ, zero, suc, ◌-◌, Bool, true, false, not, Option, none, some, List, [], ◌∷◌, set, get_elem?, ltb,
  ◌==◌, if◌then◌else◌, Result, ok, fault, Fault, ◌>>=◌, ◌>>◌, check, access, sub32, inc64,
}
use dae_proj.Ldst.{
  MemAccess, MemInst, Fetch, CacheId, CacheStatus, Answer, Memory, MemConfig, Stall, Ldst,
  set_ldgsts, inc_store_reqs, mark_rfq, mark_smemq, pending_of, put_pending, acks_of,
}
use dae_proj.Ldst.Depbar.{unset_depbar}

abbrev pub pop_list : List MemAccess → List MemAccess
pop_list [] = []
pop_list (a ∷ as_) = as_

-- `accessq_pop_back`
abbrev pub accessq_pop_back : MemInst → MemInst
accessq_pop_back i = record i { accesses = pop_list i.accesses }

abbrev pub no_accesses : List MemAccess → Bool
no_accesses [] = true
no_accesses _ = false

abbrev pub accessq_empty : MemInst → Bool
accessq_empty i = no_accesses i.accesses

abbrev pub coal_stall_if : MemInst → Stall
coal_stall_if i = if accessq_empty i then Stall.no_rc_fail else Stall.coal_stall

-- What a stage leaves: why it stalls, the instruction, the unit.
abbrev pub Staged : Type 0 → Type 0 → Type 0
Staged I E = Stall × MemInst × Ldst I E

module _ {I E : Type 0} where
  -- The pending writes of the output registers, less `n` each.
  unfoldable pub sub_pending : ℕ → Ldst I E → MemInst → List ℕ → Ldst I E
  sub_pending n s i [] = s
  sub_pending n s i (r ∷ rs) =
      sub_pending n (if ltb 0 r then put_pending s i r (sub32 (pending_of s i r) n) else s) i rs

  -- One access of an asynchronous copy is done, and whether it was the last.
  abbrev pub dec_ldgsts : Ldst I E → MemInst → Bool × Ldst I E
  dec_ldgsts s i =
      let left = sub32 (s.pending_ldgsts i.warp_id i.pc i.addr) 1 in
      (
        left == 0,
        record s { pending_ldgsts = set_ldgsts s.pending_ldgsts i.warp_id i.pc i.addr left },
      )

  -- The release of an asynchronous copy.
  unfoldable pub release_ldgsts : Ldst I E → MemInst → Result (Ldst I E)
  release_ldgsts s i =
      if not i.m_is_ldgsts
      then ok s
      else if (dec_ldgsts s i).0
      then unset_depbar (dec_ldgsts s i).1 i
      else ok (dec_ldgsts s i).1

  -- The bank with a request in one of its stages.
  abbrev pub put_in_stages : Ldst I E → ℕ → ℕ → List (Option Fetch) → Option Fetch → Ldst I E
  put_in_stages s bank stage stages mf = record s {
    latency_queue = set s.latency_queue bank (set stages stage mf);
  }

module _ {I E : Type 0} (m : Memory E) (c : MemConfig) where
  -- A load that hits: one response for each queue, and one write less for each register.
  unfoldable pub hit_load : Ldst I E → MemInst → Result (Ldst I E)
  unfolding sub_pending release_ldgsts
  hit_load s i = if not i.is_load then ok s else (do
    marked ← if i.rfq.load then mark_rfq c s i else ok (false, s)
    marked' ← if i.smemq.load then mark_smemq c marked.1 i else ok (false, marked.1)
    release_ldgsts (sub_pending 1 marked'.1 i i.out) i)

  -- What follows an answer of the cache, by its status.
  abbrev pub after_access : Ldst I E → MemInst → Answer → CacheStatus → Result (Staged I E)
  after_access s i a CacheStatus.hit = do
    check (not a.read_sent)
    s' ← hit_load s (accessq_pop_back i)
    ok (coal_stall_if (accessq_pop_back i), accessq_pop_back i, s')
  after_access s i a CacheStatus.reservation_fail = do
    check (not a.read_sent)
    check (not a.write_sent)
    ok (Stall.bk_conf, i, s)
  after_access s i a CacheStatus.miss =
      ok (coal_stall_if (accessq_pop_back i), accessq_pop_back i, s)
  after_access s i a CacheStatus.hit_reserved =
      ok (coal_stall_if (accessq_pop_back i), accessq_pop_back i, s)
  after_access s i a CacheStatus.other_status = fault Fault.assertion

  unfoldable pub process_cache_access : Ldst I E → MemInst → Answer → Fetch → Result (Staged I E)
  unfolding hit_load
  process_cache_access s i a mf = do
    s' ← if a.write_sent then inc_store_reqs (acks_of c mf) s i.warp_id else ok s
    after_access s' i a a.status

  -- A request for an access of the instruction, and the answer of a cache to it.
  abbrev pub ask_cache : CacheId → Ldst I E → MemInst → MemAccess → Result (Staged I E)
  ask_cache cache s i a =
      let made = m.alloc s.outside i a in
      let answer = m.cache_access cache made.1 made.0 in
      process_cache_access (record s { outside = answer.1 }) i answer.0 made.0

  unfoldable pub process_queue_of :
      CacheId → Ldst I E → MemInst → List MemAccess → Result (Staged I E)
  unfolding process_cache_access
  process_queue_of cache s i [] = ok (Stall.no_rc_fail, i, s)
  process_queue_of cache s i (a ∷ rest) =
      if not (m.data_port_free cache s.outside)
      then ok (Stall.data_port_stall, i, s)
      else ask_cache cache s i a

  abbrev pub process_memory_access_queue : CacheId → Ldst I E → MemInst → Result (Staged I E)
  process_memory_access_queue cache s i = process_queue_of cache s i i.accesses

  -- The request enters the free last stage of its bank.
  unfoldable pub enter_bank :
      Ldst I E → MemInst → Fetch → ℕ → List (Option Fetch) → Result (MemInst × Ldst I E)
  enter_bank s i mf bank stages = do
    s' ←
        if mf.inst.is_store
        then inc_store_reqs (acks_of c mf)
            (put_in_stages s bank (c.l1_latency - 1) stages (some mf)) i.warp_id
        else ok (put_in_stages s bank (c.l1_latency - 1) stages (some mf))
    ok (accessq_pop_back i, s')

  abbrev count_conflict : Ldst I E → Ldst I E
  count_conflict s = record s {
    stats = record (s.stats) { l1cache_bkconflict = inc64 s.stats.l1cache_bkconflict };
  }

  -- The loop over at most `l1_banks` requests of a cycle.
  unfoldable pub fill_banks : ℕ → Ldst I E → MemInst → List MemAccess → Result (Staged I E)
  unfolding enter_bank
  fill_banks zero s i accesses = ok (Stall.no_rc_fail, i, s)
  fill_banks (suc n) s i [] = ok (Stall.no_rc_fail, i, s)
  fill_banks (suc n) s i (a ∷ rest) = do
    let made = m.alloc s.outside i a
    let s1 = record s { outside = made.1 }
    let bank = m.set_bank made.0
    check (ltb bank c.l1_banks)
    stages ← access (get_elem? s1.latency_queue bank)
    last ← access (get_elem? stages (c.l1_latency - 1))
    elim last [
      | none ↦ enter_bank s1 i made.0 bank stages >>= λ e. fill_banks n e.1 e.0 rest
      | some mf ↦ ok (Stall.bk_conf, i, count_conflict s1)
    ]

  abbrev after_banks : Staged I E → Staged I E
  after_banks (Stall.bk_conf, i, s) = (Stall.bk_conf, i, s)
  after_banks (stall, i, s) = (if accessq_empty i then stall else Stall.coal_stall, i, s)

  unfoldable pub process_l1_queue_of : Ldst I E → MemInst → List MemAccess → Result (Staged I E)
  unfolding fill_banks process_cache_access
  process_l1_queue_of s i [] = ok (Stall.no_rc_fail, i, s)
  process_l1_queue_of s i (a ∷ rest) =
      if ltb 0 c.l1_latency
      then (fill_banks c.l1_banks s i (a ∷ rest) >>= λ left. ok (after_banks left))
      else ask_cache CacheId.l1_data s i a

  abbrev pub process_memory_access_queue_l1cache : Ldst I E → MemInst → Result (Staged I E)
  process_memory_access_queue_l1cache s i = process_l1_queue_of s i i.accesses
