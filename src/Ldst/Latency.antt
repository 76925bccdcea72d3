-- ===== src/Ldst/Latency.antt =====
-- `ldst_unit::L1_latency_queue_cycle` of gpgpu-sim/shader.cc: the requests that have been in the
-- latency queue of their bank for long enough go to the L1 cache.
use dae_proj.Base.{
  ℕ, zero, suc, ◌-◌, Bool, not, ◌&&◌, Option, none, some, List, [], ◌∷◌, set, get_elem?, ltb, ◌==◌,
  if◌then◌else◌, Result, ok, fault, Fault, ◌>>=◌, ◌>>◌, check, access,
}
use dae_proj.Ldst.{
  MemInst, Fetch, CacheId, CacheStatus, Answer, Memory, MemConfig, Ldst, warp_inst_complete,
  mark_rfq, mark_smemq, complete_if, pending_of, put_pending, acks_of, store_acks,
}
use dae_proj.Ldst.Access.{release_ldgsts, put_in_stages}

-- Each stage moves on when the stage before it is free; the first is given apart.
unfoldable pub shift_stages : Option Fetch → List (Option Fetch) → List (Option Fetch)
shift_stages held [] = held ∷ []
shift_stages none (next ∷ stages) = next ∷ shift_stages none stages
shift_stages (some mf) (next ∷ stages) = some mf ∷ shift_stages next stages

unfoldable pub shift_bank : List (Option Fetch) → List (Option Fetch)
unfolding shift_stages
shift_bank [] = []
shift_bank (held ∷ stages) = shift_stages held stages

module _ {I E : Type 0} (m : Memory E) (c : MemConfig) where
  -- The last write of a register releases it and completes the instruction.
  abbrev pub with_release : Ldst I E → MemInst → ℕ → Ldst I E
  with_release s i r = record s { outside = m.release_register s.outside i.warp_id r }

  -- One write less for each output register.
  unfoldable pub write_outputs : Ldst I E → MemInst → List ℕ → Result (Ldst I E)
  write_outputs s i [] = ok s
  write_outputs s i (r ∷ rs) =
      let rest = λ (s' : Ldst I E). write_outputs s' i rs in
      if not (ltb 0 r) then rest s else (do
        check (ltb 0 (pending_of s i r))
        let s' = put_pending s i r (pending_of s i r - 1)
        rest (if pending_of s i r == 1 then warp_inst_complete c (with_release s' i r) i else s'))

  unfoldable pub latency_hit_load : Ldst I E → MemInst → Result (Ldst I E)
  unfolding write_outputs
  latency_hit_load s i = if not i.is_load then ok s else (do
    s1 ← if i.rfq.load then (do marked ← mark_rfq c s i; ok (complete_if c i marked)) else ok s
    s2 ←
        if i.smemq.load then (do marked ← mark_smemq c s1 i; ok (complete_if c i marked)) else ok s1
    s3 ← write_outputs s2 i i.out
    release_ldgsts s3 i)

  abbrev cleared : Ldst I E → ℕ → List (Option Fetch) → Ldst I E
  cleared s bank stages = put_in_stages s bank 0 stages none

  unfoldable pub acknowledge : Bool → Ldst I E → Fetch → Result (Ldst I E)
  acknowledge b s mf = if b then store_acks c (acks_of c mf) s (m.set_reply mf) else ok s

  -- What follows the answer of the cache to the first request of a bank.
  abbrev pub after_latency :
      Ldst I E → ℕ → List (Option Fetch) → Fetch → Answer → CacheStatus → Result (Ldst I E)
  after_latency s bank stages mf a CacheStatus.hit = do
    check (not a.read_sent)
    s' ← latency_hit_load (cleared s bank stages) mf.inst
    acknowledge (mf.inst.is_store && not a.write_sent) s' mf
  after_latency s bank stages mf a CacheStatus.reservation_fail = do
    check (not a.read_sent)
    check (not a.write_sent)
    ok s
  after_latency s bank stages mf a CacheStatus.other_status = fault Fault.assertion
  after_latency s bank stages mf a _ =
      acknowledge (c.lazy_write && mf.inst.is_store && not a.writeallocate_sent)
        (cleared s bank stages) mf

  unfoldable pub try_first : Ldst I E → ℕ → List (Option Fetch) → Option Fetch → Result (Ldst I E)
  unfolding latency_hit_load acknowledge
  try_first s bank stages none = ok s
  try_first s bank stages (some mf) =
      let answer = m.cache_access CacheId.l1_data s.outside mf in
      after_latency (record s { outside = answer.1 }) bank stages mf answer.0 answer.0.status

  unfoldable pub bank_cycle : Ldst I E → ℕ → Result (Ldst I E)
  unfolding try_first shift_bank
  bank_cycle s bank = do
    stages ← access (get_elem? s.latency_queue bank)
    first ← access (get_elem? stages 0)
    tried ← try_first s bank stages first
    left ← access (get_elem? tried.latency_queue bank)
    ok (record tried { latency_queue = set tried.latency_queue bank (shift_bank left) })

  -- The loop over the banks from `bank` on, `fuel` of them.
  unfoldable pub banks_cycle : ℕ → Ldst I E → ℕ → Result (Ldst I E)
  unfolding bank_cycle
  banks_cycle zero s bank = ok s
  banks_cycle (suc n) s bank = bank_cycle s bank >>= λ s'. banks_cycle n s' (suc bank)

  unfoldable pub l1_latency_queue_cycle : Ldst I E → Result (Ldst I E)
  unfolding banks_cycle
  l1_latency_queue_cycle s = banks_cycle c.l1_banks s 0
