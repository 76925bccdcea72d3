-- ===== src/Ldst/Responses.antt =====
-- A load that waits for its responses: from `issue` to the last of them.
use dae_proj.Base.{
  ℕ, zero, suc, ◌+◌, ◌-◌, ◌≤◌, ◌<◌, ◌≡◌, refl, ap, ◌∙◌, Bool, true, false, some, length, ◌==◌,
  if◌then◌else◌, Result, ok, ◌>>=◌, u32_mod, arith,
}
use dae_proj.Ldst.{
  MemInst, Memory, MemConfig, Ldst, MemStats, OpPipe, is_shared, pending_of, add_pending,
  completed_stats, warp_inst_complete, issue,
}
use dae_proj.Ldst.Outputs.{
  distinct, some_output, later, not_zero, AllPending, add_pending-AllPending, add_pending-stats,
  write_all-Written,
}
use dae_proj.Ldst.Writeback.{complete_inst, write_next, no_next}

-- The load as it stands in the dispatch register after its issue.
abbrev pub dispatched : MemInst → MemInst
dispatched i = record i { op_pipe = OpPipe.mem_op }

-- A load whose writes go through `pending_writes`, and which the operand collector takes.
pub record Plain {E : Type 0} (m : Memory E) (i : MemInst) : Type 0 where
  pub no_rfq : i.rfq.load ≡ false
  pub no_smemq : i.smemq.load ≡ false
  pub no_copy : i.m_is_ldgsts ≡ false
  pub not_shared : is_shared i.space ≡ false
  pub apart : distinct i.out ≡ true
  pub writes : some_output i.out ≡ true
  pub collected : (e : E) → (m.collector_writeback e i).0 ≡ true

module _ {I E : Type 0} (m : Memory E) (c : MemConfig) where
  complete-stats :
      (b : Bool) (s : Ldst I E) (i : MemInst)
      → i.m_is_ldgsts ≡ false
      → complete_inst m c b s i ≡ ok (if b then warp_inst_complete c s i else s)
  unfolding complete_inst
  complete-stats true s i g = rw g refl
  complete-stats false s i g = refl

  kept-pending :
      (b : Bool) (t : Ldst I E) (i : MemInst) (q : ℕ)
      → pending_of (if b then warp_inst_complete c t i else t) i q ≡ pending_of t i q
  kept-pending true t i q = refl
  kept-pending false t i q = refl

  kept-stats :
      (b : Bool) (t : Ldst I E) (i : MemInst) (before : MemStats)
      → t.stats ≡ before
      → (if b then warp_inst_complete c t i else t).stats
        ≡ (if b then completed_stats c i before else before)
  kept-stats true t i before h = ap (completed_stats c i) h
  kept-stats false t i before h = h

  write_next-AllPending :
      (s : Ldst I E) (i : MemInst) (n : ℕ)
      → Plain m i
      → AllPending s i i.out (suc n)
      → (r : Ldst I E) × (write_next m c s (some i) ≡ ok (false, r))
        × AllPending r i i.out n
        × (r.stats ≡ (if n == 0 then completed_stats c i s.stats else s.stats))
  unfolding write_next
  write_next-AllPending s i n p all =
      let s1 : Ldst I E = record s { outside = (m.collector_writeback s.outside i).1 } in
      let (t, e, (pending, stats)) =
        write_all-Written m c false s1 i i.out n p.no_copy p.not_shared p.apart all in
      (
        no_next m c (if n == 0 then warp_inst_complete c t i else t),
        simp (p.no_rfq, p.no_smemq, p.collected s.outside)
            (rw e (rw p.writes (rw (complete-stats (n == 0) t i p.no_copy) refl))),
        (λ q h. kept-pending (n == 0) t i q ∙ ground (arith, pending q, h, all q h)),
        kept-stats (n == 0) t i s.stats stats,
      )

  -- One response after the other.
  unfoldable pub responses : ℕ → Ldst I E → MemInst → Result (Ldst I E)
  responses zero s i = ok s
  responses (suc k) s i = write_next m c s (some i) >>= λ w. responses k w.1 i

  -- Before the last response the load is not complete.
  responses-waiting :
      (k n : ℕ) (s : Ldst I E) (i : MemInst)
      → Plain m i
      → AllPending s i i.out (k + suc n)
      → (r : Ldst I E) × (responses k s i ≡ ok r)
        × AllPending r i i.out (suc n)
        × (r.stats ≡ s.stats)
  unfolding responses
  responses-waiting zero n s i p all = (s, refl, (λ q h. all q h ∙ omega arith), refl)
  responses-waiting (suc k) n s i p all =
      let (t, e, pending, stats) =
        write_next-AllPending s i (k + suc n) p (λ q h. all q h ∙ omega arith) in
      let (r, e', pending', stats') = responses-waiting k n t i p pending in
      (r, rw e e', pending', stats' ∙ stats ∙ rw (later k n) refl)

  -- With the last response it is.
  responses_complete :
      (n : ℕ) (s : Ldst I E) (i : MemInst)
      → Plain m i
      → AllPending s i i.out (suc n)
      → (r : Ldst I E) × (responses (suc n) s i ≡ ok r)
        × AllPending r i i.out 0
        × (r.stats ≡ completed_stats c i s.stats)
  unfolding responses
  responses_complete zero s i p all =
      let (t, e, pending, stats) = write_next-AllPending s i 0 p all in
      (t, rw e refl, pending, stats)
  responses_complete (suc n) s i p all =
      let (t, e, pending, stats) = write_next-AllPending s i (suc n) p all in
      let (r, e', pending', stats') = responses_complete n t i p pending in
      (r, rw e e', pending', stats' ∙ ap (completed_stats c i) (stats ∙ rw (not_zero n) refl))

  issue-eq :
      (s : Ldst I E) (i : MemInst)
      → Plain m (dispatched i)
      → i.is_load ≡ true
      → issue s i ≡ record (add_pending s i i.out) { dispatch = some (dispatched i) }
  unfolding issue
  issue-eq s i p load = simp (load, p.not_shared, p.no_copy) refl

  issue-AllPending :
      (s : Ldst I E) (i : MemInst)
      → Plain m (dispatched i)
      → i.is_load ≡ true
      → AllPending s i i.out 0
      → length i.accesses < u32_mod
      → AllPending (issue s i) (dispatched i) i.out (length i.accesses)
  issue-AllPending s i p load all few q h =
      ap (λ (t : Ldst I E). pending_of t i q) (issue-eq s i p load)
      ∙ add_pending-AllPending s i i.out q p.apart all few
      ∙ rw h refl

  issue-stats :
      (s : Ldst I E) (i : MemInst)
      → Plain m (dispatched i)
      → i.is_load ≡ true
      → (issue s i).stats ≡ s.stats
  issue-stats s i p load =
      ap (λ (t : Ldst I E). t.stats) (issue-eq s i p load) ∙ add_pending-stats s i i.out

  -- A load that is neither shared nor asynchronous nor into a queue, that names some output
  -- register and none twice, that has n + 1 accesses and fewer than 2 ^ 32, and whose
  -- registers have no pending write, is issued; while the operand collector takes it, its
  -- first k responses, up to n of them, succeed and leave n + 1 - k writes pending for each
  -- output and nothing counted as complete, and all n + 1 of them succeed, leave none
  -- pending, and count the instruction as complete once.
  pub issue-responses :
      (n k : ℕ) (s : Ldst I E) (i : MemInst)
      → Plain m (dispatched i)
      → i.is_load ≡ true
      → AllPending s i i.out 0
      → length i.accesses ≡ suc n
      → suc n < u32_mod
      → k ≤ n
      → ((r : Ldst I E) × (responses k (issue s i) (dispatched i) ≡ ok r)
          × AllPending r i i.out (suc n - k)
          × (r.stats ≡ s.stats))
        × ((r : Ldst I E) × (responses (suc n) (issue s i) (dispatched i) ≡ ok r)
            × AllPending r i i.out 0
            × (r.stats ≡ completed_stats c (dispatched i) s.stats))
  issue-responses n k s i p load all count few le =
      let held : AllPending (issue s i) (dispatched i) i.out (suc n) =
        λ q h. issue-AllPending s i p load all (omega (arith, count, few)) q h ∙ count in
      let same = issue-stats s i p load in
      let (r, e, pending, stats) =
        responses-waiting k (n - k) (issue s i) (dispatched i) p
          (λ q h. held q h ∙ omega (arith, le)) in
      let (t, e', pending', stats') = responses_complete n (issue s i) (dispatched i) p held in
      (
        (r, e, (λ q h. pending q h ∙ omega (arith, le)), stats ∙ same),
        (t, e', pending', stats' ∙ ap (completed_stats c (dispatched i)) same),
      )
