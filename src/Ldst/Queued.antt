-- ===== src/Ldst/Queued.antt =====
-- A load into the register-file queue that waits for its responses in the load and store unit.
use dae_proj.Base.{
  ℕ, zero, suc, ◌≡◌, refl, sym, ap, ◌∙◌, subst, Bool, true, false, some, List, [], ◌∷◌, ◌++◌,
  replicate, if◌then◌else◌, Result, ok, ◌>>=◌, bind-ok, ok-pair, inc64,
}
use dae_proj.Ldst.{
  MemInst, Memory, MemConfig, Ldst, MemStats, completed_stats, mark_rfq, complete_if,
}
use dae_proj.Ldst.Responses.{responses}
use dae_proj.Ldst.Writeback.{write_next, no_next}
use dae_proj.Port.{Side, QueueState, QueueInst, token_from_inst, mark_mem_response}
use dae_proj.Rfq.{Rfq, store, set_pending_responses, mark_response}
use dae_proj.Rfq.Inv.{IsValid, entry_at}
use dae_proj.Rfq.Ops.{IsCurrent}
use dae_proj.Rfq.Progress.{mark_all, mark_all-zero, mark_all-suc, settled_entry, set-mark_all_last}
use dae_proj.Rfq.Table.{find, put, find-put}
use dae_proj.Rfq.Keys.{Key, same_key_refl}

-- The instruction is complete as often as a response says that it was the last.
abbrev pub completed_by : MemConfig → MemInst → List Bool → MemStats → MemStats
completed_by c i [] s = s
completed_by c i (b ∷ bs) s = completed_by c i bs (if b then completed_stats c i s else s)

completed_by-last :
    (c : MemConfig) (i : MemInst) (n : ℕ) (s : MemStats)
    → completed_by c i (replicate n false ++ (true ∷ [])) s ≡ completed_stats c i s
completed_by-last c i zero s = refl
completed_by-last c i (suc n) s = completed_by-last c i n s

abbrev pub key_of : MemInst → Key
key_of i = (token_from_inst i.rfq).key

-- The state after a response to the queue of an instruction.
abbrev filled_once : QueueState → QueueInst → Rfq → QueueState
filled_once st inst q = record {
  table = put st.table (token_from_inst inst).key q;
  stats = record (st.stats) { memory_fills = inc64 st.stats.memory_fills };
}

mark_mem_response-eq :
    (side : Side) (st : QueueState) (inst : QueueInst) (q : Rfq) (one : Bool × Rfq)
    → side.enabled ≡ true
    → inst.load ≡ true
    → find st.table (token_from_inst inst).key ≡ some q
    → mark_response q (token_from_inst inst) ≡ ok one
    → mark_mem_response side st inst ≡ ok (one.0, filled_once st inst one.1)
unfolding mark_mem_response
mark_mem_response-eq side st inst q one on load found marked = simp (on, load, found, marked) refl

module _ {I E : Type 0} (m : Memory E) (c : MemConfig) where
  -- The unit after one response.
  abbrev after_one : Ldst I E → MemInst → Bool × Rfq → Ldst I E
  after_one s i one =
      no_next m c (complete_if c i (one.0, record s { rfq = filled_once s.rfq i.rfq one.1 }))

  write_next-eq :
      (s : Ldst I E) (i : MemInst) (q : Rfq) (one : Bool × Rfq)
      → c.rfq.enabled ≡ true
      → i.rfq.load ≡ true
      → find s.rfq.table (key_of i) ≡ some q
      → mark_response q (token_from_inst i.rfq) ≡ ok one
      → write_next m c s (some i) ≡ ok (true, after_one s i one)
  unfolding write_next mark_rfq
  write_next-eq s i q one on load found marked =
      simp (load, mark_mem_response-eq c.rfq s.rfq i.rfq q one on load found marked) refl

  after_one-parts :
      (s : Ldst I E) (i : MemInst) (one : Bool × Rfq)
      → ((after_one s i one).rfq.table ≡ put s.rfq.table (key_of i) one.1)
        × ((after_one s i one).stats ≡ (if one.0 then completed_stats c i s.stats else s.stats))
        × ((after_one s i one).pending_writes ≡ s.pending_writes)
  after_one-parts s i (true, q) = (refl, refl, refl)
  after_one-parts s i (false, q) = (refl, refl, refl)

  -- The unit does to the queue what `mark_all` says.
  responses-mark_all :
      (n : ℕ) (s : Ldst I E) (i : MemInst) (q q' : Rfq) (lasts : List Bool)
      → c.rfq.enabled ≡ true
      → i.rfq.load ≡ true
      → find s.rfq.table (key_of i) ≡ some q
      → mark_all n q (token_from_inst i.rfq) ≡ ok (lasts, q')
      → (r : Ldst I E) × (responses m c n s i ≡ ok r)
        × (find r.rfq.table (key_of i) ≡ some q')
        × (r.stats ≡ completed_by c i lasts s.stats)
        × (r.pending_writes ≡ s.pending_writes)
  unfolding responses
  responses-mark_all zero s i q q' lasts on load found h =
      let (e, f) = ok-pair [] lasts q q' (sym (mark_all-zero q (token_from_inst i.rfq)) ∙ h) in
      (s, refl, found ∙ ap some f, rw⁻¹ e refl, refl)
  responses-mark_all (suc n) s i q q' lasts on load found h =
      let t = token_from_inst i.rfq in
      let (one, e1, h1) =
        bind-ok (mark_response q t)
          (λ one. mark_all n one.1 t >>= λ more. ok (one.0 ∷ more.0, more.1)) (lasts, q')
          (sym (mark_all-suc n q t) ∙ h) in
      let (more, e2, h2) =
        bind-ok (mark_all n one.1 t) (λ more. ok (one.0 ∷ more.0, more.1)) (lasts, q') h1 in
      let (e, f) = ok-pair (one.0 ∷ more.0) lasts more.1 q' h2 in
      let (table, stats, pending) = after_one-parts s i one in
      let found' : find (after_one s i one).rfq.table (key_of i) ≡ some one.1 =
        rw table
          (find-put s.rfq.table (key_of i) (key_of i) one.1 ∙ rw (same_key_refl (key_of i)) refl) in
      let (r, g, kept, counted, same) =
        responses-mark_all n (after_one s i one) i one.1 more.1 more.0 on load found' e2 in
      (
        r,
        rw (write_next-eq s i q one on load found e1) g,
        kept ∙ ap some f,
        counted
            ∙ ap (completed_by c i more.0) stats
            ∙ ap (λ (bs : List Bool). completed_by c i bs s.stats) e,
        same ∙ pending,
      )

  -- When the register-file queues are on and a current entry of a valid queue is set to wait
  -- for n + 1 responses, then n + 1 writebacks of its load succeed and settle the entry: it
  -- is ready with no response outstanding, the instruction is counted as complete exactly
  -- once, and no pending write of a register changes.
  pub responses-settled :
      (n : ℕ) (s : Ldst I E) (i : MemInst) (q waiting : Rfq)
      → c.rfq.enabled ≡ true
      → i.rfq.load ≡ true
      → IsValid q
      → IsCurrent q (token_from_inst i.rfq)
      → set_pending_responses q (token_from_inst i.rfq) (suc n) ≡ ok waiting
      → find s.rfq.table (key_of i) ≡ some waiting
      → (r : Ldst I E) × (responses m c (suc n) s i ≡ ok r)
        × (find r.rfq.table (key_of i)
            ≡ some (
                store q
                  (token_from_inst i.rfq)
                  (settled_entry (entry_at q (token_from_inst i.rfq).slot_index))))
        × (r.stats ≡ completed_stats c i s.stats)
        × (r.pending_writes ≡ s.pending_writes)
  responses-settled n s i q waiting on load valid current set_ found =
      let t = token_from_inst i.rfq in
      let all = set-mark_all_last n q t valid current in
      let marked =
        subst
          (λ (x : Result Rfq).
            (x >>= λ r. mark_all (suc n) r t)
            ≡ ok (
              replicate n false ++ (true ∷ []),
              store q t (settled_entry (entry_at q t.slot_index)),
            ))
          set_ all in
      let (r, e, kept, stats, pending) =
        responses-mark_all (suc n) s i waiting (store q t (settled_entry (entry_at q t.slot_index)))
          (replicate n false ++ (true ∷ [])) on load found marked in
      (r, e, kept, stats ∙ completed_by-last c i n s.stats, pending)
