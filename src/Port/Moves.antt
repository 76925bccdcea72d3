-- ===== src/Port/Moves.antt =====
-- One issue of an instruction on its queue: `wasp_rfq_prepare_issue`, then the execution, then
-- `wasp_rfq_after_func_exec` of shader.cc.
use dae_proj.Base.{ℕ, ◌+◌, ◌≡◌, ◌<◌, refl, ap, ◌∙◌, true, false, Option, some, ok, inc64, arith}
use dae_proj.Rfq.Keys.{Key}
use dae_proj.Rfq.{Rfq, full, head_ready, tail_token, store, with_pending}
use dae_proj.Rfq.Inv.{entry_at}
use dae_proj.Rfq.Ops.{IsCurrent, after_reserve, after_consume, after_reserve-IsValid}
use dae_proj.Rfq.Progress.{after_reserve-IsCurrent}
use dae_proj.Rfq.Table.{Table, find, put, AllAgree, Agrees}
use dae_proj.Port.{
  Side, Layout, QueueState, QueueInst, nonzero_or, token_from_inst, write_token_to_inst, queue_of,
  issue_queue, move_token, count_reservation, count_if,
}
use dae_proj.Port.Steps.{
  put-AllAgree, find-put_self, after_reserve-Agrees, after_consume-Agrees, with_pending-Agrees,
  key_of_token, after_load-eq, after_move-eq, prepare_load-eq, prepare_move-eq,
}

pub not_full : (q : Rfq) → full q ≡ false → q.occupancy < q.entries
not_full q h = ground arith

pub not_empty : (q : Rfq) → head_ready q ≡ true → 0 < q.occupancy
unfolding head_ready
not_empty q h = ground arith

-- What a completed issue leaves: every queue still agrees, and the queue of the key has gained or
-- lost one entry.
pub record Issued (entries payload width : ℕ) (t : Table) (key : Key) (q' : Rfq) : Type 0 where
  pub agree : AllAgree entries payload width t
  pub there : find t key ≡ some q'

module _ {entries payload width : ℕ} (side : Side) (layout : Layout) (st : QueueState)
    (inst : QueueInst) (n : ℕ) (key : Key) (q : Rfq) (t : Table) (on : side.enabled ≡ true)
    (found : queue_of side layout st.table inst.warp_id inst
      ≡ ok (record { key = key; queue = q; table = t }))
    (same : key_of_token inst key ≡ key) (agrees : Agrees entries payload width q)
    (all : AllAgree entries payload width t) where
  pub issue_load :
      inst.load ≡ true
      → full q ≡ false
      → (issued : Option QueueInst × QueueState) × (q' : Rfq) × (issue_queue side layout st n
            (some inst)
          ≡ ok issued)
        × Issued entries payload width issued.1.table key q'
        × (q'.occupancy ≡ q.occupancy + 1)
  unfolding issue_queue
  issue_load l room =
      let r = after_reserve q inst.active_mask 0 in
      let i : QueueInst = record (write_token_to_inst inst (tail_token q key)) {
        accessq_count = n;
      } in
      let c : IsCurrent r (token_from_inst i) =
        let c0 = after_reserve-IsCurrent q key inst.active_mask 0 agrees.valid room in
        record { valid = refl; inside = c0.inside; live = c0.live; same = c0.same } in
      let ra = after_reserve-Agrees q inst.active_mask 0 room agrees in
      let last = store r (token_from_inst i) (with_pending (entry_at r q.tail) n) in
      let done =
        after_load-eq side
          (record { table = put t key r; stats = count_reservation side st.stats r.occupancy }) i r
          on l (ap (find (put t key r)) same ∙ find-put_self t key r)
          (after_reserve-IsValid q inst.active_mask 0 agrees.valid room) c in
      (
        (
          some i,
          record {
            table = put (put t key r) (key_of_token inst key) last;
            stats = count_reservation side st.stats r.occupancy;
          },
        ),
        last,
        rw (prepare_load-eq side layout st inst key q t on found l room agrees.valid)
            (simp done refl),
        record {
          agree =
              put-AllAgree (put t key r) (key_of_token inst key) last (put-AllAgree t key r all ra)
                (with_pending-Agrees r (token_from_inst i) n c ra);
          there =
              ap (λ (k : Key). find (put (put t key r) k last) key) same
              ∙ find-put_self (put t key r) key last;
        },
        omega (arith, agrees.valid.within, agrees.valid.narrow, not_full q room),
      )

  pub issue_move :
      inst.load ≡ false
      → inst.move ≡ true
      → head_ready q ≡ true
      → find t key ≡ some q
      → (issued : Option QueueInst × QueueState) × (q' : Rfq) × (issue_queue side layout st n
            (some inst)
          ≡ ok issued)
        × Issued entries payload width issued.1.table key q'
        × (q.occupancy ≡ q'.occupancy + 1)
  unfolding issue_queue
  issue_move l m r there =
      let pos = not_empty q r in
      let i : QueueInst =
        record (write_token_to_inst inst
          (move_token key (nonzero_or inst.payload_words_per_lane 1))) { accessq_count = n } in
      let counted = record (st.stats) {
        consumer_issues = count_if side.staged st.stats.consumer_issues;
      } in
      let done =
        after_move-eq side (record { table = t; stats = counted }) i q on l m
          (ap (find t) same ∙ there) agrees.valid r in
      (
        (
          some i,
          record {
            table = put t (key_of_token inst key) (after_consume q);
            stats = record counted { consumes = inc64 counted.consumes };
          },
        ),
        after_consume q,
        rw (prepare_move-eq side layout st inst key q t on found l m) (simp done refl),
        record {
          agree =
              put-AllAgree t (key_of_token inst key) (after_consume q) all
                (after_consume-Agrees q pos agrees);
          there =
              ap (λ (k : Key). find (put t k (after_consume q)) key) same
              ∙ find-put_self t key (after_consume q);
        },
        omega (arith, pos),
      )
