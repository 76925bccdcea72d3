-- ===== src/Port/Steps.antt =====
-- The queue methods of shader.cc, one at a time: what each does to a table whose queues agree in
-- shape.
use dae_proj.Base.{
  ℕ, ◌≡◌, ◌<◌, refl, subst, ◌∙◌, true, false, some, inl, inr, ok, inc64, arith, Bool-cases,
}
use dae_proj.Rfq.Keys.{Key, same_key, same_key_refl}
use dae_proj.Rfq.{
  Rfq, Token, full, head_ready, set_pending_responses, tail_token, store, with_pending,
}
use dae_proj.Rfq.Inv.{IsValid, entry_at}
use dae_proj.Rfq.Entries.{Sound-with_pending}
use dae_proj.Rfq.Ops.{
  IsCurrent, after_reserve, after_consume, reserve_tail-eq, consume_head-eq, after_reserve-IsValid,
  after_consume-IsValid, store-IsValid, entry_for_token-eq,
}
use dae_proj.Rfq.Table.{Table, find, put, find-put, AllAgree, Agrees}
use dae_proj.Port.{
  Side, Layout, QueueState, QueueInst, nonzero_or, key_for_warp, token_from_inst,
  write_token_to_inst, queue_of, prepare_issue, after_func_exec, move_token, count_reservation,
  count_if,
}

-- Keys that the instructions of a queue carry: the stages are always 0 and 1.
pub key_for_warp-queue_id :
    (side : Side) (layout : Layout) (warp_id queue_id : ℕ) (key : Key)
    → key_for_warp side layout warp_id queue_id ≡ ok key
    → (key.src_stage_id ≡ 0) × (key.dst_stage_id ≡ 1) × (key.queue_id ≡ queue_id)
unfolding key_for_warp
key_for_warp-queue_id side layout warp_id queue_id key h = ground arith

-- A write of an agreeing queue keeps all queues agreeing.
pub put-AllAgree :
    {entries payload width : ℕ} (t : Table) (key : Key) (q : Rfq)
    → AllAgree entries payload width t
    → Agrees entries payload width q
    → AllAgree entries payload width (put t key q)
put-AllAgree {entries} {payload} {width} t key q all a k r h = elim (Bool-cases (same_key key k)) [
  | inl e ↦ subst (Agrees entries payload width) (ground (arith, find-put t key k q)) a
  | inr e ↦ all k r (ground (arith, find-put t key k q))
]

pub find-put_self : (t : Table) (k : Key) (q : Rfq) → find (put t k q) k ≡ some q
find-put_self t k q = find-put t k k q ∙ rw (same_key_refl k) refl

pub after_reserve-Agrees :
    {entries payload width : ℕ} (q : Rfq) (mask pending : ℕ)
    → full q ≡ false
    → Agrees entries payload width q
    → Agrees entries payload width (after_reserve q mask pending)
after_reserve-Agrees q mask pending h a = record {
  valid = after_reserve-IsValid q mask pending a.valid h;
  depth = a.depth;
  words = a.words;
  lanes = a.lanes;
}

pub after_consume-Agrees :
    {entries payload width : ℕ} (q : Rfq)
    → 0 < q.occupancy
    → Agrees entries payload width q
    → Agrees entries payload width (after_consume q)
after_consume-Agrees q h a = record {
  valid = after_consume-IsValid q a.valid h;
  depth = a.depth;
  words = a.words;
  lanes = a.lanes;
}

pub with_pending-Agrees :
    {entries payload width : ℕ} (q : Rfq) (t : Token) (n : ℕ)
    → IsCurrent q t
    → Agrees entries payload width q
    → Agrees entries payload width (store q t (with_pending (entry_at q t.slot_index) n))
with_pending-Agrees q t n c a = record {
  valid =
      store-IsValid q t _ a.valid c.inside
        (Sound-with_pending n c.live (a.valid.holds t.slot_index c.inside));
  depth = a.depth;
  words = a.words;
  lanes = a.lanes;
}

pub set_pending_responses-eq :
    (q : Rfq) (t : Token) (n : ℕ)
    → IsValid q
    → IsCurrent q t
    → set_pending_responses q t n ≡ ok (store q t (with_pending (entry_at q t.slot_index) n))
unfolding set_pending_responses
set_pending_responses-eq q t n v c = ground (arith, entry_for_token-eq q t v c)

abbrev pub key_of_token : QueueInst → Key → Key
key_of_token inst key = record {
  cta_hw_id = key.cta_hw_id;
  original_warp_id = key.original_warp_id;
  src_stage_id = 0;
  dst_stage_id = 1;
  queue_id = inst.queue_id;
}

pub after_load-eq :
    (side : Side) (st : QueueState) (inst : QueueInst) (q : Rfq)
    → side.enabled ≡ true
    → inst.load ≡ true
    → find st.table (token_from_inst inst).key ≡ some q
    → IsValid q
    → IsCurrent q (token_from_inst inst)
    → after_func_exec side st (some inst)
      ≡ ok (record st {
        table = put st.table (token_from_inst inst).key (
            store q
              (token_from_inst inst)
              (with_pending (entry_at q inst.token_slot_index) inst.accessq_count));
      })
unfolding after_func_exec
after_load-eq side st inst q on l there v c =
    rw (on, l, there)
      (rw (set_pending_responses-eq q (token_from_inst inst) inst.accessq_count v c) refl)

pub after_move-eq :
    (side : Side) (st : QueueState) (inst : QueueInst) (q : Rfq)
    → side.enabled ≡ true
    → inst.load ≡ false
    → inst.move ≡ true
    → find st.table (token_from_inst inst).key ≡ some q
    → IsValid q
    → head_ready q ≡ true
    → after_func_exec side st (some inst)
      ≡ ok (record {
        table = put st.table (token_from_inst inst).key (after_consume q);
        stats = record (st.stats) { consumes = inc64 st.stats.consumes };
      })
unfolding after_func_exec
after_move-eq side st inst q on l m there v r =
    rw (on, l, m, there, r) (rw (consume_head-eq q (token_from_inst inst).key v) (rw r refl))

module _ (side : Side) (layout : Layout) (st : QueueState) (inst : QueueInst) (key : Key) (q : Rfq)
    (t : Table) (on : side.enabled ≡ true)
    (found : queue_of side layout st.table inst.warp_id inst
      ≡ ok (record { key = key; queue = q; table = t })) where
  pub prepare_load-eq :
      inst.load ≡ true
      → full q ≡ false
      → IsValid q
      → prepare_issue side layout st (some inst)
        ≡ ok (
          some (write_token_to_inst inst (tail_token q key)),
          record {
            table = put t key (after_reserve q inst.active_mask 0);
            stats = count_reservation side st.stats (after_reserve q inst.active_mask 0).occupancy;
          },
        )
  unfolding prepare_issue
  prepare_load-eq l room v =
      simp (on, l, found, room, reserve_tail-eq q key inst.active_mask 0 v room)

  pub prepare_move-eq :
      inst.load ≡ false
      → inst.move ≡ true
      → prepare_issue side layout st (some inst)
        ≡ ok (
          some (
              write_token_to_inst inst (move_token key (nonzero_or inst.payload_words_per_lane 1))),
          record {
            table = t;
            stats = record (st.stats) {
              consumer_issues = count_if side.staged st.stats.consumer_issues;
            };
          },
        )
  unfolding prepare_issue
  prepare_move-eq l m = simp (on, l, m, found)
