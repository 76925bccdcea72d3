-- ===== src/Port/Issue.antt =====
-- `wasp_rfq_can_issue` of shader.cc guards `issue_warp`: once it says yes, no assertion of the
-- queue fires.
use dae_proj.Base.{
  ℕ, ◌+◌, ◌≡◌, ◌<◌, ◌⊎◌, refl, sym, subst, Bool, true, false, Option, some, inl, inr, if◌then◌else◌,
  ok, arith, u32_mod, Bool-cases,
}
use dae_proj.Rfq.Keys.{Key}
use dae_proj.Rfq.{Rfq, full, head_ready}
use dae_proj.Rfq.Table.{Table, find, put, AllAgree, Agrees, get_or_create_lem, get_or_create-there}
use dae_proj.Port.{
  Side, Layout, QueueState, QueueInst, uses_queue, nonzero_or, key_for_warp, queue_of, verdict,
  is_issuable, can_issue, issue_queue,
}
use dae_proj.Port.Steps.{key_for_warp-queue_id, put-AllAgree, find-put_self, key_of_token}
use dae_proj.Port.Moves.{Issued, issue_load, issue_move}

-- The mechanism is on, and its queues can be made.
pub record IsOn (side : Side) : Type 0 where
  pub enabled : side.enabled ≡ true
  pub deep : 0 < side.queue_entries
  pub narrow : side.queue_entries < u32_mod
  pub wide : 0 < side.warp_size

abbrev pub payload_of : QueueInst → ℕ
payload_of inst = nonzero_or inst.payload_words_per_lane 1

-- Every queue of the table has the shape that the configuration and the instruction give.
abbrev pub Fitting : Side → QueueInst → Table → Type 0
Fitting side inst t = AllAgree side.queue_entries (payload_of inst) side.warp_size t

payload_of-pos : (inst : QueueInst) → 0 < payload_of inst
payload_of-pos inst = ground arith

queue_of-eq :
    (side : Side) (layout : Layout) (t : Table) (inst : QueueInst) (key : Key)
    → IsOn side
    → key_for_warp side layout inst.warp_id inst.queue_id ≡ ok key
    → Fitting side inst t
    → (q : Rfq) × (queue_of side layout t inst.warp_id inst
        ≡ ok (record { key = key; queue = q; table = put t key q }))
      × Agrees side.queue_entries (payload_of inst) side.warp_size q
      × ((find t key ≡ some q) ⊎ (q.occupancy ≡ 0))
unfolding queue_of
queue_of-eq side layout t inst key on k all =
    let (q, made, a, was) =
      get_or_create_lem t key side.queue_entries (payload_of inst) side.warp_size on.deep on.narrow
        (payload_of-pos inst) on.wide all in
    (q, rw (k, made) refl, a, elim was [ inl h ↦ inl h | inr h ↦ inr h.1 ])

verdict_load : (q : Rfq) → is_issuable (verdict true q) ≡ true → full q ≡ false
unfolding verdict
verdict_load q h = ground arith

verdict_move : (q : Rfq) → is_issuable (verdict false q) ≡ true → head_ready q ≡ true
unfolding verdict
verdict_move q h = ground arith

can_issue-inversion :
    (side : Side) (layout : Layout) (st st1 : QueueState) (inst : QueueInst) (count : Bool)
    (key : Key) (q : Rfq) (t : Table)
    → side.enabled ≡ true
    → uses_queue inst ≡ true
    → queue_of side layout st.table inst.warp_id inst
      ≡ ok (record { key = key; queue = q; table = t })
    → can_issue side layout st inst.warp_id (some inst) count ≡ ok (true, st1)
    → (is_issuable (verdict inst.load q) ≡ true) × (st1.table ≡ t)
unfolding can_issue
can_issue-inversion side layout st st1 inst count key q t on uses found h = ground arith

queue_of-there :
    (side : Side) (layout : Layout) (t : Table) (inst : QueueInst) (key : Key) (q : Rfq)
    → key_for_warp side layout inst.warp_id inst.queue_id ≡ ok key
    → find t key ≡ some q
    → Agrees side.queue_entries (payload_of inst) side.warp_size q
    → queue_of side layout t inst.warp_id inst
      ≡ ok (record { key = key; queue = q; table = put t key q })
unfolding queue_of
queue_of-there side layout t inst key q k there a =
    rw (k, get_or_create-there t key side.queue_entries (payload_of inst) side.warp_size q there a)
      refl

key_of_token-eq :
    (side : Side) (layout : Layout) (inst : QueueInst) (key : Key)
    → key_for_warp side layout inst.warp_id inst.queue_id ≡ ok key
    → key_of_token inst key ≡ key
key_of_token-eq side layout inst key k =
    ground (arith, key_for_warp-queue_id side layout inst.warp_id inst.queue_id key k)

-- An issue that went through: the instruction and the state that it leaves, and the queue of its
-- key before and after. A load adds an entry, a move takes one.
pub record Went (side : Side) (layout : Layout) (st : QueueState) (inst : QueueInst) (n : ℕ)
    (key : Key) (before : Rfq) : Type 0 where
  pub issued : Option QueueInst × QueueState
  pub after : Rfq
  pub runs : issue_queue side layout st n (some inst) ≡ ok issued
  pub was : find st.table key ≡ some before
  pub leaves : Issued side.queue_entries (payload_of inst) side.warp_size issued.1.table key after
  pub moves :
      if inst.load
      then after.occupancy ≡ before.occupancy + 1
      else before.occupancy ≡ after.occupancy + 1

Went-load :
    (side : Side) (layout : Layout) (st : QueueState) (inst : QueueInst) (n : ℕ) (key : Key)
    (q : Rfq)
    → IsOn side
    → key_for_warp side layout inst.warp_id inst.queue_id ≡ ok key
    → Fitting side inst st.table
    → find st.table key ≡ some q
    → inst.load ≡ true
    → full q ≡ false
    → Went side layout st inst n key q
Went-load side layout st inst n key q on k all there l room =
    let a = all key q there in
    let (issued, q', runs, leaves, occ) =
      issue_load side layout st inst n key q (put st.table key q) on.enabled
        (queue_of-there side layout st.table inst key q k there a)
        (key_of_token-eq side layout inst key k) a (put-AllAgree st.table key q all a) l room in
    record {
      issued = issued;
      after = q';
      runs = runs;
      was = there;
      leaves = leaves;
      moves = simp l occ;
    }

Went-move :
    (side : Side) (layout : Layout) (st : QueueState) (inst : QueueInst) (n : ℕ) (key : Key)
    (q : Rfq)
    → IsOn side
    → key_for_warp side layout inst.warp_id inst.queue_id ≡ ok key
    → Fitting side inst st.table
    → find st.table key ≡ some q
    → inst.load ≡ false
    → inst.move ≡ true
    → head_ready q ≡ true
    → Went side layout st inst n key q
Went-move side layout st inst n key q on k all there l m r =
    let a = all key q there in
    let (issued, q', runs, leaves, occ) =
      issue_move side layout st inst n key q (put st.table key q) on.enabled
        (queue_of-there side layout st.table inst key q k there a)
        (key_of_token-eq side layout inst key k) a (put-AllAgree st.table key q all a) l m r
        (find-put_self st.table key q) in
    record {
      issued = issued;
      after = q';
      runs = runs;
      was = there;
      leaves = leaves;
      moves = simp l occ;
    }

-- When the mechanism is on, every queue of the table has the configured shape and can_issue
-- says yes for an instruction that uses a queue, the instruction is issued without a failed
-- assertion, whatever number of memory accesses it makes: the queue of its key gains one entry
-- for a load and loses one for a move, and every queue is still valid and of the configured
-- shape.
pub can_issue-issue_queue :
    (side : Side) (layout : Layout) (st st1 : QueueState) (inst : QueueInst) (count : Bool)
    (key : Key) (n : ℕ)
    → IsOn side
    → uses_queue inst ≡ true
    → key_for_warp side layout inst.warp_id inst.queue_id ≡ ok key
    → Fitting side inst st.table
    → can_issue side layout st inst.warp_id (some inst) count ≡ ok (true, st1)
    → (q : Rfq) × Went side layout st1 inst n key q
can_issue-issue_queue side layout st st1 inst count key n on uses k all h =
    let (q, found, a, _) = queue_of-eq side layout st.table inst key on k all in
    let (v, at) =
      can_issue-inversion side layout st st1 inst count key q (put st.table key q) on.enabled uses
        found h in
    let all1 : Fitting side inst st1.table =
      subst (Fitting side inst) (sym at) (put-AllAgree st.table key q all a) in
    let there : find st1.table key ≡ some q = rw at (find-put_self st.table key q) in
    elim (Bool-cases inst.load) [
      | inl l ↦ (
        q,
        Went-load side layout st1 inst n key q on k all1 there l
            (verdict_load q (subst (λ (b : Bool). is_issuable (verdict b q) ≡ true) l v)),
      )
      | inr l ↦ (
        q,
        Went-move side layout st1 inst n key q on k all1 there l (ground arith)
            (verdict_move q (subst (λ (b : Bool). is_issuable (verdict b q) ≡ true) l v)),
      )
    ]
