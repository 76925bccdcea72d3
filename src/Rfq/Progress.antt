-- ===== src/Rfq/Progress.antt =====
-- When the calls of wasp-rfq.cc succeed on a valid queue, and when the responses of an entry are
-- complete.
use dae_proj.Base.{
  ℕ, zero, suc, ◌+◌, ◌<◌, ◌≡◌, refl, ap, ◌∙◌, Bool, true, false, List, [], ◌∷◌, ◌++◌, length,
  Result, ok, fault, Fault, if◌then◌else◌, arith, ◌>>=◌, Bool-cases, inl, inr, replicate,
  get_or-set_self, get_elem?-set_self, set-set,
}
use dae_proj.Rfq.Keys.{Key}
use dae_proj.Rfq.{
  Rfq, Entry, Token, ready, reserved, fresh_entry, full, reserve_tail, reserved_entry,
  set_pending_responses, mark_response, consume_head, head_ready, released, store, with_pending,
  tail_token,
}
use dae_proj.Rfq.Inv.{IsValid, entry_at}
use dae_proj.Rfq.Ops.{
  after_reserve, after_consume, reserve_tail-eq, consume_head-eq, entry_for_token-eq,
  after_reserve-IsValid, after_consume-IsValid, IsCurrent, get_elem?-entry_at, tail-idle,
}
use dae_proj.Rfq.Fifo.{contents, contents-after_reserve, contents-after_consume}

pub after_reserve-IsCurrent :
    (q : Rfq) (key : Key) (mask pending : ℕ)
    → IsValid q
    → full q ≡ false
    → IsCurrent (after_reserve q mask pending) (tail_token q key)
after_reserve-IsCurrent q key mask pending v r =
    let t = tail-idle q v r in
    let room : q.occupancy < q.entries = ground arith in
    record {
      valid = refl;
      inside = t.0;
      live = rw t.2 (omega arith);
      same =
          ap (λ (e : Entry). e.sequence)
            (get_or-set_self q.storage q.tail _ fresh_entry (omega (arith, v.sized, t.0)));
    }

reserve_tail-full :
    (q : Rfq) (key : Key) (mask pending : ℕ)
    → full q ≡ true
    → reserve_tail q key mask pending ≡ fault Fault.assertion
unfolding reserve_tail
reserve_tail-full q key mask pending f = ground arith

-- On a valid queue reserve_tail fails an assertion exactly when the queue is full, and
-- otherwise returns the token of the tail and the queue with the new entry there.
pub reserve_tail_total :
    (q : Rfq) (key : Key) (mask pending : ℕ)
    → IsValid q
    → reserve_tail q key mask pending ≡ (
        if full q
        then fault Fault.assertion
        else ok (tail_token q key, after_reserve q mask pending))
reserve_tail_total q key mask pending v = elim (Bool-cases (full q)) [
  | inl f ↦ ground (arith, reserve_tail-full q key mask pending f)
  | inr f ↦ ground (arith, reserve_tail-eq q key mask pending v f)
]

-- Reserving in a valid queue that is not full returns a token that is current, puts the new
-- entry behind the others, and leaves a valid queue.
pub reserve_tail_appends :
    (q : Rfq) (key : Key) (mask pending : ℕ)
    → IsValid q
    → full q ≡ false
    → (q' : Rfq) × (reserve_tail q key mask pending ≡ ok (tail_token q key, q'))
      × IsValid q'
      × IsCurrent q' (tail_token q key)
      × (contents q' ≡ contents q ++ (reserved_entry q (entry_at q q.tail) mask pending ∷ []))
reserve_tail_appends q key mask pending v r = (
  after_reserve q mask pending,
  reserve_tail-eq q key mask pending v r,
  after_reserve-IsValid q mask pending v r,
  after_reserve-IsCurrent q key mask pending v r,
  contents-after_reserve q mask pending v r,
)

-- Consuming the ready head of a valid queue succeeds, takes the oldest entry, which is ready
-- with no response outstanding, and leaves a valid queue of the other entries in their order.
pub consume_head_takes :
    (q : Rfq) (key : Key)
    → IsValid q
    → head_ready q ≡ true
    → (e : Entry) × (q' : Rfq) × (consume_head q key ≡ ok q')
      × IsValid q'
      × (contents q ≡ e ∷ contents q')
      × (e.state ≡ ready)
      × (e.pending_responses ≡ 0)
unfolding head_ready
consume_head_takes q key v r =
    let pos : 0 < q.occupancy = ground arith in
    let e = get_elem?-entry_at q q.head v v.head_in in
    let is : (entry_at q q.head).state ≡ ready = ground (arith, e) in
    (
      entry_at q q.head,
      after_consume q,
      consume_head-eq q key v ∙ rw r refl,
      after_consume-IsValid q v pos,
      contents-after_consume q v pos,
      is,
      ((v.holds q.head v.head_in).live (ground arith)).settled is,
    )

-- `n` responses to one token, one after another, with what each call returns.
pub mark_all : ℕ → Rfq → Token → Result (List Bool × Rfq)
mark_all zero q t = ok ([], q)
mark_all (suc n) q t =
    mark_response q t >>= λ one. mark_all n one.1 t >>= λ more. ok (one.0 ∷ more.0, more.1)

pub mark_all-zero : (q : Rfq) (t : Token) → mark_all 0 q t ≡ ok ([], q)
unfolding mark_all
mark_all-zero q t = refl

pub mark_all-suc :
    (n : ℕ) (q : Rfq) (t : Token)
    → mark_all (suc n) q t
      ≡ (mark_response q t >>= λ one. mark_all n one.1 t >>= λ more. ok (one.0 ∷ more.0, more.1))
unfolding mark_all
mark_all-suc n q t = refl

abbrev pub waiting_for : Entry → ℕ → Entry
waiting_for e n = record e { pending_responses = n; state = reserved }

abbrev pub settled_entry : Entry → Entry
settled_entry e = record e { pending_responses = 0; state = ready }

module _ (q : Rfq) (t : Token) (e : Entry) (valid : t.valid ≡ true)
    (inside : t.slot_index < q.entries) (there : t.slot_index < length q.storage)
    (same : e.sequence ≡ t.sequence) where
  mark_response-last :
      mark_response (store q t (waiting_for e 1)) t ≡ ok (true, store q t (settled_entry e))
  unfolding mark_response
  mark_response-last = ground (
    arith,
    get_elem?-set_self q.storage t.slot_index (waiting_for e 1) there,
    set-set q.storage t.slot_index (waiting_for e 1) (settled_entry e),
  )

  mark_response-more :
      (n : ℕ)
      → mark_response (store q t (waiting_for e (suc (suc n)))) t
        ≡ ok (false, store q t (waiting_for e (suc n)))
  unfolding mark_response
  mark_response-more n = ground (
    arith,
    get_elem?-set_self q.storage t.slot_index (waiting_for e (suc (suc n))) there,
    set-set q.storage t.slot_index (waiting_for e (suc (suc n))) (waiting_for e (suc n)),
  )

  mark_all-waiting :
      (n : ℕ)
      → mark_all (suc n) (store q t (waiting_for e (suc n))) t
        ≡ ok (replicate n false ++ (true ∷ []), store q t (settled_entry e))
  mark_all-waiting zero = mark_all-suc 0 _ t ∙ rw mark_response-last (rw mark_all-zero refl)
  mark_all-waiting (suc n) =
      mark_all-suc (suc n) _ t ∙ rw (mark_response-more n) (rw (mark_all-waiting n) refl)

pub set_pending_responses-suc :
    (n : ℕ) (q : Rfq) (t : Token)
    → IsValid q
    → IsCurrent q t
    → set_pending_responses q t (suc n)
      ≡ ok (store q t (waiting_for (entry_at q t.slot_index) (suc n)))
unfolding set_pending_responses
set_pending_responses-suc n q t v c = ground (arith, entry_for_token-eq q t v c)

-- Responses that are not the last leave the entry waiting for the others.
mark_all-early :
    (k m : ℕ) (q : Rfq) (t : Token) (e : Entry)
    → t.valid ≡ true
    → t.slot_index < q.entries
    → t.slot_index < length q.storage
    → e.sequence ≡ t.sequence
    → mark_all k (store q t (waiting_for e (k + suc m))) t
      ≡ ok (replicate k false, store q t (waiting_for e (suc m)))
mark_all-early zero m q t e valid inside there same =
    let at : 0 + suc m ≡ suc m = omega arith in rw at (mark_all-zero _ t)
mark_all-early (suc k) m q t e valid inside there same =
    let one : suc k + suc m ≡ suc (suc (k + m)) = omega arith in
    let more : suc (k + m) ≡ k + suc m = omega arith in
    rw one (
      mark_all-suc k _ t
      ∙ rw (mark_response-more q t e valid inside there same (k + m))
          (rw more (rw (mark_all-early k m q t e valid inside there same) refl)))

pub set-mark_all_last :
    (n : ℕ) (q : Rfq) (t : Token)
    → IsValid q
    → IsCurrent q t
    → (set_pending_responses q t (suc n) >>= λ r. mark_all (suc n) r t)
      ≡ ok (replicate n false ++ (true ∷ []), store q t (settled_entry (entry_at q t.slot_index)))
set-mark_all_last n q t v c = rw (set_pending_responses-suc n q t v c) (
    mark_all-waiting q t (entry_at q t.slot_index) c.valid c.inside
      (omega (arith, v.sized, c.inside)) c.same n)

-- On a valid queue and a current token, set an entry to wait for k + m + 1 responses. The first
-- k calls of mark_response each return false and leave the entry reserved, waiting for the
-- m + 1 responses that are out; after all k + m + 1 calls, of which the last alone returned
-- true, the entry is ready with no response outstanding. Nothing else of the queue changes.
pub set-mark_all :
    (k m : ℕ) (q : Rfq) (t : Token)
    → IsValid q
    → IsCurrent q t
    → ((set_pending_responses q t (suc (k + m)) >>= λ r. mark_all k r t)
        ≡ ok (replicate k false, store q t (waiting_for (entry_at q t.slot_index) (suc m))))
      × ((set_pending_responses q t (suc (k + m)) >>= λ r. mark_all (suc (k + m)) r t)
          ≡ ok (
            replicate (k + m) false ++ (true ∷ []),
            store q t (settled_entry (entry_at q t.slot_index)),
          ))
set-mark_all k m q t v c =
    let at : suc (k + m) ≡ k + suc m = omega arith in
    (
      rw (set_pending_responses-suc (k + m) q t v c) (
          rw at (
            mark_all-early k m q t (entry_at q t.slot_index) c.valid c.inside
              (omega (arith, v.sized, c.inside)) c.same)),
      set-mark_all_last (k + m) q t v c,
    )

after_consume-stale :
    (n : ℕ) (q : Rfq) (t : Token)
    → IsValid q
    → IsCurrent q t
    → t.slot_index ≡ q.head
    → (mark_response (after_consume q) t ≡ fault Fault.assertion)
      × (set_pending_responses (after_consume q) t n
          ≡ ok (store (after_consume q) t (with_pending (released (entry_at q q.head)) n)))
unfolding mark_response set_pending_responses
after_consume-stale n q t v c h = ground (
  arith,
  get_elem?-set_self q.storage q.head (released (entry_at q q.head))
      (omega (arith, v.sized, v.head_in)),
  c.same,
  c.valid,
  c.inside,
)

-- When consume_head takes the ready entry at the head of a valid queue, to which a current token
-- points, the queue that it leaves does not tell the token from a current one: a response to the
-- token fails an assertion, but a new count of responses for it is accepted and written to the
-- entry that was freed.
pub stale_token :
    (n : ℕ) (q : Rfq) (t : Token) (key : Key)
    → IsValid q
    → IsCurrent q t
    → t.slot_index ≡ q.head
    → head_ready q ≡ true
    → (q' : Rfq) × (consume_head q key ≡ ok q')
      × (mark_response q' t ≡ fault Fault.assertion)
      × (set_pending_responses q' t n
          ≡ ok (store q' t (with_pending (released (entry_at q q.head)) n)))
stale_token n q t key v c h r =
    let stale = after_consume-stale n q t v c h in
    (after_consume q, consume_head-eq q key v ∙ rw r refl, stale.0, stale.1)
