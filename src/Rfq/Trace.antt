-- ===== src/Rfq/Trace.antt =====
-- Any history of the queue of wasp-rfq.cc: what goes in comes out, in that order.
use dae_proj.Base.{
  ℕ, zero, suc, ◌<◌, ◌≡◌, refl, ap, sym, subst, ◌∙◌, Bool, false, List, [], ◌∷◌, ◌++◌, map, get_or,
  set, ok, arith, Bool-cases, inl, inr, length-set,
}
use mathlib.Core.List.{append_assoc, append-nil, map-append}
use dae_proj.Rfq.Keys.{Key}
use dae_proj.Rfq.{
  Rfq, Entry, Token, fresh_entry, full, reserve_tail, set_pending_responses, mark_response,
  set_lane_value, consume_head, head_ready, store, with_pending, responded, lane_index, tail_token,
}
use dae_proj.Rfq.Inv.{IsValid, entry_at}
use dae_proj.Rfq.Entries.{Sound-payload, Sound-with_pending, Sound-responded}
use dae_proj.Rfq.Ops.{
  after_reserve, after_consume, reserve_tail-eq, consume_head-eq, entry_for_token-eq,
  after_reserve-IsValid, after_consume-IsValid, IsCurrent, store-IsValid,
}
use dae_proj.Rfq.Fifo.{
  contents, contents-after_reserve, contents-after_consume, contents-store, get_or-contents,
}

-- What a client sees of a call: a sequence number that enters, one that leaves, or neither.
pub data Event : Type 0 where
  enter leave : ℕ → Event
  update : Event

-- One call that returns. A token that is used belongs to an entry that is still in the queue.
pub data Step (q : Rfq) : Event → Rfq → Type 0 where
  reserves :
      (key : Key) (mask pending : ℕ) {t : Token} {q' : Rfq}
      → reserve_tail q key mask pending ≡ ok (t, q')
      → Step q (enter t.sequence) q'
  sets :
      (t : Token) (n : ℕ) {q' : Rfq}
      → IsCurrent q t
      → set_pending_responses q t n ≡ ok q'
      → Step q update q'
  responds :
      (t : Token) (last : Bool) {q' : Rfq}
      → IsCurrent q t
      → mark_response q t ≡ ok (last, q')
      → Step q update q'
  fills :
      (t : Token) (lane word value : ℕ) {q' : Rfq}
      → IsCurrent q t
      → set_lane_value q t lane word value ≡ ok q'
      → Step q update q'
  consumes :
      (key : Key) {q' : Rfq}
      → consume_head q key ≡ ok q'
      → Step q (leave (entry_at q q.head).sequence) q'

pub data Run : Rfq → List Event → Rfq → Type 0 where
  done : {q : Rfq} → Run q [] q
  step : {e : Event} {q r s : Rfq} {es : List Event} → Step q e r → Run r es s → Run q (e ∷ es) s

abbrev pub entered : List Event → List ℕ
entered [] = []
entered (enter n ∷ es) = n ∷ entered es
entered (leave n ∷ es) = entered es
entered (update ∷ es) = entered es

abbrev pub left : List Event → List ℕ
left [] = []
left (enter n ∷ es) = left es
left (leave n ∷ es) = n ∷ left es
left (update ∷ es) = left es

-- The sequence numbers that are in the queue, oldest first.
abbrev pub numbers : Rfq → List ℕ
numbers q = map (λ (e : Entry). e.sequence) (contents q)

-- What one call does: the queue stays valid, and its numbers move as the event says.
record Effect (q : Rfq) (e : Event) (q' : Rfq) : Type 0 where
  valid : IsValid q'
  order : numbers q ++ entered (e ∷ []) ≡ left (e ∷ []) ++ numbers q'

pub reserves-inversion :
    (q : Rfq) (key : Key) (mask pending : ℕ) (t : Token) (q' : Rfq)
    → IsValid q
    → reserve_tail q key mask pending ≡ ok (t, q')
    → (full q ≡ false) × (tail_token q key ≡ t) × (after_reserve q mask pending ≡ q')
unfolding reserve_tail
reserves-inversion q key mask pending t q' v h = elim (Bool-cases (full q)) [
  | inl f ↦ ground arith
  | inr f ↦ ground (arith, reserve_tail-eq q key mask pending v f)
]

reserve-Effect :
    (q : Rfq) (mask pending : ℕ)
    → IsValid q
    → full q ≡ false
    → Effect q (enter q.next_sequence) (after_reserve q mask pending)
reserve-Effect q mask pending v h = record {
  valid = after_reserve-IsValid q mask pending v h;
  order = sym (
      ap (map (λ (e : Entry). e.sequence)) (contents-after_reserve q mask pending v h)
      ∙ map-append _ _ _);
}

consume-Effect :
    (q : Rfq)
    → IsValid q
    → 0 < q.occupancy
    → Effect q (leave (entry_at q q.head).sequence) (after_consume q)
consume-Effect q v pos = record {
  valid = after_consume-IsValid q v pos;
  order = append-nil _ ∙ ap (map (λ (e : Entry). e.sequence)) (contents-after_consume q v pos);
}

map-set_same :
    (f : Entry → ℕ) (xs : List Entry) (i : ℕ) (e : Entry)
    → f e ≡ f (get_or xs i fresh_entry)
    → map f (set xs i e) ≡ map f xs
map-set_same f [] i e h = refl
map-set_same f (x ∷ xs) zero e h = ap (λ n. n ∷ map f xs) h
map-set_same f (x ∷ xs) (suc i) e h = ap (◌∷◌ (f x)) (map-set_same f xs i e h)

store-Effect :
    (q : Rfq) (t : Token) (e : Entry)
    → IsValid q
    → IsCurrent q t
    → e.sequence ≡ (entry_at q t.slot_index).sequence
    → IsValid (store q t e)
    → Effect q update (store q t e)
store-Effect q t e v c same w = record {
  valid = w;
  order =
      append-nil _
      ∙ sym (
          ap (map (λ (x : Entry). x.sequence)) (contents-store q t e v c.inside)
          ∙ map-set_same (λ x. x.sequence) (contents q) _ e
              (same
                ∙ ap (λ (x : Entry). x.sequence)
                    (sym (get_or-contents q t.slot_index v c.inside c.live))));
}

pub sets-inversion :
    (q : Rfq) (t : Token) (n : ℕ) (q' : Rfq)
    → IsValid q
    → IsCurrent q t
    → set_pending_responses q t n ≡ ok q'
    → store q t (with_pending (entry_at q t.slot_index) n) ≡ q'
unfolding set_pending_responses
sets-inversion q t n q' v c h = ground (arith, entry_for_token-eq q t v c)

pub responds-inversion :
    (q : Rfq) (t : Token) (last : Bool) (q' : Rfq)
    → IsValid q
    → IsCurrent q t
    → mark_response q t ≡ ok (last, q')
    → store q t (responded (entry_at q t.slot_index)).0 ≡ q'
unfolding mark_response
responds-inversion q t last q' v c h = ground (arith, entry_for_token-eq q t v c)

abbrev pub filled : Entry → ℕ → ℕ → ℕ → Entry
filled e lane word value = record e {
  lane_payload = set e.lane_payload (lane_index e lane word) value;
}

pub fills-inversion :
    (q : Rfq) (t : Token) (lane word value : ℕ) (q' : Rfq)
    → IsValid q
    → IsCurrent q t
    → set_lane_value q t lane word value ≡ ok q'
    → store q t (filled (entry_at q t.slot_index) lane word value) ≡ q'
unfolding set_lane_value
fills-inversion q t lane word value q' v c h = ground (arith, entry_for_token-eq q t v c)

pub consumes-inversion :
    (q : Rfq) (key : Key) (q' : Rfq)
    → IsValid q
    → consume_head q key ≡ ok q'
    → (0 < q.occupancy) × (after_consume q ≡ q')
unfolding head_ready
consumes-inversion q key q' v h = ground (arith, consume_head-eq q key v)

Step-Effect : {q : Rfq} {e : Event} {q' : Rfq} → IsValid q → Step q e q' → Effect q e q'
Step-Effect {q} v (reserves key mask pending {t} {q'} h) =
    let (room, token, after) = reserves-inversion q key mask pending t q' v h in
    subst (λ (r : Rfq). Effect q (enter t.sequence) r) after
      (subst (λ (u : Token). Effect q (enter u.sequence) (after_reserve q mask pending)) token
        (reserve-Effect q mask pending v room))
Step-Effect {q} v (sets t n {q'} c h) = subst (Effect q update) (sets-inversion q t n q' v c h) (
    store-Effect q t _ v c refl (
      store-IsValid q t _ v c.inside (Sound-with_pending n c.live (v.holds t.slot_index c.inside))))
Step-Effect {q} v (responds t last {q'} c h) =
    subst (Effect q update) (responds-inversion q t last q' v c h) (
      store-Effect q t _ v c (ground arith)
        (store-IsValid q t _ v c.inside (Sound-responded c.live (v.holds t.slot_index c.inside))))
Step-Effect {q} v (fills t lane word value {q'} c h) =
    subst (Effect q update) (fills-inversion q t lane word value q' v c h) (
      store-Effect q t _ v c refl (
        store-IsValid q t _ v c.inside (
          Sound-payload (length-set (entry_at q t.slot_index).lane_payload _ value)
            (v.holds t.slot_index c.inside))))
Step-Effect {q} v (consumes key {q'} h) =
    let (pos, after) = consumes-inversion q key q' v h in
    subst (Effect q _) after (consume-Effect q v pos)

pub Step-IsValid : {q : Rfq} {e : Event} {q' : Rfq} → IsValid q → Step q e q' → IsValid q'
Step-IsValid v s = (Step-Effect v s).valid

-- No history of calls that succeed and whose tokens are of entries in the queue makes a valid
-- queue invalid.
pub Run-IsValid : {q : Rfq} {es : List Event} {q' : Rfq} → IsValid q → Run q es q' → IsValid q'
Run-IsValid v done = v
Run-IsValid v (step s r) = Run-IsValid (Step-Effect v s).valid r

chain :
    (e : Event) (es : List Event) (xs ys zs : List ℕ)
    → xs ++ entered (e ∷ []) ≡ left (e ∷ []) ++ ys
    → ys ++ entered es ≡ left es ++ zs
    → xs ++ entered (e ∷ es) ≡ left (e ∷ es) ++ zs
chain (enter n) es xs ys zs h k =
    sym (append_assoc xs (n ∷ []) (entered es)) ∙ ap (λ (l : List ℕ). l ++ entered es) h ∙ k
chain (leave n) es xs ys zs h k =
    ap (λ (l : List ℕ). l ++ entered es) (sym (append-nil xs) ∙ h) ∙ ap (◌∷◌ n) k
chain update es xs ys zs h k = ap (λ (l : List ℕ). l ++ entered es) (sym (append-nil xs) ∙ h) ∙ k

-- First in, first out: from a valid queue, over any history of calls that succeed and whose
-- tokens are of entries in the queue, the sequence numbers that stood in the queue and those
-- that entered it are, in this order, those that left it and those that are still in it.
pub Run-fifo :
    {q : Rfq} {es : List Event} {q' : Rfq}
    → IsValid q
    → Run q es q'
    → numbers q ++ entered es ≡ left es ++ numbers q'
Run-fifo v done = append-nil _
Run-fifo v (step {e} {q} {r} {s} {es} st run) =
    chain e es (numbers q) (numbers r) (numbers s) (Step-Effect v st).order
      (Run-fifo (Step-Effect v st).valid run)
