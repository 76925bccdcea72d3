-- ===== src/Rfq/Counts.antt =====
-- The two counters of wasp-rfq.cc: `ready_count` and `pending_count` add up to the occupancy.
use dae_proj.Base.{
  ◌*◌, ◌%◌, ℕ, zero, suc, ◌+◌, ◌<◌, ◌≡◌, refl, ap, subst, Bool, false, List, [], ◌∷◌, get_or, set,
  length, ok, if◌then◌else◌, arith, replicate, u32_mod,
}
use dae_proj.Rfq.{
  Rfq, Entry, Token, EntryState, fresh_entry, fresh_rfq, full, is_ready, is_reserved, is_free,
  configure, count_states, ready_count, pending_count, reserved_entry, released, store,
}
use dae_proj.Rfq.Inv.{IsValid, entry_at}
use dae_proj.Rfq.Ops.{after_reserve, after_consume, IsCurrent, tail-idle}
use dae_proj.Rfq.Trace.{
  Event, Step, Run, reserves, sets, responds, fills, consumes, done, step, Step-IsValid,
  reserves-inversion, sets-inversion, responds-inversion, fills-inversion, consumes-inversion,
}

abbrev one_if : Bool → ℕ
one_if b = if b then 1 else 0

count_states-set :
    (test : EntryState → Bool) (n : ℕ) (xs : List Entry) (i : ℕ) (e : Entry)
    → i < n
    → i < length xs
    → count_states test n (set xs i e) + one_if (test (get_or xs i fresh_entry).state)
      ≡ count_states test n xs + one_if (test e.state)
unfolding count_states
count_states-set test n [] i e p r = absurd (omega arith)
count_states-set test zero (x ∷ xs) i e p r = absurd (omega arith)
count_states-set test (suc n) (x ∷ xs) zero e p r = omega arith
count_states-set test (suc n) (x ∷ xs) (suc i) e p r =
    omega (arith, count_states-set test n xs i e (omega arith) (omega arith))

abbrev pub Counted : Rfq → Type 0
Counted q = ready_count q + pending_count q ≡ q.occupancy

abbrev busy : EntryState → ℕ
busy s = one_if (is_ready s) + one_if (is_reserved s)

abbrev total : ℕ → List Entry → ℕ
total n xs = count_states is_ready n xs + count_states is_reserved n xs

total-set :
    (n : ℕ) (xs : List Entry) (i : ℕ) (e : Entry)
    → i < n
    → i < length xs
    → total n (set xs i e) + busy (get_or xs i fresh_entry).state ≡ total n xs + busy e.state
total-set n xs i e p r =
    omega (arith, count_states-set is_ready n xs i e p r, count_states-set is_reserved n xs i e p r)

busy_of : (s : EntryState) → is_free s ≡ false → busy s ≡ 1
busy_of s h = ground arith

after_reserve-Counted :
    (q : Rfq) (mask pending : ℕ)
    → IsValid q
    → full q ≡ false
    → Counted q
    → Counted (after_reserve q mask pending)
unfolding ready_count pending_count
after_reserve-Counted q mask pending v h c =
    let t = tail-idle q v h in
    let room : q.occupancy < q.entries = ground arith in
    let e = reserved_entry q (entry_at q q.tail) mask pending in
    let was : busy (entry_at q q.tail).state ≡ 0 = ap busy t.1 in
    let is : busy e.state ≡ 1 = busy_of e.state (ground arith) in
    omega (arith, total-set q.entries q.storage q.tail e t.0 (omega (arith, v.sized, t.0)), was, is)

after_consume-Counted :
    (q : Rfq) → IsValid q → 0 < q.occupancy → Counted q → Counted (after_consume q)
unfolding ready_count pending_count
after_consume-Counted q v pos c =
    let e = released (entry_at q q.head) in
    let was : busy (entry_at q q.head).state ≡ 1 =
      busy_of (entry_at q q.head).state ((v.holds q.head v.head_in).live (ground arith)).busy in
    omega (
      arith,
      total-set q.entries q.storage q.head e v.head_in (omega (arith, v.sized, v.head_in)),
      was,
    )

store-Counted :
    (q : Rfq) (t : Token) (e : Entry)
    → IsValid q
    → IsCurrent q t
    → is_free e.state ≡ false
    → Counted q
    → Counted (store q t e)
unfolding ready_count pending_count
store-Counted q t e v c h k =
    let was : busy (entry_at q t.slot_index).state ≡ 1 =
      busy_of (entry_at q t.slot_index).state ((v.holds t.slot_index c.inside).live c.live).busy in
    omega (
      arith,
      total-set q.entries q.storage t.slot_index e c.inside (omega (arith, v.sized, c.inside)),
      was,
      busy_of e.state h,
    )

Step-Counted : {q : Rfq} {e : Event} {q' : Rfq} → IsValid q → Step q e q' → Counted q → Counted q'
Step-Counted {q} v (reserves key mask pending {t} {q'} h) k =
    let (room, token, after) = reserves-inversion q key mask pending t q' v h in
    subst Counted after (after_reserve-Counted q mask pending v room k)
Step-Counted {q} v (sets t n {q'} c h) k =
    subst Counted (sets-inversion q t n q' v c h) (store-Counted q t _ v c (ground arith) k)
Step-Counted {q} v (responds t last {q'} c h) k =
    subst Counted (responds-inversion q t last q' v c h) (
      store-Counted q t _ v c (ground (arith, ((v.holds t.slot_index c.inside).live c.live).busy))
        k)
Step-Counted {q} v (fills t lane word value {q'} c h) k =
    subst Counted (fills-inversion q t lane word value q' v c h)
      (store-Counted q t _ v c ((v.holds t.slot_index c.inside).live c.live).busy k)
Step-Counted {q} v (consumes key {q'} h) k =
    let (pos, after) = consumes-inversion q key q' v h in
    subst Counted after (after_consume-Counted q v pos k)

-- In a valid queue whose ready and pending counts add up to its occupancy they still do after
-- any history of calls that succeed and whose tokens are of entries in the queue.
pub Run-Counted :
    {q : Rfq} {es : List Event} {q' : Rfq} → IsValid q → Run q es q' → Counted q → Counted q'
Run-Counted v done k = k
Run-Counted v (step s r) k = Run-Counted (Step-IsValid v s) r (Step-Counted v s k)

count_states-replicate :
    (test : EntryState → Bool) (n m : ℕ) (e : Entry)
    → test e.state ≡ false
    → count_states test n (replicate m e) ≡ 0
unfolding count_states
count_states-replicate test n zero e h = refl
count_states-replicate test zero (suc m) e h = refl
count_states-replicate test (suc n) (suc m) e h =
    ground (arith, count_states-replicate test n m e h)

pub configure-fresh-Counted :
    (entries payload width : ℕ) (q : Rfq)
    → configure fresh_rfq entries payload width ≡ ok q
    → Counted q
unfolding configure ready_count pending_count
configure-fresh-Counted entries payload width q h = ground (
  arith,
  count_states-replicate is_ready entries entries
      (record fresh_entry { lane_payload = replicate (width * payload % u32_mod) 0 }) refl,
  count_states-replicate is_reserved entries entries
      (record fresh_entry { lane_payload = replicate (width * payload % u32_mod) 0 }) refl,
)
