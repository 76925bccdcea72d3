-- ===== src/Rfq/Ops.antt =====
-- The operations of wasp-rfq.cc on a valid queue: when they fault, what they return, and that the
-- queue stays valid.
use dae_proj.Base.{
  ℕ, suc, ◌-◌, ◌%◌, ◌≤◌, ◌<◌, ◌≡◌, ◌≢◌, ap, true, false, get_elem?, get_or, set, ◌==◌,
  if◌then◌else◌, ok, fault, Fault, arith, add32, mul32, u32_mod, subst, ◌∙◌, sym, length-set, some,
  Bool-cases, inl, inr, get_elem?-eq-get_or,
}
use native.Mathlib.Nat.{mod_self, mod-eq_of_lt}
use dae_proj.Rfq.Keys.{Key}
use dae_proj.Rfq.{
  Rfq, Entry, free, fresh_entry, full, head_ready, reserve_tail, reserved_entry, tail_token, Token,
  store, entry_for_token, consume_head, released,
}
use dae_proj.Rfq.Entries.{Sound-keep, Sound-released, Sound-advance, Sound-reserved_entry}
use dae_proj.Rfq.Inv.{
  IsValid, Holds, Sound, age, slot, entry_at, get_or-set, age-slot, slot-lt, slot-age,
}

-- The queue that `reserve_tail` leaves behind.
abbrev pub after_reserve : Rfq → ℕ → ℕ → Rfq
after_reserve q mask pending = record q {
  storage = set q.storage q.tail (reserved_entry q (entry_at q q.tail) mask pending);
  tail = add32 q.tail 1 % q.entries;
  occupancy = add32 q.occupancy 1;
  next_sequence = add32 q.next_sequence 1;
}

pub tail-idle :
    (q : Rfq)
    → IsValid q
    → full q ≡ false
    → (q.tail < q.entries)
      × ((entry_at q q.tail).state ≡ free)
      × (age q.head q.tail q.entries ≡ q.occupancy)
tail-idle q v h =
    let room : q.occupancy < q.entries = ground arith in
    let inside = slot-lt q.head q.occupancy q.entries v.head_in room in
    let far = age-slot q.head q.occupancy q.entries v.head_in room in
    rw v.tail_in
      (inside, (v.holds (slot q.head q.occupancy q.entries) inside).idle (omega (arith, far)), far)

-- In a valid queue the read of an index below `entries` is a read of the storage.
pub get_elem?-entry_at :
    (q : Rfq) (i : ℕ) → IsValid q → i < q.entries → get_elem? q.storage i ≡ some (entry_at q i)
get_elem?-entry_at q i v h = get_elem?-eq-get_or q.storage i fresh_entry (omega (arith, v.sized))

pub reserve_tail-eq :
    (q : Rfq) (key : Key) (mask pending : ℕ)
    → IsValid q
    → full q ≡ false
    → reserve_tail q key mask pending ≡ ok (tail_token q key, after_reserve q mask pending)
unfolding reserve_tail
reserve_tail-eq q key mask pending v h =
    let t = tail-idle q v h in ground (arith, get_elem?-entry_at q q.tail v t.0, t.1)

pub next-slot : (t n : ℕ) → t < n → n < u32_mod → add32 t 1 % n ≡ (if suc t == n then 0 else suc t)
next-slot t n h k =
    let grown : add32 t 1 ≡ suc t = omega arith in
    elim (Bool-cases (suc t == n)) [
      | inl e ↦ let last : suc t ≡ n = ground arith in rw (e, grown, last) (mod_self n)
      | inr e ↦ rw (e, grown) (mod-eq_of_lt (ground arith))
    ]

-- `IsValid` of a queue whose storage changed at one index.
Holds-set :
    (q : Rfq) (j i : ℕ) (e : Entry) (P : Entry → Type 0)
    → IsValid q
    → j < q.entries
    → (j ≡ i → P e)
    → (j ≢ i → P (entry_at q i))
    → P (get_or (set q.storage j e) i fresh_entry)
Holds-set q j i e P v h same other =
    rw (get_or-set q.storage j i e (omega (arith, v.sized))) (elim (Bool-cases (j == i)) [
      | inl y ↦ rw y (same (ground arith))
      | inr n ↦ rw n (other (λ p. ground arith))
    ])

after_reserve-Holds :
    (q : Rfq) (mask pending i : ℕ)
    → IsValid q
    → full q ≡ false
    → i < q.entries
    → Holds (after_reserve q mask pending) i
after_reserve-Holds q mask pending i v h p =
    let t = tail-idle q v h in
    let room : q.occupancy < q.entries = ground arith in
    Holds-set q q.tail i _
      (Sound (mul32 q.warp_size q.payload_words_per_lane) q.payload_words_per_lane
        (add32 q.next_sequence 1) (add32 q.occupancy 1) (age q.head i q.entries))
      v t.0
      (λ e.
        subst
          (λ (a : ℕ).
            Sound (mul32 q.warp_size q.payload_words_per_lane) q.payload_words_per_lane
              (add32 q.next_sequence 1) (add32 q.occupancy 1) a
              (reserved_entry q (entry_at q q.tail) mask pending))
          (sym t.2 ∙ ap (λ (j : ℕ). age q.head j q.entries) e)
          (Sound-reserved_entry q _ mask pending (entry_at q q.tail) v.next_in (omega arith)
            (v.holds q.tail t.0).lanes))
      (λ ne.
        Sound-keep v.next_in (omega arith)
          (λ r. ne (
            v.tail_in
            ∙ ap (λ (k : ℕ). slot q.head k q.entries) (sym r)
            ∙ slot-age q.head i q.entries v.head_in p))
          (v.holds i p))

-- Reserving keeps the queue valid.
pub after_reserve-IsValid :
    (q : Rfq) (mask pending : ℕ)
    → IsValid q
    → full q ≡ false
    → IsValid (after_reserve q mask pending)
after_reserve-IsValid q mask pending v h =
    let room : q.occupancy < q.entries = ground arith in
    record {
      some_entries = v.some_entries;
      narrow = v.narrow;
      sized = length-set q.storage q.tail _ ∙ v.sized;
      head_in = v.head_in;
      tail_in = ground (arith, next-slot q.tail q.entries (tail-idle q v h).0 v.narrow);
      within = omega arith;
      next_in = omega arith;
      holds = λ i p. after_reserve-Holds q mask pending i v h p;
    }

-- The queue that `consume_head` leaves behind.
abbrev pub after_consume : Rfq → Rfq
after_consume q = record q {
  storage = set q.storage q.head (released (entry_at q q.head));
  head = add32 q.head 1 % q.entries;
  occupancy = q.occupancy - 1;
}

-- On a valid queue consume_head fails an assertion exactly when the head is not ready, and
-- otherwise frees the entry of the head and advances the head.
pub consume_head-eq :
    (q : Rfq) (key : Key)
    → IsValid q
    → consume_head q key ≡ (if head_ready q then ok (after_consume q) else fault Fault.assertion)
unfolding consume_head head_ready
consume_head-eq q key v = ground (arith, get_elem?-entry_at q q.head v v.head_in)

-- The head of a ring steps to the next index, and every other entry stands one nearer to it.
age-next :
    (h i n : ℕ) → h < n → i < n → n < u32_mod → h ≢ i → age h i n ≡ suc (age (add32 h 1 % n) i n)
age-next h i n p r small ne = ground (arith, next-slot h n p small)

age-next_self : (h n : ℕ) → h < n → n < u32_mod → age (add32 h 1 % n) h n ≡ n - 1
age-next_self h n p small = ground (arith, next-slot h n p small)

tail-next :
    (h k n : ℕ) → h < n → n < u32_mod → 0 < k → k ≤ n → slot h k n ≡ slot (add32 h 1 % n) (k - 1) n
tail-next h k n p small pos le = ground (arith, next-slot h n p small)

after_consume-Holds :
    (q : Rfq) (i : ℕ) → IsValid q → 0 < q.occupancy → i < q.entries → Holds (after_consume q) i
after_consume-Holds q i v pos p =
    Holds-set q q.head i _
      (Sound (mul32 q.warp_size q.payload_words_per_lane) q.payload_words_per_lane q.next_sequence
        (q.occupancy - 1) (age (add32 q.head 1 % q.entries) i q.entries))
      v v.head_in
      (λ e.
        rw (← e, age-next_self q.head q.entries v.head_in v.narrow)
          (Sound-released (omega arith) (v.holds q.head v.head_in)))
      (λ ne.
        Sound-advance v.next_in (omega arith) (age-next q.head i q.entries v.head_in p v.narrow ne)
          (v.holds i p))

-- Consuming keeps the queue valid.
pub after_consume-IsValid : (q : Rfq) → IsValid q → 0 < q.occupancy → IsValid (after_consume q)
after_consume-IsValid q v pos = record {
  some_entries = v.some_entries;
  narrow = v.narrow;
  sized = length-set q.storage q.head _ ∙ v.sized;
  head_in = ground (arith, next-slot q.head q.entries v.head_in v.narrow);
  tail_in = v.tail_in ∙ tail-next q.head q.occupancy q.entries v.head_in v.narrow pos v.within;
  within = omega arith;
  next_in = v.next_in;
  holds = λ i p. after_consume-Holds q i v pos p;
}

-- A token of an entry that has not been consumed yet.
pub record IsCurrent (q : Rfq) (t : Token) : Type 0 where
  pub valid : t.valid ≡ true
  pub inside : t.slot_index < q.entries
  pub live : age q.head t.slot_index q.entries < q.occupancy
  pub same : (entry_at q t.slot_index).sequence ≡ t.sequence

pub entry_for_token-eq :
    (q : Rfq) (t : Token)
    → IsValid q
    → IsCurrent q t
    → entry_for_token q t ≡ ok (entry_at q t.slot_index)
unfolding entry_for_token
entry_for_token-eq q t v c =
    ground (arith, get_elem?-entry_at q t.slot_index v c.inside, c.same, c.valid)

-- A write to the entry of a token keeps the queue valid, if it keeps the entry sound.
pub store-IsValid :
    (q : Rfq) (t : Token) (e : Entry)
    → IsValid q
    → t.slot_index < q.entries
    → Sound
        (mul32 q.warp_size q.payload_words_per_lane)
        q.payload_words_per_lane
        q.next_sequence
        q.occupancy
        (age q.head t.slot_index q.entries)
        e
    → IsValid (store q t e)
store-IsValid q t e v inside s = record {
  some_entries = v.some_entries;
  narrow = v.narrow;
  sized = length-set q.storage t.slot_index e ∙ v.sized;
  head_in = v.head_in;
  tail_in = v.tail_in;
  within = v.within;
  next_in = v.next_in;
  holds = λ i p.
      Holds-set q t.slot_index i e
        (Sound (mul32 q.warp_size q.payload_words_per_lane) q.payload_words_per_lane q.next_sequence
          q.occupancy (age q.head i q.entries))
        v inside (λ r. rw (← r) s) (λ ne. v.holds i p);
}
