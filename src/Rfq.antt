-- ===== src/Rfq.antt =====
-- The register-file queue of 01_gpgpusim_design/gpgpusim_overlay/src/gpgpu-sim/wasp-rfq.{h,cc}:
-- a ring of entries, each reserved by a producer load, filled by memory responses and consumed in
-- order. A method that changes the queue returns the new queue beside its result; a failed
-- `assert` is a fault. `active_mask_t` is a bitset, kept here as the number that it spells.
pub mod Keys
pub mod Inv
pub mod Entries
pub mod Ops
pub mod Fifo
pub mod Trace
pub mod Progress
pub mod Lanes
pub mod Counts
pub mod Table
mod Tests
use dae_proj.Base.{
  ℕ, ◌+◌, ◌-◌, ◌%◌, Bool, true, false, not, ◌&&◌, ◌||◌, Option, none, some, List, [], ◌∷◌, map,
  get_elem?, set, length, replicate, ltb, leb, ◌==◌, if◌then◌else◌, Result, ok, fault, Fault, ◌>>=◌,
  ◌>>◌, check, access, add32, mul32,
}
use Keys.{Key, default_key}

pub data EntryState : Type 0 where
  free reserved ready : EntryState

abbrev pub is_free : EntryState → Bool
is_free free = true
is_free _ = false

abbrev pub is_reserved : EntryState → Bool
is_reserved reserved = true
is_reserved _ = false

abbrev pub is_ready : EntryState → Bool
is_ready ready = true
is_ready _ = false

pub record Entry : Type 0 where
  pub state : EntryState
  pub sequence : ℕ
  pub pending_responses : ℕ
  pub payload_words_per_lane : ℕ
  pub active_mask : ℕ
  pub lane_payload : List ℕ

abbrev pub fresh_entry : Entry
fresh_entry = record {
  state = free;
  sequence = 0;
  pending_responses = 0;
  payload_words_per_lane = 0;
  active_mask = 0;
  lane_payload = [];
}

pub record Token : Type 0 where
  pub key : Key
  pub slot_index : ℕ
  pub sequence : ℕ
  pub payload_words_per_lane : ℕ
  pub valid : Bool

abbrev pub fresh_token : Token
fresh_token = record {
  key = default_key;
  slot_index = 0;
  sequence = 0;
  payload_words_per_lane = 0;
  valid = false;
}

pub record Rfq : Type 0 where
  pub entries : ℕ
  pub payload_words_per_lane : ℕ
  pub warp_size : ℕ
  pub head : ℕ
  pub tail : ℕ
  pub occupancy : ℕ
  pub next_sequence : ℕ
  pub storage : List Entry

abbrev pub fresh_rfq : Rfq
fresh_rfq = record {
  entries = 0;
  payload_words_per_lane = 0;
  warp_size = 0;
  head = 0;
  tail = 0;
  occupancy = 0;
  next_sequence = 1;
  storage = [];
}

abbrev pub configured : Rfq → Bool
configured q = ltb 0 q.entries

abbrev pub full : Rfq → Bool
full q = leb q.entries q.occupancy

abbrev pub empty : Rfq → Bool
empty q = q.occupancy == 0

-- The `resize` of the empty vector, and the loop that assigns each payload.
abbrev pub configured_storage : ℕ → ℕ → ℕ → List Entry
configured_storage entries payload warp_size =
    replicate entries (record fresh_entry { lane_payload = replicate (mul32 warp_size payload) 0 })

unfoldable pub configure : Rfq → ℕ → ℕ → ℕ → Result Rfq
configure q entries payload warp_size =
    if configured q
    then (do
      check (q.entries == entries)
      check (q.payload_words_per_lane == payload)
      check (q.warp_size == warp_size)
      ok q)
    else (do
      check (ltb 0 entries)
      check (ltb 0 payload)
      check (ltb 0 warp_size)
      ok (record q {
        entries = entries;
        payload_words_per_lane = payload;
        warp_size = warp_size;
        storage = configured_storage entries payload warp_size;
      }))

-- `m_storage[m_head]` is in range in a queue that the operations built, so the missing entry of a
-- ring that is not reads as one that is not ready.
abbrev ready_at : Option Entry → Bool
ready_at none = false
ready_at (some e) = is_ready e.state

unfoldable pub head_ready : Rfq → Bool
head_ready q = if empty q then false else ready_at (get_elem? q.storage q.head)

-- The loop of the two counters over the first `n` entries.
pub count_states : (EntryState → Bool) → ℕ → List Entry → ℕ
count_states test n [] = 0
count_states test ℕ.zero (e ∷ es) = 0
count_states test (ℕ.suc n) (e ∷ es) = count_states test n es + (if test e.state then 1 else 0)

pub ready_count : Rfq → ℕ
ready_count q = count_states is_ready q.entries q.storage

pub pending_count : Rfq → ℕ
pending_count q = count_states is_reserved q.entries q.storage

-- `std::fill(..., 0)`
abbrev pub zeroed : List ℕ → List ℕ
zeroed = map (λ _. 0)

abbrev pub state_for : ℕ → EntryState
state_for pending = if pending == 0 then ready else reserved

abbrev pub reserved_entry : Rfq → Entry → ℕ → ℕ → Entry
reserved_entry q e mask pending = record {
  state = state_for pending;
  sequence = q.next_sequence;
  pending_responses = pending;
  payload_words_per_lane = q.payload_words_per_lane;
  active_mask = mask;
  lane_payload = zeroed e.lane_payload;
}

abbrev pub tail_token : Rfq → Key → Token
tail_token q key = record {
  key = key;
  slot_index = q.tail;
  sequence = q.next_sequence;
  payload_words_per_lane = q.payload_words_per_lane;
  valid = true;
}

unfoldable pub reserve_tail : Rfq → Key → ℕ → ℕ → Result (Token × Rfq)
reserve_tail q key mask pending = do
  check (configured q)
  check (not (full q))
  e ← access (get_elem? q.storage q.tail)
  check (is_free e.state)
  ok (
    tail_token q key,
    record q {
      storage = set q.storage q.tail (reserved_entry q e mask pending);
      tail = add32 q.tail 1 % q.entries;
      occupancy = add32 q.occupancy 1;
      next_sequence = add32 q.next_sequence 1;
    },
  )

unfoldable pub entry_for_token : Rfq → Token → Result Entry
entry_for_token q t = do
  check t.valid
  check (ltb t.slot_index q.entries)
  e ← access (get_elem? q.storage t.slot_index)
  check (e.sequence == t.sequence)
  ok e

-- A write through the reference that `entry_for_token` returned.
abbrev pub store : Rfq → Token → Entry → Rfq
store q t e = record q { storage = set q.storage t.slot_index e }

abbrev pub with_pending : Entry → ℕ → Entry
with_pending e n = record e { pending_responses = n; state = state_for n }

unfoldable pub set_pending_responses : Rfq → Token → ℕ → Result Rfq
unfolding entry_for_token
set_pending_responses q t n = do e ← entry_for_token q t; ok (store q t (with_pending e n))

unfoldable pub has_pending_responses : Rfq → Token → Result Bool
unfolding entry_for_token
has_pending_responses q t = do e ← entry_for_token q t; ok (ltb 0 e.pending_responses)

-- The branch on the responses that are still out. `e.pending_responses--` cannot wrap below the
-- check.
abbrev pub responded : Entry → Entry × Bool
responded e =
    if e.pending_responses == 1
    then (record e { pending_responses = 0; state = ready }, true)
    else (record e { pending_responses = e.pending_responses - 1 }, false)

unfoldable pub mark_response : Rfq → Token → Result (Bool × Rfq)
unfolding entry_for_token
mark_response q t = do
  e ← entry_for_token q t
  check (is_reserved e.state || is_ready e.state)
  check (ltb 0 e.pending_responses)
  ok ((responded e).1, store q t (responded e).0)

abbrev pub released : Entry → Entry
released e = record e {
  state = free;
  pending_responses = 0;
  active_mask = 0;
  lane_payload = zeroed e.lane_payload;
}

-- The key is not used. `m_occupancy--` stands below the check that it is not 0.
unfoldable pub consume_head : Rfq → Key → Result Rfq
consume_head q key = do
  check (not (empty q))
  e ← access (get_elem? q.storage q.head)
  check (is_ready e.state)
  ok (record q {
    storage = set q.storage q.head (released e);
    head = add32 q.head 1 % q.entries;
    occupancy = q.occupancy - 1;
  })

abbrev pub lane_index : Entry → ℕ → ℕ → ℕ
lane_index e lane word = add32 (mul32 lane e.payload_words_per_lane) word

unfoldable pub set_lane_value : Rfq → Token → ℕ → ℕ → ℕ → Result Rfq
unfolding entry_for_token
set_lane_value q t lane word value = do
  e ← entry_for_token q t
  check (ltb lane q.warp_size)
  check (ltb word e.payload_words_per_lane)
  _ ← access (get_elem? e.lane_payload (lane_index e lane word))
  ok (store q t (record e { lane_payload = set e.lane_payload (lane_index e lane word) value }))

unfoldable pub head_lane_value : Rfq → ℕ → ℕ → Result ℕ
unfolding head_ready
head_lane_value q lane word = do
  check (head_ready q)
  e ← access (get_elem? q.storage q.head)
  check (ltb lane q.warp_size)
  check (ltb word e.payload_words_per_lane)
  access (get_elem? e.lane_payload (lane_index e lane word))
