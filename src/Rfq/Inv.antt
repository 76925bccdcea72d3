-- ===== src/Rfq/Inv.antt =====
-- The invariant of the queue of wasp-rfq.cc: the entries from `head`, `occupancy` of them going
-- round the ring, are live, with consecutive sequence numbers; the others are free.
use dae_proj.Base.{
  ℕ, suc, ◌+◌, ◌-◌, ◌%◌, ◌≤◌, ◌<◌, ◌≡◌, refl, ap, false, List, [], ◌∷◌, get_or, set, length, ltb,
  leb, ◌==◌, if◌then◌else◌, ok, arith, mul32, u32_mod, length-replicate, get_or-set_self,
  get_or-set_ne, get_or-replicate, ◌∙◌,
}
use dae_proj.Rfq.{
  Rfq, Entry, free, reserved, ready, is_free, fresh_entry, fresh_rfq, configure, configured_storage,
  zeroed,
}

-- How far index `i` stands behind the head `h` in a ring of `n`.
abbrev pub age : ℕ → ℕ → ℕ → ℕ
age h i n = if leb h i then i - h else i + n - h

-- The index that stands `k` behind the head.
abbrev pub slot : ℕ → ℕ → ℕ → ℕ
slot h k n = if ltb (h + k) n then h + k else h + k - n

abbrev pub entry_at : Rfq → ℕ → Entry
entry_at q i = get_or q.storage i fresh_entry

-- The sequence number of the entry that stands `a` behind the head, from the next number and the
-- occupancy.
abbrev pub number : ℕ → ℕ → ℕ → ℕ
number next occupancy a = (next + u32_mod - occupancy + a) % u32_mod

-- What holds of a live entry.
pub record IsLive (payload n : ℕ) (e : Entry) : Type 0 where
  pub busy : is_free e.state ≡ false
  pub numbered : e.sequence ≡ n
  pub words : e.payload_words_per_lane ≡ payload
  pub settled : e.state ≡ ready → e.pending_responses ≡ 0
  pub waiting : e.state ≡ reserved → 0 < e.pending_responses

-- What holds of the entry that stands `a` behind the head.
pub record Sound (width payload next occupancy a : ℕ) (e : Entry) : Type 0 where
  pub live : a < occupancy → IsLive payload (number next occupancy a) e
  pub idle : occupancy ≤ a → e.state ≡ free
  pub lanes : length e.lane_payload ≡ width

abbrev pub Holds : Rfq → ℕ → Type 0
Holds q i =
    Sound (mul32 q.warp_size q.payload_words_per_lane) q.payload_words_per_lane q.next_sequence
      q.occupancy (age q.head i q.entries) (entry_at q i)

pub record IsValid (q : Rfq) : Type 0 where
  pub some_entries : 0 < q.entries
  pub narrow : q.entries < u32_mod
  pub sized : length q.storage ≡ q.entries
  pub head_in : q.head < q.entries
  pub tail_in : q.tail ≡ slot q.head q.occupancy q.entries
  pub within : q.occupancy ≤ q.entries
  pub next_in : q.next_sequence < u32_mod
  pub holds : (i : ℕ) → i < q.entries → Holds q i

pub length-zeroed : (xs : List ℕ) → length (zeroed xs) ≡ length xs
length-zeroed [] = refl
length-zeroed (x ∷ xs) = ap suc (length-zeroed xs)

pub age-slot : (h k n : ℕ) → h < n → k < n → age h (slot h k n) n ≡ k
age-slot h k n p r = ground arith

pub slot-lt : (h k n : ℕ) → h < n → k < n → slot h k n < n
slot-lt h k n p r = ground arith

pub slot-age : (h i n : ℕ) → h < n → i < n → slot h (age h i n) n ≡ i
slot-age h i n p r = ground arith

pub age-lt : (h i n : ℕ) → h < n → i < n → age h i n < n
age-lt h i n p r = ground arith

pub get_or-set :
    (xs : List Entry) (j i : ℕ) (v : Entry)
    → j < length xs
    → get_or (set xs j v) i fresh_entry ≡ (if j == i then v else get_or xs i fresh_entry)
get_or-set xs j i v h =
    ground (arith, get_or-set_self xs j v fresh_entry h, get_or-set_ne xs j i v fresh_entry)

abbrev pub configured_rfq : ℕ → ℕ → ℕ → Rfq
configured_rfq entries payload width = record fresh_rfq {
  entries = entries;
  payload_words_per_lane = payload;
  warp_size = width;
  storage = configured_storage entries payload width;
}

configure-eq-ok :
    (entries payload width : ℕ) (q : Rfq)
    → configure fresh_rfq entries payload width ≡ ok q
    → (0 < entries) × (configured_rfq entries payload width ≡ q)
unfolding configure
configure-eq-ok entries payload width q h = ground arith

configured_rfq-Holds :
    (entries payload width i : ℕ) → i < entries → Holds (configured_rfq entries payload width) i
configured_rfq-Holds entries payload width i h = record {
  live = λ p. absurd (omega arith);
  idle = λ p. ap (λ (e : Entry). e.state) (get_or-replicate entries i _ fresh_entry h);
  lanes =
      ap (λ (e : Entry). length e.lane_payload) (get_or-replicate entries i _ fresh_entry h)
      ∙ length-replicate (mul32 width payload) 0;
}

-- A fresh queue that is configured is valid, and empty.
pub configure-fresh-IsValid :
    (entries payload width : ℕ) (q : Rfq)
    → entries < u32_mod
    → configure fresh_rfq entries payload width ≡ ok q
    → IsValid q × (q.occupancy ≡ 0) × (q.entries ≡ entries)
configure-fresh-IsValid entries payload width q small h =
    let made = configure-eq-ok entries payload width q h in
    rw (← made.1) (
      record {
        some_entries = made.0;
        narrow = small;
        sized = length-replicate entries _;
        head_in = made.0;
        tail_in = ground arith;
        within = omega arith;
        next_in = omega arith;
        holds = configured_rfq-Holds entries payload width;
      },
      refl,
      refl,
    )
