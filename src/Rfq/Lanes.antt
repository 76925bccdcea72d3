-- ===== src/Rfq/Lanes.antt =====
-- The lane payload of wasp-rfq.cc: what a load stores in a lane is what the move at the head reads.
use dae_proj.Base.{
  ℕ, zero, suc, ◌+◌, ◌*◌, ◌<◌, ◌≡◌, ◌≢◌, ◌⊎◌, refl, ap, sym, subst, ◌∙◌, true, List, [], ◌∷◌,
  get_elem?, some, set, length, ok, arith, u32_mod, get_elem?-set_self, access, get_elem?-eq-get_or,
}
use native.Mathlib.Decide.{dec_lt}
use native.Mathlib.Nat.{mod-eq_of_lt}
use dae_proj.Rfq.{Rfq, Entry, Token, head_ready, head_lane_value, set_lane_value, store, lane_index}
use dae_proj.Rfq.Inv.{IsValid, entry_at, age}
use dae_proj.Rfq.Ops.{IsCurrent, entry_for_token-eq, get_elem?-entry_at}
use dae_proj.Rfq.Trace.{filled}

-- The payload of a queue fits the machine's `unsigned`.
abbrev pub Fits : Rfq → Type 0
Fits q = q.warp_size * q.payload_words_per_lane < u32_mod

index-lt : (w p l i : ℕ) → l < w → i < p → l * p + i < w * p
index-lt w p l i h k = grind arith

index-ne : (p l i l' i' : ℕ) → i < p → i' < p → (l ≢ l') ⊎ (i ≢ i') → l * p + i ≢ l' * p + i'
index-ne p l i l' i' h k ne = elim (dec_lt l l') [
  | yes lt ↦ omega (arith, index-lt l' p l i lt h)
  | no ge ↦ elim (dec_lt l' l) [
    | yes gt ↦ omega (arith, index-lt l p l' i' gt k)
    | no le ↦ λ e.
        let same : l ≡ l' = omega arith in
        let rows : l * p ≡ l' * p = ap (λ (j : ℕ). j * p) same in omega arith
  ]
]

lane_index-eq :
    (w l i : ℕ) (e : Entry)
    → w * e.payload_words_per_lane < u32_mod
    → l < w
    → i < e.payload_words_per_lane
    → lane_index e l i ≡ l * e.payload_words_per_lane + i
lane_index-eq w l i e fits h k =
    let small = index-lt w e.payload_words_per_lane l i h k in
    let less : l * e.payload_words_per_lane < u32_mod = omega arith in
    rw (mod-eq_of_lt less) (mod-eq_of_lt (omega arith))

-- The read of the head, with its entry named.
read-eq :
    (q : Rfq) (lane word : ℕ) (e : Entry)
    → head_ready q ≡ true
    → get_elem? q.storage q.head ≡ some e
    → lane < q.warp_size
    → word < e.payload_words_per_lane
    → head_lane_value q lane word ≡ access (get_elem? e.lane_payload (lane_index e lane word))
unfolding head_lane_value
read-eq q lane word e r h p k = ground arith

-- The place of a lane's word in a live entry.
pub record IsPlace (q : Rfq) (e : Entry) (lane word : ℕ) : Type 0 where
  index : lane_index e lane word ≡ lane * q.payload_words_per_lane + word
  inside : lane_index e lane word < length e.lane_payload
  narrow : word < e.payload_words_per_lane

live-IsPlace :
    (q : Rfq) (i lane word : ℕ)
    → IsValid q
    → Fits q
    → i < q.entries
    → age q.head i q.entries < q.occupancy
    → lane < q.warp_size
    → word < q.payload_words_per_lane
    → IsPlace q (entry_at q i) lane word
live-IsPlace q i lane word v fits p live h k =
    let e = entry_at q i in
    let l = (v.holds i p).live live in
    let w : word < e.payload_words_per_lane = omega (arith, l.words) in
    let at = lane_index-eq q.warp_size lane word e (rw l.words fits) h w in
    let small = index-lt q.warp_size q.payload_words_per_lane lane word h k in
    let size = (v.holds i p).lanes ∙ mod-eq_of_lt fits in
    let rows = ap (λ (m : ℕ). lane * m + word) l.words in
    record { index = at ∙ rows; inside = omega (arith, at ∙ rows, small, size); narrow = w }

pub set_lane_value-eq :
    (q : Rfq) (t : Token) (lane word value : ℕ)
    → IsValid q
    → IsCurrent q t
    → lane < q.warp_size
    → IsPlace q (entry_at q t.slot_index) lane word
    → set_lane_value q t lane word value
      ≡ ok (store q t (filled (entry_at q t.slot_index) lane word value))
unfolding set_lane_value
set_lane_value-eq q t lane word value v c h place = ground (
  arith,
  entry_for_token-eq q t v c,
  get_elem?-eq-get_or (entry_at q t.slot_index).lane_payload
      (lane_index (entry_at q t.slot_index) lane word) 0 place.inside,
  place.narrow,
)

get_elem?-set_ne : (xs : List ℕ) (i j v : ℕ) → i ≢ j → get_elem? (set xs i v) j ≡ get_elem? xs j
get_elem?-set_ne [] i j v h = refl
get_elem?-set_ne (x ∷ xs) zero zero v h = absurd (h refl)
get_elem?-set_ne (x ∷ xs) zero (suc j) v h = refl
get_elem?-set_ne (x ∷ xs) (suc i) zero v h = refl
get_elem?-set_ne (x ∷ xs) (suc i) (suc j) v h = get_elem?-set_ne xs i j v (λ e. h (ap suc e))

-- A ready head that takes another payload is a ready head.
head_ready-keep :
    (q q' : Rfq) (e e' : Entry)
    → get_elem? q.storage q.head ≡ some e
    → get_elem? q'.storage q'.head ≡ some e'
    → q'.occupancy ≡ q.occupancy
    → e'.state ≡ e.state
    → head_ready q ≡ true
    → head_ready q' ≡ true
unfolding head_ready
head_ready-keep q q' e e' h h' o s r = ground arith

module _ (q : Rfq) (t : Token) (lane word value : ℕ) (v : IsValid q) (fits : Fits q)
    (c : IsCurrent q t) (at : t.slot_index ≡ q.head) (r : head_ready q ≡ true)
    (h : lane < q.warp_size) (k : word < q.payload_words_per_lane) where
  abbrev pub filled_head : Rfq
  filled_head = store q t (filled (entry_at q t.slot_index) lane word value)

  pub here : IsPlace q (entry_at q t.slot_index) lane word
  here = live-IsPlace q t.slot_index lane word v fits c.inside c.live h k

  head_now :
      get_elem? filled_head.storage filled_head.head
      ≡ some (filled (entry_at q t.slot_index) lane word value)
  head_now =
      rw (← at) (get_elem?-set_self q.storage t.slot_index _ (omega (arith, v.sized, c.inside)))

  head_before : get_elem? q.storage q.head ≡ some (entry_at q t.slot_index)
  head_before = rw (← at) (get_elem?-entry_at q t.slot_index v c.inside)

  pub ready_now : head_ready filled_head ≡ true
  ready_now =
      head_ready-keep q filled_head (entry_at q t.slot_index) _ head_before head_now refl refl r

  -- A word that is stored through a current token in a lane of the ready head of a valid
  -- queue, whose payload size does not overflow, is stored without a failure and read back
  -- from that lane and word.
  pub head_lane_value-set_lane_value :
      (q' : Rfq) × (set_lane_value q t lane word value ≡ ok q')
      × (head_lane_value q' lane word ≡ ok value)
  head_lane_value-set_lane_value = (
    filled_head,
    set_lane_value-eq q t lane word value v c h here,
    read-eq filled_head lane word _ ready_now head_now h here.narrow
        ∙ ap access (
            get_elem?-set_self (entry_at q t.slot_index).lane_payload
              (lane_index (entry_at q t.slot_index) lane word) value here.inside),
  )

  -- Storing a word in a lane of the ready head of a valid queue, whose payload size does not
  -- overflow, changes no other word of that lane and no word of another lane.
  pub head_lane_value-set_other :
      (l w : ℕ) (q' : Rfq)
      → l < q.warp_size
      → w < q.payload_words_per_lane
      → (l ≢ lane) ⊎ (w ≢ word)
      → set_lane_value q t lane word value ≡ ok q'
      → head_lane_value q' l w ≡ head_lane_value q l w
  head_lane_value-set_other l w q' p s ne made =
      let e = entry_at q t.slot_index in
      let there = live-IsPlace q t.slot_index l w v fits c.inside c.live p s in
      let apart = index-ne q.payload_words_per_lane l w lane word s k ne in
      let is : filled_head ≡ q' =
        ground (arith, set_lane_value-eq q t lane word value v c h here, made) in
      subst (λ (x : Rfq). head_lane_value x l w ≡ head_lane_value q l w) is
        (read-eq filled_head l w _ ready_now head_now p there.narrow
          ∙ ap access (
              get_elem?-set_ne e.lane_payload (lane_index e lane word) (lane_index e l w) value
                (λ z. apart (sym there.index ∙ sym z ∙ here.index)))
          ∙ sym (read-eq q l w e r head_before p there.narrow))
