-- ===== src/Rfq/Fifo.antt =====
-- A valid queue of wasp-rfq.cc, seen as the list of its live entries, oldest first.
use dae_proj.Base.{
  ℕ, zero, suc, ◌+◌, ◌-◌, ◌%◌, ◌≤◌, ◌<◌, ◌≡◌, ◌≢◌, refl, ap, ap₂, sym, ◌∙◌, false, List, [], ◌∷◌,
  ◌++◌, get_or, set, length, arith, add32, u32_mod, get_or-set_self, get_or-set_ne,
}
use dae_proj.Rfq.{Rfq, Entry, Token, fresh_entry, full, reserved_entry, store, released}
use dae_proj.Rfq.Inv.{IsValid, slot, age, entry_at, slot-lt, slot-age, age-lt}
use dae_proj.Rfq.Ops.{after_reserve, after_consume, next-slot}

-- The `m` entries from the `k`th behind the head.
abbrev pub window : List Entry → ℕ → ℕ → ℕ → ℕ → List Entry
window xs h n k zero = []
window xs h n k (suc m) = get_or xs (slot h k n) fresh_entry ∷ window xs h n (suc k) m

abbrev pub contents : Rfq → List Entry
contents q = window q.storage q.head q.entries 0 q.occupancy

pub length-window : (xs : List Entry) (h n k m : ℕ) → length (window xs h n k m) ≡ m
length-window xs h n k zero = refl
length-window xs h n k (suc m) = ap suc (length-window xs h n (suc k) m)

at : List Entry → ℕ → ℕ → ℕ → Entry
at xs h n k = get_or xs (slot h k n) fresh_entry

window-ext :
    (xs ys : List Entry) (h g n k j m : ℕ)
    → ((i : ℕ) → i < m → at xs h n (k + i) ≡ at ys g n (j + i))
    → window xs h n k m ≡ window ys g n j m
unfolding at
window-ext xs ys h g n k j zero same = refl
window-ext xs ys h g n k j (suc m) same =
    let first : k + 0 ≡ k = omega arith in
    let second : j + 0 ≡ j = omega arith in
    ap₂ ◌∷◌ (ap (at xs h n) (sym first) ∙ same 0 (omega arith) ∙ ap (at ys g n) second) (
      window-ext xs ys h g n (suc k) (suc j) m (λ i p.
        ap (at xs h n) (omega arith) ∙ same (suc i) (omega arith) ∙ ap (at ys g n) (omega arith)))

window-snoc :
    (xs : List Entry) (h n k m : ℕ)
    → window xs h n k (suc m) ≡ window xs h n k m ++ (at xs h n (k + m) ∷ [])
unfolding at
window-snoc xs h n k zero = ap (λ (j : ℕ). at xs h n j ∷ []) (omega arith)
window-snoc xs h n k (suc m) = ap (◌∷◌ (at xs h n k)) (
    window-snoc xs h n (suc k) m
    ∙ ap (λ (j : ℕ). window xs h n (suc k) m ++ (at xs h n j ∷ [])) (omega arith))

slot-ne : (h a b n : ℕ) → h < n → a < n → b < n → a ≢ b → slot h a n ≢ slot h b n
slot-ne h a b n p r s ne = λ e. ground arith

-- Two places of the ring, after a write to one of them.
at-set_self :
    (xs : List Entry) (h n a : ℕ) (e : Entry)
    → length xs ≡ n
    → h < n
    → a < n
    → at (set xs (slot h a n) e) h n a ≡ e
unfolding at
at-set_self xs h n a e sized p r =
    get_or-set_self xs (slot h a n) e fresh_entry (rw sized (slot-lt h a n p r))

at-set_ne :
    (xs : List Entry) (h n a b : ℕ) (e : Entry)
    → h < n
    → a < n
    → b < n
    → a ≢ b
    → at (set xs (slot h a n) e) h n b ≡ at xs h n b
unfolding at
at-set_ne xs h n a b e p r s ne =
    get_or-set_ne xs (slot h a n) (slot h b n) e fresh_entry (slot-ne h a b n p r s ne)

window-set_above :
    (xs : List Entry) (h n a k m : ℕ) (e : Entry)
    → h < n
    → a < k
    → k + m ≤ n
    → window (set xs (slot h a n) e) h n k m ≡ window xs h n k m
window-set_above xs h n a k m e p lt le =
    window-ext (set xs (slot h a n) e) xs h h n k k m
      λ i r. at-set_ne xs h n a (k + i) e p (omega arith) (omega arith) (omega arith)

window-set_below :
    (xs : List Entry) (h n a k m : ℕ) (e : Entry)
    → h < n
    → k + m ≤ a
    → a < n
    → window (set xs (slot h a n) e) h n k m ≡ window xs h n k m
window-set_below xs h n a k m e p le lt =
    window-ext (set xs (slot h a n) e) xs h h n k k m
      λ i r. at-set_ne xs h n a (k + i) e p (omega arith) (omega arith) (omega arith)

-- A write to a place of the window writes the list there.
window-set :
    (xs : List Entry) (h n k m d : ℕ) (e : Entry)
    → length xs ≡ n
    → h < n
    → k + m ≤ n
    → k + d < n
    → window (set xs (slot h (k + d) n) e) h n k m ≡ set (window xs h n k m) d e
unfolding at
window-set xs h n k zero d e sized p le r = refl
window-set xs h n k (suc m) zero e sized p le r =
    ap (λ (j : ℕ). window (set xs (slot h j n) e) h n k (suc m)) (omega arith)
    ∙ ap₂ ◌∷◌ (at-set_self xs h n k e sized p (omega arith))
        (window-set_above xs h n k (suc k) m e p (omega arith) (omega arith))
window-set xs h n k (suc m) (suc d) e sized p le r =
    let shift : k + suc d ≡ suc k + d = omega arith in
    ap (λ (j : ℕ). window (set xs (slot h j n) e) h n k (suc m)) shift
    ∙ ap₂ ◌∷◌ (at-set_ne xs h n (suc k + d) k e p (omega arith) (omega arith) (omega arith))
        (window-set xs h n (suc k) m d e sized p (omega arith) (omega arith))

pub contents-after_reserve :
    (q : Rfq) (mask pending : ℕ)
    → IsValid q
    → full q ≡ false
    → contents (after_reserve q mask pending)
      ≡ contents q ++ (reserved_entry q (entry_at q q.tail) mask pending ∷ [])
unfolding at
contents-after_reserve q mask pending v h =
    let e = reserved_entry q (entry_at q q.tail) mask pending in
    let room : q.occupancy < q.entries = ground arith in
    let grown : add32 q.occupancy 1 ≡ suc q.occupancy = omega arith in
    let written : List Entry = set q.storage (slot q.head q.occupancy q.entries) e in
    ap (λ (j : ℕ). window (set q.storage j e) q.head q.entries 0 (add32 q.occupancy 1)) v.tail_in
    ∙ ap (window written q.head q.entries 0) grown
    ∙ window-snoc written q.head q.entries 0 q.occupancy
    ∙ ap₂ (λ (xs : List Entry) (x : Entry). xs ++ (x ∷ []))
        (window-set_below q.storage q.head q.entries q.occupancy 0 q.occupancy e v.head_in
          (omega arith) room)
        (ap (at written q.head q.entries) (omega arith)
          ∙ at-set_self q.storage q.head q.entries q.occupancy e v.sized v.head_in room)

slot-next :
    (h k n : ℕ) → h < n → suc k < n → n < u32_mod → slot (add32 h 1 % n) k n ≡ slot h (suc k) n
slot-next h k n p r small = ground (arith, next-slot h n p small)

pub contents-after_consume :
    (q : Rfq)
    → IsValid q
    → 0 < q.occupancy
    → contents q ≡ entry_at q q.head ∷ contents (after_consume q)
unfolding at
contents-after_consume q v pos =
    ap (window q.storage q.head q.entries 0) more
    ∙ ap₂ ◌∷◌ (ap (entry_at q) (ground arith)) (
        sym (
          window-ext (set q.storage q.head gone) q.storage (add32 q.head 1 % q.entries) q.head
            q.entries 0 1 (q.occupancy - 1) same))
  where
    gone : Entry
    gone = released (entry_at q q.head)

    more : q.occupancy ≡ suc (q.occupancy - 1)
    more = omega arith

    same :
        (i : ℕ)
        → i < q.occupancy - 1
        → at (set q.storage q.head gone) (add32 q.head 1 % q.entries) q.entries (0 + i)
          ≡ at q.storage q.head q.entries (1 + i)
    same i p =
        ap (λ (j : ℕ). get_or (set q.storage q.head gone) j fresh_entry)
          (ap (λ (j : ℕ). slot (add32 q.head 1 % q.entries) j q.entries) (omega arith)
            ∙ slot-next q.head i q.entries v.head_in (omega arith) v.narrow)
        ∙ get_or-set_ne q.storage q.head (slot q.head (suc i) q.entries) gone fresh_entry
            (ground arith)
        ∙ ap (at q.storage q.head q.entries) (omega arith)

pub contents-store :
    (q : Rfq) (t : Token) (e : Entry)
    → IsValid q
    → t.slot_index < q.entries
    → contents (store q t e) ≡ set (contents q) (age q.head t.slot_index q.entries) e
contents-store q t e v h =
    let a = age q.head t.slot_index q.entries in
    let zeroth : a ≡ 0 + a = omega arith in
    let behind = age-lt q.head t.slot_index q.entries v.head_in h in
    ap (λ (j : ℕ). window (set q.storage j e) q.head q.entries 0 q.occupancy)
      (sym (slot-age q.head t.slot_index q.entries v.head_in h)
        ∙ ap (λ (j : ℕ). slot q.head j q.entries) zeroth)
    ∙ window-set q.storage q.head q.entries 0 q.occupancy a e v.sized v.head_in (omega arith)
        (omega arith)

get_or-window :
    (xs : List Entry) (h n k m i : ℕ)
    → i < m
    → get_or (window xs h n k m) i fresh_entry ≡ at xs h n (k + i)
unfolding at
get_or-window xs h n k zero i p = absurd (omega arith)
get_or-window xs h n k (suc m) zero p = ap (at xs h n) (omega arith)
get_or-window xs h n k (suc m) (suc i) p =
    get_or-window xs h n (suc k) m i (omega arith) ∙ ap (at xs h n) (omega arith)

-- The entry at a live index stands at its age in the list.
pub get_or-contents :
    (q : Rfq) (i : ℕ)
    → IsValid q
    → i < q.entries
    → age q.head i q.entries < q.occupancy
    → get_or (contents q) (age q.head i q.entries) fresh_entry ≡ entry_at q i
unfolding at
get_or-contents q i v p live =
    let zeroth : 0 + age q.head i q.entries ≡ age q.head i q.entries = omega arith in
    get_or-window q.storage q.head q.entries 0 q.occupancy (age q.head i q.entries) live
    ∙ ap (at q.storage q.head q.entries) zeroth
    ∙ ap (entry_at q) (slot-age q.head i q.entries v.head_in p)
