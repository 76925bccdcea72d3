-- ===== src/Rfq/Table.antt =====
-- `wasp_rfq_table` of wasp-rfq.{h,cc}. The `std::map` is an association list in which a key stands
-- once; two keys are the same when neither is before the other by `operator<`.
use dae_proj.Base.{
  ℕ, ◌≡◌, ◌⊎◌, Option-cases, refl, List, [], ◌∷◌, Option, none, some, Result, ok, if◌then◌else◌,
  ◌==◌, ◌>>=◌, ◌<◌, arith, Bool-cases, inl, inr, u32_mod,
}
use dae_proj.Rfq.Keys.{Key, same_key, eq_of_same_key}
use dae_proj.Rfq.{Rfq, fresh_rfq, configure}
use dae_proj.Rfq.Inv.{IsValid, configure-fresh-IsValid, configured_rfq}

abbrev pub Table : Type 0
Table = List (Key × Rfq)

unfoldable pub find : Table → Key → Option Rfq
find [] k = none
find ((j, q) ∷ t) k = if same_key j k then some q else find t k

-- A write through the reference or the pointer to a queue of the map; `m_queues[key]` inserts a
-- key that is not there.
unfoldable pub put : Table → Key → Rfq → Table
put [] k r = (k, r) ∷ []
put ((j, q) ∷ t) k r = if same_key j k then (j, r) ∷ t else (j, q) ∷ put t k r

abbrev or_fresh : Option Rfq → Rfq
or_fresh none = fresh_rfq
or_fresh (some q) = q

-- The reference is the queue beside the table that holds it.
unfoldable pub get_or_create : Table → Key → ℕ → ℕ → ℕ → Result (Rfq × Table)
get_or_create t key entries payload warp_size =
    configure (or_fresh (find t key)) entries payload warp_size >>= λ q. ok (q, put t key q)

pub erase_cta : Table → ℕ → Table
erase_cta [] cta = []
erase_cta ((j, q) ∷ t) cta =
    if j.cta_hw_id == cta then erase_cta t cta else (j, q) ∷ erase_cta t cta

abbrev pub clear : Table → Table
clear t = []

-- A write to the queue of one key is found under that key, and the queues of the other keys are
-- found as before.
pub find-put :
    (t : Table) (j k : Key) (q : Rfq)
    → find (put t j q) k ≡ (if same_key j k then some q else find t k)
unfolding find put
find-put [] j k q = refl
find-put ((i, r) ∷ t) j k q = elim (Bool-cases (same_key i j)) [
  | inl e ↦ ground (arith, eq_of_same_key i j e)
  | inr e ↦ elim (Bool-cases (same_key j k)) [
    | inl f ↦ ground (arith, eq_of_same_key j k f, find-put t j k q)
    | inr f ↦ ground (arith, find-put t j k q)
  ]
]

-- Erasing a CTA removes the queues whose key names it and no others.
pub find-erase_cta :
    (t : Table) (cta : ℕ) (k : Key)
    → find (erase_cta t cta) k ≡ (if k.cta_hw_id == cta then none else find t k)
unfolding find erase_cta
find-erase_cta [] cta k = ground arith
find-erase_cta ((i, r) ∷ t) cta k = elim (Bool-cases (same_key i k)) [
  | inl e ↦ ground (arith, eq_of_same_key i k e, find-erase_cta t cta k)
  | inr e ↦ ground (arith, find-erase_cta t cta k)
]

-- Every queue of the map was configured with the same widths.
pub record Agrees (entries payload width : ℕ) (q : Rfq) : Type 0 where
  pub valid : IsValid q
  pub depth : q.entries ≡ entries
  pub words : q.payload_words_per_lane ≡ payload
  pub lanes : q.warp_size ≡ width

-- Every queue that a key finds is valid and has the configured shape.
abbrev pub AllAgree : ℕ → ℕ → ℕ → Table → Type 0
AllAgree entries payload width t =
    (k : Key) (q : Rfq) → find t k ≡ some q → Agrees entries payload width q

configure-Agrees :
    (entries payload width : ℕ) (q : Rfq)
    → Agrees entries payload width q
    → configure q entries payload width ≡ ok q
unfolding configure
configure-Agrees entries payload width q a =
    ground (arith, a.depth, a.words, a.lanes, a.valid.some_entries)

configure-fresh-eq :
    (entries payload width : ℕ)
    → 0 < entries
    → 0 < payload
    → 0 < width
    → configure fresh_rfq entries payload width ≡ ok (configured_rfq entries payload width)
unfolding configure
configure-fresh-eq entries payload width e p w = ground arith

configure-fresh :
    (entries payload width : ℕ)
    → 0 < entries
    → entries < u32_mod
    → 0 < payload
    → 0 < width
    → (q : Rfq) × (configure fresh_rfq entries payload width ≡ ok q)
      × Agrees entries payload width q
configure-fresh entries payload width e s p w =
    let q = configured_rfq entries payload width in
    let made = configure-fresh-eq entries payload width e p w in
    (
      q,
      made,
      record {
        valid = (configure-fresh-IsValid entries payload width q s made).0;
        depth = refl;
        words = refl;
        lanes = refl;
      },
    )

-- With a positive shape and a table whose queues have that shape, get_or_create never fails: it
-- returns the queue of the key, or a valid empty one when the key is absent, and stores it
-- under the key.
pub get_or_create_lem :
    (t : Table) (key : Key) (entries payload width : ℕ)
    → 0 < entries
    → entries < u32_mod
    → 0 < payload
    → 0 < width
    → AllAgree entries payload width t
    → (q : Rfq) × (get_or_create t key entries payload width ≡ ok (q, put t key q))
      × Agrees entries payload width q
      × ((find t key ≡ some q) ⊎ ((find t key ≡ none) × (q.occupancy ≡ 0)))
unfolding get_or_create
get_or_create_lem t key entries payload width e s p w all = elim (Option-cases (find t key)) [
  | inl absent ↦
      let (q, made, a) = configure-fresh entries payload width e s p w in
      (
        q,
        rw (absent, made) refl,
        a,
        inr (absent, (configure-fresh-IsValid entries payload width q s made).1),
      )
  | inr (q, there) ↦
      let a = all key q there in
      (q, rw (there, configure-Agrees entries payload width q a) refl, a, inl there)
]

-- A second call for a key returns the queue that is there.
pub get_or_create-there :
    (t : Table) (key : Key) (entries payload width : ℕ) (q : Rfq)
    → find t key ≡ some q
    → Agrees entries payload width q
    → get_or_create t key entries payload width ≡ ok (q, put t key q)
unfolding get_or_create
get_or_create-there t key entries payload width q there a =
    rw (there, configure-Agrees entries payload width q a) refl
