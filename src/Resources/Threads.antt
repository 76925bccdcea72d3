-- ===== src/Resources/Threads.antt =====
-- `find_available_hwtid` of gpgpu-sim/gpu-sim.cc: a run of free hardware threads.
use dae_proj.Base.{
  ℕ, zero, suc, ◌+◌, ◌*◌, ◌≤◌, ◌<◌, ◌≡◌, ◌⊎◌, inl, inr, refl, sym, ap, subst, ◌∙◌, Bool, Bool-cases,
  true, false, ◌&&◌, List, Option, Option-cases, none, some, length, get_elem?, get_or, ltb, leb,
  if◌then◌else◌, ltb→lt, ok, Result-cases, add32, u32_mod, arith, get_elem?-eq-get_or,
  get_or-of-get_elem?,
}
use dae_proj.Config.{ShaderConfig}
use dae_proj.Resources.{range_free, find_from, find_available_hwtid, occupy_found}
use dae_proj.Resources.Marks.{
  Free, Free-Inside, set_bits, set_range-eq, length-set_bits, get_or-set_bits,
}

-- Some thread of the range is taken.
abbrev pub Busy : List Bool → ℕ → ℕ → Type 0
Busy hw start count = (i : ℕ) × (start ≤ i) × (i < start + count) × (get_or hw i true ≡ true)

same-or-later : (s i : ℕ) → s ≤ i → (s ≡ i) ⊎ (suc s ≤ i)
same-or-later s i h = ground arith

Free-at_start :
    (hw : List Bool) (start count : ℕ)
    → get_or hw start true ≡ false
    → Free hw (suc start) count
    → Free hw start (suc count)
Free-at_start hw start count vacant rest i a b = elim (same-or-later start i a) [
  | inl e ↦ subst (λ (j : ℕ). get_or hw j true ≡ false) e vacant
  | inr l ↦ rest i l (omega arith)
]

range_free-cases :
    (hw : List Bool) (start count : ℕ)
    → start + count ≤ length hw
    → ((range_free hw start count ≡ ok true) × Free hw start count)
      ⊎ ((range_free hw start count ≡ ok false) × Busy hw start count)
unfolding range_free
range_free-cases hw start zero h = inl (refl, λ i a b. absurd (omega arith))
range_free-cases hw start (suc count) h =
    let here = get_elem?-eq-get_or hw start true (omega (arith, h)) in
    elim (Bool-cases (get_or hw start true)) [
      | inl busy ↦ inr (rw here (simp busy refl), (start, omega arith, omega arith, busy))
      | inr vacant ↦ elim (range_free-cases hw (suc start) count (omega (arith, h))) [
        | inl (r, rest) ↦ inl (rw here (simp vacant r), Free-at_start hw start count vacant rest)
        | inr (r, (i, a, b, e)) ↦
            inr (rw here (simp vacant r), (i, omega (arith, a), omega (arith, b), e))
      ]
    ]

-- What a search from `step` on may answer: the first thread of a free range, or nothing when each
-- range that it looks at is busy.
abbrev pub Searched : List Bool → ℕ → ℕ → ℕ → Option ℕ → Type 0
Searched hw n size step none = (j : ℕ) → step + j * size < n → Busy hw (step + j * size) size
Searched hw n size step (some s) = (step ≤ s) × (s < n) × Free hw s size

Busy-at_step :
    (hw : List Bool) (n size step : ℕ)
    → Busy hw step size
    → Searched hw n size (step + size) none
    → Searched hw n size step none
Busy-at_step hw n size step b rest zero h =
    let e : step ≡ step + 0 * size = omega arith in subst (λ (m : ℕ). Busy hw m size) e b
Busy-at_step hw n size step b rest (suc j) h =
    let e : step + size + j * size ≡ step + suc j * size = omega arith in
    subst (λ (m : ℕ). Busy hw m size) e (rest j (omega (arith, e, h)))

widen :
    (hw : List Bool) (n size step : ℕ) (found : Option ℕ)
    → Busy hw step size
    → Searched hw n size (step + size) found
    → Searched hw n size step found
widen hw n size step none b rest = Busy-at_step hw n size step b rest
widen hw n size step (some s) b (a, l, f) = (omega (arith, a), l, f)

find_from-lem :
    (fuel : ℕ) (hw : List Bool) (n size step k : ℕ)
    → step ≡ k * size
    → 0 < fuel
    → n < fuel + step
    → 0 < size
    → ((j : ℕ) → j * size < n → j * size + size ≤ length hw)
    → n + size < u32_mod
    → (found : Option ℕ) × (find_from fuel hw n step size ≡ ok found)
      × Searched hw n size step found
unfolding find_from
find_from-lem zero hw n size step k at p f z covered small = absurd (omega arith)
find_from-lem (suc fuel) hw n size step k at p f z covered small = elim (Bool-cases (ltb step n)) [
  | inr past ↦ (none, rw past refl, λ j h. absurd (ground (arith, past, h)))
  | inl inside ↦
      let low : step < n = ground arith in
      let next : add32 step size ≡ step + size = ground (arith, low, small) in
      let room = covered k (omega (arith, at, low)) in
      elim (range_free-cases hw step size (omega (arith, room, at))) [
        | inl (r, free) ↦ (some step, rw (inside, r) refl, (omega arith, low, free))
        | inr (r, busy) ↦
            let after : step + size ≡ suc k * size = omega (arith, at) in
            let (found, is, rest) =
              find_from-lem fuel hw n size (step + size) (suc k) after (omega (arith, f, low))
                (omega (arith, f, z)) z covered small in
            let moved = subst (λ (m : ℕ). find_from fuel hw n m size ≡ ok found) (sym next) is in
            (found, rw (inside, r) moved, widen hw n size step found busy rest)
      ]
]

-- What is taken once a search has marked what it found: the threads of the range, and those that
-- were taken before.
abbrev pub Marked : List Bool → ℕ → Option ℕ → List Bool → Type 0
Marked hw size none after = after ≡ hw
Marked hw size (some s) after =
    (length after ≡ length hw)
    × ((i : ℕ)
        → get_or after i true ≡ (if leb s i && ltb i (s + size) then true else get_or hw i true))

mark :
    (hw : List Bool) (n size : ℕ) (found : Option ℕ)
    → Searched hw n size 0 found
    → (after : List Bool) × (occupy_found hw size found ≡ ok after) × Marked hw size found after
mark hw n size none all = (hw, refl, refl)
mark hw n size (some s) (_, _, free) = (
  set_bits hw s size true,
  set_range-eq hw s size true (Free-Inside hw s size free),
  (length-set_bits hw s size true, get_or-set_bits hw s size),
)

-- For a CTA of a positive size, on a bitset that holds each range of that size which starts at a
-- multiple of it below n_thread_per_shader, and when that number of threads and the size add up
-- without overflow, find_available_hwtid returns: either the first
-- thread, below n_thread_per_shader, of a range of free threads, or nothing when each of those
-- ranges is busy. If it is asked to, it marks the threads of the range that it found and no
-- others, and if not, it leaves the bitset as it is.
pub find_available_hwtid_lem :
    (c : ShaderConfig) (hw : List Bool) (size : ℕ)
    → 0 < size
    → ((j : ℕ) → j * size < c.n_thread_per_shader → j * size + size ≤ length hw)
    → c.n_thread_per_shader + size < u32_mod
    → (found : Option ℕ) × (after : List Bool) × (find_available_hwtid c hw size true
        ≡ ok (found, after))
      × (find_available_hwtid c hw size false ≡ ok (found, hw))
      × Searched hw c.n_thread_per_shader size 0 found
      × Marked hw size found after
unfolding find_available_hwtid
find_available_hwtid_lem c hw size z covered small =
    let (found, is, all) =
      find_from-lem (suc c.n_thread_per_shader) hw c.n_thread_per_shader size 0 0 (omega arith)
        (omega arith) (omega arith) z covered small in
    let (after, marks, marked) = mark hw c.n_thread_per_shader size found all in
    (found, after, rw (is, marks) refl, rw is refl, all, marked)

range_free-Free :
    (hw : List Bool) (start count : ℕ) → range_free hw start count ≡ ok true → Free hw start count
unfolding range_free
range_free-Free hw start zero h = λ i a b. absurd (omega arith)
range_free-Free hw start (suc count) h = elim (Option-cases (get_elem? hw start)) [
  | inl e ↦ absurd (ground (arith, h, e))
  | inr (true, e) ↦ absurd (ground (arith, h, e))
  | inr (false, e) ↦
      Free-at_start hw start count (get_or-of-get_elem? hw start true false e)
        (range_free-Free hw (suc start) count (ground (arith, h, e)))
]

find_from-some :
    (fuel : ℕ) (hw : List Bool) (n step size s : ℕ)
    → find_from fuel hw n step size ≡ ok (some s)
    → (s < n) × Free hw s size
unfolding find_from
find_from-some zero hw n step size s h = absurd (ground (arith, h))
find_from-some (suc fuel) hw n step size s h = elim (Bool-cases (ltb step n)) [
  | inr past ↦ absurd (ground (arith, h, past))
  | inl inside ↦ elim (Result-cases (range_free hw step size)) [
    | inr (why, e) ↦ absurd (ground (arith, h, inside, e))
    | inl (true, e) ↦
        let here : step ≡ s = ground (arith, h, inside, e) in
        subst (λ (t : ℕ). (t < n) × Free hw t size) here
          (ltb→lt step n inside, range_free-Free hw step size e)
    | inl (false, e) ↦
        find_from-some fuel hw n (add32 step size) size s (ground (arith, h, inside, e))
  ]
]

-- A search that finds a range without marking it finds the same range, all free, when it marks it.
pub find_available_hwtid-some :
    (c : ShaderConfig) (hw hw' : List Bool) (size s : ℕ)
    → find_available_hwtid c hw size false ≡ ok (some s, hw')
    → (s < c.n_thread_per_shader)
      × Free hw s size
      × (find_available_hwtid c hw size true ≡ ok (some s, set_bits hw s size true))
unfolding find_available_hwtid
find_available_hwtid-some c hw hw' size s h =
    elim (Result-cases (find_from (suc c.n_thread_per_shader) hw c.n_thread_per_shader 0 size)) [
      | inr (why, e) ↦ absurd (ground (arith, h, e))
      | inl (found, e) ↦
          let is : found ≡ some s = ground (arith, h, e) in
          let (low, free) =
            find_from-some (suc c.n_thread_per_shader) hw c.n_thread_per_shader 0 size s
              (e ∙ ap (λ (o : Option ℕ). ok o) is) in
          (low, free, rw (e, is, set_range-eq hw s size true (Free-Inside hw s size free)) refl)
    ]
