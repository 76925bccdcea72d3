-- ===== src/Resources/Marks.antt =====
-- The bits that `find_available_hwtid` sets and `release_shader_resource_1block` resets, in
-- gpgpu-sim/gpu-sim.cc.
use dae_proj.Base.{
  ℕ, zero, suc, ◌+◌, ◌≤◌, ◌<◌, ◌≡◌, refl, ap, subst, ◌∙◌, Bool, true, false, ◌&&◌, List, [], ◌∷◌,
  length, get_or, set, ltb, leb, ◌==◌, if◌then◌else◌, ok, arith, get_elem?-eq-get_or, length-set,
  set-set,
}
use dae_proj.Resources.{set_range}

-- No thread of the range is taken.
abbrev pub Free : List Bool → ℕ → ℕ → Type 0
Free hw start count = (i : ℕ) → start ≤ i → i < start + count → get_or hw i true ≡ false

-- What setting a range leaves when all of it is in the bitset.
pub set_bits : List Bool → ℕ → ℕ → Bool → List Bool
set_bits hw start zero v = hw
set_bits hw start (suc count) v = set_bits (set hw start v) (suc start) count v

abbrev pub Inside : List Bool → ℕ → ℕ → Type 0
Inside hw start count = (i : ℕ) → start ≤ i → i < start + count → i < length hw

lt-length_of_vacant : (hw : List Bool) (i : ℕ) → get_or hw i true ≡ false → i < length hw
lt-length_of_vacant [] i h = cc
lt-length_of_vacant (x ∷ hw) zero h = omega arith
lt-length_of_vacant (x ∷ hw) (suc i) h = omega (arith, lt-length_of_vacant hw i h)

pub Free-Inside : (hw : List Bool) (start count : ℕ) → Free hw start count → Inside hw start count
Free-Inside hw start count free i a b = lt-length_of_vacant hw i (free i a b)

pub set_range-eq :
    (hw : List Bool) (start count : ℕ) (v : Bool)
    → Inside hw start count
    → set_range hw start count v ≡ ok (set_bits hw start count v)
unfolding set_range set_bits
set_range-eq hw start zero v inside = refl
set_range-eq hw start (suc count) v inside =
    let here = get_elem?-eq-get_or hw start true (inside start (omega arith) (omega arith)) in
    rw here (
      set_range-eq (set hw start v) (suc start) count v
        λ i a b. omega (arith, length-set hw start v, inside i (omega arith) (omega (arith, b))))

pub length-set_bits :
    (hw : List Bool) (start count : ℕ) (v : Bool) → length (set_bits hw start count v) ≡ length hw
unfolding set_bits
length-set_bits hw start zero v = refl
length-set_bits hw start (suc count) v =
    length-set_bits (set hw start v) (suc start) count v ∙ length-set hw start v

get_or-set-true :
    (hw : List Bool) (start i : ℕ)
    → get_or (set hw start true) i true ≡ (if start == i then true else get_or hw i true)
get_or-set-true [] start i = ground arith
get_or-set-true (x ∷ hw) zero zero = refl
get_or-set-true (x ∷ hw) zero (suc i) = ground arith
get_or-set-true (x ∷ hw) (suc start) zero = ground arith
get_or-set-true (x ∷ hw) (suc start) (suc i) = ground (arith, get_or-set-true hw start i)

pub get_or-set_bits :
    (hw : List Bool) (start count i : ℕ)
    → get_or (set_bits hw start count true) i true
      ≡ (if leb start i && ltb i (start + count) then true else get_or hw i true)
unfolding set_bits
get_or-set_bits hw start zero i = ground arith
get_or-set_bits hw start (suc count) i =
    ground
      (arith, get_or-set_bits (set hw start true) (suc start) count i, get_or-set-true hw start i)

set-get_or : (xs : List Bool) (i : ℕ) (d : Bool) → set xs i (get_or xs i d) ≡ xs
set-get_or [] i d = refl
set-get_or (x ∷ xs) zero d = refl
set-get_or (x ∷ xs) (suc i) d = ap (◌∷◌ x) (set-get_or xs i d)

set_comm :
    (xs : List Bool) (i j : ℕ) (v w : Bool) → i < j → set (set xs j v) i w ≡ set (set xs i w) j v
set_comm [] i j v w h = refl
set_comm (x ∷ xs) zero zero v w h = absurd (omega arith)
set_comm (x ∷ xs) (suc i) zero v w h = absurd (omega arith)
set_comm (x ∷ xs) zero (suc j) v w h = refl
set_comm (x ∷ xs) (suc i) (suc j) v w h = ap (◌∷◌ x) (set_comm xs i j v w (omega arith))

set-set_bits :
    (hw : List Bool) (i start count : ℕ) (v w : Bool)
    → i < start
    → set (set_bits hw start count v) i w ≡ set_bits (set hw i w) start count v
unfolding set_bits
set-set_bits hw i start zero v w h = refl
set-set_bits hw i start (suc count) v w h =
    set-set_bits (set hw start v) i (suc start) count v w (omega arith)
    ∙ ap (λ (l : List Bool). set_bits l (suc start) count v) (set_comm hw i start v w h)

set_bits-undo :
    (hw : List Bool) (start count : ℕ)
    → Free hw start count
    → set_bits (set_bits hw start count true) start count false ≡ hw
unfolding set_bits
set_bits-undo hw start zero free = refl
set_bits-undo hw start (suc count) free =
    let vacant = free start (omega arith) (omega arith) in
    let first : set (set hw start true) start false ≡ hw =
      set-set hw start true false
      ∙ subst (λ (b : Bool). set hw start b ≡ hw) vacant (set-get_or hw start true) in
    ap (λ (l : List Bool). set_bits l (suc start) count false)
      (set-set_bits (set hw start true) start (suc start) count true false (omega arith)
        ∙ ap (λ (l : List Bool). set_bits l (suc start) count true) first)
    ∙ set_bits-undo hw (suc start) count (λ i a b. free i (omega arith) (omega (arith, b)))

-- Setting the bits of a free range, and then resetting them, changes nothing.
pub set_range-undo :
    (hw : List Bool) (start count : ℕ)
    → Free hw start count
    → set_range (set_bits hw start count true) start count false ≡ ok hw
set_range-undo hw start count free =
    set_range-eq (set_bits hw start count true) start count false (λ i a b.
      omega (arith, length-set_bits hw start count true, Free-Inside hw start count free i a b))
    ∙ ap (λ (l : List Bool). ok l) (set_bits-undo hw start count free)
