-- ===== src/Config/Padding.antt =====
-- The padded size of a CTA in gpgpu-sim/shader.cc.
use dae_proj.Base.{
  ℕ, ◌+◌, ◌*◌, ◌/◌, ◌%◌, ◌≤◌, ◌<◌, ◌≡◌, inl, inr, refl, ◌∙◌, ap, Bool-cases, true, false, ◌==◌,
  u32_mod, add32, mul32, arith,
}
use native.Mathlib.Nat.{
  div-mul-le_self, lt-div-mul-add, mod-eq_of_lt, mul-mod_left, div-add-mod', div-le_self,
}
use dae_proj.Config.{padded_cta_size}

add_one_mul : (a b : ℕ) → (a + 1) * b ≡ a * b + b
add_one_mul a b = omega arith

rounded-eq :
    (threads width : ℕ)
    → 0 < width
    → threads + width < u32_mod
    → mul32 (add32 (threads / width) 1) width ≡ (threads / width + 1) * width
rounded-eq threads width p s =
    let below = div-mul-le_self threads width in
    let quotient = div-le_self threads width in
    let inner : add32 (threads / width) 1 ≡ threads / width + 1 = mod-eq_of_lt (omega arith) in
    rw inner (mod-eq_of_lt (omega (arith, add_one_mul (threads / width) width)))

padded_cta_size-odd :
    (threads width : ℕ)
    → threads % width == 0 ≡ false
    → padded_cta_size threads width ≡ mul32 (add32 (threads / width) 1) width
unfolding padded_cta_size
padded_cta_size-odd threads width odd = rw odd refl

padded_cta_size-even :
    (threads width : ℕ) → threads % width == 0 ≡ true → padded_cta_size threads width ≡ threads
unfolding padded_cta_size
padded_cta_size-even threads width even = rw even refl

-- The padded size of a CTA is the least multiple of the warp size that holds its threads: it is
-- a multiple, no less than the threads, and less than a warp more, when the sum of the two does
-- not overflow.
pub padded_cta_size_lem :
    (threads width : ℕ)
    → 0 < width
    → threads + width < u32_mod
    → (padded_cta_size threads width % width ≡ 0)
      × (threads ≤ padded_cta_size threads width)
      × (padded_cta_size threads width < threads + width)
padded_cta_size_lem threads width p s = elim (Bool-cases (threads % width == 0)) [
  | inl even ↦ ground (arith, padded_cta_size-even threads width even)
  | inr odd ↦
      let is = padded_cta_size-odd threads width odd ∙ rounded-eq threads width p s in
      let more = add_one_mul (threads / width) width in
      let split = div-add-mod' threads width in
      let rest : 0 < threads % width = ground arith in
      let above = lt-div-mul-add {a = threads} p in
      (
        ap (λ (n : ℕ). n % width) is ∙ mul-mod_left (threads / width + 1) width,
        omega (arith, is, more, above),
        omega (arith, is, more, split, rest),
      )
]
