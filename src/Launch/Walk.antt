-- ===== src/Launch/Walk.antt =====
-- The CTAs of a kernel and the threads of a CTA, in the order of `increment_x_then_y_then_z` of
-- gpgpu-sim/gpu-sim.cc.
use dae_proj.Base.{
  ℕ, zero, suc, ◌+◌, ◌*◌, ◌<◌, ◌≤◌, ◌≡◌, ◌⊎◌, inl, inr, refl, ap, sym, subst, ◌∙◌, Bool-cases, ltb,
  ◌==◌, arith, u32_mod,
}
use native.Mathlib.Nat.{mod-eq_of_lt}
use dae_proj.Launch.{
  Dim3, origin, increment_x_then_y_then_z, KernelInfo, linear, num_blocks, increment_cta_id,
  get_next_cta_id_single, no_more_ctas_to_run,
}

-- A box that can be counted with 32 bits, and whose sides are `unsigned`.
pub record Countable (b : Dim3) : Type 0 where
  pub wide : 0 < b.x
  pub high : 0 < b.y
  pub deep : 0 < b.z
  pub x_narrow : b.x < u32_mod
  pub y_narrow : b.y < u32_mod
  pub z_narrow : b.z < u32_mod
  pub narrow : b.x * b.y * b.z < u32_mod

pub record Inside (b i : Dim3) : Type 0 where
  pub in_x : i.x < b.x
  pub in_y : i.y < b.y
  pub in_z : i.z < b.z

-- The place of `i`, with no wrap-around.
abbrev place_of : Dim3 → Dim3 → ℕ
place_of b i = i.x + b.x * i.y + b.x * b.y * i.z

abbrev past_last : Dim3 → Dim3
past_last b = record { x = 0; y = 0; z = b.z }

row-lt : (n m a j : ℕ) → a < n → j < m → a + n * j < n * m
row-lt n m a j p q = grind arith

row-next : (n a j : ℕ) → a + 1 ≡ n → a + n * j + 1 ≡ n * (j + 1)
row-next n a j p = grind arith

place_of-lt : (b i : Dim3) → Inside b i → place_of b i < b.x * b.y * b.z
place_of-lt b i s =
    row-lt (b.x * b.y) b.z (i.x + b.x * i.y) i.z (row-lt b.x b.y i.x i.y s.in_x s.in_y) s.in_z

-- One step of the walk: to the next place, or behind the last.
step-place :
    (b i : Dim3)
    → Countable b
    → Inside b i
    → (Inside b (increment_x_then_y_then_z i b)
        × (place_of b (increment_x_then_y_then_z i b) ≡ place_of b i + 1))
      ⊎ ((increment_x_then_y_then_z i b ≡ past_last b) × (place_of b i + 1 ≡ b.x * b.y * b.z))
unfolding increment_x_then_y_then_z
step-place b i c s = elim (Bool-cases (ltb (i.x + 1) b.x)) [
  | inl e ↦
      let is : increment_x_then_y_then_z i b ≡ record i { x = i.x + 1 } =
        ground (arith, e, c.x_narrow) in
      inl (
        subst (λ (j : Dim3). Inside b j × (place_of b j ≡ place_of b i + 1)) (sym is)
          (record { in_x = ground (arith, e); in_y = s.in_y; in_z = s.in_z }, omega arith))
  | inr e ↦
      let edge : i.x + 1 ≡ b.x = ground (arith, e, s.in_x) in
      let row = row-next b.x i.x i.y edge in
      elim (Bool-cases (ltb (i.y + 1) b.y)) [
        | inl f ↦
            let is : increment_x_then_y_then_z i b ≡ record { x = 0; y = i.y + 1; z = i.z } =
              ground (arith, e, f, c.x_narrow, c.y_narrow, s.in_x) in
            inl (
              subst (λ (j : Dim3). Inside b j × (place_of b j ≡ place_of b i + 1)) (sym is)
                (
                  record { in_x = c.wide; in_y = ground (arith, f); in_z = s.in_z },
                  omega (arith, row),
                ))
        | inr f ↦
            let top : i.y + 1 ≡ b.y = ground (arith, f, s.in_y) in
            let is : increment_x_then_y_then_z i b ≡ record { x = 0; y = 0; z = i.z + 1 } =
              ground (arith, e, f, c.x_narrow, c.y_narrow, c.z_narrow, s.in_x, s.in_y, s.in_z) in
            let corner : i.x + b.x * i.y + 1 ≡ b.x * b.y = row ∙ ap (λ (j : ℕ). b.x * j) top in
            let layer = row-next (b.x * b.y) (i.x + b.x * i.y) i.z corner in
            elim (Bool-cases (ltb (i.z + 1) b.z)) [
              | inl g ↦ inl (
                  subst (λ (j : Dim3). Inside b j × (place_of b j ≡ place_of b i + 1)) (sym is)
                    (
                      record { in_x = c.wide; in_y = c.high; in_z = ground (arith, g) },
                      omega (arith, layer),
                    ))
              | inr g ↦
                  let last : i.z + 1 ≡ b.z = ground (arith, g, s.in_z) in
                  inr (
                    is ∙ ap (λ (k : ℕ). record origin { z = k }) last,
                    layer ∙ ap (λ (k : ℕ). b.x * b.y * k) last,
                  )
            ]
      ]
]

area-le : (n m : ℕ) → 0 < m → n ≤ n * m
area-le n m p = grind arith

linear-eq : (b i : Dim3) → Countable b → place_of b i < u32_mod → linear b i ≡ place_of b i
linear-eq b i c fits =
    let whole = area-le (b.x * b.y) b.z c.deep in
    let area : b.x * b.y < u32_mod = omega (arith, whole, c.narrow) in
    rw (mod-eq_of_lt area) (omega (arith, fits))

-- After `n` steps.
unfoldable pub walk : ℕ → KernelInfo → KernelInfo
walk zero k = k
walk (suc n) k = increment_cta_id (walk n k)

-- The kernel is at its CTA number `n`, or behind all of them.
data At (k : KernelInfo) (n : ℕ) : Type 0 where
  inside : Inside k.grid_dim k.next_cta → place_of k.grid_dim k.next_cta ≡ n → At k n
  behind :
      k.next_cta ≡ past_last k.grid_dim → n ≡ k.grid_dim.x * k.grid_dim.y * k.grid_dim.z → At k n

increment_cta_id-At :
    (k : KernelInfo) (n : ℕ)
    → Countable k.grid_dim
    → n < k.grid_dim.x * k.grid_dim.y * k.grid_dim.z
    → At k n
    → At (increment_cta_id k) (n + 1)
unfolding increment_cta_id
increment_cta_id-At k n c p (inside s is) = elim (step-place k.grid_dim k.next_cta c s) [
  | inl (s', is') ↦ inside s' (omega (arith, is, is'))
  | inr (end, is') ↦ behind end (omega (arith, is, is'))
]
increment_cta_id-At k n c p (behind end is) = absurd (omega (arith, p, is))

walk-grid : (n : ℕ) (k : KernelInfo) → (walk n k).grid_dim ≡ k.grid_dim
unfolding walk increment_cta_id
walk-grid zero k = refl
walk-grid (suc n) k = walk-grid n k

walk-At :
    (n : ℕ) (k : KernelInfo)
    → Countable k.grid_dim
    → k.next_cta ≡ origin
    → n ≤ k.grid_dim.x * k.grid_dim.y * k.grid_dim.z
    → At (walk n k) n
unfolding walk
walk-At zero k c start p =
    inside
      (subst (Inside k.grid_dim) (sym start)
        (record { in_x = c.wide; in_y = c.high; in_z = c.deep }))
      (ap (place_of k.grid_dim) start ∙ omega arith)
walk-At (suc n) k c start p =
    let before = walk-At n k c start (omega (arith, p)) in
    let same = walk-grid n k in
    subst (At (increment_cta_id (walk n k))) (omega arith) (
      increment_cta_id-At (walk n k) n (subst Countable (sym same) c)
        (subst (λ (b : Dim3). n < b.x * b.y * b.z) (sym same) (omega (arith, p))) before)

num_blocks-eq :
    (k : KernelInfo)
    → Countable k.grid_dim
    → num_blocks k ≡ k.grid_dim.x * k.grid_dim.y * k.grid_dim.z
num_blocks-eq k c =
    let whole = area-le (k.grid_dim.x * k.grid_dim.y) k.grid_dim.z c.deep in
    let area : k.grid_dim.x * k.grid_dim.y < u32_mod = omega (arith, whole, c.narrow) in
    rw (mod-eq_of_lt area) (omega (arith, c.narrow))

At-place :
    (k : KernelInfo) (n : ℕ)
    → At k n
    → (place_of k.grid_dim k.next_cta ≡ n)
      × (no_more_ctas_to_run k ≡ (n == k.grid_dim.x * k.grid_dim.y * k.grid_dim.z))
unfolding no_more_ctas_to_run
At-place k n (inside s is) =
    let below = place_of-lt k.grid_dim k.next_cta s in
    (is, ground (arith, is, below, s.in_x, s.in_y, s.in_z))
At-place k n (behind end is) = (
  ap (place_of k.grid_dim) end ∙ omega (arith, is),
  ground (arith, is, ap (λ (d : Dim3). d.z) end),
)

-- Of a kernel that starts at the origin of a grid with sides that are not 0 and fewer than 2 ^
-- 32 blocks, the CTA that comes after n increments is the number n, and no CTA is left exactly
-- after as many increments as there are blocks: each block is launched once, in linear order.
pub walk-ctas :
    (n : ℕ) (k : KernelInfo)
    → Countable k.grid_dim
    → k.next_cta ≡ origin
    → n ≤ num_blocks k
    → (get_next_cta_id_single (walk n k) ≡ n)
      × (no_more_ctas_to_run (walk n k) ≡ (n == num_blocks k))
walk-ctas n k c start p =
    let blocks = num_blocks-eq k c in
    let same = walk-grid n k in
    let (is, last) = At-place (walk n k) n (walk-At n k c start (omega (arith, p, blocks))) in
    let fits : place_of (walk n k).grid_dim (walk n k).next_cta < u32_mod =
      omega (arith, is, p, blocks, c.narrow) in
    (
      linear-eq (walk n k).grid_dim (walk n k).next_cta (subst Countable (sym same) c) fits ∙ is,
      last ∙ ap (λ (b : ℕ). n == b) (ap (λ (d : Dim3). d.x * d.y * d.z) same ∙ sym blocks),
    )
