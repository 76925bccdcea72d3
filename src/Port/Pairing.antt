-- ===== src/Port/Pairing.antt =====
-- `wasp_rfq_key_for_warp` of shader.cc: which warps share a queue.
use dae_proj.Base.{
  ℕ, ◌+◌, ◌*◌, ◌%◌, ◌≡◌, ◌<◌, ap, ◌∙◌, some, get_elem?, ok, arith, lt-length_of_get_elem?,
}
use native.Mathlib.Nat.{mul-add-mod_self_right, mod-eq_of_lt}
use dae_proj.Rfq.Keys.{Key}
use dae_proj.Port.{Side, Layout, key_for_warp, warps_per_cta_of, producer_warps_of, original_warp}

abbrev pub warps_in_cta : Side → Layout → ℕ
warps_in_cta side layout = warps_per_cta_of layout.padded_threads_per_cta side.warp_size

abbrev pub producers_in_cta : Side → Layout → ℕ
producers_in_cta side layout =
    producer_warps_of side.metadata_producer_warps_per_cta (warps_in_cta side layout)

abbrev pub queue_key : ℕ → ℕ → ℕ → Key
queue_key cta original queue_id = record {
  cta_hw_id = cta;
  original_warp_id = original;
  src_stage_id = 0;
  dst_stage_id = 1;
  queue_id = queue_id;
}

key_for_warp-eq :
    (side : Side) (layout : Layout) (warp_id queue_id cta : ℕ)
    → producers_in_cta side layout < warps_in_cta side layout
    → get_elem? layout.warp_ctas warp_id ≡ some cta
    → key_for_warp side layout warp_id queue_id
      ≡ ok (
          queue_key cta
            (original_warp (warp_id % warps_in_cta side layout) (producers_in_cta side layout))
            queue_id)
unfolding key_for_warp
key_for_warp-eq side layout warp_id queue_id cta fewer there =
    ground (arith, lt-length_of_get_elem? layout.warp_ctas warp_id cta there)

local-eq : (c w l : ℕ) → l < w → (c * w + l) % w ≡ l
local-eq c w l h = mul-add-mod_self_right c w l ∙ mod-eq_of_lt h

original-producer : (l p : ℕ) → l < p → original_warp l p ≡ l
original-producer l p h = ground arith

original-consumer : (l p : ℕ) → original_warp (p + l) p ≡ l
original-consumer l p = ground arith

-- A producer warp, and the consumer warp that stands as many producers behind it in the same
-- CTA, get the same key, and so use the same queue for each queue number.
pub key_for_warp_pairs :
    (side : Side) (layout : Layout) (c l queue_id cta : ℕ)
    → producers_in_cta side layout < warps_in_cta side layout
    → l < producers_in_cta side layout
    → producers_in_cta side layout + l < warps_in_cta side layout
    → get_elem? layout.warp_ctas (c * warps_in_cta side layout + l) ≡ some cta
    → get_elem? layout.warp_ctas (c * warps_in_cta side layout + (producers_in_cta side layout + l))
      ≡ some cta
    → (key_for_warp side layout (c * warps_in_cta side layout + l) queue_id
        ≡ ok (queue_key cta l queue_id))
      × (key_for_warp side layout
            (c * warps_in_cta side layout + (producers_in_cta side layout + l))
            queue_id
          ≡ ok (queue_key cta l queue_id))
key_for_warp_pairs side layout c l queue_id cta fewer is_producer is_consumer p q = (
  key_for_warp-eq side layout _ queue_id cta fewer p
      ∙ ap (λ (n : ℕ). ok (queue_key cta n queue_id))
          (ap (λ (m : ℕ). original_warp m (producers_in_cta side layout))
              (local-eq c (warps_in_cta side layout) l (omega arith))
            ∙ original-producer l (producers_in_cta side layout) is_producer),
  key_for_warp-eq side layout _ queue_id cta fewer q
      ∙ ap (λ (n : ℕ). ok (queue_key cta n queue_id))
          (ap (λ (m : ℕ). original_warp m (producers_in_cta side layout))
              (local-eq c (warps_in_cta side layout) (producers_in_cta side layout + l) is_consumer)
            ∙ original-consumer l (producers_in_cta side layout)),
)

-- Two warps that are both producers and get the same key have the same place in their CTA, the
-- same CTA and the same queue number.
pub key_for_warp_apart :
    (side : Side) (layout : Layout) (v w i j : ℕ) (key : Key)
    → v % warps_in_cta side layout < producers_in_cta side layout
    → w % warps_in_cta side layout < producers_in_cta side layout
    → key_for_warp side layout v i ≡ ok key
    → key_for_warp side layout w j ≡ ok key
    → (v % warps_in_cta side layout ≡ w % warps_in_cta side layout)
      × (get_elem? layout.warp_ctas v ≡ get_elem? layout.warp_ctas w)
      × (i ≡ j)
unfolding key_for_warp
key_for_warp_apart side layout v w i j key pv pw h k = ground arith
