-- ===== src/Rfq/Keys.antt =====
-- `wasp_rfq_key` of wasp-rfq.h and its `operator<`, by which `std::map` orders and compares keys.
use dae_proj.Base.{ℕ, Bool, true, false, not, ◌&&◌, ltb, ◌==◌, if◌then◌else◌, ◌≡◌, arith}

pub record Key : Type 0 where
  pub cta_hw_id : ℕ
  pub original_warp_id : ℕ
  pub src_stage_id : ℕ
  pub dst_stage_id : ℕ
  pub queue_id : ℕ

abbrev pub default_key : Key
default_key = record {
  cta_hw_id = 0;
  original_warp_id = 0;
  src_stage_id = 0;
  dst_stage_id = 1;
  queue_id = 0;
}

unfoldable pub key_lt : Key → Key → Bool
key_lt a b =
    if not (a.cta_hw_id == b.cta_hw_id)
    then ltb a.cta_hw_id b.cta_hw_id
    else if not (a.original_warp_id == b.original_warp_id)
    then ltb a.original_warp_id b.original_warp_id
    else if not (a.src_stage_id == b.src_stage_id)
    then ltb a.src_stage_id b.src_stage_id
    else if not (a.dst_stage_id == b.dst_stage_id)
    then ltb a.dst_stage_id b.dst_stage_id
    else ltb a.queue_id b.queue_id

-- Keys are the same to a `std::map` when neither is before the other.
unfoldable pub same_key : Key → Key → Bool
unfolding key_lt
same_key a b = not (key_lt a b) && not (key_lt b a)

pub key_lt_irrefl : (a : Key) → key_lt a a ≡ false
unfolding key_lt
key_lt_irrefl a = ground arith

-- The operator< of keys is transitive.
pub key_lt_trans : (a b c : Key) → key_lt a b ≡ true → key_lt b c ≡ true → key_lt a c ≡ true
unfolding key_lt
key_lt_trans a b c h k = ground arith

-- Two keys neither of which is before the other by operator< are equal in all five fields, so
-- the map never takes two keys for one.
pub eq_of_same_key : (a b : Key) → same_key a b ≡ true → a ≡ b
unfolding same_key
eq_of_same_key a b h = ground arith

pub same_key_refl : (a : Key) → same_key a a ≡ true
unfolding same_key
same_key_refl a = ground arith
