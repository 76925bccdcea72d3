-- ===== src/Warp/Buffer.antt =====
-- The instruction buffer of a warp of gpgpu-sim/shader.h beside its count of instructions in the
-- pipeline.
use dae_proj.Base.{
  ℕ, zero, suc, ◌+◌, ◌-◌, ◌<◌, ◌≤◌, ◌≡◌, ◌⊎◌, inl, inr, refl, sym, subst, Option-cases,
  Result-cases, Bool-cases, true, List, Option, some, [], ◌∷◌, length, set, replicate,
  length-replicate, length-set, ok, arith, u32_mod,
}
use dae_proj.Warp.{
  Warp, IbufferEntry, no_entry, count_valid, flush_slots, ibuffer_flush, ibuffer_fill, filled,
  ibuffer_free, ibuffer_step, ibuffer_size, inc_inst_in_pipeline, dec_inst_in_pipeline,
  num_inst_in_buffer, num_issued_inst_in_pipeline,
}
use dae_proj.Warp.Decode.{decode, decode_at, FetchBuffer, OperandType, DecodeCounts}

-- Each valid slot of the buffer is an instruction that the pipeline counts.
pub record Buffered {ℓ} {I : Type ℓ} (w : Warp I) : Type 0 where
  pub slots : length w.ibuffer ≡ ibuffer_size
  pub next_slot : w.next < ibuffer_size
  pub covered : count_valid w.ibuffer ≤ w.inst_in_pipeline
  pub narrow : w.inst_in_pipeline < u32_mod

module _ {ℓ} {I : Type ℓ} where
  count_valid-set :
      (es : List (IbufferEntry I)) (i : ℕ) (e : IbufferEntry I)
      → count_valid (set es i e) ≤ count_valid es + 1
  unfolding count_valid
  count_valid-set [] i e = omega arith
  count_valid-set (x ∷ es) zero e = ground arith
  count_valid-set (x ∷ es) (suc i) e = let rest = count_valid-set es i e in ground (arith, rest)

  count_valid-free :
      (es : List (IbufferEntry I)) (i : ℕ) → count_valid (set es i no_entry) ≤ count_valid es
  unfolding count_valid
  count_valid-free [] i = omega arith
  count_valid-free (x ∷ es) zero = ground arith
  count_valid-free (x ∷ es) (suc i) = let rest = count_valid-free es i in ground (arith, rest)

  count_valid-replicate :
      (es : List (IbufferEntry I)) → count_valid (replicate (length es) (no_entry {I = I})) ≡ 0
  unfolding count_valid
  count_valid-replicate [] = refl
  count_valid-replicate (x ∷ es) = omega (arith, count_valid-replicate es)

  flush_slots_lem :
      (n : ℕ) (es : List (IbufferEntry I))
      → count_valid es ≤ n
      → flush_slots n es ≡ ok (n - count_valid es, replicate (length es) no_entry)
  unfolding flush_slots count_valid
  flush_slots_lem n [] p = ground arith
  flush_slots_lem n (x ∷ es) p = elim (Bool-cases x.valid) [
    | inl e ↦
        let rest = flush_slots_lem (n - 1) es (ground (arith, e, p)) in ground (arith, e, p, rest)
    | inr e ↦ let rest = flush_slots_lem n es (ground (arith, e, p)) in ground (arith, e, p, rest)
  ]

  -- A flush of a covered buffer never fails.
  pub ibuffer_flush_total :
      (w : Warp I)
      → Buffered w
      → ibuffer_flush w
        ≡ ok (record w {
          inst_in_pipeline = w.inst_in_pipeline - num_inst_in_buffer w;
          ibuffer = replicate (length w.ibuffer) no_entry;
        })
  unfolding ibuffer_flush
  ibuffer_flush_total w b = rw (flush_slots_lem w.inst_in_pipeline w.ibuffer b.covered) refl

  flushed-Buffered : (w w' : Warp I) → Buffered w → ibuffer_flush w ≡ ok w' → Buffered w'
  flushed-Buffered w w' b h =
      let is = ibuffer_flush_total w b in
      let none_left = count_valid-replicate w.ibuffer in
      let size = length-replicate (length w.ibuffer) (no_entry {I = I}) in
      record {
        slots = ground (arith, h, is, size, b.slots);
        next_slot = ground (arith, h, is, b.next_slot);
        covered = ground (arith, h, is, none_left);
        narrow = ground (arith, h, is, b.narrow);
      }

  filled-Buffered :
      (w : Warp I) (slot : ℕ) (inst : Option I)
      → Buffered w
      → w.inst_in_pipeline + 1 < u32_mod
      → Buffered (inc_inst_in_pipeline (filled w slot inst))
  filled-Buffered w slot inst b room =
      let size = length-set w.ibuffer slot (record { inst = inst; valid = true }) in
      let more = count_valid-set w.ibuffer slot (record { inst = inst; valid = true }) in
      record {
        slots = ground (arith, size, b.slots);
        next_slot = ground arith;
        covered = ground (arith, more, b.covered, room);
        narrow = ground (arith, room);
      }

module _ {ℓ} {I : Type ℓ} (isize : I → ℕ) (oprnd_type : I → OperandType) where
  -- What a core does to the buffer and the pipeline of a warp: it decodes into it, takes an
  -- instruction out, moves on, flushes, and an instruction that was issued leaves the pipeline.
  pub data Step : Warp I → Warp I → Type ℓ where
    decoded :
        {w w' : Warp I} (get_next_inst : ℕ → Option I) (b b' : FetchBuffer) (c c' : DecodeCounts)
        → w.inst_in_pipeline + 2 < u32_mod
        → decode isize oprnd_type get_next_inst b w c ≡ ok (b', w', c')
        → Step w w'
    freed : {w : Warp I} → Step w (ibuffer_free w)
    stepped : {w : Warp I} → Step w (ibuffer_step w)
    flushed : {w w' : Warp I} → ibuffer_flush w ≡ ok w' → Step w w'
    retired :
        {w w' : Warp I}
        → 0 < num_issued_inst_in_pipeline w
        → dec_inst_in_pipeline w ≡ ok w'
        → Step w w'

  pub data Run : Warp I → Warp I → Type ℓ where
    here : {w : Warp I} → Run w w
    then_step : {v w w' : Warp I} → Run v w → Step w w' → Run v w'

  decode_at-cases :
      (get_next_inst : ℕ → Option I) (w w' : Warp I) (pc : ℕ) (c c' : DecodeCounts)
      → decode_at isize oprnd_type get_next_inst w c pc ≡ ok (w', c')
      → (w' ≡ inc_inst_in_pipeline (filled w 0 (get_next_inst pc)))
        ⊎ ((second : I) × (w'
              ≡ inc_inst_in_pipeline
                  (filled (inc_inst_in_pipeline (filled w 0 (get_next_inst pc))) 1 (some second))))
  unfolding decode_at ibuffer_fill
  decode_at-cases get_next_inst w w' pc c c' h = elim (Option-cases (get_next_inst pc)) [
    | inl e ↦ inl (ground (arith, h, e))
    | inr (first, e) ↦ elim (Option-cases (get_next_inst (pc + isize first))) [
      | inl e2 ↦ inl (ground (arith, h, e, e2))
      | inr (second, e2) ↦ inr (second, ground (arith, h, e, e2))
    ]
  ]

  decode_at-Buffered :
      (get_next_inst : ℕ → Option I) (w w' : Warp I) (pc : ℕ) (c c' : DecodeCounts)
      → Buffered w
      → w.inst_in_pipeline + 2 < u32_mod
      → decode_at isize oprnd_type get_next_inst w c pc ≡ ok (w', c')
      → Buffered w'
  decode_at-Buffered get_next_inst w w' pc c c' b room h =
      let one = filled-Buffered w 0 (get_next_inst pc) b (omega (arith, room)) in
      elim (decode_at-cases get_next_inst w w' pc c c' h) [
        | inl is ↦ subst Buffered (sym is) one
        | inr (second, is) ↦ subst Buffered (sym is) (
            filled-Buffered (inc_inst_in_pipeline (filled w 0 (get_next_inst pc))) 1 (some second)
              one (omega (arith, room)))
      ]

  decode-Buffered :
      (get_next_inst : ℕ → Option I) (w w' : Warp I) (f f' : FetchBuffer) (c c' : DecodeCounts)
      → Buffered w
      → w.inst_in_pipeline + 2 < u32_mod
      → decode isize oprnd_type get_next_inst f w c ≡ ok (f', w', c')
      → Buffered w'
  unfolding decode
  decode-Buffered get_next_inst w w' f f' c c' b room h = elim (Bool-cases f.valid) [
    | inr e ↦ subst Buffered {x = w} {y = w'} (ground (arith, h, e)) b
    | inl e ↦ elim (Result-cases (decode_at isize oprnd_type get_next_inst w c f.pc)) [
      | inr (why, e1) ↦ absurd (ground (arith, h, e, e1))
      | inl ((v, d), e1) ↦
          subst Buffered {x = v} {y = w'} (ground (arith, h, e, e1))
            (decode_at-Buffered get_next_inst w v f.pc c d b room e1)
    ]
  ]

  Step-Buffered : {w w' : Warp I} → Buffered w → Step w w' → Buffered w'
  unfolding dec_inst_in_pipeline
  Step-Buffered b (decoded get_next_inst f f' c c' room h) =
      decode-Buffered get_next_inst _ _ f f' c c' b room h
  Step-Buffered {w = w} b freed = record {
    slots = ground (arith, length-set w.ibuffer w.next (no_entry {I = I}), b.slots);
    next_slot = b.next_slot;
    covered = ground (arith, count_valid-free w.ibuffer w.next, b.covered);
    narrow = b.narrow;
  }
  Step-Buffered b stepped = record {
    slots = b.slots;
    next_slot = omega arith;
    covered = b.covered;
    narrow = b.narrow;
  }
  Step-Buffered b (flushed h) = flushed-Buffered _ _ b h
  Step-Buffered {w = w} b (retired busy h) = record {
    slots = ground (arith, h, b.slots);
    next_slot = ground (arith, h, b.next_slot);
    covered = ground (arith, h, busy, b.covered, b.narrow);
    narrow = ground (arith, h, b.narrow);
  }

  Run-Buffered : {v w : Warp I} → Buffered v → Run v w → Buffered w
  Run-Buffered b here = b
  Run-Buffered b (then_step r s) = Step-Buffered (Run-Buffered b r) s

  count_valid-of_flushed :
      (w : Warp I) → count_valid (replicate (length w.ibuffer) (no_entry {I = I})) ≡ 0
  count_valid-of_flushed w = count_valid-replicate w.ibuffer

  -- From a warp whose valid buffer slots are all counted in its pipeline, after any history
  -- of decoding, taking instructions out, moving on, flushing and retiring issued
  -- instructions, a flush of the buffer does not fail: it empties the buffer and leaves
  -- exactly the issued instructions in the pipeline. Fewer than 2 ^ 32 instructions are in
  -- flight.
  pub Run-flush :
      {v w : Warp I}
      → Buffered v
      → Run v w
      → (w' : Warp I) × (ibuffer_flush w ≡ ok w')
        × (num_inst_in_buffer w' ≡ 0)
        × (w'.inst_in_pipeline ≡ num_issued_inst_in_pipeline w)
  Run-flush {w = w} b r =
      let b' = Run-Buffered b r in
      (_, ibuffer_flush_total w b', count_valid-of_flushed w, ground (arith, b'.covered, b'.narrow))
