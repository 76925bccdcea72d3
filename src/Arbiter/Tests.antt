-- ===== src/Arbiter/Tests.antt =====
-- The arbiter of gpgpu-sim/shader.cc at concrete inputs.
use dae_proj.Base.{ℕ, ◌+◌, ◌%◌, ◌≡◌, refl, true, [], ◌∷◌, ok, arith}
use dae_proj.Arbiter.{RegOp, Alloc, Arbiter, allocate_reads, check_heads}
use dae_proj.Arbiter.Reads.{read_heads, allocate_reads-eq}

abbrev operand : ℕ → ℕ → RegOp
operand bank oc = record { valid = true; bank = bank; oc_id = oc }

-- Banks 0 and 1 are asked for collector 1, and bank 2 is written.
abbrev busy_arbiter : Arbiter
busy_arbiter = record {
  num_collectors = 2;
  banks =
      record { queue = operand 0 1 ∷ (operand 0 0 ∷ []); allocation = Alloc.no_alloc }
      ∷ (record { queue = operand 1 1 ∷ []; allocation = Alloc.no_alloc }
          ∷ (record { queue = operand 2 0 ∷ []; allocation = Alloc.write_alloc (operand 2 1) }
              ∷ []));
  last_cu = 1;
}

-- Both reads go to the same collector.
busy_reads : (read_heads busy_arbiter.banks).0 ≡ operand 0 1 ∷ (operand 1 1 ∷ [])
unfolding read_heads
busy_reads = refl

allocate_reads-eq_example :
    allocate_reads busy_arbiter
    ≡ ok (
      (read_heads busy_arbiter.banks).0,
      record busy_arbiter { banks = (read_heads busy_arbiter.banks).1; last_cu = (1 + 1) % 2 },
    )
unfolding check_heads
allocate_reads-eq_example = allocate_reads-eq busy_arbiter (omega arith) refl
