-- ===== src/Ldst/Outputs.antt =====
-- The output registers of a load: what its issue and one response do to their pending writes.
use dae_proj.Base.{
  ℕ, zero, suc, ◌+◌, ◌-◌, ◌<◌, ◌≡◌, refl, ap, ◌∙◌, subst, Bool, true, false, not, ◌&&◌, ◌||◌, inl,
  inr, List, [], ◌∷◌, length, ltb, ◌==◌, if◌then◌else◌, ok, add32, u32_mod, Bool-cases, ==→eq,
  arith,
}
use dae_proj.Ldst.{
  MemInst, Memory, MemConfig, Ldst, is_shared, pending_of, put_pending, add_pending,
}
use dae_proj.Ldst.Writeback.{write_output, write_all}
use dae_proj.Ldst.Latency.{with_release}

-- Whether a register is an output.
abbrev pub listed : ℕ → List ℕ → Bool
listed q [] = false
listed q (r ∷ rs) = (r == q) && ltb 0 r || listed q rs

-- No output register is named twice.
abbrev pub distinct : List ℕ → Bool
distinct [] = true
distinct (r ∷ rs) = not (ltb 0 r && listed r rs) && distinct rs

abbrev pub some_output : List ℕ → Bool
some_output [] = false
some_output (r ∷ rs) = ltb 0 r || some_output rs

listed-tail : (q r : ℕ) (rs : List ℕ) → listed q rs ≡ true → listed q (r ∷ rs) ≡ true
listed-tail q r rs h = ground (arith, h)

listed-head : (r : ℕ) (rs : List ℕ) → listed (suc r) (suc r ∷ rs) ≡ true
listed-head r rs = ground arith

distinct-tail : (r : ℕ) (rs : List ℕ) → distinct (r ∷ rs) ≡ true → distinct rs ≡ true
distinct-tail r rs d = ground (arith, d)

distinct-head :
    (q r : ℕ) (rs : List ℕ)
    → distinct (suc r ∷ rs) ≡ true
    → listed q rs ≡ true
    → (q == suc r) ≡ false
distinct-head q r rs d h = elim (Bool-cases (q == suc r)) [
  | inl e ↦
      let same = ==→eq q (suc r) e in
      absurd (ground (arith, d, subst (λ (x : ℕ). listed x rs ≡ true) same h))
  | inr e ↦ e
]

pub positive : (r : ℕ) → ltb 0 (suc r) ≡ true
positive r = ground arith

pub not_zero : (r : ℕ) → (suc r == 0) ≡ false
not_zero r = ground arith

pub not_one : (r : ℕ) → (suc (suc r) == 1) ≡ false
not_one r = ground arith

pub minus_one : (r : ℕ) → suc r - 1 ≡ r
minus_one r = omega arith

pub last_or_later :
    (done some_left : Bool) (n : ℕ) → (done || (n == 0)) || some_left && (n == 0) ≡ done || (n == 0)
last_or_later true some_left n = refl
last_or_later false some_left n = ground arith

pub later : (k n : ℕ) → (k + suc n == 0) ≡ false
later k n = ground arith

pub counted : (held n : ℕ) → held ≡ 0 → n < u32_mod → add32 held n ≡ n
counted held n h p = omega (arith, h, p)

module _ {I E : Type 0} where
  -- The outputs wait for `n` writes each.
  abbrev pub AllPending : Ldst I E → MemInst → List ℕ → ℕ → Type 0
  AllPending s i rs n = (q : ℕ) → listed q rs ≡ true → pending_of s i q ≡ n

  pending-put_pending :
      (s : Ldst I E) (i : MemInst) (r n q : ℕ)
      → pending_of (put_pending s i r n) i q ≡ (if q == r then n else pending_of s i q)
  pending-put_pending s i r n q = ground arith

  AllPending-put_pending :
      (s : Ldst I E) (i : MemInst) (r : ℕ) (rs : List ℕ) (n k : ℕ)
      → distinct (suc r ∷ rs) ≡ true
      → AllPending s i (suc r ∷ rs) n
      → AllPending (put_pending s i (suc r) k) i rs n
  AllPending-put_pending s i r rs n k d all q h =
      let apart = distinct-head q r rs d h in
      ground (arith, all q (listed-tail q (suc r) rs h), apart)

  add_pending-step :
      (s : Ldst I E) (i : MemInst) (r : ℕ) (rs : List ℕ)
      → add_pending s i (suc r ∷ rs)
        ≡ add_pending
            (put_pending s i (suc r) (add32 (pending_of s i (suc r)) (length i.accesses)))
            i
            rs
  unfolding add_pending
  add_pending-step s i r rs = rw (positive r) refl

  -- `issue` counts the accesses for each output.
  pub add_pending-AllPending :
      (s : Ldst I E) (i : MemInst) (rs : List ℕ) (q : ℕ)
      → distinct rs ≡ true
      → AllPending s i rs 0
      → length i.accesses < u32_mod
      → pending_of (add_pending s i rs) i q
        ≡ (if listed q rs then length i.accesses else pending_of s i q)
  unfolding add_pending
  add_pending-AllPending s i [] q d all p = refl
  add_pending-AllPending s i (zero ∷ rs) q d all p = ground (
    arith,
    add_pending-AllPending s i rs q (distinct-tail 0 rs d) (λ x h. all x (listed-tail x 0 rs h)) p,
  )
  add_pending-AllPending s i (suc r ∷ rs) q d all p =
      let held = all (suc r) (listed-head r rs) in
      let n = add32 (pending_of s i (suc r)) (length i.accesses) in
      let count : n ≡ length i.accesses =
        counted (pending_of s i (suc r)) (length i.accesses) held p in
      let rest =
        add_pending-AllPending (put_pending s i (suc r) n) i rs q (distinct-tail (suc r) rs d)
          (AllPending-put_pending s i r rs 0 n d all) p in
      ground (arith, rest, count, pending-put_pending s i (suc r) n q)

  pub add_pending-stats :
      (s : Ldst I E) (i : MemInst) (rs : List ℕ) → (add_pending s i rs).stats ≡ s.stats
  unfolding add_pending
  add_pending-stats s i [] = refl
  add_pending-stats s i (zero ∷ rs) = add_pending-stats s i rs
  add_pending-stats s i (suc r ∷ rs) = rw (add_pending-step s i r rs) (
      add_pending-stats
        (put_pending s i (suc r) (add32 (pending_of s i (suc r)) (length i.accesses))) i rs)

module _ {I E : Type 0} (m : Memory E) (c : MemConfig) where
  -- What one response leaves.
  abbrev pub Written : Ldst I E → MemInst → List ℕ → Ldst I E → Type 0
  Written s i rs r =
      ((q : ℕ)
        → pending_of r i q ≡ (if listed q rs then pending_of s i q - 1 else pending_of s i q))
      × (r.stats ≡ s.stats)

  -- The unit after a write of one register that waits for `n` more.
  abbrev after_write : Ldst I E → MemInst → ℕ → ℕ → Ldst I E
  after_write s i r zero = with_release m c (put_pending s i r 0) i r
  after_write s i r (suc n) = put_pending s i r (suc n)

  write_output-eq :
      (s : Ldst I E) (i : MemInst) (r n : ℕ)
      → is_shared i.space ≡ false
      → pending_of s i r ≡ suc n
      → write_output m c s i r ≡ ok (n == 0, after_write s i r n)
  unfolding write_output
  write_output-eq s i r zero sh held = rw (sh, held) refl
  write_output-eq s i r (suc n) sh held =
      rw (sh, held) (rw (positive (suc n), not_one n, not_zero n, minus_one (suc n)) refl)

  after_write-pending :
      (s : Ldst I E) (i : MemInst) (r n : ℕ)
      → (q : ℕ) → pending_of (after_write s i r n) i q ≡ (if q == r then n else pending_of s i q)
  after_write-pending s i r zero q = pending-put_pending s i r 0 q
  after_write-pending s i r (suc n) q = pending-put_pending s i r (suc n) q

  after_write-stats : (s : Ldst I E) (i : MemInst) (r n : ℕ) → (after_write s i r n).stats ≡ s.stats
  after_write-stats s i r zero = refl
  after_write-stats s i r (suc n) = refl

  write_all-step :
      (done : Bool) (s : Ldst I E) (i : MemInst) (r n : ℕ) (rs : List ℕ)
      → is_shared i.space ≡ false
      → pending_of s i (suc r) ≡ suc n
      → write_all m c done s i (suc r ∷ rs)
        ≡ write_all m c (done || (n == 0)) (after_write s i (suc r) n) i rs
  unfolding write_all
  write_all-step done s i r n rs sh held =
      rw (positive r) (rw (write_output-eq s i (suc r) n sh held) refl)

  pub write_all-Written :
      (done : Bool) (s : Ldst I E) (i : MemInst) (rs : List ℕ) (n : ℕ)
      → i.m_is_ldgsts ≡ false
      → is_shared i.space ≡ false
      → distinct rs ≡ true
      → AllPending s i rs (suc n)
      → (r : Ldst I E) × (write_all m c done s i rs ≡ ok (done || some_output rs && (n == 0), r))
        × Written s i rs r
  unfolding write_all
  write_all-Written done s i [] n g sh d all = (s, ground arith, ((λ q. refl), refl))
  write_all-Written done s i (zero ∷ rs) n g sh d all =
      let (r, e, written) =
        write_all-Written done s i rs n g sh (distinct-tail 0 rs d)
          (λ x h. all x (listed-tail x 0 rs h)) in
      (r, ground (arith, g, e), ((λ x. ground (arith, written.0 x)), written.1))
  write_all-Written done s i (suc q ∷ rs) n g sh d all =
      let s' = after_write s i (suc q) n in
      let (r, e, written) =
        write_all-Written (done || (n == 0)) s' i rs n g sh (distinct-tail (suc q) rs d) (λ x h.
          ground (
            arith,
            after_write-pending s i (suc q) n x,
            all x (listed-tail x (suc q) rs h),
            distinct-head x q rs d h,
          )) in
      (
        r,
        write_all-step done s i q n rs sh (all (suc q) (listed-head q rs))
            ∙ e
            ∙ ap (λ (b : Bool). ok (b, r))
                (last_or_later done (some_output rs) n ∙ rw (positive q) refl),
        (
          (λ x. ground (
            arith,
            written.0 x,
            after_write-pending s i (suc q) n x,
            all (suc q) (listed-head q rs),
            distinct-head x q rs d,
          )),
          written.1 ∙ after_write-stats s i (suc q) n,
        ),
      )
