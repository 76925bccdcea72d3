-- ===== src/Warp/Threads.antt =====
-- The threads of a warp of gpgpu-sim/shader.h: `init`, `set_completed` and `functional_done`, and
-- the use of a warp again after it is done.
use dae_proj.Base.{
  ℕ, zero, suc, sym, subst, ◌∙◌, add32, bind-ok, ◌+◌, ◌<◌, ◌≤◌, ◌≡◌, inl, inr, refl, Bool-cases,
  true, List, [], ◌∷◌, length, ◌==◌, Result, ok, ◌>>=◌, arith,
}
use dae_proj.Barrier.{remove_warp, count_of}
use dae_proj.Warp.{
  Warp, LaneSet, wiped, launched, max_warp_size, reset, init, set_completed, functional_done,
  hardware_done,
}

-- The threads that have completed and those that have not are the warp.
pub record Counted {ℓ} {I : Type ℓ} (w : Warp I) : Type 0 where
  pub narrow : w.warp_size ≤ max_warp_size
  pub parts : w.n_completed + count_of max_warp_size w.active_threads ≡ w.warp_size

count_of-remove_absent :
    (n : ℕ) (s : LaneSet) (v : ℕ) → n ≤ v → count_of n (remove_warp s v) ≡ count_of n s
unfolding count_of
count_of-remove_absent zero s v p = refl
count_of-remove_absent (suc n) s v p =
    let rest = count_of-remove_absent n s v (omega (arith, p)) in ground (arith, p, rest)

count_of-remove :
    (n : ℕ) (s : LaneSet) (v : ℕ)
    → v < n
    → s v ≡ true
    → count_of n (remove_warp s v) + 1 ≡ count_of n s
unfolding count_of
count_of-remove zero s v p h = absurd (omega arith)
count_of-remove (suc n) s v p h = elim (Bool-cases (n == v)) [
  | inl e ↦
      let is : n ≡ v = ground arith in
      let rest = count_of-remove_absent n s v (omega (arith, is)) in ground (arith, h, rest, is)
  | inr e ↦ let rest = count_of-remove n s v (ground (arith, e, p)) h in ground (arith, h, rest, e)
]

module _ {ℓ} {I : Type ℓ} where
  abbrev completed_after : Warp I → ℕ → Warp I
  completed_after w lane = record w {
    active_threads = remove_warp w.active_threads lane;
    n_completed = add32 w.n_completed 1;
  }

  set_completed-inversion :
      (w w' : Warp I) (lane : ℕ)
      → set_completed w lane ≡ ok w'
      → (lane < max_warp_size) × (w.active_threads lane ≡ true) × (w' ≡ completed_after w lane)
  unfolding set_completed
  set_completed-inversion w w' lane h = ground (arith, h)

  set_completed-Counted :
      (w w' : Warp I) (lane : ℕ)
      → Counted w
      → set_completed w lane ≡ ok w'
      → Counted w'
        × (w'.warp_size ≡ w.warp_size)
        × (count_of max_warp_size w'.active_threads + 1 ≡ count_of max_warp_size w.active_threads)
  set_completed-Counted w w' lane c h =
      let (p, active, is) = set_completed-inversion w w' lane h in
      let fewer = count_of-remove max_warp_size w.active_threads lane p active in
      subst
        (λ (u : Warp I).
          Counted u
          × (u.warp_size ≡ w.warp_size)
          × (count_of max_warp_size u.active_threads + 1 ≡ count_of max_warp_size w.active_threads))
        (sym is)
        (
          record { narrow = c.narrow; parts = ground (arith, fewer, c.parts, c.narrow) },
          refl,
          fewer,
        )

  -- The threads of the lanes exit, one after the other.
  unfoldable pub complete_all : Warp I → List ℕ → Result (Warp I)
  complete_all w [] = ok w
  complete_all w (lane ∷ lanes) = set_completed w lane >>= λ w'. complete_all w' lanes

  complete_all-Counted :
      (lanes : List ℕ) (w w' : Warp I)
      → Counted w
      → complete_all w lanes ≡ ok w'
      → Counted w'
        × (count_of max_warp_size w'.active_threads + length lanes
            ≡ count_of max_warp_size w.active_threads)
  unfolding complete_all
  complete_all-Counted [] w w' c h =
      subst
        (λ (u : Warp I).
          Counted u
          × (count_of max_warp_size u.active_threads + 0 ≡ count_of max_warp_size w.active_threads))
        (ground (arith, h)) (c, omega arith)
  complete_all-Counted (lane ∷ lanes) w w' c h =
      let (v, e, h') = bind-ok (set_completed w lane) (λ w'. complete_all w' lanes) w' h in
      let (c1, size, fewer) = set_completed-Counted w v lane c e in
      let (c2, rest) = complete_all-Counted lanes v w' c1 h' in (c2, omega (arith, fewer, rest))

  functional_done-none_active :
      (w : Warp I)
      → Counted w
      → (functional_done w ≡ (count_of max_warp_size w.active_threads == 0))
  unfolding functional_done
  functional_done-none_active w c = ground (arith, c.parts)

  -- When the completed and the active threads of a warp make up its size, and the threads of
  -- some lanes exit one after the other without a failed assertion, the warp is functionally
  -- done exactly when as many lanes have exited as were active.
  pub complete_all-done :
      (w w' : Warp I) (lanes : List ℕ)
      → Counted w
      → complete_all w lanes ≡ ok w'
      → functional_done w' ≡ (length lanes == count_of max_warp_size w.active_threads)
  complete_all-done w w' lanes c h =
      let (c', left) = complete_all-Counted lanes w w' c h in
      functional_done-none_active w' c' ∙ ground (arith, left)

  -- A warp that is done in hardware can be used again: resetting it and launching it with no
  -- more threads than its size succeeds, the completed and the active threads then make up
  -- its size, and it is done exactly when it was launched with no thread.
  pub reset-init :
      (w : Warp I) (start_pc cta wid dynamic stream : ℕ) (active : LaneSet)
      → w.warp_size ≤ max_warp_size
      → hardware_done w ≡ true
      → count_of max_warp_size active ≤ w.warp_size
      → (w' : Warp I) × ((reset w >>= λ v. init v start_pc cta wid active dynamic stream) ≡ ok w')
        × Counted w'
        × (w'.active_threads ≡ active)
        × (functional_done w' ≡ (count_of max_warp_size active == 0))
  unfolding reset init hardware_done functional_done
  reset-init w start_pc cta wid dynamic stream active small idle fits =
      let stores : w.stores_outstanding ≡ 0 = ground (arith, idle) in
      let pipe : w.inst_in_pipeline ≡ 0 = ground (arith, idle) in
      (
        launched (wiped w) start_pc cta wid active dynamic stream,
        ground (arith, stores, pipe, fits),
        record { narrow = small; parts = omega (arith, fits) },
        refl,
        ground (arith, fits),
      )
