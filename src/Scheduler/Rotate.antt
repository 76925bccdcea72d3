-- ===== src/Scheduler/Rotate.antt =====
-- `order_lrr` of gpgpu-sim/shader.cc as a rotation.
use dae_proj.Base.{
  ℕ, suc, ◌+◌, ◌<◌, ◌≡◌, refl, sym, ap, subst, ◌∙◌, true, false, List, [], ◌∷◌, ◌++◌, some, length,
  get_elem?, ◌==◌, Result, ok, fault, ◌>>=◌, arith, length-append,
}
use mathlib.Core.List.{append_assoc, append-nil}
use dae_proj.Scheduler.{lrr_loop, order_lrr}

module _ {A : Type 0} where
  get_elem?-append : (pre suf : List A) (x : A) → get_elem? (pre ++ (x ∷ suf)) (length pre) ≡ some x
  get_elem?-append [] suf x = refl
  get_elem?-append (y ∷ pre) suf x = get_elem?-append pre suf x

  bind-id : (r : Result (List A)) → (r >>= λ ys. ok ys) ≡ r
  bind-id (ok a) = refl
  bind-id (fault e) = refl

  lrr_loop-at :
      (input : List A) (i n : ℕ) (x : A)
      → i < length input
      → get_elem? input i ≡ some x
      → lrr_loop input i (suc n) ≡ (lrr_loop input (i + 1) n >>= λ xs. ok (x ∷ xs))
  unfolding lrr_loop
  lrr_loop-at input i n x low h =
      let inside : i == length input ≡ false = ground (arith, low) in rw inside (rw h refl)

  lrr_loop-end :
      (input : List A) (n : ℕ)
      → 0 < length input
      → lrr_loop input (length input) (suc n) ≡ lrr_loop input 0 (suc n)
  unfolding lrr_loop
  lrr_loop-end input n some_input =
      let at : length input == length input ≡ true = ground arith in
      let start : 0 == length input ≡ false = ground (arith, some_input) in rw at (rw start refl)

  lrr_loop-zero : (input : List A) (i : ℕ) → lrr_loop input i 0 ≡ ok []
  unfolding lrr_loop
  lrr_loop-zero input i = refl

  bind-cons :
      (r : Result (List A)) (x : A) (mid : List A)
      → ((r >>= λ ys. ok (mid ++ ys)) >>= λ xs. ok (x ∷ xs)) ≡ (r >>= λ ys. ok (x ∷ (mid ++ ys)))
  bind-cons (ok a) x mid = refl
  bind-cons (fault e) x mid = refl

  -- As many rounds as there are warps before the end take them in turn.
  lrr_loop-along :
      (input pre mid suf : List A) (i n m j : ℕ)
      → input ≡ pre ++ (mid ++ suf)
      → i ≡ length pre
      → m ≡ length mid + n
      → j ≡ i + length mid
      → lrr_loop input i m ≡ (lrr_loop input j n >>= λ ys. ok (mid ++ ys))
  lrr_loop-along input pre [] suf i n m j e h l k =
      let rounds : m ≡ n = omega (arith, l) in
      let place : i ≡ j = omega (arith, k) in
      ap (lrr_loop input i) rounds
      ∙ ap (λ (a : ℕ). lrr_loop input a n) place
      ∙ sym (bind-id (lrr_loop input j n))
  lrr_loop-along input pre (x ∷ mid) suf i n m j e h l k =
      let rounds : m ≡ suc (length mid + n) = omega (arith, l) in
      let sizes = length-append pre (x ∷ (mid ++ suf)) in
      let total : length input ≡ length pre + suc (length (mid ++ suf)) = ap length e ∙ sizes in
      let low : i < length input = omega (arith, total, h) in
      let here : get_elem? input i ≡ some x =
        subst (λ (a : ℕ). get_elem? input a ≡ some x) (sym h)
          (ap (λ (l' : List A). get_elem? l' (length pre)) e
            ∙ get_elem?-append pre (mid ++ suf) x) in
      let again : input ≡ (pre ++ (x ∷ [])) ++ (mid ++ suf) =
        e ∙ sym (append_assoc pre (x ∷ []) (mid ++ suf)) in
      let shifted : i + 1 ≡ length (pre ++ (x ∷ [])) =
        omega (arith, h, length-append pre (x ∷ [])) in
      let rest =
        lrr_loop-along input (pre ++ (x ∷ [])) mid suf (i + 1) n (length mid + n) j again shifted
          refl (omega (arith, k)) in
      ap (lrr_loop input i) rounds
      ∙ lrr_loop-at input i (length mid + n) x low here
      ∙ ap (λ (r : Result (List A)). r >>= λ xs. ok (x ∷ xs)) rest
      ∙ bind-cons (lrr_loop input j n) x mid

  order_lrr-start :
      (input : List A) (last : ℕ)
      → last < length input
      → order_lrr input last (length input) ≡ lrr_loop input (last + 1) (length input)
  unfolding order_lrr
  order_lrr-start input last low = ground (arith, low)

  -- When order_lrr orders all warps, it succeeds and returns the warps behind the one that
  -- issued last, then those before it, and that one last.
  pub order_lrr-rotates :
      (pre suf : List A) (x : A)
      → order_lrr (pre ++ (x ∷ suf)) (length pre) (length (pre ++ (x ∷ suf)))
        ≡ ok (suf ++ (pre ++ (x ∷ [])))
  order_lrr-rotates pre suf x =
      let input = pre ++ (x ∷ suf) in
      let front = pre ++ (x ∷ []) in
      let sizes = length-append pre (x ∷ suf) in
      let ahead = length-append pre (x ∷ []) in
      let parts : input ≡ front ++ suf = sym (append_assoc pre (x ∷ []) suf) in
      order_lrr-start input (length pre) (omega (arith, sizes))
      ∙ lrr_loop-along input front suf [] (length pre + 1) (suc (length pre)) (length input)
          (length input) (parts ∙ ap (λ (l : List A). front ++ l) (sym (append-nil suf)))
          (omega (arith, ahead)) (omega (arith, sizes)) (omega (arith, sizes))
      ∙ ap (λ (r : Result (List A)). r >>= λ ys. ok (suf ++ ys))
          (lrr_loop-end input (length pre) (omega (arith, sizes))
            ∙ lrr_loop-along input [] front suf 0 0 (suc (length pre)) (length front) parts refl
                (omega (arith, ahead)) (omega arith)
            ∙ ap (λ (r : Result (List A)). r >>= λ ys. ok (front ++ ys))
                (lrr_loop-zero input (length front))
            ∙ ap ok (append-nil front))
