-- ===== src/Ldst/Depbar.antt =====
-- `shader_core_ctx::unset_depbar` of gpgpu-sim/shader.cc: an asynchronous copy that has finished
-- may end the wait of its warp.
use dae_proj.Base.{
  ℕ, Bool, true, false, not, List, [], ◌∷◌, length, ◌==◌, if◌then◌else◌, Result, ok, ◌>>=◌,
  non_null, add32, sub32,
}
use dae_proj.Warp.{Warp, Copy, no_pc}
use dae_proj.Core.Issue.{groups_done}
use dae_proj.Ldst.{Ldst, MemInst, change_warp}

-- The copy of the instruction in a group; `get_addr` of a copy without addresses fails.
unfoldable pub finish_copy : ℕ → ℕ → List Copy → Result (Bool × List Copy)
finish_copy pc addr [] = ok (false, [])
finish_copy pc addr (copy ∷ copies) =
    let rest = finish_copy pc addr copies >>= λ r. ok (r.0, copy ∷ r.1) in
    if not (copy.pc == pc) then rest else (do
      held ← non_null copy.addr
      if held == addr then ok (true, record copy { pc = no_pc } ∷ copies) else rest)

-- The first copy of the instruction in the groups is marked as finished.
unfoldable pub finish_first : ℕ → ℕ → List (List Copy) → Result (List (List Copy))
unfolding finish_copy
finish_first pc addr [] = ok []
finish_first pc addr (group ∷ groups) =
    let rest = finish_first pc addr groups in
    finish_copy pc addr group >>= λ found.
    if found.0 then ok (found.1 ∷ groups) else (rest >>= λ gs. ok (found.1 ∷ gs))

module _ {I : Type 0} where
  abbrev pub end_group : Warp I → ℕ
  end_group w =
      if w.depbar_start_id == 0
      then length w.ldgdepbar_buf
      else add32 (sub32 w.depbar_start_id w.depbar_group) 1

  unfoldable pub unset_in_warp : MemInst → Warp I → Result (Warp I)
  unfolding finish_first groups_done
  unset_in_warp i w = if not i.m_is_ldgsts then ok w else (do
    groups ← finish_first i.pc i.addr w.ldgdepbar_buf
    done ← groups_done groups (end_group w)
    ok (record w {
      ldgdepbar_buf = groups;
      waiting_ldgsts = if done then false else w.waiting_ldgsts;
    }))

module _ {I E : Type 0} where
  unfoldable pub unset_depbar : Ldst I E → MemInst → Result (Ldst I E)
  unfolding unset_in_warp
  unset_depbar s i = change_warp s i.warp_id (unset_in_warp i)
