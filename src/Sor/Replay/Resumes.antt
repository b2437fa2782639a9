-- ===== src/Sor/Replay/Resumes.antt =====
-- replay.py: an export that is replayed from a cursor goes on where the cursor's line ended.
use mathlib.Core.List.{append_assoc}
use fde_agent_platform.Prelude.{
  ℕ, zero, suc, ◌+◌, ◌≤◌, String, none, some, List, [], ◌∷◌, ◌++◌, take, ◌≡◌, refl, sym, arith,
}
use fde_agent_platform.Prelude.Int.{pos}
use fde_agent_platform.Python.Text.{strip, int_of_text}
use fde_agent_platform.Sor.Stdlib.{Stdlib}
use fde_agent_platform.Sor.Replay.{number_text, record_of_line, replay_lines, replay_adapter}

module _ (py : Stdlib) where
  -- Lines that are all past the start are replayed as from the start of the file.
  past_start :
      (start n : ℕ) (lines : List String)
      → start ≤ n
      → replay_lines py start n lines ≡ replay_lines py 0 n lines
  unfolding replay_lines
  past_start start n [] h = refl
  past_start start n (l ∷ lines) h = ground (arith, past_start start (n + 1) lines)

  split_at :
      (start n k : ℕ) (lines : List String)
      → n + k ≡ start
      → replay_lines py 0 n lines
        ≡ replay_lines py 0 n (take k lines) ++ replay_lines py start n lines
  unfolding replay_lines
  split_at start n k [] h = refl
  split_at start n zero (l ∷ lines) h = sym (past_start start n (l ∷ lines) (omega arith))
  split_at start n (suc k) (l ∷ lines) h = ground (
    arith,
    split_at start (n + 1) k lines (omega arith),
    append_assoc (record_of_line py n (strip l)) (replay_lines py 0 (n + 1) (take k lines))
        (replay_lines py start (n + 1) lines),
  )

  -- A replay that goes on from the cursor of line `n` yields the records that follow those of the lines up
  -- to `n` in a replay from the start: none is left out and none repeated. `str` and `int` undo each other
  -- at `n`.
  pub replay_resumes :
      (lines : List String) (n : ℕ)
      → int_of_text (number_text py n) ≡ some (pos n)
      → ((replay_adapter py lines).fetch none).records
        ≡ ((replay_adapter py (take (suc n) lines)).fetch none).records
          ++ ((replay_adapter py lines).fetch (some (number_text py n))).records
  unfolding replay_adapter
  replay_resumes lines n e = rw e (split_at (n + 1) 0 (suc n) lines (omega arith))
