-- ===== src/Shell/Front.antt =====
-- LAB5_tshlab/tsh.c, "At most 1 job can be in the FG state", from the first prompt on.
use cmu_15_213_intro_to_comp.Prelude.{
  ℕ, zero, suc, ◌≡◌, refl, sym, ap, ◌∙◌, Bool, true, some, List, [], ◌∷◌, get_elem?,
}
use cmu_15_213_intro_to_comp.Prelude.Int.{ℤ}
use cmu_15_213_intro_to_comp.Shell.{Job, Table, initjobs, is_fg, fgpid}
use mathlib.Core.Option.{some-injective}
use cmu_15_213_intro_to_comp.Shell.Slots.{NoFg, OnlyFg, NoFg-OnlyFg, NoFg-fgpid}
use cmu_15_213_intro_to_comp.Shell.Steps.{Phase, at_prompt, forked, resuming, waiting, Shell, Reach}
use cmu_15_213_intro_to_comp.Shell.Foreground.{PhaseOk, IsShell, shell, Reach-IsShell}

-- Two slots in the foreground are one slot.
abbrev pub Front : List Job → ℕ → Type 0
Front js i = (j : Job) × (get_elem? js i ≡ some j) × (is_fg j.state ≡ true)

NoFg-none : (js : List Job) (k : ℕ) → NoFg js → Front js k → ⊥
NoFg-none [] k h (j, e, f) = cc
NoFg-none (x ∷ js) zero h (j, e, f) = let same : x ≡ j = some-injective x j e in cc
NoFg-none (x ∷ js) (suc k) h (j, e, f) = NoFg-none js k h.1 (j, e, f)

OnlyFg-slot : (i : ℕ) (js : List Job) (k : ℕ) → OnlyFg i js → Front js k → k ≡ i
OnlyFg-slot i [] k h (j, e, f) = cc
OnlyFg-slot zero (x ∷ js) zero h f = refl
OnlyFg-slot zero (x ∷ js) (suc k) h f = absurd (NoFg-none js k h f)
OnlyFg-slot (suc i) (x ∷ js) zero h (j, e, f) =
    absurd (let same : x ≡ j = some-injective x j e in cc)
OnlyFg-slot (suc i) (x ∷ js) (suc k) h f = ap suc (OnlyFg-slot i js k h.1 f)

-- The slot that a foreground job has.
front_slot : (js : List Job) (phase : Phase) → PhaseOk js phase → (i : ℕ) × OnlyFg i js
front_slot js at_prompt h = (0, NoFg-OnlyFg 0 js h)
front_slot js (forked pid background cmdline) h = (0, NoFg-OnlyFg 0 js h.0)
front_slot js (resuming slot) h = (slot, h)
front_slot js (waiting pid) h = (h.slot, h.only)

abbrev pub first_state : List Job → Shell
first_state js = shell (record { jobs = initjobs js; nextjid = 1 }) at_prompt

initjobs-NoFg : (js : List Job) → NoFg (initjobs js)
unfolding initjobs
initjobs-NoFg [] = tt
initjobs-NoFg (j ∷ js) = (refl, initjobs-NoFg js)

pub first_state-IsShell : (js : List Job) → IsShell (first_state js)
first_state-IsShell js = initjobs-NoFg js

module _ (atoi : List ℕ → ℤ) (isdigit : ℕ → Bool) (kill : ℕ → Bool) where
  -- Along every run of the shell from a cleared job list, with SIGCHLD handled between any two
  -- steps, also between the restored signal mask and the read of the pid in do_bgfg, two slots
  -- in the foreground state are one slot.
  pub at_most_one_fg :
      (js : List Job) (s : Shell) (i k : ℕ)
      → Reach atoi isdigit kill (first_state js) s
      → Front s.table.jobs i
      → Front s.table.jobs k
      → i ≡ k
  at_most_one_fg js s i k r f f' =
      let inv = Reach-IsShell atoi isdigit kill (first_state-IsShell js) r in
      let (slot, only) = front_slot s.table.jobs s.phase inv in
      OnlyFg-slot slot s.table.jobs i only f ∙ sym (OnlyFg-slot slot s.table.jobs k only f')

  -- Whenever a run of the shell is back at the prompt, fgpid finds no foreground job.
  pub prompt-NoFg :
      (js : List Job) (t : Table)
      → Reach atoi isdigit kill (first_state js) (record { table = t; phase = at_prompt })
      → fgpid t.jobs ≡ 0
  prompt-NoFg js t r =
      NoFg-fgpid t.jobs (Reach-IsShell atoi isdigit kill (first_state-IsShell js) r)
