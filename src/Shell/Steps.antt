-- ===== src/Shell/Steps.antt =====
-- The loop of LAB5_tshlab/tsh.c as steps: `eval` forks, registers the job and waits, and a SIGCHLD may
-- be handled between any two of them (the set that `eval` blocks before the fork is never filled).
use cmu_15_213_intro_to_comp.Prelude.{
  ℕ, zero, suc, ◌<◌, ◌≡◌, ◌≢◌, Bool, some, List, [], ◌∷◌, if◌then◌else◌,
}
use cmu_15_213_intro_to_comp.Prelude.Int.{ℤ}
use cmu_15_213_intro_to_comp.Shell.{Job, fg, bg, Table, addjob, fgpid}
use cmu_15_213_intro_to_comp.Shell.Control.{
  Status, Message, sigchld_handler, waits, resumes, do_bgfg,
}

-- `job -> pid`
abbrev pub pid_at : List Job → (slot : ℕ) → ℕ
pid_at [] slot = 0
pid_at (j ∷ js) zero = j.pid
pid_at (j ∷ js) (suc slot) = pid_at js slot

-- Where the shell stands: at the prompt, between `fork` and `addjob`, in `do_bgfg` between the
-- restored signal mask and the read of `job -> pid`, or in `waitfg`.
pub data Phase : Type 0 where
  at_prompt : Phase
  forked : (pid : ℕ) → (background : Bool) → (cmdline : List ℕ) → Phase
  resuming : (slot : ℕ) → Phase
  waiting : (pid : ℕ) → Phase

pub record Shell : Type 0 where
  pub table : Table
  pub phase : Phase

module _ (atoi : List ℕ → ℤ) (isdigit : ℕ → Bool) (kill : ℕ → Bool) where
  pub data Step : Shell → Shell → Type 0 where
    -- `fork` gives a positive process ID; a stale job of the list may have it.
    fork :
        (t : Table) (pid : ℕ) (background : Bool) (cmdline : List ℕ)
        → 0 < pid
        → Step
            (record { table = t; phase = at_prompt })
            (record { table = t; phase = forked pid background cmdline })
    -- A failed `fork` gives -1: `addjob` refuses it and `waitfg` returns at once.
    fork_fails : (s : Shell) → s.phase ≡ at_prompt → Step s s
    register :
        (t : Table) (pid : ℕ) (background : Bool) (cmdline : List ℕ)
        → Step
            (record { table = t; phase = forked pid background cmdline })
            (record {
              table = (addjob t pid (if background then bg else fg) cmdline).1;
              phase = if background then at_prompt else waiting pid;
            })
    -- `waitfg` leaves its loop.
    wake :
        (t : Table) (pid : ℕ)
        → fgpid t.jobs ≢ pid
        → Step (record { table = t; phase = waiting pid }) (record { table = t; phase = at_prompt })
    sigchld :
        (t t' : Table) (phase : Phase) (reports : List (ℕ × Status)) (out : List Message)
        → sigchld_handler t reports ≡ some (t', out)
        → Step (record { table = t; phase = phase }) (record { table = t'; phase = phase })
    bring_back :
        (t t' : Table) (argv : List (List ℕ)) (slot : ℕ)
        → do_bgfg atoi isdigit kill t argv ≡ waits t' slot
        → Step
            (record { table = t; phase = at_prompt })
            (record { table = t'; phase = resuming slot })
    -- `waitfg(job -> pid)`
    read_pid :
        (t : Table) (slot : ℕ)
        → Step
            (record { table = t; phase = resuming slot })
            (record { table = t; phase = waiting (pid_at t.jobs slot) })
    send_back :
        (t t' : Table) (argv : List (List ℕ)) (message : Message)
        → do_bgfg atoi isdigit kill t argv ≡ resumes t' message
        → Step (record { table = t; phase = at_prompt }) (record { table = t'; phase = at_prompt })

  pub data Reach (s : Shell) : Shell → Type 0 where
    here : Reach s s
    next : {t u : Shell} → Reach s t → Step t u → Reach s u
