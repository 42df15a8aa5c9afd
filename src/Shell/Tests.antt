-- ===== src/Shell/Tests.antt =====
-- The job list of LAB5_tshlab/tsh.c on small tables, and its theorems at concrete inputs.
use cmu_15_213_intro_to_comp.Prelude.{
  ℕ, zero, suc, ◌≡◌, refl, inl, inr, Bool, true, false, none, some, List, [], ◌∷◌, arith, ltb, ◌==◌,
  ◌&&◌, if◌then◌else◌, replicate,
}
use cmu_15_213_intro_to_comp.Prelude.Int.{ℤ, pos}
use cmu_15_213_intro_to_comp.Shell.{
  Job, JobState, fg, bg, st, Table, clearjob, initjobs, addjob, fill_slot, deletejob, getjobpid,
  slot_of_pid, fgpid, set_state, pid2jid,
}
use cmu_15_213_intro_to_comp.Shell.Lookup.{job_of, job_of-addjob, job_of-deletejob, Distinct}
use cmu_15_213_intro_to_comp.Shell.Capacity.{IsTable, addjob-IsTable}
use cmu_15_213_intro_to_comp.Shell.Ids.{addjob_repeats_jid}
use cmu_15_213_intro_to_comp.Shell.Steps.{
  Shell, at_prompt, waiting, fork, register, sigchld, wake, Reach, here, next,
}
use cmu_15_213_intro_to_comp.Shell.Control.{stopped, job_stopped, sigchld_handler, reap}
use cmu_15_213_intro_to_comp.Shell.Foreground.{shell}
use cmu_15_213_intro_to_comp.Shell.Front.{Front, first_state, at_most_one_fg, prompt-NoFg}

abbrev job : (pid jid : ℕ) → JobState → Job
job pid jid s = record { pid = pid; jid = jid; state = s; cmdline = b'a' ∷ [] }

-- Two jobs in sixteen slots.
abbrev two_jobs : Table
two_jobs = record { jobs = job 7 1 bg ∷ clearjob ∷ job 9 2 st ∷ replicate 13 clearjob; nextjid = 3 }

cleared : (n : ℕ) → Distinct (replicate n clearjob)
cleared zero = tt
cleared (suc n) = (inl refl, cleared n)

two_jobs-IsTable : IsTable two_jobs
two_jobs-IsTable = record {
  slots = refl;
  distinct =
      (inr (omega arith, omega arith), (inl refl, (inr (omega arith, omega arith), cleared 13)));
}

job_of-addjob_example : job_of (addjob two_jobs 8 fg []).1.jobs 7 ≡ (
    if 8 == 7
    then some (record { pid = 8; jid = 3; state = fg; cmdline = [] })
    else job_of two_jobs.jobs 7)
job_of-addjob_example =
    job_of-addjob two_jobs 8 fg [] 7 (omega arith) (unfold addjob fill_slot in refl)

job_of-deletejob_example :
    job_of (deletejob two_jobs 9).1.jobs 7 ≡ (if 9 == 7 then none else job_of two_jobs.jobs 7)
job_of-deletejob_example = job_of-deletejob two_jobs 9 7 two_jobs-IsTable.distinct

addjob-IsTable_example : IsTable (addjob two_jobs 8 fg []).1
addjob-IsTable_example = addjob-IsTable two_jobs 8 fg [] (omega arith) two_jobs-IsTable

-- What is left of a full table after jobs 3 and 5 are gone.
abbrev crowded : Table
crowded = record {
  jobs = job 101 1 bg ∷ clearjob ∷ clearjob ∷ job 116 16 bg ∷ replicate 12 clearjob;
  nextjid = 17;
}

addjob_repeats_jid_example :
    (k : Job) × (l : Job) × (job_of (addjob (addjob crowded 7 bg []).1 8 bg []).1.jobs 101 ≡ some k)
    × (job_of (addjob (addjob crowded 7 bg []).1 8 bg []).1.jobs 8 ≡ some l)
    × (k.jid ≡ l.jid)
addjob_repeats_jid_example =
    addjob_repeats_jid crowded 101 7 8 (job 101 1 bg) bg [] (omega arith)
      (unfold job_of getjobpid slot_of_pid in refl) refl (omega arith)
      (unfold addjob fill_slot in refl) (unfold addjob fill_slot in omega arith)
      (unfold addjob fill_slot in refl) (omega arith) (omega arith)

-- The shell starts one job in the foreground.
abbrev atoi : List ℕ → ℤ
atoi cs = pos 0

abbrev isdigit : ℕ → Bool
isdigit c = ltb b'/' c && ltb c b':'

abbrev kill : ℕ → Bool
kill pid = true

abbrev slots : List Job
slots = replicate 16 clearjob

abbrev running : Shell
running = shell (addjob (first_state slots).table 7 fg []).1 (waiting 7)

launched : Reach atoi isdigit kill (first_state slots) running
launched =
    next (next here (fork (first_state slots).table 7 false [] (omega arith)))
      (register (first_state slots).table 7 false [])

slot_zero : Front running.table.jobs 0
unfolding addjob fill_slot initjobs
slot_zero = (record { pid = 7; jid = 1; state = fg; cmdline = [] }, refl, refl)

at_most_one_fg_example : ◌≡◌ {A = ℕ} 0 0
at_most_one_fg_example =
    at_most_one_fg atoi isdigit kill slots running 0 0 launched slot_zero slot_zero

-- The job is stopped, and the shell goes back to its prompt.
abbrev stopped_table : Table
stopped_table = record running.table { jobs = set_state running.table.jobs 0 st }

back_at_prompt : Reach atoi isdigit kill (first_state slots) (shell stopped_table at_prompt)
unfolding addjob fill_slot initjobs set_state pid2jid
back_at_prompt =
    next
      (next launched (
        sigchld running.table stopped_table (waiting 7) ((7, stopped) ∷ []) (job_stopped 1 7 ∷ []) (
          unfold sigchld_handler in unfold reap in unfold getjobpid in unfold slot_of_pid in refl)))
      (wake stopped_table 7 (unfold fgpid in omega arith))

prompt-NoFg_example : fgpid stopped_table.jobs ≡ 0
prompt-NoFg_example = prompt-NoFg atoi isdigit kill slots stopped_table back_at_prompt
