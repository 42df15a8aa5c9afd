-- ===== src/Shell/Capacity.antt =====
-- The sixteen slots of the job list of LAB5_tshlab/tsh.c.
use cmu_15_213_intro_to_comp.Prelude.{
  ℕ, suc, ◌≤◌, ◌<◌, ◌≡◌, ◌⊎◌, inl, inr, refl, ap, ◌∙◌, true, none, some, List, [], ◌∷◌, ltb, ◌==◌,
  length, arith, ◌↔◌, Bool-cases, Option-cases,
}
use cmu_15_213_intro_to_comp.Shell.{
  Job, JobState, Table, max_jobs, fill_slot, addjob, clear_slot, deletejob, listjobs, initjobs,
}
use cmu_15_213_intro_to_comp.Shell.Lookup.{
  Distinct, Unused, Distinct-fill, Distinct-clear, fill_cases, clear_cases,
}

pub record IsTable (t : Table) : Type 0 where
  pub slots : length t.jobs ≡ max_jobs
  pub distinct : Distinct t.jobs

length-fill : (new : Job) (js js' : List Job) → fill_slot new js ≡ some js' → length js' ≡ length js
unfolding fill_slot
length-fill new [] js' e = cc
length-fill new (j ∷ js) js' e = elim (fill_cases new j js js' e) [
  | inl (free, same) ↦ rw same
  | inr (rest, same, taken, got) ↦ rw same (ap suc (length-fill new js rest got))
]

length-clear : (pid : ℕ) (js js' : List Job) → clear_slot pid js ≡ some js' → length js' ≡ length js
unfolding clear_slot
length-clear pid [] js' e = cc
length-clear pid (j ∷ js) js' e = elim (clear_cases pid j js js' e) [
  | inl (hit, same) ↦ rw same
  | inr (rest, same, miss, got) ↦ rw same (ap suc (length-clear pid js rest got))
]

-- addjob of an unused pid keeps sixteen slots that are cleared or hold distinct positive pids.
pub addjob-IsTable :
    (t : Table) (pid : ℕ) (state : JobState) (cmdline : List ℕ)
    → Unused pid t.jobs
    → IsTable t
    → IsTable (addjob t pid state cmdline).1
unfolding addjob
addjob-IsTable t pid state cmdline u inv =
    let new : Job = record { pid = pid; jid = t.nextjid; state = state; cmdline = cmdline } in
    elim (Bool-cases (ltb pid 1)) [
      | inl low ↦ rw low inv
      | inr ok ↦ elim (Option-cases (fill_slot new t.jobs)) [
        | inl full ↦ rw (ok, full) inv
        | inr (js, got) ↦
            rw (ok, got)
              (record {
                slots = length-fill new t.jobs js got ∙ inv.slots;
                distinct = Distinct-fill new t.jobs js (ground arith) u inv.distinct got;
              })
      ]
    ]

-- deletejob keeps sixteen slots that are cleared or hold distinct positive pids.
pub deletejob-IsTable : (t : Table) (pid : ℕ) → IsTable t → IsTable (deletejob t pid).1
unfolding deletejob
deletejob-IsTable t pid inv = elim (Bool-cases (ltb pid 1)) [
  | inl low ↦ rw low inv
  | inr ok ↦ elim (Option-cases (clear_slot pid t.jobs)) [
    | inl missing ↦ rw (ok, missing) inv
    | inr (js, got) ↦
        rw (ok, got)
          (record {
            slots = length-clear pid t.jobs js got ∙ inv.slots;
            distinct = Distinct-clear pid t.jobs js inv.distinct got;
          })
  ]
]

-- The number of jobs that `listjobs` prints.
abbrev pub used : List Job → ℕ
used js = length (listjobs js)

used-le-length : (js : List Job) → used js ≤ length js
unfolding listjobs
used-le-length [] = omega arith
used-le-length (j ∷ js) = ground (arith, used-le-length js)

fill_slot-some_iff :
    (new : Job) (js : List Job)
    → ((fill_slot new js ≡ none) × (used js ≡ length js))
      ⊎ ((js' : List Job) × (fill_slot new js ≡ some js') × (used js < length js))
unfolding fill_slot listjobs
fill_slot-some_iff new [] = inl (refl, refl)
fill_slot-some_iff new (j ∷ js) = elim (Bool-cases (j.pid == 0)) [
  | inl free ↦ inr (new ∷ js, ground arith, ground (arith, used-le-length js))
  | inr taken ↦ elim (fill_slot-some_iff new js) [
    | inl (no_room, full) ↦ inl (ground arith, ground arith)
    | inr (rest, got, room) ↦ inr (j ∷ rest, ground arith, ground arith)
  ]
]

-- For a positive pid and a well-formed job list addjob succeeds exactly when listjobs prints
-- fewer than MAXJOBS jobs.
pub addjob-room :
    (t : Table) (pid : ℕ) (state : JobState) (cmdline : List ℕ)
    → 0 < pid
    → IsTable t
    → ((addjob t pid state cmdline).0 ≡ true) ↔ (used t.jobs < max_jobs)
unfolding addjob
addjob-room t pid state cmdline pos inv =
    elim (fill_slot-some_iff
      (record { pid = pid; jid = t.nextjid; state = state; cmdline = cmdline }) t.jobs) [
        | inl (no_room, full) ↦ ground (arith, inv.slots)
        | inr (rest, got, room) ↦ ground (arith, inv.slots)
      ]

-- A table that `initjobs` has cleared.
pub initjobs-Distinct : (js : List Job) → Distinct (initjobs js)
unfolding initjobs
initjobs-Distinct [] = tt
initjobs-Distinct (j ∷ js) = (inl refl, initjobs-Distinct js)

length-initjobs : (js : List Job) → length (initjobs js) ≡ length js
unfolding initjobs
length-initjobs [] = refl
length-initjobs (j ∷ js) = ap suc (length-initjobs js)

pub initjobs-IsTable :
    (js : List Job) → length js ≡ max_jobs → IsTable (record { jobs = initjobs js; nextjid = 1 })
initjobs-IsTable js e = record { slots = length-initjobs js ∙ e; distinct = initjobs-Distinct js }
