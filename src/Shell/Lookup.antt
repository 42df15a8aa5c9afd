-- ===== src/Shell/Lookup.antt =====
-- The job list of LAB5_tshlab/tsh.c as a finite map from process IDs to jobs.
use cmu_15_213_intro_to_comp.Prelude.{
  ℕ, ◌<◌, ◌≡◌, ◌≢◌, ◌⊎◌, inl, inr, refl, sym, ap, true, Option, none, some, List, [], ◌∷◌, ltb,
  ◌==◌, if◌then◌else◌, get_elem?, arith, Bool-cases, Option-cases,
}
use cmu_15_213_intro_to_comp.Shell.{
  Job, JobState, Table, clearjob, fill_slot, addjob, clear_slot, deletejob, slot_of_pid, getjobpid,
}

-- The job that `getjobpid` points to.
abbrev pub at : List Job → Option ℕ → Option Job
at js none = none
at js (some i) = get_elem? js i

unfoldable pub job_of : List Job → ℕ → Option Job
job_of js pid = at js (getjobpid js pid)

-- No slot has the pid.
abbrev pub Unused : ℕ → List Job → Type 0
Unused pid [] = Unit
Unused pid (j ∷ js) = (j.pid ≢ pid) × Unused pid js

-- The slots in use have different pids, and a free slot is cleared.
abbrev pub Distinct : List Job → Type 0
Distinct [] = Unit
Distinct (j ∷ js) = ((j ≡ clearjob) ⊎ ((0 < j.pid) × Unused j.pid js)) × Distinct js

find : ℕ → List Job → Option Job
find pid [] = none
find pid (j ∷ js) = if j.pid == pid then some j else find pid js

find-slot : (pid : ℕ) (js : List Job) → at js (slot_of_pid pid js) ≡ find pid js
unfolding find slot_of_pid
find-slot pid [] = refl
find-slot pid (j ∷ js) = ground (arith, find-slot pid js)

job_of-find : (js : List Job) (pid : ℕ) → job_of js pid ≡ (if pid == 0 then none else find pid js)
unfolding job_of getjobpid
job_of-find js pid = ground (arith, find-slot pid js)

find-Unused : (pid : ℕ) (js : List Job) → Unused pid js → find pid js ≡ none
unfolding find
find-Unused pid [] u = refl
find-Unused pid (j ∷ js) u = ground (arith, find-Unused pid js u.1)

module _ (new : Job) where
  find-fill :
      (q : ℕ) (js js' : List Job)
      → 0 < q
      → Unused new.pid js
      → fill_slot new js ≡ some js'
      → find q js' ≡ (if new.pid == q then some new else find q js)
  unfolding find fill_slot
  find-fill q [] js' pos u e = cc
  find-fill q (j ∷ js) js' pos u e = elim (Option-cases (fill_slot new js)) [
    | inl full ↦ ground arith
    | inr (rest, got) ↦ ground (arith, find-fill q js rest pos u.1 got)
  ]

  -- Either the first slot is free and taken, or it stays and the job goes into the rest.
  pub fill_cases :
      (j : Job) (js js' : List Job)
      → fill_slot new (j ∷ js) ≡ some js'
      → ((j.pid ≡ 0) × (js' ≡ new ∷ js))
        ⊎ ((rest : List Job) × (js' ≡ j ∷ rest) × (j.pid ≢ 0) × (fill_slot new js ≡ some rest))
  unfolding fill_slot
  fill_cases j js js' e = elim (Option-cases (fill_slot new js)) [
    | inl full ↦ inl (ground arith)
    | inr (rest, got) ↦ elim (Bool-cases (j.pid == 0)) [
      | inl free ↦ inl (ground arith)
      | inr taken ↦ inr (rest, ground arith, ground arith, got)
    ]
  ]

  Unused-fill :
      (q : ℕ) (js js' : List Job)
      → q ≢ new.pid
      → Unused q js
      → fill_slot new js ≡ some js'
      → Unused q js'
  unfolding fill_slot
  Unused-fill q [] js' ne u e = cc
  Unused-fill q (j ∷ js) js' ne u e = elim (fill_cases j js js' e) [
    | inl (free, same) ↦ rw same (λ h. ne (sym h), u.1)
    | inr (rest, same, taken, got) ↦ rw same (u.0, Unused-fill q js rest ne u.1 got)
  ]

  pub Distinct-fill :
      (js js' : List Job)
      → 0 < new.pid
      → Unused new.pid js
      → Distinct js
      → fill_slot new js ≡ some js'
      → Distinct js'
  unfolding fill_slot
  Distinct-fill [] js' pos u d e = cc
  Distinct-fill (j ∷ js) js' pos u d e = elim (fill_cases j js js' e) [
    | inl (free, same) ↦ rw same (inr (pos, u.1), d.1)
    | inr (rest, same, taken, got) ↦ rw same (
      elim d.0 [
        | inl cleared ↦ absurd (taken (ap (λ (x : Job). x.pid) cleared))
        | inr (p, v) ↦ inr (p, Unused-fill j.pid js rest u.0 v got)
      ],
      Distinct-fill js rest pos u.1 d.1 got,
    )
  ]

pub clear_cases :
    (pid : ℕ) (j : Job) (js js' : List Job)
    → clear_slot pid (j ∷ js) ≡ some js'
    → ((j.pid ≡ pid) × (js' ≡ clearjob ∷ js))
      ⊎ ((rest : List Job) × (js' ≡ j ∷ rest) × (j.pid ≢ pid) × (clear_slot pid js ≡ some rest))
unfolding clear_slot
clear_cases pid j js js' e = elim (Option-cases (clear_slot pid js)) [
  | inl full ↦ inl (ground arith)
  | inr (rest, got) ↦ elim (Bool-cases (j.pid == pid)) [
    | inl hit ↦ inl (ground arith)
    | inr miss ↦ inr (rest, ground arith, ground arith, got)
  ]
]

pub Unused-clear :
    (pid q : ℕ) (js js' : List Job)
    → 0 < q
    → Unused q js
    → clear_slot pid js ≡ some js'
    → Unused q js'
unfolding clear_slot
Unused-clear pid q [] js' pos u e = cc
Unused-clear pid q (j ∷ js) js' pos u e = elim (clear_cases pid j js js' e) [
  | inl (hit, same) ↦ rw same (omega arith, u.1)
  | inr (rest, same, miss, got) ↦ rw same (u.0, Unused-clear pid q js rest pos u.1 got)
]

pub Distinct-clear :
    (pid : ℕ) (js js' : List Job) → Distinct js → clear_slot pid js ≡ some js' → Distinct js'
unfolding clear_slot
Distinct-clear pid [] js' d e = cc
Distinct-clear pid (j ∷ js) js' d e = elim (clear_cases pid j js js' e) [
  | inl (hit, same) ↦ rw same (inl refl, d.1)
  | inr (rest, same, miss, got) ↦ rw same (
    elim d.0 [
      | inl cleared ↦ inl cleared
      | inr (p, v) ↦ inr (p, Unused-clear pid j.pid js rest p v got)
    ],
    Distinct-clear pid js rest d.1 got,
  )
]

find-clear :
    (pid q : ℕ) (js js' : List Job)
    → 0 < pid
    → 0 < q
    → Distinct js
    → clear_slot pid js ≡ some js'
    → find q js' ≡ (if pid == q then none else find q js)
unfolding find clear_slot
find-clear pid q [] js' pos posq d e = cc
find-clear pid q (j ∷ js) js' pos posq d e = elim (Option-cases (clear_slot pid js)) [
  | inl full ↦ ground (arith, find-Unused pid js)
  | inr (rest, got) ↦ ground (arith, find-Unused pid js, find-clear pid q js rest pos posq d.1 got)
]

find-clear_none : (pid : ℕ) (js : List Job) → clear_slot pid js ≡ none → find pid js ≡ none
unfolding find clear_slot
find-clear_none pid [] e = refl
find-clear_none pid (j ∷ js) e = elim (Option-cases (clear_slot pid js)) [
  | inl full ↦ ground (arith, find-clear_none pid js full)
  | inr (rest, got) ↦ ground arith
]

-- A successful addjob of an unused pid adds that pid to the map from pids to jobs, with the next
-- job ID, and changes no other entry.
pub job_of-addjob :
    (t : Table) (pid : ℕ) (state : JobState) (cmdline : List ℕ) (q : ℕ)
    → Unused pid t.jobs
    → (addjob t pid state cmdline).0 ≡ true
    → job_of (addjob t pid state cmdline).1.jobs q ≡ (
        if pid == q
        then some (record { pid = pid; jid = t.nextjid; state = state; cmdline = cmdline })
        else job_of t.jobs q)
unfolding addjob
job_of-addjob t pid state cmdline q u e =
    let new : Job = record { pid = pid; jid = t.nextjid; state = state; cmdline = cmdline } in
    elim (Option-cases (fill_slot new t.jobs)) [
      | inl full ↦ ground arith
      | inr (js, got) ↦ elim (Bool-cases (ltb pid 1)) [
        | inl low ↦ ground arith
        | inr ok ↦
            rw (ok, got)
              (ground (arith, job_of-find js q, job_of-find t.jobs q, find-fill new q t.jobs js))
      ]
    ]

-- If the slots in use have distinct pids, deletejob removes the pid from the map from pids to
-- jobs and changes no other entry.
pub job_of-deletejob :
    (t : Table) (pid q : ℕ)
    → Distinct t.jobs
    → job_of (deletejob t pid).1.jobs q ≡ (if pid == q then none else job_of t.jobs q)
unfolding deletejob
job_of-deletejob t pid q d = elim (Option-cases (clear_slot pid t.jobs)) [
  | inl missing ↦ ground (arith, job_of-find t.jobs q, find-clear_none pid t.jobs)
  | inr (js, got) ↦ elim (Bool-cases (ltb pid 1)) [
    | inl low ↦ rw low (ground (arith, job_of-find t.jobs q))
    | inr ok ↦
        rw (ok, got)
          (ground (arith, job_of-find js q, job_of-find t.jobs q, find-clear pid q t.jobs js))
  ]
]
