-- ===== src/Shell/Ids.antt =====
-- Job IDs in LAB5_tshlab/tsh.c: `maxjid`, `nextjid`, and what goes wrong when `nextjid` wraps.
use cmu_15_213_intro_to_comp.Prelude.{
  ℕ, ◌+◌, ◌≤◌, ◌<◌, ◌≡◌, ◌≢◌, inl, inr, true, some, List, [], ◌∷◌, ltb, if◌then◌else◌, arith,
  Bool-cases, Option-cases,
}
use cmu_15_213_intro_to_comp.Shell.{
  Job, JobState, Table, max_jobs, fill_slot, addjob, clear_slot, deletejob, maxjid, maxjid_from,
  bump, getjobjid, slot_of_jid,
}
use cmu_15_213_intro_to_comp.Shell.Lookup.{Unused, fill_cases, job_of, at, job_of-addjob}

abbrev pub JidsBelow : ℕ → List Job → Type 0
JidsBelow n [] = Unit
JidsBelow n (j ∷ js) = (j.jid < n) × JidsBelow n js

JidsBelow-mono : (n m : ℕ) (js : List Job) → n ≤ m → JidsBelow n js → JidsBelow m js
JidsBelow-mono n m [] h b = tt
JidsBelow-mono n m (j ∷ js) h b = (omega arith, JidsBelow-mono n m js h b.1)

maxjid_from-bound :
    (m : ℕ) (js : List Job) → (m ≤ maxjid_from m js) × JidsBelow (maxjid_from m js + 1) js
unfolding maxjid_from
maxjid_from-bound m [] = (omega arith, tt)
maxjid_from-bound m (j ∷ js) =
    let ih = maxjid_from-bound (if ltb m j.jid then j.jid else m) js in
    (ground (arith, ih.0), (ground (arith, ih.0), ih.1))

-- After a successful deletejob the next job ID is above every job ID in the list.
pub deletejob-JidsBelow :
    (t : Table) (pid : ℕ)
    → (deletejob t pid).0 ≡ true
    → JidsBelow (deletejob t pid).1.nextjid (deletejob t pid).1.jobs
unfolding deletejob maxjid
deletejob-JidsBelow t pid e = elim (Option-cases (clear_slot pid t.jobs)) [
  | inl missing ↦ ground arith
  | inr (js, got) ↦ elim (Bool-cases (ltb pid 1)) [
    | inl low ↦ ground arith
    | inr ok ↦ rw (ok, got) (maxjid_from-bound 0 js).1
  ]
]

JidsBelow-fill :
    (n : ℕ) (new : Job) (js js' : List Job)
    → new.jid < n
    → JidsBelow n js
    → fill_slot new js ≡ some js'
    → JidsBelow n js'
unfolding fill_slot
JidsBelow-fill n new [] js' p b e = cc
JidsBelow-fill n new (j ∷ js) js' p b e = elim (fill_cases new j js js' e) [
  | inl (free, same) ↦ rw same (p, b.1)
  | inr (rest, same, taken, got) ↦ rw same (b.0, JidsBelow-fill n new js rest p b.1 got)
]

find_jid-fill :
    (new : Job) (js js' : List Job)
    → JidsBelow new.jid js
    → fill_slot new js ≡ some js'
    → at js' (slot_of_jid new.jid js') ≡ some new
unfolding slot_of_jid fill_slot
find_jid-fill new [] js' b e = cc
find_jid-fill new (j ∷ js) js' b e = elim (fill_cases new j js js' e) [
  | inl (free, same) ↦ rw same (ground arith)
  | inr (rest, same, taken, got) ↦ rw same (ground (arith, find_jid-fill new js rest b.1 got))
]

module _ (t : Table) (pid : ℕ) (state : JobState) (cmdline : List ℕ) where
  added : Job
  added = record { pid = pid; jid = t.nextjid; state = state; cmdline = cmdline }

  -- What a successful `addjob` returns.
  addjob-true :
      (addjob t pid state cmdline).0 ≡ true
      → (js : List Job) × (fill_slot added t.jobs ≡ some js)
        × ((addjob t pid state cmdline).1 ≡ record { jobs = js; nextjid = bump t.nextjid })
  unfolding addjob added
  addjob-true e = elim (Option-cases (fill_slot added t.jobs)) [
    | inl full ↦ ground arith
    | inr (js, got) ↦ (js, got, ground arith)
  ]

  -- If every job ID in the list is below the positive nextjid, a successful addjob adds a job
  -- that getjobjid finds by that ID.
  pub addjob-getjobjid :
      0 < t.nextjid
      → JidsBelow t.nextjid t.jobs
      → (addjob t pid state cmdline).0 ≡ true
      → at
          (addjob t pid state cmdline).1.jobs
          (getjobjid (addjob t pid state cmdline).1.jobs t.nextjid)
        ≡ some (record { pid = pid; jid = t.nextjid; state = state; cmdline = cmdline })
  unfolding getjobjid added
  addjob-getjobjid pos b e =
      let (js, got, same) = addjob-true e in
      rw same (ground (arith, find_jid-fill added t.jobs js b got))

  -- A successful addjob with nextjid below MAXJOBS keeps every job ID below the next one.
  pub addjob-JidsBelow :
      t.nextjid < max_jobs
      → JidsBelow t.nextjid t.jobs
      → (addjob t pid state cmdline).0 ≡ true
      → JidsBelow (addjob t pid state cmdline).1.nextjid (addjob t pid state cmdline).1.jobs
  unfolding added
  addjob-JidsBelow small b e =
      let (js, got, same) = addjob-true e in
      let next : bump t.nextjid ≡ t.nextjid + 1 = ground arith in
      rw (same, next)
        (JidsBelow-fill (t.nextjid + 1) added t.jobs js (omega arith)
          (JidsBelow-mono t.nextjid (t.nextjid + 1) t.jobs (omega arith) b) got)

  addjob_wraps :
      max_jobs ≤ t.nextjid
      → (addjob t pid state cmdline).0 ≡ true
      → (addjob t pid state cmdline).1.nextjid ≡ 1
  addjob_wraps big e = let (js, got, same) = addjob-true e in rw same (ground arith)

-- If nextjid is at least MAXJOBS and some job has job ID 1, two successful calls of addjob with
-- fresh pids leave two jobs with different pids and one job ID.
pub addjob_repeats_jid :
    (t : Table) (p q r : ℕ) (j : Job) (s : JobState) (cmdline : List ℕ)
    → max_jobs ≤ t.nextjid
    → job_of t.jobs p ≡ some j
    → j.jid ≡ 1
    → Unused q t.jobs
    → (addjob t q s cmdline).0 ≡ true
    → Unused r (addjob t q s cmdline).1.jobs
    → (addjob (addjob t q s cmdline).1 r s cmdline).0 ≡ true
    → p ≢ q
    → p ≢ r
    → (k : Job) × (l : Job) × (job_of (addjob (addjob t q s cmdline).1 r s cmdline).1.jobs p
        ≡ some k)
      × (job_of (addjob (addjob t q s cmdline).1 r s cmdline).1.jobs r ≡ some l)
      × (k.jid ≡ l.jid)
addjob_repeats_jid t p q r j s cmdline big found one uq eq ur er npq npr =
    let t' = (addjob t q s cmdline).1 in
    let again = addjob_wraps t q s cmdline big eq in
    (
      j,
      record { pid = r; jid = t'.nextjid; state = s; cmdline = cmdline },
      ground (arith, job_of-addjob t q s cmdline p uq eq, job_of-addjob t' r s cmdline p ur er),
      ground (arith, job_of-addjob t' r s cmdline r ur er),
      ground (arith, again),
    )
