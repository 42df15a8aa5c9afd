-- ===== src/Shell/Slots.antt =====
-- Slots of the job list of LAB5_tshlab/tsh.c by index, and the foreground state.
use cmu_15_213_intro_to_comp.Prelude.{
  ℕ, zero, suc, ◌≡◌, inl, inr, ◌⊎◌, refl, false, some, List, [], ◌∷◌, Bool-cases,
}
use cmu_15_213_intro_to_comp.Shell.{Job, JobState, fill_slot, clear_slot, set_state, is_fg, fgpid}
use cmu_15_213_intro_to_comp.Shell.Steps.{pid_at}
use cmu_15_213_intro_to_comp.Shell.Lookup.{fill_cases, clear_cases}

abbrev pub NoFg : List Job → Type 0
NoFg [] = Unit
NoFg (j ∷ js) = (is_fg j.state ≡ false) × NoFg js

-- No job but the one in the slot is in the foreground.
abbrev pub OnlyFg : ℕ → List Job → Type 0
OnlyFg i [] = Unit
OnlyFg zero (j ∷ js) = NoFg js
OnlyFg (suc i) (j ∷ js) = (is_fg j.state ≡ false) × OnlyFg i js

pub NoFg-OnlyFg : (i : ℕ) (js : List Job) → NoFg js → OnlyFg i js
NoFg-OnlyFg i [] h = tt
NoFg-OnlyFg zero (j ∷ js) h = h.1
NoFg-OnlyFg (suc i) (j ∷ js) h = (h.0, NoFg-OnlyFg i js h.1)

pub NoFg-fgpid : (js : List Job) → NoFg js → fgpid js ≡ 0
unfolding fgpid
NoFg-fgpid [] h = refl
NoFg-fgpid (j ∷ js) h = rw h.0 (NoFg-fgpid js h.1)

-- fgpid finds the job in the slot, if any.
pub OnlyFg-fgpid : (i : ℕ) (js : List Job) → OnlyFg i js → (fgpid js ≡ pid_at js i) ⊎ NoFg js
unfolding fgpid
OnlyFg-fgpid i [] h = inr tt
OnlyFg-fgpid zero (j ∷ js) h = elim (Bool-cases (is_fg j.state)) [
  | inl front ↦ inl (rw front refl)
  | inr back ↦ inr (back, h)
]
OnlyFg-fgpid (suc i) (j ∷ js) h = elim (OnlyFg-fgpid i js h.1) [
  | inl found ↦ inl (rw h.0 found)
  | inr missing ↦ inr (h.0, missing)
]

pub NoFg-fill :
    (new : Job) (js js' : List Job)
    → is_fg new.state ≡ false
    → NoFg js
    → fill_slot new js ≡ some js'
    → NoFg js'
unfolding fill_slot
NoFg-fill new [] js' h a e = cc
NoFg-fill new (j ∷ js) js' h a e = elim (fill_cases new j js js' e) [
  | inl (free, same) ↦ rw same (h, a.1)
  | inr (rest, same, taken, got) ↦ rw same (a.0, NoFg-fill new js rest h a.1 got)
]

-- The new job is the only one in the foreground.
pub OnlyFg-fill :
    (new : Job) (js js' : List Job)
    → NoFg js
    → fill_slot new js ≡ some js'
    → (i : ℕ) × OnlyFg i js' × (pid_at js' i ≡ new.pid)
unfolding fill_slot
OnlyFg-fill new [] js' a e = cc
OnlyFg-fill new (j ∷ js) js' a e = elim (fill_cases new j js js' e) [
  | inl (free, same) ↦ (0, rw same a.1, rw same refl)
  | inr (rest, same, taken, got) ↦
      let (i, only, found) = OnlyFg-fill new js rest a.1 got in
      (suc i, rw same (a.0, only), rw same found)
]

pub NoFg-clear : (pid : ℕ) (js js' : List Job) → NoFg js → clear_slot pid js ≡ some js' → NoFg js'
unfolding clear_slot
NoFg-clear pid [] js' a e = cc
NoFg-clear pid (j ∷ js) js' a e = elim (clear_cases pid j js js' e) [
  | inl (hit, same) ↦ rw same (refl, a.1)
  | inr (rest, same, miss, got) ↦ rw same (a.0, NoFg-clear pid js rest a.1 got)
]

-- The job in the slot keeps its pid, or none is left in the foreground.
pub OnlyFg-clear :
    (i pid : ℕ) (js js' : List Job)
    → OnlyFg i js
    → clear_slot pid js ≡ some js'
    → OnlyFg i js' × ((pid_at js' i ≡ pid_at js i) ⊎ NoFg js')
unfolding clear_slot
OnlyFg-clear i pid [] js' a e = cc
OnlyFg-clear zero pid (j ∷ js) js' a e = elim (clear_cases pid j js js' e) [
  | inl (hit, same) ↦ rw same (a, inr (refl, a))
  | inr (rest, same, miss, got) ↦ rw same (NoFg-clear pid js rest a got, inl refl)
]
OnlyFg-clear (suc i) pid (j ∷ js) js' a e = elim (clear_cases pid j js js' e) [
  | inl (hit, same) ↦ rw same ((refl, a.1), inl refl)
  | inr (rest, same, miss, got) ↦
      let (only, kept) = OnlyFg-clear i pid js rest a.1 got in
      rw same ((a.0, only), elim kept [ inl found ↦ inl found | inr missing ↦ inr (a.0, missing) ])
]

pub NoFg-set_state :
    (js : List Job) (i : ℕ) (s : JobState) → is_fg s ≡ false → NoFg js → NoFg (set_state js i s)
unfolding set_state
NoFg-set_state [] i s h a = a
NoFg-set_state (x ∷ js) zero s h a = (h, a.1)
NoFg-set_state (x ∷ js) (suc i) s h a = (a.0, NoFg-set_state js i s h a.1)

pub OnlyFg-set_state :
    (i : ℕ) (js : List Job) (k : ℕ) (s : JobState)
    → is_fg s ≡ false
    → OnlyFg i js
    → OnlyFg i (set_state js k s)
unfolding set_state
OnlyFg-set_state i [] k s h a = a
OnlyFg-set_state zero (x ∷ js) zero s h a = a
OnlyFg-set_state zero (x ∷ js) (suc k) s h a = NoFg-set_state js k s h a
OnlyFg-set_state (suc i) (x ∷ js) zero s h a = (h, a.1)
OnlyFg-set_state (suc i) (x ∷ js) (suc k) s h a = (a.0, OnlyFg-set_state i js k s h a.1)

pub OnlyFg-set_fg : (js : List Job) (i : ℕ) (s : JobState) → NoFg js → OnlyFg i (set_state js i s)
unfolding set_state
OnlyFg-set_fg [] i s a = tt
OnlyFg-set_fg (x ∷ js) zero s a = a.1
OnlyFg-set_fg (x ∷ js) (suc i) s a = (a.0, OnlyFg-set_fg js i s a.1)

pub pid_at-set_state :
    (js : List Job) (k i : ℕ) (s : JobState) → pid_at (set_state js k s) i ≡ pid_at js i
unfolding set_state
pid_at-set_state [] k i s = refl
pid_at-set_state (x ∷ js) zero zero s = refl
pid_at-set_state (x ∷ js) zero (suc i) s = refl
pid_at-set_state (x ∷ js) (suc k) zero s = refl
pid_at-set_state (x ∷ js) (suc k) (suc i) s = pid_at-set_state js k i s
