-- ===== src/Scoring/Passes/Vetting.antt =====
-- When a sequence of audit results makes a vetting provider active (passes.go).
use vyomanaut_v.Base.{
  ℕ, suc, ◌+◌, ◌≤◌, ◌≡◌, ◌↔◌, refl, sym, ap, ◌∙◌, Bool, true, false, not, ◌&&◌, List, [], ◌∷◌,
  Option, none, some, ltb, if◌then◌else◌, arith, Bool-cases, inl, inr,
}
use vyomanaut_v.Base.Result.{Result, ok, err}
use vyomanaut_v.Scoring.Passes.{
  vetting, active, Provider, Profile, PassError, provider_not_vetting, is_vetting,
  duration_satisfied, increment_consecutive_passes, reset_consecutive_passes,
}

-- An audit result: a pass at a time, or a failure.
pub data Audit : Type 0 where
  passed : ℕ → Audit
  failed : Audit

-- An increment that fails leaves the row as it was.
abbrev pub row_after : Provider → Result PassError Provider → Provider
row_after p (ok next) = next
row_after p (err e) = p

unfoldable pub step : Profile → Provider → Audit → Provider
step profile p (passed now) = row_after p (increment_consecutive_passes profile now p)
step profile p failed = reset_consecutive_passes p

-- A provider that entered vetting, after audit results, the last one first.
unfoldable pub run : Profile → Option ℕ → List Audit → Provider
run profile first [] = record {
  status = vetting;
  consecutive_audit_passes = 0;
  first_chunk_assignment_at = first;
}
run profile first (a ∷ audits) = step profile (run profile first audits) a

-- The passes since the last failure.
abbrev pub streak : List Audit → ℕ
streak [] = 0
streak (passed now ∷ audits) = suc (streak audits)
streak (failed ∷ audits) = 0

-- The row of a provider that is still vetting.
vetting_row : Option ℕ → ℕ → Provider
vetting_row first n = record {
  status = vetting;
  consecutive_audit_passes = n;
  first_chunk_assignment_at = first;
}

-- The conditions of the transition, after `n` passes in a row.
abbrev pub is_due : Profile → Option ℕ → ℕ → ℕ → Bool
is_due profile first n now =
    not (ltb n profile.vetting_min_passes) && duration_satisfied profile first now

pass_row : Option ℕ → ℕ → Bool → Provider
pass_row first n due = record {
  status = if due then active else vetting;
  consecutive_audit_passes = n;
  first_chunk_assignment_at = first;
}

step-vetting_row :
    (profile : Profile) (first : Option ℕ) (n now : ℕ)
    → step profile (vetting_row first n) (passed now)
      ≡ pass_row first (suc n) (is_due profile first (suc n) now)
unfolding step vetting_row increment_consecutive_passes pass_row
step-vetting_row profile first n now = refl

-- A pass changes nothing for a provider that is not vetting.
step_other :
    (profile : Profile) (p : Provider) (now : ℕ)
    → is_vetting p.status ≡ false
    → step profile p (passed now) ≡ p
unfolding step increment_consecutive_passes
step_other profile p now e =
    ap
      (λ (b : Bool). row_after p (
        if not b
        then err provider_not_vetting
        else ok (record {
          status =
              if is_due profile p.first_chunk_assignment_at (suc p.consecutive_audit_passes) now
              then active
              else p.status;
          consecutive_audit_passes = suc p.consecutive_audit_passes;
          first_chunk_assignment_at = p.first_chunk_assignment_at;
        })))
      e

is_vetting-pass_row :
    (first : Option ℕ) (n : ℕ) (due : Bool) → is_vetting (pass_row first n due).status ≡ not due
unfolding pass_row
is_vetting-pass_row first n true = refl
is_vetting-pass_row first n false = refl

run-passed :
    (profile : Profile) (first : Option ℕ) (now : ℕ) (audits : List Audit)
    → run profile first (passed now ∷ audits) ≡ step profile (run profile first audits) (passed now)
unfolding run
run-passed profile first now audits = refl

run-failed :
    (profile : Profile) (first : Option ℕ) (audits : List Audit)
    → run profile first (failed ∷ audits) ≡ reset_consecutive_passes (run profile first audits)
unfolding run step
run-failed profile first audits = refl

-- As long as a provider is vetting, its row counts the passes since the last failure.
run-vetting_row :
    (profile : Profile) (first : Option ℕ) (audits : List Audit)
    → is_vetting (run profile first audits).status ≡ true
    → run profile first audits ≡ vetting_row first (streak audits)
run-vetting_row profile first [] e = unfold run vetting_row in refl
run-vetting_row profile first (failed ∷ audits) e =
    run-failed profile first audits
    ∙ ap reset_consecutive_passes
        (run-vetting_row profile first audits (unfold run step reset_consecutive_passes in e))
    ∙ (unfold reset_consecutive_passes vetting_row in refl)
run-vetting_row profile first (passed now ∷ audits) e =
    elim (Bool-cases (is_vetting (run profile first audits).status)) [
      | inl v ↦
          let n : ℕ = streak audits in
          let due : Bool = is_due profile first (suc n) now in
          let row : run profile first (passed now ∷ audits) ≡ pass_row first (suc n) due =
            run-passed profile first now audits
            ∙ ap (λ (p : Provider). step profile p (passed now))
                (run-vetting_row profile first audits v)
            ∙ step-vetting_row profile first n now in
          let same : true ≡ not due =
            sym e
            ∙ ap (λ (p : Provider). is_vetting p.status) row
            ∙ is_vetting-pass_row first (suc n) due in
          row
          ∙ ap (pass_row first (suc n)) {x = due} {y = false} (not_true due same)
          ∙ (unfold pass_row vetting_row in refl)
      | inr v ↦ cc (
          sym e
          ∙ ap (λ (p : Provider). is_vetting p.status)
              (run-passed profile first now audits
                ∙ step_other profile (run profile first audits) now v)
          ∙ v)
    ]
  where
    not_true : (b : Bool) → true ≡ not b → b ≡ false
    not_true true h = cc
    not_true false h = refl

due_parts :
    (profile : Profile) (first : Option ℕ) (n : ℕ) (d : Bool)
    → (pass_row first n (not (ltb n profile.vetting_min_passes) && d)).status ≡ active
    → (profile.vetting_min_passes ≤ n) × (d ≡ true)
unfolding pass_row
due_parts profile first n d e = ground (arith, e)

due_whole :
    (profile : Profile) (first : Option ℕ) (n : ℕ) (d : Bool)
    → profile.vetting_min_passes ≤ n
    → d ≡ true
    → (pass_row first n (not (ltb n profile.vetting_min_passes) && d)).status ≡ active
unfolding pass_row
due_whole profile first n d h e = ground (arith, h, e)

-- The first assignment is known, and the minimal duration has passed since.
abbrev pub HasWaited : Profile → Option ℕ → ℕ → Type 0
HasWaited profile none now = ⊥
HasWaited profile (some first) now = first + profile.vetting_min_duration ≤ now

duration_satisfied-HasWaited :
    (profile : Profile) (first : Option ℕ) (now : ℕ)
    → (duration_satisfied profile first now ≡ true) ↔ HasWaited profile first now
duration_satisfied-HasWaited profile none now = (λ e. cc, λ w. absurd w)
duration_satisfied-HasWaited profile (some first) now =
    (λ e. ground (arith, e), λ w. ground (arith, w))

-- A pass makes a provider that was vetting active exactly if the passes since its last failure, this one
-- included, reach the minimum and its first assignment is at least the minimal duration ago.
pub run_active_iff :
    (profile : Profile) (first : Option ℕ) (now : ℕ) (audits : List Audit)
    → (run profile first audits).status ≡ vetting
    → ((run profile first (passed now ∷ audits)).status ≡ active)
      ↔ ((profile.vetting_min_passes ≤ streak (passed now ∷ audits)) × HasWaited profile first now)
run_active_iff profile first now audits v =
    let n : ℕ = streak audits in
    let row : (run profile first (passed now ∷ audits)).status
        ≡ (pass_row first (suc n) (is_due profile first (suc n) now)).status =
      ap (λ (p : Provider). p.status)
        (run-passed profile first now audits
          ∙ ap (λ (p : Provider). step profile p (passed now))
              (run-vetting_row profile first audits (ap is_vetting v))
          ∙ step-vetting_row profile first n now) in
    (
      λ e.
          let (enough, waited) =
            due_parts profile first (suc n) (duration_satisfied profile first now) (sym row ∙ e) in
          (enough, (duration_satisfied-HasWaited profile first now).0 waited),
      λ h.
          row
          ∙ due_whole profile first (suc n) (duration_satisfied profile first now) h.0
              ((duration_satisfied-HasWaited profile first now).1 h.1),
    )
