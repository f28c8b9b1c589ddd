-- ===== src/Scoring/Tests.antt =====
-- A run of the counter of passes at which its theorem applies: two passes and 10 time units are needed.
use vyomanaut_v.Base.{◌≤◌, ◌≡◌, ◌↔◌, refl, List, [], ◌∷◌, some}
use vyomanaut_v.Scoring.Passes.{
  Profile, vetting, active, increment_consecutive_passes, reset_consecutive_passes,
}
use vyomanaut_v.Scoring.Passes.Vetting.{
  Audit, passed, failed, step, run, streak, HasWaited, run_active_iff,
}

abbrev profile : Profile
profile = record { vetting_min_passes = 2; vetting_min_duration = 10 }

abbrev audits : List Audit
audits = passed 16 ∷ failed ∷ passed 9 ∷ []

audits-vetting : (run profile (some 5) audits).status ≡ vetting
unfolding run step increment_consecutive_passes reset_consecutive_passes
audits-vetting = refl

run_active_iff_example :
    ((run profile (some 5) (passed 20 ∷ audits)).status ≡ active)
    ↔ ((2 ≤ streak (passed 20 ∷ audits)) × HasWaited profile (some 5) 20)
run_active_iff_example = run_active_iff profile (some 5) 20 audits audits-vetting
