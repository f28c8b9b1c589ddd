-- ===== src/Scoring/Passes.antt =====
-- internal/scoring/passes.go on the row of one provider. A time is a number. The failures of the
-- database are left out: a transaction that fails changes nothing.
pub mod Vetting
use vyomanaut_v.Base.{
  ℕ, suc, ◌+◌, Bool, true, false, not, ◌&&◌, List, [], ◌∷◌, Option, none, some, ltb, if◌then◌else◌,
}
use vyomanaut_v.Base.Result.{Result, ok, err}

pub data Status : Type 0 where
  pending_onboarding vetting active departed : Status

pub record Provider : Type 0 where
  pub status : Status
  pub consecutive_audit_passes : ℕ
  pub first_chunk_assignment_at : Option ℕ

-- The fields of `config.NetworkProfile` that the code reads.
pub record Profile : Type 0 where
  pub vetting_min_passes : ℕ
  pub vetting_min_duration : ℕ

pub data PassError : Type 0 where
  provider_not_vetting : PassError

abbrev pub is_vetting : Status → Bool
is_vetting pending_onboarding = false
is_vetting vetting = true
is_vetting active = false
is_vetting departed = false

-- `Valid` and not before the first assignment plus the minimal duration.
abbrev pub duration_satisfied : Profile → Option ℕ → ℕ → Bool
duration_satisfied profile none now = false
duration_satisfied profile (some first) now = not (ltb now (first + profile.vetting_min_duration))

unfoldable pub increment_consecutive_passes : Profile → ℕ → Provider → Result PassError Provider
increment_consecutive_passes profile now p =
    if not (is_vetting p.status)
    then err provider_not_vetting
    else let new_passes = suc p.consecutive_audit_passes in
      ok (record {
        status =
            if not (ltb new_passes profile.vetting_min_passes)
              && duration_satisfied profile p.first_chunk_assignment_at now
            then active
            else p.status;
        consecutive_audit_passes = new_passes;
        first_chunk_assignment_at = p.first_chunk_assignment_at;
      })

unfoldable pub reset_consecutive_passes : Provider → Provider
reset_consecutive_passes p = record {
  status = p.status;
  consecutive_audit_passes = 0;
  first_chunk_assignment_at = p.first_chunk_assignment_at;
}
