-- ===== src/Audit/Secret/Overlap.antt =====
-- What ClusterSecretCache of internal/audit/secret.go accepts before and after a load.
use vyomanaut_v.Base.{
  ℕ, ◌+◌, ◌%◌, ◌≤◌, ◌<◌, ◌≡◌, ◌≢◌, inl, inr, refl, sym, ap, ◌∙◌, arith, ◌==◌, Bool-cases, subst,
  ==_iff, ==_ne, ==_refl, lt→ltb,
}
use vyomanaut_v.Base.Bytes.{Bytes}
use vyomanaut_v.Base.Result.{Result, ok, err, ok-injective}
use vyomanaut_v.Audit.Secret.{
  Answer, secret, missing, unreachable, SecretError, Cache, fetch_base, rotate, probe_next,
  after_base, base_version, load, current_secret, secret_for_version, rotation_overlap_window,
}
use vyomanaut_v.Audit.Secret.Versions.{fetch_base-IsLowest}

-- A version is a byte, and the superseded one is lower than the current one.
pub record IsSound (c : Cache) : Type 0 where
  pub is_byte : c.current_version ≤ 255
  pub in_order : 0 < c.current_version → c.previous_version < c.current_version
  pub none_yet : c.current_version ≡ 0 → c.previous_version ≡ 0

-- What holds of a cache after a load from the cache before.
pub record IsLoaded (client : ℕ → Answer) (c after : Cache) : Type 0 where
  pub sound : IsSound after
  pub not_lower : c.current_version ≤ after.current_version
  pub is_version : 0 < after.current_version
  pub has_secret : client after.current_version ≡ secret after.current_secret

differs : (v base : ℕ) → v ≤ base → base < 255 → v ≢ (base + 1) % 256
differs v base low byte e = omega arith

next_differs : (v : ℕ) → v ≢ (v + 1) % 256
next_differs v e = omega arith

rotate-IsLoaded :
    (client : ℕ → Answer) (now : ℕ) (c : Cache) (base : ℕ) (s next_secret : Bytes)
    → client 0 ≡ missing
    → IsSound c
    → c.current_version ≤ base
    → base ≤ 255
    → client ((base + 1) % 256) ≡ secret next_secret
    → IsLoaded client c (rotate now c base ((base + 1) % 256) s next_secret)
unfolding rotate
rotate-IsLoaded client now c base s next_secret none_zero h low byte answer =
    elim (Bool-cases (base == 255)) [
      | inl last ↦ absurd (
          cc (none_zero, answer, ap (λ (n : ℕ). client ((n + 1) % 256)) ((==_iff base 255).0 last)))
      | inr before ↦
          rw
            (==_ne c.current_version ((base + 1) % 256)
              (differs c.current_version base low (ground arith)))
            (record {
              sound = record {
                is_byte = ground arith;
                in_order = λ some_version. ground arith;
                none_yet = λ e. ground arith;
              };
              not_lower = ground arith;
              is_version = ground arith;
              has_secret = answer;
            })
    ]

probe_next-IsLoaded :
    (client : ℕ → Answer) (now : ℕ) (c after : Cache) (base : ℕ) (s : Bytes) (a : Answer)
    → client 0 ≡ missing
    → IsSound c
    → base_version c ≤ base
    → base ≤ 255
    → client base ≡ secret s
    → client ((base + 1) % 256) ≡ a
    → probe_next now c base s a ≡ ok after
    → IsLoaded client c after
unfolding probe_next base_version
probe_next-IsLoaded client now c after base s (secret n) none_zero h low byte own answer e =
    subst (λ (t : Cache). IsLoaded client c t) (ok-injective e)
      (rotate-IsLoaded client now c base s n none_zero h (ground arith) byte answer)
probe_next-IsLoaded client now c after base s missing none_zero h low byte own answer e =
    subst (λ (t : Cache). IsLoaded client c t) (ok-injective e)
      (record {
        sound = record {
          is_byte = byte;
          in_order = λ some_version. ground arith;
          none_yet = λ e. ground arith;
        };
        not_lower = ground arith;
        is_version = ground arith;
        has_secret = own;
      })
probe_next-IsLoaded client now c after base s unreachable none_zero h low byte own answer e = cc

after_base-IsLoaded :
    (client : ℕ → Answer) (now : ℕ) (c after : Cache) (r : Result SecretError (ℕ × Bytes))
    → client 0 ≡ missing
    → IsSound c
    → fetch_base client (base_version c) (client (base_version c)) ≡ r
    → after_base client now c r ≡ ok after
    → IsLoaded client c after
unfolding after_base base_version
after_base-IsLoaded client now c after (err reason) none_zero h fetch e = cc
after_base-IsLoaded client now c after (ok (base, s)) none_zero h fetch e =
    let lowest =
      fetch_base-IsLowest client (base_version c) (client (base_version c)) refl
        (ground (arith, h.is_byte)) fetch in
    probe_next-IsLoaded client now c after base s (client ((base + 1) % 256)) none_zero h
      lowest.from_low lowest.is_byte lowest.answers refl e

-- A load that succeeds keeps the versions in order, never goes back to a lower version, and holds the
-- manager's secret of its version, if the manager has no version 0.
pub load-IsLoaded :
    (client : ℕ → Answer) (now : ℕ) (c after : Cache)
    → client 0 ≡ missing
    → IsSound c
    → load client now c ≡ ok after
    → IsLoaded client c after
unfolding load
load-IsLoaded client now c after none_zero h e =
    after_base-IsLoaded client now c after
      (fetch_base client (base_version c) (client (base_version c))) none_zero h refl e

-- what the cache gives for new challenges
issued :
    (now : ℕ) (c : Cache) {s : Bytes} {v : ℕ}
    → current_secret now c ≡ ok (s, v)
    → (0 < c.current_version) × (c.current_secret ≡ s) × (c.current_version ≡ v)
unfolding current_secret
issued now c {s} {v} h = ground arith

accepted_after :
    (client : ℕ → Answer) (now t : ℕ) (c after : Cache) (s : Bytes) (v : ℕ) (a : Answer)
    → 0 < v
    → v ≤ 255
    → c.current_version ≡ v
    → t < now + rotation_overlap_window
    → probe_next now c v s a ≡ ok after
    → secret_for_version t after v ≡ ok s
unfolding probe_next rotate secret_for_version
accepted_after client now t c after s v (secret n) some_version byte is_current early e =
    subst (λ (x : Cache). secret_for_version t x v ≡ ok s) (ok-injective e)
      (rw
        (
          is_current,
          ==_ne v ((v + 1) % 256) (next_differs v),
          ==_ne v ((v + 1) % 256) (next_differs v),
          ==_ne v 0 (λ z. absurd (omega arith)),
          ==_refl v,
          lt→ltb t (now + rotation_overlap_window) early,
        )
        refl)
accepted_after client now t c after s v missing some_version byte is_current early e =
    subst (λ (x : Cache). secret_for_version t x v ≡ ok s) (ok-injective e)
      (rw (==_ne v 0 (λ z. absurd (omega arith)), ==_refl v) refl)
accepted_after client now t c after s v unreachable some_version byte is_current early e = cc

-- A version with which challenges are issued is accepted with its secret after the next load too, for
-- 24 hours, if the manager still has it.
pub current_secret_stays_valid :
    (client : ℕ → Answer) (before now t : ℕ) (c after : Cache) {s : Bytes} {v : ℕ}
    → IsSound c
    → current_secret before c ≡ ok (s, v)
    → client v ≡ secret s
    → load client now c ≡ ok after
    → t < now + rotation_overlap_window
    → secret_for_version t after v ≡ ok s
unfolding load fetch_base after_base base_version
current_secret_stays_valid client before now t c after {s} {v} h current own e early =
    let (some_version, same_secret, same_version) = issued before c current in
    accepted_after client now t c after s v (client ((v + 1) % 256)) (omega (arith, same_version))
      (omega (arith, h.is_byte, same_version)) same_version early
      (sym (rw (==_ne c.current_version 0 (λ z. absurd (omega arith)), same_version, own) refl) ∙ e)
