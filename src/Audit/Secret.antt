-- ===== src/Audit/Secret.antt =====
-- ClusterSecretCache of internal/audit/secret.go. The secrets manager is a function that answers for a
-- version during one load, a time is a number of nanoseconds, and a load reads the clock once.
pub mod Versions
pub mod Overlap
use vyomanaut_v.Base.{
  ℕ, zero, suc, ◌+◌, ◌-◌, ◌%◌, Bool, true, false, not, ◌&&◌, List, [], ltb, ◌==◌, if◌then◌else◌,
}
use vyomanaut_v.Base.Bytes.{Bytes}
use vyomanaut_v.Base.Result.{Result, ok, err}

abbrev pub cluster_secret_cache_ttl : ℕ
cluster_secret_cache_ttl = 300000000000

abbrev pub rotation_overlap_window : ℕ
rotation_overlap_window = 86400000000000

abbrev pub secret_scan_upper_bound : ℕ
secret_scan_upper_bound = 32

pub data Answer : Type 0 where
  secret : Bytes → Answer
  missing unreachable : Answer

pub data SecretError : Type 0 where
  secret_not_found secret_expired not_loaded scan_exhausted fetch_failed : SecretError

pub record Cache : Type 0 where
  pub current_version : ℕ
  pub current_secret : Bytes
  pub previous_version : ℕ
  pub previous_secret : Bytes
  pub overlap_expires_at : ℕ
  pub last_loaded_at : ℕ

abbrev pub new_cluster_secret_cache : Cache
new_cluster_secret_cache = record {
  current_version = 0;
  current_secret = [];
  previous_version = 0;
  previous_secret = [];
  overlap_expires_at = 0;
  last_loaded_at = 0;
}

-- The first argument counts the probes that are left, the last is the version probed before.
unfoldable pub scan_forward : ℕ → (ℕ → Answer) → ℕ → Result SecretError (ℕ × Bytes)
scan_forward zero client v = err scan_exhausted
scan_forward (suc n) client v = if v == 255 then err scan_exhausted else elim (client (v + 1)) [
  | secret s ↦ ok (v + 1, s)
  | missing ↦ scan_forward n client (v + 1)
  | unreachable ↦ err fetch_failed
]

unfoldable pub fetch_base : (ℕ → Answer) → ℕ → Answer → Result SecretError (ℕ × Bytes)
fetch_base client base (secret s) = ok (base, s)
fetch_base client base missing = scan_forward secret_scan_upper_bound client base
fetch_base client base unreachable = err fetch_failed

unfoldable pub rotate : ℕ → Cache → ℕ → ℕ → Bytes → Bytes → Cache
rotate now c base next base_secret next_secret =
    if c.current_version == next
    then record c { current_secret = next_secret; last_loaded_at = now }
    else (record {
      current_version = next;
      current_secret = next_secret;
      previous_version = base;
      previous_secret = base_secret;
      overlap_expires_at = now + rotation_overlap_window;
      last_loaded_at = now;
    })

unfoldable pub probe_next : ℕ → Cache → ℕ → Bytes → Answer → Result SecretError Cache
probe_next now c base base_secret (secret next_secret) =
    ok (rotate now c base ((base + 1) % 256) base_secret next_secret)
probe_next now c base base_secret missing =
    ok (record c { current_version = base; current_secret = base_secret; last_loaded_at = now })
probe_next now c base base_secret unreachable = err fetch_failed

unfoldable pub after_base :
    (ℕ → Answer) → ℕ → Cache → Result SecretError (ℕ × Bytes) → Result SecretError Cache
after_base client now c (err reason) = err reason
after_base client now c (ok (base, s)) = probe_next now c base s (client ((base + 1) % 256))

unfoldable pub base_version : Cache → ℕ
base_version c = if c.current_version == 0 then 1 else c.current_version

-- A load that fails leaves the cache as it was.
unfoldable pub load : (ℕ → Answer) → ℕ → Cache → Result SecretError Cache
load client now c =
    after_base client now c (fetch_base client (base_version c) (client (base_version c)))

unfoldable pub current_secret : ℕ → Cache → Result SecretError (Bytes × ℕ)
current_secret now c =
    if c.current_version == 0
    then err not_loaded
    else if ltb cluster_secret_cache_ttl (now - c.last_loaded_at)
    then err secret_expired
    else ok (c.current_secret, c.current_version)

unfoldable pub is_loaded : Cache → Bool
is_loaded c = not (c.current_version == 0)

unfoldable pub is_version_valid : ℕ → Cache → ℕ → Bool
is_version_valid now c v =
    if not (v == 0) && (v == c.current_version)
    then true
    else if not (v == 0) && (v == c.previous_version) && ltb now c.overlap_expires_at
    then true
    else false

unfoldable pub secret_for_version : ℕ → Cache → ℕ → Result SecretError Bytes
secret_for_version now c v =
    if not (v == 0) && (v == c.current_version)
    then ok c.current_secret
    else if not (v == 0) && (v == c.previous_version) && ltb now c.overlap_expires_at
    then ok c.previous_secret
    else err secret_not_found
