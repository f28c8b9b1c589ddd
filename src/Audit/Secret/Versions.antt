-- ===== src/Audit/Secret/Versions.antt =====
-- The versions that ClusterSecretCache of internal/audit/secret.go holds after a load.
use vyomanaut_v.Base.{
  ℕ, zero, suc, ◌+◌, ◌≤◌, ◌<◌, ◌≡◌, inl, inr, refl, sym, arith, ◌==◌, Bool-cases, subst, ==_iff,
}
use vyomanaut_v.Base.Bytes.{Bytes}
use vyomanaut_v.Base.Result.{Result, ok, err, ok-injective}
use vyomanaut_v.Audit.Secret.{
  Answer, secret, missing, unreachable, SecretError, scan_forward, fetch_base,
}

-- A version is the lowest, from `low` on, whose secret the manager has.
pub record IsLowest (client : ℕ → Answer) (low : ℕ) (held : ℕ × Bytes) : Type 0 where
  pub answers : client held.0 ≡ secret held.1
  pub from_low : low ≤ held.0
  pub is_byte : held.0 ≤ 255
  pub none_below : (v : ℕ) → low ≤ v → v < held.0 → client v ≡ missing

-- what one probe of the scan gives
data Scan (client : ℕ → Answer) (v : ℕ) : Result SecretError (ℕ × Bytes) → Type 0 where
  failed : (reason : SecretError) → Scan client v (err reason)
  reached :
      (held : ℕ × Bytes)
      → client held.0 ≡ secret held.1
      → v < held.0
      → held.0 ≤ 255
      → ((u : ℕ) → v < u → u < held.0 → client u ≡ missing)
      → Scan client v (ok held)

Scan-next :
    (client : ℕ → Answer) (v : ℕ) {r : Result SecretError (ℕ × Bytes)}
    → client (v + 1) ≡ missing
    → Scan client (v + 1) r
    → Scan client v r
Scan-next client v gone (failed reason) = failed reason
Scan-next client v gone (reached held answers above byte between) =
    reached held answers (omega arith) byte λ u low high. elim (Bool-cases (u == v + 1)) [
      | inl here ↦ subst (λ (t : ℕ). client t ≡ missing) (sym ((==_iff u (v + 1)).0 here)) gone
      | inr later ↦ between u (ground arith) high
    ]

probe :
    (client : ℕ → Answer) (v : ℕ) (a : Answer) {rest : Result SecretError (ℕ × Bytes)}
    → v < 255
    → client (v + 1) ≡ a
    → Scan client (v + 1) rest
    → Scan client v (elim a [
      | secret s ↦ ok (v + 1, s)
      | missing ↦ rest
      | unreachable ↦ err SecretError.fetch_failed
    ])
probe client v (secret s) low answer rest =
    reached (v + 1, s) answer (omega arith) (omega arith) λ u above below. absurd (omega arith)
probe client v missing low answer rest = Scan-next client v answer rest
probe client v unreachable low answer rest = failed SecretError.fetch_failed

scan_forward-Scan :
    (n : ℕ) (client : ℕ → Answer) (v : ℕ) → v ≤ 255 → Scan client v (scan_forward n client v)
unfolding scan_forward
scan_forward-Scan zero client v byte = failed SecretError.scan_exhausted
scan_forward-Scan (suc n) client v byte = elim (Bool-cases (v == 255)) [
  | inl last ↦ rw last (failed SecretError.scan_exhausted)
  | inr before ↦ rw before (
      probe client v (client (v + 1)) (ground arith) refl
        (scan_forward-Scan n client (v + 1) (ground arith)))
]

Scan-IsLowest :
    (client : ℕ → Answer) (v : ℕ) {r : Result SecretError (ℕ × Bytes)} {held : ℕ × Bytes}
    → client v ≡ missing
    → Scan client v r
    → r ≡ ok held
    → IsLowest client v held
Scan-IsLowest client v gone (failed reason) e = cc
Scan-IsLowest client v {held = held} gone (reached low answers above byte between) e =
    subst (λ (t : ℕ × Bytes). IsLowest client v t) (ok-injective e)
      (record {
        answers = answers;
        from_low = omega arith;
        is_byte = byte;
        none_below = λ u from below. elim (Bool-cases (u == v)) [
          | inl here ↦ subst (λ (t : ℕ). client t ≡ missing) (sym ((==_iff u v).0 here)) gone
          | inr later ↦ between u (ground arith) below
        ];
      })

-- The secret that a load starts from is the one of the lowest version, from the version held on, that
-- the manager still has.
pub fetch_base-IsLowest :
    (client : ℕ → Answer) (base : ℕ) {held : ℕ × Bytes} (a : Answer)
    → client base ≡ a
    → base ≤ 255
    → fetch_base client base a ≡ ok held
    → IsLowest client base held
unfolding fetch_base
fetch_base-IsLowest client base {held} (secret s) answer byte h =
    subst (λ (t : ℕ × Bytes). IsLowest client base t) (ok-injective h)
      (record {
        answers = answer;
        from_low = omega arith;
        is_byte = byte;
        none_below = λ v from below. absurd (omega arith);
      })
fetch_base-IsLowest client base missing answer byte h =
    Scan-IsLowest client base answer (scan_forward-Scan 32 client base byte) h
fetch_base-IsLowest client base unreachable answer byte h = cc
