-- ===== src/Erasure/Coder/Generator.antt =====
-- The rows of the full encoding matrix evaluate one polynomial, at a point of their own.
use vyomanaut_v.Base.{
  ℕ, zero, suc, ◌+◌, ◌*◌, ◌<◌, ◌≡◌, ◌≢◌, refl, sym, ap, ap₂, ◌∙◌, List, [], ◌∷◌, map, arith,
  bit_xor, length, get_or, drop, All, All-get_or, All-drop,
}
use native.Mathlib.Nat.{zero-add, add-zero, suc-add}
use vyomanaut_v.Base.Xor.{xor-zero, zero-xor, xor_assoc, xor_middle}
use vyomanaut_v.Erasure.Field.{IsByte, double, gf_mul, gf_pow, gf_log}
use vyomanaut_v.Erasure.Field.Tables.{alpha, gf_log-alpha}
use vyomanaut_v.Erasure.Field.Laws.{
  gf_mul-zero, zero-gf_mul, one-gf_mul, gf_mul-IsByte, gf_mul-xor, gf_mul_assoc, xor-gf_mul,
  gf_pow-IsByte, gf_pow-suc, gf_pow-alpha,
}
use vyomanaut_v.Erasure.Row.{Bytes, dot, dot_comm, dot-IsByte}
use vyomanaut_v.Erasure.Polynomial.{value, value-IsByte}
use vyomanaut_v.Erasure.Matrix.{Matrix, get_row}
use vyomanaut_v.Erasure.Matrix.Rows.{IsRow}
use vyomanaut_v.Erasure.Coder.{vandermonde_row, vandermonde, generator_entry, generator_row}

-- The point of row `r`.
abbrev pub point : ℕ → ℕ
point r = gf_pow 2 r

pub point-alpha : (r : ℕ) → point r ≡ alpha r 1
point-alpha r =
    gf_pow-alpha 2 r (omega arith) (λ e. omega arith)
    ∙ ap (λ (t : ℕ). alpha t 1) {x = gf_log 2 * r} {y = r}
        (omega (arith, ap (λ (t : ℕ). t * r) log_two))
  where
    log_two : gf_log 2 ≡ 1
    log_two =
        ap gf_log {x = 2} {y = alpha 1 1} (unfold alpha double in refl)
        ∙ gf_log-alpha 1 (omega arith)

pub point-IsByte : (r : ℕ) → IsByte (point r)
point-IsByte r = gf_pow-IsByte 2 r (omega arith)

pub point-ne : (r s : ℕ) → r < 255 → s < 255 → r ≢ s → point r ≢ point s
point-ne r s hr hs ne e = ne (
    sym (gf_log-alpha r hr)
    ∙ ap gf_log (sym (point-alpha r) ∙ e ∙ point-alpha s)
    ∙ gf_log-alpha s hs)

point-zero : point 0 ≡ 1
unfolding gf_pow
point-zero = refl

point-add : (r s : ℕ) → point (r + s) ≡ gf_mul (point r) (point s)
point-add zero s =
    ap point (zero-add s)
    ∙ sym (one-gf_mul (point s) (point-IsByte s))
    ∙ ap (λ (t : ℕ). gf_mul t (point s)) (sym point-zero)
point-add (suc r) s =
    ap point (suc-add r s)
    ∙ gf_pow-suc 2 (r + s) (omega arith)
    ∙ ap (gf_mul 2) (point-add r s)
    ∙ sym (gf_mul_assoc 2 (point r) (point s) (omega arith) (point-IsByte r) (point-IsByte s))
    ∙ ap (λ (t : ℕ). gf_mul t (point s)) (sym (gf_pow-suc 2 r (omega arith)))

vandermonde_row-Bytes : (k r c : ℕ) → Bytes (vandermonde_row k r c)
unfolding vandermonde_row
vandermonde_row-Bytes zero r c = tt
vandermonde_row-Bytes (suc k) r c = (point-IsByte (r * c), vandermonde_row-Bytes k r (suc c))

length-vandermonde_row : (k r c : ℕ) → length (vandermonde_row k r c) ≡ k
unfolding vandermonde_row
length-vandermonde_row zero r c = refl
length-vandermonde_row (suc k) r c = ap suc (length-vandermonde_row k r (suc c))

pub vandermonde_row-IsRow : (k r : ℕ) → IsRow k (vandermonde_row k r 0)
vandermonde_row-IsRow k r = (length-vandermonde_row k r 0, vandermonde_row-Bytes k r 0)

vandermonde_row_from :
    (k r c : ℕ) (ys : List ℕ)
    → IsRow k ys
    → dot (vandermonde_row k r c) ys ≡ gf_mul (point (r * c)) (value ys (point r))
unfolding vandermonde_row dot value
vandermonde_row_from zero r c [] h = sym (gf_mul-zero (point (r * c)))
vandermonde_row_from zero r c (y ∷ ys) h = absurd (omega (arith, h.0))
vandermonde_row_from (suc k) r c [] h = absurd (omega (arith, h.0))
vandermonde_row_from (suc k) r c (y ∷ ys) h =
    let p : ℕ = point (r * c) in
    let v : ℕ = value ys (point r) in
    let hv : IsByte v = value-IsByte ys (point r) h.1.1 (point-IsByte r) in
    let next : point (r * suc c) ≡ gf_mul p (point r) =
      ap point {x = r * suc c} {y = r * c + r} (omega arith) ∙ point-add (r * c) r in
    ap (bit_xor (gf_mul p y)) (
      vandermonde_row_from k r (suc c) ys (omega (arith, h.0), h.1.1)
      ∙ ap (λ (t : ℕ). gf_mul t v) next
      ∙ gf_mul_assoc p (point r) v (point-IsByte (r * c)) (point-IsByte r) hv)
    ∙ sym (
        gf_mul-xor p y (gf_mul (point r) v) (point-IsByte (r * c)) h.1.0
          (gf_mul-IsByte (point r) v (point-IsByte r) hv))

-- A row of the Vandermonde matrix evaluates the polynomial at its point.
pub vandermonde_row-value :
    (k r : ℕ) (ys : List ℕ) → IsRow k ys → dot (vandermonde_row k r 0) ys ≡ value ys (point r)
vandermonde_row-value k r ys h =
    vandermonde_row_from k r 0 ys h
    ∙ ap (λ (t : ℕ). gf_mul t (value ys (point r)))
        (ap point {x = r * 0} {y = 0} (omega arith) ∙ point-zero)
    ∙ one-gf_mul (value ys (point r)) (value-IsByte ys (point r) h.1 (point-IsByte r))

pub get_row-vandermonde :
    (k d r i : ℕ) → i < k → get_row (vandermonde k d r) i ≡ vandermonde_row d (r + i) 0
unfolding vandermonde
get_row-vandermonde zero d r i h = absurd (omega arith)
get_row-vandermonde (suc k) d r zero h = ap (λ (t : ℕ). vandermonde_row d t 0) (sym (add-zero r))
get_row-vandermonde (suc k) d r (suc i) h =
    get_row-vandermonde k d (suc r) i (omega arith)
    ∙ ap (λ (t : ℕ). vandermonde_row d t 0) {x = suc r + i} {y = r + suc i} (omega arith)

pub length-vandermonde : (k d r : ℕ) → length (vandermonde k d r) ≡ k
unfolding vandermonde
length-vandermonde zero d r = refl
length-vandermonde (suc k) d r = ap suc (length-vandermonde k d (suc r))

generator_entry-dot :
    (row : List ℕ) (inverse : Matrix) (c acc : ℕ)
    → generator_entry row inverse c acc ≡ bit_xor acc (dot row (map (λ r. get_or r c 0) inverse))
unfolding generator_entry dot
generator_entry-dot [] inverse c acc = sym (xor-zero acc)
generator_entry-dot (x ∷ row) [] c acc = sym (xor-zero acc)
generator_entry-dot (x ∷ row) (r ∷ inverse) c acc =
    generator_entry-dot row inverse c (bit_xor acc (gf_mul x (get_or r c 0)))
    ∙ xor_assoc acc (gf_mul x (get_or r c 0)) (dot row (map (λ r. get_or r c 0) inverse))

map-Bytes : (f : List ℕ → ℕ) (m : Matrix) → All (λ r. IsByte (f r)) m → Bytes (map f m)
map-Bytes f [] h = tt
map-Bytes f (r ∷ m) h = (h.0, map-Bytes f m h.1)

-- The product is linear in its second argument.
dot-linear :
    (row : List ℕ) (m : Matrix) (f g : List ℕ → ℕ) (x : ℕ)
    → Bytes row
    → All (λ r. IsByte (f r)) m
    → All (λ r. IsByte (g r)) m
    → IsByte x
    → bit_xor (gf_mul (dot row (map f m)) x) (dot row (map g m))
      ≡ dot row (map (λ r. bit_xor (gf_mul (f r) x) (g r)) m)
unfolding dot
dot-linear [] m f g x hr hf hg hx = ap (λ (t : ℕ). bit_xor t 0) (zero-gf_mul x)
dot-linear (a ∷ row) [] f g x hr hf hg hx = ap (λ (t : ℕ). bit_xor t 0) (zero-gf_mul x)
dot-linear (a ∷ row) (r ∷ m) f g x hr hf hg hx =
    let b : ℕ = dot row (map f m) in
    let d : ℕ = dot row (map g m) in
    let fx : ℕ = gf_mul (f r) x in
    ap (λ (t : ℕ). bit_xor t (bit_xor (gf_mul a (g r)) d))
      (xor-gf_mul (gf_mul a (f r)) b x (gf_mul-IsByte a (f r) hr.0 hf.0)
          (dot-IsByte row (map f m) hr.1 (map-Bytes f m hf.1)) hx
        ∙ ap (λ (t : ℕ). bit_xor t (gf_mul b x)) (gf_mul_assoc a (f r) x hr.0 hf.0 hx))
    ∙ xor_middle (gf_mul a fx) (gf_mul b x) (gf_mul a (g r)) d
    ∙ ap₂ bit_xor (sym (gf_mul-xor a fx (g r) hr.0 (gf_mul-IsByte (f r) x hf.0 hx) hg.0))
        (dot-linear row m f g x hr.1 hf.1 hg.1 hx)

-- From column `c` on, a row takes the part of a vector that is left.
dot-drop_step :
    (c : ℕ) (r : List ℕ) (x : ℕ) (xs : List ℕ)
    → c < length r
    → dot (drop c r) (x ∷ xs) ≡ bit_xor (gf_mul (get_or r c 0) x) (dot (drop (suc c) r) xs)
unfolding dot
dot-drop_step c [] x xs h = absurd (omega arith)
dot-drop_step zero (a ∷ r) x xs h = refl
dot-drop_step (suc c) (a ∷ r) x xs h = dot-drop_step c r x xs (omega arith)

drops : ℕ → List ℕ → Matrix → List ℕ
drops c xs = map (λ r. dot (drop c r) xs)

drops_step :
    (n c x : ℕ) (xs : List ℕ) (m : Matrix)
    → c < n
    → All (IsRow n) m
    → map (λ r. bit_xor (gf_mul (get_or r c 0) x) (dot (drop (suc c) r) xs)) m ≡ drops c (x ∷ xs) m
unfolding drops
drops_step n c x xs [] h hm = refl
drops_step n c x xs (r ∷ m) h hm =
    ap₂ (λ (t : ℕ) (l : List ℕ). t ∷ l) (sym (dot-drop_step c r x xs (omega (arith, hm.0.0))))
      (drops_step n c x xs m h hm.1)

entries-IsByte :
    (n c : ℕ) (m : Matrix) → c < n → All (IsRow n) m → All (λ r. IsByte (get_or r c 0)) m
entries-IsByte n c [] h hm = tt
entries-IsByte n c (r ∷ m) h hm =
    (All-get_or IsByte r c 0 hm.0.1 (omega (arith, hm.0.0)), entries-IsByte n c m h hm.1)

drops-IsByte :
    (n c : ℕ) (xs : List ℕ) (m : Matrix)
    → Bytes xs
    → All (IsRow n) m
    → All (λ r. IsByte (dot (drop c r) xs)) m
drops-IsByte n c xs [] hx hm = tt
drops-IsByte n c xs (r ∷ m) hx hm =
    (dot-IsByte (drop c r) xs (All-drop IsByte c r hm.0.1) hx, drops-IsByte n c xs m hx hm.1)

dot-drops_nil : (c : ℕ) (row : List ℕ) (m : Matrix) → dot row (drops c [] m) ≡ 0
unfolding dot drops
dot-drops_nil c [] m = refl
dot-drops_nil c (a ∷ row) [] = refl
dot-drops_nil c (a ∷ row) (r ∷ m) =
    ap₂ (λ (u v : ℕ). bit_xor (gf_mul a u) v) (dot_comm (drop c r) []) (dot-drops_nil c row m)
    ∙ xor-zero (gf_mul a 0)
    ∙ gf_mul-zero a

generator_row_from :
    (k c n : ℕ) (row : List ℕ) (inverse : Matrix) (xs : List ℕ)
    → c + k ≡ n
    → IsRow k xs
    → Bytes row
    → All (IsRow n) inverse
    → dot (generator_row k c row inverse) xs ≡ dot row (drops c xs inverse)
unfolding generator_row dot drops
generator_row_from zero c n row inverse [] e hx hr hm = sym (dot-drops_nil c row inverse)
generator_row_from zero c n row inverse (x ∷ xs) e hx hr hm = absurd (omega (arith, hx.0))
generator_row_from (suc k) c n row inverse [] e hx hr hm = absurd (omega (arith, hx.0))
generator_row_from (suc k) c n row inverse (x ∷ xs) e hx hr hm =
    ap₂ (λ (a b : ℕ). bit_xor (gf_mul a x) b)
      (generator_entry-dot row inverse c 0 ∙ zero-xor (dot row (map (λ r. get_or r c 0) inverse)))
      (generator_row_from k (suc c) n row inverse xs (omega arith) (omega (arith, hx.0), hx.1.1) hr
        hm)
    ∙ dot-linear row inverse (λ r. get_or r c 0) (λ r. dot (drop (suc c) r) xs) x hr
        (entries-IsByte n c inverse (omega arith) hm) (drops-IsByte n (suc c) xs inverse hx.1.1 hm)
        hx.1.0
    ∙ ap (dot row) (drops_step n c x xs inverse (omega arith) hm)

-- A parity row applies a Vandermonde row to the image under the inverse.
pub generator_row-dot :
    (n : ℕ) (row : List ℕ) (inverse : Matrix) (xs : List ℕ)
    → IsRow n xs
    → Bytes row
    → All (IsRow n) inverse
    → dot (generator_row n 0 row inverse) xs ≡ dot row (map (λ r. dot r xs) inverse)
unfolding drops
generator_row-dot n row inverse xs hx hr hm =
    generator_row_from n 0 n row inverse xs (zero-add n) hx hr hm
