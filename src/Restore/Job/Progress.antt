-- ===== src/Restore/Job/Progress.antt =====
-- Parts of 1 and the percentages of them: what grows with what.
use nazman.Prelude.{
  ℕ, zero, suc, ◌+◌, ◌*◌, ◌/◌, ◌≤◌, ◌<◌, min, Option, none, some, ◌≡◌, refl, leb, Bool-cases, inl,
  inr, arith,
}
use nazman.Restore.Job.{Current, nonzero, part_of, fraction_in, fraction, percent}
use native.Mathlib.Nat.{
  le_trans, mul-le-mul_left, mul-le-mul_right, mul-pos, le_of_mul-le-mul_right, div-mul-le_self,
  le-div_iff_mul-le, mul_right_comm, mul_comm, add-mul, min-le_left, min-le_right, le_refl,
  mul-mul-mul_comm, min-eq_left, min-eq_right, mul-one, min-zero, suc-mul, add-zero,
}

-- n / d ≤ n' / d' for parts of 1
abbrev pub AtMost : ℕ × ℕ → ℕ × ℕ → Type 0
AtMost (n, d) (n', d') = n * d' ≤ n' * d

abbrev pub IsPart : ℕ × ℕ → Type 0
IsPart (n, d) = (n ≤ d) × (0 < d)

div_mono : (a b a' b' : ℕ) → 0 < b → 0 < b' → a * b' ≤ a' * b → a / b ≤ a' / b'
div_mono a b a' b' pos pos' h = (le-div_iff_mul-le pos').1 (
    le_of_mul-le-mul_right {k = b}
      (rw (mul_right_comm (a / b) b' b) (le_trans (mul-le-mul_right b' (div-mul-le_self a b)) h))
      pos)

min_scaled : (a x a' y d d' : ℕ) → a * d' ≤ a' * d → x * d' ≤ y * d → min a x * d' ≤ min a' y * d
min_scaled a x a' y d d' h k = elim (Bool-cases (leb a' y)) [
  | inl le ↦
      let same : min a' y ≡ a' = ground arith in
      rw same (le_trans (mul-le-mul_right d' (min-le_left a x)) h)
  | inr gt ↦
      let same : min a' y ≡ y = ground arith in
      rw same (le_trans (mul-le-mul_right d' (min-le_right a x)) k)
]

-- the fraction of all the datasets
ratio_mono :
    (t k k' n d n' d' : ℕ)
    → 0 < t
    → 0 < d
    → 0 < d'
    → (k * d + n) * d' ≤ (k' * d' + n') * d
    → percent t k (n, d) ≤ percent t k' (n', d')
ratio_mono t k k' n d n' d' t_pos pos pos' h =
    let m = min (t * d) (k * d + n) in
    let m' = min (t * d') (k' * d' + n') in
    let capped : m * d' ≤ m' * d =
      min_scaled (t * d) (k * d + n) (t * d') (k' * d' + n') d d'
        (rw (mul_right_comm t d d') (le_refl (t * d' * d))) h in
    div_mono (100 * m) (t * d) (100 * m') (t * d') (mul-pos t_pos pos) (mul-pos t_pos pos') (
      rw (mul-mul-mul_comm 100 m t d', mul-mul-mul_comm 100 m' t d)
        (mul-le-mul_left (100 * t) capped))

pub part_mono :
    (t k n d n' d' : ℕ)
    → 0 < t
    → 0 < d
    → 0 < d'
    → n * d' ≤ n' * d
    → percent t k (n, d) ≤ percent t k (n', d')
part_mono t k n d n' d' t_pos pos pos' h =
    ratio_mono t k k n d n' d' t_pos pos pos'
      (rw (add-mul (k * d) n d', add-mul (k * d') n' d, mul_right_comm k d d') (omega arith))

-- a part of 1 that is done counts for no more than 1
pub done_mono :
    (t k n d : ℕ) → 0 < t → n ≤ d → 0 < d → percent t k (n, d) ≤ percent t (suc k) (0, 1)
done_mono t k n d t_pos le pos =
    ratio_mono t k (suc k) n d 0 1 t_pos pos (omega arith) (grind arith)

scaled_min : (a b e : ℕ) → min a b * e ≡ min (a * e) (b * e)
scaled_min a b e = elim (Bool-cases (leb a b)) [
  | inl le ↦
      let lt : a ≤ b = ground arith in rw (min-eq_left lt, min-eq_left (mul-le-mul_right e lt)) refl
  | inr gt ↦
      let lt : b ≤ a = ground arith in
      rw (min-eq_right lt, min-eq_right (mul-le-mul_right e lt)) refl
]

part_of-IsPart :
    (total streams : ℕ) (x : Option ℕ) (bytes : ℕ)
    → 0 < total
    → IsPart (part_of total streams (nonzero x) bytes)
part_of-IsPart total streams none bytes pos = (min-le_left total streams, pos)
part_of-IsPart total streams (some zero) bytes pos = (min-le_left total streams, pos)
part_of-IsPart total streams (some (suc e)) bytes pos =
    (min-le_left (total * suc e) (streams * suc e + min (suc e) bytes), mul-pos pos (omega arith))

pub fraction-IsPart : (o : Option Current) → IsPart (fraction o)
fraction-IsPart none = (omega arith, omega arith)
fraction-IsPart (some c) = go c.streams_total
  where
    go : (n : ℕ) → IsPart (fraction_in n c)
    go zero = (omega arith, omega arith)
    go (suc n) = part_of-IsPart (suc n) c.streams_done c.bytes_expected c.bytes_done (omega arith)

-- between two streams the expected size does not matter
between_streams :
    (total streams : ℕ) (x : Option ℕ)
    → (e : ℕ) × (part_of total streams (nonzero x) 0 ≡ (min total streams * e, total * e))
between_streams total streams none = (1, rw (mul-one (min total streams), mul-one total) refl)
between_streams total streams (some zero) =
    (1, rw (mul-one (min total streams), mul-one total) refl)
between_streams total streams (some (suc e)) = (
  suc e,
  rw (min-zero (suc e), add-zero (streams * suc e), scaled_min total streams (suc e)) refl,
)

pub next_stream :
    (total streams : ℕ) (x y : Option ℕ)
    → AtMost (part_of total streams (nonzero x) 0) (part_of total streams (nonzero y) 0)
next_stream total streams x y =
    let (e, at_x) = between_streams total streams x in
    let (e', at_y) = between_streams total streams y in
    let m = min total streams in
    rw (at_x, at_y)
      (rw (mul-mul-mul_comm m e total e', mul-mul-mul_comm m e' total e, mul_comm e' e)
        (le_refl (m * total * (e * e'))))

pub more_bytes :
    (total streams : ℕ) (x : Option ℕ) (bytes bytes' : ℕ)
    → bytes ≤ bytes'
    → AtMost (part_of total streams (nonzero x) bytes) (part_of total streams (nonzero x) bytes')
more_bytes total streams none bytes bytes' h = le_refl (min total streams * total)
more_bytes total streams (some zero) bytes bytes' h = le_refl (min total streams * total)
more_bytes total streams (some (suc e)) bytes bytes' h =
    mul-le-mul_right (total * suc e) (ground arith)

pub stream_done :
    (total streams : ℕ) (x : Option ℕ) (bytes : ℕ)
    → AtMost (part_of total streams (nonzero x) bytes) (part_of total (suc streams) (nonzero x) 0)
stream_done total streams none bytes = mul-le-mul_right total (ground arith)
stream_done total streams (some zero) bytes = mul-le-mul_right total (ground arith)
stream_done total streams (some (suc e)) bytes =
    mul-le-mul_right (total * suc e) (rw (suc-mul streams (suc e)) (ground arith))
