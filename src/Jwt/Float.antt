-- ===== src/Jwt/Float.antt =====
-- The conversions between int64 and float64, for integers.
use ework_runner.Prelude.{
  ℕ, zero, suc, ◌+◌, ◌*◌, ◌/◌, ◌%◌, ◌<◌, ◌≡◌, ℤ, pos, negsuc, sub_ℕ, leb_ℤ, pos_part, neg_part, ltb,
  ◌==◌, ◌&&◌, if◌then◌else◌, arith,
}

-- The multiple of `u` that is nearest to `n`, the even one of two.
abbrev pub nearest : ℕ → ℕ → ℕ
nearest u n =
    if ltb (2 * (n % u)) u
    then n / u * u
    else if ltb u (2 * (n % u))
    then (n / u + 1) * u
    else if n / u % 2 == 0
    then n / u * u
    else (n / u + 1) * u

-- A float64 has 53 binary digits; `u` is the worth of the last one.
unfoldable pub float_from : ℕ → ℕ → ℕ → ℕ
float_from zero u n = nearest u n
float_from (suc fuel) u n =
    let rest = float_from fuel (2 * u) n in
    if ltb n (9007199254740992 * u) then nearest u n else rest

-- float64(n) for an int64; eleven doublings reach 2 ^ 64.
unfoldable pub float64 : ℤ → ℤ
float64 (pos n) = pos (float_from 11 1 n)
float64 (negsuc n) = sub_ℕ 0 (float_from 11 1 (suc n))

-- int64(x) for an integral float64; beyond int64 the platform decides.
unfoldable pub int64_of : (ℤ → ℤ) → ℤ → ℤ
int64_of out_of_range x =
    if leb_ℤ (negsuc 9223372036854775807) x && leb_ℤ x (pos 9223372036854775807)
    then x
    else out_of_range x

float_from-small : (n : ℕ) → n < 9007199254740992 → float_from 11 1 n ≡ n
unfolding float_from
float_from-small n h = ground arith

-- An int64 of at most 53 binary digits survives the way through a float64.
pub int64_of-float64 :
    (out_of_range : ℤ → ℤ) (x : ℤ)
    → pos_part x < 9007199254740992
    → neg_part x < 9007199254740992
    → int64_of out_of_range (float64 x) ≡ x
unfolding int64_of float64
int64_of-float64 out_of_range (pos n) h k = ground (arith, float_from-small n h)
int64_of-float64 out_of_range (negsuc n) h k = ground (arith, float_from-small (suc n) k)
