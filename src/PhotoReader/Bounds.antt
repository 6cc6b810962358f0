-- ===== src/PhotoReader/Bounds.antt =====
-- The bounds of the shrink factors: src/photo-meta-reader-vips.c, calculate_shrink.
use dmapd.Prelude.{
  ℕ, ◌+◌, ◌*◌, ◌/◌, ◌≤◌, ◌<◌, ◌≡◌, refl, inl, inr, Bool-cases, ltb, if◌then◌else◌, arith,
}
use native.Mathlib.Nat.{
  le-div_iff_mul-le, div-lt_iff_lt-mul, lt-mul-div-succ, div-one, mul-div-le, mul-le-mul,
}
use dmapd.PhotoReader.{
  thumbnail_width, max, calculate_shrink, jpegshrink_of, thumbnail_find_jpegshrink,
}

thumbnail_width_pos : (n : ℕ) → 0 < thumbnail_width n
unfolding thumbnail_width
thumbnail_width_pos n = ground arith

-- The size in the second stage: not below the target, and below twice the target.
second_stage : (d t : ℕ) → 0 < t → t ≤ d → (0 < d / t) × (t ≤ d / (d / t)) × (d / (d / t) < 2 * t)
second_stage d t pos le =
    let s = d / t in
    let s_pos : 0 < s = (le-div_iff_mul-le {k = t} {x = 1} {y = d} pos).1 (omega arith) in
    let down : t * s ≤ d = mul-div-le d t in
    let up : d < t * (s + 1) = lt-mul-div-succ d pos in
    let least : t * 1 ≤ t * s =
      mul-le-mul {n₁ = t} {m₁ = 1} {n₂ = t} {m₂ = s} (omega arith) s_pos in
    (
      s_pos,
      (le-div_iff_mul-le {k = s} {x = t} {y = d} s_pos).1 down,
      (div-lt_iff_lt-mul {k = s} {x = d} {y = 2 * t} s_pos).1 (omega (arith, up, least)),
    )

jpegshrink_of-le : (s : ℕ) → 0 < s → (0 < jpegshrink_of s) × (jpegshrink_of s ≤ s)
unfolding jpegshrink_of
jpegshrink_of-le s pos = ground arith

-- A smaller shrink leaves a larger picture.
div_anti : (d i j t : ℕ) → 0 < i → i ≤ j → 0 < j → t ≤ d / j → t ≤ d / i
div_anti d i j t i_pos le j_pos k =
    let a : t * j ≤ d = (le-div_iff_mul-le {k = j} {x = t} {y = d} j_pos).0 k in
    let b : t * i ≤ t * j = mul-le-mul {n₁ = t} {m₁ = i} {n₂ = t} {m₂ = j} (omega arith) le in
    (le-div_iff_mul-le {k = i} {x = t} {y = d} i_pos).1 (omega arith)

-- What the two stages do to a picture whose larger side is `d`, for a thumbnail of width `t`.
pub record IsFit (d t shrink isize preshrink : ℕ) : Type 0 where
  pub shrink_pos : 0 < shrink
  pub preshrink_le : preshrink ≤ shrink
  pub large_size : t ≤ d → (t ≤ isize) × (isize < 2 * t) × (t ≤ d / preshrink)
  pub small_size : d < t → (shrink ≡ 1) × (isize ≡ d)

shrink-IsFit :
    (d t : ℕ)
    → 0 < t
    → let s = if ltb d t then 1 else d / t in IsFit d t s (d / s) (jpegshrink_of s)
shrink-IsFit d t pos = elim (Bool-cases (ltb d t)) [
  | inl q ↦ rw q (record {
    shrink_pos = omega arith;
    preshrink_le = (jpegshrink_of-le 1 (omega arith)).1;
    large_size = λ le. absurd (ground arith);
    small_size = λ lt. (refl, div-one d);
  })
  | inr q ↦
      let le : t ≤ d = ground arith in
      let (s_pos, lo, hi) = second_stage d t pos le in
      let (j_pos, j_le) = jpegshrink_of-le (d / t) s_pos in
      rw q (record {
        shrink_pos = s_pos;
        preshrink_le = j_le;
        large_size =
            λ k. (lo, hi, div_anti d (jpegshrink_of (d / t)) (d / t) t j_pos j_le s_pos lo);
        small_size = λ lt. absurd (omega arith);
      })
]

-- For a picture of any width and height, and any maximal thumbnail width, of which 0 stands for the
-- default: the integer shrink is at least 1, and libjpeg's preload shrink is not above it. A picture
-- that is not smaller than the thumbnail is, after the integer shrink, at least as large as the
-- thumbnail and less than twice as large, so that the residual scale does not zoom, and after the
-- preload shrink alone it is at least as large as the thumbnail. A smaller picture is not shrunk.
pub calculate_shrink-IsFit :
    (m width height : ℕ)
    → IsFit
        (max width height)
        (thumbnail_width m)
        (calculate_shrink m width height).0
        (calculate_shrink m width height).1.1
        (thumbnail_find_jpegshrink m width height)
unfolding calculate_shrink thumbnail_find_jpegshrink
calculate_shrink-IsFit m width height =
    shrink-IsFit (max width height) (thumbnail_width m) (thumbnail_width_pos m)
