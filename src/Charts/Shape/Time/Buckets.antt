-- ===== src/Charts/Shape/Time/Buckets.antt =====
-- The start of a bucket: alignment, bounds and monotonicity (`bucketStart` of
-- frontend/src/charts/shape.ts).
use simply_se.Base.{ℕ, ◌*◌, ◌≡◌, ap}
use simply_se.Base.Int.{
  ℤ, pos, negsuc, ◌+ℤ◌, ◌-ℤ◌, ◌*ℤ◌, ◌≤ℤ◌, ◌<ℤ◌, floor_div, int_laws, pos_part, neg_part,
}
use simply_se.Charts.Types.{Bucket, hour, day, week}
use simply_se.Charts.Shape.Time.{bucket_step, bucket_start, day_seconds}

floor_hour :
    (t : ℤ) → (floor_div t 3600 *ℤ pos 3600 ≤ℤ t) × (t <ℤ floor_div t 3600 *ℤ pos 3600 +ℤ pos 3600)
unfolding floor_div
floor_hour (pos n) = omega int_laws
floor_hour (negsuc n) = omega int_laws

floor_day :
    (t : ℤ)
    → (floor_div t day_seconds *ℤ pos day_seconds ≤ℤ t)
      × (t <ℤ floor_div t day_seconds *ℤ pos day_seconds +ℤ pos day_seconds)
unfolding floor_div
floor_day (pos n) = omega int_laws
floor_day (negsuc n) = omega int_laws

floor_week :
    (t : ℤ)
    → (floor_div t (7 * day_seconds) *ℤ pos (7 * day_seconds) ≤ℤ t)
      × (t <ℤ floor_div t (7 * day_seconds) *ℤ pos (7 * day_seconds) +ℤ pos (7 * day_seconds))
unfolding floor_div
floor_week (pos n) = omega int_laws
floor_week (negsuc n) = omega int_laws

-- A bucket starts at or before each of its instants, and ends after it.
pub bucket_start_bounds :
    (t : ℤ) (b : Bucket) → (bucket_start t b ≤ℤ t) × (t <ℤ bucket_start t b +ℤ pos (bucket_step b))
unfolding bucket_start
bucket_start_bounds t hour = floor_hour t
bucket_start_bounds t day = floor_day t
bucket_start_bounds t week = omega (int_laws, floor_week (t +ℤ pos (3 * day_seconds)))

-- The instants at which a bucket starts: the multiples of its step, for weeks from a Monday on.
abbrev pub origin : Bucket → ℤ
origin hour = pos 0
origin day = pos 0
origin week = pos 0 -ℤ pos (3 * day_seconds)

unfoldable pub IsAligned : ℤ → Bucket → Type 0
IsAligned s b = (k : ℤ) × (s ≡ k *ℤ pos (bucket_step b) +ℤ origin b)

pub bucket_start-IsAligned : (t : ℤ) (b : Bucket) → IsAligned (bucket_start t b) b
unfolding bucket_start IsAligned
bucket_start-IsAligned t hour = (floor_div t 3600, omega int_laws)
bucket_start-IsAligned t day = (floor_div t day_seconds, omega int_laws)
bucket_start-IsAligned t week =
    (floor_div (t +ℤ pos (3 * day_seconds)) (7 * day_seconds), omega int_laws)

-- Of two aligned instants one is a whole step later, or it is not later.
aligned_le :
    (b : Bucket) (s t : ℤ) → IsAligned s b → IsAligned t b → s <ℤ t +ℤ pos (bucket_step b) → s ≤ℤ t
unfolding IsAligned
aligned_le hour s t (j, e) (k, f) p =
    omega (int_laws, ap pos_part e, ap neg_part e, ap pos_part f, ap neg_part f)
aligned_le day s t (j, e) (k, f) p =
    omega (int_laws, ap pos_part e, ap neg_part e, ap pos_part f, ap neg_part f)
aligned_le week s t (j, e) (k, f) p =
    omega (int_laws, ap pos_part e, ap neg_part e, ap pos_part f, ap neg_part f)

-- `bucketStart` finds the one aligned instant whose bucket holds `t`.
pub bucket_start_unique :
    (t s : ℤ) (b : Bucket)
    → IsAligned s b
    → s ≤ℤ t
    → t <ℤ s +ℤ pos (bucket_step b)
    → bucket_start t b ≡ s
bucket_start_unique t s b a p q =
    let start = bucket_start-IsAligned t b in
    let before =
      aligned_le b (bucket_start t b) s start a (omega (int_laws, bucket_start_bounds t b)) in
    let after =
      aligned_le b s (bucket_start t b) a start (omega (int_laws, bucket_start_bounds t b)) in
    omega int_laws

-- A later instant is in no earlier bucket.
pub bucket_start_mono : (s t : ℤ) (b : Bucket) → s ≤ℤ t → bucket_start s b ≤ℤ bucket_start t b
bucket_start_mono s t b h =
    aligned_le b (bucket_start s b) (bucket_start t b) (bucket_start-IsAligned s b)
      (bucket_start-IsAligned t b)
      (omega (int_laws, bucket_start_bounds s b, bucket_start_bounds t b))

-- Whole steps lead from one aligned instant to another.
pub IsAligned-shift_back :
    (s : ℤ) (b : Bucket) (n : ℕ) → IsAligned s b → IsAligned (s -ℤ pos (n * bucket_step b)) b
unfolding IsAligned
IsAligned-shift_back s hour n (k, e) = (k -ℤ pos n, omega (int_laws, ap pos_part e, ap neg_part e))
IsAligned-shift_back s day n (k, e) = (k -ℤ pos n, omega (int_laws, ap pos_part e, ap neg_part e))
IsAligned-shift_back s week n (k, e) = (k -ℤ pos n, omega (int_laws, ap pos_part e, ap neg_part e))
