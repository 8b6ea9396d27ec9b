-- ===== src/Charts/Shape/Time.antt =====
-- The time buckets of frontend/src/charts/shape.ts. Instants are unix seconds, as integers.
pub mod Buckets
pub mod Range
use simply_se.Base.{ℕ, zero, suc, ◌+◌, ◌*◌, ◌/◌, max, leb, if◌then◌else◌, List, [], ◌∷◌}
use simply_se.Charts.Types.{Bucket, hour, day, week}
use simply_se.Base.Int.{ℤ, pos, pos_part, ◌+ℤ◌, ◌-ℤ◌, ◌*ℤ◌, leb_ℤ, floor_div}

abbrev pub day_seconds : ℕ
day_seconds = 86400

abbrev pub bucket_step : Bucket → ℕ
bucket_step hour = 3600
bucket_step day = day_seconds
bucket_step week = 7 * day_seconds

-- Weeks start on Monday, three days before the epoch's Thursday.
unfoldable pub bucket_start : ℤ → Bucket → ℤ
bucket_start t hour = floor_div t 3600 *ℤ pos 3600
bucket_start t day = floor_div t day_seconds *ℤ pos day_seconds
bucket_start t week =
    floor_div (t +ℤ pos (3 * day_seconds)) (7 * day_seconds) *ℤ pos (7 * day_seconds)
    -ℤ pos (3 * day_seconds)

-- The loop of `bucketRange` from `t`, on fuel.
unfoldable pub range_from : ℕ → ℤ → ℤ → ℕ → List ℤ
range_from zero t to step = []
range_from (suc fuel) t to step =
    let rest = range_from fuel (t +ℤ pos step) to step in if leb_ℤ t to then t ∷ rest else []

-- A step is at least one second, so one round for each second of the range is enough.
unfoldable pub bucket_range : ℤ → ℤ → Bucket → List ℤ
unfolding range_from bucket_start
bucket_range from to b =
    let start = bucket_start from b in
    range_from (pos_part (to -ℤ start) + 1) start to (bucket_step b)

pub record Window : Type 0 where
  pub bucket : Bucket
  pub buckets : ℕ
  pub step : ℕ
  pub period_start : ℤ
  pub previous_start : ℤ

abbrev pub bucket_for : ℕ → Bucket
bucket_for days = if leb days 2 then hour else if leb days 120 then day else week

abbrev pub buckets_for : Bucket → ℕ → ℕ
buckets_for hour days = days * 24
buckets_for day days = days
buckets_for week days = max 1 (days / 7)

unfoldable pub window_for : ℕ → ℤ → Window
unfolding bucket_start
window_for days now_sec =
    let bucket = bucket_for days in
    let step = bucket_step bucket in
    let buckets = buckets_for bucket days in
    let period_start = bucket_start now_sec bucket -ℤ (pos buckets -ℤ pos 1) *ℤ pos step in
    record {
      bucket = bucket;
      buckets = buckets;
      step = step;
      period_start = period_start;
      previous_start = period_start -ℤ pos (buckets * step);
    }
