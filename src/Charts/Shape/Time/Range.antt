-- ===== src/Charts/Shape/Time/Range.antt =====
-- The instants of a chart's time axis (`bucketRange` and `windowFor` of
-- frontend/src/charts/shape.ts).
use simply_se.Base.{
  ℕ, zero, suc, ◌+◌, ◌*◌, ◌≤◌, ◌<◌, ◌≡◌, arith, refl, ap, if◌then◌else◌, true, false, Bool-cases,
  inl, inr, get_elem?, length, Option, some, none, List, [], ◌∷◌, ◌∙◌, ◌-◌, max, ◌/◌,
}
use simply_se.Base.Int.{ℤ, pos, ◌+ℤ◌, ◌-ℤ◌, ◌*ℤ◌, ◌≤ℤ◌, ◌<ℤ◌, int_laws, leb_ℤ}
use simply_se.Charts.Types.{Bucket, hour, day, week}
use simply_se.Charts.Shape.Time.{
  bucket_step, bucket_start, range_from, bucket_range, Window, window_for, buckets_for, bucket_for,
}
use simply_se.Charts.Shape.Time.Buckets.{
  bucket_start_bounds, bucket_start_unique, bucket_start-IsAligned, IsAligned, IsAligned-shift_back,
}

pub leb_ℤ→le : (a b : ℤ) → leb_ℤ a b ≡ true → a ≤ℤ b
leb_ℤ→le a b h = ground arith

leb_ℤ→gt : (a b : ℤ) → leb_ℤ a b ≡ false → b <ℤ a
leb_ℤ→gt a b h = ground arith

pub le→leb_ℤ : (a b : ℤ) → a ≤ℤ b → leb_ℤ a b ≡ true
le→leb_ℤ a b h = ground arith

gt→leb_ℤ : (a b : ℤ) → b <ℤ a → leb_ℤ a b ≡ false
gt→leb_ℤ a b h = ground arith

-- The i-th instant of an arithmetic progression that stops after `to`.
abbrev pub nth_until : ℤ → ℕ → ℤ → ℕ → Option ℤ
nth_until start step to i =
    if leb_ℤ (start +ℤ pos (i * step)) to then some (start +ℤ pos (i * step)) else none

nth_until-suc :
    (t to : ℤ) (step i : ℕ) → nth_until (t +ℤ pos step) step to i ≡ nth_until t step to (suc i)
nth_until-suc t to step i =
    let shift : t +ℤ pos step +ℤ pos (i * step) ≡ t +ℤ pos (suc i * step) = omega int_laws in
    rw shift

get_elem?-cons_until :
    (t to : ℤ) (step i : ℕ) (rest : List ℤ)
    → leb_ℤ t to ≡ true
    → ((j : ℕ) → get_elem? rest j ≡ nth_until (t +ℤ pos step) step to j)
    → get_elem? (t ∷ rest) i ≡ nth_until t step to i
get_elem?-cons_until t to step zero rest h tail =
    let same : t +ℤ pos (0 * step) ≡ t = omega int_laws in rw (same, h)
get_elem?-cons_until t to step (suc i) rest h tail = tail i ∙ nth_until-suc t to step i

get_elem?-range_from :
    (fuel : ℕ) (t to : ℤ) (step i : ℕ)
    → 0 < step
    → to <ℤ t +ℤ pos fuel
    → get_elem? (range_from fuel t to step) i ≡ nth_until t step to i
unfolding range_from
get_elem?-range_from zero t to step i p h = rw (gt→leb_ℤ (t +ℤ pos (i * step)) to (omega int_laws))
get_elem?-range_from (suc fuel) t to step i p h = elim (Bool-cases (leb_ℤ t to)) [
  | inl more ↦ rw more (
      get_elem?-cons_until t to step i _ more
        λ j. get_elem?-range_from fuel (t +ℤ pos step) to step j p (omega int_laws))
  | inr done ↦ rw (done, gt→leb_ℤ (t +ℤ pos (i * step)) to (omega (int_laws, leb_ℤ→gt t to done)))
]

pub bucket_step-pos : (b : Bucket) → 0 < bucket_step b
bucket_step-pos hour = omega arith
bucket_step-pos day = omega arith
bucket_step-pos week = omega arith

-- The axis of a chart holds the start of the bucket of `from`, then one instant for each step, as
-- long as they are not after `to`, and nothing else; the loop ends.
pub get_elem?-bucket_range :
    (from to : ℤ) (b : Bucket) (i : ℕ)
    → get_elem? (bucket_range from to b) i ≡ nth_until (bucket_start from b) (bucket_step b) to i
unfolding bucket_range
get_elem?-bucket_range from to b i =
    get_elem?-range_from _ (bucket_start from b) to (bucket_step b) i (bucket_step-pos b)
      (omega int_laws)

length_of_ends {ℓ} :
    {A : Type ℓ} (xs : List A) (m : ℕ) (a : A)
    → get_elem? xs m ≡ some a
    → get_elem? xs (suc m) ≡ none
    → length xs ≡ suc m
length_of_ends [] m a p q = cc
length_of_ends (x ∷ []) zero a p q = refl
length_of_ends (x ∷ y ∷ xs) zero a p q = cc
length_of_ends (x ∷ xs) (suc m) a p q = ap suc (length_of_ends xs m a p q)

-- The start of the bucket that lies `m` buckets before the one of `now`.
abbrev pub back : ℤ → Bucket → ℕ → ℤ
back now b m = bucket_start now b -ℤ pos (m * bucket_step b)

back-IsAligned : (now : ℤ) (b : Bucket) (m : ℕ) → IsAligned (back now b m) b
back-IsAligned now b m =
    IsAligned-shift_back (bucket_start now b) b m (bucket_start-IsAligned now b)

bucket_start-back : (now : ℤ) (b : Bucket) (m : ℕ) → bucket_start (back now b m) b ≡ back now b m
bucket_start-back now b m =
    bucket_start_unique (back now b m) (back now b m) b (back-IsAligned now b m) (omega arith)
      (omega (int_laws, bucket_step-pos b))

get_elem?-back :
    (now : ℤ) (b : Bucket) (m : ℕ)
    → (get_elem? (bucket_range (back now b m) now b) m ≡ some (bucket_start now b))
      × (get_elem? (bucket_range (back now b m) now b) (suc m) ≡ none)
get_elem?-back now b m =
    let start = bucket_start now b in
    let here : back now b m +ℤ pos (m * bucket_step b) ≡ start = omega int_laws in
    let after : back now b m +ℤ pos (suc m * bucket_step b) ≡ start +ℤ pos (bucket_step b) =
      omega int_laws in
    let bounds = bucket_start_bounds now b in
    (
      get_elem?-bucket_range (back now b m) now b m
          ∙ rw (bucket_start-back now b m, here) (rw (le→leb_ℤ start now bounds.0)),
      get_elem?-bucket_range (back now b m) now b (suc m)
          ∙ rw (bucket_start-back now b m, after)
              (rw (gt→leb_ℤ (start +ℤ pos (bucket_step b)) now bounds.1)),
    )

pub length-bucket_range-back :
    (now : ℤ) (b : Bucket) (m : ℕ) → length (bucket_range (back now b m) now b) ≡ suc m
length-bucket_range-back now b m =
    let ends = get_elem?-back now b m in length_of_ends _ m (bucket_start now b) ends.0 ends.1

-- The window of a chart, in terms of the buckets before the current one.
pub record Covers (w : Window) (now : ℤ) : Type 0 where
  pub previous_aligned : IsAligned w.previous_start w.bucket
  pub period_aligned : IsAligned w.period_start w.bucket
  pub current : length (bucket_range w.period_start now w.bucket) ≡ w.buckets
  pub both : length (bucket_range w.previous_start now w.bucket) ≡ 2 * w.buckets
  pub last :
      get_elem? (bucket_range w.period_start now w.bucket) (w.buckets - 1)
      ≡ some (bucket_start now w.bucket)

-- `n` buckets that end with the current one, and as many before them.
window-Covers :
    (b : Bucket) (m : ℕ) (now : ℤ) (p q : ℤ)
    → p ≡ back now b m
    → q ≡ back now b (suc m + m)
    → Covers
        (record {
          bucket = b;
          buckets = suc m;
          step = bucket_step b;
          period_start = p;
          previous_start = q;
        })
        now
window-Covers b m now p q e f = record {
  previous_aligned = rw f (back-IsAligned now b (suc m + m));
  period_aligned = rw e (back-IsAligned now b m);
  current = rw e (length-bucket_range-back now b m);
  both = rw f (length-bucket_range-back now b (suc m + m) ∙ omega arith);
  last = rw (e, (let same : suc m - 1 ≡ m = omega arith in same)) (get_elem?-back now b m).0;
}

buckets_for-pos : (b : Bucket) (days : ℕ) → 1 ≤ days → (m : ℕ) × (buckets_for b days ≡ suc m)
buckets_for-pos hour days h = (days * 24 - 1, omega arith)
buckets_for-pos day days h = (days - 1, omega arith)
buckets_for-pos week days h = (max 1 (days / 7) - 1, omega arith)

period_eq : (s : ℤ) (m step : ℕ) → s -ℤ (pos (suc m) -ℤ pos 1) *ℤ pos step ≡ s -ℤ pos (m * step)
period_eq s m step =
    let one : pos (suc m) -ℤ pos 1 ≡ pos m = omega int_laws in rw one (omega int_laws)

previous_eq :
    (s : ℤ) (m step : ℕ) → s -ℤ pos (m * step) -ℤ pos (suc m * step) ≡ s -ℤ pos ((suc m + m) * step)
previous_eq s m step = omega int_laws

-- For a chart of at least one day the period and the period before it start on a bucket, the
-- period has exactly `buckets` buckets and ends with the current one, and the two together have
-- twice as many.
pub window_for-Covers : (days : ℕ) (now : ℤ) → 1 ≤ days → Covers (window_for days now) now
unfolding window_for
window_for-Covers days now h =
    let b = bucket_for days in
    let start = bucket_start now b in
    let (m, e) = buckets_for-pos b days h in
    rw e (
      window-Covers b m now _ _ (period_eq start m (bucket_step b))
        (rw (period_eq start m (bucket_step b)) (previous_eq start m (bucket_step b))))
