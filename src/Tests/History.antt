-- ===== src/Tests/History.antt =====
-- The cache of requests and the rows of a reply.
use simply_se.Base.{ℕ, true, false, none, some, List, [], ◌∷◌, ◌≡◌, refl, get_elem?}
use simply_se.Base.Int.{pos}
use simply_se.Charts.Types.{Row, MeasureDef, Polarity, MeasureUnit}
use simply_se.Charts.History.{Event, clock, call, reply, fail, answers, run, initial}
use simply_se.Charts.History.Service.{Runs}
use simply_se.Charts.History.Refining.{ledger, run-Runs}
use simply_se.Charts.History.Rows.{
  HistoryRow, HistoryResponse, text, number, to_rows, Carries, to_rows-Carries,
}
use simply_se.Tests.Charts.{whole}

-- Two calls share one request; after a failure the next call sends again.
abbrev two_calls : List (Event ℕ)
two_calls =
    call "denials?" ∷ call "fleet?" ∷ clock 59999 ∷ call "denials?" ∷ fail 0 ∷ call "denials?" ∷ []

two_calls_test : answers ℕ two_calls (initial ℕ 0) ≡ 0 ∷ 1 ∷ 0 ∷ 2 ∷ []
unfolding answers
two_calls_test = refl

expired_test :
    answers ℕ (call "fleet?" ∷ reply 0 7 ∷ clock 60000 ∷ call "fleet?" ∷ []) (initial ℕ 0)
    ≡ 0 ∷ 1 ∷ []
unfolding answers
expired_test = refl

-- A request that fails after a newer one for its key was sent drops the newer one from the cache.
late_failure_test :
    answers ℕ
      (call "fleet?" ∷ clock 60000 ∷ call "fleet?" ∷ fail 0 ∷ call "fleet?" ∷ [])
      (initial ℕ 0)
    ≡ 0 ∷ 1 ∷ 2 ∷ []
unfolding answers
late_failure_test = refl

run-Runs_example :
    Runs ℕ two_calls
      (answers ℕ two_calls (initial ℕ 0))
      (ledger ℕ (initial ℕ 0))
      (ledger ℕ (run ℕ two_calls (initial ℕ 0)))
run-Runs_example = run-Runs ℕ 0 two_calls

abbrev one_row : HistoryRow whole
one_row = record { t = some (pos 3600); fields = ("agent", text "web") ∷ ("count", number 4) ∷ [] }

abbrev one_reply : HistoryResponse whole
one_reply = record {
  dataset = "denials";
  days = 7;
  bucket = "day";
  group = some ("agent" ∷ []);
  rows = one_row ∷ [];
  truncated = false;
}

abbrev count_measure : MeasureDef
count_measure = record {
  id = "count";
  label_key = "charts.measures.denials";
  field = "count";
  additive = true;
  unit = MeasureUnit.count;
  polarity = Polarity.neutral;
  scale = none;
  weight_field = none;
}

to_rows-Carries_example :
    (row : Row whole) × (get_elem? (to_rows whole (λ s. 0) (λ n. "n") one_reply count_measure) 0
      ≡ some row)
    × Carries whole (λ s. 0) (λ n. "n") ("agent" ∷ []) count_measure one_row row
to_rows-Carries_example =
    to_rows-Carries whole (λ s. 0) (λ n. "n") one_reply count_measure 0 one_row refl
