-- ===== src/Lib.antt =====
-- Verification of the dashboard frontend: the part of frontend/src that decides what is shown.
--
-- The program polls a master server for the state of a fleet of machines and shows it as pages. Its
-- own logic is the shaping of charts, the layout of the dashboard, the judgement of agents and the
-- choice of texts in three languages:
--
-- - A chart has a configuration (`ChartConfig`), which `resolveConfig` completes against the table
--   of datasets; the rows of the dataset's history over a window of time are grouped, ranked and
--   summed into the input that every chart type draws.
-- - The dashboard is a grid of 12 columns of widgets. Its layout comes from a template, from a random
--   division of the screen, from the table of widgets or from editing.
-- - The history is fetched through a cache of requests that several charts share.
-- - Every text of the pages is looked up by a key in the dictionary of the chosen language.
-- - Compliance checks and the attention list are computed from the agents and the open alerts.
--
-- Files, each with the code that it is about (paths below frontend/src):
--
-- - Base: lists, texts, integers over the native numbers, and the stable sort.
-- - Charts/Number, Charts/Types: the numbers of the measures and charts/types.ts.
-- - Charts/Datasets/Catalog, Charts/Datasets/Resolve: charts/datasets.ts (`DATASETS`,
--   `resolveConfig`); Datasets/Keeping is on what it keeps.
-- - Charts/Shape/Time: `bucketStart`, `bucketRange` and `windowFor` of charts/shape.ts;
--   Time/Buckets and Time/Range hold the proofs.
-- - Charts/Shape/Aggregate: `combine`, `groupRows` and `rankBy`; Aggregate/Groups on grouping,
--   Aggregate/Exact on sums.
-- - Charts/Shape/Series: `perBucket`, `seriesRows`, `series` and `total` of `buildChartInput`;
--   Series/Placing, Series/Totals, Series/Columns and Series/OverTime hold the proofs.
-- - Charts/Shape/Hierarchy: its closure `tree`; Hierarchy/Totals holds the proofs.
-- - Charts/Shape/Matrix: its closures `keepNames` and `matrixOf`; Matrix/Occurs, Matrix/Keeping,
--   Matrix/Cells, Matrix/Totals and Matrix/Whole hold the proofs.
-- - Charts/Shape/Headline: the part `kpi` of `buildChartInput`; Headline/Comparison holds the proofs.
-- - Charts/Shape/Build: `buildChartInput` with all its parts; Build/Agreeing is on their totals.
-- - Charts/History: the cache of charts/history.ts as a state machine, whose events are calls, replies,
--   failures and the clock; History/Service says without a cache what a call may answer,
--   History/Lookups, History/Settling, History/Sound and History/Refining hold the proofs.
--   History/SingleCell: the cache of the status. History/Rows: `toRows` and `historySince`.
-- - Charts/Registry: charts/ids.ts and the table of charts/registry.ts.
-- - Dashboard/Area: rectangles that tile an area.
-- - Dashboard/Grid: lib/dashboardGrid.ts. Dashboard/Templates: lib/dashboardTemplates.ts, its table
--   in Templates/Catalog. Dashboard/Widgets: the tables of lib/dashboardWidgets.tsx.
-- - Dashboard/Layout: the layout state of pages/Dashboard.tsx and its handlers. Dashboard/Random: the
--   division of the screen in `randomizeLayout`, and in Random/Choice its widgets; Random/Filling,
--   Random/Searching and Random/Fitting hold the proofs. Dashboard/Saving: its loading and autosave
--   as a state machine, in which the replies of the master and the timer are events;
--   Saving/Safety and Saving/Writing hold the proofs.
-- - Fleet/Agent: types of lib/api.ts. Fleet/Compliance: lib/compliance.ts. Fleet/Attention:
--   lib/attention.ts. Fleet/Denials: lib/explainDenial.ts.
-- - Navigation: lib/nav.ts. Identifiers: lib/uuid.ts where the browser makes no identifiers itself.
-- - I18n: i18n/translations.ts, a dictionary for each language (English, French, Spanish), and
--   i18n/index.tsx: Translate has `lookup`, `resolvePlural` and `t`, Choice the stored language. Text
--   has the functions on texts that they call; Template and Agree compare two dictionaries; Complete,
--   Total and Labels are about the keys that are found, Filling about placeholders.
-- - Tests: runs on concrete inputs, and each theorem at one.
--
-- State and errors. React state that editing changes is the record `Page`, and a handler is a
-- function from page to page. A missing entry is an `Option`; a map is a list of keys and values in
-- the order of insertion, as a JavaScript `Map` keeps it.
--
-- Numbers. An instant is an integer number of seconds, and a width, a row or a count is a natural
-- number. The measures are JavaScript numbers, which are a parameter: the record `Arithmetic`, with
-- `IsExact` for what is documented of whole numbers up to 2^53 - 1. Quotients that the source rounds
-- are computed exactly, with a note at each why rounding agrees. Also parameters are
-- `localeCompare`, `URLSearchParams`, the reading and writing of numbers and dates,
-- `randomUUID` and the draws of `Math.random`, which are numbers below 2^53.
--
-- Loops are structural recursion, except two on fuel. `bucketRange` has a round for each second of
-- its range, which is enough, since a step is at least an hour; the loop of the random layout has a
-- round for each cell that it may add.
--
-- Not modelled: the statistics of charts/shape.ts and lib/commandFormat.ts, which are still to
-- come; the drawing of charts and pages (React components and option objects of a
-- chart library), the theme, the text of the wiki, and the master server and the agent, which are
-- programs in other languages.
pub mod Base
pub mod Charts
pub mod Dashboard
pub mod Fleet
pub mod I18n
pub mod Navigation
pub mod Identifiers
pub mod Tests
