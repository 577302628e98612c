-- ===== src/Lib.antt =====
-- JudgeLoom core, an online judge: the judging pipeline, the scoring of submissions and contests,
-- and the services around them.
--
-- A submission is created by apps/submissions/services/submission_service.py, which adds a judge
-- job to the queue. Workers take jobs and report on them through apps/judge/api/gateway.py:
-- apps/judge/services/judge_gateway_service.py leases a job to a worker and takes back the jobs
-- whose lease has run out, and apps/judge/services/judge_result_service.py records what the worker
-- reports. apps/judge/services/scoring_service.py turns the reports into points and a verdict.
-- For a submission of a contest, apps/contests/services/ranking_service.py then recalculates the
-- standing in one of the formats of apps/contests/formats. apps/contests/services holds the rest of
-- the contests: who may see and join one, its problems, its entries and its schedule.
--
-- Which file models what:
--   Base           lists, Boolean tests, stable sorting, dictionaries, signed numbers, and the
--                  exceptions of core/exceptions.py as values
--   Models         the tables and their columns (the models.py of each app), as records; one Store
--                  holds all rows and the events published
--   Scoring        ScoringService.score, with _aggregate_result
--   Formats        AbstractContestFormat._submission_queryset and what the formats read of a
--                  submission, the five formats, and get_format
--   Ranking        RankingService, update_participation and get_ranking
--   Judge          Leases (_assert_owned, _extend_lease), Gateway (expire_stale_jobs, claim_job),
--                  Callbacks (Locks: start; Cases: record_cases; Grading: the scored result;
--                  Endings: finish and fail), Endpoints (gateway.py), Machine (the life of one job,
--                  which the pipeline refines)
--   Submissions    Create (create_submission: Guards, Rows, Requests), Rejudge (rejudge_submission,
--                  rejudge_problem, cleanup_stale_sessions), Access (views and share tokens),
--                  Reports (update_submission_result, update_test_case_result)
--   Contests       ContestService (Access, Joining, Entries, Problems) and
--                  ContestLifecycleService (Lifecycle)
--   Shadow         ShadowJobService (Jobs, Callbacks): replays of a submission on another judge
--   Content        CommentService, with its votes and materialized paths
--   Organizations  OrganizationService: members, admins and membership requests
--   Packages       PackageImportService: the names in an archive (Paths), its manifest (Archive,
--                  Cases, Groups) and files (Files), and the versions it becomes (Imports)
--   Accounts       AuthService, JudgeLoomAuth of core/permissions.py and JudgeLoomBackend
--   Ratings        RatingService._tie_ranks
--   Fleet          the judges themselves: JudgeService, JudgeTokenAuth, register and heartbeat of
--                  gateway.py, the ends of a connection of judge_handler.py, and monitor_judges
--   Catalog        ProblemService: the visible problems and the statistics; TagService
--   Pipeline       every request of the judging as a step between two databases, the invariant of the
--                  jobs (Invariant), and how they follow the machine of one job (Expiry, Refinement)
--   Tests          a small site, runs on it, and an instance of each result
--
-- The state is a value that each operation takes and returns. Accounts, Packages, Fleet and
-- Catalog.Tags have tables of their own. An operation that raises returns the exception and no
-- database, as its transaction is rolled back; only tag_problem, which has no transaction, keeps
-- what it wrote before. A batch of several transactions is a sequence of steps. The clock (`now`),
-- the rows that `skip_locked` passes over (`locked`), and the UUIDs are arguments. An operation
-- reads the clock once.
--
-- Numbers that Python holds as floats are fixed-point, in millionths, and round half to even, as
-- `round` does; the sums and products of floats are exact there, so that no result speaks of their
-- rounding errors. Times are microseconds. Names that are only compared (labels, group ids, problem
-- codes, language keys) are numbers; Accounts and Packages work on texts as lists of code points,
-- and fold the case of ASCII letters. A message with a value in it is the fixed part of its text.
-- Nearly every loop of the code runs over a list, and is structural recursion here. The ranks of
-- Ratings.Ties and the digits of Packages.Groups take fuel, as much as there are entries and as the
-- number is large; each round uses up one.
--
-- PyJWT and Django's password hashers are parameters (Accounts.Libraries), with the laws that the
-- results use, and so is Django's slugify (Catalog.Tags). What the libraries read in the bytes of
-- an archive (its entries, their digests, and the JSON value in them) is part of the uploaded file,
-- and how Python prints and reads numbers is a parameter (Packages.Json).
--
-- Not modelled: the HTTP routers and schemas, which convert and call the services; Django's admin,
-- models' presentation, migrations and settings; the caches and the WebSocket consumers; the workers
-- in Go, which are clients of the protocol; and the Elo-MMR update of the ratings, on floating-point
-- numbers, which is a parameter of Contests.Lifecycle.
-- A wrong_penalty_minutes below 0, which ICPCFormatConfig accepts, is left out.

pub mod Base
pub mod Models
pub mod Scoring
pub mod Formats
pub mod Ranking
pub mod Judge
pub mod Submissions
pub mod Contests
pub mod Shadow
pub mod Content
pub mod Organizations
pub mod Packages
pub mod Accounts
pub mod Ratings
pub mod Fleet
pub mod Catalog
pub mod Pipeline
pub mod Tests
