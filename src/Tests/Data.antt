-- ===== src/Tests/Data.antt =====
-- A small site: one problem with two cases, one contest, its users, and one judge.
use judgeloom_core.Base.{ℕ, true, false, none, some, [], ◌∷◌}
use judgeloom_core.Base.Int.{pos}
use judgeloom_core.Models.{
  User, Problem, ProblemVisibility, Language, Package, Manifest, Contest, ContestVisibility,
  ContestProblem, Participation, ParticipationStatus, FormatData, SubmissionMode, Verdict, known,
  Store, whole,
}
use judgeloom_core.Scoring.Cases.{ReportedCase}
use judgeloom_core.Submissions.Create.{Settings, Request, insert_submission}

abbrev pub alice : User
alice = record {
  id = 1;
  is_authenticated = true;
  is_staff = false;
  is_superuser = false;
  organizations = [];
}

abbrev pub bob : User
bob = record alice { id = 2 }

abbrev pub manifest : Manifest
manifest = record {
  cases = record { points = whole 1; group = 0 } ∷ record { points = whole 2; group = 0 } ∷ [];
  groups = [];
  partial_score = some false;
  short_circuit = none;
}

abbrev pub pack : Package
pack = record { id = 50; problem_id = 10; sha256 = "abc"; is_active = true; manifest = manifest }

abbrev pub problem : Problem
problem = record {
  id = 10;
  code = 77;
  visibility = ProblemVisibility.public;
  is_organization_private = false;
  authors = [];
  curators = [];
  testers = [];
  organizations = [];
  languages_allowed = [];
  time_limit = whole 2;
  memory_limit = 256;
  partial_score = false;
  short_circuit = false;
  packages = pack ∷ [];
  language_limits = [];
}

abbrev pub language : Language
language = record { id = 5; is_enabled = true }

abbrev pub settings : Settings
settings = record {
  max_submission_size = 1000;
  submission_rate_limit_per_minute = 5;
  run_rate_limit_per_minute = 10;
}

-- An ICPC contest from 0 to 1000 seconds, frozen from second 500.
abbrev pub contest : Contest
contest = record {
  id = 20;
  start_time = 0;
  end_time = whole 1000;
  time_limit = some (whole 600);
  visibility = ContestVisibility.public;
  organizers = 9 ∷ [];
  curators = [];
  testers = [];
  organizations = [];
  format_name = "icpc";
  format_config = record {
    wrong_penalty_minutes = none;
    penalty_minutes = none;
    tries_per_problem = none;
  };
  scoreboard_frozen_after = some (whole 500);
  access_code = "";
  banned_users = 3 ∷ [];
  is_visible = true;
  is_rated = false;
  started_at = none;
  ended_at = none;
}

abbrev pub contest_problem : ContestProblem
contest_problem = record {
  contest_id = 20;
  problem_id = 10;
  order = 1;
  label = 1;
  points = whole 1;
  max_submissions = some 3;
}

abbrev pub entry : Participation
entry = record {
  id = 30;
  contest_id = 20;
  user_id = 1;
  status = ParticipationStatus.live;
  virtual_start = none;
  score = 0;
  tiebreaker = 0;
  cumulative_time = 0;
  is_disqualified = false;
  format_data = FormatData.empty;
}

abbrev pub site : Store
site = record {
  next_id = 100;
  problems = problem ∷ [];
  submissions = [];
  sources = [];
  case_rows = [];
  jobs = [];
  contests = contest ∷ [];
  contest_problems = contest_problem ∷ [];
  participations = entry ∷ [];
  events = [];
}

abbrev pub request : Request
request = record {
  user = alice;
  problem = problem;
  language = language;
  source_code = "print(1)";
  participation = some entry;
  mode = SubmissionMode.submit;
  custom_input = "";
  expected_output = "";
}

-- The site with one submission, made at second 60.
abbrev pub submitted : Store
submitted = insert_submission request (some pack) (whole 60) site

abbrev pub reported : ℕ → Verdict → ℕ → ReportedCase
reported n v points = record {
  case_number = n;
  status = known v;
  time_used = 10;
  memory_used = 20;
  points = pos points;
  total_points = pos 0;
  feedback = "";
  output = "";
}
