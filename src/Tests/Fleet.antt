-- ===== src/Tests/Fleet.antt =====
-- Judges that report, fall silent, and are switched off.
use judgeloom_core.Base.{◌≡◌, refl, arith, true, false, none, some, [], ◌∷◌, ok}
use judgeloom_core.Models.{whole}
use judgeloom_core.Fleet.Judges.{
  Judge, Fleet, busy, report_load, monitor_judges, judge_of_token, judge_state, set_blocked,
}
use judgeloom_core.Fleet.Monitoring.{
  arrived, goes_on, monitors, beats, blocks, IsOnline, report_load-IsOnline,
}

abbrev one : Judge
one = record {
  id = 1;
  name = 65 ∷ [];
  token_hash = some (7 ∷ []);
  protocol_version = 1;
  online = false;
  start_time = none;
  last_seen = none;
  ping = none;
  load = none;
  current_load = 0;
  is_blocked = false;
  updated_at = 0;
}

abbrev two : Judge
two = record one { id = 2; token_hash = some (8 ∷ []); online = true; updated_at = whole 5 }

abbrev fleet : Fleet
fleet = one ∷ two ∷ []

abbrev loaded : Judge
loaded = record two { load = some 900000 }

found_by_token : judge_of_token (8 ∷ []) fleet ≡ ok (some two)
unfolding judge_of_token
found_by_token = refl

is_loaded : judge_state loaded ≡ busy
is_loaded = refl

silent : (monitor_judges (whole 126) fleet).1 ≡ 1
unfolding monitor_judges
silent = refl

in_time : (monitor_judges (whole 125) fleet).1 ≡ 0
unfolding monitor_judges
in_time = refl

abbrev heard : Fleet
heard = report_load two 500000 (whole 20) fleet

-- Another judge reports, the judge is blocked, and the judges are checked.
abbrev later : Fleet
later =
    (monitor_judges (whole 140)
      (set_blocked true two (whole 100) (report_load one 0 (whole 90) heard))).0

report_load-IsOnline_example : IsOnline 2 (whole 20) later
report_load-IsOnline_example =
    report_load-IsOnline two 500000 (whole 20) (whole 140) fleet later refl (omega arith) (
      goes_on
        (goes_on (goes_on arrived (beats one 0 (whole 90) (omega arith)))
          (blocks true two (whole 100) (omega arith)))
        (monitors (whole 140) (omega arith)))
