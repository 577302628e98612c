-- ===== src/Fleet/Judges.antt =====
-- The table of the judges: apps/judge/models/judge.py, the requests of a worker about itself
-- (apps/judge/api/gateway.py, apps/judge/auth.py) or of the older bridge (apps/judge/bridge),
-- apps/judge/services/judge_service.py, and
-- `monitor_judges` (apps/judge/services/judge_maintenance_service.py). `save` sets `updated_at`. What
-- a judge can run (`capabilities`), its address and its texts are left out.
use judgeloom_core.Base.{
  ℕ, ◌+◌, ◌*◌, ltb, leb, ◌==◌, Bool, true, false, not, ◌&&◌, Option, none, some, List,
  if◌then◌else◌, first, select, count_where, update_where, Result, ok, err, ◌>>◌, raise_if,
  permission_denied, not_found,
}
use judgeloom_core.Base.Text.{Text, text_eq}

pub record Judge : Type 0 where
  pub id : ℕ
  pub name : Text
  pub token_hash : Option Text
  pub protocol_version : ℕ
  pub online : Bool
  pub start_time : Option ℕ
  pub last_seen : Option ℕ
  pub ping : Option ℕ
  pub load : Option ℕ
  pub current_load : ℕ
  pub is_blocked : Bool
  pub updated_at : ℕ

abbrev pub Fleet : Type 0
Fleet = List Judge

abbrev pub find_judge : ℕ → Fleet → Option Judge
find_judge k fleet = first (select (λ j. j.id == k) fleet)

-- `judge.save(update_fields=[…, "updated_at"])`
abbrev pub save_judge : ℕ → (Judge → Judge) → Fleet → Fleet
save_judge k set fleet = update_where (λ j. j.id == k) set fleet

-- `now` where there is no time yet
abbrev pub start_or_now : Option ℕ → ℕ → Option ℕ
start_or_now none now = some now
start_or_now (some t) now = some t

abbrev pub has_token : Text → Option Text → Bool
has_token digest none = false
has_token digest (some hash) = text_eq hash digest

-- A blocked judge gets the status 403.
abbrev pub unblocked : Option Judge → Result (Option Judge)
unblocked none = ok none
unblocked (some j) = raise_if j.is_blocked (permission_denied "Judge is blocked.") >> ok (some j)

-- `JudgeTokenAuth.authenticate`, for the SHA-256 of the token
unfoldable pub judge_of_token : Text → Fleet → Result (Option Judge)
judge_of_token digest fleet = unblocked (first (select (λ j. has_token digest j.token_hash) fleet))

-- `register`
unfoldable pub register : Judge → ℕ → ℕ → Fleet → Fleet
register judge version now fleet =
    save_judge judge.id
      (λ j. record j {
        protocol_version = version;
        online = true;
        last_seen = some now;
        start_time = start_or_now judge.start_time now;
        updated_at = now;
      })
      fleet

-- The part of `heartbeat` on the judge's own row
unfoldable pub report_load : Judge → ℕ → ℕ → Fleet → Fleet
report_load judge load now fleet =
    save_judge judge.id
      (λ j. record j {
        online = true;
        last_seen = some now;
        current_load = load;
        load = some load;
        updated_at = now;
      })
      fleet

-- `JudgeService.update_judge_ping`
unfoldable pub update_judge_ping : Judge → ℕ → ℕ → Fleet → Fleet
update_judge_ping judge ping now fleet =
    save_judge judge.id
      (λ j. record j {
        ping = some ping;
        online = true;
        start_time = start_or_now judge.start_time now;
        updated_at = now;
      })
      fleet

-- `on_connect` of the older bridge (apps/judge/bridge/judge_handler.py), once the key is right
unfoldable pub on_connect : Judge → ℕ → Fleet → Fleet
on_connect judge now fleet =
    save_judge judge.id
      (λ j. record j {
        online = true;
        start_time = start_or_now judge.start_time now;
        updated_at = now;
      })
      fleet

-- `on_disconnect`
unfoldable pub on_disconnect : Judge → ℕ → Fleet → Fleet
on_disconnect judge now fleet =
    save_judge judge.id (λ j. record j { online = false; updated_at = now }) fleet

-- `JudgeService.block_judge` and `unblock_judge`
unfoldable pub set_blocked : Bool → Judge → ℕ → Fleet → Fleet
set_blocked blocked judge now fleet =
    save_judge judge.id (λ j. record j { is_blocked = blocked; updated_at = now }) fleet

abbrev pub or_unknown_judge : Option Judge → Result Judge
or_unknown_judge none = err (not_found "Judge was not found.")
or_unknown_judge (some j) = ok j

-- `JudgeService.get_judge`
abbrev pub get_judge : Text → Fleet → Result Judge
get_judge name fleet = or_unknown_judge (first (select (λ j. text_eq j.name name) fleet))

-- `Judge.status`: disabled, offline, busy or available
pub data JudgeState : Type 0 where
  disabled offline busy available : JudgeState

abbrev pub is_busy : Option ℕ → Bool
is_busy none = false
is_busy (some load) = leb 850000 load

abbrev pub judge_state : Judge → JudgeState
judge_state j =
    if j.is_blocked
    then disabled
    else (if not j.online then offline else (if is_busy j.load then busy else available))

-- 120 seconds, in microseconds
abbrev pub heartbeat_timeout : ℕ
heartbeat_timeout = 120 * 1000000

-- `online=True, updated_at__lt=timeout_at`
abbrev pub is_silent : ℕ → Judge → Bool
is_silent now j = j.online && ltb (j.updated_at + heartbeat_timeout) now

abbrev pub sent_offline : ℕ → Judge → Judge
sent_offline now j = record j { online = false; updated_at = now }

-- `monitor_judges`, with the number of judges that went offline
unfoldable pub monitor_judges : ℕ → Fleet → Fleet × ℕ
monitor_judges now fleet =
    (update_where (is_silent now) (sent_offline now) fleet, count_where (is_silent now) fleet)
