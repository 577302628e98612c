-- ===== src/Formats/Registry.antt =====
-- apps/contests/formats/__init__.py: the formats by their key, and the method that they share.
use text.Mathlib.Text.{◌==◌ as str_eq}
use judgeloom_core.Base.{ℕ, String, Option, List, if◌then◌else◌, Result, ok, err, key_error}
use judgeloom_core.Models.{Submission, Contest, ContestProblem, Participation, Calculation}
use judgeloom_core.Formats.Default.{default_calculate}
use judgeloom_core.Formats.Icpc.{icpc_calculate}
use judgeloom_core.Formats.Ioi.{ioi_calculate}
use judgeloom_core.Formats.Atcoder.{atcoder_calculate}
use judgeloom_core.Formats.Ecoo.{ecoo_calculate}

pub data ContestFormat : Type 0 where
  default icpc ioi atcoder ecoo : ContestFormat

-- `get_format`
unfoldable pub get_format : String → Result ContestFormat
get_format key =
    if str_eq key "default"
    then ok default
    else (if str_eq key "icpc"
        then ok icpc
        else (if str_eq key "ioi"
            then ok ioi
            else (if str_eq key "atcoder"
                then ok atcoder
                else (if str_eq key "ecoo"
                    then ok ecoo
                    else err (key_error "Unknown contest format")))))

-- `calculate_participation` of each format, over the contest's problems in their order.
unfoldable pub calculate_participation :
    ContestFormat
    → Contest
    → List ContestProblem
    → List Submission
    → Participation
    → Option ℕ
    → Result Calculation
calculate_participation default c cps subs p freeze = ok (default_calculate c subs p freeze cps)
calculate_participation icpc c cps subs p freeze = ok (icpc_calculate c subs p freeze cps)
calculate_participation ioi c cps subs p freeze = ok (ioi_calculate subs p freeze cps)
calculate_participation atcoder c cps subs p freeze = ok (atcoder_calculate c subs p freeze cps)
calculate_participation ecoo c cps subs p freeze = ecoo_calculate c subs p freeze cps
