-- ===== src/Scoring/FullMarks.antt =====
-- A submission that passes every case of a package is judged AC with all its points.
use judgeloom_core.Base.{◌%◌, ◌<◌, ◌≡◌, List, [], ◌∷◌, All, length}
use judgeloom_core.Base.Dict.{Dict}
use judgeloom_core.Models.{Group, GroupMode, ManifestCase, Manifest}
use judgeloom_core.Scoring.{default_group, Tally, tally_cases, sum_points, initial_tally}
use judgeloom_core.Scoring.FullReports.{full_reports}

-- The one group that the importer gives to a package without groups.
abbrev pub whole_group : List ManifestCase → Group
whole_group cases = record { id = default_group; points = sum_points cases; mode = GroupMode.sum }

abbrev pub AreWhole : List ManifestCase → Type 0
AreWhole = All (λ m. (m.group ≡ default_group) × (m.points % 10000 ≡ 0))

module _ (m : Manifest) (nonempty : 0 < length m.cases) (whole : AreWhole m.cases) where
  abbrev whole_defs : Dict Group
  whole_defs = (default_group, whole_group m.cases) ∷ []

  abbrev full_tally : Tally
  full_tally = tally_cases whole_defs m.cases (full_reports 1 m.cases) (initial_tally whole_defs)
