-- ===== src/Promotion/Tests.antt =====
-- The witnesses on an adoption.
use patch_operator.Base.{ℕ, false, true, some, [], ◌∷◌, codes, Text}
use patch_operator.Api.Status.{TrackerStatus}
use patch_operator.Tracker.Samples.{sample_record, sample_status, blank_status}
use patch_operator.Promotion.{adopt_status}

abbrev adopted_message : ℕ → Text
adopted_message n = codes "adopted"

-- a tracker that has captured the prior values of its contributor
abbrev captured_status : TrackerStatus
captured_status = record sample_status {
  contributors =
      record sample_record { prior_values = some (codes "{}"); prior_values_captured = true } ∷ [];
}

-- and one that lists the same contributor and has captured nothing
abbrev uncaptured_status : TrackerStatus
uncaptured_status = record blank_status {
  contributors = record sample_record { prior_values_captured = false; owned_paths = [] } ∷ [];
}

-- the second takes over from the first
abbrev successor : TrackerStatus
successor = adopt_status 3 adopted_message uncaptured_status captured_status
