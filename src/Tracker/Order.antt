-- ===== src/Tracker/Order.antt =====
-- internal/controller/helpers.go: `sortContributors`.
pub mod Laws
use patch_operator.Base.{Bool, List, text_lt}
use patch_operator.Api.Status.{ContributorStatus}
use patch_operator.Sort.{stable_sort}
use patch_operator.Sort.Lexicographic.{lex, same_ℤ, after_ℤ, same_time, time_before}

-- the comparison: the greater priority, then the earlier creation, then the smaller UID
abbrev pub comes_before : ContributorStatus → ContributorStatus → Bool
comes_before a b = lex same_ℤ after_ℤ a.priority b.priority (
    lex same_time time_before a.creation_timestamp b.creation_timestamp
      (text_lt a.patch_ref.uid b.patch_ref.uid))

-- `sortContributors`
unfoldable pub sort_contributors : List ContributorStatus → List ContributorStatus
sort_contributors = stable_sort comes_before
