-- ===== src/Api/Conditions/Tests.antt =====
-- The conditions of a contributor as they are set one after the other.
use patch_operator.Base.{◌≡◌, refl, [], ◌∷◌, codes, ◌==◌}
use patch_operator.Api.{Condition, yes_status}
use patch_operator.Api.Conditions.{set_condition}

abbrev ready : Condition
ready = record {
  type = codes "Ready";
  status = yes_status;
  reason = codes "Applied";
  message = [];
  last_transition_time = 0;
}

abbrev was_ready : Condition
was_ready = record ready { reason = codes "Waiting"; last_transition_time = 7 }

keeps_time : set_condition 9 ready (was_ready ∷ []) ≡ record ready { last_transition_time = 7 } ∷ []
unfolding set_condition ◌==◌
keeps_time = refl
