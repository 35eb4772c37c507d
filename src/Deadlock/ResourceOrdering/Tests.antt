-- ===== src/Deadlock/ResourceOrdering/Tests.antt =====
-- The requests of `main`.
use os_exploring.Common.{
  ℕ, ◌≡◌, refl, false, Option, none, some, List, [], ◌∷◌, IsDistinct, for_range,
}
use os_exploring.Deadlock.ResourceOrdering.{
  ResourceOrderingSystem, initialize_resource_ordering, request_resource,
}
use os_exploring.Deadlock.ResourceOrdering.Order.{
  Chain, granted_by, is_valid_resource_request-acyclic, request_resource_once,
}

abbrev five : ResourceOrderingSystem
five =
    initialize_resource_ordering
      (record {
        resources = λ i. record { resource_id = 0; priority = 0; available = false };
        num_resources = 0;
      })
      5

abbrev requests : List (Option ℕ × ℕ)
requests = (none, 0) ∷ (some 0, 2) ∷ (some 2, 1) ∷ []

granted_by-five : granted_by five requests ≡ 0 ∷ 2 ∷ []
unfolding request_resource initialize_resource_ordering for_range
granted_by-five = refl

is_valid_resource_request-acyclic_run : ¬ Chain five 2 2
is_valid_resource_request-acyclic_run = is_valid_resource_request-acyclic five 2

request_resource_once_run : IsDistinct (granted_by five requests)
request_resource_once_run = request_resource_once five requests
