-- ===== src/Deadlock/ResourceOrdering.antt =====
-- ResourceOrderingSystem.c: resources must be requested in increasing order.
pub mod Order
mod Tests
use os_exploring.Common.{
  ℕ, ◌+◌, Bool, true, false, not, Option, none, some, List, [], ◌∷◌, ltb, ◌==◌, if◌then◌else◌,
  update, for_range, write_range,
}

pub record Resource : Type 0 where
  pub resource_id : ℕ
  pub priority : ℕ
  pub available : Bool

pub record ResourceOrderingSystem : Type 0 where
  pub resources : ℕ → Resource
  pub num_resources : ℕ

unfoldable pub initialize_resource_ordering : ResourceOrderingSystem → ℕ → ResourceOrderingSystem
unfolding for_range
initialize_resource_ordering ros num_res = record {
  resources =
      write_range (λ i r. record { resource_id = i; priority = i; available = true }) num_res 0
        ros.resources;
  num_resources = num_res;
}

-- `none` is the -1 of the source, for a first request.
unfoldable pub is_valid_resource_request : ResourceOrderingSystem → Option ℕ → ℕ → Bool
is_valid_resource_request ros none req = true
is_valid_resource_request ros (some curr) req =
    ltb (ros.resources curr).priority (ros.resources req).priority

-- Whether the resource is granted, and the system afterwards. The process is only printed.
unfoldable pub request_resource :
    ResourceOrderingSystem → Option ℕ → ℕ → Bool × ResourceOrderingSystem
unfolding is_valid_resource_request
request_resource ros curr req =
    let r = ros.resources req in
    if is_valid_resource_request ros curr req
    then (if r.available
        then (
          true,
          record ros { resources = update ros.resources req (record r { available = false }) },
        )
        else (false, ros))
    else (false, ros)
