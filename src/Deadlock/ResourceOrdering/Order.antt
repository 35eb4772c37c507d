-- ===== src/Deadlock/ResourceOrdering/Order.antt =====
-- What the order of the resources gives: no circular wait, and no resource granted twice.
use os_exploring.Common.{
  ℕ, ◌<◌, ◌≡◌, ◌≢◌, ap, inl, inr, true, false, Option, some, List, [], ◌∷◌, arith, Bool-cases,
  if◌then◌else◌, NotIn, IsDistinct,
}
use os_exploring.Deadlock.ResourceOrdering.{
  ResourceOrderingSystem, is_valid_resource_request, request_resource,
}

-- A chain of processes: each holds the resource that the one before waits for, and its own request is
-- one that the check lets through.
pub data Chain (ros : ResourceOrderingSystem) (held : ℕ) : ℕ → Type 0 where
  waits : (req : ℕ) → is_valid_resource_request ros (some held) req ≡ true → Chain ros held req
  and_then :
      {curr : ℕ}
      → Chain ros held curr
      → (req : ℕ) → is_valid_resource_request ros (some curr) req ≡ true
      → Chain ros held req

Chain-priority :
    {ros : ResourceOrderingSystem} {held req : ℕ}
    → Chain ros held req
    → (ros.resources held).priority < (ros.resources req).priority
unfolding is_valid_resource_request
Chain-priority (waits req e) = ground (arith, e)
Chain-priority (and_then p req e) = ground (arith, e, Chain-priority p)

-- If all requests pass the check, no chain of processes that wait for one another closes.
pub is_valid_resource_request-acyclic :
    (ros : ResourceOrderingSystem) (held : ℕ) → ¬ Chain ros held held
is_valid_resource_request-acyclic ros held p = absurd (omega (arith, Chain-priority p))

-- The requests of any processes one after the other, and the resources granted, in that order.
abbrev pub granted_by : ResourceOrderingSystem → List (Option ℕ × ℕ) → List ℕ
granted_by ros [] = []
granted_by ros ((curr, req) ∷ rest) =
    let (ok, now) = request_resource ros curr req in
    let later = granted_by now rest in if ok then req ∷ later else later

request_resource-unavailable :
    (ros : ResourceOrderingSystem) (curr : Option ℕ) (req k : ℕ)
    → (ros.resources k).available ≡ false
    → ((request_resource ros curr req).1.resources k).available ≡ false
unfolding request_resource
request_resource-unavailable ros curr req k gone =
    elim (Bool-cases (is_valid_resource_request ros curr req)) [
      | inr bad ↦ rw bad gone
      | inl good ↦ elim (Bool-cases (ros.resources req).available) [
        | inr taken ↦ rw (good, taken) gone
        | inl free ↦ rw (good, free) (ground (arith, gone))
      ]
    ]

request_resource_granted :
    (ros : ResourceOrderingSystem) (curr : Option ℕ) (req : ℕ)
    → (request_resource ros curr req).0 ≡ true
    → ((ros.resources req).available ≡ true)
      × (((request_resource ros curr req).1.resources req).available ≡ false)
unfolding request_resource
request_resource_granted ros curr req ok =
    elim (Bool-cases (is_valid_resource_request ros curr req)) [
      | inr bad ↦ absurd (cc (rw (bad, request_resource) at ok))
      | inl good ↦ elim (Bool-cases (ros.resources req).available) [
        | inr taken ↦ absurd (cc (rw (good, taken, request_resource) at ok))
        | inl free ↦ (free, rw (good, free) (ground (arith, free)))
      ]
    ]

granted_by-NotIn :
    (ros : ResourceOrderingSystem) (k : ℕ) (requests : List (Option ℕ × ℕ))
    → (ros.resources k).available ≡ false
    → NotIn k (granted_by ros requests)
granted_by-NotIn ros k [] gone = tt
granted_by-NotIn ros k ((curr, req) ∷ rest) gone =
    let later =
      granted_by-NotIn (request_resource ros curr req).1 k rest
        (request_resource-unavailable ros curr req k gone) in
    elim (Bool-cases (request_resource ros curr req).0) [
      | inr no_ ↦ rw no_ later
      | inl yes_ ↦
          let (free, _) = request_resource_granted ros curr req yes_ in
          let other : k ≢ req =
            λ e. absurd (cc (gone, free, ap (λ j. (ros.resources j).available) e)) in
          rw yes_ (other, later)
    ]

-- Whatever processes request, and in whatever order, no resource is granted twice.
pub request_resource_once :
    (ros : ResourceOrderingSystem) (requests : List (Option ℕ × ℕ))
    → IsDistinct (granted_by ros requests)
request_resource_once ros [] = tt
request_resource_once ros ((curr, req) ∷ rest) =
    let now = (request_resource ros curr req).1 in
    let later = request_resource_once now rest in
    elim (Bool-cases (request_resource ros curr req).0) [
      | inr no_ ↦ rw no_ later
      | inl yes_ ↦
          let (_, gone) = request_resource_granted ros curr req yes_ in
          rw yes_ (granted_by-NotIn now req rest gone, later)
    ]
