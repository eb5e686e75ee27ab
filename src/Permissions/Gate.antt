-- ===== src/Permissions/Gate.antt =====
-- What `authorize` lets through, whatever the policy and the answers.
use gocode.Base.{◌≡◌, ◌≢◌, ◌⊎◌, inl, inr, Option, none, some, ok, arith, refl}
use gocode.Permissions.{
  PermissionAction, PermissionDecision, PermissionRequest, PermissionResponse, allow, ask, resolved,
  authorize,
}

-- The policy allowed the action, or the user was asked for it and did not deny.
abbrev IsGranted :
    PermissionDecision
    → (PermissionRequest → PermissionResponse)
    → Option PermissionRequest
    → Type 0
IsGranted d resolver r =
    ((d ≡ allow) × (r ≡ none))
    ⊎ ((request : PermissionRequest) × (d ≡ ask request)
        × (r ≡ some request)
        × (resolver request ≢ PermissionResponse.deny))

module _ (resolver : PermissionRequest → PermissionResponse) where
  resolved-IsGranted :
      (d : PermissionDecision) (r : Option PermissionRequest)
      → resolved resolver d ≡ ok r
      → IsGranted d resolver r
  resolved-IsGranted allow r h = inl (refl, cc)
  resolved-IsGranted (PermissionDecision.deny reason) r h = cc
  resolved-IsGranted (ask request) r h = inr (request, refl, ground arith, λ e. ground arith)

-- If `authorize` lets an action through, the policy allowed it and nobody was asked, or the policy
-- asked for it and the answer to that very request was not a denial.
pub authorize_sound :
    (policy : PermissionAction → PermissionDecision)
    (resolver : PermissionRequest → PermissionResponse) (action : PermissionAction)
    (r : Option PermissionRequest)
    → authorize policy resolver action ≡ ok r
    → IsGranted (policy action) resolver r
unfolding authorize
authorize_sound policy resolver action r h = resolved-IsGranted resolver (policy action) r h
