-- ===== src/Admin/Navigation.antt =====
-- core/services/navigation-state.service.ts. `HierarchyNode` is the place in the chain that the admin
-- looks at; the identifier of the EU root comes from the configuration service.
use did_wallet_thesis.Common.{◌≡◌, refl, String, Option, none, some, List, [], ◌∷◌, ◌++◌, map}

pub record HierarchyNode : Type 0 where
  pub did : String
  pub label : String
  pub accreditation_id : String

abbrev pub eu_root_label : String
eu_root_label = "EU Root Authority"

pub record Navigation : Type 0 where
  pub member_state : Option HierarchyNode
  pub ministry : Option HierarchyNode

pub record Crumb : Type 0 where
  pub label : String
  pub route : String

abbrev crumb_of : Option HierarchyNode → String → List Crumb
crumb_of none route = []
crumb_of (some node) route = record { label = node.label; route = route } ∷ []

unfoldable pub breadcrumbs : Navigation → List Crumb
breadcrumbs nav =
    record { label = eu_root_label; route = "/member-states" }
    ∷ (crumb_of nav.member_state "/government" ++ crumb_of nav.ministry "/universities")

unfoldable pub select_member_state : HierarchyNode → Navigation → Navigation
select_member_state node nav = record { member_state = some node; ministry = none }

unfoldable pub select_ministry : HierarchyNode → Navigation → Navigation
select_ministry node nav = record nav { ministry = some node }

unfoldable pub reset_to_root : Navigation → Navigation
reset_to_root nav = record { member_state = none; ministry = none }

abbrev pub routes_of : Navigation → List String
routes_of nav = map (λ c. c.route) (breadcrumbs nav)

-- Whatever was selected before, selecting a member state and then a ministry shows the whole chain
-- from the root to the ministry, selecting a member state alone drops the ministry, and a reset
-- leaves the root alone.
pub breadcrumbs_path :
    (m n : HierarchyNode) (nav : Navigation)
    → (routes_of (select_ministry n (select_member_state m nav))
        ≡ "/member-states" ∷ "/government" ∷ "/universities" ∷ [])
      × (routes_of (select_member_state m (select_ministry n nav))
          ≡ "/member-states" ∷ "/government" ∷ [])
      × (routes_of (reset_to_root nav) ≡ "/member-states" ∷ [])
unfolding breadcrumbs select_member_state select_ministry reset_to_root
breadcrumbs_path m n nav = (refl, refl, refl)
