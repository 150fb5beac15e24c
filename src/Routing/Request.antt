-- ===== src/Routing/Request.antt =====
-- crates/pathhydra-routing/src/request.rs and error.rs: requests, results and errors. A distance is
-- the bit pattern of a binary64. Constructors and accessors of one field are the records' own.
use path_hydra.Common.{ℕ, Bool, true, Option, List, ltb}
use path_hydra.Core.{NodeId, EdgeId, RelationId}
use path_hydra.Core.Weight.{BaseWeight}
use path_hydra.Routing.Profile.{RelationMultiplier, RelationProfile, ProfileError}

pub data SearchBudget : Type 0 where
  unlimited : SearchBudget
  examined_edges : ℕ → SearchBudget

unfoldable pub permits : SearchBudget → ℕ → Bool
permits unlimited examined = true
permits (examined_edges maximum) examined = ltb examined maximum

pub data TiePolicy : Type 0 where
  stable_predecessor : TiePolicy

pub data NumericPolicy : Type 0 where
  binary32_operands_separate_binary64 : NumericPolicy

pub record RoutingRequest : Type 0 where
  pub origin : NodeId
  pub destinations : List NodeId
  pub profile : RelationProfile
  pub return_paths : Bool
  pub budget : SearchBudget
  pub tie_policy : TiePolicy

pub data CompletionReason : Type 0 where
  all_destinations_finalized frontier_exhausted budget_exhausted cancelled : CompletionReason

pub record PathStep : Type 0 where
  pub edge_id : EdgeId
  pub source : NodeId
  pub destination : NodeId
  pub relation_id : RelationId
  pub base_weight : BaseWeight
  pub multiplier : RelationMultiplier
  pub effective_weight : ℕ

pub record RoutePath : Type 0 where
  pub origin : NodeId
  pub destination : NodeId
  pub logical_distance : ℕ
  pub steps : List PathStep

pub record ExactRoute : Type 0 where
  pub logical_distance : ℕ
  pub path : Option RoutePath

pub data DestinationState : Type 0 where
  exact : ExactRoute → DestinationState
  unreachable missing_node incomplete : DestinationState

pub record DestinationResult : Type 0 where
  pub destination : NodeId
  pub state : DestinationState

pub record RoutingResponse : Type 0 where
  pub origin : NodeId
  pub results : List DestinationResult
  pub profile : RelationProfile
  pub numeric_policy : NumericPolicy
  pub tie_policy : TiePolicy
  pub paths_requested : Bool
  pub examined_edges : ℕ
  pub finalized_nodes : ℕ
  pub completion_reason : CompletionReason

pub data ArithmeticOperation : Type 0 where
  effective_weight path_addition : ArithmeticOperation

-- The `reason` texts of `RoutingError::InternalInvariant`, one constructor each.
pub data Invariant : Type 0 where
  node_without_range finalized_counter_overflow examined_counter_overflow : Invariant
  edge_relation_not_packed finalized_without_distance predecessor_cycle : Invariant
  missing_predecessor predecessor_outside_range predecessor_disagrees : Invariant
  path_relation_not_packed path_relation_disabled path_source_unknown : Invariant
  path_destination_unknown path_distance_disagrees : Invariant

-- `index_out_of_bounds` is the panic of a slice index; `out_of_fuel` is no behaviour of the code.
pub data RoutingError : Type 0 where
  missing_origin : NodeId → RoutingError
  invalid_profile : ProfileError → RoutingError
  arithmetic : ArithmeticOperation → RoutingError
  internal_invariant : Invariant → RoutingError
  resource_estimate_overflow : RoutingError
  image_access : RoutingError
  index_out_of_bounds out_of_fuel : RoutingError
