-- ===== src/Core/Entities.antt =====
-- pkg/core/soldier.go, vehicle.go, marker.go, placed.go. An `id` of a unit is its ObjectID, a
-- uint16. A pointer field is an `Option`.
use ocap2_extension.Prelude.{ℕ, ℤ, String, Bool, List, Option}
use ocap2_extension.Core.Dynamic.{Any}
use ocap2_extension.Core.Types.{Frame, Timestamp, Position3D, Polyline, SoldierScores}

pub record Soldier : Type 0 where
  pub id : ℕ
  pub join_time : Timestamp
  pub join_frame : Frame
  pub ocap_type : String
  pub unit_name : String
  pub group_id : String
  pub side : String
  pub is_player : Bool
  pub role_description : String
  pub class_name : String
  pub display_name : String
  pub player_uid : String
  pub squad_params : List Any
  pub delete_frame : Frame

pub record SoldierState : Type 0 where
  pub soldier_id : ℕ
  pub time : Timestamp
  pub capture_frame : Frame
  pub position : Position3D
  pub bearing : ℕ
  pub lifestate : ℕ
  pub in_vehicle : Bool
  pub in_vehicle_object_id : Option ℕ
  pub vehicle_role : String
  pub unit_name : String
  pub is_player : Bool
  pub current_role : String
  pub has_stable_vitals : Bool
  pub is_dragged_carried : Bool
  pub stance : String
  pub group_id : String
  pub side : String
  pub scores : SoldierScores

pub record Vehicle : Type 0 where
  pub id : ℕ
  pub join_time : Timestamp
  pub join_frame : Frame
  pub ocap_type : String
  pub class_name : String
  pub display_name : String
  pub customization : String
  pub side : String
  pub delete_frame : Frame

pub record VehicleState : Type 0 where
  pub vehicle_id : ℕ
  pub time : Timestamp
  pub capture_frame : Frame
  pub position : Position3D
  pub bearing : ℕ
  pub is_alive : Bool
  pub crew : String
  pub fuel : ℕ
  pub damage : ℕ
  pub locked : Bool
  pub engine_on : Bool
  pub side : String
  pub vector_dir : String
  pub vector_up : String
  pub turret_azimuth : ℕ
  pub turret_elevation : ℕ

pub record Marker : Type 0 where
  pub id : ℕ
  pub time : Timestamp
  pub capture_frame : Frame
  pub end_frame : Frame
  pub marker_name : String
  pub direction : ℕ
  pub marker_type : String
  pub text : String
  pub owner_id : ℤ
  pub color : String
  pub size : String
  pub side : String
  pub position : Position3D
  pub polyline : Polyline
  pub shape : String
  pub alpha : ℕ
  pub brush : String
  pub is_deleted : Bool

pub record DeleteMarker : Type 0 where
  pub name : String
  pub end_frame : Frame

pub record MarkerState : Type 0 where
  pub id : ℕ
  pub marker_id : ℕ
  pub time : Timestamp
  pub capture_frame : Frame
  pub position : Position3D
  pub direction : ℕ
  pub alpha : ℕ
  pub text : String
  pub color : String
  pub size : String
  pub marker_type : String
  pub brush : String
  pub shape : String

pub record PlacedObject : Type 0 where
  pub id : ℕ
  pub join_time : Timestamp
  pub join_frame : Frame
  pub class_name : String
  pub display_name : String
  pub position : Position3D
  pub owner_id : ℕ
  pub side : String
  pub weapon : String
  pub magazine_icon : String

pub record PlacedObjectEvent : Type 0 where
  pub capture_frame : Frame
  pub placed_id : ℕ
  pub event_type : String
  pub position : Position3D
  pub hit_entity_id : Option ℕ
