-- ===== src/Memory/Markers.antt =====
-- memory.go: AddMarker, RecordMarkerState, DeleteMarker. The maps share the record by its address.
use ocap2_extension.Prelude.{
  ℕ, String, [], ◌∷◌, ◌++◌, ◌+◌, ◌%◌, suc, Option, none, some, nat_eq, string_eq,
}
use ocap2_extension.Prelude.Map.{lookup, insert, adjust}
use ocap2_extension.Core.{Frame, Marker, MarkerState, DeleteMarker}
use ocap2_extension.Memory.State.{MarkerRecord, MarkerStore, Backend}

-- `uint` is 64 bits wide.
abbrev pub uint_mod : ℕ
uint_mod = 18_446_744_073_709_551_616

-- `markerCopy`, with the id that the backend assigns
abbrev pub new_marker : Marker → ℕ → MarkerRecord
new_marker m id = record { marker = record m { id = id }; states = [] }

unfoldable pub insert_marker : Marker → MarkerStore → ℕ × MarkerStore
insert_marker m s =
    let id = (s.next_marker_id + 1) % uint_mod in
    let address = s.next_address in
    (
      id,
      record {
        markers = insert m.marker_name address s.markers;
        markers_by_id = insert id address s.markers_by_id;
        marker_heap = insert address (new_marker m id) s.marker_heap;
        next_address = suc address;
        next_marker_id = id;
      },
    )

-- A write through a pointer that a map may hold.
write_record : (MarkerRecord → MarkerRecord) → Option ℕ → MarkerStore → MarkerStore
write_record f none s = s
write_record f (some address) s = record s { marker_heap = adjust f address s.marker_heap }

abbrev pub push_marker_state : MarkerState → MarkerRecord → MarkerRecord
push_marker_state st r = record r { states = r.states ++ st ∷ [] }

abbrev pub end_marker : Frame → MarkerRecord → MarkerRecord
end_marker frame r = let m = r.marker in record r { marker = record m { end_frame = frame } }

unfoldable pub push_state : MarkerState → MarkerStore → MarkerStore
unfolding write_record
push_state st s = write_record (push_marker_state st) (lookup st.marker_id s.markers_by_id) s

unfoldable pub end_named : DeleteMarker → MarkerStore → MarkerStore
unfolding write_record
end_named dm s = write_record (end_marker dm.end_frame) (lookup dm.name s.markers) s

unfoldable pub add_marker : Marker → Backend → ℕ × Backend
add_marker m b =
    let (id, store) = insert_marker m b.marker_store in (id, record b { marker_store = store })

unfoldable pub record_marker_state : MarkerState → Backend → Backend
record_marker_state st b = record b { marker_store = push_state st b.marker_store }

unfoldable pub delete_marker : DeleteMarker → Backend → Backend
delete_marker dm b = record b { marker_store = end_named dm b.marker_store }

-- The record that a marker's name leads to, as the export reads it.
unfoldable pub named : String → MarkerStore → Option MarkerRecord
named name s = elim (lookup name s.markers) [
  | none ↦ none
  | some address ↦ lookup address s.marker_heap
]
