-- ===== src/Synthetic/Paths.antt =====
-- synthetic.py: building and editing documents along a path.
pub mod Laws
pub mod Deletion
use constitutional_agent_tes.Base.{
  ℕ, zero, suc, Bool, true, false, Option, none, some, List, [], ◌∷◌, if◌then◌else◌, Text, txt,
  Result, ok, err, ◌>>=◌,
}
use constitutional_agent_tes.Json.{
  Value, null, bool, int, float, str, arr, obj, other, Fields, end, field, member, set_member,
  del_member,
}
use constitutional_agent_tes.Json.Path.{split_path}
use constitutional_agent_tes.Errors.{TestbenchError, synthetic_failed, incompatible_paths}

-- The nested view of the segments; a path has at least one.
unfoldable pub view_of : List Text → Value → Value
view_of [] v = v
view_of (s ∷ segments) v = obj (field s (view_of segments v) end)

-- synthetic.py: _candidate_view
unfoldable pub candidate_view : Text → Value → Value
unfolding view_of split_path
candidate_view path v = view_of (split_path path) v

-- The loop of _assign_path, on the members of `current`. A member that is missing or null becomes
-- an empty object; one that is no object is refused.
unfoldable pub assign_segments : Fields → List Text → Value → Result TestbenchError Fields
assign_segments fs [] v = ok fs
assign_segments fs (s ∷ []) v = ok (set_member s v fs)
assign_segments fs (s ∷ t ∷ rest) v = elim (member s fs) [
  | none ↦ assign_segments end (t ∷ rest) v >>= λ inner. ok (set_member s (obj inner) fs)
  | some null ↦ assign_segments end (t ∷ rest) v >>= λ inner. ok (set_member s (obj inner) fs)
  | some (obj old) ↦ assign_segments old (t ∷ rest) v >>= λ inner. ok (set_member s (obj inner) fs)
  | some _ ↦ err (synthetic_failed incompatible_paths)
]

-- synthetic.py: _assign_path
unfoldable pub assign_path : Fields → Text → Value → Result TestbenchError Fields
unfolding assign_segments set_member member split_path
assign_path document path v = assign_segments document (split_path path) v

abbrev pub replace_member : Text → Fields → Option Fields → Option Fields
replace_member s fs none = none
replace_member s fs (some inner) = some (set_member s (obj inner) fs)

-- The walk of _delete_path; `none` is `False`, with the document unchanged.
unfoldable pub delete_segments : Fields → List Text → Option Fields
delete_segments fs [] = none
delete_segments fs (s ∷ []) = elim (member s fs) [ none ↦ none | some v ↦ some (del_member s fs) ]
delete_segments fs (s ∷ t ∷ rest) = elim (member s fs) [
  | some (obj inner) ↦ replace_member s fs (delete_segments inner (t ∷ rest))
  | _ ↦ none
]

-- synthetic.py: _delete_path
unfoldable pub delete_path : Fields → Text → Option Fields
unfolding delete_segments del_member set_member member split_path
delete_path document path = delete_segments document (split_path path)
