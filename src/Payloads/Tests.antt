-- ===== src/Payloads/Tests.antt =====
-- A list that holds a dictionary and a number.
use messaging_system.Base.{◌≡◌, some}
use messaging_system.Payloads.{Json, Values, json_depth}
use messaging_system.Payloads.Depth.{nesting, json_depth-nesting}

abbrev nested : Json
nested = Json.list (
    Values.and_value (Json.dict (Values.and_value Json.atom Values.no_values))
      (Values.and_value Json.atom Values.no_values))

json_depth-nesting_example : json_depth nested ≡ some 3
unfolding nesting
json_depth-nesting_example = json_depth-nesting nested
