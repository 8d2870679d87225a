-- ===== src/Gtfs/Consistent.antt =====
-- The tables of one message agree with each other: the numbers, the ranges that find a field by its
-- number, and the order that finds it by its name.
use telemetrix_db.Base.{
  ℕ, zero, suc, ◌-◌, Bool, true, false, ◌&&◌, ◌||◌, Option, none, some, List, [], ◌∷◌, ◌++◌, map,
  length, get_elem?, ◌≡◌, refl, ltb, ◌==◌, ◌>>=◌,
}
use telemetrix_db.Text.{bytes}
use telemetrix_db.Gtfs.{
  MessageType, EnumType, MessageDescriptor, EnumDescriptor, FieldDescriptor, EnumValue,
  EnumValueIndex, IntRange,
}
use telemetrix_db.Gtfs.Descriptors.{message_descriptor, enum_descriptor}

-- `n` numbers from `a` on.
abbrev count_from : ℕ → ℕ → List ℕ
count_from a zero = []
count_from a (suc n) = a ∷ count_from (suc a) n

-- The numbers that a table of ranges stands for: each range goes on as far as the index of the next
-- one, and the last entry only ends the one before.
abbrev pub numbers : List IntRange → List ℕ
numbers [] = []
numbers (r ∷ []) = []
numbers (r ∷ s ∷ rs) = count_from (r.start_value) (s.orig_index - r.orig_index) ++ numbers (s ∷ rs)

-- The order of strcmp.
abbrev before : List ℕ → List ℕ → Bool
before a [] = false
before [] (d ∷ b) = true
before (c ∷ a) (d ∷ b) = ltb c d || ((c == d) && before a b)

abbrev ascending : List (List ℕ) → Bool
ascending [] = true
ascending (a ∷ []) = true
ascending (a ∷ b ∷ rest) = before a b && ascending (b ∷ rest)

-- The names at the given indices; an index out of bounds has none.
abbrev names_at : List FieldDescriptor → List ℕ → Option (List (List ℕ))
names_at fs [] = some []
names_at fs (i ∷ is) = do f ← get_elem? fs i; rest ← names_at fs is; some (bytes f.name ∷ rest)

abbrev in_order : Option (List (List ℕ)) → Bool
in_order none = false
in_order (some ns) = ascending ns

-- The ranges cover the numbers of the fields in their order, and the counts are right.
pub NumbersFit : MessageDescriptor → Type 0
NumbersFit d =
    (numbers (d.field_ranges) ≡ map (λ (f : FieldDescriptor). f.id) d.fields)
    × (length (d.fields) ≡ d.n_fields)
    × (length (d.field_ranges) ≡ suc (d.n_field_ranges))

-- The indices are in bounds, as many as there are fields, and list the names in ascending order.
pub NamesFit : MessageDescriptor → Type 0
NamesFit d =
    (in_order (names_at (d.fields) (d.fields_sorted_by_name)) ≡ true)
    × (length (d.fields_sorted_by_name) ≡ d.n_fields)

-- Of every message of the feed, the ranges of its table cover exactly the numbers of its fields, in
-- their order, and the counts of fields and of ranges are the tables' lengths.
message_descriptor-NumbersFit : (m : MessageType) → NumbersFit (message_descriptor m)
unfolding NumbersFit
message_descriptor-NumbersFit MessageType.feed_message = (refl, refl, refl)
message_descriptor-NumbersFit MessageType.feed_header = (refl, refl, refl)
message_descriptor-NumbersFit MessageType.feed_entity = (refl, refl, refl)
message_descriptor-NumbersFit MessageType.trip_update_stop_time_event = (refl, refl, refl)
message_descriptor-NumbersFit MessageType.trip_update_stop_time_update_stop_time_properties =
    (refl, refl, refl)
message_descriptor-NumbersFit MessageType.trip_update_stop_time_update = (refl, refl, refl)
message_descriptor-NumbersFit MessageType.trip_update_trip_properties = (refl, refl, refl)
message_descriptor-NumbersFit MessageType.trip_update = (refl, refl, refl)
message_descriptor-NumbersFit MessageType.vehicle_position_carriage_details = (refl, refl, refl)
message_descriptor-NumbersFit MessageType.vehicle_position = (refl, refl, refl)
message_descriptor-NumbersFit MessageType.alert = (refl, refl, refl)
message_descriptor-NumbersFit MessageType.time_range = (refl, refl, refl)
message_descriptor-NumbersFit MessageType.position = (refl, refl, refl)
message_descriptor-NumbersFit MessageType.trip_descriptor_modified_trip_selector =
    (refl, refl, refl)
message_descriptor-NumbersFit MessageType.trip_descriptor = (refl, refl, refl)
message_descriptor-NumbersFit MessageType.vehicle_descriptor = (refl, refl, refl)
message_descriptor-NumbersFit MessageType.entity_selector = (refl, refl, refl)
message_descriptor-NumbersFit MessageType.translated_string_translation = (refl, refl, refl)
message_descriptor-NumbersFit MessageType.translated_string = (refl, refl, refl)
message_descriptor-NumbersFit MessageType.translated_image_localized_image = (refl, refl, refl)
message_descriptor-NumbersFit MessageType.translated_image = (refl, refl, refl)
message_descriptor-NumbersFit MessageType.shape = (refl, refl, refl)
message_descriptor-NumbersFit MessageType.stop = (refl, refl, refl)
message_descriptor-NumbersFit MessageType.trip_modifications_modification = (refl, refl, refl)
message_descriptor-NumbersFit MessageType.trip_modifications_selected_trips = (refl, refl, refl)
message_descriptor-NumbersFit MessageType.trip_modifications = (refl, refl, refl)
message_descriptor-NumbersFit MessageType.stop_selector = (refl, refl, refl)
message_descriptor-NumbersFit MessageType.replacement_stop = (refl, refl, refl)

-- Of every message of the feed, the table that is searched by name holds as many indices as there
-- are fields, all in bounds, and the names at them ascend strictly in the order of strcmp.
message_descriptor-NamesFit : (m : MessageType) → NamesFit (message_descriptor m)
unfolding NamesFit
message_descriptor-NamesFit MessageType.feed_message = (refl, refl)
message_descriptor-NamesFit MessageType.feed_header = (refl, refl)
message_descriptor-NamesFit MessageType.feed_entity = (refl, refl)
message_descriptor-NamesFit MessageType.trip_update_stop_time_event = (refl, refl)
message_descriptor-NamesFit MessageType.trip_update_stop_time_update_stop_time_properties =
    (refl, refl)
message_descriptor-NamesFit MessageType.trip_update_stop_time_update = (refl, refl)
message_descriptor-NamesFit MessageType.trip_update_trip_properties = (refl, refl)
message_descriptor-NamesFit MessageType.trip_update = (refl, refl)
message_descriptor-NamesFit MessageType.vehicle_position_carriage_details = (refl, refl)
message_descriptor-NamesFit MessageType.vehicle_position = (refl, refl)
message_descriptor-NamesFit MessageType.alert = (refl, refl)
message_descriptor-NamesFit MessageType.time_range = (refl, refl)
message_descriptor-NamesFit MessageType.position = (refl, refl)
message_descriptor-NamesFit MessageType.trip_descriptor_modified_trip_selector = (refl, refl)
message_descriptor-NamesFit MessageType.trip_descriptor = (refl, refl)
message_descriptor-NamesFit MessageType.vehicle_descriptor = (refl, refl)
message_descriptor-NamesFit MessageType.entity_selector = (refl, refl)
message_descriptor-NamesFit MessageType.translated_string_translation = (refl, refl)
message_descriptor-NamesFit MessageType.translated_string = (refl, refl)
message_descriptor-NamesFit MessageType.translated_image_localized_image = (refl, refl)
message_descriptor-NamesFit MessageType.translated_image = (refl, refl)
message_descriptor-NamesFit MessageType.shape = (refl, refl)
message_descriptor-NamesFit MessageType.stop = (refl, refl)
message_descriptor-NamesFit MessageType.trip_modifications_modification = (refl, refl)
message_descriptor-NamesFit MessageType.trip_modifications_selected_trips = (refl, refl)
message_descriptor-NamesFit MessageType.trip_modifications = (refl, refl)
message_descriptor-NamesFit MessageType.stop_selector = (refl, refl)
message_descriptor-NamesFit MessageType.replacement_stop = (refl, refl)

-- Of every message of the feed, the tables agree: the ranges cover exactly the numbers of the fields,
-- in their order; the table that is searched by name holds as many indices as there are fields, all in
-- bounds, and the names at them ascend strictly in the order of strcmp; the counts are the lengths.
pub message_descriptor-Fits :
    (m : MessageType) → NumbersFit (message_descriptor m) × NamesFit (message_descriptor m)
message_descriptor-Fits m = (message_descriptor-NumbersFit m, message_descriptor-NamesFit m)

-- Each entry of the table by name is at the index of a value of this name.
abbrev same : List ℕ → List ℕ → Bool
same [] [] = true
same (c ∷ a) (d ∷ b) = (c == d) && same a b
same a b = false

abbrev same_name : Option EnumValue → List ℕ → Bool
same_name none a = false
same_name (some v) a = same (bytes v.name) a

abbrev value_names : List EnumValue → List EnumValueIndex → Bool
value_names vs [] = true
value_names vs (x ∷ xs) = same_name (get_elem? vs (x.index)) (bytes x.name) && value_names vs xs

pub ValuesFit : EnumDescriptor → Type 0
ValuesFit d =
    (numbers (d.value_ranges) ≡ map (λ (v : EnumValue). v.value) d.values)
    × (length (d.values) ≡ d.n_values)
    × (length (d.value_ranges) ≡ suc (d.n_value_ranges))
    × (value_names (d.values) (d.values_by_name) ≡ true)
    × (ascending (map (λ (x : EnumValueIndex). bytes x.name) (d.values_by_name)) ≡ true)
    × (length (d.values_by_name) ≡ d.n_value_names)

-- Of every enum of the feed, the ranges cover exactly its values, in their order; each entry of
-- the table by name is at the index of the value of that name, and the names ascend strictly in
-- the order of strcmp; the counts are the tables' lengths.
pub enum_descriptor-ValuesFit : (e : EnumType) → ValuesFit (enum_descriptor e)
unfolding ValuesFit
enum_descriptor-ValuesFit EnumType.feed_header_incrementality = (refl, refl, refl, refl, refl, refl)
enum_descriptor-ValuesFit
      EnumType.trip_update_stop_time_update_stop_time_properties_drop_off_pickup_type =
    (refl, refl, refl, refl, refl, refl)
enum_descriptor-ValuesFit EnumType.trip_update_stop_time_update_schedule_relationship =
    (refl, refl, refl, refl, refl, refl)
enum_descriptor-ValuesFit EnumType.vehicle_position_vehicle_stop_status =
    (refl, refl, refl, refl, refl, refl)
enum_descriptor-ValuesFit EnumType.vehicle_position_congestion_level =
    (refl, refl, refl, refl, refl, refl)
enum_descriptor-ValuesFit EnumType.vehicle_position_occupancy_status =
    (refl, refl, refl, refl, refl, refl)
enum_descriptor-ValuesFit EnumType.alert_cause = (refl, refl, refl, refl, refl, refl)
enum_descriptor-ValuesFit EnumType.alert_effect = (refl, refl, refl, refl, refl, refl)
enum_descriptor-ValuesFit EnumType.alert_severity_level = (refl, refl, refl, refl, refl, refl)
enum_descriptor-ValuesFit EnumType.trip_descriptor_schedule_relationship =
    (refl, refl, refl, refl, refl, refl)
enum_descriptor-ValuesFit EnumType.vehicle_descriptor_wheelchair_accessible =
    (refl, refl, refl, refl, refl, refl)
enum_descriptor-ValuesFit EnumType.stop_wheelchair_boarding = (refl, refl, refl, refl, refl, refl)
