-- ===== src/Gtfs/Schema/Service.antt =====
-- The messages of proto/gtfs-realtime.proto for alerts, shapes, stops and trip modifications.
use telemetrix_db.Base.{none, some, ℤ, List, [], ◌∷◌}
use telemetrix_db.Gtfs.{
  alert_cause, alert_effect, alert_severity_level, entity_selector, enum, float, int32, message,
  no_target, optional, repeated, replacement_stop, required, stop_selector,
  stop_wheelchair_boarding, string, time_range, to_enum, to_message, translated_image,
  translated_image_localized_image, translated_string, translated_string_translation,
  trip_descriptor, trip_modifications_modification, trip_modifications_selected_trips, uint32,
  uint64,
}
use telemetrix_db.Gtfs.Declaration.{Declaration, declared}

-- `message Alert`
abbrev pub alert_schema : List Declaration
alert_schema =
    declared "active_period" 1 repeated message (to_message time_range) none
    ∷ declared "informed_entity" 5 repeated message (to_message entity_selector) none
    ∷ declared "cause" 6 optional enum (to_enum alert_cause) (some (ℤ.pos 1))
    ∷ declared "effect" 7 optional enum (to_enum alert_effect) (some (ℤ.pos 8))
    ∷ declared "url" 8 optional message (to_message translated_string) none
    ∷ declared "header_text" 10 optional message (to_message translated_string) none
    ∷ declared "description_text" 11 optional message (to_message translated_string) none
    ∷ declared "tts_header_text" 12 optional message (to_message translated_string) none
    ∷ declared "tts_description_text" 13 optional message (to_message translated_string) none
    ∷ declared "severity_level" 14 optional enum (to_enum alert_severity_level) (some (ℤ.pos 1))
    ∷ declared "image" 15 optional message (to_message translated_image) none
    ∷ declared "image_alternative_text" 16 optional message (to_message translated_string) none
    ∷ declared "cause_detail" 17 optional message (to_message translated_string) none
    ∷ declared "effect_detail" 18 optional message (to_message translated_string) none
    ∷ []

-- `message TimeRange`
abbrev pub time_range_schema : List Declaration
time_range_schema =
    declared "start" 1 optional uint64 no_target none
    ∷ declared "end" 2 optional uint64 no_target none
    ∷ []

-- `message EntitySelector`
abbrev pub entity_selector_schema : List Declaration
entity_selector_schema =
    declared "agency_id" 1 optional string no_target none
    ∷ declared "route_id" 2 optional string no_target none
    ∷ declared "route_type" 3 optional int32 no_target none
    ∷ declared "trip" 4 optional message (to_message trip_descriptor) none
    ∷ declared "stop_id" 5 optional string no_target none
    ∷ declared "direction_id" 6 optional uint32 no_target none
    ∷ []

-- `message TranslatedString`
abbrev pub translated_string_schema : List Declaration
translated_string_schema =
    declared "translation" 1 repeated message (to_message translated_string_translation) none ∷ []

-- `message TranslatedString.Translation`
abbrev pub translated_string_translation_schema : List Declaration
translated_string_translation_schema =
    declared "text" 1 required string no_target none
    ∷ declared "language" 2 optional string no_target none
    ∷ []

-- `message TranslatedImage`
abbrev pub translated_image_schema : List Declaration
translated_image_schema =
    declared "localized_image" 1 repeated message (to_message translated_image_localized_image) none
    ∷ []

-- `message TranslatedImage.LocalizedImage`
abbrev pub translated_image_localized_image_schema : List Declaration
translated_image_localized_image_schema =
    declared "url" 1 required string no_target none
    ∷ declared "media_type" 2 required string no_target none
    ∷ declared "language" 3 optional string no_target none
    ∷ []

-- `message Shape`
abbrev pub shape_schema : List Declaration
shape_schema =
    declared "shape_id" 1 optional string no_target none
    ∷ declared "encoded_polyline" 2 optional string no_target none
    ∷ []

-- `message Stop`
abbrev pub stop_schema : List Declaration
stop_schema =
    declared "stop_id" 1 optional string no_target none
    ∷ declared "stop_code" 2 optional message (to_message translated_string) none
    ∷ declared "stop_name" 3 optional message (to_message translated_string) none
    ∷ declared "tts_stop_name" 4 optional message (to_message translated_string) none
    ∷ declared "stop_desc" 5 optional message (to_message translated_string) none
    ∷ declared "stop_lat" 6 optional float no_target none
    ∷ declared "stop_lon" 7 optional float no_target none
    ∷ declared "zone_id" 8 optional string no_target none
    ∷ declared "stop_url" 9 optional message (to_message translated_string) none
    ∷ declared "parent_station" 11 optional string no_target none
    ∷ declared "stop_timezone" 12 optional string no_target none
    ∷ declared "wheelchair_boarding" 13 optional enum (to_enum stop_wheelchair_boarding)
        (some (ℤ.pos 0))
    ∷ declared "level_id" 14 optional string no_target none
    ∷ declared "platform_code" 15 optional message (to_message translated_string) none
    ∷ []

-- `message TripModifications`
abbrev pub trip_modifications_schema : List Declaration
trip_modifications_schema =
    declared "selected_trips" 1 repeated message (to_message trip_modifications_selected_trips) none
    ∷ declared "start_times" 2 repeated string no_target none
    ∷ declared "service_dates" 3 repeated string no_target none
    ∷ declared "modifications" 4 repeated message (to_message trip_modifications_modification) none
    ∷ []

-- `message TripModifications.Modification`
abbrev pub trip_modifications_modification_schema : List Declaration
trip_modifications_modification_schema =
    declared "start_stop_selector" 1 optional message (to_message stop_selector) none
    ∷ declared "end_stop_selector" 2 optional message (to_message stop_selector) none
    ∷ declared "propagated_modification_delay" 3 optional int32 no_target (some (ℤ.pos 0))
    ∷ declared "replacement_stops" 4 repeated message (to_message replacement_stop) none
    ∷ declared "service_alert_id" 5 optional string no_target none
    ∷ declared "last_modified_time" 6 optional uint64 no_target none
    ∷ []

-- `message TripModifications.SelectedTrips`
abbrev pub trip_modifications_selected_trips_schema : List Declaration
trip_modifications_selected_trips_schema =
    declared "trip_ids" 1 repeated string no_target none
    ∷ declared "shape_id" 2 optional string no_target none
    ∷ []

-- `message StopSelector`
abbrev pub stop_selector_schema : List Declaration
stop_selector_schema =
    declared "stop_sequence" 1 optional uint32 no_target none
    ∷ declared "stop_id" 2 optional string no_target none
    ∷ []

-- `message ReplacementStop`
abbrev pub replacement_stop_schema : List Declaration
replacement_stop_schema =
    declared "travel_time_to_stop" 1 optional int32 no_target none
    ∷ declared "stop_id" 2 optional string no_target none
    ∷ []
