-- ===== src/Can/Tests.antt =====
-- The CAN transport on concrete identifiers, messages and frames.
use pyxcp.Prelude.{
  if◌then◌else◌, leb, ltb, ◌^◌, ◌%◌, ◌≡◌, refl, true, false, [], ◌∷◌, none, some, All, arith,
}
use pyxcp.Can.Identifier.{
  Identifier, is_extended_identifier, strip_identifier, checked, new_identifier, make_identifier,
  max_11_bit_identifier,
}
use pyxcp.Can.Identifier.Ranges.{Made, make_identifier-Made, new_identifier-total}
use pyxcp.Can.Filter.{
  Message, new_software_filter, set_filters, matches, any_matches, accept_by, accept,
  create_filter_from_id, can_filters,
}
use pyxcp.Can.Filter.Listed.{Fits, listed, accept-listed}
use pyxcp.Can.Padding.{bisect_left, actual_length, fill, pad_frame, set_dlc}
use pyxcp.Can.Padding.Agreement.{PadResult, pad_frame-set_dlc}

abbrev slave : Identifier
slave = record { raw_id = 0x80000123; id = 0x123; is_extended = true }

abbrev daq : Identifier
daq = record { raw_id = 0x7F0; id = 0x7F0; is_extended = false }

abbrev daq_message : Message
daq_message = record { arbitration_id = 0x7F0; is_extended_id = false }

can : Unit {0}
unfolding is_extended_identifier strip_identifier checked new_identifier make_identifier
    new_software_filter set_filters matches any_matches accept_by accept create_filter_from_id
    can_filters bisect_left actual_length fill pad_frame
can = tt

new_identifier-slave : new_identifier 0x80000123 ≡ some slave
unfolding can
new_identifier-slave = refl

-- 12 bits need an extended identifier.
new_identifier-none : new_identifier 0x800 ≡ none
unfolding can
new_identifier-none = refl

accept-daq :
    accept (set_filters (can_filters slave (daq ∷ [])) new_software_filter) daq_message ≡ true
unfolding can
accept-daq = refl

accept-other :
    accept
      (set_filters (can_filters slave (daq ∷ [])) new_software_filter)
      (record { arbitration_id = 0x123; is_extended_id = false })
    ≡ false
unfolding can
accept-other = refl

pad_frame-fd :
    pad_frame (1 ∷ 2 ∷ 3 ∷ 4 ∷ 5 ∷ 6 ∷ 7 ∷ 8 ∷ 9 ∷ []) false 0
    ≡ some (1 ∷ 2 ∷ 3 ∷ 4 ∷ 5 ∷ 6 ∷ 7 ∷ 8 ∷ 9 ∷ 0 ∷ 0 ∷ 0 ∷ [])
unfolding can
pad_frame-fd = refl

make_identifier-Made_example : Made (make_identifier 0x123 true) 0x123 true
make_identifier-Made_example = make_identifier-Made 0x123 true (omega arith)

new_identifier-total_example : new_identifier 0x20000800 ≡ (
    if leb (2 ^ 31) 0x20000800
    then some (record { raw_id = 0x20000800; id = 0x20000800 % 2 ^ 29; is_extended = true })
    else if ltb max_11_bit_identifier (0x20000800 % 2 ^ 29)
    then none
    else some (record { raw_id = 0x20000800; id = 0x20000800 % 2 ^ 29; is_extended = false }))
new_identifier-total_example = new_identifier-total 0x20000800 (omega arith)

identifiers-Fits : All Fits (slave ∷ daq ∷ [])
identifiers-Fits = (omega arith, (omega arith, tt))

accept-listed_example :
    accept (set_filters (can_filters slave (daq ∷ [])) new_software_filter) daq_message
    ≡ listed (slave ∷ daq ∷ []) daq_message
accept-listed_example = accept-listed slave (daq ∷ []) daq_message identifiers-Fits (omega arith)

pad_frame-set_dlc_example :
    PadResult (1 ∷ 2 ∷ 3 ∷ []) true (pad_frame (1 ∷ 2 ∷ 3 ∷ []) true 0)
    × (set_dlc 3 ≡ actual_length 3 false)
pad_frame-set_dlc_example = pad_frame-set_dlc (1 ∷ 2 ∷ 3 ∷ []) true 0
