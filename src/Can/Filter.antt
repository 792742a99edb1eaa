-- ===== src/Can/Filter.antt =====
-- The software filter for received messages (pyxcp/transport/can.py: SoftwareFilter,
-- create_filter_from_id).
pub mod Listed
use pyxcp.Prelude.{
  ℕ, Bool, true, false, ◌&&◌, not, List, [], ◌∷◌, map, Option, none, some, bit_and, bit_xor, ◌==◌,
  if◌then◌else◌,
}
use pyxcp.Can.Identifier.{Identifier, max_11_bit_identifier, max_29_bit_identifier}

pub data FilterState : Type 0 where
  reject_all : FilterState
  accept_all : FilterState
  filtering : FilterState

-- A filter of python-can; the key "extended" is optional.
pub record CanFilter : Type 0 where
  pub can_id : ℕ
  pub can_mask : ℕ
  pub extended : Option Bool

-- What is read of a message.
pub record Message : Type 0 where
  pub arbitration_id : ℕ
  pub is_extended_id : Bool

pub record SoftwareFilter : Type 0 where
  pub filters : Option (List CanFilter)
  pub filter_state : FilterState

-- `SoftwareFilter()`
unfoldable pub new_software_filter : SoftwareFilter
new_software_filter = record { filters = none; filter_state = reject_all }

unfoldable pub set_filters : List CanFilter → SoftwareFilter → SoftwareFilter
set_filters filters f = record { filters = some filters; filter_state = filtering }

abbrev pub bool_eq : Bool → Bool → Bool
bool_eq true b = b
bool_eq false b = not b

abbrev pub same_kind : Option Bool → Bool → Bool
same_kind none extended = true
same_kind (some e) extended = bool_eq e extended

-- The body of the loop over the filters, where `continue` is false.
unfoldable pub matches : CanFilter → Message → Bool
matches f msg =
    if same_kind f.extended msg.is_extended_id
    then bit_and (bit_xor f.can_id msg.arbitration_id) f.can_mask == 0
    else false

unfoldable pub any_matches : List CanFilter → Message → Bool
any_matches [] msg = false
any_matches (f ∷ fs) msg = if matches f msg then true else any_matches fs msg

unfoldable pub accept_by : FilterState → Option (List CanFilter) → Message → Bool
accept_by reject_all filters msg = false
accept_by accept_all filters msg = true
accept_by filtering none msg = true
accept_by filtering (some filters) msg = any_matches filters msg

-- `SoftwareFilter.accept`
unfoldable pub accept : SoftwareFilter → Message → Bool
accept f msg = accept_by f.filter_state f.filters msg

-- `Identifier.create_filter_from_id`
unfoldable pub create_filter_from_id : Identifier → CanFilter
create_filter_from_id i = record {
  can_id = i.id;
  can_mask = if i.is_extended then max_29_bit_identifier else max_11_bit_identifier;
  extended = some i.is_extended;
}

-- The filters that `PythonCanWrapper.connect` builds for the slave and the DAQ identifiers.
unfoldable pub can_filters : Identifier → List Identifier → List CanFilter
can_filters can_id_slave daq_identifier =
    create_filter_from_id can_id_slave ∷ map create_filter_from_id daq_identifier
