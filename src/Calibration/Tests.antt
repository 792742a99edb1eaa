-- ===== src/Calibration/Tests.antt =====
-- Calls on a slave with two segments, of which one cannot be read.
use pyxcp.Prelude.{ℕ, ◌≡◌, refl, true, false, none, some, List, [], ◌∷◌, ◌==◌, if◌then◌else◌}
use pyxcp.Calibration.Layout.{
  PagePropertiesInfo, Page, Segment, Calibration, new_calibration, Answer, Commands, find_key,
  update_key,
}
use pyxcp.Calibration.Discovery.{
  permission_error, value_error, returned, raised, discover_pages, address_and_length,
  discover_segment, discover_segments, refresh,
}
use pyxcp.Calibration.Operations.{
  check_initialized, set_page, set_freeze_mode, get_current_config, query_segments,
}
use pyxcp.Calibration.Dictionary.{WellFormed}
use pyxcp.Calibration.Calls.{
  call_refresh, call_set_page, call_set_freeze_mode, perform, perform_all,
}
use pyxcp.Calibration.Kept.{perform_all-WellFormed}
use pyxcp.Calibration.Permission.{Decided, set_page-Decided}

-- The commands that change the slave: mode, segment and page.
abbrev Log : Type 0
Log = List (ℕ × ℕ × ℕ)

-- Both sides may read the page, and only the control unit has access to write.
abbrev flash : PagePropertiesInfo
flash = record {
  ecu_access_with_xcp = true;
  ecu_access_without_xcp = true;
  xcp_read_access_with_ecu = true;
  xcp_read_access_without_ecu = true;
  xcp_write_access_with_ecu = false;
  xcp_write_access_without_ecu = false;
}

abbrev only_first : {A : Type 0} → ℕ → A → Log → Answer Log A
only_first n a log = if n == 0 then (some a, log) else (none, log)

abbrev slave : Commands Log
slave = record {
  get_pag_processor_info =
      λ log. (some (record { max_segments = 2; freeze_supported = true }), log);
  get_segment_info = λ i log.
      only_first i
        (record {
          max_pages = 2;
          address_extension = 0;
          max_mapping = 0;
          compression_method = 0;
          encryption_method = 0;
        })
        log;
  get_basic_info = λ i info log. only_first info 0x1000 log;
  get_page_info = λ i p log. only_first p (record { properties = flash; init_segment = 0 }) log;
  get_segment_mode = λ i log. (none, log);
  set_segment_mode = λ mode i log. (some tt, (mode, i, 0) ∷ log);
  get_cal_page = λ mode i log. (some 0, log);
  set_cal_page = λ mode i p log. (some tt, (mode, i, p) ∷ log);
  copy_cal_page = λ i p j q log. (some tt, log);
  set_request = λ mode id log. (some tt, log);
}

abbrev flash_page : Page
flash_page = record {
  segment_number = 0;
  page_number = 0;
  properties = some flash;
  init_segment = 0;
}

abbrev first_segment : ℕ → Segment
first_segment mode = record {
  number = 0;
  max_pages = 2;
  address_extension = 0;
  max_mapping = 0;
  compression_method = 0;
  encryption_method = 0;
  pages = (0, flash_page) ∷ [];
  address = some 0x1000;
  length = none;
  mode = mode;
}

abbrev known : ℕ → Calibration
known mode = record {
  segments = (0, first_segment mode) ∷ [];
  max_segments = 2;
  freeze_supported = true;
  initialized = true;
}

-- Segment 1 and page 1 are skipped, and the length is not known.
refresh-slave : refresh slave new_calibration [] ≡ returned tt (known 0) []
unfolding refresh discover_segments discover_segment discover_pages address_and_length
refresh-slave = refl

set_page-ecu : set_page slave 0 0 0x01 (known 0) [] ≡ returned tt (known 0) ((1, 0, 0) ∷ [])
unfolding set_page check_initialized find_key
set_page-ecu = refl

set_page-both : set_page slave 0 0 0x03 (known 0) [] ≡ raised permission_error (known 0) []
unfolding set_page check_initialized find_key
set_page-both = refl

set_page-unknown : set_page slave 0 1 0x01 (known 0) [] ≡ raised value_error (known 0) []
unfolding set_page check_initialized find_key
set_page-unknown = refl

set_freeze_mode-known :
    set_freeze_mode slave 0 true (known 0) [] ≡ returned tt (known 1) ((1, 0, 0) ∷ [])
unfolding set_freeze_mode check_initialized update_key
set_freeze_mode-known = refl

get_current_config-known :
    get_current_config slave (known 0) [] ≡ returned ((0, (0, 0)) ∷ []) (known 0) []
unfolding get_current_config check_initialized query_segments
get_current_config-known = refl

perform_all-refresh : perform_all slave (call_refresh ∷ []) new_calibration [] ≡ (known 0, [])
unfolding perform_all perform refresh discover_segments discover_segment discover_pages
    address_and_length
perform_all-refresh = refl

perform_all-WellFormed_example :
    WellFormed
      (perform_all slave
        (call_refresh ∷ call_set_page 0 0 0x03 ∷ call_set_freeze_mode 0 true ∷ [])
        new_calibration
        []).0
perform_all-WellFormed_example =
    perform_all-WellFormed slave
      (call_refresh ∷ call_set_page 0 0 0x03 ∷ call_set_freeze_mode 0 true ∷ []) []

set_page-Decided_example :
    Decided slave 0 0 0x03 (known 0) [] (set_page slave 0 0 0x03 (known 0) [])
set_page-Decided_example =
    set_page-Decided slave (call_refresh ∷ []) [] 0 0 0x03 (known 0) [] perform_all-refresh refl
