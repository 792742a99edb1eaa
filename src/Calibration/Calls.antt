-- ===== src/Calibration/Calls.antt =====
-- Calls on a calibration object, one after another (pyxcp/master/calibration.py: Calibration).
use pyxcp.Prelude.{ℕ, Bool, List, [], ◌∷◌}
use pyxcp.Calibration.Layout.{Calibration, Commands}
use pyxcp.Calibration.Discovery.{Performed, returned, raised, refresh}
use pyxcp.Calibration.Operations.{
  set_page, set_ecu_page, set_xcp_page, set_all_pages, get_page, get_current_config, copy_page,
  copy_segment, set_freeze_mode, is_frozen, save_all, page_properties,
}

-- The operations with their arguments.
pub data Operation : Type 0 where
  call_refresh : Operation
  call_set_page : ℕ → ℕ → ℕ → Operation
  call_set_ecu_page : ℕ → ℕ → Operation
  call_set_xcp_page : ℕ → ℕ → Operation
  call_set_all_pages : ℕ → ℕ → Operation
  call_get_page : ℕ → ℕ → Operation
  call_get_current_config : Operation
  call_copy_page : ℕ → ℕ → ℕ → ℕ → Operation
  call_copy_segment : ℕ → ℕ → Operation
  call_set_freeze_mode : ℕ → Bool → Operation
  call_is_frozen : ℕ → Operation
  call_save_all : Operation
  call_page_properties : ℕ → ℕ → Operation

module _ {S : Type 0} where
  abbrev pub state_after : {A : Type 0} → Performed S A → Calibration × S
  state_after (returned a c s) = (c, s)
  state_after (raised e c s) = (c, s)

  module _ (master : Commands S) where
    unfoldable pub perform : Operation → Calibration → S → Calibration × S
    perform call_refresh c s = state_after (refresh master c s)
    perform (call_set_page segment page mode) c s =
        state_after (set_page master segment page mode c s)
    perform (call_set_ecu_page segment page) c s =
        state_after (set_ecu_page master segment page c s)
    perform (call_set_xcp_page segment page) c s =
        state_after (set_xcp_page master segment page c s)
    perform (call_set_all_pages page mode) c s = state_after (set_all_pages master page mode c s)
    perform (call_get_page segment mode) c s = state_after (get_page master segment mode c s)
    perform call_get_current_config c s = state_after (get_current_config master c s)
    perform (call_copy_page i p j q) c s = state_after (copy_page master i p j q c s)
    perform (call_copy_segment i j) c s = state_after (copy_segment master i j c s)
    perform (call_set_freeze_mode segment enabled) c s =
        state_after (set_freeze_mode master segment enabled c s)
    perform (call_is_frozen segment) c s = state_after (is_frozen master segment c s)
    perform call_save_all c s = state_after (save_all master c s)
    perform (call_page_properties segment page) c s =
        state_after (page_properties master segment page c s)

    -- Calls one after another, whether they return or raise.
    unfoldable pub perform_all : List Operation → Calibration → S → Calibration × S
    unfolding perform
    perform_all [] c s = (c, s)
    perform_all (call ∷ calls) c s = let next = perform call c s in perform_all calls next.0 next.1
