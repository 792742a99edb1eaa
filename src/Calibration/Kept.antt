-- ===== src/Calibration/Kept.antt =====
-- The calls keep an object well-formed (pyxcp/master/calibration.py: Calibration).
use pyxcp.Prelude.{
  ℕ, Bool, true, false, inl, inr, Option, none, some, Option-cases, List, [], ◌∷◌, if◌then◌else◌,
}
use pyxcp.Calibration.Layout.{
  Dict, find_key, Page, Segment, Calibration, new_calibration, Answer, Commands,
}
use pyxcp.Calibration.Discovery.{
  runtime_error, permission_error, Performed, returned, raised, refresh,
}
use pyxcp.Calibration.Operations.{
  then_do, command, check_initialized, refused, set_page_in, set_page, set_ecu_page, set_xcp_page,
  set_all_pages, get_page, get_current_config, copy_page, copy_pages, copy_between, copy_segment,
  is_some, set_mode, store_mode, freeze_mode, query_segments, properties_in, set_freeze_mode,
  frozen_of, is_frozen, save_all, page_properties,
}
use pyxcp.Calibration.Dictionary.{SegmentRight, update_key-Ascending, WellFormed}
use pyxcp.Calibration.Discovered.{After, refresh-WellFormed}
use pyxcp.Calibration.Calls.{
  Operation, call_refresh, call_set_page, call_set_ecu_page, call_set_xcp_page, call_set_all_pages,
  call_get_page, call_get_current_config, call_copy_page, call_copy_segment, call_set_freeze_mode,
  call_is_frozen, call_save_all, call_page_properties, state_after, perform, perform_all,
}

module _ {S : Type 0} (master : Commands S) where
  then_do-After :
      {A B : Type 0} (next : A → Calibration → S → Performed S B) (o : Performed S A)
      → After WellFormed o
      → ((a : A) (c : Calibration) (s : S) → WellFormed c → After WellFormed (next a c s))
      → After WellFormed (then_do next o)
  then_do-After next (returned a c s) h k = k a c s h
  then_do-After next (raised e c s) h k = h

  command-After :
      {A : Type 0} (c : Calibration) (answer : Answer S A)
      → WellFormed c
      → After WellFormed (command c answer)
  command-After c (none, s) h = h
  command-After c (some a, s) h = h

  if-After :
      {A : Type 0} (b : Bool) (x y : Performed S A)
      → After WellFormed x
      → After WellFormed y
      → After WellFormed (if b then x else y)
  if-After true x y h k = h
  if-After false x y h k = k

  check_initialized-After :
      (c : Calibration) (s : S) → WellFormed c → After WellFormed (check_initialized master c s)
  unfolding check_initialized
  check_initialized-After c s h =
      if-After c.initialized (returned tt c s) (refresh master c s) h
        (refresh-WellFormed master c s h)

  set_page_in-After :
      (segment page mode : ℕ) (seg : Option Segment) (c : Calibration) (s : S)
      → WellFormed c
      → After WellFormed (set_page_in master segment page mode seg c s)
  set_page_in-After segment page mode none c s h = h
  set_page_in-After segment page mode (some seg) c s h =
      elim (Option-cases (find_key page seg.pages)) [
        | inl e ↦ rw e h
        | inr (pg, e) ↦ rw e (
            if-After (refused master mode pg.properties) (raised permission_error c s)
              (command c (master.set_cal_page mode segment page s)) h
              (command-After c (master.set_cal_page mode segment page s) h))
      ]

  copy_pages-After :
      (i j : ℕ) (src dst : Dict Page) (c : Calibration) (s : S)
      → WellFormed c
      → After WellFormed (copy_pages master i j src dst c s)
  unfolding copy_pages copy_page
  copy_pages-After i j [] dst c s h = h
  copy_pages-After i j ((p, pg) ∷ src) dst c s h =
      let answer = master.copy_cal_page i p j p s in
      if-After (is_some master (find_key p dst))
        (then_do (λ u. copy_pages master i j src dst) (command c answer))
        (copy_pages master i j src dst c s)
        (then_do-After (λ u. copy_pages master i j src dst) (command c answer)
          (command-After c answer h) (λ u c' s' h'. copy_pages-After i j src dst c' s' h'))
        (copy_pages-After i j src dst c s h)

  copy_between-After :
      (i j : ℕ) (src dst : Option Segment) (c : Calibration) (s : S)
      → WellFormed c
      → After WellFormed (copy_between master i j src dst c s)
  copy_between-After i j (some src) (some dst) c s h =
      copy_pages-After i j src.pages dst.pages c s h
  copy_between-After i j (some src) none c s h = h
  copy_between-After i j none dst c s h = h

  store_mode-WellFormed :
      (segment mode : ℕ) (c : Calibration)
      → WellFormed c
      → WellFormed (store_mode master segment mode c)
  store_mode-WellFormed segment mode c h =
      update_key-Ascending SegmentRight 0 c.max_segments segment (set_mode master mode) c.segments
        (λ key seg p. p) h

  set_freeze_mode-After :
      (segment : ℕ) (enabled : Bool) (c : Calibration) (s : S)
      → WellFormed c
      → After WellFormed (set_freeze_mode master segment enabled c s)
  unfolding set_freeze_mode
  set_freeze_mode-After segment enabled c s h =
      let mode = freeze_mode master enabled in
      let store = λ (v : Unit) (c' : Calibration) (s' : S).
        returned tt (store_mode master segment mode c') s' in
      then_do-After
        (λ u c' s'.
          if c'.freeze_supported
          then then_do store (command c' (master.set_segment_mode mode segment s'))
          else raised runtime_error c' s')
        (check_initialized master c s) (check_initialized-After c s h)
        (λ u c' s' h'.
          let answer = master.set_segment_mode mode segment s' in
          if-After c'.freeze_supported (then_do store (command c' answer))
            (raised runtime_error c' s')
            (then_do-After store (command c' answer) (command-After c' answer h')
              (λ v c'' s'' h''. store_mode-WellFormed segment mode c'' h''))
            h')

  frozen_of-After :
      (mode : Option ℕ) (c : Calibration) (s : S)
      → WellFormed c
      → After WellFormed (frozen_of master mode c s)
  frozen_of-After none c s h = h
  frozen_of-After (some mode) c s h = h

  state_after-WellFormed :
      {A : Type 0} (o : Performed S A) → After WellFormed o → WellFormed (state_after o).0
  state_after-WellFormed (returned a c s) h = h
  state_after-WellFormed (raised e c s) h = h

  set_page-After :
      (segment page mode : ℕ) (c : Calibration) (s : S)
      → WellFormed c
      → WellFormed (state_after (set_page master segment page mode c s)).0
  unfolding set_page
  set_page-After segment page mode c s h =
      state_after-WellFormed (set_page master segment page mode c s) (
        then_do-After
          (λ u c' s'. set_page_in master segment page mode (find_key segment c'.segments) c' s')
          (check_initialized master c s) (check_initialized-After c s h)
          (λ u c' s' h'.
            set_page_in-After segment page mode (find_key segment c'.segments) c' s' h'))

  perform-WellFormed :
      (call : Operation) (c : Calibration) (s : S)
      → WellFormed c
      → WellFormed (perform master call c s).0
  unfolding perform set_ecu_page set_xcp_page set_all_pages get_page get_current_config copy_page
      copy_segment is_frozen save_all page_properties
  perform-WellFormed call_refresh c s h =
      state_after-WellFormed (refresh master c s) (refresh-WellFormed master c s h)
  perform-WellFormed (call_set_page segment page mode) c s h =
      set_page-After segment page mode c s h
  perform-WellFormed (call_set_ecu_page segment page) c s h = set_page-After segment page 0x01 c s h
  perform-WellFormed (call_set_xcp_page segment page) c s h = set_page-After segment page 0x02 c s h
  perform-WellFormed (call_set_all_pages page mode) c s h =
      state_after-WellFormed (set_all_pages master page mode c s) (command-After c _ h)
  perform-WellFormed (call_get_page segment mode) c s h =
      state_after-WellFormed (get_page master segment mode c s) (command-After c _ h)
  perform-WellFormed call_get_current_config c s h =
      state_after-WellFormed (get_current_config master c s) (
        then_do-After
          (λ u c' s'.
            returned (query_segments master c'.segments s').0 c'
              (query_segments master c'.segments s').1)
          (check_initialized master c s) (check_initialized-After c s h) (λ u c' s' h'. h'))
  perform-WellFormed (call_copy_page i p j q) c s h =
      state_after-WellFormed (copy_page master i p j q c s) (command-After c _ h)
  perform-WellFormed (call_copy_segment i j) c s h =
      state_after-WellFormed (copy_segment master i j c s) (
        then_do-After
          (λ u c' s'.
            copy_between master i j (find_key i c'.segments) (find_key j c'.segments) c' s')
          (check_initialized master c s) (check_initialized-After c s h)
          (λ u c' s' h'.
            copy_between-After i j (find_key i c'.segments) (find_key j c'.segments) c' s' h'))
  perform-WellFormed (call_set_freeze_mode segment enabled) c s h =
      state_after-WellFormed (set_freeze_mode master segment enabled c s)
        (set_freeze_mode-After segment enabled c s h)
  perform-WellFormed (call_is_frozen segment) c s h =
      state_after-WellFormed (is_frozen master segment c s) (
        then_do-After (frozen_of master) (command c (master.get_segment_mode segment s))
          (command-After c (master.get_segment_mode segment s) h)
          (λ m c' s' h'. frozen_of-After m c' s' h'))
  perform-WellFormed call_save_all c s h =
      state_after-WellFormed (save_all master c s) (command-After c _ h)
  perform-WellFormed (call_page_properties segment page) c s h =
      state_after-WellFormed (page_properties master segment page c s) (
        then_do-After
          (λ u c' s'. returned (properties_in master page (find_key segment c'.segments)) c' s')
          (check_initialized master c s) (check_initialized-After c s h) (λ u c' s' h'. h'))

  -- Calls keep a well-formed object well-formed, whatever the slave answers.
  kept-WellFormed :
      (calls : List Operation) (c : Calibration) (s : S)
      → WellFormed c
      → WellFormed (perform_all master calls c s).0
  unfolding perform_all
  kept-WellFormed [] c s h = h
  kept-WellFormed (call ∷ calls) c s h =
      let next = perform master call c s in
      kept-WellFormed calls next.0 next.1 (perform-WellFormed call c s h)

  -- After any calls on a new object, returning or raising, and whatever the slave answers, the
  -- segments that it holds are numbered without repetition, in order and below the number that
  -- the slave gave, each knows its number, and so are the pages of each segment, which know
  -- the segment too.
  pub perform_all-WellFormed :
      (calls : List Operation) (s : S) → WellFormed (perform_all master calls new_calibration s).0
  perform_all-WellFormed calls s = kept-WellFormed calls new_calibration s tt
