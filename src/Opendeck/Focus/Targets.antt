-- ===== src/Opendeck/Focus/Targets.antt =====
-- opendeck-broker/opendeck_broker/focus/windows.py: which window is focused, and what a success says.
use home_ailab.Prelude.{ℕ, ◌≡◌, ◌≢◌, refl, String, Option, none, some, List, [], ◌∷◌, length, arith}
use home_ailab.Opendeck.Focus.{
  Desktop, FocusStatus, matching, resolve, verdict, focus_end, focus_next, focus_matches,
  focus_marker,
}

module _ (desk : Desktop) where
  open desk use {World, enumerate, get_foreground, lower}

  focus_end_observed :
      (hwnd : ℕ) (x : Option String × World)
      → (focus_end desk hwnd x).0.status ≡ FocusStatus.success
      → ((focus_end desk hwnd x).0.hwnd ≡ some hwnd)
        × (get_foreground (focus_end desk hwnd x).1 ≡ hwnd)
  unfolding focus_end
  focus_end_observed hwnd (some e, w) h = cc
  focus_end_observed hwnd (none, w) h = (ground arith, ground arith)

  focus_next_observed :
      (hwnd : ℕ) (x : Option String × World)
      → (focus_next desk hwnd x).0.status ≡ FocusStatus.success
      → ((focus_next desk hwnd x).0.hwnd ≡ some hwnd)
        × (get_foreground (focus_next desk hwnd x).1 ≡ hwnd)
  unfolding focus_next
  focus_next_observed hwnd (some e, w) h = cc
  focus_next_observed hwnd (none, w) h = focus_end_observed hwnd (desk.set_foreground hwnd w) h

  -- A success of `focus_marker` means that just one window matched the marker, that this window is
  -- the one reported, and that it is the foreground window of the desktop that is left.
  pub focus_marker_success :
      (marker : String) (w : World)
      → (focus_marker desk marker w).0.status ≡ FocusStatus.success
      → (hwnd : ℕ) × (matching desk (lower marker) (enumerate w) ≡ hwnd ∷ [])
        × ((focus_marker desk marker w).0.hwnd ≡ some hwnd)
        × (get_foreground (focus_marker desk marker w).1 ≡ hwnd)
  unfolding focus_marker focus_matches resolve
  focus_marker_success marker w = split (matching desk (lower marker) (enumerate w))
    where
      split :
          (hs : List ℕ)
          → (focus_matches desk marker hs w).0.status ≡ FocusStatus.success
          → (hwnd : ℕ) × (hs ≡ hwnd ∷ [])
            × ((focus_matches desk marker hs w).0.hwnd ≡ some hwnd)
            × (get_foreground (focus_matches desk marker hs w).1 ≡ hwnd)
      split [] h = cc
      split (hwnd ∷ []) h =
          let seen = focus_next_observed hwnd (desk.show hwnd 9 w) h in (hwnd, refl, seen.0, seen.1)
      split (x ∷ y ∷ hs) h = cc

  -- With no matching window, or with several, nothing is shown or focused: the desktop is left as
  -- it was, and the status says which of the two it was.
  pub focus_marker_untouched :
      (marker : String) (w : World)
      → length (matching desk (lower marker) (enumerate w)) ≢ 1
      → ((focus_marker desk marker w).1 ≡ w)
        × ((focus_marker desk marker w).0.status
            ≡ verdict (matching desk (lower marker) (enumerate w)))
        × ((focus_marker desk marker w).0.hwnd ≡ none)
  unfolding focus_marker focus_matches resolve
  focus_marker_untouched marker w = split (matching desk (lower marker) (enumerate w))
    where
      split :
          (hs : List ℕ)
          → length hs ≢ 1
          → ((focus_matches desk marker hs w).1 ≡ w)
            × ((focus_matches desk marker hs w).0.status ≡ verdict hs)
            × ((focus_matches desk marker hs w).0.hwnd ≡ none)
      split [] h = (refl, refl, refl)
      split (hwnd ∷ []) h = absurd (h refl)
      split (x ∷ y ∷ hs) h = (refl, refl, refl)
