-- ===== src/Terminal/Rows/Windows.antt =====
-- The windows and selections of crates/gocode-tui/src/lib.rs lie where they must.
use Prim.Native.Nat.{min, max}
use gocode.Base.{ℕ, ◌+◌, ◌≤◌, ◌<◌, ◌≡◌, Bool, some, if_holds, leb, leb-false→lt, arith, leb→le}
use gocode.Terminal.Rows.{
  compute_visible_window, visible_suggestion_window, max_visible_suggestions, Selection,
  selected_char_range,
}

-- As many rows are shown as there are, or as fit; and all of them are rows of the transcript.
pub compute_visible_window-inside :
    (total visible_rows scroll : ℕ)
    → let (start, end) = compute_visible_window total visible_rows scroll in
      (end ≤ total) × (end ≡ start + min total (max visible_rows 1))
unfolding compute_visible_window
compute_visible_window-inside total visible_rows scroll = (omega arith, omega arith)

-- The suggestion that is selected is shown, among suggestions that there are, in six rows at most with the
-- one that tells of more.
pub visible_suggestion_window-selected :
    (count selected : ℕ)
    → selected < count
    → let (start, (end, more)) = visible_suggestion_window count selected in
      (start ≤ selected)
      × (selected < end)
      × (end ≤ count)
      × (end ≤ start + max_visible_suggestions)
unfolding visible_suggestion_window
visible_suggestion_window-selected count selected h =
    if_holds
      (λ (w : ℕ × (ℕ × Bool)).
        (w.0 ≤ selected)
        × (selected < w.1.0)
        × (w.1.0 ≤ count)
        × (w.1.0 ≤ w.0 + max_visible_suggestions))
      (leb count max_visible_suggestions)
      (λ few.
        (omega arith, h, omega arith, omega (arith, leb→le count max_visible_suggestions few)))
      (λ many.
        let over = leb-false→lt count max_visible_suggestions many in
        (omega arith, omega (arith, h, over), omega (arith, over), omega arith))

-- A selected range lies within its line and is not empty.
pub selected_char_range-inside :
    (selection : Selection) (line_index line_len from to : ℕ)
    → selected_char_range selection line_index line_len ≡ some (from, to)
    → (from < to) × (to ≤ line_len)
unfolding selected_char_range
selected_char_range-inside selection line_index line_len from to h = ground arith
