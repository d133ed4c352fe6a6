-- ===== src/Tui/Menu/Visible.antt =====
-- internal/tui/menu.go: `visibleRange`, the rows of a list that the menu draws.
use sshgatew.Prelude.{ℕ, ◌+◌, ◌-◌, ◌*◌, ◌/◌, ◌≤◌, ◌<◌, ◌≡◌, arith, ltb, ◌==◌, if◌then◌else◌}
use Prim.Native.Nat.{zero, suc}
use native.Mathlib.Nat.{div-add-mod, mod-lt, mul_comm, zero-lt-suc}

-- `maxInt`
abbrev pub max_int : ℕ → ℕ → ℕ
max_int a b = if ltb b a then a else b

-- `minInt`
abbrev pub min_int : ℕ → ℕ → ℕ
min_int a b = if ltb a b then a else b

-- The first row of the page, moved up where the page would end past the last row: `total - height` is
-- 0 where the code sets a negative start to 0.
abbrev pub first_row : (page total height : ℕ) → ℕ
first_row page total height = if ltb total (page + height) then total - height else page

abbrev pub last_row : (start total height : ℕ) → ℕ
last_row start total height = if ltb total (start + height) then total else start + height

abbrev pub rows_of_page : (page total height : ℕ) → ℕ × ℕ
rows_of_page page total height =
    let start = first_row page total height in (start, last_row start total height)

abbrev pub height_at_least_1 : ℕ → ℕ
height_at_least_1 height = if ltb height 1 then 1 else height

-- A height below 0 is 0 here.
unfoldable pub visible_range : (cursor total height : ℕ) → ℕ × ℕ
visible_range cursor total height =
    if total == 0
    then (0, 0)
    else let h = height_at_least_1 height in rows_of_page (cursor / h * h) total h

-- The rows from `start` to before `end` hold the row of the cursor, and are as many as fit.
abbrev pub Shows : (cursor total height : ℕ) → ℕ × ℕ → Type 0
Shows cursor total height (start, end) =
    (start ≤ cursor)
    × (cursor < end)
    × (end ≤ total)
    × (end ≡ start + min_int total (max_int 1 height))

rows_of_page-Shows :
    (page cursor total h : ℕ)
    → page ≤ cursor
    → cursor < page + h
    → cursor < total
    → 1 ≤ h
    → Shows cursor total h (rows_of_page page total h)
rows_of_page-Shows page cursor total h a b c d = ground (arith, a, b, c, d)

page_bounds : (cursor h : ℕ) → (cursor / h * h ≤ cursor) × (1 ≤ h → cursor < cursor / h * h + h)
page_bounds cursor zero = omega arith
page_bounds cursor (suc k) = ground (
  arith,
  mul_comm (cursor / suc k) (suc k),
  div-add-mod cursor (suc k),
  mod-lt cursor (zero-lt-suc k),
)

-- Where the cursor is on a row, the rows drawn hold the row of the cursor, none is past the last row,
-- and they are as many as the height, taken as 1 where it is less, or all rows where these are fewer.
pub visible_range-Shows :
    (cursor total height : ℕ)
    → cursor < total
    → Shows cursor total height (visible_range cursor total height)
unfolding visible_range
visible_range-Shows cursor total height c =
    ground
      (arith, c, (page_bounds cursor height).0, (page_bounds cursor height).1, page_bounds cursor 1)
