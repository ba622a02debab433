-- ===== src/Pty/Protocol/Listing.antt =====
-- `handleList` of pty/protocol.go from the snapshot on: the page that answers a request. The size of a
-- response as JSON is a parameter, and so is base64 and strconv behind the cursors.
use streammux.Base.{
  ℕ, zero, suc, ◌+◌, ◌-◌, ◌^◌, ◌&&◌, Option, none, some, List, [], length, take, drop,
  if◌then◌else◌, ltb, leb, ◌==◌,
}
use streammux.Base.Int.{ℤ, pos, negsuc}
use streammux.Pty.Values.{
  PtyError, invalid_list_limit, stale_cursor, invalid_cursor_position, entry_too_large,
}
use streammux.Pty.Observer.{SessionInfo}
use streammux.Pty.Protocol.Cursor.{Strconv, encode_cursor, decode_cursor}

-- How a request for a list ends: with a page and the cursor of the next, empty for none; with an error to
-- answer; with an error of the handler itself, where a response does not marshal; or in a slice expression
-- out of range.
pub data Listed : Type 0 where
  page : List SessionInfo → List ℕ → Listed
  invalid : PtyError → Listed
  unmarshalled panics : Listed

-- The bytes that a response with these sessions and this cursor takes, if it marshals.
abbrev pub SizeOf : Type 0
SizeOf = List SessionInfo → List ℕ → Option ℕ

-- `MaxListItems` and what else the adapter goes by.
pub record Paging : Type 0 where
  pub library : Strconv
  pub size_of : SizeOf
  pub max_items : ℕ
  pub max_frame : ℕ

-- The cursor behind so many sessions.
abbrev pub cursor_at : Paging → ℕ → List SessionInfo → ℕ → List ℕ
cursor_at p generation all end =
    if ltb end (length all) then encode_cursor p.library generation end else []

abbrev pub candidate : Paging → ℕ → List SessionInfo → ℕ → ℕ → Option ℕ
candidate p generation all position count =
    p.size_of (take count (drop position all)) (cursor_at p generation all (position + count))

abbrev pub shrink_more : ℕ → ℕ → Option ℕ → Option ℕ → Option ℕ
shrink_more count max shorter none = none
shrink_more count max shorter (some size) = if leb size max then some count else shorter

-- The loop over `end`, by the sessions left between it and the position: the most that fit, or nothing
-- where one does not marshal.
unfoldable pub shrink : Paging → ℕ → List SessionInfo → ℕ → ℕ → Option ℕ
shrink p generation all position zero = some 0
shrink p generation all position (suc count) =
    let shorter = shrink p generation all position count in
    shrink_more (suc count) p.max_frame shorter (candidate p generation all position (suc count))

abbrev pub page_of : Paging → ℕ → List SessionInfo → ℕ → Option ℕ → Listed
page_of p generation all position none = unmarshalled
page_of p generation all position (some count) =
    if count == 0 && ltb position (length all)
    then invalid entry_too_large
    else page (take count (drop position all)) (cursor_at p generation all (position + count))

-- The sum `position + limit` is a 64-bit int; where it wraps around, `end` is below the position.
unfoldable pub list_from : Paging → ℕ → List SessionInfo → ℕ → ℕ → Listed
list_from p generation all limit position =
    if ltb (length all) position
    then invalid invalid_cursor_position
    else if leb (2 ^ 63) (position + limit)
    then panics
    else page_of p generation all position (
        shrink p generation all position
          (if ltb (length all) (position + limit) then length all - position else limit))

abbrev pub list_decoded : Paging → ℕ → List SessionInfo → ℕ → Option (ℕ × ℤ) → Listed
list_decoded p generation all limit none = invalid stale_cursor
list_decoded p generation all limit (some (g, negsuc n)) =
    if g == generation then invalid invalid_cursor_position else invalid stale_cursor
list_decoded p generation all limit (some (g, pos n)) =
    if g == generation then list_from p generation all limit n else invalid stale_cursor

-- From the limit on that applies.
unfoldable pub list_page : Paging → ℕ → List SessionInfo → ℕ → List ℕ → Listed
list_page p generation all limit cursor =
    if length cursor == 0
    then list_from p generation all limit 0
    else list_decoded p generation all limit (decode_cursor p.library cursor)

-- The limit of a request; zero stands for the most.
abbrev pub limit_of : Paging → ℤ → Option ℕ
limit_of p (negsuc n) = none
limit_of p (pos n) = if n == 0 then some p.max_items else if ltb p.max_items n then none else some n

abbrev pub list_limited : Paging → ℕ → List SessionInfo → List ℕ → Option ℕ → Listed
list_limited p generation all cursor none = invalid invalid_list_limit
list_limited p generation all cursor (some limit) = list_page p generation all limit cursor

-- `handleList` on a snapshot that has passed the filter.
unfoldable pub list_request : Paging → ℕ → List SessionInfo → ℤ → List ℕ → Listed
list_request p generation all limit cursor = list_limited p generation all cursor (limit_of p limit)
