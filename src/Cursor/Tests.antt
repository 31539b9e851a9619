-- ===== src/Cursor/Tests.antt =====
-- The theorems on cursors at a cursor of a Run.
use chaosagent.Base.{◌≡◌, ◌↔◌, refl, ok}
use chaosagent.Store.Identifiers.{codes, matches_identifier}
use chaosagent.Cursor.{EventCursor, symbol, b64encode, digits, encode_cursor, decode_cursor}
use chaosagent.Cursor.RoundTrip.{decode_cursor_iff}

abbrev cursor : EventCursor
cursor = record { run_id = codes "run-1"; sequence = 42; event_id = codes "event-9" }

encodes : encode_cursor cursor ≡ ok (codes "v1.cnVuLTEKNDIKZXZlbnQtOQ")
unfolding encode_cursor b64encode symbol digits matches_identifier
encodes = refl

decode_cursor_iff_example :
    (decode_cursor (codes "v1.cnVuLTEKNDIKZXZlbnQtOQ") ≡ ok cursor)
    ↔ (encode_cursor cursor ≡ ok (codes "v1.cnVuLTEKNDIKZXZlbnQtOQ"))
decode_cursor_iff_example = decode_cursor_iff cursor (codes "v1.cnVuLTEKNDIKZXZlbnQtOQ")
