-- ===== src/Pagination/Links.antt =====
-- The links of a page: the text of a cursor, and the page that it leads to.
use python_codebase.Prelude.{
  ℕ, ◌-◌, ◌<◌, String, List, ◌∷◌, ◌++◌, some, ◌≡◌, refl, ap, ◌∙◌, Bool, length, take, drop, ltb,
}
use python_codebase.Result.{Result, ok, err}
use python_codebase.Pagination.{
  CursorDirection, direction_next, direction_prev, order_desc, get_page,
}
use python_codebase.Pagination.Order.{HasUniqueIds}
use python_codebase.Pagination.Segments.{get_page-next_cursor}
use python_codebase.Pagination.Previous.{get_page-prev_cursor}
use python_codebase.Pagination.Codec.{
  Codec, IsStandard, cursor_data, decoded, read_fields, encode_cursor, decode_cursor,
}

-- The page that a request with the text of a cursor reads.
module _ (c : Codec) {A : Type 0} (created_at id : A → ℕ) where
  abbrev page_at : ℕ → List A → Result (ℕ × ℕ × CursorDirection) → Result (List A × Bool)
  page_at limit rows (err e) = err e
  page_at limit rows (ok parts) = ok (get_page created_at id (decoded parts) limit rows)

  abbrev pub read_page : String → ℕ → List A → Result (List A × Bool)
  read_page cursor limit rows = page_at limit rows (decode_cursor c cursor)

module _ (c : Codec) (h : IsStandard c) where
  read_fields-cursor_data :
      (created_at id : ℕ) (dir : CursorDirection)
      → read_fields c (cursor_data c created_at id dir) ≡ some (created_at, id, dir)
  unfolding read_fields
  read_fields-cursor_data created_at id direction_next =
      rw (h.fromisoformat-isoformat created_at, h.to_int-number id) refl
  read_fields-cursor_data created_at id direction_prev =
      rw (h.fromisoformat-isoformat created_at, h.to_int-number id) refl

  -- `decode_cursor` gives back the time, the id and the direction that `encode_cursor` was given.
  pub decode_cursor-encode_cursor :
      (created_at id : ℕ) (dir : CursorDirection)
      → (cursor : String) × (encode_cursor c created_at id dir ≡ ok cursor)
        × (decode_cursor c cursor ≡ ok (created_at, id, dir))
  unfolding encode_cursor decode_cursor
  decode_cursor-encode_cursor created_at id dir =
      let json_str = c.dumps (cursor_data c created_at id dir) in
      let (cursor, printed, ascii) = h.encode-decode (c.encode json_str) in
      (
        cursor,
        rw printed refl,
        rw
            (
              ascii,
              h.b64decode-b64encode (c.encode json_str),
              h.decode-encode json_str,
              h.loads-dumps created_at id dir,
            )
            (rw (read_fields-cursor_data created_at id dir) refl),
      )

  module _ {A : Type 0} (created_at id : A → ℕ) where
    linked_page :
        (x : A) (dir : CursorDirection) (limit : ℕ) (rows : List A)
        → (cursor : String) × (encode_cursor c (created_at x) (id x) dir ≡ ok cursor)
          × (read_page c created_at id cursor limit rows
              ≡ ok (get_page created_at id (decoded (created_at x, id x, dir)) limit rows))
    linked_page x dir limit rows =
        let (cursor, encoded, back) = decode_cursor-encode_cursor (created_at x) (id x) dir in
        (cursor, encoded, rw back refl)

    -- With unique ids and a row whose id is not 0, its cursors can be encoded; it is relied on that
    -- Base64, JSON, ISO times and `int` read what they wrote. The page at the cursor for the next
    -- direction is the rows that follow the row in the newest-first order, cut at the limit; the
    -- page at the one for the previous direction is the last rows before it, as many as the limit;
    -- either says exactly whether there are more.
    pub links_lead_around :
        (rows xs : List A) (x : A) (ys : List A) (limit : ℕ)
        → HasUniqueIds created_at id rows
        → 0 < id x
        → order_desc created_at id rows ≡ xs ++ x ∷ ys
        → (next previous : String) × (encode_cursor c (created_at x) (id x) direction_next
            ≡ ok next)
          × (encode_cursor c (created_at x) (id x) direction_prev ≡ ok previous)
          × (read_page c created_at id next limit rows ≡ ok (take limit ys, ltb limit (length ys)))
          × (read_page c created_at id previous limit rows
              ≡ ok (drop (length xs - limit) xs, ltb limit (length xs)))
    links_lead_around rows xs x ys limit u pos e =
        let (next, forth, behind) = linked_page x direction_next limit rows in
        let (previous, back, before) = linked_page x direction_prev limit rows in
        (
          next,
          previous,
          forth,
          back,
          behind ∙ ap ok (get_page-next_cursor created_at id rows xs x ys limit u pos e),
          before ∙ ap ok (get_page-prev_cursor created_at id rows xs x ys limit u pos e),
        )
