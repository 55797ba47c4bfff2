-- ===== src/Pagination/Tests.antt =====
-- Three rows, two of the same time, in pages of one.
use Prim.Native.Nat.{ℕ}
use mathlib.Core.Path.{◌≡◌}
use mathlib.Core.List.{List, [], ◌∷◌}
use python_codebase.Prelude.{◌+◌, ◌*◌, ◌≤◌, String, false, some, length, arith}
use python_codebase.Result.{ok}
use python_codebase.Pagination.{direction_next, direction_prev, insert_desc, is_older, order_desc}
use python_codebase.Pagination.Walk.{walk, concat, first_page, walk_complete, walk_stops}
use python_codebase.Pagination.Codec.{encode_cursor, decode_cursor}
use python_codebase.Pagination.Links.{read_page, decode_cursor-encode_cursor, links_lead_around}
use python_codebase.Pagination.Samples.{codec, codec-IsStandard}

-- A row is its creation time and its id.
abbrev created_at : ℕ × ℕ → ℕ
created_at row = row.0

abbrev id : ℕ × ℕ → ℕ
id row = row.1

abbrev rows : List (ℕ × ℕ)
rows = (10, 1) ∷ (20, 2) ∷ (20, 3) ∷ []

walk_complete_example :
    (pages : List (List (ℕ × ℕ))) × (walk created_at id 4 (first_page created_at id) 1 rows
      ≡ some pages)
    × (concat pages ≡ order_desc created_at id rows)
walk_complete_example =
    walk_complete created_at id rows 1 4
      ((omega arith, (omega arith, tt)), ((omega arith, tt), (tt, tt)))
      (omega arith, (omega arith, (omega arith, tt))) (omega arith) (omega arith)

walk_stops_example :
    (p : List (ℕ × ℕ)) × (more : List (List (ℕ × ℕ))) × (walk created_at id 4
        (first_page created_at id)
        2
        rows
      ≡ some (p ∷ more))
    × (length more * 2 ≤ 2)
    × (3 ≤ 2 + length more * 2)
walk_stops_example =
    walk_stops created_at id rows 2 4
      ((omega arith, (omega arith, tt)), ((omega arith, tt), (tt, tt)))
      (omega arith, (omega arith, (omega arith, tt))) (omega arith) (omega arith)

decode_cursor-encode_cursor_example :
    (cursor : String) × (encode_cursor codec 20 2 direction_prev ≡ ok cursor)
    × (decode_cursor codec cursor ≡ ok (20, 2, direction_prev))
decode_cursor-encode_cursor_example =
    decode_cursor-encode_cursor codec codec-IsStandard 20 2 direction_prev

sorted_rows : order_desc created_at id rows ≡ (20, 3) ∷ (20, 2) ∷ (10, 1) ∷ []
unfolding order_desc insert_desc is_older
sorted_rows = ground arith

links_lead_around_example :
    (next previous : String) × (encode_cursor codec 20 2 direction_next ≡ ok next)
    × (encode_cursor codec 20 2 direction_prev ≡ ok previous)
    × (read_page codec created_at id next 2 rows ≡ ok ((10, 1) ∷ [], false))
    × (read_page codec created_at id previous 2 rows ≡ ok ((20, 3) ∷ [], false))
links_lead_around_example =
    links_lead_around codec codec-IsStandard created_at id rows ((20, 3) ∷ []) (20, 2)
      ((10, 1) ∷ []) 2 ((omega arith, (omega arith, tt)), ((omega arith, tt), (tt, tt)))
      (omega arith) sorted_rows
