-- ===== src/Executor/Cells.antt =====
-- executor.py: `_cap_cell` and `_cap_rows`, which bound what is sent back.
pub mod Shown
pub mod Capped
use Prim.Native.Char.{code}
use Prim.Native.String
use Prim.Native.String.{len}
use django_mcp_sql.Prelude.{
  ℕ, zero, suc, ◌+◌, String, Bool, true, false, ◌&&◌, ◌||◌, List, [], ◌∷◌, ◌++◌, map, leb, ltb,
  ◌==◌, show, if◌then◌else◌,
}
use django_mcp_sql.Prelude.Int.{ℤ, pos, negsuc}
use django_mcp_sql.Outcome.{Cell}
use django_mcp_sql.Database.{Value, null, bool, int, float, text, other}

abbrev pub per_cell_byte_cap : ℕ
per_cell_byte_cap = 4096

abbrev pub truncation_mark : String
truncation_mark = "…[truncated]"

-- `text[:n]`: the first characters.
unfoldable pub take_chars : ℕ → String → String
take_chars zero s = String.[]
take_chars (suc n) String.[] = String.[]
take_chars (suc n) (String.◌∷◌ c s) = String.◌∷◌ c (take_chars n s)

-- The text of a cell; `len` counts the bytes of its UTF-8 form.
unfoldable pub cap_text : String → String
unfolding take_chars
cap_text s =
    if ltb per_cell_byte_cap (len s)
    then String.◌++◌ (take_chars per_cell_byte_cap s) truncation_mark
    else s

unfoldable pub cap_cell : Value → Cell
unfolding cap_text
cap_cell null = Cell.null
cap_cell (bool b) = Cell.bool b
cap_cell (int n) = Cell.int n
cap_cell (float r) = Cell.float r
cap_cell (text s) = Cell.text (cap_text s)
cap_cell (other s) = Cell.text (cap_text s)

-- The bytes of one character in a JSON string, all of them ASCII: itself, a short escape, `\uXXXX`,
-- or two of these.
char_bytes : ℕ → ℕ
char_bytes c =
    if c == 0x22 || c == 0x5c || c == 0x08 || c == 0x09 || c == 0x0a || c == 0x0c || c == 0x0d
    then 2
    else if leb 0x20 c && leb c 0x7e
    then 1
    else if leb 0x10000 c
    then 12
    else 6

chars_bytes : String → ℕ
chars_bytes String.[] = 0
chars_bytes (String.◌∷◌ c s) = char_bytes (code c) + chars_bytes s

cell_bytes : Cell → ℕ
cell_bytes Cell.null = 4
cell_bytes (Cell.bool b) = if b then 4 else 5
cell_bytes (Cell.int (pos n)) = len (show n)
cell_bytes (Cell.int (negsuc n)) = 1 + len (show (suc n))
cell_bytes (Cell.float r) = len r
cell_bytes (Cell.text s) = 2 + chars_bytes s

-- The cells behind the first, each with the `", "` before it.
more_bytes : List Cell → ℕ
more_bytes [] = 0
more_bytes (c ∷ rest) = 2 + cell_bytes c + more_bytes rest

-- `len(json.dumps(row, default=str).encode("utf-8"))`
unfoldable pub row_bytes : List Cell → ℕ
unfolding cell_bytes more_bytes chars_bytes char_bytes
row_bytes [] = 2
row_bytes (c ∷ rest) = 2 + cell_bytes c + more_bytes rest

unfoldable pub cap_row : List Value → List Cell
unfolding cap_cell
cap_row row = map cap_cell row

abbrev pub is_nonempty {ℓ} : {A : Type ℓ} → List A → Bool
is_nonempty [] = false
is_nonempty (x ∷ xs) = true

-- The loop over the rows, with `out` and `total`; the result adds `truncated`.
unfoldable pub cap_loop : ℕ → List (List Cell) → ℕ → List (List Value) → List (List Cell) × ℕ × Bool
cap_loop total_cap out total [] = (out, total, false)
cap_loop total_cap out total (row ∷ rest) =
    let capped = cap_row row in
    let next = cap_loop total_cap (out ++ capped ∷ []) (total + row_bytes capped) rest in
    if is_nonempty out && ltb total_cap (total + row_bytes capped) then (out, total, true) else next

unfoldable pub cap_rows : ℕ → List (List Value) → List (List Cell) × ℕ × Bool
unfolding cap_loop cap_row row_bytes
cap_rows total_cap rows = cap_loop total_cap [] 0 rows
