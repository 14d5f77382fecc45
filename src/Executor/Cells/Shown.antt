-- ===== src/Executor/Cells/Shown.antt =====
-- executor.py: what is shown of a row, and the size of it in JSON, written out.
use Prim.Native.String
use Prim.Native.String.{len}
use Prim.Native.String.append
use django_mcp_sql.Prelude.{
  ℕ, zero, suc, ◌+◌, ◌*◌, ◌≤◌, ◌<◌, String, ◌≡◌, refl, sym, ap, ◌∙◌, ◌⊎◌, inl, inr, Bool, List, [],
  ◌∷◌, map, length, ltb, Bool-cases, arith,
}
use django_mcp_sql.Prelude.Int.{ℤ}
use django_mcp_sql.Outcome.{Cell}
use django_mcp_sql.Database.{Value, null, bool, int, float, text, other}
use django_mcp_sql.Executor.Cells.{
  take_chars, cap_text, cap_cell, cap_row, cell_bytes, more_bytes, row_bytes,
}

-- Two lists of one length, related member by member.
pub data Pairwise {A B : Type 0} (R : A → B → Type 0) : List A → List B → Type 0 where
  none_left : Pairwise R [] []
  pair :
      {a : A} {b : B} {l : List A} {m : List B}
      → R a b
      → Pairwise R l m
      → Pairwise R (a ∷ l) (b ∷ m)

-- The number of characters.
abbrev pub chars : String → ℕ
chars String.[] = 0
chars (String.◌∷◌ c s) = suc (chars s)

-- `head` has the first 4096 characters, or all of them where there are no more.
pub record IsStart (head tail : String) : Type 0 where
  pub at_most : chars head ≤ 4096
  pub as_many : (chars head ≡ 4096) ⊎ (tail ≡ "")

-- What is shown of a text.
pub data IsShownText (s : String) : String → Type 0 where
  whole : len s ≤ 4096 → IsShownText s s
  cut :
      (head tail : String)
      → 4096 < len s
      → s ≡ String.◌++◌ head tail
      → IsStart head tail
      → IsShownText s (String.◌++◌ head "…[truncated]")

-- What is shown of a cell.
pub data IsShown : Value → Cell → Type 0 where
  shown_null : IsShown null Cell.null
  shown_bool : (b : Bool) → IsShown (bool b) (Cell.bool b)
  shown_int : (n : ℤ) → IsShown (int n) (Cell.int n)
  shown_float : (r : String) → IsShown (float r) (Cell.float r)
  shown_text : (s t : String) → IsShownText s t → IsShown (text s) (Cell.text t)
  shown_other : (s t : String) → IsShownText s t → IsShown (other s) (Cell.text t)

abbrev pub IsShownRow : List Value → List Cell → Type 0
IsShownRow = Pairwise IsShown

-- The cells of a row, without what stands between them.
cell_sizes : List Cell → ℕ
cell_sizes [] = 0
cell_sizes (c ∷ rest) = cell_bytes c + cell_sizes rest

-- The size of a row in JSON: the brackets, and two bytes between two cells.
unfoldable pub json_size : List Cell → ℕ
unfolding cell_sizes cell_bytes
json_size [] = 2
json_size (c ∷ rest) = 2 * length (c ∷ rest) + cell_sizes (c ∷ rest)

abbrev pub json_sizes : List (List Cell) → ℕ
json_sizes [] = 0
json_sizes (row ∷ rows) = json_size row + json_sizes rows

more_bytes-sizes : (l : List Cell) → more_bytes l ≡ 2 * length l + cell_sizes l
unfolding more_bytes cell_sizes
more_bytes-sizes [] = refl
more_bytes-sizes (c ∷ rest) = omega (arith, more_bytes-sizes rest)

pub row_bytes-json_size : (row : List Cell) → row_bytes row ≡ json_size row
unfolding row_bytes json_size cell_sizes
row_bytes-json_size [] = refl
row_bytes-json_size (c ∷ rest) = omega (arith, more_bytes-sizes rest)

take_chars-split :
    (n : ℕ) (s : String)
    → (tail : String) × (s ≡ String.◌++◌ (take_chars n s) tail)
      × (chars (take_chars n s) ≤ n)
      × ((chars (take_chars n s) ≡ n) ⊎ (tail ≡ ""))
unfolding take_chars
take_chars-split zero s = (s, sym (append.nil s), omega arith, inl refl)
take_chars-split (suc n) String.[] = ("", sym (append.nil ""), omega arith, inr refl)
take_chars-split (suc n) (String.◌∷◌ c s) =
    let (tail, e, few, full) = take_chars-split n s in
    (
      tail,
      ap (λ t. String.◌∷◌ c t) e ∙ sym (append.cons c (take_chars n s) tail),
      omega (arith, few),
      elim full [ inl q ↦ inl (ap suc q) | inr q ↦ inr q ],
    )

cap_text-shown : (s : String) → IsShownText s (cap_text s)
unfolding cap_text
cap_text-shown s = elim (Bool-cases (ltb 4096 (len s))) [
  | inr short ↦ rw short (whole (ground arith))
  | inl long ↦
      let (tail, e, few, full) = take_chars-split 4096 s in
      rw long
        (cut (take_chars 4096 s) tail (ground arith) e (record { at_most = few; as_many = full }))
]

cap_cell-IsShown : (v : Value) → IsShown v (cap_cell v)
unfolding cap_cell
cap_cell-IsShown null = shown_null
cap_cell-IsShown (bool b) = shown_bool b
cap_cell-IsShown (int n) = shown_int n
cap_cell-IsShown (float r) = shown_float r
cap_cell-IsShown (text s) = shown_text s (cap_text s) (cap_text-shown s)
cap_cell-IsShown (other s) = shown_other s (cap_text s) (cap_text-shown s)

pub cap_row-shown : (row : List Value) → IsShownRow row (cap_row row)
unfolding cap_row
cap_row-shown [] = none_left
cap_row-shown (v ∷ rest) = pair (cap_cell-IsShown v) (cap_row-shown rest)

pub cap_rows-shown : (rows : List (List Value)) → Pairwise IsShownRow rows (map cap_row rows)
cap_rows-shown [] = none_left
cap_rows-shown (row ∷ rest) = pair (cap_row-shown row) (cap_rows-shown rest)
