-- ===== src/Executor/Cells/Capped.antt =====
-- executor.py: what `_cap_rows` keeps, and how large it is.
use django_mcp_sql.Prelude.{
  ℕ, ◌+◌, ◌≤◌, ◌<◌, ◌≡◌, refl, ap, sym, ◌∙◌, ◌≢◌, ◌⊎◌, inl, inr, Bool, true, false, ◌&&◌, List, [],
  ◌∷◌, ◌++◌, map, length, ltb, Bool-cases, arith,
}
use django_mcp_sql.Outcome.{Cell}
use django_mcp_sql.Database.{Value}
use django_mcp_sql.Executor.Cells.{row_bytes, cap_row, is_nonempty, cap_loop, cap_rows}
use django_mcp_sql.Executor.Cells.Shown.{
  Pairwise, IsShownRow, json_size, json_sizes, cap_row-shown, cap_rows-shown, row_bytes-json_size,
}

abbrev total_bytes : List (List Cell) → ℕ
total_bytes [] = 0
total_bytes (row ∷ rows) = row_bytes row + total_bytes rows

-- A result of the loop for `rows` under `total_cap`, by the functions of the code.
record IsLooped (total_cap : ℕ) (rows : List (List Value)) (out : List (List Cell)) (total : ℕ)
    (truncated : Bool) : Type 0 where
  kept : List (List Value)
  dropped : List (List Value)
  split : kept ++ dropped ≡ rows
  capped : out ≡ map cap_row kept
  counted : total ≡ total_bytes out
  fits : (total ≤ total_cap) ⊎ (length out ≤ 1)
  maximal :
      ((dropped ≡ []) × (truncated ≡ false))
      ⊎ ((row : List Value) × (rest : List (List Value)) × (dropped ≡ row ∷ rest)
          × (truncated ≡ true)
          × (is_nonempty out ≡ true)
          × (total_cap < total + row_bytes (cap_row row)))

total_bytes-json_sizes : (out : List (List Cell)) → total_bytes out ≡ json_sizes out
total_bytes-json_sizes [] = refl
total_bytes-json_sizes (row ∷ out) = rw (row_bytes-json_size row, total_bytes-json_sizes out) refl

map_snoc :
    (before : List (List Value)) (row : List Value)
    → map cap_row (before ++ row ∷ []) ≡ map cap_row before ++ cap_row row ∷ []
map_snoc [] row = refl
map_snoc (b ∷ before) row = ap (λ t. cap_row b ∷ t) (map_snoc before row)

total_snoc :
    (out : List (List Cell)) (row : List Cell)
    → total_bytes (out ++ row ∷ []) ≡ total_bytes out + row_bytes row
total_snoc [] row = omega arith
total_snoc (r ∷ out) row = omega (arith, total_snoc out row)

shift {ℓ} :
    {A : Type ℓ} (before : List A) (x : A) (rest : List A)
    → (before ++ x ∷ []) ++ rest ≡ before ++ (x ∷ rest)
shift [] x rest = refl
shift (b ∷ before) x rest = ap (λ t. b ∷ t) (shift before x rest)

-- A row that is not refused fits, or is the first.
fits_snoc :
    (total_cap total : ℕ) (out : List (List Cell)) (row : List Cell)
    → (is_nonempty out && ltb total_cap (total + row_bytes row)) ≡ false
    → (total + row_bytes row ≤ total_cap) ⊎ (length (out ++ row ∷ []) ≤ 1)
fits_snoc total_cap total [] row h = inr (omega arith)
fits_snoc total_cap total (r ∷ out) row h = inl (ground arith)

both_true : (a b : Bool) → (a && b) ≡ true → (a ≡ true) × (b ≡ true)
both_true true b h = (refl, h)
both_true false b h = cc

cap_loop-IsLooped :
    (total_cap : ℕ) (before : List (List Value)) (out : List (List Cell)) (total : ℕ)
    (rows : List (List Value))
    → out ≡ map cap_row before
    → total ≡ total_bytes out
    → (total ≤ total_cap) ⊎ (length out ≤ 1)
    → let (o, t, b) = cap_loop total_cap out total rows in IsLooped total_cap (before ++ rows) o t b
unfolding cap_loop
cap_loop-IsLooped total_cap before out total [] ho ht hf = record {
  kept = before;
  dropped = [];
  split = refl;
  capped = ho;
  counted = ht;
  fits = hf;
  maximal = inl (refl, refl);
}
cap_loop-IsLooped total_cap before out total (row ∷ rest) ho ht hf =
    elim (Bool-cases (is_nonempty out && ltb total_cap (total + row_bytes (cap_row row)))) [
      | inl stop ↦
          let (some_out, over) = both_true (is_nonempty out) _ stop in
          let refused : IsLooped total_cap (before ++ row ∷ rest) out total true = record {
            kept = before;
            dropped = row ∷ rest;
            split = refl;
            capped = ho;
            counted = ht;
            fits = hf;
            maximal = inr (row, rest, refl, refl, some_out, ground arith);
          } in
          rw stop refused
      | inr go ↦
          let later =
            cap_loop-IsLooped total_cap (before ++ row ∷ []) (out ++ cap_row row ∷ [])
              (total + row_bytes (cap_row row)) rest
              (ap (λ t. t ++ cap_row row ∷ []) ho ∙ sym (map_snoc before row))
              (omega (arith, total_snoc out (cap_row row)))
              (fits_snoc total_cap total out (cap_row row) go) in
          rw go (rw (shift before row rest) at later)
    ]

cap_rows-IsLooped :
    (total_cap : ℕ) (rows : List (List Value))
    → let (out, total, truncated) = cap_rows total_cap rows in
      IsLooped total_cap rows out total truncated
unfolding cap_rows
cap_rows-IsLooped total_cap rows =
    cap_loop-IsLooped total_cap [] [] 0 rows refl refl (inl (omega arith))

-- What `_cap_rows` returns for `rows` under `total_cap`.
pub record IsCapped (total_cap : ℕ) (rows : List (List Value)) (out : List (List Cell)) (total : ℕ)
    (truncated : Bool) : Type 0 where
  pub kept : List (List Value)
  pub dropped : List (List Value)
  pub split : kept ++ dropped ≡ rows
  pub capped : Pairwise IsShownRow kept out
  pub counted : total ≡ json_sizes out
  pub fits : (total ≤ total_cap) ⊎ (length out ≤ 1)
  pub maximal :
      ((dropped ≡ []) × (truncated ≡ false))
      ⊎ ((row : List Value) × (rest : List (List Value)) × (dropped ≡ row ∷ rest)
          × (truncated ≡ true)
          × (out ≢ [])
          × ((cells : List Cell) × IsShownRow row cells × (total_cap < total + json_size cells)))

some_row : (out : List (List Cell)) → is_nonempty out ≡ true → out ≢ []
some_row [] h e = cc
some_row (x ∷ out) h e = cc

-- What `_cap_rows` returns is a first part of the rows, cell by cell: a text of more than 4096 bytes is
-- cut to its first 4096 characters, with a mark behind them, and every other cell is as it was. With it
-- comes the sum of the sizes of these rows in JSON, which is within the cap unless a single row is kept.
-- It stops early, and says so, exactly where some row was kept and the next one would pass the cap.
pub cap_rows-IsCapped :
    (total_cap : ℕ) (rows : List (List Value))
    → let (out, total, truncated) = cap_rows total_cap rows in
      IsCapped total_cap rows out total truncated
cap_rows-IsCapped total_cap rows =
    let c = cap_rows-IsLooped total_cap rows in
    record {
      kept = c.kept;
      dropped = c.dropped;
      split = c.split;
      capped = rw c.capped (cap_rows-shown c.kept);
      counted = c.counted ∙ total_bytes-json_sizes _;
      fits = c.fits;
      maximal = elim c.maximal [
        | inl whole ↦ inl whole
        | inr (row, rest, d, t, n, over) ↦ inr (
          row,
          rest,
          d,
          t,
          some_row _ n,
          (cap_row row, cap_row-shown row, rw (row_bytes-json_size (cap_row row)) at over),
        )
      ];
    }

length-map :
    (kept dropped : List (List Value)) → length (map cap_row kept) ≤ length (kept ++ dropped)
length-map [] dropped = omega arith
length-map (k ∷ kept) dropped = omega (arith, length-map kept dropped)

pub length-cap_rows :
    (total_cap : ℕ) (rows : List (List Value)) → length (cap_rows total_cap rows).0 ≤ length rows
length-cap_rows total_cap rows =
    let c = cap_rows-IsLooped total_cap rows in
    let bound = length-map c.kept c.dropped in rw c.capped (rw c.split at bound)
