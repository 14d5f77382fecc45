-- ===== src/Fencing/Read.antt =====
-- fencing.py: a reader of a fence, who stops at its last line.
use Prim.Native.Char.{Char, code}
use Prim.Native.String
use Prim.Native.String.append
use text.Mathlib.TextLemmas
use django_mcp_sql.Prelude.{
  String, ◌≡◌, refl, ◌==◌, sym, ap, ◌∙◌, ◌⊎◌, inl, inr, true, false, Option, none, some, List, [],
  ◌∷◌, is_some, is_empty, if◌then◌else◌, Bool-cases, format,
}
use django_mcp_sql.Outcome.{Cell, QueryResult}
use django_mcp_sql.Session.{after}
use django_mcp_sql.Consts.Recognised.{after-append}
use django_mcp_sql.Fencing.{
  FencedQueryResult, fence_tag, opening, closing, wrap, fence_query_result,
}

-- What stands before the first place where the closing line begins.
up_to : String → String → String
up_to close String.[] = ""
up_to close (String.◌∷◌ c s) =
    let later = up_to close s in
    if is_some (after close (String.◌∷◌ c s)) then "" else String.◌∷◌ c later

inside : String → Option String → Option String
inside close none = none
inside close (some s) = some (up_to close s)

-- What an agent reads that knows the id: behind the opening line, up to the first closing line.
unfoldable pub read_fence : String → String → Option String
unfolding inside up_to
read_fence fence_id s = inside (closing fence_id) (after (opening fence_id) s)

-- The closing line does not begin inside the value.
unfoldable pub IsUnforged : String → String → Type 0
IsUnforged close String.[] = Unit
IsUnforged close (String.◌∷◌ c s) =
    (after close (String.◌++◌ (String.◌∷◌ c s) close) ≡ none) × IsUnforged close s

up_to-close : (close : String) → up_to close close ≡ ""
unfolding up_to
up_to-close String.[] = refl
up_to-close (String.◌∷◌ c s) =
    let found = after-append (String.◌∷◌ c s) "" in
    let e : after (String.◌∷◌ c s) (String.◌∷◌ c s) ≡ some "" =
      ap (λ t. after (String.◌∷◌ c s) t) (sym (append_nil (String.◌∷◌ c s))) ∙ found in
    rw e refl
  where
    append_nil : (t : String) → String.◌++◌ t "" ≡ t
    append_nil t = TextLemmas.append-nil t

up_to-value :
    (close value : String) → IsUnforged close value → up_to close (String.◌++◌ value close) ≡ value
unfolding IsUnforged up_to
up_to-value close String.[] h = rw (append.nil close) (up_to-close close)
up_to-value close (String.◌∷◌ c s) h =
    let ih = up_to-value close s h.1 in
    let step : after close (String.◌∷◌ c (String.◌++◌ s close)) ≡ none =
      rw (append.cons c s close) at (h.0) in
    rw (append.cons c s close) (rw step (ap (λ t. String.◌∷◌ c t) ih))

read_fence-wrap :
    (fence_id value : String)
    → IsUnforged (closing fence_id) value
    → read_fence fence_id (wrap value fence_id) ≡ some value
unfolding read_fence wrap inside
read_fence-wrap fence_id value h =
    rw (after-append (opening fence_id) (String.◌++◌ value (closing fence_id)))
      (ap some (up_to-value (closing fence_id) value h))

-- The text is on one line.
unfoldable pub IsOneLine : String → Type 0
IsOneLine String.[] = Unit
IsOneLine (String.◌∷◌ c s) = ((10 == code c) ≡ false) × IsOneLine s

-- The closing line begins with a line break.
closing-break : (fence_id : String) → (s : String) × (closing fence_id ≡ String.◌∷◌ "\n" s)
unfolding format
closing-break fence_id = (
  format ("</" ∷ fence_tag ∷ "-" ∷ fence_id ∷ ">" ∷ []),
  append.cons "\n" "</" (format (fence_tag ∷ "-" ∷ fence_id ∷ ">" ∷ [])),
)

after-break :
    (close : String) (c : Char) (s : String)
    → (10 == code c) ≡ false
    → after (String.◌∷◌ "\n" close) (String.◌∷◌ c s) ≡ none
unfolding after
after-break close c s h = rw h refl

breakless : (close value : String) → IsOneLine value → IsUnforged (String.◌∷◌ "\n" close) value
unfolding IsOneLine IsUnforged
breakless close String.[] h = tt
breakless close (String.◌∷◌ c s) h = (
  rw (append.cons c s (String.◌∷◌ "\n" close))
      (after-break close c (String.◌++◌ s (String.◌∷◌ "\n" close)) h.0),
  breakless close s h.1,
)

-- A text on one line cannot hold the closing line, whoever knows the id.
pub IsOneLine-IsUnforged :
    (fence_id value : String) → IsOneLine value → IsUnforged (closing fence_id) value
IsOneLine-IsUnforged fence_id value h =
    let (s, e) = closing-break fence_id in rw e (breakless s value h)

-- What an agent that knows the id gets back of a result.
pub record IsRead (dumps : List (List Cell) → String) (fence_id : String) (payload : QueryResult)
    (fenced : FencedQueryResult) : Type 0 where
  pub rows_read : read_fence fence_id fenced.rows ≡ some (dumps payload.rows)
  pub error_read :
      ((is_empty payload.error ≡ true) × (fenced.error ≡ payload.error))
      ⊎ ((is_empty payload.error ≡ false) × (read_fence fence_id fenced.error ≡ some payload.error))
  pub columns_kept : fenced.columns ≡ payload.columns
  pub row_count_kept : fenced.row_count ≡ payload.row_count
  pub truncated_kept : fenced.truncated ≡ payload.truncated
  pub duration_ms_kept : fenced.duration_ms ≡ payload.duration_ms
  pub hint_kept : fenced.hint ≡ payload.hint
  pub rejection_reason_kept : fenced.rejection_reason ≡ payload.rejection_reason

-- Where the JSON of the rows is on one line, as `json.dumps` without an indentation gives it, and the
-- closing line does not begin inside the text of the error, a reader that knows the id of the fence
-- finds between its first and its last line the whole JSON of the rows, whatever the rows hold, and
-- the whole text of an error that is not empty. An empty error stays as it is, and so do the columns,
-- the row count, the truncation, the duration, the hint and the rejection reason.
pub fence_query_result-IsRead :
    (dumps : List (List Cell) → String) (fence_id : String) (payload : QueryResult)
    → IsOneLine (dumps payload.rows)
    → IsUnforged (closing fence_id) payload.error
    → IsRead dumps fence_id payload (fence_query_result dumps fence_id payload)
unfolding fence_query_result
fence_query_result-IsRead dumps fence_id payload h k = record {
  rows_read = read_fence-wrap fence_id (dumps payload.rows) (IsOneLine-IsUnforged fence_id _ h);
  error_read = elim (Bool-cases (is_empty payload.error)) [
    | inl e ↦ inl (e, rw e refl)
    | inr e ↦ inr (e, rw e (read_fence-wrap fence_id payload.error k))
  ];
  columns_kept = refl;
  row_count_kept = refl;
  truncated_kept = refl;
  duration_ms_kept = refl;
  hint_kept = refl;
  rejection_reason_kept = refl;
}
