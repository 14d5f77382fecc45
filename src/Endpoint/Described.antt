-- ===== src/Endpoint/Described.antt =====
-- views/mcp_endpoint.py: what the metadata tools write, and what they answer.
use django_mcp_sql.Prelude.{String, ◌≡◌, true, false, none, some, List, [], ◌∷◌, contains, format}
use django_mcp_sql.Outcome.{ToolName, tool_value}
use django_mcp_sql.Raise.{Try, returned}
use django_mcp_sql.Models.{AuditFields}
use django_mcp_sql.World.{World}
use django_mcp_sql.Grants.{values}
use django_mcp_sql.Grants.Sets.{sorted}
use django_mcp_sql.Executor.Audit.{Env, base_fields}
use django_mcp_sql.Executor.Books.{Wrote}
use django_mcp_sql.Endpoint.{
  Principal, Site, Field, Description, table_description, tool_error, columns_of, label_of_table,
  request_of, list_tables, describe_table,
}

module _ {Node C : Type 0} (env : Env Node C) (site : Site) (p : Principal) where
  -- The row of a metadata tool: allowed, with what was asked for in place of the SQL.
  abbrev pub tool_row : ToolName → String → AuditFields
  tool_row tool detail = record (base_fields (request_of env site p "" none) env.now) {
    raw_sql = detail;
    tool = tool_value tool;
  }

  -- The columns of a table that `list_tables` lists, those of the model that declares it; else the miss.
  pub data Answers (tables : List (String × String)) (name : String) : Description → Type 0 where
    found :
        (label : String) (fields : List Field)
        → contains (sorted (values tables)) name ≡ true
        → label_of_table tables name ≡ some label
        → site.model_fields label ≡ returned fields
        → Answers tables name (table_description (columns_of fields []))
    missed :
        contains (sorted (values tables)) name ≡ false
        → Answers tables name
            (tool_error (format ("Table '" ∷ name ∷ "' is not on the MCP whitelist." ∷ [])))

-- The runs of the two metadata tools in one state.
pub record IsServed {Node C : Type 0} (env : Env Node C) (site : Site) (p : Principal)
    (tables : List (String × String)) (name : String) (w : World C)
    (listing : Try (List String) × World C) (description : Try Description × World C) : Type 0 where
  pub listing_written : Wrote env (tool_row env site p ToolName.list_tables "") w listing.1
  pub listed : (ts : List String) → listing.0 ≡ returned ts → ts ≡ sorted (values tables)
  pub description_written :
      Wrote env
        (tool_row env site p ToolName.describe_table
          (format ("describe_table(" ∷ site.repr name ∷ ")" ∷ [])))
        w
        description.1
  pub answered : (d : Description) → description.0 ≡ returned d → Answers env site p tables name d
