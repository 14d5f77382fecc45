-- ===== src/Executor/Sent.antt =====
-- executor.py, session.py: what reaches the read-only database.
pub mod Quiet
pub mod Planned
pub mod Entered
use django_mcp_sql.Prelude.{String, ◌≡◌, refl, ap, sym, ◌∙◌, List, [], ◌∷◌, ◌++◌}
use django_mcp_sql.Raise.{Exn, Try, returned, raised}
use django_mcp_sql.Models.{HookResult}
use django_mcp_sql.Database.{Db, Value}
use django_mcp_sql.World.{World, Statement, Act, pure, lift, continue, ◌>>=◌, ◌>>◌}
use django_mcp_sql.World.Frames.{Ensures}
use django_mcp_sql.Session.{
  execute, execute_all, guard_statements, recheck, context_statements, enter_readonly_session,
}
use django_mcp_sql.Executor.Audit.{Env, Request}
use django_mcp_sql.Executor.Reading.{enter_database, fetch_rows, leave_database, read_rows}

-- A part of the plan, from its first statement on.
abbrev pub Begun : {C : Type 0} → List Statement → World C → World C → Type 0
Begun plan a b =
    (done : List Statement) × (rest : List Statement) × (b.executed ≡ a.executed ++ done)
    × (done ++ rest ≡ plan)

-- The whole plan was sent, or an exception ended it somewhere.
abbrev pub Sends : {C A : Type 0} → List Statement → World C → Try A → World C → Type 0
Sends plan a (returned r) b = b.executed ≡ a.executed ++ plan
Sends plan a (raised e) b = Begun plan a b

pub append_nil {ℓ} : {A : Type ℓ} (l : List A) → l ++ [] ≡ l
append_nil [] = refl
append_nil (x ∷ l) = ap (λ t. x ∷ t) (append_nil l)

append_assoc {ℓ} : {A : Type ℓ} (k l m : List A) → (k ++ l) ++ m ≡ k ++ (l ++ m)
append_assoc [] l m = refl
append_assoc (x ∷ k) l m = ap (λ t. x ∷ t) (append_assoc k l m)

module _ {C : Type 0} where
  extend :
      (p q : List Statement) (a b c : World C)
      → b.executed ≡ a.executed ++ p
      → c.executed ≡ b.executed ++ q
      → c.executed ≡ a.executed ++ (p ++ q)
  extend p q a b c h k = k ∙ ap (λ l. l ++ q) h ∙ append_assoc a.executed p q

  whole :
      {A : Type 0} (plan : List Statement) (r : Try A) (a b : World C)
      → b.executed ≡ a.executed ++ plan
      → Sends plan a r b
  whole plan (returned r) a b h = h
  whole plan (raised e) a b h = (plan, [], h, append_nil plan)

  Sends-quiet :
      {A : Type 0} (m : Act C A)
      → ((w : World C) → (m w).1.executed ≡ w.executed)
      → Ensures (Sends []) m
  Sends-quiet m h = record {
    at = λ w. whole [] (m w).0 w (m w).1 (h w ∙ sym (append_nil w.executed));
  }

  Sends-late :
      {B : Type 0} (p q : List Statement) (r : Try B) (a b c : World C)
      → b.executed ≡ a.executed ++ p
      → Sends q b r c
      → Sends (p ++ q) a r c
  Sends-late p q (returned r) a b c h k = extend p q a b c h k
  Sends-late p q (raised e) a b c h (done, rest, k, s) =
      (p ++ done, rest, extend p done a b c h k, append_assoc p done rest ∙ ap (λ l. p ++ l) s)

  Sends-after :
      {A B : Type 0} (p q : List Statement) (r : Try A) (f : A → Act C B) (a b : World C)
      → Sends p a r b
      → ((x : A) → Ensures (Sends q) (f x))
      → Sends (p ++ q) a (continue r f b).0 (continue r f b).1
  Sends-after p q (returned x) f a b h k = Sends-late p q (f x b).0 a b (f x b).1 h ((k x).at b)
  Sends-after p q (raised e) f a b (done, rest, h, s) k =
      (done, rest ++ q, h, sym (append_assoc done rest q) ∙ ap (λ l. l ++ q) s)

  Sends-bind :
      {A B : Type 0} (p q : List Statement) (m : Act C A) (f : A → Act C B)
      → Ensures (Sends p) m
      → ((x : A) → Ensures (Sends q) (f x))
      → Ensures (Sends (p ++ q)) (m >>= f)
  Sends-bind p q m f h k = record { at = λ w. Sends-after p q (m w).0 f w (m w).1 (h.at w) k }

module _ {C : Type 0} (db : Db) where
  execute-Sends : (s : Statement) → Ensures (Sends {C = C} (s ∷ [])) (execute db s)
  unfolding execute
  execute-Sends s = record { at = λ w. whole (s ∷ []) (db.execute w.executed s) w _ refl }

  execute_all-Sends : (l : List Statement) → Ensures (Sends {C = C} l) (execute_all db l)
  unfolding execute_all
  execute_all-Sends [] = Sends-quiet (pure tt) (λ w. refl)
  execute_all-Sends (s ∷ rest) =
      Sends-bind (s ∷ []) rest (execute db s) (λ u. execute_all db rest) (execute-Sends s)
        (λ u. execute_all-Sends rest)

  -- What is sent, by the statements of the code.
  pub entering-Sends :
      (role : String) (context : HookResult)
      → Ensures
          (Sends {C = C} (guard_statements role ++ context_statements context))
          (enter_readonly_session db role context)
  unfolding enter_readonly_session
  entering-Sends role context =
      Sends-bind (guard_statements role) (context_statements context)
        (execute_all db (guard_statements role))
        (λ u. lift (recheck context) >> execute_all db (context_statements context))
        (execute_all-Sends (guard_statements role))
        (λ u.
          Sends-bind [] (context_statements context) (lift (recheck context))
            (λ u. execute_all db (context_statements context))
            (Sends-quiet (lift (recheck context)) (λ w. refl))
            (λ u. execute_all-Sends (context_statements context)))

abbrev pub query_plan : String → HookResult → String → List Statement
query_plan role context wrapped =
    (guard_statements role ++ context_statements context)
    ++ record { sql = wrapped; params = [] } ∷ []

module _ {Node C : Type 0} (env : Env Node C) (req : Request) where
  pub read_rows-Sends :
      (wrapped : String) (context : HookResult)
      → Ensures
          (Sends (query_plan req.profile.role context wrapped))
          (read_rows env req wrapped context)
  unfolding read_rows enter_database fetch_rows leave_database
  read_rows-Sends wrapped context =
      let query : Statement = record { sql = wrapped; params = [] } in
      let session = guard_statements req.profile.role ++ context_statements context in
      let fetch : Act C (List (List Value) × List String) =
        fetch_rows env req >>= leave_database env req in
      Sends-bind [] (session ++ query ∷ []) (enter_database env req)
        (λ u.
          enter_readonly_session env.db req.profile.role context >> (execute env.db query >> fetch))
        (Sends-quiet (enter_database env req) (λ w. refl))
        (λ u.
          Sends-bind session (query ∷ []) (enter_readonly_session env.db req.profile.role context)
            (λ u. execute env.db query >> fetch) (entering-Sends env.db req.profile.role context)
            (λ u.
              Sends-bind (query ∷ []) [] (execute env.db query) (λ u. fetch)
                (execute-Sends env.db query)
                (λ u.
                  Sends-bind [] [] (fetch_rows env req) (leave_database env req)
                    (Sends-quiet (fetch_rows env req) (λ w. refl))
                    (λ rows. Sends-quiet (leave_database env req rows) (λ w. refl)))))
