-- ===== src/Grants/Reconcile/Moved.antt =====
-- grants.py: what the statements do to the grants.
use django_mcp_sql.Prelude.{
  String, ◌≡◌, refl, sym, ap, ◌∙◌, inl, inr, Bool, true, false, ◌&&◌, ◌||◌, not, List, [], ◌∷◌,
  contains, str_eq, Bool-cases, arith, eq_iff,
}
use django_mcp_sql.Raise.{returned, >>=-eq-returned}
use django_mcp_sql.Grants.Reconcile.{
  Catalog, ProfileDrift, has_one, is_changed, run_all, apply_drift,
}

-- What Postgres documents of these queries and statements. `own g r t` is that the connected user has
-- granted SELECT on the table `t` of the schema `public` to `r` itself, and `foreign g r t` that someone
-- else has; what `r` may read through PUBLIC, through another role or in another schema is neither. The
-- query compares the grantee as a text, and lists both; the statements fold the unquoted role to lower
-- case, take the table from `public`, which is the first schema of the search path, and change the
-- grants of the connected user only.
pub record IsPostgres {G : Type 0} (db : Catalog G) : Type 0 where
  pub fold : String → String
  pub own : G → String → String → Bool
  pub foreign : G → String → String → Bool
  pub select_holds :
      (g : G) (role : String) (l : List String) (t : String)
      → db.select_granted g role ≡ returned l
      → contains l t ≡ (own g role t || foreign g role t)
  pub grant_own :
      (g g' : G) (role table r t : String)
      → db.grant g role table ≡ returned g'
      → own g' r t ≡ (own g r t || (str_eq (fold role) r && str_eq table t))
  pub grant_foreign :
      (g g' : G) (role table r t : String)
      → db.grant g role table ≡ returned g'
      → foreign g' r t ≡ foreign g r t
  pub revoke_own :
      (g g' : G) (role table r t : String)
      → db.revoke g role table ≡ returned g'
      → own g' r t ≡ (own g r t && not (str_eq (fold role) r && str_eq table t))
  pub revoke_foreign :
      (g g' : G) (role table r t : String)
      → db.revoke g role table ≡ returned g'
      → foreign g' r t ≡ foreign g r t

pub contains-cons :
    (y : String) (ys : List String) (x : String)
    → contains (y ∷ ys) x ≡ (str_eq y x || contains ys x)
unfolding contains
contains-cons y ys x = refl

or_step : (h s a b : Bool) → ((h || (s && a)) || (s && b)) ≡ (h || (s && (a || b)))
or_step h s a b = ground arith

and_step : (h s a b : Bool) → ((h && not (s && a)) && not (s && b)) ≡ (h && not (s && (a || b)))
and_step h s a b = ground arith

or_none : (h s : Bool) (t : String) → h ≡ (h || (s && contains [] t))
unfolding contains
or_none h s t = ground arith

and_none : (h s : Bool) (t : String) → h ≡ (h && not (s && contains [] t))
unfolding contains
and_none h s t = ground arith

-- A list that `bool` takes for false has nothing.
contains-none : (l : List String) (t : String) → has_one l ≡ false → contains l t ≡ false
unfolding has_one
contains-none [] t h = unfold contains in refl
contains-none (x ∷ l) t h = cc

both_false : (a b : Bool) → (a || b) ≡ false → (a ≡ false) × (b ≡ false)
both_false false b h = (refl, h)
both_false true b h = cc

untouched : (h s : Bool) → h ≡ ((h || (s && false)) && not (s && false))
untouched h s = ground arith

pub settles :
    (o f w : Bool)
    → (((o || (true && (w && not (o || f)))) && not (true && ((o || f) && not w))) || f) ≡ (w || f)
settles o f w = ground arith

pub left_alone : (h : Bool) → ((h || false) && not false) ≡ h
left_alone h = ground arith

pub same_text : (s : String) → str_eq s s ≡ true
same_text s = (eq_iff s s).1 refl

module _ {G : Type 0} (db : Catalog G) (p : IsPostgres db) where
  -- The grants after a run of statements of one kind for one role.
  granted_all :
      (l : List String) (role : String) (g g' : G) (r t : String)
      → run_all db (λ h table. db.grant h role table) l g ≡ returned g'
      → p.own g' r t ≡ (p.own g r t || (str_eq (p.fold role) r && contains l t))
  unfolding run_all
  granted_all [] role g g' r t h =
      let e : g ≡ g' = cc in
      ap (λ v. p.own v r t) (sym e) ∙ or_none (p.own g r t) (str_eq (p.fold role) r) t
  granted_all (x ∷ rest) role g g' r t h =
      let (g1, a, b) =
        >>=-eq-returned (db.grant g role x) (run_all db (λ v table. db.grant v role table) rest)
          h in
      rw (granted_all rest role g1 g' r t b, p.grant_own g g1 role x r t a, contains-cons x rest t)
        (or_step (p.own g r t) (str_eq (p.fold role) r) (str_eq x t) (contains rest t))

  revoked_all :
      (l : List String) (role : String) (g g' : G) (r t : String)
      → run_all db (λ h table. db.revoke h role table) l g ≡ returned g'
      → p.own g' r t ≡ (p.own g r t && not (str_eq (p.fold role) r && contains l t))
  unfolding run_all
  revoked_all [] role g g' r t h =
      let e : g ≡ g' = cc in
      ap (λ v. p.own v r t) (sym e) ∙ and_none (p.own g r t) (str_eq (p.fold role) r) t
  revoked_all (x ∷ rest) role g g' r t h =
      let (g1, a, b) =
        >>=-eq-returned (db.revoke g role x) (run_all db (λ v table. db.revoke v role table) rest)
          h in
      rw (revoked_all rest role g1 g' r t b, p.revoke_own g g1 role x r t a, contains-cons x rest t)
        (and_step (p.own g r t) (str_eq (p.fold role) r) (str_eq x t) (contains rest t))

  granted_all-foreign :
      (l : List String) (role : String) (g g' : G) (r t : String)
      → run_all db (λ h table. db.grant h role table) l g ≡ returned g'
      → p.foreign g' r t ≡ p.foreign g r t
  unfolding run_all
  granted_all-foreign [] role g g' r t h = let e : g ≡ g' = cc in ap (λ v. p.foreign v r t) (sym e)
  granted_all-foreign (x ∷ rest) role g g' r t h =
      let (g1, a, b) =
        >>=-eq-returned (db.grant g role x) (run_all db (λ v table. db.grant v role table) rest)
          h in
      granted_all-foreign rest role g1 g' r t b ∙ p.grant_foreign g g1 role x r t a

  revoked_all-foreign :
      (l : List String) (role : String) (g g' : G) (r t : String)
      → run_all db (λ h table. db.revoke h role table) l g ≡ returned g'
      → p.foreign g' r t ≡ p.foreign g r t
  unfolding run_all
  revoked_all-foreign [] role g g' r t h = let e : g ≡ g' = cc in ap (λ v. p.foreign v r t) (sym e)
  revoked_all-foreign (x ∷ rest) role g g' r t h =
      let (g1, a, b) =
        >>=-eq-returned (db.revoke g role x) (run_all db (λ v table. db.revoke v role table) rest)
          h in
      revoked_all-foreign rest role g1 g' r t b ∙ p.revoke_foreign g g1 role x r t a

  -- What the drift makes of the grants.
  pub record Moved (drift : ProfileDrift) (role : String) (g g' : G) : Type 0 where
    pub of_own :
        (r t : String)
        → p.own g' r t ≡ (
            (p.own g r t || (str_eq (p.fold role) r && contains drift.granted t))
            && not (str_eq (p.fold role) r && contains drift.revoked t))
    pub of_foreign : (r t : String) → p.foreign g' r t ≡ p.foreign g r t

  pub apply_drift-Moved :
      (drift d : ProfileDrift) (role : String) (g g' : G)
      → apply_drift db true drift role g ≡ returned (d, g')
      → (drift ≡ d) × Moved drift role g g'
  unfolding apply_drift is_changed
  apply_drift-Moved drift d role g g' h =
      elim (Bool-cases (has_one drift.granted || has_one drift.revoked)) [
        | inl changed ↦
            let (g1, a, h1) =
              >>=-eq-returned (run_all db (λ v table. db.grant v role table) drift.granted g) _
                (rw changed at h) in
            let (g2, b, h2) =
              >>=-eq-returned (run_all db (λ v table. db.revoke v role table) drift.revoked g1) _
                h1 in
            let e : drift ≡ d = cc (h2) in
            let e2 : g2 ≡ g' = cc (h2) in
            (
              e,
              record {
                of_own = λ r t.
                    revoked_all drift.revoked role g1 g' r t (b ∙ ap (λ v. returned v) e2)
                    ∙ rw (granted_all drift.granted role g g1 r t a) refl;
                of_foreign = λ r t.
                    revoked_all-foreign drift.revoked role g1 g' r t (b ∙ ap (λ v. returned v) e2)
                    ∙ granted_all-foreign drift.granted role g g1 r t a;
              },
            )
        | inr same ↦
            let (no_grant, no_revoke) = both_false _ _ same in
            let pair : returned (drift, g) ≡ returned (d, g') = rw same at h in
            let e : drift ≡ d = cc (pair) in
            let e2 : g ≡ g' = cc (pair) in
            (
              e,
              record {
                of_own = λ r t.
                    ap (λ v. p.own v r t) (sym e2)
                    ∙ rw
                        (
                          contains-none drift.granted t no_grant,
                          contains-none drift.revoked t no_revoke,
                        )
                        (untouched (p.own g r t) (str_eq (p.fold role) r));
                of_foreign = λ r t. ap (λ v. p.foreign v r t) (sym e2);
              },
            )
      ]
