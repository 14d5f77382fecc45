-- ===== src/Raise.antt =====
-- Exceptions as values: what a call returns, or the exception that it raises.
pub mod Raises
use django_mcp_sql.Prelude.{
  String, ◌≡◌, refl, ◌↔◌, Bool, true, false, not, Option, List, [], ◌∷◌, All, if◌then◌else◌,
}
use django_mcp_sql.Outcome.{OutcomeReason}

-- A Django `DatabaseError`: the two places where the SQLSTATE may stand, and `str(exc)`.
pub record DbError : Type 0 where
  pub pgcode : Option String
  pub cause_sqlstate : Option String
  pub message : String

-- The exceptions that the package raises or catches by name; `other_error` is any other.
pub data Exn : Type 0 where
  parse_failure : String → Exn
  recursion_error : Exn
  query_rejected : OutcomeReason → String → Exn
  database_error : DbError → Exn
  executor_misconfigured : String → Exn
  connection_error : Exn
  value_error : String → Exn
  type_error : String → Exn
  authentication_failed : String → Exn
  payload_too_large : Exn
  grants_reconcile_error : String → Exn
  improperly_configured : String → Exn
  import_error : String → Exn
  permission_denied : String → Exn
  other_error : String → Exn

pub data Try {ℓ} (A : Type ℓ) : Type ℓ where
  returned : A → Try A
  raised : Exn → Try A

infixl 5 ◌>>=◌ ◌>>◌
abbrev pub ◌>>=◌ {ℓ κ} : {A : Type ℓ} {B : Type κ} → Try A → (A → Try B) → Try B
returned a >>= f = f a
raised e >>= f = raised e

abbrev pub ◌>>◌ {ℓ} : {B : Type ℓ} → Try (Unit {0}) → Try B → Try B
m >> k = m >>= λ _. k

-- `for x in xs: body(x)`: the first body that raises ends the loop.
unfoldable pub for_each {ℓ} : {A : Type ℓ} → List A → (A → Try (Unit {0})) → Try (Unit {0})
for_each [] body = returned tt
for_each (x ∷ xs) body = body x >> for_each xs body

-- `if test: raise e`
abbrev pub raise_if : Bool → Exn → Try (Unit {0})
raise_if test e = if test then raised e else returned tt

pub raise_if_iff : (test : Bool) (e : Exn) → (raise_if test e ≡ returned tt) ↔ (test ≡ false)
raise_if_iff true e = (λ h. cc, λ h. cc)
raise_if_iff false e = (λ h. refl, λ h. refl)

pub raise_unless_iff :
    (test : Bool) (e : Exn) → (raise_if (not test) e ≡ returned tt) ↔ (test ≡ true)
raise_unless_iff true e = (λ h. refl, λ h. refl)
raise_unless_iff false e = (λ h. cc, λ h. cc)

-- Inversion of a block that returns.
pub >>=-eq-returned {ℓ κ} :
    {A : Type ℓ} {B : Type κ} (m : Try A) (f : A → Try B) {b : B}
    → (m >>= f) ≡ returned b
    → (a : A) × (m ≡ returned a) × (f a ≡ returned b)
>>=-eq-returned (returned a) f h = (a, refl, h)
>>=-eq-returned (raised e) f h = cc

pub seq-eq-returned {ℓ} :
    {B : Type ℓ} (m : Try (Unit {0})) (k : Try B) {b : B}
    → ((m >> k) ≡ returned b) ↔ ((m ≡ returned tt) × (k ≡ returned b))
seq-eq-returned (returned u) k = (λ h. (refl, h), λ h. h.1)
seq-eq-returned (raised e) k = (λ h. cc, λ h. cc)

-- Two parts of a block, each with what its return means.
pub seq_iff {ℓ κ ι} :
    {B : Type ℓ} {P : Type κ} {Q : Type ι} (m : Try (Unit {0})) (k : Try B) {b : B}
    → (m ≡ returned tt) ↔ P
    → (k ≡ returned b) ↔ Q
    → ((m >> k) ≡ returned b) ↔ (P × Q)
seq_iff m k f g = (
  λ h. let (p, q) = (seq-eq-returned m k).0 h in (f.0 p, g.0 q),
  λ h. (seq-eq-returned m k).1 (f.1 h.0, g.1 h.1),
)

-- A loop returns exactly if each of its bodies does.
module _ {ℓ κ} {A : Type ℓ} {P : A → Type κ} (body : A → Try (Unit {0}))
    (meaning : (a : A) → (body a ≡ returned tt) ↔ P a) where
  pub for_each_iff : (xs : List A) → (for_each xs body ≡ returned tt) ↔ All P xs
  unfolding for_each
  for_each_iff [] = (λ h. tt, λ h. refl)
  for_each_iff (x ∷ xs) = (
    λ h.
        let (a, b) = (seq-eq-returned (body x) (for_each xs body)).0 h in
        ((meaning x).0 a, (for_each_iff xs).0 b),
    λ h.
        (seq-eq-returned (body x) (for_each xs body)).1
          ((meaning x).1 h.0, (for_each_iff xs).1 h.1),
  )
