-- ===== src/Raise/Raises.antt =====
-- Which exceptions a call can raise, one rule for each way to build a call.
use django_mcp_sql.Prelude.{◌≡◌, refl, ap, Bool, true, false, List, [], ◌∷◌, if◌then◌else◌}
use django_mcp_sql.Raise.{Exn, Try, returned, raised, ◌>>=◌, ◌>>◌, for_each}

-- Every exception of `m` has the property.
pub record Raises {ℓ} (R : Exn → Type 0) {A : Type ℓ} (m : Try A) : Type ℓ where
  pub at : (e : Exn) → m ≡ raised e → R e

module _ {ℓ} {A : Type ℓ} {R : Exn → Type 0} where
  pub Raises-returned : (a : A) → Raises R (returned a)
  Raises-returned a = record { at = λ e h. cc }

  pub Raises-raised : (e : Exn) → R e → Raises R {A = A} (raised e)
  Raises-raised e r = record { at = λ e' h. let p : e ≡ e' = cc in rw p at r }

  pub Raises-if : (b : Bool) (m n : Try A) → Raises R m → Raises R n → Raises R (if b then m else n)
  Raises-if true m n h k = h
  Raises-if false m n h k = k

module _ {ℓ κ} {A : Type ℓ} {B : Type κ} {R : Exn → Type 0} where
  pub Raises-bind :
      (m : Try A) (f : A → Try B) → Raises R m → ((a : A) → Raises R (f a)) → Raises R (m >>= f)
  Raises-bind (returned a) f h k = k a
  Raises-bind (raised e) f h k = record {
    at = λ e' p. let q : e ≡ e' = cc in h.at e' (ap raised q);
  }

module _ {ℓ} {B : Type ℓ} {R : Exn → Type 0} where
  pub Raises-seq : (m : Try (Unit {0})) (k : Try B) → Raises R m → Raises R k → Raises R (m >> k)
  Raises-seq m k h j = Raises-bind m (λ _. k) h (λ _. j)

module _ {ℓ} {A : Type ℓ} {R : Exn → Type 0} where
  pub Raises-for_each :
      (xs : List A) (body : A → Try (Unit {0}))
      → ((a : A) → Raises R (body a))
      → Raises R (for_each xs body)
  unfolding for_each
  Raises-for_each [] body h = Raises-returned tt
  Raises-for_each (x ∷ xs) body h =
      Raises-seq (body x) (for_each xs body) (h x) (Raises-for_each xs body h)

-- What may be raised may be raised under a weaker property.
pub Raises-weaken {ℓ} :
    {R S : Exn → Type 0} {A : Type ℓ} {m : Try A}
    → ((e : Exn) → R e → S e)
    → Raises R m
    → Raises S m
Raises-weaken f h = record { at = λ e p. f e (h.at e p) }

-- A block that raises an exception which its first part cannot raise has got past that part.
pub past_bind {ℓ κ} :
    {R : Exn → Type 0} {A : Type ℓ} {B : Type κ} (m : Try A) (f : A → Try B) (e : Exn)
    → Raises R m
    → ¬ R e
    → (m >>= f) ≡ raised e
    → (a : A) × (m ≡ returned a) × (f a ≡ raised e)
past_bind (returned a) f e h n p = (a, refl, p)
past_bind (raised e') f e h n p = absurd (n (let q : e' ≡ e = cc in h.at e (ap raised q)))

-- Where the rest of a block cannot raise the exception, the first part has raised it.
pub raised_first {ℓ} :
    {R : Exn → Type 0} {B : Type ℓ} (m : Try (Unit {0})) (k : Try B) (e : Exn)
    → Raises R k
    → ¬ R e
    → (m >> k) ≡ raised e
    → m ≡ raised e
raised_first (returned u) k e h n p = absurd (n (h.at e p))
raised_first (raised e') k e h n p = let q : e' ≡ e = cc in ap raised q

pub ruleset raises_rules =
    (Raises-returned, Raises-raised, Raises-if, Raises-seq, Raises-bind, Raises-for_each)
