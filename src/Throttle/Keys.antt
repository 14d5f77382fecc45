-- ===== src/Throttle/Keys.antt =====
-- throttle.py: the keys of the counters tell the scopes and the addresses apart.
use Prim.Native.Char.{code}
use Prim.Native.String
use Prim.Native.String.append
use text.Mathlib.TextLemmas.{append-nil}
use django_mcp_sql.Prelude.{
  String, ◌≡◌, refl, sym, ap, ◌∙◌, ◌⊎◌, inl, inr, some, [], ◌∷◌, Bool, true, false, ◌==◌, str_eq,
  eq_iff, false_of_not, format,
}
use django_mcp_sql.Session.{after}
use django_mcp_sql.Consts.Recognised.{after-append}
use django_mcp_sql.Throttle.{ip_key}

-- The two scopes that the package counts under.
abbrev pub IsScope : String → Type 0
IsScope scope = (scope ≡ "bad_token") ⊎ (scope ≡ "register")

cancel : (p x y : String) → String.◌++◌ p x ≡ String.◌++◌ p y → x ≡ y
cancel p x y h =
    let same : some x ≡ some y =
      sym (after-append p x) ∙ ap (λ t. after p t) h ∙ after-append p y in
    cc

starts_with_b : String → Bool
starts_with_b String.[] = false
starts_with_b (String.◌∷◌ c s) = code c == b'b'

no_clash : (x y : String) → String.◌++◌ "bad_token" x ≡ String.◌++◌ "register" y → ⊥
unfolding starts_with_b
no_clash x y h =
    let b : starts_with_b (String.◌++◌ "bad_token" x) ≡ true =
      rw (append.cons "b" "ad_token" x) refl in
    let r : starts_with_b (String.◌++◌ "register" y) ≡ false =
      rw (append.cons "r" "egister" y) refl in
    let e : true ≡ false = sym b ∙ ap starts_with_b h ∙ r in cc

abbrev behind : String → String
behind ip = format (":ip:" ∷ ip ∷ [])

ip_key-scope :
    (scope scope' ip ip' : String)
    → ip_key scope ip ≡ ip_key scope' ip'
    → String.◌++◌ scope (behind ip) ≡ String.◌++◌ scope' (behind ip')
unfolding ip_key format
ip_key-scope scope scope' ip ip' h = cancel "mcp_sql:" _ _ h

behind-inj : (ip ip' : String) → behind ip ≡ behind ip' → ip ≡ ip'
unfolding format
behind-inj ip ip' h = sym (append-nil ip) ∙ cancel ":ip:" _ _ h ∙ append-nil ip'

-- Two counters of the package with the same key are of one scope and of one address.
ip_key-inj :
    (scope scope' ip ip' : String)
    → IsScope scope
    → IsScope scope'
    → ip_key scope ip ≡ ip_key scope' ip'
    → (scope ≡ scope') × (ip ≡ ip')
ip_key-inj scope scope' ip ip' s s' h =
    let k = ip_key-scope scope scope' ip ip' h in
    elim s [
      | inl a ↦ elim s' [
        | inl b ↦
            let e : scope ≡ scope' = a ∙ sym b in
            (e, behind-inj ip ip' (cancel scope' _ _ (rw e at k)))
        | inr b ↦ absurd (no_clash (behind ip) (behind ip') (rw (a, b) at k))
      ]
      | inr a ↦ elim s' [
        | inr b ↦
            let e : scope ≡ scope' = a ∙ sym b in
            (e, behind-inj ip ip' (cancel scope' _ _ (rw e at k)))
        | inl b ↦ absurd (no_clash (behind ip') (behind ip) (sym (rw (a, b) at k)))
      ]
    ]

pub ip_key-differs :
    (scope scope' ip ip' : String)
    → IsScope scope
    → IsScope scope'
    → ¬ ((scope ≡ scope') × (ip ≡ ip'))
    → str_eq (ip_key scope ip) (ip_key scope' ip') ≡ false
ip_key-differs scope scope' ip ip' s s' n =
    false_of_not (str_eq (ip_key scope ip) (ip_key scope' ip')) (λ h.
      n (ip_key-inj scope scope' ip ip' s s' ((eq_iff (ip_key scope ip) (ip_key scope' ip')).0 h)))
