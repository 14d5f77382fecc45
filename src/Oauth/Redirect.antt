-- ===== src/Oauth/Redirect.antt =====
-- oauth.py: which redirect URIs stand under a prefix, and what the validator admits.
use mathlib.Core.Logic.Iff
use django_mcp_sql.Prelude.{
  ℕ, zero, suc, ◌≤◌, String, ◌≡◌, refl, sym, ap, ◌↔◌, ◌⊎◌, inl, inr, true, false, Option, none,
  some, contains, not_contains_iff, Any, str_eq, eq_iff, startswith, ==_iff, Bool-cases, and_iff,
  not_iff, arith,
}
use django_mcp_sql.Urls.{Urls, truthy, split}
use django_mcp_sql.Oauth.{Parsed, port_or_default, anchored, same_host, decoded, is_under}

same_host_iff : (a b : Option String) → (same_host a b ≡ true) ↔ (a ≡ b)
unfolding same_host
same_host_iff none none = (λ h. refl, λ h. refl)
same_host_iff none (some b) = (λ h. cc, λ h. cc)
same_host_iff (some a) none = (λ h. cc, λ h. cc)
same_host_iff (some a) (some b) = (λ h. ap some ((eq_iff a b).0 h), λ h. (eq_iff a b).1 (cc (h)))

module _ (urls : Urls) where
  -- The path under as many decodings.
  abbrev pub unquoted : ℕ → String → String
  unquoted zero path = path
  unquoted (suc n) path = unquoted n (urls.unquote path)

  -- A number of decodings after which another one changes nothing, or the last of five.
  abbrev pub IsSettled : ℕ → ℕ → String → Type 0
  IsSettled n k path = (k ≡ n) ⊎ (urls.unquote (unquoted k path) ≡ unquoted k path)

  fixed-unquoted : (k : ℕ) (path : String) → urls.unquote path ≡ path → unquoted k path ≡ path
  fixed-unquoted zero path h = refl
  fixed-unquoted (suc k) path h = rw h (fixed-unquoted k path h)

  -- The loop that stops early gives the path under that many decodings.
  decoded-unquoted :
      (n k : ℕ) (path : String) → k ≤ n → IsSettled n k path → decoded urls n path ≡ unquoted k path
  unfolding decoded
  decoded-unquoted zero zero path le h = refl
  decoded-unquoted zero (suc k) path le h = absurd (omega arith)
  decoded-unquoted (suc n) zero path le (inl e) = absurd (omega arith)
  decoded-unquoted (suc n) zero path le (inr e) = rw ((eq_iff (urls.unquote path) path).1 e) refl
  decoded-unquoted (suc n) (suc k) path le h = elim (Bool-cases (str_eq (urls.unquote path) path)) [
    | inl same ↦
        let e = (eq_iff (urls.unquote path) path).0 same in
        rw same (sym (rw e (fixed-unquoted k path e)))
    | inr differs ↦ rw differs (
        decoded-unquoted n k (urls.unquote path) (omega arith)
          (elim h [ inl e ↦ inl (omega arith) | inr e ↦ inr e ]))
  ]

  -- There is such a number.
  settles : (n : ℕ) (path : String) → (k : ℕ) × (k ≤ n) × IsSettled n k path
  settles zero path = (zero, omega arith, inl refl)
  settles (suc n) path =
      let (k, le, h) = settles n (urls.unquote path) in
      (suc k, omega arith, elim h [ inl e ↦ inl (ap suc e) | inr e ↦ inr e ])

  -- The redirect URI and the prefix, parsed: https without user info, on the same host and port, below
  -- the path of the prefix at a `/`, and without a `..` however often it is encoded, up to five times.
  pub record IsUnder (p : Parsed) : Type 0 where
    pub https : p.got.scheme ≡ "https"
    pub no_username : truthy p.got.username ≡ false
    pub no_password : truthy p.got.password ≡ false
    pub host : truthy p.got.hostname ≡ true
    pub same_host : p.got.hostname ≡ p.want.hostname
    pub same_port : port_or_default p.got_port ≡ port_or_default p.want_port
    pub layers : ℕ
    pub at_most_five : layers ≤ 5
    pub settled : IsSettled 5 layers p.got.path
    pub no_dots : ¬ Any (λ segment. segment ≡ "..") (split b'/' (unquoted layers p.got.path))
    pub below : startswith p.got.path (anchored p.want.path) ≡ true

  pub is_under_iff : (p : Parsed) → (is_under urls p ≡ true) ↔ IsUnder p
  unfolding is_under
  is_under_iff p =
      let (k, le, settled) = settles 5 p.got.path in
      let (f, g) = and_iff _ _ (eq_iff p.got.scheme "https") (
        and_iff _ _ (not_iff (truthy p.got.username)) (
          and_iff _ _ (not_iff (truthy p.got.password)) (
            and_iff (truthy p.got.hostname) _ Iff.rfl (
              and_iff _ _ (same_host_iff p.got.hostname p.want.hostname) (
                and_iff _ _ (==_iff (port_or_default p.got_port) (port_or_default p.want_port)) (
                  and_iff _ _
                    (Iff.trans (not_iff (contains (split b'/' (decoded urls 5 p.got.path)) ".."))
                      (not_contains_iff (split b'/' (decoded urls 5 p.got.path)) ".."))
                    Iff.rfl)))))) in
      (
        λ h.
            let (https, (user, (password, (host, (same, (port, (dots, below))))))) = f h in
            record {
              https = https;
              no_username = user;
              no_password = password;
              host = host;
              same_host = same;
              same_port = port;
              layers = k;
              at_most_five = le;
              settled = settled;
              no_dots = rw (decoded-unquoted 5 k p.got.path le settled) at dots;
              below = below;
            },
        λ h.
            let dots : ¬ Any (λ segment. segment ≡ "..") (split b'/' (decoded urls 5 p.got.path)) =
              rw (decoded-unquoted 5 h.layers p.got.path h.at_most_five h.settled) h.no_dots in
            g (
              h.https,
              (
                h.no_username,
                (h.no_password, (h.host, (h.same_host, (h.same_port, (dots, h.below))))),
              ),
            ),
      )
