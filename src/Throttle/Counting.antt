-- ===== src/Throttle/Counting.antt =====
-- throttle.py: the counter of an address over a run of attempts.
use django_mcp_sql.Prelude.{
  ℕ, zero, suc, ◌+◌, String, ◌≡◌, refl, ap, sym, ◌∙◌, inl, inr, Bool, true, false, some, List, [],
  ◌∷◌, ◌++◌, leb, ltb, ◌==◌, ◌&&◌, length, length-append, str_eq, eq_iff, if◌then◌else◌, Bool-cases,
  arith,
}
use django_mcp_sql.Raise.{Try, returned}
use django_mcp_sql.Caching.{Cache, or_else, IsReliable}
use django_mcp_sql.World.{World, LogEntry, warning}
use django_mcp_sql.Throttle.Keys.{IsScope, ip_key-differs}
use django_mcp_sql.Throttle.{
  ip_key, is_ip_blocked, seed, bump, seed_and_bump, engaged, record_attempt, report_crossing,
  blocked_by,
}

pub append_nil {ℓ} : {A : Type ℓ} (l : List A) → l ++ [] ≡ l
append_nil [] = refl
append_nil (x ∷ l) = ap (λ t. x ∷ t) (append_nil l)

module _ {C : Type 0} (k : Cache C) where
  abbrev pub count_of : World C → String → ℕ
  count_of w key = or_else (k.view w.cache key) 0

  -- What one attempt does to the counter, to the other keys, and to the log.
  pub record Counted (key : String) (threshold : ℕ) (message : ℕ → String) (w : World C) (r : Try ℕ)
      (w' : World C) : Type 0 where
    pub count : r ≡ returned (count_of w key + 1)
    pub counter : count_of w' key ≡ count_of w key + 1
    pub others : (j : String) → str_eq key j ≡ false → k.view w'.cache j ≡ k.view w.cache j
    pub logs :
        w'.logs
        ≡ w.logs
          ++ (if count_of w key + 1 == threshold
              then warning (message (count_of w key + 1)) ∷ []
              else [])

  module _ (t : IsReliable k) where
    same_key : (key : String) → str_eq key key ≡ true
    same_key key = (eq_iff key key).1 refl

    seeded :
        (c : C) (key : String) (window : ℕ)
        → k.view (k.add c key 0 window).1 key ≡ some (or_else (k.view c key) 0)
    seeded c key window = rw (t.add_view c key 0 window key, same_key key) refl

    pub bumped : (c : C) (key : String) (window : ℕ) → C
    bumped c key window = (k.incr (k.add c key 0 window).1 key).1

    pub seed_and_bump-result :
        (key : String) (window : ℕ) (w : World C)
        → seed_and_bump k key window w
          ≡ (returned (count_of w key + 1), record w { cache = bumped w.cache key window })
    unfolding seed_and_bump seed bump bumped
    seed_and_bump-result key window w = rw (
      t.add_result w.cache key 0 window,
      t.incr_result (k.add w.cache key 0 window).1 key (count_of w key) (seeded w.cache key window),
    )

    pub bumped-view :
        (c : C) (key : String) (window : ℕ)
        → k.view (bumped c key window) key ≡ some (or_else (k.view c key) 0 + 1)
    unfolding bumped
    bumped-view c key window =
        rw
          (
            t.incr_view (k.add c key 0 window).1 key (or_else (k.view c key) 0) key
                (seeded c key window),
            same_key key,
          )
          refl

    pub bumped-others :
        (c : C) (key : String) (window : ℕ) (j : String)
        → str_eq key j ≡ false
        → k.view (bumped c key window) j ≡ k.view c j
    unfolding bumped
    bumped-others c key window j other =
        rw
          (
            t.incr_view (k.add c key 0 window).1 key (or_else (k.view c key) 0) j
                (seeded c key window),
            other,
            t.add_view c key 0 window j,
            other,
          )
          refl

    report :
        (ip scope : String) (window threshold n : ℕ) (w : World C)
        → report_crossing k scope ip window threshold n w ≡ (
          returned n,
          record w {
            logs =
                w.logs
                ++ (if n == threshold
                    then warning (engaged k scope ip n threshold window) ∷ []
                    else []);
          },
        )
    unfolding report_crossing
    report ip scope window threshold n w = elim (Bool-cases (n == threshold)) [
      | inl hit ↦ rw hit
      | inr miss ↦ rw (miss, append_nil w.logs)
    ]

    -- One attempt returns the new count, adds one to the counter of its address and scope, leaves the
    -- other keys as they were, and writes the warning exactly if the new count is the threshold.
    pub record_attempt-Counted :
        (ip scope : String) (window threshold : ℕ) (w : World C)
        → let (r, w') = record_attempt k ip scope window threshold w in
          Counted (ip_key scope ip) threshold (λ n. engaged k scope ip n threshold window) w r w'
    unfolding record_attempt
    record_attempt-Counted ip scope window threshold w =
        let key : String = ip_key scope ip in
        rw
          (
            seed_and_bump-result key window w,
            report ip scope window threshold (count_of w key + 1)
                (record w { cache = bumped w.cache key window }),
          )
          (record {
            count = refl;
            counter = rw (bumped-view w.cache key window) refl;
            others = bumped-others w.cache key window;
            logs = refl;
          })

    -- The state behind a number of attempts from one address.
    pub after_attempts : String → String → ℕ → ℕ → ℕ → World C → World C
    after_attempts ip scope window threshold zero w = w
    after_attempts ip scope window threshold (suc n) w =
        after_attempts ip scope window threshold n (record_attempt k ip scope window threshold w).1

    -- The number of warnings that a counter gives on its way from `low` to `high`.
    abbrev pub crossings : ℕ → ℕ → ℕ → ℕ
    crossings threshold low high = if ltb low threshold && leb threshold high then 1 else 0

    pub record Window (ip scope : String) (threshold n : ℕ) (w w' : World C) : Type 0 where
      pub blocked :
          (is_ip_blocked k ip scope threshold w').0
          ≡ returned (leb threshold (count_of w (ip_key scope ip) + n))
      pub warnings :
          length w'.logs
          ≡ length w.logs
            + crossings threshold (count_of w (ip_key scope ip)) (count_of w (ip_key scope ip) + n)
      pub untouched :
          (j : String) → str_eq (ip_key scope ip) j ≡ false → k.view w'.cache j ≡ k.view w.cache j
      pub apart :
          (other_ip other_scope : String) (limit : ℕ)
          → IsScope scope
          → IsScope other_scope
          → ¬ ((scope ≡ other_scope) × (ip ≡ other_ip))
          → (is_ip_blocked k other_ip other_scope limit w').0
            ≡ (is_ip_blocked k other_ip other_scope limit w).0

    pub blocked_now :
        (ip scope : String) (threshold : ℕ) (w : World C)
        → (is_ip_blocked k ip scope threshold w).0
          ≡ returned (leb threshold (count_of w (ip_key scope ip)))
    unfolding is_ip_blocked blocked_by
    blocked_now ip scope threshold w = rw (t.get_view w.cache (ip_key scope ip)) refl

    blocked_at :
        (ip scope : String) (threshold : ℕ) (w : World C) (m : ℕ)
        → count_of w (ip_key scope ip) ≡ m
        → (is_ip_blocked k ip scope threshold w).0 ≡ returned (leb threshold m)
    blocked_at ip scope threshold w m h =
        blocked_now ip scope threshold w ∙ ap (λ n. returned (leb threshold n)) h

    -- Whether an address is blocked depends on its counter only.
    blocked_same :
        (ip scope : String) (threshold : ℕ) (w w' : World C)
        → k.view w'.cache (ip_key scope ip) ≡ k.view w.cache (ip_key scope ip)
        → (is_ip_blocked k ip scope threshold w').0 ≡ (is_ip_blocked k ip scope threshold w).0
    blocked_same ip scope threshold w w' h =
        blocked_at ip scope threshold w' (count_of w (ip_key scope ip)) (ap (λ o. or_else o 0) h)
        ∙ sym (blocked_now ip scope threshold w)

    length-one :
        (b : Bool) (l : List LogEntry) (e : LogEntry)
        → length (l ++ (if b then e ∷ [] else [])) ≡ length l + (if b then 1 else 0)
    length-one true l e = length-append l (e ∷ [])
    length-one false l e = length-append l []

    crossings-suc :
        (threshold low n : ℕ)
        → (if low + 1 == threshold then 1 else 0) + crossings threshold (low + 1) (low + 1 + n)
          ≡ crossings threshold low (low + suc n)
    crossings-suc threshold low n = ground arith

    crossings-same : (threshold low : ℕ) → crossings threshold low (low + 0) ≡ 0
    crossings-same threshold low = ground arith

    add_warnings :
        (threshold c n : ℕ) (before first_log last_log : ℕ) (m : ℕ)
        → m ≡ c + 1
        → first_log ≡ before + (if c + 1 == threshold then 1 else 0)
        → last_log ≡ first_log + crossings threshold m (m + n)
        → last_log ≡ before + crossings threshold c (c + suc n)
    add_warnings threshold c n before first_log last_log m e h l =
        let l' = rw e at l in omega (arith, crossings-suc threshold c n, l', h)

    -- Where the cache is reliable, after any number of attempts an address is blocked exactly if its count
    -- has reached the threshold; on the way the log has one warning if the count passed the threshold,
    -- and none otherwise; and no other key has changed. For the two scopes of the package, the same
    -- address in the other scope, and any other address in either, is blocked exactly if it was before.
    pub after_attempts-Window :
        (ip scope : String) (window threshold n : ℕ) (w : World C)
        → Window ip scope threshold n w (after_attempts ip scope window threshold n w)
    unfolding after_attempts
    after_attempts-Window ip scope window threshold zero w = record {
      blocked = blocked_at ip scope threshold w _ (omega arith);
      warnings = omega (arith, crossings-same threshold (count_of w (ip_key scope ip)));
      untouched = λ j h. refl;
      apart = λ other_ip other_scope limit s s' n. refl;
    }
    after_attempts-Window ip scope window threshold (suc n) w =
        let step = record_attempt-Counted ip scope window threshold w in
        let next = (record_attempt k ip scope window threshold w).1 in
        let later = after_attempts-Window ip scope window threshold n next in
        record {
          blocked =
              later.blocked ∙ ap (λ m. returned (leb threshold m)) (omega (arith, step.counter));
          warnings =
              add_warnings threshold (count_of w (ip_key scope ip)) n (length w.logs)
                (length next.logs) _ (count_of next (ip_key scope ip)) step.counter
                (ap length step.logs ∙ length-one _ w.logs _) later.warnings;
          untouched = λ j h. later.untouched j h ∙ step.others j h;
          apart = λ other_ip other_scope limit s s' n.
              later.apart other_ip other_scope limit s s' n
              ∙ blocked_same other_ip other_scope limit w next (
                  step.others (ip_key other_scope other_ip)
                    (ip_key-differs scope other_scope ip other_ip s s' n));
        }
