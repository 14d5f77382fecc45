-- ===== src/Observability/Alerts.antt =====
-- observability.py: the counters of a user, and when they alert.
use django_mcp_sql.Prelude.{
  ℕ, ◌+◌, String, ◌≡◌, refl, ap, sym, ◌∙◌, inl, inr, List, [], ◌∷◌, ◌++◌, ◌==◌, str_eq, eq_iff,
  if◌then◌else◌, Bool-cases, arith,
}
use django_mcp_sql.Raise.{Try, returned, raised}
use django_mcp_sql.Caching.{Cache, or_else, IsReliable}
use django_mcp_sql.World.{World, error, continue}
use django_mcp_sql.Throttle.Counting.{
  append_nil, count_of, bumped, seed_and_bump-result, bumped-view, bumped-others,
}
use django_mcp_sql.Observability.{volume_key, tripwire, alert_at, count_window, record_query_volume}

module _ {C : Type 0} (k : Cache C) where
  -- How many of the windows count under the key.
  abbrev pub hits : String → ℕ → List (ℕ × ℕ) → String → ℕ
  hits decision user_id [] key = 0
  hits decision user_id ((window, threshold) ∷ rest) key =
      (if str_eq (volume_key decision window user_id) key then 1 else 0)
      + hits decision user_id rest key

  -- One window: no exception, one more under its key, and an alert exactly at the threshold.
  pub record Ticked (key : String) (threshold : ℕ) (message : ℕ → String) (w : World C)
      (r : Try (Unit {0})) (w' : World C) : Type 0 where
    pub fine : r ≡ returned tt
    pub counts : (j : String) → count_of k w' j ≡ count_of k w j + (if str_eq key j then 1 else 0)
    pub logs :
        w'.logs
        ≡ w.logs
          ++ (if count_of k w key + 1 == threshold
              then error (message (count_of k w key + 1)) ∷ []
              else [])

  module _ (t : IsReliable k) where
    bumped-counts :
        (w : World C) (key : String) (window : ℕ) (j : String)
        → or_else (k.view (bumped k t w.cache key window) j) 0
          ≡ count_of k w j + (if str_eq key j then 1 else 0)
    bumped-counts w key window j = elim (Bool-cases (str_eq key j)) [
      | inl same ↦
          let e : key ≡ j = (eq_iff key j).0 same in
          let one = bumped-view k t w.cache key window in
          rw same (
            ap (λ o. or_else o 0) (ap (λ v. k.view (bumped k t w.cache key window) v) (sym e) ∙ one)
            ∙ ap (λ v. count_of k w v + 1) e)
      | inr other ↦ rw (other, bumped-others k t w.cache key window j other) (omega arith)
    ]

    alert :
        (user_id : ℕ) (label decision : String) (window threshold n : ℕ) (w : World C)
        → alert_at k user_id label decision window threshold n w ≡ (
          returned tt,
          record w {
            logs =
                w.logs
                ++ (if n == threshold
                    then error (tripwire k user_id label decision n window threshold) ∷ []
                    else []);
          },
        )
    unfolding alert_at
    alert user_id label decision window threshold n w = elim (Bool-cases (n == threshold)) [
      | inl hit ↦ rw hit
      | inr miss ↦ rw (miss, append_nil w.logs)
    ]

    -- Where the cache is reliable, one window of one query: nothing is raised, the counter of the window and of no other key goes up
    -- by one, and the tripwire is logged exactly if it reaches the threshold.
    pub count_window-Ticked :
        (user_id : ℕ) (label decision : String) (window threshold : ℕ) (w : World C)
        → let (r, w') = count_window k user_id label decision window threshold w in
          Ticked
            (volume_key decision window user_id)
            threshold
            (λ n. tripwire k user_id label decision n window threshold)
            w
            r
            w'
    unfolding count_window
    count_window-Ticked user_id label decision window threshold w =
        let key : String = volume_key decision window user_id in
        rw
          (
            seed_and_bump-result k t key window w,
            alert user_id label decision window threshold (count_of k w key + 1)
                (record w { cache = bumped k t w.cache key window }),
          )
          (record { fine = refl; counts = bumped-counts w key window; logs = refl })

    step_on :
        (windows : List (ℕ × ℕ)) (user_id : ℕ) (decision label : String) (r : Try (Unit {0}))
        (w' : World C)
        → r ≡ returned tt
        → continue r (λ u. record_query_volume k windows user_id decision label) w'
          ≡ record_query_volume k windows user_id decision label w'
    step_on windows user_id decision label (returned u) w' h = refl
    step_on windows user_id decision label (raised e) w' h = cc

    -- Where the cache is reliable, one query: nothing is raised, and each counter goes up by the number of configured windows that
    -- count under its key.
    pub record_query_volume-counts :
        (windows : List (ℕ × ℕ)) (user_id : ℕ) (decision label : String) (w : World C) (j : String)
        → ((record_query_volume k windows user_id decision label w).0 ≡ returned tt)
          × (count_of k (record_query_volume k windows user_id decision label w).1 j
              ≡ count_of k w j + hits decision user_id windows j)
    unfolding record_query_volume
    record_query_volume-counts [] user_id decision label w j = (refl, omega arith)
    record_query_volume-counts ((window, threshold) ∷ rest) user_id decision label w j =
        let first = count_window-Ticked user_id label decision window threshold w in
        let w' = (count_window k user_id label decision window threshold w).1 in
        let (fine, counts) = record_query_volume-counts rest user_id decision label w' j in
        rw
          (step_on rest user_id decision label
            (count_window k user_id label decision window threshold w).0 w' first.fine)
          (fine, counts ∙ omega (arith, first.counts j))
