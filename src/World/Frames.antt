-- ===== src/World/Frames.antt =====
-- Rules for actions: what they leave alone, and what holds when they are through.
use django_mcp_sql.Prelude.{◌≡◌, refl, Bool, true, false, if◌then◌else◌}
use django_mcp_sql.Raise.{Exn, Try, returned, raised}
use django_mcp_sql.World.{World, Act, pure, raise, lift, settle, ◌>>=◌, try_else}

-- `m` moves the world along `K`, whether it returns or raises.
pub record Moves {C A : Type 0} (K : World C → World C → Type 0) (m : Act C A) : Type 0 where
  pub at : (w : World C) → K w (m w).1

-- A relation between an earlier and a later world that parts of a run can be put together by.
pub record IsFrame {C : Type 0} (K : World C → World C → Type 0) : Type 0 where
  pub same : (w : World C) → K w w
  pub then_ : (a b c : World C) → K a b → K b c → K a c

module _ {C : Type 0} {K : World C → World C → Type 0} (fr : IsFrame K) where
  pub Moves-pure : {A : Type 0} (a : A) → Moves K (pure a)
  Moves-pure a = record { at = fr.same }

  pub Moves-raise : {A : Type 0} (e : Exn) → Moves {A = A} K (raise e)
  Moves-raise e = record { at = fr.same }

  pub Moves-lift : {A : Type 0} (r : Try A) → Moves K (lift r)
  Moves-lift r = record { at = fr.same }

  pub Moves-if :
      {A : Type 0} (b : Bool) (m n : Act C A) → Moves K m → Moves K n → Moves K (if b then m else n)
  Moves-if true m n h k = h
  Moves-if false m n h k = k

  settle-moves :
      {A B : Type 0} (r : Try A) (f : A → Act C B) (h : Exn → Act C B) (w w' : World C)
      → K w w'
      → ((a : A) → Moves K (f a))
      → ((e : Exn) → Moves K (h e))
      → K w (settle r f h w').1
  settle-moves (returned a) f h w w' k kf kh = fr.then_ w w' _ k ((kf a).at w')
  settle-moves (raised e) f h w w' k kf kh = fr.then_ w w' _ k ((kh e).at w')

  pub Moves-try_else :
      {A B : Type 0} (m : Act C A) (f : A → Act C B) (h : Exn → Act C B)
      → Moves K m
      → ((a : A) → Moves K (f a))
      → ((e : Exn) → Moves K (h e))
      → Moves K (try_else m f h)
  Moves-try_else m f h k kf kh = record {
    at = λ w. let (r, w') = m w in settle-moves r f h w w' (k.at w) kf kh;
  }

  bind-moves :
      {A B : Type 0} (r : Try A) (f : A → Act C B) (w w' : World C)
      → K w w'
      → ((a : A) → Moves K (f a))
      → K w ((lift r >>= f) w').1
  bind-moves (returned a) f w w' k kf = fr.then_ w w' _ k ((kf a).at w')
  bind-moves (raised e) f w w' k kf = k

  pub Moves-bind :
      {A B : Type 0} (m : Act C A) (f : A → Act C B)
      → Moves K m
      → ((a : A) → Moves K (f a))
      → Moves K (m >>= f)
  Moves-bind m f k kf = record { at = λ w. let (r, w') = m w in bind-moves r f w w' (k.at w) kf }

-- When `m` is through, `Q` holds of the world before, the result, and the world behind.
pub record Ensures {C A : Type 0} (Q : World C → Try A → World C → Type 0) (m : Act C A)
    : Type 0 where
  pub at : (w : World C) → Q w (m w).0 (m w).1

-- A postcondition that does not see steps along `K` before it.
pub record IsStable {C B : Type 0} (K : World C → World C → Type 0)
    (Q : World C → Try B → World C → Type 0) : Type 0 where
  pub earlier : (a b : World C) (r : Try B) (c : World C) → K a b → Q b r c → Q a r c
  pub of_raise : (a b : World C) (e : Exn) → K a b → Q a (raised e) b

module _ {C B : Type 0} {K : World C → World C → Type 0} {Q : World C → Try B → World C → Type 0}
    (st : IsStable K Q) where
  pub Ensures-if :
      (b : Bool) (m n : Act C B) → Ensures Q m → Ensures Q n → Ensures Q (if b then m else n)
  Ensures-if true m n h k = h
  Ensures-if false m n h k = k

  settle-ensures :
      {A : Type 0} (r : Try A) (f : A → Act C B) (h : Exn → Act C B) (w w' : World C)
      → K w w'
      → ((a : A) → Ensures Q (f a))
      → ((e : Exn) → Ensures Q (h e))
      → Q w (settle r f h w').0 (settle r f h w').1
  settle-ensures (returned a) f h w w' k kf kh = st.earlier w w' _ _ k ((kf a).at w')
  settle-ensures (raised e) f h w w' k kf kh = st.earlier w w' _ _ k ((kh e).at w')

  pub Ensures-try_else :
      {A : Type 0} (m : Act C A) (f : A → Act C B) (h : Exn → Act C B)
      → Moves K m
      → ((a : A) → Ensures Q (f a))
      → ((e : Exn) → Ensures Q (h e))
      → Ensures Q (try_else m f h)
  Ensures-try_else m f h k kf kh = record {
    at = λ w. let (r, w') = m w in settle-ensures r f h w w' (k.at w) kf kh;
  }

  bind-ensures :
      {A : Type 0} (r : Try A) (f : A → Act C B) (w w' : World C)
      → K w w'
      → ((a : A) → Ensures Q (f a))
      → Q w ((lift r >>= f) w').0 ((lift r >>= f) w').1
  bind-ensures (returned a) f w w' k kf = st.earlier w w' _ _ k ((kf a).at w')
  bind-ensures (raised e) f w w' k kf = st.of_raise w w' e k

  pub Ensures-bind :
      {A : Type 0} (m : Act C A) (f : A → Act C B)
      → Moves K m
      → ((a : A) → Ensures Q (f a))
      → Ensures Q (m >>= f)
  Ensures-bind m f k kf = record {
    at = λ w. let (r, w') = m w in bind-ensures r f w w' (k.at w) kf;
  }

  pub Ensures-raise : (fr : IsFrame K) (e : Exn) → Ensures Q (raise e)
  Ensures-raise fr e = record { at = λ w. st.of_raise w w e (fr.same w) }

module _ {C A B : Type 0} {Q : World C → Try B → World C → Type 0} where
  -- `try: a = r` where `r` is computed without an effect: the branches know its value.
  pub Ensures-lift :
      (r : Try A) (f : A → Act C B) (h : Exn → Act C B)
      → ((a : A) → r ≡ returned a → Ensures Q (f a))
      → ((e : Exn) → r ≡ raised e → Ensures Q (h e))
      → Ensures Q (try_else (lift r) f h)
  Ensures-lift (returned a) f h kf kh = record { at = λ w. (kf a refl).at w }
  Ensures-lift (raised e) f h kf kh = record { at = λ w. (kh e refl).at w }

  pub Ensures-lift_bind :
      (r : Try A) (f : A → Act C B)
      → ((a : A) → r ≡ returned a → Ensures Q (f a))
      → ((e : Exn) → r ≡ raised e → Ensures Q (raise e))
      → Ensures Q (lift r >>= f)
  Ensures-lift_bind (returned a) f kf kh = record { at = λ w. (kf a refl).at w }
  Ensures-lift_bind (raised e) f kf kh = record { at = λ w. (kh e refl).at w }

module _ {C B : Type 0} {Q : World C → Try B → World C → Type 0} where
  pub Ensures-weaken :
      {P : World C → Try B → World C → Type 0} {m : Act C B}
      → ((a : World C) (r : Try B) (b : World C) → P a r b → Q a r b)
      → Ensures P m
      → Ensures Q m
  Ensures-weaken weaker h = record { at = λ w. weaker w _ _ (h.at w) }

  pub Ensures-either :
      (b : Bool) (m n : Act C B)
      → (b ≡ true → Ensures Q m)
      → (b ≡ false → Ensures Q n)
      → Ensures Q (if b then m else n)
  Ensures-either true m n h k = h refl
  Ensures-either false m n h k = k refl
