-- ===== src/Relayer/Scan/Triple.antt =====
-- Conditions before and after the steps of a scan: `before` the step, `thrown` where it throws and
-- `after` where it returns.
use anti_soon.Prelude.{
  ◌≡◌, refl, Bool, true, false, Option, Result, ok, err, List, [], ◌∷◌, if◌then◌else◌,
}
use anti_soon.Relayer.CursorState.{Session, StoreError}
use anti_soon.Relayer.Keys.{KeyError}
use anti_soon.Relayer.RetryPolicy.Errors.{Thrown}
use anti_soon.Relayer.Scan.{
  ScanError, runtime_error, key_error, World, Scan, pure, throw, resume, ◌>>=◌, ◌>>◌, from_runtime,
  from_store, ask, attempt, call, key_or_throw, gets, update, modify, store_call, for_each,
}

abbrev pub Outcome :
    {E A : Type 0}
    → (ScanError → World E → Type 0)
    → (A → World E → Type 0)
    → Result ScanError A
    → World E
    → Type 0
Outcome thrown after (ok a) w = after a w
Outcome thrown after (err e) w = thrown e w

module _ {E : Type 0} (thrown : ScanError → World E → Type 0) where
  pub record Ends (before : World E → Type 0) {A : Type 0} (after : A → World E → Type 0)
      (m : Scan E A) : Type 0 where
    pub ends : (w : World E) → before w → Outcome thrown after (m w).0 (m w).1

  pub bind-Ends :
      {A B : Type 0} {m : Scan E A} {f : A → Scan E B} {before : World E → Type 0}
      {after : A → World E → Type 0} {final : B → World E → Type 0}
      → Ends before after m
      → ((a : A) → Ends (after a) final (f a))
      → Ends before final (m >>= f)
  unfolding ◌>>=◌ resume
  bind-Ends {A} {B} {m} {f} {before} {after} {final} hm hf = record {
    ends = λ w h. go w (m w).0 (hm.ends w h);
  }
    where
      go :
          (w : World E) (r : Result ScanError A)
          → Outcome thrown after r (m w).1
          → Outcome thrown final (resume f r (m w).1).0 (resume f r (m w).1).1
      go w (ok a) h = (hf a).ends (m w).1 h
      go w (err e) h = h

  pub then-Ends :
      {A B : Type 0} {m : Scan E A} {n : Scan E B} {before middle : World E → Type 0}
      {final : B → World E → Type 0}
      → Ends before (λ _. middle) m
      → Ends middle final n
      → Ends before final (m >> n)
  unfolding ◌>>◌
  then-Ends hm hn = bind-Ends hm (λ _. hn)

  -- what holds after a step that returns, weakened
  pub imply-Ends :
      {A : Type 0} {m : Scan E A} {before : World E → Type 0} {after final : A → World E → Type 0}
      → ((a : A) (w : World E) → after a w → final a w)
      → Ends before after m
      → Ends before final m
  imply-Ends {A} {m} {before} {after} {final} f h = record {
    ends = λ w k. go (m w).0 (m w).1 (h.ends w k);
  }
    where
      go :
          (r : Result ScanError A) (w : World E)
          → Outcome thrown after r w
          → Outcome thrown final r w
      go (ok a) w k = f a w k
      go (err e) w k = k

  -- a fact that holds before the step, whatever the world, is a hypothesis
  pub and-Ends :
      {A : Type 0} {m : Scan E A} {fact : Type 0} {before : World E → Type 0}
      {after : A → World E → Type 0}
      → (fact → Ends before after m)
      → Ends (λ w. fact × before w) after m
  and-Ends h = record { ends = λ w k. (h k.0).ends w k.1 }

  pub if-Ends :
      {A : Type 0} (b : Bool) {m n : Scan E A} {before : World E → Type 0}
      {after : A → World E → Type 0}
      → (b ≡ true → Ends before after m)
      → (b ≡ false → Ends before after n)
      → Ends before after (if b then m else n)
  if-Ends true hm hn = hm refl
  if-Ends false hm hn = hn refl

  pub for_each-Ends :
      {A S : Type 0} {body : A → S → Scan E S} (keeps : S → World E → Type 0)
      → ((a : A) (s : S) → Ends (keeps s) keeps (body a s))
      → (l : List A) (s : S) → Ends (keeps s) keeps (for_each body l s)
  unfolding for_each pure
  for_each-Ends keeps h [] s = record { ends = λ w k. k }
  for_each-Ends keeps h (x ∷ xs) s = bind-Ends (h x s) (λ s'. for_each-Ends keeps h xs s')

  -- what holds before a step, strengthened
  pub weaken-Ends :
      {A : Type 0} {m : Scan E A} {before first : World E → Type 0} {after : A → World E → Type 0}
      → ((w : World E) → first w → before w)
      → Ends before after m
      → Ends first after m
  weaken-Ends f h = record { ends = λ w k. h.ends w (f w k) }

  module _ (before : World E → Type 0) where
    pub pure-Ends :
        {A : Type 0} {after : A → World E → Type 0} (a : A)
        → ((w : World E) → before w → after a w)
        → Ends before after (pure a)
    unfolding pure
    pure-Ends a h = record { ends = h }

    pub throw-Ends :
        {A : Type 0} {after : A → World E → Type 0} (e : ScanError)
        → ((w : World E) → before w → thrown e w)
        → Ends before after (throw e)
    unfolding throw
    throw-Ends e h = record { ends = h }

    pub ask-Ends :
        {A : Type 0} {after : A → World E → Type 0} (f : E → Result Thrown A × E)
        → ((w : World E) (a : A)
            → (f w.env).0 ≡ ok a
            → before w
            → after a (record w { env = (f w.env).1 }))
        → ((w : World E) (t : Thrown)
            → before w
            → thrown (runtime_error t) (record w { env = (f w.env).1 }))
        → Ends before after (ask f)
    unfolding ask
    ask-Ends {A} {after} f h g = record { ends = λ w k. go w k (f w.env).0 refl }
      where
        go :
            (w : World E)
            → before w
            → (r : Result Thrown A) → (f w.env).0 ≡ r
            → Outcome thrown after (from_runtime r) (record w { env = (f w.env).1 })
        go w k (ok a) p = h w a p k
        go w k (err t) p = g w t k

    pub attempt-Ends :
        {A : Type 0} {after : Option A → World E → Type 0} (f : E → Result Thrown A × E)
        → ((w : World E) (o : Option A) → before w → after o (record w { env = (f w.env).1 }))
        → Ends before after (attempt f)
    unfolding attempt
    attempt-Ends f h = record { ends = λ w k. h w _ k }

    pub call-Ends :
        {A : Type 0} {after : A → World E → Type 0} (f : E → A × E)
        → ((w : World E) → before w → after (f w.env).0 (record w { env = (f w.env).1 }))
        → Ends before after (call f)
    unfolding call
    call-Ends f h = record { ends = h }

    pub gets-Ends :
        {A : Type 0} {after : A → World E → Type 0} (f : Session → A)
        → ((w : World E) → before w → after (f w.session) w)
        → Ends before after (gets f)
    unfolding gets
    gets-Ends f h = record { ends = h }

    pub update-Ends :
        {A : Type 0} {after : A → World E → Type 0} (f : Session → Session × A)
        → ((w : World E)
            → before w
            → after (f w.session).1 (record w { session = (f w.session).0 }))
        → Ends before after (update f)
    unfolding update
    update-Ends f h = record { ends = h }

    pub modify-Ends :
        {after : World E → Type 0} (f : Session → Session)
        → ((w : World E) → before w → after (record w { session = f w.session }))
        → Ends before (λ _. after) (modify f)
    unfolding modify
    modify-Ends f h = record { ends = h }

    pub key-Ends :
        {A : Type 0} (r : Result KeyError A)
        → ((w : World E) (e : KeyError) → before w → thrown (key_error e) w)
        → Ends before (λ _. before) (key_or_throw r)
    unfolding key_or_throw
    key-Ends (ok a) h = pure-Ends a (λ w k. k)
    key-Ends (err e) h = throw-Ends (key_error e) (λ w. h w e)

    pub store_call-Ends :
        {A : Type 0} {after : A → World E → Type 0} (f : Session → Result StoreError A × Session)
        → ((w : World E)
            → before w
            → Outcome thrown after
                (from_store (f w.session).0)
                (record w { session = (f w.session).1 }))
        → Ends before after (store_call f)
    unfolding store_call
    store_call-Ends f h = record { ends = h }

-- nothing is asked of the throws
abbrev pub Anyhow : {E : Type 0} → ScanError → World E → Type 0
Anyhow e w = Unit

-- every step ends somehow
pub any-Ends :
    {E A : Type 0} {before : World E → Type 0} (m : Scan E A)
    → Ends Anyhow before (λ _ _. Unit {0}) m
any-Ends {E} {A} m = record { ends = λ w k. go (m w).0 (m w).1 }
  where
    go : (r : Result ScanError A) (w : World E) → Outcome Anyhow (λ _ _. Unit {0}) r w
    go (ok a) w = tt
    go (err e) w = tt
