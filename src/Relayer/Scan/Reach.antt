-- ===== src/Relayer/Scan/Reach.antt =====
-- The steps of a scan change the session by operations of the store only.
use anti_soon.Prelude.{
  ◌≡◌, refl, Bool, true, false, Result, ok, err, List, [], ◌∷◌, ◌++◌, if◌then◌else◌,
}
use anti_soon.Relayer.CursorState.{Session, StoreError}
use anti_soon.Relayer.CursorState.Runs.{Op, apply, run}
use anti_soon.Relayer.Keys.{KeyError}
use anti_soon.Relayer.RetryPolicy.Errors.{Thrown}
use anti_soon.Relayer.Scan.{
  ScanError, World, Scan, pure, throw, resume, ◌>>=◌, ◌>>◌, ask, attempt, call, key_or_throw, gets,
  update, modify, store_call, for_each,
}

-- Some operations of the store lead from `s` to `t`.
abbrev pub Reaches : Session → Session → Type 0
Reaches s t = (ops : List Op) × (t ≡ run ops s)

-- A property of sessions that every operation of the store keeps.
abbrev pub IsClosed : (Session → Type 0) → Type 0
IsClosed P = (op : Op) (s : Session) → P s → P (apply op s)

Reaches-snoc :
    (s : Session) (ops : List Op) (op : Op) → apply op (run ops s) ≡ run (ops ++ (op ∷ [])) s
unfolding run
Reaches-snoc s [] op = refl
Reaches-snoc s (o ∷ ops) op = Reaches-snoc (apply o s) ops op

pub Reaches-IsClosed : (s : Session) → IsClosed (Reaches s)
Reaches-IsClosed s op t (ops, e) = (ops ++ (op ∷ []), rw e (Reaches-snoc s ops op))

pub Reaches-refl : (s : Session) → Reaches s s
unfolding run
Reaches-refl s = ([], refl)

module _ {E : Type 0} (P : Session → Type 0) where
  -- The step leaves the session with `P`, whether it throws or not.
  pub record Keeps {A : Type 0} (m : Scan E A) : Type 0 where
    pub keeps : (w : World E) → P w.session → P (m w).1.session

  pub bind-Keeps :
      {A B : Type 0} {m : Scan E A} {f : A → Scan E B}
      → Keeps m
      → ((a : A) → Keeps (f a))
      → Keeps (m >>= f)
  unfolding ◌>>=◌ resume
  bind-Keeps {A} {B} {m} {f} hm hf = record { keeps = λ w h. go w h (m w).0 }
    where
      go : (w : World E) → P w.session → (r : Result ScanError A) → P (resume f r (m w).1).1.session
      go w h (ok a) = (hf a).keeps (m w).1 (hm.keeps w h)
      go w h (err e) = hm.keeps w h

  pub then-Keeps : {A B : Type 0} {m : Scan E A} {n : Scan E B} → Keeps m → Keeps n → Keeps (m >> n)
  unfolding ◌>>◌
  then-Keeps hm hn = bind-Keeps hm (λ _. hn)

  pub pure-Keeps : {A : Type 0} (a : A) → Keeps (pure a)
  unfolding pure
  pure-Keeps a = record { keeps = λ w h. h }

  pub throw-Keeps : {A : Type 0} (e : ScanError) → Keeps (throw {A = A} e)
  unfolding throw
  throw-Keeps e = record { keeps = λ w h. h }

  pub ask-Keeps : {A : Type 0} (f : E → Result Thrown A × E) → Keeps (ask f)
  unfolding ask
  ask-Keeps f = record { keeps = λ w h. h }

  pub attempt-Keeps : {A : Type 0} (f : E → Result Thrown A × E) → Keeps (attempt f)
  unfolding attempt
  attempt-Keeps f = record { keeps = λ w h. h }

  pub call-Keeps : {A : Type 0} (f : E → A × E) → Keeps (call f)
  unfolding call
  call-Keeps f = record { keeps = λ w h. h }

  pub gets-Keeps : {A : Type 0} (f : Session → A) → Keeps (gets f)
  unfolding gets
  gets-Keeps f = record { keeps = λ w h. h }

  pub update-Keeps :
      {A : Type 0} (f : Session → Session × A)
      → ((s : Session) → P s → P (f s).0)
      → Keeps (update f)
  unfolding update
  update-Keeps f k = record { keeps = λ w h. k w.session h }

  pub modify-Keeps : (f : Session → Session) → ((s : Session) → P s → P (f s)) → Keeps (modify f)
  unfolding modify
  modify-Keeps f k = record { keeps = λ w h. k w.session h }

  pub store_call-Keeps :
      {A : Type 0} (f : Session → Result StoreError A × Session)
      → ((s : Session) → P s → P (f s).1)
      → Keeps (store_call f)
  unfolding store_call
  store_call-Keeps f k = record { keeps = λ w h. k w.session h }

  pub key-Keeps : {A : Type 0} (r : Result KeyError A) → Keeps (key_or_throw r)
  unfolding key_or_throw
  key-Keeps (ok a) = pure-Keeps _
  key-Keeps (err e) = throw-Keeps _

  pub if-Keeps :
      {A : Type 0} (b : Bool) {m n : Scan E A} → Keeps m → Keeps n → Keeps (if b then m else n)
  if-Keeps true hm hn = hm
  if-Keeps false hm hn = hn

  pub for_each-Keeps :
      {A S : Type 0} {body : A → S → Scan E S}
      → ((a : A) (s : S) → Keeps (body a s))
      → (l : List A) (s : S) → Keeps (for_each body l s)
  unfolding for_each
  for_each-Keeps h [] s = pure-Keeps _
  for_each-Keeps h (x ∷ xs) s = bind-Keeps (h x s) (λ s'. for_each-Keeps h xs s')
