-- ===== src/Relayer/Scan.antt =====
-- The steps of the two scanners: they change the session, call the runtime, whose hidden state is
-- the environment `E`, and may throw. What was written before a throw stays written.
pub mod Logs
pub mod Reach
pub mod Triple
use anti_soon.Prelude.{ℕ, Option, none, some, Result, ok, err, List, [], ◌∷◌}
use anti_soon.Relayer.Keys.{KeyError}
use anti_soon.Relayer.RetryPolicy.Errors.{Thrown}
use anti_soon.Relayer.RetryPolicy.Runner.{RetryError}
use anti_soon.Relayer.CursorState.{Session, StoreError}

pub data ScanError : Type 0 where
  runtime_error : Thrown → ScanError
  retry_error : RetryError → ScanError
  key_error : KeyError → ScanError
  store_error : StoreError → ScanError
  claim_invariant : (submission_id : ℕ) → ScanError

pub record World (E : Type 0) : Type 0 where
  pub session : Session
  pub env : E

abbrev pub Scan : Type 0 → Type 0 → Type 0
Scan E A = World E → Result ScanError A × World E

abbrev pub from_runtime : {A : Type 0} → Result Thrown A → Result ScanError A
from_runtime (ok a) = ok a
from_runtime (err t) = err (runtime_error t)

abbrev pub from_store : {A : Type 0} → Result StoreError A → Result ScanError A
from_store (ok a) = ok a
from_store (err e) = err (store_error e)

module _ {E : Type 0} where
  unfoldable pub pure : {A : Type 0} → A → Scan E A
  pure a w = (ok a, w)

  unfoldable pub throw : {A : Type 0} → ScanError → Scan E A
  throw e w = (err e, w)

  -- what follows a step: nothing, once it has thrown
  unfoldable pub resume :
      {A B : Type 0} → (A → Scan E B) → Result ScanError A → World E → Result ScanError B × World E
  resume f (ok a) w = f a w
  resume f (err e) w = (err e, w)

  infixl 5 ◌>>=◌ ◌>>◌
  unfoldable pub ◌>>=◌ : {A B : Type 0} → Scan E A → (A → Scan E B) → Scan E B
  unfolding resume
  ◌>>=◌ m f w = resume f (m w).0 (m w).1

  unfoldable pub ◌>>◌ : {A B : Type 0} → Scan E A → Scan E B → Scan E B
  unfolding ◌>>=◌
  m >> k = m >>= λ _. k

  -- a call of the runtime
  unfoldable pub ask : {A : Type 0} → (E → Result Thrown A × E) → Scan E A
  ask f w = let (r, e) = f w.env in (from_runtime r, record w { env = e })

  -- a computation over the environment that does not throw
  unfoldable pub call : {A : Type 0} → (E → A × E) → Scan E A
  call f w = let (a, e) = f w.env in (ok a, record w { env = e })

  -- a call of the runtime whose failure is `null`: the promise is rejected
  unfoldable pub attempt : {A : Type 0} → (E → Result Thrown A × E) → Scan E (Option A)
  attempt f w =
      let (r, e) = f w.env in (ok (elim r [ ok a ↦ some a | err t ↦ none ]), record w { env = e })

  unfoldable pub key_or_throw : {A : Type 0} → Result KeyError A → Scan E A
  unfolding pure throw
  key_or_throw (ok a) = pure a
  key_or_throw (err e) = throw (key_error e)

  unfoldable pub gets : {A : Type 0} → (Session → A) → Scan E A
  gets f w = (ok (f w.session), w)

  unfoldable pub update : {A : Type 0} → (Session → Session × A) → Scan E A
  update f w = let (s, a) = f w.session in (ok a, record w { session = s })

  unfoldable pub modify : (Session → Session) → Scan E (Unit {0})
  modify f w = (ok tt, record w { session = f w.session })

  unfoldable pub store_call : {A : Type 0} → (Session → Result StoreError A × Session) → Scan E A
  store_call f w = let (r, s) = f w.session in (from_store r, record w { session = s })

  -- `for (const x of xs) { … }` over the loop's variables
  unfoldable pub for_each : {A S : Type 0} → (A → S → Scan E S) → List A → S → Scan E S
  unfolding pure ◌>>=◌
  for_each body [] s = pure s
  for_each body (x ∷ xs) s = body x s >>= λ s'. for_each body xs s'
