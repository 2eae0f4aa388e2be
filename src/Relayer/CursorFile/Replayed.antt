-- ===== src/Relayer/CursorFile/Replayed.antt =====
-- The store that the written entries come to.
use anti_soon.Prelude.{
  ℕ, ◌+◌, ◌≡◌, refl, ap, ◌∙◌, String, Bool, true, false, not, [], ◌∷◌, Option, none, some, str_eq,
  eq_iff, if◌then◌else◌, arith, count,
}
use anti_soon.Prelude.Map.{Map, get, set, get-set}
use anti_soon.Prelude.Keys.{IsKeyed, get-other, over_default}
use anti_soon.Relayer.Idempotency.{Status, processing, completed, quarantined}
use anti_soon.Relayer.CursorState.{PendingItem, CursorStore}
use anti_soon.Relayer.CursorFile.{number_at}
use anti_soon.Relayer.CursorFile.Load.{Loading, take_item, put_item, set_optional}
use anti_soon.Relayer.CursorFile.Entries.{take_entry, replay_items, replay_pendings}

-- What the status of a queue item is after a restart.
unfoldable pub recover : Status → Status
recover processing = quarantined
recover completed = completed
recover quarantined = quarantined

abbrev pub is_processing : Status → Bool
is_processing processing = true
is_processing _ = false

abbrev pub is_completed : Status → Bool
is_completed completed = true
is_completed _ = false

-- an id that is known takes the place of the one before
abbrev pub over_optional : Option ℕ → Option ℕ → Option ℕ
over_optional (some n) before = some n
over_optional none before = before

-- a value that an entry changes
abbrev pub changed : {X : Type 0} → (Status → X → X) → Option Status → X → X
changed new none before = before
changed new (some x) before = new x before

module _ (now : ℕ) (s : CursorStore) where
  -- what an entry changes at its own key only
  replay-changed :
      {X : Type 0} (f : Loading → X) (new : Status → X → X) (k : String)
      → ((l : Loading) (key : String) (x : Status)
          → f (take_entry now s l key x) ≡ (if str_eq key k then new x (f l) else f l))
      → (m : Map Status) (l : Loading) → IsKeyed m
      → f (replay_items now s m l) ≡ changed new (get m k) (f l)
  unfolding replay_items get
  replay-changed f new k step [] l h = refl
  replay-changed f new k step ((key, x) ∷ m) l (h, hs) = ground (
    arith,
    replay-changed f new k step m (take_entry now s l key x) hs,
    step l key x,
    get-other m key h,
    eq_iff key k,
  )

  -- what no entry changes
  pub replay-same :
      {X : Type 0} (f : Loading → X)
      → ((l : Loading) (key : String) (x : Status) → f (take_entry now s l key x) ≡ f l)
      → (m : Map Status) (l : Loading) → f (replay_items now s m l) ≡ f l
  unfolding replay_items
  replay-same f step [] l = refl
  replay-same f step ((key, x) ∷ m) l =
      replay-same f step m (take_entry now s l key x) ∙ step l key x

  -- the time that an entry leaves
  abbrev pub time_left : String → Status → ℕ
  time_left key x = if is_processing x then now else number_at s.queue_item_updated_at_ms key

  take_entry-put :
      (l : Loading) (key : String) (x : Status)
      → (take_entry now s l key x).store
        ≡ put_item
            (recover x)
            l.store
            key
            (number_at s.queue_item_block_number key)
            (time_left key x)
            (get s.queue_item_submission_id key)
            (get s.queue_item_project_id key)
  unfolding take_item recover
  take_entry-put l key processing = refl
  take_entry-put l key completed = refl
  take_entry-put l key quarantined = refl

  get-set_optional :
      (m : Map ℕ) (key : String) (o : Option ℕ) (k : String)
      → get (set_optional m key o) k ≡ (if str_eq key k then over_optional o (get m k) else get m k)
  unfolding set_optional
  get-set_optional m key none k = ground arith
  get-set_optional m key (some n) k = get-set m key k n

  -- the value of an entry at a key, for the key of the entry
  at_key :
      {X : Type 0} (value : String → X → X) (key k : String) (before : X)
      → (if str_eq key k then value key before else before)
        ≡ (if str_eq key k then value k before else before)
  at_key value key k before = ground (arith, eq_iff key k)

  pub status-replay :
      (m : Map Status) (l : Loading) (k : String)
      → IsKeyed m
      → get (replay_items now s m l).store.queue_item_status k
        ≡ changed (λ x _. some (recover x)) (get m k) (get l.store.queue_item_status k)
  unfolding put_item
  status-replay m l k =
      replay-changed (λ l. get l.store.queue_item_status k) (λ x _. some (recover x)) k
        (λ l key x.
          ap (λ st. get st.queue_item_status k) (take_entry-put l key x)
          ∙ get-set l.store.queue_item_status key k (recover x))
        m l

  pub block-replay :
      (m : Map Status) (l : Loading) (k : String)
      → IsKeyed m
      → get (replay_items now s m l).store.queue_item_block_number k
        ≡ changed
            (λ _ _. some (number_at s.queue_item_block_number k))
            (get m k)
            (get l.store.queue_item_block_number k)
  unfolding put_item
  block-replay m l k =
      let value : String → Option ℕ → Option ℕ =
        λ key _. some (number_at s.queue_item_block_number key) in
      replay-changed (λ l. get l.store.queue_item_block_number k) (λ _. value k) k
        (λ l key x.
          ap (λ st. get st.queue_item_block_number k) (take_entry-put l key x)
          ∙ get-set l.store.queue_item_block_number key k _
          ∙ at_key value key k (get l.store.queue_item_block_number k))
        m l

  pub time-replay :
      (m : Map Status) (l : Loading) (k : String)
      → IsKeyed m
      → get (replay_items now s m l).store.queue_item_updated_at_ms k
        ≡ changed (λ x _. some (time_left k x)) (get m k) (get l.store.queue_item_updated_at_ms k)
  unfolding put_item
  time-replay m l k =
      replay-changed (λ l. get l.store.queue_item_updated_at_ms k) (λ x _. some (time_left k x)) k
        (λ l key x.
          ap (λ st. get st.queue_item_updated_at_ms k) (take_entry-put l key x)
          ∙ get-set l.store.queue_item_updated_at_ms key k _
          ∙ at_key (λ key _. some (time_left key x)) key k (get l.store.queue_item_updated_at_ms k))
        m l

  pub submission-replay :
      (m : Map Status) (l : Loading) (k : String)
      → IsKeyed m
      → get (replay_items now s m l).store.queue_item_submission_id k
        ≡ changed
            (λ _. over_optional (get s.queue_item_submission_id k))
            (get m k)
            (get l.store.queue_item_submission_id k)
  unfolding put_item
  submission-replay m l k =
      let value : String → Option ℕ → Option ℕ =
        λ key. over_optional (get s.queue_item_submission_id key) in
      replay-changed (λ l. get l.store.queue_item_submission_id k) (λ _. value k) k
        (λ l key x.
          ap (λ st. get st.queue_item_submission_id k) (take_entry-put l key x)
          ∙ get-set_optional l.store.queue_item_submission_id key _ k
          ∙ at_key value key k (get l.store.queue_item_submission_id k))
        m l

  pub project-replay :
      (m : Map Status) (l : Loading) (k : String)
      → IsKeyed m
      → get (replay_items now s m l).store.queue_item_project_id k
        ≡ changed
            (λ _. over_optional (get s.queue_item_project_id k))
            (get m k)
            (get l.store.queue_item_project_id k)
  unfolding put_item
  project-replay m l k =
      let value : String → Option ℕ → Option ℕ =
        λ key. over_optional (get s.queue_item_project_id key) in
      replay-changed (λ l. get l.store.queue_item_project_id k) (λ _. value k) k
        (λ l key x.
          ap (λ st. get st.queue_item_project_id k) (take_entry-put l key x)
          ∙ get-set_optional l.store.queue_item_project_id key _ k
          ∙ at_key value key k (get l.store.queue_item_project_id k))
        m l

  pub recovered-replay :
      (m : Map Status) (l : Loading)
      → (replay_items now s m l).recovered ≡ count (λ e. is_processing e.1) m + l.recovered
  unfolding replay_items take_item
  recovered-replay [] l = omega arith
  recovered-replay ((key, processing) ∷ m) l =
      omega (arith, recovered-replay m (take_entry now s l key processing))
  recovered-replay ((key, completed) ∷ m) l =
      omega (arith, recovered-replay m (take_entry now s l key completed))
  recovered-replay ((key, quarantined) ∷ m) l =
      omega (arith, recovered-replay m (take_entry now s l key quarantined))

  pub quarantined-replay :
      (m : Map Status) (l : Loading)
      → (replay_items now s m l).quarantined_items
        ≡ count (λ e. not (is_completed e.1)) m + l.quarantined_items
  unfolding replay_items take_item
  quarantined-replay [] l = omega arith
  quarantined-replay ((key, processing) ∷ m) l =
      omega (arith, quarantined-replay m (take_entry now s l key processing))
  quarantined-replay ((key, completed) ∷ m) l =
      omega (arith, quarantined-replay m (take_entry now s l key completed))
  quarantined-replay ((key, quarantined) ∷ m) l =
      omega (arith, quarantined-replay m (take_entry now s l key quarantined))

pub pending-replay :
    (m acc : Map PendingItem) (k : String)
    → IsKeyed m
    → get (replay_pendings m acc) k ≡ over_default (λ x. x) (get m k) (get acc k)
unfolding replay_pendings get
pending-replay [] acc k h = refl
pending-replay ((key, item) ∷ m) acc k (h, hs) = ground (
  arith,
  pending-replay m (set acc key item) k hs,
  get-set acc key k item,
  get-other m key h,
  eq_iff key k,
)
