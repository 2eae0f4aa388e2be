-- ===== src/Verify/Mapping/Stable.antt =====
-- The first mapping of a source event stays.
use anti_soon.Prelude.{
  String, ◌≡◌, ◌↔◌, refl, sym, ap, ◌∙◌, Bool, true, false, Option, none, some, List, [], ◌∷◌, ok,
  str_eq, eq_iff, both_true, both_hold, subst, arith,
}
use anti_soon.Prelude.Map.{Map, get, get-set, get-set_self}
use anti_soon.Verify.Mapping.{
  MappingState, Mapped, Derivations, mapping_of, mapped, is_same_mapping, compare_mapping,
  mapping_at, assert_mapping_stable,
}

module _ {Input : Type 0} (keys : Derivations Input) where
  unfoldable pub run_inputs : List Input → Map MappingState → Map MappingState
  run_inputs [] m = m
  run_inputs (input ∷ inputs) m = run_inputs inputs (assert_mapping_stable keys m input).1

  mapping_at-keeps :
      (o : Option MappingState) (m : Map MappingState) (input : Input) (k : String)
      (v : MappingState)
      → get m (keys.source_event_key input) ≡ o
      → get m k ≡ some v
      → get (mapping_at keys o m input).1 k ≡ some v
  unfolding mapping_at
  mapping_at-keeps (some current) m input k v e h = h
  mapping_at-keeps none m input k v e h =
      get-set m (keys.source_event_key input) k (mapping_of keys input)
      ∙ ground (arith, e, h, eq_iff (keys.source_event_key input) k)

  run_inputs-keeps :
      (inputs : List Input) (m : Map MappingState) (k : String) (v : MappingState)
      → get m k ≡ some v
      → get (run_inputs inputs m) k ≡ some v
  unfolding run_inputs assert_mapping_stable
  run_inputs-keeps [] m k v h = h
  run_inputs-keeps (input ∷ inputs) m k v h =
      run_inputs-keeps inputs _ k v
        (mapping_at-keeps (get m (keys.source_event_key input)) m input k v refl h)

  is_same_mapping_iff :
      (current next : MappingState) → (is_same_mapping keys current next ≡ true) ↔ (current ≡ next)
  unfolding is_same_mapping
  is_same_mapping_iff current next = (
    λ h.
        let (f, k) = both_true (str_eq current.mapping_fingerprint next.mapping_fingerprint) _ h in
        let p = (eq_iff current.mapping_fingerprint next.mapping_fingerprint).0 f in
        let q = (eq_iff current.idempotency_key next.idempotency_key).0 k in
        ap (λ x. record { mapping_fingerprint = x; idempotency_key = current.idempotency_key }) p
        ∙ ap (λ x. record { mapping_fingerprint = next.mapping_fingerprint; idempotency_key = x })
            q,
    λ e.
        both_hold
          ((eq_iff current.mapping_fingerprint next.mapping_fingerprint).1
            (ap (λ x. x.mapping_fingerprint) e))
          ((eq_iff current.idempotency_key next.idempotency_key).1 (ap (λ x. x.idempotency_key) e)),
  )

  compare_mapping-ok :
      (b : Bool) (current : MappingState) (input : Input) (r : Mapped)
      → compare_mapping keys b current input ≡ ok r
      → b ≡ true
  unfolding compare_mapping
  compare_mapping-ok true current input r h = refl
  compare_mapping-ok false current input r h = cc

  mapping_at-some_iff :
      (current : MappingState) (m : Map MappingState) (input : Input)
      → ((r : Mapped) × ((mapping_at keys (some current) m input).0 ≡ ok r))
        ↔ (current ≡ mapping_of keys input)
  unfolding mapping_at compare_mapping
  mapping_at-some_iff current m input =
      let same = is_same_mapping_iff current (mapping_of keys input) in
      (
        λ (r, e). same.0 (
            compare_mapping-ok (is_same_mapping keys current (mapping_of keys input)) current input
              r e),
        λ e. (mapped keys input, ap (λ b. compare_mapping keys b current input) (same.1 e)),
      )

  mapping_at-first :
      (o : Option MappingState) (m : Map MappingState) (input : Input) (r : Mapped)
      → get m (keys.source_event_key input) ≡ o
      → (mapping_at keys o m input).0 ≡ ok r
      → get (mapping_at keys o m input).1 (keys.source_event_key input)
        ≡ some (mapping_of keys input)
  unfolding mapping_at
  mapping_at-first none m input r e h =
      get-set_self m (keys.source_event_key input) (mapping_of keys input)
  mapping_at-first (some current) m input r e h =
      e ∙ ap some ((mapping_at-some_iff current m input).0 (r, h))

  -- After an input was accepted, and any inputs since, a later input of the same source event is
  -- accepted exactly when its mapping, the fingerprint and the idempotency key, is that of the
  -- first.
  pub assert_mapping_stable-stable_iff :
      (m : Map MappingState) (input later : Input) (inputs : List Input) (r : Mapped)
      → (assert_mapping_stable keys m input).0 ≡ ok r
      → keys.source_event_key later ≡ keys.source_event_key input
      → let settled = run_inputs inputs (assert_mapping_stable keys m input).1 in
        ((s : Mapped) × ((assert_mapping_stable keys settled later).0 ≡ ok s))
        ↔ (mapping_of keys input ≡ mapping_of keys later)
  unfolding assert_mapping_stable
  assert_mapping_stable-stable_iff m input later inputs r h same =
      let now = run_inputs inputs (assert_mapping_stable keys m input).1 in
      let held : get now (keys.source_event_key later) ≡ some (mapping_of keys input) =
        ap (get now) same
        ∙ run_inputs-keeps inputs _ (keys.source_event_key input) (mapping_of keys input)
            (mapping_at-first (get m (keys.source_event_key input)) m input r refl h) in
      subst
        (λ o.
          ((s : Mapped) × ((mapping_at keys o now later).0 ≡ ok s))
          ↔ (mapping_of keys input ≡ mapping_of keys later))
        (sym held) (mapping_at-some_iff (mapping_of keys input) now later)
