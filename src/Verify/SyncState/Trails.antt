-- ===== src/Verify/SyncState/Trails.antt =====
-- The trail of a sync id: the states that it was moved to, in their order.
use anti_soon.Prelude.{
  String, ◌≡◌, refl, sym, ap, Bool, true, false, Option, none, some, List, [], ◌∷◌, ◌++◌, Result,
  ok, err, str_eq, eq_iff, eq_refl, if◌then◌else◌, subst, inl, inr, Bool-cases,
}
use mathlib.Core.List.{append-nil, append_assoc}
use anti_soon.Prelude.Map.{Map, get, get-set, get-set_self}
use anti_soon.Verify.SyncState.{
  SyncState, sapphire_written, sepolia_committed, sepolia_revealed, workflow_verified,
  report_written, quarantined, SyncError, is_allowed, may_initialize, settle, transition_from,
  transition_sync_state,
}

-- One call of the transition.
pub record Call : Type 0 where
  pub sync_id : String
  pub next : SyncState
  pub allow_initialize : Bool

unfoldable pub after_call : Map SyncState → Call → Map SyncState
after_call m k = (transition_sync_state m k.sync_id k.next k.allow_initialize).1

unfoldable pub run_calls : List Call → Map SyncState → Map SyncState
unfolding after_call
run_calls [] m = m
run_calls (k ∷ ks) m = run_calls ks (after_call m k)

-- What a call adds to the trail of `sync_id`: the state that it returns, if it is for this id.
accepted_by : String → Call → Result SyncError SyncState → List SyncState
accepted_by sync_id k (ok s) = if str_eq k.sync_id sync_id then s ∷ [] else []
accepted_by sync_id k (err e) = []

unfoldable pub trail : String → List Call → Map SyncState → List SyncState
unfolding accepted_by after_call
trail sync_id [] m = []
trail sync_id (k ∷ ks) m =
    accepted_by sync_id k (transition_sync_state m k.sync_id k.next k.allow_initialize).0
    ++ trail sync_id ks (after_call m k)

-- The way to a state that is not the quarantine.
abbrev pub way_to : SyncState → List SyncState
way_to sapphire_written = sapphire_written ∷ []
way_to sepolia_committed = sapphire_written ∷ sepolia_committed ∷ []
way_to sepolia_revealed = sapphire_written ∷ sepolia_committed ∷ sepolia_revealed ∷ []
way_to workflow_verified =
    sapphire_written ∷ sepolia_committed ∷ sepolia_revealed ∷ workflow_verified ∷ []
way_to report_written =
    sapphire_written ∷ sepolia_committed ∷ sepolia_revealed ∷ workflow_verified ∷ report_written
    ∷ []
way_to quarantined = []

-- The trail of an id in the state: all the states up to it, and the quarantine at the end of the way
-- to a state that may be quarantined.
abbrev pub IsTrail : Option SyncState → List SyncState → Type 0
IsTrail none h = h ≡ []
IsTrail (some quarantined) h =
    (s : SyncState) × (is_allowed s quarantined ≡ true) × (h ≡ way_to s ++ quarantined ∷ [])
IsTrail (some sapphire_written) h = h ≡ way_to sapphire_written
IsTrail (some sepolia_committed) h = h ≡ way_to sepolia_committed
IsTrail (some sepolia_revealed) h = h ≡ way_to sepolia_revealed
IsTrail (some workflow_verified) h = h ≡ way_to workflow_verified
IsTrail (some report_written) h = h ≡ way_to report_written

-- an allowed transition adds its state to the trail
IsTrail-step :
    (s next : SyncState) (h : List SyncState)
    → is_allowed s next ≡ true
    → IsTrail (some s) h
    → IsTrail (some next) (h ++ next ∷ [])
unfolding is_allowed
IsTrail-step sapphire_written sapphire_written h e t = cc
IsTrail-step sapphire_written sepolia_committed h e t = ap (λ l. l ++ sepolia_committed ∷ []) t
IsTrail-step sapphire_written sepolia_revealed h e t = cc
IsTrail-step sapphire_written workflow_verified h e t = cc
IsTrail-step sapphire_written report_written h e t = cc
IsTrail-step sapphire_written quarantined h e t =
    (sapphire_written, refl, ap (λ l. l ++ quarantined ∷ []) t)
IsTrail-step sepolia_committed sapphire_written h e t = cc
IsTrail-step sepolia_committed sepolia_committed h e t = cc
IsTrail-step sepolia_committed sepolia_revealed h e t = ap (λ l. l ++ sepolia_revealed ∷ []) t
IsTrail-step sepolia_committed workflow_verified h e t = cc
IsTrail-step sepolia_committed report_written h e t = cc
IsTrail-step sepolia_committed quarantined h e t =
    (sepolia_committed, refl, ap (λ l. l ++ quarantined ∷ []) t)
IsTrail-step sepolia_revealed sapphire_written h e t = cc
IsTrail-step sepolia_revealed sepolia_committed h e t = cc
IsTrail-step sepolia_revealed sepolia_revealed h e t = cc
IsTrail-step sepolia_revealed workflow_verified h e t = ap (λ l. l ++ workflow_verified ∷ []) t
IsTrail-step sepolia_revealed report_written h e t = cc
IsTrail-step sepolia_revealed quarantined h e t =
    (sepolia_revealed, refl, ap (λ l. l ++ quarantined ∷ []) t)
IsTrail-step workflow_verified sapphire_written h e t = cc
IsTrail-step workflow_verified sepolia_committed h e t = cc
IsTrail-step workflow_verified sepolia_revealed h e t = cc
IsTrail-step workflow_verified workflow_verified h e t = cc
IsTrail-step workflow_verified report_written h e t = ap (λ l. l ++ report_written ∷ []) t
IsTrail-step workflow_verified quarantined h e t =
    (workflow_verified, refl, ap (λ l. l ++ quarantined ∷ []) t)
IsTrail-step report_written sapphire_written h e t = cc
IsTrail-step report_written sepolia_committed h e t = cc
IsTrail-step report_written sepolia_revealed h e t = cc
IsTrail-step report_written workflow_verified h e t = cc
IsTrail-step report_written report_written h e t = cc
IsTrail-step report_written quarantined h e t = cc
IsTrail-step quarantined sapphire_written h e t = cc
IsTrail-step quarantined sepolia_committed h e t = cc
IsTrail-step quarantined sepolia_revealed h e t = cc
IsTrail-step quarantined workflow_verified h e t = cc
IsTrail-step quarantined report_written h e t = cc
IsTrail-step quarantined quarantined h e t = cc

IsTrail-start :
    (allow : Bool) (next : SyncState)
    → may_initialize allow next ≡ true
    → IsTrail (some next) (next ∷ [])
unfolding may_initialize
IsTrail-start true sapphire_written e = refl
IsTrail-start true sepolia_committed e = cc
IsTrail-start true sepolia_revealed e = cc
IsTrail-start true workflow_verified e = cc
IsTrail-start true report_written e = cc
IsTrail-start true quarantined e = cc
IsTrail-start false next e = cc

-- a call that is accepted when `b` holds, seen from its own id
settle_own :
    (b : Bool) (x : SyncError) (o : Option SyncState) (m : Map SyncState) (k : Call)
    (h : List SyncState)
    → get m k.sync_id ≡ o
    → IsTrail o h
    → (b ≡ true → IsTrail (some k.next) (h ++ k.next ∷ []))
    → let t = settle b x m k.sync_id k.next in
      IsTrail (get t.1 k.sync_id) (h ++ accepted_by k.sync_id k t.0)
unfolding accepted_by settle
settle_own true x o m k h e t step =
    rw (get-set_self m k.sync_id k.next, eq_refl k.sync_id) (step refl)
settle_own false x o m k h e t step = rw (append-nil h, e) t

-- and from another id
settle_other :
    (b : Bool) (x : SyncError) (m : Map SyncState) (k : Call) (sync_id : String)
    → str_eq k.sync_id sync_id ≡ false
    → let t = settle b x m k.sync_id k.next in
      (get t.1 sync_id ≡ get m sync_id) × (accepted_by sync_id k t.0 ≡ [])
unfolding accepted_by settle
settle_other true x m k sync_id e = rw (get-set, e) (refl, refl)
settle_other false x m k sync_id e = (refl, refl)

transition_from-own :
    (o : Option SyncState) (m : Map SyncState) (k : Call) (h : List SyncState)
    → get m k.sync_id ≡ o
    → IsTrail o h
    → let t = transition_from o m k.sync_id k.next k.allow_initialize in
      IsTrail (get t.1 k.sync_id) (h ++ accepted_by k.sync_id k t.0)
unfolding transition_from
transition_from-own none m k h e t =
    settle_own (may_initialize k.allow_initialize k.next) _ none m k h e t (λ a.
      subst (λ l. IsTrail (some k.next) (l ++ k.next ∷ [])) (sym t)
        (IsTrail-start k.allow_initialize k.next a))
transition_from-own (some s) m k h e t =
    settle_own (is_allowed s k.next) _ (some s) m k h e t (λ a. IsTrail-step s k.next h a t)

transition_from-other :
    (o : Option SyncState) (m : Map SyncState) (k : Call) (sync_id : String)
    → str_eq k.sync_id sync_id ≡ false
    → let t = transition_from o m k.sync_id k.next k.allow_initialize in
      (get t.1 sync_id ≡ get m sync_id) × (accepted_by sync_id k t.0 ≡ [])
unfolding transition_from
transition_from-other none m k sync_id e =
    settle_other (may_initialize k.allow_initialize k.next) _ m k sync_id e
transition_from-other (some s) m k sync_id e = settle_other (is_allowed s k.next) _ m k sync_id e

-- One call keeps the trail of every id.
after_call-IsTrail :
    (sync_id : String) (m : Map SyncState) (k : Call) (h : List SyncState)
    → IsTrail (get m sync_id) h
    → IsTrail
        (get (after_call m k) sync_id)
        (h ++ accepted_by sync_id k (transition_sync_state m k.sync_id k.next k.allow_initialize).0)
unfolding after_call transition_sync_state
after_call-IsTrail sync_id m k h t =
    let r = transition_from (get m k.sync_id) m k.sync_id k.next k.allow_initialize in
    elim (Bool-cases (str_eq k.sync_id sync_id)) [
      | inl e ↦
          subst (λ i. IsTrail (get m i) h → IsTrail (get r.1 i) (h ++ accepted_by i k r.0))
            ((eq_iff k.sync_id sync_id).0 e) (transition_from-own (get m k.sync_id) m k h refl) t
      | inr e ↦
          let (same, none_added) = transition_from-other (get m k.sync_id) m k sync_id e in
          rw (same, none_added, append-nil h) t
    ]

trail-from :
    (sync_id : String) (ks : List Call) (m : Map SyncState) (h : List SyncState)
    → IsTrail (get m sync_id) h
    → IsTrail (get (run_calls ks m) sync_id) (h ++ trail sync_id ks m)
unfolding run_calls trail
trail-from sync_id [] m h t = rw (append-nil h) t
trail-from sync_id (k ∷ ks) m h t =
    subst (λ l. IsTrail (get (run_calls ks (after_call m k)) sync_id) l) (append_assoc h _ _)
      (trail-from sync_id ks (after_call m k) _ (after_call-IsTrail sync_id m k h t))

-- Whatever transitions are asked for, in whatever order and for whatever ids, the states that an id
-- has been moved to are all those of the protocol up to the one it is in: written to Sapphire,
-- committed, revealed, verified, reported, or the quarantine after a beginning of these that may be
-- quarantined.
pub trail-IsTrail :
    (sync_id : String) (ks : List Call)
    → IsTrail (get (run_calls ks []) sync_id) (trail sync_id ks [])
unfolding get
trail-IsTrail sync_id ks = trail-from sync_id ks [] [] refl
