-- ===== src/Relayer/Unique/Firsts.antt =====
-- The first open candidates of the projects.
use anti_soon.Prelude.{
  ℕ, ◌≡◌, ◌≢◌, ◌↔◌, ◌⊎◌, inl, inr, sym, ap, ◌∙◌, Bool, true, false, Bool-cases, List, [], ◌∷◌, ok,
  All, arith, ==_iff, ◌==◌,
}
use anti_soon.Prelude.Set.{contains}
use anti_soon.Relayer.Unique
use anti_soon.Relayer.Unique.Judge.{
  committed, SubmissionSnapshot, unique, ProjectSnapshot, RevealStateSnapshot, SkipReason, Verdict,
  skip, select, judge,
}
use anti_soon.Relayer.Unique.Judge.Laws.{judge_select_iff}

-- What the chain shows during a scan: the reads of the runtime that return agree with it.
pub record View {E : Type 0} (runtime : Unique.CandidateRuntime E) : Type 0 where
  pub submission : ℕ → SubmissionSnapshot
  pub project : ℕ → ProjectSnapshot
  pub state : ℕ → RevealStateSnapshot
  pub reads_submission :
      (id : ℕ) (e : E) (v : SubmissionSnapshot)
      → (runtime.read_submission id e).0 ≡ ok v
      → v ≡ submission id
  pub reads_project :
      (id : ℕ) (e : E) (v : ProjectSnapshot) → (runtime.read_project id e).0 ≡ ok v → v ≡ project id
  pub reads_state :
      (id : ℕ) (e : E) (v : RevealStateSnapshot)
      → (runtime.read_unique_reveal_state id e).0 ≡ ok v
      → v ≡ state id

module _ {E : Type 0} {runtime : Unique.CandidateRuntime E} (view : View runtime) where
  abbrev pub project_of : ℕ → ℕ
  project_of id = (view.submission id).project_id

  -- The submission is committed to a UNIQUE project that has neither a winner nor a candidate.
  abbrev pub IsOpen : ℕ → Type 0
  IsOpen id =
      ((view.project (project_of id)).mode ≡ unique)
      × ((view.state (project_of id)).winner_locked ≡ false)
      × ((view.submission id).status ≡ committed)
      × ((view.state (project_of id)).has_candidate ≡ false)

  -- None of the submissions is an open one of the project.
  abbrev pub NoneOf : ℕ → List ℕ → Type 0
  NoneOf p = All (λ b. (¬ IsOpen b) ⊎ (project_of b ≢ p))

  -- After the submissions `before`, `id` is the first open one of its project.
  abbrev pub IsFirst : List ℕ → ℕ → Type 0
  IsFirst before id = IsOpen id × NoneOf (project_of id) before

  -- `Picks before ids picked`: of the submissions `ids`, which come after `before`, exactly `picked` are
  -- the first open ones of their projects.
  pub data Picks : List ℕ → List ℕ → List ℕ → Type 0 where
    done : {before : List ℕ} → Picks before [] []
    picks :
        {before ids picked : List ℕ} {id : ℕ}
        → IsFirst before id
        → Picks (id ∷ before) ids picked
        → Picks before (id ∷ ids) (id ∷ picked)
    passes :
        {before ids picked : List ℕ} {id : ℕ}
        → ¬ IsFirst before id
        → Picks (id ∷ before) ids picked
        → Picks before (id ∷ ids) picked

  -- the projects that were selected are those with an open submission so far
  abbrev pub Knows : List ℕ → List ℕ → Type 0
  Knows before projects = (p : ℕ) → (contains p projects ≡ false) ↔ NoneOf p before

  abbrev pub verdict : ℕ → List ℕ → Verdict
  verdict id projects =
      judge (view.project (project_of id)) (view.state (project_of id)) (view.submission id)
        (contains (project_of id) projects)

  pub select-IsFirst :
      (id : ℕ) (before projects : List ℕ)
      → Knows before projects
      → verdict id projects ≡ select
      → IsFirst before id
  select-IsFirst id before projects k e =
      let p = project_of id in
      let f =
        (judge_select_iff (view.project p) (view.state p) (view.submission id)
            (contains p projects)).0
          e in
      ((f.0, f.1, f.2, f.3), (k p).0 f.4)

  pub select-Knows :
      (id : ℕ) (before projects : List ℕ)
      → Knows before projects
      → IsOpen id
      → Knows (id ∷ before) (project_of id ∷ projects)
  select-Knows id before projects k o p = ground (arith, k p, ==_iff (project_of id) p)

  pub skip-closed :
      (id : ℕ) (before projects : List ℕ) (reason : SkipReason) (terminal : Bool)
      → Knows before projects
      → verdict id projects ≡ skip reason terminal
      → ¬ IsFirst before id
  skip-closed id before projects reason terminal k e (o, n) =
      let p = project_of id in
      let s =
        (judge_select_iff (view.project p) (view.state p) (view.submission id)
            (contains p projects)).1
          (o.0, o.1, o.2, o.3, (k p).1 n) in
      let q : skip reason terminal ≡ select = sym e ∙ s in cc

  pub skip-Knows :
      (id : ℕ) (before projects : List ℕ)
      → Knows before projects
      → ¬ IsFirst before id
      → Knows (id ∷ before) projects
  skip-Knows id before projects k n p = (λ c. (apart c, (k p).0 c), λ h. (k p).1 h.1)
    where
      apart : contains p projects ≡ false → (¬ IsOpen id) ⊎ (project_of id ≢ p)
      apart c = elim (Bool-cases (project_of id == p)) [
        | inl e ↦
            let q = (==_iff (project_of id) p).0 e in
            inl (λ o. n (o, (k (project_of id)).0 (ap (λ x. contains x projects) q ∙ c)))
        | inr e ↦ inr (λ q. let t : true ≡ false = sym ((==_iff (project_of id) p).1 q) ∙ e in cc)
      ]
