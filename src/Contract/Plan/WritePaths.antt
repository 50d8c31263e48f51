-- ===== src/Contract/Plan/WritePaths.antt =====
-- The write paths of an accepted plan: pairwise apart, and each inside its writer's root.
use bimo.Base.{
  suc, String, List, [], ◌∷◌, ◌++◌, ok, >>=-eq-ok, ◌≡◌, refl, arith, All, false, true, append_assoc,
  append-nil, subst, sym, ap, >>-eq-ok, ◌≤◌, ℕ, if◌then◌else◌, Bool-cases, inl, inr, any, ◌∙◌,
  All-append,
}
use bimo.Js.{Value, get, text_of, elements}
use bimo.Contract.Paths.{directories_overlap, directory_contains, is_canonical, path_is_owned}
use bimo.Contract.Template.{Claim, writer_ids}
use bimo.Contract.Template.WriteRoots.{ApartFrom, refuse_overlap-ApartFrom}
use bimo.Contract.Paths.Canonical.{assert_repository_directory-canonical}
use bimo.Contract.Paths.Isolation.{disjoint_ownership}
use bimo.Contract.Plan.Parts.{validate_attempt_plan-Parts}
use bimo.Contract.Plan.{
  Coverage, Criteria, no_coverage, allowed_roots, check_write_path, claim_paths, check_plan_writer,
  check_plan_writers, validate_attempt_plan,
}

-- claimed directories do not overlap
abbrev pub Disjoint : List Claim → Type 0
Disjoint [] = Unit
Disjoint (c ∷ cs) = All (λ (d : Claim). directories_overlap c.1 d.1 ≡ false) cs × Disjoint cs

Disjoint-concat :
    (cs : List Claim) (w d : String) → Disjoint cs → ApartFrom d cs → Disjoint (cs ++ (w, d) ∷ [])
Disjoint-concat [] w d h k = (tt, tt)
Disjoint-concat (c ∷ cs) w d (far, h) (apart, k) = (
  All-append (λ (e : Claim). directories_overlap c.1 e.1 ≡ false) cs ((w, d) ∷ []) far (apart, tt),
  Disjoint-concat cs w d h k,
)

-- a claimed directory is canonical, and inside a root that the template gives its writer
pub record Permitted (template : Value) (c : Claim) : Type 0 where
  pub canonical : is_canonical c.1 ≡ true
  pub inside : any (λ root. directory_contains root c.1) (allowed_roots template c.0) ≡ true

-- the claims of one writer
abbrev pub claims_of : String → List Value → List Claim
claims_of w [] = []
claims_of w (v ∷ vs) = (w, text_of v) ∷ claims_of w vs

-- the claims of a plan, writer by writer
abbrev pub plan_claims : Value → List String → List Claim
plan_claims writers [] = []
plan_claims writers (w ∷ ws) =
    claims_of w (elements (get (get writers w) "writePaths")) ++ plan_claims writers ws

module _ (template : Value) (directories : List String) where
  check_write_path-facts :
      (w label : String) (claimed : List Claim) (v : Value)
      → check_write_path w (allowed_roots template w) directories label claimed v ≡ ok tt
      → Permitted template (w, text_of v) × ApartFrom (text_of v) claimed
  unfolding check_write_path
  check_write_path-facts w label claimed v h = (
    record {
      canonical = ground (arith, assert_repository_directory-canonical v label);
      inside = ground arith;
    },
    ground (arith, refuse_overlap-ApartFrom "attempt writePaths" w (text_of v) claimed),
  )

  abbrev Sound : List Claim → Type 0
  Sound cs = Disjoint cs × All (Permitted template) cs

  claim_paths-Sound :
      (w : String) (i : ℕ) (claimed : List Claim) (vs : List Value) {result : List Claim}
      → claim_paths w (allowed_roots template w) directories i claimed vs ≡ ok result
      → Sound claimed
      → Sound result × (result ≡ claimed ++ claims_of w vs)
  unfolding claim_paths
  claim_paths-Sound w i claimed [] {result} h k =
      let e : claimed ≡ result = ground arith in (subst Sound e k, sym e ∙ sym (append-nil claimed))
  claim_paths-Sound w i claimed (v ∷ vs) {result} h k =
      let ((_, step), rest) = >>-eq-ok _ _ h in
      let (permitted, apart) = check_write_path-facts w _ claimed v step in
      let (sound, e) = claim_paths-Sound w (suc i) (claimed ++ (w, text_of v) ∷ []) vs rest (
        Disjoint-concat claimed w (text_of v) k.0 apart,
        All-append (Permitted template) claimed ((w, text_of v) ∷ []) k.1 (permitted, tt),
      ) in
      (sound, e ∙ append_assoc claimed ((w, text_of v) ∷ []) (claims_of w vs))

  check_plan_writer-Sound :
      (ids : List String) (criteria : Criteria) (writers : Value) (c d : Coverage) (w : String)
      → check_plan_writer template directories ids criteria writers c w ≡ ok d
      → Sound c.claimed
      → Sound d.claimed
        × (d.claimed ≡ c.claimed ++ claims_of w (elements (get (get writers w) "writePaths")))
  unfolding check_plan_writer
  check_plan_writer-Sound ids criteria writers c d w h k =
      claim_paths-Sound w 0 c.claimed (elements (get (get writers w) "writePaths"))
        {result = d.claimed} (ground arith) k

  check_plan_writers-Sound :
      (ids : List String) (criteria : Criteria) (writers : Value) (c d : Coverage)
      (ws : List String)
      → check_plan_writers template directories ids criteria writers c ws ≡ ok d
      → Sound c.claimed
      → Sound d.claimed × (d.claimed ≡ c.claimed ++ plan_claims writers ws)
  unfolding check_plan_writers
  check_plan_writers-Sound ids criteria writers c d [] h k =
      let e : c ≡ d = ground arith in
      (
        subst (λ (x : Coverage). Sound x.claimed) e k,
        sym (ap (λ (x : Coverage). x.claimed) e) ∙ sym (append-nil c.claimed),
      )
  check_plan_writers-Sound ids criteria writers c d (w ∷ ws) h k =
      let (c', step, rest) = >>=-eq-ok _ _ h in
      let (sound, e) = check_plan_writer-Sound ids criteria writers c c' w step k in
      let (sound', e') = check_plan_writers-Sound ids criteria writers c' d ws rest sound in
      (
        sound',
        e'
            ∙ ap (λ (xs : List Claim). xs ++ plan_claims writers ws) e
            ∙ append_assoc c.claimed (claims_of w (elements (get (get writers w) "writePaths")))
                (plan_claims writers ws),
      )

-- how many of the claimed directories own a path
abbrev pub owners : String → List Claim → ℕ
owners p [] = 0
owners p (c ∷ cs) = let rest = owners p cs in if path_is_owned p c.1 then suc rest else rest

owners-zero :
    (template : Value) (p : String) (c : Claim) (cs : List Claim)
    → is_canonical c.1 ≡ true
    → path_is_owned p c.1 ≡ true
    → All (λ (d : Claim). directories_overlap c.1 d.1 ≡ false) cs
    → All (Permitted template) cs
    → owners p cs ≡ 0
owners-zero template p c [] h owned far ok' = refl
owners-zero template p c (d ∷ cs) h owned (apart, far) (q, qs) =
    rw (disjoint_ownership c.1 d.1 p h q.canonical apart owned)
      (owners-zero template p c cs h owned far qs)

owners-le-one :
    (template : Value) (p : String) (cs : List Claim)
    → Disjoint cs
    → All (Permitted template) cs
    → owners p cs ≤ 1
owners-le-one template p [] h k = omega arith
owners-le-one template p (c ∷ cs) (far, h) (q, qs) = elim (Bool-cases (path_is_owned p c.1)) [
  | inl owned ↦ rw owned (omega (arith, owners-zero template p c cs q.canonical owned far qs))
  | inr other ↦ rw other (owners-le-one template p cs h qs)
]

-- The write paths of an accepted plan are pairwise apart, and each is canonical and inside a root
-- that the template gives its writer.
pub plan_claims-Sound :
    (plan template sha dirs result : Value)
    → validate_attempt_plan plan template sha dirs ≡ ok result
    → Disjoint (plan_claims (get plan "writers") writer_ids)
      × All (Permitted template) (plan_claims (get plan "writers") writer_ids)
plan_claims-Sound plan template sha dirs result h =
    let parts = validate_attempt_plan-Parts plan template sha dirs result h in
    let (sound, e) =
      check_plan_writers-Sound template parts.directories parts.requirement_ids parts.criteria
        (get plan "writers") no_coverage parts.coverage writer_ids parts.writers (tt, tt) in
    subst (Sound template parts.directories) e sound

-- Whatever path a writer reports, at most one write path of an accepted plan owns it: two writers
-- never have the right to commit the same file.
pub plan_owners-le-one :
    (plan template sha dirs result : Value) (p : String)
    → validate_attempt_plan plan template sha dirs ≡ ok result
    → owners p (plan_claims (get plan "writers") writer_ids) ≤ 1
plan_owners-le-one plan template sha dirs result p h =
    let (apart, permitted) = plan_claims-Sound plan template sha dirs result h in
    owners-le-one template p (plan_claims (get plan "writers") writer_ids) apart permitted
