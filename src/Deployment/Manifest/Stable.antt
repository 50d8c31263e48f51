-- ===== src/Deployment/Manifest/Stable.antt =====
-- What validateDeploymentManifest of src/deployment-contract.mjs returns passes as it is.
use bimo.Base.{
  ok-injective, arith, String, Bool, true, false, [], ◌∷◌, codes, Result, ok, err, check-then,
  >>=-eq-ok, >>-eq-ok, ◌≡◌, refl, subst, ◌&&◌, if◌then◌else◌,
}
use bimo.Js.{Value, str, object, get, is_text, is_string, is_nat, in_range, text_of}
use bimo.Deployment.Target.{resolve_deployment_target, matches_vmid}
use bimo.Deployment.Manifest.{
  exact_fields, is_id, short_text, one_of_texts, matches_engine_target, is_config_path, is_cpus,
  templates, local_target, ssh_target, proxmox_target, engine_target, validate_target,
  engine_workload, job_workload, service_workload, validate_workload, check_secret, validate_model,
  validate_limits, manifest_fields, manifest_of, validate_deployment_manifest,
}

-- a validator that accepts what it returned, as it is
StableAt : (Value → Result Value) → Value → Type 0
StableAt validate v = validate v ≡ ok v

ssh-Stable :
    (rp : String → Result String) (t u : Value)
    → ssh_target rp t ≡ ok u
    → StableAt (validate_target rp) u
unfolding StableAt ssh_target validate_target exact_fields
ssh-Stable rp t u h =
    let (_, h1) = >>-eq-ok (exact_fields t ("kind" ∷ "host" ∷ []) "target") _ h in
    let (short, h2) = check-then (short_text (get t "host") 300) _ _ h1 in
    let (r, resolved, same) = >>=-eq-ok (resolve_deployment_target rp _ (str "/")) _ h2 in
    let e : object (("kind", str "ssh") ∷ ("host", get t "host") ∷ []) ≡ u = ok-injective same in
    subst (λ v. validate_target rp v ≡ ok v) e (ground (arith, short, resolved))

proxmox-Stable :
    (rp : String → Result String) (t u : Value)
    → proxmox_target rp t ≡ ok u
    → StableAt (validate_target rp) u
unfolding StableAt proxmox_target validate_target exact_fields
proxmox-Stable rp t u h =
    let (_, h1) = >>-eq-ok (exact_fields t ("kind" ∷ "proxmox" ∷ "vmid" ∷ []) "target") _ h in
    let (fits, h2) =
      check-then
        (short_text (get t "proxmox") 300
          && is_string (get t "vmid")
          && matches_vmid (codes (text_of (get t "vmid"))))
        _ _ h1 in
    let (r, resolved, same) = >>=-eq-ok (resolve_deployment_target rp _ (str "/")) _ h2 in
    let e : object
          (("kind", str "proxmox-lxc") ∷ ("proxmox", get t "proxmox") ∷ ("vmid", get t "vmid") ∷ [])
        ≡ u =
      ok-injective same in
    subst (λ v. validate_target rp v ≡ ok v) e (ground (arith, fits, resolved))

engine-Stable :
    (rp : String → Result String) (t u : Value)
    → engine_target t ≡ ok u
    → StableAt (validate_target rp) u
unfolding StableAt engine_target validate_target exact_fields
engine-Stable rp t u h =
    let (_, h1) = >>-eq-ok (exact_fields t ("kind" ∷ "name" ∷ []) "target") _ h in
    let (fits, same) =
      check-then
        (is_string (get t "name") && matches_engine_target (codes (text_of (get t "name")))) _ _
        h1 in
    let e : object (("kind", str "engine") ∷ ("name", get t "name") ∷ []) ≡ u = ok-injective same in
    subst (λ v. validate_target rp v ≡ ok v) e (ground (arith, fits))

local-Stable :
    (rp : String → Result String) (t u : Value)
    → local_target t ≡ ok u
    → StableAt (validate_target rp) u
unfolding StableAt local_target validate_target exact_fields
local-Stable rp t u h =
    let (_, same) = >>-eq-ok (exact_fields t ("kind" ∷ []) "target") _ h in
    let e : object (("kind", str "local") ∷ []) ≡ u = ok-injective same in
    subst (λ v. validate_target rp v ≡ ok v) e refl

target-Stable :
    (rp : String → Result String) (t u : Value)
    → validate_target rp t ≡ ok u
    → StableAt (validate_target rp) u
unfolding validate_target
target-Stable rp t u h =
    choose (is_text (get t "kind") "local") (is_text (get t "kind") "ssh")
      (is_text (get t "kind") "proxmox-lxc") (is_text (get t "kind") "engine") h
  where
    choose :
        (a b c d : Bool)
        → (if a
            then local_target t
            else if b
            then ssh_target rp t
            else if c
            then proxmox_target rp t
            else if d
            then engine_target t
            else err "target kind is unsupported")
          ≡ ok u
        → StableAt (validate_target rp) u
    choose true b c d k = local-Stable rp t u k
    choose false true c d k = ssh-Stable rp t u k
    choose false false true d k = proxmox-Stable rp t u k
    choose false false false true k = engine-Stable rp t u k
    choose false false false false k = cc

engine_workload-Stable : (w u : Value) → engine_workload w ≡ ok u → StableAt engine_workload u
unfolding StableAt engine_workload exact_fields
engine_workload-Stable w u h =
    let (_, h1) = >>-eq-ok (exact_fields w ("config" ∷ []) "workload") _ h in
    let (fits, same) = check-then (is_config_path (get w "config")) _ _ h1 in
    let e : object (("config", get w "config") ∷ []) ≡ u = ok-injective same in
    subst (λ v. engine_workload v ≡ ok v) e (ground (arith, fits))

job_workload-Stable : (w u : Value) → job_workload w ≡ ok u → StableAt job_workload u
unfolding StableAt job_workload exact_fields
job_workload-Stable w u h =
    let (_, h1) = >>-eq-ok (exact_fields w ("template" ∷ []) "workload") _ h in
    let (fits, same) = check-then (one_of_texts templates (get w "template")) _ _ h1 in
    let e : object (("template", get w "template") ∷ []) ≡ u = ok-injective same in
    subst (λ v. job_workload v ≡ ok v) e (ground (arith, fits))

service_workload-Stable : (w u : Value) → service_workload w ≡ ok u → StableAt service_workload u
unfolding StableAt service_workload exact_fields
service_workload-Stable w u h =
    let (_, h1) = >>-eq-ok (exact_fields w ("service" ∷ []) "workload") _ h in
    let (fits, same) = check-then (is_text (get w "service") "aurum") _ _ h1 in
    let e : object (("service", get w "service") ∷ []) ≡ u = ok-injective same in
    subst (λ v. service_workload v ≡ ok v) e (ground (arith, fits))

workload-Stable :
    (lifecycle runtime w target u : Value)
    → validate_workload lifecycle runtime w target ≡ ok u
    → StableAt (λ v. validate_workload lifecycle runtime v target) u
unfolding StableAt validate_workload
workload-Stable lifecycle runtime w target u h =
    ground
      (arith, h, engine_workload-Stable w u, job_workload-Stable w u, service_workload-Stable w u)

model-Stable :
    (m s target u : Value)
    → validate_model m s target ≡ ok u
    → validate_model u (object (("model", get s "model") ∷ [])) target ≡ ok u
unfolding validate_model exact_fields
model-Stable m s target u h =
    let (_, h1) = >>-eq-ok (exact_fields m ("provider" ∷ "fallback" ∷ []) "model") _ h in
    let (_, h2) = >>-eq-ok (exact_fields s ("model" ∷ []) "secretRefs") _ h1 in
    let (fits, h3) =
      check-then
        (one_of_texts ("openrouter" ∷ "local" ∷ []) (get m "provider")
          && is_text (get m "fallback") "disabled")
        _ _ h2 in
    let ((_, secret), same) =
      >>-eq-ok (check_secret (get m "provider") (get s "model") target) _ h3 in
    let e : object (("provider", get m "provider") ∷ ("fallback", get m "fallback") ∷ []) ≡ u =
      ok-injective same in
    subst (λ v. validate_model v (object (("model", get s "model") ∷ [])) target ≡ ok v) e
      (ground (arith, fits, secret))

limits-Stable :
    (fraction : String → Bool) (l u : Value)
    → validate_limits fraction l ≡ ok u
    → StableAt (validate_limits fraction) u
unfolding StableAt validate_limits exact_fields
limits-Stable fraction l u h =
    let (_, h1) =
      >>-eq-ok
        (exact_fields l ("memoryMiB" ∷ "cpus" ∷ "maxConcurrentRuns" ∷ "runTimeoutSeconds" ∷ [])
          "limits")
        _ h in
    let (cpus, h2) = check-then (is_cpus fraction (get l "cpus")) _ _ h1 in
    let (memory, h3) = check-then (in_range (get l "memoryMiB") 128 65536) _ _ h2 in
    let (runs, h4) = check-then (in_range (get l "maxConcurrentRuns") 1 8) _ _ h3 in
    let (time, same) = check-then (in_range (get l "runTimeoutSeconds") 1 7200) _ _ h4 in
    let e : object (
          ("memoryMiB", get l "memoryMiB")
          ∷ ("cpus", get l "cpus")
          ∷ ("maxConcurrentRuns", get l "maxConcurrentRuns")
          ∷ ("runTimeoutSeconds", get l "runTimeoutSeconds")
          ∷ [])
        ≡ u =
      ok-injective same in
    subst (λ v. validate_limits fraction v ≡ ok v) e (ground (arith, cpus, memory, runs, time))

-- The manifest that is returned for an accepted one is accepted again, and comes back as it is:
-- what was stored of a deployment can be validated at any time.
pub validate_deployment_manifest-Stable :
    (realpath : String → Result String) (fraction : String → Bool) (input manifest : Value)
    → validate_deployment_manifest realpath fraction input ≡ ok manifest
    → validate_deployment_manifest realpath fraction manifest ≡ ok manifest
unfolding validate_deployment_manifest exact_fields StableAt
validate_deployment_manifest-Stable rp fraction input manifest h =
    let (_, h1) = >>-eq-ok (exact_fields input manifest_fields "deployment manifest") _ h in
    let (_, h2) = check-then (is_nat (get input "schemaVersion") 1) _ _ h1 in
    let (client, h3) = check-then (is_id (get input "clientId")) _ _ h2 in
    let (agent, h4) = check-then (is_id (get input "agentId")) _ _ h3 in
    let (target, targeted, h5) = >>=-eq-ok (validate_target rp (get input "target")) _ h4 in
    let (workload, loaded, h6) =
      >>=-eq-ok
        (validate_workload (get input "lifecycle") (get input "runtime") (get input "workload")
          target)
        _ h5 in
    let (model, modelled, h7) =
      >>=-eq-ok (validate_model (get input "model") (get input "secretRefs") target) _ h6 in
    let (limits, limited, same) = >>=-eq-ok (validate_limits fraction (get input "limits")) _ h7 in
    let e : manifest_of input target workload model limits ≡ manifest = ok-injective same in
    subst (λ v. validate_deployment_manifest rp fraction v ≡ ok v) e
      (ground (
        arith,
        client,
        agent,
        target-Stable rp (get input "target") target targeted,
        workload-Stable (get input "lifecycle") (get input "runtime") (get input "workload") target
            workload loaded,
        model-Stable (get input "model") (get input "secretRefs") target model modelled,
        limits-Stable fraction (get input "limits") limits limited,
      ))
