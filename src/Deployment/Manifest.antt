-- ===== src/Deployment/Manifest.antt =====
-- src/deployment-contract.mjs: the manifest of a deployment, and the plan made of it. A value has no
-- accessors and no symbols for keys here. Whether a fraction lies between a quarter and 64 is a
-- parameter, since a fraction is known by its text.
pub mod Stable
use bimo.Base.{
  ℕ, String, Bool, true, false, not, List, [], ◌∷◌, ◌++◌, length, all, leb, codes, begins, mem_text,
  text_eq, ◌<>◌, Result, ok, err, check, each, ◌>>◌, ◌>>=◌, ◌&&◌, ◌||◌, ◌==◌, if◌then◌else◌,
  is_lower, is_digit, some_code, includes_code,
}
use bimo.Js.{
  Value, null, nat, real, bool, str, arr, obj, texts, object, get, keys_of, has_own, in_range,
  is_string, is_text, is_nat, is_null, is_plain_object, text_of, to_text,
}
use bimo.Contract.Fields.{Checked, matches_name}
use bimo.Contract.Paths.{backslash}
use bimo.Workflow.Fields.{units}
use bimo.Deployment.Target.{resolve_deployment_target, last_code, matches_vmid}

-- `assertExactFields`
unfoldable pub exact_fields : Value → List String → String → Checked
exact_fields value fields label = do
  check (is_plain_object value) (label <> " must be a plain object")
  check (length (keys_of value) == length fields && all (λ k. mem_text k fields) (keys_of value))
      (label <> " has an invalid field set")
  each (λ k. check (has_own value k) (label <> " must contain only enumerable data fields")) fields

-- ID, as a test on a value
abbrev pub is_id : Value → Bool
is_id v = is_string v && matches_name (codes (text_of v))

-- ENGINE_TARGET: [a-z0-9](?:[a-z0-9-]{0,61}[a-z0-9])?
abbrev pub is_small : ℕ → Bool
is_small c = is_lower c || is_digit c

abbrev pub matches_engine_target : List ℕ → Bool
matches_engine_target [] = false
matches_engine_target (c ∷ cs) =
    is_small c
    && all (λ d. is_small d || d == b'-') cs
    && is_small (last_code c cs)
    && leb (length cs) 62

-- the pieces between slashes
abbrev onto_first : ℕ → List (List ℕ) → List (List ℕ)
onto_first c [] = (c ∷ []) ∷ []
onto_first c (piece ∷ pieces) = (c ∷ piece) ∷ pieces

abbrev pub pieces_of : List ℕ → List (List ℕ)
pieces_of [] = [] ∷ []
pieces_of (c ∷ cs) = let rest = pieces_of cs in if c == b'/' then [] ∷ rest else onto_first c rest

abbrev sized : (ℕ → Bool) → ℕ → List ℕ → Bool
sized p most cs = all p cs && leb 1 (length cs) && leb (length cs) most

-- ENGINE_HANDLE
abbrev pub matches_engine_handle : List (List ℕ) → Bool
matches_engine_handle (a ∷ b ∷ []) =
    sized (λ c. is_small c || c == b'-') 63 a
    && sized (λ c. is_small c || c == b'.' || c == b'_' || c == b'-') 63 b
matches_engine_handle _ = false

-- [\u0000-\u001f\u007f]
abbrev is_control : ℕ → Bool
is_control c = leb c 31 || c == 127

-- SECRET_REF: op://VAULT/ITEM/FIELD
abbrev pub matches_secret_ref : List (List ℕ) → Bool
matches_secret_ref (scheme ∷ [] ∷ a ∷ b ∷ c ∷ []) =
    same_scheme scheme && sized plain 255 a && sized plain 255 b && sized plain 255 c
  where
    same_scheme : List ℕ → Bool
    same_scheme (x ∷ y ∷ z ∷ []) = x == b'o' && y == b'p' && z == b':'
    same_scheme _ = false

    plain : ℕ → Bool
    plain d = not (is_control d)
matches_secret_ref _ = false

abbrev pub one_of_texts : List String → Value → Bool
one_of_texts names v = is_string v && mem_text (text_of v) names

abbrev pub manifest_fields : List String
manifest_fields =
    "schemaVersion" ∷ "clientId" ∷ "agentId" ∷ "lifecycle" ∷ "runtime" ∷ "target" ∷ "workload"
    ∷ "model" ∷ "secretRefs" ∷ "limits" ∷ []

abbrev pub templates : List String
templates = "react-solo" ∷ "react-app" ∷ "parallel-engineering-pod" ∷ "pi-palantir-pod" ∷ []

abbrev pub short_text : Value → ℕ → Bool
short_text v most = is_string v && leb (units (text_of v)) most

-- the branches of `validateTarget`
unfoldable pub local_target : Value → Result Value
local_target target = do
  exact_fields target ("kind" ∷ []) "target"
  ok (object (("kind", str "local") ∷ []))

module _ (realpath : String → Result String) where
  unfoldable pub ssh_target : Value → Result Value
  ssh_target target = do
    exact_fields target ("kind" ∷ "host" ∷ []) "target"
    check (short_text (get target "host") 300) "target host is invalid"
    resolve_deployment_target realpath
        (object (("target", str "ssh") ∷ ("host", get target "host") ∷ [])) (str "/")
    ok (object (("kind", str "ssh") ∷ ("host", get target "host") ∷ []))

  unfoldable pub proxmox_target : Value → Result Value
  proxmox_target target = do
    exact_fields target ("kind" ∷ "proxmox" ∷ "vmid" ∷ []) "target"
    check
        (short_text (get target "proxmox") 300
          && is_string (get target "vmid")
          && matches_vmid (codes (text_of (get target "vmid"))))
        "target Proxmox configuration is invalid"
    resolve_deployment_target realpath
        (object (
          ("target", str "proxmox-lxc")
          ∷ ("proxmox", get target "proxmox")
          ∷ ("vmid", get target "vmid")
          ∷ []))
        (str "/")
    ok (
        object (
          ("kind", str "proxmox-lxc")
          ∷ ("proxmox", get target "proxmox")
          ∷ ("vmid", get target "vmid")
          ∷ []))

unfoldable pub engine_target : Value → Result Value
engine_target target = do
  exact_fields target ("kind" ∷ "name" ∷ []) "target"
  check
      (is_string (get target "name") && matches_engine_target (codes (text_of (get target "name"))))
      "engine target name is invalid"
  ok (object (("kind", str "engine") ∷ ("name", get target "name") ∷ []))

-- `validateTarget`
unfoldable pub validate_target : (String → Result String) → Value → Result Value
validate_target realpath target =
    if is_text (get target "kind") "local"
    then local_target target
    else if is_text (get target "kind") "ssh"
    then ssh_target realpath target
    else if is_text (get target "kind") "proxmox-lxc"
    then proxmox_target realpath target
    else if is_text (get target "kind") "engine"
    then engine_target target
    else err "target kind is unsupported"

-- `validateEngineConfigPath`
abbrev pub is_config_path : Value → Bool
is_config_path v =
    is_string v
    && leb 1 (units (text_of v))
    && leb (units (text_of v)) 1024
    && not (
        some_code is_control (text_of v)
        || begins (text_of v) "/"
        || includes_code backslash (text_of v))

-- the branches of `validateWorkload`
unfoldable pub engine_workload : Value → Result Value
engine_workload workload = do
  exact_fields workload ("config" ∷ []) "workload"
  check (is_config_path (get workload "config"))
      "engine workload config must be a relative directory path"
  ok (object (("config", get workload "config") ∷ []))

unfoldable pub job_workload : Value → Result Value
job_workload workload = do
  exact_fields workload ("template" ∷ []) "workload"
  check (one_of_texts templates (get workload "template")) "job template is unsupported"
  ok (object (("template", get workload "template") ∷ []))

unfoldable pub service_workload : Value → Result Value
service_workload workload = do
  exact_fields workload ("service" ∷ []) "workload"
  check (is_text (get workload "service") "aurum") "service workload is unsupported"
  ok (object (("service", get workload "service") ∷ []))

-- `validateWorkload`
unfoldable pub validate_workload : Value → Value → Value → Value → Result Value
validate_workload lifecycle runtime workload target =
    if is_text (get target "kind") "engine"
    then (check (is_text lifecycle "service" && is_text runtime "hermes")
          "engine targets run Hermes services only"
        >> engine_workload workload)
    else if is_text lifecycle "job" && one_of_texts ("opencode" ∷ "pi" ∷ []) runtime
    then job_workload workload
    else if is_text lifecycle "service" && is_text runtime "hermes"
    then service_workload workload
    else err "runtime and lifecycle combination is unsupported"

-- the secret of a model, by its provider and the kind of the target
unfoldable pub check_secret : Value → Value → Value → Checked
check_secret provider secret target =
    if is_text (get target "kind") "engine"
    then (check (is_text provider "openrouter")
          "engine targets support the openrouter model provider only"
        >> check (is_string secret && matches_engine_handle (pieces_of (codes (text_of secret))))
            "engine model secret must be a TENANT/NAME handle")
    else if is_text provider "openrouter"
    then check (is_string secret && matches_secret_ref (pieces_of (codes (text_of secret))))
        "model secret must be a 1Password reference"
    else check (is_null secret) "local model secret reference must be null"

-- `validateModel`
unfoldable pub validate_model : Value → Value → Value → Result Value
validate_model model secret_refs target = do
  exact_fields model ("provider" ∷ "fallback" ∷ []) "model"
  exact_fields secret_refs ("model" ∷ []) "secretRefs"
  check
      (one_of_texts ("openrouter" ∷ "local" ∷ []) (get model "provider")
        && is_text (get model "fallback") "disabled")
      "model policy is unsupported"
  check_secret (get model "provider") (get secret_refs "model") target
  ok (object (("provider", get model "provider") ∷ ("fallback", get model "fallback") ∷ []))

-- `Number.isFinite(cpus) && cpus >= 0.25 && cpus <= 64`
abbrev pub is_cpus : (String → Bool) → Value → Bool
is_cpus fraction (nat n) = leb 1 n && leb n 64
is_cpus fraction (real s) = fraction s
is_cpus fraction _ = false

-- `validateLimits`
unfoldable pub validate_limits : (String → Bool) → Value → Result Value
validate_limits fraction limits = do
  exact_fields limits ("memoryMiB" ∷ "cpus" ∷ "maxConcurrentRuns" ∷ "runTimeoutSeconds" ∷ [])
      "limits"
  check (is_cpus fraction (get limits "cpus")) "CPU limit is invalid"
  check (in_range (get limits "memoryMiB") 128 65536) "memory limit is invalid"
  check (in_range (get limits "maxConcurrentRuns") 1 8) "concurrency limit is invalid"
  check (in_range (get limits "runTimeoutSeconds") 1 7200) "run timeout is invalid"
  ok (
      object (
        ("memoryMiB", get limits "memoryMiB")
        ∷ ("cpus", get limits "cpus")
        ∷ ("maxConcurrentRuns", get limits "maxConcurrentRuns")
        ∷ ("runTimeoutSeconds", get limits "runTimeoutSeconds")
        ∷ []))

-- the manifest that is returned, from its checked parts
abbrev pub manifest_of : Value → Value → Value → Value → Value → Value
manifest_of input target workload model limits = object (
    ("schemaVersion", nat 1)
    ∷ ("clientId", get input "clientId")
    ∷ ("agentId", get input "agentId")
    ∷ ("lifecycle", get input "lifecycle")
    ∷ ("runtime", get input "runtime")
    ∷ ("target", target)
    ∷ ("workload", workload)
    ∷ ("model", model)
    ∷ ("secretRefs", object (("model", get (get input "secretRefs") "model") ∷ []))
    ∷ ("limits", limits)
    ∷ [])

-- `validateDeploymentManifest`
unfoldable pub validate_deployment_manifest :
    (String → Result String) → (String → Bool) → Value → Result Value
validate_deployment_manifest realpath fraction input = do
  exact_fields input manifest_fields "deployment manifest"
  check (is_nat (get input "schemaVersion") 1) "deployment manifest schemaVersion must be 1"
  check (is_id (get input "clientId")) "client ID is invalid"
  check (is_id (get input "agentId")) "agent ID is invalid"
  target ← validate_target realpath (get input "target")
  workload ←
      validate_workload (get input "lifecycle") (get input "runtime") (get input "workload") target
  model ← validate_model (get input "model") (get input "secretRefs") target
  limits ← validate_limits fraction (get input "limits")
  ok (manifest_of input target workload model limits)

abbrev plan_only : String
plan_only = "Plan only: no deployment or durable identity has been created."

abbrev engine_limitations : List String
engine_limitations =
    plan_only
    ∷ "Execute with bimo agent apply on this manifest; the Bimo engine places the agent on the named target."
    ∷ "The engine sizes guests from the target configuration; the manifest's limits are not applied."
    ∷ "The secret handle, the target and the configuration directory are checked by bimo agent validate, not by this command."
    ∷ []

abbrev other_limitations : Value → List String
other_limitations manifest =
    plan_only
    ∷ "Resource limits, credential bindings and client isolation have not been applied or enforced."
    ∷ ((if is_text (get manifest "lifecycle") "service"
          then "The Hermes service executor is not implemented." ∷ []
          else [])
        ++ (if is_text (get (get manifest "model") "provider") "local"
            then "The local model provider is not implemented." ∷ []
            else []))

-- `planDeployment`
unfoldable pub plan_deployment : (String → Result String) → (String → Bool) → Value → Result Value
plan_deployment realpath fraction input = do
  manifest ← validate_deployment_manifest realpath fraction input
  let engine = is_text (get (get manifest "target") "kind") "engine"
  ok (
      object (
        ("schemaVersion", nat 1)
        ∷ ("planOnly", bool true)
        ∷ ("executionSupported", bool engine)
        ∷ (
          "identity",
          str (to_text (get manifest "clientId") <> "/" <> to_text (get manifest "agentId")),
        )
        ∷ ("manifest", manifest)
        ∷ (
          "limitations",
          arr (texts (if engine then engine_limitations else other_limitations manifest)),
        )
        ∷ []))
