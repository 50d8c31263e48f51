-- ===== src/Deployment/Target.antt =====
-- src/deployment-target.mjs: the target of a deployment, its commands and its directories. What
-- `realpathSync.native` answers for a path is a parameter: the real path, or an error.
pub mod Safe
use bimo.Base.{
  ℕ, suc, String, Bool, true, false, not, List, [], ◌∷◌, ◌++◌, length, all, any, leb, codes,
  mem_text, text_eq, is_absolute, normalize, join_slash, ◌<>◌, Option, none, some, Result, ok, err,
  check, from_ok, ◌>>◌, ◌>>=◌, ◌&&◌, ◌||◌, ◌==◌, if◌then◌else◌, is_upper, is_lower, is_digit,
  some_code,
}
use bimo.Js.{
  Value, undefined, str, object, get, has_own, is_string, is_text, text_of, to_text, or_else,
  is_truthy, is_array, elements, arr, texts, strict_equal,
}
use bimo.Contract.Fields.{matches_name}
use bimo.Workflow.Fields.{units}

abbrev pub is_alnum : ℕ → Bool
is_alnum c = is_upper c || is_lower c || is_digit c

abbrev pub last_code : ℕ → List ℕ → ℕ
last_code c [] = c
last_code c (d ∷ ds) = last_code d ds

-- [A-Za-z0-9](?:[A-Za-z0-9.-]{0,251}[A-Za-z0-9])?
abbrev pub matches_host : List ℕ → Bool
matches_host [] = false
matches_host (c ∷ cs) =
    is_alnum c
    && all (λ d. is_alnum d || d == b'.' || d == b'-') cs
    && is_alnum (last_code c cs)
    && leb (length cs) 252

-- [a-z_][a-z0-9_-]*
abbrev pub matches_user : List ℕ → Bool
matches_user [] = false
matches_user (c ∷ cs) =
    (is_lower c || c == b'_') && all (λ d. is_lower d || is_digit d || d == b'_' || d == b'-') cs

-- the codes before and after the first @
abbrev pub at_sign : List ℕ → List ℕ → Option (List ℕ × List ℕ)
at_sign before [] = none
at_sign before (c ∷ cs) =
    let later = at_sign (before ++ c ∷ []) cs in if c == b'@' then some (before, cs) else later

-- SSH_TARGET: a host, behind a user and an @ where there is one
abbrev pub matches_parts : List ℕ → Option (List ℕ × List ℕ) → Bool
matches_parts whole none = matches_host whole
matches_parts whole (some (user, host)) = matches_user user && matches_host host

unfoldable pub matches_ssh_target : List ℕ → Bool
matches_ssh_target cs = matches_parts cs (at_sign [] cs)

-- `validateSshTarget`
unfoldable pub validate_ssh_target : Value → Result Value
validate_ssh_target v = do
  check (matches_ssh_target (codes (to_text (or_else v (str "")))))
      "SSH target contains unsupported characters"
  ok v

-- the class `[\u0000\r\n]`
abbrev pub is_line_code : ℕ → Bool
is_line_code c = c == 0 || c == 13 || c == 10

-- `validateLocalHome`
unfoldable pub validate_local_home : Value → Result String
validate_local_home home = do
  check
      (is_string home
        && leb (units (text_of home)) 4096
        && is_absolute (text_of home)
        && text_eq (normalize (text_of home)) (text_of home)
        && not (some_code is_line_code (text_of home)))
      "local home directory must be canonical and absolute"
  ok (text_of home)

-- `resolveLocalHome`
abbrev missing_home : Result String → Result String
missing_home (ok path) = ok path
missing_home (err e) = err "local home directory must exist"

unfoldable pub resolve_local_home : (String → Result String) → Value → Result String
resolve_local_home realpath home = do
  validated ← validate_local_home home
  resolved ← missing_home (realpath validated)
  check (text_eq resolved validated) "local home directory must not be a symlink"
  ok validated

abbrev pub target_kinds : List String
target_kinds = "local" ∷ "ssh" ∷ "proxmox-lxc" ∷ []

-- `TARGET_KINDS.includes(value)`
abbrev pub is_kind : Value → Bool
is_kind v = is_string v && mem_text (text_of v) target_kinds

-- /^\d{1,9}$/
abbrev pub matches_vmid : List ℕ → Bool
matches_vmid cs = all is_digit cs && leb 1 (length cs) && leb (length cs) 9

abbrev pub docker : String × Value
docker = ("runtime", str "docker")

unfoldable pub resolve_local : (String → Result String) → Value → Value → Result Value
resolve_local realpath options home = do
  check (not (has_own options "host")) "--host is not valid with --target local"
  check (not (has_own options "proxmox")) "--proxmox is not valid with --target local"
  check (not (has_own options "vmid")) "--vmid is only valid with --target proxmox-lxc"
  resolved ← resolve_local_home realpath home
  ok (object (("kind", str "local") ∷ docker ∷ ("home", str resolved) ∷ []))

unfoldable pub resolve_ssh : Value → Result Value
resolve_ssh options = do
  check (has_own options "host" && is_truthy (get options "host"))
      "--host is required with --target ssh"
  check (not (has_own options "proxmox")) "--proxmox is only valid with --target proxmox-lxc"
  check (not (has_own options "vmid")) "--vmid is only valid with --target proxmox-lxc"
  target ← validate_ssh_target (get options "host")
  ok (object (("kind", str "ssh") ∷ docker ∷ ("sshTarget", target) ∷ []))

unfoldable pub resolve_proxmox : Value → Result Value
resolve_proxmox options = do
  check (not (has_own options "host")) "--host is only valid with --target ssh"
  check (has_own options "proxmox" && is_truthy (get options "proxmox"))
      "--proxmox is required with --target proxmox-lxc"
  target ← validate_ssh_target (get options "proxmox")
  check (matches_vmid (codes (to_text (or_else (get options "vmid") (str "")))))
      "--vmid must be numeric with --proxmox"
  ok (
      object (
        ("kind", str "proxmox-lxc")
        ∷ docker
        ∷ ("sshTarget", target)
        ∷ ("vmid", get options "vmid")
        ∷ []))

-- the kind asked for, or the one that the other options imply
abbrev pub kind_of : Value → String
kind_of options =
    if is_string (get options "target")
    then text_of (get options "target")
    else if has_own options "host"
    then "ssh"
    else if has_own options "proxmox"
    then "proxmox-lxc"
    else "local"

abbrev pub is_given : Value → Bool
is_given undefined = false
is_given _ = true

-- `resolveDeploymentTarget(options, { home })`
unfoldable pub resolve_deployment_target : (String → Result String) → Value → Value → Result Value
resolve_deployment_target realpath options home = do
  check (not (is_given (get options "target")) || is_kind (get options "target"))
      "--target must be local, ssh, or proxmox-lxc"
  check
      (is_truthy (get options "target")
        || not (has_own options "host" && has_own options "proxmox"))
      "use only one target"
  if text_eq (kind_of options) "local"
      then resolve_local realpath options home
      else if text_eq (kind_of options) "ssh"
      then resolve_ssh options
      else resolve_proxmox options

abbrev pub first_of : List Value → Value
first_of [] = undefined
first_of (v ∷ vs) = v

abbrev pub rest_of : List Value → List Value
rest_of [] = []
rest_of (v ∷ vs) = vs

abbrev pub is_word : Value → Bool
is_word v = is_string v && is_truthy v

-- the program of a command, and its arguments
pub record Command : Type 0 where
  pub command : Value
  pub args : List Value

-- `prefix`, of a target that is not local
abbrev pub target_prefix : Value → List Value
target_prefix target =
    if is_text (get target "kind") "proxmox-lxc"
    then str "pct" ∷ str "exec" ∷ get target "vmid" ∷ str "--" ∷ []
    else []

abbrev pub local_command : List Value → Command
local_command command = record { command = first_of command; args = rest_of command }

abbrev pub remote_command : Value → List Value → Command
remote_command target command = record {
  command = str "ssh";
  args =
      str "-o"
      ∷ str "BatchMode=yes"
      ∷ str "-o"
      ∷ str "StrictHostKeyChecking=yes"
      ∷ get target "sshTarget"
      ∷ (target_prefix target ++ command);
}

-- `commandForTarget(target, command)`
unfoldable pub command_for_target : Value → Value → Result Command
command_for_target target command = do
  check
      (is_kind (get target "kind")
        && is_array command
        && leb 1 (length (elements command))
        && all is_word (elements command))
      "invalid deployment target command"
  ok (
      if is_text (get target "kind") "local"
      then local_command (elements command)
      else remote_command target (elements command))

abbrev remote_root : String
remote_root = "/var/lib/bimo/deployments"

-- `path.join(...)`
abbrev join_path : List String → String
join_path parts = normalize (join_slash parts)

-- `deploymentRootForTarget(target, deployment)`, where the target of kind local has its home
unfoldable pub deployment_root_for_target : Value → Value → Result String
deployment_root_for_target target deployment = do
  check
      (is_kind (get target "kind") && matches_name (codes (to_text (or_else deployment (str "")))))
      "invalid deployment target root"
  let local = do
    home ← validate_local_home (get target "home")
    ok (join_path (home ∷ ".local" ∷ "share" ∷ "bimo" ∷ "deployments" ∷ to_text deployment ∷ []))
  if is_text (get target "kind") "local"
      then local
      else ok (remote_root <> "/" <> to_text deployment)

-- `isDeploymentHostRoot(hostRoot, deployment, { localHome })`
unfoldable pub is_deployment_host_root : Value → Value → Value → Bool
is_deployment_host_root root deployment local_home =
    let local = object (("kind", str "local") ∷ ("home", local_home) ∷ []) in
    is_string root
    && leb (units (text_of root)) 4096
    && matches_name (codes (to_text (or_else deployment (str ""))))
    && is_absolute (text_of root)
    && text_eq (normalize (text_of root)) (text_of root)
    && not (some_code is_line_code (text_of root))
    && (text_eq (text_of root) (remote_root <> "/" <> to_text deployment)
        || is_given local_home
          && text_eq (text_of root) (from_ok "" (deployment_root_for_target local deployment)))
