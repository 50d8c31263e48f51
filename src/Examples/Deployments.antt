-- ===== src/Examples/Deployments.antt =====
-- A Proxmox target and its command (src/deployment-target.mjs), and a manifest of a job
-- (src/deployment-contract.mjs).
use bimo.Base.{
  true, ◌||◌, String, Bool, false, [], ◌∷◌, ◌++◌, Result, ok, ◌≡◌, refl, split_from, split_slash,
  normalize, decimal,
}
use bimo.Js.{is_text, Value, nat, str, arr, texts, object, get, elements, to_text}
use bimo.Deployment.Target.{
  matches_ssh_target, validate_ssh_target, validate_local_home, resolve_local_home, resolve_local,
  resolve_ssh, resolve_proxmox, resolve_deployment_target, Command, command_for_target,
}
use bimo.Deployment.Target.Safe.{words, ssh_words, RemoteTarget, command_for_target-Safe}
use bimo.Deployment.Manifest.{
  exact_fields, ssh_target, local_target, proxmox_target, engine_target, validate_target,
  engine_workload, job_workload, service_workload, validate_workload, check_secret, validate_model,
  validate_limits, validate_deployment_manifest,
}
use bimo.Deployment.Manifest.Stable.{validate_deployment_manifest-Stable}

abbrev realpath : String → Result String
realpath path = ok path

abbrev options : Value
options = object (("proxmox", str "root@pve.example") ∷ ("vmid", str "101") ∷ [])

abbrev target : Value
target = object (
    ("kind", str "proxmox-lxc")
    ∷ ("runtime", str "docker")
    ∷ ("sshTarget", str "root@pve.example")
    ∷ ("vmid", str "101")
    ∷ [])

resolves : resolve_deployment_target realpath options (str "/home/a") ≡ ok target
unfolding matches_ssh_target validate_ssh_target validate_local_home resolve_local_home
    resolve_local resolve_ssh resolve_proxmox resolve_deployment_target to_text normalize split_from
    split_slash decimal
resolves = refl

abbrev command : Value
command = arr (texts ("ls" ∷ "-l" ∷ []))

abbrev remote : Command
remote = record {
  command = str "ssh";
  args =
      str "-o"
      ∷ str "BatchMode=yes"
      ∷ str "-o"
      ∷ str "StrictHostKeyChecking=yes"
      ∷ str "root@pve.example"
      ∷ str "pct"
      ∷ str "exec"
      ∷ str "101"
      ∷ str "--"
      ∷ str "ls"
      ∷ str "-l"
      ∷ [];
}

commands : command_for_target target command ≡ ok remote
unfolding command_for_target
commands = refl

command_for_target-Safe_example :
    (is_text (get target "kind") "local" ≡ true → words remote ≡ elements command)
    × (is_text (get target "kind") "ssh" ≡ true
        → RemoteTarget target
          × (words remote ≡ ssh_words ++ get target "sshTarget" ∷ elements command))
    × (is_text (get target "kind") "proxmox-lxc" ≡ true
        → RemoteTarget target
          × (words remote
              ≡ ssh_words
                ++ get target "sshTarget"
                  ∷ str "pct"
                  ∷ str "exec"
                  ∷ get target "vmid"
                  ∷ str "--"
                  ∷ elements command))
    × ((is_text (get target "kind") "local"
          || is_text (get target "kind") "ssh"
          || is_text (get target "kind") "proxmox-lxc")
        ≡ true)
command_for_target-Safe_example =
    command_for_target-Safe realpath options (str "/home/a") target command remote resolves commands

abbrev manifest : Value
manifest = object (
    ("schemaVersion", nat 1)
    ∷ ("clientId", str "acme")
    ∷ ("agentId", str "site")
    ∷ ("lifecycle", str "job")
    ∷ ("runtime", str "pi")
    ∷ ("target", object (("kind", str "ssh") ∷ ("host", str "deploy@host") ∷ []))
    ∷ ("workload", object (("template", str "react-app") ∷ []))
    ∷ ("model", object (("provider", str "openrouter") ∷ ("fallback", str "disabled") ∷ []))
    ∷ ("secretRefs", object (("model", str "op://v/i/f") ∷ []))
    ∷ (
      "limits",
      object (
          ("memoryMiB", nat 512)
          ∷ ("cpus", nat 1)
          ∷ ("maxConcurrentRuns", nat 1)
          ∷ ("runTimeoutSeconds", nat 600)
          ∷ []),
    )
    ∷ [])

abbrev no_fraction : String → Bool
no_fraction s = false

validates : validate_deployment_manifest realpath no_fraction manifest ≡ ok manifest
unfolding matches_ssh_target validate_ssh_target validate_local_home resolve_local_home
    resolve_local resolve_ssh resolve_proxmox resolve_deployment_target to_text normalize split_from
    split_slash decimal exact_fields ssh_target local_target proxmox_target engine_target
    validate_target engine_workload job_workload service_workload validate_workload check_secret
    validate_model validate_limits validate_deployment_manifest
validates = refl

validate_deployment_manifest-Stable_example :
    validate_deployment_manifest realpath no_fraction manifest ≡ ok manifest
validate_deployment_manifest-Stable_example =
    validate_deployment_manifest-Stable realpath no_fraction manifest manifest validates
