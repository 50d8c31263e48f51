-- ===== src/Deployment/Target/Safe.antt =====
-- What ssh gets to read for a target that src/deployment-target.mjs has resolved.
use bimo.Base.{
  ok-injective, leb, length, ap, Bool-cases, ==_iff, and_left, and_right, arith, ℕ, String, Bool,
  true, false, not, List, [], ◌∷◌, ◌++◌, append_assoc, all, codes, some, Option-cases, Result, ok,
  >>=-eq-ok, check-then, ◌≡◌, ◌⊎◌, inl, inr, refl, sym, subst, ◌∙◌, ◌&&◌, ◌||◌, ◌==◌, is_lower,
  is_digit, if◌then◌else◌, text_eq,
}
use bimo.Js.{
  is_text-eq, Value, undefined, null, bool, nat, neg, real, arr, obj, other, is_truthy, is_array,
  has_own, str, object, get, or_else, to_text, is_text, elements,
}
use bimo.Deployment.Target.{
  is_alnum, matches_host, matches_user, at_sign, matches_parts, matches_ssh_target,
  validate_ssh_target, resolve_local, resolve_ssh, resolve_proxmox, resolve_deployment_target,
  docker, resolve_local_home, is_given, is_kind, is_word, target_prefix, local_command,
  remote_command, Command, command_for_target, first_of, rest_of, kind_of, matches_vmid,
}

-- a character of an SSH target
abbrev pub is_target_code : ℕ → Bool
is_target_code c = is_alnum c || c == b'.' || c == b'-' || c == b'_' || c == b'@'

-- not an option of ssh: the first character is a letter, a digit or `_`
abbrev pub is_no_option : List ℕ → Bool
is_no_option [] = false
is_no_option (c ∷ cs) = is_alnum c || c == b'_'

all-append :
    (p : ℕ → Bool) (xs ys : List ℕ) → all p xs ≡ true → all p ys ≡ true → all p (xs ++ ys) ≡ true
all-append p [] ys h k = k
all-append p (x ∷ xs) ys h k = ground (arith, h, k, all-append p xs ys)

all-weaken :
    (p q : ℕ → Bool)
    → ((c : ℕ) → p c ≡ true → q c ≡ true)
    → (cs : List ℕ) → all p cs ≡ true
    → all q cs ≡ true
all-weaken p q f [] h = refl
all-weaken p q f (c ∷ cs) h = ground (arith, h, f c, all-weaken p q f cs)

at_sign-here :
    (before cs : List ℕ) (c : ℕ) → (c == b'@') ≡ true → at_sign before (c ∷ cs) ≡ some (before, cs)
at_sign-here before cs c h = ground (arith, h)

at_sign-later :
    (before cs : List ℕ) (c : ℕ)
    → (c == b'@') ≡ false
    → at_sign before (c ∷ cs) ≡ at_sign (before ++ c ∷ []) cs
at_sign-later before cs c h = ground (arith, h)

at_sign-parts :
    (before cs user host : List ℕ)
    → at_sign before cs ≡ some (user, host)
    → user ++ b'@' ∷ host ≡ before ++ cs
at_sign-parts before [] user host h = cc
at_sign-parts before (c ∷ cs) user host h = elim (Bool-cases (c == b'@')) [
  | inl here ↦
      let e : c ≡ b'@' = (==_iff c b'@').0 here in
      let found : some (before, cs) ≡ some (user, host) = sym (at_sign-here before cs c here) ∙ h in
      let first : user ≡ before = cc in
      let last : host ≡ cs = cc in
      ap (λ u. u ++ b'@' ∷ host) first
      ∙ ap (λ t. before ++ b'@' ∷ t) last
      ∙ ap (λ d. before ++ d ∷ cs) (sym e)
  | inr apart ↦
      at_sign-parts (before ++ c ∷ []) cs user host (sym (at_sign-later before cs c apart) ∙ h)
      ∙ append_assoc before (c ∷ []) cs
]

host-codes :
    (cs : List ℕ)
    → matches_host cs ≡ true
    → (is_no_option cs ≡ true) × (all is_target_code cs ≡ true)
host-codes [] h = cc
host-codes (c ∷ cs) h = (
  ground (arith, h),
  ground (
    arith,
    h,
    all-weaken (λ d. is_alnum d || d == b'.' || d == b'-') is_target_code (λ d k. ground (arith, k))
        cs,
  ),
)

user-codes :
    (cs : List ℕ)
    → matches_user cs ≡ true
    → (is_no_option cs ≡ true) × (all is_target_code cs ≡ true)
user-codes [] h = cc
user-codes (c ∷ cs) h = (
  ground (arith, h),
  ground (
    arith,
    h,
    all-weaken (λ d. is_lower d || is_digit d || d == b'_' || d == b'-') is_target_code
        (λ d k. ground (arith, k)) cs,
  ),
)

no_option-append : (xs ys : List ℕ) → is_no_option xs ≡ true → is_no_option (xs ++ ys) ≡ true
no_option-append [] ys h = cc
no_option-append (x ∷ xs) ys h = h

-- A text that the pattern of SSH targets matches is no option of ssh, and has none of the
-- characters that a shell reads as more than themselves.
pub ssh_target-codes :
    (cs : List ℕ)
    → matches_ssh_target cs ≡ true
    → (is_no_option cs ≡ true) × (all is_target_code cs ≡ true)
unfolding matches_ssh_target
ssh_target-codes cs h = elim (Option-cases (at_sign [] cs)) [
  | inl no_user ↦ host-codes cs (subst (λ o. matches_parts cs o ≡ true) no_user h)
  | inr ((user, host), found) ↦
      let both : (matches_user user && matches_host host) ≡ true =
        subst (λ o. matches_parts cs o ≡ true) found h in
      let (starts_well, user_codes) =
        user-codes user (and_left (matches_user user) (matches_host host) both) in
      let (_, host_codes) =
        host-codes host (and_right (matches_user user) (matches_host host) both) in
      let whole : user ++ b'@' ∷ host ≡ cs = at_sign-parts [] cs user host found in
      (
        subst (λ t. is_no_option t ≡ true) whole (no_option-append user (b'@' ∷ host) starts_well),
        subst (λ t. all is_target_code t ≡ true) whole
            (all-append is_target_code user (b'@' ∷ host) user_codes host_codes),
      )
]

-- The target of a resolved SSH or Proxmox target is a text of the pattern.
validate_ssh_target-codes :
    (v t : Value)
    → validate_ssh_target v ≡ ok t
    → (t ≡ v) × (matches_ssh_target (codes (to_text (or_else v (str "")))) ≡ true)
unfolding validate_ssh_target
validate_ssh_target-codes v t h = (ground (arith, h), ground (arith, h))

given_text :
    (v : Value)
    → matches_ssh_target (codes (to_text (or_else v (str "")))) ≡ true
    → matches_ssh_target (codes (to_text v)) ≡ true
unfolding matches_ssh_target to_text
given_text undefined h = cc
given_text null h = cc
given_text (str s) h = h
given_text (bool b) h = h
given_text (nat n) h = h
given_text (neg n) h = h
given_text (real s) h = h
given_text (arr vs) h = h
given_text (obj fs) h = h
given_text (other n) h = h

-- what a resolved target is: local, or one with a text that the pattern matches
pub record RemoteTarget (t : Value) : Type 0 where
  pub remote : is_text (get t "kind") "local" ≡ false
  pub no_option : is_no_option (codes (to_text (get t "sshTarget"))) ≡ true
  pub plain : all is_target_code (codes (to_text (get t "sshTarget"))) ≡ true

remote-from :
    (t v u : Value)
    → is_text (get t "kind") "local" ≡ false
    → get t "sshTarget" ≡ u
    → validate_ssh_target v ≡ ok u
    → RemoteTarget t
remote-from t v u remote target checked =
    let (same, matched) = validate_ssh_target-codes v u checked in
    let whole = target ∙ same in
    let (first, every) = ssh_target-codes (codes (to_text v)) (given_text v matched) in
    record {
      remote = remote;
      no_option = subst (λ z. is_no_option (codes (to_text z)) ≡ true) (sym whole) first;
      plain = subst (λ z. all is_target_code (codes (to_text z)) ≡ true) (sym whole) every;
    }

ssh-RemoteTarget : (options t : Value) → resolve_ssh options ≡ ok t → RemoteTarget t
unfolding resolve_ssh
ssh-RemoteTarget options t h =
    let (_, h1) = check-then (has_own options "host" && is_truthy (get options "host")) _ _ h in
    let (_, h2) = check-then (not (has_own options "proxmox")) _ _ h1 in
    let (_, h3) = check-then (not (has_own options "vmid")) _ _ h2 in
    let (u, checked, same) = >>=-eq-ok (validate_ssh_target (get options "host")) _ h3 in
    let e : object (("kind", str "ssh") ∷ docker ∷ ("sshTarget", u) ∷ []) ≡ t = ok-injective same in
    subst RemoteTarget e (remote-from _ (get options "host") u refl refl checked)

proxmox-RemoteTarget : (options t : Value) → resolve_proxmox options ≡ ok t → RemoteTarget t
unfolding resolve_proxmox
proxmox-RemoteTarget options t h =
    let (_, h1) = check-then (not (has_own options "host")) _ _ h in
    let (_, h2) =
      check-then (has_own options "proxmox" && is_truthy (get options "proxmox")) _ _ h1 in
    let (u, checked, h3) = >>=-eq-ok (validate_ssh_target (get options "proxmox")) _ h2 in
    let (_, same) =
      check-then (matches_vmid (codes (to_text (or_else (get options "vmid") (str ""))))) _ _ h3 in
    let e : object (
          ("kind", str "proxmox-lxc")
          ∷ docker
          ∷ ("sshTarget", u)
          ∷ ("vmid", get options "vmid")
          ∷ [])
        ≡ t =
      ok-injective same in
    subst RemoteTarget e (remote-from _ (get options "proxmox") u refl refl checked)

local-kind :
    (realpath : String → Result String) (options home t : Value)
    → resolve_local realpath options home ≡ ok t
    → is_text (get t "kind") "local" ≡ true
unfolding resolve_local
local-kind realpath options home t h =
    let (_, h1) = check-then (not (has_own options "host")) _ _ h in
    let (_, h2) = check-then (not (has_own options "proxmox")) _ _ h1 in
    let (_, h3) = check-then (not (has_own options "vmid")) _ _ h2 in
    let (p, _, same) = >>=-eq-ok (resolve_local_home realpath home) _ h3 in
    let e : object (("kind", str "local") ∷ docker ∷ ("home", str p) ∷ []) ≡ t =
      ok-injective same in
    subst (λ z. is_text (get z "kind") "local" ≡ true) e refl

resolved-cases :
    (realpath : String → Result String) (options home t : Value)
    → resolve_deployment_target realpath options home ≡ ok t
    → (is_text (get t "kind") "local" ≡ true) ⊎ RemoteTarget t
unfolding resolve_deployment_target
resolved-cases realpath options home t h =
    let (_, h1) =
      check-then (not (is_given (get options "target")) || is_kind (get options "target")) _ _ h in
    let (_, h2) =
      check-then
        (is_truthy (get options "target")
          || not (has_own options "host" && has_own options "proxmox"))
        _ _ h1 in
    choose (text_eq (kind_of options) "local") (text_eq (kind_of options) "ssh") h2
  where
    choose :
        (a b : Bool)
        → (if a
            then resolve_local realpath options home
            else if b
            then resolve_ssh options
            else resolve_proxmox options)
          ≡ ok t
        → (is_text (get t "kind") "local" ≡ true) ⊎ RemoteTarget t
    choose true b k = inl (local-kind realpath options home t k)
    choose false true k = inr (ssh-RemoteTarget options t k)
    choose false false k = inr (proxmox-RemoteTarget options t k)

-- the words of a command on a target
abbrev pub words : Command → List Value
words c = c.command ∷ c.args

abbrev pub ssh_words : List Value
ssh_words =
    str "ssh" ∷ str "-o" ∷ str "BatchMode=yes" ∷ str "-o" ∷ str "StrictHostKeyChecking=yes" ∷ []

first-rest : (vs : List Value) → leb 1 (length vs) ≡ true → first_of vs ∷ rest_of vs ≡ vs
first-rest [] h = cc
first-rest (v ∷ vs) h = refl

command-cases :
    (t command : Value) (c : Command)
    → command_for_target t command ≡ ok c
    → (is_text (get t "kind") "local" ≡ true → words c ≡ elements command)
      × (is_text (get t "kind") "local" ≡ false
          → words c ≡ ssh_words ++ get t "sshTarget" ∷ (target_prefix t ++ elements command))
unfolding command_for_target
command-cases t command c h =
    let vs = elements command in
    let (passed, same) =
      check-then (is_kind (get t "kind") && is_array command && leb 1 (length vs) && all is_word vs)
        _ _ h in
    let long : leb 1 (length vs) ≡ true = ground (arith, passed) in
    let e = ok-injective same in
    let chosen : Bool → Command = λ b. if b then local_command vs else remote_command t vs in
    (
      λ local. ap words (sym e ∙ ap chosen local) ∙ first-rest vs long,
      λ remote. ap words (sym e ∙ ap chosen remote),
    )

true-not-false : true ≡ false → ⊥
true-not-false h = cc

ssh-apart : (v : Value) → is_text v "ssh" ≡ true → is_text v "local" ≡ false
ssh-apart v h = subst (λ z. is_text z "local" ≡ false) (sym (is_text-eq v "ssh" h)) refl

lxc-apart : (v : Value) → is_text v "proxmox-lxc" ≡ true → is_text v "local" ≡ false
lxc-apart v h = subst (λ z. is_text z "local" ≡ false) (sym (is_text-eq v "proxmox-lxc" h)) refl

ssh-prefix : (t : Value) → is_text (get t "kind") "ssh" ≡ true → target_prefix t ≡ []
ssh-prefix t h =
    let other : is_text (get t "kind") "proxmox-lxc" ≡ false =
      subst (λ z. is_text z "proxmox-lxc" ≡ false) (sym (is_text-eq (get t "kind") "ssh" h)) refl in
    rw other refl

lxc-prefix :
    (t : Value)
    → is_text (get t "kind") "proxmox-lxc" ≡ true
    → target_prefix t ≡ str "pct" ∷ str "exec" ∷ get t "vmid" ∷ str "--" ∷ []
lxc-prefix t h = rw h refl

kind-cases :
    (v : Value)
    → is_kind v ≡ true
    → (is_text v "local" || is_text v "ssh" || is_text v "proxmox-lxc") ≡ true
kind-cases v h = ground (arith, h)

command-kind :
    (t command : Value) (c : Command)
    → command_for_target t command ≡ ok c
    → (is_text (get t "kind") "local"
        || is_text (get t "kind") "ssh"
        || is_text (get t "kind") "proxmox-lxc")
      ≡ true
unfolding command_for_target
command-kind t command c h =
    let vs = elements command in
    let (passed, _) =
      check-then (is_kind (get t "kind") && is_array command && leb 1 (length vs) && all is_word vs)
        _ _ h in
    kind-cases (get t "kind") (ground (arith, passed))

-- A command for a resolved target runs as it was given, word by word: if the target is local it is
-- the command itself; if not, it follows the fixed options of ssh, the SSH target, which is no
-- option and has only plain characters, and for a container the words of pct exec.
pub command_for_target-Safe :
    (realpath : String → Result String) (options home t command : Value) (c : Command)
    → resolve_deployment_target realpath options home ≡ ok t
    → command_for_target t command ≡ ok c
    → (is_text (get t "kind") "local" ≡ true → words c ≡ elements command)
      × (is_text (get t "kind") "ssh" ≡ true
          → RemoteTarget t × (words c ≡ ssh_words ++ get t "sshTarget" ∷ elements command))
      × (is_text (get t "kind") "proxmox-lxc" ≡ true
          → RemoteTarget t
            × (words c
                ≡ ssh_words
                  ++ get t "sshTarget"
                    ∷ str "pct"
                    ∷ str "exec"
                    ∷ get t "vmid"
                    ∷ str "--"
                    ∷ elements command))
      × ((is_text (get t "kind") "local"
            || is_text (get t "kind") "ssh"
            || is_text (get t "kind") "proxmox-lxc")
          ≡ true)
command_for_target-Safe realpath options home t command c h k =
    let (near, far) = command-cases t command c k in
    let remote : is_text (get t "kind") "local" ≡ false → RemoteTarget t = λ apart.
      elim (resolved-cases realpath options home t h) [
        | inl local ↦ absurd (true-not-false (sym local ∙ apart))
        | inr there ↦ there
      ] in
    (
      near,
      λ ssh.
          let apart = ssh-apart (get t "kind") ssh in
          (
            remote apart,
            far apart
                ∙ ap (λ p. ssh_words ++ get t "sshTarget" ∷ (p ++ elements command))
                    (ssh-prefix t ssh),
          ),
      λ lxc.
          let apart = lxc-apart (get t "kind") lxc in
          (
            remote apart,
            far apart
                ∙ ap (λ p. ssh_words ++ get t "sshTarget" ∷ (p ++ elements command))
                    (lxc-prefix t lxc),
          ),
      command-kind t command c k,
    )
