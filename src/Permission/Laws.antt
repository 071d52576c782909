-- ===== src/Permission/Laws.antt =====
-- What an allowed, a denied and a thrown resolution mean, and how they depend on the capability.
use soa_harness_impl.Base.{
  ℕ, ◌≤◌, ◌<◌, ◌≡◌, ◌↔◌, inl, inr, refl, true, Option, none, some, arith, eq_iff, includes,
  Bool-cases, ◌∙◌, String,
}
use soa_harness_impl.Base.Result.{ok, err}
use soa_harness_impl.Registry.{
  RiskClass, read_only, mutating, egress, destructive, Control, prompt, deny,
}
use soa_harness_impl.Permission.{
  Capability, read_only_mode, workspace_write, danger_full_access, autonomous, allowed, pda_allow,
  CanonicalDecision, ResolveInput, ResolveOutcome, ConfigPrecedenceViolation, capability_permits,
  control_rank, resolve_permission, risk_key, prompt_outcome, resolve_override,
}

-- The permission matrix of the three capabilities, written out.
pub data Permits : Capability → RiskClass → Type 0 where
  reads : {c : Capability} → Permits c read_only
  workspace_mutates : Permits workspace_write mutating
  workspace_sends : Permits workspace_write egress
  anything : {r : RiskClass} → Permits danger_full_access r

Permits-of_includes :
    (c : Capability) (r : RiskClass) → includes (capability_permits c) r ≡ true → Permits c r
unfolding capability_permits
Permits-of_includes c read_only h = reads
Permits-of_includes workspace_write mutating h = workspace_mutates
Permits-of_includes workspace_write egress h = workspace_sends
Permits-of_includes danger_full_access _ h = anything
Permits-of_includes read_only_mode mutating h = cc
Permits-of_includes read_only_mode egress h = cc
Permits-of_includes read_only_mode destructive h = cc
Permits-of_includes workspace_write destructive h = cc

pub includes_of_Permits :
    (c : Capability) (r : RiskClass) → Permits c r → includes (capability_permits c) r ≡ true
unfolding capability_permits
includes_of_Permits read_only_mode _ reads = refl
includes_of_Permits workspace_write _ reads = refl
includes_of_Permits danger_full_access _ reads = refl
includes_of_Permits _ _ workspace_mutates = refl
includes_of_Permits _ _ workspace_sends = refl
includes_of_Permits _ read_only anything = refl
includes_of_Permits _ mutating anything = refl
includes_of_Permits _ egress anything = refl
includes_of_Permits _ destructive anything = refl

resolve_permits :
    (input : ResolveInput) (o : ResolveOutcome)
    → resolve_permission input ≡ ok o
    → o.decision ≡ allowed
    → includes (capability_permits input.capability) input.tool.risk_class ≡ true
unfolding resolve_permission
resolve_permits input o h a = ground arith

prompt_allowed :
    (name : String) (v : Option CanonicalDecision)
    → (prompt_outcome name v).decision ≡ allowed
    → (pda : CanonicalDecision) × (v ≡ some pda)
      × (pda.tool_name ≡ name)
      × (pda.decision ≡ pda_allow)
unfolding prompt_outcome
prompt_allowed name none h = cc
prompt_allowed name (some pda) h = (
  pda,
  refl,
  ground (arith, eq_iff pda.tool_name name),
  ground (arith, eq_iff pda.tool_name name),
)

-- An allowed invocation has a risk class that its capability permits, is not a Destructive tool in
-- the hands of an Autonomous handler, and has a control at least as tight as the registry's default
-- and other than Deny.
pub resolve-allowed :
    (input : ResolveInput) (o : ResolveOutcome)
    → resolve_permission input ≡ ok o
    → o.decision ≡ allowed
    → Permits input.capability input.tool.risk_class
      × ¬ ((input.handler ≡ autonomous) × (input.tool.risk_class ≡ destructive))
      × (control_rank input.tool.default_control ≤ control_rank o.effective_control)
      × (control_rank o.effective_control < control_rank deny)
unfolding resolve_permission
resolve-allowed input o h a = (
  Permits-of_includes _ _ (resolve_permits input o h a),
  ground arith,
  ground arith,
  ground arith,
)

-- An invocation that is allowed although its control is Prompt has a verified decision that names
-- this tool and says allow.
pub resolve-allowed_prompt :
    (input : ResolveInput) (o : ResolveOutcome)
    → resolve_permission input ≡ ok o
    → o.decision ≡ allowed
    → o.effective_control ≡ prompt
    → (pda : CanonicalDecision) × (input.verified_pda ≡ some pda)
      × (pda.tool_name ≡ input.tool.name)
      × (pda.decision ≡ pda_allow)
unfolding resolve_permission
resolve-allowed_prompt input o h a p =
    prompt_allowed input.tool.name input.verified_pda (ground arith)

-- More capability, in the order ReadOnly, WorkspaceWrite, DangerFullAccess.
abbrev pub capability_rank : Capability → ℕ
capability_rank read_only_mode = 0
capability_rank workspace_write = 1
capability_rank danger_full_access = 2

Permits-mono :
    (c d : Capability) (r : RiskClass)
    → capability_rank c ≤ capability_rank d
    → Permits c r
    → Permits d r
Permits-mono c d r h reads = reads
Permits-mono c read_only_mode r h workspace_mutates = absurd (omega arith)
Permits-mono c workspace_write r h workspace_mutates = workspace_mutates
Permits-mono c danger_full_access r h workspace_mutates = anything
Permits-mono c read_only_mode r h workspace_sends = absurd (omega arith)
Permits-mono c workspace_write r h workspace_sends = workspace_sends
Permits-mono c danger_full_access r h workspace_sends = anything
Permits-mono c read_only_mode r h anything = absurd (omega arith)
Permits-mono c workspace_write r h anything = absurd (omega arith)
Permits-mono c danger_full_access r h anything = anything

resolve_capability :
    (input : ResolveInput) (d : Capability)
    → includes (capability_permits input.capability) input.tool.risk_class ≡ true
    → includes (capability_permits d) input.tool.risk_class ≡ true
    → resolve_permission (record input { capability = d }) ≡ resolve_permission input
unfolding resolve_permission
resolve_capability input d p q = rw (p, q)

-- What a capability allows, every larger capability allows, with the same outcome.
pub resolve-capability_mono :
    (input : ResolveInput) (o : ResolveOutcome) (d : Capability)
    → capability_rank input.capability ≤ capability_rank d
    → resolve_permission input ≡ ok o
    → o.decision ≡ allowed
    → resolve_permission (record input { capability = d }) ≡ ok o
resolve-capability_mono input o d le h a =
    let p = resolve_permits input o h a in
    let q = Permits-mono input.capability d _ le (Permits-of_includes _ _ p) in
    resolve_capability input d p (includes_of_Permits d _ q) ∙ h

abbrev pub Throws : ResolveInput → Control → Option Control → ConfigPrecedenceViolation → Type 0
Throws input control requirement v =
    (requirement ≡ some v.attempted_control)
    × (control_rank v.attempted_control < control_rank control)
    × (v.registry_control ≡ control)
    × (v.tool_name ≡ input.tool.name)

override-Throws :
    (input : ResolveInput) (control : Control) (q : Option Control) (v : ConfigPrecedenceViolation)
    → (resolve_override input control q ≡ err v) ↔ Throws input control q v
unfolding resolve_override
override-Throws input control none v = (λ h. cc, λ h. cc (h.0))
override-Throws input control (some r) v = (λ h. ground arith, λ h. ground arith)

-- The resolver throws exactly when the capability permits the tool's risk class and the card's
-- requirement is looser than the registry's default; the error names the tool and both controls.
pub resolve-Throws :
    (input : ResolveInput) (v : ConfigPrecedenceViolation)
    → (resolve_permission input ≡ err v) ↔ (
        Permits input.capability input.tool.risk_class
        × Throws input input.tool.default_control input.tool_requirement v)
unfolding resolve_permission
resolve-Throws input v =
    elim (Bool-cases (includes (capability_permits input.capability) input.tool.risk_class)) [
      | inl y ↦ (
        λ h. (
          Permits-of_includes _ _ y,
          (override-Throws input input.tool.default_control input.tool_requirement v).0 (rw y at h),
        ),
        λ (p, t).
            rw y ((override-Throws input input.tool.default_control input.tool_requirement v).1 t),
      )
      | inr n ↦ (λ h. cc (rw n at h), λ (p, t). cc (n, includes_of_Permits _ _ p))
    ]
