-- ===== src/Card/Precedence.antt =====
-- The guard is quiet exactly on a consistent configuration, and a quiet guard excludes the
-- resolver's ConfigPrecedenceViolation.
use soa_harness_impl.Base.{
  suc, lt→ltb, ◌≤◌, String, ◌≡◌, ◌≢◌, ◌↔◌, inl, inr, refl, false, Option, none, some, List, [], ◌∷◌,
  ◌++◌, arith, ◌==◌, if◌then◌else◌, string_key, eq_iff, includes, length, All, Bool-cases,
  some-injective, subst, subst₂,
}
use soa_harness_impl.Base.Result.{err}
use soa_harness_impl.Base.Dict
use soa_harness_impl.Base.Dict.{Dict}
use soa_harness_impl.Registry.{Control, control_of}
use soa_harness_impl.Permission.{
  control_rank, is_control_tightening_or_equal, ResolveInput, ConfigPrecedenceViolation,
  resolve_permission,
}
use soa_harness_impl.Permission.Laws.{resolve-Throws}
use soa_harness_impl.Card.{
  Requirements, CardPrecedenceCheckInput, active_mode_of, requirements_of, explore_violation,
  collisions, denylist_found, denylist_violation, loosened_by, loosenings, loosened_found,
  loosening_violation, check_card_precedence, Loosened,
}

abbrev KeepsDefault : Dict String Control → String × String → Type 0
KeepsDefault defaults (name, requirement) =
    (d c : Control)
    → Dict.get defaults name ≡ some d
    → control_of requirement ≡ some c
    → control_rank d ≤ control_rank c

abbrev NotDenied : List String → String × String → Type 0
NotDenied denied (name, requirement) = includes denied name ≡ false

-- The three axes of a configuration without contradictions.
pub record IsConsistent (input : CardPrecedenceCheckInput) : Type 0 where
  pub explore_reads :
      (mode : String)
      → input.card.agent_type ≡ some "explore"
      → active_mode_of input.card.permissions ≡ some mode
      → mode ≡ "ReadOnly"
  pub none_denied :
      (denied : List String) (reqs : Requirements)
      → input.agents_md_denied ≡ some denied
      → requirements_of input.card.permissions ≡ some reqs
      → All (NotDenied denied) reqs
  pub none_loosened :
      (defaults : Dict String Control) (reqs : Requirements)
      → input.tool_default_controls ≡ some defaults
      → requirements_of input.card.permissions ≡ some reqs
      → All (KeepsDefault defaults) reqs

append-nil_iff {ℓ} : {A : Type ℓ} (xs ys : List A) → ((xs ++ ys) ≡ []) ↔ ((xs ≡ []) × (ys ≡ []))
append-nil_iff [] ys = (λ h. (refl, h), λ h. h.1)
append-nil_iff (x ∷ xs) ys = (λ h. cc, λ h. cc (h.0))

loosened_by-nil :
    (name requirement : String) (d c : Option Control)
    → (loosened_by name requirement d c ≡ [])
      ↔ ((a b : Control) → d ≡ some a → c ≡ some b → control_rank a ≤ control_rank b)
unfolding loosened_by is_control_tightening_or_equal
loosened_by-nil name requirement none c = (λ h a b p q. cc, λ h. refl)
loosened_by-nil name requirement (some d) none = (λ h a b p q. cc, λ h. refl)
loosened_by-nil name requirement (some d) (some c) =
    (λ h a b p q. ground arith, λ h. ground (arith, h d c refl refl))

loosenings-nil :
    (defaults : Dict String Control) (reqs : Requirements)
    → (loosenings defaults reqs ≡ []) ↔ All (KeepsDefault defaults) reqs
unfolding loosenings
loosenings-nil defaults [] = (λ h. tt, λ h. refl)
loosenings-nil defaults ((name, requirement) ∷ rest) =
    let split =
      append-nil_iff
        (loosened_by name requirement (Dict.get defaults name) (control_of requirement))
        (loosenings defaults rest) in
    let here = loosened_by-nil name requirement (Dict.get defaults name) (control_of requirement) in
    let there = loosenings-nil defaults rest in
    (λ h. (here.0 (split.0 h).0, there.0 (split.0 h).1), λ h. split.1 (here.1 h.0, there.1 h.1))

collisions-nil :
    (denied : List String) (reqs : Requirements)
    → (collisions denied reqs ≡ []) ↔ All (NotDenied denied) reqs
unfolding collisions
collisions-nil denied [] = (λ h. tt, λ h. refl)
collisions-nil denied ((name, requirement) ∷ rest) =
    let there = collisions-nil denied rest in
    (λ h. (ground arith, there.0 (ground arith)), λ h. rw h.0 (there.1 h.1))

abbrev ExploreReads : Option String → Option String → Type 0
ExploreReads agent active =
    (mode : String) → agent ≡ some "explore" → active ≡ some mode → mode ≡ "ReadOnly"

explore_violation-nil :
    (agent active : Option String)
    → (explore_violation agent active ≡ []) ↔ ExploreReads agent active
unfolding explore_violation
explore_violation-nil none active = (λ h mode p q. cc, λ h. refl)
explore_violation-nil (some a) none = (λ h mode p q. cc, λ h. refl)
explore_violation-nil (some a) (some m) = (
  λ h mode p q. ground (arith, eq_iff a "explore", eq_iff m "ReadOnly"),
  λ h. ground (arith, eq_iff a "explore", eq_iff m "ReadOnly", h m),
)

nothing_denied : (reqs : Requirements) → All (NotDenied []) reqs
nothing_denied [] = tt
nothing_denied ((name, requirement) ∷ rest) = (refl, nothing_denied rest)

denylist_found-nil :
    (denied : List String) (reqs : Requirements) (ts : List String)
    → (denylist_found denied reqs ts ≡ []) ↔ (ts ≡ [])
unfolding denylist_found
denylist_found-nil denied reqs [] = (λ h. refl, λ h. refl)
denylist_found-nil denied reqs (t ∷ ts) = (λ h. cc, λ h. cc)

loosened_found-nil : (ls : List Loosened) → (loosened_found ls ≡ []) ↔ (ls ≡ [])
unfolding loosened_found
loosened_found-nil [] = (λ h. refl, λ h. refl)
loosened_found-nil (l ∷ ls) = (λ h. cc, λ h. cc)

-- A deny-list that is not empty is consulted.
denylist_violation-some :
    (d : String) (ds : List String) (r : Requirements)
    → denylist_violation (some (d ∷ ds)) (some r)
      ≡ denylist_found (d ∷ ds) r (collisions (d ∷ ds) r)
unfolding denylist_violation
denylist_violation-some d ds r = rw (lt→ltb 0 (suc (length ds)) (omega arith))

abbrev NoneDenied : Option (List String) → Option Requirements → Type 0
NoneDenied d r =
    (denied : List String) (reqs : Requirements)
    → d ≡ some denied
    → r ≡ some reqs
    → All (NotDenied denied) reqs

denylist_violation-nil :
    (d : Option (List String)) (r : Option Requirements)
    → (denylist_violation d r ≡ []) ↔ NoneDenied d r
unfolding denylist_violation
denylist_violation-nil none r = (λ h denied reqs p q. cc, λ h. refl)
denylist_violation-nil (some d) none = (λ h denied reqs p q. cc, λ h. refl)
denylist_violation-nil (some []) (some r) = (
  λ h denied reqs p q. subst (λ x. All (NotDenied x) reqs) (some-injective p) (nothing_denied reqs),
  λ h. refl,
)
denylist_violation-nil (some (d ∷ ds)) (some r) = (
  λ h denied reqs p q.
      subst₂ (λ x y. All (NotDenied x) y) (some-injective p) (some-injective q)
        ((collisions-nil (d ∷ ds) r).0
          ((denylist_found-nil (d ∷ ds) r _).0 (rw (denylist_violation-some d ds r) at h))),
  λ h. rw (denylist_violation-some d ds r) (
      (denylist_found-nil (d ∷ ds) r _).1 ((collisions-nil (d ∷ ds) r).1 (h (d ∷ ds) r refl refl))),
)

abbrev NoneLoosened : Option (Dict String Control) → Option Requirements → Type 0
NoneLoosened d r =
    (defaults : Dict String Control) (reqs : Requirements)
    → d ≡ some defaults
    → r ≡ some reqs
    → All (KeepsDefault defaults) reqs

loosening_violation-nil :
    (d : Option (Dict String Control)) (r : Option Requirements)
    → (loosening_violation d r ≡ []) ↔ NoneLoosened d r
unfolding loosening_violation
loosening_violation-nil none r = (λ h defaults reqs p q. cc, λ h. refl)
loosening_violation-nil (some d) none = (λ h defaults reqs p q. cc, λ h. refl)
loosening_violation-nil (some d) (some r) = (
  λ h defaults reqs p q.
      subst₂ (λ x y. All (KeepsDefault x) y) (some-injective p) (some-injective q)
        ((loosenings-nil d r).0 ((loosened_found-nil _).0 h)),
  λ h. (loosened_found-nil _).1 ((loosenings-nil d r).1 (h d r refl refl)),
)

-- The guard reports no violation exactly when the configuration is consistent on all three axes:
-- an explore agent has no active mode but ReadOnly, no required tool is on the deny-list of
-- AGENTS.md, and no requirement that is a control is looser than the default of its tool.
pub check_card_precedence-nil :
    (input : CardPrecedenceCheckInput) → (check_card_precedence input ≡ []) ↔ IsConsistent input
unfolding check_card_precedence
check_card_precedence-nil input =
    let explore =
      explore_violation-nil input.card.agent_type (active_mode_of input.card.permissions) in
    let deny =
      denylist_violation-nil input.agents_md_denied (requirements_of input.card.permissions) in
    let loose =
      loosening_violation-nil input.tool_default_controls
        (requirements_of input.card.permissions) in
    (
      λ h.
          let (p, q) = (append-nil_iff _ _).0 h in
          let (r, s) = (append-nil_iff _ _).0 q in
          record { explore_reads = explore.0 p; none_denied = deny.0 r; none_loosened = loose.0 s },
      λ c. (append-nil_iff _ _).1 (
        explore.1 c.explore_reads,
        (append-nil_iff _ _).1 (deny.1 c.none_denied, loose.1 c.none_loosened),
      ),
    )

-- The requirement that the card has for a tool: the value of its key in the record.
unfoldable pub requirement_for : Requirements → String → Option String
requirement_for [] name = none
requirement_for ((key, requirement) ∷ rest) name =
    if key == name then some requirement else requirement_for rest name

requirement_for-KeepsDefault :
    (defaults : Dict String Control) (reqs : Requirements) (name requirement : String)
    → All (KeepsDefault defaults) reqs
    → requirement_for reqs name ≡ some requirement
    → KeepsDefault defaults (name, requirement)
unfolding requirement_for
requirement_for-KeepsDefault defaults [] name requirement h e = cc
requirement_for-KeepsDefault defaults ((key, r) ∷ rest) name requirement h e =
    elim (Bool-cases (key == name)) [
      | inl same ↦
          subst₂ (λ x y. KeepsDefault defaults (x, y)) ((eq_iff key name).0 same)
            (some-injective (rw same at e)) h.0
      | inr other ↦ requirement_for-KeepsDefault defaults rest name requirement h.1 (rw other at e)
    ]

-- If the guard, run with the registry's default controls, reports no violation, then no invocation
-- of a registered tool under the card's requirement for it makes the resolver throw.
pub guard-excludes-throw :
    (input : CardPrecedenceCheckInput) (defaults : Dict String Control) (reqs : Requirements)
    → check_card_precedence input ≡ []
    → input.tool_default_controls ≡ some defaults
    → requirements_of input.card.permissions ≡ some reqs
    → (inv : ResolveInput) (requirement : String) (v : ConfigPrecedenceViolation)
    → Dict.get defaults inv.tool.name ≡ some inv.tool.default_control
    → requirement_for reqs inv.tool.name ≡ some requirement
    → inv.tool_requirement ≡ control_of requirement
    → resolve_permission inv ≢ err v
guard-excludes-throw input defaults reqs quiet p q inv requirement v known listed cast thrown =
    let c = (check_card_precedence-nil input).0 quiet in
    let keeps =
      requirement_for-KeepsDefault defaults reqs inv.tool.name requirement
        (c.none_loosened defaults reqs p q) listed in
    let (_, t) = (resolve-Throws inv v).0 thrown in
    let (attempted, looser, _, _) = t in
    let bound = keeps inv.tool.default_control v.attempted_control known (cc) in
    absurd (omega arith)
