-- ===== src/Attestation/Escalation/Responses.antt =====
-- Who can approve an escalation, and that a wait ends.
use soa_harness_impl.Base.{
  ℕ, String, ◌≡◌, ◌≢◌, ◌⊎◌, inl, inr, refl, Bool, false, Option, none, some, List, [], ◌∷◌, ◌==◌,
  string_key, eq_iff, if◌then◌else◌, arith, All, Bool-cases, ap, ◌∙◌, sym, subst,
}
use soa_harness_impl.Attestation.HandlerKey
use soa_harness_impl.Attestation.HandlerKey.{
  HandlerKeyRegistry, HandlerRole, interactive, coordinator, autonomous,
}
use soa_harness_impl.Attestation.Escalation.{
  EscalationOutcome, approved, denied, timeout, hitl_required, ResponderFile, unparsable,
  null_value, fields, Reading, nothing, type_error, answer, role_of, classify, classify_kid,
  classify_fields, read_parsed, try_read_responder, Event, tick, timer, Promise, waiting, crashed,
  resolved, after_reading, fire, await_responder,
}

-- Neither an Autonomous nor a Coordinator handler.
abbrev pub IsHuman : Option HandlerRole → Type 0
IsHuman none = Unit
IsHuman (some interactive) = Unit
IsHuman (some coordinator) = ⊥
IsHuman (some autonomous) = ⊥

-- Some element has the property.
abbrev pub AnyOf {ℓ} : {A : Type ℓ} → (A → Type 0) → List A → Type 0
AnyOf P [] = ⊥
AnyOf P (x ∷ xs) = P x ⊎ AnyOf P xs

module _ (is_blank : String → Bool) (parse : String → ResponderFile) where
  -- The file holds this kid and this response.
  abbrev pub Says : String → String → Option String → Type 0
  Says kid response none = ⊥
  Says kid response (some content) = parse content ≡ fields (some kid) (some response)

  -- A decision is a human's, and the file says it; and a file brings no timeout.
  abbrev pub IsGrounded : HandlerKeyRegistry → Option String → EscalationOutcome → Type 0
  IsGrounded reg file (approved kid at) =
      IsHuman (role_of (HandlerKey.get reg kid)) × Says kid "approve" file
  IsGrounded reg file (denied kid at) =
      IsHuman (role_of (HandlerKey.get reg kid)) × Says kid "deny" file
  IsGrounded reg file (timeout at) = ⊥
  IsGrounded reg file (hitl_required kid detail at) = Unit

  abbrev pub ReadingIsGrounded : HandlerKeyRegistry → Option String → Reading → Type 0
  ReadingIsGrounded reg file nothing = Unit
  ReadingIsGrounded reg file type_error = Unit
  ReadingIsGrounded reg file (answer outcome) = IsGrounded reg file outcome

  human-grounded :
      (reg : HandlerKeyRegistry) (content kid response : String) (at : ℕ)
      → IsHuman (role_of (HandlerKey.get reg kid))
      → parse content ≡ fields (some kid) (some response)
      → ReadingIsGrounded reg (some content) (
          if response == "approve"
          then answer (approved kid at)
          else if response == "deny"
          then answer (denied kid at)
          else nothing)
  human-grounded reg content kid response at h p = elim (Bool-cases (response == "approve")) [
    | inl a ↦ rw a (h, p ∙ ap (λ r. fields (some kid) (some r)) ((eq_iff response "approve").0 a))
    | inr n ↦ elim (Bool-cases (response == "deny")) [
      | inl d ↦
          rw (n, d) (h, p ∙ ap (λ r. fields (some kid) (some r)) ((eq_iff response "deny").0 d))
      | inr m ↦ rw (n, m) tt
    ]
  ]

  classify-grounded :
      (reg : HandlerKeyRegistry) (content kid response : String) (at : ℕ)
      (role : Option HandlerRole)
      → role_of (HandlerKey.get reg kid) ≡ role
      → parse content ≡ fields (some kid) (some response)
      → ReadingIsGrounded reg (some content) (classify role kid response at)
  unfolding classify
  classify-grounded reg content kid response at none r p =
      human-grounded reg content kid response at (subst IsHuman (sym r) tt) p
  classify-grounded reg content kid response at (some interactive) r p =
      human-grounded reg content kid response at (subst IsHuman (sym r) tt) p
  classify-grounded reg content kid response at (some coordinator) r p = tt
  classify-grounded reg content kid response at (some autonomous) r p = tt

  -- A response that is missing or empty is no decision.
  silent-grounded :
      (reg : HandlerKeyRegistry) (content kid : String) (at : ℕ) (role : Option HandlerRole)
      → ReadingIsGrounded reg (some content) (classify role kid "" at)
  unfolding classify
  silent-grounded reg content kid at none = tt
  silent-grounded reg content kid at (some interactive) = tt
  silent-grounded reg content kid at (some coordinator) = tt
  silent-grounded reg content kid at (some autonomous) = tt

  fields-grounded :
      (reg : HandlerKeyRegistry) (content : String) (kid response : Option String) (at : ℕ)
      → parse content ≡ fields kid response
      → ReadingIsGrounded reg (some content) (classify_fields reg kid response at)
  unfolding classify_fields classify_kid
  fields-grounded reg content none none at p = tt
  fields-grounded reg content (some kid) none at p = silent-grounded reg content kid at _
  fields-grounded reg content none (some response) at p =
      elim (Bool-cases (response == "silence")) [ inl s ↦ rw s tt | inr s ↦ rw s tt ]
  fields-grounded reg content (some kid) (some response) at p =
      elim (Bool-cases (response == "silence")) [
        | inl s ↦ rw s tt
        | inr s ↦ rw s (classify-grounded reg content kid response at _ refl p)
      ]

  parsed-grounded :
      (reg : HandlerKeyRegistry) (content : String) (parsed : ResponderFile) (at : ℕ)
      → parse content ≡ parsed
      → ReadingIsGrounded reg (some content) (read_parsed reg content parsed at).1
  unfolding read_parsed
  parsed-grounded reg content unparsable at p = tt
  parsed-grounded reg content null_value at p = tt
  parsed-grounded reg content (fields kid response) at p =
      fields-grounded reg content kid response at p

  try_read_responder-grounded :
      (reg : HandlerKeyRegistry) (file : Option String) (at : ℕ)
      → ReadingIsGrounded reg file (try_read_responder is_blank parse reg file at).1
  unfolding try_read_responder
  try_read_responder-grounded reg none at = tt
  try_read_responder-grounded reg (some content) at = elim (Bool-cases (is_blank content)) [
    | inl b ↦ rw b tt
    | inr b ↦ rw b (parsed-grounded reg content (parse content) at refl)
  ]

  -- The event brings this outcome.
  abbrev pub Brings : HandlerKeyRegistry → EscalationOutcome → Event is_blank parse → Type 0
  Brings reg outcome (tick file at) = IsGrounded reg file outcome
  Brings reg outcome (timer at) = outcome ≡ timeout at

  abbrev Brought :
      HandlerKeyRegistry → List (Event is_blank parse) → Promise is_blank parse → Type 0
  Brought reg es waiting = Unit
  Brought reg es crashed = Unit
  Brought reg es (resolved outcome) = AnyOf (Brings reg outcome) es

  Brought-later :
      (reg : HandlerKeyRegistry) (e : Event is_blank parse) (es : List (Event is_blank parse))
      (p : Promise is_blank parse)
      → Brought reg es p
      → Brought reg (e ∷ es) p
  Brought-later reg e es waiting h = tt
  Brought-later reg e es crashed h = tt
  Brought-later reg e es (resolved outcome) h = inr h

  await-settled :
      (reg : HandlerKeyRegistry) (outcome : EscalationOutcome) (es : List (Event is_blank parse))
      → await_responder is_blank parse reg (resolved outcome) es ≡ resolved outcome
  unfolding await_responder fire
  await-settled reg outcome [] = refl
  await-settled reg outcome (e ∷ es) = await-settled reg outcome es

  await-crashed :
      (reg : HandlerKeyRegistry) (es : List (Event is_blank parse))
      → await_responder is_blank parse reg crashed es ≡ crashed
  unfolding await_responder fire
  await-crashed reg [] = refl
  await-crashed reg (e ∷ es) = await-crashed reg es

  read-Brought :
      (reg : HandlerKeyRegistry) (file : Option String) (at : ℕ) (r : Reading)
      (es : List (Event is_blank parse))
      → ReadingIsGrounded reg file r
      → Brought reg es (await_responder is_blank parse reg waiting es)
      → Brought reg
          (tick file at ∷ es)
          (await_responder is_blank parse reg (after_reading is_blank parse r) es)
  unfolding after_reading
  read-Brought reg file at nothing es h k =
      Brought-later reg (tick file at) es (await_responder is_blank parse reg waiting es) k
  read-Brought reg file at type_error es h k =
      subst (Brought reg (tick file at ∷ es)) (sym (await-crashed reg es)) tt
  read-Brought reg file at (answer outcome) es h k =
      subst (Brought reg (tick file at ∷ es)) (sym (await-settled reg outcome es)) (inl h)

  waiting-Brought :
      (reg : HandlerKeyRegistry) (es : List (Event is_blank parse))
      → Brought reg es (await_responder is_blank parse reg waiting es)
  unfolding await_responder fire
  waiting-Brought reg [] = tt
  waiting-Brought reg (tick file at ∷ es) =
      read-Brought reg file at (try_read_responder is_blank parse reg file at).1 es
        (try_read_responder-grounded reg file at) (waiting-Brought reg es)
  waiting-Brought reg (timer at ∷ es) =
      subst (Brought reg (timer at ∷ es)) (sym (await-settled reg (timeout at) es)) (inl refl)

  -- If waiting for a responder ends with an approval or a denial, the file held that response when
  -- some tick read it, from a kid that is neither an Autonomous nor a Coordinator handler; if it ends
  -- with a timeout at an instant, the timer fired then.
  pub await_responder-grounded :
      (reg : HandlerKeyRegistry) (es : List (Event is_blank parse)) (outcome : EscalationOutcome)
      → await_responder is_blank parse reg waiting es ≡ resolved outcome
      → AnyOf (Brings reg outcome) es
  await_responder-grounded reg es outcome h = subst (Brought reg es) h (waiting-Brought reg es)

  -- A tick that does not find the JSON value null, or the timer.
  abbrev pub IsHarmless : Event is_blank parse → Type 0
  IsHarmless (tick none at) = Unit
  IsHarmless (tick (some content) at) = parse content ≢ null_value
  IsHarmless (timer at) = Unit

  abbrev pub IsTimer : Event is_blank parse → Type 0
  IsTimer (tick file at) = ⊥
  IsTimer (timer at) = Unit

  abbrev pub IsResolved : Promise is_blank parse → Type 0
  IsResolved p = (outcome : EscalationOutcome) × (p ≡ resolved outcome)

  read-resolves :
      (reg : HandlerKeyRegistry) (file : Option String) (at : ℕ) (r : Reading)
      (es : List (Event is_blank parse))
      → r ≢ type_error
      → IsResolved (await_responder is_blank parse reg waiting es)
      → IsResolved (await_responder is_blank parse reg (after_reading is_blank parse r) es)
  unfolding after_reading
  read-resolves reg file at nothing es n h = h
  read-resolves reg file at type_error es n h = absurd (n refl)
  read-resolves reg file at (answer outcome) es n h = (outcome, await-settled reg outcome es)

  classify-calm :
      (role : Option HandlerRole) (kid response : String) (at : ℕ)
      → classify role kid response at ≢ type_error
  unfolding classify
  classify-calm none kid response at = ground arith
  classify-calm (some interactive) kid response at = ground arith
  classify-calm (some coordinator) kid response at = ground arith
  classify-calm (some autonomous) kid response at = ground arith

  fields-calm :
      (reg : HandlerKeyRegistry) (kid response : Option String) (at : ℕ)
      → classify_fields reg kid response at ≢ type_error
  unfolding classify_fields classify_kid
  fields-calm reg none none at = ground arith
  fields-calm reg none (some response) at = ground arith
  fields-calm reg (some kid) none at = classify-calm (role_of (HandlerKey.get reg kid)) kid "" at
  fields-calm reg (some kid) (some response) at =
      ground (arith, classify-calm (role_of (HandlerKey.get reg kid)) kid response at)

  parsed-calm :
      (reg : HandlerKeyRegistry) (content : String) (parsed : ResponderFile) (at : ℕ)
      → parsed ≢ null_value
      → (read_parsed reg content parsed at).1 ≢ type_error
  unfolding read_parsed
  parsed-calm reg content unparsable at h = ground arith
  parsed-calm reg content null_value at h = absurd (h refl)
  parsed-calm reg content (fields kid response) at h = fields-calm reg kid response at

  harmless-calm :
      (reg : HandlerKeyRegistry) (file : Option String) (at : ℕ)
      → IsHarmless (tick file at)
      → (try_read_responder is_blank parse reg file at).1 ≢ type_error
  unfolding try_read_responder
  harmless-calm reg none at h = ground arith
  harmless-calm reg (some content) at h = elim (Bool-cases (is_blank content)) [
    | inl b ↦ rw b (ground arith)
    | inr b ↦ rw b (parsed-calm reg content (parse content) at h)
  ]

  -- A file that holds the JSON value null breaks the wait: the error escapes the tick.
  pub await_responder-crashes :
      (reg : HandlerKeyRegistry) (content : String) (at : ℕ) (es : List (Event is_blank parse))
      → is_blank content ≡ false
      → parse content ≡ null_value
      → await_responder is_blank parse reg waiting (tick (some content) at ∷ es) ≡ crashed
  unfolding await_responder fire try_read_responder after_reading read_parsed
  await_responder-crashes reg content at es b p = rw (b, p) (await-crashed reg es)

  -- While no tick finds the JSON value null, waiting ends with an outcome once the timer has fired.
  pub await_responder-resolves :
      (reg : HandlerKeyRegistry) (es : List (Event is_blank parse))
      → All IsHarmless es
      → AnyOf IsTimer es
      → IsResolved (await_responder is_blank parse reg waiting es)
  unfolding await_responder fire
  await_responder-resolves reg [] a t = absurd t
  await_responder-resolves reg (timer at ∷ es) a t = (timeout at, await-settled reg (timeout at) es)
  await_responder-resolves reg (tick file at ∷ es) (h, a) (inl n) = absurd n
  await_responder-resolves reg (tick file at ∷ es) (h, a) (inr t) =
      read-resolves reg file at (try_read_responder is_blank parse reg file at).1 es
        (harmless-calm reg file at h) (await_responder-resolves reg es a t)
