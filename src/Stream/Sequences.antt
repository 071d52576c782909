-- ===== src/Stream/Sequences.antt =====
-- The events that a session's buffer holds, against the history of the calls of `emit`.
use mathlib.Core.List.{append_assoc, append-nil}
use soa_harness_impl.Base.{
  ℕ, suc, ◌+◌, ◌-◌, String, ◌≡◌, ◌≢◌, refl, sym, ap, ap₂, subst, ◌∙◌, inl, inr, true, false, ◌&&◌,
  false≢true, Option, List, [], ◌∷◌, ◌++◌, arith, length, ◌==◌, if◌then◌else◌, string_key, eq_iff,
  Bool-cases, take_last, push_bounded, push_bounded-take_last, option_or, length-append,
}
use soa_harness_impl.Base.Result.{Result, ok, err}
use soa_harness_impl.Base.Dict
use soa_harness_impl.Base.Dict.{Dict, get-set_self, get-set_ne}
use soa_harness_impl.Base.Rings.{ring-push_ring_self, ring-push_ring_ne}
use soa_harness_impl.Stream.{
  EmittedEvent, EmitParams, EmitError, StreamEventEmitter, is_stream_event_type, new, next_sequence,
  event_of, emit, snapshot,
}

abbrev settle :
    StreamEventEmitter → Result EmitError (StreamEventEmitter × EmittedEvent) → StreamEventEmitter
settle m (ok (m', event)) = m'
settle m (err e) = m

-- Calls of `emit`, whose throws the caller survives.
pub emit_all : StreamEventEmitter → List EmitParams → StreamEventEmitter
emit_all m [] = m
emit_all m (p ∷ ps) = emit_all (settle m (emit m p)) ps

-- The calls for one session that have a canonical type.
pub accepted : String → List EmitParams → List EmitParams
accepted k [] = []
accepted k (p ∷ ps) =
    let rest = accepted k ps in
    if is_stream_event_type p.type && p.session_id == k then p ∷ rest else rest

-- The events of some calls, numbered from `n`.
pub numbered : ℕ → List EmitParams → List EmittedEvent
numbered n [] = []
numbered n (p ∷ ps) = event_of p n ∷ numbered (suc n) ps

numbered-append :
    (n : ℕ) (ps : List EmitParams) (p : EmitParams)
    → numbered n (ps ++ p ∷ []) ≡ numbered n ps ++ event_of p (n + length ps) ∷ []
unfolding numbered
numbered-append n [] p = let e : n + 0 ≡ n = omega arith in rw e
numbered-append n (q ∷ ps) p =
    let e : suc n + length ps ≡ n + suc (length ps) = omega arith in
    ap (◌∷◌ (event_of q n)) (rw (← e) (numbered-append (suc n) ps p))

numbered-append_zero :
    (ps : List EmitParams) (p : EmitParams)
    → numbered 0 (ps ++ p ∷ []) ≡ numbered 0 ps ++ event_of p (length ps) ∷ []
numbered-append_zero ps p =
    let e : 0 + length ps ≡ length ps = omega arith in
    numbered-append 0 ps p ∙ ap (λ n. numbered 0 ps ++ event_of p n ∷ []) e

record Tracks (m : StreamEventEmitter) (k : String) (history : List EmitParams) : Type 0 where
  held : snapshot m k ≡ take_last m.max_per_session (numbered 0 history)
  counted : next_sequence (Dict.get m.sequences k) ≡ length history

emit-Tracks_self :
    (m : StreamEventEmitter) (p : EmitParams) (history : List EmitParams)
    → is_stream_event_type p.type ≡ true
    → Tracks m p.session_id history
    → Tracks (settle m (emit m p)) p.session_id (history ++ p ∷ [])
unfolding emit snapshot
emit-Tracks_self m p history canonical h = rw canonical (record {
  held =
      ring-push_ring_self m.max_per_session m.events p.session_id _
      ∙ ap₂ (λ r q. push_bounded m.max_per_session r (event_of p q)) h.held h.counted
      ∙ push_bounded-take_last m.max_per_session (numbered 0 history) (event_of p (length history))
      ∙ sym (ap (take_last m.max_per_session) (numbered-append_zero history p));
  counted = rw get-set_self (omega (arith, h.counted, length-append history (p ∷ [])));
})

emit-Tracks_ne :
    (m : StreamEventEmitter) (p : EmitParams) (k : String) (history : List EmitParams)
    → p.session_id ≢ k
    → Tracks m k history
    → Tracks (settle m (emit m p)) k history
unfolding emit snapshot
emit-Tracks_ne m p k history ne h = elim (Bool-cases (is_stream_event_type p.type)) [
  | inl canonical ↦ rw canonical (record {
    held = ring-push_ring_ne m.max_per_session m.events p.session_id k _ ne ∙ h.held;
    counted = rw (get-set_ne m.sequences p.session_id k _ ne) h.counted;
  })
  | inr invalid ↦ rw invalid h
]

max-emit :
    (m : StreamEventEmitter) (p : EmitParams)
    → (settle m (emit m p)).max_per_session ≡ m.max_per_session
unfolding emit
max-emit m p = ground arith

emit-invalid :
    (m : StreamEventEmitter) (p : EmitParams)
    → is_stream_event_type p.type ≡ false
    → settle m (emit m p) ≡ m
unfolding emit
emit-invalid m p h = rw h

-- One call keeps the record of a session's history.
emit-Tracks :
    (m : StreamEventEmitter) (p : EmitParams) (k : String) (history : List EmitParams)
    → Tracks m k history
    → Tracks (settle m (emit m p)) k (history ++ accepted k (p ∷ []))
unfolding accepted
emit-Tracks m p k history h = elim (Bool-cases (is_stream_event_type p.type)) [
  | inr invalid ↦ rw (invalid, append-nil history, emit-invalid m p invalid) h
  | inl canonical ↦ elim (Bool-cases (p.session_id == k)) [
    | inl same ↦
        let e : p.session_id ≡ k = (eq_iff p.session_id k).0 same in
        rw (canonical, same)
          (subst (λ j. Tracks (settle m (emit m p)) j (history ++ p ∷ [])) e
            (emit-Tracks_self m p history canonical (subst (λ j. Tracks m j history) (sym e) h)))
    | inr other ↦
        rw (canonical, other, append-nil history)
          (emit-Tracks_ne m p k history (λ e. false≢true (sym other ∙ (eq_iff p.session_id k).1 e))
            h)
  ]
]

accepted-cons :
    (k : String) (p : EmitParams) (ps : List EmitParams)
    → accepted k (p ∷ ps) ≡ accepted k (p ∷ []) ++ accepted k ps
unfolding accepted
accepted-cons k p ps = ground arith

emit_all-Tracks :
    (m : StreamEventEmitter) (k : String) (history ps : List EmitParams)
    → Tracks m k history
    → Tracks (emit_all m ps) k (history ++ accepted k ps)
unfolding emit_all
emit_all-Tracks m k history [] h = unfold accepted in rw append-nil h
emit_all-Tracks m k history (p ∷ ps) h =
    rw (accepted-cons k p ps, ← append_assoc history (accepted k (p ∷ [])) (accepted k ps))
      (emit_all-Tracks (settle m (emit m p)) k (history ++ accepted k (p ∷ [])) ps
        (emit-Tracks m p k history h))

max-emit_all :
    (m : StreamEventEmitter) (ps : List EmitParams)
    → (emit_all m ps).max_per_session ≡ m.max_per_session
unfolding emit_all
max-emit_all m [] = refl
max-emit_all m (p ∷ ps) = max-emit_all (settle m (emit m p)) ps ∙ max-emit m p

-- A new emitter before any call.
new-Tracks : (max_events : Option ℕ) (k : String) → Tracks (new max_events) k []
unfolding new snapshot next_sequence numbered Dict.get
new-Tracks max_events k = record {
  held = let e : 0 - option_or max_events 1000 ≡ 0 = omega arith in rw e;
  counted = refl;
}

-- After any calls of `emit` on a new emitter, a session's buffer holds the last events, up to the
-- emitter's maximum, of the calls for that session that had a canonical type, in the order of the
-- calls and numbered from 0 without a gap. Calls of other types or for other sessions leave no
-- trace in it.
pub emit_all-snapshot :
    (max_events : Option ℕ) (k : String) (ps : List EmitParams)
    → snapshot (emit_all (new max_events) ps) k
      ≡ take_last (new max_events).max_per_session (numbered 0 (accepted k ps))
emit_all-snapshot max_events k ps =
    (emit_all-Tracks (new max_events) k [] ps (new-Tracks max_events k)).held
    ∙ ap (λ n. take_last n (numbered 0 (accepted k ps))) (max-emit_all (new max_events) ps)
