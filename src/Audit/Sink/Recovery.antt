-- ===== src/Audit/Sink/Recovery.antt =====
-- What a flush ships, what it leaves, and what it drops.
use mathlib.Core.List.{append-nil, append_assoc}
use soa_harness_impl.Base.{
  ℕ, String, ◌≡◌, ◌≢◌, refl, sym, ap, Bool, true, false, none, List, [], ◌∷◌, ◌++◌, arith, Key,
  length, All, ◌∙◌,
}
use soa_harness_impl.Audit.{AuditRecord}
use soa_harness_impl.Audit.Sink.{
  healthy, AuditSink, record_audit_row, finish_flush, recovered, ship_all, flush_and_recover,
}

module _ {D : Type 0} where
  abbrev Accepts : (AuditRecord D → Bool) → AuditRecord D → Type 0
  Accepts ship r = ship r ≡ true

  ship_all-accepted :
      (ship : AuditRecord D → Bool) (rs : List (AuditRecord D))
      → All (Accepts ship) rs
      → ship_all ship rs ≡ (rs, true)
  unfolding ship_all
  ship_all-accepted ship [] h = refl
  ship_all-accepted ship (r ∷ rs) h = ground (arith, ship_all-accepted ship rs h.1)

  -- A flush whose every record is accepted ships the whole buffer, in order, and leaves the sink
  -- healthy, with an empty buffer and no pending file.
  pub flush-ships-buffer :
      (ship : AuditRecord D → Bool) (s : AuditSink D) (now : ℕ) (event_id : String)
      → All (Accepts ship) s.buffer
      → let (s', shipped, done) = flush_and_recover ship s now event_id in
        (shipped ≡ s.buffer) × (s'.state ≡ healthy) × (s'.buffer ≡ []) × (s'.pending ≡ [])
  unfolding flush_and_recover finish_flush recovered
  flush-ships-buffer ship s now event_id h = ground (arith, ship_all-accepted ship s.buffer h)

  ship_all-refused :
      (ship : AuditRecord D → Bool) (before after : List (AuditRecord D)) (r : AuditRecord D)
      → All (Accepts ship) before
      → ship r ≡ false
      → ship_all ship (before ++ r ∷ after) ≡ (before, false)
  unfolding ship_all
  ship_all-refused ship [] after r h k = ground arith
  ship_all-refused ship (x ∷ before) after r h k =
      ground (arith, ship_all-refused ship before after r h.1 k)

  -- A record that the external sink refuses ends the flush: the records before it were shipped, and
  -- the sink, its whole buffer included, is as it was.
  pub flush-refused :
      (ship : AuditRecord D → Bool) (s : AuditSink D) (now : ℕ) (event_id : String)
      (before after : List (AuditRecord D)) (r : AuditRecord D)
      → s.buffer ≡ before ++ r ∷ after
      → All (Accepts ship) before
      → ship r ≡ false
      → flush_and_recover ship s now event_id ≡ (s, before, none)
  unfolding flush_and_recover
  flush-refused ship s now event_id before after r e h k =
      ground (arith, ap (ship_all ship) e ∙ ship_all-refused ship before after r h k)

module _ {D : Type 0} ⦃e : Key D⦄ where
  pub record_rows : AuditSink D → List (AuditRecord D) → AuditSink D
  record_rows s [] = s
  record_rows s (r ∷ rs) = record_rows (record_audit_row s r) rs

  -- The loop of `flushAndRecover` over its snapshot, where every record is accepted and some audit
  -- rows arrive while each call to the external sink is awaited.
  pub ship_awaiting :
      AuditSink D
      → List (AuditRecord D)
      → List (List (AuditRecord D))
      → AuditSink D × List (AuditRecord D)
  ship_awaiting s [] arrivals = (s, [])
  ship_awaiting s (r ∷ rs) [] = (s, r ∷ rs)
  ship_awaiting s (r ∷ rs) (rows ∷ arrivals) =
      let (s', shipped) = ship_awaiting (record_rows s rows) rs arrivals in (s', r ∷ shipped)

  -- clearPendingDir, with rows that arrive before the directory is read, and after.
  clear_awaiting : AuditSink D → (unread late : List (AuditRecord D)) → AuditSink D
  clear_awaiting s unread late = record_rows (record (record_rows s unread) { pending = [] }) late

  -- flushAndRecover with rows that arrive while it waits: for each call to the external sink, and for
  -- the pending directory to be cleared. A row that arrives is written before that wait is over.
  pub flush_awaiting :
      AuditSink D
      → List (List (AuditRecord D))
      → (unread late : List (AuditRecord D)) → ℕ
      → String
      → AuditSink D × List (AuditRecord D)
  unfolding ship_awaiting clear_awaiting recovered
  flush_awaiting s arrivals unread late now event_id =
      let (s', shipped) = ship_awaiting s s.buffer arrivals in
      let cleared = clear_awaiting (record s' { buffer = [] }) unread late in
      ((recovered cleared (length s.buffer) now event_id).0, shipped)

  pub all_rows : List (List (AuditRecord D)) → List (AuditRecord D)
  all_rows [] = []
  all_rows (rows ∷ arrivals) = rows ++ all_rows arrivals

  ship_awaiting-ships :
      (s : AuditSink D) (rs : List (AuditRecord D)) (arrivals : List (List (AuditRecord D)))
      → (ship_awaiting s rs arrivals).1 ≡ rs
  unfolding ship_awaiting
  ship_awaiting-ships s [] arrivals = refl
  ship_awaiting-ships s (r ∷ rs) [] = refl
  ship_awaiting-ships s (r ∷ rs) (rows ∷ arrivals) =
      ap (◌∷◌ r) (ship_awaiting-ships (record_rows s rows) rs arrivals)

  record_one :
      (s : AuditSink D) (r : AuditRecord D)
      → s.state ≢ healthy
      → ((record_audit_row s r).state ≡ s.state)
        × ((record_audit_row s r).buffer ≡ s.buffer ++ r ∷ [])
  unfolding record_audit_row
  record_one s r h = ground arith

  buffer-record_rows :
      (s : AuditSink D) (rows : List (AuditRecord D))
      → s.state ≢ healthy
      → ((record_rows s rows).state ≡ s.state) × ((record_rows s rows).buffer ≡ s.buffer ++ rows)
  unfolding record_rows
  buffer-record_rows s [] h = (refl, sym (append-nil s.buffer))
  buffer-record_rows s (r ∷ rows) h =
      let (p, q) = record_one s r h in
      let (u, v) = buffer-record_rows (record_audit_row s r) rows (λ x. h (sym p ∙ x)) in
      (u ∙ p, v ∙ ap (λ b. b ++ rows) q ∙ append_assoc s.buffer (r ∷ []) rows)

  -- After the loop the buffer holds its snapshot and every row that arrived.
  ship_awaiting-buffer :
      (s : AuditSink D) (rs : List (AuditRecord D)) (arrivals : List (List (AuditRecord D)))
      → s.state ≢ healthy
      → length arrivals ≡ length rs
      → ((ship_awaiting s rs arrivals).0.state ≡ s.state)
        × ((ship_awaiting s rs arrivals).0.buffer ≡ s.buffer ++ all_rows arrivals)
  unfolding ship_awaiting all_rows
  ship_awaiting-buffer s [] [] h n = (refl, sym (append-nil s.buffer))
  ship_awaiting-buffer s [] (rows ∷ arrivals) h n = absurd (omega (arith, n))
  ship_awaiting-buffer s (r ∷ rs) [] h n = absurd (omega (arith, n))
  ship_awaiting-buffer s (r ∷ rs) (rows ∷ arrivals) h n =
      let (p, q) = buffer-record_rows s rows h in
      let (u, v) =
        ship_awaiting-buffer (record_rows s rows) rs arrivals (λ x. h (sym p ∙ x))
          (omega (arith, n)) in
      (
        u ∙ p,
        v ∙ ap (λ b. b ++ all_rows arrivals) q ∙ append_assoc s.buffer rows (all_rows arrivals),
      )

  recovered-keeps :
      (s : AuditSink D) (flushed now : ℕ) (event_id : String)
      → ((recovered s flushed now event_id).0.state ≡ healthy)
        × ((recovered s flushed now event_id).0.buffer ≡ s.buffer)
  unfolding recovered
  recovered-keeps s flushed now event_id = ground arith

  cleared-buffer :
      (s : AuditSink D) (unread late : List (AuditRecord D))
      → s.state ≢ healthy
      → (clear_awaiting s unread late).buffer ≡ (s.buffer ++ unread) ++ late
  unfolding clear_awaiting
  cleared-buffer s unread late h =
      let (p, q) = buffer-record_rows s unread h in
      (buffer-record_rows (record (record_rows s unread) { pending = [] }) late
        (λ x. h (sym p ∙ x))).1
      ∙ ap (λ b. b ++ late) q

  -- Where some rows arrive during each call to the external sink, a sink that is not healthy takes
  -- them into its buffer behind the snapshot, but the flush ships the snapshot and nothing else, and
  -- at its end, in a healthy sink, the buffer holds only the rows that arrived while the pending
  -- directory was cleared: the others leave it without being shipped.
  pub flush_awaiting-drops :
      (s : AuditSink D) (arrivals : List (List (AuditRecord D)))
      (unread late : List (AuditRecord D)) (now : ℕ) (event_id : String)
      → s.state ≢ healthy
      → length arrivals ≡ length s.buffer
      → ((ship_awaiting s s.buffer arrivals).0.buffer ≡ s.buffer ++ all_rows arrivals)
        × ((flush_awaiting s arrivals unread late now event_id).1 ≡ s.buffer)
        × ((flush_awaiting s arrivals unread late now event_id).0.state ≡ healthy)
        × ((flush_awaiting s arrivals unread late now event_id).0.buffer ≡ unread ++ late)
  unfolding flush_awaiting
  flush_awaiting-drops s arrivals unread late now event_id h n =
      let (p, q) = ship_awaiting-buffer s s.buffer arrivals h n in
      let emptied = record (ship_awaiting s s.buffer arrivals).0 { buffer = [] } in
      let ended =
        recovered-keeps (clear_awaiting emptied unread late) (length s.buffer) now event_id in
      (
        q,
        ship_awaiting-ships s s.buffer arrivals,
        ended.0,
        ended.1 ∙ cleared-buffer emptied unread late (λ x. h (sym p ∙ x)),
      )
