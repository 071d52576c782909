-- ===== src/SystemLog/Retention.antt =====
-- What a session's log retains of the calls of `write`.
use soa_harness_impl.Base.{
  ℕ, zero, suc, ◌-◌, ◌≤◌, String, ◌≡◌, refl, ap, ◌∙◌, inl, inr, Bool, true, false, Option, none,
  some, List, [], ◌∷◌, arith, length, take, length-take-le, if◌then◌else◌, string_key, Bool-cases,
  take_last, All, drop, option_or, ltb, filter_by,
}
use soa_harness_impl.Base.Result.{Result, ok, err}
use soa_harness_impl.Base.Dict
use soa_harness_impl.Base.Dict.{Dict}
use soa_harness_impl.Base.Rings.{ring, push_ring, push_all, pushed_for, ring-push_all}
use soa_harness_impl.SystemLog.{
  SystemLogRecord, WriteParams, WriteError, SystemLogBuffer, is_system_log_category, new, record_of,
  write, snapshot, filtered,
}

abbrev settle :
    SystemLogBuffer → Result WriteError (SystemLogBuffer × SystemLogRecord) → SystemLogBuffer
settle b (ok (b', r)) = b'
settle b (err e) = b

-- Calls of `write`, whose throws the caller survives.
pub write_all : SystemLogBuffer → List WriteParams → SystemLogBuffer
write_all b [] = b
write_all b (p ∷ ps) = write_all (settle b (write b p)) ps

-- The records of the calls with a canonical category, each with its session.
pub written : List WriteParams → List (String × SystemLogRecord)
written [] = []
written (p ∷ ps) =
    let rest = written ps in
    if is_system_log_category p.category then (p.session_id, record_of p) ∷ rest else rest

write_canonical :
    (b : SystemLogBuffer) (p : WriteParams)
    → is_system_log_category p.category ≡ true
    → settle b (write b p)
      ≡ record b { records = push_ring b.max_per_session b.records p.session_id (record_of p) }
unfolding write
write_canonical b p h = rw h

write_invalid :
    (b : SystemLogBuffer) (p : WriteParams)
    → is_system_log_category p.category ≡ false
    → settle b (write b p) ≡ b
unfolding write
write_invalid b p h = rw h

write_all-push_all :
    (b : SystemLogBuffer) (ps : List WriteParams)
    → (write_all b ps).records ≡ push_all b.max_per_session b.records (written ps)
unfolding write_all written push_all
write_all-push_all b [] = refl
write_all-push_all b (p ∷ ps) = elim (Bool-cases (is_system_log_category p.category)) [
  | inl canonical ↦ rw canonical (
      ap (λ x. (write_all x ps).records) (write_canonical b p canonical)
      ∙ write_all-push_all
          (record b { records = push_ring b.max_per_session b.records p.session_id (record_of p) })
          ps)
  | inr invalid ↦
      rw invalid
        (ap (λ x. (write_all x ps).records) (write_invalid b p invalid) ∙ write_all-push_all b ps)
]

-- The records for one session, as written.
pub log_of : String → List WriteParams → List SystemLogRecord
log_of k ps = pushed_for k (written ps)

no_records :
    (max_records : ℕ) (k : String)
    → ring (Dict.empty {V = List SystemLogRecord}) k ≡ take_last max_records []
unfolding Dict.get
no_records n k = let e : 0 - n ≡ 0 = omega arith in rw e

-- After any calls of `write` on a new log, a session's snapshot without categories holds the last
-- records, up to the log's maximum, of the calls for it that had a canonical category, in the
-- order of the calls.
pub write_all-snapshot :
    (max_records : Option ℕ) (k : String) (ps : List WriteParams)
    → snapshot (write_all (new max_records) ps) k none
      ≡ take_last (option_or max_records 1000) (log_of k ps)
unfolding snapshot log_of
write_all-snapshot max_records k ps =
    ap (λ d. ring d k) (write_all-push_all (new max_records) ps)
    ∙ (unfold new in
        ring-push_all (option_or max_records 1000) Dict.empty k [] (written ps)
          (no_records (option_or max_records 1000) k))

abbrev pub IsShort : SystemLogRecord → Type 0
IsShort r = length r.message ≤ 1024

shortened : (n : ℕ) (xs : List ℕ) → length (if ltb n (length xs) then take n xs else xs) ≤ n
shortened n xs = ground (arith, length-take-le n xs)

record_of-IsShort : (p : WriteParams) → IsShort (record_of p)
unfolding record_of
record_of-IsShort p = shortened 1024 p.message

pushed-IsShort : (k : String) (ps : List WriteParams) → All IsShort (pushed_for k (written ps))
unfolding pushed_for written
pushed-IsShort k [] = tt
pushed-IsShort k (p ∷ ps) = ground (arith, pushed-IsShort k ps, record_of-IsShort p)

drop-All {ℓ κ} : {A : Type ℓ} (P : A → Type κ) (n : ℕ) (xs : List A) → All P xs → All P (drop n xs)
drop-All P zero xs h = h
drop-All P (suc n) [] h = tt
drop-All P (suc n) (x ∷ xs) h = drop-All P n xs h.1

filter_by-All {ℓ κ} :
    {A : Type ℓ} (P : A → Type κ) (q : A → Bool) (xs : List A) → All P xs → All P (filter_by q xs)
filter_by-All P q [] h = tt
filter_by-All P q (x ∷ xs) h = elim (Bool-cases (q x)) [
  | inl in' ↦ rw in' (h.0, filter_by-All P q xs h.1)
  | inr out ↦ rw out (filter_by-All P q xs h.1)
]

filtered-All :
    (P : SystemLogRecord → Type 0) (xs : List SystemLogRecord) (categories : Option (List String))
    → All P xs
    → All P (filtered xs categories)
unfolding filtered
filtered-All P xs none h = h
filtered-All P xs (some []) h = h
filtered-All P xs (some (c ∷ cs)) h = filter_by-All P _ xs h

all_records :
    (max_records : Option ℕ) (k : String) (ps : List WriteParams)
    → ring (write_all (new max_records) ps).records k
      ≡ take_last (option_or max_records 1000) (log_of k ps)
unfolding snapshot
all_records max_records k ps = unfold filtered in write_all-snapshot max_records k ps

-- No record that a snapshot shows, under any categories, has a message of more than 1024 units.
pub snapshot-IsShort :
    (max_records : Option ℕ) (k : String) (ps : List WriteParams)
    (categories : Option (List String))
    → All IsShort (snapshot (write_all (new max_records) ps) k categories)
snapshot-IsShort max_records k ps categories =
    unfold snapshot in
    filtered-All IsShort _ categories (
      rw (all_records max_records k ps)
        (drop-All IsShort _ (log_of k ps) (unfold log_of in pushed-IsShort k ps)))
