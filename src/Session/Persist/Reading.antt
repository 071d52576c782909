-- ===== src/Session/Persist/Reading.antt =====
-- packages/runner/src/session/persist.ts: a write of a session, then a read of it.
use soa_harness_impl.Base.{
  ℕ, String, ◌≡◌, refl, ◌≢◌, ap, ◌∙◌, Bool, true, false, some, string_key, nat_key, Option-cases,
  inl, inr, same-ne,
}
use soa_harness_impl.Base.Result.{ok}
use soa_harness_impl.Base.Dict
use soa_harness_impl.Base.Dict.{get-set_self}
use soa_harness_impl.Session.Disk.{
  Disk, open_truncated, write_file, sync_file, rename, sync_dir, put_file, open_at, write_at,
  sync_at, sync_content, rename_at, do_step, do_steps, read, content_of, file_at,
}
use soa_harness_impl.Session.Resume.{PersistedSession}
use soa_harness_impl.Session.Persist.{
  version, object, Platform, finalize, write_and_fsync_tmp, write_steps, write_session,
  lenient_parsed, parse_lenient, read_with, read_session_for_resume,
}

-- The name leads to a file with this content.
record Holds (d : Disk) (path content : String) : Type 0 where
  number : ℕ
  named : Dict.get d.names path ≡ some number
  synced : Bool
  filed : Dict.get d.files number ≡ some (record { content = content; synced = synced })

open-Holds : (d : Disk) (path : String) → Holds (do_step d (open_truncated path)) path ""
unfolding do_step open_at put_file
open-Holds d path = elim (Option-cases (Dict.get d.names path)) [
  | inl n ↦ rw n record {
    number = d.next;
    named = get-set_self d.names path d.next;
    synced = false;
    filed = get-set_self d.files d.next _;
  }
  | inr (i, n) ↦
      rw n record { number = i; named = n; synced = false; filed = get-set_self d.files i _ }
]

write-Holds :
    (d : Disk) (path before content : String)
    → Holds d path before
    → Holds (do_step d (write_file path content)) path content
unfolding do_step write_at put_file
write-Holds d path before content h = rw h.named record {
  number = h.number;
  named = h.named;
  synced = false;
  filed = get-set_self d.files h.number _;
}

sync-Holds :
    (d : Disk) (path content : String)
    → Holds d path content
    → Holds (do_step d (sync_file path)) path content
unfolding do_step sync_at sync_content put_file
sync-Holds d path content h =
    rw (h.named, h.filed)
      record {
        number = h.number;
        named = h.named;
        synced = true;
        filed = get-set_self d.files h.number _;
      }

rename-Holds :
    (d : Disk) (from to content : String)
    → Holds d from content
    → Holds (do_step d (rename from to)) to content
unfolding do_step rename_at
rename-Holds d from to content h = rw h.named record {
  number = h.number;
  named = get-set_self (Dict.delete d.names from) to h.number;
  synced = h.synced;
  filed = h.filed;
}

sync_dir-Holds :
    (d : Disk) (path content : String)
    → Holds d path content
    → Holds (do_step d sync_dir) path content
unfolding do_step
sync_dir-Holds d path content h = record {
  number = h.number;
  named = h.named;
  synced = h.synced;
  filed = h.filed;
}

Holds-read : (d : Disk) (path content : String) → Holds d path content → read d path ≡ some content
unfolding read file_at content_of
Holds-read d path content h = rw (h.named, h.filed) refl

write_session-Holds :
    (p : Platform) (windows_sequence : Bool) (d : Disk) (file : PersistedSession) (suffix : String)
    → Holds
        (write_session p windows_sequence d file suffix)
        (p.path_for file.session_id)
        (p.stringify file)
unfolding write_session write_steps finalize write_and_fsync_tmp do_steps
write_session-Holds p windows_sequence d file suffix =
    let final = p.path_for file.session_id in
    let tmp = p.tmp_path final suffix in
    let text = p.stringify file in
    let written = write-Holds _ tmp "" text (open-Holds d tmp) in
    let renamed = rename-Holds _ tmp final text (sync-Holds _ tmp text written) in
    elim windows_sequence
      as (λ k.
        Holds (write_session p k d file suffix) (p.path_for file.session_id) (p.stringify file)) [
          | true ↦ sync-Holds _ final text renamed
          | false ↦ sync_dir-Holds _ final text renamed
        ]

text_of-parse_lenient :
    (p : Platform) (file : PersistedSession)
    → p.stringify file ≢ ""
    → p.parse (p.stringify file) ≡ object (version "1.0") file
    → parse_lenient p (p.stringify file) ≡ ok file
unfolding parse_lenient lenient_parsed
text_of-parse_lenient p file nonempty parsed =
    rw parsed rw (same-ne (p.stringify file) "" nonempty) refl

-- A session that is written is what the resume reads back, on either sequence and over any files,
-- if its text is not empty and JSON.parse reads that text as the session at version 1.0.
pub read_session_for_resume-write_session :
    (p : Platform) (windows_sequence : Bool) (d : Disk) (file : PersistedSession) (suffix : String)
    → p.stringify file ≢ ""
    → p.parse (p.stringify file) ≡ object (version "1.0") file
    → read_session_for_resume p (write_session p windows_sequence d file suffix) file.session_id
      ≡ ok file
unfolding read_session_for_resume read_with
read_session_for_resume-write_session p windows_sequence d file suffix nonempty parsed =
    ap (read_with p (parse_lenient p)) (
      Holds-read _ (p.path_for file.session_id) (p.stringify file)
        (write_session-Holds p windows_sequence d file suffix))
    ∙ text_of-parse_lenient p file nonempty parsed
