-- ===== src/Session/Persist/Tests.antt =====
-- Inputs at which the theorems of the session files apply.
use soa_harness_impl.Base.{
  ℕ, ◌<◌, ◌≡◌, ap, sym, subst, ◌∙◌, refl, String, true, false, none, some, some-injective, [], take,
  string_key, nat_key, if◌then◌else◌, ◌==◌, eq_iff, false≢true, Bool-cases, inl, inr, arith,
}
use soa_harness_impl.Base.Dict
use soa_harness_impl.Base.Dict.{Dict, get-set_self, get-set_ne}
use soa_harness_impl.Base.Result.{ok}
use soa_harness_impl.Session.Disk.{Disk, do_steps, Crash, after_crash}
use soa_harness_impl.Session.Resume.{PersistedSession}
use soa_harness_impl.Session.Persist.{
  version, syntax_error, object, Platform, write_steps, write_session, read_session_for_resume,
}
use soa_harness_impl.Session.Persist.Safety.{IsSettled, IsAtomic}
use soa_harness_impl.Session.Persist.Crashes.{crashed-IsAtomic}
use soa_harness_impl.Session.Persist.Reading.{read_session_for_resume-write_session}

abbrev session : PersistedSession
session = record {
  session_id = "ses_1";
  active_mode = none;
  tool_pool_hash = some "h";
  card_version = some "2";
  side_effects = [];
  migrated_from_pre1 = false;
}

-- One session and its text.
abbrev one_session : Platform
one_session = record {
  path_for = λ id. id;
  tmp_path = λ final suffix. if suffix == "a1b2" then "ses_1.tmp.a1b2" else "ses_1.tmp";
  stringify = λ s. "{}";
  parse = λ text. if text == "{}" then object (version "1.0") session else syntax_error;
  ends_closed = λ text. true;
  valid_schema = λ s. true;
}

abbrev old_files : Disk
old_files = record {
  names = Dict.set Dict.empty "ses_1" 0;
  earlier = [];
  files = Dict.set Dict.empty 0 (record { content = "{\"old\":true}"; synced = true });
  next = 1;
}

old_files-IsSettled : IsSettled old_files
unfolding Dict.get Dict.set
old_files-IsSettled = record {
  no_earlier = refl;
  filed = λ name i h. elim (Bool-cases ("ses_1" == name)) [
    | inl e ↦
        (let zeroth : 0 ≡ i = some-injective (
            sym (get-set_self {K = String} {V = ℕ} Dict.empty "ses_1" 0)
            ∙ ap (Dict.get old_files.names) ((eq_iff "ses_1" name).0 e)
            ∙ h) in
          subst
            (λ j.
              (j < 1)
              × (content : String) × (Dict.get old_files.files j
                  ≡ some (record { content = content; synced = true })))
            zeroth (omega arith, "{\"old\":true}", refl))
    | inr n ↦ absurd (
        ground (
          arith,
          h,
          get-set_ne {K = String} {V = ℕ} Dict.empty "ses_1" name 0
              (λ q. false≢true (sym n ∙ (eq_iff "ses_1" name).1 q)),
        ))
  ];
}

-- The first directory that can come back, and files that are empty.
abbrev power_cut : Crash
power_cut = record { back = 1; left = λ i. "" }

crashed-IsAtomic_example :
    IsAtomic old_files
      (after_crash
        (do_steps old_files (take 3 (write_steps one_session true session "a1b2")))
        power_cut
        "ses_1")
      "ses_1"
      "{}"
      "ses_1"
unfolding Dict.get Dict.set
crashed-IsAtomic_example =
    crashed-IsAtomic one_session true old_files session "a1b2" old_files-IsSettled refl 3 power_cut
      "ses_1" (λ e. false≢true ((eq_iff "ses_1" "ses_1.tmp.a1b2").1 e))

read_session_for_resume-write_session_example :
    read_session_for_resume one_session
      (write_session one_session false old_files session "a1b2")
      "ses_1"
    ≡ ok session
read_session_for_resume-write_session_example =
    read_session_for_resume-write_session one_session false old_files session "a1b2"
      (λ e. false≢true ((eq_iff "{}" "").1 e)) refl
