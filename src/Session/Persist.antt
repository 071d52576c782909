-- ===== src/Session/Persist.antt =====
-- packages/runner/src/session/persist.ts: the crash-safe session files, on the disk of
-- Session.Disk. The names of files, JSON.stringify, JSON.parse and the session schema are the
-- argument `platform`. The in-process lock keeps the writes of one session apart, so that a write
-- is one sequence of file operations; that an operation fails is left out.
pub mod Safety
pub mod Stages
pub mod Crashes
pub mod Reading
mod Tests
use soa_harness_impl.Base.{
  ℕ, String, ◌≡◌, ◌≢◌, Bool, true, false, not, ◌&&◌, ◌||◌, Option, none, some, List, [], ◌∷◌, ◌++◌,
  take, ◌==◌, string_key, if◌then◌else◌,
}
use soa_harness_impl.Base.Result.{Result, ok, err}
use soa_harness_impl.Session.Disk.{
  Disk, FileStep, make_dir, open_truncated, write_file, sync_file, rename, sync_dir, do_steps, read,
}
use soa_harness_impl.Session.Resume.{PersistedSession}

pub data SessionFormatIncompatible : Type 0 where
  corrupted_json partial_write_detected schema_violation : SessionFormatIncompatible
  bad_format_version file_missing : SessionFormatIncompatible

-- `format_version`: missing, the text, or no text.
pub data FormatVersion : Type 0 where
  absent other : FormatVersion
  version : String → FormatVersion

-- What JSON.parse makes of a text: an error, a value that is no object, or an object.
pub data Parsed : Type 0 where
  syntax_error no_object : Parsed
  object : FormatVersion → PersistedSession → Parsed

pub record Platform : Type 0 where
  pub path_for : String → String
  pub tmp_path : (final suffix : String) → String
  pub stringify : PersistedSession → String
  pub parse : String → Parsed
  -- the trimmed text ends with a brace or a bracket
  pub ends_closed : String → Bool
  pub valid_schema : PersistedSession → Bool

module _ (p : Platform) (windows_sequence : Bool) where
  -- The flush after the rename: of the directory, or of the file.
  pub finalize : String → FileStep
  finalize final = if windows_sequence then sync_file final else sync_dir

  -- writeAndFsyncTmp
  write_and_fsync_tmp : String → String → List FileStep
  write_and_fsync_tmp tmp content = open_truncated tmp ∷ write_file tmp content ∷ sync_file tmp ∷ []

  -- doWriteSession, as the operations that it makes.
  unfoldable pub write_steps : PersistedSession → String → List FileStep
  unfolding finalize write_and_fsync_tmp
  write_steps file suffix =
      let final = p.path_for file.session_id in
      let tmp = p.tmp_path final suffix in
      make_dir ∷ write_and_fsync_tmp tmp (p.stringify file)
      ++ rename tmp final ∷ finalize final ∷ []

  unfoldable pub write_session : Disk → PersistedSession → String → Disk
  unfolding write_steps
  write_session d file suffix = do_steps d (write_steps file suffix)

module _ (p : Platform) where
  -- A text that is no JSON.
  unreadable : String → SessionFormatIncompatible
  unreadable content = if p.ends_closed content then corrupted_json else partial_write_detected

  lenient_parsed : String → Parsed → Result SessionFormatIncompatible PersistedSession
  unfolding unreadable
  lenient_parsed content syntax_error = err (unreadable content)
  lenient_parsed content no_object = err schema_violation
  lenient_parsed content (object absent s) = err bad_format_version
  lenient_parsed content (object other s) = err bad_format_version
  lenient_parsed content (object (version v) s) =
      if v == "1.0" then ok s else err bad_format_version

  -- parseLenient
  unfoldable pub parse_lenient : String → Result SessionFormatIncompatible PersistedSession
  unfolding lenient_parsed
  parse_lenient content =
      let parsed = lenient_parsed content (p.parse content) in
      if content == "" then err partial_write_detected else parsed

  validated : PersistedSession → Result SessionFormatIncompatible PersistedSession
  validated s = if p.valid_schema s then ok s else err schema_violation

  strict_parsed : String → Parsed → Result SessionFormatIncompatible PersistedSession
  unfolding unreadable validated
  strict_parsed content syntax_error = err (unreadable content)
  strict_parsed content no_object = err schema_violation
  strict_parsed content (object absent s) = validated s
  strict_parsed content (object other s) = err bad_format_version
  strict_parsed content (object (version v) s) =
      let checked = validated s in if v == "1.0" then checked else err bad_format_version

  -- parseAndValidate
  unfoldable pub parse_and_validate : String → Result SessionFormatIncompatible PersistedSession
  unfolding strict_parsed
  parse_and_validate content =
      let parsed = strict_parsed content (p.parse content) in
      if content == "" then err partial_write_detected else parsed

  read_with :
      (String → Result SessionFormatIncompatible PersistedSession)
      → Option String
      → Result SessionFormatIncompatible PersistedSession
  read_with parse none = err file_missing
  read_with parse (some content) = parse content

  -- readSession
  unfoldable pub read_session : Disk → String → Result SessionFormatIncompatible PersistedSession
  unfolding read_with parse_and_validate
  read_session d session_id = read_with parse_and_validate (read d (p.path_for session_id))

  -- readSessionForResume
  unfoldable pub read_session_for_resume :
      Disk → String → Result SessionFormatIncompatible PersistedSession
  unfolding read_with parse_lenient
  read_session_for_resume d session_id = read_with parse_lenient (read d (p.path_for session_id))
