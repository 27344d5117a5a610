-- ===== src/Uploads.antt =====
-- src/modules/uploads/uploads.service.ts. The storage provider and the scanner are not part of the
-- repository: their answers are parameters, and so are the writes of others (`meanwhile`) while an
-- operation waits for them. A table holds the rows that the tenant scope shows; identifiers, object
-- keys and checksums are numbers that are only compared. An error keeps what was written before it.
pub mod Security
pub mod Scan
pub mod Download
pub mod Vetting
pub mod Ready
pub mod Calls
pub mod Quota
pub mod Bandwidth
mod Tests
use text.Mathlib.Text.{◌==◌ as str_eq}
use production_backend_found.Prelude.{
  ℕ, ◌+◌, Bool, true, false, not, ◌&&◌, ◌||◌, Option, none, some, String, List, ◌==◌, ltb, is_none,
  any, if◌then◌else◌,
}
use production_backend_found.Errors.{
  Result, ok, err, ◌>>=◌, ◌>>◌, throw_if, or_throw, bad_request_error, forbidden_error,
  not_found_error, conflict_error, service_unavailable_error, plain_error,
}
use production_backend_found.Store.{Prisma, update_one}
use production_backend_found.Uploads.Security.{
  ScanVerdict, clean, signature_mismatch, scan_error, is_clean, is_malicious, ScanMode,
  is_scan_disabled, detect_content_type, requires_document_cdr,
}

pub data UploadStatus : Type 0 where
  pending quarantined scanning ready rejected failed deleted : UploadStatus

pub record Upload : Type 0 where
  pub id : ℕ
  pub user_id : ℕ
  pub provider : ℕ
  pub status : UploadStatus
  pub object_key : ℕ
  pub content_type : String
  pub expected_size : ℕ
  pub actual_size : Option ℕ
  pub checksum : Option ℕ
  pub detected_content_type : Option String
  pub scan_verdict : Option ScanVerdict
  pub upload_expires_at : ℕ
  pub ready_at : Option ℕ
  pub storage_deleted_at : Option ℕ
  pub deleted_at : Option ℕ

abbrev pub is_ready : UploadStatus → Bool
is_ready ready = true
is_ready _ = false

abbrev pub is_rejected : UploadStatus → Bool
is_rejected rejected = true
is_rejected _ = false

abbrev pub is_scanning : UploadStatus → Bool
is_scanning scanning = true
is_scanning _ = false

-- `['PENDING', 'QUARANTINED']`.
abbrev pub is_completable : UploadStatus → Bool
is_completable pending = true
is_completable quarantined = true
is_completable _ = false

-- `['QUARANTINED', 'SCANNING']`.
abbrev pub is_scannable : UploadStatus → Bool
is_scannable quarantined = true
is_scannable scanning = true
is_scannable _ = false

-- `['PENDING', 'QUARANTINED', 'SCANNING', 'READY']`.
abbrev pub is_stored : UploadStatus → Bool
is_stored s = is_completable s || is_scanning s || is_ready s

pub record StoredObject : Type 0 where
  pub size : ℕ
  pub content_type : Option String
  pub checksum : Option ℕ

-- What the provider's calls answer; `create_upload` gives the time at which its URL ends.
pub record UploadProvider : Type 0 where
  pub kind : ℕ
  pub create_upload : ℕ → Result ℕ
  pub inspect_object : ℕ → Result StoredObject
  pub read_object_prefix : ℕ → Result (List ℕ)
  pub delete_object : ℕ → Result (Unit {0})
  pub create_download_url : ℕ → Result String

pub record UploadSettings : Type 0 where
  pub upload_allowed_mime_types : List String
  pub upload_max_bytes : ℕ
  pub upload_url_ttl_ms : ℕ
  pub upload_user_storage_quota_bytes : ℕ
  pub upload_scan_mode : ScanMode

pub record UploadInput : Type 0 where
  pub content_type : String
  pub size : ℕ

unfoldable pub require_provider : Option UploadProvider → Result UploadProvider
require_provider p = or_throw p service_unavailable_error

abbrev pub is_live : ℕ → Upload → Bool
is_live id u = u.id == id && is_none u.deleted_at

abbrev pub is_live_of : ℕ → ℕ → Upload → Bool
is_live_of id user_id u = u.id == id && u.user_id == user_id && is_none u.deleted_at

-- The rows that count against the quota.
abbrev pub counts : ℕ → Upload → Bool
counts user_id u = u.user_id == user_id && is_none u.deleted_at && is_stored u.status

abbrev pub new_upload : ℕ → ℕ → ℕ → ℕ → ℕ → UploadInput → Upload
new_upload id user_id provider key expires_at input = record {
  id = id;
  user_id = user_id;
  provider = provider;
  status = pending;
  object_key = key;
  content_type = input.content_type;
  expected_size = input.size;
  actual_size = none;
  checksum = none;
  detected_content_type = none;
  scan_verdict = none;
  upload_expires_at = expires_at;
  ready_at = none;
  storage_deleted_at = none;
  deleted_at = none;
}

abbrev pub set_status : UploadStatus → Upload → Upload
set_status s u = record u { status = s }

abbrev pub is_other_type : Option String → String → Bool
is_other_type none declared = false
is_other_type (some t) declared = not (str_eq t declared)

abbrev pub is_type : Option String → String → Bool
is_type none declared = false
is_type (some t) declared = str_eq t declared

-- The `data` of `finalizeUploadScan`.
abbrev pub scanned : ℕ → ScanVerdict → Upload → Upload
scanned now verdict u = record u {
  status = if is_clean verdict then ready else rejected;
  scan_verdict = some verdict;
  ready_at = if is_clean verdict then some now else none;
}

abbrev pub mark_quarantined : StoredObject → Option String → Upload → Upload
mark_quarantined stored detected u = record u {
  status = quarantined;
  actual_size = some stored.size;
  checksum = stored.checksum;
  detected_content_type = detected;
}

abbrev pub refuse_signature : Option String → Upload → Upload
refuse_signature detected u = record u {
  status = rejected;
  detected_content_type = detected;
  scan_verdict = some signature_mismatch;
}

abbrev pub start_scanning : Upload → Upload
start_scanning u = record u { status = scanning; scan_verdict = none }

abbrev pub fail_scan : Upload → Upload
fail_scan u = record u { status = quarantined; scan_verdict = some scan_error }

module _ (db : Prisma) where
  abbrev Outcome : Type 0 → Type 0
  Outcome A = Result A × db.Table Upload

  -- What a write answers, the table as it was if it throws.
  abbrev pub then_write :
      {A : Type 0}
      → Result (db.Table Upload)
      → db.Table Upload
      → (db.Table Upload → Result A × db.Table Upload)
      → Result A × db.Table Upload
  then_write (err e) t next = (err e, t)
  then_write (ok t') t next = next t'

  -- The transaction: the aggregate, its test and the row.
  unfoldable pub reserve_storage :
      UploadSettings → ℕ → Upload → db.Table Upload → Result (db.Table Upload)
  reserve_storage settings user_id upload t = do
    throw_if
        (ltb settings.upload_user_storage_quota_bytes
          (db.sum (counts user_id) (λ u. u.expected_size) t + upload.expected_size))
        forbidden_error
    ok (db.create upload t)

  -- The `try` and its `catch` around the provider's directive.
  unfoldable pub await_directive :
      Result ℕ
      → Upload
      → (db.Table Upload → db.Table Upload)
      → db.Table Upload
      → Result (Unit {0}) × db.Table Upload
  await_directive (err e) upload meanwhile t =
      then_write (update_one db (is_live upload.id) (set_status failed) (meanwhile t)) (meanwhile t)
        (λ t'. (err e, t'))
  await_directive (ok expires_at) upload meanwhile t =
      if expires_at == upload.upload_expires_at
      then (ok tt, meanwhile t)
      else elim (update_one db (is_live upload.id)
          (λ u. record u { upload_expires_at = expires_at }) (meanwhile t)) [
            | ok t' ↦ (ok tt, t')
            | err e ↦
                then_write (update_one db (is_live upload.id) (set_status failed) (meanwhile t))
                  (meanwhile t) (λ t'. (err e, t'))
          ]

  -- What comes before the provider's call: its directive is left to await.
  unfoldable pub open_upload :
      UploadSettings
      → ℕ
      → UploadInput
      → Option UploadProvider
      → ℕ
      → ℕ
      → ℕ
      → db.Table Upload
      → Result (Result ℕ × Upload × db.Table Upload)
  open_upload settings user_id input provider now new_id key t = do
    p ← require_provider provider
    throw_if (not (any (str_eq input.content_type) settings.upload_allowed_mime_types))
        bad_request_error
    throw_if (ltb settings.upload_max_bytes input.size) bad_request_error
    let upload = new_upload new_id user_id p.kind key (now + settings.upload_url_ttl_ms) input
    t' ← reserve_storage settings user_id upload t
    ok (p.create_upload key, upload, t')

  unfoldable pub initiate_upload :
      UploadSettings
      → ℕ
      → UploadInput
      → Option UploadProvider
      → ℕ
      → ℕ
      → ℕ
      → (db.Table Upload → db.Table Upload)
      → db.Table Upload
      → Result (Unit {0}) × db.Table Upload
  initiate_upload settings user_id input provider now new_id key meanwhile t =
      elim (open_upload settings user_id input provider now new_id key t) [
        | err e ↦ (err e, t)
        | ok opened ↦ await_directive opened.0 opened.1 meanwhile opened.2
      ]

  unfoldable pub finalize_upload_scan :
      ℕ → ScanVerdict → ℕ → db.Table Upload → Result (db.Table Upload)
  finalize_upload_scan upload_id verdict now t =
      update_one db (is_live upload_id) (scanned now verdict) t

  -- A write after which the operation still throws `e`; `deletion` is what deleting the object gave.
  unfoldable pub discard :
      Result (Unit {0})
      → (Upload → Upload)
      → ℕ
      → db.Table Upload
      → Result (Unit {0}) × db.Table Upload
  discard (err e) f id t = (err e, t)
  discard (ok _) f id t =
      then_write (update_one db (is_live id) f t) t (λ t'. (err bad_request_error, t'))

  -- `finalizeUploadScan` as a last step.
  unfoldable pub finish_scan :
      ℕ → ScanVerdict → ℕ → db.Table Upload → Result (Unit {0}) × db.Table Upload
  finish_scan upload_id verdict now t =
      then_write (finalize_upload_scan upload_id verdict now t) t (λ t'. (ok tt, t'))

  -- The transaction that asks for a scan; `event` is what `addOutboxEvent` gives.
  unfoldable pub request_scan : Result (Unit {0}) → ℕ → db.Table Upload → Result (db.Table Upload)
  request_scan event upload_id t = do
    t' ← update_one db (is_live upload_id) start_scanning t
    event
    ok t'

  -- From the object's verified signature on.
  unfoldable pub quarantine :
      ScanMode
      → Result (Unit {0})
      → Upload
      → StoredObject
      → Option String
      → ℕ
      → db.Table Upload
      → Result (Unit {0}) × db.Table Upload
  quarantine mode event upload stored detected now t =
      let written =
        db.update_many (λ u. is_live_of upload.id upload.user_id u && is_completable u.status)
          (mark_quarantined stored detected) t in
      if not (any (is_live upload.id) (db.rows written.0))
      then (err plain_error, t)
      else if requires_document_cdr upload.content_type && is_scan_disabled mode
      then (ok tt, written.0)
      else if is_scan_disabled mode
      then finish_scan upload.id clean now written.0
      else then_write (request_scan event upload.id written.0) written.0 (λ t'. (ok tt, t'))

  unfoldable pub check_signature :
      ScanMode
      → Result (Unit {0})
      → UploadProvider
      → Upload
      → StoredObject
      → ℕ
      → db.Table Upload
      → Result (Unit {0}) × db.Table Upload
  check_signature mode event p upload stored now t = elim (p.read_object_prefix upload.object_key) [
    | err e ↦ (err e, t)
    | ok prefix ↦
        if is_type (detect_content_type prefix) upload.content_type
        then quarantine mode event upload stored (detect_content_type prefix) now t
        else discard (p.delete_object upload.object_key)
            (refuse_signature (detect_content_type prefix)) upload.id t
  ]

  -- `meanwhile` is what others write while the provider answers.
  unfoldable pub inspect_upload :
      ScanMode
      → Result (Unit {0})
      → UploadProvider
      → Upload
      → ℕ
      → db.Table Upload
      → Result (Unit {0}) × db.Table Upload
  inspect_upload mode event p upload now t = elim (p.inspect_object upload.object_key) [
    | err e ↦ (err e, t)
    | ok stored ↦
        if not (stored.size == upload.expected_size)
          || is_other_type stored.content_type upload.content_type
        then discard (p.delete_object upload.object_key) (set_status failed) upload.id t
        else check_signature mode event p upload stored now t
  ]

  -- The provider and the row that an operation of the owner works on.
  unfoldable pub find_own :
      ℕ → ℕ → Option UploadProvider → db.Table Upload → Result (UploadProvider × Upload)
  find_own user_id upload_id provider t = do
    p ← require_provider provider
    upload ← or_throw (db.find_first (is_live_of upload_id user_id) t) not_found_error
    throw_if (not (upload.provider == p.kind)) service_unavailable_error
    ok (p, upload)

  unfoldable pub complete_upload :
      ScanMode
      → Result (Unit {0})
      → ℕ
      → ℕ
      → Option UploadProvider
      → ℕ
      → (db.Table Upload → db.Table Upload)
      → db.Table Upload
      → Result (Unit {0}) × db.Table Upload
  complete_upload mode event user_id upload_id provider now meanwhile t =
      elim (find_own user_id upload_id provider t) [
        | err e ↦ (err e, t)
        | ok (p, upload) ↦
            if is_ready upload.status
            then (ok tt, t)
            else if not (is_completable upload.status)
            then (err conflict_error, t)
            else inspect_upload mode event p upload now (meanwhile t)
      ]

  unfoldable pub delete_upload :
      ℕ
      → ℕ
      → Option UploadProvider
      → ℕ
      → (db.Table Upload → db.Table Upload)
      → db.Table Upload
      → Result (Unit {0}) × db.Table Upload
  delete_upload user_id upload_id provider now meanwhile t =
      elim (find_own user_id upload_id provider t) [
        | err e ↦ (err e, t)
        | ok (p, upload) ↦ elim (p.delete_object upload.object_key) [
          | err e ↦ (err e, meanwhile t)
          | ok _ ↦
              then_write
                (update_one db (is_live upload.id)
                  (λ u. record u { status = deleted; deleted_at = some now }) (meanwhile t))
                (meanwhile t) (λ t'. (ok tt, t'))
        ]
      ]
