-- ===== src/Uploads/Scan.antt =====
-- `processUploadScan` of src/modules/uploads/uploads.service.ts, the worker's side.
use production_backend_found.Prelude.{
  ℕ, Bool, false, not, ◌&&◌, ◌||◌, Option, none, some, String, ◌==◌, is_none, if◌then◌else◌,
}
use production_backend_found.Errors.{Result, ok, err, plain_error, service_unavailable_error}
use production_backend_found.Store.{Prisma}
use production_backend_found.Uploads.Security.{ScanVerdict, is_malicious}
use production_backend_found.Uploads.{
  Upload, UploadProvider, is_live, is_scannable, is_rejected, is_scanning, start_scanning,
  fail_scan, finalize_upload_scan,
}

-- `status: { in: ['QUARANTINED', 'SCANNING', 'REJECTED'] }`.
abbrev pub is_taken_up : ℕ → Upload → Bool
is_taken_up id u = is_live id u && (is_scannable u.status || is_rejected u.status)

abbrev pub is_undeleted_reject : ℕ → Upload → Bool
is_undeleted_reject id u = is_live id u && is_rejected u.status && is_none u.storage_deleted_at

abbrev pub mark_storage_deleted : ℕ → Upload → Upload
mark_storage_deleted now u = record u { storage_deleted_at = some now }

abbrev is_malicious_row : Option ScanVerdict → Bool
is_malicious_row none = false
is_malicious_row (some v) = is_malicious v

module _ (db : Prisma) where
  -- Deleting the object, and the note that it was deleted.
  unfoldable pub erase_object :
      Result (Unit {0}) → ℕ → ℕ → db.Table Upload → Result (Unit {0}) × db.Table Upload
  erase_object (err e) id now t = (err e, t)
  erase_object (ok _) id now t =
      (ok tt, (db.update_many (is_undeleted_reject id) (mark_storage_deleted now) t).0)

  -- The `catch`.
  unfoldable pub catch_scan :
      ℕ → Result (Unit {0}) × db.Table Upload → Result (Unit {0}) × db.Table Upload
  catch_scan id (ok v, t) = (ok v, t)
  catch_scan id (err e, t) =
      (err e, (db.update_many (λ u. is_live id u && is_scanning u.status) fail_scan t).0)

  -- The `try`: `scan` is what the source URL and the scanner gave.
  unfoldable pub try_scan :
      Result ScanVerdict
      → UploadProvider
      → Upload
      → ℕ
      → db.Table Upload
      → Result (Unit {0}) × db.Table Upload
  try_scan (err e) p upload now t = (err e, t)
  try_scan (ok verdict) p upload now t = elim (finalize_upload_scan db upload.id verdict now t) [
    | err e ↦ (err e, t)
    | ok t' ↦
        if is_malicious verdict
        then erase_object (p.delete_object upload.object_key) upload.id now t'
        else (ok tt, t')
  ]

  -- `scan_upload` answers for the source URL.
  abbrev pub scan_source : (String → Result ScanVerdict) → Result String → Result ScanVerdict
  scan_source scan (err e) = err e
  scan_source scan (ok url) = scan url

  unfoldable pub scan_row :
      (Upload → String → Result ScanVerdict)
      → UploadProvider
      → Upload
      → ℕ
      → (db.Table Upload → db.Table Upload)
      → db.Table Upload
      → Result (Unit {0}) × db.Table Upload
  scan_row scan p upload now meanwhile t =
      let started =
        (db.update_many (λ u. is_live upload.id u && is_scannable u.status) start_scanning t).0 in
      catch_scan upload.id (
        try_scan (scan_source (scan upload) (p.create_download_url upload.object_key)) p upload now
          (meanwhile started))

  unfoldable pub process_upload_scan :
      (Upload → String → Result ScanVerdict)
      → ℕ
      → Option UploadProvider
      → ℕ
      → (db.Table Upload → db.Table Upload)
      → db.Table Upload
      → Result (Unit {0}) × db.Table Upload
  process_upload_scan scan upload_id none now meanwhile t = (err service_unavailable_error, t)
  process_upload_scan scan upload_id (some p) now meanwhile t =
      elim (db.find_first (is_taken_up upload_id) t) [
        | none ↦ (ok tt, t)
        | some upload ↦
            if not (upload.provider == p.kind)
            then (err plain_error, t)
            else if not (is_rejected upload.status)
            then scan_row scan p upload now meanwhile t
            else if is_malicious_row upload.scan_verdict && is_none upload.storage_deleted_at
            then erase_object (p.delete_object upload.object_key) upload.id now t
            else (ok tt, t)
      ]
