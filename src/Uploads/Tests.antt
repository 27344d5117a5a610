-- ===== src/Uploads/Tests.antt =====
-- Uploads, scans and downloads on concrete tables.
use production_backend_found.Prelude.{
  ℕ, ◌+◌, ◌≤◌, ◌≡◌, refl, true, ◌⊎◌, Option, none, some, String, List, [], ◌∷◌, arith, all, any,
  ◌==◌,
}
use mathlib.Core.List.{Memᴰ}
use production_backend_found.Errors.{Result, ok, err, forbidden_error}
use production_backend_found.Store.Lists.{list_prisma}
use production_backend_found.Uploads.Security.{
  ScanVerdict, clean, malicious, webhook, detect_content_type, requires_document_cdr, scan_upload,
}
use production_backend_found.Uploads.{
  Upload, UploadProvider, UploadSettings, UploadInput, quarantined, ready, rejected,
  require_provider, reserve_storage, open_upload, await_directive, initiate_upload, find_own,
  check_signature, inspect_upload, quarantine, finalize_upload_scan, request_scan, complete_upload,
  delete_upload,
}
use production_backend_found.Uploads.Scan.{process_upload_scan, scan_row, try_scan, catch_scan}
use production_backend_found.Uploads.Download.{
  DownloadState, is_downloadable, find_downloadable, charge_quota, increment_usage,
  create_upload_download,
}
use production_backend_found.Uploads.Vetting.{follows, process_upload_scan-verdict}
use production_backend_found.Uploads.Ready.{is_vetted}
use production_backend_found.Uploads.Calls.{
  UploadCall, complete, scan, initiate, remove, perform, run_calls, run_uploads, run_uploads-Vetted,
}
use production_backend_found.Uploads.Quota.{usage, initiate_upload-quota}
use production_backend_found.Uploads.Bandwidth.{
  recorded, download_all, download_all-recorded, SharedWith, create_upload_download-allowed,
}

abbrev png : List ℕ
png = 0x89 ∷ 0x50 ∷ 0x4e ∷ 0x47 ∷ 0x0d ∷ 0x0a ∷ 0x1a ∷ 0x0a ∷ 0 ∷ []

abbrev provider : UploadProvider
provider = record {
  kind = 1;
  create_upload = λ key. ok 900;
  inspect_object = λ key. ok (record { size = 40; content_type = none; checksum = some 7 });
  read_object_prefix = λ key. ok png;
  delete_object = λ key. ok tt;
  create_download_url = λ key. ok "https://storage/object";
}

abbrev settings : UploadSettings
settings = record {
  upload_allowed_mime_types = "image/png" ∷ [];
  upload_max_bytes = 50;
  upload_url_ttl_ms = 600;
  upload_user_storage_quota_bytes = 100;
  upload_scan_mode = webhook;
}

abbrev picture : UploadInput
picture = record { content_type = "image/png"; size = 40 }

abbrev stored_row : Upload
stored_row = record {
  id = 5;
  user_id = 3;
  provider = 1;
  status = quarantined;
  object_key = 50;
  content_type = "image/png";
  expected_size = 40;
  actual_size = some 40;
  checksum = some 7;
  detected_content_type = some "image/png";
  scan_verdict = none;
  upload_expires_at = 900;
  ready_at = none;
  storage_deleted_at = none;
  deleted_at = none;
}

abbrev ready_row : Upload
ready_row = record stored_row { status = ready; scan_verdict = some clean; ready_at = some 10 }

abbrev alone : List Upload → List Upload
alone t = t

detects_png : detect_content_type png ≡ some "image/png"
unfolding detect_content_type
detects_png = refl

-- 0xa5 is '%' with the highest bit set.
detects_high_bit : detect_content_type (0xa5 ∷ 80 ∷ 68 ∷ 70 ∷ 45 ∷ []) ≡ some "application/pdf"
unfolding detect_content_type
detects_high_bit = refl

needs_cdr : requires_document_cdr "application/msword" ≡ true
unfolding requires_document_cdr
needs_cdr = refl

scan_answers :
    scan_upload webhook (ok (record { is_ok = true; verdict = malicious })) ≡ ok malicious
unfolding scan_upload
scan_answers = refl

abbrev infected : Upload → String → Result ScanVerdict
infected u url = ok malicious

abbrev calls : List (UploadCall list_prisma × List (UploadCall list_prisma))
calls =
    (initiate settings 3 picture (some provider) 300 5 50, [])
    ∷ (complete webhook (ok tt) 3 5 (some provider) 310, scan infected 5 (some provider) 311 ∷ [])
    ∷ (scan (λ u url. ok clean) 5 (some provider) 320, remove 3 6 (some provider) 321 ∷ [])
    ∷ []

-- The calls take an upload from its request to READY.
calls_run : any (is_downloadable 5) (run_uploads list_prisma calls []) ≡ true
unfolding run_uploads run_calls perform initiate_upload open_upload reserve_storage require_provider
    await_directive complete_upload find_own inspect_upload check_signature quarantine request_scan
    detect_content_type requires_document_cdr process_upload_scan scan_row try_scan catch_scan
    finalize_upload_scan delete_upload
calls_run = refl

run_uploads-Vetted_example : all is_vetted (run_uploads list_prisma calls (ready_row ∷ [])) ≡ true
run_uploads-Vetted_example = run_uploads-Vetted list_prisma calls (ready_row ∷ []) refl

-- While the scanner runs, the upload is found infected by another worker.
abbrev refuse_meanwhile : List Upload → List Upload
refuse_meanwhile t =
    (list_prisma.update_many (λ u. u.id == 5)
      (λ u. record u { status = rejected; scan_verdict = some malicious }) t).0

process_upload_scan-verdict_example :
    all
      (follows 5 clean)
      (process_upload_scan list_prisma
        (λ u url. ok clean)
        5
        (some provider)
        20
        refuse_meanwhile
        (stored_row ∷ [])).1
    ≡ true
process_upload_scan-verdict_example =
    process_upload_scan-verdict list_prisma clean (λ u url. ok clean) 5 20 provider refuse_meanwhile
      (stored_row ∷ []) stored_row "https://storage/object" refl refl refl refl refl

initiate_upload-quota_example :
    usage list_prisma 3
      (initiate_upload list_prisma settings 3 picture
        (some provider)
        300
        8
        51
        alone
        (ready_row ∷ [])).1
    ≤ 100
initiate_upload-quota_example =
    initiate_upload-quota list_prisma settings 3 3 picture (some provider) 300 8 51 alone
      (ready_row ∷ []) (λ t h. h) (omega arith)

-- A third picture is over the quota.
initiate_over :
    (initiate_upload list_prisma settings 3 picture
      (some provider)
      300
      8
      51
      alone
      (ready_row ∷ record ready_row { id = 6 } ∷ [])).0
    ≡ err forbidden_error
unfolding initiate_upload open_upload reserve_storage require_provider
initiate_over = refl

abbrev shop : DownloadState list_prisma
shop = record {
  uploads = ready_row ∷ [];
  messages = record { upload_id = some 5; conversation_id = 9; deleted_at = none } ∷ [];
  conversations = record { id = 9; deleted_at = none } ∷ [];
  participants =
      record { conversation_id = 9; user_id = 4; left_at = none; deleted_at = none } ∷ [];
  usages = record { user_id = 4; scope_key = 4; period_start = 1; bytes = 10 } ∷ [];
}

abbrev requests : List (ℕ × Option UploadProvider × (Upload → Result ℕ))
requests =
    (5, some provider, λ u. ok 1)
    ∷ (5, some provider, λ u. ok 1)
    ∷ (5, some provider, λ u. ok 1)
    ∷ []

-- Two of the three downloads of 40 bytes fit into 100, of which 10 were spent.
downloads_run : (download_all list_prisma ℕ 100 4 4 1 requests shop).1 ≡ 80
unfolding download_all create_upload_download find_downloadable require_provider charge_quota
    increment_usage
downloads_run = refl

download_all-recorded_example :
    (recorded list_prisma 4 1 (download_all list_prisma ℕ 100 4 4 1 requests shop).0.usages
      ≡ recorded list_prisma 4 1 shop.usages
        + (download_all list_prisma ℕ 100 4 4 1 requests shop).1)
    × (recorded list_prisma 4 1 (download_all list_prisma ℕ 100 4 4 1 requests shop).0.usages ≤ 100)
download_all-recorded_example =
    download_all-recorded list_prisma ℕ 100 4 4 1 requests shop (omega arith) (omega arith)

abbrev charged : DownloadState list_prisma
charged = record shop {
  usages = record { user_id = 4; scope_key = 4; period_start = 1; bytes = 50 } ∷ [];
}

create_upload_download-allowed_example :
    Memᴰ ready_row (ready_row ∷ [])
    × ((ready_row.id ≡ 5) × (ready_row.status ≡ ready) × (ready_row.deleted_at ≡ none))
    × ((ready_row.user_id ≡ 4) ⊎ SharedWith list_prisma shop 5 4)
unfolding create_upload_download find_downloadable require_provider charge_quota increment_usage
create_upload_download-allowed_example =
    create_upload_download-allowed list_prisma ℕ 100 4 4 1 5 (some provider) (λ u. ok 1) shop
      charged ready_row 1 refl
