-- ===== src/Uploads/Vetting.antt =====
-- Which uploads are READY: the verdict of the scan.
use production_backend_found.Prelude.{
  ℕ, ◌≡◌, refl, sym, subst, ◌∙◌, Bool, true, false, not, ◌&&◌, ◌||◌, some, String, List, [], ◌∷◌,
  arith, all, tally, if◌then◌else◌, Bool-cases, inl, inr, ◌⊎◌, ◌==◌,
}
use production_backend_found.Errors.{Result, ok, err, AppError, Result-cases}
use production_backend_found.Store.{Prisma, update_one}
use production_backend_found.Store.Laws.{
  Holds, update_many-Holds, update_many_sets, update_one-ok, update_one-err,
}
use production_backend_found.Uploads.Security.{ScanVerdict, is_clean, is_malicious}
use production_backend_found.Uploads.{
  Upload, UploadProvider, is_ready, is_live, is_rejected, is_scanning, is_scannable, scanned,
  fail_scan, start_scanning, finalize_upload_scan,
}
use production_backend_found.Uploads.Scan.{
  is_taken_up, is_undeleted_reject, mark_storage_deleted, process_upload_scan, scan_row, try_scan,
  catch_scan, erase_object,
}

abbrev agrees : Bool → Bool → Bool
agrees true b = b
agrees false b = not b

-- The row is READY just if the verdict is CLEAN, and no scan of it goes on.
abbrev pub follows : ℕ → ScanVerdict → Upload → Bool
follows id verdict u =
    not (is_live id u)
    || (agrees (is_ready u.status) (is_clean verdict) && not (is_scanning u.status))

scanned-follows :
    (id now : ℕ) (verdict : ScanVerdict) (x : Upload)
    → follows id verdict (if is_live id x then scanned now verdict x else x) ≡ true
scanned-follows id now ScanVerdict.clean x = ground arith
scanned-follows id now ScanVerdict.malicious x = ground arith
scanned-follows id now ScanVerdict.signature_mismatch x = ground arith
scanned-follows id now ScanVerdict.scan_error x = ground arith
scanned-follows id now ScanVerdict.unknown_verdict x = ground arith

follows_of_none :
    (id : ℕ) (verdict : ScanVerdict) (us : List Upload)
    → tally (is_live id) us ≡ 0
    → all (follows id verdict) us ≡ true
follows_of_none id verdict [] h = refl
follows_of_none id verdict (u ∷ us) h = ground (arith, follows_of_none id verdict us)

module _ (db : Prisma) (id now : ℕ) (verdict : ScanVerdict) where
  abbrev Follows : db.Table Upload → Type 0
  Follows t = Holds db (follows id verdict) t

  erase_object-Follows :
      (deletion : Result (Unit {0})) (t : db.Table Upload)
      → Follows t
      → Follows (erase_object db deletion id now t).1
  unfolding erase_object
  erase_object-Follows (err e) t h = h
  erase_object-Follows (ok _) t h =
      update_many-Holds db (follows id verdict) (is_undeleted_reject id) (mark_storage_deleted now)
        (λ x k w. w) t h

  catch_scan-Follows :
      (r : Result (Unit {0}) × db.Table Upload) → Follows r.1 → Follows (catch_scan db id r).1
  unfolding catch_scan
  catch_scan-Follows (ok v, t) h = h
  catch_scan-Follows (err e, t) h =
      update_many-Holds db (follows id verdict) (λ u. is_live id u && is_scanning u.status)
        fail_scan (λ x k w. absurd (ground (arith, k, w))) t h

  finalize_upload_scan-Follows :
      (t : db.Table Upload)
      → ((t' : db.Table Upload) × (finalize_upload_scan db id verdict now t ≡ ok t') × Follows t')
        ⊎ ((e : AppError) × (finalize_upload_scan db id verdict now t ≡ err e) × Follows t)
  unfolding finalize_upload_scan
  finalize_upload_scan-Follows t =
      elim (Result-cases (update_one db (is_live id) (scanned now verdict) t)) [
        | inl (t', e) ↦ inl (
          t',
          e,
          subst Follows (sym (update_one-ok db (is_live id) (scanned now verdict) t t' e)) (
              update_many_sets db (follows id verdict) (is_live id) (scanned now verdict)
                (scanned-follows id now verdict) t),
        )
        | inr (e, h) ↦ inr (
          e,
          h,
          follows_of_none id verdict (db.rows t) (
              sym (db.count_update_many (is_live id) (scanned now verdict) t)
              ∙ update_one-err db (is_live id) (scanned now verdict) t e h),
        )
      ]

module _ (db : Prisma) (verdict : ScanVerdict) where
  try_scan-Follows :
      (p : UploadProvider) (u : Upload) (now : ℕ) (t : db.Table Upload)
      → Holds db (follows u.id verdict) (try_scan db (ok verdict) p u now t).1
  unfolding try_scan
  try_scan-Follows p u now t = elim (finalize_upload_scan-Follows db u.id now verdict t) [
    | inr (e, h, k) ↦ rw (h, try_scan) k
    | inl (t', h, k) ↦ elim (Bool-cases (is_malicious verdict)) [
      | inl m ↦
          rw (h, m, try_scan)
            (erase_object-Follows db u.id now verdict (p.delete_object u.object_key) t' k)
      | inr m ↦ rw (h, m, try_scan) k
    ]
  ]

  -- The verdict decides: if a scan of an upload that waits for one reaches a verdict, then every
  -- row of that upload that was not deleted is READY after it just if the verdict is CLEAN, and
  -- none is left SCANNING, whatever others wrote while the scanner ran.
  pub process_upload_scan-verdict :
      (scan : Upload → String → Result ScanVerdict) (upload_id now : ℕ) (p : UploadProvider)
      (meanwhile : db.Table Upload → db.Table Upload) (t : db.Table Upload) (upload : Upload)
      (url : String)
      → db.find_first (is_taken_up upload_id) t ≡ some upload
      → (upload.provider == p.kind) ≡ true
      → is_rejected upload.status ≡ false
      → p.create_download_url upload.object_key ≡ ok url
      → scan upload url ≡ ok verdict
      → all
          (follows upload.id verdict)
          (db.rows (process_upload_scan db scan upload_id (some p) now meanwhile t).1)
        ≡ true
  unfolding process_upload_scan scan_row
  process_upload_scan-verdict scan upload_id now p meanwhile t upload url found same open_row signed
        answered =
      let started =
        (db.update_many (λ u. is_live upload.id u && is_scannable u.status) start_scanning t).0 in
      rw (found, same, open_row, signed, answered, process_upload_scan, scan_row)
        (catch_scan-Follows db upload.id now verdict
          (try_scan db (ok verdict) p upload now (meanwhile started))
          (try_scan-Follows p upload now (meanwhile started)))
