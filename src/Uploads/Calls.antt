-- ===== src/Uploads/Calls.antt =====
-- The calls that write uploads, one after the other, each with what others write while it waits for
-- the storage provider or the scanner.
use production_backend_found.Prelude.{
  ℕ, ◌≡◌, refl, sym, subst, true, not, ◌&&◌, ◌||◌, Option, none, some, String, List, [], ◌∷◌, arith,
  all, Bool-cases, Option-cases, inl, inr, ◌==◌,
}
use production_backend_found.Errors.{Result, ok, err, Result-cases}
use production_backend_found.Store.{Prisma, update_one}
use production_backend_found.Store.Laws.{update_one-ok}
use production_backend_found.Uploads.Security.{
  ScanVerdict, is_malicious, ScanMode, detect_content_type,
}
use production_backend_found.Uploads.{
  Upload, UploadProvider, UploadSettings, UploadInput, StoredObject, failed, deleted, is_ready,
  is_live, is_scanning, is_scannable, is_completable, scanned, fail_scan, start_scanning,
  set_status, refuse_signature, is_type, is_other_type, open_upload, initiate_upload,
  finalize_upload_scan, check_signature, inspect_upload, find_own, complete_upload, delete_upload,
}
use production_backend_found.Uploads.Scan.{
  is_taken_up, is_undeleted_reject, mark_storage_deleted, process_upload_scan, scan_row, try_scan,
  catch_scan, erase_object, scan_source,
}
use production_backend_found.Uploads.Ready.{
  is_vetted, Vetted, scanned-is_vetted, written, then_write-Vetted, await_directive-Vetted,
  open_upload-Vetted, discard-Vetted, quarantine-Vetted,
}

module _ (db : Prisma) where
  abbrev Writes : Type 0
  Writes = db.Table Upload → db.Table Upload

  pub data UploadCall : Type 0 where
    initiate : UploadSettings → ℕ → UploadInput → Option UploadProvider → ℕ → ℕ → ℕ → UploadCall
    complete : ScanMode → Result (Unit {0}) → ℕ → ℕ → Option UploadProvider → ℕ → UploadCall
    scan : (Upload → String → Result ScanVerdict) → ℕ → Option UploadProvider → ℕ → UploadCall
    remove : ℕ → ℕ → Option UploadProvider → ℕ → UploadCall

  unfoldable pub perform :
      UploadCall
      → (db.Table Upload → db.Table Upload)
      → db.Table Upload
      → Result (Unit {0}) × db.Table Upload
  perform (initiate settings user_id input p now new_id key) meanwhile t =
      initiate_upload db settings user_id input p now new_id key meanwhile t
  perform (complete mode event user_id id p now) meanwhile t =
      complete_upload db mode event user_id id p now meanwhile t
  perform (scan answer id p now) meanwhile t = process_upload_scan db answer id p now meanwhile t
  perform (remove user_id id p now) meanwhile t = delete_upload db user_id id p now meanwhile t

  -- A call that is interrupted by the calls of others, each of them in one piece.
  unfoldable pub run_calls : List UploadCall → db.Table Upload → db.Table Upload
  run_calls [] t = t
  run_calls (c ∷ cs) t = run_calls cs (perform c (λ x. x) t).1

  -- Each call with the calls that others make while it waits.
  unfoldable pub run_uploads :
      List (UploadCall × List UploadCall) → db.Table Upload → db.Table Upload
  run_uploads [] t = t
  run_uploads ((c, peers) ∷ cs) t = run_uploads cs (perform c (run_calls peers) t).1

  check_signature-Vetted :
      (mode : ScanMode) (event : Result (Unit {0})) (p : UploadProvider) (u : Upload)
      (stored : StoredObject) (now : ℕ) (t : db.Table Upload)
      → Vetted db t
      → Vetted db (check_signature db mode event p u stored now t).1
  unfolding check_signature
  check_signature-Vetted mode event p u stored now t h =
      elim (Result-cases (p.read_object_prefix u.object_key)) [
        | inr (e, refused) ↦ rw (refused, check_signature) h
        | inl (prefix, read) ↦
            rw (read, check_signature)
              (elim (Bool-cases (is_type (detect_content_type prefix) u.content_type)) [
                | inl same ↦
                    rw same (
                      quarantine-Vetted db mode event u stored (detect_content_type prefix) now t h)
                | inr other ↦ rw other (
                    discard-Vetted db (p.delete_object u.object_key)
                      (refuse_signature (detect_content_type prefix)) u.id t (λ x w. refl) h)
              ])
      ]

  inspect_upload-Vetted :
      (mode : ScanMode) (event : Result (Unit {0})) (p : UploadProvider) (u : Upload) (now : ℕ)
      (t : db.Table Upload)
      → Vetted db t
      → Vetted db (inspect_upload db mode event p u now t).1
  unfolding inspect_upload
  inspect_upload-Vetted mode event p u now t h =
      elim (Result-cases (p.inspect_object u.object_key)) [
        | inr (e, refused) ↦ rw (refused, inspect_upload) h
        | inl (stored, found) ↦
            rw (found, inspect_upload)
              (elim (Bool-cases (
                not (stored.size == u.expected_size)
                || is_other_type stored.content_type u.content_type)) [
                  | inl other ↦ rw other (
                      discard-Vetted db (p.delete_object u.object_key) (set_status failed) u.id t
                        (λ x w. refl) h)
                  | inr same ↦ rw same (check_signature-Vetted mode event p u stored now t h)
                ])
      ]

  complete_upload-Vetted :
      (mode : ScanMode) (event : Result (Unit {0})) (user_id id : ℕ) (p : Option UploadProvider)
      (now : ℕ) (meanwhile : db.Table Upload → db.Table Upload) (t : db.Table Upload)
      → Vetted db (meanwhile t)
      → Vetted db t
      → Vetted db (complete_upload db mode event user_id id p now meanwhile t).1
  unfolding complete_upload
  complete_upload-Vetted mode event user_id id p now meanwhile t h w =
      elim (Result-cases (find_own db user_id id p t)) [
        | inr (e, refused) ↦ rw (refused, complete_upload) w
        | inl ((provider, u), found) ↦
            rw (found, complete_upload)
              (elim (Bool-cases (is_ready u.status)) [
                | inl done ↦ rw done w
                | inr open_row ↦ rw open_row (elim (Bool-cases (is_completable u.status)) [
                  | inr closed ↦ rw closed w
                  | inl may ↦
                      rw may (inspect_upload-Vetted mode event provider u now (meanwhile t) h)
                ])
              ])
      ]

  delete_upload-Vetted :
      (user_id id : ℕ) (p : Option UploadProvider) (now : ℕ)
      (meanwhile : db.Table Upload → db.Table Upload) (t : db.Table Upload)
      → Vetted db (meanwhile t)
      → Vetted db t
      → Vetted db (delete_upload db user_id id p now meanwhile t).1
  unfolding delete_upload
  delete_upload-Vetted user_id id p now meanwhile t h w =
      elim (Result-cases (find_own db user_id id p t)) [
        | inr (e, refused) ↦ rw (refused, delete_upload) w
        | inl ((provider, u), found) ↦
            rw (found, delete_upload)
              (elim (Result-cases (provider.delete_object u.object_key)) [
                | inr (e, kept) ↦ rw kept h
                | inl (_, gone) ↦ rw gone (
                    then_write-Vetted db (is_live u.id)
                      (λ x. record x { status = deleted; deleted_at = some now }) (meanwhile t) _
                      (λ x v. refl) (λ t' v. v) h)
              ])
      ]

  erase_object-Vetted :
      (deletion : Result (Unit {0})) (id now : ℕ) (t : db.Table Upload)
      → Vetted db t
      → Vetted db (erase_object db deletion id now t).1
  unfolding erase_object
  erase_object-Vetted (err e) id now t h = h
  erase_object-Vetted (ok _) id now t h =
      written db (is_undeleted_reject id) (mark_storage_deleted now) (λ x w. w) t h

  catch_scan-Vetted :
      (id : ℕ) (r : Result (Unit {0}) × db.Table Upload)
      → Vetted db r.1
      → Vetted db (catch_scan db id r).1
  unfolding catch_scan
  catch_scan-Vetted id (ok v, t) h = h
  catch_scan-Vetted id (err e, t) h =
      written db (λ u. is_live id u && is_scanning u.status) fail_scan (λ x w. refl) t h

  try_scan-Vetted :
      (answer : Result ScanVerdict) (p : UploadProvider) (u : Upload) (now : ℕ)
      (t : db.Table Upload)
      → Vetted db t
      → Vetted db (try_scan db answer p u now t).1
  unfolding try_scan finalize_upload_scan
  try_scan-Vetted (err e) p u now t h = h
  try_scan-Vetted (ok verdict) p u now t h =
      elim (Result-cases (update_one db (is_live u.id) (scanned now verdict) t)) [
        | inr (e, refused) ↦ rw (refused, try_scan, finalize_upload_scan) h
        | inl (t', done) ↦
            let w : Vetted db t' =
              subst (Vetted db)
                (sym (update_one-ok db (is_live u.id) (scanned now verdict) t t' done))
                (written db (is_live u.id) (scanned now verdict)
                  (λ x v. scanned-is_vetted now verdict x) t h) in
            elim (Bool-cases (is_malicious verdict)) [
              | inl m ↦
                  rw (done, try_scan, finalize_upload_scan, m)
                    (erase_object-Vetted (p.delete_object u.object_key) u.id now t' w)
              | inr m ↦ rw (done, try_scan, finalize_upload_scan, m) w
            ]
      ]

  process_upload_scan-Vetted :
      (answers : Upload → String → Result ScanVerdict) (id : ℕ) (p : Option UploadProvider)
      (now : ℕ) (meanwhile : db.Table Upload → db.Table Upload) (t : db.Table Upload)
      → ((t' : db.Table Upload) → Vetted db t' → Vetted db (meanwhile t'))
      → Vetted db t
      → Vetted db (process_upload_scan db answers id p now meanwhile t).1
  unfolding process_upload_scan scan_row
  process_upload_scan-Vetted answers id none now meanwhile t k h = h
  process_upload_scan-Vetted answers id (some p) now meanwhile t k h =
      elim (Option-cases (db.find_first (is_taken_up id) t)) [
        | inl missing ↦ rw (missing, process_upload_scan) h
        | inr (u, found) ↦
            let t' =
              (db.update_many (λ x. is_live u.id x && is_scannable x.status) start_scanning t).0 in
            let w : Vetted db t' =
              written db (λ x. is_live u.id x && is_scannable x.status) start_scanning (λ x v. refl)
                t h in
            let answer = scan_source db (answers u) (p.create_download_url u.object_key) in
            rw (found, process_upload_scan, scan_row)
              (ground (
                arith,
                h,
                erase_object-Vetted (p.delete_object u.object_key) u.id now t h,
                catch_scan-Vetted u.id (try_scan db answer p u now (meanwhile t'))
                    (try_scan-Vetted answer p u now (meanwhile t') (k t' w)),
              ))
      ]

  perform-Vetted :
      (c : UploadCall) (meanwhile : db.Table Upload → db.Table Upload) (t : db.Table Upload)
      → ((t' : db.Table Upload) → Vetted db t' → Vetted db (meanwhile t'))
      → Vetted db t
      → Vetted db (perform c meanwhile t).1
  unfolding perform initiate_upload
  perform-Vetted (initiate settings user_id input p now new_id key) meanwhile t k h =
      elim (Result-cases (open_upload db settings user_id input p now new_id key t)) [
        | inr (e, refused) ↦ rw (refused, initiate_upload) h
        | inl (opened, done) ↦
            rw (done, initiate_upload)
              (await_directive-Vetted db opened.0 opened.1 meanwhile opened.2 (
                k opened.2
                  (open_upload-Vetted db settings user_id input p now new_id key t opened done h)))
      ]
  perform-Vetted (complete mode event user_id id p now) meanwhile t k h =
      complete_upload-Vetted mode event user_id id p now meanwhile t (k t h) h
  perform-Vetted (scan answer id p now) meanwhile t k h =
      process_upload_scan-Vetted answer id p now meanwhile t k h
  perform-Vetted (remove user_id id p now) meanwhile t k h =
      delete_upload-Vetted user_id id p now meanwhile t (k t h) h

  run_calls-Vetted :
      (cs : List UploadCall) (t : db.Table Upload) → Vetted db t → Vetted db (run_calls cs t)
  unfolding run_calls
  run_calls-Vetted [] t h = h
  run_calls-Vetted (c ∷ cs) t h =
      run_calls-Vetted cs (perform c (λ x. x) t).1 (perform-Vetted c (λ x. x) t (λ t' w. w) h)

  -- If every READY upload has the verdict CLEAN, then so after any list of calls that initiate,
  -- complete, scan and delete uploads, with any answers of the provider and the scanner, each
  -- interrupted by any calls of the same kinds while it waits for them.
  pub run_uploads-Vetted :
      (cs : List (UploadCall × List UploadCall)) (t : db.Table Upload)
      → all is_vetted (db.rows t) ≡ true
      → all is_vetted (db.rows (run_uploads cs t)) ≡ true
  unfolding run_uploads
  run_uploads-Vetted [] t h = h
  run_uploads-Vetted ((c, peers) ∷ cs) t h =
      run_uploads-Vetted cs (perform c (run_calls peers) t).1
        (perform-Vetted c (run_calls peers) t (run_calls-Vetted peers) h)
