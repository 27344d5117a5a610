-- ===== src/Uploads/Ready.antt =====
-- Every upload that can be downloaded was found clean: an invariant of all the calls of
-- src/modules/uploads/uploads.service.ts that write uploads.
use production_backend_found.Prelude.{
  ℕ, ◌+◌, ◌≡◌, refl, sym, subst, Bool, true, false, not, ◌&&◌, ◌||◌, Option, none, some, String,
  arith, Bool-cases, inl, inr, ◌==◌,
}
use production_backend_found.Errors.{Result, ok, err, ◌>>◌, Result-cases}
use production_backend_found.Store.{Prisma, update_one}
use production_backend_found.Store.Laws.{Holds, create-Holds, update_many-Holds, update_one-ok}
use production_backend_found.Uploads.Security.{ScanVerdict, clean, is_clean, ScanMode}
use production_backend_found.Uploads.{
  Upload, UploadProvider, UploadSettings, UploadInput, StoredObject, failed, is_ready, is_live,
  is_live_of, is_completable, scanned, start_scanning, set_status, mark_quarantined, new_upload,
  then_write, reserve_storage, await_directive, open_upload, discard, finalize_upload_scan,
  finish_scan, request_scan, quarantine, require_provider,
}

abbrev is_clean_row : Option ScanVerdict → Bool
is_clean_row none = false
is_clean_row (some v) = is_clean v

abbrev pub is_vetted : Upload → Bool
is_vetted u = not (is_ready u.status) || is_clean_row u.scan_verdict

pub scanned-is_vetted :
    (now : ℕ) (verdict : ScanVerdict) (x : Upload) → is_vetted (scanned now verdict x) ≡ true
scanned-is_vetted now ScanVerdict.clean x = refl
scanned-is_vetted now ScanVerdict.malicious x = refl
scanned-is_vetted now ScanVerdict.signature_mismatch x = refl
scanned-is_vetted now ScanVerdict.scan_error x = refl
scanned-is_vetted now ScanVerdict.unknown_verdict x = refl

module _ (db : Prisma) where
  abbrev pub Vetted : db.Table Upload → Type 0
  Vetted t = Holds db is_vetted t

  pub written :
      (p : Upload → Bool) (f : Upload → Upload)
      → ((x : Upload) → is_vetted x ≡ true → is_vetted (f x) ≡ true)
      → (t : db.Table Upload) → Vetted t
      → Vetted (db.update_many p f t).0
  written p f k = update_many-Holds db is_vetted p f (λ x _. k x)

  -- A write by `update`, what follows it, and the table as it was where the write throws.
  pub then_write-Vetted :
      {A : Type 0} (p : Upload → Bool) (f : Upload → Upload) (t : db.Table Upload)
      (next : db.Table Upload → Result A × db.Table Upload)
      → ((x : Upload) → is_vetted x ≡ true → is_vetted (f x) ≡ true)
      → ((t' : db.Table Upload) → Vetted t' → Vetted (next t').1)
      → Vetted t
      → Vetted (then_write db (update_one db p f t) t next).1
  then_write-Vetted p f t next k m h = elim (Result-cases (update_one db p f t)) [
    | inr (e, refused) ↦ rw refused h
    | inl (t', done) ↦
        rw done (m t' (subst Vetted (sym (update_one-ok db p f t t' done)) (written p f k t h)))
  ]

  pub await_directive-Vetted :
      (directive : Result ℕ) (u : Upload) (meanwhile : db.Table Upload → db.Table Upload)
      (t : db.Table Upload)
      → Vetted (meanwhile t)
      → Vetted (await_directive db directive u meanwhile t).1
  unfolding await_directive
  await_directive-Vetted (err e) u meanwhile t h =
      then_write-Vetted (is_live u.id) (set_status failed) (meanwhile t) (λ t'. (err e, t'))
        (λ x w. refl) (λ t' w. w) h
  await_directive-Vetted (ok at) u meanwhile t h =
      let extend = λ (x : Upload). record x { upload_expires_at = at } in
      elim (Bool-cases (at == u.upload_expires_at)) [
        | inl same ↦ rw same h
        | inr other ↦ elim (Result-cases (update_one db (is_live u.id) extend (meanwhile t))) [
          | inl (t', done) ↦
              rw (other, done)
                (subst Vetted (sym (update_one-ok db (is_live u.id) extend (meanwhile t) t' done))
                  (written (is_live u.id) extend (λ x w. w) (meanwhile t) h))
          | inr (e, refused) ↦
              rw (other, refused)
                (then_write-Vetted (is_live u.id) (set_status failed) (meanwhile t)
                  (λ t'. (err e, t')) (λ x w. refl) (λ t' w. w) h)
        ]
      ]

  pub open_upload-Vetted :
      (settings : UploadSettings) (user_id : ℕ) (input : UploadInput)
      (provider : Option UploadProvider) (now new_id key : ℕ) (t : db.Table Upload)
      (opened : Result ℕ × Upload × db.Table Upload)
      → open_upload db settings user_id input provider now new_id key t ≡ ok opened
      → Vetted t
      → Vetted opened.2
  unfolding open_upload reserve_storage require_provider
  open_upload-Vetted settings user_id input none now new_id key t opened h w =
      absurd (ground (arith, h))
  open_upload-Vetted settings user_id input (some p) now new_id key t opened h w =
      let u = new_upload new_id user_id p.kind key (now + settings.upload_url_ttl_ms) input in
      let stored = create-Holds db is_vetted u t refl w in
      let same : opened.2 ≡ db.create u t = ground (arith, h) in rw same stored

  pub discard-Vetted :
      (deletion : Result (Unit {0})) (f : Upload → Upload) (id : ℕ) (t : db.Table Upload)
      → ((x : Upload) → is_vetted x ≡ true → is_vetted (f x) ≡ true)
      → Vetted t
      → Vetted (discard db deletion f id t).1
  unfolding discard
  discard-Vetted (err e) f id t k h = h
  discard-Vetted (ok _) f id t k h = then_write-Vetted (is_live id) f t _ k (λ t' w. w) h

  finish_scan-Vetted :
      (id : ℕ) (verdict : ScanVerdict) (now : ℕ) (t : db.Table Upload)
      → Vetted t
      → Vetted (finish_scan db id verdict now t).1
  unfolding finish_scan finalize_upload_scan
  finish_scan-Vetted id verdict now t h =
      then_write-Vetted (is_live id) (scanned now verdict) t _
        (λ x w. scanned-is_vetted now verdict x) (λ t' w. w) h

  request_scan-Vetted :
      (event : Result (Unit {0})) (id : ℕ) (t : db.Table Upload)
      → Vetted t
      → Vetted (then_write db (request_scan db event id t) t (λ x. (ok (tt {0}), x))).1
  unfolding request_scan
  request_scan-Vetted event id t h =
      elim (Result-cases (update_one db (is_live id) start_scanning t)) [
        | inr (e, refused) ↦ rw refused h
        | inl (t', done) ↦ rw done (
            answered event t' (
              subst Vetted (sym (update_one-ok db (is_live id) start_scanning t t' done))
                (written (is_live id) start_scanning (λ x w. refl) t h)))
      ]
    where
      answered :
          (event : Result (Unit {0})) (t' : db.Table Upload)
          → Vetted t'
          → Vetted (then_write db (event >> ok t') t (λ x. (ok (tt {0}), x))).1
      answered (err e) t' w = h
      answered (ok _) t' w = w

  module _ (mode : ScanMode) (event : Result (Unit {0})) (u : Upload) where
    pub quarantine-Vetted :
        (stored : StoredObject) (detected : Option String) (now : ℕ) (t : db.Table Upload)
        → Vetted t
        → Vetted (quarantine db mode event u stored detected now t).1
    unfolding quarantine
    quarantine-Vetted stored detected now t h =
        let p = λ (x : Upload). is_live_of u.id u.user_id x && is_completable x.status in
        let t' = (db.update_many p (mark_quarantined stored detected) t).0 in
        let w : Vetted t' = written p (mark_quarantined stored detected) (λ x k. refl) t h in
        ground
          (arith, h, w, finish_scan-Vetted u.id clean now t' w, request_scan-Vetted event u.id t' w)
