-- ===== src/Uploads/Quota.antt =====
-- The storage quota: what a user's uploads add up to.
use production_backend_found.Prelude.{
  ℕ, ◌+◌, ◌≤◌, ◌≡◌, refl, Bool, true, Option, none, some, arith, total, total-update_where-le, ◌==◌,
  Bool-cases, inl, inr,
}
use production_backend_found.Errors.{Result, ok, err, Result-cases}
use production_backend_found.Store.{Prisma, update_one}
use production_backend_found.Store.Laws.{update_one-ok}
use production_backend_found.Uploads.{
  Upload, UploadProvider, UploadSettings, UploadInput, failed, is_live, counts, new_upload,
  set_status, then_write, reserve_storage, await_directive, open_upload, initiate_upload,
  require_provider,
}

module _ (db : Prisma) (owner : ℕ) where
  -- The bytes that count against the quota of the owner.
  abbrev pub usage : db.Table Upload → ℕ
  usage t = total (counts owner) (λ u. u.expected_size) (db.rows t)

  module _ (quota : ℕ) where
    written-le :
        (p : Upload → Bool) (f : Upload → Upload)
        → ((x : Upload) → (f x).expected_size ≡ x.expected_size)
        → ((x : Upload) → counts owner (f x) ≡ true → counts owner x ≡ true)
        → (t t' : db.Table Upload) → update_one db p f t ≡ ok t'
        → usage t ≤ quota
        → usage t' ≤ quota
    written-le p f same out t t' done h =
        let less =
          total-update_where-le (counts owner) (λ (u : Upload). u.expected_size) p f same out
            (db.rows t) in
        rw (update_one-ok db p f t t' done)
          (rw (db.rows_update_many p f t) (omega (arith, less, h)))

    mark_failed-le :
        {A : Type 0} (e : Result A) (id : ℕ) (t : db.Table Upload)
        → usage t ≤ quota
        → usage
            (then_write db (update_one db (is_live id) (set_status failed) t) t (λ t'. (e, t'))).1
          ≤ quota
    mark_failed-le e id t h =
        elim (Result-cases (update_one db (is_live id) (set_status failed) t)) [
          | inr (thrown, refused) ↦ rw refused h
          | inl (t', done) ↦ rw done (
              written-le (is_live id) (set_status failed) (λ x. refl)
                (λ x k. absurd (ground (arith, k))) t t' done h)
        ]

    await_directive-le :
        (directive : Result ℕ) (u : Upload) (meanwhile : db.Table Upload → db.Table Upload)
        (t : db.Table Upload)
        → usage (meanwhile t) ≤ quota
        → usage (await_directive db directive u meanwhile t).1 ≤ quota
    unfolding await_directive
    await_directive-le (err e) u meanwhile t h = mark_failed-le (err e) u.id (meanwhile t) h
    await_directive-le (ok at) u meanwhile t h =
        let extend = λ (x : Upload). record x { upload_expires_at = at } in
        elim (Bool-cases (at == u.upload_expires_at)) [
          | inl same ↦ rw same h
          | inr other ↦ elim (Result-cases (update_one db (is_live u.id) extend (meanwhile t))) [
            | inl (t', done) ↦
                rw (other, done)
                  (written-le (is_live u.id) extend (λ x. refl) (λ x k. k) (meanwhile t) t' done h)
            | inr (e, refused) ↦ rw (other, refused) (mark_failed-le (err e) u.id (meanwhile t) h)
          ]
        ]

module _ (db : Prisma) (settings : UploadSettings) where
  open_upload-le :
      (owner user_id : ℕ) (input : UploadInput) (provider : Option UploadProvider)
      (now new_id key : ℕ) (t : db.Table Upload) (opened : Result ℕ × Upload × db.Table Upload)
      → open_upload db settings user_id input provider now new_id key t ≡ ok opened
      → usage db owner t ≤ settings.upload_user_storage_quota_bytes
      → usage db owner opened.2 ≤ settings.upload_user_storage_quota_bytes
  unfolding open_upload reserve_storage require_provider
  open_upload-le owner user_id input none now new_id key t opened h w = absurd (ground (arith, h))
  open_upload-le owner user_id input (some p) now new_id key t opened h w =
      let u = new_upload new_id user_id p.kind key (now + settings.upload_url_ttl_ms) input in
      let same : opened.2 ≡ db.create u t = ground (arith, h) in
      let summed = db.sum_rows (counts user_id) (λ u. u.expected_size) t in
      let small : total (counts user_id) (λ u. u.expected_size) (db.rows t) + input.size
          ≤ settings.upload_user_storage_quota_bytes =
        rw (← summed) (ground (arith, h)) in
      rw (same, db.rows_create u t)
        (elim (Bool-cases (user_id == owner)) [
          | inr other ↦ ground (arith, other, w)
          | inl own ↦
              let e : user_id ≡ owner = ground (arith, own) in
              let small' = rw e at small in ground (arith, own, small')
        ])

  -- If what every user's uploads add up to is within the quota for one owner, then it is so after
  -- `initiateUpload` for any user, whatever its input, its answer and the provider's, and so long
  -- as the writes of others while the provider answers keep it so.
  pub initiate_upload-quota :
      (owner user_id : ℕ) (input : UploadInput) (provider : Option UploadProvider)
      (now new_id key : ℕ) (meanwhile : db.Table Upload → db.Table Upload) (t : db.Table Upload)
      → ((t' : db.Table Upload)
          → usage db owner t' ≤ settings.upload_user_storage_quota_bytes
          → usage db owner (meanwhile t') ≤ settings.upload_user_storage_quota_bytes)
      → usage db owner t ≤ settings.upload_user_storage_quota_bytes
      → usage db owner
          (initiate_upload db settings user_id input provider now new_id key meanwhile t).1
        ≤ settings.upload_user_storage_quota_bytes
  unfolding initiate_upload
  initiate_upload-quota owner user_id input provider now new_id key meanwhile t k h =
      elim (Result-cases (open_upload db settings user_id input provider now new_id key t)) [
        | inr (e, refused) ↦ rw (refused, initiate_upload) h
        | inl (opened, done) ↦
            rw (done, initiate_upload)
              (await_directive-le db owner settings.upload_user_storage_quota_bytes opened.0
                opened.1 meanwhile opened.2
                (k opened.2
                  (open_upload-le owner user_id input provider now new_id key t opened done h)))
      ]
