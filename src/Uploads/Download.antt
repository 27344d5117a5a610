-- ===== src/Uploads/Download.antt =====
-- `createUploadDownload` of src/modules/uploads/uploads.service.ts: who may download, and the
-- monthly bandwidth that each download spends. What the provider opens is a parameter.
use production_backend_found.Prelude.{
  ℕ, ◌+◌, ◌-◌, Bool, not, ◌&&◌, Option, none, some, ◌==◌, ltb, leb, is_none, is_at, any,
}
use production_backend_found.Errors.{
  Result, ok, ◌>>=◌, ◌>>◌, throw_if, or_throw, forbidden_error, not_found_error,
  service_unavailable_error,
}
use production_backend_found.Store.{Prisma, create_unique}
use production_backend_found.Uploads.{Upload, UploadProvider, is_ready, is_live, require_provider}

pub record BandwidthUsage : Type 0 where
  pub user_id : ℕ
  pub scope_key : ℕ
  pub period_start : ℕ
  pub bytes : ℕ

-- A message that carries an upload, as the query through its conversation sees it.
pub record SharedMessage : Type 0 where
  pub upload_id : Option ℕ
  pub conversation_id : ℕ
  pub deleted_at : Option ℕ

pub record Participant : Type 0 where
  pub conversation_id : ℕ
  pub user_id : ℕ
  pub left_at : Option ℕ
  pub deleted_at : Option ℕ

pub record LiveConversation : Type 0 where
  pub id : ℕ
  pub deleted_at : Option ℕ

pub record DownloadState (db : Prisma) : Type 0 where
  pub uploads : db.Table Upload
  pub messages : db.Table SharedMessage
  pub conversations : db.Table LiveConversation
  pub participants : db.Table Participant
  pub usages : db.Table BandwidthUsage

abbrev actual_or : Option ℕ → ℕ → ℕ
actual_or none expected = expected
actual_or (some actual) expected = actual

-- `upload.actualSize ?? upload.expectedSize`.
abbrev pub download_size : Upload → ℕ
download_size u = actual_or u.actual_size u.expected_size

-- The row of a user or a tenant member for a month.
abbrev pub is_usage : ℕ → ℕ → BandwidthUsage → Bool
is_usage scope_key period_start u = u.scope_key == scope_key && u.period_start == period_start

abbrev pub is_downloadable : ℕ → Upload → Bool
is_downloadable upload_id u = is_live upload_id u && is_ready u.status

abbrev pub takes_part : ℕ → ℕ → Participant → Bool
takes_part conversation_id user_id p =
    p.conversation_id == conversation_id
    && p.user_id == user_id
    && is_none p.left_at
    && is_none p.deleted_at

module _ (db : Prisma) where
  -- The `where` of the message that shares an upload with a user.
  abbrev pub shares : DownloadState db → ℕ → ℕ → SharedMessage → Bool
  shares s upload_id user_id m =
      is_at m.upload_id upload_id
      && is_none m.deleted_at
      && any (λ c. c.id == m.conversation_id && is_none c.deleted_at) (db.rows s.conversations)
      && any (takes_part m.conversation_id user_id) (db.rows s.participants)

  -- The upload, if the user may read it.
  unfoldable pub find_downloadable :
      ℕ → ℕ → Option UploadProvider → DownloadState db → Result Upload
  find_downloadable user_id upload_id provider s = do
    p ← require_provider provider
    upload ← or_throw (db.find_first (is_downloadable upload_id) s.uploads) not_found_error
    throw_if
        (not (upload.user_id == user_id)
          && is_none (db.find_first (shares s upload.id user_id) s.messages))
        not_found_error
    throw_if (not (upload.provider == p.kind)) service_unavailable_error
    ok upload

  -- The increment of a row that exists already.
  unfoldable pub increment_usage :
      ℕ → ℕ → ℕ → ℕ → db.Table BandwidthUsage → Result (db.Table BandwidthUsage)
  increment_usage maximum scope_key period_start size t = do
    let updated =
        db.update_many (λ u. is_usage scope_key period_start u && leb u.bytes (maximum - size))
          (λ u. record u { bytes = u.bytes + size }) t
    throw_if (not (updated.1 == 1)) forbidden_error
    ok updated.0

  -- `chargeQuota`: the insert, or on P2002 the conditional increment.
  unfoldable pub charge_quota :
      ℕ → ℕ → ℕ → ℕ → ℕ → db.Table BandwidthUsage → Result (db.Table BandwidthUsage)
  charge_quota maximum user_id scope_key period_start size t =
      elim (create_unique db (is_usage scope_key period_start)
        (record {
          user_id = user_id;
          scope_key = scope_key;
          period_start = period_start;
          bytes = size;
        })
        t) [ some t' ↦ ok t' | none ↦ increment_usage maximum scope_key period_start size t ]

  -- `opened` is what the provider answers: a redirect or an open body.
  unfoldable pub create_upload_download :
      {Opened : Type 0}
      → ℕ
      → ℕ
      → ℕ
      → ℕ
      → ℕ
      → Option UploadProvider
      → (Upload → Result Opened)
      → DownloadState db
      → Result (Upload × Opened × DownloadState db)
  create_upload_download maximum user_id upload_id scope_key period_start provider open_object s =
      do
        upload ← find_downloadable user_id upload_id provider s
        throw_if (ltb maximum (download_size upload)) forbidden_error
        opened ← open_object upload
        usages ← charge_quota maximum user_id scope_key period_start (download_size upload) s.usages
        ok (upload, opened, record s { usages = usages })
