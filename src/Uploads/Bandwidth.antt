-- ===== src/Uploads/Bandwidth.antt =====
-- The monthly bandwidth: the row of a user and a month against the downloads that were granted.
use production_backend_found.Prelude.{
  ℕ, ◌+◌, ◌-◌, ◌≤◌, ◌≡◌, refl, sym, ◌∙◌, true, ◌&&◌, Option, some, List, [], ◌∷◌, arith, total,
  total_none, total_sole-le, total-update_where_one, tally, tally_none, tally-update_where, any,
  Bool, Bool-cases, ◌⊎◌, inl, inr, leb, Option-cases, none, is_none, is_at, ◌==◌,
}
use production_backend_found.Errors.{Result, ok, err, Result-cases}
use mathlib.Core.List.{Memᴰ}
use production_backend_found.Store.{Prisma}
use production_backend_found.Uploads.{Upload, UploadStatus, ready, is_ready, UploadProvider}
use production_backend_found.Uploads.Download.{
  BandwidthUsage, SharedMessage, Participant, LiveConversation, takes_part, DownloadState,
  download_size, is_usage, is_downloadable, shares, find_downloadable, increment_usage,
  charge_quota, create_upload_download,
}

none_of : (x : Option ℕ) → is_none x ≡ true → x ≡ none
none_of none h = refl
none_of (some n) h = absurd (ground (arith, h))

some_of : (x : Option ℕ) (n : ℕ) → is_at x n ≡ true → x ≡ some n
some_of none n h = absurd (ground (arith, h))
some_of (some m) n h = ground (arith, h)

ready_of : (x : UploadStatus) → is_ready x ≡ true → x ≡ ready
ready_of x h = ground (arith, h)

member_of_any :
    {R : Type 0} (p : R → Bool) (rs : List R) → any p rs ≡ true → (r : R) × Memᴰ r rs × (p r ≡ true)
member_of_any p [] h = absurd (ground (arith, h))
member_of_any p (r ∷ rs) h = elim (Bool-cases (p r)) [
  | inl hit ↦ (r, Memᴰ.head refl, hit)
  | inr miss ↦
      let (r', member, hit) = member_of_any p rs (ground (arith, miss, h)) in
      (r', Memᴰ.tail member, hit)
]

module _ (db : Prisma) where
  -- A message that carries the upload, its conversation, and the user's place in that.
  pub record SharedWith (s : DownloadState db) (upload_id user_id : ℕ) : Type 0 where
    pub message : SharedMessage
    pub sent : Memᴰ message (db.rows s.messages)
    pub carries : message.upload_id ≡ some upload_id
    pub visible : message.deleted_at ≡ none
    pub conversation : LiveConversation
    pub held : Memᴰ conversation (db.rows s.conversations)
    pub of_message : conversation.id ≡ message.conversation_id
    pub live : conversation.deleted_at ≡ none
    pub participant : Participant
    pub listed : Memᴰ participant (db.rows s.participants)
    pub of_conversation : participant.conversation_id ≡ message.conversation_id
    pub is_user : participant.user_id ≡ user_id
    pub stayed : participant.left_at ≡ none
    pub kept : participant.deleted_at ≡ none

  shares-SharedWith :
      (s : DownloadState db) (upload_id user_id : ℕ) (m : SharedMessage)
      → Memᴰ m (db.rows s.messages)
      → shares db s upload_id user_id m ≡ true
      → SharedWith s upload_id user_id
  shares-SharedWith s upload_id user_id m sent h =
      let (c, held, at) =
        member_of_any (λ c. c.id == m.conversation_id && is_none c.deleted_at)
          (db.rows s.conversations) (ground (arith, h)) in
      let (p, listed, part) =
        member_of_any (takes_part m.conversation_id user_id) (db.rows s.participants)
          (ground (arith, h)) in
      record {
        message = m;
        sent = sent;
        carries = some_of m.upload_id upload_id (ground (arith, h));
        visible = none_of m.deleted_at (ground (arith, h));
        conversation = c;
        held = held;
        of_message = ground (arith, at);
        live = none_of c.deleted_at (ground (arith, at));
        participant = p;
        listed = listed;
        of_conversation = ground (arith, part);
        is_user = ground (arith, part);
        stayed = none_of p.left_at (ground (arith, part));
        kept = none_of p.deleted_at (ground (arith, part));
      }

module _ (db : Prisma) (scope_key period_start : ℕ) where
  -- The bytes recorded for the scope and the month.
  abbrev pub recorded : db.Table BandwidthUsage → ℕ
  recorded t = total (is_usage scope_key period_start) (λ u. u.bytes) (db.rows t)

  abbrev pub usage_rows : db.Table BandwidthUsage → ℕ
  usage_rows t = tally (is_usage scope_key period_start) (db.rows t)

  abbrev Charged : ℕ → ℕ → db.Table BandwidthUsage → db.Table BandwidthUsage → Type 0
  Charged maximum size t t' =
      (recorded t' ≡ recorded t + size) × (recorded t' ≤ maximum) × (usage_rows t' ≤ 1)

  module _ (maximum size : ℕ) where
    increment_usage-ok :
        (t t' : db.Table BandwidthUsage)
        → increment_usage db maximum scope_key period_start size t ≡ ok t'
        → size ≤ maximum
        → usage_rows t ≤ 1
        → Charged maximum size t t'
    unfolding increment_usage
    increment_usage-ok t t' h fits one =
        let p = λ (u : BandwidthUsage).
          is_usage scope_key period_start u && leb u.bytes (maximum - size) in
        let f = λ (u : BandwidthUsage). record u { bytes = u.bytes + size } in
        let q = is_usage scope_key period_start in
        let same : t' ≡ (db.update_many p f t).0 = ground (arith, h) in
        let counted : (db.update_many p f t).1 ≡ 1 = ground (arith, h) in
        let hit : tally p (db.rows t) ≡ 1 = sym (db.count_update_many p f t) ∙ counted in
        let small =
          total_sole-le q (λ u. u.bytes) p (maximum - size) (λ x k. ground (arith, k))
            (λ x k. ground (arith, k)) (db.rows t) hit one in
        let grown =
          total-update_where_one q (λ u. u.bytes) p f size (λ x. refl) (λ x. refl)
            (λ x k. ground (arith, k)) (db.rows t) hit in
        let kept = tally-update_where q p f (db.rows t) (λ x k. refl) in
        rw (same, db.rows_update_many p f t)
          (grown, omega (arith, grown, small, fits), omega (arith, kept, one))

    charge_quota-ok :
        (user_id : ℕ) (t t' : db.Table BandwidthUsage)
        → charge_quota db maximum user_id scope_key period_start size t ≡ ok t'
        → size ≤ maximum
        → usage_rows t ≤ 1
        → Charged maximum size t t'
    unfolding charge_quota
    charge_quota-ok user_id t t' h fits one =
        let row : BandwidthUsage = record {
          user_id = user_id;
          scope_key = scope_key;
          period_start = period_start;
          bytes = size;
        } in
        elim (Bool-cases (any (is_usage scope_key period_start) (db.rows t))) [
          | inl taken ↦ increment_usage-ok t t' (ground (arith, h, taken)) fits one
          | inr free ↦
              let same : t' ≡ db.create row t = ground (arith, h, free) in
              let no_row = tally_none (is_usage scope_key period_start) (db.rows t) free in
              let nothing =
                total_none (is_usage scope_key period_start) (λ u. u.bytes) (db.rows t) no_row in
              rw (same, db.rows_create row t) (ground (arith, no_row, nothing, fits))
        ]

module _ (db : Prisma) (Opened : Type 0) (maximum user_id scope_key period_start : ℕ) where
  -- What `create_upload_download` is asked for: the upload, the provider and what it opens.
  abbrev pub Request : Type 0
  Request = ℕ × Option UploadProvider × (Upload → Result Opened)

  -- The requests of a user in one month, with the bytes of those that were answered.
  unfoldable pub download_all : List Request → DownloadState db → DownloadState db × ℕ
  download_all [] s = (s, 0)
  download_all ((upload_id, provider, open_object) ∷ rs) s =
      elim (create_upload_download db maximum user_id upload_id scope_key period_start provider
        open_object s) [
          | err e ↦ download_all rs s
          | ok (u, opened, s') ↦ let rest = download_all rs s' in (rest.0, download_size u + rest.1)
        ]

  create_upload_download-charges :
      (upload_id : ℕ) (provider : Option UploadProvider) (open_object : Upload → Result Opened)
      (s s' : DownloadState db) (u : Upload) (opened : Opened)
      → create_upload_download db maximum user_id upload_id scope_key period_start provider
          open_object s
        ≡ ok (u, opened, s')
      → (download_size u ≤ maximum)
        × (charge_quota db maximum user_id scope_key period_start (download_size u) s.usages
            ≡ ok s'.usages)
  unfolding create_upload_download
  create_upload_download-charges upload_id provider open_object s s' u opened h = ground (arith, h)

  -- If the month has one row at most, and its bytes are within the maximum, then after any list of
  -- requests the row's bytes have grown by what the answered downloads add up to, no more and no
  -- less, and are still within the maximum.
  pub download_all-recorded :
      (rs : List Request) (s : DownloadState db)
      → usage_rows db scope_key period_start s.usages ≤ 1
      → recorded db scope_key period_start s.usages ≤ maximum
      → (recorded db scope_key period_start (download_all rs s).0.usages
          ≡ recorded db scope_key period_start s.usages + (download_all rs s).1)
        × (recorded db scope_key period_start (download_all rs s).0.usages ≤ maximum)
  unfolding download_all
  download_all-recorded [] s one h = (omega arith, h)
  download_all-recorded ((upload_id, provider, open_object) ∷ rs) s one h =
      elim (Result-cases (
        create_upload_download db maximum user_id upload_id scope_key period_start provider
          open_object s)) [
            | inr (e, refused) ↦ rw (refused, download_all) (download_all-recorded rs s one h)
            | inl ((u, opened, s'), done) ↦
                let (fits, charged) =
                  create_upload_download-charges upload_id provider open_object s s' u opened
                    done in
                let (grown, bounded, sole) =
                  charge_quota-ok db scope_key period_start maximum (download_size u) user_id
                    s.usages s'.usages charged fits one in
                let rest = download_all-recorded rs s' sole bounded in
                rw (done, download_all) (omega (arith, rest, grown), rest.1)
          ]

  -- If a download is granted, then it is of an upload of the given identifier that is READY and was
  -- not deleted, and that the user owns or finds in a message that was not deleted, of a
  -- conversation that was not deleted and of which the user is a participant who neither left nor
  -- was deleted.
  pub create_upload_download-allowed :
      (upload_id : ℕ) (provider : Option UploadProvider) (open_object : Upload → Result Opened)
      (s s' : DownloadState db) (u : Upload) (opened : Opened)
      → create_upload_download db maximum user_id upload_id scope_key period_start provider
          open_object s
        ≡ ok (u, opened, s')
      → Memᴰ u (db.rows s.uploads)
        × ((u.id ≡ upload_id) × (u.status ≡ ready) × (u.deleted_at ≡ none))
        × ((u.user_id ≡ user_id) ⊎ SharedWith db s u.id user_id)
  unfolding create_upload_download find_downloadable
  create_upload_download-allowed upload_id provider open_object s s' u opened h =
      let found : db.find_first (is_downloadable upload_id) s.uploads ≡ some u =
        ground (arith, h) in
      let (member, selected) =
        db.find_first_selects (is_downloadable upload_id) s.uploads u found in
      (
        member,
        (
          ground (arith, selected),
          ready_of u.status (ground (arith, selected)),
          none_of u.deleted_at (ground (arith, selected)),
        ),
        elim (Option-cases (db.find_first (shares db s u.id user_id) s.messages)) [
          | inl missing ↦ inl (ground (arith, h, found, missing))
          | inr (m, shared) ↦
              let (member', selected') =
                db.find_first_selects (shares db s u.id user_id) s.messages m shared in
              inr (shares-SharedWith db s u.id user_id m member' selected')
        ],
      )
