-- ===== src/Outbox/Upload.antt =====
-- The upload of a snapshot (putIdempotent and the middle of processOne in
-- internal/engine/snapshotworker/worker.go). The object store is a parameter; `checksum` stands for
-- the hex text of crypto/sha256. Errors are told apart, without their texts.
use auditchain_gateway_backe.Prelude.{
  ◌≡◌, ◌∙◌, subst, false, Bool-cases, inl, inr, Option, none, some, Option-cases, if◌then◌else◌,
}
use auditchain_gateway_backe.Prelude.Text.{Text, codes, text_eq, text_eq_iff, is_empty}
use auditchain_gateway_backe.Outbox.{SnapshotOutbox, Upload}

pub record ObjectInfo : Type 0 where
  pub version_id : Text
  pub checksum_sha : Text

-- StatLatest: an object, IsNotFound, or another error
pub data StatReply : Type 0 where
  latest_object : ObjectInfo → StatReply
  object_not_found stat_failed : StatReply

-- snapshotstore.SnapshotStore; `stat_latest` is none for a store that is no LatestObjectStore
pub record SnapshotStore : Type 0 where
  pub stat_latest : Option (Text → StatReply)
  pub get_version : Text → Text → Option (Text × ObjectInfo)
  pub put : Text → Text → Option ObjectInfo

pub data UploadError : Type 0 where
  object_without_version old_object_unreadable key_taken stat_error put_error no_version
        stored_unreadable checksum_changed :
      UploadError

pub data UploadResult : Type 0 where
  uploaded : ObjectInfo → UploadResult
  upload_failed : UploadError → UploadResult

abbrev pub put_result : Option ObjectInfo → UploadResult
put_result none = upload_failed put_error
put_result (some info) = uploaded info

module _ (store : SnapshotStore) (checksum : Text → Text) where
  -- the object that is there already: the same payload, or an error
  unfoldable pub reuse_object : Text → Text → ObjectInfo → UploadResult
  reuse_object key payload found =
      if is_empty found.version_id
      then upload_failed object_without_version
      else elim (store.get_version key found.version_id) [
        | none ↦ upload_failed old_object_unreadable
        | some (stored, info) ↦
            if text_eq (checksum stored) (checksum payload)
            then uploaded info
            else upload_failed key_taken
      ]

  unfoldable pub put_after_stat : Text → Text → StatReply → UploadResult
  unfolding reuse_object
  put_after_stat key payload (latest_object found) = reuse_object key payload found
  put_after_stat key payload object_not_found = put_result (store.put key payload)
  put_after_stat key payload stat_failed = upload_failed stat_error

  unfoldable pub put_idempotent : Text → Text → UploadResult
  unfolding put_after_stat
  put_idempotent key payload = elim store.stat_latest [
    | none ↦ put_result (store.put key payload)
    | some stat ↦ put_after_stat key payload (stat key)
  ]

  -- the checks of processOne behind the upload
  unfoldable pub check_upload : Text → UploadResult → UploadResult
  check_upload key (upload_failed e) = upload_failed e
  check_upload key (uploaded info) =
      if is_empty info.version_id
      then upload_failed no_version
      else elim (store.get_version key info.version_id) [
        | none ↦ upload_failed stored_unreadable
        | some (stored, other) ↦
            if text_eq (checksum stored) info.checksum_sha
            then uploaded info
            else upload_failed checksum_changed
      ]

  unfoldable pub upload_snapshot : Text → Text → UploadResult
  unfolding put_idempotent check_upload
  upload_snapshot key payload = check_upload key (put_idempotent key payload)

  -- The object can be read back, with the checksum that the upload reported.
  record IsReadable (key : Text) (info : ObjectInfo) : Type 0 where
    pub has_version : is_empty info.version_id ≡ false
    pub stored : Text
    pub other : ObjectInfo
    pub read : store.get_version key info.version_id ≡ some (stored, other)
    same_checksum : checksum stored ≡ info.checksum_sha

  -- The payload can be read back, up to its checksum.
  pub record IsStored (key payload : Text) (info : ObjectInfo) : Type 0 where
    pub has_version : is_empty info.version_id ≡ false
    pub stored : Text
    pub other : ObjectInfo
    pub read : store.get_version key info.version_id ≡ some (stored, other)
    pub same_payload : checksum stored ≡ checksum payload

  check_upload-IsReadable :
      (key : Text) (result : UploadResult) (info : ObjectInfo)
      → check_upload key result ≡ uploaded info
      → (result ≡ uploaded info) × IsReadable key info
  unfolding check_upload
  check_upload-IsReadable key (upload_failed e) info h = absurd (cc h)
  check_upload-IsReadable key (uploaded found) info h =
      elim (Bool-cases (is_empty found.version_id)) [
        | inl e ↦ absurd (cc (rw (e, check_upload) at h))
        | inr e ↦ elim (Option-cases (store.get_version key found.version_id)) [
          | inl n ↦ absurd (cc (rw (e, n, check_upload) at h))
          | inr (pair, r) ↦ elim (Bool-cases (text_eq (checksum pair.0) found.checksum_sha)) [
            | inl c ↦
                let kept : uploaded found ≡ uploaded info = rw (e, r, c, check_upload) at h in
                let same : found ≡ info = cc in
                (
                  kept,
                  subst (IsReadable key) same (record {
                    has_version = e;
                    stored = pair.0;
                    other = pair.1;
                    read = r;
                    same_checksum = (text_eq_iff (checksum pair.0) found.checksum_sha).0 c;
                  }),
                )
            | inr c ↦ absurd (cc (rw (e, r, c, check_upload) at h))
          ]
        ]
      ]

-- The outcome that processOne acts on, for the object keys of the rows.
abbrev pub snapshot_upload : SnapshotStore → (Text → Text) → (SnapshotOutbox → Text) → Upload
snapshot_upload store checksum object_key o =
    elim (upload_snapshot store checksum (object_key o) o.payload) [
      | uploaded info ↦ none
      | upload_failed e ↦ some (codes "upload failed")
    ]

module _ (store : SnapshotStore) (checksum : Text → Text) where
  -- What minio.go says of a checksum that the store reports: Put and GetVersion compute it from the
  -- payload.
  pub record ReportsChecksums : Type 0 where
    pub of_put :
        (key payload : Text) (info : ObjectInfo)
        → store.put key payload ≡ some info
        → info.checksum_sha ≡ checksum payload
    pub of_read :
        (key version bytes : Text) (info : ObjectInfo)
        → store.get_version key version ≡ some (bytes, info)
        → info.checksum_sha ≡ checksum bytes

  put_result-checksum :
      (laws : ReportsChecksums) (key payload : Text) (info : ObjectInfo)
      → put_result (store.put key payload) ≡ uploaded info
      → info.checksum_sha ≡ checksum payload
  put_result-checksum laws key payload info h = elim (Option-cases (store.put key payload)) [
    | inl e ↦ absurd (cc (rw e at h))
    | inr (found, e) ↦
        let same : uploaded found ≡ uploaded info = rw e at h in
        laws.of_put key payload info (e ∙ cc)
  ]

  reuse_object-checksum :
      (laws : ReportsChecksums) (key payload : Text) (found info : ObjectInfo)
      → reuse_object store checksum key payload found ≡ uploaded info
      → info.checksum_sha ≡ checksum payload
  unfolding reuse_object
  reuse_object-checksum laws key payload found info h =
      elim (Bool-cases (is_empty found.version_id)) [
        | inl e ↦ absurd (cc (rw (e, reuse_object) at h))
        | inr e ↦ elim (Option-cases (store.get_version key found.version_id)) [
          | inl n ↦ absurd (cc (rw (e, n, reuse_object) at h))
          | inr ((stored, other), r) ↦
              elim (Bool-cases (text_eq (checksum stored) (checksum payload))) [
                | inr c ↦ absurd (cc (rw (e, r, c, reuse_object) at h))
                | inl c ↦
                    let same : uploaded other ≡ uploaded info = rw (e, r, c, reuse_object) at h in
                    let kept : other ≡ info = cc in
                    subst (λ (i : ObjectInfo). i.checksum_sha ≡ checksum payload) kept
                      (laws.of_read key found.version_id stored other r
                        ∙ (text_eq_iff (checksum stored) (checksum payload)).0 c)
              ]
        ]
      ]

  put_after_stat-checksum :
      (laws : ReportsChecksums) (key payload : Text) (reply : StatReply) (info : ObjectInfo)
      → put_after_stat store checksum key payload reply ≡ uploaded info
      → info.checksum_sha ≡ checksum payload
  unfolding put_after_stat
  put_after_stat-checksum laws key payload (latest_object found) info h =
      reuse_object-checksum laws key payload found info h
  put_after_stat-checksum laws key payload object_not_found info h =
      put_result-checksum laws key payload info h
  put_after_stat-checksum laws key payload stat_failed info h = absurd (cc h)

  put_idempotent-checksum :
      (laws : ReportsChecksums) (key payload : Text) (info : ObjectInfo)
      → put_idempotent store checksum key payload ≡ uploaded info
      → info.checksum_sha ≡ checksum payload
  unfolding put_idempotent
  put_idempotent-checksum laws key payload info h = elim (Option-cases store.stat_latest) [
    | inl e ↦ put_result-checksum laws key payload info (rw (e, put_idempotent) at h)
    | inr (stat, e) ↦
        put_after_stat-checksum laws key payload (stat key) info (rw (e, put_idempotent) at h)
  ]

-- If an upload ends with no error, whether it puts a new object or finds one under its key, then the
-- object that it reports has a version, and under that version the store gives back bytes with the
-- checksum of the payload. (The checksums that the store reports are those of the bytes.)
pub uploaded-IsStored :
    (store : SnapshotStore) (checksum : Text → Text) (key payload : Text) (info : ObjectInfo)
    → ReportsChecksums store checksum
    → upload_snapshot store checksum key payload ≡ uploaded info
    → IsStored store checksum key payload info
unfolding upload_snapshot
uploaded-IsStored store checksum key payload info laws h =
    let (put, readable) =
      check_upload-IsReadable store checksum key (put_idempotent store checksum key payload) info
        h in
    record {
      has_version = readable.has_version;
      stored = readable.stored;
      other = readable.other;
      read = readable.read;
      same_payload =
          readable.same_checksum ∙ put_idempotent-checksum store checksum laws key payload info put;
    }
