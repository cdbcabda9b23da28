-- ===== src/Files/Tables/Recorded.antt =====
-- What `record_meta_and_storage` leaves for the next upload of the same content
-- (src/kernel/src/services/file/supports/meta_storage.rs).
use kuintessence.Prelude.{
  Bool, true, false, ◌≡◌, refl, Option, none, some, List, [], ◌∷◌, ◌++◌, ok, err, ◌==◌, ==_refl,
  ◌&&◌, str_eq, str_eq_iff, find, any, any-append, arith,
}
use kuintessence.Workflow.Common.{Uuid}
use kuintessence.Files.Server.{FileMeta, FileStorage, Server, service_failed}
use kuintessence.Files.Tables.{
  RecordFileMeta, RecordFileStorage, execute, execute_all, finish, save_changed, push,
  get_meta_by_hash, get_server_url, satisfy_flash_upload, user_or_session, insert_storage_of,
  record_meta_and_storage,
}

find-append {ℓ} :
    {A : Type ℓ} (p : A → Bool) (xs ys : List A) → find p xs ≡ none → find p (xs ++ ys) ≡ find p ys
find-append p [] ys h = refl
find-append p (x ∷ xs) ys h = ground (arith, find-append p xs ys)

find-storage :
    (server id : Uuid) (xs : List FileStorage)
    → any (λ x. x.meta_id == id && x.storage_server_id == server) xs ≡ false
    → find (λ x. x.storage_server_id == server && x.meta_id == id) xs ≡ none
find-storage server id [] h = refl
find-storage server id (x ∷ xs) h = ground (arith, find-storage server id xs)

abbrev meta_of : Uuid → RecordFileMeta → FileMeta
meta_of meta_id m = record {
  id = meta_id;
  name = m.name;
  hash = m.hash;
  hash_algorithm = m.hash_algorithm;
  size = m.size;
}

abbrev storage_of : Uuid → RecordFileStorage → Uuid → FileStorage
storage_of meta_id t user = record {
  storage_server_id = t.storage_server_id;
  meta_id = meta_id;
  server_url = t.server_url;
  created_user_id = user;
}

abbrev pub has_meta : Uuid → Server → Bool
has_meta id s = any (λ (x : FileMeta). x.id == id) s.metas

abbrev pub has_storage : Uuid → Uuid → Server → Bool
has_storage server id s =
    any (λ (x : FileStorage). x.meta_id == id && x.storage_server_id == server) s.storages

module _ (session_user : Option Uuid) (meta_id : Uuid) (m : RecordFileMeta) (t : RecordFileStorage)
    (user_id : Option Uuid) (user : Uuid) (s : Server) (clean : s.statements ≡ [])
    (known : user_or_session session_user user_id ≡ some user) where
  recorded :
      has_meta meta_id s ≡ false
      → has_storage t.storage_server_id meta_id s ≡ false
      → record_meta_and_storage session_user meta_id m t user_id s ≡ (
        ok tt,
        record s {
          metas = s.metas ++ meta_of meta_id m ∷ [];
          storages = s.storages ++ storage_of meta_id t user ∷ [];
          statements = [];
          can_drop = true;
        },
      )
  unfolding record_meta_and_storage insert_storage_of push save_changed execute_all execute finish
  recorded new_meta new_storage = ground (
    arith,
    clean,
    known,
    ==_refl meta_id,
    any-append (λ (x : FileMeta). x.id == meta_id) s.metas (meta_of meta_id m ∷ []),
  )

  -- Where the metadata is there already, the call is an error and leaves both tables as they were.
  pub record_meta_and_storage-refused :
      has_meta meta_id s ≡ true
      → record_meta_and_storage session_user meta_id m t user_id s
        ≡ (err service_failed, record s { statements = []; can_drop = true })
  unfolding record_meta_and_storage insert_storage_of push save_changed execute_all execute finish
  record_meta_and_storage-refused old = ground (arith, clean, known)

  -- With the user known, nothing staged, no metadata of the file and no copy of it on the server, and
  -- no file with its hash, the call succeeds; then the url of the copy is found, and an upload of a
  -- file with this hash is answered with the recorded file.
  pub record_meta_and_storage-flash :
      has_meta meta_id s ≡ false
      → has_storage t.storage_server_id meta_id s ≡ false
      → find (λ (x : FileMeta). str_eq x.hash m.hash) s.metas ≡ none
      → (s' : Server) × (record_meta_and_storage session_user meta_id m t user_id s ≡ (ok tt, s'))
        × (satisfy_flash_upload m.hash s' ≡ (ok (some meta_id), s'))
        × (get_server_url t.storage_server_id meta_id s' ≡ (ok t.server_url, s'))
  unfolding satisfy_flash_upload get_meta_by_hash get_server_url
  record_meta_and_storage-flash new_meta new_storage new_hash = (
    _,
    recorded new_meta new_storage,
    rw
        (find-append (λ (x : FileMeta). str_eq x.hash m.hash) s.metas (meta_of meta_id m ∷ [])
          new_hash)
        (rw ((str_eq_iff m.hash m.hash).1 refl) refl),
    rw
        (find-append
          (λ (x : FileStorage). x.storage_server_id == t.storage_server_id && x.meta_id == meta_id)
          s.storages (storage_of meta_id t user ∷ [])
          (find-storage t.storage_server_id meta_id s.storages new_storage))
        (ground (arith, ==_refl meta_id, ==_refl t.storage_server_id)),
  )
