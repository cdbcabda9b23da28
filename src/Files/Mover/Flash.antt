-- ===== src/Files/Mover/Flash.antt =====
-- A flash upload to the snapshots (src/kernel/src/services/file/mover.rs): no content is sent, since
-- a snapshot with the same hash is there.
use kuintessence.Prelude.{
  ℕ, suc, String, ◌≡◌, refl, some, ◌∷◌, ok, err, ==_refl, not, str_eq, find, keep, arith,
}
use kuintessence.Workflow.Common.{Uuid}
use kuintessence.Files.Cache.{Bytes}
use kuintessence.Files.Server.{
  MoveRegistration, MoveDestination, Snapshot, Server, flash_upload, draw,
}
use kuintessence.Files.Snapshots.{
  same_key, satisfy_flash_upload, get_same_hash, create_record, insert_snapshot, read_content,
}
use kuintessence.Files.Snapshots.Kept.{IsKept, flashed-IsKept, read_content-IsKept}
use kuintessence.Files.NetDisk.{Request}
use kuintessence.Files.Mover.{snapshot_of, if_possible_do_flash_upload}

module _ (blake3 : Bytes → String) (q : Request) (info : MoveRegistration) (y : Snapshot)
    (node_id : Uuid) (timestamp : ℕ) (file_id user : Uuid) (s : Server)
    (goes_to : info.destination ≡ MoveDestination.snapshot node_id timestamp file_id)
    (known : info.user_id ≡ some user)
    (same : find (λ x. str_eq x.hash info.hash) s.snapshots ≡ some y) where
  abbrev x : Snapshot
  x = snapshot_of info (q.fresh s.next) y.meta_id user node_id timestamp file_id

  abbrev flashed : Server
  flashed = record s {
    snapshots = x ∷ keep (λ z. not (same_key x z)) s.snapshots;
    next = suc s.next;
  }

  answered :
      if_possible_do_flash_upload q info s
      ≡ (err (flash_upload "Snapshot" info.hash info.meta_id y.meta_id), flashed)
  unfolding if_possible_do_flash_upload satisfy_flash_upload get_same_hash draw create_record
      insert_snapshot
  answered = ground arith

  offered :
      let t = record s { next = suc s.next } in
      satisfy_flash_upload x.hash t ≡ (ok (some x.meta_id), t)
  unfolding satisfy_flash_upload get_same_hash
  offered = ground arith

  -- Where the registration is for a snapshot with a known user, every snapshot on record can be read
  -- with its hash, and one of them has the hash of the file, the flash upload is made and answered
  -- with the error that says so: at once the new snapshot can be read, with a content of that hash,
  -- and the cache is as it was.
  pub flash_upload-read :
      IsKept blake3 s
      → (bytes : Bytes) × (t : Server) × (if_possible_do_flash_upload q info s
          ≡ (err (flash_upload "Snapshot" info.hash info.meta_id y.meta_id), t))
        × (read_content (q.fresh s.next) t ≡ (ok bytes, t))
        × (blake3 bytes ≡ info.hash)
        × (t.disk ≡ s.disk)
  unfolding create_record insert_snapshot
  flash_upload-read h =
      let kept = flashed-IsKept blake3 x (record s { next = suc s.next }) offered h in
      let (bytes, reads, hash) =
        read_content-IsKept blake3 (q.fresh s.next) x flashed kept
          (ground (arith, ==_refl (q.fresh s.next))) in
      (bytes, flashed, answered, reads, hash, refl)
