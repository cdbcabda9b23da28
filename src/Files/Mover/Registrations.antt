-- ===== src/Files/Mover/Registrations.antt =====
-- What becomes of the registrations of a file when it has arrived
-- (src/kernel/src/services/file/mover.rs).
use kuintessence.Prelude.{
  Bool, true, false, ◌≡◌, refl, Option, none, some, List, [], ◌∷◌, ◌++◌, map, ok, err, ◌==◌,
  ==_refl, not, find, any, keep, All, ◌⊎◌, arith, Option-cases, Bool-cases, ==_iff, inl, inr, ℕ,
  suc, sym, Result, subst,
}
use mathlib.Core.List.{append_assoc, append-nil}
use kuintessence.Workflow.Common.{Uuid}
use kuintessence.Workflow.Exec.{for_each}
use kuintessence.Files.Cache.{not_found, Bytes, Multipart, lookup, Disk, operate}
use kuintessence.Files.Multipart
use kuintessence.Files.Server.{
  MoveRegistration, MoveDestination, storage_server, Registered, FileUploadCommand, RecordNetDisk,
  MoveError, Snapshot, no_such_move, no_user, file, Server, draw,
}
use kuintessence.Files.Snapshots
use kuintessence.Files.Snapshots.Kept.{lookup-erase}
use kuintessence.Files.NetDisk.{Request}
use kuintessence.Files.Mover.{
  is_of, is_move, get_all_of_meta, get_user_id, remove_all_with_meta_id, send_upload, snapshot_of,
  carry_out, do_registered_moves,
}

abbrev pub is_for_storage : Registered → Bool
is_for_storage x = elim x.info.destination [
  | storage_server r ↦ true
  | MoveDestination.snapshot n t f ↦ false
]

abbrev pub command_of : Registered → FileUploadCommand
command_of x = record { move_id = x.info.id; user_id = x.owner }

module _ (q : Request) (accepts : FileUploadCommand → Bool) where
  send_one :
      (x : Registered) (s : Server)
      → is_for_storage x ≡ true
      → find (is_move x.info.id) s.moves ≡ some x
      → accepts (command_of x) ≡ true
      → carry_out q accepts x.info s
        ≡ (ok tt, record s { uploads = s.uploads ++ command_of x ∷ [] })
  unfolding carry_out get_user_id send_upload
  send_one x s storage own takes = ground arith

  send_each :
      (xs : List Registered) (s : Server)
      → All (λ x. is_for_storage x ≡ true) xs
      → All (λ x. find (is_move x.info.id) s.moves ≡ some x) xs
      → All (λ x. accepts (command_of x) ≡ true) xs
      → for_each (map (λ x. x.info) xs) (carry_out q accepts) s
        ≡ (ok tt, record s { uploads = s.uploads ++ map command_of xs })
  send_each [] s st ow ac = rw append-nil refl
  send_each (x ∷ xs) s st ow ac = rw (send_one x s st.0 ow.0 ac.0) (
      rw (send_each xs (record s { uploads = s.uploads ++ command_of x ∷ [] }) st.1 ow.1 ac.1)
        (rw append_assoc refl))

  -- Where all registrations of the file are for a storage server, each is the first with its move id
  -- and the queue takes the commands, carrying them out sends one upload command for each, in order,
  -- with the user of the registration, and changes nothing else.
  pub do_registered_moves-storage :
      (meta_id : Uuid) (s : Server)
      → All (λ x. is_for_storage x ≡ true) (keep (is_of meta_id) s.moves)
      → All (λ x. find (is_move x.info.id) s.moves ≡ some x) (keep (is_of meta_id) s.moves)
      → All (λ x. accepts (command_of x) ≡ true) (keep (is_of meta_id) s.moves)
      → do_registered_moves q accepts meta_id s
        ≡ (ok tt, record s { uploads = s.uploads ++ map command_of (keep (is_of meta_id) s.moves) })
  unfolding do_registered_moves get_all_of_meta
  do_registered_moves-storage meta_id s storage own takes =
      send_each (keep (is_of meta_id) s.moves) s storage own takes

Destination-cases :
    (d : MoveDestination)
    → ((n : Uuid) × (t : ℕ) × (f : Uuid) × (d ≡ MoveDestination.snapshot n t f))
      ⊎ ((r : Option RecordNetDisk) × (d ≡ storage_server r))
Destination-cases (MoveDestination.snapshot n t f) = inl (n, t, f, refl)
Destination-cases (storage_server r) = inr (r, refl)

remove-normal : (id : Uuid) (d : Disk) → (Multipart.remove id d).1.normal ≡ d.normal
unfolding Multipart.remove Multipart.get_by_id operate
remove-normal id d = ground arith

-- What `keep` leaves passes the test, and was there.
keep-All : (p : Registered → Bool) (xs : List Registered) → All (λ x. p x ≡ true) (keep p xs)
keep-All p [] = tt
keep-All p (x ∷ xs) = elim (Bool-cases (p x)) [
  | inl kept ↦ rw kept (kept, keep-All p xs)
  | inr dropped ↦ rw dropped (keep-All p xs)
]

any-keep :
    (p : Registered → Bool) (xs ys : List Registered) (y : Registered)
    → keep p xs ≡ y ∷ ys
    → any p xs ≡ true
any-keep p [] ys y h = ground arith
any-keep p (x ∷ xs) ys y h = ground (arith, any-keep p xs ys y)

create-uploads : (x : Snapshot) (s : Server) → (Snapshots.create x s).1.uploads ≡ s.uploads
unfolding Snapshots.create Snapshots.insert_snapshot operate
create-uploads x s = ground arith

-- The ways in which a registration fails.
module _ (q : Request) (accepts : FileUploadCommand → Bool) (b : MoveRegistration)
    (s : Server) where
  without_move :
      (r : Option RecordNetDisk)
      → b.destination ≡ storage_server r
      → find (is_move b.id) s.moves ≡ none
      → carry_out q accepts b s ≡ (err no_such_move, s)
  unfolding carry_out get_user_id
  without_move r storage no_other = ground arith

  without_user :
      (n : Uuid) (t : ℕ) (f : Uuid)
      → b.destination ≡ MoveDestination.snapshot n t f
      → b.user_id ≡ none
      → carry_out q accepts b s ≡ (err no_user, record s { next = suc s.next })
  unfolding carry_out draw
  without_user n t f snapshot nobody = ground arith

  without_file :
      (n : Uuid) (t : ℕ) (f user : Uuid)
      → b.destination ≡ MoveDestination.snapshot n t f
      → b.user_id ≡ some user
      → lookup b.meta_id s.disk.normal ≡ none
      → carry_out q accepts b s ≡ (err (file not_found), record s { next = suc s.next })
  unfolding carry_out draw Snapshots.create operate
  without_file n t f user snapshot known missing = ground arith

-- A snapshot is carried out.
module _ (q : Request) (accepts : FileUploadCommand → Bool) (info : MoveRegistration)
    (node_id : Uuid) (timestamp : ℕ) (file_id user : Uuid) (s : Server)
    (goes_to : info.destination ≡ MoveDestination.snapshot node_id timestamp file_id) where
  abbrev taken : Server
  taken =
      let x = snapshot_of info (q.fresh s.next) info.meta_id user node_id timestamp file_id in
      let t = (Snapshots.create x s).1 in
      record t {
        next = suc s.next;
        moves = keep (λ x. not (is_of info.meta_id x)) s.moves;
        disk = (Multipart.remove info.meta_id t.disk).1;
      }

  take_snapshot :
      (content : Bytes) (m : Multipart)
      → info.user_id ≡ some user
      → lookup info.meta_id s.disk.normal ≡ some content
      → find (λ m. m.meta_id == info.meta_id) s.disk.multiparts ≡ some m
      → any (is_of info.meta_id) s.moves ≡ true
      → carry_out q accepts info s ≡ (ok tt, taken)
  unfolding carry_out draw Snapshots.create operate Snapshots.insert_snapshot Multipart.remove
      Multipart.get_by_id remove_all_with_meta_id
  take_snapshot content m known cached uploaded there = ground arith

  -- The file is no longer where a snapshot takes it from.
  gone :
      (content : Bytes)
      → lookup info.meta_id s.disk.normal ≡ some content
      → lookup info.meta_id taken.disk.normal ≡ none
  unfolding Snapshots.create operate Snapshots.insert_snapshot
  gone content cached =
      let t =
        (Snapshots.create
          (snapshot_of info (q.fresh s.next) info.meta_id user node_id timestamp file_id) s).1 in
      rw (remove-normal info.meta_id t.disk)
        (ground (arith, lookup-erase info.meta_id info.meta_id s.disk.normal, ==_refl info.meta_id))

  -- What an error leaves: the registrations and the snapshots as the snapshot left them, and the
  -- commands as they were.
  abbrev pub FailsAfter : Result MoveError (Unit {0}) × Server → Type 0
  FailsAfter (r, t) =
      ((e : MoveError) × (r ≡ err e))
      × (t.moves ≡ taken.moves)
      × (t.uploads ≡ s.uploads)
      × (t.snapshots ≡ taken.snapshots)

  next_fails :
      (b : MoveRegistration) (content : Bytes)
      → b.meta_id ≡ info.meta_id
      → lookup info.meta_id s.disk.normal ≡ some content
      → find (is_move b.id) taken.moves ≡ none
      → FailsAfter (carry_out q accepts b taken)
  next_fails b content same cached no_other =
      let x = snapshot_of info (q.fresh s.next) info.meta_id user node_id timestamp file_id in
      let sent = create-uploads x s in
      elim (Destination-cases b.destination) [
        | inr (r, storage) ↦
            rw (without_move q accepts b taken r storage no_other) ((_, refl), refl, sent, refl)
        | inl (n, t, f, snapshot) ↦ elim (Option-cases b.user_id) [
          | inl nobody ↦
              rw (without_user q accepts b taken n t f snapshot nobody)
                ((_, refl), refl, sent, refl)
          | inr (u, known) ↦
              rw
                (without_file q accepts b taken n t f u snapshot known
                  (subst (λ m. lookup m taken.disk.normal ≡ none) (sym same) (gone content cached)))
                ((_, refl), refl, sent, refl)
        ]
      ]

  stops :
      (b : MoveRegistration) (rest : List MoveRegistration) (t : Server)
      → FailsAfter (carry_out q accepts b t)
      → FailsAfter (for_each (b ∷ rest) (carry_out q accepts) t)
  stops b rest t fails =
      let (e, failed) = fails.0 in rw failed ((e, refl), fails.1, fails.2, fails.3)

  -- Where a file that has arrived has two registrations or more, the first is for a snapshot with a
  -- known user, and no registration of another file has the second one's id, the call takes the
  -- snapshot and then fails: the registrations of the file are gone, its snapshot is the only one
  -- that was added, and no upload command was sent.
  pub do_registered_moves-lost :
      (a b : Registered) (rest : List Registered) (content : Bytes) (m : Multipart)
      → keep (is_of info.meta_id) s.moves ≡ a ∷ b ∷ rest
      → a.info ≡ info
      → info.user_id ≡ some user
      → lookup info.meta_id s.disk.normal ≡ some content
      → find (λ m. m.meta_id == info.meta_id) s.disk.multiparts ≡ some m
      → find (is_move b.info.id) taken.moves ≡ none
      → FailsAfter (do_registered_moves q accepts info.meta_id s)
  unfolding do_registered_moves get_all_of_meta
  do_registered_moves-lost a b rest content m registered first known cached uploaded no_other =
      let there = any-keep (is_of info.meta_id) s.moves (b ∷ rest) a registered in
      let all =
        subst (All (λ x. is_of info.meta_id x ≡ true)) registered
          (keep-All (is_of info.meta_id) s.moves) in
      let same : b.info.meta_id ≡ info.meta_id = (==_iff _ _).0 all.1.0 in
      rw registered (
        rw first (
          rw (take_snapshot content m known cached uploaded there) (
            stops b.info (map (λ x. x.info) rest) taken
              (next_fails b.info content same cached no_other))))
