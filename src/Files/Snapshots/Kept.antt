-- ===== src/Files/Snapshots/Kept.antt =====
-- What the records of snapshots promise of the files in the cache, along every sequence of calls
-- (src/kernel/src/services/file/supports/snapshot.rs).
use kuintessence.Prelude.{
  String, Bool, true, false, ◌≡◌, refl, sym, ap, ◌∙◌, none, some, List, [], ◌∷◌, ok, err, inl, inr,
  subst, ◌==◌, not, str_eq, str_eq_iff, find, keep, find-test, All, arith, if◌then◌else◌,
  Bool-cases, Option-cases,
}
use kuintessence.Workflow.Common.{Uuid, HashMap}
use kuintessence.Files.Cache.{not_found, Bytes, lookup, erase, write, exists_in, operate, read}
use kuintessence.Files.Server.{Snapshot, Server, file, no_such_snapshot}
use kuintessence.Files.Snapshots.{
  same_key, insert_snapshot, get_snapshot, get_same_hash, delete_first, delete_snapshot, create,
  create_record, remove, read_content, satisfy_flash_upload,
}

pub lookup-erase :
    (y m : Uuid) (fs : HashMap Uuid Bytes)
    → lookup y (erase m fs) ≡ (if m == y then none else lookup y fs)
lookup-erase y m [] = ground arith
lookup-erase y m (f ∷ fs) = ground (arith, lookup-erase y m fs)

lookup-write :
    (y m : Uuid) (c : Bytes) (fs : HashMap Uuid Bytes)
    → lookup y (write m c fs) ≡ (if m == y then some c else lookup y fs)
lookup-write y m c fs = ground (arith, lookup-erase y m fs)

exists_in-lookup :
    (y : Uuid) (fs : HashMap Uuid Bytes) → exists_in y fs ≡ false → lookup y fs ≡ none
exists_in-lookup y [] h = refl
exists_in-lookup y (f ∷ fs) h = ground (arith, exists_in-lookup y fs)

module _ (blake3 : Bytes → String) where
  -- The cache has the file of the record, with the hash of the record.
  abbrev pub HasFile : HashMap Uuid Bytes → Snapshot → Type 0
  HasFile fs x = (bytes : Bytes) × (lookup x.meta_id fs ≡ some bytes) × (blake3 bytes ≡ x.hash)

  abbrev pub IsKept : Server → Type 0
  IsKept s = All (HasFile s.disk.snapshot) s.snapshots

  -- The calls that write: `create` of a file that is not in the snapshots yet and has the hash that
  -- the record says; `create_record` after `satisfy_flash_upload`; `remove`.
  pub data Step (s : Server) : Server → Type 0 where
    created :
        (x : Snapshot)
        → exists_in x.meta_id s.disk.snapshot ≡ false
        → ((bytes : Bytes) → lookup x.meta_id s.disk.normal ≡ some bytes → blake3 bytes ≡ x.hash)
        → Step s (create x s).1
    flashed :
        (x : Snapshot)
        → satisfy_flash_upload x.hash s ≡ (ok (some x.meta_id), s)
        → Step s (create_record x s).1
    removed : (id : Uuid) → Step s (remove id s).1

  pub data Reach (s : Server) : Server → Type 0 where
    here : Reach s s
    next : {t u : Server} → Reach s t → Step t u → Reach s u

  keep-HasFile :
      (p : Snapshot → Bool) (fs : HashMap Uuid Bytes) (xs : List Snapshot)
      → All (HasFile fs) xs
      → All (HasFile fs) (keep p xs)
  keep-HasFile p fs [] h = tt
  keep-HasFile p fs (x ∷ xs) h = elim (Bool-cases (p x)) [
    | inl kept ↦ rw kept (h.0, keep-HasFile p fs xs h.1)
    | inr dropped ↦ rw dropped (keep-HasFile p fs xs h.1)
  ]

  find-HasFile :
      (p : Snapshot → Bool) (fs : HashMap Uuid Bytes) (xs : List Snapshot) (x : Snapshot)
      → All (HasFile fs) xs
      → find p xs ≡ some x
      → HasFile fs x
  find-HasFile p fs [] x h found = cc
  find-HasFile p fs (y ∷ xs) x h found = elim (Bool-cases (p y)) [
    | inl hit ↦ let same : y ≡ x = ground arith in subst (HasFile fs) same h.0
    | inr miss ↦ find-HasFile p fs xs x h.1 (ground arith)
  ]

  write-HasFile :
      (m : Uuid) (c : Bytes) (fs : HashMap Uuid Bytes) (xs : List Snapshot)
      → exists_in m fs ≡ false
      → All (HasFile fs) xs
      → All (HasFile (write m c fs)) xs
  write-HasFile m c fs [] new h = tt
  write-HasFile m c fs (x ∷ xs) new h =
      let (bytes, there, hash) = h.0 in
      (
        (bytes, ground (arith, lookup-write x.meta_id m c fs, exists_in-lookup m fs), hash),
        write-HasFile m c fs xs new h.1,
      )

  delete_first-HasFile :
      (id : Uuid) (fs : HashMap Uuid Bytes) (xs : List Snapshot)
      → All (HasFile fs) xs
      → All (HasFile fs) (delete_first id xs)
  unfolding delete_first
  delete_first-HasFile id fs [] h = tt
  delete_first-HasFile id fs (x ∷ xs) h = elim (Bool-cases (x.id == id)) [
    | inl hit ↦ rw hit h.1
    | inr miss ↦ rw miss (h.0, delete_first-HasFile id fs xs h.1)
  ]

  -- Two records of one file have one hash.
  same_file :
      (fs : HashMap Uuid Bytes) (x d : Snapshot)
      → HasFile fs x
      → HasFile fs d
      → d.meta_id ≡ x.meta_id
      → str_eq x.hash d.hash ≡ true
  same_file fs x d (a, there, hash) (b, there', hash') same =
      let bytes : a ≡ b = cc in (str_eq_iff x.hash d.hash).1 (sym hash ∙ ap blake3 bytes ∙ hash')

  erase-HasFile :
      (d : Snapshot) (fs : HashMap Uuid Bytes) (xs : List Snapshot)
      → HasFile fs d
      → find (λ y. str_eq y.hash d.hash) xs ≡ none
      → All (HasFile fs) xs
      → All (HasFile (erase d.meta_id fs)) xs
  erase-HasFile d fs [] own none_left h = tt
  erase-HasFile d fs (x ∷ xs) own none_left h =
      let (bytes, there, hash) = h.0 in
      (
        (
          bytes,
          ground (arith, lookup-erase x.meta_id d.meta_id fs, same_file fs x d h.0 own),
          hash,
        ),
        erase-HasFile d fs xs own (ground arith) h.1,
      )

  create-eq :
      (x : Snapshot) (c : Bytes) (s : Server)
      → lookup x.meta_id s.disk.normal ≡ some c
      → create x s ≡ (
        ok tt,
        record s {
          disk = record s.disk {
            normal = erase x.meta_id s.disk.normal;
            snapshot = write x.meta_id c s.disk.snapshot;
          };
          snapshots = x ∷ keep (λ y. not (same_key x y)) s.snapshots;
        },
      )
  unfolding create operate insert_snapshot
  create-eq x c s there = ground arith

  create-missing :
      (x : Snapshot) (s : Server)
      → lookup x.meta_id s.disk.normal ≡ none
      → create x s ≡ (err (file not_found), s)
  unfolding create operate
  create-missing x s missing = ground arith

  create-IsKept :
      (x : Snapshot) (s : Server)
      → exists_in x.meta_id s.disk.snapshot ≡ false
      → ((bytes : Bytes) → lookup x.meta_id s.disk.normal ≡ some bytes → blake3 bytes ≡ x.hash)
      → IsKept s
      → IsKept (create x s).1
  create-IsKept x s new right h = elim (Option-cases (lookup x.meta_id s.disk.normal)) [
    | inl missing ↦ rw (create-missing x s missing) h
    | inr (c, there) ↦ rw (create-eq x c s there) (
      (c, ground (arith, lookup-write x.meta_id x.meta_id c s.disk.snapshot), right c there),
      keep-HasFile (λ y. not (same_key x y)) (write x.meta_id c s.disk.snapshot) s.snapshots
          (write-HasFile x.meta_id c s.disk.snapshot s.snapshots new h),
    )
  ]

  pub flashed-IsKept :
      (x : Snapshot) (s : Server)
      → satisfy_flash_upload x.hash s ≡ (ok (some x.meta_id), s)
      → IsKept s
      → IsKept (create_record x s).1
  unfolding create_record insert_snapshot satisfy_flash_upload get_same_hash
  flashed-IsKept x s known h = elim (Option-cases (find (λ y. str_eq y.hash x.hash) s.snapshots)) [
    | inl missing ↦ absurd (ground arith)
    | inr (y, there) ↦
        let (bytes, cached, hash) = find-HasFile _ s.disk.snapshot s.snapshots y h there in
        let same : y.meta_id ≡ x.meta_id = ground arith in
        let hashes =
          (str_eq_iff y.hash x.hash).0
            (find-test (λ z. str_eq z.hash x.hash) s.snapshots y there) in
        (
          (bytes, subst (λ m. lookup m s.disk.snapshot ≡ some bytes) same cached, hash ∙ hashes),
          keep-HasFile (λ z. not (same_key x z)) s.disk.snapshot s.snapshots h,
        )
  ]

  remove-missing :
      (id : Uuid) (s : Server)
      → find (λ x. x.id == id) s.snapshots ≡ none
      → remove id s ≡ (err no_such_snapshot, s)
  unfolding remove delete_snapshot get_snapshot
  remove-missing id s missing = ground arith

  remove-shared :
      (id : Uuid) (d x : Snapshot) (s : Server)
      → find (λ x. x.id == id) s.snapshots ≡ some d
      → find (λ y. str_eq y.hash d.hash) (delete_first id s.snapshots) ≡ some x
      → remove id s ≡ (ok tt, record s { snapshots = delete_first id s.snapshots })
  unfolding remove delete_snapshot get_snapshot get_same_hash
  remove-shared id d x s there other = ground arith

  remove-last :
      (id : Uuid) (d : Snapshot) (s : Server)
      → find (λ x. x.id == id) s.snapshots ≡ some d
      → find (λ y. str_eq y.hash d.hash) (delete_first id s.snapshots) ≡ none
      → (remove id s).1 ≡ record s {
        snapshots = delete_first id s.snapshots;
        disk = record s.disk {
          snapshot =
              if exists_in d.meta_id s.disk.snapshot
              then erase d.meta_id s.disk.snapshot
              else s.disk.snapshot;
        };
      }
  unfolding remove delete_snapshot get_snapshot get_same_hash operate
  remove-last id d s there other = ground arith

  erased :
      (id : Uuid) (d : Snapshot) (s : Server)
      → IsKept s
      → find (λ x. x.id == id) s.snapshots ≡ some d
      → find (λ y. str_eq y.hash d.hash) (delete_first id s.snapshots) ≡ none
      → All
          (HasFile (
            if exists_in d.meta_id s.disk.snapshot
            then erase d.meta_id s.disk.snapshot
            else s.disk.snapshot))
          (delete_first id s.snapshots)
  erased id d s h there last =
      let fs = s.disk.snapshot in
      let rest = delete_first-HasFile id fs s.snapshots h in
      elim (Bool-cases (exists_in d.meta_id fs)) [
        | inr away ↦ rw away rest
        | inl cached ↦ rw cached (
            erase-HasFile d fs (delete_first id s.snapshots)
              (find-HasFile (λ x. x.id == id) fs s.snapshots d h there) last rest)
      ]

  remove-IsKept : (id : Uuid) (s : Server) → IsKept s → IsKept (remove id s).1
  remove-IsKept id s h = elim (Option-cases (find (λ x. x.id == id) s.snapshots)) [
    | inl missing ↦ rw (remove-missing id s missing) h
    | inr (d, there) ↦
        elim (Option-cases (find (λ y. str_eq y.hash d.hash) (delete_first id s.snapshots))) [
          | inr (x, other) ↦
              rw (remove-shared id d x s there other)
                (delete_first-HasFile id s.disk.snapshot s.snapshots h)
          | inl last ↦ rw (remove-last id d s there last) (erased id d s h there last)
        ]
  ]

  Step-IsKept : {s t : Server} → Step s t → IsKept s → IsKept t
  Step-IsKept (created x new right) h = create-IsKept x _ new right h
  Step-IsKept (flashed x known) h = flashed-IsKept x _ known h
  Step-IsKept (removed id) h = remove-IsKept id _ h

  Reach-IsKept : {s t : Server} → IsKept s → Reach s t → IsKept t
  Reach-IsKept h here = h
  Reach-IsKept h (next r step) = Step-IsKept step (Reach-IsKept h r)

  pub read_content-IsKept :
      (id : Uuid) (x : Snapshot) (s : Server)
      → IsKept s
      → find (λ y. y.id == id) s.snapshots ≡ some x
      → (bytes : Bytes) × (read_content id s ≡ (ok bytes, s)) × (blake3 bytes ≡ x.hash)
  unfolding read_content get_snapshot read
  read_content-IsKept id x s h there =
      let (bytes, cached, hash) = find-HasFile _ s.disk.snapshot s.snapshots x h there in
      (bytes, ground arith, hash)

  -- Where every snapshot on record can be read with its hash, this is so after any sequence of
  -- `create` (of a file that is not among the snapshots yet, with the hash of its content),
  -- `create_record` after `satisfy_flash_upload`, and `remove`, whether they succeed or not: reading
  -- a snapshot on record returns the content of its file, which has the hash of the record.
  pub read_content-Reach :
      (id : Uuid) (x : Snapshot) (s t : Server)
      → IsKept s
      → Reach s t
      → find (λ y. y.id == id) t.snapshots ≡ some x
      → (bytes : Bytes) × (read_content id t ≡ (ok bytes, t)) × (blake3 bytes ≡ x.hash)
  read_content-Reach id x s t h r there = read_content-IsKept id x t (Reach-IsKept h r) there
