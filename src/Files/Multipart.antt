-- ===== src/Files/Multipart.antt =====
-- `MultipartService` of src/kernel/src/services/file/multipart.rs over the cache and the table of
-- multiparts of src/co/src/infrastructure/repositories/redis_repository/multipart.rs. A key names
-- the id and the hash of a multipart; ids and hashes have no `_` and no wildcard in them, so that a
-- pattern of keys fits exactly the keys with its id or its hash. The end of a lease is not
-- modelled. `blake3` gives the hash of some bytes in capital letters.
pub mod Completed
use kuintessence.Prelude.{
  ℕ, zero, suc, String, Bool, true, false, Option, none, some, List, [], ◌∷◌, ◌++◌, ok, err, ok_or,
  ◌==◌, ◌&&◌, not, str_eq, find, keep, is_empty, length, replicate, if◌then◌else◌,
}
use mathlib.Core.Option
use kuintessence.Workflow.Common.{Uuid}
use kuintessence.Workflow.Exec.{pure, bail, lift, gets, modify, ◌>>=◌, ◌>>◌}
use kuintessence.Files.Cache.{
  Bytes, HashAlgorithm, Part, Multipart, Disk, FileError, conflicted_id, conflicted_hash,
  multipart_not_found, no_such_part, different_hashs, not_found, Act, write_normal, write_part,
  remove_multipart_dir, read_part, operate, read,
}

-- `get_one_by_key_regex` with `id_key_regex` and with `hash_key_regex`.
unfoldable pub get_by_id : Uuid → Act (Option Multipart)
get_by_id meta_id s = (ok (find (λ m. m.meta_id == meta_id) s.multiparts), s)

unfoldable pub get_by_hash : String → Act (Option Multipart)
get_by_hash hash s = (ok (find (λ m. str_eq m.hash hash) s.multiparts), s)

-- `insert_with_lease` and `update_with_lease`: the key is that of the multipart's id and hash.
abbrev pub has_key : Multipart → Multipart → Bool
has_key m x = x.meta_id == m.meta_id && str_eq x.hash m.hash

unfoldable pub set_with_lease : Multipart → Act (Unit {0})
set_with_lease m s =
    (ok tt, record s { multiparts = m ∷ keep (λ x. not (has_key m x)) s.multiparts })

delete_one : Uuid → List Multipart → List Multipart
delete_one id [] = []
delete_one id (m ∷ ms) = if m.meta_id == id then ms else m ∷ delete_one id ms

-- `parts.get_mut(nth)`, set to true.
unfoldable pub set_nth : ℕ → List Bool → Option (List Bool)
set_nth nth [] = none
set_nth zero (b ∷ bs) = some (true ∷ bs)
set_nth (suc nth) (b ∷ bs) = Option.map (◌∷◌ b) (set_nth nth bs)

-- `enumerate().filter(|(_, el)| !*el)`: the numbers of the parts that are missing.
unfoldable pub unfinished : ℕ → List Bool → List ℕ
unfinished n [] = []
unfinished n (b ∷ bs) = if b then unfinished (suc n) bs else n ∷ unfinished (suc n) bs

-- The contents of all parts, one after the other.
merge : Uuid → ℕ → ℕ → Act Bytes
unfolding read
merge meta_id zero nth = pure []
merge meta_id (suc left) nth = read (read_part meta_id nth) >>= λ nth_content.
    merge meta_id left (suc nth) >>= λ rest. pure (nth_content ++ rest)

module _ (blake3 : Bytes → String) where
  unfoldable pub create : Uuid → String → HashAlgorithm → ℕ → Act (Unit {0})
  unfolding get_by_hash get_by_id set_with_lease
  create meta_id hash hash_algorithm count = get_by_hash hash >>= λ same_hash. elim same_hash [
    | some el ↦ bail (conflicted_hash el.meta_id hash)
    | none ↦ get_by_id meta_id >>= λ same_id. elim same_id [
      | some el ↦ bail (conflicted_id meta_id)
      | none ↦ set_with_lease (record {
        meta_id = meta_id;
        hash = hash;
        hash_algorithm = hash_algorithm;
        parts = replicate count false;
      })
    ]
  ]

  -- The end of `complete_part`, when all parts are there.
  pub finish : Uuid → Multipart → Act (List ℕ)
  unfolding merge operate
  finish meta_id m = merge meta_id (length m.parts) 0 >>= λ completed_content.
      let completed_content_hash = blake3 completed_content in
      if not (str_eq completed_content_hash m.hash)
      then bail (different_hashs meta_id m.hash completed_content_hash)
      else (operate (write_normal meta_id completed_content) >>= λ _.
          operate (remove_multipart_dir meta_id) >>= λ _. pure [])

  unfoldable pub complete_part : Part → Act (List ℕ)
  unfolding get_by_id set_nth set_with_lease unfinished finish operate
  complete_part part = operate (write_part part) >>= λ _. get_by_id part.meta_id >>= λ found.
      lift (ok_or (multipart_not_found part.meta_id) found) >>= λ m.
      lift (ok_or (no_such_part part.meta_id part.nth) (set_nth part.nth m.parts)) >>= λ parts.
      set_with_lease (record m { parts = parts }) >>= λ _.
      if not (is_empty (unfinished 0 parts))
      then pure (unfinished 0 parts)
      else finish part.meta_id (record m { parts = parts })

unfoldable pub info : Uuid → Act Multipart
unfolding get_by_id
info meta_id = get_by_id meta_id >>= λ found. lift (ok_or (multipart_not_found meta_id) found)

-- An error of the removal of the directory is ignored.
unfoldable pub remove : Uuid → Act (Unit {0})
unfolding get_by_id delete_one operate
remove meta_id = get_by_id meta_id >>= λ found.
    lift (ok_or (multipart_not_found meta_id) found) >>= λ _.
    modify (λ s. record s { multiparts = delete_one meta_id s.multiparts }) >>= λ _.
    (λ s. (ok tt, (operate (remove_multipart_dir meta_id) s).1))
