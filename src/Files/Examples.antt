-- ===== src/Files/Examples.antt =====
-- Tests and witnesses for the transfer of files.
mod Moves
use kuintessence.Prelude.{
  ℕ, ◌≡◌, refl, Bool, true, false, some, String, List, [], ◌∷◌, ok, ◌==◌, ◌&&◌, not, contains,
  is_empty, arith, if◌then◌else◌, ◌<◌,
}
use kuintessence.Files.Cache.{Bytes, blake3, Part, Multipart, Disk, write}
use kuintessence.Files.Multipart.{create, complete_part, finish, set_nth, unfinished}
use kuintessence.Files.Multipart.Completed.{
  missing_at, marked, stored, complete_part-missing, complete_part-last,
}

abbrev hash_of : Bytes → String
hash_of bytes = "H"

abbrev upload : List Bool → Multipart
upload parts = record { meta_id = 1; hash = "H"; hash_algorithm = blake3; parts = parts }

abbrev part : ℕ → Bytes → Part
part nth content = record { meta_id = 1; content = content; nth = nth }

abbrev disk : List Bool → List Part → Disk
disk parts cached = record {
  normal = [];
  snapshot = [];
  multipart = cached;
  multiparts = upload parts ∷ [];
}

abbrev half : Disk
half = disk (true ∷ false ∷ []) (part 0 (1 ∷ 2 ∷ []) ∷ [])

abbrev content : ℕ → Bytes
content i = if i == 0 then 1 ∷ 2 ∷ [] else 3 ∷ []

created :
    create hash_of 1 "H" blake3 2 (record half { multipart = []; multiparts = [] })
    ≡ (ok tt, disk (false ∷ false ∷ []) [])
unfolding create
created = refl

others_are_cached : (i : ℕ) → i < 2 → (i == 1) ≡ false → stored 1 i half ≡ some (content i)
others_are_cached i low other = let at_start : i ≡ 0 = ground arith in rw at_start refl

complete_part-last_example : complete_part hash_of (part 1 (3 ∷ [])) half ≡ (
  ok [],
  record (marked (part 1 (3 ∷ [])) (upload (true ∷ false ∷ [])) (true ∷ true ∷ []) half) {
    normal = write 1 (1 ∷ 2 ∷ 3 ∷ []) [];
    multipart = [];
  },
)
unfolding set_nth unfinished
complete_part-last_example =
    complete_part-last hash_of (part 1 (3 ∷ [])) (upload (true ∷ false ∷ [])) (true ∷ true ∷ [])
      content half refl refl refl refl others_are_cached
