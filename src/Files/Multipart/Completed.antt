-- ===== src/Files/Multipart/Completed.antt =====
-- What the upload of a part does (src/kernel/src/services/file/multipart.rs).
use kuintessence.Prelude.{
  ℕ, zero, suc, ◌+◌, ◌≤◌, ◌<◌, Bool, true, false, ◌≡◌, refl, subst, ◌∙◌, Option, some, String, List,
  [], ◌∷◌, ◌++◌, ok, err, ◌==◌, ◌&&◌, not, str_eq, find, keep, is_empty, length, contains, arith,
  if◌then◌else◌, ==_refl, ==_iff, Bool-cases, Option-cases, inl, inr,
}
use mathlib.Core.Option
use kuintessence.Workflow.Common.{Uuid}
use kuintessence.Files.Cache.{
  Bytes, Part, Multipart, Disk, different_hashs, is_part, write_part_to, write, operate, read,
}
use kuintessence.Files.Multipart.{
  has_key, set_with_lease, get_by_id, set_nth, unfinished, merge, finish, complete_part,
}

-- The part is there, and has not been uploaded.
abbrev pub missing_at : List Bool → ℕ → Bool
missing_at [] i = false
missing_at (b ∷ bs) zero = not b
missing_at (b ∷ bs) (suc i) = missing_at bs i

unfinished-below : (n k : ℕ) (bs : List Bool) → k < n → contains (unfinished n bs) k ≡ false
unfolding unfinished
unfinished-below n k [] h = refl
unfinished-below n k (b ∷ bs) h =
    let later : k < suc n = omega (arith, h) in ground (arith, unfinished-below (suc n) k bs later)

unfinished-missing :
    (n i : ℕ) (bs : List Bool) → contains (unfinished n bs) (n + i) ≡ missing_at bs i
unfolding unfinished
unfinished-missing n i [] = refl
unfinished-missing n zero (b ∷ bs) =
    let none_left : contains (unfinished (suc n) bs) (n + 0) ≡ false =
      unfinished-below (suc n) (n + 0) bs (omega arith) in
    ground arith
unfinished-missing n (suc i) (b ∷ bs) =
    let there : suc n + i ≡ n + suc i = omega arith in
    let rest : contains (unfinished (suc n) bs) (n + suc i) ≡ missing_at bs i =
      rw⁻¹ there (unfinished-missing (suc n) i bs) in
    let other : (n == n + suc i) ≡ false = ground arith in ground arith

unfinished-from_start : (i : ℕ) (bs : List Bool) → contains (unfinished 0 bs) i ≡ missing_at bs i
unfinished-from_start i bs =
    let same : 0 + i ≡ i = omega arith in
    subst (λ k. contains (unfinished 0 bs) k ≡ missing_at bs i) same (unfinished-missing 0 i bs)

set_nth-missing :
    (nth i : ℕ) (bs cs : List Bool)
    → set_nth nth bs ≡ some cs
    → missing_at cs i ≡ (missing_at bs i && not (i == nth))
unfolding set_nth
set_nth-missing nth i [] cs h = ground arith
set_nth-missing zero zero (b ∷ bs) cs h = ground arith
set_nth-missing zero (suc i) (b ∷ bs) cs h = ground arith
set_nth-missing (suc nth) i (b ∷ bs) cs h = elim (Option-cases (set_nth nth bs)) [
  | inl e ↦ ground arith
  | inr (ds, e) ↦ step i b bs cs ds (ground arith) (λ j. set_nth-missing nth j bs ds e)
]
  where
    step :
        (i : ℕ) (b : Bool) (bs cs ds : List Bool)
        → b ∷ ds ≡ cs
        → ((j : ℕ) → missing_at ds j ≡ (missing_at bs j && not (j == nth)))
        → missing_at cs i ≡ (missing_at (b ∷ bs) i && not (i == suc nth))
    step zero b bs cs ds e h = rw⁻¹ e (ground arith)
    step (suc i) b bs cs ds e h = rw⁻¹ e (ground (arith, h i))

-- The disk when the part is written and marked.
abbrev pub marked : Part → Multipart → List Bool → Disk → Disk
marked part m parts s = record s {
  multipart = write_part_to part s.multipart;
  multiparts =
      record m { parts = parts }
      ∷ keep (λ x. not (has_key (record m { parts = parts }) x)) s.multiparts;
}

-- The contents of the parts, one after the other.
abbrev pub joined : (ℕ → Bytes) → ℕ → ℕ → Bytes
joined content zero nth = []
joined content (suc left) nth = content nth ++ joined content left (suc nth)

-- The content of a part in the cache.
abbrev pub stored : Uuid → ℕ → Disk → Option Bytes
stored id i s = Option.map (λ p. p.content) (find (is_part id i) s.multipart)

merge-joined :
    (id : Uuid) (content : ℕ → Bytes) (left nth : ℕ) (s : Disk)
    → ((i : ℕ) → nth ≤ i → i < nth + left → stored id i s ≡ some (content i))
    → merge id left nth s ≡ (ok (joined content left nth), s)
unfolding merge
merge-joined id content zero nth s h = refl
merge-joined id content (suc left) nth s h =
    let now = h nth (omega arith) (omega arith) in
    let later =
      merge-joined id content left (suc nth) s (λ i low high. h i (omega arith) (omega arith)) in
    rw (now, later) refl

-- The other parts are found as before.
find-write_part :
    (part : Part) (i : ℕ) (ps : List Part)
    → (i == part.nth) ≡ false
    → find (is_part part.meta_id i) (write_part_to part ps) ≡ find (is_part part.meta_id i) ps
find-write_part part i ps h =
    let other : (part.nth == i) ≡ false = ground arith in
    let same : (part.meta_id == part.meta_id) ≡ true = ==_refl part.meta_id in
    rw (same, other) (go ps)
  where
    go :
        (ps : List Part)
        → find (is_part part.meta_id i) (keep (λ x. not (is_part part.meta_id part.nth x)) ps)
          ≡ find (is_part part.meta_id i) ps
    go [] = refl
    go (p ∷ ps) = ground (arith, go ps)

length-set_nth : (nth : ℕ) (bs cs : List Bool) → set_nth nth bs ≡ some cs → length cs ≡ length bs
unfolding set_nth
length-set_nth nth [] cs h = ground arith
length-set_nth zero (b ∷ bs) cs h = ground arith
length-set_nth (suc nth) (b ∷ bs) cs h = elim (Option-cases (set_nth nth bs)) [
  | inl e ↦ ground arith
  | inr (ds, e) ↦
      let shorter = length-set_nth nth bs ds e in
      let same : b ∷ ds ≡ cs = ground arith in rw⁻¹ same (omega (arith, shorter))
]

module _ (blake3 : Bytes → String) where
  -- Where the multipart has the part, the upload returns the numbers of the parts that are still
  -- missing, which are those that were missing and are not this part, and the part is written and
  -- marked; when none is missing, the parts are put together from there.
  pub complete_part-missing :
      (part : Part) (m : Multipart) (parts : List Bool) (s : Disk)
      → find (λ x. x.meta_id == part.meta_id) s.multiparts ≡ some m
      → set_nth part.nth m.parts ≡ some parts
      → (missing : List ℕ) × ((i : ℕ)
          → contains missing i ≡ (missing_at m.parts i && not (i == part.nth)))
        × (complete_part blake3 part s ≡ (
            if not (is_empty missing)
            then (ok missing, marked part m parts s)
            else finish blake3 part.meta_id (record m { parts = parts }) (marked part m parts s)))
  unfolding complete_part get_by_id operate set_with_lease
  complete_part-missing part m parts s found set = (
    unfinished 0 parts,
    λ i. unfinished-from_start i parts ∙ set_nth-missing part.nth i m.parts parts set,
    elim (Bool-cases (is_empty (unfinished 0 parts))) [
      | inl e ↦ rw (found, set, e) refl
      | inr e ↦ rw (found, set, e) refl
    ],
  )

  -- Where the part is the last one that is missing and the cache holds the contents of all the
  -- others, the upload never fails to read: if the hash of the contents in the order of the parts is
  -- that of the multipart, the whole file is written, the parts are removed and nothing is reported
  -- as missing; otherwise the two hashes are reported, and the parts stay.
  pub complete_part-last :
      (part : Part) (m : Multipart) (parts : List Bool) (content : ℕ → Bytes) (s : Disk)
      → find (λ x. x.meta_id == part.meta_id) s.multiparts ≡ some m
      → set_nth part.nth m.parts ≡ some parts
      → unfinished 0 parts ≡ []
      → content part.nth ≡ part.content
      → ((i : ℕ)
          → i < length parts
          → (i == part.nth) ≡ false
          → stored part.meta_id i s ≡ some (content i))
      → complete_part blake3 part s ≡ (
          if str_eq (blake3 (joined content (length parts) 0)) m.hash
          then (
            ok [],
            record (marked part m parts s) {
              normal = write part.meta_id (joined content (length parts) 0) s.normal;
              multipart =
                  keep (λ p. not (p.meta_id == part.meta_id)) (write_part_to part s.multipart);
            },
          )
          else (
            err (different_hashs part.meta_id m.hash (blake3 (joined content (length parts) 0))),
            marked part m parts s,
          ))
  unfolding complete_part get_by_id operate set_with_lease finish read
  complete_part-last part m parts content s found set complete own others =
      let t = marked part m parts s in
      let id = part.meta_id in
      let whole = joined content (length parts) 0 in
      let same : (id == id) ≡ true = ==_refl id in
      let cached : (i : ℕ) → 0 ≤ i → i < 0 + length parts → stored id i t ≡ some (content i) =
        λ i low high. elim (Bool-cases (i == part.nth)) [
          | inl e ↦
              let here : i ≡ part.nth = (==_iff i part.nth).0 e in
              let self : (part.nth == part.nth) ≡ true = ==_refl part.nth in
              rw here (rw (same, self) (rw own refl))
          | inr e ↦
              let old = others i (omega arith) e in
              rw (find-write_part part i s.multipart e, old) refl
        ] in
      let merged = merge-joined id content (length parts) 0 t cached in
      elim (Bool-cases (str_eq (blake3 whole) m.hash)) [
        | inl e ↦ rw (found, set, complete, merged, e, same) refl
        | inr e ↦ rw (found, set, complete, merged, e) refl
      ]
