-- ===== src/Workflow/Batch/Choices.antt =====
-- The combinations of inputs of `sub_nodes` (src/kernel/src/services/workflow_engine/schedule.rs).
use mathlib.Core.List.{append-nil, append_assoc}
use kuintessence.Prelude.{
  ℕ, ◌*◌, String, false, ◌≡◌, refl, sym, ap, ap₂, ◌∙◌, List, [], ◌∷◌, ◌++◌, map, is_empty, flat_map,
  length, All, arith, length-append, length-map,
}
use kuintessence.Workflow.Common.{Input}
use kuintessence.Workflow.Batch.{combine}

abbrev pub Slots : Type 0
Slots = List (String × List Input)

abbrev pub Choice : Type 0
Choice = List (String × Input)

-- All ways to choose one input for each slot: the first slot varies fastest.
abbrev pub choices : Slots → List Choice
choices [] = [] ∷ []
choices ((d, is) ∷ rest) = flat_map (λ tail. map (λ j. (d, j) ∷ tail) is) (choices rest)

abbrev pub counts_product : Slots → ℕ
counts_product [] = 1
counts_product ((d, is) ∷ rest) = length is * counts_product rest

-- Every slot has an input.
abbrev pub HasInputs : Slots → Type 0
HasInputs = All (λ e. is_empty e.1 ≡ false)

-- Each of the combinations so far, with a rest.
abbrev extended : List Choice → Choice → List Choice
extended acc tail = map (λ k. k ++ tail) acc

abbrev next_choices : List Choice → String → List Input → List Choice
next_choices acc d is = flat_map (λ j. map (λ k. k ++ (d, j) ∷ []) acc) is

map-append : {A B : Type 0} (f : A → B) (xs ys : List A) → map f (xs ++ ys) ≡ map f xs ++ map f ys
map-append f [] ys = refl
map-append f (x ∷ xs) ys = ap (◌∷◌ (f x)) (map-append f xs ys)

flat_map-append :
    {A B : Type 0} (f : A → List B) (xs ys : List A)
    → flat_map f (xs ++ ys) ≡ flat_map f xs ++ flat_map f ys
flat_map-append f [] ys = refl
flat_map-append f (x ∷ xs) ys =
    ap (◌++◌ (f x)) (flat_map-append f xs ys)
    ∙ sym (append_assoc (f x) (flat_map f xs) (flat_map f ys))

extended-twice :
    (acc : List Choice) (e : String × Input) (tail : Choice)
    → extended (map (λ k. k ++ e ∷ []) acc) tail ≡ extended acc (e ∷ tail)
extended-twice [] e tail = refl
extended-twice (k ∷ acc) e tail = ap₂ ◌∷◌ (append_assoc k (e ∷ []) tail) (extended-twice acc e tail)

extended-next :
    (acc : List Choice) (d : String) (is : List Input) (tail : Choice)
    → extended (next_choices acc d is) tail ≡ flat_map (extended acc) (map (λ j. (d, j) ∷ tail) is)
extended-next acc d [] tail = refl
extended-next acc d (j ∷ is) tail =
    map-append (λ k. k ++ tail) (map (λ k. k ++ (d, j) ∷ []) acc) (next_choices acc d is)
    ∙ ap₂ ◌++◌ (extended-twice acc (d, j) tail) (extended-next acc d is tail)

extended-tails :
    (acc : List Choice) (d : String) (is : List Input) (tails : List Choice)
    → flat_map (extended (next_choices acc d is)) tails
      ≡ flat_map (extended acc) (flat_map (λ tail. map (λ j. (d, j) ∷ tail) is) tails)
extended-tails acc d is [] = refl
extended-tails acc d is (t ∷ ts) =
    ap₂ ◌++◌ (extended-next acc d is t) (extended-tails acc d is ts)
    ∙ sym (flat_map-append (extended acc) (map (λ j. (d, j) ∷ t) is) _)

extended-nil : (acc : List Choice) → flat_map (extended acc) ([] ∷ []) ≡ acc
extended-nil [] = refl
extended-nil (k ∷ acc) = ap₂ ◌∷◌ (append-nil k) (extended-nil acc)

next-IsNonempty :
    (acc : List Choice) (d : String) (is : List Input)
    → is_empty acc ≡ false
    → is_empty is ≡ false
    → is_empty (next_choices acc d is) ≡ false
next-IsNonempty (k ∷ acc) d (j ∷ is) a b = refl
next-IsNonempty [] d is a b = ground arith
next-IsNonempty (k ∷ acc) d [] a b = ground arith

combine-extended :
    (slots : Slots) (acc : List Choice)
    → is_empty acc ≡ false
    → HasInputs slots
    → combine slots acc ≡ flat_map (extended acc) (choices slots)
unfolding combine
combine-extended [] acc a h = sym (extended-nil acc)
combine-extended ((d, is) ∷ rest) acc a h = rw a (
    combine-extended rest (next_choices acc d is) (next-IsNonempty acc d is a h.0) h.1
    ∙ extended-tails acc d is (choices rest))

first-next :
    (d : String) (is : List Input) → map (λ j. (d, j) ∷ []) is ≡ next_choices ([] ∷ []) d is
first-next d [] = refl
first-next d (j ∷ is) = ap (◌∷◌ ((d, j) ∷ [])) (first-next d is)

extended-one : (tails : List Choice) → flat_map (extended ([] ∷ [])) tails ≡ tails
extended-one [] = refl
extended-one (t ∷ ts) = ap (◌∷◌ t) (extended-one ts)

length-choices : (slots : Slots) → length (choices slots) ≡ counts_product slots
length-choices [] = refl
length-choices ((d, is) ∷ rest) = go (choices rest) ∙ ap (◌*◌ (length is)) (length-choices rest)
  where
    go :
        (tails : List Choice)
        → length (flat_map (λ tail. map (λ j. (d, j) ∷ tail) is) tails) ≡ length is * length tails
    go [] = omega arith
    go (t ∷ ts) =
        let one : length (map (λ j. (d, j) ∷ t) is) ≡ length is = length-map _ is in
        length-append (map (λ j. (d, j) ∷ t) is) _ ∙ ground (arith, one, go ts)

-- Where there is a slot and every slot has an input, the combinations are all ways to choose one
-- input for each slot, each once for each place in the lists of inputs, with the first slot varying
-- fastest; their number is the product of the numbers of inputs.
pub combine-choices :
    (d : String) (is : List Input) (rest : Slots)
    → HasInputs ((d, is) ∷ rest)
    → (combine ((d, is) ∷ rest) [] ≡ choices ((d, is) ∷ rest))
      × (length (combine ((d, is) ∷ rest) []) ≡ counts_product ((d, is) ∷ rest))
unfolding combine
combine-choices d is rest h =
    let one : List Choice = [] ∷ [] in
    let same : combine rest (map (λ j. (d, j) ∷ []) is) ≡ choices ((d, is) ∷ rest) =
      ap (combine rest) (first-next d is)
      ∙ combine-extended rest (next_choices one d is) (next-IsNonempty one d is refl h.0) h.1
      ∙ extended-tails one d is (choices rest)
      ∙ extended-one (choices ((d, is) ∷ rest)) in
    (same, ap length same ∙ length-choices ((d, is) ∷ rest))

-- A slot without inputs makes the combinations start anew after it: the slots before it are lost,
-- whatever inputs they have.
pub combine-restart :
    (before after : Slots) (d : String) (acc : List Choice)
    → combine (before ++ (d, []) ∷ after) acc ≡ combine after []
unfolding combine
combine-restart [] after d [] = refl
combine-restart [] after d (k ∷ acc) = refl
combine-restart ((e, is) ∷ before) after d acc = combine-restart before after d _
