-- ===== src/Workflow/Slots/Inputs.antt =====
-- What `update_with_inputs` does to the input slots
-- (src/kernel/src/models/impls/workflow_instance.rs).
use kuintessence.Prelude.{
  String, Bool, true, false, ◌≡◌, refl, some, List, [], ◌∷◌, ok, err, map, str_eq, traverse,
  if◌then◌else◌, ◌&&◌, not, ◌||◌, arith, all, ◌∙◌, sym, map-id, all-true, &&-eq-true, ap, ap₂,
  Bool-cases, ◌⊎◌, inl, inr,
}
use kuintessence.Workflow.Common.{Input, NodeInputSlotKind, NodeInputSlot}
use kuintessence.Workflow.Instance.{Error, NodeSpec}
use kuintessence.Workflow.Slots.{fill, update_slot, update_slots, update_with_inputs}

-- A slot of one kind, filled by an input of the same kind.
abbrev pub filled : NodeInputSlotKind → Input → NodeInputSlotKind
filled (NodeInputSlotKind.text contents rule) (Input.text id) =
    NodeInputSlotKind.text (some (id ∷ [])) rule
filled (NodeInputSlotKind.file contents name batch) (Input.file f) =
    NodeInputSlotKind.file (some (f ∷ [])) name batch
filled kind _ = kind

abbrev pub same_kind : NodeInputSlotKind → Input → Bool
same_kind (NodeInputSlotKind.text contents rule) (Input.text id) = true
same_kind (NodeInputSlotKind.file contents name batch) (Input.file f) = true
same_kind _ _ = false

-- The inputs that name the slot, one after the other.
abbrev pub filled_slot : List (String × Input) → NodeInputSlot → NodeInputSlot
filled_slot [] slot = slot
filled_slot ((d, input) ∷ rest) slot =
    filled_slot rest
      (if str_eq slot.descriptor d then record slot { kind = filled slot.kind input } else slot)

-- Every input that names the slot is of the slot's kind.
abbrev pub accepts : List (String × Input) → NodeInputSlot → Bool
accepts [] slot = true
accepts ((d, input) ∷ rest) slot =
    (not (str_eq slot.descriptor d) || same_kind slot.kind input) && accepts rest slot

same_kind-filled : (k : NodeInputSlotKind) (i j : Input) → same_kind (filled k i) j ≡ same_kind k j
same_kind-filled (NodeInputSlotKind.text c r) (Input.text a) j = ground arith
same_kind-filled (NodeInputSlotKind.text c r) (Input.file a) j = ground arith
same_kind-filled (NodeInputSlotKind.file c m b) (Input.text a) j = ground arith
same_kind-filled (NodeInputSlotKind.file c m b) (Input.file a) j = ground arith
same_kind-filled NodeInputSlotKind.unknown (Input.text a) j = refl
same_kind-filled NodeInputSlotKind.unknown (Input.file a) j = refl

accepts-filled :
    (rest : List (String × Input)) (slot : NodeInputSlot) (i : Input)
    → accepts rest (record slot { kind = filled slot.kind i }) ≡ accepts rest slot
accepts-filled [] slot i = refl
accepts-filled ((d, j) ∷ rest) slot i =
    ap₂ (λ a b. (not (str_eq slot.descriptor d) || a) && b) (same_kind-filled slot.kind i j)
      (accepts-filled rest slot i)

-- One input on one slot.
abbrev step_slot : String → Input → NodeInputSlot → NodeInputSlot
step_slot d input slot =
    if str_eq slot.descriptor d then record slot { kind = filled slot.kind input } else slot

abbrev fits : String → Input → NodeInputSlot → Bool
fits d input slot = not (str_eq slot.descriptor d) || same_kind slot.kind input

accepts-step :
    (rest : List (String × Input)) (d : String) (i : Input) (slot : NodeInputSlot)
    → accepts rest (step_slot d i slot) ≡ accepts rest slot
accepts-step rest d i slot = elim (Bool-cases (str_eq slot.descriptor d)) [
  | inl e ↦ rw e (accepts-filled rest slot i)
  | inr e ↦ rw e
]

fill-fits :
    (d : String) (k : NodeInputSlotKind) (i : Input)
    → same_kind k i ≡ true
    → fill d k i ≡ ok (filled k i)
unfolding fill
fill-fits d (NodeInputSlotKind.text c r) (Input.text a) h = refl
fill-fits d (NodeInputSlotKind.text c r) (Input.file a) h = cc
fill-fits d (NodeInputSlotKind.file c m b) (Input.text a) h = cc
fill-fits d (NodeInputSlotKind.file c m b) (Input.file a) h = refl
fill-fits d NodeInputSlotKind.unknown (Input.text a) h = cc
fill-fits d NodeInputSlotKind.unknown (Input.file a) h = cc

fill-misfits :
    (d : String) (k : NodeInputSlotKind) (i : Input)
    → same_kind k i ≡ false
    → (e : Error) × (fill d k i ≡ err e)
unfolding fill
fill-misfits d (NodeInputSlotKind.text c r) (Input.text a) h = cc
fill-misfits d (NodeInputSlotKind.text c r) (Input.file a) h = (_, refl)
fill-misfits d (NodeInputSlotKind.file c m b) (Input.text a) h = (_, refl)
fill-misfits d (NodeInputSlotKind.file c m b) (Input.file a) h = cc
fill-misfits d NodeInputSlotKind.unknown (Input.text a) h = (_, refl)
fill-misfits d NodeInputSlotKind.unknown (Input.file a) h = (_, refl)

update_slot-fits :
    (d : String) (i : Input) (slot : NodeInputSlot)
    → fits d i slot ≡ true
    → update_slot d i slot ≡ ok (step_slot d i slot)
unfolding update_slot
update_slot-fits d i slot h = elim (Bool-cases (str_eq slot.descriptor d)) [
  | inl e ↦ rw (e, fill-fits slot.descriptor slot.kind i (rw e at h))
  | inr e ↦ rw e
]

update_slot-misfits :
    (d : String) (i : Input) (slot : NodeInputSlot)
    → fits d i slot ≡ false
    → (e : Error) × (update_slot d i slot ≡ err e)
unfolding update_slot
update_slot-misfits d i slot h = elim (Bool-cases (str_eq slot.descriptor d)) [
  | inl e ↦ let (x, p) = fill-misfits slot.descriptor slot.kind i (rw e at h) in (x, rw (e, p))
  | inr e ↦ cc (rw e at h)
]

traverse-fits :
    (d : String) (i : Input) (slots : List NodeInputSlot)
    → all (fits d i) slots ≡ true
    → traverse (update_slot d i) slots ≡ ok (map (step_slot d i) slots)
traverse-fits d i [] h = refl
traverse-fits d i (slot ∷ slots) h =
    ground (arith, update_slot-fits d i slot, traverse-fits d i slots)

traverse-misfits :
    (d : String) (i : Input) (slots : List NodeInputSlot)
    → all (fits d i) slots ≡ false
    → (e : Error) × (traverse (update_slot d i) slots ≡ err e)
traverse-misfits d i [] h = cc
traverse-misfits d i (slot ∷ slots) h = elim (Bool-cases (fits d i slot)) [
  | inl good ↦
      let (x, p) = traverse-misfits d i slots (rw good at h) in
      (x, rw (update_slot-fits d i slot good, p))
  | inr bad ↦ let (x, p) = update_slot-misfits d i slot bad in (x, rw p)
]

module _ (d : String) (i : Input) (rest : List (String × Input)) where
  all-fits :
      (slots : List NodeInputSlot)
      → all (accepts ((d, i) ∷ rest)) slots
        ≡ (all (fits d i) slots && all (accepts rest) (map (step_slot d i) slots))
  all-fits [] = refl
  all-fits (slot ∷ slots) = rw (all-fits slots, accepts-step rest d i slot) (ground arith)

  map-filled_slot :
      (slots : List NodeInputSlot)
      → map (filled_slot rest) (map (step_slot d i) slots) ≡ map (filled_slot ((d, i) ∷ rest)) slots
  map-filled_slot [] = refl
  map-filled_slot (slot ∷ slots) =
      ap (◌∷◌ (filled_slot ((d, i) ∷ rest) slot)) (map-filled_slot slots)

update_slots-accepts :
    (inputs : List (String × Input)) (slots : List NodeInputSlot)
    → all (accepts inputs) slots ≡ true
    → update_slots inputs slots ≡ ok (map (filled_slot inputs) slots)
unfolding update_slots
update_slots-accepts [] slots h = ap ok (sym (map-id slots))
update_slots-accepts ((d, i) ∷ rest) slots h =
    let both = sym (all-fits d i rest slots) ∙ h in
    let (now, later) = &&-eq-true (all (fits d i) slots) _ both in
    rw (traverse-fits d i slots now) (
      update_slots-accepts rest (map (step_slot d i) slots) later
      ∙ ap ok (map-filled_slot d i rest slots))

update_slots-refuses :
    (inputs : List (String × Input)) (slots : List NodeInputSlot)
    → all (accepts inputs) slots ≡ false
    → (e : Error) × (update_slots inputs slots ≡ err e)
unfolding update_slots
update_slots-refuses [] slots h = cc (all-true slots)
update_slots-refuses ((d, i) ∷ rest) slots h = elim (Bool-cases (all (fits d i) slots)) [
  | inl now ↦
      let (e, p) =
        update_slots-refuses rest (map (step_slot d i) slots)
          (rw now at (sym (all-fits d i rest slots) ∙ h)) in
      (e, rw (traverse-fits d i slots now) p)
  | inr bad ↦ let (e, p) = traverse-misfits d i slots bad in (e, rw p)
]

-- `update_with_inputs` succeeds exactly when every input that names a slot is of that slot's kind.
-- Then each slot holds the last input that names it, a slot that none names is as before, and
-- nothing else of the node changes. Otherwise it returns an error, and never panics.
pub update_with_inputs-filled_slot :
    (inputs : List (String × Input)) (spec : NodeSpec)
    → ((all (accepts inputs) spec.input_slots ≡ true)
        × (update_with_inputs inputs spec
            ≡ ok (record spec { input_slots = map (filled_slot inputs) spec.input_slots })))
      ⊎ ((all (accepts inputs) spec.input_slots ≡ false)
          × ((e : Error) × (update_with_inputs inputs spec ≡ err e)))
unfolding update_with_inputs
update_with_inputs-filled_slot inputs spec =
    elim (Bool-cases (all (accepts inputs) spec.input_slots)) [
      | inl h ↦ inl (h, rw (update_slots-accepts inputs spec.input_slots h))
      | inr h ↦ let (e, p) = update_slots-refuses inputs spec.input_slots h in inr (h, (e, rw p))
    ]

-- The same, for a caller that knows that the inputs fit.
pub update_with_inputs-accepts :
    (inputs : List (String × Input)) (spec : NodeSpec)
    → all (accepts inputs) spec.input_slots ≡ true
    → update_with_inputs inputs spec
      ≡ ok (record spec { input_slots = map (filled_slot inputs) spec.input_slots })
unfolding update_with_inputs
update_with_inputs-accepts inputs spec h = rw (update_slots-accepts inputs spec.input_slots h)
