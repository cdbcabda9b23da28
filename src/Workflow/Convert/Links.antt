-- ===== src/Workflow/Convert/Links.antt =====
-- The nodes and relations of a converted draft (src/kernel/src/models/impls/node_instance.rs).
use kuintessence.Prelude.{
  ℕ, false, ◌≡◌, refl, ap₂, ◌∙◌, none, some, List, [], ◌∷◌, map, ◌==◌, if◌then◌else◌, zip, contains,
  arith, All, All-map, inl, inr, Bool-cases,
}
use kuintessence.Workflow.Common.{Uuid, HashMap, NodeRelation}
use kuintessence.Workflow.Instance.{NodeSpec}
use kuintessence.Workflow.Draft.{NodeDraft, WorkflowDraftSpec}
use kuintessence.Workflow.Convert.Copies.{AreCopies, node_specs_from-AreCopies}
use kuintessence.Workflow.Entry.{get, insert, unwrap_or}
use kuintessence.Workflow.Entry.Degrees.{IsMap, get-insert}
use kuintessence.Workflow.Convert.{
  collect, update_id, node_spec_from, node_specs_from, workflow_spec_from,
}

-- The new id of a node: that of the node spec at the place of the draft with the old id.
abbrev pub renamed : List NodeDraft → List NodeSpec → Uuid → Uuid
renamed [] specs k = k
renamed (d ∷ ds) [] k = k
renamed (d ∷ ds) (s ∷ ss) k = if d.external_id == k then s.id else renamed ds ss k

-- The same relation between the renamed nodes.
abbrev pub with_ends : (Uuid → Uuid) → NodeRelation → NodeRelation
with_ends f r = record r { from_id = f r.from_id; to_id = f r.to_id }

abbrev pub old_ids : List NodeDraft → List Uuid
old_ids = map (λ el. el.external_id)

abbrev pub IsUnique : List Uuid → Type 0
IsUnique [] = Unit {0}
IsUnique (k ∷ ks) = (contains ks k ≡ false) × IsUnique ks

-- The value of a key, and where it has none, the key.
abbrev value_or_key : HashMap Uuid Uuid → Uuid → Uuid
value_or_key m k = unwrap_or k (get k m)

-- No value of `m` is a key of `map`.
abbrev AvoidKeys : HashMap Uuid Uuid → HashMap Uuid Uuid → Type 0
AvoidKeys keys m = All (λ e. get e.1 keys ≡ none) m

get-tail : (k o v : Uuid) (m : HashMap Uuid Uuid) → get k ((o, v) ∷ m) ≡ none → get k m ≡ none
unfolding get
get-tail k o v m h = ground arith

-- One entry of the pass, and then the rest of the map.
step-value :
    (k o v : Uuid) (m : HashMap Uuid Uuid)
    → get v ((o, v) ∷ m) ≡ none
    → value_or_key m (if o == k then v else k) ≡ value_or_key ((o, v) ∷ m) k
unfolding get
step-value k o v m h = elim (Bool-cases (o == k)) [
  | inl e ↦ let rest : get v m ≡ none = get-tail v o v m h in simp (e, rest) refl
  | inr e ↦ simp e refl
]

update_id-value :
    (m : HashMap Uuid Uuid) (r : NodeRelation)
    → AvoidKeys m m
    → update_id m r
      ≡ record r { from_id = value_or_key m r.from_id; to_id = value_or_key m r.to_id }
unfolding update_id get
update_id-value [] r h = refl
update_id-value ((o, v) ∷ m) r h =
    let r' : NodeRelation = record r {
      from_id = if o == r.from_id then v else r.from_id;
      to_id = if o == r.to_id then v else r.to_id;
    } in
    let rest : AvoidKeys m m = All-map _ _ (λ e. get-tail e.1 o v m) m h.1 in
    update_id-value m r' rest ∙ simp (step-value r.from_id o v m h.0, step-value r.to_id o v m h.0)

get-collect :
    (k : Uuid) (ps : List (Uuid × Uuid)) (m : HashMap Uuid Uuid)
    → IsMap ps
    → get k (collect ps m) ≡ elim (get k ps) [ none ↦ get k m | some v ↦ some v ]
unfolding collect get
get-collect k [] m h = refl
get-collect k ((j, v) ∷ ps) m h =
    ground (arith, get-collect k ps (insert j v m) h.1, get-insert j k v m)

module _ (keys : HashMap Uuid Uuid) where
  insert-AvoidKeys :
      (k v : Uuid) (m : HashMap Uuid Uuid)
      → get v keys ≡ none
      → AvoidKeys keys m
      → AvoidKeys keys (insert k v m)
  unfolding insert
  insert-AvoidKeys k v [] h a = (h, tt)
  insert-AvoidKeys k v ((j, w) ∷ m) h a = elim (Bool-cases (j == k)) [
    | inl e ↦ rw e (h, a.1)
    | inr e ↦ rw e (a.0, insert-AvoidKeys k v m h a.1)
  ]

  collect-AvoidKeys :
      (ps m : HashMap Uuid Uuid)
      → AvoidKeys keys ps
      → AvoidKeys keys m
      → AvoidKeys keys (collect ps m)
  unfolding collect
  collect-AvoidKeys [] m p a = a
  collect-AvoidKeys ((k, v) ∷ ps) m p a =
      collect-AvoidKeys ps (insert k v m) p.1 (insert-AvoidKeys k v m p.0 a)

-- The pairs of old and new ids.
abbrev pairs : List NodeDraft → List NodeSpec → HashMap Uuid Uuid
pairs ds ss = zip (old_ids ds) (map (λ el. el.id) ss)

get-pairs-none :
    (k : Uuid) (ds : List NodeDraft) (ss : List NodeSpec)
    → contains (old_ids ds) k ≡ false
    → get k (pairs ds ss) ≡ none
unfolding get
get-pairs-none k [] ss h = refl
get-pairs-none k (d ∷ ds) [] h = refl
get-pairs-none k (d ∷ ds) (s ∷ ss) h = ground (arith, get-pairs-none k ds ss)

pairs-IsMap :
    (ds : List NodeDraft) (ss : List NodeSpec) → IsUnique (old_ids ds) → IsMap (pairs ds ss)
pairs-IsMap [] ss u = tt
pairs-IsMap (d ∷ ds) [] u = tt
pairs-IsMap (d ∷ ds) (s ∷ ss) u = (get-pairs-none _ ds ss u.0, pairs-IsMap ds ss u.1)

pairs-renamed :
    (k : Uuid) (ds : List NodeDraft) (ss : List NodeSpec)
    → value_or_key (pairs ds ss) k ≡ renamed ds ss k
unfolding get
pairs-renamed k [] ss = refl
pairs-renamed k (d ∷ ds) [] = refl
pairs-renamed k (d ∷ ds) (s ∷ ss) = ground (arith, pairs-renamed k ds ss)

collect-renamed :
    (k : Uuid) (ds : List NodeDraft) (ss : List NodeSpec)
    → IsUnique (old_ids ds)
    → value_or_key (collect (pairs ds ss) []) k ≡ renamed ds ss k
unfolding get
collect-renamed k ds ss u =
    let e = get-collect k (pairs ds ss) [] (pairs-IsMap ds ss u) in
    ground (arith, e, pairs-renamed k ds ss)

map-cong :
    {A B : Type 0} (f g : A → B) (h : (x : A) → f x ≡ g x) (xs : List A) → map f xs ≡ map g xs
map-cong f g h [] = refl
map-cong f g h (x ∷ xs) = ap₂ ◌∷◌ (h x) (map-cong f g h xs)

module _ (fresh : ℕ → Uuid) where
  new_ids-avoid :
      (ks : HashMap Uuid Uuid) (avoid : (m : ℕ) → get (fresh m) ks ≡ none) (ds all : List NodeDraft)
      (n : ℕ)
      → AvoidKeys ks (pairs ds (node_specs_from fresh all n).0)
  unfolding node_specs_from node_spec_from
  new_ids-avoid ks avoid [] all n = tt
  new_ids-avoid ks avoid (d ∷ ds) [] n = tt
  new_ids-avoid ks avoid (d ∷ ds) (e ∷ all) n = (avoid n, new_ids-avoid ks avoid ds all _)

  -- Where no two drafts of nodes have one id and no new id is the id of a draft, the nodes of the
  -- converted workflow are copies of the drafts in order, output slots included, each node under an
  -- id of its own draw and each output slot with one content prepared under an id of its own draw; and
  -- each relation has its ends at the copies of the nodes that it joined, with the same slots.
  pub workflow_spec_from-renamed :
      (l : WorkflowDraftSpec) (n : ℕ)
      → IsUnique (old_ids l.node_drafts)
      → (avoid : (m : ℕ) → contains (old_ids l.node_drafts) (fresh m) ≡ false)
      → AreCopies fresh n l.node_drafts (workflow_spec_from fresh l n).0.node_specs
        × ((workflow_spec_from fresh l n).0.node_relations
            ≡ map
                (with_ends (renamed l.node_drafts (workflow_spec_from fresh l n).0.node_specs))
                l.node_relations)
  unfolding workflow_spec_from get
  workflow_spec_from-renamed l n unique avoid =
      let ds = l.node_drafts in
      let ss = (node_specs_from fresh ds n).0 in
      let m : HashMap Uuid Uuid = collect (pairs ds ss) [] in
      let no_key : (i : ℕ) → get (fresh i) m ≡ none = λ i.
        get-collect (fresh i) (pairs ds ss) [] (pairs-IsMap ds ss unique)
        ∙ rw (get-pairs-none (fresh i) ds ss (avoid i)) refl in
      let apart : AvoidKeys m m =
        collect-AvoidKeys m (pairs ds ss) [] (new_ids-avoid m no_key ds ds n) tt in
      (
        node_specs_from-AreCopies fresh ds n,
        map-cong _ _
            (λ r.
              update_id-value m r apart
              ∙ rw (collect-renamed r.from_id ds ss unique, collect-renamed r.to_id ds ss unique)
                  refl)
            l.node_relations,
      )
