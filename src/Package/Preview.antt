-- ===== src/Package/Preview.antt =====
-- The command preview: src/lib-co-repo/src/models/command_preview.rs. A HashMap and a BTreeMap are
-- the lists of their entries, the latter in the order of the keys.
use kuintessence.Prelude.{ℕ, String, Bool, List, [], ◌∷◌, ◌==◌, if◌then◌else◌}
use kuintessence.Workflow.Common.{HashMap}
use kuintessence.Package.Materials.{SoftwareSpec}

pub data InDescriptor : Type 0 where
  template : (descriptor : String) → InDescriptor
  input_slot : (descriptor : String) → InDescriptor
  nothing : InDescriptor

pub data FileInfoPreview : Type 0 where
  dynamic_input : (from : InDescriptor) → FileInfoPreview
  const_input :
      (from : InDescriptor) (input_material_descriptor : String) (path : String) → FileInfoPreview
  dynamic_output : (from : InDescriptor) (output_material_descriptor : String) → FileInfoPreview
  const_output : (output_material_descriptor : String) (path : String) → FileInfoPreview

pub record FormatFillPreview : Type 0 where
  pub format : String
  pub placeholder_fill_map : HashMap ℕ InDescriptor

pub data PreviewCollectFrom : Type 0 where
  file_out : (output_material_descriptor : String) → PreviewCollectFrom
  stdout stderr : PreviewCollectFrom

pub data PreviewCollectTo : Type 0 where
  file : (path : String) → PreviewCollectTo
  text : PreviewCollectTo

pub data PreviewCollectRule : Type 0 where
  regex : (pattern : String) → PreviewCollectRule
  bottom_lines top_lines : (count : ℕ) → PreviewCollectRule

pub record CollectPreview : Type 0 where
  pub from : PreviewCollectFrom
  pub rule : PreviewCollectRule
  pub to : PreviewCollectTo
  pub optional : Bool

pub data FacilityKind : Type 0 where
  spack : (name : String) (argument_list : List String) → FacilityKind
  singularity : (image : String) (tag : String) → FacilityKind

-- `From<SoftwareSpec> for FacilityKind`
unfoldable pub facility_from : SoftwareSpec → FacilityKind
facility_from (SoftwareSpec.spack name argument_list) = FacilityKind.spack name argument_list
facility_from (SoftwareSpec.singularity image tag) = FacilityKind.singularity image tag

pub record CommandPreview : Type 0 where
  pub software_facility : FacilityKind
  pub command_name : String
  pub argument_formats_sorts : HashMap ℕ FormatFillPreview
  pub environment_formats : HashMap String FormatFillPreview
  pub templates_kv_map : HashMap String (HashMap String InDescriptor)
  pub std_in : InDescriptor
  pub file_infos : List FileInfoPreview
  pub collect_previews : List CollectPreview

-- `map.insert(key, value)` and `*map.entry(key).or_insert(start)` updated by `f`, for keys that
-- `eq` compares.
module _ {K V : Type 0} (eq : K → K → Bool) where
  abbrev pub map_insert : K → V → HashMap K V → HashMap K V
  map_insert k v [] = (k, v) ∷ []
  map_insert k v ((j, w) ∷ m) = if eq j k then (k, v) ∷ m else (j, w) ∷ map_insert k v m

  abbrev pub entry : K → V → (V → V) → HashMap K V → HashMap K V
  entry k start f [] = (k, f start) ∷ []
  entry k start f ((j, w) ∷ m) = if eq j k then (j, f w) ∷ m else (j, w) ∷ entry k start f m

-- `.placeholder_fill_map.insert(nth, from)`
abbrev pub fill : ℕ → InDescriptor → FormatFillPreview → FormatFillPreview
fill nth from x = record x {
  placeholder_fill_map = map_insert ◌==◌ nth from x.placeholder_fill_map;
}
