-- ===== src/Usecases/Packages.antt =====
-- The packages of a use case: src/lib-co-repo/src/models/package.rs (without the manifest, which is
-- not read after the tar file is) and src/lib-co-repo/src/models/software_computing_usecase.rs.
use kuintessence.Prelude.{Option, none, some, Result, unwrap, ◌>>=◌, ok}
use kuintessence.Workflow.Common.{Uuid}
use kuintessence.Workflow.Instance.{Error}
use kuintessence.Package.Materials.{SoftwareData}
use kuintessence.Package.Usecase.{UsecaseData, ValidateData}
use kuintessence.Usecases.Task.{SoftwareComputingUsecase}

pub data SoftwareUsecaseComputingData : Type 0 where
  software : SoftwareData → SoftwareUsecaseComputingData
  usecase : UsecaseData → SoftwareUsecaseComputingData

pub record PackageFile : Type 0 where
  pub version_id : Uuid
  pub content : SoftwareUsecaseComputingData

abbrev pub software_package_data : PackageFile → Option (Uuid × SoftwareData)
software_package_data x = elim x.content [
  | SoftwareUsecaseComputingData.software software_data ↦ some (x.version_id, software_data)
  | SoftwareUsecaseComputingData.usecase usecase_data ↦ none
]

abbrev pub usecase_package_data : PackageFile → Option (Uuid × UsecaseData)
usecase_package_data x = elim x.content [
  | SoftwareUsecaseComputingData.software software_data ↦ none
  | SoftwareUsecaseComputingData.usecase usecase_data ↦ some (x.version_id, usecase_data)
]

-- `Option::or`
abbrev pub or_else : {A : Type 0} → Option A → Option A → Option A
or_else none y = y
or_else (some x) y = some x

abbrev pub assembled : Uuid → Uuid → ValidateData → SoftwareComputingUsecase
assembled usecase_version_id software_version_id x = record {
  usecase_version_id = usecase_version_id;
  software_version_id = software_version_id;
  usecase_spec = x.usecase_data.spec;
  software_spec = x.software_data.spec;
  arguments = x.software_data.arguments;
  environments = x.software_data.environments;
  filesome_inputs = x.software_data.filesome_inputs;
  collected_outs = x.usecase_data.collected_outs;
  filesome_outputs = x.software_data.filesome_outputs;
  template_file_infos = x.usecase_data.template_file_infos;
}

-- The two packages in either order.
unfoldable pub extract_packages : PackageFile → PackageFile → Result Error SoftwareComputingUsecase
extract_packages p1 p2 =
    unwrap (or_else (usecase_package_data p1) (usecase_package_data p2)) >>= λ u.
    unwrap (or_else (software_package_data p1) (software_package_data p2)) >>= λ s.
    ok (assembled u.0 s.0 (record { software_data = s.1; usecase_data = u.1 }))
