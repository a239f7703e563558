-- ===== src/Spec/Examples.antt =====
-- Parts of specs: ports, a container, resources, an attestation, URLs.
use confidential_agent.Common.{ℕ, true, false, none, some, List, [], ◌∷◌, ◌≡◌, ◌↔◌, ok}
use confidential_agent.Spec.Types.{
  ConnectPort, plain, config, ohttp, BuildContainerSpec, runtime, podman, always, ResourceSpec,
  AttestationSpec, RekorSpec, tdx, trustee, rekor,
}
use confidential_agent.Common.BTree.{BTreeMap}
use confidential_agent.Spec.Container.{validate_build_container}
use confidential_agent.Spec.Container.Validity.{IsContainer, validate_build_container_iff}

abbrev ports : List ℕ
ports = 8443 ∷ 9000 ∷ 9001 ∷ []

abbrev connect : List ConnectPort
connect = plain 8443 ∷ config 9000 ohttp ∷ []

abbrev container : BuildContainerSpec
container = record {
  image = some "registry.example/app:1.2";
  archive = none;
  mode = runtime;
  runtime = podman;
  name = some "app";
  pull = always;
  command = "serve" ∷ [];
  env = ("MODE", "prod") ∷ [];
  working_dir = some "/srv";
  network = some true;
  mounts = record { source = "/data"; target = "/srv/data"; read_only = true } ∷ [];
}

abbrev resources : BTreeMap ResourceSpec
resources =
    (
      "model-key",
      record {
        source = "/project/model.key";
        target = "/run/model.key";
        owner = none;
        group = none;
        mode = none;
        required = true;
        mutable = false;
      },
    )
    ∷ []

abbrev entry : RekorSpec
entry = record {
  artifact_id = none;
  artifact_type = "image";
  artifact_version = none;
  rekor_url = "https://rekor.sigstore.dev";
  cosign_key = some "/project/cosign.key";
  slsa_generator = "/project/slsa-generator";
  rv_name = none;
  required = true;
}

abbrev attestation : AttestationSpec
attestation = record { tee = tdx; mode = trustee; reference_values = rekor; rekor = some entry }

validate_build_container_iff_example :
    (validate_build_container container ≡ ok tt) ↔ IsContainer container
validate_build_container_iff_example = validate_build_container_iff container
