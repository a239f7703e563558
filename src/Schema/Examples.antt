-- ===== src/Schema/Examples.antt =====
-- A deployment with a blank public address, and the ports of a service.
use confidential_agent.Common.{ℕ, none, some, List, [], ◌∷◌, ◌≡◌, ◌↔◌, refl, Any, contains}
use confidential_agent.Common.Text
use confidential_agent.Common.Text.{trim, trim_start, keep, trim_end_matches}
use confidential_agent.Spec.Types.{plain, ConnectPort}
use confidential_agent.Spec.Ports.{connect_ports}
use confidential_agent.Schema.{
  LocalDeployState, filled, preferred_injection_ip, without, insert_port, sort, dedup_after, dedup,
  confidential_ports,
}
use confidential_agent.Schema.Addresses.{Chosen, preferred_injection_ip_iff}
use confidential_agent.Schema.Confidential.{IsIncreasing, confidential_ports_lem}

abbrev deployed : LocalDeployState
deployed = record {
  provider = "aliyun";
  run_id = "run-1";
  resource_name = "web";
  terraform_dir = none;
  image_source = none;
  image_import_name = none;
  bucket = none;
  instance_id = none;
  security_group_id = none;
  private_ip = some "10.0.0.5";
  public_ip = some " ";
  tee = "tdx";
  published_image_id = none;
  instance_ids = [];
  instance_private_ips = [];
  instance_public_ips = [];
  slb_vip = none;
}

runs : Unit {0}
unfolding filled preferred_injection_ip trim trim_start keep trim_end_matches Text.is_empty without
    insert_port sort dedup_after dedup confidential_ports contains
runs = tt

private_address :
    (preferred_injection_ip deployed ≡ some "10.0.0.5")
    × (confidential_ports (9000 ∷ 8443 ∷ 80 ∷ 9000 ∷ []) (plain 8443 ∷ []) ≡ 80 ∷ 9000 ∷ [])
unfolding runs
private_address = (refl, refl)

preferred_injection_ip_iff_example :
    (preferred_injection_ip deployed ≡ some "10.0.0.5") ↔ Chosen deployed "10.0.0.5"
preferred_injection_ip_iff_example = preferred_injection_ip_iff deployed "10.0.0.5"

abbrev ports : List ℕ
ports = 9000 ∷ 8443 ∷ 80 ∷ 9000 ∷ []

abbrev connect : List ConnectPort
connect = plain 8443 ∷ []

confidential_ports_lem_example :
    IsIncreasing (confidential_ports ports connect)
    × ((p : ℕ)
        → Any (λ q. q ≡ p) (confidential_ports ports connect)
          ↔ (Any (λ q. q ≡ p) ports × ¬ Any (λ q. q ≡ p) (connect_ports connect)))
confidential_ports_lem_example = confidential_ports_lem ports connect
