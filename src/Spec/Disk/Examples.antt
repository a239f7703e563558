-- ===== src/Spec/Disk/Examples.antt =====
-- Sizes of the repository's own tests.
use confidential_agent.Spec.Disk.{gib, u32_max}
use confidential_agent.Spec.Disk.Sizes.{IsSize, configured_image_disk_gb_lem}
use confidential_agent.Common.{ℕ, ◌≤◌, ◌<◌, ◌*◌, ◌+◌, ◌≡◌, refl, Problem, ok, err, bad}
use confidential_agent.Common.Text.{
  trim, span, split_once, lower_eq, parse_unsigned, all_chars, is_empty,
}
use confidential_agent.Spec.Disk.{
  resize_field, configured_image_disk_gb, unit_multiplier, parts_of_number, size_bytes, ceil_gib,
}

runs : Unit {0}
unfolding configured_image_disk_gb unit_multiplier parts_of_number size_bytes ceil_gib trim span
    split_once lower_eq parse_unsigned all_chars is_empty
runs = tt

sizes :
    (configured_image_disk_gb "80G" ≡ ok 75)
    × (configured_image_disk_gb "80.5GiB" ≡ ok 81)
    × (configured_image_disk_gb "85899345921B" ≡ ok 81)
    × (configured_image_disk_gb "81920 MiB" ≡ ok 80)
unfolding runs
sizes = (refl, refl, refl, refl)

refused :
    (configured_image_disk_gb "" ≡ err (bad resize_field Problem.syntax))
    × (configured_image_disk_gb "1PB" ≡ err (bad resize_field Problem.unsupported))
    × (configured_image_disk_gb "1.2.3G" ≡ err (bad resize_field Problem.syntax))
unfolding runs
refused = (refl, refl, refl)

size_of_80g : configured_image_disk_gb "80G" ≡ ok 75
unfolding runs
size_of_80g = refl

configured_image_disk_gb_lem_example :
    (bytes : ℕ) × IsSize "80G" bytes
    × (bytes ≤ 75 * gib)
    × (75 * gib < bytes + gib)
    × (0 < 75)
    × (75 ≤ u32_max)
configured_image_disk_gb_lem_example = configured_image_disk_gb_lem "80G" 75 size_of_80g
