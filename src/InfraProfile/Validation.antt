-- ===== src/InfraProfile/Validation.antt =====
-- internal/infraprofile/profile.go: Validate of a profile and of each configuration.
use redis_meter.Base.{
  Bool, true, false, ◌||◌, not, Option, none, some, List, [], ◌∷◌, String, str_eq, ◌==◌,
  if◌then◌else◌, any,
}
use redis_meter.Base.Int.{ℤ, pos, int_lt}
use redis_meter.Base.Text.{Text, codes}
use redis_meter.InfraProfile.Model.{
  AzureConfig, AwsConfig, GcpConfig, LocalConfig, CustomConfig, Profile,
}

pub data Invalid : Type 0 where
  no_name no_provider : Invalid
  no_config unknown_provider : String → Invalid
  no_location no_sku : Invalid
  bad_sku : String → Invalid
  no_region no_node_type too_few_nodes no_tier too_little_memory no_host bad_port : Invalid

-- `len(s) > len(family) && s[:len(family)] == family`
unfoldable pub extends : Text → Text → Bool
extends [] [] = false
extends [] (c ∷ s) = true
extends (f ∷ fs) [] = false
extends (f ∷ fs) (c ∷ s) = let rest = extends fs s in if f == c then rest else false

unfoldable pub families : List Text
families =
    codes "Balanced_B"
    ∷ codes "ComputeOptimized_X"
    ∷ codes "MemoryOptimized_M"
    ∷ codes "FlashOptimized_F"
    ∷ []

unfoldable pub valid_sku : String → Bool
valid_sku sku = any (λ family. extends family (codes sku)) families

-- The first check that fails; `none` if all pass.
abbrev pub fails : Bool → Invalid → Option Invalid → Option Invalid
fails true e rest = some e
fails false e rest = rest

abbrev pub empty : String → Bool
empty s = str_eq s ""

unfoldable pub validate_azure : AzureConfig → Option Invalid
validate_azure c = fails (empty c.location) Invalid.no_location (
    fails (empty c.sku) Invalid.no_sku (fails (not (valid_sku c.sku)) (Invalid.bad_sku c.sku) none))

unfoldable pub validate_aws : AwsConfig → Option Invalid
validate_aws c = fails (empty c.region) Invalid.no_region (
    fails (empty c.node_type) Invalid.no_node_type
      (fails (int_lt c.num_cache_nodes (pos 1)) Invalid.too_few_nodes none))

unfoldable pub validate_gcp : GcpConfig → Option Invalid
validate_gcp c = fails (empty c.region) Invalid.no_region (
    fails (empty c.tier) Invalid.no_tier
      (fails (int_lt c.memory_size_gb (pos 1)) Invalid.too_little_memory none))

abbrev pub bad_port_number : ℤ → Bool
bad_port_number port = int_lt port (pos 1) || int_lt (pos 65535) port

unfoldable pub validate_local : LocalConfig → Option Invalid
validate_local c =
    fails (empty c.host) Invalid.no_host (fails (bad_port_number c.port) Invalid.bad_port none)

unfoldable pub validate_custom : CustomConfig → Option Invalid
validate_custom c =
    fails (empty c.host) Invalid.no_host (fails (bad_port_number c.port) Invalid.bad_port none)

abbrev pub validate_if {ℓ} :
    {C : Type ℓ} → String → Option C → (C → Option Invalid) → Option Invalid
validate_if provider none check = some (Invalid.no_config provider)
validate_if provider (some c) check = check c

unfoldable pub validate_config : Profile → Option Invalid
validate_config p =
    if str_eq p.provider "azure"
    then validate_if "azure" p.config.azure validate_azure
    else if str_eq p.provider "aws"
    then validate_if "aws" p.config.aws validate_aws
    else if str_eq p.provider "gcp"
    then validate_if "gcp" p.config.gcp validate_gcp
    else if str_eq p.provider "local"
    then validate_if "local" p.config.local validate_local
    else if str_eq p.provider "custom"
    then validate_if "custom" p.config.custom validate_custom
    else some (Invalid.unknown_provider p.provider)

unfoldable pub validate : Profile → Option Invalid
validate p =
    fails (empty p.name) Invalid.no_name
      (fails (empty p.provider) Invalid.no_provider (validate_config p))
