-- ===== src/InfraProfile/Predefined.antt =====
-- internal/infraprofile/profile.go: PredefinedProfiles. A field that the source leaves out has its
-- zero value.
use redis_meter.Base.{true, false, none, some, List, [], ◌∷◌}
use redis_meter.Base.Int.{pos}
use redis_meter.InfraProfile.Model.{AzureConfig, AwsConfig, LocalConfig, ProfileConfig, Profile}

abbrev pub no_azure_config : AzureConfig
no_azure_config = record {
  subscription_id = "";
  resource_group = "";
  location = "";
  instance_name = "";
  data_tier = "";
  sku = "";
  high_availability = false;
  persistence_type = "";
  rdb_frequency = "";
  aof_frequency = "";
  modules = [];
  eviction_policy = "";
  clustering_policy = "";
  non_tls_access_only = false;
  access_keys_auth = false;
  customer_managed_key = false;
  defer_version_updates = false;
  user_assigned_identity_id = "";
  key_input_method = "";
  key_vault_subscription_id = "";
  key_vault_name = "";
  key_name = "";
  key_version = "";
  key_identifier_uri = "";
  active_geo_replication = false;
  geo_replication_group_name = "";
  use_private_endpoint = false;
  allow_public_access = false;
  vm_size = "";
  vm_count = pos 0;
  ssh_key_path = "";
  estimated_monthly_cost = record { units = pos 0; places = 0 };
}

abbrev pub no_aws_config : AwsConfig
no_aws_config = record {
  region = "";
  node_type = "";
  num_cache_nodes = pos 0;
  engine = "";
  engine_version = "";
  parameter_group_family = "";
  cluster_enabled = false;
  num_node_groups = pos 0;
  replicas_per_node_group = pos 0;
  subnet_group_name = "";
  security_group_ids = [];
  ec2_instance_type = "";
  ec2_count = pos 0;
  use_spot_instances = false;
  ssh_key_name = "";
  estimated_monthly_cost = record { units = pos 0; places = 0 };
}

abbrev pub no_local_config : LocalConfig
no_local_config = record { host = ""; port = pos 0; password = ""; tls = false; database = pos 0 }

abbrev pub no_profile_config : ProfileConfig
no_profile_config = record { azure = none; aws = none; gcp = none; local = none; custom = none }

abbrev pub no_profile : Profile
no_profile = record {
  id = "";
  name = "";
  description = "";
  provider = "";
  tags = [];
  created_at = 0;
  updated_at = 0;
  config = no_profile_config;
  last_used_at = none;
  use_count = pos 0;
  is_builtin = false;
}

abbrev pub azure_amr_staging : Profile
azure_amr_staging = record no_profile {
  id = "azure-amr-staging";
  name = "Azure Managed Redis (Staging)";
  description = "Azure Managed Redis with HA for staging environments";
  provider = "azure";
  tags = "staging" ∷ "ha" ∷ "builtin" ∷ [];
  is_builtin = true;
  config = record no_profile_config {
    azure = some (record no_azure_config {
      location = "westus3";
      sku = "Balanced_B1";
      high_availability = true;
      use_private_endpoint = true;
      vm_size = "Standard_D2s_v3";
      vm_count = pos 1;
      estimated_monthly_cost = record { units = pos 150; places = 0 };
    });
  };
}

abbrev pub azure_amr_production : Profile
azure_amr_production = record no_profile {
  id = "azure-amr-production";
  name = "Azure Managed Redis (Production)";
  description = "High-performance Azure Managed Redis with HA and persistence";
  provider = "azure";
  tags = "production" ∷ "enterprise" ∷ "ha" ∷ "builtin" ∷ [];
  is_builtin = true;
  config = record no_profile_config {
    azure = some (record no_azure_config {
      location = "westus3";
      sku = "Balanced_B5";
      high_availability = true;
      persistence_type = "rdb";
      use_private_endpoint = true;
      vm_size = "Standard_D4s_v3";
      vm_count = pos 2;
      estimated_monthly_cost = record { units = pos 500; places = 0 };
    });
  };
}

abbrev pub azure_amr_search : Profile
azure_amr_search = record no_profile {
  id = "azure-amr-search";
  name = "Azure Managed Redis (Search)";
  description = "Azure Managed Redis with RediSearch for vector and full-text search";
  provider = "azure";
  tags = "production" ∷ "search" ∷ "vector" ∷ "builtin" ∷ [];
  is_builtin = true;
  config = record no_profile_config {
    azure = some (record no_azure_config {
      location = "westus3";
      sku = "MemoryOptimized_M10";
      high_availability = true;
      modules = "RediSearch" ∷ "RedisJSON" ∷ [];
      use_private_endpoint = true;
      vm_size = "Standard_D4s_v3";
      vm_count = pos 2;
      estimated_monthly_cost = record { units = pos 800; places = 0 };
    });
  };
}

abbrev pub aws_elasticache_dev : Profile
aws_elasticache_dev = record no_profile {
  id = "aws-elasticache-dev";
  name = "AWS ElastiCache (Development)";
  description = "Low-cost AWS ElastiCache for development";
  provider = "aws";
  tags = "development" ∷ "low-cost" ∷ "builtin" ∷ [];
  is_builtin = true;
  config = record no_profile_config {
    aws = some (record no_aws_config {
      region = "us-east-1";
      node_type = "cache.t3.micro";
      num_cache_nodes = pos 1;
      engine = "redis";
      cluster_enabled = false;
      ec2_instance_type = "t3.small";
      ec2_count = pos 1;
      estimated_monthly_cost = record { units = pos 15; places = 0 };
    });
  };
}

abbrev pub local_redis : Profile
local_redis = record no_profile {
  id = "local-redis";
  name = "Local Redis";
  description = "Local Redis instance for testing";
  provider = "local";
  tags = "local" ∷ "development" ∷ "builtin" ∷ [];
  is_builtin = true;
  config = record no_profile_config {
    local = some (record no_local_config { host = "localhost"; port = pos 6379 });
  };
}

unfoldable pub predefined_profiles : List Profile
predefined_profiles =
    azure_amr_staging ∷ azure_amr_production ∷ azure_amr_search ∷ aws_elasticache_dev ∷ local_redis
    ∷ []
