-- ===== src/InfraProfile/Model.antt =====
-- internal/infraprofile/profile.go: the profiles. A time is in nanoseconds, 0 is the zero time; a
-- cost is its decimal digits (Decimal), and nothing computes with it.
use redis_meter.Base.{ℕ, Bool, Option, List, String}
use redis_meter.Base.Int.{ℤ, Decimal}

-- The type `Provider` is a string with five named values.
abbrev pub Provider : Type 0
Provider = String

pub record AzureConfig : Type 0 where
  pub subscription_id : String
  pub resource_group : String
  pub location : String
  pub instance_name : String
  pub data_tier : String
  pub sku : String
  pub high_availability : Bool
  pub persistence_type : String
  pub rdb_frequency : String
  pub aof_frequency : String
  pub modules : List String
  pub eviction_policy : String
  pub clustering_policy : String
  pub non_tls_access_only : Bool
  pub access_keys_auth : Bool
  pub customer_managed_key : Bool
  pub defer_version_updates : Bool
  pub user_assigned_identity_id : String
  pub key_input_method : String
  pub key_vault_subscription_id : String
  pub key_vault_name : String
  pub key_name : String
  pub key_version : String
  pub key_identifier_uri : String
  pub active_geo_replication : Bool
  pub geo_replication_group_name : String
  pub use_private_endpoint : Bool
  pub allow_public_access : Bool
  pub vm_size : String
  pub vm_count : ℤ
  pub ssh_key_path : String
  pub estimated_monthly_cost : Decimal

pub record AwsConfig : Type 0 where
  pub region : String
  pub node_type : String
  pub num_cache_nodes : ℤ
  pub engine : String
  pub engine_version : String
  pub parameter_group_family : String
  pub cluster_enabled : Bool
  pub num_node_groups : ℤ
  pub replicas_per_node_group : ℤ
  pub subnet_group_name : String
  pub security_group_ids : List String
  pub ec2_instance_type : String
  pub ec2_count : ℤ
  pub use_spot_instances : Bool
  pub ssh_key_name : String
  pub estimated_monthly_cost : Decimal

pub record GcpConfig : Type 0 where
  pub project_id : String
  pub region : String
  pub zone : String
  pub tier : String
  pub memory_size_gb : ℤ
  pub redis_version : String
  pub display_name : String
  pub authorized_network : String
  pub connect_mode : String
  pub machine_type : String
  pub vm_count : ℤ
  pub preemptible : Bool
  pub estimated_monthly_cost : Decimal

pub record LocalConfig : Type 0 where
  pub host : String
  pub port : ℤ
  pub password : String
  pub tls : Bool
  pub database : ℤ

pub record CustomConfig : Type 0 where
  pub host : String
  pub port : ℤ
  pub password : String
  pub username : String
  pub tls : Bool
  pub cluster : Bool
  pub ssh_host : String
  pub ssh_port : ℤ
  pub ssh_user : String
  pub ssh_key_path : String
  pub notes : String

pub record ProfileConfig : Type 0 where
  pub azure : Option AzureConfig
  pub aws : Option AwsConfig
  pub gcp : Option GcpConfig
  pub local : Option LocalConfig
  pub custom : Option CustomConfig

pub record Profile : Type 0 where
  pub id : String
  pub name : String
  pub description : String
  pub provider : Provider
  pub tags : List String
  pub created_at : ℕ
  pub updated_at : ℕ
  pub config : ProfileConfig
  pub last_used_at : Option ℕ
  pub use_count : ℤ
  pub is_builtin : Bool
