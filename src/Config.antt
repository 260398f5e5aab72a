-- ===== src/Config.antt =====
-- The runtime configuration of a project (gosrc/parser/args.go). Ports and timeouts are Go `int`s,
-- so they may be negative.
pub mod Args
pub mod Flags
use cicd.Prelude.{Bool, Text, ℤ}

pub record Config : Type 0 where
  pub setup : Text
  pub repo_url : Text
  pub branch : Text
  pub admin_email : Text
  pub mongo_db_uri : Text
  pub git_username : Text
  pub git_password : Text
  pub smtp_host : Text
  pub smtp_port : ℤ
  pub smtp_user : Text
  pub smtp_pass : Text
  pub user : Text
  pub sudo_pass : Text
  pub service_name : Text
  pub service_dir : Text
  pub service_user : Text
  pub service_reset : Text
  pub webhook : ℤ
  pub webhook_secret : Text
  pub public_ip : Text
  pub notify_url : Text
  pub deploy_timeout : ℤ
  pub skip_install_hash : Bool
