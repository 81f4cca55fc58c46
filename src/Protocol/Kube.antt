-- ===== src/Protocol/Kube.antt =====
-- shared/src/lib.rs: the records that Kubernetes messages carry.
use shellfleet.Common.{ℕ, String, Option, List}
use shellfleet.Common.Int.{ℤ}

pub record K8sDeployment : Type 0 where
  pub namespace : String
  pub name : String
  pub ready : String
  pub up_to_date : ℤ
  pub available : ℤ
  pub age_secs : ℤ
  pub image : Option String

pub record K8sService : Type 0 where
  pub namespace : String
  pub name : String
  pub kind : String
  pub cluster_ip : Option String
  pub external_ips : List String
  pub ports : List String
  pub age_secs : ℤ

pub record K8sIngress : Type 0 where
  pub namespace : String
  pub name : String
  pub class : Option String
  pub hosts : List String
  pub addresses : List String
  pub age_secs : ℤ

pub record K8sPvc : Type 0 where
  pub namespace : String
  pub name : String
  pub status : String
  pub volume_name : Option String
  pub capacity : Option String
  pub access_modes : List String
  pub storage_class : Option String
  pub age_secs : ℤ

pub record K8sEvent : Type 0 where
  pub namespace : String
  pub kind : String
  pub reason : String
  pub object : String
  pub message : String
  pub count : ℤ
  pub age_secs : ℤ

pub record K8sPod : Type 0 where
  pub namespace : String
  pub name : String
  pub phase : String
  pub ready : String
  pub restarts : ℕ
  pub age_secs : ℤ
  pub node : Option String
  pub containers : List String
