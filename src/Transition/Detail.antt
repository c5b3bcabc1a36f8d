-- ===== src/Transition/Detail.antt =====
-- What the status of a PodTransitionRule says of a pod (PodTransitionDetail and RejectInfo of
-- kusionstack.io/kube-api), with the reasons that the rules give. (The texts of the reasons are left
-- out.)
use kuperator.Common.{Bool, List, Text, Error}

pub data Reason : Type 0 where
  min_available max_unavailable manual_rejected label_mismatch : Reason
  filter_error : Error → Reason
  polling_lost polling_stopped polling_running polling_started : Reason
  request_failed webhook_rejected empty_task : Reason

pub record RejectInfo : Type 0 where
  pub rule_name : Text
  pub reason : Reason

pub record Detail : Type 0 where
  pub name : Text
  pub stage : Text
  pub passed : Bool
  pub passed_rules : List Text
  pub reject_info : List RejectInfo
