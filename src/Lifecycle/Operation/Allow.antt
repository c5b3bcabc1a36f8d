-- ===== src/Lifecycle/Operation/Allow.antt =====
-- When AllowOps allows an operation, and how long it says to wait.
use kuperator.Common.{
  ℕ, ◌+◌, ◌*◌, ◌<◌, ◌≡◌, ◌↔◌, true, some, arith, Text, lookup, has, parse_int, half_word,
}
use kuperator.Pod.{operate, Names, key, Pod}
use kuperator.Lifecycle.Operation.{Adapter, is_during_ops, allow_ops}

module _ (N : Names) (a : Adapter) where
  -- An operation is allowed exactly if the pod is during it and has its operate label. Neither the
  -- delay nor the time matters.
  pub allow_ops_iff :
      (now delay_seconds : ℕ) (pod : Pod)
      → ((allow_ops N now a delay_seconds pod).1 ≡ true)
        ↔ ((is_during_ops N a pod ≡ true) × (has (key N operate a.id) pod.labels ≡ true))
  unfolding allow_ops
  allow_ops_iff now delay pod = (λ h. ground arith, λ h. ground arith)

  -- The wait that is returned ends when the delay has passed since the start that the label tells.
  pub allow_ops_wait :
      (now delay_seconds wait started : ℕ) (pod : Pod) (start : Text)
      → lookup (key N operate a.id) pod.labels ≡ some start
      → parse_int start ≡ some started
      → started < half_word
      → (allow_ops N now a delay_seconds pod).0 ≡ some wait
      → (0 < wait) × (now + wait ≡ started + delay_seconds * 1_000_000_000)
  unfolding allow_ops
  allow_ops_wait now delay wait started pod start found parsed positive h = ground arith
