-- ===== src/Recorder/Protocol/Threads.antt =====
-- Sums over the producers' threads.
use pin_bridge.Common.{
  ℕ, ◌+◌, ◌≤◌, ◌<◌, ◌≡◌, refl, sum_over, sum_over-update, weight_of_sum_over, sum_over_zero,
}
use pin_bridge.Recorder.Protocol.{Producer, idle, arrived, update}

-- A thread that IN_FLIGHT counts.
abbrev pub weight : Producer → ℕ
weight idle = 0
weight (arrived _) = 0
weight _ = 1

abbrev pub total : ℕ → (ℕ → Producer) → ℕ
total n f = sum_over weight n f

pub total-update :
    (n : ℕ) (f : ℕ → Producer) (i : ℕ) (p : Producer)
    → i < n
    → total n (update f i p) + weight (f i) ≡ total n f + weight p
total-update n f i p h = sum_over-update weight n f i p h

pub weight_of_total : (n : ℕ) (f : ℕ → Producer) (i : ℕ) → i < n → weight (f i) ≤ total n f
weight_of_total n f i h = weight_of_sum_over weight n f i h

pub total-idle : (n : ℕ) → total n (λ _. idle) ≡ 0
total-idle n = sum_over_zero weight n idle refl
