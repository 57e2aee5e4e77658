-- ===== src/Estimator.antt =====
-- dnscrypt-proxy/estimators.go: the least size of a question, doubled after a failure and halved when
-- the moving average of the sizes seen is low. The moving average is of another library: a type with
-- its operations, where `value` is the average as an `int`.
mod Tests
use sourcegraph_testing_dnsc.Base.{
  List, [], arith, if◌then◌else◌, inl, ltb, refl, ℕ, ◌&&◌, ◌*◌, ◌-◌, ◌/◌, ◌∷◌, ◌≡◌, ◌⊎◌,
}
use sourcegraph_testing_dnsc.Common.{initial_min_question_size, max, max_dns_udp_packet_size}

pub record MovingAverage : Type 1 where
  pub Average : Type 0
  pub zero_average : Average
  pub assign : ℕ → Average → Average
  pub add : ℕ → Average → Average
  pub value_of : Average → ℕ

pub record QuestionSizeEstimator (A : Type 0) : Type 0 where
  pub min_question_size : ℕ
  pub ewma : A

-- The operations in the order in which the proxy makes them.
pub data Adjustment : Type 0 where
  blind : Adjustment
  sample : ℕ → Adjustment

-- The size is one of four.
abbrev pub IsStep : ℕ → Type 0
IsStep n = (n ≡ 512) ⊎ ((n ≡ 1024) ⊎ ((n ≡ 2048) ⊎ (n ≡ 4096)))

module _ (m : MovingAverage) where
  open m use {Average, zero_average, assign, add, value_of}

  unfoldable pub new_question_size_estimator : QuestionSizeEstimator Average
  new_question_size_estimator = record {
    min_question_size = initial_min_question_size;
    ewma = zero_average;
  }

  -- `MaxDNSUDPPacketSize - min < min`: a difference below 0 is less than `min` too.
  unfoldable pub blind_adjust : QuestionSizeEstimator Average → QuestionSizeEstimator Average
  blind_adjust e =
      let size =
        if ltb (max_dns_udp_packet_size - e.min_question_size) e.min_question_size
        then max_dns_udp_packet_size
        else e.min_question_size * 2 in
      record { min_question_size = size; ewma = assign size e.ewma }

  unfoldable pub adjust : ℕ → QuestionSizeEstimator Average → QuestionSizeEstimator Average
  unfolding max
  adjust packet_size e =
      let ewma' = add packet_size e.ewma in
      let ma = value_of ewma' in
      let size = e.min_question_size in
      record {
        min_question_size =
            (if ltb initial_min_question_size ma && ltb ma (size / 2)
              then max initial_min_question_size (size / 2)
              else size);
        ewma = ewma';
      }

  pub apply : Adjustment → QuestionSizeEstimator Average → QuestionSizeEstimator Average
  unfolding blind_adjust adjust
  apply blind e = blind_adjust e
  apply (sample n) e = adjust n e

  pub run : List Adjustment → QuestionSizeEstimator Average → QuestionSizeEstimator Average
  run [] e = e
  run (a ∷ as') e = run as' (apply a e)

  apply-IsStep :
      (a : Adjustment) (e : QuestionSizeEstimator Average)
      → IsStep e.min_question_size
      → IsStep (apply a e).min_question_size
  unfolding apply
  apply-IsStep blind e h = ground arith
  apply-IsStep (sample n) e h = ground arith

  run-IsStep :
      (l : List Adjustment) (e : QuestionSizeEstimator Average)
      → IsStep e.min_question_size
      → IsStep (run l e).min_question_size
  unfolding run
  run-IsStep [] e h = h
  run-IsStep (a ∷ l) e h = run-IsStep l (apply a e) (apply-IsStep a e h)

  -- After any sequence of adjustments of a new estimator the least question size is 512, 1024, 2048
  -- or 4096.
  pub run_sizes :
      (l : List Adjustment) → IsStep (run l new_question_size_estimator).min_question_size
  run_sizes l = unfold new_question_size_estimator in run-IsStep l _ (inl refl)

  -- Three failures in a row reach the largest packet from any reachable size.
  pub run_blind :
      (l : List Adjustment)
      → (run (blind ∷ blind ∷ blind ∷ []) (run l new_question_size_estimator)).min_question_size
        ≡ max_dns_udp_packet_size
  unfolding run apply
  run_blind l = ground (arith, run_sizes l)
