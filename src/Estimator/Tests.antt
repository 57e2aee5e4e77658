-- ===== src/Estimator/Tests.antt =====
-- estimators.go at concrete inputs, over a moving average that keeps the last value.
use sourcegraph_testing_dnsc.Base.{List, [], refl, ℕ, ◌∷◌, ◌≡◌}
use sourcegraph_testing_dnsc.Estimator.{
  Adjustment, IsStep, MovingAverage, apply, blind, new_question_size_estimator, run, run_sizes,
  sample,
}

abbrev last_value : MovingAverage
last_value = record {
  Average = ℕ;
  zero_average = 0;
  assign = λ n a. n;
  add = λ n a. n;
  value_of = λ a. a;
}

abbrev history : List Adjustment
history = blind ∷ blind ∷ sample 600 ∷ []

after_history :
    (run last_value history (new_question_size_estimator last_value)).min_question_size ≡ 1024
unfolding run apply new_question_size_estimator
after_history = refl

run_sizes_example :
    IsStep (run last_value history (new_question_size_estimator last_value)).min_question_size
run_sizes_example = run_sizes last_value history
