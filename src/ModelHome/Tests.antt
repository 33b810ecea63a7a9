-- ===== src/ModelHome/Tests.antt =====
-- The home pose of a model that is not listed, on whole numbers.
use hydra_umc_server.Prelude.{ℕ, ◌+◌, ok, [], ◌≡◌, refl, leb, lookup}
use hydra_umc_server.Robots.{Numbers}
use hydra_umc_server.ModelHome.{
  Six, not_sent, home_for, has_joint_out_of_range, check_sent, resolve_home,
}

-- Numbers whose negation is 0: the ranges are from 0 up.
abbrev whole : Numbers ℕ
whole = record {
  of_nat = λ n. n;
  hundredths = λ n. n;
  plus = ◌+◌;
  neg = λ _. 0;
  abs = λ n. n;
  le = leb;
}

abbrev home : Six ℕ
home = record { j1 = 0; j2 = 0; j3 = 45; j4 = 0; j5 = 90; j6 = 0 }

home_example : resolve_home whole (λ s. s) [] "m" not_sent ≡ ok home
unfolding resolve_home home_for has_joint_out_of_range check_sent lookup
home_example = refl
