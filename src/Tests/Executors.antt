-- ===== src/Tests/Executors.antt =====
-- An executor that has started three blocks, one of which the provider has refused.
use talents_parsl_checkpoint.Prelude.{
  All, false, ℕ, ◌≡◌, refl, Bool, true, none, some, List, [], ◌∷◌, length, arith, count,
}
use talents_parsl_checkpoint.Jobs.Failures.{running, scaled_in}
use talents_parsl_checkpoint.Jobs.Blocks.{
  BlockProviderExecutor, launch_block, scale_out_facade, fill, poll_facade, active_blocks, find_all,
  filter_scale_in_ids, scale_in, mark_scaled_in, scale_in_facade,
}
use talents_parsl_checkpoint.Jobs.Blocks.Dicts.{find, put, keys, merge}
use talents_parsl_checkpoint.Jobs.Blocks.Linked.{IsLinked, IsNewJobs}
use talents_parsl_checkpoint.Jobs.Blocks.Scaled.{IsScaledIn, scale_in_facade_total}
use talents_parsl_checkpoint.Jobs.Blocks.History.{
  Scaling, scales_out, polls, scales_in, perform, perform_all, IsKeptBy, IsReliable,
  perform_all-IsLinked, scaled_in_stays,
}
use talents_parsl_checkpoint.Jobs.Poller.{close, close_total}
use talents_parsl_checkpoint.Jobs.Blocks.Lives.{Advances, life, perform_all-Advances}

abbrev empty_executor : BlockProviderExecutor
empty_executor = record {
  next_block = 0;
  blocks_to_job_id = [];
  job_ids_to_block = [];
  simulated_status = [];
  status = [];
}

kill_all : List ℕ → List Bool
kill_all [] = []
kill_all (j ∷ js) = true ∷ kill_all js

length-kill_all : (js : List ℕ) → length (kill_all js) ≡ length js
unfolding kill_all
length-kill_all [] = refl
length-kill_all (j ∷ js) = omega (arith, length-kill_all js)

empty-IsLinked : IsLinked empty_executor
unfolding find keys
empty-IsLinked = record {
  active = λ b x e live. cc;
  back = λ b j e. cc;
  sticky = λ b x e. cc;
  terminal = λ b x e. cc;
  once = λ k. omega arith;
  once_status = λ k. omega arith;
  fresh_status = λ b le. refl;
  fresh_simulated = λ b le. refl;
  fresh_block = λ b le. refl;
}

abbrev calls : List Scaling
calls =
    scales_out (some 7 ∷ none ∷ some 8 ∷ [])
    ∷ polls (running ∷ running ∷ [])
    ∷ scales_in 1 kill_all
    ∷ []

calls-IsReliable : IsReliable calls empty_executor
unfolding IsReliable IsKeptBy IsNewJobs launch_block find put
calls-IsReliable = ((refl, (refl, tt)), (tt, (length-kill_all, tt)))

abbrev executor : BlockProviderExecutor
executor = perform_all calls empty_executor

executor-IsLinked : IsLinked executor
executor-IsLinked = perform_all-IsLinked calls empty_executor calls-IsReliable empty-IsLinked

perform_all-IsLinked_example : IsLinked (perform_all calls empty_executor)
perform_all-IsLinked_example =
    perform_all-IsLinked calls empty_executor calls-IsReliable empty-IsLinked

scale_in_facade_total_example :
    (ids : List ℕ) × (s' : BlockProviderExecutor) × (scale_in_facade 5 kill_all executor
      ≡ some (ids, s'))
    × IsScaledIn 5 kill_all executor ids s'
scale_in_facade_total_example =
    scale_in_facade_total 5 kill_all executor executor-IsLinked length-kill_all

abbrev later : List Scaling
later = polls (running ∷ running ∷ []) ∷ []

later-IsReliable : IsReliable later executor
unfolding IsReliable IsKeptBy
later-IsReliable = (tt, tt)

first_gone : find 0 executor.simulated_status ≡ some scaled_in
unfolding perform_all perform launch_block scale_out_facade fill poll_facade active_blocks find_all
    filter_scale_in_ids scale_in mark_scaled_in scale_in_facade find put keys merge kill_all
first_gone = refl

scaled_in_stays_example :
    (find 0 (perform_all later executor).status ≡ some scaled_in)
    × (count 0 (active_blocks (perform_all later executor).status) ≡ 0)
scaled_in_stays_example =
    scaled_in_stays 0 later executor later-IsReliable executor-IsLinked first_gone

perform_all-Advances_example : Advances (life 0 empty_executor) (life 0 executor)
perform_all-Advances_example =
    perform_all-Advances 0 calls empty_executor calls-IsReliable empty-IsLinked

kill_all-All : (js : List ℕ) → All (λ f. f ≡ true) (kill_all js)
unfolding kill_all
kill_all-All [] = tt
kill_all-All (j ∷ js) = (refl, kill_all-All js)

close_total_example :
    (s' : BlockProviderExecutor) × (close false kill_all executor ≡ some s')
    × (active_blocks s'.status ≡ [])
close_total_example = close_total kill_all executor executor-IsLinked length-kill_all kill_all-All
