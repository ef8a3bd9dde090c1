-- ===== src/Examples/Sandbox.antt =====
-- The output of a command, in chunks.
use deep_agent_cli.Prelude.{
  ℕ, ◌≡◌, inr, refl, none, some, List, [], ◌∷◌, nat_comparable, text_comparable,
}
use deep_agent_cli.Sandbox.Output.{
  Codec, Files, Collector, collect, append, fresh_collector, drop_partial_character_head,
  effective_timeout,
}
use deep_agent_cli.Sandbox.Tail.{IsKept}
use deep_agent_cli.Sandbox.Log.{all_bytes, collect_fresh-IsKept}

-- A codec that shows nothing.
abbrev silent : Codec ℕ
silent = record {
  decode = λ n bytes. ("", n);
  last_text = λ n. "";
  snapshot = λ bytes. "tail";
  decode_all = λ bytes. "";
}

abbrev good_disk : Files
good_disk = record { created = inr "run.log"; write_error = none }

abbrev chunks : List (Files × List ℕ)
chunks = (good_disk, 65 ∷ 66 ∷ []) ∷ (good_disk, 226 ∷ 130 ∷ 172 ∷ 67 ∷ []) ∷ []

abbrev collected : Collector ℕ
collected = collect silent chunks (fresh_collector 3 0)

-- The cut goes through a character of three bytes, whose rest is dropped.
tail_test : collected.tail_bytes ≡ 67 ∷ []
unfolding collect append drop_partial_character_head
tail_test = refl

log_test : collected.log ≡ some (65 ∷ 66 ∷ 226 ∷ 130 ∷ 172 ∷ 67 ∷ [])
unfolding collect append drop_partial_character_head
log_test = refl

collect_fresh-IsKept_example : IsKept (all_bytes chunks) collected
collect_fresh-IsKept_example = collect_fresh-IsKept silent chunks 3 0

capped_test : effective_timeout (some 90) (some 60) ≡ some (some 60)
unfolding effective_timeout
capped_test = refl
