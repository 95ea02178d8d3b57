-- ===== src/Composer/Completion.antt =====
-- The end of a response: `_complete_response` of `ResponseComposer`.
use vllm_responses.Prelude.{Option, none, some, List, []}
use vllm_responses.Events.{UsageFinal, IncompleteReason}
use vllm_responses.Items.{ResponsesResponse, ResponsesUsage, Output, completed, incomplete}
use vllm_responses.Prelude.Result.{ok}
use vllm_responses.Stream.{lifecycle, response_completed, response_incomplete}
use vllm_responses.Composer.State.{Environment, Action, ◌>>=◌, ◌>>◌, gets, emit}

unfoldable pub set_response : ResponsesResponse → Action (Unit {0})
set_response r s = record { state = record s { response = r }; events = []; result = ok tt }

abbrev pub usage_of : UsageFinal → ResponsesUsage
usage_of event = record {
  input_tokens = event.input_tokens;
  cached_tokens = event.cache_read_tokens;
  output_tokens = event.output_tokens;
  reasoning_tokens = event.reasoning_tokens;
  total_tokens = event.total_tokens;
}

unfoldable pub final_response :
    Environment
    → UsageFinal
    → List Output
    → Option IncompleteReason
    → ResponsesResponse
    → ResponsesResponse
final_response env event outputs (some reason) r = record r {
  usage = some (usage_of event);
  output = outputs;
  status = some incomplete;
  incomplete_details = some reason;
  completed_at = none;
}
final_response env event outputs none r = record r {
  usage = some (usage_of event);
  output = outputs;
  status = some completed;
  incomplete_details = none;
  completed_at = some env.time;
}

unfoldable pub finish_as : Option IncompleteReason → ResponsesResponse → Action (Unit {0})
unfolding emit
finish_as (some reason) r = emit (λ n. lifecycle response_incomplete n r)
finish_as none r = emit (λ n. lifecycle response_completed n r)

unfoldable pub complete_response : Environment → UsageFinal → Action (Unit {0})
unfolding gets set_response finish_as
complete_response env event = do
  r ← gets (λ s. final_response env event s.output_items event.incomplete_reason s.response)
  set_response r
  finish_as event.incomplete_reason r
