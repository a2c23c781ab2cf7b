-- ===== src/Workflow/Replay.antt =====
-- The replay of the two logs, `replay`, `replay_from` and `replay_with_facts`, and runs of the
-- operations that write them.
pub mod Completions
pub mod Mutations
pub mod RoundTrip
use kernis.Base.{ℕ, Bool, Option, none, some, List, [], ◌∷◌, if◌then◌else◌, ok, err, ◌>>=◌, ◌=ℕ◌}
use kernis.Core.{TextId, Revision, checked_next}
use kernis.Workflow.Graph.{
  WorkflowGraph, WorkflowMutationRecord, CompletionRecord, MutationBatch, Fallible, default,
  complete, apply_batch, revision_conflict, revision_exhausted, replay_revision_mismatch,
}

-- The body of the loop of `replay_from`.
unfoldable pub replay_record : WorkflowMutationRecord → WorkflowGraph → Fallible WorkflowGraph
replay_record r g =
    if r.base_revision =ℕ g.topology_revision
    then elim (checked_next g.topology_revision) [
      | none ↦ err (revision_exhausted g.topology_revision)
      | some expected ↦
          if r.resulting_revision =ℕ expected
          then (let (result, g') = apply_batch r.base_revision r.mutations g in
              result >>= λ _. ok g')
          else err (replay_revision_mismatch expected r.resulting_revision)
    ]
    else err (revision_conflict r.base_revision g.topology_revision)

unfoldable pub replay_from : WorkflowGraph → List WorkflowMutationRecord → Fallible WorkflowGraph
unfolding replay_record
replay_from g [] = ok g
replay_from g (r ∷ rs) = replay_record r g >>= λ g'. replay_from g' rs

unfoldable pub replay : List WorkflowMutationRecord → Fallible WorkflowGraph
unfolding replay_from
replay rs = replay_from default rs

-- The loop of `replay_with_facts` over the completions.
unfoldable pub complete_all : List CompletionRecord → WorkflowGraph → Fallible WorkflowGraph
complete_all [] g = ok g
complete_all (r ∷ rs) g =
    let (result, g') = complete r.task_id g in result >>= λ _. complete_all rs g'

unfoldable pub replay_with_facts :
    List WorkflowMutationRecord → List CompletionRecord → Fallible WorkflowGraph
unfolding replay complete_all
replay_with_facts rs cs = replay rs >>= λ g. complete_all cs g

-- A call of a client, successful or not.
pub data Operation : Type 0 where
  complete_task : TextId → Operation
  mutate : Revision → MutationBatch → Operation

unfoldable pub perform : Operation → WorkflowGraph → WorkflowGraph
perform (complete_task id) g = (complete id g).1
perform (mutate expected batch) g = (apply_batch expected batch g).1

-- The graph after a sequence of calls.
unfoldable pub run : List Operation → WorkflowGraph → WorkflowGraph
unfolding perform
run [] g = g
run (o ∷ os) g = run os (perform o g)
