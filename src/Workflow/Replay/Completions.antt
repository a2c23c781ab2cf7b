-- ===== src/Workflow/Replay/Completions.antt =====
-- The replay of a completion log.
use kernis.Base.{
  ◌≡◌, refl, sym, ap, ◌∙◌, subst, true, List, [], ◌∷◌, ◌++◌, arith, ok, err, fault, ◌>>=◌,
  bind_assoc, >>=-eq-ok, ==_iff,
}
use kernis.Core.{TextId, id_ord}
use kernis.BTree.Set
use kernis.Workflow.Topology.{contains_task, dependencies}
use kernis.Workflow.Graph.{
  WorkflowGraph, CompletionRecord, Fallible, is_completed, complete, record_completion,
}
use kernis.Workflow.Replay.{complete_all}

pub complete_all-append :
    (cs ds : List CompletionRecord) (g : WorkflowGraph)
    → complete_all (cs ++ ds) g ≡ (complete_all cs g >>= complete_all ds)
unfolding complete_all
complete_all-append [] ds g = refl
complete_all-append (c ∷ cs) ds g = simp (complete_all-append cs ds, bind_assoc)

-- `g'` with the facts of `g`.
abbrev pub with_facts_of : WorkflowGraph → WorkflowGraph → WorkflowGraph
with_facts_of g g' = record g' { facts = g.facts }

-- A completion succeeds in another topology where the task is and waits for the same.
complete-moved :
    (id : TextId) (h h₁ g' : WorkflowGraph) (r : CompletionRecord)
    → complete id h ≡ (ok r, h₁)
    → contains_task g'.topology id ≡ true
    → dependencies g'.topology id ≡ dependencies h.topology id
    → complete id (with_facts_of h g') ≡ (ok r, with_facts_of h₁ g')
unfolding complete
complete-moved id h h₁ g' r e c d = ground arith

-- What a completed call of `complete` in the log did.
complete_step :
    (id : TextId) (h : WorkflowGraph) (r : CompletionRecord)
    → (complete id h).0 ≡ ok r
    → (complete id h).1 ≡ record_completion id h
unfolding complete
complete_step id h r e = ground arith

-- A replayed log keeps what is completed, and ends with all its tasks completed.
complete_all-grows :
    (cs : List CompletionRecord) (h g : WorkflowGraph) (v : TextId)
    → complete_all cs h ≡ ok g
    → is_completed h.facts v ≡ true
    → is_completed g.facts v ≡ true
unfolding complete_all is_completed
complete_all-grows [] h g v e c = ground arith
complete_all-grows (x ∷ cs) h g v e c =
    let (r, done, rest) =
      >>=-eq-ok (complete x.task_id h).0 (λ _. complete_all cs (complete x.task_id h).1) e in
    complete_all-grows cs (complete x.task_id h).1 g v rest (
      rw (complete_step x.task_id h r done)
        (ground (arith, Set.contains-insert h.facts.completed x.task_id v)))

complete_ok-IsTask :
    (id : TextId) (h : WorkflowGraph) (r : CompletionRecord)
    → (complete id h).0 ≡ ok r
    → contains_task h.topology id ≡ true
unfolding complete
complete_ok-IsTask id h r e = ground arith

record_completion-IsCompleted :
    (id : TextId) (h : WorkflowGraph) → is_completed (record_completion id h).facts id ≡ true
unfolding is_completed
record_completion-IsCompleted id h =
    ground (arith, Set.contains-insert h.facts.completed id id, ==_iff id id)

-- A log of completions replays in another topology that has the tasks, and where those that the log
-- completes wait for the same.
pub complete_all-moved :
    (cs : List CompletionRecord) (h g g' : WorkflowGraph)
    → complete_all cs h ≡ ok g
    → ((v : TextId) → contains_task h.topology v ≡ true → contains_task g'.topology v ≡ true)
    → ((v : TextId)
        → is_completed g.facts v ≡ true
        → dependencies g'.topology v ≡ dependencies h.topology v)
    → complete_all cs (with_facts_of h g') ≡ ok (with_facts_of g g')
unfolding complete_all
complete_all-moved [] h g g' e t d =
    ap
      (λ (z : Fallible WorkflowGraph). elim z [
        | ok x ↦ ok (with_facts_of x g')
        | err x ↦ err x
        | fault x ↦ fault x
      ])
      e
complete_all-moved (x ∷ cs) h g g' e t d =
    let h₁ = (complete x.task_id h).1 in
    let (r, done, rest) = >>=-eq-ok (complete x.task_id h).0 (λ _. complete_all cs h₁) e in
    let step = complete_step x.task_id h r done in
    let topology = ap (λ (z : WorkflowGraph). z.topology) step in
    let completed =
      complete_all-grows cs h₁ g x.task_id rest
        (rw step (record_completion-IsCompleted x.task_id h)) in
    let moved =
      complete-moved x.task_id h h₁ g' r (ground arith)
        (t x.task_id (complete_ok-IsTask x.task_id h r done)) (d x.task_id completed) in
    rw moved (
      complete_all-moved cs h₁ g g' rest
        (λ v c. t v (subst (λ z. contains_task z v ≡ true) topology c))
        (λ v c. d v c ∙ ap (λ z. dependencies z v) (sym topology)))
